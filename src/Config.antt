-- ===== src/Config.antt =====
-- pkg/config: the configuration of the agent and of its metadata collectors.
pub mod Kubernetes
pub mod Collectors
pub mod Settings
pub mod Environment
pub mod Samples
mod Tests
