-- ===== src/Policy.antt =====
-- internal/policy: the policies that the agent loads and sends to the kernel module.
pub mod Types
pub mod Permutations
pub mod Convert
pub mod Subset
pub mod Organize
pub mod Loader
pub mod Samples
mod Tests
