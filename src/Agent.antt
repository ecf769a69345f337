-- ===== src/Agent.antt =====
-- pkg/agent: the messages of the kernel device, the command handlers and the trace service.
pub mod Messenger
pub mod Commands
pub mod Trace
pub mod Kernel
pub mod Session
pub mod Bus
pub mod Samples
mod Tests
