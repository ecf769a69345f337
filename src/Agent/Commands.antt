-- ===== src/Agent/Commands.antt =====
-- pkg/agent/commands: the command handlers.
pub mod Dispatch
pub mod Log
pub mod Augment
pub mod CsrSign
