-- ===== src/Cli.antt =====
-- internal/cli: the commands of the command line.
pub mod GeneratePolicy
pub mod Authority
pub mod Terminal
pub mod Ca
pub mod Commander
pub mod Agent
pub mod Root
pub mod Process
mod Tests
