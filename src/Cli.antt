-- ===== src/Cli.antt =====
-- src/main.rs: the commands, and what they make of their arguments before they start.
pub mod Scope
pub mod Aliases
pub mod Settings
pub mod Launch
pub mod Plan
pub mod Commands
pub mod Enforcement
pub mod Guarding
pub mod Reasons
mod Tests
