-- ===== src/Process.antt =====
-- src/process.rs: what the program knows of a process, and how it reads it.
pub mod Identity
pub mod Stat
pub mod Environ
pub mod Procfs
pub mod Samples
mod Tests
