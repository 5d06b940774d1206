-- ===== src/Fanotify.antt =====
-- src/fanotify.rs and its modules: the event loops and what they remember.
pub mod PromptResolution
pub mod AuditIdentity
pub mod AuditProcess
pub mod Events
pub mod Watch
pub mod Startup
pub mod EventBuffer
pub mod Guard
pub mod Audit
