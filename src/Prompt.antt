-- ===== src/Prompt.antt =====
-- src/prompt.rs: the question put to the user, its answers, and the ancestry authorizations.
mod Tests
pub mod Types
pub mod Ancestry
pub mod Adapters
pub mod Texts
pub mod Authd
pub mod Reply
pub mod OwnerChain
pub mod Inspected
