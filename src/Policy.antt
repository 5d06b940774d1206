-- ===== src/Policy.antt =====
-- src/policy.rs: who may open which configuration path.
mod Tests
pub mod Types
pub mod Subject
pub mod Decide
pub mod Defaults
pub mod Matching
pub mod AncestorRule
pub mod Grammar
pub mod Ownership
pub mod Precedence
