-- ===== src/Fanotify/Guard.antt =====
-- src/fanotify/guard.rs: the guard loop, which answers permission events, and the coordinator of the
-- questions that a worker thread puts to the user.
pub mod Types
pub mod Coordinator
pub mod Loop
pub mod Poll
pub mod Answers
pub mod Tables
pub mod Invariant
pub mod Queued
pub mod Conservation
pub mod Fallback
pub mod Events
pub mod Verdict
pub mod Completion
pub mod Within
pub mod Turns
pub mod Samples
pub mod Worker
mod Tests
mod LoopTests
