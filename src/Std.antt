-- ===== src/Std.antt =====
-- The part of the standard library that the program computes with: byte strings, UTF-8 validity,
-- paths and hash maps.
pub mod Bytes
pub mod Utf8
pub mod FilePath
pub mod Map
pub mod Text
pub mod Number
mod Tests
pub mod Distinct
