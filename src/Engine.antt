-- ===== src/Engine.antt =====
-- The storage engine, crates/engine/src.
pub mod Error
pub mod Record
pub mod Index
pub mod File
pub mod Footer
pub mod Recover
pub mod Values
pub mod Log
pub mod Watch
pub mod Store
pub mod Cache
