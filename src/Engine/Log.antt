-- ===== src/Engine/Log.antt =====
-- crates/engine/src/log/mod.rs: a namespace's log. Every method runs from its first line to its last
-- with no other method between; the stripes of the source give that for writes of one key. No
-- reclaim or other flush runs meanwhile, so `await_reclaim` returns at once.
pub mod State
pub mod Write
pub mod Delete
pub mod Read
pub mod ReadBack
pub mod Tracks
pub mod Crash
pub mod Revisions
pub mod Placed
pub mod Seal
pub mod Flush
