-- ===== src/Buffered.antt =====
-- crates/peergos-core/src/buffered.rs: blocks and pointer updates that wait in memory for a commit.
pub mod SameCid
pub mod CidMap
pub mod Cache
pub mod Storage
pub mod Reads
pub mod Writes
pub mod Batches
pub mod BatchLaws
pub mod Pointers
pub mod Rollback
pub mod Commits
pub mod Latest
pub mod Reachable
pub mod Closed
pub mod Order
pub mod Groups
pub mod Split
pub mod Fits
pub mod Calls
mod SplitRuns
pub mod Flush
pub mod Uploaded
mod Runs
mod PointerRuns
