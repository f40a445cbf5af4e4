-- ===== src/Sync.antt =====
-- crates/peergos-sync: the state of a synchronisation, and the synchronisation of two sides.
pub mod State
pub mod Index
pub mod ByHash
pub mod Marks
mod Runs
pub mod Paths
pub mod FileSystem
pub mod Conflict
pub mod Renames
pub mod Handlers
pub mod Passes
pub mod Plan
pub mod Uploads
pub mod Deletes
pub mod Directories
pub mod Engine
pub mod Lawful
pub mod Names
pub mod KeepBoth
pub mod Agree
pub mod OtherDeletes
pub mod NoDeletes
pub mod RamSide
mod EngineRuns
mod DirRuns
pub mod RenamesFound
pub mod Recorded
pub mod PassRecorded
pub mod DirRecorded
pub mod Batches
pub mod StateCbor
pub mod StateRoundTrip
mod StateRuns
