-- ===== src/Champ.antt =====
-- crates/peergos-core/src/champ.rs: the compressed hash-array mapped prefix tree.
pub mod Bitmap
pub mod Node
pub mod NodeCbor
pub mod Equal
pub mod Tree
pub mod Write
pub mod Wrapper
pub mod NodeRoundTrip
mod Runs
pub mod BitLaws
pub mod Buckets
pub mod Gives
pub mod PutGet
