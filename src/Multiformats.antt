-- ===== src/Multiformats.antt =====
-- crates/peergos-multiformats: varints, multihashes, CIDs and their text encodings.
pub mod Error
pub mod Varint
pub mod Multihash
pub mod Cid
pub mod Bases
pub mod Multibase
pub mod Text
mod Runs
mod TextRuns
