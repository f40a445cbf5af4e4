-- ===== src/Cbor.antt =====
-- crates/peergos-cbor: the deterministic CBOR codec.
pub mod Object
pub mod BtreeMap
pub mod Encode
pub mod Decode
pub mod Header
pub mod Valid
pub mod KeyOrder
pub mod Size
pub mod Insertion
pub mod Arms
pub mod RoundTrip
pub mod Consumes
pub mod SortedInsert
pub mod Sound
pub mod Accepts
pub mod Codec
pub mod MapLaws
mod Runs
