-- ===== src/Buffered/Writes.antt =====
-- crates/peergos-core/src/buffered.rs: what `buffer_put` leaves in a `BufferedStorage`.
use rust_peergos_client.Common.{ℕ, ◌≡◌, true, some, List, Bytes, length, All, ok}
use rust_peergos_client.Multiformats.Cid.{Cid}
use rust_peergos_client.Buffered.CidMap.{CidMap, lookup}
use rust_peergos_client.Buffered.Storage.{BufferedBlock, is_buffered, build_cid}

module _ (sha256 : Bytes → Bytes) where
  -- Every block is stored under the CID of its bytes.
  abbrev pub IsAddressed : CidMap BufferedBlock → Type 0
  IsAddressed buf =
      (c : Cid) (b : BufferedBlock)
      → lookup c buf ≡ some b
      → build_cid sha256 b.block b.is_raw ≡ ok c

  -- The blocks of a buffer stay, and those that were put are there.
  abbrev pub Stored : ℕ → CidMap BufferedBlock → CidMap BufferedBlock × List Cid → Type 0
  Stored n buf t =
      IsAddressed t.0
      × ((c : Cid) → is_buffered (lookup c buf) ≡ true → is_buffered (lookup c t.0) ≡ true)
      × All (λ c. is_buffered (lookup c t.0) ≡ true) t.1
      × (length t.1 ≡ n)
