-- ===== src/Buffered/Storage.antt =====
-- crates/peergos-core/src/buffered.rs: `BufferedStorage`, and `build_cid` of src/storage.rs. A lock is
-- held for one access, so the state is passed on. The hash function and the reads of the target are
-- parameters; a read has its owner and its bat fixed.
use rust_peergos_client.Common.{
  ℕ, ◌+◌, Bool, true, false, not, Option, none, some, List, [], ◌∷◌, Bytes, length, if◌then◌else◌,
  ◌==◌, Result, ok, err, ◌>>=◌,
}
use rust_peergos_client.Common.Text.{Text}
use rust_peergos_client.Multiformats.Error.{MfError}
use rust_peergos_client.Multiformats.Multihash.{sha2_256, is_identity}
use rust_peergos_client.Multiformats.Cid.{Cid, raw, dag_cbor, new_cid}
use rust_peergos_client.Buffered.CidMap.{CidMap, lookup, insert}
use rust_peergos_client.Buffered.Cache.{BlockCache, new_cache, get, put}

pub data BufferError : Type 0 where
  length_mismatch panicked : BufferError
  multiformats : MfError → BufferError
  target_failed : Text → BufferError

-- A `PublicKeyHash` is the CID of the key.
abbrev pub PublicKeyHash : Type 0
PublicKeyHash = Cid

pub record BufferedBlock : Type 0 where
  pub block : Bytes
  pub signature : Bytes
  pub owner : PublicKeyHash
  pub writer : PublicKeyHash
  pub is_raw : Bool

pub record BufferedStorage : Type 0 where
  pub buffer : CidMap BufferedBlock
  pub cache : BlockCache

unfoldable pub new_storage : ℕ → BufferedStorage
unfolding new_cache
new_storage read_cache_size = record { buffer = []; cache = new_cache read_cache_size }

unfoldable pub is_empty : BufferedStorage → Bool
is_empty self = length self.buffer == 0

abbrev pub is_buffered : Option BufferedBlock → Bool
is_buffered none = false
is_buffered (some b) = true

unfoldable pub has_buffered_block : BufferedStorage → Cid → Bool
has_buffered_block self cid = is_buffered (lookup cid self.buffer)

abbrev sum_sizes : CidMap BufferedBlock → ℕ
sum_sizes [] = 0
sum_sizes ((c, b) ∷ m) = length b.block + sum_sizes m

unfoldable pub total_size : BufferedStorage → ℕ
total_size self = sum_sizes self.buffer

unfoldable pub clear : BufferedStorage → BufferedStorage
clear self = record { buffer = []; cache = self.cache }

module _ (sha256 : Bytes → Bytes) where
  unfoldable pub build_cid : Bytes → Bool → Result BufferError Cid
  build_cid block is_raw =
      elim (new_cid 1 (if is_raw then raw else dag_cbor) sha2_256 (sha256 block)) [
        | ok c ↦ ok c
        | err e ↦ err (multiformats e)
      ]

  -- The loop of `buffer_put`, over the blocks with their signatures.
  unfoldable pub put_each :
      PublicKeyHash
      → PublicKeyHash
      → Bool
      → List Bytes
      → List Bytes
      → CidMap BufferedBlock
      → Result BufferError (CidMap BufferedBlock × List Cid)
  put_each owner writer is_raw (s ∷ signed) (b ∷ blocks) buf = build_cid b is_raw >>= λ cid.
      put_each owner writer is_raw signed blocks (
        insert cid
          (record { block = b; signature = s; owner = owner; writer = writer; is_raw = is_raw })
          buf)
      >>= λ (buf', cids). ok (buf', cid ∷ cids)
  put_each owner writer is_raw _ _ buf = ok (buf, [])

  unfoldable pub buffer_put :
      PublicKeyHash
      → PublicKeyHash
      → List Bytes
      → List Bytes
      → Bool
      → BufferedStorage
      → Result BufferError (BufferedStorage × List Cid)
  unfolding put_each
  buffer_put owner writer signed blocks is_raw self =
      if not (length signed == length blocks)
      then err length_mismatch
      else (put_each owner writer is_raw signed blocks self.buffer >>= λ (buf, cids).
          ok (record { buffer = buf; cache = self.cache }, cids))

module _ (fetch : Cid → Result BufferError (Option Bytes)) where
  unfoldable pub get_raw :
      BufferedStorage → Cid → Result BufferError (BufferedStorage × Option Bytes)
  unfolding get put
  get_raw self hash =
      if is_identity hash.multihash
      then ok (self, some hash.multihash.hash)
      else elim (lookup hash self.buffer) [
        | some b ↦ ok (self, some b.block)
        | none ↦ elim (get self.cache hash) [
          | some cached ↦ ok (self, some cached)
          | none ↦ fetch hash >>= λ fetched. ok (
            elim fetched [
              | none ↦ self
              | some bytes ↦ record { buffer = self.buffer; cache = put self.cache hash bytes }
            ],
            fetched,
          )
        ]
      ]
