-- ===== src/Buffered/Batches.antt =====
-- crates/peergos-core/src/buffered.rs: how `commit_blocks` cuts the blocks of a writer into batches.
use rust_peergos_client.Common.{
  ℕ, ◌+◌, ◌*◌, Bool, true, false, not, ◌&&◌, ◌||◌, List, [], ◌∷◌, ◌++◌, Bytes, length,
  if◌then◌else◌, ltb, leb, ◌==◌,
}
use rust_peergos_client.Buffered.Storage.{PublicKeyHash}

abbrev pub max_small_block_size : ℕ
max_small_block_size = 100 * 1024

abbrev pub max_block_auths : ℕ
max_block_auths = 50

abbrev pub max_cbor_batch_size : ℕ
max_cbor_batch_size = 1024 * 1024

abbrev pub max_cbor_blocks_per_batch : ℕ
max_cbor_blocks_per_batch = 1_000

pub record Batch : Type 0 where
  pub writer : PublicKeyHash
  pub is_raw : Bool
  pub signatures : List Bytes
  pub blocks : List Bytes

-- The batch that is being filled, with the bytes of its blocks.
pub record Filling : Type 0 where
  pub signatures : List Bytes
  pub blocks : List Bytes
  pub size : ℕ

abbrev pub nothing : Filling
nothing = record { signatures = []; blocks = []; size = 0 }

abbrev pub push_item : Filling → Bytes × Bytes → Filling
push_item f (signature, block) = record {
  signatures = f.signatures ++ (signature ∷ []);
  blocks = f.blocks ++ (block ∷ []);
  size = f.size + length block;
}

module _ (writer : PublicKeyHash) where
  abbrev pub close : Bool → Filling → Batch
  close is_raw f = record {
    writer = writer;
    is_raw = is_raw;
    signatures = f.signatures;
    blocks = f.blocks;
  }

  -- What is left when the items end.
  unfoldable pub last_batch : Bool → Filling → List Batch
  last_batch is_raw f = if length f.blocks == 0 then [] else close is_raw f ∷ []

  abbrev pub is_full : Filling → Bytes → Bool
  is_full f block =
      not (length f.blocks == 0)
      && (ltb max_cbor_batch_size (f.size + length block)
          || leb max_cbor_blocks_per_batch (length f.blocks))

  unfoldable pub cbor_batches : Filling → List (Bytes × Bytes) → List Batch
  unfolding last_batch
  cbor_batches f [] = last_batch false f
  cbor_batches f ((signature, block) ∷ items) =
      let full = is_full f block in
      let rest = cbor_batches (push_item (if full then nothing else f) (signature, block)) items in
      if full then close false f ∷ rest else rest

  unfoldable pub raw_batches : Filling → List (Bytes × Bytes) → List Batch
  unfolding last_batch
  raw_batches f [] = last_batch true f
  raw_batches f (item ∷ items) =
      let f' = push_item f item in
      let full = leb max_block_auths (length f'.blocks) in
      let rest = raw_batches (if full then nothing else f') items in
      if full then close true f' ∷ rest else rest
