-- ===== src/Buffered/BatchLaws.antt =====
-- crates/peergos-core/src/buffered.rs: the batches of `commit_blocks` hold all the blocks, within the bounds.
use rust_peergos_client.Common.{
  ℕ, ◌+◌, ◌≤◌, ◌<◌, ◌≡◌, refl, sym, ap, ◌∙◌, arith, Bool, Bool-cases, true, false, inl, inr, ◌⊎◌,
  List, [], ◌∷◌, ◌++◌, append_assoc, append-nil, Bytes, length, length-append, if◌then◌else◌, leb,
  ◌==◌, All,
}
use rust_peergos_client.Buffered.Storage.{PublicKeyHash}
use rust_peergos_client.Buffered.Batches.{
  Batch, Filling, nothing, push_item, last_batch, is_full, cbor_batches, raw_batches,
  max_block_auths, max_cbor_batch_size, max_cbor_blocks_per_batch,
}

unfoldable pub sum_lengths : List Bytes → ℕ
sum_lengths [] = 0
sum_lengths (b ∷ bs) = length b + sum_lengths bs

-- The blocks of batches, and of items, in order.
abbrev pub blocks_of : List Batch → List Bytes
blocks_of [] = []
blocks_of (b ∷ bs) = b.blocks ++ blocks_of bs

abbrev pub items_blocks : List (Bytes × Bytes) → List Bytes
items_blocks [] = []
items_blocks ((s, b) ∷ items) = b ∷ items_blocks items

-- A batch that the server takes: a signature for each block, some blocks and not too many, and no more
-- bytes than the bound unless it is a single block.
abbrev pub IsCborBatch : Batch → Type 0
IsCborBatch b =
    (length b.signatures ≡ length b.blocks)
    × (1 ≤ length b.blocks)
    × (length b.blocks ≤ max_cbor_blocks_per_batch)
    × ((sum_lengths b.blocks ≤ max_cbor_batch_size) ⊎ (length b.blocks ≡ 1))

abbrev pub IsRawBatch : Batch → Type 0
IsRawBatch b =
    (length b.signatures ≡ length b.blocks)
    × (1 ≤ length b.blocks)
    × (length b.blocks ≤ max_block_auths)

abbrev IsFilling : Filling → Type 0
IsFilling f =
    (length f.signatures ≡ length f.blocks)
    × (f.size ≡ sum_lengths f.blocks)
    × (length f.blocks ≤ max_cbor_blocks_per_batch)
    × ((f.size ≤ max_cbor_batch_size) ⊎ (length f.blocks ≡ 1))

sum_lengths-snoc :
    (bs : List Bytes) (b : Bytes) → sum_lengths (bs ++ (b ∷ [])) ≡ sum_lengths bs + length b
unfolding sum_lengths
sum_lengths-snoc [] b = omega arith
sum_lengths-snoc (c ∷ bs) b = omega (arith, sum_lengths-snoc bs b)

module _ (writer : PublicKeyHash) where
  last_batch-blocks :
      (is_raw : Bool) (f : Filling) → blocks_of (last_batch writer is_raw f) ≡ f.blocks
  unfolding last_batch
  last_batch-blocks is_raw f = by_blocks f.blocks
    where
      by_blocks :
          (bs : List Bytes)
          → blocks_of (
              if length bs == 0
              then []
              else record {
                writer = writer;
                is_raw = is_raw;
                signatures = f.signatures;
                blocks = bs;
              }
                ∷ [])
            ≡ bs
      by_blocks [] = refl
      by_blocks (b ∷ bs) =
          let some_blocks : (length (b ∷ bs) == 0) ≡ false = ground arith in
          rw some_blocks (append-nil (b ∷ bs))

  cbor_batches-blocks :
      (f : Filling) (items : List (Bytes × Bytes))
      → blocks_of (cbor_batches writer f items) ≡ f.blocks ++ items_blocks items
  unfolding cbor_batches
  cbor_batches-blocks f [] = last_batch-blocks false f ∙ sym (append-nil f.blocks)
  cbor_batches-blocks f ((s, b) ∷ items) = elim (Bool-cases (is_full writer f b)) [
    | inl t ↦
        let rest = cbor_batches-blocks (push_item nothing (s, b)) items in
        rw t (ap (λ x. f.blocks ++ x) rest)
    | inr n ↦
        let rest = cbor_batches-blocks (push_item f (s, b)) items in
        rw n (rest ∙ append_assoc f.blocks (b ∷ []) (items_blocks items))
  ]

  last_batch-IsCborBatch : (f : Filling) → IsFilling f → All IsCborBatch (last_batch writer false f)
  unfolding last_batch
  last_batch-IsCborBatch f (signed, size, count, small) = elim (Bool-cases (length f.blocks == 0)) [
    | inl t ↦ rw t tt
    | inr n ↦ rw n ((signed, ground (arith, n), count, rw (sym size) small), tt)
  ]

  first-IsFilling : (s b : Bytes) → IsFilling (push_item nothing (s, b))
  unfolding sum_lengths
  first-IsFilling s b = (refl, omega arith, omega arith, inr refl)

  push_item-IsFilling :
      (f : Filling) (s b : Bytes)
      → is_full writer f b ≡ false
      → IsFilling f
      → IsFilling (push_item f (s, b))
  unfolding sum_lengths
  push_item-IsFilling f s b n (signed, size, count, small) =
      let more = length-append f.blocks (b ∷ []) in
      let signed' : length (f.signatures ++ (s ∷ [])) ≡ length (f.blocks ++ (b ∷ [])) =
        omega (arith, length-append f.signatures (s ∷ []), more, signed) in
      let size' : f.size + length b ≡ sum_lengths (f.blocks ++ (b ∷ [])) =
        omega (arith, size, sum_lengths-snoc f.blocks b) in
      elim (Bool-cases (length f.blocks == 0)) [
        | inl t ↦ (signed', size', ground (arith, t, more), inr (ground (arith, t, more)))
        | inr m ↦ (signed', size', ground (arith, n, m, more), inl (ground (arith, n, m)))
      ]

  cbor_batches-IsCborBatch :
      (f : Filling) (items : List (Bytes × Bytes))
      → IsFilling f
      → All IsCborBatch (cbor_batches writer f items)
  unfolding cbor_batches
  cbor_batches-IsCborBatch f [] h = last_batch-IsCborBatch f h
  cbor_batches-IsCborBatch f ((s, b) ∷ items) (signed, size, count, small) =
      elim (Bool-cases (is_full writer f b)) [
        | inl t ↦
            let rest =
              cbor_batches-IsCborBatch (push_item nothing (s, b)) items (first-IsFilling s b) in
            rw t ((signed, ground (arith, t), count, rw (sym size) small), rest)
        | inr n ↦ rw n (
            cbor_batches-IsCborBatch (push_item f (s, b)) items
              (push_item-IsFilling f s b n (signed, size, count, small)))
      ]

  -- The cbor batches of a writer hold its blocks, all of them and in their order; each has a signature for
  -- each block, from 1 to MAX_CBOR_BLOCKS_PER_BATCH blocks, and at most MAX_CBOR_BATCH_SIZE bytes unless
  -- it is a single block.
  pub cbor_batches_whole :
      (items : List (Bytes × Bytes))
      → (blocks_of (cbor_batches writer nothing items) ≡ items_blocks items)
        × All IsCborBatch (cbor_batches writer nothing items)
  unfolding sum_lengths
  cbor_batches_whole items = (
    cbor_batches-blocks nothing items,
    cbor_batches-IsCborBatch nothing items (refl, refl, omega arith, inl (omega arith)),
  )

  raw_batches-blocks :
      (f : Filling) (items : List (Bytes × Bytes))
      → blocks_of (raw_batches writer f items) ≡ f.blocks ++ items_blocks items
  unfolding raw_batches
  raw_batches-blocks f [] = last_batch-blocks true f ∙ sym (append-nil f.blocks)
  raw_batches-blocks f ((s, b) ∷ items) =
      let assoc = append_assoc f.blocks (b ∷ []) (items_blocks items) in
      elim (Bool-cases (leb max_block_auths (length (f.blocks ++ (b ∷ []))))) [
        | inl t ↦
            rw t (ap (λ x. (f.blocks ++ (b ∷ [])) ++ x) (raw_batches-blocks nothing items) ∙ assoc)
        | inr n ↦ rw n (raw_batches-blocks (push_item f (s, b)) items ∙ assoc)
      ]

  raw_batches-IsRawBatch :
      (f : Filling) (items : List (Bytes × Bytes))
      → length f.signatures ≡ length f.blocks
      → length f.blocks < max_block_auths
      → All IsRawBatch (raw_batches writer f items)
  unfolding raw_batches last_batch
  raw_batches-IsRawBatch f [] signed room = elim (Bool-cases (length f.blocks == 0)) [
    | inl t ↦ rw t tt
    | inr n ↦ rw n ((signed, ground (arith, n), omega arith), tt)
  ]
  raw_batches-IsRawBatch f ((s, b) ∷ items) signed room =
      let more = length-append f.blocks (b ∷ []) in
      let signed' : length (f.signatures ++ (s ∷ [])) ≡ length (f.blocks ++ (b ∷ [])) =
        omega (arith, length-append f.signatures (s ∷ []), more, signed) in
      elim (Bool-cases (leb max_block_auths (length (f.blocks ++ (b ∷ []))))) [
        | inl t ↦
            let rest = raw_batches-IsRawBatch nothing items refl (omega arith) in
            rw t ((signed', omega (arith, more), omega (arith, more, room)), rest)
        | inr n ↦
            rw n (raw_batches-IsRawBatch (push_item f (s, b)) items signed' (ground (arith, n)))
      ]

  -- The raw batches of a writer hold its blocks, all of them and in their order; each has a signature for
  -- each block and from 1 to MAX_BLOCK_AUTHS blocks.
  pub raw_batches_whole :
      (items : List (Bytes × Bytes))
      → (blocks_of (raw_batches writer nothing items) ≡ items_blocks items)
        × All IsRawBatch (raw_batches writer nothing items)
  raw_batches_whole items =
      (raw_batches-blocks nothing items, raw_batches-IsRawBatch nothing items refl (omega arith))
