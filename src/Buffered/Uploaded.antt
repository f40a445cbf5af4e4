-- ===== src/Buffered/Uploaded.antt =====
-- crates/peergos-core/src/buffered.rs: `commit_blocks` uploads every block that it keeps, once.
use rust_peergos_client.Common.{
  ℕ, ◌+◌, ◌≡◌, refl, ap, arith, Bool-cases, inl, inr, List, [], ◌∷◌, ◌++◌, Bytes, length,
  if◌then◌else◌, ltb,
}
use rust_peergos_client.Common.Equality.{eq_bytes}
use rust_peergos_client.Multiformats.Cid.{Cid}
use rust_peergos_client.Champ.Equal.{eq_cid}
use rust_peergos_client.Buffered.CidMap.{CidMap}
use rust_peergos_client.Buffered.Cache.{is_in}
use rust_peergos_client.Buffered.Storage.{PublicKeyHash, BufferedBlock}
use rust_peergos_client.Buffered.Batches.{
  Batch, nothing, cbor_batches, raw_batches, max_small_block_size,
}
use rust_peergos_client.Buffered.BatchLaws.{
  blocks_of, items_blocks, cbor_batches_whole, raw_batches_whole,
}
use rust_peergos_client.Buffered.Flush.{
  Group, Groups, add_item, group_block, group_blocks, no_groups, all_cbor, all_raw, batches_of,
}

module _ (x : Bytes) where
  -- How often a block is in a list.
  unfoldable pub count : List Bytes → ℕ
  count [] = 0
  count (b ∷ bs) = (if eq_bytes b x then 1 else 0) + count bs

  -- How often it is among the blocks of a buffer that are kept.
  unfoldable pub count_kept : List Cid → CidMap BufferedBlock → ℕ
  count_kept keep [] = 0
  count_kept keep ((c, b) ∷ buf) =
      (if is_in c keep then (if eq_bytes b.block x then 1 else 0) else 0) + count_kept keep buf

  abbrev one : Bytes → ℕ
  one b = if eq_bytes b x then 1 else 0

  count-append : (cs bs : List Bytes) → count (cs ++ bs) ≡ count cs + count bs
  unfolding count
  count-append [] bs = omega arith
  count-append (c ∷ cs) bs = omega (arith, count-append cs bs)

  count-blocks_of :
      (cs bs : List Batch)
      → count (blocks_of (cs ++ bs)) ≡ count (blocks_of cs) + count (blocks_of bs)
  unfolding count
  count-blocks_of [] bs = omega arith
  count-blocks_of (c ∷ cs) bs =
      let first = count-append c.blocks (blocks_of (cs ++ bs)) in
      let second = count-append c.blocks (blocks_of cs) in
      omega (arith, first, second, count-blocks_of cs bs)

  unfoldable count_group : Group → ℕ
  count_group [] = 0
  count_group ((w, items) ∷ group) = count (items_blocks items) + count_group group

  abbrev count_groups : Groups → ℕ
  count_groups g = count_group g.cbor + (count_group g.small_raw + count_group g.large_raw)

  count-all_cbor : (group : Group) → count (blocks_of (all_cbor group)) ≡ count_group group
  unfolding count_group all_cbor count
  count-all_cbor [] = refl
  count-all_cbor ((w, items) ∷ group) =
      let split = count-blocks_of (cbor_batches w nothing items) (all_cbor group) in
      let first = ap count (cbor_batches_whole w items).0 in
      omega (arith, split, first, count-all_cbor group)

  count-all_raw : (group : Group) → count (blocks_of (all_raw group)) ≡ count_group group
  unfolding count_group all_raw count
  count-all_raw [] = refl
  count-all_raw ((w, items) ∷ group) =
      let split = count-blocks_of (raw_batches w nothing items) (all_raw group) in
      let first = ap count (raw_batches_whole w items).0 in
      omega (arith, split, first, count-all_raw group)

  count-snoc :
      (s b : Bytes) (items : List (Bytes × Bytes))
      → count (items_blocks (items ++ ((s, b) ∷ []))) ≡ count (items_blocks items) + one b
  unfolding count
  count-snoc s b [] = omega arith
  count-snoc s b (i ∷ items) = omega (arith, count-snoc s b items)

  count-add_item :
      (w : PublicKeyHash) (s b : Bytes) (group : Group)
      → count_group (add_item w (s, b) group) ≡ count_group group + one b
  unfolding count_group add_item count
  count-add_item w s b [] = omega arith
  count-add_item w s b ((v, items) ∷ group) = elim (Bool-cases (eq_cid v w)) [
    | inl t ↦ let more = count-snoc s b items in rw t (omega (arith, more))
    | inr f ↦ let more = count-add_item w s b group in rw f (omega (arith, more))
  ]

  count-group_block :
      (b : BufferedBlock) (groups : Groups)
      → count_groups (group_block b groups) ≡ count_groups groups + one b.block
  unfolding group_block
  count-group_block b groups = elim (Bool-cases b.is_raw) [
    | inr f ↦
        let more = count-add_item b.writer b.signature b.block groups.cbor in
        rw f (omega (arith, more))
    | inl t ↦ elim (Bool-cases (ltb (length b.block) max_small_block_size)) [
      | inl s ↦
          let more = count-add_item b.writer b.signature b.block groups.small_raw in
          rw (t, s) (omega (arith, more))
      | inr l ↦
          let more = count-add_item b.writer b.signature b.block groups.large_raw in
          rw (t, l) (omega (arith, more))
    ]
  ]

  count-group_blocks :
      (keep : List Cid) (buf : CidMap BufferedBlock) (groups : Groups)
      → count_groups (group_blocks keep buf groups) ≡ count_groups groups + count_kept keep buf
  unfolding group_blocks count_kept
  count-group_blocks keep [] groups = omega arith
  count-group_blocks keep ((c, b) ∷ buf) groups = elim (Bool-cases (is_in c keep)) [
    | inl t ↦
        let more = count-group_blocks keep buf (group_block b groups) in
        let block = count-group_block b groups in rw (group_blocks, t) (omega (arith, more, block))
    | inr f ↦
        let more = count-group_blocks keep buf groups in rw (group_blocks, f) (omega (arith, more))
  ]

  -- The batches that commit_blocks uploads have the blocks that it keeps, each as often as the buffer has it:
  -- none is left out, and none is sent twice.
  pub batches_of-count_kept :
      (keep : List Cid) (buf : CidMap BufferedBlock)
      → count (blocks_of (batches_of (group_blocks keep buf no_groups))) ≡ count_kept keep buf
  unfolding batches_of count_group
  batches_of-count_kept keep buf =
      let groups = group_blocks keep buf no_groups in
      let first =
        count-blocks_of (all_cbor groups.cbor)
          (all_raw groups.small_raw ++ all_raw groups.large_raw) in
      let second = count-blocks_of (all_raw groups.small_raw) (all_raw groups.large_raw) in
      let total = count-group_blocks keep buf no_groups in
      omega (
        arith,
        first,
        second,
        total,
        count-all_cbor groups.cbor,
        count-all_raw groups.small_raw,
        count-all_raw groups.large_raw,
      )
