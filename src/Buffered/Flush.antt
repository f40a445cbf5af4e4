-- ===== src/Buffered/Flush.antt =====
-- crates/peergos-core/src/buffered.rs: `commit_blocks` and `partition_by_root`. The upload of a batch to the
-- target is a parameter; batches are uploaded one after the other, while the source has some in flight at
-- once. A `HashMap` that is iterated is a list in the order of its first insertions.
use rust_peergos_client.Common.{
  Bool, false, not, ◌&&◌, Option, none, some, List, [], ◌∷◌, ◌++◌, Bytes, length, if◌then◌else◌,
  ltb, Result, ok, ◌>>=◌,
}
use rust_peergos_client.Multiformats.Cid.{Cid}
use rust_peergos_client.Champ.Equal.{eq_cid}
use rust_peergos_client.Buffered.CidMap.{CidMap, lookup}
use rust_peergos_client.Buffered.Cache.{is_in}
use rust_peergos_client.Buffered.Storage.{
  BufferError, PublicKeyHash, BufferedBlock, BufferedStorage,
}
use rust_peergos_client.Buffered.Reachable.{reachable}
use rust_peergos_client.Buffered.Batches.{
  Batch, nothing, cbor_batches, raw_batches, max_small_block_size,
}

-- The signatures and blocks of each writer.
abbrev pub Group : Type 0
Group = List (PublicKeyHash × List (Bytes × Bytes))

-- `entry(writer).or_default().push(item)`.
unfoldable pub add_item : PublicKeyHash → Bytes × Bytes → Group → Group
add_item writer item [] = (writer, item ∷ []) ∷ []
add_item writer item ((w, items) ∷ group) =
    let later = add_item writer item group in
    if eq_cid w writer then (w, items ++ (item ∷ [])) ∷ group else (w, items) ∷ later

pub record Groups : Type 0 where
  pub cbor : Group
  pub small_raw : Group
  pub large_raw : Group

unfoldable pub group_block : BufferedBlock → Groups → Groups
unfolding add_item
group_block b groups =
    let item : Bytes × Bytes = (b.signature, b.block) in
    if not b.is_raw
    then record groups { cbor = add_item b.writer item groups.cbor }
    else if ltb (length b.block) max_small_block_size
    then record groups { small_raw = add_item b.writer item groups.small_raw }
    else record groups { large_raw = add_item b.writer item groups.large_raw }

unfoldable pub group_blocks : List Cid → CidMap BufferedBlock → Groups → Groups
unfolding group_block
group_blocks keep [] groups = groups
group_blocks keep ((cid, b) ∷ buf) groups =
    group_blocks keep buf (if is_in cid keep then group_block b groups else groups)

abbrev pub no_groups : Groups
no_groups = record { cbor = []; small_raw = []; large_raw = [] }

unfoldable pub all_cbor : Group → List Batch
all_cbor [] = []
all_cbor ((w, items) ∷ group) = cbor_batches w nothing items ++ all_cbor group

unfoldable pub all_raw : Group → List Batch
all_raw [] = []
all_raw ((w, items) ∷ group) = raw_batches w nothing items ++ all_raw group

unfoldable pub batches_of : Groups → List Batch
unfolding all_cbor all_raw
batches_of groups = all_cbor groups.cbor ++ (all_raw groups.small_raw ++ all_raw groups.large_raw)

abbrev pub has_owner : PublicKeyHash → Option BufferedBlock → Bool
has_owner owner none = false
has_owner owner (some b) = eq_cid b.owner owner

-- The blocks of one owner.
unfoldable pub of_owner : PublicKeyHash → CidMap BufferedBlock → List Cid → List Cid
of_owner owner buf [] = []
of_owner owner buf (c ∷ cs) =
    let rest = of_owner owner buf cs in if has_owner owner (lookup c buf) then c ∷ rest else rest

-- `retain(|c, _| !keep.contains(c))`.
unfoldable pub retain_rest : List Cid → CidMap BufferedBlock → CidMap BufferedBlock
retain_rest keep [] = []
retain_rest keep ((c, b) ∷ buf) =
    let rest = retain_rest keep buf in if not (is_in c keep) then (c, b) ∷ rest else rest

abbrev pub kept_or_none : Option (List Cid) → List Cid
kept_or_none none = []
kept_or_none (some kept) = kept

module _ {T : Type 0} (upload : T → Batch → Result BufferError T) where
  unfoldable pub upload_all : List Batch → T → Result BufferError T
  upload_all [] t = ok t
  upload_all (b ∷ bs) t = upload t b >>= λ t'. upload_all bs t'

  unfoldable pub commit_blocks :
      PublicKeyHash → List Cid → BufferedStorage → T → Result BufferError (BufferedStorage × T)
  unfolding upload_all of_owner
  commit_blocks owner roots self t =
      let keep = of_owner owner self.buffer (kept_or_none (reachable self.buffer roots)) in
      upload_all (batches_of (group_blocks keep self.buffer no_groups)) t >>= λ t'.
      ok (record { buffer = retain_rest keep self.buffer; cache = self.cache }, t')

-- The part of one root, of the blocks that no root before it claimed, and what is claimed then.
unfoldable pub part_of :
    PublicKeyHash
    → CidMap BufferedBlock
    → List Cid
    → List Cid
    → List (Cid × BufferedBlock) × List Cid
part_of owner buf [] claimed = ([], claimed)
part_of owner buf (c ∷ cs) claimed = elim (lookup c buf) [
  | none ↦ part_of owner buf cs claimed
  | some b ↦
      let new = eq_cid b.owner owner && not (is_in c claimed) in
      let (part, claimed') = part_of owner buf cs (if new then c ∷ claimed else claimed) in
      (if new then (c, b) ∷ part else part, claimed')
]

unfoldable pub partition :
    PublicKeyHash
    → CidMap BufferedBlock
    → List (Option Cid)
    → List Cid
    → List (List (Cid × BufferedBlock))
unfolding part_of
partition owner buf [] claimed = []
partition owner buf (root ∷ roots) claimed =
    let reached : List Cid = elim root [
      | none ↦ []
      | some r ↦ kept_or_none (reachable buf (r ∷ []))
    ] in
    let (part, claimed') = part_of owner buf reached claimed in
    part ∷ partition owner buf roots claimed'

unfoldable pub partition_by_root :
    PublicKeyHash → List (Option Cid) → BufferedStorage → List (List (Cid × BufferedBlock))
unfolding partition
partition_by_root owner roots self = partition owner self.buffer roots []
