-- ===== src/Buffered/Reachable.antt =====
-- crates/peergos-core/src/buffered.rs: the blocks that a commit keeps, `reachable`.
use rust_peergos_client.Common.{
  ℕ, suc, zero, ◌+◌, ◌≤◌, ◌≡◌, refl, arith, Bool-cases, true, false, inl, inr, Option, Option-cases,
  none, some, Bool, List, [], ◌∷◌, Bytes, length, if◌then◌else◌, ok, err,
}
use rust_peergos_client.Cbor.Object.{links}
use rust_peergos_client.Cbor.Decode.{from_bytes}
use rust_peergos_client.Multiformats.Cid.{Cid, cast}
use rust_peergos_client.Champ.Equal.{eq_cid}
use rust_peergos_client.Buffered.SameCid.{eq_cid_refl, eq_cid_sound}
use rust_peergos_client.Buffered.CidMap.{CidMap, lookup}
use rust_peergos_client.Buffered.Cache.{is_in}
use rust_peergos_client.Buffered.Storage.{BufferedBlock}

unfoldable pub cast_all : List Bytes → List Cid
cast_all [] = []
cast_all (l ∷ ls) = elim (cast l) [ ok c ↦ c ∷ cast_all ls | err e ↦ cast_all ls ]

-- The links of a block that are CIDs; a raw block has none, and neither has one that does not decode.
unfoldable pub links_of : Bytes → Bool → List Cid
unfolding cast_all
links_of block is_raw =
    if is_raw then [] else elim (from_bytes block) [ ok cbor ↦ cast_all (links cbor) | err e ↦ [] ]

unfoldable pub block_links : BufferedBlock → List Cid
unfolding links_of
block_links b = links_of b.block b.is_raw

-- `push` of each, on a stack with its top first.
abbrev pub push_all : List Cid → List Cid → List Cid
push_all [] stack = stack
push_all (c ∷ cs) stack = push_all cs (c ∷ stack)

module _ (buf : CidMap BufferedBlock) where
  -- The loop takes one unit of fuel for each entry of the stack that it takes.
  unfoldable pub keep_reachable : ℕ → List Cid → List Cid → Option (List Cid)
  keep_reachable fuel [] keep = some keep
  keep_reachable zero (cid ∷ stack) keep = none
  keep_reachable (suc fuel) (cid ∷ stack) keep = elim (is_in cid keep) [
    | true ↦ keep_reachable fuel stack keep
    | false ↦ elim (lookup cid buf) [
      | none ↦ keep_reachable fuel stack keep
      | some b ↦ keep_reachable fuel (push_all (block_links b) stack) (cid ∷ keep)
    ]
  ]

  abbrev sum_links : CidMap BufferedBlock → ℕ
  sum_links [] = 0
  sum_links ((c, b) ∷ m) = length (block_links b) + sum_links m

  -- Enough fuel for any roots: each of them, and each link of a buffered block, is on the stack once.
  abbrev pub enough : List Cid → ℕ
  enough roots = length roots + sum_links buf

  unfoldable pub reachable : List Cid → Option (List Cid)
  reachable roots = keep_reachable (enough roots) (push_all roots []) []

  -- The links of the blocks that are not kept yet.
  unfoldable pending : List Cid → CidMap BufferedBlock → ℕ
  pending keep [] = 0
  pending keep ((c, b) ∷ m) = (if is_in c keep then 0 else length (block_links b)) + pending keep m

  pending-nil : (m : CidMap BufferedBlock) → pending [] m ≡ sum_links m
  unfolding pending is_in
  pending-nil [] = refl
  pending-nil ((c, b) ∷ m) = omega (arith, pending-nil m)

  -- Keeping a block takes away its links, and never adds any.
  pending-keep :
      (keep : List Cid) (cid : Cid) (m : CidMap BufferedBlock)
      → pending (cid ∷ keep) m ≤ pending keep m
  unfolding pending is_in
  pending-keep keep cid [] = omega arith
  pending-keep keep cid ((c, b) ∷ m) = ground (arith, pending-keep keep cid m)

  pending-kept :
      (keep : List Cid) (cid : Cid) (b : BufferedBlock) (m : CidMap BufferedBlock)
      → is_in cid keep ≡ false
      → lookup cid m ≡ some b
      → pending (cid ∷ keep) m + length (block_links b) ≤ pending keep m
  unfolding pending is_in lookup
  pending-kept keep cid b [] out e = cc
  pending-kept keep cid b ((c, d) ∷ m) out e = elim (Bool-cases (eq_cid c cid)) [
    | inl t ↦
        let same = eq_cid_sound c cid t in
        let fewer = pending-keep keep cid m in
        ground (arith, e, t, same, fewer, out, eq_cid_refl cid)
    | inr f ↦
        let rest = pending-kept keep cid b m out (ground (arith, e, f)) in ground (arith, rest)
  ]

  length-push_all : (cs stack : List Cid) → length (push_all cs stack) ≡ length cs + length stack
  length-push_all [] stack = omega arith
  length-push_all (c ∷ cs) stack = omega (arith, length-push_all cs (c ∷ stack))

  keep_reachable_total :
      (fuel : ℕ) (stack keep : List Cid)
      → length stack + pending keep buf ≤ fuel
      → (kept : List Cid) × (keep_reachable fuel stack keep ≡ some kept)
  unfolding keep_reachable
  keep_reachable_total fuel [] keep h = (keep, by_fuel fuel)
    where
      by_fuel : (f : ℕ) → keep_reachable f [] keep ≡ some keep
      by_fuel zero = refl
      by_fuel (suc f) = refl
  keep_reachable_total zero (cid ∷ stack) keep h = ground arith
  keep_reachable_total (suc fuel) (cid ∷ stack) keep h = elim (Bool-cases (is_in cid keep)) [
    | inl t ↦
        let (kept, e) = keep_reachable_total fuel stack keep (omega arith) in
        (kept, rw (keep_reachable, t) e)
    | inr f ↦ elim (Option-cases (lookup cid buf)) [
      | inl n ↦
          let (kept, e) = keep_reachable_total fuel stack keep (omega arith) in
          (kept, rw (keep_reachable, f, n) e)
      | inr (b, s) ↦
          let more = length-push_all (block_links b) stack in
          let fewer = pending-kept keep cid b buf f s in
          let (kept, e) =
            keep_reachable_total fuel (push_all (block_links b) stack) (cid ∷ keep)
              (omega (arith, more, fewer)) in
          (kept, rw (keep_reachable, f, s) e)
    ]
  ]

  pub reachable_total : (roots : List Cid) → (kept : List Cid) × (reachable roots ≡ some kept)
  unfolding reachable
  reachable_total roots =
      let start = pending-nil buf in
      let size = length-push_all roots [] in
      keep_reachable_total (enough roots) (push_all roots []) [] (omega (arith, start, size))
