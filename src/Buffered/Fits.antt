-- ===== src/Buffered/Fits.antt =====
-- crates/peergos-core/src/buffered.rs: the groups of a commit that is split are within the bounds of a call.
use rust_peergos_client.Common.{
  ℕ, ◌+◌, ◌-◌, ◌≤◌, ◌≡◌, refl, sym, ap, ◌∙◌, arith, Bool-cases, false, ◌&&◌, inl, inr, List, [],
  ◌∷◌, ◌++◌, append_assoc, append-nil, length, length-append, if◌then◌else◌, ltb, leb, ◌==◌, All,
}
use rust_peergos_client.Buffered.Order.{InlineBlock}
use rust_peergos_client.Buffered.Groups.{
  max_bulk_commit_blocks, max_bulk_inline, sum_blocks, group_full, cut_groups,
}
use rust_peergos_client.Buffered.Split.{take_top}

-- The final call takes the front of the blocks, within its budgets.
take_top-whole :
    (budget count_budget : ℕ) (blocks : List InlineBlock)
    → let t = take_top budget count_budget blocks in
      (t.top ++ t.rest ≡ blocks)
      × (sum_blocks t.top + t.budget ≡ budget)
      × (length t.top + t.count_budget ≡ count_budget)
unfolding take_top
take_top-whole budget count_budget [] = (refl, omega arith, omega arith)
take_top-whole budget count_budget (b ∷ bs) =
    let (whole, size, count) = take_top-whole (budget - length b.block) (count_budget - 1) bs in
    elim (Bool-cases (leb (length b.block) budget && ltb 0 count_budget)) [
      | inl t ↦ rw t (ap (λ x. b ∷ x) whole, ground (arith, t, size), ground (arith, t, count))
      | inr f ↦ rw f (refl, omega arith, omega arith)
    ]

sum_blocks-snoc :
    (bs : List InlineBlock) (b : InlineBlock)
    → sum_blocks (bs ++ (b ∷ [])) ≡ sum_blocks bs + length b.block
sum_blocks-snoc [] b = omega arith
sum_blocks-snoc (c ∷ bs) b = omega (arith, sum_blocks-snoc bs b)

-- A block with some bytes that fits in a call.
abbrev pub IsSmall : InlineBlock → Type 0
IsSmall b = (1 ≤ length b.block) × (length b.block ≤ max_bulk_inline)

abbrev pub IsGroup : List InlineBlock → Type 0
IsGroup g =
    (length g ≤ sum_blocks g)
    × (sum_blocks g ≤ max_bulk_inline)
    × (length g ≤ max_bulk_commit_blocks)

abbrev pub concat_blocks : List (List InlineBlock) → List InlineBlock
concat_blocks [] = []
concat_blocks (g ∷ gs) = g ++ concat_blocks gs

cut_last :
    (current : List InlineBlock)
    → concat_blocks (if length current == 0 then [] else current ∷ []) ≡ current
cut_last [] = refl
cut_last (b ∷ bs) =
    let some_blocks : (length (b ∷ bs) == 0) ≡ false = ground arith in
    rw some_blocks (append-nil (b ∷ bs))

pub cut_groups-IsGroup :
    (current blocks : List InlineBlock)
    → All IsSmall blocks
    → IsGroup current
    → (concat_blocks (cut_groups current blocks) ≡ current ++ blocks)
      × All IsGroup (cut_groups current blocks)
unfolding cut_groups
cut_groups-IsGroup current [] small h = (
  cut_last current ∙ sym (append-nil current),
  elim (Bool-cases (length current == 0)) [ inl t ↦ rw t tt | inr f ↦ rw f (h, tt) ],
)
cut_groups-IsGroup current (b ∷ bs) ((some_bytes, fits), small) (dense, size, count) =
    elim (Bool-cases (group_full current b)) [
      | inl t ↦
          let (whole, groups) =
            cut_groups-IsGroup (b ∷ []) bs small (omega arith, omega arith, omega arith) in
          rw t (ap (λ x. current ++ x) whole, ((dense, size, count), groups))
      | inr f ↦
          let sum = sum_blocks-snoc current b in
          let more = length-append current (b ∷ []) in
          let (whole, groups) = cut_groups-IsGroup (current ++ (b ∷ [])) bs small (
            omega (arith, sum, more),
            elim (Bool-cases (length current == 0)) [
              | inl z ↦ sum_alone current b fits (ground (arith, z))
              | inr n ↦ ground (arith, f, n, sum)
            ],
            elim (Bool-cases (length current == 0)) [
              | inl z ↦ ground (arith, z, more)
              | inr n ↦ ground (arith, f, n, more)
            ],
          ) in
          rw f (whole ∙ append_assoc current (b ∷ []) bs, groups)
    ]
  where
    sum_alone :
        (cs : List InlineBlock) (b : InlineBlock)
        → length b.block ≤ max_bulk_inline
        → length cs ≡ 0
        → sum_blocks (cs ++ (b ∷ [])) ≤ max_bulk_inline
    sum_alone [] b h e = omega arith
    sum_alone (c ∷ cs) b h e = ground arith
