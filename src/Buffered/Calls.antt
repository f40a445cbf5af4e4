-- ===== src/Buffered/Calls.antt =====
-- crates/peergos-core/src/buffered.rs: the calls of a commit that is split are within the bounds of a call.
use rust_peergos_client.Common.{
  ◌+◌, ◌≤◌, ◌≡◌, refl, sym, ap, ◌∙◌, arith, Bool-cases, false, inl, inr, List, [], ◌∷◌, ◌++◌,
  append_assoc, append-nil, length, if◌then◌else◌, ◌==◌, All, All-append,
}
use rust_peergos_client.Buffered.Storage.{PublicKeyHash}
use rust_peergos_client.Buffered.Order.{InlineBlock}
use rust_peergos_client.Buffered.Groups.{
  max_bulk_commit_blocks, max_bulk_inline, sum_blocks, cut_groups, Call, call_size, call_count,
  call_full, pack_calls, groups_of, all_groups, calls_of,
}
use rust_peergos_client.Buffered.Fits.{IsSmall, IsGroup, concat_blocks, cut_groups-IsGroup}

-- A call that the server takes.
abbrev pub IsCall : Call → Type 0
IsCall call =
    (call_count call ≤ call_size call)
    × (call_size call ≤ max_bulk_inline)
    × (call_count call ≤ max_bulk_commit_blocks)

abbrev IsItem : PublicKeyHash × List InlineBlock → Type 0
IsItem item = IsGroup item.1

abbrev pub concat_calls : List Call → Call
concat_calls [] = []
concat_calls (c ∷ cs) = c ++ concat_calls cs

call_sum-snoc :
    (call : Call) (w : PublicKeyHash) (g : List InlineBlock)
    → (call_size (call ++ ((w, g) ∷ [])) ≡ call_size call + sum_blocks g)
      × (call_count (call ++ ((w, g) ∷ [])) ≡ call_count call + length g)
call_sum-snoc [] w g = (omega arith, omega arith)
call_sum-snoc (i ∷ call) w g =
    let (size, count) = call_sum-snoc call w g in (omega (arith, size), omega (arith, count))

call_empty : (call : Call) → length call ≡ 0 → (call_size call ≡ 0) × (call_count call ≡ 0)
call_empty [] e = (refl, refl)
call_empty (i ∷ call) e = ground arith

pack_last :
    (current : Call) → concat_calls (if length current == 0 then [] else current ∷ []) ≡ current
pack_last [] = refl
pack_last (i ∷ call) =
    let some_groups : (length (i ∷ call) == 0) ≡ false = ground arith in
    rw some_groups (append-nil (i ∷ call))

-- A group that does not start a new call leaves it within the bounds.
call_full-IsCall :
    (current : Call) (w : PublicKeyHash) (g : List InlineBlock)
    → call_full current g ≡ false
    → IsGroup g
    → IsCall current
    → IsCall (current ++ ((w, g) ∷ []))
call_full-IsCall current w g f (dense, small, few) (d, s, c) =
    let (size, count) = call_sum-snoc current w g in
    elim (Bool-cases (length current == 0)) [
      | inl z ↦
          let (no_size, no_count) = call_empty current (ground (arith, z)) in
          (
            omega (arith, size, count, no_size, no_count),
            omega (arith, size, no_size),
            omega (arith, count, no_count),
          )
      | inr n ↦
          (omega (arith, size, count), ground (arith, f, n, size), ground (arith, f, n, count))
    ]

pack_calls-IsCall :
    (current groups : Call)
    → All IsItem groups
    → IsCall current
    → (concat_calls (pack_calls current groups) ≡ current ++ groups)
      × All IsCall (pack_calls current groups)
unfolding pack_calls
pack_calls-IsCall current [] small h = (
  pack_last current ∙ sym (append-nil current),
  elim (Bool-cases (length current == 0)) [ inl t ↦ rw t tt | inr f ↦ rw f (h, tt) ],
)
pack_calls-IsCall current ((w, g) ∷ groups) (group, small) h =
    elim (Bool-cases (call_full current g)) [
      | inl t ↦
          let (dense, size, count) = group in
          let (whole, calls) =
            pack_calls-IsCall ((w, g) ∷ []) groups small (omega arith, omega arith, omega arith) in
          rw t (ap (λ x. current ++ x) whole, (h, calls))
      | inr f ↦
          let (whole, calls) =
            pack_calls-IsCall (current ++ ((w, g) ∷ [])) groups small
              (call_full-IsCall current w g f group h) in
          rw f (whole ∙ append_assoc current ((w, g) ∷ []) groups, calls)
    ]

abbrev IsDeferred : PublicKeyHash × List InlineBlock → Type 0
IsDeferred d = All IsSmall d.1

-- The blocks of a call, in order.
abbrev pub call_blocks : Call → List InlineBlock
call_blocks [] = []
call_blocks ((w, g) ∷ call) = g ++ call_blocks call

call_blocks-append : (c d : Call) → call_blocks (c ++ d) ≡ call_blocks c ++ call_blocks d
call_blocks-append [] d = refl
call_blocks-append ((w, g) ∷ c) d =
    ap (λ x. g ++ x) (call_blocks-append c d) ∙ sym (append_assoc g (call_blocks c) (call_blocks d))

groups_of-IsItem :
    (w : PublicKeyHash) (gs : List (List InlineBlock))
    → All IsGroup gs
    → All IsItem (groups_of w gs) × (call_blocks (groups_of w gs) ≡ concat_blocks gs)
unfolding groups_of
groups_of-IsItem w [] h = (tt, refl)
groups_of-IsItem w (g ∷ gs) (first, h) =
    let (items, whole) = groups_of-IsItem w gs h in ((first, items), ap (λ x. g ++ x) whole)

all_groups-IsItem :
    (deferred : Call)
    → All IsDeferred deferred
    → All IsItem (all_groups deferred) × (call_blocks (all_groups deferred) ≡ call_blocks deferred)
unfolding all_groups
all_groups-IsItem [] h = (tt, refl)
all_groups-IsItem ((w, blocks) ∷ deferred) (small, h) =
    let (whole, groups) =
      cut_groups-IsGroup [] blocks small (omega arith, omega arith, omega arith) in
    let (items, same) = groups_of-IsItem w (cut_groups [] blocks) groups in
    let (more, rest) = all_groups-IsItem deferred h in
    (
      All-append IsItem (groups_of w (cut_groups [] blocks)) (all_groups deferred) items more,
      call_blocks-append (groups_of w (cut_groups [] blocks)) (all_groups deferred)
          ∙ (ap (λ x. x ++ call_blocks (all_groups deferred)) (same ∙ whole)
              ∙ ap (λ x. blocks ++ x) rest),
    )

-- The blocks that a split commit leaves for the calls before the final one, where each has some bytes and fits
-- in a call, are in those calls, all of them and in their order; and each call has at most
-- MAX_BULK_INLINE bytes and MAX_BULK_COMMIT_BLOCKS blocks.
pub calls_of-IsCall :
    (deferred : Call)
    → All (λ (d : PublicKeyHash × List InlineBlock). All IsSmall d.1) deferred
    → (call_blocks (concat_calls (calls_of deferred)) ≡ call_blocks deferred)
      × All IsCall (calls_of deferred)
unfolding calls_of
calls_of-IsCall deferred small =
    let (items, same) = all_groups-IsItem deferred small in
    let (whole, calls) =
      pack_calls-IsCall [] (all_groups deferred) items (omega arith, omega arith, omega arith) in
    (ap call_blocks whole ∙ same, calls)
