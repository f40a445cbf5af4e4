-- ===== src/Buffered/Groups.antt =====
-- crates/peergos-core/src/buffered.rs: the calls with blocks only that `split` makes.
use rust_peergos_client.Common.{
  ℕ, ◌+◌, ◌-◌, ◌*◌, Bool, not, ◌&&◌, ◌||◌, List, [], ◌∷◌, ◌++◌, length, if◌then◌else◌, ltb, leb,
  ◌==◌,
}
use rust_peergos_client.Buffered.Storage.{PublicKeyHash}
use rust_peergos_client.Buffered.Order.{InlineBlock}

abbrev pub max_bulk_commit_blocks : ℕ
max_bulk_commit_blocks = 1_000

abbrev pub max_bulk_inline : ℕ
max_bulk_inline = 2 * 1024 * 1024 - 64 * 1024

abbrev pub sum_blocks : List InlineBlock → ℕ
sum_blocks [] = 0
sum_blocks (b ∷ bs) = length b.block + sum_blocks bs

-- The groups of the blocks of one writer. The counters of the source are the sums over the current group,
-- and over the current call below.
abbrev pub group_full : List InlineBlock → InlineBlock → Bool
group_full current b =
    not (length current == 0)
    && (ltb max_bulk_inline (sum_blocks current + length b.block)
        || leb max_bulk_commit_blocks (length current))

unfoldable pub cut_groups : List InlineBlock → List InlineBlock → List (List InlineBlock)
cut_groups current [] = if length current == 0 then [] else current ∷ []
cut_groups current (b ∷ bs) =
    let full = group_full current b in
    let rest = cut_groups ((if full then [] else current) ++ (b ∷ [])) bs in
    if full then current ∷ rest else rest

-- The groups of a call, each with its writer.
abbrev pub Call : Type 0
Call = List (PublicKeyHash × List InlineBlock)

abbrev pub call_size : Call → ℕ
call_size [] = 0
call_size ((w, g) ∷ call) = sum_blocks g + call_size call

abbrev pub call_count : Call → ℕ
call_count [] = 0
call_count ((w, g) ∷ call) = length g + call_count call

abbrev pub call_full : Call → List InlineBlock → Bool
call_full current g =
    not (length current == 0)
    && (ltb 0 (call_size current)
        && (ltb max_bulk_inline (call_size current + sum_blocks g)
            || ltb max_bulk_commit_blocks (call_count current + length g)))

unfoldable pub pack_calls : Call → Call → List Call
pack_calls current [] = if length current == 0 then [] else current ∷ []
pack_calls current ((w, g) ∷ groups) =
    let full = call_full current g in
    let rest = pack_calls ((if full then [] else current) ++ ((w, g) ∷ [])) groups in
    if full then current ∷ rest else rest

-- The groups of every writer with blocks left, in order, and their calls.
unfoldable pub groups_of : PublicKeyHash → List (List InlineBlock) → Call
groups_of writer [] = []
groups_of writer (g ∷ gs) = (writer, g) ∷ groups_of writer gs

unfoldable pub all_groups : Call → Call
unfolding cut_groups groups_of
all_groups [] = []
all_groups ((writer, blocks) ∷ deferred) =
    groups_of writer (cut_groups [] blocks) ++ all_groups deferred

unfoldable pub calls_of : Call → List Call
unfolding all_groups pack_calls
calls_of deferred = pack_calls [] (all_groups deferred)
