-- ===== src/Buffered/Order.antt =====
-- crates/peergos-core/src/buffered.rs: `from_root_first`.
use rust_peergos_client.Common.{
  ℕ, suc, zero, ◌+◌, ◌≡◌, Bool, true, false, ◌||◌, Option, none, some, List, [], ◌∷◌, ◌++◌, Bytes,
  length,
}
use rust_peergos_client.Multiformats.Cid.{Cid}
use rust_peergos_client.Buffered.CidMap.{CidMap, lookup, remove, insert}
use rust_peergos_client.Buffered.Cache.{is_in}
use rust_peergos_client.Buffered.Reachable.{links_of}

pub record InlineBlock : Type 0 where
  pub cid : Cid
  pub block : Bytes
  pub is_raw : Bool

abbrev pub inline_links : InlineBlock → List Cid
inline_links b = links_of b.block b.is_raw

unfoldable pub collect_blocks : List InlineBlock → CidMap InlineBlock → CidMap InlineBlock
collect_blocks [] m = m
collect_blocks (b ∷ bs) m = collect_blocks bs (insert b.cid b m)

abbrev pub values : CidMap InlineBlock → List InlineBlock
values [] = []
values ((c, b) ∷ m) = b ∷ values m

-- The loop over the queue: what is ordered, and what is left. It takes one unit of fuel for each entry of
-- the queue.
unfoldable pub order_from :
    ℕ → List Cid → CidMap InlineBlock → Option (List InlineBlock × CidMap InlineBlock)
order_from fuel [] by_hash = some ([], by_hash)
order_from zero (next ∷ queue) by_hash = none
order_from (suc fuel) (next ∷ queue) by_hash = elim (lookup next by_hash) [
  | none ↦ order_from fuel queue by_hash
  | some b ↦ elim (order_from fuel (queue ++ inline_links b) (remove next by_hash)) [
    | none ↦ none
    | some (ordered, rest) ↦ some (b ∷ ordered, rest)
  ]
]

unfoldable pub sum_inline : CidMap InlineBlock → ℕ
sum_inline [] = 0
sum_inline ((c, b) ∷ m) = length (inline_links b) + sum_inline m

abbrev pub root_queue : Option Cid → List Cid
root_queue none = []
root_queue (some r) = r ∷ []

abbrev pub finish : Option (List InlineBlock × CidMap InlineBlock) → List InlineBlock
finish none = []
finish (some (ordered, rest)) = ordered ++ values rest

-- The fuel is enough: the root and each link of a block are in the queue once.
unfoldable pub from_root_first : List InlineBlock → Option Cid → List InlineBlock
unfolding collect_blocks
from_root_first blocks root =
    let by_hash = collect_blocks blocks [] in
    finish (order_from (1 + sum_inline by_hash) (root_queue root) by_hash)

-- Each block is known when it comes: it is the root, or a block before it links to it.
abbrev pub IsFromRoot : List Cid → List InlineBlock → Type 0
IsFromRoot known [] = Unit
IsFromRoot known (b ∷ bs) = (is_in b.cid known ≡ true) × IsFromRoot (known ++ inline_links b) bs

abbrev pub cids_of : List InlineBlock → List Cid
cids_of [] = []
cids_of (b ∷ bs) = b.cid ∷ cids_of bs

abbrev pub is_there : Option InlineBlock → Bool
is_there none = false
is_there (some b) = true

-- Every block is under its own CID.
abbrev IsOwn : CidMap InlineBlock → Type 0
IsOwn m = (c : Cid) (b : InlineBlock) → lookup c m ≡ some b → b.cid ≡ c

-- What the loop gives: an order from the root, of the blocks that are no longer in the map.
abbrev Ordered :
    List Cid → CidMap InlineBlock → Option (List InlineBlock × CidMap InlineBlock) → Type 0
Ordered known by_hash result =
    (ordered : List InlineBlock) × (rest : CidMap InlineBlock) × (result ≡ some (ordered, rest))
    × IsFromRoot known ordered
    × IsOwn rest
    × ((x : Cid)
        → (is_in x (cids_of ordered) || is_there (lookup x rest)) ≡ is_there (lookup x by_hash))
