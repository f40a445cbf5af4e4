-- ===== src/Buffered/Cache.antt =====
-- crates/peergos-core/src/buffered.rs: `BlockCache`.
use rust_peergos_client.Common.{
  ℕ, ◌≤◌, ◌<◌, ◌≡◌, ◌≢◌, arith, Bool, Bool-cases, true, false, ◌||◌, inl, inr, Option, Option-cases,
  none, some, List, [], ◌∷◌, ◌++◌, Bytes, length, if◌then◌else◌, leb, ◌==◌,
}
use rust_peergos_client.Multiformats.Cid.{Cid}
use rust_peergos_client.Champ.Equal.{eq_cid}
use rust_peergos_client.Buffered.CidMap.{
  CidMap, lookup, remove, insert, lookup-remove, lookup-insert, length-remove, lookup-none,
}

pub record BlockCache : Type 0 where
  pub map : CidMap Bytes
  pub order : List Cid
  pub cap : ℕ

unfoldable pub new_cache : ℕ → BlockCache
new_cache cap = record { map = []; order = []; cap = cap }

unfoldable pub get : BlockCache → Cid → Option Bytes
get self cid = lookup cid self.map

abbrev pub is_some : Option Bytes → Bool
is_some none = false
is_some (some d) = true

-- The oldest entries are dropped while the cache is full.
unfoldable pub evict : ℕ → CidMap Bytes → List Cid → CidMap Bytes × List Cid
evict cap map [] = (map, [])
evict cap map (old ∷ order) =
    let rest = evict cap (remove old map) order in
    if leb cap (length map) then rest else (map, old ∷ order)

unfoldable pub put : BlockCache → Cid → Bytes → BlockCache
unfolding evict
put self cid block =
    if self.cap == 0 || is_some (lookup cid self.map)
    then self
    else let (map, order) = evict self.cap self.map self.order in
      record { map = insert cid block map; order = order ++ (cid ∷ []); cap = self.cap }

unfoldable pub is_in : Cid → List Cid → Bool
is_in c [] = false
is_in c (d ∷ ds) = eq_cid d c || is_in c ds

is_in-snoc : (c d : Cid) (ds : List Cid) → is_in c (ds ++ (d ∷ [])) ≡ (is_in c ds || eq_cid d c)
unfolding is_in
is_in-snoc c d [] = ground arith
is_in-snoc c d (e ∷ ds) = ground (arith, is_in-snoc c d ds)

-- Every entry waits for its eviction.
abbrev IsOrdered : CidMap Bytes → List Cid → Type 0
IsOrdered map order = (c : Cid) → is_some (lookup c map) ≡ true → is_in c order ≡ true

IsOrdered-remove :
    (old : Cid) (map : CidMap Bytes) (order : List Cid)
    → IsOrdered map (old ∷ order)
    → IsOrdered (remove old map) order
unfolding is_in
IsOrdered-remove old map order h c e = elim (Bool-cases (eq_cid old c)) [
  | inl t ↦ ground (arith, e, lookup-remove c old map, t)
  | inr f ↦ ground (arith, e, lookup-remove c old map, f, h c)
]

evict-IsOrdered :
    (cap : ℕ) (map : CidMap Bytes) (order : List Cid)
    → cap ≢ 0
    → IsOrdered map order
    → IsOrdered (evict cap map order).0 (evict cap map order).1
      × (length (evict cap map order).0 < cap)
unfolding evict
evict-IsOrdered cap map [] nonzero h =
    let empty = lookup-none map (λ c. elim (Option-cases (lookup c map)) [
      | inl e ↦ e
      | inr (d, e) ↦ let absent = h c (ground (arith, e)) in unfold is_in in ground (arith, absent)
    ]) in
    (h, ground (arith, empty))
evict-IsOrdered cap map (old ∷ order) nonzero h = elim (Bool-cases (leb cap (length map))) [
  | inl t ↦
      rw t (evict-IsOrdered cap (remove old map) order nonzero (IsOrdered-remove old map order h))
  | inr f ↦ rw f (h, ground (arith, f))
]

abbrev pub IsCache : BlockCache → Type 0
IsCache self = IsOrdered self.map self.order × (length self.map ≤ self.cap)

-- A cache never holds more blocks than its capacity: put keeps that, and that every block waits for its
-- eviction.
pub put-IsCache :
    (self : BlockCache) (cid : Cid) (block : Bytes) → IsCache self → IsCache (put self cid block)
unfolding put insert
put-IsCache self cid block (ordered, bound) =
    elim (Bool-cases (self.cap == 0 || is_some (lookup cid self.map))) [
      | inl t ↦ rw t (ordered, bound)
      | inr f ↦
          let (kept, room) =
            evict-IsOrdered self.cap self.map self.order (ground (arith, f)) ordered in
          rw f (
            λ c e. ground (
              arith,
              e,
              kept c,
              lookup-insert c cid block (evict self.cap self.map self.order).0,
              is_in-snoc c cid (evict self.cap self.map self.order).1,
            ),
            let shorter = length-remove cid (evict self.cap self.map self.order).0 in
                omega (arith, room, shorter),
          )
    ]
