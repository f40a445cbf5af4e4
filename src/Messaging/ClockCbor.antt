-- ===== src/Messaging/ClockCbor.antt =====
-- crates/peergos-fs/src/messaging/{id,tree_clock}.rs: ids and clocks come back from their CBOR form.
use rust_peergos_client.Common.{
  ◌≡◌, refl, ◌∙◌, arith, Option, none, some, List, [], ◌∷◌, ◌++◌, ok, map, ◌<◌, ◌^◌,
}
use rust_peergos_client.Common.Int.{ℤ, pos, negsuc}
use rust_peergos_client.Common.SortedMap.{
  lookup, insert, IsSorted, AllAfter, eq_of_lookup, insert-IsSorted, lookup-insert_self,
  lookup-insert_ne, lookup-AllAfter, AllAfter-trans,
}
use rust_peergos_client.Cbor.Object.{list, as_list, as_long}
use rust_peergos_client.Messaging.MemberId.{
  MemberId, cmp_id, to_i32, low_i32, components, id_from_cbor, id_to_cbor, longs,
}
use rust_peergos_client.Messaging.IdOrder.{cmp_id-IsTotal}
use rust_peergos_client.Messaging.TreeClock.{
  Time, TreeClock, IsClock, split_last, entry_longs, read_entry, read_entries, clock_from_cbor,
  mappings, clock_to_cbor,
}

abbrev pub IsI32 : ℤ → Type 0
IsI32 (pos n) = n < 2 ^ 31
IsI32 (negsuc n) = n < 2 ^ 31

abbrev pub AllI32 : List ℤ → Type 0
AllI32 [] = Unit
AllI32 (v ∷ vs) = IsI32 v × AllI32 vs

-- The components of an id are `i32` values.
abbrev pub IsId : MemberId → Type 0
IsId i = AllI32 i.id

abbrev pub AllIds : Time → Type 0
AllIds [] = Unit
AllIds ((k, v) ∷ time) = IsId k × AllIds time

to_i32-same : (v : ℤ) → IsI32 v → to_i32 v ≡ v
unfolding to_i32 low_i32
to_i32-same (pos n) h = ground arith
to_i32-same (negsuc n) h = ground arith

map-to_i32 : (vs : List ℤ) → AllI32 vs → map to_i32 vs ≡ vs
map-to_i32 [] h = refl
map-to_i32 (v ∷ vs) h = rw (to_i32-same v h.0, map-to_i32 vs h.1) refl

components-longs : (vs : List ℤ) → AllI32 vs → components (longs vs) ≡ ok vs
unfolding components longs as_long
components-longs [] h = refl
components-longs (v ∷ vs) h = rw (components-longs vs h.1, to_i32-same v h.0) refl

-- `Id::from_cbor` reads back an id of `i32` components.
pub id_from_cbor-id_to_cbor : (i : MemberId) → IsId i → id_from_cbor (id_to_cbor i) ≡ ok i
unfolding id_from_cbor id_to_cbor as_list
id_from_cbor-id_to_cbor i h = rw (components-longs i.id h) refl

entry_longs-longs : (vs : List ℤ) → entry_longs (longs vs) ≡ ok vs
unfolding entry_longs longs as_long
entry_longs-longs [] = refl
entry_longs-longs (v ∷ vs) = rw (entry_longs-longs vs) refl

split_last-append : (vs : List ℤ) (v : ℤ) → split_last (vs ++ (v ∷ [])) ≡ some (vs, v)
unfolding split_last
split_last-append [] v = refl
split_last-append (x ∷ xs) v = rw (split_last-append xs v) refl

read_entry-mapping :
    (k : MemberId) (v : ℤ) → IsId k → read_entry (list (longs (k.id ++ (v ∷ [])))) ≡ ok (k, v)
unfolding read_entry as_list
read_entry-mapping k v h =
    rw (entry_longs-longs (k.id ++ (v ∷ [])), split_last-append k.id v, map-to_i32 k.id h) refl

-- What the reader inserts, entry by entry.
insert_all : Time → Time → Time
insert_all [] res = res
insert_all ((k, v) ∷ time) res = insert_all time (insert cmp_id k v res)

read_entries-mappings :
    (time res : Time) → AllIds time → read_entries (mappings time) res ≡ ok (insert_all time res)
unfolding read_entries mappings insert_all
read_entries-mappings [] res h = refl
read_entries-mappings ((k, v) ∷ time) res h =
    rw (read_entry-mapping k v h.0, read_entries-mappings time (insert cmp_id k v res) h.1) refl

insert_all-IsSorted :
    (time res : Time) → IsSorted cmp_id res → IsSorted cmp_id (insert_all time res)
unfolding insert_all
insert_all-IsSorted [] res h = h
insert_all-IsSorted ((k, v) ∷ time) res h =
    insert_all-IsSorted time (insert cmp_id k v res)
      (insert-IsSorted cmp_id cmp_id-IsTotal k v res h)

abbrev or_else : Option ℤ → Option ℤ → Option ℤ
or_else none b = b
or_else (some v) b = some v

lookup-insert_all :
    (i : MemberId) (time res : Time)
    → IsSorted cmp_id time
    → lookup cmp_id i (insert_all time res) ≡ or_else (lookup cmp_id i time) (lookup cmp_id i res)
unfolding insert_all
lookup-insert_all i [] res h = unfold lookup in refl
lookup-insert_all i ((k, v) ∷ time) res h =
    lookup-insert_all i time (insert cmp_id k v res) h.1 ∙ lookup_first i k v time res h.0
  where
    lookup_first :
        (i k : MemberId) (v : ℤ) (time res : Time)
        → AllAfter cmp_id k time
        → or_else (lookup cmp_id i time) (lookup cmp_id i (insert cmp_id k v res))
          ≡ or_else (lookup cmp_id i ((k, v) ∷ time)) (lookup cmp_id i res)
    lookup_first i k v time res a =
        unfold lookup in
        ground (
          arith,
          cmp_id-IsTotal.eq_of_cmp i k,
          AllAfter-trans cmp_id cmp_id-IsTotal i k time,
          lookup-AllAfter cmp_id cmp_id-IsTotal i time,
          lookup-insert_self cmp_id cmp_id-IsTotal k v res,
          lookup-insert_ne cmp_id cmp_id-IsTotal i k v res,
        )

or_else-none : (o : Option ℤ) → or_else o none ≡ o
or_else-none o = ground arith

insert_all-nil : (time : Time) → IsSorted cmp_id time → insert_all time [] ≡ time
insert_all-nil time h =
    eq_of_lookup cmp_id cmp_id-IsTotal (insert_all time []) time (insert_all-IsSorted time [] tt) h
      (λ i. lookup-insert_all i time [] h ∙ unfold lookup in or_else-none (lookup cmp_id i time))

-- `TreeClock::from_cbor` reads back a sorted clock whose ids have `i32` components.
pub clock_from_cbor-clock_to_cbor :
    (c : TreeClock) → IsClock c → AllIds c.time → clock_from_cbor (clock_to_cbor c) ≡ ok c
unfolding clock_from_cbor clock_to_cbor as_list
clock_from_cbor-clock_to_cbor c p h =
    rw (read_entries-mappings c.time [] h, insert_all-nil c.time p) refl
