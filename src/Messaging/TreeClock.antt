-- ===== src/Messaging/TreeClock.antt =====
-- crates/peergos-fs/src/messaging/tree_clock.rs: the clock of a chat whose members change.
use rust_peergos_client.Common.{
  unwrap_or, zero, suc, Bool, true, false, not, ◌&&◌, ◌||◌, Option, none, some, List, [], ◌∷◌, ◌++◌,
  if◌then◌else◌, ◌==◌, ◌-◌, ◌^◌, Result, ok, ◌>>=◌, ok_or, map,
}
use rust_peergos_client.Common.Int.{ℤ, pos, negsuc, ltb_ℤ}
use rust_peergos_client.Common.SortedMap.{SortedMap, lookup, insert, remove, IsSorted}
use rust_peergos_client.Cbor.Object.{CborObject, list, Objects, no_items, item, as_list, as_long}
use rust_peergos_client.Messaging.MemberId.{
  MemberId, cmp_id, CborError, incorrect_clock, entry_not_list, entry_not_long, empty_entry, to_i32,
  longs,
}

abbrev pub Time : Type 0
Time = SortedMap MemberId ℤ

pub record TreeClock : Type 0 where
  pub time : Time

abbrev pub IsClock : TreeClock → Type 0
IsClock c = IsSorted cmp_id c.time

-- `i64` addition of 1, which wraps.
unfoldable pub next : ℤ → ℤ
next (pos n) = if suc n == 2 ^ 63 then negsuc (2 ^ 63 - 1) else pos (suc n)
next (negsuc zero) = pos 0
next (negsuc (suc n)) = negsuc n

unfoldable pub start : List MemberId → Time → Time
start [] time = time
start (m ∷ members) time = start members (insert cmp_id m (pos 0) time)

unfoldable pub init : List MemberId → TreeClock
init members = record { time = start members [] }

-- `res.get(k).map(|existing| existing < v).unwrap_or(true)`.
unfoldable pub is_newer : Option ℤ → ℤ → Bool
is_newer none v = true
is_newer (some existing) v = ltb_ℤ existing v

unfoldable pub merge_into : Time → Time → Time
merge_into res [] = res
merge_into res ((k, v) ∷ other) =
    merge_into (if is_newer (lookup cmp_id k res) v then insert cmp_id k v res else res) other

unfoldable pub merge : TreeClock → TreeClock → TreeClock
merge self other = record { time = merge_into self.time other.time }

-- `contains_key`.
unfoldable pub has_id : TreeClock → MemberId → Bool
has_id self member = elim (lookup cmp_id member self.time) [ none ↦ false | some v ↦ true ]

-- None where the method panics.
unfoldable pub get_event_counter : TreeClock → MemberId → Option ℤ
get_event_counter self member = lookup cmp_id member self.time

-- `counter > b.get_event_counter(id)`, asked only where `b` has the id.
unfoldable pub exceeds : ℤ → Option ℤ → Bool
exceeds counter none = false
exceeds counter (some c) = ltb_ℤ c counter

unfoldable pub all_within : Time → TreeClock → Bool
all_within [] b = true
all_within ((id, counter) ∷ rest) b =
    let later = all_within rest b in
    if not (has_id b id) || exceeds counter (get_event_counter b id) then false else later

unfoldable pub is_before_or_equal : TreeClock → TreeClock → Bool
is_before_or_equal self b = all_within self.time b

unfoldable pub some_exceeds : Time → TreeClock → Bool
some_exceeds [] b = false
some_exceeds ((id, counter) ∷ rest) b =
    let later = some_exceeds rest b in
    if has_id b id && exceeds counter (get_event_counter b id) then true else later

unfoldable pub has_greater_counter_than : TreeClock → TreeClock → Bool
has_greater_counter_than self b = some_exceeds self.time b

unfoldable pub is_concurrent_with : TreeClock → TreeClock → Bool
is_concurrent_with self b = has_greater_counter_than self b && has_greater_counter_than b self

unfoldable pub increment : TreeClock → MemberId → TreeClock
increment self member =
    let counter = unwrap_or (lookup cmp_id member self.time) (pos 0) in
    record { time = insert cmp_id member (next counter) self.time }

unfoldable pub remove_member : TreeClock → MemberId → MemberId → TreeClock
remove_member self remover to_remove =
    let res = remove cmp_id to_remove self.time in
    let cur = unwrap_or (lookup cmp_id remover res) (pos 0) in
    record { time = insert cmp_id remover (next cur) res }

unfoldable pub with_member : TreeClock → MemberId → TreeClock
with_member self member = record { time = insert cmp_id member (pos 0) self.time }

-- `split_last`.
unfoldable pub split_last : List ℤ → Option (List ℤ × ℤ)
split_last [] = none
split_last (x ∷ xs) = elim (split_last xs) [
  | none ↦ some ([], x)
  | some (firsts, last) ↦ some (x ∷ firsts, last)
]

unfoldable pub entry_longs : Objects → Result CborError (List ℤ)
entry_longs no_items = ok []
entry_longs (item i l) =
    ok_or (as_long i) entry_not_long >>= λ v. entry_longs l >>= λ vs. ok (v ∷ vs)

unfoldable pub read_entry : CborObject → Result CborError (MemberId × ℤ)
read_entry m = ok_or (as_list m) entry_not_list >>= λ inner. entry_longs inner >>= λ vs.
    ok_or (split_last vs) empty_entry >>= λ (id_parts, counter).
    ok (record { id = map to_i32 id_parts }, counter)

unfoldable pub read_entries : Objects → Time → Result CborError Time
read_entries no_items time = ok time
read_entries (item m l) time =
    read_entry m >>= λ (id, counter). read_entries l (insert cmp_id id counter time)

unfoldable pub clock_from_cbor : CborObject → Result CborError TreeClock
clock_from_cbor cbor = ok_or (as_list cbor) incorrect_clock >>= λ l.
    read_entries l [] >>= λ time. ok record { time = time }

unfoldable pub mappings : Time → Objects
mappings [] = no_items
mappings ((id, counter) ∷ time) = item (list (longs (id.id ++ (counter ∷ [])))) (mappings time)

unfoldable pub clock_to_cbor : TreeClock → CborObject
clock_to_cbor self = list (mappings self.time)
