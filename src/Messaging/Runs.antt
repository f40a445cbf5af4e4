-- ===== src/Messaging/Runs.antt =====
-- Runs of member ids and clocks, after the tests of id.rs and tree_clock.rs, and the theorems at
-- concrete inputs.
use rust_peergos_client.Common.{
  unwrap_or, ◌≡◌, ◌≢◌, refl, ap, arith, true, ◌&&◌, some, take, [], ◌∷◌, ok, Ordering, ◌^◌, ◌-◌,
}
use rust_peergos_client.Common.Int.{pos, IsI64, pos_part}
use rust_peergos_client.Common.SortedMap.{lookup, insert, remove}
use rust_peergos_client.Messaging.MemberId.{
  MemberId, single, creator, fork, parent, first_difference, cmp_id,
}
use rust_peergos_client.Messaging.TreeClock.{
  TreeClock, init, start, next, merge, merge_into, is_newer, has_id, get_event_counter, exceeds,
  all_within, is_before_or_equal, some_exceeds, has_greater_counter_than, is_concurrent_with,
  increment, remove_member, clock_from_cbor, clock_to_cbor, IsClock,
}
use rust_peergos_client.Messaging.ClockOrder.{before-merge, merge-semilattice}
use rust_peergos_client.Messaging.ClockCbor.{clock_from_cbor-clock_to_cbor}

abbrev id_a : MemberId
id_a = record { id = pos 0 ∷ [] }

abbrev id_b : MemberId
id_b = record { id = pos 0 ∷ pos 1 ∷ [] }

abbrev base : TreeClock
base = record { time = (id_a, pos 0) ∷ (id_b, pos 0) ∷ [] }

abbrev clock_a : TreeClock
clock_a = record { time = (id_a, pos 1) ∷ (id_b, pos 0) ∷ [] }

abbrev clock_b : TreeClock
clock_b = record { time = (id_a, pos 0) ∷ (id_b, pos 1) ∷ [] }

abbrev clock_ab : TreeClock
clock_ab = record { time = (id_a, pos 1) ∷ (id_b, pos 1) ∷ [] }

fork_and_parent : parent (fork creator (pos 3)) ≡ some creator
unfolding parent fork creator single take
fork_and_parent = refl

ordering : cmp_id id_a id_b ≡ Ordering.lt
unfolding cmp_id first_difference
ordering = refl

start_base : init (id_b ∷ id_a ∷ []) ≡ base
unfolding init start insert cmp_id first_difference
start_base = refl

increment_a : increment base id_a ≡ clock_a
unfolding increment insert lookup cmp_id first_difference next
increment_a = refl

merge_ab : merge clock_a clock_b ≡ clock_ab
unfolding merge merge_into is_newer insert lookup cmp_id first_difference
merge_ab = refl

concurrent_ab : is_concurrent_with clock_a clock_b ≡ true
unfolding is_concurrent_with has_greater_counter_than some_exceeds has_id get_event_counter exceeds
    lookup cmp_id first_difference
concurrent_ab = refl

remove_b : remove_member base id_a id_b ≡ record { time = (id_a, pos 1) ∷ [] }
unfolding remove_member remove insert lookup cmp_id first_difference next
remove_b = refl

base-IsClock : IsClock base
unfolding cmp_id first_difference
base-IsClock = ((refl, tt), (tt, tt))

clock_a-IsClock : IsClock clock_a
unfolding cmp_id first_difference
clock_a-IsClock = ((refl, tt), (tt, tt))

clock_b-IsClock : IsClock clock_b
unfolding cmp_id first_difference
clock_b-IsClock = ((refl, tt), (tt, tt))

before-merge_example :
    is_before_or_equal (merge clock_a clock_b) clock_a
    ≡ (is_before_or_equal clock_a clock_a && is_before_or_equal clock_b clock_a)
before-merge_example = before-merge clock_a clock_b clock_a clock_a-IsClock clock_b-IsClock

merge-semilattice_example :
    (merge clock_a clock_b ≡ merge clock_b clock_a)
    × (merge clock_a (merge clock_b base) ≡ merge (merge clock_a clock_b) base)
    × (merge clock_a clock_a ≡ clock_a)
merge-semilattice_example =
    merge-semilattice clock_a clock_b base clock_a-IsClock clock_b-IsClock base-IsClock

before_self : is_before_or_equal base base ≡ true
unfolding is_before_or_equal all_within has_id get_event_counter exceeds lookup cmp_id
    first_difference
before_self = refl

base_counter : IsI64 (unwrap_or (lookup cmp_id id_a base.time) (pos 0))
unfolding lookup cmp_id first_difference
base_counter = omega arith

base_counter-below : unwrap_or (lookup cmp_id id_a base.time) (pos 0) ≢ pos (2 ^ 63 - 1)
unfolding lookup cmp_id first_difference
base_counter-below h = let e = ap pos_part h in omega arith

same_members : (k : MemberId) → has_id clock_a k ≡ has_id clock_b k
unfolding has_id lookup
same_members k = ground arith

clock_from_cbor-clock_to_cbor_example : clock_from_cbor (clock_to_cbor clock_a) ≡ ok clock_a
clock_from_cbor-clock_to_cbor_example =
    clock_from_cbor-clock_to_cbor clock_a clock_a-IsClock
      ((omega arith, tt), ((omega arith, (omega arith, tt)), tt))
