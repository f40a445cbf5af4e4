-- ===== src/Messaging/ClockSteps.antt =====
-- crates/peergos-fs/src/messaging/tree_clock.rs: the steps of a clock and concurrency.
use rust_peergos_client.Common.{
  unwrap_or, ◌≡◌, ◌≢◌, refl, sym, ap, ◌∙◌, arith, true, false, not, ◌&&◌, Bool-cases, some, List,
  [], ◌∷◌, Ordering, ◌^◌, ◌-◌, suc, zero, inl, inr,
}
use rust_peergos_client.Common.Int.{ℤ, pos, negsuc, ltb_ℤ, IsI64}
use rust_peergos_client.Common.SortedMap.{
  lookup, insert, IsSorted, insert-IsSorted, lookup-insert_self, lookup-insert_ne, AllAfter,
  AllAfter-trans, lookup-AllAfter,
}
use rust_peergos_client.Messaging.MemberId.{MemberId, cmp_id}
use rust_peergos_client.Messaging.IdOrder.{cmp_id-IsTotal}
use rust_peergos_client.Messaging.Join.{within}
use rust_peergos_client.Messaging.ClockOrder.{before-members, members_within, within_refl}
use rust_peergos_client.Messaging.TreeClock.{
  Time, TreeClock, IsClock, next, has_id, all_within, is_before_or_equal, some_exceeds,
  has_greater_counter_than, is_concurrent_with, increment, start, init,
}

-- The counter of a member, 0 where it is absent.
abbrev pub counter_of : TreeClock → MemberId → ℤ
counter_of c member = unwrap_or (lookup cmp_id member c.time) (pos 0)

abbrev pub i64_max : ℤ
i64_max = pos (2 ^ 63 - 1)

ltb-next : (v : ℤ) → IsI64 v → v ≢ i64_max → ltb_ℤ v (next v) ≡ true
unfolding next
ltb-next (pos n) h e = let below : n ≢ 2 ^ 63 - 1 = λ q. e (ap pos q) in ground (arith, below)
ltb-next (negsuc zero) h e = ground arith
ltb-next (negsuc (suc n)) h e = ground arith

module _ (a : TreeClock) (member : MemberId) where
  increment_self :
      lookup cmp_id member (increment a member).time ≡ some (next (counter_of a member))
  unfolding increment
  increment_self =
      lookup-insert_self cmp_id cmp_id-IsTotal member (next (counter_of a member)) a.time

  increment_other :
      (k : MemberId)
      → cmp_id k member ≢ Ordering.eq
      → lookup cmp_id k (increment a member).time ≡ lookup cmp_id k a.time
  unfolding increment
  increment_other k h =
      lookup-insert_ne cmp_id cmp_id-IsTotal k member (next (counter_of a member)) a.time h

  -- Counting an event keeps a clock sorted.
  pub increment-IsClock : IsClock a → IsClock (increment a member)
  unfolding increment
  increment-IsClock p =
      insert-IsSorted cmp_id cmp_id-IsTotal member (next (counter_of a member)) a.time p

  later_within :
      IsI64 (counter_of a member)
      → counter_of a member ≢ i64_max
      → (k : MemberId)
      → within (lookup cmp_id k a.time) (lookup cmp_id k (increment a member).time) ≡ true
  later_within h e k = ground (
    arith,
    increment_self,
    increment_other k,
    cmp_id-IsTotal.eq_of_cmp k member,
    within_refl (lookup cmp_id k a.time),
    ltb-next (counter_of a member) h e,
  )

  not_within :
      IsI64 (counter_of a member)
      → counter_of a member ≢ i64_max
      → within (lookup cmp_id member (increment a member).time) (lookup cmp_id member a.time)
        ≡ false
  not_within h e = ground (arith, increment_self, ltb-next (counter_of a member) h e)

  -- The event of a member whose counter has not reached the largest `i64` makes a sorted clock
  -- strictly later.
  pub increment-later :
      IsClock a
      → IsI64 (counter_of a member)
      → counter_of a member ≢ i64_max
      → (is_before_or_equal a (increment a member) ≡ true)
        × (is_before_or_equal (increment a member) a ≡ false)
  increment-later p h e = (
    before-members a (increment a member) p (later_within h e),
    elim (Bool-cases (is_before_or_equal (increment a member) a)) [
      | inl t ↦
          let w = members_within (increment a member) a t member in let n = not_within h e in cc
      | inr f ↦ f
    ],
  )

has_id_tail :
    (k j : MemberId) (w : ℤ) (m : Time)
    → AllAfter cmp_id j m
    → has_id record { time = m } k ≡ true
    → has_id record { time = (j, w) ∷ m } k ≡ true
unfolding has_id lookup
has_id_tail k j w m a h =
    ground
      (arith, AllAfter-trans cmp_id cmp_id-IsTotal k j m, lookup-AllAfter cmp_id cmp_id-IsTotal k m)

has_id_head : (j : MemberId) (w : ℤ) (m : Time) → has_id record { time = (j, w) ∷ m } j ≡ true
unfolding has_id lookup
has_id_head j w m = ground (arith, cmp_id-IsTotal.cmp_refl j)

some_exceeds-all_within :
    (m : Time) (b : TreeClock)
    → IsSorted cmp_id m
    → ((k : MemberId) → has_id record { time = m } k ≡ true → has_id b k ≡ true)
    → some_exceeds m b ≡ not (all_within m b)
unfolding some_exceeds all_within
some_exceeds-all_within [] b p h = refl
some_exceeds-all_within ((j, w) ∷ m) b p h = ground (
  arith,
  some_exceeds-all_within m b p.1 (λ k t. h k (has_id_tail k j w m p.0 t)),
  h j (has_id_head j w m),
)

module _ (a : TreeClock) (b : TreeClock) where
  -- Sorted clocks of the same members are concurrent exactly when neither is before or equal to
  -- the other.
  pub concurrent_iff :
      IsClock a
      → IsClock b
      → ((k : MemberId) → has_id a k ≡ has_id b k)
      → is_concurrent_with a b ≡ (not (is_before_or_equal a b) && not (is_before_or_equal b a))
  unfolding is_concurrent_with has_greater_counter_than is_before_or_equal
  concurrent_iff p q h =
      rw
        (
          some_exceeds-all_within a.time b p (λ k t. sym (h k) ∙ t),
          some_exceeds-all_within b.time a q (λ k t. h k ∙ t),
        )
        refl

start-IsSorted :
    (members : List MemberId) (time : Time)
    → IsSorted cmp_id time
    → IsSorted cmp_id (start members time)
unfolding start
start-IsSorted [] time h = h
start-IsSorted (m ∷ members) time h =
    start-IsSorted members (insert cmp_id m (pos 0) time)
      (insert-IsSorted cmp_id cmp_id-IsTotal m (pos 0) time h)

pub init-IsClock : (members : List MemberId) → IsClock (init members)
unfolding init
init-IsClock members = start-IsSorted members [] tt
