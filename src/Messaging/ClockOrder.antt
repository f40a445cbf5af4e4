-- ===== src/Messaging/ClockOrder.antt =====
-- crates/peergos-fs/src/messaging/tree_clock.rs: clocks are partially ordered, and `merge` is the
-- least upper bound.
use rust_peergos_client.Common.{
  ◌≡◌, refl, sym, ap, ◌∙◌, arith, true, ◌&&◌, &&_parts, Option, none, some,
}
use rust_peergos_client.Common.Int.{ℤ, eq_of_parts}
use rust_peergos_client.Common.SortedMap.{lookup, eq_of_lookup}
use rust_peergos_client.Messaging.MemberId.{MemberId, cmp_id}
use rust_peergos_client.Messaging.IdOrder.{cmp_id-IsTotal}
use rust_peergos_client.Messaging.Join.{
  join, within, lookup-merge_into, merge_into-IsSorted, within-all_within, all_within-within,
}
use rust_peergos_client.Messaging.TreeClock.{Time, TreeClock, IsClock, is_before_or_equal, merge}

pub within_refl : (o : Option ℤ) → within o o ≡ true
within_refl o = ground arith

within_trans : (o p q : Option ℤ) → within o p ≡ true → within p q ≡ true → within o q ≡ true
within_trans o p q h k = ground arith

within_antisym : (o p : Option ℤ) → within o p ≡ true → within p o ≡ true → o ≡ p
within_antisym none none h k = refl
within_antisym none (some y) h k = cc
within_antisym (some x) none h k = cc
within_antisym (some x) (some y) h k = ground (arith, eq_of_parts x y)

within-join : (o p q : Option ℤ) → within (join o p) q ≡ (within o q && within p q)
within-join o p q = ground arith

join_comm : (o p : Option ℤ) → join o p ≡ join p o
join_comm none none = refl
join_comm none (some y) = refl
join_comm (some x) none = refl
join_comm (some x) (some y) = ground (arith, eq_of_parts x y)

join_assoc : (o p q : Option ℤ) → join o (join p q) ≡ join (join o p) q
join_assoc none p q = refl
join_assoc (some x) none q = refl
join_assoc (some x) (some y) none = ground arith
join_assoc (some x) (some y) (some z) = ground arith

join_idem : (o : Option ℤ) → join o o ≡ o
join_idem o = ground arith

module _ (a b : TreeClock) where
  -- The order is that of the counters, member by member.
  pub members_within :
      is_before_or_equal a b ≡ true
      → (k : MemberId) → within (lookup cmp_id k a.time) (lookup cmp_id k b.time) ≡ true
  unfolding is_before_or_equal
  members_within h k = within-all_within k a.time b h

  pub before-members :
      IsClock a
      → ((k : MemberId) → within (lookup cmp_id k a.time) (lookup cmp_id k b.time) ≡ true)
      → is_before_or_equal a b ≡ true
  unfolding is_before_or_equal
  before-members p h = all_within-within a.time b p h

  -- A member's counter in a merged clock is the later of its counters in the two.
  pub lookup-merge :
      IsClock b
      → (k : MemberId)
      → lookup cmp_id k (merge a b).time ≡ join (lookup cmp_id k a.time) (lookup cmp_id k b.time)
  unfolding merge
  lookup-merge q k = lookup-merge_into k a.time b.time q

  -- Merging a clock keeps its members sorted.
  pub merge-IsClock : IsClock a → IsClock (merge a b)
  unfolding merge
  merge-IsClock p = merge_into-IsSorted a.time b.time p

-- Clocks with the same counters are the same.
pub clock_of_counters :
    (a b : TreeClock)
    → IsClock a
    → IsClock b
    → ((k : MemberId) → lookup cmp_id k a.time ≡ lookup cmp_id k b.time)
    → a ≡ b
clock_of_counters a b p q h =
    ap (λ (t : Time). record { time = t }) (eq_of_lookup cmp_id cmp_id-IsTotal a.time b.time p q h)

-- A clock is before or equal to itself.
pub before_refl : (a : TreeClock) → IsClock a → is_before_or_equal a a ≡ true
before_refl a p = before-members a a p (λ k. within_refl (lookup cmp_id k a.time))

-- A sorted clock before one that is before a third is before the third.
pub before_trans :
    (a b c : TreeClock)
    → IsClock a
    → is_before_or_equal a b ≡ true
    → is_before_or_equal b c ≡ true
    → is_before_or_equal a c ≡ true
before_trans a b c p h k = before-members a c p (λ i.
    within_trans (lookup cmp_id i a.time) (lookup cmp_id i b.time) (lookup cmp_id i c.time)
      (members_within a b h i) (members_within b c k i))

-- Sorted clocks that are before each other are the same.
pub before_antisym :
    (a b : TreeClock)
    → IsClock a
    → IsClock b
    → is_before_or_equal a b ≡ true
    → is_before_or_equal b a ≡ true
    → a ≡ b
before_antisym a b p q h k = clock_of_counters a b p q (λ i.
    within_antisym (lookup cmp_id i a.time) (lookup cmp_id i b.time) (members_within a b h i)
      (members_within b a k i))

module _ (a b c : TreeClock) (p : IsClock a) (q : IsClock b) where
  -- Member by member, the merge is within `c` as far as both clocks are.
  merged_within :
      (k : MemberId)
      → within (lookup cmp_id k (merge a b).time) (lookup cmp_id k c.time) ≡ (
          within (lookup cmp_id k a.time) (lookup cmp_id k c.time)
          && within (lookup cmp_id k b.time) (lookup cmp_id k c.time))
  merged_within k =
      rw (lookup-merge a b q k)
        (within-join (lookup cmp_id k a.time) (lookup cmp_id k b.time) (lookup cmp_id k c.time))

  before_both :
      is_before_or_equal (merge a b) c ≡ true
      → (is_before_or_equal a c && is_before_or_equal b c) ≡ true
  before_both h =
      let parts = λ (k : MemberId).
        &&_parts (within (lookup cmp_id k a.time) (lookup cmp_id k c.time))
          (within (lookup cmp_id k b.time) (lookup cmp_id k c.time))
          (sym (merged_within k) ∙ members_within (merge a b) c h k) in
      rw (before-members a c p (λ k. (parts k).0)) (before-members b c q (λ k. (parts k).1))

  before_merged :
      (is_before_or_equal a c && is_before_or_equal b c) ≡ true
      → is_before_or_equal (merge a b) c ≡ true
  before_merged h =
      let parts = &&_parts (is_before_or_equal a c) (is_before_or_equal b c) h in
      before-members (merge a b) c (merge-IsClock a b p)
        (λ k. rw (merged_within k, members_within a c parts.0 k, members_within b c parts.1 k) refl)

-- For sorted clocks, the merge of two is before or equal to a third exactly when both of them are:
-- it is their least upper bound.
pub before-merge :
    (a b c : TreeClock)
    → IsClock a
    → IsClock b
    → is_before_or_equal (merge a b) c ≡ (is_before_or_equal a c && is_before_or_equal b c)
before-merge a b c p q = ground (arith, before_both a b c p q, before_merged a b c p q)

-- Merging sorted clocks is commutative, associative and idempotent: replicas that merged the same
-- clocks, in any order and any number of times, hold the same clock.
pub merge-semilattice :
    (a b c : TreeClock)
    → IsClock a
    → IsClock b
    → IsClock c
    → (merge a b ≡ merge b a) × (merge a (merge b c) ≡ merge (merge a b) c) × (merge a a ≡ a)
merge-semilattice a b c p q r = (
  clock_of_counters (merge a b) (merge b a) (merge-IsClock a b p) (merge-IsClock b a q) (λ k.
      lookup-merge a b q k
      ∙ join_comm (lookup cmp_id k a.time) (lookup cmp_id k b.time)
      ∙ sym (lookup-merge b a p k)),
  clock_of_counters (merge a (merge b c)) (merge (merge a b) c) (merge-IsClock a (merge b c) p)
      (merge-IsClock (merge a b) c (merge-IsClock a b p))
      (λ k.
        rw
          (
            lookup-merge a (merge b c) (merge-IsClock b c q) k,
            lookup-merge b c r k,
            lookup-merge (merge a b) c r k,
            lookup-merge a b q k,
          )
          (join_assoc (lookup cmp_id k a.time) (lookup cmp_id k b.time) (lookup cmp_id k c.time))),
  clock_of_counters (merge a a) a (merge-IsClock a a p) p
      (λ k. lookup-merge a a p k ∙ join_idem (lookup cmp_id k a.time)),
)
