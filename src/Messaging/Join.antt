-- ===== src/Messaging/Join.antt =====
-- crates/peergos-fs/src/messaging/tree_clock.rs: `merge` and the comparisons, read member by member.
use rust_peergos_client.Common.{
  Bool, ◌≡◌, refl, ◌∙◌, arith, true, false, Bool-cases, Option, none, some, [], ◌∷◌, Ordering,
  if◌then◌else◌, inl, inr,
}
use rust_peergos_client.Common.Int.{ℤ, ltb_ℤ}
use rust_peergos_client.Common.SortedMap.{
  lookup, insert, IsSorted, AllAfter, lookup-AllAfter, lookup-insert_self, lookup-insert_ne,
  insert-IsSorted, AllAfter-trans,
}
use rust_peergos_client.Messaging.MemberId.{MemberId, cmp_id}
use rust_peergos_client.Messaging.IdOrder.{cmp_id-IsTotal}
use rust_peergos_client.Messaging.TreeClock.{
  Time, TreeClock, is_newer, merge_into, has_id, get_event_counter, exceeds, all_within,
}

-- The counters of one member: the later of two, and the order.
abbrev pub join : Option ℤ → Option ℤ → Option ℤ
join none b = b
join (some x) none = some x
join (some x) (some y) = some (if ltb_ℤ x y then y else x)

abbrev pub within : Option ℤ → Option ℤ → Bool
within none b = true
within (some x) none = false
within (some x) (some y) = if ltb_ℤ y x then false else true

lookup-is_newer :
    (k j : MemberId) (w : ℤ) (res : Time)
    → lookup cmp_id k (if is_newer (lookup cmp_id j res) w then insert cmp_id j w res else res)
      ≡ elim (cmp_id k j) [
        | Ordering.eq ↦ join (lookup cmp_id k res) (some w)
        | other ↦ lookup cmp_id k res
      ]
unfolding is_newer
lookup-is_newer k j w res = ground (
  arith,
  cmp_id-IsTotal.eq_of_cmp k j,
  lookup-insert_self cmp_id cmp_id-IsTotal j w res,
  lookup-insert_ne cmp_id cmp_id-IsTotal k j w res,
)

pub lookup-merge_into :
    (k : MemberId) (res m : Time)
    → IsSorted cmp_id m
    → lookup cmp_id k (merge_into res m) ≡ join (lookup cmp_id k res) (lookup cmp_id k m)
unfolding merge_into lookup
lookup-merge_into k res [] h = ground arith
lookup-merge_into k res ((j, w) ∷ m) h =
    let next = if is_newer (lookup cmp_id j res) w then insert cmp_id j w res else res in
    lookup-merge_into k next m h.1
    ∙ ground (
      arith,
      lookup-is_newer k j w res,
      cmp_id-IsTotal.eq_of_cmp k j,
      AllAfter-trans cmp_id cmp_id-IsTotal k j m,
      lookup-AllAfter cmp_id cmp_id-IsTotal k m,
    )

pub merge_into-IsSorted : (res m : Time) → IsSorted cmp_id res → IsSorted cmp_id (merge_into res m)
unfolding merge_into
merge_into-IsSorted res [] h = h
merge_into-IsSorted res ((j, w) ∷ m) h = elim (Bool-cases (is_newer (lookup cmp_id j res) w)) [
  | inl e ↦ rw e (
      merge_into-IsSorted (insert cmp_id j w res) m
        (insert-IsSorted cmp_id cmp_id-IsTotal j w res h))
  | inr e ↦ rw e (merge_into-IsSorted res m h)
]

-- What `is_before_or_equal` found holds of each member.
pub within-all_within :
    (k : MemberId) (m : Time) (b : TreeClock)
    → all_within m b ≡ true
    → within (lookup cmp_id k m) (lookup cmp_id k b.time) ≡ true
unfolding all_within has_id get_event_counter exceeds lookup
within-all_within k [] b h = refl
within-all_within k ((j, w) ∷ m) b h =
    ground (arith, within-all_within k m b, cmp_id-IsTotal.eq_of_cmp k j)

tail_within :
    (k j : MemberId) (w : ℤ) (m : Time) (o : Option ℤ)
    → AllAfter cmp_id j m
    → within (lookup cmp_id k ((j, w) ∷ m)) o ≡ true
    → within (lookup cmp_id k m) o ≡ true
unfolding lookup
tail_within k j w m o a h = ground (
  arith,
  cmp_id-IsTotal.eq_of_cmp k j,
  AllAfter-trans cmp_id cmp_id-IsTotal k j m,
  lookup-AllAfter cmp_id cmp_id-IsTotal k m,
)

head_within :
    (j : MemberId) (w : ℤ) (m : Time) (o : Option ℤ)
    → within (lookup cmp_id j ((j, w) ∷ m)) o ≡ true
    → within (some w) o ≡ true
unfolding lookup
head_within j w m o h = ground (arith, cmp_id-IsTotal.cmp_refl j)

-- Conversely, it accepts what is within the other clock at each member.
pub all_within-within :
    (m : Time) (b : TreeClock)
    → IsSorted cmp_id m
    → ((k : MemberId) → within (lookup cmp_id k m) (lookup cmp_id k b.time) ≡ true)
    → all_within m b ≡ true
unfolding all_within has_id get_event_counter exceeds
all_within-within [] b s h = refl
all_within-within ((j, w) ∷ m) b s h =
    let rest : all_within m b ≡ true =
      all_within-within m b s.1 (λ k. tail_within k j w m (lookup cmp_id k b.time) s.0 (h k)) in
    ground (arith, rest, head_within j w m (lookup cmp_id j b.time) (h j))
