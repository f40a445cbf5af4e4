-- ===== src/Messaging/IdOrder.antt =====
-- crates/peergos-fs/src/messaging/id.rs: `Id::cmp` is a total order.
use rust_peergos_client.Common.{
  ◌≡◌, refl, ap, arith, none, some, List, [], ◌∷◌, length, compare, Ordering,
}
use rust_peergos_client.Common.Int.{ℤ}
use rust_peergos_client.Common.SortedMap.{IsTotal}
use rust_peergos_client.Messaging.MemberId.{MemberId, first_difference, cmp_id}

-- The same order, with the lengths compared where a list ends.
cmp_list : List ℤ → List ℤ → Ordering
cmp_list a b = elim (first_difference a b) [
  | some difference ↦ difference
  | none ↦ compare (length a) (length b)
]

lists_refl : (a : List ℤ) → cmp_list a a ≡ Ordering.eq
unfolding cmp_list first_difference
lists_refl [] = refl
lists_refl (x ∷ xs) = ground (arith, lists_refl xs)

lists_gt : (a b : List ℤ) → cmp_list a b ≡ Ordering.lt → cmp_list b a ≡ Ordering.gt
unfolding cmp_list first_difference
lists_gt [] [] h = ground arith
lists_gt [] (y ∷ ys) h = ground arith
lists_gt (x ∷ xs) [] h = ground arith
lists_gt (x ∷ xs) (y ∷ ys) h = ground (arith, lists_gt xs ys)

lists_lt : (a b : List ℤ) → cmp_list a b ≡ Ordering.gt → cmp_list b a ≡ Ordering.lt
unfolding cmp_list first_difference
lists_lt [] [] h = ground arith
lists_lt [] (y ∷ ys) h = ground arith
lists_lt (x ∷ xs) [] h = ground arith
lists_lt (x ∷ xs) (y ∷ ys) h = ground (arith, lists_lt xs ys)

lists_eq : (a b : List ℤ) → cmp_list a b ≡ Ordering.eq → a ≡ b
unfolding cmp_list first_difference
lists_eq [] [] h = refl
lists_eq [] (y ∷ ys) h = ground arith
lists_eq (x ∷ xs) [] h = ground arith
lists_eq (x ∷ xs) (y ∷ ys) h = ground (arith, lists_eq xs ys)

lists_trans :
    (a b c : List ℤ)
    → cmp_list a b ≡ Ordering.lt
    → cmp_list b c ≡ Ordering.lt
    → cmp_list a c ≡ Ordering.lt
unfolding cmp_list first_difference
lists_trans [] [] c h k = ground arith
lists_trans [] (y ∷ ys) [] h k = ground arith
lists_trans [] (y ∷ ys) (z ∷ zs) h k = ground arith
lists_trans (x ∷ xs) [] c h k = ground arith
lists_trans (x ∷ xs) (y ∷ ys) [] h k = ground arith
lists_trans (x ∷ xs) (y ∷ ys) (z ∷ zs) h k = ground (arith, lists_trans xs ys zs)

module _ (a b : MemberId) where
  id_refl : cmp_id a a ≡ Ordering.eq
  unfolding cmp_id cmp_list
  id_refl = lists_refl a.id

  id_gt : cmp_id a b ≡ Ordering.lt → cmp_id b a ≡ Ordering.gt
  unfolding cmp_id cmp_list
  id_gt h = lists_gt a.id b.id h

  id_lt : cmp_id a b ≡ Ordering.gt → cmp_id b a ≡ Ordering.lt
  unfolding cmp_id cmp_list
  id_lt h = lists_lt a.id b.id h

  id_eq : cmp_id a b ≡ Ordering.eq → a ≡ b
  unfolding cmp_id cmp_list
  id_eq h = ap (λ (l : List ℤ). record { id = l }) (lists_eq a.id b.id h)

  id_trans :
      (c : MemberId)
      → cmp_id a b ≡ Ordering.lt
      → cmp_id b c ≡ Ordering.lt
      → cmp_id a c ≡ Ordering.lt
  unfolding cmp_id cmp_list
  id_trans c h k = lists_trans a.id b.id c.id h k

-- `cmp` on member ids has the laws that `Ord` asks for, and is `eq` on equal ids only.
pub cmp_id-IsTotal : IsTotal cmp_id
cmp_id-IsTotal = record {
  cmp_refl = λ a. id_refl a a;
  eq_of_cmp = id_eq;
  gt_of_lt = id_gt;
  lt_of_gt = id_lt;
  lt_trans = id_trans;
}
