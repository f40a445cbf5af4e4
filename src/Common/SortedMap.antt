-- ===== src/Common/SortedMap.antt =====
-- Rust's `BTreeMap<K, V>`: the entries in the order of the keys, searched and changed by `Ord::cmp`.
use Prim.Native.Nat.{Ordering}
use mathlib.Core.Path.{◌≡◌, refl, sym, ap, ◌∙◌, subst}
use mathlib.Core.Logic.{◌≢◌}
use mathlib.Core.Option.{Option, none, some}
use mathlib.Core.List.{List, [], ◌∷◌}
use native.Mathlib.Omega.{arith}

-- The laws that the trait asks of `cmp`, where `==` is equality.
pub record IsTotal {ℓ} {K : Type ℓ} (cmp : K → K → Ordering) : Type ℓ where
  pub cmp_refl : (a : K) → cmp a a ≡ Ordering.eq
  pub eq_of_cmp : (a b : K) → cmp a b ≡ Ordering.eq → a ≡ b
  pub gt_of_lt : (a b : K) → cmp a b ≡ Ordering.lt → cmp b a ≡ Ordering.gt
  pub lt_of_gt : (a b : K) → cmp a b ≡ Ordering.gt → cmp b a ≡ Ordering.lt
  pub lt_trans : (a b c : K) → cmp a b ≡ Ordering.lt → cmp b c ≡ Ordering.lt → cmp a c ≡ Ordering.lt

abbrev pub SortedMap {ℓ κ} : Type ℓ → Type κ → Type (ℓ ⊔ κ)
SortedMap K V = List (K × V)

module _ {ℓ κ} {K : Type ℓ} {V : Type κ} (cmp : K → K → Ordering) where
  unfoldable pub lookup : K → SortedMap K V → Option V
  lookup k [] = none
  lookup k ((j, w) ∷ m) = elim (cmp k j) [
    | Ordering.lt ↦ none
    | Ordering.eq ↦ some w
    | Ordering.gt ↦ lookup k m
  ]

  unfoldable pub insert : K → V → SortedMap K V → SortedMap K V
  insert k v [] = (k, v) ∷ []
  insert k v ((j, w) ∷ m) = elim (cmp k j) [
    | Ordering.lt ↦ (k, v) ∷ (j, w) ∷ m
    | Ordering.eq ↦ (j, v) ∷ m
    | Ordering.gt ↦ (j, w) ∷ insert k v m
  ]

  unfoldable pub remove : K → SortedMap K V → SortedMap K V
  remove k [] = []
  remove k ((j, w) ∷ m) = elim (cmp k j) [
    | Ordering.lt ↦ (j, w) ∷ m
    | Ordering.eq ↦ m
    | Ordering.gt ↦ (j, w) ∷ remove k m
  ]

  abbrev pub AllAfter : K → SortedMap K V → Type 0
  AllAfter k [] = Unit
  AllAfter k ((j, w) ∷ m) = (cmp k j ≡ Ordering.lt) × AllAfter k m

  abbrev pub IsSorted : SortedMap K V → Type 0
  IsSorted [] = Unit
  IsSorted ((j, w) ∷ m) = AllAfter j m × IsSorted m

module _ {ℓ κ} {K : Type ℓ} {V : Type κ} (cmp : K → K → Ordering) (total : IsTotal cmp) where
  pub AllAfter-trans :
      (k j : K) (m : SortedMap K V) → cmp k j ≡ Ordering.lt → AllAfter cmp j m → AllAfter cmp k m
  AllAfter-trans k j [] h a = tt
  AllAfter-trans k j ((i, w) ∷ m) h a = (total.lt_trans k j i h a.0, AllAfter-trans k j m h a.1)

  AllAfter-insert :
      (j k : K) (v : V) (m : SortedMap K V)
      → cmp j k ≡ Ordering.lt
      → AllAfter cmp j m
      → AllAfter cmp j (insert cmp k v m)
  unfolding insert
  AllAfter-insert j k v [] h a = (h, tt)
  AllAfter-insert j k v ((i, w) ∷ m) h a = ground (arith, AllAfter-insert j k v m h)

  AllAfter-remove :
      (j k : K) (m : SortedMap K V) → AllAfter cmp j m → AllAfter cmp j (remove cmp k m)
  unfolding remove
  AllAfter-remove j k [] a = tt
  AllAfter-remove j k ((i, w) ∷ m) a = ground (arith, AllAfter-remove j k m)

  pub insert-IsSorted :
      (k : K) (v : V) (m : SortedMap K V) → IsSorted cmp m → IsSorted cmp (insert cmp k v m)
  unfolding insert
  insert-IsSorted k v [] h = (tt, tt)
  insert-IsSorted k v ((j, w) ∷ m) h = ground (
    arith,
    AllAfter-trans k j m,
    total.lt_of_gt k j,
    AllAfter-insert j k v m,
    insert-IsSorted k v m,
  )

  pub remove-IsSorted : (k : K) (m : SortedMap K V) → IsSorted cmp m → IsSorted cmp (remove cmp k m)
  unfolding remove
  remove-IsSorted k [] h = tt
  remove-IsSorted k ((j, w) ∷ m) h = ground (arith, AllAfter-remove j k m, remove-IsSorted k m)

  pub lookup-AllAfter : (k : K) (m : SortedMap K V) → AllAfter cmp k m → lookup cmp k m ≡ none
  unfolding lookup
  lookup-AllAfter k [] a = refl
  lookup-AllAfter k ((j, w) ∷ m) a = ground arith

  pub lookup-insert_self :
      (k : K) (v : V) (m : SortedMap K V) → lookup cmp k (insert cmp k v m) ≡ some v
  unfolding lookup insert
  lookup-insert_self k v [] = ground (arith, total.cmp_refl k)
  lookup-insert_self k v ((j, w) ∷ m) = ground (arith, total.cmp_refl k, lookup-insert_self k v m)

  pub lookup-insert_ne :
      (j k : K) (v : V) (m : SortedMap K V)
      → cmp j k ≢ Ordering.eq
      → lookup cmp j (insert cmp k v m) ≡ lookup cmp j m
  unfolding lookup insert
  lookup-insert_ne j k v [] h = ground arith
  lookup-insert_ne j k v ((i, w) ∷ m) h =
      ground (arith, lookup-insert_ne j k v m h, total.lt_trans j k i, total.eq_of_cmp k i)

  pub lookup-remove_self :
      (k : K) (m : SortedMap K V) → IsSorted cmp m → lookup cmp k (remove cmp k m) ≡ none
  unfolding lookup remove
  lookup-remove_self k [] h = refl
  lookup-remove_self k ((j, w) ∷ m) h =
      ground (arith, lookup-remove_self k m, total.eq_of_cmp k j, lookup-AllAfter k m)

  pub lookup-remove_ne :
      (j k : K) (m : SortedMap K V)
      → IsSorted cmp m
      → cmp j k ≢ Ordering.eq
      → lookup cmp j (remove cmp k m) ≡ lookup cmp j m
  unfolding lookup remove
  lookup-remove_ne j k [] h n = refl
  lookup-remove_ne j k ((i, w) ∷ m) h n = ground (
    arith,
    lookup-remove_ne j k m h.1 n,
    total.eq_of_cmp k i,
    total.cmp_refl k,
    AllAfter-trans j i m,
    lookup-AllAfter j m,
  )

  tails_agree :
      (k j : K) (w : V) (a b : SortedMap K V)
      → AllAfter cmp j a
      → AllAfter cmp j b
      → lookup cmp k ((j, w) ∷ a) ≡ lookup cmp k ((j, w) ∷ b)
      → lookup cmp k a ≡ lookup cmp k b
  unfolding lookup
  tails_agree k j w a b p q h = ground (
    arith,
    h,
    total.eq_of_cmp k j,
    AllAfter-trans k j a,
    AllAfter-trans k j b,
    lookup-AllAfter k a,
    lookup-AllAfter k b,
  )

  heads_agree :
      (j i : K) (w v : V) (a b : SortedMap K V)
      → AllAfter cmp j a
      → AllAfter cmp i b
      → ((k : K) → lookup cmp k ((j, w) ∷ a) ≡ lookup cmp k ((i, v) ∷ b))
      → (j ≡ i) × (w ≡ v)
  unfolding lookup
  heads_agree j i w v a b p q h = ground (
    arith,
    h j,
    h i,
    total.cmp_refl j,
    total.cmp_refl i,
    total.eq_of_cmp j i,
    total.gt_of_lt j i,
    total.lt_of_gt j i,
    lookup-AllAfter j b,
    lookup-AllAfter i a,
  )

  -- Sorted maps with the same values are the same.
  pub eq_of_lookup :
      (a b : SortedMap K V)
      → IsSorted cmp a
      → IsSorted cmp b
      → ((k : K) → lookup cmp k a ≡ lookup cmp k b)
      → a ≡ b
  eq_of_lookup [] [] p q h = refl
  eq_of_lookup [] ((i, v) ∷ b) p q h = unfold lookup in ground (arith, h i, total.cmp_refl i)
  eq_of_lookup ((j, w) ∷ a) [] p q h = unfold lookup in ground (arith, h j, total.cmp_refl j)
  eq_of_lookup ((j, w) ∷ a) ((i, v) ∷ b) p q h =
      let heads = heads_agree j i w v a b p.0 q.0 h in
      let r : (i, v) ≡ (j, w) = cc in
      let q' : AllAfter cmp j b = subst (λ t. AllAfter cmp t b) (sym heads.0) q.0 in
      let tails : a ≡ b =
        eq_of_lookup a b p.1 q.1
          (λ k. tails_agree k j w a b p.0 q' (h k ∙ ap (λ t. lookup cmp k (t ∷ b)) r)) in
      rw r (ap (λ t. (j, w) ∷ t) tails)
