-- ===== src/Cbor/KeyOrder.antt =====
-- The canonical key order is a strict order: length first, then unit by unit.
use rust_peergos_client.Common.{ℕ, ◌≡◌, refl, arith, List, [], ◌∷◌, Ordering}
use rust_peergos_client.Cbor.Object.{CborString, lex_cmp, cmp_cbor_string}

lex_cmp_refl : (a : List ℕ) → lex_cmp a a ≡ Ordering.eq
unfolding lex_cmp
lex_cmp_refl [] = refl
lex_cmp_refl (x ∷ xs) = ground (arith, lex_cmp_refl xs)

lex_cmp-flip_lt : (a b : List ℕ) → lex_cmp a b ≡ Ordering.lt → lex_cmp b a ≡ Ordering.gt
unfolding lex_cmp
lex_cmp-flip_lt [] [] h = ground arith
lex_cmp-flip_lt [] (y ∷ ys) h = refl
lex_cmp-flip_lt (x ∷ xs) [] h = ground arith
lex_cmp-flip_lt (x ∷ xs) (y ∷ ys) h = ground (arith, lex_cmp-flip_lt xs ys)

lex_cmp-flip_gt : (a b : List ℕ) → lex_cmp a b ≡ Ordering.gt → lex_cmp b a ≡ Ordering.lt
unfolding lex_cmp
lex_cmp-flip_gt [] [] h = ground arith
lex_cmp-flip_gt [] (y ∷ ys) h = ground arith
lex_cmp-flip_gt (x ∷ xs) [] h = refl
lex_cmp-flip_gt (x ∷ xs) (y ∷ ys) h = ground (arith, lex_cmp-flip_gt xs ys)

lex_cmp-eq : (a b : List ℕ) → lex_cmp a b ≡ Ordering.eq → a ≡ b
unfolding lex_cmp
lex_cmp-eq [] [] h = refl
lex_cmp-eq [] (y ∷ ys) h = ground arith
lex_cmp-eq (x ∷ xs) [] h = ground arith
lex_cmp-eq (x ∷ xs) (y ∷ ys) h = ground (arith, lex_cmp-eq xs ys)

lex_cmp_trans :
    (a b c : List ℕ)
    → lex_cmp a b ≡ Ordering.lt
    → lex_cmp b c ≡ Ordering.lt
    → lex_cmp a c ≡ Ordering.lt
unfolding lex_cmp
lex_cmp_trans [] [] c h k = ground arith
lex_cmp_trans [] (y ∷ ys) [] h k = ground arith
lex_cmp_trans [] (y ∷ ys) (z ∷ zs) h k = refl
lex_cmp_trans (x ∷ xs) [] c h k = ground arith
lex_cmp_trans (x ∷ xs) (y ∷ ys) [] h k = ground arith
lex_cmp_trans (x ∷ xs) (y ∷ ys) (z ∷ zs) h k = ground (arith, lex_cmp_trans xs ys zs)

module _ (a b : CborString) where
  pub cmp-flip_lt : cmp_cbor_string a b ≡ Ordering.lt → cmp_cbor_string b a ≡ Ordering.gt
  unfolding cmp_cbor_string
  cmp-flip_lt h = ground (arith, lex_cmp-flip_lt a.utf16 b.utf16)

  pub cmp-flip_gt : cmp_cbor_string a b ≡ Ordering.gt → cmp_cbor_string b a ≡ Ordering.lt
  unfolding cmp_cbor_string
  cmp-flip_gt h = ground (arith, lex_cmp-flip_gt a.utf16 b.utf16)

  -- Keys that the order takes for equal have the same UTF-16 units.
  pub cmp-eq_utf16 : cmp_cbor_string a b ≡ Ordering.eq → a.utf16 ≡ b.utf16
  unfolding cmp_cbor_string
  cmp-eq_utf16 h = ground (arith, lex_cmp-eq a.utf16 b.utf16)

  pub cmp-of_utf16 : a.utf16 ≡ b.utf16 → cmp_cbor_string a b ≡ Ordering.eq
  unfolding cmp_cbor_string
  cmp-of_utf16 h = ground (arith, lex_cmp_refl a.utf16, lex_cmp_refl b.utf16)

  pub cmp_trans :
      (c : CborString)
      → cmp_cbor_string a b ≡ Ordering.lt
      → cmp_cbor_string b c ≡ Ordering.lt
      → cmp_cbor_string a c ≡ Ordering.lt
  unfolding cmp_cbor_string
  cmp_trans c h k = ground (arith, lex_cmp_trans a.utf16 b.utf16 c.utf16)
