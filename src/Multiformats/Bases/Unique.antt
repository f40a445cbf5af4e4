-- ===== src/Multiformats/Bases/Unique.antt =====
-- crates/peergos-multiformats/src/bases.rs: bytes without leading zeros are determined by their value.
use rust_peergos_client.Common.{
  ℕ, ◌+◌, ◌*◌, ◌<◌, ◌≡◌, ◌≢◌, refl, sym, ap, ◌∙◌, arith, [], ◌∷◌, Bytes,
}
use mathlib.Core.List.{reverse, reverse_aux, reverse-reverse}
use rust_peergos_client.Multiformats.Bases.Digits.{value, IsDigits}

-- The value of digits with the first one the lowest.
low_value : Bytes → ℕ
low_value [] = 0
low_value (d ∷ digits) = d + 256 * low_value digits

-- The last digit, which is the highest, is not zero.
EndsHigh : Bytes → Type 0
EndsHigh [] = Unit
EndsHigh (d ∷ []) = d ≢ 0
EndsHigh (d ∷ e ∷ digits) = EndsHigh (e ∷ digits)

low_value_pos : (d : ℕ) (digits : Bytes) → EndsHigh (d ∷ digits) → 0 < low_value (d ∷ digits)
unfolding low_value EndsHigh
low_value_pos d [] h = omega arith
low_value_pos d (e ∷ digits) h = omega (arith, low_value_pos e digits h)

EndsHigh-tail : (d : ℕ) (digits : Bytes) → EndsHigh (d ∷ digits) → EndsHigh digits
unfolding EndsHigh
EndsHigh-tail d [] h = tt
EndsHigh-tail d (e ∷ digits) h = h

low_value_inj :
    (xs ys : Bytes)
    → IsDigits 256 xs
    → IsDigits 256 ys
    → EndsHigh xs
    → EndsHigh ys
    → low_value xs ≡ low_value ys
    → xs ≡ ys
unfolding low_value
low_value_inj [] [] hx hy ex ey e = refl
low_value_inj [] (y ∷ ys) hx hy ex ey e = absurd (omega (arith, low_value_pos y ys ey))
low_value_inj (x ∷ xs) [] hx hy ex ey e = absurd (omega (arith, low_value_pos x xs ex))
low_value_inj (x ∷ xs) (y ∷ ys) hx hy ex ey e =
    let head : x ≡ y = omega (arith, hx.0, hy.0) in
    let tail =
      low_value_inj xs ys hx.1 hy.1 (EndsHigh-tail x xs ex) (EndsHigh-tail y ys ey)
        (omega (arith, hx.0, hy.0)) in
    cc

-- The first digit is not zero.
abbrev pub StartsHigh : Bytes → Type 0
StartsHigh [] = Unit
StartsHigh (d ∷ digits) = d ≢ 0

value-low_value :
    (low : Bytes) (digits : Bytes)
    → value 256 (low_value low) digits ≡ low_value (reverse_aux digits low)
unfolding value low_value
value-low_value low [] = refl
value-low_value low (d ∷ digits) =
    let one : low_value low * 256 + d ≡ d + 256 * low_value low = omega arith in
    ap (λ (n : ℕ). value 256 n digits) one ∙ value-low_value (d ∷ low) digits

reverse_aux-IsDigits :
    (digits low : Bytes)
    → IsDigits 256 digits
    → IsDigits 256 low
    → IsDigits 256 (reverse_aux digits low)
reverse_aux-IsDigits [] low h k = k
reverse_aux-IsDigits (d ∷ digits) low h k = reverse_aux-IsDigits digits (d ∷ low) h.1 (h.0, k)

-- A list whose last element is not zero keeps it under a reversal in front of it.
reverse_aux-EndsHigh :
    (digits : Bytes) (d : ℕ) (low : Bytes)
    → EndsHigh (d ∷ low)
    → EndsHigh (reverse_aux digits (d ∷ low))
unfolding EndsHigh
reverse_aux-EndsHigh [] d low h = h
reverse_aux-EndsHigh (e ∷ digits) d low h = reverse_aux-EndsHigh digits e (d ∷ low) h

reverse-EndsHigh : (digits : Bytes) → StartsHigh digits → EndsHigh (reverse digits)
unfolding EndsHigh
reverse-EndsHigh [] h = tt
reverse-EndsHigh (d ∷ digits) h = reverse_aux-EndsHigh digits d [] h

-- Bytes that do not begin with zero are determined by their value.
pub value_inj :
    (xs ys : Bytes)
    → IsDigits 256 xs
    → IsDigits 256 ys
    → StartsHigh xs
    → StartsHigh ys
    → value 256 0 xs ≡ value 256 0 ys
    → xs ≡ ys
unfolding low_value
value_inj xs ys hx hy sx sy e =
    let same = sym (value-low_value [] xs) ∙ e ∙ value-low_value [] ys in
    let reversed : reverse xs ≡ reverse ys =
      low_value_inj (reverse xs) (reverse ys) (reverse_aux-IsDigits xs [] hx tt)
        (reverse_aux-IsDigits ys [] hy tt) (reverse-EndsHigh xs sx) (reverse-EndsHigh ys sy) same in
    sym (reverse-reverse xs) ∙ ap reverse reversed ∙ reverse-reverse ys
