-- ===== src/Multiformats/Bases/Scale.antt =====
-- crates/peergos-multiformats/src/bases.rs: the range of a number with given first digits.
use rust_peergos_client.Common.{
  ℕ, zero, suc, ◌+◌, ◌*◌, ◌<◌, ◌≤◌, ◌≡◌, ◌≢◌, arith, [], ◌∷◌, Bytes, length,
}
use native.Mathlib.Nat.{mul-le-mul_right}
use rust_peergos_client.Multiformats.Bases.Digits.{value, IsDigits}
use rust_peergos_client.Multiformats.Bases.Unique.{StartsHigh}
use mathlib.Core.Path.{subst}
use native.Mathlib.Decide.{dec_lt}

-- `base` to the power `n`.
unfoldable scale : ℕ → ℕ → ℕ
scale base zero = 1
scale base (suc n) = base * scale base n

value_bounds :
    (base front : ℕ) (ds : Bytes)
    → IsDigits base ds
    → (front * scale base (length ds) ≤ value base front ds)
      × (value base front ds < (front + 1) * scale base (length ds))
unfolding value scale
value_bounds base front [] h = (omega arith, omega arith)
value_bounds base front (d ∷ ds) h =
    let (low, high) = value_bounds base (front * base + d) ds h.1 in
    let p = scale base (length ds) in
    let step = mul-le-mul_right p (let less : d + 1 ≤ base = omega (arith, h.0) in less) in
    (grind arith, grind arith)

scale_pos : (n : ℕ) → 0 < scale 58 n
unfolding scale
scale_pos zero = omega arith
scale_pos (suc n) = omega (arith, scale_pos n)

scale_mono : (m n : ℕ) → m ≤ n → scale 58 m ≤ scale 58 n
unfolding scale
scale_mono zero n h = omega (arith, scale_pos n)
scale_mono (suc m) zero h = absurd (omega arith)
scale_mono (suc m) (suc n) h = omega (arith, scale_mono m n (omega arith))

-- The length of digits without leading zeros is that of their range.
digits_length :
    (n d : ℕ) (ds : Bytes)
    → IsDigits 58 (d ∷ ds)
    → d ≢ 0
    → scale 58 n ≤ value 58 0 (d ∷ ds)
    → value 58 0 (d ∷ ds) < scale 58 (suc n)
    → length ds ≡ n
digits_length n d ds h high low top =
    let whole = value_bounds 58 0 (d ∷ ds) h in
    let tail : (0 * 58 + d) * scale 58 (length ds) ≤ value 58 0 (d ∷ ds) =
      unfold value in (value_bounds 58 (0 * 58 + d) ds h.1).0 in
    let first =
      mul-le-mul_right (scale 58 (length ds)) (let one : 1 ≤ 0 * 58 + d = omega arith in one) in
    elim (dec_lt n (length ds)) [
      | yes more ↦ absurd (omega (arith, scale_mono (suc n) (length ds) (omega arith)))
      | no few ↦ elim (dec_lt (length ds) n) [
        | yes less ↦ absurd (omega (arith, scale_mono (suc (length ds)) n (omega arith)))
        | no same ↦ omega arith
      ]
    ]

sha2_256_range :
    (hash : Bytes)
    → IsDigits 256 hash
    → length hash ≡ 32
    → (4640 * scale 256 32 ≤ value 256 0 (18 ∷ 32 ∷ hash))
      × (value 256 0 (18 ∷ 32 ∷ hash) < 4641 * scale 256 32)
unfolding value
sha2_256_range hash h size =
    subst
      (λ (n : ℕ).
        (4640 * scale 256 n ≤ value 256 4640 hash) × (value 256 4640 hash < 4641 * scale 256 n))
      size (value_bounds 256 4640 hash h)

two_digits :
    (a b : ℕ) (rest : Bytes)
    → IsDigits 58 (a ∷ b ∷ rest)
    → length rest ≡ 44
    → (4640 * scale 256 32 ≤ value 58 0 (a ∷ b ∷ rest))
      × (value 58 0 (a ∷ b ∷ rest) < 4641 * scale 256 32)
    → (a ≡ 23) × (b ≡ 44)
unfolding scale value
two_digits a b rest h size range =
    let front : ℕ = (0 * 58 + a) * 58 + b in
    let bounds =
      subst
        (λ (n : ℕ).
          (front * scale 58 n ≤ value 58 front rest)
          × (value 58 front rest < (front + 1) * scale 58 n))
        size (value_bounds 58 front rest h.1.1) in
    (omega (arith, h.0, h.1.0), omega (arith, h.0, h.1.0))

-- The first two of 46 digits are those of every number in the range of 34 bytes that begin with 18
-- and 32: the digits of Q and m.
pub legacy_digits :
    (ds hash : Bytes)
    → IsDigits 58 ds
    → StartsHigh ds
    → IsDigits 256 hash
    → length hash ≡ 32
    → value 58 0 ds ≡ value 256 0 (18 ∷ 32 ∷ hash)
    → (rest : Bytes) × (ds ≡ 23 ∷ 44 ∷ rest) × (length rest ≡ 44)
legacy_digits [] hash h high hh size e =
    let range = sha2_256_range hash hh size in absurd (unfold value scale in omega arith)
legacy_digits (d ∷ []) hash h high hh size e =
    let range = sha2_256_range hash hh size in absurd (unfold value scale in omega (arith, h.0))
legacy_digits (a ∷ b ∷ rest) hash h high hh size e =
    let range = sha2_256_range hash hh size in
    let long : length (b ∷ rest) ≡ 45 =
      digits_length 45 a (b ∷ rest) h high (unfold scale in omega arith)
        (unfold scale in omega arith) in
    let (first, second) = two_digits a b rest h (omega arith) (omega arith) in
    (rest, cc, omega arith)
