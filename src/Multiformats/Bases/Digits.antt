-- ===== src/Multiformats/Bases/Digits.antt =====
-- crates/peergos-multiformats/src/bases.rs: what the digits of a number are worth, and what the division
-- by `divmod` and the loop of `write_digits` keep of it.
use rust_peergos_client.Common.{
  ℕ, zero, suc, ◌+◌, ◌*◌, ◌/◌, ◌%◌, ◌<◌, ◌≤◌, ◌≡◌, refl, sym, ap, ◌∙◌, arith, some, [], ◌∷◌, Bytes,
  length, All, ltb, if◌then◌else◌,
}
use rust_peergos_client.Multiformats.Bases.{divmod, advance, write_digits, strip, identity}

-- Digits with the first one the highest, after a number in front of them.
unfoldable pub value : ℕ → ℕ → Bytes → ℕ
value base front [] = front
value base front (d ∷ digits) = value base (front * base + d) digits

-- The rounds that a digit takes until it is divided down to nothing.
abbrev pub rounds : ℕ → ℕ → ℕ
rounds divisor d = if ltb d divisor then 1 else 2

-- The rounds that digits take, where each but the first takes `most`.
unfoldable pub needs : ℕ → ℕ → Bytes → ℕ
needs divisor most [] = 0
needs divisor most (d ∷ digits) = rounds divisor d + most * length digits

abbrev pub IsDigits : ℕ → Bytes → Type 0
IsDigits base = All (λ d. d < base)

pub value-strip : (base : ℕ) (digits : Bytes) → value base 0 (strip 0 digits) ≡ value base 0 digits
unfolding value strip
value-strip base [] = refl
value-strip base (d ∷ digits) = ground (arith, value-strip base digits)

-- One digit of a division: its quotient, its remainder, and the numbers that they keep.
abbrev pub Divides : ℕ → ℕ → ℕ → Type 0
Divides base divisor most =
    (r d : ℕ)
    → r < divisor
    → d < base
    → ((front : ℕ)
        → divisor * (front * base + (r * base + d) / divisor % 256) + (r * base + d) % divisor
          ≡ (divisor * front + r) * base + d)
      × ((r * base + d) / divisor % 256 < base)
      × ((r * base + d) % divisor < divisor)
      × (rounds divisor ((0 * base + d) / divisor % 256) ≡ 1)
      × (rounds divisor d ≤ most)
      × (d < divisor → (0 * base + d) / divisor % 256 ≡ 0)

value-advance : (base : ℕ) (digits : Bytes) → value base 0 (advance digits) ≡ value base 0 digits
unfolding value advance
value-advance base [] = refl
value-advance base (d ∷ digits) = ground arith

advance-IsDigits :
    (base : ℕ) (digits : Bytes) → IsDigits base digits → IsDigits base (advance digits)
unfolding advance
advance-IsDigits base [] h = h
advance-IsDigits base (d ∷ digits) h = ground arith

length-divmod : (base divisor r : ℕ) (ds : Bytes) → length (divmod base divisor r ds).0 ≡ length ds
unfolding divmod
length-divmod base divisor r [] = refl
length-divmod base divisor r (d ∷ ds) =
    ap suc (length-divmod base divisor ((r * base + d) % divisor) ds)

needs_round :
    (divisor most x d : ℕ) (xs ds : Bytes)
    → length xs ≡ length ds
    → rounds divisor x ≡ 1
    → (d < divisor → x ≡ 0)
    → needs divisor most xs ≤ most * length xs
    → needs divisor most (advance (x ∷ xs)) + 1 ≤ needs divisor most (d ∷ ds)
unfolding advance needs
needs_round divisor most x d xs ds same one none_left h = rw (sym same) (ground arith)

module _ (base divisor most : ℕ) (positive : 0 < divisor) (is_byte : divisor ≤ 256)
    (divides : Divides base divisor most) where
  divmod-IsDigits :
      (r : ℕ) (ds : Bytes)
      → r < divisor
      → IsDigits base ds
      → IsDigits base (divmod base divisor r ds).0 × ((divmod base divisor r ds).1 < divisor)
  unfolding divmod
  divmod-IsDigits r [] h k = (tt, h)
  divmod-IsDigits r (d ∷ ds) h k =
      let one = divides r d h k.0 in
      let rest = divmod-IsDigits ((r * base + d) % divisor) ds one.2 k.1 in
      ((one.1, rest.0), rest.1)

  value-divmod :
      (front r : ℕ) (ds : Bytes)
      → r < divisor
      → IsDigits base ds
      → value base (divisor * front + r) ds
        ≡ divisor * value base front (divmod base divisor r ds).0 + (divmod base divisor r ds).1
  unfolding divmod value
  value-divmod front r [] h k = refl
  value-divmod front r (d ∷ ds) h k =
      let one = divides r d h k.0 in
      ap (λ v. value base v ds) (sym (one.0 front))
      ∙ value-divmod (front * base + (r * base + d) / divisor % 256) ((r * base + d) % divisor) ds
          one.2 k.1

  pub needs-le : (ds : Bytes) → IsDigits base ds → needs divisor most ds ≤ most * length ds
  unfolding needs
  needs-le [] h = omega arith
  needs-le (d ∷ ds) h = grind (arith, (divides 0 d positive h.0).4)

  -- A round leaves one round less.
  needs-advance :
      (d : ℕ) (ds : Bytes)
      → d < base
      → IsDigits base ds
      → needs divisor most (advance (divmod base divisor 0 (d ∷ ds)).0) + 1
        ≤ needs divisor most (d ∷ ds)
  unfolding divmod
  needs-advance d ds h k =
      let one = divides 0 d positive h in
      let rest = divmod-IsDigits ((0 * base + d) % divisor) ds one.2 k in
      needs_round divisor most ((0 * base + d) / divisor % 256) d
        (divmod base divisor ((0 * base + d) % divisor) ds).0 ds
        (length-divmod base divisor ((0 * base + d) % divisor) ds) one.3 one.5
        (needs-le (divmod base divisor ((0 * base + d) % divisor) ds).0 rest.0)

  -- The digits that are left, and the one that is written, are worth what the number is.
  value-round :
      (number : Bytes)
      → IsDigits base number
      → value base 0 (advance (divmod base divisor 0 number).0) * divisor
          + (divmod base divisor 0 number).1
        ≡ value base 0 number
  value-round number h =
      let front : divisor * 0 + 0 ≡ 0 = omega arith in
      let same = ap (λ (n : ℕ). value base n number) front in
      grind (
        arith,
        value-advance base (divmod base divisor 0 number).0,
        value-divmod 0 0 number positive h,
      )

  -- The loop ends within the rounds that the number needs, and writes its digits.
  pub write_digits_total :
      (room : ℕ) (number output : Bytes)
      → IsDigits base number
      → IsDigits divisor output
      → needs divisor most number ≤ room
      → (res : Bytes) × (write_digits identity base divisor room number output ≡ some res)
        × (value divisor 0 res ≡ value divisor (value base 0 number) output)
        × IsDigits divisor res
        × (length res ≤ needs divisor most number + length output)
  unfolding write_digits value
  write_digits_total room [] output hn ho enough = (output, refl, refl, ho, omega arith)
  write_digits_total zero (d ∷ ds) output hn ho enough = absurd (unfold needs in ground arith)
  write_digits_total (suc room) (d ∷ ds) output hn ho enough =
      let step = divmod base divisor 0 (d ∷ ds) in
      let number' = advance step.0 in
      let whole = divmod-IsDigits 0 (d ∷ ds) positive hn in
      let fewer = needs-advance d ds hn.0 hn.1 in
      let small : step.1 % 256 ≡ step.1 = omega (arith, whole.1) in
      let worth : value base 0 number' * divisor + step.1 % 256 ≡ value base 0 (d ∷ ds) =
        ap (λ (n : ℕ). value base 0 number' * divisor + n) small ∙ value-round (d ∷ ds) hn in
      let (res, e, v, hr, l) =
        write_digits_total room number' (step.1 % 256 ∷ output)
          (advance-IsDigits base step.0 whole.0) (omega (arith, whole.1), ho) (omega arith) in
      (res, e, v ∙ ap (λ (n : ℕ). value divisor n output) worth, hr, omega arith)
