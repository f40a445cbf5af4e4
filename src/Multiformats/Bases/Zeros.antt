-- ===== src/Multiformats/Bases/Zeros.antt =====
-- crates/peergos-multiformats/src/bases.rs: the leading zeros of bytes and of digits.
use rust_peergos_client.Common.{
  ℕ, zero, suc, ◌+◌, ◌≤◌, ◌≡◌, refl, ap, arith, some, [], ◌∷◌, ◌++◌, Bytes, length, drop,
}
use rust_peergos_client.Multiformats.Bases.{leading, strip, repeat, padded}
use rust_peergos_client.Multiformats.Bases.Digits.{IsDigits}
use rust_peergos_client.Multiformats.Bases.Unique.{StartsHigh}

pub leading-strip : (c : ℕ) (xs : Bytes) → repeat c (leading c xs) ++ strip c xs ≡ xs
unfolding repeat leading strip
leading-strip c [] = refl
leading-strip c (x ∷ xs) = ground (arith, leading-strip c xs)

pub drop-leading : (c : ℕ) (xs : Bytes) → drop (leading c xs) xs ≡ strip c xs
unfolding drop leading strip
drop-leading c [] = refl
drop-leading c (x ∷ xs) = ground (arith, drop-leading c xs)

pub strip-StartsHigh : (xs : Bytes) → StartsHigh (strip 0 xs)
unfolding strip
strip-StartsHigh [] = tt
strip-StartsHigh (x ∷ xs) = ground (arith, strip-StartsHigh xs)

pub strip-IsDigits : (base : ℕ) (xs : Bytes) → IsDigits base xs → IsDigits base (strip 0 xs)
unfolding strip
strip-IsDigits base [] h = h
strip-IsDigits base (x ∷ xs) h = ground (arith, strip-IsDigits base xs h.1)

pub length-strip : (c : ℕ) (xs : Bytes) → length (strip c xs) ≤ length xs
unfolding strip
length-strip c [] = omega arith
length-strip c (x ∷ xs) = ground (arith, length-strip c xs)

pub length-repeat : (c n : ℕ) → length (repeat c n) ≡ n
unfolding repeat
length-repeat c zero = refl
length-repeat c (suc n) = ap suc (length-repeat c n)

pub leading-repeat : (n : ℕ) (ys : Bytes) → StartsHigh ys → leading 0 (repeat 0 n ++ ys) ≡ n
unfolding leading repeat
leading-repeat zero [] h = refl
leading-repeat zero (y ∷ ys) h = ground (arith, h)
leading-repeat (suc n) ys h = ap suc (leading-repeat n ys h)

pub drop-repeat : (n : ℕ) (ys : Bytes) → drop n (repeat 0 n ++ ys) ≡ ys
unfolding drop repeat
drop-repeat zero ys = refl
drop-repeat (suc n) ys = drop-repeat n ys

pub padded_fits :
    (c count size : ℕ) (output : Bytes)
    → count + length output ≤ size
    → padded c count size output ≡ some (repeat c count ++ output)
unfolding padded
padded_fits c count size output h = ground (arith, h)
