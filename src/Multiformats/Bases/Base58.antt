-- ===== src/Multiformats/Bases/Base58.antt =====
-- crates/peergos-multiformats/src/bases.rs: base 58 and back.
use rust_peergos_client.Common.{
  ℕ, zero, suc, ◌+◌, ◌*◌, ◌%◌, ◌<◌, ◌≤◌, ◌≡◌, refl, ap, ◌∙◌, arith, some, [], ◌∷◌, ◌++◌, Bytes,
  IsBytes, map, length, drop, length-append, ◌==◌, ok,
}
use rust_peergos_client.Common.Text.{Text}
use rust_peergos_client.Multiformats.Bases.{
  b58_char, b58_index, divmod, advance, write_digits, leading, strip, repeat, padded, base58_encode,
  b58_digits, identity, decode_digits, base58_decode,
}
use rust_peergos_client.Multiformats.Bases.Digits.{
  value, needs-le, IsDigits, Divides, value-strip, write_digits_total,
}
use rust_peergos_client.Multiformats.Bases.Unique.{StartsHigh, value_inj}
use rust_peergos_client.Multiformats.Bases.Zeros.{
  leading-strip, drop-leading, strip-StartsHigh, strip-IsDigits, length-strip, length-repeat,
  leading-repeat, drop-repeat, padded_fits,
}

to_58 : Divides 256 58 2
to_58 r d h k = (
  λ front. omega (arith, h, k),
  omega (arith, h, k),
  omega (arith, h),
  ground (arith, h, k),
  ground (arith, h, k),
  λ low. omega (arith, low),
)

to_256 : Divides 58 256 1
to_256 r d h k = (
  λ front. omega (arith, h, k),
  omega (arith, h, k),
  omega (arith, h),
  ground (arith, h, k),
  ground (arith, h, k),
  λ low. omega (arith, low, k),
)

b58_index-b58_char : (d : ℕ) → d < 58 → b58_index (b58_char d) ≡ some d
unfolding b58_index b58_char
b58_index-b58_char d h = ground arith

b58_char-zero : (d : ℕ) → d < 58 → (b58_char d == b'1') ≡ (d == 0)
unfolding b58_char
b58_char-zero d h = ground arith

strip-map : (ds : Bytes) → IsDigits 58 ds → strip b'1' (map b58_char ds) ≡ map b58_char (strip 0 ds)
unfolding strip
strip-map [] h = refl
strip-map (d ∷ ds) h = ground (arith, b58_char-zero d h.0, strip-map ds h.1)

b58_digits-map : (ds : Bytes) → IsDigits 58 ds → b58_digits (map b58_char ds) ≡ some ds
unfolding b58_digits
b58_digits-map [] h = refl
b58_digits-map (d ∷ ds) h = rw (b58_digits, b58_index-b58_char d h.0, b58_digits-map ds h.1) refl

-- The characters are written as the digits are.
write_digits-character :
    (room : ℕ) (number output res : Bytes)
    → write_digits identity 256 58 room number output ≡ some res
    → write_digits b58_char 256 58 room number (map b58_char output) ≡ some (map b58_char res)
unfolding write_digits
write_digits-character room [] output res h = ground (arith, h)
write_digits-character zero (d ∷ number) output res h = cc
write_digits-character (suc room) (d ∷ number) output res h =
    let step = divmod 256 58 0 (d ∷ number) in
    write_digits-character room (advance step.0) (step.1 % 256 ∷ output) res h

map-repeat :
    (n : ℕ) (ds : Bytes) → repeat b'1' n ++ map b58_char ds ≡ map b58_char (repeat 0 n ++ ds)
unfolding repeat b58_char
map-repeat zero ds = refl
map-repeat (suc n) ds = ap (λ t. b'1' ∷ t) (map-repeat n ds)

base58_decode-digits :
    (t : Text) (ds : Bytes) → b58_digits t ≡ some ds → base58_decode t ≡ decode_digits ds
unfolding base58_decode decode_digits b58_digits write_digits padded leading strip drop repeat
base58_decode-digits [] [] h = refl
base58_decode-digits [] (d ∷ ds) h = cc
base58_decode-digits (c ∷ t) ds h = rw (base58_decode, h) refl

-- The digits of a text with leading zeros come back as bytes with as many.
decode_digits_lem :
    (zeros : ℕ) (ds ys : Bytes)
    → IsDigits 58 ds
    → IsBytes ys
    → StartsHigh ds
    → StartsHigh ys
    → value 58 0 ds ≡ value 256 0 ys
    → decode_digits (repeat 0 zeros ++ ds) ≡ ok (repeat 0 zeros ++ ys)
unfolding decode_digits
decode_digits_lem zeros ds ys hd hy sd sy e =
    let size = length-append (repeat 0 zeros) ds in
    let zeros_long = length-repeat 0 zeros in
    let few = needs-le 58 256 1 (omega arith) (omega arith) to_256 ds hd in
    let (res, written, worth, bytes, short) =
      write_digits_total 58 256 1 (omega arith) (omega arith) to_256 (length (repeat 0 zeros ++ ds))
        ds [] hd tt (omega arith) in
    let worth' : value 256 0 res ≡ value 256 0 ys = worth ∙ unfold value in e in
    let same : strip 0 res ≡ ys =
      value_inj (strip 0 res) ys (strip-IsDigits 256 res bytes) hy (strip-StartsHigh res) sy
        (value-strip 256 res ∙ worth') in
    let shorter = length-strip 0 res in
    let fits =
      padded_fits 0 zeros (length (repeat 0 zeros ++ ds)) ys
        (let l = ap length same in omega arith) in
    rw (decode_digits, leading-repeat zeros ds sd, drop-repeat zeros ds, written, same, fits) refl

pub length-map : (ds : Bytes) → length (map b58_char ds) ≡ length ds
length-map [] = refl
length-map (d ∷ ds) = ap suc (length-map ds)

-- The text of bytes whose digits were written.
base58_encode_lem :
    (b : ℕ) (rest res : Bytes)
    → IsDigits 58 res
    → write_digits identity 256 58 (length (b ∷ rest) * 2) (strip 0 (b ∷ rest)) [] ≡ some res
    → leading 0 (b ∷ rest) + length res ≤ length (b ∷ rest) * 2
    → base58_encode (b ∷ rest)
      ≡ some (map b58_char (repeat 0 (leading 0 (b ∷ rest)) ++ strip 0 res))
unfolding base58_encode
base58_encode_lem b rest res small written short =
    let input = b ∷ rest in
    let characters = map b58_char (strip 0 res) in
    let shorter = length-strip 0 res in
    let same_length = length-map (strip 0 res) in
    let fits = padded_fits b'1' (leading 0 input) (length input * 2) characters (omega arith) in
    rw
      (
        base58_encode,
        drop-leading 0 input,
        write_digits-character (length input * 2) (strip 0 input) [] res written,
        strip-map res small,
        fits,
      )
      (ap some (map-repeat (leading 0 input) (strip 0 res)))

repeat-IsDigits : (n : ℕ) (ds : Bytes) → IsDigits 58 ds → IsDigits 58 (repeat 0 n ++ ds)
unfolding repeat
repeat-IsDigits zero ds h = h
repeat-IsDigits (suc n) ds h = (omega arith, repeat-IsDigits n ds h)

-- Base 58 of bytes has a character for each leading zero, and then the digits of a number that is worth
-- what the bytes are.
pub base58_encode-IsDigits :
    (b : ℕ) (rest : Bytes)
    → IsBytes (b ∷ rest)
    → (ds : Bytes) × (base58_encode (b ∷ rest)
        ≡ some (map b58_char (repeat 0 (leading 0 (b ∷ rest)) ++ ds)))
      × IsDigits 58 ds
      × StartsHigh ds
      × (value 58 0 ds ≡ value 256 0 (strip 0 (b ∷ rest)))
base58_encode-IsDigits b rest h =
    let input = b ∷ rest in
    let number = strip 0 input in
    let size = ap length (leading-strip 0 input) in
    let parts = length-append (repeat 0 (leading 0 input)) number in
    let zeros_long = length-repeat 0 (leading 0 input) in
    let digits = strip-IsDigits 256 input h in
    let few = needs-le 256 58 2 (omega arith) (omega arith) to_58 number digits in
    let (res, written, worth, small, short) =
      write_digits_total 256 58 2 (omega arith) (omega arith) to_58 (length input * 2) number []
        digits tt (omega arith) in
    (
      strip 0 res,
      base58_encode_lem b rest res small written (omega arith),
      strip-IsDigits 58 res small,
      strip-StartsHigh res,
      value-strip 58 res ∙ worth ∙ unfold value in refl,
    )

-- Base 58 of any bytes decodes to them, and neither direction leaves its buffer.
pub base58_decode-base58_encode :
    (bytes : Bytes)
    → IsBytes bytes
    → (t : Text) × (base58_encode bytes ≡ some t) × (base58_decode t ≡ ok bytes)
base58_decode-base58_encode [] h = ([], unfold base58_encode in refl, unfold base58_decode in refl)
base58_decode-base58_encode (b ∷ rest) h =
    let zeros = leading 0 (b ∷ rest) in
    let (ds, encoded, below, high, worth) = base58_encode-IsDigits b rest h in
    let all = repeat 0 zeros ++ ds in
    let decoded =
      base58_decode-digits (map b58_char all) all
        (b58_digits-map all (repeat-IsDigits zeros ds below)) in
    (
      map b58_char all,
      encoded,
      decoded
          ∙ decode_digits_lem zeros ds (strip 0 (b ∷ rest)) below (strip-IsDigits 256 (b ∷ rest) h)
              high (strip-StartsHigh (b ∷ rest)) worth
          ∙ ap ok (leading-strip 0 (b ∷ rest)),
    )
