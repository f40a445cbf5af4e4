-- ===== src/Multiformats/Bases.antt =====
-- crates/peergos-multiformats/src/bases.rs: base 58. A text is its bytes.
pub mod Digits
pub mod Unique
pub mod Zeros
pub mod Base58
pub mod Scale
use rust_peergos_client.Common.{
  ℕ, zero, suc, ◌+◌, ◌-◌, ◌*◌, ◌/◌, ◌%◌, ◌^◌, Bool, ◌&&◌, Option, none, some, [], ◌∷◌, ◌++◌, Bytes,
  map, length, drop, get_elem?, unwrap_or, ltb, leb, ◌==◌, if◌then◌else◌, Result, ok, err, ◌>>=◌,
}
use rust_peergos_client.Common.Text.{Text}
use rust_peergos_client.Multiformats.Error.{
  MfError, panicked, invalid_base58_character, odd_length_hex, invalid_hex_char,
  invalid_base32_char, empty_multibase, unsupported_multibase_prefix,
}

-- `c` for the characters of a range from `first`.
abbrev pub in_range : ℕ → ℕ → ℕ → Bool
in_range first last c = leb first c && leb c last

-- `B58_ALPHABET[digit]`, for a digit below 58: the digits but 0, the capitals but I and O, and the
-- small letters but l.
unfoldable pub b58_char : ℕ → ℕ
b58_char digit =
    if ltb digit 9
    then digit + b'1'
    else if ltb digit 17
    then digit - 9 + b'A'
    else if ltb digit 22
    then digit - 17 + b'J'
    else if ltb digit 33
    then digit - 22 + b'P'
    else if ltb digit 44
    then digit - 33 + b'a'
    else digit - 44 + b'm'

-- `b58_index`, with `none` for -1.
unfoldable pub b58_index : ℕ → Option ℕ
b58_index c =
    if in_range b'1' b'9' c
    then some (c - b'1')
    else if in_range b'A' b'H' c
    then some (c - b'A' + 9)
    else if in_range b'J' b'N' c
    then some (c - b'J' + 17)
    else if in_range b'P' b'Z' c
    then some (c - b'P' + 22)
    else if in_range b'a' b'k' c
    then some (c - b'a' + 33)
    else if in_range b'm' b'z' c
    then some (c - b'm' + 44)
    else none

-- The quotient's digits and the remainder, from a remainder so far.
unfoldable pub divmod : ℕ → ℕ → ℕ → Bytes → Bytes × ℕ
divmod base divisor remainder [] = ([], remainder)
divmod base divisor remainder (d ∷ number) =
    let temp = remainder * base + d in
    let rest = divmod base divisor (temp % divisor) number in
    (temp / divisor % 256 ∷ rest.0, rest.1)

-- `if input[input_start] == 0 { input_start += 1 }`; the input is what `input_start` leaves of it.
unfoldable pub advance : Bytes → Bytes
advance [] = []
advance (d ∷ number) = if d == 0 then number else d ∷ number

-- The loop that writes the digits of a number at the end of a buffer, where `output_start` places are
-- left. Without one it panics.
unfoldable pub write_digits : (ℕ → ℕ) → ℕ → ℕ → ℕ → Bytes → Bytes → Option Bytes
write_digits character base divisor output_start [] output = some output
write_digits character base divisor zero (d ∷ number) output = none
write_digits character base divisor (suc output_start) (d ∷ number) output =
    let step = divmod base divisor 0 (d ∷ number) in
    write_digits character base divisor output_start (advance step.0)
      (character (step.1 % 256) ∷ output)

-- The number of leading bytes `c`, and what follows them.
unfoldable pub leading : ℕ → Bytes → ℕ
leading c [] = 0
leading c (d ∷ bytes) = let rest = leading c bytes in if d == c then suc rest else 0

unfoldable pub strip : ℕ → Bytes → Bytes
strip c [] = []
strip c (d ∷ bytes) = let rest = strip c bytes in if d == c then rest else d ∷ bytes

unfoldable pub repeat : ℕ → ℕ → Bytes
repeat c zero = []
repeat c (suc n) = c ∷ repeat c n

-- The end of a buffer of a length, from `count` bytes `c` before the output on.
unfoldable pub padded : ℕ → ℕ → ℕ → Bytes → Option Bytes
unfolding repeat
padded c count size output =
    if leb count (size - length output) then some (repeat c count ++ output) else none

-- `none` is a panic.
unfoldable pub base58_encode : Bytes → Option Text
unfolding leading
base58_encode [] = some []
base58_encode (b ∷ bytes) =
    let input = b ∷ bytes in
    let zeros = leading 0 input in
    elim (write_digits b58_char 256 58 (length input * 2) (drop zeros input) []) [
      | none ↦ none
      | some encoded ↦ padded b'1' zeros (length input * 2) (strip b'1' encoded)
    ]

unfoldable pub b58_digits : Text → Option Bytes
b58_digits [] = some []
b58_digits (c ∷ text) = elim (b58_index c) [
  | none ↦ none
  | some digit ↦ elim (b58_digits text) [ none ↦ none | some digits ↦ some (digit ∷ digits) ]
]

abbrev pub or_panic : Option Bytes → Result MfError Bytes
or_panic none = err panicked
or_panic (some bytes) = ok bytes

abbrev pub identity : ℕ → ℕ
identity digit = digit

unfoldable pub decode_digits : Bytes → Result MfError Bytes
unfolding leading
decode_digits input58 =
    let zeros = leading 0 input58 in
    or_panic (write_digits identity 58 256 (length input58) (drop zeros input58) []) >>= λ decoded.
    or_panic (padded 0 zeros (length input58) (strip 0 decoded))

unfoldable pub base58_decode : Text → Result MfError Bytes
unfolding b58_digits
base58_decode [] = ok []
base58_decode (c ∷ text) = elim (b58_digits (c ∷ text)) [
  | none ↦ err invalid_base58_character
  | some input58 ↦ decode_digits input58
]
