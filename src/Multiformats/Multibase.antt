-- ===== src/Multiformats/Multibase.antt =====
-- crates/peergos-multiformats/src/bases.rs: base 16, base 32 and multibase.
use rust_peergos_client.Common.{
  ℕ, zero, suc, ◌+◌, ◌-◌, ◌*◌, ◌/◌, ◌%◌, ◌^◌, ◌&&◌, Option, none, some, [], ◌∷◌, ◌++◌, Bytes,
  length, ltb, leb, ◌==◌, if◌then◌else◌, Result, ok, err, ◌>>=◌,
}
use rust_peergos_client.Common.Text.{Text}
use rust_peergos_client.Multiformats.Error.{
  MfError, odd_length_hex, invalid_hex_char, invalid_base32_char, empty_multibase,
  unsupported_multibase_prefix,
}
use rust_peergos_client.Multiformats.Bases.{in_range, base58_encode, base58_decode}

-- `{:02x}`.
unfoldable pub hex_digit : ℕ → ℕ
hex_digit n = if ltb n 10 then n + b'0' else n - 10 + b'a'

unfoldable pub base16_encode : Bytes → Text
base16_encode [] = []
base16_encode (b ∷ bytes) = hex_digit (b / 16) ∷ hex_digit (b % 16) ∷ base16_encode bytes

unfoldable pub hexval : ℕ → Result MfError ℕ
hexval c =
    if in_range b'0' b'9' c
    then ok (c - b'0')
    else if in_range b'a' b'f' c
    then ok (c - b'a' + 10)
    else if in_range b'A' b'F' c
    then ok (c - b'A' + 10)
    else err invalid_hex_char

-- The pairs; an odd length is refused before any of them is read.
unfoldable pub hex_pairs : Text → Result MfError Bytes
hex_pairs (c ∷ d ∷ text) =
    hexval c >>= λ hi. hexval d >>= λ lo. hex_pairs text >>= λ out. ok ((hi * 16 + lo) ∷ out)
hex_pairs _ = ok []

unfoldable pub base16_decode : Text → Result MfError Bytes
base16_decode hex = if length hex % 2 == 0 then hex_pairs hex else err odd_length_hex

-- `B32_ALPHABET[i]`, for an index below 32.
unfoldable pub b32_char : ℕ → ℕ
b32_char i = if ltb i 26 then i + b'A' else i - 26 + b'2'

-- The inner loop: the groups of five bits, with the number of bits that are left. It takes five bits
-- at a time, so their number is enough fuel.
unfoldable pub b32_groups : ℕ → ℕ → ℕ → Text × ℕ
b32_groups zero buffer bits = ([], bits)
b32_groups (suc fuel) buffer bits =
    let rest = b32_groups fuel buffer (bits - 5) in
    if leb 5 bits then (b32_char (buffer / 2 ^ (bits - 5) % 32) ∷ rest.0, rest.1) else ([], bits)

unfoldable pub b32_bytes : ℕ → ℕ → Bytes → Text
b32_bytes buffer bits [] = if ltb 0 bits then b32_char (buffer * 2 ^ (5 - bits) % 32) ∷ [] else []
b32_bytes buffer bits (b ∷ bytes) =
    let next = (buffer * 256 + b) % 2 ^ 32 in
    let groups = b32_groups (bits + 8) next (bits + 8) in groups.0 ++ b32_bytes next groups.1 bytes

unfoldable pub base32_encode : Bytes → Text
base32_encode bytes = b32_bytes 0 0 bytes

unfoldable pub b32_val : ℕ → Result MfError ℕ
b32_val c =
    if in_range b'A' b'Z' c
    then ok (c - b'A')
    else if in_range b'a' b'z' c
    then ok (c - b'a')
    else if in_range b'2' b'7' c
    then ok (c - b'2' + 26)
    else err invalid_base32_char

unfoldable pub b32_chars : ℕ → ℕ → Text → Result MfError Bytes
b32_chars buffer bits [] = ok []
b32_chars buffer bits (c ∷ text) =
    let read = b32_val c >>= λ v.
    let next = (buffer * 32 + v) % 2 ^ 32 in
    if leb 8 (bits + 5)
    then (b32_chars next (bits - 3) text >>= λ out. ok (next / 2 ^ (bits - 3) % 256 ∷ out))
    else b32_chars next (bits + 5) text in
    if c == b'=' then ok [] else read

unfoldable pub base32_decode : Text → Result MfError Bytes
base32_decode s = b32_chars 0 0 s

unfoldable pub multibase_encode_base58btc : Bytes → Option Text
multibase_encode_base58btc bytes = elim (base58_encode bytes) [
  | none ↦ none
  | some t ↦ some (b'z' ∷ t)
]

-- `to_lowercase`, as far as base 32 sees it: of the characters beyond ASCII the Kelvin sign becomes the
-- letter k, and the others are refused in their small form too.
unfoldable pub to_lowercase : Text → Text
to_lowercase [] = []
to_lowercase (c ∷ []) = (if in_range b'A' b'Z' c then c + 32 else c) ∷ []
to_lowercase (c ∷ d ∷ []) = (if in_range b'A' b'Z' c then c + 32 else c) ∷ to_lowercase (d ∷ [])
to_lowercase (c ∷ d ∷ e ∷ text) =
    let after_kelvin = b'k' ∷ to_lowercase text in
    let after_one = (if in_range b'A' b'Z' c then c + 32 else c) ∷ to_lowercase (d ∷ e ∷ text) in
    if c == 0xe2 && (d == 0x84 && e == 0xaa) then after_kelvin else after_one

-- The prefix is a character; one beyond ASCII is reported by its first byte.
unfoldable pub multibase_decode : Text → Result MfError Bytes
multibase_decode [] = err empty_multibase
multibase_decode (prefix ∷ rest) =
    if prefix == b'z'
    then base58_decode rest
    else if prefix == b'f'
    then base16_decode rest
    else if prefix == b'b'
    then base32_decode rest
    else if prefix == b'B'
    then base32_decode (to_lowercase rest)
    else err (unsupported_multibase_prefix prefix)
