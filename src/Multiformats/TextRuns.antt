-- ===== src/Multiformats/TextRuns.antt =====
-- Runs of the text encodings, and the theorems at concrete inputs.
use rust_peergos_client.Common.{◌≡◌, refl, arith, inr, some, [], ◌∷◌, ok, drop}
use rust_peergos_client.Common.Text.{Text}
use rust_peergos_client.Multiformats.Multihash.{Multihash, sha2_256, new_multihash}
use rust_peergos_client.Multiformats.Cid.{build_v0}
use rust_peergos_client.Multiformats.Bases.{
  divmod, advance, write_digits, strip, repeat, padded, b58_char, base58_encode, base58_decode,
}
use rust_peergos_client.Multiformats.Multibase.{
  base16_encode, base16_decode, hex_digit, hexval, hex_pairs, base32_encode, base32_decode,
  b32_bytes, b32_groups, b32_char, b32_chars, b32_val, to_lowercase, multibase_decode,
}
use rust_peergos_client.Multiformats.Bases.Base58.{base58_decode-base58_encode}
use rust_peergos_client.Multiformats.Text.{cid_to_string, decode_cid}
use rust_peergos_client.Multiformats.Text.RoundTrip.{decode_cid-cid_to_string}

-- Two zeros and a number of two bytes: 258 is 4 * 58 + 26.
zeros_58 : base58_encode (0 ∷ 0 ∷ 1 ∷ 2 ∷ []) ≡ some (b'1' ∷ b'1' ∷ b'5' ∷ b'T' ∷ [])
unfolding base58_encode write_digits divmod advance strip padded repeat drop b58_char
zeros_58 = refl

foo_32 : base32_encode (b'f' ∷ b'o' ∷ b'o' ∷ []) ≡ b'M' ∷ b'Z' ∷ b'X' ∷ b'W' ∷ b'6' ∷ []
unfolding base32_encode b32_bytes b32_groups b32_char
foo_32 = refl

-- The small form of the Kelvin sign is a letter of the alphabet.
kelvin_32 : multibase_decode (b'B' ∷ 0xe2 ∷ 0x84 ∷ 0xaa ∷ b'a' ∷ []) ≡ ok (80 ∷ [])
unfolding multibase_decode base32_decode to_lowercase b32_chars b32_val
kelvin_32 = refl

hex_16 : base16_decode (base16_encode (0xa7 ∷ 0x0c ∷ [])) ≡ ok (0xa7 ∷ 0x0c ∷ [])
unfolding base16_decode base16_encode hex_digit hex_pairs hexval
hex_16 = refl

base58_decode-base58_encode_example :
    (t : Text) × (base58_encode (0 ∷ 0 ∷ 1 ∷ 2 ∷ []) ≡ some t)
    × (base58_decode t ≡ ok (0 ∷ 0 ∷ 1 ∷ 2 ∷ []))
base58_decode-base58_encode_example = base58_decode-base58_encode (0 ∷ 0 ∷ 1 ∷ 2 ∷ []) (omega arith)

abbrev sha : Multihash
sha = record { hash_type = sha2_256; hash = repeat 9 32 }

decode_cid-cid_to_string_example :
    (t : Text) × (cid_to_string (build_v0 sha) ≡ some t) × (decode_cid t ≡ ok (build_v0 sha))
unfolding build_v0 new_multihash repeat
decode_cid-cid_to_string_example =
    decode_cid-cid_to_string (build_v0 sha) (refl, inr (refl, refl)) (omega arith)
