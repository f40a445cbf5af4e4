-- ===== src/Cbor/Runs.antt =====
-- Runs of the codec at concrete inputs, and the theorems at concrete inputs.
use rust_peergos_client.Common.{
  ℕ, ◌+◌, ◌≤◌, ◌<◌, ◌≡◌, ◌≢◌, refl, ap, arith, [], ◌∷◌, ◌++◌, Bytes, length, ok, err,
}
use rust_peergos_client.Common.Int.{pos, negsuc}
use rust_peergos_client.Common.Text.{encode_utf16, is_utf8}
use rust_peergos_client.Cbor.Object.{
  new_cbor_string, cmp_cbor_string, lex_cmp, CborObject, long, list, null, no_items, item, Entries,
  no_entries,
}
use rust_peergos_client.Cbor.BtreeMap.{insert, lookup, len, put, build}
use rust_peergos_client.Cbor.Encode.{
  write_uint, write_type, write_string, write_simple_type, write_int, to_bytes,
}
use rust_peergos_client.Cbor.Decode.{
  read_u8, read_uint, read_major_type, read_major_type_with_size, read_int, read_text, read_long,
  read_simple, insert_new, read_entries, read_map, dispatch, peek_major, peek_additional,
  deserialize, deserialize_all, from_bytes, from_bytes_prefix, from_bytes_consumed, out_of_fuel,
  duplicate_key, trailing_bytes,
}
use rust_peergos_client.Cbor.Valid.{IsValid}
use rust_peergos_client.Cbor.RoundTrip.{from_bytes-to_bytes}
use rust_peergos_client.Cbor.Codec.{
  from_bytes_total, from_bytes_consumed-Accepted, to_bytes-shortest,
}

-- {"d": [1, -1], "ab": null}: the shorter key first.
abbrev fields : Entries
fields =
    put (0x61 ∷ 0x62 ∷ []) null
      (put (0x64 ∷ []) (list (item (long (pos 1)) (item (long (negsuc 0)) no_items))) no_entries)

abbrev sample : CborObject
sample = build fields

sample_bytes :
    to_bytes sample ≡ 0xa2 ∷ 0x61 ∷ 0x64 ∷ 0x82 ∷ 0x01 ∷ 0x20 ∷ 0x62 ∷ 0x61 ∷ 0x62 ∷ 0xf6 ∷ []
unfolding to_bytes put build insert new_cbor_string encode_utf16 cmp_cbor_string lex_cmp len
    write_string write_type write_uint write_simple_type write_int
sample_bytes = refl

-- A duplicate key, and a byte too many.
duplicate : from_bytes (0xa2 ∷ 0x61 ∷ 0x64 ∷ 0x01 ∷ 0x61 ∷ 0x64 ∷ 0x02 ∷ []) ≡ err duplicate_key
unfolding from_bytes deserialize_all deserialize dispatch read_map read_entries insert_new insert
    lookup read_major_type_with_size read_major_type read_uint read_text read_long read_int
    peek_major is_utf8 new_cbor_string encode_utf16 cmp_cbor_string lex_cmp
duplicate = refl

trailing : from_bytes (0xf6 ∷ 0xf6 ∷ []) ≡ err trailing_bytes
unfolding from_bytes deserialize_all deserialize dispatch read_simple peek_major peek_additional
    read_u8
trailing = refl

-- 1 in two bytes, which the encoder never writes, is accepted.
padded : from_bytes (0x18 ∷ 0x01 ∷ []) ≡ ok (long (pos 1))
unfolding from_bytes deserialize_all deserialize dispatch read_long read_int read_uint peek_major
padded = refl

padded_consumed : from_bytes_consumed (0x18 ∷ 0x01 ∷ 0xf6 ∷ []) ≡ ok (long (pos 1), 2)
unfolding from_bytes_consumed deserialize_all deserialize dispatch read_long read_int read_uint
    peek_major
padded_consumed = refl

-- 2 ^ 64 - 1 does not fit an `i64`, and wraps around to -1.
wrapped :
    from_bytes (0x1b ∷ 0xff ∷ 0xff ∷ 0xff ∷ 0xff ∷ 0xff ∷ 0xff ∷ 0xff ∷ 0xff ∷ [])
    ≡ ok (long (negsuc 0))
unfolding from_bytes deserialize_all deserialize dispatch read_long read_int read_uint peek_major
wrapped = refl

sample-IsValid : IsValid sample
unfolding put build insert new_cbor_string encode_utf16 cmp_cbor_string lex_cmp is_utf8
sample-IsValid = (
  ((refl, tt), (tt, tt)),
  (
    record { text = refl; made = refl },
    (omega arith, (omega arith, tt)),
    (record { text = refl; made = refl }, tt, tt),
  ),
)

short : (rest : Bytes) → length (to_bytes sample ++ rest) ≡ 10 + length rest
short rest = rw sample_bytes (omega arith)

from_bytes-to_bytes_example : from_bytes (to_bytes sample) ≡ ok sample
from_bytes-to_bytes_example =
    from_bytes-to_bytes sample sample-IsValid (rw sample_bytes (omega arith))

from_bytes_total_example :
    (from_bytes (0xa1 ∷ []) ≢ err out_of_fuel)
    × (from_bytes_prefix (0xa1 ∷ []) ≢ err out_of_fuel)
    × (from_bytes_consumed (0xa1 ∷ []) ≢ err out_of_fuel)
from_bytes_total_example = from_bytes_total (0xa1 ∷ []) (omega arith)

from_bytes_consumed-Accepted_example :
    IsValid (long (pos 1)) × (0 < 2) × (length (to_bytes (long (pos 1))) ≤ 2) × (2 ≤ 3)
from_bytes_consumed-Accepted_example =
    from_bytes_consumed-Accepted (0x18 ∷ 0x01 ∷ 0xf6 ∷ []) (long (pos 1)) 2 (omega arith)
      padded_consumed

to_bytes-shortest_example :
    (length (to_bytes (long (pos 1))) ≤ 2)
    × (from_bytes (to_bytes (long (pos 1))) ≡ ok (long (pos 1)))
to_bytes-shortest_example =
    to_bytes-shortest (0x18 ∷ 0x01 ∷ []) (long (pos 1)) (omega arith) (omega arith) padded

units_differ : encode_utf16 (0x62 ∷ []) ≢ encode_utf16 (0x61 ∷ [])
unfolding encode_utf16
units_differ e = absurd (omega (arith, ap head_or e))
  where
    head_or : Bytes → ℕ
    head_or [] = 0
    head_or (x ∷ xs) = x
