-- ===== src/Cbor/Decode.antt =====
-- crates/peergos-cbor/src/decode.rs. A reader is the rest of the buffer with the position of its first
-- byte, so that `buf.get(pos)` is the first byte of `rest`.
use rust_peergos_client.Common.{
  ℕ, zero, suc, ◌+◌, ◌*◌, ◌/◌, ◌%◌, ◌^◌, true, false, Option, none, some, [], ◌∷◌, Bytes, length,
  take, drop, ltb, leb, ◌==◌, if◌then◌else◌, Result, ok, err, ◌>>=◌,
}
use rust_peergos_client.Common.Int.{ℤ, to_i64, complement}
use rust_peergos_client.Common.Text.{Text, is_utf8}
use rust_peergos_client.Cbor.Object.{
  CborString, new_cbor_string, CborObject, long, boolean, byte_string, str, list, map, merkle_link,
  null, Objects, no_items, item, Entries, no_entries,
}
use rust_peergos_client.Cbor.BtreeMap.{insert, lookup}
use Prim.Native.Nat.{bit_or}

-- The messages of `CborError`. `out_of_fuel` has no counterpart: the model's recursion stopped short.
pub data CborError : Type 0 where
  eof empty_input trailing_bytes : CborError
  invalid_length_indicator unexpected_major_type : ℕ → CborError
  text_too_long bytes_too_long map_too_long array_too_long : CborError
  invalid_utf8 : CborError
  unimplemented_simple_type : ℕ → CborError
  non_string_key duplicate_key : CborError
  unknown_tag : ℕ → CborError
  text_link : Text → CborError
  unknown_multibase : Option ℕ → CborError
  invalid_link_type : CborObject → CborError
  unimplemented_major_type : ℕ → CborError
  expected_integer out_of_fuel : CborError

pub record Reader : Type 0 where
  pub rest : Bytes
  pub pos : ℕ

abbrev pub Read : Type 0 → Type 0
Read A = Result CborError (A × Reader)

abbrev pub first_byte : Bytes → Result CborError ℕ
first_byte [] = err eof
first_byte (b ∷ bs) = ok b

unfoldable pub read_u8 : Reader → Read ℕ
unfolding drop
read_u8 r = do b ← first_byte r.rest; ok (b, record { rest = drop 1 r.rest; pos = r.pos + 1 })

unfoldable pub peek_major : Reader → Result CborError ℕ
peek_major r = do b ← first_byte r.rest; ok (b / 2 ^ 5)

unfoldable pub peek_additional : Reader → Result CborError ℕ
peek_additional r = do b ← first_byte r.rest; ok (b % 2 ^ 5)

-- The buffer is shorter than 2 ^ 64, so where `checked_add` fails the end is beyond it too.
unfoldable pub read_n : ℕ → Reader → Read Bytes
unfolding take drop
read_n n r =
    if leb n (length r.rest)
    then ok (take n r.rest, record { rest = drop n r.rest; pos = r.pos + n })
    else err eof

-- `b[0] << 8k | ... | b[k]`.
unfoldable pub big_endian : ℕ → Bytes → ℕ
big_endian acc [] = acc
big_endian acc (b ∷ bs) = big_endian (bit_or (acc * 2 ^ 8) b) bs

unfoldable pub read_uint : ℕ → Reader → Read ℕ
unfolding read_u8 read_n big_endian
read_uint indicator r =
    if ltb indicator 0x18
    then ok (indicator, r)
    else if indicator == 0x18
    then read_u8 r
    else if indicator == 0x19
    then (do (b, r') ← read_n 2 r; ok (big_endian 0 b, r'))
    else if indicator == 0x1a
    then (do (b, r') ← read_n 4 r; ok (big_endian 0 b, r'))
    else if indicator == 0x1b
    then (do (b, r') ← read_n 8 r; ok (big_endian 0 b, r'))
    else err (invalid_length_indicator indicator)

unfoldable pub read_major_type : ℕ → Reader → Read ℕ
unfolding read_u8
read_major_type expected r = do
  (ib, r') ← read_u8 r
  if expected == ib / 2 ^ 5 % 2 ^ 3
      then ok (ib % 2 ^ 5, r')
      else err (unexpected_major_type (ib / 2 ^ 5 % 2 ^ 3))

unfoldable pub read_major_type_with_size : ℕ → Reader → Read ℕ
read_major_type_with_size expected r = do
  (indicator, r') ← read_major_type expected r
  read_uint indicator r'

-- `ui ^ magnitude`, where `ui` is 0 or -1.
unfoldable pub read_int : Reader → Read ℤ
unfolding read_u8
read_int r = do
  (ib, r') ← read_u8 r
  if ib / 2 ^ 5 == 0
      then (do (v, r'') ← read_uint (ib % 2 ^ 5) r'; ok (to_i64 v, r''))
      else if ib / 2 ^ 5 == 1
      then (do (v, r'') ← read_uint (ib % 2 ^ 5) r'; ok (complement (to_i64 v), r''))
      else err expected_integer

-- The arms of `deserialize`.
unfoldable pub read_text : ℕ → Reader → Read CborObject
read_text max_group_size r = do
  (n, r') ← read_major_type_with_size 3 r
  if ltb max_group_size n then err text_too_long else (do
    (raw, r'') ← read_n n r'
    if is_utf8 raw then ok (str raw, r'') else err invalid_utf8)

unfoldable pub read_byte_string : ℕ → Reader → Read CborObject
read_byte_string max_group_size r = do
  (n, r') ← read_major_type_with_size 2 r
  if ltb max_group_size n
      then err bytes_too_long
      else (do (raw, r'') ← read_n n r'; ok (byte_string raw, r''))

unfoldable pub read_long : Reader → Read CborObject
read_long r = do (v, r') ← read_int r; ok (long v, r')

unfoldable pub read_simple : Reader → Read CborObject
unfolding peek_additional read_u8
read_simple r = do
  additional ← peek_additional r
  if additional == 0x16
      then (do (b, r') ← read_u8 r; ok (null, r'))
      else if additional == 0x15
      then (do (b, r') ← read_u8 r; ok (boolean true, r'))
      else if additional == 0x14
      then (do (b, r') ← read_u8 r; ok (boolean false, r'))
      else err (unimplemented_simple_type additional)

abbrev pub as_key : CborObject → Result CborError CborString
as_key (str s) = ok (new_cbor_string s)
as_key _ = err non_string_key

-- `map.insert(key, value)`, refused where it returns an old value.
unfoldable pub insert_new : CborString → CborObject → Entries → Result CborError Entries
insert_new k v m = elim (lookup k m) [ none ↦ ok (insert k v m) | some old ↦ err duplicate_key ]

-- The loops over the elements; `deserialize_one` is the recursive call.
module _ (deserialize_one : Reader → Read CborObject) where
  unfoldable pub read_entries : ℕ → Entries → Reader → Read Entries
  read_entries zero m r = ok (m, r)
  read_entries (suc n) m r = do
    (k, r1) ← deserialize_one r
    key ← as_key k
    (v, r2) ← deserialize_one r1
    m' ← insert_new key v m
    read_entries n m' r2

  unfoldable pub read_items : ℕ → Reader → Read Objects
  read_items zero r = ok (no_items, r)
  read_items (suc n) r = do
    (x, r1) ← deserialize_one r
    (xs, r2) ← read_items n r1
    ok (item x xs, r2)

  unfoldable pub read_map : ℕ → Reader → Read CborObject
  read_map max_group_size r = do
    (n, r') ← read_major_type_with_size 5 r
    if ltb max_group_size n
        then err map_too_long
        else (do (m, r'') ← read_entries n no_entries r'; ok (map m, r''))

  unfoldable pub read_array : ℕ → Reader → Read CborObject
  read_array max_group_size r = do
    (n, r') ← read_major_type_with_size 4 r
    if ltb max_group_size n
        then err array_too_long
        else (do (xs, r'') ← read_items n r'; ok (list xs, r''))

abbrev pub link_bytes : Bytes → Result CborError CborObject
link_bytes [] = err (unknown_multibase none)
link_bytes (b ∷ bs) = if b == 0 then ok (merkle_link bs) else err (unknown_multibase (some b))

abbrev pub as_merkle_link : CborObject → Result CborError CborObject
as_merkle_link (str s) = err (text_link s)
as_merkle_link (byte_string b) = link_bytes b
as_merkle_link other = err (invalid_link_type other)

module _ (deserialize_one : Reader → Read CborObject) where
  unfoldable pub read_tagged : Reader → Read CborObject
  read_tagged r = do
    (indicator, r1) ← read_major_type 6 r
    (tag, r2) ← read_uint indicator r1
    if tag == 42
        then (do (value, r3) ← deserialize_one r2; link ← as_merkle_link value; ok (link, r3))
        else err (unknown_tag tag)

  -- The `match major`.
  unfoldable pub dispatch : ℕ → ℕ → Reader → Read CborObject
  dispatch max_group_size major r =
      if major == 3
      then read_text max_group_size r
      else if major == 2
      then read_byte_string max_group_size r
      else if leb major 1
      then read_long r
      else if major == 7
      then read_simple r
      else if major == 5
      then read_map deserialize_one max_group_size r
      else if major == 4
      then read_array deserialize_one max_group_size r
      else if major == 6
      then read_tagged r
      else err (unimplemented_major_type major)

unfoldable pub deserialize : ℕ → ℕ → Reader → Read CborObject
deserialize zero max_group_size r = err out_of_fuel
deserialize (suc fuel) max_group_size r = do
  major ← peek_major r
  dispatch (deserialize fuel max_group_size) max_group_size major r

-- Every call reads a byte before it recurs, so one unit of fuel for each byte is enough.
unfoldable pub deserialize_all : Bytes → Read CborObject
deserialize_all bytes =
    deserialize (suc (length bytes)) (length bytes) (record { rest = bytes; pos = 0 })

unfoldable pub from_bytes : Bytes → Result CborError CborObject
from_bytes [] = err empty_input
from_bytes (b ∷ bs) = do
  (obj, r) ← deserialize_all (b ∷ bs)
  if r.pos == length (b ∷ bs) then ok obj else err trailing_bytes

unfoldable pub from_bytes_prefix : Bytes → Result CborError CborObject
from_bytes_prefix [] = err empty_input
from_bytes_prefix (b ∷ bs) = do (obj, r) ← deserialize_all (b ∷ bs); ok obj

unfoldable pub from_bytes_consumed : Bytes → Result CborError (CborObject × ℕ)
from_bytes_consumed [] = err empty_input
from_bytes_consumed (b ∷ bs) = do (obj, r) ← deserialize_all (b ∷ bs); ok (obj, r.pos)
