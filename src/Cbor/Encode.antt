-- ===== src/Cbor/Encode.antt =====
-- crates/peergos-cbor/src/encode.rs. `out: &mut Vec<u8>` only ever grows, so each function returns the
-- bytes that it appends.
use rust_peergos_client.Common.{
  ℕ, suc, ◌*◌, ◌/◌, ◌%◌, ◌^◌, [], ◌∷◌, ◌++◌, Bytes, length, ltb, if◌then◌else◌,
}
use rust_peergos_client.Common.Int.{ℤ, pos, negsuc}
use rust_peergos_client.Cbor.Object.{
  CborObject, long, boolean, byte_string, str, list, map, merkle_link, null, Objects, no_items,
  item, Entries, no_entries, entry,
}
use rust_peergos_client.Cbor.BtreeMap.{len}
use Prim.Native.Nat.{bit_or}

-- A `u64` in 2, 4 and 8 bytes, highest first.
abbrev pub two_bytes : ℕ → Bytes
two_bytes v = (v / 2 ^ 8 % 256) ∷ (v % 256) ∷ []

abbrev pub four_bytes : ℕ → Bytes
four_bytes v = (v / 2 ^ 24 % 256) ∷ (v / 2 ^ 16 % 256) ∷ (v / 2 ^ 8 % 256) ∷ (v % 256) ∷ []

abbrev pub eight_bytes : ℕ → Bytes
eight_bytes v =
    (v / 2 ^ 56 % 256)
    ∷ (v / 2 ^ 48 % 256)
    ∷ (v / 2 ^ 40 % 256)
    ∷ (v / 2 ^ 32 % 256)
    ∷ (v / 2 ^ 24 % 256)
    ∷ (v / 2 ^ 16 % 256)
    ∷ (v / 2 ^ 8 % 256)
    ∷ (v % 256)
    ∷ []

-- `mt` is a major type in the top three bits.
unfoldable pub write_uint : ℕ → ℕ → Bytes
write_uint mt value =
    if ltb value 0x18
    then bit_or mt (value % 256) ∷ []
    else if ltb value 0x100
    then bit_or mt 0x18 ∷ (value % 256) ∷ []
    else if ltb value 0x10000
    then bit_or mt 0x19 ∷ two_bytes value
    else if ltb value 0x1_0000_0000
    then bit_or mt 0x1a ∷ four_bytes value
    else bit_or mt 0x1b ∷ eight_bytes value

-- `major_type << 5`.
unfoldable pub write_type : ℕ → ℕ → Bytes
write_type major_type value = write_uint (major_type * 2 ^ 5) value

unfoldable pub write_string : ℕ → Bytes → Bytes
write_string major_type bytes = write_type major_type (length bytes) ++ bytes

-- `major_type << 5 | value & 0x1f`.
unfoldable pub write_simple_type : ℕ → ℕ → Bytes
write_simple_type major_type value = bit_or (major_type * 2 ^ 5) (value % 2 ^ 5) ∷ []

-- `value >> 63` is 0 or -1: the major type is 0 or 1, and the magnitude `value` or `!value`.
unfoldable pub write_int : ℤ → Bytes
write_int (pos n) = write_uint 0 n
write_int (negsuc n) = write_uint (1 * 2 ^ 5) n

abbrev pub count : Objects → ℕ
count no_items = 0
count (item x xs) = suc (count xs)

unfoldable mutual
  pub write_object : CborObject → Bytes
  write_object (long v) = write_int v
  write_object (boolean v) = write_simple_type 7 (if v then 0x15 else 0x14)
  write_object (byte_string b) = write_string 2 b
  write_object (str s) = write_string 3 s
  write_object (list items) = write_type 4 (count items) ++ write_items items
  write_object (map m) = write_type 5 (len m) ++ write_entries m
  write_object (merkle_link cid) = write_type 6 42 ++ write_string 2 (0 ∷ cid)
  write_object null = write_simple_type 7 0x16

  pub write_items : Objects → Bytes
  write_items no_items = []
  write_items (item x xs) = write_object x ++ write_items xs

  pub write_entries : Entries → Bytes
  write_entries no_entries = []
  write_entries (entry k v m) = write_string 3 k.value ++ (write_object v ++ write_entries m)

-- `CborObject::to_bytes`, and `Cborable::serialize`.
unfoldable pub to_bytes : CborObject → Bytes
unfolding write_object
to_bytes v = write_object v
