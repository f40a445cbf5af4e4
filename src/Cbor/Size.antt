-- ===== src/Cbor/Size.antt =====
-- Every encoding has a first byte, so a list or map has at least as many bytes as elements.
use rust_peergos_client.Common.{
  ℕ, suc, ◌+◌, ◌≤◌, ◌<◌, ◌≡◌, arith, ◌∷◌, ◌++◌, Bytes, length, length-append,
}
use rust_peergos_client.Common.Int.{pos, negsuc}
use rust_peergos_client.Cbor.Object.{
  CborObject, long, boolean, byte_string, str, list, map, merkle_link, null, Objects, no_items,
  item, Entries, no_entries, entry,
}
use rust_peergos_client.Cbor.BtreeMap.{len}
use rust_peergos_client.Cbor.Encode.{
  write_type, write_string, write_simple_type, write_int, write_object, write_items, write_entries,
  count,
}
use rust_peergos_client.Cbor.Header.{payload, length-write_type}

pub length-write_string :
    (m : ℕ) (b : Bytes) → length (write_string m b) ≡ suc (length (payload (length b))) + length b
unfolding write_string
length-write_string m b =
    omega (arith, length-append (write_type m (length b)) b, length-write_type m (length b))

pub length-write_object_pos : (v : CborObject) → 0 < length (write_object v)
unfolding write_object write_int write_simple_type write_type
length-write_object_pos (long (pos n)) = omega (arith, length-write_type 0 n)
length-write_object_pos (long (negsuc n)) = omega (arith, length-write_type 1 n)
length-write_object_pos (boolean b) = omega arith
length-write_object_pos (byte_string b) = omega (arith, length-write_string 2 b)
length-write_object_pos (str s) = omega (arith, length-write_string 3 s)
length-write_object_pos (list xs) = omega (
  arith,
  length-append (write_type 4 (count xs)) (write_items xs),
  length-write_type 4 (count xs),
)
length-write_object_pos (map m) =
    omega
      (arith, length-append (write_type 5 (len m)) (write_entries m), length-write_type 5 (len m))
length-write_object_pos (merkle_link c) =
    omega (
      arith,
      length-append (write_type 6 42) (write_string 2 (0 ∷ c)),
      length-write_string 2 (0 ∷ c),
    )
length-write_object_pos null = omega arith

pub count-le : (xs : Objects) → count xs ≤ length (write_items xs)
unfolding write_object
count-le no_items = omega arith
count-le (item x xs) =
    omega (
      arith,
      length-append (write_object x) (write_items xs),
      length-write_object_pos x,
      count-le xs,
    )

pub len-le : (m : Entries) → len m ≤ length (write_entries m)
unfolding write_object len
len-le no_entries = omega arith
len-le (entry k v m) = omega (
  arith,
  length-append (write_string 3 k.value) (write_object v ++ write_entries m),
  length-append (write_object v) (write_entries m),
  length-write_object_pos v,
  len-le m,
)

pub length-write_int-pos : (n : ℕ) → length (write_int (pos n)) ≡ suc (length (payload n))
unfolding write_int write_type
length-write_int-pos n = length-write_type 0 n

pub length-write_int-negsuc : (n : ℕ) → length (write_int (negsuc n)) ≡ suc (length (payload n))
unfolding write_int write_type
length-write_int-negsuc n = length-write_type 1 n
