-- ===== src/Cbor/RoundTrip.antt =====
-- What `to_bytes` writes, the decoder reads back.
use rust_peergos_client.Common.{
  ℕ, zero, suc, ◌+◌, ◌^◌, ◌≤◌, ◌<◌, ◌≡◌, refl, sym, ap, ◌∙◌, arith, true, false, [], ◌∷◌, ◌++◌,
  Bytes, length, length-append, append_assoc, append-nil, ok,
}
use rust_peergos_client.Common.Int.{pos, negsuc}
use rust_peergos_client.Cbor.Object.{
  CborObject, long, boolean, byte_string, str, list, map, merkle_link, null,
}
use rust_peergos_client.Cbor.Encode.{
  write_type, write_string, write_simple_type, write_int, write_object, to_bytes,
}
use rust_peergos_client.Cbor.Decode.{
  Reader, Read, dispatch, deserialize, from_bytes, from_bytes_prefix, from_bytes_consumed,
  peek_major,
}
use rust_peergos_client.Cbor.Header.{at, peek_major-write_type}
use rust_peergos_client.Cbor.Valid.{IsValid}
use rust_peergos_client.Cbor.Size.{length-write_object_pos}
use rust_peergos_client.Cbor.Arms.{
  ReadsOne, read_text-write_string, read_byte_string-write_string, read_long-write_int,
  read_simple-write_simple, read_simple-null, read_array-write_object, read_map-write_object,
  read_tagged-write_object,
}
use rust_peergos_client.Common.{if◌then◌else◌, ◌==◌, err}
use rust_peergos_client.Cbor.Decode.{deserialize_all, trailing_bytes}

deserialize-dispatch :
    (f room major : ℕ) (r : Reader)
    → peek_major r ≡ ok major
    → deserialize (suc f) room r ≡ dispatch (deserialize f room) room major r
unfolding deserialize
deserialize-dispatch f room major r h = rw h refl

-- The major type that the encoding starts with.
abbrev major_type : CborObject → ℕ
major_type (long (pos n)) = 0
major_type (long (negsuc n)) = 1
major_type (boolean b) = 7
major_type (byte_string b) = 2
major_type (str s) = 3
major_type (list xs) = 4
major_type (map m) = 5
major_type (merkle_link c) = 6
major_type null = 7

peek_major-append :
    (m v : ℕ) (b rest : Bytes) (p : ℕ)
    → m < 8
    → peek_major (at ((write_type m v ++ b) ++ rest) p) ≡ ok m
peek_major-append m v b rest p h =
    rw (append_assoc (write_type m v) b rest) (peek_major-write_type m v (b ++ rest) p h)

peek_major-write_object :
    (v : CborObject) (rest : Bytes) (p : ℕ)
    → peek_major (at (write_object v ++ rest) p) ≡ ok (major_type v)
unfolding write_object write_string
peek_major-write_object (long (pos n)) rest p =
    unfold write_int write_type in peek_major-write_type 0 n rest p (omega arith)
peek_major-write_object (long (negsuc n)) rest p =
    unfold write_int write_type in peek_major-write_type 1 n rest p (omega arith)
peek_major-write_object (boolean true) rest p = unfold write_simple_type peek_major in refl
peek_major-write_object (boolean false) rest p = unfold write_simple_type peek_major in refl
peek_major-write_object (byte_string b) rest p = peek_major-append 2 _ b rest p (omega arith)
peek_major-write_object (str s) rest p = peek_major-append 3 _ s rest p (omega arith)
peek_major-write_object (list xs) rest p = peek_major-append 4 _ _ rest p (omega arith)
peek_major-write_object (map m) rest p = peek_major-append 5 _ _ rest p (omega arith)
peek_major-write_object (merkle_link c) rest p = peek_major-append 6 _ _ rest p (omega arith)
peek_major-write_object null rest p = unfold write_simple_type peek_major in refl

dispatch-write_object :
    (one : Reader → Read CborObject) (bound room : ℕ)
    → ReadsOne one bound
    → (v : CborObject) (rest : Bytes) (p : ℕ) → IsValid v
    → length (write_object v) ≤ bound
    → bound ≤ room
    → bound < 2 ^ 64
    → dispatch one room (major_type v) (at (write_object v ++ rest) p)
      ≡ ok (v, at rest (p + length (write_object v)))
unfolding dispatch
dispatch-write_object one bound room reads (long (pos n)) rest p h hb hr hw =
    unfold write_object in read_long-write_int (pos n) h room rest p (omega arith) (omega arith)
dispatch-write_object one bound room reads (long (negsuc n)) rest p h hb hr hw =
    unfold write_object in read_long-write_int (negsuc n) h room rest p (omega arith) (omega arith)
dispatch-write_object one bound room reads (boolean b) rest p h hb hr hw =
    unfold write_object in read_simple-write_simple b room rest p (omega arith) (omega arith)
dispatch-write_object one bound room reads (byte_string b) rest p h hb hr hw =
    unfold write_object in read_byte_string-write_string b room rest p (omega arith) (omega arith)
dispatch-write_object one bound room reads (str s) rest p h hb hr hw =
    unfold write_object in read_text-write_string s h room rest p (omega arith) (omega arith)
dispatch-write_object one bound room reads (list xs) rest p h hb hr hw =
    read_array-write_object one bound room reads xs rest p h hb hr hw
dispatch-write_object one bound room reads (map m) rest p h hb hr hw =
    read_map-write_object one bound room reads m rest p h hb hr hw
dispatch-write_object one bound room reads (merkle_link c) rest p h hb hr hw =
    read_tagged-write_object one bound room reads c rest p h hb
dispatch-write_object one bound room reads null rest p h hb hr hw =
    unfold write_object in read_simple-null room rest p (omega arith) (omega arith)

-- With a unit of fuel for each byte, `deserialize` reads every valid value off the front of its input.
pub deserialize-write_object :
    (f room : ℕ) (v : CborObject) (rest : Bytes) (p : ℕ)
    → f ≤ suc room
    → f < 2 ^ 64
    → IsValid v
    → length (write_object v) < f
    → deserialize f room (at (write_object v ++ rest) p)
      ≡ ok (v, at rest (p + length (write_object v)))
deserialize-write_object zero room v rest p hr hw h hf = absurd (omega arith)
deserialize-write_object (suc f) room v rest p hr hw h hf =
    deserialize-dispatch f room (major_type v) _ (peek_major-write_object v rest p)
    ∙ dispatch-write_object (deserialize f room) f room
        (λ w more q hv below.
          deserialize-write_object f room w more q (omega arith) (omega arith) hv below)
        v rest p h (omega arith) (omega arith) (omega arith)

deserialize_all-append :
    (v : CborObject) (rest : Bytes)
    → IsValid v
    → length (write_object v ++ rest) < 2 ^ 63
    → deserialize_all (write_object v ++ rest) ≡ ok (v, at rest (length (write_object v)))
unfolding deserialize_all
deserialize_all-append v rest h hl =
    let size = length-append (write_object v) rest in
    deserialize-write_object _ _ v rest 0 (omega arith) (omega arith) h (omega arith)
    ∙ ap (λ t. ok (v, at rest t)) (omega arith)

-- The empty buffer is refused by a test of its own; an encoding is never empty.
from_bytes_ne :
    (bytes : Bytes) {v : CborObject} {rest : Bytes} {n : ℕ}
    → 0 < length bytes
    → deserialize_all bytes ≡ ok (v, at rest n)
    → (from_bytes bytes ≡ (if n == length bytes then ok v else err trailing_bytes))
      × (from_bytes_prefix bytes ≡ ok v)
      × (from_bytes_consumed bytes ≡ ok (v, n))
unfolding from_bytes from_bytes_prefix from_bytes_consumed
from_bytes_ne [] h e = absurd (omega arith)
from_bytes_ne (b ∷ bs) h e = (rw e refl, rw e refl, rw e refl)

-- Decoding the encoding of a valid value gives the value back, for an encoding below 2 ^ 63 bytes.
pub from_bytes-to_bytes :
    (v : CborObject) → IsValid v → length (to_bytes v) < 2 ^ 63 → from_bytes (to_bytes v) ≡ ok v
unfolding to_bytes
from_bytes-to_bytes v h hl =
    let size = length-append (write_object v) [] in
    let r =
      from_bytes_ne (write_object v ++ []) (omega (arith, size, length-write_object_pos v))
        (deserialize_all-append v [] h (omega (arith, size))) in
    ap from_bytes (sym (append-nil (write_object v))) ∙ r.0 ∙ ground (arith, size)

-- A value is read off the front of a buffer below 2 ^ 63 bytes, whatever follows it, and the
-- number of bytes reported is the length of its encoding.
pub from_bytes_consumed-append :
    (v : CborObject) (rest : Bytes)
    → IsValid v
    → length (to_bytes v ++ rest) < 2 ^ 63
    → (from_bytes_prefix (to_bytes v ++ rest) ≡ ok v)
      × (from_bytes_consumed (to_bytes v ++ rest) ≡ ok (v, length (to_bytes v)))
unfolding to_bytes
from_bytes_consumed-append v rest h hl =
    let r =
      from_bytes_ne (write_object v ++ rest)
        (omega (arith, length-append (write_object v) rest, length-write_object_pos v))
        (deserialize_all-append v rest h hl) in
    (r.1, r.2)

-- Encodings are prefix-free: of two valid values, if one encoding followed by anything is the other
-- followed by anything, the values and what follows are the same.
pub to_bytes_prefix_free :
    (v w : CborObject) (r s : Bytes)
    → IsValid v
    → IsValid w
    → length (to_bytes v ++ r) < 2 ^ 63
    → to_bytes v ++ r ≡ to_bytes w ++ s
    → (v ≡ w) × (r ≡ s)
unfolding to_bytes
to_bytes_prefix_free v w r s hv hw hl e =
    let same =
      sym (deserialize_all-append v r hv hl)
      ∙ ap deserialize_all e
      ∙ deserialize_all-append w s hw (omega (arith, ap length e)) in
    (cc same, cc same)
