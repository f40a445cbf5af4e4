-- ===== src/Cbor/Sound.antt =====
-- What the decoder accepts: a valid value, read from at least as many bytes as its encoding has.
use rust_peergos_client.Common.{
  ℕ, suc, ◌+◌, ◌-◌, ◌/◌, ◌%◌, ◌^◌, ◌≤◌, ◌<◌, ◌≡◌, refl, arith, [], ◌∷◌, Bytes, IsBytes, length, ltb,
  ◌==◌, Option-cases, inl, inr,
}
use rust_peergos_client.Common.Int.{ℤ, to_i64, complement, IsI64}
use rust_peergos_client.Common.Text.{is_utf8}
use rust_peergos_client.Cbor.Object.{CborString, new_cbor_string, CborObject, str, map, Entries}
use rust_peergos_client.Cbor.BtreeMap.{lookup, len}
use rust_peergos_client.Cbor.Encode.{
  write_string, write_simple_type, write_int, write_object, write_entries,
}
use rust_peergos_client.Cbor.Decode.{
  Reader, read_text, read_byte_string, read_long, read_int, read_simple, insert_new, as_key,
  first_byte, peek_major, peek_additional, read_major_type, read_major_type_with_size,
}
use rust_peergos_client.Cbor.Header.{payload}
use rust_peergos_client.Cbor.Valid.{IsKey, IsValid}
use rust_peergos_client.Cbor.Size.{
  length-write_string, length-write_int-pos, length-write_int-negsuc,
}
use rust_peergos_client.Cbor.Consumes.{
  Ensures, value, failed, Ensures-bind, Ensures-if, Ensures-imp, Consumes, Consumes-trans,
  read_u8-Ensures, read_n-Ensures, read_uint-Ensures,
}
use rust_peergos_client.Cbor.SortedInsert.{
  insert-IsSorted, insert-HasValid, length-insert, len-insert,
}

abbrev pub Decoded : Reader → CborObject × Reader → Type 0
Decoded r t = IsValid t.0 × Consumes (length (write_object t.0)) r t.1

first_byte-Ensures : (bs : Bytes) → Ensures (λ a. Unit {0}) (first_byte bs)
first_byte-Ensures [] = failed (λ e'. cc)
first_byte-Ensures (b ∷ bs) = value tt

abbrev pub ReadsByte : Reader → ℕ × Reader → Type 0
ReadsByte r t = Consumes 1 r t.1

pub read_major_type-Ensures :
    (m : ℕ) (r : Reader) → IsBytes r.rest → Ensures (ReadsByte r) (read_major_type m r)
unfolding read_major_type
read_major_type-Ensures m r h = Ensures-bind (read_u8-Ensures r h) λ (ib, r') (hb, c).
    Ensures-if {P = ReadsByte r} (m == ib / 2 ^ 5 % 2 ^ 3) (λ e. value c) (λ e. failed (λ e'. cc))

-- A header is at least as long as the shortest one for its number.
abbrev pub ReadsHeader : Reader → ℕ × Reader → Type 0
ReadsHeader r t = (t.0 < 2 ^ 64) × Consumes (suc (length (payload t.0))) r t.1

pub read_header-Ensures :
    (m : ℕ) (r : Reader) → IsBytes r.rest → Ensures (ReadsHeader r) (read_major_type_with_size m r)
unfolding read_major_type_with_size
read_header-Ensures m r h = Ensures-bind (read_major_type-Ensures m r h) λ (i, r') c.
    Ensures-imp (read_uint-Ensures i r' c.bytes)
      λ (v, r'') (hv, d). (hv, Consumes-trans (suc (length (payload v))) c d (omega arith))

pub peek_additional-Ensures : (r : Reader) → Ensures (λ a. Unit {0}) (peek_additional r)
unfolding peek_additional
peek_additional-Ensures r = Ensures-bind (first_byte-Ensures r.rest) λ b _. value tt

pub peek_major-Ensures : (r : Reader) → Ensures (λ a. Unit {0}) (peek_major r)
unfolding peek_major
peek_major-Ensures r = Ensures-bind (first_byte-Ensures r.rest) λ b _. value tt

pub read_text-Ensures :
    (room : ℕ) (r : Reader) → IsBytes r.rest → Ensures (Decoded r) (read_text room r)
unfolding read_text write_object
read_text-Ensures room r h = Ensures-bind (read_header-Ensures 3 r h) λ (n, r') (hn, c).
    Ensures-if {P = Decoded r} (ltb room n) (λ e. failed (λ e'. cc))
      λ e. Ensures-bind (read_n-Ensures n r' c.bytes) λ (raw, r'') (hb, hl, d).
        Ensures-if {P = Decoded r} (is_utf8 raw)
          (λ ht. value (
            ht,
            Consumes-trans (length (write_string 3 raw)) c d
                (rw (← hl) (omega (arith, length-write_string 3 raw))),
          ))
          (λ _. failed (λ e'. cc))

pub read_byte_string-Ensures :
    (room : ℕ) (r : Reader) → IsBytes r.rest → Ensures (Decoded r) (read_byte_string room r)
unfolding read_byte_string write_object
read_byte_string-Ensures room r h = Ensures-bind (read_header-Ensures 2 r h) λ (n, r') (hn, c).
    Ensures-if {P = Decoded r} (ltb room n) (λ e. failed (λ e'. cc))
      λ e. Ensures-bind (read_n-Ensures n r' c.bytes) λ (raw, r'') (hb, hl, d). value (
        hb,
        Consumes-trans (length (write_string 2 raw)) c d
            (rw (← hl) (omega (arith, length-write_string 2 raw))),
      )

-- A number of 2 ^ 63 or more wraps around, and is written in as many bytes.
IsLong : ℕ → ℤ → Type 0
IsLong v c = IsI64 c × (length (write_int c) ≤ suc (length (payload v)))

to_i64-IsLong : (v : ℕ) → v < 2 ^ 64 → IsLong v (to_i64 v)
unfolding IsLong payload
to_i64-IsLong v h = ground (arith, length-write_int-pos v, length-write_int-negsuc (2 ^ 64 - 1 - v))

complement-IsLong : (v : ℕ) → v < 2 ^ 64 → IsLong v (complement (to_i64 v))
unfolding IsLong payload
complement-IsLong v h =
    ground (arith, length-write_int-negsuc v, length-write_int-pos (2 ^ 64 - 1 - v))

abbrev ReadsLong : Reader → ℤ × Reader → Type 0
ReadsLong r t = IsI64 t.0 × Consumes (length (write_int t.0)) r t.1

read_int-Ensures : (r : Reader) → IsBytes r.rest → Ensures (ReadsLong r) (read_int r)
unfolding read_int IsLong
read_int-Ensures r h = Ensures-bind (read_u8-Ensures r h) λ (ib, r') (hb, c).
    Ensures-if {P = ReadsLong r} (ib / 2 ^ 5 == 0)
      (λ _. Ensures-bind (read_uint-Ensures (ib % 2 ^ 5) r' c.bytes) λ (v, r'') (hv, d).
        let (hi, hl) = to_i64-IsLong v hv in
        value (hi, Consumes-trans (length (write_int (to_i64 v))) c d (omega arith)))
      λ _.
        Ensures-if {P = ReadsLong r} (ib / 2 ^ 5 == 1)
          (λ _. Ensures-bind (read_uint-Ensures (ib % 2 ^ 5) r' c.bytes) λ (v, r'') (hv, d).
            let (hi, hl) = complement-IsLong v hv in
            value
              (hi, Consumes-trans (length (write_int (complement (to_i64 v)))) c d (omega arith)))
          (λ _. failed (λ e'. cc))

pub read_long-Ensures : (r : Reader) → IsBytes r.rest → Ensures (Decoded r) (read_long r)
unfolding read_long write_object
read_long-Ensures r h = Ensures-bind (read_int-Ensures r h) λ (v, r') d. value d

pub read_simple-Ensures : (r : Reader) → IsBytes r.rest → Ensures (Decoded r) (read_simple r)
unfolding read_simple write_object write_simple_type
read_simple-Ensures r h = Ensures-bind (peek_additional-Ensures r) λ a _.
    Ensures-if {P = Decoded r} (a == 0x16)
      (λ _. Ensures-bind (read_u8-Ensures r h) λ (b, r') (hb, c). value (tt, c))
      λ _.
        Ensures-if {P = Decoded r} (a == 0x15)
          (λ _. Ensures-bind (read_u8-Ensures r h) λ (b, r') (hb, c). value (tt, c))
          λ _.
            Ensures-if {P = Decoded r} (a == 0x14)
              (λ _. Ensures-bind (read_u8-Ensures r h) λ (b, r') (hb, c). value (tt, c))
              (λ _. failed (λ e'. cc))

pub as_key-Ensures :
    (c : CborObject)
    → IsValid c
    → Ensures
        (λ k. IsKey k × (length (write_string 3 k.value) ≡ length (write_object c)))
        (as_key c)
unfolding write_object new_cbor_string
as_key-Ensures (str s) h = value (record { text = h; made = refl }, refl)
as_key-Ensures _ h = failed (λ e'. cc)

pub insert_new-Ensures :
    (k : CborString) (v : CborObject) (m : Entries)
    → IsKey k
    → IsValid v
    → IsValid (map m)
    → Ensures
        (λ m'.
          IsValid (map m')
          × (len m' ≡ suc (len m))
          × (length (write_entries m')
              ≡ length (write_string 3 k.value)
                + length (write_object v)
                + length (write_entries m)))
        (insert_new k v m)
unfolding insert_new
insert_new-Ensures k v m hk hv h = elim (Option-cases (lookup k m)) [
  | inl e ↦
      rw (e, insert_new)
        (value (
          (insert-IsSorted k v m h.0, insert-HasValid k v m hk hv h.1),
          len-insert k v m e,
          length-insert k v m e,
        ))
  | inr (w, e) ↦ rw (e, insert_new) (failed (λ e'. cc))
]
