-- ===== src/Cbor/Arms.antt =====
-- Each arm of `deserialize` reads what the matching arm of `write_object` wrote.
use rust_peergos_client.Common.{
  ℕ, ◌+◌, ◌^◌, ◌≤◌, ◌<◌, ◌≡◌, refl, sym, ap, arith, Bool, true, false, ◌∷◌, ◌++◌, Bytes, IsBytes,
  length, drop, length-append, append_assoc, ok, ◌==◌, if◌then◌else◌,
}
use mathlib.Core.Path.{ap₂}
use rust_peergos_client.Common.Int.{ℤ, pos, negsuc, IsI64}
use rust_peergos_client.Common.Text.{is_utf8}
use rust_peergos_client.Cbor.Object.{
  CborObject, long, boolean, byte_string, str, list, map, merkle_link, null, Objects, no_items,
  item, Entries, no_entries, entry,
}
use rust_peergos_client.Cbor.BtreeMap.{len}
use rust_peergos_client.Cbor.Encode.{
  write_type, write_string, write_simple_type, write_int, write_object, write_items, write_entries,
  count,
}
use rust_peergos_client.Cbor.Decode.{
  Reader, Read, read_text, read_byte_string, read_long, read_int, read_simple, read_entries,
  read_items, read_map, read_array, read_tagged,
}
use rust_peergos_client.Cbor.Header.{
  indicator, payload, at, indicator-lt, write_type_shape, length-write_type, read_type-write_type,
  read_n-append, read_uint-payload, read_major_type-byte,
}
use rust_peergos_client.Cbor.Valid.{IsSorted, IsValid, AreValid, HasValid}
use rust_peergos_client.Cbor.Size.{count-le, len-le}
use rust_peergos_client.Cbor.Insertion.{
  join, join-no_entries, join_entry, Follows, Follows-no_entries, Follows-join, insert_new-After,
}

-- `read` takes `written` off the front of any input and yields `a`, with `room` bytes in the buffer.
abbrev pub Reads : {A : Type 0} → (ℕ → Reader → Read A) → Bytes → A → Type 0
Reads read written a =
    (room : ℕ) (rest : Bytes) (p : ℕ)
    → length written ≤ room
    → length written < 2 ^ 64
    → read room (at (written ++ rest) p) ≡ ok (a, at rest (p + length written))

pub read_text-write_string :
    (s : Bytes) → is_utf8 s ≡ true → Reads read_text (write_string 3 s) (str s)
unfolding read_text write_string
read_text-write_string s h room rest p hr hb = ground (
  arith,
  append_assoc (write_type 3 (length s)) s rest,
  read_type-write_type 3 (length s) (s ++ rest) p,
  read_n-append s rest (p + length (write_type 3 (length s))),
  length-append (write_type 3 (length s)) s,
)

pub read_byte_string-write_string :
    (b : Bytes) → Reads read_byte_string (write_string 2 b) (byte_string b)
unfolding read_byte_string write_string
read_byte_string-write_string b room rest p hr hb = ground (
  arith,
  append_assoc (write_type 2 (length b)) b rest,
  read_type-write_type 2 (length b) (b ++ rest) p,
  read_n-append b rest (p + length (write_type 2 (length b))),
  length-append (write_type 2 (length b)) b,
)

read_int-write_uint :
    (m n : ℕ) (rest : Bytes) (p : ℕ) (c : ℤ)
    → m < 2
    → n < 2 ^ 63
    → (if m == 0 then pos n else negsuc n) ≡ c
    → read_int (at (write_type m n ++ rest) p) ≡ ok (c, at rest (p + length (write_type m n)))
unfolding read_int drop
read_int-write_uint m n rest p c hm hn e =
    rw (write_type_shape m n rest, length-write_type m n)
      (ground (arith, indicator-lt n, read_uint-payload n rest (p + 1)))

pub read_long-write_int : (v : ℤ) → IsI64 v → Reads (λ room. read_long) (write_int v) (long v)
unfolding read_long write_int write_type
read_long-write_int (pos n) h room rest p hr hb =
    ground (arith, read_int-write_uint 0 n rest p (pos n))
read_long-write_int (negsuc n) h room rest p hr hb =
    ground (arith, read_int-write_uint 1 n rest p (negsuc n))

pub read_simple-write_simple :
    (b : Bool)
    → Reads (λ room. read_simple) (write_simple_type 7 (if b then 0x15 else 0x14)) (boolean b)
unfolding read_simple write_simple_type drop
read_simple-write_simple true room rest p hr hb = refl
read_simple-write_simple false room rest p hr hb = refl

pub read_simple-null : Reads (λ room. read_simple) (write_simple_type 7 0x16) null
unfolding read_simple write_simple_type drop
read_simple-null room rest p hr hb = refl

-- `one` reads every valid value whose encoding is below `bound`.
abbrev pub ReadsOne : (Reader → Read CborObject) → ℕ → Type 0
ReadsOne one bound =
    (v : CborObject) (rest : Bytes) (p : ℕ)
    → IsValid v
    → length (write_object v) < bound
    → one (at (write_object v ++ rest) p) ≡ ok (v, at rest (p + length (write_object v)))

module _ (one : Reader → Read CborObject) (bound : ℕ) (reads : ReadsOne one bound) where
  read_items-write_items :
      (xs : Objects) (rest : Bytes) (p : ℕ)
      → AreValid xs
      → length (write_items xs) < bound
      → read_items one (count xs) (at (write_items xs ++ rest) p)
        ≡ ok (xs, at rest (p + length (write_items xs)))
  unfolding read_items write_object
  read_items-write_items no_items rest p h hr = ap (λ t. ok (no_items, at rest t)) (omega arith)
  read_items-write_items (item x xs) rest p h hr =
      let split = length-append (write_object x) (write_items xs) in
      rw
        (
          append_assoc (write_object x) (write_items xs) rest,
          reads x (write_items xs ++ rest) p h.0 (omega arith),
          read_items-write_items xs rest (p + length (write_object x)) h.1 (omega arith),
        )
        (ap (λ t. ok (item x xs, at rest t)) (omega arith))

  read_entries-write_entries :
      (e m : Entries) (rest : Bytes) (p : ℕ)
      → IsSorted e
      → HasValid e
      → Follows m e
      → length (write_entries e) < bound
      → read_entries one (len e) m (at (write_entries e ++ rest) p)
        ≡ ok (join m e, at rest (p + length (write_entries e)))
  unfolding read_entries write_object len
  read_entries-write_entries no_entries m rest p hs hv hf hr =
      ap ok (ap₂ (λ a t. (a, at rest t)) (sym (join-no_entries m)) (omega arith))
  read_entries-write_entries (entry k v e) m rest p hs hv hf hr =
      let key_bytes = write_string 3 k.value in
      let outer = length-append key_bytes (write_object v ++ write_entries e) in
      let inner = length-append (write_object v) (write_entries e) in
      let (hk, hx, he) = hv in
      rw
        (
          append_assoc key_bytes (write_object v ++ write_entries e) rest,
          append_assoc (write_object v) (write_entries e) rest,
          reads (str k.value) (write_object v ++ (write_entries e ++ rest)) p hk.text (omega arith),
          reads v (write_entries e ++ rest) (p + length key_bytes) hx (omega arith),
          ← hk.made,
          insert_new-After k v m hf.0,
          read_entries-write_entries e (join m (entry k v no_entries)) rest
              (p + length key_bytes + length (write_object v)) hs.1 he
              (Follows-join m k v e hf.1 hs.0) (omega arith),
        )
        (ap ok (ap₂ (λ a t. (a, at rest t)) (join_entry m k v e) (omega arith)))

module _ (one : Reader → Read CborObject) (bound room : ℕ) (reads : ReadsOne one bound) where
  pub read_array-write_object :
      (xs : Objects) (rest : Bytes) (p : ℕ)
      → AreValid xs
      → length (write_object (list xs)) ≤ bound
      → bound ≤ room
      → bound < 2 ^ 64
      → read_array one room (at (write_object (list xs) ++ rest) p)
        ≡ ok (list xs, at rest (p + length (write_object (list xs))))
  unfolding read_array write_object
  read_array-write_object xs rest p h hb hr hw =
      let header = write_type 4 (count xs) in
      let size = length-append header (write_items xs) in
      ground (
        arith,
        append_assoc header (write_items xs) rest,
        size,
        count-le xs,
        length-write_type 4 (count xs),
        read_type-write_type 4 (count xs) (write_items xs ++ rest) p,
        read_items-write_items one bound reads xs rest (p + length header) h,
      )

  pub read_map-write_object :
      (m : Entries) (rest : Bytes) (p : ℕ)
      → IsValid (map m)
      → length (write_object (map m)) ≤ bound
      → bound ≤ room
      → bound < 2 ^ 64
      → read_map one room (at (write_object (map m) ++ rest) p)
        ≡ ok (map m, at rest (p + length (write_object (map m))))
  unfolding read_map write_object
  read_map-write_object m rest p h hb hr hw =
      let header = write_type 5 (len m) in
      ground (
        arith,
        append_assoc header (write_entries m) rest,
        length-append header (write_entries m),
        len-le m,
        length-write_type 5 (len m),
        read_type-write_type 5 (len m) (write_entries m ++ rest) p,
        read_entries-write_entries one bound reads m no_entries rest (p + length header) h.0 h.1
            (Follows-no_entries m),
      )

  pub read_tagged-write_object :
      (c : Bytes) (rest : Bytes) (p : ℕ)
      → IsBytes c
      → length (write_object (merkle_link c)) ≤ bound
      → read_tagged one (at (write_object (merkle_link c) ++ rest) p)
        ≡ ok (merkle_link c, at rest (p + length (write_object (merkle_link c))))
  unfolding read_tagged write_object
  read_tagged-write_object c rest p h hb =
      let inner = write_string 2 (0 ∷ c) in
      rw
        (
          append_assoc (write_type 6 42) inner rest,
          write_type_shape 6 42 (inner ++ rest),
          read_major_type-byte 6 (indicator 42) (payload 42 ++ (inner ++ rest)) p (omega arith)
              (indicator-lt 42),
          read_uint-payload 42 (inner ++ rest) (p + 1) (omega arith),
          reads (byte_string (0 ∷ c)) rest (p + 1 + length (payload 42)) (omega arith, h)
              (omega (arith, length-append (write_type 6 42) inner, length-write_type 6 42)),
        )
        (ap (λ t. ok (merkle_link c, at rest t))
          (omega (arith, length-append (write_type 6 42) inner, length-write_type 6 42)))
