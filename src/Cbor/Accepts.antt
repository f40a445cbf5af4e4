-- ===== src/Cbor/Accepts.antt =====
-- The loops and the dispatch of the decoder: no input runs them out of fuel, and what they accept is
-- a valid value, read from at least as many bytes as its encoding has.
use rust_peergos_client.Common.{
  ℕ, zero, suc, ◌+◌, ◌≤◌, ◌<◌, ◌≡◌, refl, ap, arith, [], ◌∷◌, ◌++◌, IsBytes, length, length-append,
  leb, ltb, ◌==◌, ==_iff,
}
use rust_peergos_client.Cbor.Object.{
  CborObject, byte_string, str, map, Objects, Entries, no_entries,
}
use rust_peergos_client.Cbor.BtreeMap.{len}
use rust_peergos_client.Cbor.Encode.{
  write_type, write_string, write_object, write_items, write_entries, count,
}
use rust_peergos_client.Cbor.Decode.{
  Reader, Read, read_entries, read_items, read_map, as_merkle_link, peek_major, read_array,
  read_tagged, dispatch, deserialize,
}
use rust_peergos_client.Cbor.Header.{payload, length-write_type}
use rust_peergos_client.Cbor.Valid.{IsValid, AreValid}
use rust_peergos_client.Cbor.Consumes.{
  Ensures, value, failed, Ensures-bind, Ensures-if, Ensures-imp, Consumes, Consumes-trans,
  read_uint-Ensures,
}
use rust_peergos_client.Cbor.Sound.{
  Decoded, read_header-Ensures, read_major_type-Ensures, peek_major-Ensures, read_text-Ensures,
  read_byte_string-Ensures, read_long-Ensures, read_simple-Ensures, as_key-Ensures,
  insert_new-Ensures,
}

len-read : (m : Entries) (n : ℕ) → len m ≡ len no_entries + n → len m ≡ n
unfolding len
len-read m n h = omega arith

length-payload_link : length (payload 42) ≡ 1
unfolding payload
length-payload_link = refl

-- `one` decodes from every buffer below `bound` bytes.
abbrev DecodesBelow : (Reader → Read CborObject) → ℕ → Type 0
DecodesBelow one bound =
    (r : Reader) → IsBytes r.rest → length r.rest < bound → Ensures (Decoded r) (one r)

abbrev ReadsItems : ℕ → Reader → Objects × Reader → Type 0
ReadsItems n r t = AreValid t.0 × (count t.0 ≡ n) × Consumes (length (write_items t.0)) r t.1

-- The entries read so far are in `m`.
abbrev ReadsEntries : ℕ → Entries → Reader → Entries × Reader → Type 0
ReadsEntries n m r t =
    IsValid (map t.0)
    × (len t.0 ≡ len m + n)
    × IsBytes t.1.rest
    × (t.1.pos + length t.1.rest ≡ r.pos + length r.rest)
    × (length t.1.rest + length (write_entries t.0) ≤ length r.rest + length (write_entries m))

module _ (one : Reader → Read CborObject) (bound : ℕ) (decodes : DecodesBelow one bound) where
  read_items-Ensures :
      (n : ℕ) (r : Reader)
      → IsBytes r.rest
      → length r.rest < bound
      → Ensures (ReadsItems n r) (read_items one n r)
  unfolding read_items write_object
  read_items-Ensures zero r h hb =
      value (tt, refl, record { bytes = h; total = refl; used = omega arith })
  read_items-Ensures (suc n) r h hb = Ensures-bind (decodes r h hb) λ (x, r1) (hx, c).
      Ensures-bind (read_items-Ensures n r1 c.bytes (omega (arith, c.used)))
        λ (xs, r2) (hxs, hn, d). value (
          (hx, hxs),
          ap suc hn,
          Consumes-trans (length (write_object x ++ write_items xs)) c d
              (omega (arith, length-append (write_object x) (write_items xs))),
        )

  read_entries-Ensures :
      (n : ℕ) (m : Entries) (r : Reader)
      → IsValid (map m)
      → IsBytes r.rest
      → length r.rest < bound
      → Ensures (ReadsEntries n m r) (read_entries one n m r)
  unfolding read_entries
  read_entries-Ensures zero m r hm h hb = value (hm, omega arith, h, refl, omega arith)
  read_entries-Ensures (suc n) m r hm h hb = Ensures-bind (decodes r h hb) λ (k, r1) (hk, c).
      Ensures-bind (as_key-Ensures k hk) λ key (hkey, hlen).
        Ensures-bind (decodes r1 c.bytes (omega (arith, c.used))) λ (v, r2) (hv, d).
          Ensures-bind (insert_new-Ensures key v m hkey hv hm) λ m' (hm', more, size).
            Ensures-imp (read_entries-Ensures n m' r2 hm' d.bytes (omega (arith, c.used, d.used)))
              λ (m'', r3) (a, l, b, t, u). (
                a,
                omega (arith, l, more),
                b,
                omega (arith, c.total, d.total, t),
                omega (arith, c.used, d.used, u, size, hlen),
              )

  read_array-Ensures :
      (room : ℕ) (r : Reader)
      → IsBytes r.rest
      → length r.rest ≤ bound
      → Ensures (Decoded r) (read_array one room r)
  unfolding read_array write_object
  read_array-Ensures room r h hb = Ensures-bind (read_header-Ensures 4 r h) λ (n, r') (hn, c).
      Ensures-if {P = Decoded r} (ltb room n) (λ _. failed (λ e'. cc))
        λ _.
          Ensures-bind (read_items-Ensures n r' c.bytes (omega (arith, c.used)))
            λ (xs, r'') (hxs, hc, d). value (
              hxs,
              Consumes-trans (length (write_type 4 (count xs) ++ write_items xs)) c d (
                  omega (
                    arith,
                    length-append (write_type 4 (count xs)) (write_items xs),
                    length-write_type 4 (count xs),
                    ap (λ (t : ℕ). length (payload t)) hc,
                  )),
            )

  read_map-Ensures :
      (room : ℕ) (r : Reader)
      → IsBytes r.rest
      → length r.rest ≤ bound
      → Ensures (Decoded r) (read_map one room r)
  unfolding read_map write_object
  read_map-Ensures room r h hb = Ensures-bind (read_header-Ensures 5 r h) λ (n, r') (hn, c).
      Ensures-if {P = Decoded r} (ltb room n) (λ _. failed (λ e'. cc))
        λ _.
          Ensures-bind
            (read_entries-Ensures n no_entries r' (tt, tt) c.bytes (omega (arith, c.used)))
            λ (m, r'') (hm, hl, b, t, u). value (
              hm,
              record {
                bytes = b;
                total = omega (arith, c.total, t);
                used = omega (
                  arith,
                  c.used,
                  u,
                  length-append (write_type 5 (len m)) (write_entries m),
                  length-write_type 5 (len m),
                  ap (λ (t : ℕ). length (payload t)) (len-read m n hl),
                );
              },
            )

  as_merkle_link-Ensures :
      (c : CborObject)
      → IsValid c
      → Ensures
          (λ l. IsValid l × (length (write_object l) ≡ 2 + length (write_object c)))
          (as_merkle_link c)
  unfolding write_object
  as_merkle_link-Ensures (str s) h = failed (λ e'. cc)
  as_merkle_link-Ensures (byte_string []) h = failed (λ e'. cc)
  as_merkle_link-Ensures (byte_string (b ∷ bs)) h =
      Ensures-if (b == 0)
        (λ e. value (
          h.1,
          rw ((==_iff b 0).0 e) (
              omega (
                arith,
                length-append (write_type 6 42) (write_string 2 (0 ∷ bs)),
                length-write_type 6 42,
                length-payload_link,
              )),
        ))
        (λ _. failed (λ e'. cc))
  as_merkle_link-Ensures _ h = failed (λ e'. cc)

  read_tagged-Ensures :
      (r : Reader)
      → IsBytes r.rest
      → length r.rest ≤ bound
      → Ensures (Decoded r) (read_tagged one r)
  unfolding read_tagged
  read_tagged-Ensures r h hb = Ensures-bind (read_major_type-Ensures 6 r h) λ (i, r1) c.
      Ensures-bind (read_uint-Ensures i r1 c.bytes) λ (tag, r2) (ht, d).
        Ensures-if {P = Decoded r} (tag == 42)
          (λ e. Ensures-bind (decodes r2 d.bytes (omega (arith, c.used, d.used))) λ (v, r3) (hv, f).
            Ensures-bind (as_merkle_link-Ensures v hv) λ l (hl, size). value (
              hl,
              record {
                bytes = f.bytes;
                total = omega (arith, c.total, d.total, f.total);
                used = omega (
                  arith,
                  c.used,
                  d.used,
                  f.used,
                  size,
                  length-payload_link,
                  ap (λ (t : ℕ). length (payload t)) ((==_iff tag 42).0 e),
                );
              },
            ))
          (λ _. failed (λ e'. cc))

  dispatch-Ensures :
      (room major : ℕ) (r : Reader)
      → IsBytes r.rest
      → length r.rest ≤ bound
      → Ensures (Decoded r) (dispatch one room major r)
  unfolding dispatch
  dispatch-Ensures room major r h hb =
      Ensures-if (major == 3) (λ _. read_text-Ensures room r h)
        λ _.
          Ensures-if (major == 2) (λ _. read_byte_string-Ensures room r h)
            λ _.
              Ensures-if (leb major 1) (λ _. read_long-Ensures r h)
                λ _.
                  Ensures-if (major == 7) (λ _. read_simple-Ensures r h)
                    λ _.
                      Ensures-if (major == 5) (λ _. read_map-Ensures room r h hb)
                        λ _.
                          Ensures-if (major == 4) (λ _. read_array-Ensures room r h hb)
                            λ _.
                              Ensures-if (major == 6) (λ _. read_tagged-Ensures r h hb)
                                λ _. failed (λ e'. cc)

pub deserialize-Ensures :
    (f room : ℕ) (r : Reader)
    → IsBytes r.rest
    → length r.rest < f
    → Ensures (Decoded r) (deserialize f room r)
unfolding deserialize peek_major
deserialize-Ensures zero room r h hf = absurd (omega arith)
deserialize-Ensures (suc f) room r h hf = Ensures-bind (peek_major-Ensures r) λ major _.
    dispatch-Ensures (deserialize f room) f (λ s hs hl. deserialize-Ensures f room s hs hl) room
      major r h (omega arith)
