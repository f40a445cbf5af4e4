-- ===== src/Multiformats/Multihash/RoundTrip.antt =====
-- The byte form of a multihash determines it.
use rust_peergos_client.Common.{
  ℕ, ◌≤◌, ◌<◌, ◌≡◌, refl, sym, ap, ◌∙◌, arith, ◌++◌, Bytes, IsBytes, length, length-append, take,
  drop, take-append_length, drop-append_length, append_assoc, ok, Yields, yields, fails,
  Yields-bind, Yields-if, Yields-ok, IsByte, All-right, leb, take-append-drop, length-take, leb→le,
}
use rust_peergos_client.Multiformats.Varint.{put_uvarint, read_uvarint}
use rust_peergos_client.Multiformats.Varint.RoundTrip.{read_uvarint-put_uvarint}
use rust_peergos_client.Multiformats.Varint.Minimal.{put_uvarint-read_uvarint}
use rust_peergos_client.Multiformats.Multihash.{
  MultihashType, id, index, lookup, Multihash, new_multihash, to_bytes, deserialize,
}

-- What `Multihash::new` lets through.
abbrev pub IsMultihash : Multihash → Type 0
IsMultihash m = new_multihash m.hash_type m.hash ≡ ok m

pub lookup-index : (t : MultihashType) → lookup (index t) ≡ ok t
unfolding lookup index
lookup-index id = refl
lookup-index _ = refl

pub index-lookup : (n : ℕ) (t : MultihashType) → lookup n ≡ ok t → n ≡ index t
unfolding lookup index
index-lookup n t h = ground arith

pub index-lt : (t : MultihashType) → index t < 0x80
unfolding index
index-lt id = omega arith
index-lt _ = omega arith

pub new_multihash-eq :
    (t : MultihashType) (h : Bytes) (m : Multihash)
    → new_multihash t h ≡ ok m
    → (m ≡ record { hash_type = t; hash = h }) × (length h ≤ 4112)
unfolding new_multihash
new_multihash-eq t h m e = ground arith

pub new_multihash-IsMultihash :
    (t : MultihashType) (h : Bytes) (m : Multihash) → new_multihash t h ≡ ok m → IsMultihash m
new_multihash-IsMultihash t h m e =
    let same = (new_multihash-eq t h m e).0 in ap (λ x. new_multihash x.hash_type x.hash) same ∙ e

-- `deserialize` reads back a multihash that `Multihash::new` accepts, and leaves what follows it.
pub deserialize-to_bytes :
    (m : Multihash) (rest : Bytes) → IsMultihash m → deserialize (to_bytes m ++ rest) ≡ ok (m, rest)
unfolding deserialize to_bytes
deserialize-to_bytes m rest h =
    let size = (new_multihash-eq m.hash_type m.hash m h).1 in
    ground (
      arith,
      append_assoc (put_uvarint (index m.hash_type)) (put_uvarint (length m.hash) ++ m.hash) rest,
      append_assoc (put_uvarint (length m.hash)) m.hash rest,
      read_uvarint-put_uvarint (index m.hash_type)
          (put_uvarint (length m.hash) ++ (m.hash ++ rest)),
      read_uvarint-put_uvarint (length m.hash) (m.hash ++ rest),
      index-lt m.hash_type,
      lookup-index m.hash_type,
      length-append m.hash rest,
      take-append_length m.hash rest,
      drop-append_length m.hash rest,
      h,
      size,
    )

-- The byte form of a valid multihash, then the rest.
abbrev IsForm : Bytes → Multihash × Bytes → Type 0
IsForm bytes t = IsMultihash t.0 × (bytes ≡ to_bytes t.0 ++ t.1)

IsForm-of_parts :
    (bytes r1 r2 : Bytes) (t len : ℕ) (k : MultihashType) (m : Multihash)
    → bytes ≡ put_uvarint t ++ r1
    → r1 ≡ put_uvarint len ++ r2
    → lookup t ≡ ok k
    → len ≤ length r2
    → new_multihash k (take len r2) ≡ ok m
    → IsForm bytes (m, drop len r2)
unfolding to_bytes
IsForm-of_parts bytes r1 r2 t len k m e1 e2 e3 fits e4 =
    let same = (new_multihash-eq k (take len r2) m e4).0 in
    let size = length-take len r2 fits in
    (
      new_multihash-IsMultihash k (take len r2) m e4,
      rw (e1, e2, index-lookup t k e3, same, size)
          (ap (λ x. put_uvarint (index k) ++ x)
              (ap (λ x. put_uvarint len ++ x) (sym (take-append-drop len r2))
                ∙ sym (append_assoc (put_uvarint len) (take len r2) (drop len r2)))
            ∙ sym (
                append_assoc (put_uvarint (index k)) (put_uvarint len ++ take len r2)
                  (drop len r2))),
    )

deserialize-Yields : (bytes : Bytes) → IsBytes bytes → Yields (IsForm bytes) (deserialize bytes)
unfolding deserialize
deserialize-Yields bytes hb = Yields-bind (read_uvarint bytes) λ (t, r1) e1.
    let f1 = (put_uvarint-read_uvarint bytes t r1 hb e1).1 in
    let hb1 = All-right IsByte (put_uvarint t) r1 (rw f1 at hb) in
    Yields-bind (read_uvarint r1) λ (len, r2) e2.
      let f2 = (put_uvarint-read_uvarint r1 len r2 hb1 e2).1 in
      Yields-bind (lookup t) λ k e3.
        Yields-if (leb len (length r2))
          (λ fits.
            Yields-bind (new_multihash k (take len r2))
              λ m e4. yields (IsForm-of_parts bytes r1 r2 t len k m f1 f2 e3 (leb→le _ _ fits) e4))
          (λ _. fails)

-- What `deserialize` accepts from bytes is a multihash that `Multihash::new` accepts, and the bytes
-- are its byte form, then the rest: no multihash has a second form.
pub to_bytes-deserialize :
    (bytes : Bytes) (m : Multihash) (rest : Bytes)
    → IsBytes bytes
    → deserialize bytes ≡ ok (m, rest)
    → IsMultihash m × (bytes ≡ to_bytes m ++ rest)
to_bytes-deserialize bytes m rest hb e = Yields-ok (deserialize-Yields bytes hb) e
