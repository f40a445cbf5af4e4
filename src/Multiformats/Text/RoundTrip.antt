-- ===== src/Multiformats/Text/RoundTrip.antt =====
-- crates/peergos-multiformats/src/lib.rs: a CID comes back from its text.
use rust_peergos_client.Common.{
  ℕ, ◌<◌, ◌/◌, ◌^◌, true, map, IsByte, ◌≡◌, refl, sym, ap, ◌∙◌, arith, inl, inr, some, [], ◌∷◌,
  ◌++◌, Bytes, IsBytes, length, All-append, ok,
}
use rust_peergos_client.Common.Text.{Text}
use rust_peergos_client.Multiformats.Varint.{put_uvarint}
use rust_peergos_client.Multiformats.Varint.RoundTrip.{put_uvarint_small, put_uvarint_large}
use rust_peergos_client.Multiformats.Multihash
use rust_peergos_client.Multiformats.Multihash.{
  MultihashType, Multihash, sha2_256, index, new_multihash,
}
use rust_peergos_client.Multiformats.Multihash.RoundTrip.{IsMultihash}
use rust_peergos_client.Multiformats.Cid.{Cid, build_v0, code, to_bytes_v1, to_bytes, cast}
use rust_peergos_client.Multiformats.Cid.RoundTrip.{
  IsCid, code-lt, cast-to_bytes, sha2_256-hash, to_bytes-sha2_256,
}
use rust_peergos_client.Multiformats.Bases.{
  leading, strip, repeat, b58_char, base58_encode, base58_decode,
}
use rust_peergos_client.Multiformats.Multibase.{multibase_encode_base58btc, multibase_decode}
use rust_peergos_client.Multiformats.Bases.Base58.{
  length-map, base58_encode-IsDigits, base58_decode-base58_encode,
}
use rust_peergos_client.Multiformats.Bases.Scale.{legacy_digits}
use mathlib.Core.Path.{subst}
use native.Mathlib.Decide.{dec_lt}
use rust_peergos_client.Multiformats.Text.{
  cid_to_string, decode_cid, multihash_to_base58, from_base58, starts_with_qm,
}

-- A text after the prefix of base 58 is read in base 58.
decode_cid-z :
    (t : Text) (x : ℕ) (bytes : Bytes) (c : Cid)
    → base58_decode t ≡ ok (x ∷ bytes)
    → cast (x ∷ bytes) ≡ ok c
    → decode_cid (b'z' ∷ t) ≡ ok c
unfolding decode_cid starts_with_qm multibase_decode
decode_cid-z [] x bytes c h k = unfold base58_decode in cc
decode_cid-z (d ∷ t) x bytes c h k = ground (arith, h, k)

-- The byte form begins with the version.
to_bytes_v1-first :
    (c : Cid)
    → c.version ≡ 1
    → to_bytes_v1 c ≡ 1 ∷ put_uvarint (code c.codec) ++ Multihash.to_bytes c.multihash
unfolding to_bytes_v1
to_bytes_v1-first c one =
    ap (λ (v : Bytes). v ++ (put_uvarint (code c.codec) ++ Multihash.to_bytes c.multihash))
      (ap put_uvarint one ∙ put_uvarint_small 1 (omega arith))

v1_round_trip :
    (c : Cid)
    → c.version ≡ 1
    → IsMultihash c.multihash
    → IsBytes (to_bytes_v1 c)
    → (t : Text) × (cid_to_string c ≡ some t) × (decode_cid t ≡ ok c)
unfolding cid_to_string multibase_encode_base58btc
v1_round_trip c one h bytes =
    let (t, e, d) = base58_decode-base58_encode (to_bytes_v1 c) bytes in
    let first = to_bytes_v1-first c one in
    let form : to_bytes c ≡ some (to_bytes_v1 c) = unfold to_bytes in ground (arith, one) in
    let cast_back = cast-to_bytes c (to_bytes_v1 c) (h, inl one) form in
    (
      b'z' ∷ t,
      ground (arith, one, e),
      decode_cid-z t 1 (put_uvarint (code c.codec) ++ Multihash.to_bytes c.multihash) c
          (d ∙ ap ok first) (ap cast (sym first) ∙ cast_back),
    )

-- The text of a bare multihash is read as one.
decode_cid-qm :
    (t : Text) (m : Multihash)
    → length t ≡ 46
    → starts_with_qm t ≡ true
    → base58_decode t ≡ ok (18 ∷ 32 ∷ m.hash)
    → new_multihash sha2_256 m.hash ≡ ok m
    → decode_cid t ≡ ok (build_v0 m)
unfolding decode_cid from_base58 Multihash.decode Multihash.lookup
decode_cid-qm t m long qm h made = rw (decode_cid, long, qm, h, made) refl

-- It has 46 characters and begins with Qm.
v0_round_trip :
    (m : Multihash)
    → IsMultihash m
    → m.hash_type ≡ sha2_256
    → IsBytes m.hash
    → (t : Text) × (cid_to_string (build_v0 m) ≡ some t) × (decode_cid t ≡ ok (build_v0 m))
unfolding cid_to_string multihash_to_base58 build_v0
v0_round_trip m h sha bytes =
    let (size, made) = sha2_256-hash m h sha in
    let form = to_bytes-sha2_256 m size sha in
    let all : IsBytes (18 ∷ 32 ∷ m.hash) = (omega arith, (omega arith, bytes)) in
    let (ds, encoded, below, high, worth) = base58_encode-IsDigits 18 (32 ∷ m.hash) all in
    let (rest, digits, long) =
      legacy_digits ds m.hash below high bytes size (worth ∙ unfold strip in refl) in
    let (t, encoded', decoded) = base58_decode-base58_encode (18 ∷ 32 ∷ m.hash) all in
    let plain : base58_encode (18 ∷ 32 ∷ m.hash) ≡ some (map b58_char ds) =
      encoded ∙ unfold leading repeat in refl in
    let text : t ≡ map b58_char (23 ∷ 44 ∷ rest) = cc in
    let longer : length (23 ∷ 44 ∷ rest) ≡ 46 = omega arith in
    let size : length t ≡ 46 = ap length text ∙ length-map (23 ∷ 44 ∷ rest) ∙ longer in
    let qm : starts_with_qm t ≡ true =
      ap starts_with_qm text ∙ unfold starts_with_qm b58_char in refl in
    (t, ap base58_encode form ∙ encoded', decode_cid-qm t m size qm decoded made)

index-lt : (t : MultihashType) → index t < 0x80
unfolding index
index-lt sha2_256 = omega arith
index-lt _ = omega arith

put_uvarint-IsBytes : (x : ℕ) → x < 0x4000 → IsBytes (put_uvarint x)
put_uvarint-IsBytes x h = elim (dec_lt x 0x80) [
  | yes small ↦ rw (put_uvarint_small x small) (omega arith, tt)
  | no large ↦
      rw (put_uvarint_large x (omega arith), put_uvarint_small (x / 2 ^ 7) (omega arith))
        (omega arith, (omega arith, tt))
]

to_bytes_v1-IsBytes :
    (c : Cid)
    → c.version ≡ 1
    → IsMultihash c.multihash
    → IsBytes c.multihash.hash
    → IsBytes (to_bytes_v1 c)
unfolding to_bytes_v1 Multihash.to_bytes new_multihash
to_bytes_v1-IsBytes c one h bytes =
    let short : length c.multihash.hash < 0x4000 = ground (arith, h) in
    let header =
      All-append IsByte (put_uvarint (length c.multihash.hash)) c.multihash.hash
        (put_uvarint-IsBytes (length c.multihash.hash) short) bytes in
    let multihash =
      All-append IsByte (put_uvarint (index c.multihash.hash_type))
        (put_uvarint (length c.multihash.hash) ++ c.multihash.hash)
        (put_uvarint-IsBytes (index c.multihash.hash_type)
          (omega (arith, index-lt c.multihash.hash_type)))
        header in
    All-append IsByte (put_uvarint c.version)
      (put_uvarint (code c.codec) ++ Multihash.to_bytes c.multihash)
      (put_uvarint-IsBytes c.version (omega arith))
      (All-append IsByte (put_uvarint (code c.codec)) (Multihash.to_bytes c.multihash)
        (put_uvarint-IsBytes (code c.codec) (omega (arith, code-lt c.codec))) multihash)

-- A CID that the program makes comes back from its text.
pub decode_cid-cid_to_string :
    (c : Cid)
    → IsCid c
    → IsBytes c.multihash.hash
    → (t : Text) × (cid_to_string c ≡ some t) × (decode_cid t ≡ ok c)
decode_cid-cid_to_string c (h, inl one) bytes =
    v1_round_trip c one h (to_bytes_v1-IsBytes c one h bytes)
decode_cid-cid_to_string c (h, inr (same, sha)) bytes =
    subst (λ (d : Cid). (t : Text) × (cid_to_string d ≡ some t) × (decode_cid t ≡ ok d)) (sym same)
      (v0_round_trip c.multihash h sha bytes)
