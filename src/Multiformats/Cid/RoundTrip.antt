-- ===== src/Multiformats/Cid/RoundTrip.antt =====
-- The byte form of a CID and the CID.
use rust_peergos_client.Common.{
  ℕ, ◌<◌, ◌≡◌, refl, sym, ap, ◌∙◌, ◌⊎◌, inl, inr, arith, false, not, ◌&&◌, some, [], ◌∷◌, ◌++◌,
  Bytes, IsByte, IsBytes, length, append_assoc, append-nil, All-right, ok, ◌==◌, Yields, yields,
  fails, Yields-bind, Yields-if, Yields-ok, Yields-of,
}
use rust_peergos_client.Multiformats.Varint.{put_uvarint, read_uvarint}
use rust_peergos_client.Multiformats.Varint.RoundTrip.{read_uvarint-put_uvarint, put_uvarint_small}
use rust_peergos_client.Multiformats.Varint.Minimal.{put_uvarint-read_uvarint}
use rust_peergos_client.Multiformats.Multihash
use rust_peergos_client.Multiformats.Multihash.{
  Multihash, new_multihash, sha2_256, index, hash_length, lookup,
}
use rust_peergos_client.Multiformats.Multihash.RoundTrip.{
  IsMultihash, deserialize-to_bytes, to_bytes-deserialize, new_multihash-IsMultihash,
}
use rust_peergos_client.Multiformats.Cid.{
  Codec, raw, code, lookup_codec, Cid, build_v0, to_bytes_v1, to_bytes, is_v0, cast_tagged, cast,
}

lookup_codec-code : (c : Codec) → lookup_codec (code c) ≡ ok c
unfolding lookup_codec code
lookup_codec-code raw = refl
lookup_codec-code _ = refl

code-lookup_codec : (n : ℕ) (c : Codec) → lookup_codec n ≡ ok c → n ≡ code c
unfolding lookup_codec code
code-lookup_codec n c h = ground arith

pub code-lt : (c : Codec) → code c < 0x80
unfolding code
code-lt raw = omega arith
code-lt _ = omega arith

-- A tagged form begins with its version, 0 or 1, and so is no bare multihash.
is_v0-tagged : (c : Cid) (rest : Bytes) → c.version ≡ 1 → is_v0 (to_bytes_v1 c ++ rest) ≡ false
unfolding is_v0 to_bytes_v1
is_v0-tagged c rest h = rw (h, put_uvarint_small 1 (omega arith)) (ground arith)

cast_tagged-to_bytes_v1 :
    (c : Cid) (rest : Bytes)
    → c.version < 2
    → IsMultihash c.multihash
    → cast_tagged (to_bytes_v1 c ++ rest) ≡ ok c
unfolding cast_tagged to_bytes_v1
cast_tagged-to_bytes_v1 c rest hv hm =
    let form = Multihash.to_bytes c.multihash in
    ground (
      arith,
      append_assoc (put_uvarint c.version) (put_uvarint (code c.codec) ++ form) rest,
      append_assoc (put_uvarint (code c.codec)) form rest,
      read_uvarint-put_uvarint c.version (put_uvarint (code c.codec) ++ (form ++ rest)),
      read_uvarint-put_uvarint (code c.codec) (form ++ rest),
      code-lt c.codec,
      lookup_codec-code c.codec,
      deserialize-to_bytes c.multihash rest hm,
    )

pub sha2_256-hash :
    (m : Multihash)
    → IsMultihash m
    → m.hash_type ≡ sha2_256
    → (length m.hash ≡ 32) × (new_multihash sha2_256 m.hash ≡ ok m)
unfolding new_multihash
sha2_256-hash m h e = ground arith

pub to_bytes-sha2_256 :
    (m : Multihash)
    → length m.hash ≡ 32
    → m.hash_type ≡ sha2_256
    → Multihash.to_bytes m ≡ 18 ∷ 32 ∷ m.hash
unfolding Multihash.to_bytes index
to_bytes-sha2_256 m hl e =
    rw (e, index, hl, put_uvarint_small 18 (omega arith), put_uvarint_small 32 (omega arith))

cast-bare :
    (m : Multihash)
    → IsMultihash m
    → m.hash_type ≡ sha2_256
    → cast (Multihash.to_bytes m) ≡ ok (build_v0 m)
unfolding cast is_v0 Multihash.decode
cast-bare m h e =
    let (hl, made) = sha2_256-hash m h e in rw (to_bytes-sha2_256 m hl e) (ground (arith, made))

cast-to_bytes_v1 :
    (c : Cid) (rest : Bytes)
    → c.version ≡ 1
    → IsMultihash c.multihash
    → cast (to_bytes_v1 c ++ rest) ≡ ok c
unfolding cast
cast-to_bytes_v1 c rest h hm =
    rw (is_v0-tagged c rest h) (cast_tagged-to_bytes_v1 c rest (omega arith) hm)

-- The CIDs that the program makes: a version 1 CID of any multihash that `Multihash::new` accepts,
-- or `build_v0` of a sha2-256 one.
abbrev pub IsCid : Cid → Type 0
IsCid c =
    IsMultihash c.multihash
    × ((c.version ≡ 1) ⊎ ((c ≡ build_v0 c.multihash) × (c.multihash.hash_type ≡ sha2_256)))

pub cast-to_bytes :
    (c : Cid) (bytes : Bytes) → IsCid c → to_bytes c ≡ some bytes → cast bytes ≡ ok c
unfolding to_bytes
cast-to_bytes c bytes (hm, inl one) e =
    let form : to_bytes_v1 c ≡ bytes = ground arith in
    ap cast (sym form ∙ sym (append-nil (to_bytes_v1 c))) ∙ cast-to_bytes_v1 c [] one hm
cast-to_bytes c bytes (hm, inr (same, sha)) e =
    let zero : c.version ≡ 0 = unfold build_v0 in ground arith in
    let form : Multihash.to_bytes c.multihash ≡ bytes = ground arith in
    ap cast (sym form) ∙ cast-bare c.multihash hm sha ∙ ap ok (sym same)

IsCast : Bytes → Cid → Type 0
IsCast bytes c =
    IsMultihash c.multihash
    × (c.version < 2)
    × (c.version ≡ 1 → (rest : Bytes) × (bytes ≡ to_bytes_v1 c ++ rest))

decode-Yields : (bytes : Bytes) → Yields IsMultihash (Multihash.decode bytes)
unfolding Multihash.decode
decode-Yields [] = fails
decode-Yields (b ∷ []) = fails
decode-Yields (b ∷ l ∷ hash) =
    Yields-bind (lookup b)
      λ t e. Yields-of (new_multihash t hash) λ m k. new_multihash-IsMultihash t hash m k

tagged_form :
    (bytes r1 r2 r3 : Bytes) (version codec : ℕ) (c : Codec) (hash : Multihash)
    → bytes ≡ put_uvarint version ++ r1
    → r1 ≡ put_uvarint codec ++ r2
    → r2 ≡ Multihash.to_bytes hash ++ r3
    → lookup_codec codec ≡ ok c
    → bytes ≡ to_bytes_v1 (record { version = version; codec = c; multihash = hash }) ++ r3
unfolding to_bytes_v1
tagged_form bytes r1 r2 r3 version codec c hash e1 e2 e3 e4 =
    let form = Multihash.to_bytes hash in
    rw (e1, e2, e3, code-lookup_codec codec c e4)
      (ap (λ x. put_uvarint version ++ x) (sym (append_assoc (put_uvarint (code c)) form r3))
        ∙ sym (append_assoc (put_uvarint version) (put_uvarint (code c) ++ form) r3))

cast_tagged-Yields : (bytes : Bytes) → IsBytes bytes → Yields (IsCast bytes) (cast_tagged bytes)
unfolding cast_tagged IsCast
cast_tagged-Yields bytes hb = Yields-bind (read_uvarint bytes) λ (version, r1) e1.
    let f1 = (put_uvarint-read_uvarint bytes version r1 hb e1).1 in
    let hb1 = All-right IsByte (put_uvarint version) r1 (rw f1 at hb) in
    Yields-if (not (version == 0) && not (version == 1)) (λ _. fails)
      λ low. Yields-bind (read_uvarint r1) λ (codec, r2) e2.
        let f2 = (put_uvarint-read_uvarint r1 codec r2 hb1 e2).1 in
        let hb2 = All-right IsByte (put_uvarint codec) r2 (rw f2 at hb1) in
        Yields-bind (Multihash.deserialize r2) λ (hash, r3) e3.
          Yields-bind (lookup_codec codec) λ c e4.
            let (hm, f3) = to_bytes-deserialize r2 hash r3 hb2 e3 in
            yields (
              hm,
              ground arith,
              λ _. (r3, tagged_form bytes r1 r2 r3 version codec c hash f1 f2 f3 e4),
            )

cast-Yields : (bytes : Bytes) → IsBytes bytes → Yields (IsCast bytes) (cast bytes)
unfolding cast IsCast build_v0
cast-Yields bytes hb =
    Yields-if (is_v0 bytes)
      (λ _. Yields-bind (Multihash.decode bytes) λ m e.
        yields (Yields-ok (decode-Yields bytes) e, omega arith, λ one. absurd (omega (arith, one))))
      (λ _. cast_tagged-Yields bytes hb)

-- What `cast` accepts from bytes has version 0 or 1 and a multihash that `Multihash::new` accepts,
-- and where the version is 1 the bytes begin with the byte form of the CID.
pub cast-IsForm :
    (bytes : Bytes) (c : Cid)
    → IsBytes bytes
    → cast bytes ≡ ok c
    → IsMultihash c.multihash
      × (c.version < 2)
      × (c.version ≡ 1 → (rest : Bytes) × (bytes ≡ to_bytes_v1 c ++ rest))
cast-IsForm bytes c hb e = unfold IsCast in Yields-ok (cast-Yields bytes hb) e
