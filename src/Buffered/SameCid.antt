-- ===== src/Buffered/SameCid.antt =====
-- crates/peergos-multiformats/src/lib.rs: the derived `==` of CIDs decides equality.
use rust_peergos_client.Common.{◌≡◌, refl, ap, sym, ◌∙◌, arith, true, ok}
use rust_peergos_client.Common.Equality.{eq_bytes, eq_bytes_refl, eq_bytes_sound}
use rust_peergos_client.Multiformats.Multihash.{MultihashType, index, lookup}
use rust_peergos_client.Multiformats.Multihash.RoundTrip.{lookup-index}
use rust_peergos_client.Multiformats.Cid.{
  Cid, Codec, code, lookup_codec, raw, dag_protobuf, dag_cbor, lib_p2p_key,
}
use rust_peergos_client.Champ.Equal.{eq_cid}

index_injective : (s t : MultihashType) → index s ≡ index t → s ≡ t
index_injective s t h = let same = sym (lookup-index s) ∙ (ap lookup h ∙ lookup-index t) in cc

lookup_codec-code : (c : Codec) → lookup_codec (code c) ≡ ok c
unfolding lookup_codec code
lookup_codec-code raw = refl
lookup_codec-code dag_protobuf = refl
lookup_codec-code dag_cbor = refl
lookup_codec-code lib_p2p_key = refl

code_injective : (c d : Codec) → code c ≡ code d → c ≡ d
code_injective c d h =
    let same = sym (lookup_codec-code c) ∙ (ap lookup_codec h ∙ lookup_codec-code d) in cc

pub eq_cid_refl : (a : Cid) → eq_cid a a ≡ true
unfolding eq_cid
eq_cid_refl a = ground (arith, eq_bytes_refl a.multihash.hash)

pub eq_cid_sound : (a b : Cid) → eq_cid a b ≡ true → a ≡ b
unfolding eq_cid
eq_cid_sound a b h =
    let version : a.version ≡ b.version = ground (arith, h) in
    let codec : code a.codec ≡ code b.codec = ground (arith, h) in
    let hash_type : index a.multihash.hash_type ≡ index b.multihash.hash_type = ground (arith, h) in
    let hash : eq_bytes a.multihash.hash b.multihash.hash ≡ true = ground (arith, h) in
    let same_codec = code_injective a.codec b.codec codec in
    let same_type = index_injective a.multihash.hash_type b.multihash.hash_type hash_type in
    let same_hash = eq_bytes_sound a.multihash.hash b.multihash.hash hash in
    λ i. record {
      version = version i;
      codec = same_codec i;
      multihash = record { hash_type = same_type i; hash = same_hash i };
    }
