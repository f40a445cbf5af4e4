-- ===== src/Multiformats/Text.antt =====
-- crates/peergos-multiformats/src/lib.rs: multihashes and CIDs as texts.
pub mod RoundTrip
use rust_peergos_client.Common.{
  ℕ, ◌+◌, ◌%◌, compare, Ordering, Bytes, ◌&&◌, Bool, true, false, Option, none, some, [], ◌∷◌,
  length, ltb, ◌==◌, if◌then◌else◌, Result, ok, err, ◌>>=◌,
}
use rust_peergos_client.Common.Text.{Text}
use rust_peergos_client.Multiformats.Error.{MfError, cid_too_short}
use rust_peergos_client.Multiformats.Multihash
use rust_peergos_client.Multiformats.Multihash.{Multihash, index}
use rust_peergos_client.Multiformats.Cid.{Cid, lib_p2p_key, build_v0, to_bytes_v1, to_bytes, cast}
use rust_peergos_client.Multiformats.Bases.{base58_encode, base58_decode}
use rust_peergos_client.Multiformats.Multibase.{multibase_encode_base58btc, multibase_decode}

-- `Multihash::to_base58`, which is its `Display` form too, and `Multihash::from_base58`.
unfoldable pub multihash_to_base58 : Multihash → Option Text
multihash_to_base58 self = base58_encode (Multihash.to_bytes self)

unfoldable pub from_base58 : Text → Result MfError Multihash
from_base58 base58 = base58_decode base58 >>= Multihash.decode

-- `Cid::to_base58`; `none` is a panic here and below.
unfoldable pub to_base58 : Cid → Option Text
to_base58 self = elim (to_bytes self) [ none ↦ none | some bytes ↦ base58_encode bytes ]

-- `Display` of a CID.
unfoldable pub cid_to_string : Cid → Option Text
unfolding multihash_to_base58
cid_to_string self =
    if self.version == 0
    then multihash_to_base58 self.multihash
    else if self.version == 1
    then multibase_encode_base58btc (to_bytes_v1 self)
    else none

unfoldable pub starts_with_qm : Text → Bool
starts_with_qm (c ∷ d ∷ text) = c == b'Q' && d == b'm'
starts_with_qm text = false

-- `Cid::decode`.
unfoldable pub decode_cid : Text → Result MfError Cid
unfolding from_base58 starts_with_qm
decode_cid v =
    if ltb (length v) 2
    then err cid_too_short
    else if length v == 46 && starts_with_qm v
    then (from_base58 v >>= λ h. ok (build_v0 h))
    else (multibase_decode v >>= cast)

unfoldable pub starts_with_1 : Text → Bool
starts_with_1 [] = false
starts_with_1 (c ∷ text) = c == b'1'

unfoldable pub decode_peer_id : Text → Result MfError Cid
unfolding decode_cid starts_with_1
decode_peer_id peer_id =
    if starts_with_1 peer_id
    then (from_base58 peer_id >>= λ hash.
        ok record { version = 1; codec = lib_p2p_key; multihash = hash })
    else decode_cid peer_id

-- `(*a as i8).cmp(&(*b as i8))`, moved by 128.
unfoldable pub cmp_i8 : ℕ → ℕ → Ordering
cmp_i8 a b = compare ((a + 128) % 256) ((b + 128) % 256)

unfoldable pub cmp_hash : Bytes → Bytes → Ordering
unfolding cmp_i8
cmp_hash (a ∷ x) (b ∷ y) = elim (cmp_i8 a b) [ Ordering.eq ↦ cmp_hash x y | c ↦ c ]
cmp_hash _ _ = Ordering.eq

-- `Multihash::cmp`.
unfoldable pub cmp_multihash : Multihash → Multihash → Ordering
unfolding cmp_hash
cmp_multihash self other = elim (compare (length self.hash) (length other.hash)) [
  | Ordering.eq ↦ elim (cmp_hash self.hash other.hash) [
    | Ordering.eq ↦ compare (index self.hash_type) (index other.hash_type)
    | c ↦ c
  ]
  | c ↦ c
]
