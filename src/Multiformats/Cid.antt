-- ===== src/Multiformats/Cid.antt =====
-- crates/peergos-multiformats/src/lib.rs: `Codec` and `Cid` in their byte forms.
pub mod RoundTrip
use rust_peergos_client.Common.{
  ℕ, ◌≡◌, Bool, true, false, not, ◌&&◌, Option, none, some, [], ◌∷◌, ◌++◌, Bytes, length, ◌==◌,
  if◌then◌else◌, get_elem?, Result, ok, err, ◌>>=◌,
}
use rust_peergos_client.Multiformats.Error.{MfError, unknown_codec_type, invalid_cid_version}
use rust_peergos_client.Multiformats.Varint.{put_uvarint, read_uvarint}
use rust_peergos_client.Multiformats.Multihash
use rust_peergos_client.Multiformats.Multihash.{MultihashType, Multihash, new_multihash}

pub data Codec : Type 0 where
  raw dag_protobuf dag_cbor lib_p2p_key : Codec

unfoldable pub code : Codec → ℕ
code raw = 0x55
code dag_protobuf = 0x70
code dag_cbor = 0x71
code lib_p2p_key = 0x72

unfoldable pub lookup_codec : ℕ → Result MfError Codec
lookup_codec c =
    if c == 0x55
    then ok raw
    else if c == 0x70
    then ok dag_protobuf
    else if c == 0x71
    then ok dag_cbor
    else if c == 0x72
    then ok lib_p2p_key
    else err (unknown_codec_type c)

pub record Cid : Type 0 where
  pub version : ℕ
  pub codec : Codec
  pub multihash : Multihash

-- `Cid::new`, `build`, `build_v0` and `build_v1`.
unfoldable pub new_cid : ℕ → Codec → MultihashType → Bytes → Result MfError Cid
new_cid version codec hash_type hash = do
  m ← new_multihash hash_type hash
  ok (record { version = version; codec = codec; multihash = m })

unfoldable pub build : ℕ → Codec → Multihash → Cid
build version codec h = record { version = version; codec = codec; multihash = h }

unfoldable pub build_v0 : Multihash → Cid
unfolding build
build_v0 h = build 0 dag_protobuf h

unfoldable pub build_v1 : Codec → MultihashType → Bytes → Result MfError Cid
unfolding new_cid
build_v1 codec hash_type hash = new_cid 1 codec hash_type hash

unfoldable pub to_bytes_v1 : Cid → Bytes
to_bytes_v1 c =
    put_uvarint c.version ++ (put_uvarint (code c.codec) ++ Multihash.to_bytes c.multihash)

-- `none` is the panic on an unknown version.
unfoldable pub to_bytes : Cid → Option Bytes
to_bytes c =
    if c.version == 0
    then some (Multihash.to_bytes c.multihash)
    else if c.version == 1
    then some (to_bytes_v1 c)
    else none

-- `data[i] == n` for an index in range.
abbrev byte_is : Bytes → ℕ → ℕ → Bool
byte_is bytes i n = elim (get_elem? bytes i) [ none ↦ false | some b ↦ b == n ]

-- The bare form of a sha2-256 multihash, which is the whole of a version 0 CID.
unfoldable pub is_v0 : Bytes → Bool
is_v0 bytes = length bytes == 34 && (byte_is bytes 0 18 && byte_is bytes 1 32)

-- Past the version 0 form the bytes behind the multihash are not looked at.
unfoldable pub cast_tagged : Bytes → Result MfError Cid
cast_tagged bytes = do
  (version, r1) ← read_uvarint bytes
  if not (version == 0) && not (version == 1) then err (invalid_cid_version version) else (do
    (codec, r2) ← read_uvarint r1
    (hash, r3) ← Multihash.deserialize r2
    c ← lookup_codec codec
    ok (record { version = version; codec = c; multihash = hash }))

unfoldable pub cast : Bytes → Result MfError Cid
cast bytes =
    if is_v0 bytes then (do h ← Multihash.decode bytes; ok (build_v0 h)) else cast_tagged bytes
