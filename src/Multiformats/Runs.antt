-- ===== src/Multiformats/Runs.antt =====
-- Runs of the varint, multihash and CID codecs, and the theorems at concrete inputs.
use rust_peergos_client.Common.{ℕ, ◌^◌, ◌<◌, ◌≡◌, refl, arith, [], ◌∷◌, ◌++◌, Bytes, ok, err}
use rust_peergos_client.Multiformats.Error.{non_minimal_varint}
use rust_peergos_client.Multiformats.Varint.{put_uvarint, read_uvarint}
use rust_peergos_client.Multiformats.Varint.RoundTrip.{read_uvarint-put_uvarint}
use rust_peergos_client.Multiformats.Varint.Minimal.{put_uvarint-read_uvarint}
use rust_peergos_client.Multiformats.Multihash
use rust_peergos_client.Multiformats.Multihash.{Multihash, id, new_multihash, lookup, hash_length}
use rust_peergos_client.Multiformats.Multihash.RoundTrip.{IsMultihash, to_bytes-deserialize}
use rust_peergos_client.Multiformats.Cid.{
  Cid, raw, to_bytes, to_bytes_v1, cast, cast_tagged, is_v0, lookup_codec,
}
use rust_peergos_client.Multiformats.Cid.RoundTrip.{cast-IsForm}

put_300 : put_uvarint 300 ≡ 0xac ∷ 0x02 ∷ []
unfolding put_uvarint
put_300 = refl

read_300 : read_uvarint (0xac ∷ 0x02 ∷ 7 ∷ []) ≡ ok (300, 7 ∷ [])
unfolding read_uvarint
read_300 = refl

read_padded : read_uvarint (0x80 ∷ 0x00 ∷ []) ≡ err non_minimal_varint
unfolding read_uvarint
read_padded = refl

-- An identity multihash of two bytes, and its CID.
abbrev two : Multihash
two = record { hash_type = id; hash = 5 ∷ 6 ∷ [] }

abbrev two_cid : Cid
two_cid = record { version = 1; codec = raw; multihash = two }

two_bytes_form : Multihash.to_bytes two ≡ 0 ∷ 2 ∷ 5 ∷ 6 ∷ []
unfolding Multihash.to_bytes put_uvarint
two_bytes_form = refl

read_two : Multihash.deserialize (0 ∷ 2 ∷ 5 ∷ 6 ∷ 9 ∷ []) ≡ ok (two, 9 ∷ [])
unfolding Multihash.deserialize read_uvarint lookup new_multihash
read_two = refl

cast_two : cast (1 ∷ 0x55 ∷ 0 ∷ 2 ∷ 5 ∷ 6 ∷ []) ≡ ok two_cid
unfolding cast is_v0 cast_tagged Multihash.deserialize read_uvarint lookup new_multihash
    lookup_codec
cast_two = refl

read_uvarint-put_uvarint_example : read_uvarint (put_uvarint 300 ++ 9 ∷ []) ≡ ok (300, 9 ∷ [])
read_uvarint-put_uvarint_example = read_uvarint-put_uvarint 300 (9 ∷ []) (omega arith)

put_uvarint-read_uvarint_example :
    (300 < 2 ^ 64) × (0xac ∷ 0x02 ∷ 7 ∷ [] ≡ put_uvarint 300 ++ (7 ∷ []))
put_uvarint-read_uvarint_example =
    put_uvarint-read_uvarint (0xac ∷ 0x02 ∷ 7 ∷ []) 300 (7 ∷ []) (omega arith) read_300

to_bytes-deserialize_example :
    IsMultihash two × (0 ∷ 2 ∷ 5 ∷ 6 ∷ 9 ∷ [] ≡ Multihash.to_bytes two ++ 9 ∷ [])
to_bytes-deserialize_example =
    to_bytes-deserialize (0 ∷ 2 ∷ 5 ∷ 6 ∷ 9 ∷ []) two (9 ∷ []) (omega arith) read_two

cast-IsForm_example :
    IsMultihash two
    × (1 < 2)
    × (◌≡◌ {A = ℕ} 1 1
        → (rest : Bytes) × (1 ∷ 0x55 ∷ 0 ∷ 2 ∷ 5 ∷ 6 ∷ [] ≡ to_bytes_v1 two_cid ++ rest))
cast-IsForm_example = cast-IsForm (1 ∷ 0x55 ∷ 0 ∷ 2 ∷ 5 ∷ 6 ∷ []) two_cid (omega arith) cast_two
