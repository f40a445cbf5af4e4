-- ===== src/Champ/NodeCbor.antt =====
-- crates/peergos-core/src/champ.rs: the CBOR form of a node, with the one of `BatId` in auth.rs.
use rust_peergos_client.Common.{
  ◌%◌, Option, none, some, List, [], ◌∷◌, Bytes, Result, ok, err, ◌>>=◌, ok_or, if◌then◌else◌, ◌==◌,
}
use rust_peergos_client.Cbor.Object.{
  CborObject, Objects, no_items, item, list, map, byte_string, merkle_link, null, no_entries,
  as_bytes, as_list,
}
use rust_peergos_client.Cbor.BtreeMap.{get, put, build}
use rust_peergos_client.Cbor.Encode.{count}
use rust_peergos_client.Cbor.Encode
use rust_peergos_client.Common.Text.{Text}
use rust_peergos_client.Multiformats.Cid.{Cid, cast, to_bytes}
use rust_peergos_client.Champ.Node.{
  KeyElement, Payload, mappings, link, BatId, Champ, ChampError, or_panic, with_bat, bad_cid,
  map_without_d, not_a_list, fewer_than_three, not_a_champ, node_map_not_bytes, contents_not_list,
  odd_mappings, key_not_bytes, bad_content, bad_bat_id,
}

abbrev pub bats : Text
bats = b'b' ∷ b'a' ∷ b't' ∷ b's' ∷ []

abbrev pub d_key : Text
d_key = b'd' ∷ []

-- The `?` of a `Cid::cast`.
unfoldable pub cast_cid : Bytes → Result ChampError Cid
cast_cid bytes = elim (cast bytes) [ ok c ↦ ok c | err e ↦ err (bad_cid e) ]

unfoldable pub bat_id_from_cbor : CborObject → Result ChampError BatId
bat_id_from_cbor cbor =
    ok_or (as_bytes cbor) bad_bat_id >>= λ bytes. cast_cid bytes >>= λ c. ok record { id = c }

unfoldable pub bat_id_to_cbor : BatId → Result ChampError CborObject
bat_id_to_cbor self = or_panic (to_bytes self.id) >>= λ bytes. ok (byte_string bytes)

abbrev pub value_of : CborObject → Option CborObject
value_of null = none
value_of v = some v

abbrev pub value_or_null : Option CborObject → CborObject
value_or_null none = null
value_or_null (some v) = v

-- The pairs of a slot; an odd number of elements is refused before any of them is read.
unfoldable pub read_pairs : Objects → Result ChampError (List KeyElement)
read_pairs no_items = ok []
read_pairs (item k no_items) = err odd_mappings
read_pairs (item k (item v rest)) = ok_or (as_bytes k) key_not_bytes >>= λ bytes.
    read_pairs rest >>= λ es. ok (record { key = bytes; value = value_of v } ∷ es)

unfoldable pub read_payload : CborObject → Result ChampError Payload
read_payload (list mappings_cbor) =
    if count mappings_cbor % 2 == 0
    then (read_pairs mappings_cbor >>= λ ms. ok (mappings ms))
    else err odd_mappings
read_payload (merkle_link cid_bytes) = cast_cid cid_bytes >>= λ c. ok (link c)
read_payload other = err bad_content

unfoldable pub read_contents : Objects → Result ChampError (List Payload)
read_contents no_items = ok []
read_contents (item element rest) =
    read_payload element >>= λ p. read_contents rest >>= λ ps. ok (p ∷ ps)

unfoldable pub read_three : CborObject → CborObject → CborObject → Result ChampError Champ
read_three first second third = ok_or (as_bytes first) not_a_champ >>= λ data_map.
    ok_or (as_bytes second) node_map_not_bytes >>= λ node_map.
    ok_or (as_list third) contents_not_list >>= λ contents_cbor.
    read_contents contents_cbor >>= λ contents.
    ok record { data_map = data_map; node_map = node_map; contents = contents; mirror_bat = none }

unfoldable pub read_list : Objects → Result ChampError Champ
read_list (item first (item second (item third rest))) = read_three first second third
read_list few = err fewer_than_three

unfoldable pub from_cbor_list : CborObject → Result ChampError Champ
from_cbor_list cbor = ok_or (as_list cbor) not_a_list >>= read_list

-- `cbor.get(bats).and_then(as_list).and_then(first).map(BatId::from_cbor).transpose()`.
unfoldable pub first_bat : Option CborObject → Result ChampError (Option BatId)
first_bat (some (list (item b rest))) = bat_id_from_cbor b >>= λ bat. ok (some bat)
first_bat other = ok none

unfoldable pub from_cbor : CborObject → Result ChampError Champ
from_cbor (map m) = first_bat (get bats (map m)) >>= λ mirror_bat.
    ok_or (get d_key (map m)) map_without_d >>= λ d.
    from_cbor_list d >>= λ champ. ok (with_bat champ mirror_bat)
from_cbor cbor = from_cbor_list cbor

unfoldable pub write_pairs : List KeyElement → Objects
write_pairs [] = no_items
write_pairs (m ∷ ms) = item (byte_string m.key) (item (value_or_null m.value) (write_pairs ms))

unfoldable pub write_payload : Payload → Result ChampError CborObject
write_payload (link cid) = or_panic (to_bytes cid) >>= λ bytes. ok (merkle_link bytes)
write_payload (mappings ms) = ok (list (write_pairs ms))

unfoldable pub write_contents : List Payload → Result ChampError Objects
write_contents [] = ok no_items
write_contents (p ∷ ps) = write_payload p >>= λ o. write_contents ps >>= λ os. ok (item o os)

unfoldable pub to_cbor_list : Champ → Result ChampError CborObject
to_cbor_list self = write_contents self.contents >>= λ contents. ok (
    list (
      item (byte_string self.data_map)
        (item (byte_string self.node_map) (item (list contents) no_items))))

unfoldable pub to_cbor : Champ → Result ChampError CborObject
to_cbor self = elim self.mirror_bat [
  | some bat ↦ to_cbor_list self >>= λ d. bat_id_to_cbor bat >>= λ b.
      ok (build (put bats (list (item b no_items)) (put d_key d no_entries)))
  | none ↦ to_cbor_list self
]

-- `serialize`.
unfoldable pub serialize : Champ → Result ChampError Bytes
serialize self = to_cbor self >>= λ cbor. ok (Encode.to_bytes cbor)
