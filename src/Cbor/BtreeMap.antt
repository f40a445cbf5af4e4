-- ===== src/Cbor/BtreeMap.antt =====
-- `BTreeMap<CborString, CborObject>` and the map builder of crates/peergos-cbor/src/lib.rs.
use rust_peergos_client.Common.{ℕ, suc, Option, none, some, Ordering}
use rust_peergos_client.Common.Text.{Text}
use rust_peergos_client.Cbor.Object.{
  CborString, new_cbor_string, cmp_cbor_string, CborObject, map, Entries, no_entries, entry, as_map,
}

-- `insert`: where the order finds an equal key, the value is replaced and the key kept.
unfoldable pub insert : CborString → CborObject → Entries → Entries
insert k v no_entries = entry k v no_entries
insert k v (entry j w m) = elim (cmp_cbor_string k j) [
  | Ordering.lt ↦ entry k v (entry j w m)
  | Ordering.eq ↦ entry j v m
  | Ordering.gt ↦ entry j w (insert k v m)
]

unfoldable pub lookup : CborString → Entries → Option CborObject
lookup k no_entries = none
lookup k (entry j w m) = elim (cmp_cbor_string k j) [
  | Ordering.lt ↦ none
  | Ordering.eq ↦ some w
  | Ordering.gt ↦ lookup k m
]

unfoldable pub len : Entries → ℕ
len no_entries = 0
len (entry k v m) = suc (len m)

-- `CborObject::get`.
unfoldable pub get : Text → CborObject → Option CborObject
unfolding as_map new_cbor_string
get key c = elim (as_map c) [ none ↦ none | some m ↦ lookup (new_cbor_string key) m ]

-- `CborMapBuilder`: `put`, `put_opt` and `build`.
unfoldable pub put : Text → CborObject → Entries → Entries
unfolding new_cbor_string
put key value m = insert (new_cbor_string key) value m

unfoldable pub put_opt : Text → Option CborObject → Entries → Entries
unfolding put
put_opt key none m = m
put_opt key (some v) m = put key v m

unfoldable pub build : Entries → CborObject
build m = map m
