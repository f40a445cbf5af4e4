-- ===== src/Champ/Tree.antt =====
-- crates/peergos-core/src/champ.rs: lookup and change of a tree of nodes in a block store, and the
-- handle `ChampWrapper`.
use rust_peergos_client.Common.{
  ℕ, zero, suc, ◌+◌, Option, none, some, List, [], ◌∷◌, ◌++◌, Bytes, get_elem?, if◌then◌else◌,
  Result, ok, err, ◌>>=◌, ok_or,
}
use rust_peergos_client.Cbor.Object.{CborObject}
use rust_peergos_client.Multiformats.Cid.{Cid}
use rust_peergos_client.Champ.Bitmap.{bit_get, get_index, mask}
use rust_peergos_client.Champ.Node.{
  KeyElement, Payload, mappings, link, Champ, ChampError, or_panic, link_index, key_count,
  out_of_fuel, expected_link, child_missing,
}
use rust_peergos_client.Champ.NodeCbor.{from_cbor, serialize}
use rust_peergos_client.Common.Equality.{eq_bytes}

-- The block store: `ContentAddressedStorage::get` and `put_block_signed`, with the owner, the writer
-- and the transaction of a call fixed. `S` is its state.
pub record Storage (S : Type 0) : Type 0 where
  pub get_block : S → Cid → Result ChampError (Option CborObject)
  pub put_block : S → Bytes → Result ChampError (S × Cid)

-- The position of a key in a bucket, with its value.
unfoldable pub find_key : Bytes → List KeyElement → Option (ℕ × Option CborObject)
find_key key [] = none
find_key key (m ∷ ms) =
    let later : Option (ℕ × Option CborObject) = elim (find_key key ms) [
      | none ↦ none
      | some (i, v) ↦ some (suc i, v)
    ] in
    if eq_bytes m.key key then some (0, m.value) else later

-- The value of a key in an inline slot, if there is one.
unfoldable pub value_in : Bytes → Payload → Option CborObject
value_in key (mappings ms) = elim (find_key key ms) [ none ↦ none | some (i, v) ↦ v ]
value_in key (link cid) = none

-- The link of the child slot of a hash.
unfoldable pub child_link : ℕ → Champ → Bytes → ℕ → Result ChampError Cid
child_link bit_width self hash depth = link_index self (mask hash depth bit_width) >>= λ index.
    or_panic (get_elem? self.contents index) >>= λ payload. elim payload [
      | link cid ↦ ok cid
      | mappings m ↦ err expected_link
    ]

module _ {S : Type 0} (storage : Storage S) (bit_width : ℕ) where
  unfoldable pub get_child : S → Champ → Bytes → ℕ → Result ChampError (Option Champ)
  get_child s self hash depth = child_link bit_width self hash depth >>= λ cid.
      storage.get_block s cid >>= λ block. elim block [
        | some cbor ↦ from_cbor cbor >>= λ child. ok (some child)
        | none ↦ ok none
      ]

  unfoldable pub get_child_with_hash : S → Champ → Bytes → ℕ → Result ChampError (Cid × Champ)
  get_child_with_hash s self hash depth = child_link bit_width self hash depth >>= λ cid.
      storage.get_block s cid >>= λ block.
      ok_or block child_missing >>= λ cbor. from_cbor cbor >>= λ child. ok (cid, child)

  unfoldable pub get : ℕ → S → Champ → Bytes → Bytes → ℕ → Result ChampError (Option CborObject)
  get zero s self key hash depth = err out_of_fuel
  get (suc fuel) s self key hash depth =
      let bitpos = mask hash depth bit_width in
      let below = λ (child : Champ). get fuel s child key hash (depth + 1) in
      if bit_get self.data_map bitpos
      then (or_panic (get_elem? self.contents (get_index self.data_map bitpos)) >>= λ payload.
          ok (value_in key payload))
      else if bit_get self.node_map bitpos
      then (get_child s self hash depth >>= λ found. elim found [
        | some child ↦ below child
        | none ↦ ok none
      ])
      else ok none

module _ {S : Type 0} (storage : Storage S) where
  unfoldable pub collect_contents :
      (S → Champ → Result ChampError (List KeyElement))
      → S
      → List Payload
      → Result ChampError (List KeyElement)
  collect_contents collect s [] = ok []
  collect_contents collect s (mappings ms ∷ rest) =
      collect_contents collect s rest >>= λ out. ok (ms ++ out)
  collect_contents collect s (link cid ∷ rest) = storage.get_block s cid >>= λ block.
      ok_or block child_missing >>= λ cbor. from_cbor cbor >>= λ child.
      collect s child >>= λ below. collect_contents collect s rest >>= λ out. ok (below ++ out)

  unfoldable pub collect_mappings : ℕ → S → Champ → Result ChampError (List KeyElement)
  collect_mappings zero s self = err out_of_fuel
  collect_mappings (suc fuel) s self = collect_contents (collect_mappings fuel) s self.contents

  unfoldable pub size_links :
      (S → Champ → Result ChampError ℕ) → S → List Payload → Result ChampError ℕ
  size_links size s [] = ok 0
  size_links size s (mappings ms ∷ rest) = size_links size s rest
  size_links size s (link cid ∷ rest) = storage.get_block s cid >>= λ block.
      ok_or block child_missing >>= λ cbor.
      from_cbor cbor >>= λ child. size s child >>= λ n. size_links size s rest >>= λ m. ok (n + m)

  unfoldable pub size : ℕ → S → Champ → Result ChampError ℕ
  size zero s self = err out_of_fuel
  size (suc fuel) s self =
      size_links (size fuel) s self.contents >>= λ n. ok (key_count self.contents + n)

  -- Writes a node; `put_block_signed` of its bytes.
  unfoldable pub write : S → Champ → Result ChampError (S × (Champ × Cid))
  write s champ =
      serialize champ >>= λ bytes. storage.put_block s bytes >>= λ (s', h). ok (s', (champ, h))
