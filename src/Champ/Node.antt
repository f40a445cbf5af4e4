-- ===== src/Champ/Node.antt =====
-- crates/peergos-core/src/champ.rs: a node and its changes, each of which makes a new node.
use rust_peergos_client.Common.{
  ℕ, zero, suc, ◌+◌, ◌-◌, Bool, true, false, Option, none, some, List, [], ◌∷◌, ◌++◌, Bytes, length,
  get_elem?, Ordering, if◌then◌else◌, ltb, ◌==◌, Result, ok, err, ◌>>=◌, ok_or,
}
use rust_peergos_client.Cbor.Object.{CborObject}
use rust_peergos_client.Multiformats.Cid.{Cid}
use rust_peergos_client.Multiformats.Error.{MfError}
use rust_peergos_client.Champ.Bitmap.{byte_array_compare, bit_set, bit_clear, get_index, update_at}

pub record KeyElement : Type 0 where
  pub key : Bytes
  pub value : Option CborObject

pub data Payload : Type 0 where
  mappings : List KeyElement → Payload
  link : Cid → Payload

unfoldable pub is_shard : Payload → Bool
is_shard (link c) = true
is_shard (mappings m) = false

unfoldable pub as_mappings : Payload → Option (List KeyElement)
as_mappings (mappings m) = some m
as_mappings (link c) = none

-- `BatId` of crates/peergos-core/src/auth.rs.
pub record BatId : Type 0 where
  pub id : Cid

pub record Champ : Type 0 where
  pub data_map : Bytes
  pub node_map : Bytes
  pub contents : List Payload
  pub mirror_bat : Option BatId

-- The errors, with a constructor for each message; `panicked` is an index out of range.
pub data ChampError : Type 0 where
  panicked out_of_fuel : ChampError
  expected_link expected_mappings child_missing hash_collision : ChampError
  cas_failed cas_failed_on_remove key_not_present empty_sub_node : ChampError
  storage_failed bad_block : ChampError
  bad_cid : MfError → ChampError
  map_without_d not_a_list fewer_than_three not_a_champ node_map_not_bytes : ChampError
  contents_not_list odd_mappings key_not_bytes bad_content bad_bat_id : ChampError

-- `xs.remove(i)`, `xs.insert(i, x)` and `xs[i] = x`, which panic out of range.
unfoldable pub remove_at {ℓ} : {A : Type ℓ} → ℕ → List A → Option (List A)
remove_at i [] = none
remove_at zero (x ∷ xs) = some xs
remove_at (suc i) (x ∷ xs) = elim (remove_at i xs) [ none ↦ none | some ys ↦ some (x ∷ ys) ]

unfoldable pub insert_at {ℓ} : {A : Type ℓ} → ℕ → A → List A → Option (List A)
insert_at zero y xs = some (y ∷ xs)
insert_at (suc i) y [] = none
insert_at (suc i) y (x ∷ xs) = elim (insert_at i y xs) [ none ↦ none | some ys ↦ some (x ∷ ys) ]

unfoldable pub set_at {ℓ} : {A : Type ℓ} → ℕ → A → List A → Option (List A)
set_at i y [] = none
set_at zero y (x ∷ xs) = some (y ∷ xs)
set_at (suc i) y (x ∷ xs) = elim (set_at i y xs) [ none ↦ none | some ys ↦ some (x ∷ ys) ]

abbrev pub or_panic {ℓ} : {A : Type ℓ} → Option A → Result ChampError A
or_panic o = ok_or o panicked

-- `sort_by`, which is stable.
unfoldable pub insert_sorted : KeyElement → List KeyElement → List KeyElement
insert_sorted e [] = e ∷ []
insert_sorted e (f ∷ fs) = elim (byte_array_compare e.key f.key) [
  | Ordering.gt ↦ f ∷ insert_sorted e fs
  | other ↦ e ∷ f ∷ fs
]

unfoldable pub sort_by_key : List KeyElement → List KeyElement
sort_by_key [] = []
sort_by_key (e ∷ es) = insert_sorted e (sort_by_key es)

unfoldable pub empty : Champ
empty = record { data_map = []; node_map = []; contents = []; mirror_bat = none }

unfoldable pub with_bat : Champ → Option BatId → Champ
with_bat self bat = record {
  data_map = self.data_map;
  node_map = self.node_map;
  contents = self.contents;
  mirror_bat = bat;
}

unfoldable pub with_contents : Champ → Bytes → Bytes → List Payload → Champ
with_contents self new_data_map new_node_map new_contents = record {
  data_map = new_data_map;
  node_map = new_node_map;
  contents = new_contents;
  mirror_bat = self.mirror_bat;
}

-- `self.contents.len() - 1 - get_index(&self.node_map, bitpos)`; out of range it is a panic.
unfoldable pub link_index : Champ → ℕ → Result ChampError ℕ
link_index self bitpos =
    let i = get_index self.node_map bitpos in
    if ltb i (length self.contents) then ok (length self.contents - 1 - i) else err panicked

unfoldable pub key_count : List Payload → ℕ
key_count [] = 0
key_count (mappings m ∷ contents) = length m + key_count contents
key_count (link c ∷ contents) = key_count contents

unfoldable pub node_count : List Payload → ℕ
node_count [] = 0
node_count (p ∷ contents) = (if is_shard p then 1 else 0) + node_count contents

unfoldable pub set_value : Option CborObject → KeyElement → KeyElement
set_value val e = record { key = e.key; value = val }

unfoldable pub copy_and_set_value : Champ → ℕ → ℕ → Option CborObject → Result ChampError Champ
copy_and_set_value self set_index payload_index val =
    or_panic (get_elem? self.contents set_index) >>= λ payload. elim payload [
      | mappings ms ↦
          if ltb payload_index (length ms)
          then (or_panic (
                set_at set_index (mappings (update_at (set_value val) payload_index ms))
                  self.contents)
              >>= λ dst. ok (with_contents self self.data_map self.node_map dst))
          else err panicked
      | link c ↦ ok (with_contents self self.data_map self.node_map self.contents)
    ]

unfoldable pub insert_into_prefix : Champ → ℕ → Bytes → Option CborObject → Result ChampError Champ
insert_into_prefix self index k val = or_panic (get_elem? self.contents index) >>= λ payload.
    elim payload [
      | mappings ms ↦
          or_panic (
            set_at index (mappings (sort_by_key (ms ++ (record { key = k; value = val } ∷ []))))
              self.contents)
          >>= λ result. ok (with_contents self self.data_map self.node_map result)
      | link c ↦ ok (with_contents self self.data_map self.node_map self.contents)
    ]

unfoldable pub add_new_prefix : Champ → ℕ → Bytes → Option CborObject → Result ChampError Champ
add_new_prefix self bitpos k val =
    or_panic (
      insert_at (get_index self.data_map bitpos) (mappings (record { key = k; value = val } ∷ []))
        self.contents)
    >>= λ result. ok (with_contents self (bit_set self.data_map bitpos) self.node_map result)

unfoldable pub copy_and_migrate_from_inline_to_node : Champ → ℕ → Cid → Result ChampError Champ
copy_and_migrate_from_inline_to_node self bitpos node_hash = link_index self bitpos >>= λ new_index.
    or_panic (remove_at (get_index self.data_map bitpos) self.contents) >>= λ dst.
    or_panic (insert_at new_index (link node_hash) dst) >>= λ dst.
    ok (with_contents self (bit_clear self.data_map bitpos) (bit_set self.node_map bitpos) dst)

unfoldable pub overwrite_child_link : Champ → ℕ → Cid → Result ChampError Champ
overwrite_child_link self bitpos node_hash = link_index self bitpos >>= λ set_index.
    or_panic (set_at set_index (link node_hash) self.contents) >>= λ dst.
    ok (with_contents self self.data_map self.node_map dst)

unfoldable pub remove_mapping : Champ → ℕ → ℕ → Result ChampError Champ
remove_mapping self bitpos payload_index =
    let data_index = get_index self.data_map bitpos in
    or_panic (get_elem? self.contents data_index) >>= λ payload. elim payload [
      | mappings m ↦
          if length m == 1
          then (or_panic (remove_at data_index self.contents) >>= λ dst.
              ok (with_contents self (bit_clear self.data_map bitpos) self.node_map dst))
          else (or_panic (remove_at payload_index m) >>= λ remaining.
              or_panic (set_at data_index (mappings remaining) self.contents) >>= λ dst.
              ok (with_contents self self.data_map self.node_map dst))
      | link c ↦ ok (with_contents self self.data_map self.node_map self.contents)
    ]

-- The mappings of the first slot, if it is inline: `first().and_then(..).unwrap_or_default()`.
unfoldable pub first_bucket : List Payload → List KeyElement
first_bucket [] = []
first_bucket (mappings m ∷ rest) = m
first_bucket (link c ∷ rest) = []

unfoldable pub copy_and_migrate_from_node_to_inline : Champ → ℕ → Champ → Result ChampError Champ
copy_and_migrate_from_node_to_inline self bitpos node = link_index self bitpos >>= λ old_index.
    or_panic (remove_at old_index self.contents) >>= λ dst.
    or_panic
      (insert_at (get_index self.data_map bitpos) (mappings (first_bucket node.contents)) dst)
    >>= λ dst.
        ok (with_contents self (bit_set self.data_map bitpos) (bit_clear self.node_map bitpos) dst)
