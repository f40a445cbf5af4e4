-- ===== src/Champ/Write.antt =====
-- crates/peergos-core/src/champ.rs: `put` and `remove`, which write every changed node to the store.
-- The store is passed on; what it wrote before an error is not kept.
use rust_peergos_client.Common.{
  ℕ, zero, suc, ◌+◌, not, ◌&&◌, Option, none, some, List, [], ◌∷◌, ◌++◌, Bytes, length, get_elem?,
  if◌then◌else◌, ltb, leb, ◌==◌, Result, ok, err, ◌>>=◌, ok_or,
}
use rust_peergos_client.Cbor.Object.{CborObject}
use rust_peergos_client.Multiformats.Cid.{Cid}
use rust_peergos_client.Champ.Bitmap.{bit_set, bit_get, get_index, mask}
use rust_peergos_client.Champ.Node.{
  KeyElement, Payload, mappings, link, as_mappings, Champ, ChampError, or_panic, empty, with_bat,
  key_count, node_count, copy_and_set_value, insert_into_prefix, add_new_prefix,
  copy_and_migrate_from_inline_to_node, overwrite_child_link, remove_mapping, sort_by_key,
  copy_and_migrate_from_node_to_inline, out_of_fuel, expected_mappings, hash_collision, cas_failed,
  cas_failed_on_remove, key_not_present, empty_sub_node,
}
use rust_peergos_client.Common.Equality.{eq_bytes}
use rust_peergos_client.Champ.Equal.{eq_value, eq_cid}
use rust_peergos_client.Champ.Tree.{Storage, find_key, get_child_with_hash, write}

-- `HASH_CODE_LENGTH`.
abbrev pub hash_code_length : ℕ
hash_code_length = 32

-- All mappings of the inline slots whose key is another.
unfoldable pub without_key : Bytes → List KeyElement → List KeyElement
without_key key [] = []
without_key key (m ∷ ms) =
    let rest = without_key key ms in if eq_bytes m.key key then rest else m ∷ rest

unfoldable pub inline_mappings : List Payload → List KeyElement
inline_mappings [] = []
inline_mappings (mappings m ∷ rest) = m ++ inline_mappings rest
inline_mappings (link c ∷ rest) = inline_mappings rest

-- The node that is left when a child shrinks to one bucket.
unfoldable pub collapsed : Champ → Bytes → Bytes → ℕ → Champ
collapsed self key hash bit_width = record {
  data_map = bit_set [] (mask hash 0 bit_width);
  node_map = [];
  contents = mappings (sort_by_key (without_key key (inline_mappings self.contents))) ∷ [];
  mirror_bat = self.mirror_bat;
}

module _ {S : Type 0} (storage : Storage S) (bit_width max_collisions : ℕ)
    (key_hasher : Bytes → Bytes) where
  abbrev pub Written : Type 0
  Written = Result ChampError (S × (Champ × Cid))

  abbrev pub Putter : Type 0
  Putter = S → Champ → Bytes → Bytes → ℕ → Option CborObject → Option CborObject → Cid → Written

  -- Puts the mappings one after another.
  unfoldable pub put_all : Putter → ℕ → List KeyElement → S → Champ → Cid → Written
  put_all put depth [] s cur cur_hash = ok (s, (cur, cur_hash))
  put_all put depth (e ∷ es) s cur cur_hash =
      put s cur e.key (key_hasher e.key) depth none e.value cur_hash >>= λ (s', (c, h)).
      put_all put depth es s' c h

  unfoldable pub push_mappings_down_a_level :
      Putter → S → Champ → List KeyElement → Bytes → Bytes → Option CborObject → ℕ → Written
  push_mappings_down_a_level put s self ms key1 hash1 val1 depth =
      if leb hash_code_length depth
      then err hash_collision
      else (write storage s (with_bat empty self.mirror_bat) >>= λ (s1, (fresh, fresh_hash)).
          put s1 fresh key1 hash1 depth none val1 fresh_hash >>= λ (s2, (cur, cur_hash)).
          put_all put depth ms s2 cur cur_hash)

  -- The inline slot of the key, with `push` for a full one.
  unfoldable pub put_inline :
      (List KeyElement → Written)
      → S
      → Champ
      → ℕ
      → Bytes
      → Option CborObject
      → Option CborObject
      → Written
  put_inline push s self bitpos key expected value =
      let index = get_index self.data_map bitpos in
      or_panic (get_elem? self.contents index) >>= λ payload.
      ok_or (as_mappings payload) expected_mappings >>= λ ms. elim (find_key key ms) [
        | some (payload_index, old) ↦
            if eq_value old expected
            then (copy_and_set_value self index payload_index value >>= λ champ.
                write storage s champ)
            else err cas_failed
        | none ↦
            if ltb (length ms) max_collisions
            then (insert_into_prefix self index key value >>= λ champ. write storage s champ)
            else (push ms >>= λ (s', (child, child_hash)).
                copy_and_migrate_from_inline_to_node self bitpos child_hash >>= λ champ.
                write storage s' champ)
      ]

  unfoldable pub put :
      ℕ → S → Champ → Bytes → Bytes → ℕ → Option CborObject → Option CborObject → Cid → Written
  put zero s self key hash depth expected value our_hash = err out_of_fuel
  put (suc fuel) s self key hash depth expected value our_hash =
      let bitpos = mask hash depth bit_width in
      let push = λ (ms : List KeyElement).
        push_mappings_down_a_level (put fuel) s self ms key hash value (depth + 1) in
      let below = λ (child_hash : Cid) (child : Champ).
        put fuel s child key hash (depth + 1) expected value child_hash in
      if bit_get self.data_map bitpos
      then put_inline push s self bitpos key expected value
      else if bit_get self.node_map bitpos
      then (get_child_with_hash storage bit_width s self hash depth >>= λ (child_hash, child).
          below child_hash child >>= λ (s', (new_child, new_child_hash)).
          if eq_cid new_child_hash child_hash
          then ok (s', (self, our_hash))
          else (overwrite_child_link self bitpos new_child_hash >>= λ champ.
              write storage s' champ))
      else (add_new_prefix self bitpos key value >>= λ champ. write storage s champ)

  unfoldable pub remove_inline : S → Champ → ℕ → Bytes → Bytes → ℕ → Option CborObject → Written
  remove_inline s self bitpos key hash depth expected =
      or_panic (get_elem? self.contents (get_index self.data_map bitpos)) >>= λ payload.
      ok_or (as_mappings payload) expected_mappings >>= λ ms. elim (find_key key ms) [
        | none ↦ err key_not_present
        | some (payload_index, old) ↦
            if not (eq_value old expected)
            then err cas_failed_on_remove
            else ((if key_count self.contents == max_collisions + 1
                    && (node_count self.contents == 0 && ltb 0 depth)
                  then ok (collapsed self key hash bit_width)
                  else remove_mapping self bitpos payload_index)
                >>= λ champ. write storage s champ)
      ]

  -- What becomes of a node whose child changed.
  unfoldable pub shrink : S → Champ → ℕ → Champ → Cid → Written
  shrink s self bitpos new_child new_child_hash =
      if length new_child.contents == 0
      then err empty_sub_node
      else if node_count new_child.contents == 0 && key_count new_child.contents == max_collisions
      then (if key_count self.contents == 0 && node_count self.contents == 1
          then ok (s, (new_child, new_child_hash))
          else (copy_and_migrate_from_node_to_inline self bitpos new_child >>= λ champ.
              write storage s champ))
      else (overwrite_child_link self bitpos new_child_hash >>= λ champ. write storage s champ)

  unfoldable pub remove : ℕ → S → Champ → Bytes → Bytes → ℕ → Option CborObject → Cid → Written
  remove zero s self key hash depth expected our_hash = err out_of_fuel
  remove (suc fuel) s self key hash depth expected our_hash =
      let bitpos = mask hash depth bit_width in
      let below = λ (child_hash : Cid) (child : Champ).
        remove fuel s child key hash (depth + 1) expected child_hash in
      if bit_get self.data_map bitpos
      then remove_inline s self bitpos key hash depth expected
      else if bit_get self.node_map bitpos
      then (get_child_with_hash storage bit_width s self hash depth >>= λ (child_hash, child).
          below child_hash child >>= λ (s', (new_child, new_child_hash)).
          if eq_cid new_child_hash child_hash
          then ok (s', (self, our_hash))
          else shrink s' self bitpos new_child new_child_hash)
      else ok (s, (self, our_hash))
