-- ===== src/Champ/PutGet.antt =====
-- crates/peergos-core/src/champ.rs: what `put` stored in an inline slot, `get` finds.
use rust_peergos_client.Common.{
  ℕ, zero, suc, ◌+◌, ◌≡◌, refl, true, Option, none, some, List, Bytes, IsBytes, length, get_elem?,
  if◌then◌else◌, ltb, Result, ok, err, ◌>>=◌, ok_or, Yields, yields, fails, Yields-bind, Yields-if,
  Yields-ok,
}
use rust_peergos_client.Cbor.Object.{CborObject}
use rust_peergos_client.Multiformats.Cid.{Cid}
use rust_peergos_client.Champ.Equal.{eq_value, eq_cid}
use rust_peergos_client.Champ.Bitmap.{bit_get, get_index, mask}
use rust_peergos_client.Champ.Node.{
  KeyElement, mappings, link, as_mappings, Champ, ChampError, or_panic, copy_and_set_value,
  insert_into_prefix, add_new_prefix, copy_and_migrate_from_inline_to_node, overwrite_child_link,
  cas_failed, expected_mappings,
}
use rust_peergos_client.Champ.Tree.{Storage, find_key, get, get_child_with_hash, write}
use rust_peergos_client.Champ.Write.{put, put_inline, push_mappings_down_a_level}
use rust_peergos_client.Champ.Gives.{
  Gives, or_panic-ok, copy_and_set_value-Gives, insert_into_prefix-Gives, add_new_prefix-Gives,
  migrate-Gives, overwrite-Gives, changed-Yields,
}

module _ {S : Type 0} (storage : Storage S) (bit_width max_collisions : ℕ)
    (key_hasher : Bytes → Bytes) where
  slot-Gives :
      (push : List KeyElement → Result ChampError (S × (Champ × Cid))) (s : S) (self : Champ)
      (bitpos : ℕ) (key : Bytes) (expected v : Option CborObject) (ms : List KeyElement)
      (place : Option (ℕ × Option CborObject))
      → IsBytes self.data_map
      → get_elem? self.contents (get_index self.data_map bitpos) ≡ some (mappings ms)
      → find_key key ms ≡ place
      → Yields
          (λ (t : S × (Champ × Cid)). Gives key bitpos v t.1.0)
          (elim place [
            | some (payload_index, old) ↦
                if eq_value old expected
                then (copy_and_set_value self (get_index self.data_map bitpos) payload_index v
                    >>= λ champ. write storage s champ)
                else err cas_failed
            | none ↦
                if ltb (length ms) max_collisions
                then (insert_into_prefix self (get_index self.data_map bitpos) key v >>= λ champ.
                    write storage s champ)
                else (push ms >>= λ (s', (child, child_hash)).
                    copy_and_migrate_from_inline_to_node self bitpos child_hash >>= λ champ.
                    write storage s' champ)
          ])
  slot-Gives push s self bitpos key expected v ms (some (i, old)) h e f =
      Yields-if (eq_value old expected)
        (λ _.
          changed-Yields storage (Gives key bitpos v) s
            (copy_and_set_value self (get_index self.data_map bitpos) i v)
            (copy_and_set_value-Gives self bitpos i ms key old v e f))
        (λ _. fails)
  slot-Gives push s self bitpos key expected v ms none h e f =
      Yields-if (ltb (length ms) max_collisions)
        (λ _.
          changed-Yields storage (Gives key bitpos v) s
            (insert_into_prefix self (get_index self.data_map bitpos) key v)
            (insert_into_prefix-Gives self bitpos ms key v e f))
        (λ _. Yields-bind (push ms) (λ (s', (child, child_hash)) _.
          changed-Yields storage (Gives key bitpos v) s'
            (copy_and_migrate_from_inline_to_node self bitpos child_hash)
            (migrate-Gives self bitpos child_hash key v h)))

  put_inline-Gives :
      (push : List KeyElement → Result ChampError (S × (Champ × Cid))) (s : S) (self : Champ)
      (bitpos : ℕ) (key : Bytes) (expected v : Option CborObject)
      → IsBytes self.data_map
      → Yields
          (λ (t : S × (Champ × Cid)). Gives key bitpos v t.1.0)
          (put_inline storage bit_width max_collisions key_hasher push s self bitpos key expected v)
  unfolding put_inline as_mappings
  put_inline-Gives push s self bitpos key expected v h =
      let slot = get_elem? self.contents (get_index self.data_map bitpos) in
      Yields-bind (or_panic slot) λ payload e.
        elim payload
            as (λ payload.
              slot ≡ some payload
              → Yields (λ (t : S × (Champ × Cid)). Gives key bitpos v t.1.0)
                  (ok_or (as_mappings payload) expected_mappings >>= λ ms. elim (find_key key ms) [
                    | some (payload_index, old) ↦
                        if eq_value old expected
                        then (copy_and_set_value self (get_index self.data_map bitpos) payload_index
                              v
                            >>= λ champ. write storage s champ)
                        else err cas_failed
                    | none ↦
                        if ltb (length ms) max_collisions
                        then (insert_into_prefix self (get_index self.data_map bitpos) key v
                            >>= λ champ. write storage s champ)
                        else (push ms >>= λ (s', (child, child_hash)).
                            copy_and_migrate_from_inline_to_node self bitpos child_hash >>= λ champ.
                            write storage s' champ)
                  ])) [
                    | mappings ms ↦ λ e'.
                        slot-Gives push s self bitpos key expected v ms (find_key key ms) h e' refl
                    | link c ↦ λ e'. fails
                  ]
          (or_panic-ok slot payload e)

  put-Gives :
      (fuel : ℕ) (s : S) (self : Champ) (key hash : Bytes) (depth : ℕ)
      (expected v : Option CborObject) (our_hash : Cid)
      → IsBytes self.data_map
      → Yields
          (λ (t : S × (Champ × Cid)). Gives key (mask hash depth bit_width) v t.1.0)
          (put storage bit_width max_collisions key_hasher fuel s self key hash depth expected v
            our_hash)
  unfolding put
  put-Gives zero s self key hash depth expected v our_hash h = fails
  put-Gives (suc fuel) s self key hash depth expected v our_hash h =
      let bitpos = mask hash depth bit_width in
      Yields-if (bit_get self.data_map bitpos)
        (λ _.
          put_inline-Gives
            (λ ms.
              push_mappings_down_a_level storage bit_width max_collisions key_hasher
                (put storage bit_width max_collisions key_hasher fuel) s self ms key hash v
                (depth + 1))
            s self bitpos key expected v h)
        (λ off.
          Yields-if (bit_get self.node_map bitpos)
            (λ _.
              Yields-bind (get_child_with_hash storage bit_width s self hash depth)
                (λ (child_hash, child) _.
                  Yields-bind
                    (put storage bit_width max_collisions key_hasher fuel s child key hash
                      (depth + 1) expected v child_hash)
                    (λ (s', (new_child, new_child_hash)) _.
                      Yields-if (eq_cid new_child_hash child_hash) (λ _. yields (λ t. cc))
                        (λ _.
                          changed-Yields storage (Gives key bitpos v) s'
                            (overwrite_child_link self bitpos new_child_hash)
                            (overwrite-Gives self bitpos new_child_hash key v off)))))
            (λ _.
              changed-Yields storage (Gives key bitpos v) s (add_new_prefix self bitpos key v)
                (add_new_prefix-Gives self bitpos key v h)))

  -- When `put` succeeds on a node with a bitmap of bytes, and the new node holds the key's slot inline,
  -- then `get` on the new node gives the value that was put, in any state of the store.
  pub get-put_inline :
      (fuel more : ℕ) (s s' later : S) (self champ : Champ) (cid : Cid) (key hash : Bytes)
      (depth : ℕ) (expected v : Option CborObject) (our_hash : Cid)
      → IsBytes self.data_map
      → put storage bit_width max_collisions key_hasher fuel s self key hash depth expected v
          our_hash
        ≡ ok (s', (champ, cid))
      → bit_get champ.data_map (mask hash depth bit_width) ≡ true
      → get storage bit_width (suc more) later champ key hash depth ≡ ok v
  unfolding get
  get-put_inline fuel more s s' later self champ cid key hash depth expected v our_hash h done
        inline =
      let (payload, at, same) =
        Yields-ok (put-Gives fuel s self key hash depth expected v our_hash h) done inline in
      rw (inline, at, same) refl
