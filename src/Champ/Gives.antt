-- ===== src/Champ/Gives.antt =====
-- crates/peergos-core/src/champ.rs: a changed node holds the value of the key that it was changed for.
use rust_peergos_client.Common.{
  ℕ, zero, suc, ◌≤◌, ◌≡◌, refl, arith, true, false, Option, none, some, List, [], ◌∷◌, ◌++◌, Bytes,
  IsBytes, length, get_elem?, ltb, Result, ok, ◌>>=◌, Yields, yields, fails, Yields-bind, Yields-if,
  Yields-ok,
}
use rust_peergos_client.Cbor.Object.{CborObject}
use rust_peergos_client.Multiformats.Cid.{Cid}
use rust_peergos_client.Common.Equality.{eq_bytes_refl}
use rust_peergos_client.Champ.Bitmap.{update_at, bit_set, bit_get, get_index}
use rust_peergos_client.Champ.BitLaws.{bit_get-bit_set, bit_get-bit_clear}
use rust_peergos_client.Champ.Node.{
  KeyElement, Payload, mappings, link, Champ, ChampError, or_panic, with_contents, set_value,
  set_at, insert_at, remove_at, sort_by_key, copy_and_set_value, insert_into_prefix, add_new_prefix,
  link_index, copy_and_migrate_from_inline_to_node, overwrite_child_link,
}
use rust_peergos_client.Champ.NodeCbor.{serialize}
use rust_peergos_client.Champ.Tree.{Storage, find_key, value_in, write}
use rust_peergos_client.Champ.Buckets.{
  found_value, value_in-found, found_value-set, found_value-sort_by_key, get_elem-set_at,
  get_elem-insert_at,
}

-- Where the node has an inline slot for the position, the key has the value there.
abbrev pub Gives : Bytes → ℕ → Option CborObject → Champ → Type 0
Gives key bitpos v n =
    bit_get n.data_map bitpos ≡ true
    → (payload : Payload) × (get_elem? n.contents (get_index n.data_map bitpos) ≡ some payload)
      × (value_in key payload ≡ v)

pub or_panic-ok : {A : Type 0} (o : Option A) (a : A) → or_panic o ≡ ok a → o ≡ some a
or_panic-ok none a h = cc
or_panic-ok (some b) a h = cc

pub copy_and_set_value-Gives :
    (self : Champ) (bitpos i : ℕ) (ms : List KeyElement) (key : Bytes) (old v : Option CborObject)
    → get_elem? self.contents (get_index self.data_map bitpos) ≡ some (mappings ms)
    → find_key key ms ≡ some (i, old)
    → Yields (Gives key bitpos v) (copy_and_set_value self (get_index self.data_map bitpos) i v)
unfolding copy_and_set_value with_contents
copy_and_set_value-Gives self bitpos i ms key old v h f =
    let index = get_index self.data_map bitpos in
    let new = update_at (set_value v) i ms in
    rw h (
      Yields-if (ltb i (length ms))
        (λ _. Yields-bind (or_panic (set_at index (mappings new) self.contents)) (λ dst e.
          yields (λ _. (
            mappings new,
            get_elem-set_at index (mappings new) self.contents dst
                (or_panic-ok (set_at index (mappings new) self.contents) dst e),
            value_in-found key new v (found_value-set key ms i old v f),
          ))))
        (λ _. fails))

pub insert_into_prefix-Gives :
    (self : Champ) (bitpos : ℕ) (ms : List KeyElement) (key : Bytes) (v : Option CborObject)
    → get_elem? self.contents (get_index self.data_map bitpos) ≡ some (mappings ms)
    → find_key key ms ≡ none
    → Yields (Gives key bitpos v) (insert_into_prefix self (get_index self.data_map bitpos) key v)
unfolding insert_into_prefix with_contents
insert_into_prefix-Gives self bitpos ms key v h f =
    let index = get_index self.data_map bitpos in
    let new = sort_by_key (ms ++ (record { key = key; value = v } ∷ [])) in
    rw h (
      Yields-bind (or_panic (set_at index (mappings new) self.contents)) (λ dst e. yields (λ _. (
        mappings new,
        get_elem-set_at index (mappings new) self.contents dst
            (or_panic-ok (set_at index (mappings new) self.contents) dst e),
        value_in-found key new v (found_value-sort_by_key key v ms f),
      ))))

-- The bits below a position are as they were.
get_index-bit_set :
    (bm : Bytes) (p n : ℕ) → IsBytes bm → n ≤ p → get_index (bit_set bm p) n ≡ get_index bm n
unfolding get_index
get_index-bit_set bm p zero h le = refl
get_index-bit_set bm p (suc n) h le =
    ground (arith, get_index-bit_set bm p n h, bit_get-bit_set bm p n h)

found_value-single :
    (key : Bytes) (v : Option CborObject)
    → found_value key (record { key = key; value = v } ∷ []) ≡ some v
unfolding find_key
found_value-single key v = ground (arith, eq_bytes_refl key)

pub add_new_prefix-Gives :
    (self : Champ) (bitpos : ℕ) (key : Bytes) (v : Option CborObject)
    → IsBytes self.data_map
    → Yields (Gives key bitpos v) (add_new_prefix self bitpos key v)
unfolding add_new_prefix with_contents
add_new_prefix-Gives self bitpos key v h =
    let index = get_index self.data_map bitpos in
    let e : KeyElement = record { key = key; value = v } in
    Yields-bind (or_panic (insert_at index (mappings (e ∷ [])) self.contents)) (λ dst w.
      yields (λ _. (
        mappings (e ∷ []),
        rw (get_index-bit_set self.data_map bitpos bitpos h (omega arith)) (
            get_elem-insert_at index (mappings (e ∷ [])) self.contents dst
              (or_panic-ok (insert_at index (mappings (e ∷ [])) self.contents) dst w)),
        value_in-found key (e ∷ []) v (found_value-single key v),
      )))

-- A slot that became a link is not inline.
pub migrate-Gives :
    (self : Champ) (bitpos : ℕ) (c : Cid) (key : Bytes) (v : Option CborObject)
    → IsBytes self.data_map
    → Yields (Gives key bitpos v) (copy_and_migrate_from_inline_to_node self bitpos c)
unfolding copy_and_migrate_from_inline_to_node with_contents
migrate-Gives self bitpos c key v h = Yields-bind (link_index self bitpos) (λ new_index _.
    Yields-bind (or_panic (remove_at (get_index self.data_map bitpos) self.contents)) (λ dst _.
      Yields-bind (or_panic (insert_at new_index (link c) dst)) (λ dst' _.
        yields (λ t. ground (arith, t, bit_get-bit_clear self.data_map bitpos bitpos h)))))

pub overwrite-Gives :
    (self : Champ) (bitpos : ℕ) (c : Cid) (key : Bytes) (v : Option CborObject)
    → bit_get self.data_map bitpos ≡ false
    → Yields (Gives key bitpos v) (overwrite_child_link self bitpos c)
unfolding overwrite_child_link with_contents
overwrite-Gives self bitpos c key v h = Yields-bind (link_index self bitpos) (λ index _.
    Yields-bind (or_panic (set_at index (link c) self.contents)) (λ dst _. yields (λ t. cc)))

module _ {S : Type 0} (storage : Storage S) where
  pub write-Yields :
      (P : Champ → Type 0) (s : S) (n : Champ)
      → P n
      → Yields (λ (t : S × (Champ × Cid)). P t.1.0) (write storage s n)
  unfolding write
  write-Yields P s n h =
      Yields-bind (serialize n)
        (λ bytes _. Yields-bind (storage.put_block s bytes) (λ (s', c) _. yields h))

  -- A changed node, and its writing.
  pub changed-Yields :
      (P : Champ → Type 0) (s : S) (m : Result ChampError Champ)
      → Yields P m
      → Yields (λ (t : S × (Champ × Cid)). P t.1.0) (m >>= λ champ. write storage s champ)
  changed-Yields P s m h = Yields-bind m (λ n e. write-Yields P s n (Yields-ok h e))
