-- ===== src/Champ/Buckets.antt =====
-- crates/peergos-core/src/champ.rs: the value of a key in a bucket, after the bucket is changed.
use rust_peergos_client.Common.{
  ℕ, zero, suc, ◌≡◌, sym, ◌∙◌, arith, false, Option, Option-cases, none, some, inl, inr, List, [],
  ◌∷◌, ◌++◌, Bytes, get_elem?, if◌then◌else◌,
}
use rust_peergos_client.Cbor.Object.{CborObject}
use rust_peergos_client.Common.Equality.{eq_bytes, eq_bytes_refl}
use rust_peergos_client.Champ.Bitmap.{update_at}
use rust_peergos_client.Champ.Node.{
  KeyElement, Payload, mappings, set_value, insert_sorted, sort_by_key, set_at, insert_at,
}
use rust_peergos_client.Champ.Tree.{find_key, value_in}

-- The value that a key has in a bucket, if it is there.
abbrev pub found_value : Bytes → List KeyElement → Option (Option CborObject)
found_value key ms = elim (find_key key ms) [ none ↦ none | some (i, v) ↦ some v ]

found_value_cons :
    (key : Bytes) (m : KeyElement) (ms : List KeyElement)
    → found_value key (m ∷ ms) ≡ (if eq_bytes m.key key then some m.value else found_value key ms)
unfolding find_key
found_value_cons key m ms = ground arith

pub value_in-found :
    (key : Bytes) (ms : List KeyElement) (v : Option CborObject)
    → found_value key ms ≡ some v
    → value_in key (mappings ms) ≡ v
unfolding value_in
value_in-found key ms v h = ground (arith, h)

pub found_value-set :
    (key : Bytes) (ms : List KeyElement) (i : ℕ) (old v : Option CborObject)
    → find_key key ms ≡ some (i, old)
    → found_value key (update_at (set_value v) i ms) ≡ some v
unfolding find_key update_at set_value
found_value-set key [] i old v h = ground (arith, h)
found_value-set key (m ∷ ms) zero old v h =
    ground
      (arith, h, eq_bytes_refl key, found_value_cons key (record { key = m.key; value = v }) ms)
found_value-set key (m ∷ ms) (suc i) old v h = ground (
  arith,
  h,
  found_value_cons key m (update_at (set_value v) i ms),
  found_value-set key ms i old v,
)

found_value-insert_other :
    (key : Bytes) (e : KeyElement) (ms : List KeyElement)
    → eq_bytes e.key key ≡ false
    → found_value key (insert_sorted e ms) ≡ found_value key ms
unfolding insert_sorted
found_value-insert_other key e [] h = found_value_cons key e [] ∙ ground (arith, h)
found_value-insert_other key e (m ∷ ms) h = ground (
  arith,
  h,
  found_value_cons key e (m ∷ ms),
  found_value_cons key m ms,
  found_value_cons key m (insert_sorted e ms),
  found_value-insert_other key e ms h,
)

pub found_value-sort_by_key :
    (key : Bytes) (v : Option CborObject) (ms : List KeyElement)
    → find_key key ms ≡ none
    → found_value key (sort_by_key (ms ++ (record { key = key; value = v } ∷ []))) ≡ some v
unfolding sort_by_key
found_value-sort_by_key key v [] h =
    unfold insert_sorted find_key in ground (arith, eq_bytes_refl key)
found_value-sort_by_key key v (m ∷ ms) h =
    let e : KeyElement = record { key = key; value = v } in
    let absent : (eq_bytes m.key key ≡ false) × (find_key key ms ≡ none) =
      unfold find_key in ground (arith, h) in
    found_value-insert_other key m (sort_by_key (ms ++ (e ∷ []))) absent.0
    ∙ found_value-sort_by_key key v ms absent.1

pub get_elem-set_at :
    (i : ℕ) (p : Payload) (xs ys : List Payload) → set_at i p xs ≡ some ys → get_elem? ys i ≡ some p
unfolding set_at
get_elem-set_at i p [] ys h = cc
get_elem-set_at zero p (x ∷ xs) ys h = ground (arith, h)
get_elem-set_at (suc i) p (x ∷ xs) ys h = elim (Option-cases (set_at i p xs)) [
  | inl n ↦ ground (arith, h, n)
  | inr (zs, e) ↦
      let form : x ∷ zs ≡ ys = ground (arith, h, e) in rw (sym form) (get_elem-set_at i p xs zs e)
]

pub get_elem-insert_at :
    (i : ℕ) (p : Payload) (xs ys : List Payload)
    → insert_at i p xs ≡ some ys
    → get_elem? ys i ≡ some p
unfolding insert_at
get_elem-insert_at zero p xs ys h = ground (arith, h)
get_elem-insert_at (suc i) p [] ys h = cc
get_elem-insert_at (suc i) p (x ∷ xs) ys h = elim (Option-cases (insert_at i p xs)) [
  | inl n ↦ ground (arith, h, n)
  | inr (zs, e) ↦
      let form : x ∷ zs ≡ ys = ground (arith, h, e) in
      rw (sym form) (get_elem-insert_at i p xs zs e)
]
