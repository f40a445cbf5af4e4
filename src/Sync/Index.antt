-- ===== src/Sync/Index.antt =====
-- crates/peergos-sync/src/state.rs: the index by hash follows the files by path.
use rust_peergos_client.Common.{
  Bool, ◌≡◌, refl, arith, false, not, ◌&&◌, ◌||◌, Option-cases, none, some, inl, inr, List, [], ◌∷◌,
  ◌++◌, Bytes, if◌then◌else◌,
}
use rust_peergos_client.Common.Text.{Text}
use rust_peergos_client.Common.Equality.{eq_bytes, eq_bytes_refl, eq_bytes_sound, eq_bytes_comm}
use rust_peergos_client.Sync.State.{
  FileState, HashMap, lookup, remove_key, insert_key, contains, retain_other, RamTreeState, unindex,
  push_path, add, remove, by_path,
}

module _ {ℓ} {V : Type ℓ} where
  pub lookup-remove_key :
      (k j : Bytes) (m : HashMap V)
      → lookup k (remove_key j m) ≡ (if eq_bytes j k then none else lookup k m)
  unfolding lookup remove_key
  lookup-remove_key k j [] = ground arith
  lookup-remove_key k j ((i, v) ∷ m) = ground (
    arith,
    lookup-remove_key k j m,
    eq_bytes_sound i j,
    eq_bytes_sound i k,
    eq_bytes_refl j,
    eq_bytes_comm j k,
  )

  pub lookup-insert_key :
      (k j : Bytes) (v : V) (m : HashMap V)
      → lookup k (insert_key j v m) ≡ (if eq_bytes j k then some v else lookup k m)
  unfolding lookup insert_key
  lookup-insert_key k j v m = ground (arith, lookup-remove_key k j m)

pub contains-retain_other :
    (p q : Text) (ps : List Text)
    → contains p (retain_other q ps) ≡ (contains p ps && not (eq_bytes q p))
unfolding contains retain_other
contains-retain_other p q [] = refl
contains-retain_other p q (r ∷ ps) =
    ground (
      arith,
      contains-retain_other p q ps,
      eq_bytes_sound r q,
      eq_bytes_sound r p,
      eq_bytes_comm p q,
    )

contains-push :
    (p q : Text) (ps : List Text) → contains p (ps ++ (q ∷ [])) ≡ (contains p ps || eq_bytes q p)
unfolding contains
contains-push p q [] = ground arith
contains-push p q (r ∷ ps) = ground (arith, contains-push p q ps)

contains-nil : (p : Text) → contains p [] ≡ false
unfolding contains
contains-nil p = refl

-- The index lists a path under a hash.
abbrev pub is_listed : Bytes → Text → HashMap (List Text) → Bool
is_listed h p index = elim (lookup h index) [ none ↦ false | some ps ↦ contains p ps ]

-- The file at a path has a hash.
abbrev pub has_hash : Bytes → Text → HashMap FileState → Bool
has_hash h p files = elim (lookup p files) [ none ↦ false | some fs ↦ eq_bytes fs.hash h ]

-- `unindex` leaves the list of each hash, without the path under its own.
lookup-unindex :
    (h j : Bytes) (q : Text) (index : HashMap (List Text)) (paths : List Text)
    → lookup j index ≡ some paths
    → (left : List Text) → retain_other q paths ≡ left
    → lookup h (unindex j q index)
      ≡ (if eq_bytes j h then elim left [ [] ↦ none | p ∷ ps ↦ some (p ∷ ps) ] else lookup h index)
unfolding unindex
lookup-unindex h j q index paths e [] r = rw (e, r, unindex) (lookup-remove_key h j index)
lookup-unindex h j q index paths e (p ∷ ps) r =
    rw (e, r, unindex) (lookup-insert_key h j (p ∷ ps) index)

is_listed-unindex :
    (h j : Bytes) (p q : Text) (index : HashMap (List Text))
    → is_listed h p (unindex j q index)
      ≡ (is_listed h p index && not (eq_bytes j h && eq_bytes q p))
is_listed-unindex h j p q index = elim (Option-cases (lookup j index)) [
  | inl e ↦ unfold unindex in rw (e, unindex) (ground (arith, e, eq_bytes_sound j h))
  | inr (paths, e) ↦
      let left = retain_other q paths in
      let c = contains-retain_other p q paths in
      let l = lookup-unindex h j q index paths e left refl in
      rw (is_listed, l) (listed_left h j p q index paths e left c)
]
  where
    listed_left :
        (h j : Bytes) (p q : Text) (index : HashMap (List Text)) (paths : List Text)
        → lookup j index ≡ some paths
        → (left : List Text) → contains p left ≡ (contains p paths && not (eq_bytes q p))
        → elim (if eq_bytes j h
            then elim left [ [] ↦ none | r ∷ ps ↦ some (r ∷ ps) ]
            else lookup h index) [ none ↦ false | some ps ↦ contains p ps ]
          ≡ (is_listed h p index && not (eq_bytes j h && eq_bytes q p))
    listed_left h j p q index paths e [] c =
        let nil : contains p [] ≡ false = contains-nil p in
        ground (arith, e, nil, eq_bytes_sound j h)
    listed_left h j p q index paths e (r ∷ ps) c = ground (arith, e, c, eq_bytes_sound j h)

is_listed-push_path :
    (h j : Bytes) (p q : Text) (index : HashMap (List Text))
    → is_listed h p (push_path j q index) ≡ (is_listed h p index || (eq_bytes j h && eq_bytes q p))
unfolding push_path
is_listed-push_path h j p q index = elim (Option-cases (lookup j index)) [
  | inl e ↦
      rw (is_listed, e, push_path, lookup-insert_key h j (q ∷ []) index)
        (ground (arith, e, contains-push p q [], eq_bytes_sound j h, contains-nil p))
  | inr (paths, e) ↦
      rw (is_listed, e, push_path, lookup-insert_key h j (paths ++ (q ∷ [])) index)
        (ground (arith, e, contains-push p q paths, eq_bytes_sound j h))
]

-- The index lists exactly the paths of the files, each under its file's hash.
abbrev pub IsIndexed : RamTreeState → Type 0
IsIndexed st =
    (h : Bytes) (p : Text) → is_listed h p st.files_by_hash ≡ has_hash h p st.files_by_path

remove-files :
    (st : RamTreeState) (path p : Text)
    → lookup p (remove st path).files_by_path
      ≡ (if eq_bytes path p then none else lookup p st.files_by_path)
unfolding remove
remove-files st path p =
    ground (arith, lookup-remove_key p path st.files_by_path, eq_bytes_sound path p)

remove-index :
    (st : RamTreeState) (path : Text) (h : Bytes) (p : Text)
    → is_listed h p (remove st path).files_by_hash ≡ (
        is_listed h p st.files_by_hash && not (has_hash h path st.files_by_path && eq_bytes path p))
unfolding remove
remove-index st path h p = elim (Option-cases (lookup path st.files_by_path)) [
  | inl e ↦ ground (arith, e)
  | inr (fs, e) ↦ ground (arith, e, is_listed-unindex h fs.hash p path st.files_by_hash)
]

-- Forgetting a file keeps the index.
pub remove-IsIndexed : (st : RamTreeState) (path : Text) → IsIndexed st → IsIndexed (remove st path)
remove-IsIndexed st path inv h p =
    ground (arith, inv h p, remove-index st path h p, remove-files st path p, eq_bytes_sound path p)

-- Recording a file keeps the index, where the path was already known and where it was not.
pub add-IsIndexed : (st : RamTreeState) (fs : FileState) → IsIndexed st → IsIndexed (add st fs)
unfolding add
add-IsIndexed st fs inv h p =
    let r = remove st fs.rel_path in
    ground (
      arith,
      remove-IsIndexed st fs.rel_path inv h p,
      is_listed-push_path h fs.hash p fs.rel_path r.files_by_hash,
      lookup-insert_key p fs.rel_path fs r.files_by_path,
      remove-files st fs.rel_path p,
    )

-- After a file is recorded, its path gives it, and every other path gives what it gave before.
pub by_path-add :
    (st : RamTreeState) (fs : FileState) (p : Text)
    → by_path (add st fs) p ≡ (if eq_bytes fs.rel_path p then some fs else by_path st p)
unfolding by_path add
by_path-add st fs p =
    let r = remove st fs.rel_path in
    ground
      (arith, lookup-insert_key p fs.rel_path fs r.files_by_path, remove-files st fs.rel_path p)
