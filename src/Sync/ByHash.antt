-- ===== src/Sync/ByHash.antt =====
-- crates/peergos-sync/src/state.rs: `by_hash` finds exactly the files with a hash.
use rust_peergos_client.Common.{
  Bool-cases, ◌≡◌, refl, ◌∙◌, arith, true, Option-cases, some, inl, inr, ◌⊎◌, List, [], ◌∷◌, Bytes,
  All,
}
use rust_peergos_client.Common.Text.{Text}
use rust_peergos_client.Common.Equality.{eq_bytes, eq_bytes_refl, eq_bytes_sound}
use rust_peergos_client.Sync.State.{
  FileState, HashMap, lookup, contains, RamTreeState, by_path, by_hash, found,
}
use rust_peergos_client.Sync.Index.{is_listed, has_hash, IsIndexed}

abbrev pub IsIn : FileState → List FileState → Type 0
IsIn fs [] = ⊥
IsIn fs (g ∷ gs) = (fs ≡ g) ⊎ IsIn fs gs

-- Every path of the list leads to a file with the hash.
abbrev LeadTo : Bytes → HashMap FileState → List Text → Type 0
LeadTo h files ps = (p : Text) → contains p ps ≡ true → has_hash h p files ≡ true

LeadTo-tail :
    (h : Bytes) (files : HashMap FileState) (p : Text) (ps : List Text)
    → LeadTo h files (p ∷ ps)
    → LeadTo h files ps
unfolding contains
LeadTo-tail h files p ps lead q c = ground (arith, lead q, c)

LeadTo-head :
    (h : Bytes) (files : HashMap FileState) (p : Text) (ps : List Text)
    → LeadTo h files (p ∷ ps)
    → has_hash h p files ≡ true
unfolding contains
LeadTo-head h files p ps lead = ground (arith, lead p, eq_bytes_refl p)

found-hash :
    (h : Bytes) (files : HashMap FileState) (ps : List Text)
    → LeadTo h files ps
    → All (λ fs. eq_bytes fs.hash h ≡ true) (found files ps)
unfolding found
found-hash h files [] lead = tt
found-hash h files (p ∷ ps) lead =
    let rest = found-hash h files ps (LeadTo-tail h files p ps lead) in
    let first = LeadTo-head h files p ps lead in
    elim (Option-cases (lookup p files)) [
      | inl e ↦ rw (All, found, e) rest
      | inr (fs, e) ↦ rw (All, found, e) (ground (arith, e, first), rest)
    ]

-- What `by_hash` gives in an indexed state has the hash that was asked for.
pub by_hash_sound :
    (st : RamTreeState) (h : Bytes)
    → IsIndexed st
    → All (λ fs. eq_bytes fs.hash h ≡ true) (by_hash st h)
unfolding by_hash
by_hash_sound st h inv = elim (Option-cases (lookup h st.files_by_hash)) [
  | inl e ↦ rw (All, by_hash, e) tt
  | inr (paths, e) ↦
      rw (All, by_hash, e)
        (found-hash h st.files_by_path paths (λ p c. ground (arith, inv h p, e, c)))
]

found-IsIn :
    (files : HashMap FileState) (p : Text) (fs : FileState) (ps : List Text)
    → contains p ps ≡ true
    → lookup p files ≡ some fs
    → IsIn fs (found files ps)
unfolding contains found
found-IsIn files p fs [] c e = cc
found-IsIn files p fs (q ∷ ps) c e = elim (Bool-cases (eq_bytes q p)) [
  | inl t ↦
      let same : lookup q files ≡ some fs = rw (eq_bytes_sound q p t) e in
      rw (IsIn, found, same) (inl refl)
  | inr f ↦
      let rest = found-IsIn files p fs ps (ground (arith, c, f)) e in
      elim (Option-cases (lookup q files)) [
        | inl n ↦ rw (IsIn, found, n) rest
        | inr (g, s) ↦ rw (IsIn, found, s) (inr rest)
      ]
]

-- In an indexed state a file that is recorded is among those of its hash.
pub by_hash_complete :
    (st : RamTreeState) (p : Text) (fs : FileState)
    → IsIndexed st
    → by_path st p ≡ some fs
    → IsIn fs (by_hash st fs.hash)
unfolding by_hash by_path
by_hash_complete st p fs inv e =
    let listed : is_listed fs.hash p st.files_by_hash ≡ true =
      inv fs.hash p ∙ ground (arith, e, eq_bytes_refl fs.hash) in
    elim (Option-cases (lookup fs.hash st.files_by_hash)) [
      | inl n ↦ ground (arith, n, listed)
      | inr (paths, s) ↦
          rw (IsIn, by_hash, s)
            (found-IsIn st.files_by_path p fs paths (ground (arith, s, listed)) e)
    ]

-- In an indexed state the files of a recorded file's hash have that hash, and it is among them.
pub by_hash_exact :
    (st : RamTreeState) (p : Text) (fs : FileState)
    → IsIndexed st
    → by_path st p ≡ some fs
    → All (λ g. eq_bytes g.hash fs.hash ≡ true) (by_hash st fs.hash) × IsIn fs (by_hash st fs.hash)
by_hash_exact st p fs inv e = (by_hash_sound st fs.hash inv, by_hash_complete st p fs inv e)
