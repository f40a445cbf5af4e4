-- ===== src/Sync/RenamesFound.antt =====
-- crates/peergos-sync/src/sync.rs: a change that is taken for a rename has a file to move.
use rust_peergos_client.Common.{
  ℕ, zero, suc, ◌<◌, ◌≡◌, refl, sym, ◌∙◌, arith, Bool-cases, true, false, Option-cases, none, some,
  inl, inr, List, [], ◌∷◌, Bytes, length, get_elem?, ok,
}
use rust_peergos_client.Common.Text.{Text}
use rust_peergos_client.Common.Equality.{eq_bytes, eq_bytes_refl, eq_bytes_sound}
use rust_peergos_client.Sync.State.{
  FileState, lookup, RamTreeState, new, add, by_path, by_hash, found,
}
use rust_peergos_client.Sync.Index.{IsIndexed, by_path-add}
use rust_peergos_client.Sync.ByHash.{IsIn, by_hash_complete}
use rust_peergos_client.Sync.Renames.{
  eq_file_state, contains_state, extra, position, is_rename, to_move,
}

-- Every file is recorded under its own path.
abbrev pub IsKeyed : RamTreeState → Type 0
IsKeyed st = (p : Text) (f : FileState) → by_path st p ≡ some f → f.rel_path ≡ p

pub new-IsKeyed : IsKeyed new
unfolding by_path new lookup
new-IsKeyed p f e = cc

pub add-IsKeyed : (st : RamTreeState) (f : FileState) → IsKeyed st → IsKeyed (add st f)
add-IsKeyed st f keyed p g e = elim (Bool-cases (eq_bytes f.rel_path p)) [
  | inl t ↦
      let here = eq_bytes_sound f.rel_path p t in ground (arith, e, by_path-add st f p, t, here)
  | inr d ↦ ground (arith, e, by_path-add st f p, d, keyed p g)
]

eq_file_state-path : (a b : FileState) → eq_file_state a b ≡ true → a.rel_path ≡ b.rel_path
unfolding eq_file_state
eq_file_state-path a b h = eq_bytes_sound a.rel_path b.rel_path (ground (arith, h))

-- A state that a side has among those of a hash is recorded under its path.
contains_state-found :
    (st : RamTreeState) (f : FileState) (ps : List Text)
    → IsKeyed st
    → by_path st f.rel_path ≡ none
    → contains_state f (found st.files_by_path ps) ≡ false
unfolding contains_state found by_path
contains_state-found st f [] keyed n = refl
contains_state-found st f (p ∷ ps) keyed n =
    let rest = contains_state-found st f ps keyed n in
    elim (Option-cases (lookup p st.files_by_path)) [
      | inl e ↦ rw (found, e) rest
      | inr (g, e) ↦
          rw (found, e)
            (elim (Bool-cases (eq_file_state g f)) [
              | inl t ↦
                  let path = eq_file_state-path g f t in
                  let own = keyed p g e in
                  let here : lookup f.rel_path st.files_by_path ≡ some g = rw (sym path ∙ own) e in
                  cc
              | inr d ↦ rw d rest
            ])
    ]

contains_state-by_hash :
    (st : RamTreeState) (f : FileState) (h : Bytes)
    → IsKeyed st
    → by_path st f.rel_path ≡ none
    → contains_state f (by_hash st h) ≡ false
unfolding by_hash contains_state
contains_state-by_hash st f h keyed n = elim (Option-cases (lookup h st.files_by_hash)) [
  | inl e ↦ rw (by_hash, e) refl
  | inr (ps, e) ↦ rw (by_hash, e) (contains_state-found st f ps keyed n)
]

-- A path of a list has a position in it.
abbrev HasPosition : Text → List FileState → Type 0
HasPosition path fs = (i : ℕ) × (position path fs ≡ some i) × (i < length fs)

position-tail :
    (path : Text) (f : FileState) (fs : List FileState)
    → HasPosition path fs
    → HasPosition path (f ∷ fs)
unfolding position
position-tail path f fs (i, e, b) = elim (Bool-cases (eq_bytes f.rel_path path)) [
  | inl t ↦ (0, ground (arith, t), omega arith)
  | inr n ↦ (suc i, ground (arith, n, e), omega arith)
]

position-extra :
    (f : FileState) (fs others : List FileState)
    → IsIn f fs
    → contains_state f others ≡ false
    → HasPosition f.rel_path (extra fs others)
unfolding extra position
position-extra f [] others m n = elim m [ ]
position-extra f (g ∷ fs) others (inl e) n =
    let kept : contains_state g others ≡ false = rw (sym e) n in
    let first : eq_bytes g.rel_path f.rel_path ≡ true = rw (sym e) (eq_bytes_refl f.rel_path) in
    rw (HasPosition, kept) (0, ground (arith, first), omega arith)
position-extra f (g ∷ fs) others (inr m) n =
    let rest = position-extra f fs others m n in
    elim (Bool-cases (contains_state g others)) [
      | inl t ↦ rw (HasPosition, t) rest
      | inr d ↦ rw (HasPosition, d) (position-tail f.rel_path g (extra fs others) rest)
    ]

get_elem?-below :
    (fs : List FileState) (i : ℕ) → i < length fs → (f : FileState) × (get_elem? fs i ≡ some f)
get_elem?-below [] i b = ground arith
get_elem?-below (f ∷ fs) zero b = (f, refl)
get_elem?-below (f ∷ fs) (suc i) b = get_elem?-below fs i (omega arith)

-- A file that one side has and the other has not, with the states of both indexed and keyed: where its
-- appearance is taken for a rename, there is a file to move, so neither the `unwrap` nor the index panics.
pub is_rename-to_move :
    (tree other : RamTreeState) (f : FileState)
    → IsIndexed tree
    → IsKeyed other
    → by_path tree f.rel_path ≡ some f
    → by_path other f.rel_path ≡ none
    → is_rename
        (extra (by_hash tree f.hash) (by_hash other f.hash))
        (extra (by_hash other f.hash) (by_hash tree f.hash))
        tree
        f.rel_path
      ≡ true
    → (source : FileState) × (to_move
          (extra (by_hash tree f.hash) (by_hash other f.hash))
          (extra (by_hash other f.hash) (by_hash tree f.hash))
          f.rel_path
        ≡ ok source)
unfolding is_rename to_move
is_rename-to_move tree other f indexed keyed here away t =
    let own = extra (by_hash tree f.hash) (by_hash other f.hash) in
    let others = extra (by_hash other f.hash) (by_hash tree f.hash) in
    let (i, e, b) =
      position-extra f (by_hash tree f.hash) (by_hash other f.hash)
        (by_hash_complete tree f.rel_path f indexed here)
        (contains_state-by_hash other f f.hash keyed away) in
    let same : length others ≡ length own = ground (arith, t) in
    let (source, s) = get_elem?-below others i (omega (arith, same)) in (source, rw (e, s) refl)
