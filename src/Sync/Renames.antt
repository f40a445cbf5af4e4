-- ===== src/Sync/Renames.antt =====
-- crates/peergos-sync/src/sync.rs: whether a change of a path is one half of a rename, which the states of
-- the two sides with the same hash tell.
use rust_peergos_client.Common.{
  ℕ, suc, Bool, true, false, not, ◌&&◌, ◌||◌, Option, none, some, List, [], ◌∷◌, length, get_elem?,
  Result, ◌>>=◌, ok_or, if◌then◌else◌, ◌==◌,
}
use rust_peergos_client.Common.Int.{eqb_ℤ}
use rust_peergos_client.Common.Text.{Text}
use rust_peergos_client.Common.Equality.{eq_bytes}
use rust_peergos_client.Sync.State.{FileState, RamTreeState, by_path}
use rust_peergos_client.Sync.FileSystem.{SyncError, panicked}

-- The derived `==` of `FileState`.
unfoldable pub eq_file_state : FileState → FileState → Bool
eq_file_state a b =
    eq_bytes a.rel_path b.rel_path
    && (eqb_ℤ a.modification_time b.modification_time
        && (a.size == b.size && (eq_bytes a.hash b.hash && a.chunk_size == b.chunk_size)))

unfoldable pub contains_state : FileState → List FileState → Bool
contains_state f [] = false
contains_state f (g ∷ gs) = eq_file_state g f || contains_state f gs

-- The files of one side with a hash that the other side has not got as they are.
unfoldable pub extra : List FileState → List FileState → List FileState
extra [] others = []
extra (f ∷ fs) others =
    let rest = extra fs others in if not (contains_state f others) then f ∷ rest else rest

-- `position(|f| f.rel_path == path)`.
unfoldable pub position : Text → List FileState → Option ℕ
position path [] = none
position path (f ∷ fs) =
    let later : Option ℕ = elim (position path fs) [ none ↦ none | some i ↦ some (suc i) ] in
    if eq_bytes f.rel_path path then some 0 else later

-- The file that the own side has at the path of the counterpart of `path` among the others, where the
-- two lists are as long; `tree` is the own side.
unfoldable pub at_hashed_path :
    List FileState → List FileState → RamTreeState → Text → Option FileState
at_hashed_path own others tree path =
    if length others == length own
    then elim (position path own) [
      | none ↦ none
      | some i ↦ elim (get_elem? others i) [ none ↦ none | some f ↦ by_path tree f.rel_path ]
    ]
    else none

abbrev pub is_none : Option FileState → Bool
is_none none = true
is_none (some f) = false

-- The change of a path is one half of a rename.
unfoldable pub is_rename : List FileState → List FileState → RamTreeState → Text → Bool
is_rename own others tree path =
    length others == length own && is_none (at_hashed_path own others tree path)

-- `idx = index.unwrap()`, and the counterpart `others[idx]`.
unfoldable pub to_move : List FileState → List FileState → Text → Result SyncError FileState
to_move own others path =
    ok_or (position path own) panicked >>= λ i. ok_or (get_elem? others i) panicked
