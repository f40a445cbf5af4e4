-- ===== src/Sync/State.antt =====
-- crates/peergos-sync/src/{file_state,state}.rs: what the last synchronisation saw. A `HashMap` and a
-- `HashSet` are lists whose order the code does not rely on; a path and a hash are byte lists.
use rust_peergos_client.Common.{
  ℕ, Bool, true, false, ◌&&◌, Option, none, some, List, [], ◌∷◌, ◌++◌, Bytes, if◌then◌else◌, ◌==◌,
  length,
}
use rust_peergos_client.Common.Int.{ℤ}
use rust_peergos_client.Common.Text.{Text}
use rust_peergos_client.Common.Equality.{eq_bytes}

pub record FileState : Type 0 where
  pub rel_path : Text
  pub modification_time : ℤ
  pub size : ℕ
  pub hash : Bytes
  pub chunk_size : ℕ

unfoldable pub equals_ignore_modtime : FileState → FileState → Bool
equals_ignore_modtime self other =
    eq_bytes self.rel_path other.rel_path
    && (self.size == other.size && eq_bytes self.hash other.hash)

pub record CopyOp : Type 0 where
  pub is_local_target : Bool
  pub source : Text
  pub target : Text
  pub source_state : FileState
  pub target_state : FileState

-- A `HashMap` by byte keys.
abbrev pub HashMap {ℓ} : Type ℓ → Type ℓ
HashMap V = List (Bytes × V)

module _ {ℓ} {V : Type ℓ} where
  unfoldable pub lookup : Bytes → HashMap V → Option V
  lookup k [] = none
  lookup k ((j, v) ∷ m) = let rest = lookup k m in if eq_bytes j k then some v else rest

  unfoldable pub remove_key : Bytes → HashMap V → HashMap V
  remove_key k [] = []
  remove_key k ((j, v) ∷ m) =
      let rest = remove_key k m in if eq_bytes j k then rest else (j, v) ∷ rest

  unfoldable pub insert_key : Bytes → V → HashMap V → HashMap V
  insert_key k v m = (k, v) ∷ remove_key k m

  unfoldable pub keys : HashMap V → List Bytes
  keys [] = []
  keys ((j, v) ∷ m) = j ∷ keys m

-- A `HashSet` of paths.
unfoldable pub contains : Text → List Text → Bool
contains p [] = false
contains p (q ∷ s) = let rest = contains p s in if eq_bytes q p then true else rest

-- `retain(|p| p != path)`.
unfoldable pub retain_other : Text → List Text → List Text
retain_other path [] = []
retain_other path (p ∷ paths) =
    let rest = retain_other path paths in if eq_bytes p path then rest else p ∷ rest

unfoldable pub insert_path : Text → List Text → List Text
insert_path p s = if contains p s then s else p ∷ s

pub record RamTreeState : Type 0 where
  pub files_by_path : HashMap FileState
  pub files_by_hash : HashMap (List Text)
  pub dirs : List Text
  pub local_deletes : List Text
  pub remote_deletes : List Text
  pub completed_sync : Bool
  pub in_progress_copies : List CopyOp

unfoldable pub new : RamTreeState
new = record {
  files_by_path = [];
  files_by_hash = [];
  dirs = [];
  local_deletes = [];
  remote_deletes = [];
  completed_sync = false;
  in_progress_copies = [];
}

abbrev pub with_files : RamTreeState → HashMap FileState → HashMap (List Text) → RamTreeState
with_files self by_path' by_hash' = record {
  files_by_path = by_path';
  files_by_hash = by_hash';
  dirs = self.dirs;
  local_deletes = self.local_deletes;
  remote_deletes = self.remote_deletes;
  completed_sync = self.completed_sync;
  in_progress_copies = self.in_progress_copies;
}

-- The index without a path under a hash; a hash with no paths left is dropped.
unfoldable pub unindex : Bytes → Text → HashMap (List Text) → HashMap (List Text)
unindex hash path index = elim (lookup hash index) [
  | none ↦ index
  | some paths ↦ elim (retain_other path paths) [
    | [] ↦ remove_key hash index
    | p ∷ ps ↦ insert_key hash (p ∷ ps) index
  ]
]

-- `entry(hash).or_default().push(path)`.
unfoldable pub push_path : Bytes → Text → HashMap (List Text) → HashMap (List Text)
push_path hash path index = elim (lookup hash index) [
  | none ↦ insert_key hash (path ∷ []) index
  | some paths ↦ insert_key hash (paths ++ (path ∷ [])) index
]

unfoldable pub remove : RamTreeState → Text → RamTreeState
remove self path = elim (lookup path self.files_by_path) [
  | none ↦ self
  | some fs ↦
      with_files self (remove_key path self.files_by_path) (unindex fs.hash path self.files_by_hash)
]

unfoldable pub add : RamTreeState → FileState → RamTreeState
unfolding remove
add self fs =
    let cleared = remove self fs.rel_path in
    with_files cleared (insert_key fs.rel_path fs cleared.files_by_path)
      (push_path fs.hash fs.rel_path cleared.files_by_hash)

unfoldable pub by_path : RamTreeState → Text → Option FileState
by_path self path = lookup path self.files_by_path

-- `filter_map(|p| files_by_path.get(p))`.
unfoldable pub found : HashMap FileState → List Text → List FileState
found files [] = []
found files (p ∷ ps) = elim (lookup p files) [
  | none ↦ found files ps
  | some fs ↦ fs ∷ found files ps
]

unfoldable pub by_hash : RamTreeState → Bytes → List FileState
by_hash self hash = elim (lookup hash self.files_by_hash) [
  | none ↦ []
  | some paths ↦ found self.files_by_path paths
]

unfoldable pub files_count : RamTreeState → ℕ
files_count self = length self.files_by_path

unfoldable pub all_file_paths : RamTreeState → List Text
all_file_paths self = keys self.files_by_path
