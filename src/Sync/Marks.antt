-- ===== src/Sync/Marks.antt =====
-- crates/peergos-sync/src/state.rs: directories, pending deletes and copies in progress.
use rust_peergos_client.Common.{
  Bool, ◌≡◌, refl, arith, false, not, ◌&&◌, ◌||◌, List, [], ◌∷◌, ◌++◌, if◌then◌else◌,
}
use rust_peergos_client.Common.Text.{Text}
use rust_peergos_client.Common.Equality.{eq_bytes, eq_bytes_sound, eq_bytes_comm}
use rust_peergos_client.Sync.State.{CopyOp, RamTreeState, contains, retain_other, insert_path}
use rust_peergos_client.Sync.Index.{contains-retain_other}

abbrev with_marks : RamTreeState → List Text → List Text → List Text → RamTreeState
with_marks self dirs' local' remote' = record {
  files_by_path = self.files_by_path;
  files_by_hash = self.files_by_hash;
  dirs = dirs';
  local_deletes = local';
  remote_deletes = remote';
  completed_sync = self.completed_sync;
  in_progress_copies = self.in_progress_copies;
}

abbrev with_copies : RamTreeState → Bool → List CopyOp → RamTreeState
with_copies self done copies = record {
  files_by_path = self.files_by_path;
  files_by_hash = self.files_by_hash;
  dirs = self.dirs;
  local_deletes = self.local_deletes;
  remote_deletes = self.remote_deletes;
  completed_sync = done;
  in_progress_copies = copies;
}

unfoldable pub set_completed_sync : RamTreeState → Bool → RamTreeState
set_completed_sync self done = with_copies self done self.in_progress_copies

unfoldable pub has_completed_sync : RamTreeState → Bool
has_completed_sync self = self.completed_sync

unfoldable pub add_dir : RamTreeState → Text → RamTreeState
add_dir self path =
    with_marks self (insert_path path self.dirs) self.local_deletes self.remote_deletes

unfoldable pub remove_dir : RamTreeState → Text → RamTreeState
remove_dir self path =
    with_marks self (retain_other path self.dirs) self.local_deletes self.remote_deletes

unfoldable pub has_dir : RamTreeState → Text → Bool
has_dir self path = contains path self.dirs

unfoldable pub get_dirs : RamTreeState → List Text
get_dirs self = self.dirs

unfoldable pub add_local_delete : RamTreeState → Text → RamTreeState
add_local_delete self path =
    with_marks self self.dirs (insert_path path self.local_deletes) self.remote_deletes

unfoldable pub remove_local_delete : RamTreeState → Text → RamTreeState
remove_local_delete self path =
    with_marks self self.dirs (retain_other path self.local_deletes) self.remote_deletes

unfoldable pub has_local_delete : RamTreeState → Text → Bool
has_local_delete self path = contains path self.local_deletes

unfoldable pub add_remote_delete : RamTreeState → Text → RamTreeState
add_remote_delete self path =
    with_marks self self.dirs self.local_deletes (insert_path path self.remote_deletes)

unfoldable pub remove_remote_delete : RamTreeState → Text → RamTreeState
remove_remote_delete self path =
    with_marks self self.dirs self.local_deletes (retain_other path self.remote_deletes)

unfoldable pub has_remote_delete : RamTreeState → Text → Bool
has_remote_delete self path = contains path self.remote_deletes

unfoldable pub start_copies : RamTreeState → List CopyOp → RamTreeState
start_copies self ops = with_copies self self.completed_sync (self.in_progress_copies ++ ops)

-- `retain(|c| c.target != target)`.
unfoldable pub without_target : Text → List CopyOp → List CopyOp
without_target target [] = []
without_target target (c ∷ cs) =
    let rest = without_target target cs in if eq_bytes c.target target then rest else c ∷ rest

unfoldable pub without_targets : List CopyOp → List CopyOp → List CopyOp
without_targets [] copies = copies
without_targets (op ∷ ops) copies = without_targets ops (without_target op.target copies)

unfoldable pub finish_copies : RamTreeState → List CopyOp → RamTreeState
finish_copies self ops =
    with_copies self self.completed_sync (without_targets ops self.in_progress_copies)

unfoldable pub get_in_progress_copies : RamTreeState → List CopyOp
get_in_progress_copies self = self.in_progress_copies

contains-insert_path :
    (p q : Text) (s : List Text) → contains p (insert_path q s) ≡ (contains p s || eq_bytes q p)
unfolding insert_path contains
contains-insert_path p q s = ground (arith, eq_bytes_sound q p, eq_bytes_comm p q)

-- A directory is known after it is added and not after it is removed, and no other is affected.
pub has_dir-add_dir-remove_dir :
    (st : RamTreeState) (p q : Text)
    → (has_dir (add_dir st q) p ≡ (has_dir st p || eq_bytes q p))
      × (has_dir (remove_dir st q) p ≡ (has_dir st p && not (eq_bytes q p)))
unfolding has_dir add_dir remove_dir
has_dir-add_dir-remove_dir st p q =
    (contains-insert_path p q st.dirs, contains-retain_other p q st.dirs)

-- Whether a copy to a target is in progress.
abbrev pub is_copying : Text → List CopyOp → Bool
is_copying t [] = false
is_copying t (c ∷ cs) = eq_bytes c.target t || is_copying t cs

is_copying-without_target :
    (t u : Text) (cs : List CopyOp)
    → is_copying t (without_target u cs) ≡ (is_copying t cs && not (eq_bytes u t))
unfolding without_target
is_copying-without_target t u [] = refl
is_copying-without_target t u (c ∷ cs) = ground (
  arith,
  is_copying-without_target t u cs,
  eq_bytes_sound c.target u,
  eq_bytes_sound c.target t,
  eq_bytes_comm t u,
  eq_bytes_comm u t,
)

is_copying-without_targets :
    (t : Text) (ops cs : List CopyOp)
    → is_copying t (without_targets ops cs) ≡ (is_copying t cs && not (is_copying t ops))
unfolding without_targets
is_copying-without_targets t [] cs = ground arith
is_copying-without_targets t (op ∷ ops) cs = ground (
  arith,
  is_copying-without_targets t ops (without_target op.target cs),
  is_copying-without_target t op.target cs,
)

-- After copies are finished, a copy to a target is in progress exactly when one was and none of the
-- finished ones had that target.
pub get_in_progress_copies-finish_copies :
    (st : RamTreeState) (ops : List CopyOp) (t : Text)
    → is_copying t (get_in_progress_copies (finish_copies st ops))
      ≡ (is_copying t (get_in_progress_copies st) && not (is_copying t ops))
unfolding get_in_progress_copies finish_copies
get_in_progress_copies-finish_copies st ops t =
    is_copying-without_targets t ops st.in_progress_copies
