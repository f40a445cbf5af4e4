-- ===== src/Sync/Handlers.antt =====
-- crates/peergos-sync/src/sync.rs: what is done with one path, from its states on the two sides and at
-- the last synchronisation. Messages of the log are left out.
use rust_peergos_client.Common.{
  ℕ, Bool, not, ◌&&◌, Option, none, some, [], ◌∷◌, Result, ok, ◌>>=◌, if◌then◌else◌,
}
use rust_peergos_client.Common.Int.{ltb_ℤ}
use rust_peergos_client.Common.Text.{Text}
use rust_peergos_client.Common.Equality.{eq_bytes}
use rust_peergos_client.Sync.State.{
  FileState, equals_ignore_modtime, RamTreeState, add, remove, by_hash,
}
use rust_peergos_client.Sync.Marks.{
  add_local_delete, remove_local_delete, has_local_delete, add_remote_delete, remove_remote_delete,
  has_remote_delete,
}
use rust_peergos_client.Sync.FileSystem.{SyncFilesystem, SyncError}
use rust_peergos_client.Sync.Paths.{parent}
use rust_peergos_client.Sync.Conflict.{rename_on_conflict}
use rust_peergos_client.Sync.Renames.{eq_file_state, extra, is_rename, to_move}

-- Both sides and the state of the last synchronisation.
pub record World (L R : Type 0) : Type 0 where
  pub local : L
  pub remote : R
  pub synced : RamTreeState

-- `mkdirs` of the parent, where there is one.
unfoldable pub make_parent : {S : Type 0} → SyncFilesystem S → S → Text → Result SyncError S
make_parent fs s path = elim (parent path) [ [] ↦ ok s | c ∷ dir ↦ fs.mkdirs s (c ∷ dir) ]

-- The file of one side is written to the other.
unfoldable pub copy_file :
    {A B : Type 0} → SyncFilesystem A → SyncFilesystem B → A → B → Text → Result SyncError B
copy_file source target a b path = make_parent target b path >>= λ b'.
    source.read a path >>= λ contents. target.write b' path contents

abbrev pub Step : Type 0 → Type 0 → Type 0
Step L R = World L R → Result SyncError (World L R)

abbrev pub with_synced : {L R : Type 0} → World L R → RamTreeState → World L R
with_synced w s = record { local = w.local; remote = w.remote; synced = s }

abbrev pub record_state : {L R : Type 0} → FileState → Step L R
record_state f w = ok (with_synced w (add w.synced f))

unfoldable pub drop_local_delete : Bool → Text → RamTreeState → RamTreeState
drop_local_delete sync_local_deletes path s =
    if not sync_local_deletes && has_local_delete s path then remove_local_delete s path else s

unfoldable pub drop_remote_delete : Bool → Text → RamTreeState → RamTreeState
drop_remote_delete sync_remote_deletes path s =
    if not sync_remote_deletes && has_remote_delete s path then remove_remote_delete s path else s

-- The same file on both sides: it is recorded, and deletes that were not carried out are forgotten.
unfoldable pub settle : {L R : Type 0} → Bool → Bool → Text → FileState → Step L R
settle sync_local_deletes sync_remote_deletes path local w = ok (
    with_synced w (
      drop_remote_delete sync_remote_deletes path
        (drop_local_delete sync_local_deletes path (add w.synced local))))

module _ {L R : Type 0} (local_fs : SyncFilesystem L) (remote_fs : SyncFilesystem R) where
  -- Copies the local file to the other side, or the remote one to this side, and records it.
  unfoldable pub copy_to_remote : FileState → Step L R
  copy_to_remote f w = copy_file local_fs remote_fs w.local w.remote f.rel_path >>= λ r.
      ok record { local = w.local; remote = r; synced = add w.synced f }

  unfoldable pub copy_to_local : FileState → Step L R
  copy_to_local f w = copy_file remote_fs local_fs w.remote w.local f.rel_path >>= λ l.
      ok record { local = l; remote = w.remote; synced = add w.synced f }

  unfoldable pub handle_remote_addition : RamTreeState → RamTreeState → FileState → Step L R
  handle_remote_addition local_tree remote_tree remote w =
      let extra_local = extra (by_hash local_tree remote.hash) (by_hash remote_tree remote.hash) in
      let extra_remote = extra (by_hash remote_tree remote.hash) (by_hash local_tree remote.hash) in
      if is_rename extra_remote extra_local remote_tree remote.rel_path
      then (to_move extra_remote extra_local remote.rel_path >>= λ moved.
          if not (remote_fs.exists w.remote remote.rel_path)
          then ok w
          else (local_fs.move_to w.local moved.rel_path remote.rel_path >>= λ l. ok record {
            local = l;
            remote = w.remote;
            synced = add (remove w.synced moved.rel_path) remote;
          }))
      else copy_to_local remote w

  unfoldable pub handle_local_addition : RamTreeState → RamTreeState → FileState → Step L R
  handle_local_addition local_tree remote_tree local w =
      let extra_remote = extra (by_hash remote_tree local.hash) (by_hash local_tree local.hash) in
      let extra_local = extra (by_hash local_tree local.hash) (by_hash remote_tree local.hash) in
      if is_rename extra_local extra_remote local_tree local.rel_path
      then (to_move extra_local extra_remote local.rel_path >>= λ moved.
          if not (local_fs.exists w.local local.rel_path)
          then ok w
          else (remote_fs.move_to w.remote moved.rel_path local.rel_path >>= λ r. ok record {
            local = w.local;
            remote = r;
            synced = add (remove w.synced moved.rel_path) local;
          }))
      else copy_to_remote local w

  -- Both versions are kept: the local one is renamed, and each side gets the version of the other.
  unfoldable pub keep_both : ℕ → FileState → FileState → Step L R
  keep_both fuel local remote w =
      rename_on_conflict local_fs fuel w.local local.rel_path local >>= λ (l, renamed).
      copy_to_local remote record { local = l; remote = w.remote; synced = w.synced } >>= λ w'.
      copy_to_remote renamed w'

  unfoldable pub handle_concurrent_addition : ℕ → FileState → FileState → Step L R
  handle_concurrent_addition fuel local remote w =
      if eq_bytes local.hash remote.hash
      then (if ltb_ℤ remote.modification_time local.modification_time
          then (remote_fs.set_modification_time w.remote local.rel_path local.modification_time
              >>= λ r. ok record { local = w.local; remote = r; synced = add w.synced local })
          else if ltb_ℤ local.modification_time remote.modification_time
          then (local_fs.set_modification_time w.local local.rel_path remote.modification_time
              >>= λ l. ok record { local = l; remote = w.remote; synced = add w.synced remote })
          else record_state local w)
      else keep_both fuel local remote w

  unfoldable pub handle_local_delete :
      RamTreeState → RamTreeState → Bool → FileState → FileState → Step L R
  handle_local_delete local_tree remote_tree sync_local_deletes synced remote w =
      let extra_remote = extra (by_hash remote_tree remote.hash) (by_hash local_tree remote.hash) in
      let extra_local = extra (by_hash local_tree remote.hash) (by_hash remote_tree remote.hash) in
      if equals_ignore_modtime synced remote
      then (if is_rename extra_local extra_remote local_tree synced.rel_path
          then ok w
          else if sync_local_deletes
          then (remote_fs.delete w.remote synced.rel_path >>= λ r.
              ok record { local = w.local; remote = r; synced = remove w.synced synced.rel_path })
          else ok (with_synced w (add_local_delete w.synced synced.rel_path)))
      else if eq_bytes remote.hash synced.hash
      then record_state remote w
      else (copy_to_local remote w >>= λ w'.
          ok (with_synced w' (drop_local_delete sync_local_deletes remote.rel_path w'.synced)))

  unfoldable pub handle_remote_delete :
      RamTreeState → RamTreeState → Bool → FileState → FileState → Step L R
  handle_remote_delete local_tree remote_tree sync_remote_deletes synced local w =
      let extra_local = extra (by_hash local_tree local.hash) (by_hash remote_tree local.hash) in
      let extra_remote = extra (by_hash remote_tree local.hash) (by_hash local_tree local.hash) in
      if equals_ignore_modtime synced local
      then (if is_rename extra_remote extra_local remote_tree synced.rel_path
          then ok w
          else if sync_remote_deletes
          then (local_fs.delete w.local synced.rel_path >>= λ l.
              ok record { local = l; remote = w.remote; synced = remove w.synced synced.rel_path })
          else ok (with_synced w (add_remote_delete w.synced synced.rel_path)))
      else if eq_bytes local.hash synced.hash
      then record_state local w
      else (copy_to_remote local w >>= λ w'.
          ok (with_synced w' (drop_remote_delete sync_remote_deletes local.rel_path w'.synced)))

  unfoldable pub handle_concurrent_change : ℕ → FileState → FileState → FileState → Step L R
  handle_concurrent_change fuel synced local remote w =
      if eq_file_state local remote
      then record_state local w
      else if eq_bytes synced.hash remote.hash
      then copy_to_remote local w
      else keep_both fuel local remote w

  unfoldable pub handle_both_exist : ℕ → Bool → Bool → FileState → FileState → FileState → Step L R
  handle_both_exist fuel sync_local_deletes sync_remote_deletes synced local remote w =
      if equals_ignore_modtime synced local
      then (if eq_bytes remote.hash local.hash
          then settle sync_local_deletes sync_remote_deletes remote.rel_path local w
          else if has_remote_delete w.synced remote.rel_path
          then (keep_both fuel local remote w >>= λ w'.
              ok (with_synced w' (remove_remote_delete w'.synced remote.rel_path)))
          else copy_to_local remote w)
      else if equals_ignore_modtime synced remote
      then (if eq_bytes local.hash remote.hash
          then settle sync_local_deletes sync_remote_deletes local.rel_path local w
          else if has_local_delete w.synced local.rel_path
          then (keep_both fuel local remote w >>= λ w'.
              ok (with_synced w' (remove_local_delete w'.synced local.rel_path)))
          else copy_to_remote local w)
      else handle_concurrent_change fuel synced local remote w

  unfoldable pub sync_file :
      ℕ
      → RamTreeState
      → RamTreeState
      → Bool
      → Bool
      → Option FileState
      → Option FileState
      → Option FileState
      → Step L R
  sync_file fuel local_tree remote_tree sync_local_deletes sync_remote_deletes none none none w =
      ok w
  sync_file fuel local_tree remote_tree sync_local_deletes sync_remote_deletes none none (some r)
        w =
      handle_remote_addition local_tree remote_tree r w
  sync_file fuel local_tree remote_tree sync_local_deletes sync_remote_deletes none (some l) none
        w =
      handle_local_addition local_tree remote_tree l w
  sync_file fuel local_tree remote_tree sync_local_deletes sync_remote_deletes none (some l)
        (some r) w =
      handle_concurrent_addition fuel l r w
  sync_file fuel local_tree remote_tree sync_local_deletes sync_remote_deletes (some s) none none
        w =
      ok (with_synced w (remove w.synced s.rel_path))
  sync_file fuel local_tree remote_tree sync_local_deletes sync_remote_deletes (some s) none
        (some r) w =
      handle_local_delete local_tree remote_tree sync_local_deletes s r w
  sync_file fuel local_tree remote_tree sync_local_deletes sync_remote_deletes (some s) (some l)
        none w =
      handle_remote_delete local_tree remote_tree sync_remote_deletes s l w
  sync_file fuel local_tree remote_tree sync_local_deletes sync_remote_deletes (some s) (some l)
        (some r) w =
      handle_both_exist fuel sync_local_deletes sync_remote_deletes s l r w
