-- ===== src/Sync/Directories.antt =====
-- crates/peergos-sync/src/sync.rs: the directories in `sync_dir`.
use rust_peergos_client.Common.{
  Bool, not, ◌&&◌, List, [], ◌∷◌, length, compare, Ordering, Result, ok, ◌>>=◌, if◌then◌else◌,
}
use rust_peergos_client.Common.Text.{Text}
use rust_peergos_client.Cbor.Object.{lex_cmp, then_with}
use rust_peergos_client.Sync.State.{RamTreeState}
use rust_peergos_client.Sync.Marks.{add_dir, remove_dir, has_dir}
use rust_peergos_client.Sync.FileSystem.{SyncFilesystem, SyncError}
use rust_peergos_client.Sync.Handlers.{World, with_synced}

-- The order of `dirs.sort_by`: longer paths first, then the greater.
unfoldable pub insert_dir : Text → List Text → List Text
insert_dir d [] = d ∷ []
insert_dir d (e ∷ es) = elim (then_with (compare (length e) (length d)) (lex_cmp e d)) [
  | Ordering.gt ↦ e ∷ insert_dir d es
  | other ↦ d ∷ e ∷ es
]

unfoldable pub sort_dirs : List Text → List Text
unfolding insert_dir
sort_dirs [] = []
sort_dirs (d ∷ ds) = insert_dir d (sort_dirs ds)

module _ {L R : Type 0} (local_fs : SyncFilesystem L) (remote_fs : SyncFilesystem R)
    (local_state remote_state : RamTreeState) where
  unfoldable pub sync_directory : Bool → Bool → Text → World L R → Result SyncError (World L R)
  sync_directory sync_local_deletes sync_remote_deletes dir w =
      let has_local = has_dir local_state dir in
      let has_remote = has_dir remote_state dir in
      let has_synced = has_dir w.synced dir in
      if has_local && has_remote
      then ok (with_synced w (add_dir w.synced dir))
      else if not has_local && not has_remote
      then ok (with_synced w (remove_dir w.synced dir))
      else if has_local
      then (if has_synced
          then (if sync_remote_deletes
              then (local_fs.delete w.local dir >>= λ l.
                  ok record { local = l; remote = w.remote; synced = remove_dir w.synced dir })
              else ok w)
          else (remote_fs.mkdirs w.remote dir >>= λ r.
              ok record { local = w.local; remote = r; synced = add_dir w.synced dir }))
      else (if has_synced
          then (if sync_local_deletes
              then (remote_fs.delete w.remote dir >>= λ r.
                  ok record { local = w.local; remote = r; synced = remove_dir w.synced dir })
              else ok w)
          else (local_fs.mkdirs w.local dir >>= λ l.
              ok record { local = l; remote = w.remote; synced = add_dir w.synced dir }))

  unfoldable pub sync_directories :
      Bool → Bool → List Text → World L R → Result SyncError (World L R)
  unfolding sync_directory
  sync_directories sync_local_deletes sync_remote_deletes [] w = ok w
  sync_directories sync_local_deletes sync_remote_deletes (d ∷ ds) w =
      sync_directory sync_local_deletes sync_remote_deletes d w >>= λ w'.
      sync_directories sync_local_deletes sync_remote_deletes ds w'
