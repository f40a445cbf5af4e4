-- ===== src/Sync/Engine.antt =====
-- crates/peergos-sync/src/sync.rs: `sync_dir`.
use rust_peergos_client.Common.{ℕ, Bool, List, [], ◌∷◌, ◌++◌, Result, ok, ◌>>=◌, if◌then◌else◌}
use rust_peergos_client.Common.Text.{Text}
use rust_peergos_client.Sync.State.{RamTreeState, new, by_path, contains, all_file_paths}
use rust_peergos_client.Sync.Marks.{get_dirs}
use rust_peergos_client.Sync.FileSystem.{SyncFilesystem, SyncError}
use rust_peergos_client.Sync.Handlers.{World, with_synced, sync_file}
use rust_peergos_client.Sync.Passes.{build_dir_state, insert_texts, first_pass}
use rust_peergos_client.Sync.Uploads.{upload_batches}
use rust_peergos_client.Sync.Deletes.{bulk_delete_all, group_deletes}
use rust_peergos_client.Sync.Directories.{sort_dirs, sync_directories}
use rust_peergos_client.Sync.Plan.{second_pass, no_plan, Plan}

module _ {L R : Type 0} (local_fs : SyncFilesystem L) (remote_fs : SyncFilesystem R)
    (local_state remote_state : RamTreeState) where
  unfoldable pub sync_each :
      ℕ → Bool → Bool → List Text → List Text → World L R → Result SyncError (World L R)
  sync_each fuel sync_local_deletes sync_remote_deletes done [] w = ok w
  sync_each fuel sync_local_deletes sync_remote_deletes done (path ∷ paths) w =
      let rest =
        λ (w' : World L R). sync_each fuel sync_local_deletes sync_remote_deletes done paths w' in
      if contains path done
      then rest w
      else (sync_file local_fs remote_fs fuel local_state remote_state sync_local_deletes
            sync_remote_deletes (by_path w.synced path) (by_path local_state path)
            (by_path remote_state path) w
          >>= rest)

  -- What `sync_dir` does from its second pass on.
  unfoldable pub sync_paths :
      ℕ → Bool → Bool → Plan → List Text → World L R → Result SyncError (World L R)
  unfolding sync_each
  sync_paths fuel sync_local_deletes sync_remote_deletes plan changed w =
      upload_batches local_fs remote_fs local_state (plan.batches ++ (plan.current ∷ [])) w
      >>= λ w1.
          let (folders, synced) =
            group_deletes sync_local_deletes plan.local_deletes [] w1.synced in
          bulk_delete_all remote_fs folders (with_synced w1 synced) >>= λ w2.
          sync_each fuel sync_local_deletes sync_remote_deletes plan.done_files changed w2 >>= λ w3.
          let dirs =
            insert_texts (get_dirs w3.synced)
              (insert_texts (get_dirs remote_state) (insert_texts (get_dirs local_state) [])) in
          sync_directories local_fs remote_fs local_state remote_state sync_local_deletes
            sync_remote_deletes (sort_dirs dirs) w3

module _ {L R : Type 0} (local_fs : SyncFilesystem L) (remote_fs : SyncFilesystem R) where
  unfoldable pub sync_dir : ℕ → Bool → Bool → World L R → Result SyncError (World L R)
  unfolding sync_paths
  sync_dir fuel sync_local_deletes sync_remote_deletes w =
      build_dir_state local_fs w.local w.synced new >>= λ local_state.
      build_dir_state remote_fs w.remote w.synced new >>= λ remote_state.
      let all_paths =
        insert_texts (all_file_paths remote_state) (insert_texts (all_file_paths local_state) []) in
      let (synced, changed) =
        first_pass sync_local_deletes sync_remote_deletes local_state remote_state all_paths
          w.synced in
      sync_paths local_fs remote_fs local_state remote_state fuel sync_local_deletes
        sync_remote_deletes (second_pass local_state remote_state synced changed no_plan) changed
        (with_synced w synced)
