-- ===== src/Sync/NoDeletes.antt =====
-- crates/peergos-sync/src/sync.rs: `sync_dir` for sides with other deletes.
use rust_peergos_client.Common.{
  ℕ, ◌≡◌, refl, false, List, [], ◌∷◌, ◌++◌, ok_or, >>=-same, >>=-rest, if-same,
}
use rust_peergos_client.Common.Text.{Text}
use rust_peergos_client.Sync.State.{RamTreeState, new, all_file_paths, by_path, contains}
use rust_peergos_client.Sync.FileSystem.{SyncFilesystem, panicked, UploadFolder}
use rust_peergos_client.Sync.Handlers.{World, with_synced}
use rust_peergos_client.Sync.Passes.{insert_texts, first_pass}
use rust_peergos_client.Sync.Uploads.{read_batch, record_batch, upload_batches, folder_list}
use rust_peergos_client.Sync.Deletes.{group_deletes, bulk_delete_all}
use rust_peergos_client.Sync.Directories.{sync_directory, sync_directories}
use rust_peergos_client.Sync.Engine.{sync_each, sync_paths, sync_dir}
use rust_peergos_client.Sync.Plan.{Plan, second_pass, no_plan}
use rust_peergos_client.Sync.OtherDeletes.{
  Delete, BulkDelete, with_deletes, build_dir_state-same, sync_file-same,
}

module _ {L R : Type 0} (local_fs : SyncFilesystem L) (remote_fs : SyncFilesystem R) (dl : Delete L)
    (bl : BulkDelete L) (dr : Delete R) (br : BulkDelete R) where
  abbrev local_other : SyncFilesystem L
  local_other = with_deletes local_fs dl bl

  abbrev remote_other : SyncFilesystem R
  remote_other = with_deletes remote_fs dr br

  module _ (local_state remote_state : RamTreeState) where
    read_batch-same :
        (l : L) (paths : List Text) (folders : List (Text × UploadFolder))
        → read_batch local_other remote_other local_state l paths folders
          ≡ read_batch local_fs remote_fs local_state l paths folders
    unfolding read_batch
    read_batch-same l [] folders = refl
    read_batch-same l (p ∷ ps) folders =
        >>=-rest (ok_or (by_path local_state p) panicked)
          (λ state. >>=-rest (local_fs.read l p) (λ contents. read_batch-same l ps _))

    upload_batches-same :
        (batches : List (List Text)) (w : World L R)
        → upload_batches local_other remote_other local_state batches w
          ≡ upload_batches local_fs remote_fs local_state batches w
    unfolding upload_batches record_batch
    upload_batches-same [] w = refl
    upload_batches-same ([] ∷ batches) w = upload_batches-same batches w
    upload_batches-same ((p ∷ ps) ∷ batches) w =
        >>=-same (read_batch-same w.local (p ∷ ps) []) (λ folders.
          >>=-rest (remote_fs.upload_subtree w.remote (folder_list folders)) (λ r.
            >>=-rest (record_batch local_state (p ∷ ps) w.synced)
              (λ synced. upload_batches-same batches _)))

    sync_each-same :
        (fuel : ℕ) (done paths : List Text) (w : World L R)
        → sync_each local_other remote_other local_state remote_state fuel false false done paths w
          ≡ sync_each local_fs remote_fs local_state remote_state fuel false false done paths w
    unfolding sync_each
    sync_each-same fuel done [] w = refl
    sync_each-same fuel done (p ∷ ps) w =
        if-same (contains p done) (sync_each-same fuel done ps w) (
          >>=-same
            (sync_file-same local_fs remote_fs dl bl dr br fuel w local_state remote_state
              (by_path w.synced p) (by_path local_state p) (by_path remote_state p))
            (λ w'. sync_each-same fuel done ps w'))

    sync_directories-same :
        (dirs : List Text) (w : World L R)
        → sync_directories local_other remote_other local_state remote_state false false dirs w
          ≡ sync_directories local_fs remote_fs local_state remote_state false false dirs w
    unfolding sync_directories sync_directory
    sync_directories-same [] w = refl
    sync_directories-same (d ∷ ds) w =
        >>=-rest (sync_directory local_fs remote_fs local_state remote_state false false d w)
          (λ w'. sync_directories-same ds w')

  -- Nothing is grouped where deletes are not carried over.
  group_deletes-nil :
      (paths : List Text) (synced : RamTreeState) → (group_deletes false paths [] synced).0 ≡ []
  unfolding group_deletes
  group_deletes-nil [] synced = refl
  group_deletes-nil (p ∷ ps) synced = group_deletes-nil ps _

  bulk_delete_all-same :
      (folders : List (Text × List Text)) (w : World L R)
      → folders ≡ []
      → bulk_delete_all remote_other folders w ≡ bulk_delete_all remote_fs folders w
  unfolding bulk_delete_all
  bulk_delete_all-same [] w e = refl
  bulk_delete_all-same (f ∷ fs) w e = cc

  sync_paths-same :
      (local_state remote_state : RamTreeState) (fuel : ℕ) (plan : Plan) (changed : List Text)
      (w : World L R)
      → sync_paths local_other remote_other local_state remote_state fuel false false plan changed w
        ≡ sync_paths local_fs remote_fs local_state remote_state fuel false false plan changed w
  unfolding sync_paths
  sync_paths-same local_state remote_state fuel plan changed w =
      >>=-same
        (upload_batches-same local_state remote_state (plan.batches ++ (plan.current ∷ [])) w)
        (λ w1.
          let grouped = group_deletes false plan.local_deletes [] w1.synced in
          >>=-same
            (bulk_delete_all-same grouped.0 (with_synced w1 grouped.1)
              (group_deletes-nil plan.local_deletes w1.synced))
            (λ w2.
              >>=-same (sync_each-same local_state remote_state fuel plan.done_files changed w2)
                (λ w3. sync_directories-same local_state remote_state _ w3)))

  -- Where deletes are carried over in neither direction, a synchronisation gives the same for sides whose
  -- deletes, of a path and in bulk, do anything else.
  pub sync_dir-no_deletes :
      (fuel : ℕ) (w : World L R)
      → sync_dir local_other remote_other fuel false false w
        ≡ sync_dir local_fs remote_fs fuel false false w
  unfolding sync_dir
  sync_dir-no_deletes fuel w =
      >>=-same (build_dir_state-same local_fs dl bl w.local w.synced new) (λ local_state.
        >>=-same (build_dir_state-same remote_fs dr br w.remote w.synced new) (λ remote_state.
          let paths =
            insert_texts (all_file_paths remote_state)
              (insert_texts (all_file_paths local_state) []) in
          let (synced, changed) = first_pass false false local_state remote_state paths w.synced in
          let plan = second_pass local_state remote_state synced changed no_plan in
          sync_paths-same local_state remote_state fuel plan changed (with_synced w synced)))
