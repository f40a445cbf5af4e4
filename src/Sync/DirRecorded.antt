-- ===== src/Sync/DirRecorded.antt =====
-- crates/peergos-sync/src/sync.rs: `sync_dir` keeps the state of the last synchronisation indexed.
use rust_peergos_client.Common.{
  ℕ, ◌≡◌, Bool, not, ◌&&◌, List, [], ◌∷◌, ◌++◌, ok, Yields, yields, Yields-bind, Yields-if,
  Yields-ok,
}
use rust_peergos_client.Common.Text.{Text}
use rust_peergos_client.Sync.State.{RamTreeState, new, all_file_paths, by_path, contains}
use rust_peergos_client.Sync.Index.{IsIndexed}
use rust_peergos_client.Sync.Marks.{add_dir, remove_dir, has_dir}
use rust_peergos_client.Sync.FileSystem.{SyncFilesystem}
use rust_peergos_client.Sync.Handlers.{World, with_synced}
use rust_peergos_client.Sync.Passes.{build_dir_state, insert_texts, first_pass}
use rust_peergos_client.Sync.Paths.{dot}
use rust_peergos_client.Sync.Plan.{Plan, second_pass, no_plan}
use rust_peergos_client.Sync.Uploads.{read_batch, record_batch, upload_batches, folder_list}
use rust_peergos_client.Sync.Deletes.{group_deletes, bulk_delete_all}
use rust_peergos_client.Sync.Directories.{sync_directory, sync_directories}
use rust_peergos_client.Sync.Engine.{sync_each, sync_paths, sync_dir}
use rust_peergos_client.Sync.Recorded.{sync_file-Recorded}
use rust_peergos_client.Sync.PassRecorded.{
  record_batch-IsIndexed, remove_all-IsIndexed, group_deletes-IsIndexed, first_pass-IsIndexed,
}

module _ {L R : Type 0} (local_fs : SyncFilesystem L) (remote_fs : SyncFilesystem R) where
  abbrev IsRecorded : World L R → Type 0
  IsRecorded w = IsIndexed w.synced

  upload_batches-Recorded :
      (local_state : RamTreeState) (batches : List (List Text)) (w : World L R)
      → IsRecorded w
      → Yields IsRecorded (upload_batches local_fs remote_fs local_state batches w)
  unfolding upload_batches
  upload_batches-Recorded local_state [] w h = yields h
  upload_batches-Recorded local_state ([] ∷ batches) w h =
      upload_batches-Recorded local_state batches w h
  upload_batches-Recorded local_state ((p ∷ ps) ∷ batches) w h =
      Yields-bind (read_batch local_fs remote_fs local_state w.local (p ∷ ps) []) (λ folders _.
        Yields-bind (remote_fs.upload_subtree w.remote (folder_list folders)) (λ r _.
          Yields-bind (record_batch local_state (p ∷ ps) w.synced) (λ st e.
            upload_batches-Recorded local_state batches _
              (Yields-ok (record_batch-IsIndexed local_state (p ∷ ps) w.synced h) e))))

  bulk_delete_all-Recorded :
      (folders : List (Text × List Text)) (w : World L R)
      → IsRecorded w
      → Yields IsRecorded (bulk_delete_all remote_fs folders w)
  unfolding bulk_delete_all
  bulk_delete_all-Recorded [] w h = yields h
  bulk_delete_all-Recorded ((dir, names) ∷ rest) w h =
      Yields-bind
        (remote_fs.bulk_delete w.remote (elim dir as (λ d. Text) [ [] ↦ dot ∷ [] | c ∷ d ↦ c ∷ d ])
          names)
        (λ r _. bulk_delete_all-Recorded rest _ (remove_all-IsIndexed dir names w.synced h))

  module _ (local_state remote_state : RamTreeState) (a b : Bool) where
    sync_each-Recorded :
        (fuel : ℕ) (done paths : List Text) (w : World L R)
        → IsRecorded w
        → Yields IsRecorded
            (sync_each local_fs remote_fs local_state remote_state fuel a b done paths w)
    unfolding sync_each
    sync_each-Recorded fuel done [] w h = yields h
    sync_each-Recorded fuel done (p ∷ ps) w h =
        Yields-if (contains p done) (λ _. sync_each-Recorded fuel done ps w h)
          (λ _.
            let step =
              sync_file-Recorded local_fs remote_fs fuel local_state remote_state a b
                (by_path w.synced p) (by_path local_state p) (by_path remote_state p) w h in
            Yields-bind _ (λ w' e. sync_each-Recorded fuel done ps w' (Yields-ok step e)))

    sync_directory-Recorded :
        (d : Text) (w : World L R)
        → IsRecorded w
        → Yields IsRecorded (sync_directory local_fs remote_fs local_state remote_state a b d w)
    unfolding sync_directory add_dir remove_dir
    sync_directory-Recorded d w h =
        Yields-if (has_dir local_state d && has_dir remote_state d) (λ _. yields h)
          (λ _.
            Yields-if (not (has_dir local_state d) && not (has_dir remote_state d)) (λ _. yields h)
              (λ _.
                Yields-if (has_dir local_state d)
                  (λ _.
                    Yields-if (has_dir w.synced d)
                      (λ _.
                        Yields-if b (λ _. Yields-bind (local_fs.delete w.local d) (λ l _. yields h))
                          (λ _. yields h))
                      (λ _. Yields-bind (remote_fs.mkdirs w.remote d) (λ r _. yields h)))
                  (λ _.
                    Yields-if (has_dir w.synced d)
                      (λ _.
                        Yields-if a
                          (λ _. Yields-bind (remote_fs.delete w.remote d) (λ r _. yields h))
                          (λ _. yields h))
                      (λ _. Yields-bind (local_fs.mkdirs w.local d) (λ l _. yields h)))))

    sync_directories-Recorded :
        (dirs : List Text) (w : World L R)
        → IsRecorded w
        → Yields IsRecorded
            (sync_directories local_fs remote_fs local_state remote_state a b dirs w)
    unfolding sync_directories
    sync_directories-Recorded [] w h = yields h
    sync_directories-Recorded (d ∷ ds) w h =
        Yields-bind (sync_directory local_fs remote_fs local_state remote_state a b d w)
          (λ w' e. sync_directories-Recorded ds w' (Yields-ok (sync_directory-Recorded d w h) e))

    sync_paths-Recorded :
        (fuel : ℕ) (plan : Plan) (changed : List Text) (w : World L R)
        → IsRecorded w
        → Yields IsRecorded
            (sync_paths local_fs remote_fs local_state remote_state fuel a b plan changed w)
    unfolding sync_paths
    sync_paths-Recorded fuel plan changed w h = Yields-bind _ (λ w1 e1.
        let h1 =
          Yields-ok (upload_batches-Recorded local_state (plan.batches ++ (plan.current ∷ [])) w h)
            e1 in
        let grouped = group_deletes a plan.local_deletes [] w1.synced in
        let h2 = group_deletes-IsIndexed a plan.local_deletes [] w1.synced h1 in
        Yields-bind _ (λ w2 e2.
          let h3 =
            Yields-ok (bulk_delete_all-Recorded grouped.0 (with_synced w1 grouped.1) h2) e2 in
          Yields-bind _ (λ w3 e3.
            sync_directories-Recorded _ w3
              (Yields-ok (sync_each-Recorded fuel plan.done_files changed w2 h3) e3))))

  -- A synchronisation that succeeds leaves an indexed state indexed, whatever the two sides do.
  pub sync_dir-IsIndexed :
      (fuel : ℕ) (a b : Bool) (w w' : World L R)
      → IsIndexed w.synced
      → sync_dir local_fs remote_fs fuel a b w ≡ ok w'
      → IsIndexed w'.synced
  unfolding sync_dir
  sync_dir-IsIndexed fuel a b w w' h e =
      let all : Yields IsRecorded (sync_dir local_fs remote_fs fuel a b w) =
        Yields-bind (build_dir_state local_fs w.local w.synced new) (λ local_state _.
          Yields-bind (build_dir_state remote_fs w.remote w.synced new) (λ remote_state _.
            let paths =
              insert_texts (all_file_paths remote_state)
                (insert_texts (all_file_paths local_state) []) in
            let (st, changed) = first_pass a b local_state remote_state paths w.synced in
            sync_paths-Recorded local_state remote_state a b fuel
              (second_pass local_state remote_state st changed no_plan) changed (with_synced w st)
              (first_pass-IsIndexed a b local_state remote_state paths w.synced h))) in
      Yields-ok all e
