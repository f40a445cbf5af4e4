-- ===== src/Sync/Deletes.antt =====
-- crates/peergos-sync/src/sync.rs: the deletes of `sync_dir` in bulk. A `HashMap` that is iterated is a list in the
-- order of its first insertions.
use rust_peergos_client.Common.{Bool, List, [], ◌∷◌, ◌++◌, Result, ok, ◌>>=◌, if◌then◌else◌}
use rust_peergos_client.Common.Text.{Text}
use rust_peergos_client.Common.Equality.{eq_bytes}
use rust_peergos_client.Sync.State.{RamTreeState, remove, insert_path}
use rust_peergos_client.Sync.Marks.{add_local_delete}
use rust_peergos_client.Sync.FileSystem.{SyncFilesystem, SyncError}
use rust_peergos_client.Sync.Paths.{split_path, slash, dot}
use rust_peergos_client.Sync.Handlers.{World}

-- `by_folder.entry(dir).or_default().insert(fname)`.
unfoldable pub add_child : Text → Text → List (Text × List Text) → List (Text × List Text)
add_child dir fname [] = (dir, fname ∷ []) ∷ []
add_child dir fname ((d, names) ∷ rest) =
    let later = add_child dir fname rest in
    if eq_bytes d dir then (d, insert_path fname names) ∷ rest else (d, names) ∷ later

unfoldable pub full_path : Text → Text → Text
full_path [] fname = fname
full_path (c ∷ dir) fname = (c ∷ dir) ++ (slash ∷ fname)

unfoldable pub remove_all : Text → List Text → RamTreeState → RamTreeState
unfolding full_path
remove_all dir [] synced = synced
remove_all dir (fname ∷ rest) synced = remove_all dir rest (remove synced (full_path dir fname))

-- The deletes by folder, or marked as ignored.
unfoldable pub group_deletes :
    Bool
    → List Text
    → List (Text × List Text)
    → RamTreeState
    → List (Text × List Text) × RamTreeState
unfolding add_child split_path
group_deletes sync_local_deletes [] folders synced = (folders, synced)
group_deletes sync_local_deletes (path ∷ paths) folders synced =
    let (dir, fname) = split_path path in
    if sync_local_deletes
    then group_deletes sync_local_deletes paths (add_child dir fname folders) synced
    else group_deletes sync_local_deletes paths folders (add_local_delete synced path)

module _ {L R : Type 0} (remote_fs : SyncFilesystem R) where
  unfoldable pub bulk_delete_all :
      List (Text × List Text) → World L R → Result SyncError (World L R)
  unfolding remove_all
  bulk_delete_all [] w = ok w
  bulk_delete_all ((dir, children) ∷ rest) w =
      let dir_path : Text = elim dir [ [] ↦ dot ∷ [] | c ∷ d ↦ c ∷ d ] in
      remote_fs.bulk_delete w.remote dir_path children >>= λ r.
      bulk_delete_all rest
        record { local = w.local; remote = r; synced = remove_all dir children w.synced }
