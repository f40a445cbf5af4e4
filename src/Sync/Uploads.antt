-- ===== src/Sync/Uploads.antt =====
-- crates/peergos-sync/src/sync.rs: the uploads of small files in `sync_dir`. A `HashMap` that is iterated is a list in the
-- order of its first insertions.
use rust_peergos_client.Common.{List, [], ◌∷◌, ◌++◌, Result, ok, ◌>>=◌, ok_or, if◌then◌else◌, ◌==◌}
use rust_peergos_client.Common.Text.{Text}
use rust_peergos_client.Common.Equality.{eq_bytes}
use rust_peergos_client.Sync.State.{RamTreeState, add, by_path}
use rust_peergos_client.Sync.FileSystem.{
  SyncFilesystem, SyncError, panicked, UploadFile, UploadFolder,
}
use rust_peergos_client.Sync.Paths.{split_path, slash}
use rust_peergos_client.Sync.Handlers.{World}

-- `dir.split('/')`.
unfoldable pub split_slash : Text → List Text
split_slash [] = [] ∷ []
split_slash (c ∷ s) = elim (split_slash s) [
  | [] ↦ []
  | t ∷ ts ↦ if c == slash then [] ∷ t ∷ ts else (c ∷ t) ∷ ts
]

abbrev pub components : Text → List Text
components [] = []
components (c ∷ s) = split_slash (c ∷ s)

-- `folders.entry(dir).or_insert_with(..).files.push(file)`.
unfoldable pub add_upload :
    Text → UploadFile → List (Text × UploadFolder) → List (Text × UploadFolder)
unfolding split_slash
add_upload dir file [] = (dir, record { rel_path = components dir; files = file ∷ [] }) ∷ []
add_upload dir file ((d, folder) ∷ rest) =
    let later = add_upload dir file rest in
    if eq_bytes d dir
    then (d, record folder { files = folder.files ++ (file ∷ []) }) ∷ rest
    else (d, folder) ∷ later

abbrev pub folder_list : List (Text × UploadFolder) → List UploadFolder
folder_list [] = []
folder_list ((d, f) ∷ rest) = f ∷ folder_list rest

unfoldable pub record_batch :
    RamTreeState → List Text → RamTreeState → Result SyncError RamTreeState
record_batch local_state [] synced = ok synced
record_batch local_state (path ∷ paths) synced =
    ok_or (by_path local_state path) panicked >>= λ state.
    record_batch local_state paths (add synced state)

module _ {L R : Type 0} (local_fs : SyncFilesystem L) (remote_fs : SyncFilesystem R)
    (local_state : RamTreeState) where
  unfoldable pub read_batch :
      L → List Text → List (Text × UploadFolder) → Result SyncError (List (Text × UploadFolder))
  unfolding add_upload split_path
  read_batch l [] folders = ok folders
  read_batch l (path ∷ paths) folders = ok_or (by_path local_state path) panicked >>= λ state.
      local_fs.read l path >>= λ contents.
      let (dir, fname) = split_path path in
      read_batch l paths
        (add_upload dir (record { name = fname; size = state.size; contents = contents }) folders)

  unfoldable pub upload_batches : List (List Text) → World L R → Result SyncError (World L R)
  unfolding read_batch record_batch
  upload_batches [] w = ok w
  upload_batches ([] ∷ batches) w = upload_batches batches w
  upload_batches ((p ∷ ps) ∷ batches) w = read_batch w.local (p ∷ ps) [] >>= λ folders.
      remote_fs.upload_subtree w.remote (folder_list folders) >>= λ r.
      record_batch local_state (p ∷ ps) w.synced >>= λ synced.
      upload_batches batches record { local = w.local; remote = r; synced = synced }
