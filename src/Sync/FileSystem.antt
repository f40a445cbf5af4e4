-- ===== src/Sync/FileSystem.antt =====
-- crates/peergos-sync/src/filesystem.rs: the interface of a side of the synchronisation.
use rust_peergos_client.Common.{ℕ, Bool, List, Bytes, Result}
use rust_peergos_client.Common.Int.{ℤ}
use rust_peergos_client.Common.Text.{Text}

-- `failed` is an error of a file system, `panicked` an `unwrap` of nothing or an index out of range.
pub data SyncError : Type 0 where
  failed : Text → SyncError
  panicked out_of_fuel : SyncError

pub record FileProps : Type 0 where
  pub rel_path : Text
  pub modified_time : ℤ
  pub size : ℕ

pub record UploadFile : Type 0 where
  pub name : Text
  pub size : ℕ
  pub contents : Bytes

pub record UploadFolder : Type 0 where
  pub rel_path : List Text
  pub files : List UploadFile

-- `S` is the state of the side. `exists` is `exists(..).await.unwrap_or(false)`, and `subtree` has the
-- files and the directories that `apply_to_subtree` calls its functions with, in order.
pub record SyncFilesystem (S : Type 0) : Type 0 where
  pub exists : S → Text → Bool
  pub mkdirs : S → Text → Result SyncError S
  pub delete : S → Text → Result SyncError S
  pub bulk_delete : S → Text → List Text → Result SyncError S
  pub move_to : S → Text → Text → Result SyncError S
  pub get_last_modified : S → Text → Result SyncError ℤ
  pub set_modification_time : S → Text → ℤ → Result SyncError S
  pub read : S → Text → Result SyncError Bytes
  pub write : S → Text → Bytes → Result SyncError S
  pub hash_file : S → Text → ℕ → ℕ → Result SyncError (Bytes × ℕ)
  pub upload_subtree : S → List UploadFolder → Result SyncError S
  pub subtree : S → Result SyncError (List FileProps × List FileProps)
