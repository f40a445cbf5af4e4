-- ===== src/Sync/DirRuns.antt =====
-- Runs of `sync_dir` on two sides in memory, and the theorems at concrete inputs.
use rust_peergos_client.Common.{
  ◌≡◌, refl, true, false, none, some, List, [], ◌∷◌, Bytes, All, take, drop, ok, err,
}
use rust_peergos_client.Common.Int.{pos}
use rust_peergos_client.Common.Text.{Text}
use rust_peergos_client.Common.Equality.{eq_bytes}
use rust_peergos_client.Cbor.Object.{lex_cmp}
use rust_peergos_client.Sync.State.{
  FileState, equals_ignore_modtime, RamTreeState, new, add, remove, by_path, by_hash, lookup,
  insert_key, remove_key, push_path, unindex, retain_other, found, contains, insert_path, keys,
  all_file_paths,
}
use rust_peergos_client.Sync.Index.{IsIndexed, add-IsIndexed}
use rust_peergos_client.Sync.Marks.{has_dir, get_dirs, add_dir}
use rust_peergos_client.Sync.FileSystem.{failed}
use rust_peergos_client.Sync.Paths.{split_path, rfind, join}
use rust_peergos_client.Sync.Renames.{
  eq_file_state, contains_state, extra, position, at_hashed_path, is_rename, to_move,
}
use rust_peergos_client.Sync.Handlers.{World}
use rust_peergos_client.Sync.Passes.{
  legacy_chunk_size, chunk_size_for_new_files, state_of, add_dirs, add_known, add_hashed,
  build_dir_state, insert_text, insert_texts, is_ignored, is_same, settled, first_pass,
}
use rust_peergos_client.Sync.Plan.{
  no_plan, batch_file, is_plain, plan_delete, plan_path, second_pass,
}
use rust_peergos_client.Sync.Uploads.{
  split_slash, add_upload, read_batch, record_batch, upload_batches,
}
use rust_peergos_client.Sync.Deletes.{
  add_child, full_path, remove_all, bulk_delete_all, group_deletes,
}
use rust_peergos_client.Sync.Directories.{insert_dir, sort_dirs, sync_directory, sync_directories}
use rust_peergos_client.Sync.Engine.{sync_each, sync_paths, sync_dir}
use rust_peergos_client.Sync.RamSide.{Ram, local_ram, remote_ram}
use rust_peergos_client.Sync.OtherDeletes.{Delete, BulkDelete, with_deletes}
use rust_peergos_client.Sync.NoDeletes.{sync_dir-no_deletes}
use rust_peergos_client.Sync.Batches.{IsBatch, second_pass-IsBatch}
use rust_peergos_client.Sync.DirRecorded.{sync_dir-IsIndexed}
use rust_peergos_client.Sync.RenamesFound.{new-IsKeyed, add-IsKeyed, is_rename-to_move}

abbrev file_at : Text → Bytes → FileState
file_at path hash = record {
  rel_path = path;
  modification_time = pos 1;
  size = 1;
  hash = hash;
  chunk_size = 5242880;
}

new-IsIndexed : IsIndexed new
unfolding new lookup
new-IsIndexed h p = refl

-- A file at "a" that is new on the local side, and one at "b" that is gone from it.
abbrev before : World Ram Ram
before = record {
  local = (b'a' ∷ [], 1 ∷ []) ∷ [];
  remote = (b'b' ∷ [], 2 ∷ []) ∷ [];
  synced = add new (file_at (b'b' ∷ []) (2 ∷ []));
}

abbrev after : World Ram Ram
after = elim (sync_dir local_ram remote_ram 1 true true before) [ ok w ↦ w | err e ↦ before ]

sync_dir_run : sync_dir local_ram remote_ram 1 true true before ≡ ok after
unfolding sync_dir sync_paths build_dir_state state_of add_dirs add_known add_hashed
    legacy_chunk_size chunk_size_for_new_files insert_texts insert_text lex_cmp first_pass settled
    is_same is_ignored second_pass plan_path plan_delete is_plain no_plan batch_file upload_batches
    read_batch record_batch add_upload split_slash group_deletes add_child bulk_delete_all
    remove_all full_path sync_each sync_directories sync_directory sort_dirs insert_dir split_path
    rfind by_path by_hash new add remove lookup insert_key remove_key push_path unindex retain_other
    found contains insert_path keys all_file_paths equals_ignore_modtime eq_bytes eq_file_state
    contains_state extra position at_hashed_path take drop has_dir get_dirs add_dir
sync_dir_run = refl

-- The new file was uploaded, and the delete carried over.
after_remote : after.remote ≡ (b'a' ∷ [], 1 ∷ []) ∷ []
unfolding sync_dir sync_paths build_dir_state state_of add_dirs add_known add_hashed
    legacy_chunk_size chunk_size_for_new_files insert_texts insert_text lex_cmp first_pass settled
    is_same is_ignored second_pass plan_path plan_delete is_plain no_plan batch_file upload_batches
    read_batch record_batch add_upload split_slash group_deletes add_child bulk_delete_all
    remove_all full_path sync_each sync_directories sync_directory sort_dirs insert_dir split_path
    rfind by_path by_hash new add remove lookup insert_key remove_key push_path unindex retain_other
    found contains insert_path keys all_file_paths equals_ignore_modtime eq_bytes eq_file_state
    contains_state extra position at_hashed_path take drop has_dir get_dirs add_dir join
after_remote = refl

before-IsIndexed : IsIndexed before.synced
before-IsIndexed = add-IsIndexed new (file_at (b'b' ∷ []) (2 ∷ [])) new-IsIndexed

sync_dir-IsIndexed_example : IsIndexed after.synced
sync_dir-IsIndexed_example =
    sync_dir-IsIndexed local_ram remote_ram 1 true true before after before-IsIndexed sync_dir_run

abbrev no_delete : Delete Ram
no_delete s p = err (failed p)

abbrev no_bulk_delete : BulkDelete Ram
no_bulk_delete s dir names = err (failed dir)

sync_dir-no_deletes_example :
    sync_dir
      (with_deletes local_ram no_delete no_bulk_delete)
      (with_deletes remote_ram no_delete no_bulk_delete)
      1
      false
      false
      before
    ≡ sync_dir local_ram remote_ram 1 false false before
sync_dir-no_deletes_example =
    sync_dir-no_deletes local_ram remote_ram no_delete no_bulk_delete no_delete no_bulk_delete 1
      before

abbrev local_files : RamTreeState
local_files = add new (file_at (b'a' ∷ []) (1 ∷ []))

abbrev remote_files : RamTreeState
remote_files = add new (file_at (b'b' ∷ []) (1 ∷ []))

second_pass-IsBatch_example :
    let plan = second_pass local_files new new ((b'a' ∷ []) ∷ []) no_plan in
    All (IsBatch local_files) plan.batches × IsBatch local_files plan.current
second_pass-IsBatch_example = second_pass-IsBatch local_files new new ((b'a' ∷ []) ∷ [])

-- The file at "a" was at "b".
renamed_here : by_path local_files (b'a' ∷ []) ≡ some (file_at (b'a' ∷ []) (1 ∷ []))
unfolding by_path new add remove lookup insert_key remove_key eq_bytes
renamed_here = refl

renamed_away : by_path remote_files (b'a' ∷ []) ≡ none
unfolding by_path new add remove lookup insert_key remove_key eq_bytes
renamed_away = refl

abbrev renamed : List FileState
renamed = extra (by_hash local_files (1 ∷ [])) (by_hash remote_files (1 ∷ []))

abbrev counterparts : List FileState
counterparts = extra (by_hash remote_files (1 ∷ [])) (by_hash local_files (1 ∷ []))

rename_run : is_rename renamed counterparts local_files (b'a' ∷ []) ≡ true
unfolding is_rename at_hashed_path position extra contains_state eq_file_state by_hash by_path found
    new add remove lookup insert_key remove_key push_path eq_bytes
rename_run = refl

is_rename-to_move_example :
    (source : FileState) × (to_move renamed counterparts (b'a' ∷ []) ≡ ok source)
is_rename-to_move_example =
    is_rename-to_move local_files remote_files (file_at (b'a' ∷ []) (1 ∷ []))
      (add-IsIndexed new (file_at (b'a' ∷ []) (1 ∷ [])) new-IsIndexed)
      (add-IsKeyed new (file_at (b'b' ∷ []) (1 ∷ [])) new-IsKeyed) renamed_here renamed_away
      rename_run
