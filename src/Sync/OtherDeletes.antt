-- ===== src/Sync/OtherDeletes.antt =====
-- crates/peergos-sync/src/sync.rs: `build_dir_state` and `sync_file` for sides with other deletes.
use rust_peergos_client.Common.{
  ℕ, zero, suc, ◌+◌, ◌%◌, ◌^◌, ◌≡◌, refl, false, not, Option, none, some, List, [], ◌∷◌, Result,
  ◌>>=◌, ok_or, >>=-same, >>=-rest, if-same,
}
use rust_peergos_client.Common.Text.{Text}
use rust_peergos_client.Common.Equality.{eq_bytes}
use rust_peergos_client.Sync.State.{FileState, equals_ignore_modtime, RamTreeState, add}
use rust_peergos_client.Sync.Marks.{has_local_delete, has_remote_delete}
use rust_peergos_client.Sync.FileSystem.{SyncFilesystem, SyncError, panicked}
use rust_peergos_client.Sync.Paths.{
  find, file_name, parent, join, marker, marked, marker_parts, first_candidate,
}
use rust_peergos_client.Sync.Conflict.{
  next_version, free_version, conflict_name, rename_on_conflict,
}
use rust_peergos_client.Sync.Renames.{eq_file_state}
use rust_peergos_client.Sync.Handlers.{
  World, make_parent, copy_file, copy_to_local, copy_to_remote, keep_both, handle_remote_addition,
  handle_local_addition, handle_concurrent_addition, handle_local_delete, handle_remote_delete,
  handle_concurrent_change, handle_both_exist, sync_file,
}
use rust_peergos_client.Sync.Passes.{no_hash, add_hashed, build_dir_state}

abbrev pub Delete : Type 0 → Type 0
Delete S = S → Text → Result SyncError S

abbrev pub BulkDelete : Type 0 → Type 0
BulkDelete S = S → Text → List Text → Result SyncError S

-- A side with other operations for deletes.
abbrev pub with_deletes :
    {S : Type 0} → SyncFilesystem S → Delete S → BulkDelete S → SyncFilesystem S
with_deletes fs d b = record fs { delete = d; bulk_delete = b }

module _ {S : Type 0} (fs : SyncFilesystem S) (d : Delete S) (b : BulkDelete S) where
  abbrev other : SyncFilesystem S
  other = with_deletes fs d b

  next_version-same :
      (fuel : ℕ) (s : S) (dir candidate : Text)
      → next_version other fuel s dir candidate ≡ next_version fs fuel s dir candidate
  unfolding next_version
  next_version-same zero s dir candidate = refl
  next_version-same (suc fuel) s dir candidate =
      if-same (not (fs.exists s (join dir candidate))) refl (next_version-same fuel s dir candidate)

  free_version-same :
      (fuel : ℕ) (s : S) (dir name : Text) (version : ℕ)
      → free_version other fuel s dir name version ≡ free_version fs fuel s dir name version
  unfolding free_version
  free_version-same zero s dir name version = refl
  free_version-same (suc fuel) s dir name version =
      if-same (not (fs.exists s (join dir (first_candidate name version)))) refl
        (free_version-same fuel s dir name ((version + 1) % 2 ^ 32))

  conflict_name-same :
      (fuel : ℕ) (s : S) (dir name : Text)
      → conflict_name other fuel s dir name ≡ conflict_name fs fuel s dir name
  unfolding conflict_name
  conflict_name-same fuel s dir name = λ i. elim (find marker name) [
    | some cs ↦ ok_or (marker_parts name cs) panicked >>= λ (before, (ver, rest)).
        next_version-same fuel s dir (marked before ((ver + 1) % 2 ^ 32) rest) i
    | none ↦ free_version-same fuel s dir name 0 i
  ]

  rename_on_conflict-same :
      (fuel : ℕ) (s : S) (path : Text) (state : FileState)
      → rename_on_conflict other fuel s path state ≡ rename_on_conflict fs fuel s path state
  unfolding rename_on_conflict
  rename_on_conflict-same fuel s path state =
      >>=-same (conflict_name-same fuel s (parent path) (file_name path)) (λ name. refl)

  add_hashed-same :
      (s : S) (synced : RamTreeState) (files : List FileState) (res : RamTreeState)
      → add_hashed other s synced files res ≡ add_hashed fs s synced files res
  unfolding add_hashed
  add_hashed-same s synced [] res = refl
  add_hashed-same s synced (f ∷ files) res =
      if-same (eq_bytes f.hash no_hash)
        (>>=-same refl (λ (hash, used).
          add_hashed-same s synced files (add res (record f { hash = hash; chunk_size = used }))))
        (add_hashed-same s synced files res)

  pub build_dir_state-same :
      (s : S) (synced res : RamTreeState)
      → build_dir_state other s synced res ≡ build_dir_state fs s synced res
  unfolding build_dir_state
  build_dir_state-same s synced res =
      >>=-rest (fs.subtree s)
        (λ (files, dirs). >>=-same (add_hashed-same s synced _ _) (λ res'. refl))

module _ {L R : Type 0} (local_fs : SyncFilesystem L) (remote_fs : SyncFilesystem R) (dl : Delete L)
    (bl : BulkDelete L) (dr : Delete R) (br : BulkDelete R) where
  abbrev local_other : SyncFilesystem L
  local_other = with_deletes local_fs dl bl

  abbrev remote_other : SyncFilesystem R
  remote_other = with_deletes remote_fs dr br

  copy_to_local-same :
      (f : FileState) (w : World L R)
      → copy_to_local local_other remote_other f w ≡ copy_to_local local_fs remote_fs f w
  unfolding copy_to_local copy_file make_parent
  copy_to_local-same f w = refl

  copy_to_remote-same :
      (f : FileState) (w : World L R)
      → copy_to_remote local_other remote_other f w ≡ copy_to_remote local_fs remote_fs f w
  unfolding copy_to_remote copy_file make_parent
  copy_to_remote-same f w = refl

  module _ (fuel : ℕ) (w : World L R) where
    keep_both-same :
        (local remote : FileState)
        → keep_both local_other remote_other fuel local remote w
          ≡ keep_both local_fs remote_fs fuel local remote w
    unfolding keep_both
    keep_both-same local remote =
        >>=-same (rename_on_conflict-same local_fs dl bl fuel w.local local.rel_path local)
          (λ (l, renamed).
            >>=-same (copy_to_local-same remote _) (λ w'. copy_to_remote-same renamed w'))

    concurrent_addition-same :
        (local remote : FileState)
        → handle_concurrent_addition local_other remote_other fuel local remote w
          ≡ handle_concurrent_addition local_fs remote_fs fuel local remote w
    unfolding handle_concurrent_addition
    concurrent_addition-same local remote =
        if-same (eq_bytes local.hash remote.hash) refl (keep_both-same local remote)

    concurrent_change-same :
        (s local remote : FileState)
        → handle_concurrent_change local_other remote_other fuel s local remote w
          ≡ handle_concurrent_change local_fs remote_fs fuel s local remote w
    unfolding handle_concurrent_change
    concurrent_change-same s local remote = if-same (eq_file_state local remote) refl (
        if-same (eq_bytes s.hash remote.hash) (copy_to_remote-same local w)
          (keep_both-same local remote))

    both_exist-same :
        (s local remote : FileState)
        → handle_both_exist local_other remote_other fuel false false s local remote w
          ≡ handle_both_exist local_fs remote_fs fuel false false s local remote w
    unfolding handle_both_exist
    both_exist-same s local remote =
        if-same (equals_ignore_modtime s local)
          (if-same (eq_bytes remote.hash local.hash) refl (
            if-same (has_remote_delete w.synced remote.rel_path)
              (>>=-same (keep_both-same local remote) (λ w'. refl)) (copy_to_local-same remote w)))
          (if-same (equals_ignore_modtime s remote)
            (if-same (eq_bytes local.hash remote.hash) refl (
              if-same (has_local_delete w.synced local.rel_path)
                (>>=-same (keep_both-same local remote) (λ w'. refl))
                (copy_to_remote-same local w)))
            (concurrent_change-same s local remote))

    pub sync_file-same :
        (local_tree remote_tree : RamTreeState) (s l r : Option FileState)
        → sync_file local_other remote_other fuel local_tree remote_tree false false s l r w
          ≡ sync_file local_fs remote_fs fuel local_tree remote_tree false false s l r w
    unfolding sync_file handle_remote_addition handle_local_addition handle_local_delete
        handle_remote_delete copy_to_local copy_to_remote copy_file make_parent
    sync_file-same local_tree remote_tree none none none = refl
    sync_file-same local_tree remote_tree none none (some r) = refl
    sync_file-same local_tree remote_tree none (some l) none = refl
    sync_file-same local_tree remote_tree none (some l) (some r) = concurrent_addition-same l r
    sync_file-same local_tree remote_tree (some s) none none = refl
    sync_file-same local_tree remote_tree (some s) none (some r) = refl
    sync_file-same local_tree remote_tree (some s) (some l) none = refl
    sync_file-same local_tree remote_tree (some s) (some l) (some r) = both_exist-same s l r
