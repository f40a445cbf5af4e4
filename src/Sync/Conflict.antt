-- ===== src/Sync/Conflict.antt =====
-- crates/peergos-sync/src/sync.rs: `rename_on_conflict`.
use rust_peergos_client.Common.{
  ℕ, zero, suc, ◌+◌, ◌%◌, ◌^◌, not, none, some, ◌++◌, Result, ok, err, ◌>>=◌, ok_or, if◌then◌else◌,
}
use rust_peergos_client.Common.Int.{ℤ}
use rust_peergos_client.Common.Text.{Text}
use rust_peergos_client.Sync.State.{FileState}
use rust_peergos_client.Sync.FileSystem.{SyncFilesystem, SyncError, out_of_fuel, panicked}
use rust_peergos_client.Sync.Paths.{
  find, file_name, parent, join, marker, marked, marker_parts, first_candidate, strip_suffix,
}

-- `r.unwrap_or(d)`.
abbrev pub ok_or_else : Result SyncError ℤ → ℤ → ℤ
ok_or_else (ok t) d = t
ok_or_else (err e) d = d

module _ {S : Type 0} (fs : SyncFilesystem S) where
  -- The loop of a name that has a marker: the candidate is made from the same version every time.
  unfoldable pub next_version : ℕ → S → Text → Text → Result SyncError Text
  next_version zero s dir candidate = err out_of_fuel
  next_version (suc fuel) s dir candidate =
      let again = next_version fuel s dir candidate in
      if not (fs.exists s (join dir candidate)) then ok candidate else again

  -- The loop of a name that has none, from a version on.
  unfoldable pub free_version : ℕ → S → Text → Text → ℕ → Result SyncError Text
  free_version zero s dir name version = err out_of_fuel
  free_version (suc fuel) s dir name version =
      let again = free_version fuel s dir name ((version + 1) % 2 ^ 32) in
      let candidate = first_candidate name version in
      if not (fs.exists s (join dir candidate)) then ok candidate else again

  unfoldable pub conflict_name : ℕ → S → Text → Text → Result SyncError Text
  conflict_name fuel s dir name = elim (find marker name) [
    | some cs ↦ ok_or (marker_parts name cs) panicked >>= λ (before, (ver, rest)).
        next_version fuel s dir (marked before ((ver + 1) % 2 ^ 32) rest)
    | none ↦ free_version fuel s dir name 0
  ]

  unfoldable pub rename_on_conflict : ℕ → S → Text → FileState → Result SyncError (S × FileState)
  rename_on_conflict fuel s path state =
      let name = file_name path in
      conflict_name fuel s (parent path) name >>= λ new_name.
      let new_path = join (parent path) new_name in
      fs.move_to s path new_path >>= λ s'.
      let new_mtime = ok_or_else (fs.get_last_modified s' new_path) state.modification_time in
      let new_rel_path : Text = elim (strip_suffix state.rel_path name) [
        | some prefix ↦ prefix ++ new_name
        | none ↦ new_name
      ] in
      ok (
        s',
        record {
          rel_path = new_rel_path;
          modification_time = new_mtime;
          size = state.size;
          hash = state.hash;
          chunk_size = state.chunk_size;
        },
      )
