-- ===== src/Sync/Agree.antt =====
-- crates/peergos-sync/src/sync.rs: after a path that is on both sides is synchronised, the sides agree
-- on it.
use rust_peergos_client.Common.{
  ℕ, ◌≡◌, refl, sym, ◌∙◌, arith, Bool, true, Option, none, some, length, drop_past, append-nil, ◌≤◌,
  Bytes, ok, Yields, yields, Yields-bind, Yields-if, Yields-ok, Yields-of,
}
use rust_peergos_client.Common.Int.{ltb_ℤ}
use rust_peergos_client.Common.Text.{Text}
use rust_peergos_client.Common.Equality.{eq_bytes, eq_bytes_refl, eq_bytes_comm}
use rust_peergos_client.Sync.State.{FileState, RamTreeState, equals_ignore_modtime}
use rust_peergos_client.Sync.Marks.{has_local_delete, has_remote_delete}
use rust_peergos_client.Sync.FileSystem.{SyncFilesystem}
use rust_peergos_client.Sync.Names.{IsRelative}
use rust_peergos_client.Sync.Lawful.{overwrite, replace, IsLawful}
use rust_peergos_client.Sync.KeepBoth.{copy_to_local-Down, copy_to_remote-Up, keep_both-BothKept}
use rust_peergos_client.Sync.Renames.{eq_file_state}
use rust_peergos_client.Sync.Handlers.{
  World, copy_to_local, copy_to_remote, keep_both, handle_concurrent_addition,
  handle_concurrent_change, handle_both_exist, settle, sync_file,
}

module _ {L R : Type 0} (local_fs : SyncFilesystem L) (remote_fs : SyncFilesystem R)
    (content_l : L → Text → Option Bytes) (content_r : R → Text → Option Bytes)
    (lawful_l : IsLawful local_fs content_l overwrite)
    (lawful_r : IsLawful remote_fs content_r replace) where
  abbrev pub Agree : Text → World L R → Type 0
  Agree path w = content_l w.local path ≡ content_r w.remote path

  -- A file that is copied to the local side is no shorter than the one it replaces.
  abbrev pub Fits : Text → World L R → Type 0
  Fits path w =
      (old d : Bytes)
      → content_l w.local path ≡ some old
      → content_r w.remote path ≡ some d
      → length old ≤ length d

  overwrite-Fits :
      (d : Bytes) (o : Option Bytes)
      → ((old : Bytes) → o ≡ some old → length old ≤ length d)
      → overwrite d o ≡ d
  unfolding overwrite
  overwrite-Fits d none h = refl
  overwrite-Fits d (some old) h = rw (drop_past old (length d) (h old refl)) (append-nil d)

  copy_to_local-Agree :
      (f : FileState) (w : World L R)
      → Fits f.rel_path w
      → Yields (Agree f.rel_path) (copy_to_local local_fs remote_fs f w)
  copy_to_local-Agree f w fits = Yields-of (copy_to_local local_fs remote_fs f w) (λ w' e.
      let (d, c, r, l) =
        Yields-ok (copy_to_local-Down local_fs remote_fs content_l content_r lawful_l lawful_r f w)
          e in
      let whole = overwrite-Fits d (content_l w.local f.rel_path) (λ old h. fits old d h c) in
      ground (arith, r, c, whole, l f.rel_path, eq_bytes_refl f.rel_path))

  copy_to_remote-Agree :
      (f : FileState) (w : World L R)
      → Yields (Agree f.rel_path) (copy_to_remote local_fs remote_fs f w)
  copy_to_remote-Agree f w = Yields-of (copy_to_remote local_fs remote_fs f w) (λ w' e.
      let (d, c, l, r) =
        Yields-ok (copy_to_remote-Up local_fs remote_fs content_l content_r lawful_l lawful_r f w)
          e in
      ground (arith, l, c, r f.rel_path, eq_bytes_refl f.rel_path))

  module _ (fuel : ℕ) (local remote : FileState) (w : World L R) (d : Bytes)
      (same : local.rel_path ≡ remote.rel_path) (rel : IsRelative local.rel_path)
      (has : content_l w.local local.rel_path ≡ some d)
      (faithful : eq_bytes local.hash remote.hash ≡ true → Agree local.rel_path w)
      (fits : Fits local.rel_path w) where
    keep_both-Agree :
        Yields (Agree local.rel_path) (keep_both local_fs remote_fs fuel local remote w)
    keep_both-Agree = Yields-of (keep_both local_fs remote_fs fuel local remote w) (λ w' e.
        let (q, _, _, _, l, r) =
          keep_both-BothKept local_fs remote_fs content_l content_r lawful_l lawful_r fuel local
            remote w w' d same rel has e in
        l ∙ sym r)

    down : Yields (Agree local.rel_path) (copy_to_local local_fs remote_fs remote w)
    down = rw same (copy_to_local-Agree remote w (rw (sym same) fits))

    concurrent_addition-Agree :
        Yields
          (Agree local.rel_path)
          (handle_concurrent_addition local_fs remote_fs fuel local remote w)
    unfolding handle_concurrent_addition
    concurrent_addition-Agree =
        Yields-if (eq_bytes local.hash remote.hash)
          (λ e.
            Yields-if (ltb_ℤ remote.modification_time local.modification_time)
              (λ _.
                Yields-bind
                  (remote_fs.set_modification_time w.remote local.rel_path local.modification_time)
                  (λ r m. yields (
                    faithful e
                    ∙ sym (
                        lawful_r.after_set_time w.remote r local.rel_path local.rel_path
                          local.modification_time m))))
              (λ _.
                Yields-if (ltb_ℤ local.modification_time remote.modification_time)
                  (λ _.
                    Yields-bind
                      (local_fs.set_modification_time w.local local.rel_path
                        remote.modification_time)
                      (λ l m. yields (
                        lawful_l.after_set_time w.local l local.rel_path local.rel_path
                          remote.modification_time m
                        ∙ faithful e)))
                  (λ _. yields (faithful e))))
          (λ _. keep_both-Agree)

    concurrent_change-Agree :
        (synced : FileState)
        → Yields
            (Agree local.rel_path)
            (handle_concurrent_change local_fs remote_fs fuel synced local remote w)
    unfolding handle_concurrent_change eq_file_state
    concurrent_change-Agree synced =
        Yields-if (eq_file_state local remote) (λ e. yields (faithful (ground (arith, e))))
          (λ _.
            Yields-if (eq_bytes synced.hash remote.hash) (λ _. copy_to_remote-Agree local w)
              (λ _. keep_both-Agree))

    both_exist-Agree :
        (sync_local_deletes sync_remote_deletes : Bool) (synced : FileState)
        → Yields (Agree local.rel_path) (
            handle_both_exist local_fs remote_fs fuel sync_local_deletes sync_remote_deletes synced
              local remote w)
    unfolding handle_both_exist settle
    both_exist-Agree sync_local_deletes sync_remote_deletes synced =
        Yields-if (equals_ignore_modtime synced local)
          (λ _.
            Yields-if (eq_bytes remote.hash local.hash)
              (λ e. yields (faithful (eq_bytes_comm local.hash remote.hash ∙ e)))
              (λ _.
                Yields-if (has_remote_delete w.synced remote.rel_path)
                  (λ _.
                    Yields-bind (keep_both local_fs remote_fs fuel local remote w)
                      (λ w' e. yields (Yields-ok keep_both-Agree e)))
                  (λ _. down)))
          (λ _.
            Yields-if (equals_ignore_modtime synced remote)
              (λ _.
                Yields-if (eq_bytes local.hash remote.hash) (λ e. yields (faithful e))
                  (λ _.
                    Yields-if (has_local_delete w.synced local.rel_path)
                      (λ _.
                        Yields-bind (keep_both local_fs remote_fs fuel local remote w)
                          (λ w' e. yields (Yields-ok keep_both-Agree e)))
                      (λ _. copy_to_remote-Agree local w)))
              (λ _. concurrent_change-Agree synced))

    -- In lawful file systems, where a relative path is on both sides, equal hashes mean equal files and the
    -- remote file is no shorter than the local one, the sides agree on the path after a synchronisation of it
    -- that succeeds, whatever was synchronised before and whatever the flags.
    pub sync_file-Agree :
        (local_tree remote_tree : RamTreeState) (sync_local_deletes sync_remote_deletes : Bool)
        (synced : Option FileState) (w' : World L R)
        → sync_file local_fs remote_fs fuel local_tree remote_tree sync_local_deletes
            sync_remote_deletes synced
            (some local)
            (some remote)
            w
          ≡ ok w'
        → content_l w'.local local.rel_path ≡ content_r w'.remote local.rel_path
    unfolding sync_file
    sync_file-Agree local_tree remote_tree sync_local_deletes sync_remote_deletes none w' e =
        Yields-ok concurrent_addition-Agree e
    sync_file-Agree local_tree remote_tree sync_local_deletes sync_remote_deletes (some s) w' e =
        Yields-ok (both_exist-Agree sync_local_deletes sync_remote_deletes s) e
