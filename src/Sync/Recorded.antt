-- ===== src/Sync/Recorded.antt =====
-- crates/peergos-sync/src/sync.rs: the state of the last synchronisation stays indexed.
use rust_peergos_client.Common.{
  ℕ, Bool, Bool-cases, not, ◌&&◌, inl, inr, Option, none, some, List, Yields, yields, Yields-bind,
  Yields-if, Yields-ok,
}
use rust_peergos_client.Common.Text.{Text}
use rust_peergos_client.Common.Int.{ltb_ℤ}
use rust_peergos_client.Common.Equality.{eq_bytes}
use rust_peergos_client.Sync.State.{FileState, equals_ignore_modtime, RamTreeState, add, by_hash}
use rust_peergos_client.Sync.Index.{IsIndexed, add-IsIndexed, remove-IsIndexed}
use rust_peergos_client.Sync.Marks.{
  add_local_delete, remove_local_delete, has_local_delete, add_remote_delete, remove_remote_delete,
  has_remote_delete,
}
use rust_peergos_client.Sync.FileSystem.{SyncFilesystem}
use rust_peergos_client.Sync.Conflict.{rename_on_conflict}
use rust_peergos_client.Sync.Renames.{eq_file_state, extra, is_rename, to_move}
use rust_peergos_client.Sync.Handlers.{
  World, copy_file, copy_to_local, copy_to_remote, keep_both, settle, drop_local_delete,
  drop_remote_delete, handle_remote_addition, handle_local_addition, handle_concurrent_addition,
  handle_local_delete, handle_remote_delete, handle_concurrent_change, handle_both_exist, sync_file,
}

abbrev extra_in : RamTreeState → RamTreeState → FileState → List FileState
extra_in tree other f = extra (by_hash tree f.hash) (by_hash other f.hash)

pub drop_deletes-IsIndexed :
    (a b : Bool) (p q : Text) (st : RamTreeState)
    → IsIndexed st
    → IsIndexed (drop_local_delete a p st) × IsIndexed (drop_remote_delete b q st)
unfolding drop_local_delete drop_remote_delete remove_local_delete remove_remote_delete
drop_deletes-IsIndexed a b p q st h = (
  elim (Bool-cases (not a && has_local_delete st p)) [ inl t ↦ rw t h | inr f ↦ rw f h ],
  elim (Bool-cases (not b && has_remote_delete st q)) [ inl t ↦ rw t h | inr f ↦ rw f h ],
)

module _ {L R : Type 0} (local_fs : SyncFilesystem L) (remote_fs : SyncFilesystem R) where
  abbrev pub Recorded : World L R → Type 0
  Recorded w = IsIndexed w.synced

  copy_to_local-Recorded :
      (f : FileState) (w : World L R)
      → Recorded w
      → Yields Recorded (copy_to_local local_fs remote_fs f w)
  unfolding copy_to_local
  copy_to_local-Recorded f w h =
      Yields-bind (copy_file remote_fs local_fs w.remote w.local f.rel_path)
        (λ l e. yields (add-IsIndexed w.synced f h))

  copy_to_remote-Recorded :
      (f : FileState) (w : World L R)
      → Recorded w
      → Yields Recorded (copy_to_remote local_fs remote_fs f w)
  unfolding copy_to_remote
  copy_to_remote-Recorded f w h =
      Yields-bind (copy_file local_fs remote_fs w.local w.remote f.rel_path)
        (λ r e. yields (add-IsIndexed w.synced f h))

  module _ (local_tree remote_tree : RamTreeState) (w : World L R) (h : Recorded w) where
    remote_addition-Recorded :
        (f : FileState)
        → Yields Recorded (handle_remote_addition local_fs remote_fs local_tree remote_tree f w)
    unfolding handle_remote_addition
    remote_addition-Recorded f =
        Yields-if
          (is_rename (extra_in remote_tree local_tree f) (extra_in local_tree remote_tree f)
            remote_tree f.rel_path)
          (λ _.
            Yields-bind
              (to_move (extra_in remote_tree local_tree f) (extra_in local_tree remote_tree f)
                f.rel_path)
              (λ moved _.
                Yields-if (not (remote_fs.exists w.remote f.rel_path)) (λ _. yields h)
                  (λ _. Yields-bind (local_fs.move_to w.local moved.rel_path f.rel_path) (λ l _.
                    yields (add-IsIndexed _ f (remove-IsIndexed w.synced moved.rel_path h))))))
          (λ _. copy_to_local-Recorded f w h)

    local_addition-Recorded :
        (f : FileState)
        → Yields Recorded (handle_local_addition local_fs remote_fs local_tree remote_tree f w)
    unfolding handle_local_addition
    local_addition-Recorded f =
        Yields-if
          (is_rename (extra_in local_tree remote_tree f) (extra_in remote_tree local_tree f)
            local_tree f.rel_path)
          (λ _.
            Yields-bind
              (to_move (extra_in local_tree remote_tree f) (extra_in remote_tree local_tree f)
                f.rel_path)
              (λ moved _.
                Yields-if (not (local_fs.exists w.local f.rel_path)) (λ _. yields h)
                  (λ _. Yields-bind (remote_fs.move_to w.remote moved.rel_path f.rel_path) (λ r _.
                    yields (add-IsIndexed _ f (remove-IsIndexed w.synced moved.rel_path h))))))
          (λ _. copy_to_remote-Recorded f w h)

    local_delete-Recorded :
        (a : Bool) (s f : FileState)
        → Yields Recorded (handle_local_delete local_fs remote_fs local_tree remote_tree a s f w)
    unfolding handle_local_delete add_local_delete
    local_delete-Recorded a s f =
        Yields-if (equals_ignore_modtime s f)
          (λ _.
            Yields-if
              (is_rename (extra_in local_tree remote_tree f) (extra_in remote_tree local_tree f)
                local_tree s.rel_path)
              (λ _. yields h)
              (λ _.
                Yields-if a
                  (λ _.
                    Yields-bind (remote_fs.delete w.remote s.rel_path)
                      (λ r _. yields (remove-IsIndexed w.synced s.rel_path h)))
                  (λ _. yields h)))
          (λ _.
            Yields-if (eq_bytes f.hash s.hash) (λ _. yields (add-IsIndexed w.synced f h))
              (λ _. Yields-bind (copy_to_local local_fs remote_fs f w) (λ w' e.
                yields
                  (drop_deletes-IsIndexed a a f.rel_path f.rel_path w'.synced
                    (Yields-ok (copy_to_local-Recorded f w h) e)).0)))

    remote_delete-Recorded :
        (a : Bool) (s f : FileState)
        → Yields Recorded (handle_remote_delete local_fs remote_fs local_tree remote_tree a s f w)
    unfolding handle_remote_delete add_remote_delete
    remote_delete-Recorded a s f =
        Yields-if (equals_ignore_modtime s f)
          (λ _.
            Yields-if
              (is_rename (extra_in remote_tree local_tree f) (extra_in local_tree remote_tree f)
                remote_tree s.rel_path)
              (λ _. yields h)
              (λ _.
                Yields-if a
                  (λ _.
                    Yields-bind (local_fs.delete w.local s.rel_path)
                      (λ l _. yields (remove-IsIndexed w.synced s.rel_path h)))
                  (λ _. yields h)))
          (λ _.
            Yields-if (eq_bytes f.hash s.hash) (λ _. yields (add-IsIndexed w.synced f h))
              (λ _. Yields-bind (copy_to_remote local_fs remote_fs f w) (λ w' e.
                yields
                  (drop_deletes-IsIndexed a a f.rel_path f.rel_path w'.synced
                    (Yields-ok (copy_to_remote-Recorded f w h) e)).1)))

  module _ (fuel : ℕ) (local remote : FileState) (w : World L R) (h : Recorded w) where
    keep_both-Recorded : Yields Recorded (keep_both local_fs remote_fs fuel local remote w)
    unfolding keep_both
    keep_both-Recorded =
        Yields-bind (rename_on_conflict local_fs fuel w.local local.rel_path local)
          (λ (l, renamed) _.
            Yields-bind
              (copy_to_local local_fs remote_fs remote
                record { local = l; remote = w.remote; synced = w.synced })
              (λ w' e.
                copy_to_remote-Recorded renamed w'
                  (Yields-ok (copy_to_local-Recorded remote _ h) e)))

    concurrent_addition-Recorded :
        Yields Recorded (handle_concurrent_addition local_fs remote_fs fuel local remote w)
    unfolding handle_concurrent_addition
    concurrent_addition-Recorded =
        Yields-if (eq_bytes local.hash remote.hash)
          (λ _.
            Yields-if (ltb_ℤ remote.modification_time local.modification_time)
              (λ _.
                Yields-bind
                  (remote_fs.set_modification_time w.remote local.rel_path local.modification_time)
                  (λ r _. yields (add-IsIndexed w.synced local h)))
              (λ _.
                Yields-if (ltb_ℤ local.modification_time remote.modification_time)
                  (λ _.
                    Yields-bind
                      (local_fs.set_modification_time w.local local.rel_path
                        remote.modification_time)
                      (λ l _. yields (add-IsIndexed w.synced remote h)))
                  (λ _. yields (add-IsIndexed w.synced local h))))
          (λ _. keep_both-Recorded)

    both_exist-Recorded :
        (a b : Bool) (s : FileState)
        → Yields Recorded (handle_both_exist local_fs remote_fs fuel a b s local remote w)
    unfolding handle_both_exist handle_concurrent_change settle remove_local_delete
        remove_remote_delete
    both_exist-Recorded a b s =
        Yields-if (equals_ignore_modtime s local)
          (λ _.
            Yields-if (eq_bytes remote.hash local.hash) (λ _. yields (settled remote.rel_path))
              (λ _.
                Yields-if (has_remote_delete w.synced remote.rel_path)
                  (λ _.
                    Yields-bind (keep_both local_fs remote_fs fuel local remote w)
                      (λ w' e. yields (Yields-ok keep_both-Recorded e)))
                  (λ _. copy_to_local-Recorded remote w h)))
          (λ _.
            Yields-if (equals_ignore_modtime s remote)
              (λ _.
                Yields-if (eq_bytes local.hash remote.hash) (λ _. yields (settled local.rel_path))
                  (λ _.
                    Yields-if (has_local_delete w.synced local.rel_path)
                      (λ _.
                        Yields-bind (keep_both local_fs remote_fs fuel local remote w)
                          (λ w' e. yields (Yields-ok keep_both-Recorded e)))
                      (λ _. copy_to_remote-Recorded local w h)))
              (λ _.
                Yields-if (eq_file_state local remote)
                  (λ _. yields (add-IsIndexed w.synced local h))
                  (λ _.
                    Yields-if (eq_bytes s.hash remote.hash) (λ _. copy_to_remote-Recorded local w h)
                      (λ _. keep_both-Recorded))))
      where
        settled :
            (p : Text)
            → IsIndexed (drop_remote_delete b p (drop_local_delete a p (add w.synced local)))
        settled p =
            (drop_deletes-IsIndexed b b p p _
              (drop_deletes-IsIndexed a a p p _ (add-IsIndexed w.synced local h)).0).1

  pub sync_file-Recorded :
      (fuel : ℕ) (local_tree remote_tree : RamTreeState) (a b : Bool) (s l r : Option FileState)
      (w : World L R)
      → Recorded w
      → Yields Recorded (sync_file local_fs remote_fs fuel local_tree remote_tree a b s l r w)
  unfolding sync_file
  sync_file-Recorded fuel lt rt a b none none none w h = yields h
  sync_file-Recorded fuel lt rt a b none none (some r) w h = remote_addition-Recorded lt rt w h r
  sync_file-Recorded fuel lt rt a b none (some l) none w h = local_addition-Recorded lt rt w h l
  sync_file-Recorded fuel lt rt a b none (some l) (some r) w h =
      concurrent_addition-Recorded fuel l r w h
  sync_file-Recorded fuel lt rt a b (some s) none none w h =
      yields (remove-IsIndexed w.synced s.rel_path h)
  sync_file-Recorded fuel lt rt a b (some s) none (some r) w h =
      local_delete-Recorded lt rt w h a s r
  sync_file-Recorded fuel lt rt a b (some s) (some l) none w h =
      remote_delete-Recorded lt rt w h b s l
  sync_file-Recorded fuel lt rt a b (some s) (some l) (some r) w h =
      both_exist-Recorded fuel l r w h a b s
