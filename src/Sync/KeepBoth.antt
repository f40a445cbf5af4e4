-- ===== src/Sync/KeepBoth.antt =====
-- crates/peergos-sync/src/sync.rs: a conflict loses neither version.
use rust_peergos_client.Common.{
  ℕ, ◌≡◌, refl, sym, ap, ◌∙◌, arith, Bool-cases, false, Option, none, some, inl, inr, ◌++◌, Bytes,
  ok, if◌then◌else◌, Yields, yields, Yields-bind, Yields-ok, Yields-of,
}
use rust_peergos_client.Common.Text.{Text}
use rust_peergos_client.Common.Equality.{eq_bytes, eq_bytes_refl, eq_bytes_sound, eq_bytes_comm}
use rust_peergos_client.Sync.State.{FileState}
use rust_peergos_client.Sync.FileSystem.{SyncFilesystem}
use rust_peergos_client.Sync.Paths.{parent, file_name, join, strip_suffix}
use rust_peergos_client.Sync.Conflict.{rename_on_conflict, conflict_name}
use rust_peergos_client.Sync.Names.{
  IsRelative, prefix-join, strip_suffix-file_name, conflict_name-Yields,
}
use rust_peergos_client.Sync.Lawful.{overwrite, replace, IsLawful, copy_file-Copied}
use rust_peergos_client.Sync.Handlers.{World, copy_to_local, copy_to_remote, copy_file, keep_both}

module _ {S : Type 0} (fs : SyncFilesystem S) (content : S → Text → Option Bytes)
    (put : Bytes → Option Bytes → Bytes) (lawful : IsLawful fs content put) where
  -- The file at the path went to a path where there was none.
  abbrev pub Renamed : S → Text → S × FileState → Type 0
  Renamed s path t =
      (content s t.1.rel_path ≡ none)
      × ((q : Text)
          → content t.0 q ≡ (
              if eq_bytes t.1.rel_path q
              then content s path
              else if eq_bytes path q
              then none
              else content s q))

  pub rename_on_conflict-Renamed :
      (fuel : ℕ) (s : S) (path : Text) (state : FileState)
      → state.rel_path ≡ path
      → IsRelative path
      → Yields (Renamed s path) (rename_on_conflict fs fuel s path state)
  unfolding rename_on_conflict
  rename_on_conflict-Renamed fuel s path state same rel =
      Yields-bind (conflict_name fs fuel s (parent path) (file_name path)) (λ name e.
        Yields-bind (fs.move_to s path (join (parent path) name)) (λ s' m.
          let target : (elim (strip_suffix state.rel_path (file_name path)) as (λ o. Text) [
            | some prefix ↦ prefix ++ name
            | none ↦ name
          ])
              ≡ join (parent path) name =
            rw (same, strip_suffix-file_name path) (prefix-join path name rel) in
          let free = Yields-ok (conflict_name-Yields fs fuel s (parent path) (file_name path)) e in
          yields (
            ap (content s) target ∙ lawful.not_exists s (join (parent path) name) free,
            λ q. rw target (lawful.after_move s s' path (join (parent path) name) q m),
          )))

module _ {L R : Type 0} (local_fs : SyncFilesystem L) (remote_fs : SyncFilesystem R)
    (content_l : L → Text → Option Bytes) (content_r : R → Text → Option Bytes)
    (lawful_l : IsLawful local_fs content_l overwrite)
    (lawful_r : IsLawful remote_fs content_r replace) where
  -- What copying a file to one side does.
  abbrev pub Down : FileState → World L R → World L R → Type 0
  Down f w w' =
      (d : Bytes) × (content_r w.remote f.rel_path ≡ some d)
      × (w'.remote ≡ w.remote)
      × ((q : Text)
          → content_l w'.local q ≡ (
              if eq_bytes f.rel_path q
              then some (overwrite d (content_l w.local f.rel_path))
              else content_l w.local q))

  abbrev pub Up : FileState → World L R → World L R → Type 0
  Up f w w' =
      (d : Bytes) × (content_l w.local f.rel_path ≡ some d)
      × (w'.local ≡ w.local)
      × ((q : Text)
          → content_r w'.remote q
            ≡ (if eq_bytes f.rel_path q then some d else content_r w.remote q))

  pub copy_to_local-Down :
      (f : FileState) (w : World L R) → Yields (Down f w) (copy_to_local local_fs remote_fs f w)
  unfolding copy_to_local
  copy_to_local-Down f w =
      Yields-bind (copy_file remote_fs local_fs w.remote w.local f.rel_path) (λ l e.
        let copied =
          copy_file-Copied remote_fs local_fs content_r content_l replace overwrite lawful_r
            lawful_l w.remote w.local f.rel_path in
        let (d, source, target) = Yields-ok copied e in yields (d, source, refl, target))

  pub copy_to_remote-Up :
      (f : FileState) (w : World L R) → Yields (Up f w) (copy_to_remote local_fs remote_fs f w)
  unfolding copy_to_remote replace
  copy_to_remote-Up f w =
      Yields-bind (copy_file local_fs remote_fs w.local w.remote f.rel_path) (λ r e.
        let copied =
          copy_file-Copied local_fs remote_fs content_l content_r overwrite replace lawful_l
            lawful_r w.local w.remote f.rel_path in
        let (d, source, target) = Yields-ok copied e in yields (d, source, refl, target))

  -- Both sides have the remote version at `path`, and the local version at another path.
  abbrev pub BothKept : World L R → Text → World L R → Type 0
  BothKept w path w' =
      (q : Text) × (content_l w.local q ≡ none)
      × (content_l w'.local q ≡ content_l w.local path)
      × (content_r w'.remote q ≡ content_l w.local path)
      × (content_l w'.local path ≡ content_r w.remote path)
      × (content_r w'.remote path ≡ content_r w.remote path)

  keep_both-Yields :
      (fuel : ℕ) (local remote : FileState) (w : World L R) (d : Bytes)
      → local.rel_path ≡ remote.rel_path
      → IsRelative local.rel_path
      → content_l w.local local.rel_path ≡ some d
      → Yields (BothKept w local.rel_path) (keep_both local_fs remote_fs fuel local remote w)
  unfolding keep_both
  keep_both-Yields fuel local remote w d same rel has =
      let path = local.rel_path in
      Yields-bind (rename_on_conflict local_fs fuel w.local path local) (λ (l, renamed) e1.
        let (free, moved) =
          Yields-ok
            (rename_on_conflict-Renamed local_fs content_l overwrite lawful_l fuel w.local path
              local refl rel)
            e1 in
        let w1 : World L R = record { local = l; remote = w.remote; synced = w.synced } in
        let q = renamed.rel_path in
        let apart : eq_bytes q path ≡ false = elim (Bool-cases (eq_bytes q path)) [
          | inl t ↦ let e = ap (content_l w.local) (eq_bytes_sound q path t) in cc
          | inr f ↦ f
        ] in
        let apart' : eq_bytes path q ≡ false = eq_bytes_comm path q ∙ apart in
        let gone : content_l l path ≡ none =
          ground (arith, moved path, apart, eq_bytes_refl path) in
        Yields-bind (copy_to_local local_fs remote_fs remote w1) (λ w2 e2.
          let (d2, c2, r2, l2) = Yields-ok (copy_to_local-Down remote w1) e2 in
          let new : overwrite d2 (content_l l remote.rel_path) ≡ d2 =
            unfold overwrite in ap (overwrite d2) (ap (content_l l) (sym same) ∙ gone) in
          Yields-of (copy_to_remote local_fs remote_fs renamed w2) (λ w3 e3.
            let (d3, c3, l3, r3) = Yields-ok (copy_to_remote-Up renamed w2) e3 in
            (
              q,
              free,
              ground (arith, l3, l2 q, moved q, same, apart', eq_bytes_refl q),
              ground (arith, r3 q, c3, l2 q, moved q, same, apart', eq_bytes_refl q),
              ground (arith, l3, l2 path, new, c2, same, eq_bytes_refl path),
              ground (arith, r3 path, r2, apart, same, eq_bytes_refl path),
            ))))

  -- A conflict loses neither version: in lawful file systems, where the local side has a file at a relative
  -- path, a call of keep_both that succeeds leaves the remote version at the path on both sides, and the
  -- local version on both sides at another path, where the local side had no file.
  pub keep_both-BothKept :
      (fuel : ℕ) (local remote : FileState) (w w' : World L R) (d : Bytes)
      → local.rel_path ≡ remote.rel_path
      → IsRelative local.rel_path
      → content_l w.local local.rel_path ≡ some d
      → keep_both local_fs remote_fs fuel local remote w ≡ ok w'
      → BothKept w local.rel_path w'
  keep_both-BothKept fuel local remote w w' d same rel has e =
      Yields-ok (keep_both-Yields fuel local remote w d same rel has) e
