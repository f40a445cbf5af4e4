-- ===== src/Sync/Batches.antt =====
-- crates/peergos-sync/src/sync.rs: the size of the batches that `sync_dir` uploads.
use rust_peergos_client.Common.{
  ℕ, ◌+◌, ◌≤◌, ◌<◌, ◌≡◌, refl, arith, Bool-cases, ◌&&◌, ◌||◌, Option, none, some, inl, inr, List,
  [], ◌∷◌, ◌++◌, length, All, All-append, ltb, leb,
}
use rust_peergos_client.Common.Text.{Text}
use rust_peergos_client.Sync.State.{
  FileState, equals_ignore_modtime, RamTreeState, by_path, by_hash,
}
use rust_peergos_client.Sync.Renames.{extra}
use rust_peergos_client.Sync.Passes.{legacy_chunk_size, chunk_size_for_new_files}
use rust_peergos_client.Sync.Plan.{
  Plan, no_plan, batch_max_count, batch_max_size, batch_file, is_plain, plan_delete, plan_path,
  second_pass,
}

abbrev size_of : Option FileState → ℕ
size_of none = 0
size_of (some f) = f.size

module _ (local_state : RamTreeState) where
  -- The bytes of a batch.
  unfoldable pub total : List Text → ℕ
  total [] = 0
  total (p ∷ ps) = size_of (by_path local_state p) + total ps

  -- A batch has at most `BATCH_MAX_COUNT` files, and its size exceeds `BATCH_MAX_SIZE` by less than one
  -- small file.
  abbrev pub IsBatch : List Text → Type 0
  IsBatch batch =
      (length batch ≤ batch_max_count) × (total batch < batch_max_size + chunk_size_for_new_files)

  abbrev IsPlanned : Plan → Type 0
  IsPlanned plan =
      All IsBatch plan.batches
      × (length plan.current ≤ plan.batch_count + 1)
      × (plan.batch_count < batch_max_count)
      × (total plan.current < plan.batch_size + chunk_size_for_new_files)
      × (plan.batch_size < batch_max_size)

  total-snoc :
      (ps : List Text) (p : Text)
      → total (ps ++ (p ∷ [])) ≡ total ps + size_of (by_path local_state p)
  unfolding total
  total-snoc [] p = omega arith
  total-snoc (q ∷ ps) p = omega (arith, total-snoc ps p)

  length-snoc : (ps : List Text) (p : Text) → length (ps ++ (p ∷ [])) ≡ length ps + 1
  length-snoc [] p = omega arith
  length-snoc (q ∷ ps) p = omega (arith, length-snoc ps p)

  batch_file-IsPlanned :
      (path : Text) (f : FileState) (plan : Plan)
      → by_path local_state path ≡ some f
      → f.size < chunk_size_for_new_files
      → IsPlanned plan
      → IsPlanned (batch_file path f.size plan)
  unfolding batch_file chunk_size_for_new_files legacy_chunk_size total
  batch_file-IsPlanned path f plan e small (batches, count, below, size, room) =
      elim (Bool-cases (
        leb batch_max_count (plan.batch_count + 1)
        || leb batch_max_size (plan.batch_size + f.size))) [
          | inl full ↦ rw full (
            All-append IsBatch plan.batches (plan.current ∷ []) batches
                ((omega arith, omega arith), tt),
            omega arith,
            omega arith,
            rw e (omega arith),
            omega arith,
          )
          | inr more ↦ rw more (
            batches,
            omega (arith, length-snoc plan.current path),
            ground arith,
            rw (total-snoc plan.current path, e) (omega arith),
            ground arith,
          )
        ]

  module _ (remote_state : RamTreeState) where
    plan_delete-IsPlanned :
        (path : Text) (l r s : Option FileState) (plan : Plan)
        → IsPlanned plan
        → IsPlanned (plan_delete local_state remote_state path l r s plan)
    unfolding plan_delete
    plan_delete-IsPlanned path none (some r) (some s) plan h =
        elim (Bool-cases (
          equals_ignore_modtime r s
          && is_plain local_state remote_state
              (extra (by_hash remote_state r.hash) (by_hash local_state r.hash))
              (extra (by_hash local_state r.hash) (by_hash remote_state r.hash)) remote_state
              path)) [ inl t ↦ rw t h | inr n ↦ rw n h ]
    plan_delete-IsPlanned path none none s plan h = h
    plan_delete-IsPlanned path none (some r) none plan h = h
    plan_delete-IsPlanned path (some l) r s plan h = h

    plan_path-IsPlanned :
        (path : Text) (l r s : Option FileState) (plan : Plan)
        → by_path local_state path ≡ l
        → IsPlanned plan
        → IsPlanned (plan_path local_state remote_state path l r s plan)
    unfolding plan_path
    plan_path-IsPlanned path (some l) none none plan e h =
        elim (Bool-cases (
          ltb l.size chunk_size_for_new_files
          && is_plain local_state remote_state
              (extra (by_hash local_state l.hash) (by_hash remote_state l.hash))
              (extra (by_hash remote_state l.hash) (by_hash local_state l.hash)) local_state
              path)) [
                | inl t ↦ rw t (batch_file-IsPlanned path l plan e (ground (arith, t)) h)
                | inr n ↦ rw n h
              ]
    plan_path-IsPlanned path none r s plan e h = plan_delete-IsPlanned path none r s plan h
    plan_path-IsPlanned path (some l) (some r) s plan e h =
        plan_delete-IsPlanned path (some l) (some r) s plan h
    plan_path-IsPlanned path (some l) none (some s) plan e h =
        plan_delete-IsPlanned path (some l) none (some s) plan h

    second_pass-IsPlanned :
        (synced : RamTreeState) (paths : List Text) (plan : Plan)
        → IsPlanned plan
        → IsPlanned (second_pass local_state remote_state synced paths plan)
    unfolding second_pass
    second_pass-IsPlanned synced [] plan h = h
    second_pass-IsPlanned synced (p ∷ ps) plan h = second_pass-IsPlanned synced ps _ (
        plan_path-IsPlanned p (by_path local_state p) (by_path remote_state p) (by_path synced p)
          plan refl h)

    -- Every batch that the second pass makes has at most `BATCH_MAX_COUNT` files, and exceeds
    -- `BATCH_MAX_SIZE` by less than the size of a small file.
    pub second_pass-IsBatch :
        (synced : RamTreeState) (paths : List Text)
        → let plan = second_pass local_state remote_state synced paths no_plan in
          All IsBatch plan.batches × IsBatch plan.current
    unfolding no_plan chunk_size_for_new_files legacy_chunk_size total
    second_pass-IsBatch synced paths =
        let start : IsPlanned no_plan = (tt, omega arith, omega arith, omega arith, omega arith) in
        let (batches, count, below, size, room) =
          second_pass-IsPlanned synced paths no_plan start in
        (batches, (omega arith, omega arith))
