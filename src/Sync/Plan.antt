-- ===== src/Sync/Plan.antt =====
-- crates/peergos-sync/src/sync.rs: the second pass of `sync_dir`, which batches the small files to upload and
-- collects the deletes.
use rust_peergos_client.Common.{
  ℕ, ◌+◌, ◌*◌, Bool, not, ◌&&◌, ◌||◌, Option, none, some, List, [], ◌∷◌, ◌++◌, length,
  if◌then◌else◌, ◌==◌, ltb, leb,
}
use rust_peergos_client.Common.Text.{Text}
use rust_peergos_client.Sync.State.{
  FileState, equals_ignore_modtime, RamTreeState, by_path, by_hash, insert_path,
}
use rust_peergos_client.Sync.Renames.{extra, at_hashed_path, is_none}
use rust_peergos_client.Sync.Passes.{chunk_size_for_new_files}

-- What the second pass keeps; the last batch is the current one.
pub record Plan : Type 0 where
  pub batches : List (List Text)
  pub current : List Text
  pub batch_count : ℕ
  pub batch_size : ℕ
  pub local_deletes : List Text
  pub done_files : List Text

unfoldable pub no_plan : Plan
no_plan = record {
  batches = [];
  current = [];
  batch_count = 0;
  batch_size = 0;
  local_deletes = [];
  done_files = [];
}

-- `BATCH_MAX_COUNT` and `BATCH_MAX_SIZE`.
abbrev pub batch_max_count : ℕ
batch_max_count = 1_000

abbrev pub batch_max_size : ℕ
batch_max_size = 100 * 1024 * 1024

unfoldable pub batch_file : Text → ℕ → Plan → Plan
batch_file path size plan =
    let full =
      leb batch_max_count (plan.batch_count + 1) || leb batch_max_size (plan.batch_size + size) in
    if full
    then record {
      batches = plan.batches ++ (plan.current ∷ []);
      current = path ∷ [];
      batch_count = 0;
      batch_size = 0;
      local_deletes = plan.local_deletes;
      done_files = insert_path path plan.done_files;
    }
    else record {
      batches = plan.batches;
      current = plan.current ++ (path ∷ []);
      batch_count = plan.batch_count + 1;
      batch_size = plan.batch_size + size;
      local_deletes = plan.local_deletes;
      done_files = insert_path path plan.done_files;
    }

module _ (local_state remote_state : RamTreeState) where
  -- Whether a rename does not explain the change: the lists differ in length, or the own side has a
  -- file at the path of the counterpart.
  unfoldable pub is_plain : List FileState → List FileState → RamTreeState → Text → Bool
  is_plain own others tree path =
      not (length others == length own) || not (is_none (at_hashed_path own others tree path))

  unfoldable pub plan_delete :
      Text → Option FileState → Option FileState → Option FileState → Plan → Plan
  unfolding is_plain
  plan_delete path none (some remote) (some s) plan =
      let own = extra (by_hash remote_state remote.hash) (by_hash local_state remote.hash) in
      let others = extra (by_hash local_state remote.hash) (by_hash remote_state remote.hash) in
      if equals_ignore_modtime remote s && is_plain own others remote_state path
      then record plan {
        local_deletes = plan.local_deletes ++ (path ∷ []);
        done_files = insert_path path plan.done_files;
      }
      else plan
  plan_delete path _ _ _ plan = plan

  unfoldable pub plan_path :
      Text → Option FileState → Option FileState → Option FileState → Plan → Plan
  unfolding is_plain plan_delete chunk_size_for_new_files
  plan_path path (some local) none none plan =
      let own = extra (by_hash local_state local.hash) (by_hash remote_state local.hash) in
      let others = extra (by_hash remote_state local.hash) (by_hash local_state local.hash) in
      if ltb local.size chunk_size_for_new_files && is_plain own others local_state path
      then batch_file path local.size plan
      else plan
  plan_path path local remote synced plan = plan_delete path local remote synced plan

  unfoldable pub second_pass : RamTreeState → List Text → Plan → Plan
  unfolding plan_path
  second_pass synced [] plan = plan
  second_pass synced (path ∷ paths) plan = second_pass synced paths (
      plan_path path (by_path local_state path) (by_path remote_state path) (by_path synced path)
        plan)
