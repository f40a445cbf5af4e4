-- ===== src/Sync/EngineRuns.antt =====
-- Runs of the synchronisation of two sides in memory, and the theorems at concrete inputs.
use rust_peergos_client.Common.{
  ℕ, zero, suc, ◌≡◌, refl, arith, ◌<◌, ◌+◌, ◌%◌, ◌^◌, true, false, none, some, [], ◌∷◌, Bytes, take,
  drop, ok, err,
}
use rust_peergos_client.Common.Int.{pos}
use rust_peergos_client.Common.Text.{Text}
use rust_peergos_client.Common.Equality.{eq_bytes}
use rust_peergos_client.Sync.State.{FileState, new, add, lookup, insert_key, remove_key}
use rust_peergos_client.Sync.FileSystem.{out_of_fuel}
use rust_peergos_client.Sync.Paths.{
  split_path, rfind, find, starts_with, join, marker, marked, marker_parts, first_candidate,
  strip_suffix, show_u32, digits, parse_u32, parse_digits,
}
use rust_peergos_client.Sync.Conflict.{rename_on_conflict, conflict_name, free_version}
use rust_peergos_client.Sync.Handlers.{
  World, keep_both, copy_to_local, copy_to_remote, copy_file, make_parent, sync_file,
  handle_concurrent_addition,
}
use rust_peergos_client.Sync.RamSide.{Ram, local_ram, remote_ram, content, ram_side-IsLawful}
use rust_peergos_client.Sync.KeepBoth.{BothKept, keep_both-BothKept}
use rust_peergos_client.Sync.Agree.{Fits, sync_file-Agree}
use rust_peergos_client.Sync.Lawful.{overwrite, replace}
use rust_peergos_client.Sync.Names.{IsRelative, conflict_name-finds, conflict_name-stuck}

-- "a.txt", and the names of its conflicts.
abbrev a_txt : Text
a_txt = b'a' ∷ 46 ∷ b't' ∷ b'x' ∷ b't' ∷ []

abbrev conflict_0 : Text
conflict_0 = marked (b'a' ∷ []) 0 (46 ∷ b't' ∷ b'x' ∷ b't' ∷ [])

abbrev state_of_a : Bytes → FileState
state_of_a hash = record {
  rel_path = a_txt;
  modification_time = pos 1;
  size = 1;
  hash = hash;
  chunk_size = 5242880;
}

-- The two sides have another file at the same path.
abbrev conflicting : World Ram Ram
conflicting = record { local = (a_txt, 1 ∷ []) ∷ []; remote = (a_txt, 2 ∷ []) ∷ []; synced = new }

abbrev renamed_state : FileState
renamed_state = record {
  rel_path = conflict_0;
  modification_time = pos 1;
  size = 1;
  hash = 1 ∷ [];
  chunk_size = 5242880;
}

abbrev kept : World Ram Ram
kept = record {
  local = (a_txt, 2 ∷ []) ∷ (conflict_0, 1 ∷ []) ∷ [];
  remote = (conflict_0, 1 ∷ []) ∷ (a_txt, 2 ∷ []) ∷ [];
  synced = add (add new (state_of_a (2 ∷ []))) renamed_state;
}

relative : IsRelative a_txt
unfolding rfind
relative e = cc

keep_both_run :
    keep_both local_ram remote_ram 1 (state_of_a (1 ∷ [])) (state_of_a (2 ∷ [])) conflicting
    ≡ ok kept
unfolding keep_both rename_on_conflict conflict_name free_version find marker_parts first_candidate
    split_path rfind starts_with join strip_suffix show_u32 digits copy_to_local copy_to_remote
    copy_file make_parent lookup insert_key remove_key eq_bytes take drop overwrite replace
keep_both_run = refl

local_has : content conflicting.local a_txt ≡ some (1 ∷ [])
unfolding lookup eq_bytes
local_has = refl

keep_both-BothKept_example :
    BothKept local_ram remote_ram content content
      (ram_side-IsLawful overwrite)
      (ram_side-IsLawful replace)
      conflicting
      a_txt
      kept
keep_both-BothKept_example =
    keep_both-BothKept local_ram remote_ram content content (ram_side-IsLawful overwrite)
      (ram_side-IsLawful replace) 1 (state_of_a (1 ∷ [])) (state_of_a (2 ∷ [])) conflicting kept
      (1 ∷ []) refl relative local_has keep_both_run

other_hashes :
    eq_bytes (1 ∷ []) (2 ∷ []) ≡ true
    → content conflicting.local a_txt ≡ content conflicting.remote a_txt
unfolding eq_bytes
other_hashes e = cc

fits :
    Fits local_ram remote_ram content content
      (ram_side-IsLawful overwrite)
      (ram_side-IsLawful replace)
      a_txt
      conflicting
unfolding lookup eq_bytes
fits old d e f = ground (arith, e, f)

sync_file_run :
    sync_file local_ram remote_ram 1 new new true true none
      (some (state_of_a (1 ∷ [])))
      (some (state_of_a (2 ∷ [])))
      conflicting
    ≡ ok kept
unfolding sync_file handle_concurrent_addition eq_bytes
sync_file_run = keep_both_run

sync_file-Agree_example : content kept.local a_txt ≡ content kept.remote a_txt
sync_file-Agree_example =
    sync_file-Agree local_ram remote_ram content content (ram_side-IsLawful overwrite)
      (ram_side-IsLawful replace) 1 (state_of_a (1 ∷ [])) (state_of_a (2 ∷ [])) conflicting (1 ∷ [])
      refl relative local_has other_hashes fits new new true true none kept sync_file_run

-- A side that has the first conflict of the file.
abbrev with_conflict : Ram
with_conflict = (conflict_0, 1 ∷ []) ∷ []

no_marker : find marker a_txt ≡ none
unfolding find starts_with
no_marker = refl

second_free : local_ram.exists with_conflict (join [] (first_candidate a_txt 1)) ≡ false
unfolding first_candidate rfind join show_u32 digits take drop lookup eq_bytes
second_free = refl

first_taken :
    (k : ℕ) → k < 1 → local_ram.exists with_conflict (join [] (first_candidate a_txt k)) ≡ true
unfolding first_candidate rfind join show_u32 digits take drop lookup eq_bytes
first_taken zero b = refl
first_taken (suc k) b = ground arith

conflict_name-finds_example :
    conflict_name local_ram 2 with_conflict [] a_txt ≡ ok (first_candidate a_txt 1)
conflict_name-finds_example =
    conflict_name-finds local_ram 2 with_conflict [] a_txt 1 no_marker (omega arith) (omega arith)
      second_free first_taken

-- A side that has the first two.
abbrev with_conflicts : Ram
with_conflicts =
    (conflict_0, 1 ∷ []) ∷ (marked (b'a' ∷ []) 1 (46 ∷ b't' ∷ b'x' ∷ b't' ∷ []), 2 ∷ []) ∷ []

marker_found : find marker conflict_0 ≡ some 1
unfolding find starts_with show_u32 digits
marker_found = refl

parts_found : marker_parts conflict_0 1 ≡ some (b'a' ∷ [], (0, 46 ∷ b't' ∷ b'x' ∷ b't' ∷ []))
unfolding marker_parts find starts_with take drop parse_u32 parse_digits show_u32 digits
parts_found = refl

next_taken :
    local_ram.exists with_conflicts
      (join [] (marked (b'a' ∷ []) ((0 + 1) % 2 ^ 32) (46 ∷ b't' ∷ b'x' ∷ b't' ∷ [])))
    ≡ true
unfolding join show_u32 digits lookup eq_bytes
next_taken = refl

conflict_name-stuck_example :
    conflict_name local_ram 1000 with_conflicts [] conflict_0 ≡ err out_of_fuel
conflict_name-stuck_example =
    conflict_name-stuck local_ram 1000 with_conflicts [] conflict_0 (b'a' ∷ [])
      (46 ∷ b't' ∷ b'x' ∷ b't' ∷ []) 1 0 marker_found parts_found next_taken

-- A file that is shorter on the remote side since the last synchronisation.
abbrev shrunk : World Ram Ram
shrunk = record {
  local = (a_txt, 1 ∷ 2 ∷ 3 ∷ []) ∷ [];
  remote = (a_txt, 9 ∷ []) ∷ [];
  synced = new;
}

abbrev with_tail : World Ram Ram
with_tail = record {
  local = (a_txt, 9 ∷ 2 ∷ 3 ∷ []) ∷ [];
  remote = (a_txt, 9 ∷ []) ∷ [];
  synced = add new (state_of_a (2 ∷ []));
}
