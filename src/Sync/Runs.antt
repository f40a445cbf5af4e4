-- ===== src/Sync/Runs.antt =====
-- Runs of the synchronisation state, and the theorems at concrete inputs.
use rust_peergos_client.Common.{◌≡◌, refl, All, true, false, some, [], ◌∷◌}
use rust_peergos_client.Common.Int.{pos}
use rust_peergos_client.Common.Equality.{eq_bytes}
use rust_peergos_client.Sync.State.{
  FileState, CopyOp, lookup, remove_key, insert_key, retain_other, unindex, push_path, add, remove,
  by_path, by_hash, found, new,
}
use rust_peergos_client.Sync.Index.{IsIndexed, add-IsIndexed}
use rust_peergos_client.Sync.ByHash.{IsIn, by_hash_exact}

abbrev notes : FileState
notes = record {
  rel_path = b'n' ∷ [];
  modification_time = pos 7;
  size = 3;
  hash = 1 ∷ [];
  chunk_size = 5242880;
}

abbrev photo : FileState
photo = record {
  rel_path = b'p' ∷ [];
  modification_time = pos 8;
  size = 3;
  hash = 1 ∷ [];
  chunk_size = 5242880;
}

two_files : by_hash (add (add new notes) photo) (1 ∷ []) ≡ notes ∷ photo ∷ []
unfolding by_hash add remove new lookup insert_key remove_key push_path found eq_bytes
two_files = refl

one_left : by_hash (remove (add (add new notes) photo) (b'n' ∷ [])) (1 ∷ []) ≡ photo ∷ []
unfolding by_hash add remove new lookup insert_key remove_key push_path unindex retain_other found
    eq_bytes
one_left = refl

new-IsIndexed : IsIndexed new
unfolding new lookup
new-IsIndexed h p = refl

add-IsIndexed_example : IsIndexed (add new notes)
add-IsIndexed_example = add-IsIndexed new notes new-IsIndexed

notes_known : by_path (add new notes) (b'n' ∷ []) ≡ some notes
unfolding by_path add remove new lookup insert_key remove_key eq_bytes
notes_known = refl

by_hash_exact_example :
    All (λ g. eq_bytes g.hash (1 ∷ []) ≡ true) (by_hash (add new notes) (1 ∷ []))
    × IsIn notes (by_hash (add new notes) (1 ∷ []))
by_hash_exact_example =
    by_hash_exact (add new notes) (b'n' ∷ []) notes (add-IsIndexed new notes new-IsIndexed)
      notes_known

abbrev upload : CopyOp
upload = record {
  is_local_target = false;
  source = b'n' ∷ [];
  target = b't' ∷ [];
  source_state = notes;
  target_state = notes;
}
