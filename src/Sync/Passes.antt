-- ===== src/Sync/Passes.antt =====
-- crates/peergos-sync/src/sync.rs: `build_dir_state`, and the first pass of `sync_dir`.
use rust_peergos_client.Common.{
  ℕ, zero, suc, ◌*◌, Bool, ◌&&◌, ◌||◌, Option, none, some, List, [], ◌∷◌, Bytes, Ordering, Result,
  ok, ◌>>=◌, if◌then◌else◌, ◌==◌, map,
}
use rust_peergos_client.Common.Int.{eqb_ℤ}
use rust_peergos_client.Common.Text.{Text}
use rust_peergos_client.Common.Equality.{eq_bytes}
use rust_peergos_client.Cbor.Object.{lex_cmp}
use rust_peergos_client.Sync.State.{FileState, equals_ignore_modtime, RamTreeState, add, by_path}
use rust_peergos_client.Sync.Marks.{add_dir}
use rust_peergos_client.Sync.FileSystem.{SyncFilesystem, SyncError, FileProps}
use rust_peergos_client.Sync.Paths.{file_name}
use rust_peergos_client.Sync.Handlers.{drop_local_delete, drop_remote_delete}
use rust_peergos_client.Sync.Renames.{is_none}

-- `LEGACY_CHUNK_SIZE` and `chunk_size_for_new_files` of crates/peergos-fs/src/retrieve.rs.
unfoldable pub legacy_chunk_size : ℕ
legacy_chunk_size = 5 * 1024 * 1024

unfoldable pub chunk_size_for_new_files : ℕ
unfolding legacy_chunk_size
chunk_size_for_new_files = legacy_chunk_size

-- `[0u8; 32]`.
abbrev pub zeros : ℕ → Bytes
zeros zero = []
zeros (suc n) = 0 ∷ zeros n

abbrev pub no_hash : Bytes
no_hash = zeros 32

-- The last state of a file where its time and size are as they were, or one whose hash is not known.
unfoldable pub state_of : RamTreeState → FileProps → FileState
unfolding legacy_chunk_size
state_of synced props =
    let fresh : FileState = record {
      rel_path = props.rel_path;
      modification_time = props.modified_time;
      size = props.size;
      hash = no_hash;
      chunk_size = legacy_chunk_size;
    } in
    elim (by_path synced props.rel_path) [
      | none ↦ fresh
      | some s ↦
          if eqb_ℤ s.modification_time props.modified_time && s.size == props.size then s else fresh
    ]

unfoldable pub add_dirs : List FileProps → RamTreeState → RamTreeState
add_dirs [] res = res
add_dirs (d ∷ ds) res = add_dirs ds (add_dir res d.rel_path)

-- The files whose hash is known are added as they are.
unfoldable pub add_known : List FileState → RamTreeState → RamTreeState
add_known [] res = res
add_known (f ∷ fs) res = add_known fs (if eq_bytes f.hash no_hash then res else add res f)

module _ {S : Type 0} (fs : SyncFilesystem S) (s : S) (synced : RamTreeState) where
  unfoldable pub add_hashed : List FileState → RamTreeState → Result SyncError RamTreeState
  unfolding chunk_size_for_new_files
  add_hashed [] res = ok res
  add_hashed (f ∷ files) res =
      let chunk_size : ℕ = elim (by_path synced f.rel_path) [
        | some s ↦ s.chunk_size
        | none ↦ chunk_size_for_new_files
      ] in
      if eq_bytes f.hash no_hash
      then (fs.hash_file s f.rel_path f.size chunk_size >>= λ (hash, used).
          add_hashed files (add res (record f { hash = hash; chunk_size = used })))
      else add_hashed files res

  unfoldable pub build_dir_state : RamTreeState → Result SyncError RamTreeState
  unfolding state_of add_dirs add_known
  build_dir_state res = fs.subtree s >>= λ (files, dirs).
      let entries = map (state_of synced) files in
      add_hashed entries (add_dirs dirs res) >>= λ res'. ok (add_known entries res')

-- A `BTreeSet<String>`, in order.
unfoldable pub insert_text : Text → List Text → List Text
insert_text p [] = p ∷ []
insert_text p (q ∷ s) = elim (lex_cmp p q) [
  | Ordering.lt ↦ p ∷ q ∷ s
  | Ordering.eq ↦ q ∷ s
  | Ordering.gt ↦ q ∷ insert_text p s
]

unfoldable pub insert_texts : List Text → List Text → List Text
insert_texts [] s = s
insert_texts (p ∷ ps) s = insert_texts ps (insert_text p s)

-- ".DS_Store".
unfoldable pub is_ignored : Text → Bool
is_ignored name = eq_bytes name (46 ∷ b'D' ∷ b'S' ∷ 95 ∷ b'S' ∷ b't' ∷ b'o' ∷ b'r' ∷ b'e' ∷ [])

unfoldable pub is_same : FileState → FileState → Bool
is_same l r =
    eq_bytes l.hash r.hash && (eqb_ℤ l.modification_time r.modification_time && l.size == r.size)

module _ (sync_local_deletes sync_remote_deletes : Bool) where
  abbrev forget_deletes : Text → RamTreeState → RamTreeState
  forget_deletes path s =
      drop_remote_delete sync_remote_deletes path (drop_local_delete sync_local_deletes path s)

  -- One path of the first pass: the new state where the path is settled.
  unfoldable pub settled :
      Text → Option FileState → Option FileState → RamTreeState → Option RamTreeState
  unfolding is_same
  settled path (some l) (some r) synced =
      let s = by_path synced path in
      if is_same l r
      then some (forget_deletes path (if is_none s then add synced l else synced))
      else elim s [
        | none ↦ none
        | some s ↦
            if eq_bytes l.hash r.hash && (equals_ignore_modtime s l || equals_ignore_modtime s r)
            then some (forget_deletes path synced)
            else none
      ]
  settled path _ _ synced = none

  -- The state after the first pass, and the changed paths.
  unfoldable pub first_pass :
      RamTreeState → RamTreeState → List Text → RamTreeState → RamTreeState × List Text
  unfolding settled is_ignored
  first_pass local_state remote_state [] synced = (synced, [])
  first_pass local_state remote_state (path ∷ paths) synced =
      elim (settled path (by_path local_state path) (by_path remote_state path) synced) [
        | some synced' ↦ first_pass local_state remote_state paths synced'
        | none ↦
            let rest = first_pass local_state remote_state paths synced in
            if is_ignored (file_name path) then rest else (rest.0, path ∷ rest.1)
      ]
