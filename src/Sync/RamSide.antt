-- ===== src/Sync/RamSide.antt =====
-- A side of the synchronisation that is held in memory, for the runs.
use rust_peergos_client.Common.{
  ◌≡◌, arith, Bool, true, false, Option, Option-cases, none, some, inl, inr, List, [], ◌∷◌, ◌++◌,
  Bytes, length, ok, ◌>>=◌, ok_or, if◌then◌else◌,
}
use rust_peergos_client.Common.Int.{pos}
use rust_peergos_client.Common.Text.{Text}
use rust_peergos_client.Common.Equality.{eq_bytes}
use rust_peergos_client.Sync.State.{HashMap, lookup, insert_key, remove_key}
use rust_peergos_client.Sync.Index.{lookup-insert_key, lookup-remove_key}
use rust_peergos_client.Sync.FileSystem.{
  SyncFilesystem, failed, FileProps, UploadFile, UploadFolder,
}
use rust_peergos_client.Sync.Paths.{slash, dot, join}
use rust_peergos_client.Sync.Lawful.{overwrite, replace, IsLawful}

abbrev pub Ram : Type 0
Ram = HashMap Bytes

abbrev props_of : Ram → List FileProps
props_of [] = []
props_of ((p, d) ∷ s) = record { rel_path = p; modified_time = pos 1; size = length d } ∷ props_of s

-- A name in a directory, where "." is the root.
abbrev in_dir : Text → Text → Text
in_dir dir name = if eq_bytes dir (dot ∷ []) then name else join dir name

abbrev delete_all : Text → List Text → Ram → Ram
delete_all dir [] s = s
delete_all dir (n ∷ ns) s = remove_key (in_dir dir n) (delete_all dir ns s)

abbrev dir_of : List Text → Text
dir_of [] = []
dir_of (c ∷ []) = c
dir_of (c ∷ d ∷ cs) = c ++ (slash ∷ dir_of (d ∷ cs))

abbrev upload_files : Text → List UploadFile → Ram → Ram
upload_files dir [] s = s
upload_files dir (f ∷ fs) s = insert_key (join dir f.name) f.contents (upload_files dir fs s)

abbrev upload_folders : List UploadFolder → Ram → Ram
upload_folders [] s = s
upload_folders (f ∷ fs) s = upload_files (dir_of f.rel_path) f.files (upload_folders fs s)

-- A side whose writes leave what `put` says.
abbrev pub ram_side : (Bytes → Option Bytes → Bytes) → SyncFilesystem Ram
ram_side put = record {
  exists = λ s p. elim (lookup p s) as (λ o. Bool) [ none ↦ false | some d ↦ true ];
  mkdirs = λ s p. ok s;
  delete = λ s p. ok (remove_key p s);
  bulk_delete = λ s dir names. ok (delete_all dir names s);
  move_to = λ s p t. ok_or (lookup p s) (failed p) >>= λ d. ok (insert_key t d (remove_key p s));
  get_last_modified = λ s p. ok (pos 1);
  set_modification_time = λ s p t. ok s;
  read = λ s p. ok_or (lookup p s) (failed p);
  write = λ s p d. ok (insert_key p (put d (lookup p s)) s);
  hash_file = λ s p n chunk. ok_or (lookup p s) (failed p) >>= λ d. ok (d, chunk);
  upload_subtree = λ s folders. ok (upload_folders folders s);
  subtree = λ s. ok (props_of s, []);
}

abbrev pub content : Ram → Text → Option Bytes
content s p = lookup p s

abbrev pub local_ram : SyncFilesystem Ram
local_ram = ram_side overwrite

abbrev pub remote_ram : SyncFilesystem Ram
remote_ram = ram_side replace

module _ (put : Bytes → Option Bytes → Bytes) where
  ram_after_read :
      (s : Ram) (p : Text) (d : Bytes) → (ram_side put).read s p ≡ ok d → content s p ≡ some d
  ram_after_read s p d e = ground (arith, e)

  ram_after_write :
      (s s' : Ram) (p q : Text) (d : Bytes)
      → (ram_side put).write s p d ≡ ok s'
      → content s' q ≡ (if eq_bytes p q then some (put d (content s p)) else content s q)
  ram_after_write s s' p q d e = ground (arith, e, lookup-insert_key q p (put d (lookup p s)) s)

  ram_after_move :
      (s s' : Ram) (p t q : Text)
      → (ram_side put).move_to s p t ≡ ok s'
      → content s' q
        ≡ (if eq_bytes t q then content s p else if eq_bytes p q then none else content s q)
  ram_after_move s s' p t q e = elim (Option-cases (lookup p s)) [
    | inl n ↦ ground (arith, n, e)
    | inr (d, h) ↦
        ground (arith, h, e, lookup-insert_key q t d (remove_key p s), lookup-remove_key q p s)
  ]

  ram_not_exists : (s : Ram) (p : Text) → (ram_side put).exists s p ≡ false → content s p ≡ none
  ram_not_exists s p e = ground (arith, e)

  pub ram_side-IsLawful : IsLawful (ram_side put) content put
  ram_side-IsLawful = record {
    after_read = ram_after_read;
    after_write = ram_after_write;
    after_mkdirs = λ s s' p q e. cc;
    after_move = ram_after_move;
    after_set_time = λ s s' p q t e. cc;
    not_exists = ram_not_exists;
  }
