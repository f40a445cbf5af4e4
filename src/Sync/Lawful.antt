-- ===== src/Sync/Lawful.antt =====
-- crates/peergos-sync/src/filesystem.rs: what the synchronisation relies on in a side, through the
-- contents of its files; and what copying a file does in such sides.
use rust_peergos_client.Common.{
  ◌≡◌, refl, arith, false, Option, none, some, [], ◌∷◌, ◌++◌, length, drop, Bytes, ok,
  if◌then◌else◌, Yields, yields, Yields-bind, Yields-ok, Yields-of,
}
use rust_peergos_client.Common.Int.{ℤ}
use rust_peergos_client.Common.Text.{Text}
use rust_peergos_client.Common.Equality.{eq_bytes}
use rust_peergos_client.Sync.FileSystem.{SyncFilesystem}
use rust_peergos_client.Sync.Paths.{parent}
use rust_peergos_client.Sync.Handlers.{make_parent, copy_file}

-- What a write leaves of a file: crates/peergos-sync/src/local_fs.rs opens the file without truncating it
-- and writes from its start, so what was there past the new bytes stays.
unfoldable pub overwrite : Bytes → Option Bytes → Bytes
overwrite d none = d
overwrite d (some old) = d ++ drop (length d) old

-- crates/peergos-sync/src/peergos_fs.rs uploads the file anew.
unfoldable pub replace : Bytes → Option Bytes → Bytes
replace d old = d

-- `content s p` is what the file at `p` holds, and `put d old` what a write of `d` leaves of `old`. Each
-- operation that succeeds does what it is named for to the contents and nothing else.
pub record IsLawful {S : Type 0} (fs : SyncFilesystem S) (content : S → Text → Option Bytes)
    (put : Bytes → Option Bytes → Bytes) : Type 0 where
  pub after_read : (s : S) (p : Text) (d : Bytes) → fs.read s p ≡ ok d → content s p ≡ some d
  pub after_write :
      (s s' : S) (p q : Text) (d : Bytes)
      → fs.write s p d ≡ ok s'
      → content s' q ≡ (if eq_bytes p q then some (put d (content s p)) else content s q)
  pub after_mkdirs : (s s' : S) (p q : Text) → fs.mkdirs s p ≡ ok s' → content s' q ≡ content s q
  pub after_move :
      (s s' : S) (p t q : Text)
      → fs.move_to s p t ≡ ok s'
      → content s' q
        ≡ (if eq_bytes t q then content s p else if eq_bytes p q then none else content s q)
  pub after_set_time :
      (s s' : S) (p q : Text) (t : ℤ)
      → fs.set_modification_time s p t ≡ ok s'
      → content s' q ≡ content s q
  pub not_exists : (s : S) (p : Text) → fs.exists s p ≡ false → content s p ≡ none

module _ {S : Type 0} (fs : SyncFilesystem S) (content : S → Text → Option Bytes)
    (put : Bytes → Option Bytes → Bytes) (lawful : IsLawful fs content put) where
  make_parent-Yields :
      (s : S) (path : Text)
      → Yields (λ (s' : S). (q : Text) → content s' q ≡ content s q) (make_parent fs s path)
  unfolding make_parent
  make_parent-Yields s path = by_parent (parent path)
    where
      by_parent :
          (dir : Text)
          → Yields
              (λ (s' : S). (q : Text) → content s' q ≡ content s q)
              (elim dir [ [] ↦ ok s | c ∷ d ↦ fs.mkdirs s (c ∷ d) ])
      by_parent [] = yields (λ q. refl)
      by_parent (c ∷ d) =
          Yields-of (fs.mkdirs s (c ∷ d)) (λ s' e q. lawful.after_mkdirs s s' (c ∷ d) q e)

module _ {A B : Type 0} (source : SyncFilesystem A) (target : SyncFilesystem B)
    (content_a : A → Text → Option Bytes) (content_b : B → Text → Option Bytes)
    (put_a put_b : Bytes → Option Bytes → Bytes) (lawful_a : IsLawful source content_a put_a)
    (lawful_b : IsLawful target content_b put_b) where
  -- The target has what writing the file of the source leaves at the path, and every other file as before.
  abbrev pub Copied : A → B → Text → B → Type 0
  Copied a b path b' =
      (d : Bytes) × (content_a a path ≡ some d)
      × ((q : Text)
          → content_b b' q
            ≡ (if eq_bytes path q then some (put_b d (content_b b path)) else content_b b q))

  pub copy_file-Copied :
      (a : A) (b : B) (path : Text) → Yields (Copied a b path) (copy_file source target a b path)
  unfolding copy_file
  copy_file-Copied a b path = Yields-bind (make_parent target b path) (λ b1 e1.
      let same = Yields-ok (make_parent-Yields target content_b put_b lawful_b b path) e1 in
      Yields-bind (source.read a path) (λ d e2. Yields-of (target.write b1 path d) (λ b' e3. (
        d,
        lawful_a.after_read a path d e2,
        λ q. ground (arith, same q, same path, lawful_b.after_write b1 b' path q d e3),
      ))))
