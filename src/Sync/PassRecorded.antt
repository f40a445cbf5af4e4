-- ===== src/Sync/PassRecorded.antt =====
-- crates/peergos-sync/src/sync.rs: the first pass of `sync_dir`, its batches and its bulk deletes keep the
-- state indexed.
use rust_peergos_client.Common.{
  ◌||◌, Bool, Bool-cases, true, false, ◌&&◌, inl, inr, Option, none, some, List, [], ◌∷◌, ok_or,
  if◌then◌else◌, Yields, yields, Yields-bind,
}
use rust_peergos_client.Common.Text.{Text}
use rust_peergos_client.Common.Equality.{eq_bytes}
use rust_peergos_client.Sync.State.{FileState, equals_ignore_modtime, RamTreeState, add, by_path}
use rust_peergos_client.Sync.Index.{IsIndexed, add-IsIndexed, remove-IsIndexed}
use rust_peergos_client.Sync.Marks.{add_local_delete}
use rust_peergos_client.Sync.FileSystem.{panicked}
use rust_peergos_client.Sync.Handlers.{drop_local_delete, drop_remote_delete}
use rust_peergos_client.Sync.Passes.{is_same, settled, first_pass, is_ignored}
use rust_peergos_client.Sync.Paths.{file_name}
use rust_peergos_client.Sync.Renames.{is_none}
use rust_peergos_client.Sync.Uploads.{record_batch}
use rust_peergos_client.Sync.Deletes.{group_deletes, remove_all, full_path}
use rust_peergos_client.Sync.Recorded.{drop_deletes-IsIndexed}

pub record_batch-IsIndexed :
    (local_state : RamTreeState) (paths : List Text) (st : RamTreeState)
    → IsIndexed st
    → Yields IsIndexed (record_batch local_state paths st)
unfolding record_batch
record_batch-IsIndexed local_state [] st h = yields h
record_batch-IsIndexed local_state (p ∷ ps) st h =
    Yields-bind (ok_or (by_path local_state p) panicked)
      (λ f _. record_batch-IsIndexed local_state ps (add st f) (add-IsIndexed st f h))

pub remove_all-IsIndexed :
    (dir : Text) (names : List Text) (st : RamTreeState)
    → IsIndexed st
    → IsIndexed (remove_all dir names st)
unfolding remove_all
remove_all-IsIndexed dir [] st h = h
remove_all-IsIndexed dir (n ∷ ns) st h =
    remove_all-IsIndexed dir ns _ (remove-IsIndexed st (full_path dir n) h)

pub group_deletes-IsIndexed :
    (a : Bool) (paths : List Text) (folders : List (Text × List Text)) (st : RamTreeState)
    → IsIndexed st
    → IsIndexed (group_deletes a paths folders st).1
unfolding group_deletes add_local_delete
group_deletes-IsIndexed a [] folders st h = h
group_deletes-IsIndexed true (p ∷ ps) folders st h = group_deletes-IsIndexed true ps _ st h
group_deletes-IsIndexed false (p ∷ ps) folders st h = group_deletes-IsIndexed false ps folders _ h

-- A result that is there is indexed.
abbrev Keeps : Option RamTreeState → Type 0
Keeps none = Unit
Keeps (some st) = IsIndexed st

if-Keeps : (c : Bool) (x y : Option RamTreeState) → Keeps x → Keeps y → Keeps (if c then x else y)
if-Keeps true x y h k = h
if-Keeps false x y h k = k

module _ (a b : Bool) where
  forget_deletes-IsIndexed :
      (p : Text) (st : RamTreeState)
      → IsIndexed st
      → IsIndexed (drop_remote_delete b p (drop_local_delete a p st))
  forget_deletes-IsIndexed p st h =
      (drop_deletes-IsIndexed b b p p _ (drop_deletes-IsIndexed a a p p st h).0).1

  settled-Keeps :
      (p : Text) (l r : Option FileState) (st : RamTreeState)
      → IsIndexed st
      → Keeps (settled a b p l r st)
  unfolding settled
  settled-Keeps p (some l) (some r) st h =
      if-Keeps (is_same l r) _ _ (forget_deletes-IsIndexed p _ (recorded (by_path st p)))
        (by_synced (by_path st p))
    where
      recorded : (s : Option FileState) → IsIndexed (if is_none s then add st l else st)
      recorded none = add-IsIndexed st l h
      recorded (some s) = h

      by_synced :
          (s : Option FileState)
          → Keeps (elim s [
            | none ↦ none
            | some s ↦
                if eq_bytes l.hash r.hash
                  && (equals_ignore_modtime s l || equals_ignore_modtime s r)
                then some (drop_remote_delete b p (drop_local_delete a p st))
                else none
          ])
      by_synced none = tt
      by_synced (some s) =
          if-Keeps
            (eq_bytes l.hash r.hash && (equals_ignore_modtime s l || equals_ignore_modtime s r)) _ _
            (forget_deletes-IsIndexed p st h) tt
  settled-Keeps p none r st h = tt
  settled-Keeps p (some l) none st h = tt

  pub first_pass-IsIndexed :
      (local_state remote_state : RamTreeState) (paths : List Text) (st : RamTreeState)
      → IsIndexed st
      → IsIndexed (first_pass a b local_state remote_state paths st).0
  unfolding first_pass
  first_pass-IsIndexed local_state remote_state [] st h = h
  first_pass-IsIndexed local_state remote_state (p ∷ ps) st h =
      by_settled (settled a b p (by_path local_state p) (by_path remote_state p) st)
        (settled-Keeps p (by_path local_state p) (by_path remote_state p) st h)
        (first_pass-IsIndexed local_state remote_state ps)
    where
      by_settled :
          (o : Option RamTreeState)
          → Keeps o
          → ((st' : RamTreeState)
              → IsIndexed st'
              → IsIndexed (first_pass a b local_state remote_state ps st').0)
          → IsIndexed
              (elim o as (λ o. RamTreeState × List Text) [
                | some st' ↦ first_pass a b local_state remote_state ps st'
                | none ↦
                    let rest = first_pass a b local_state remote_state ps st in
                    if is_ignored (file_name p) then rest else (rest.0, p ∷ rest.1)
              ]).0
      by_settled (some st') k ih = ih st' k
      by_settled none k ih = elim (Bool-cases (is_ignored (file_name p))) [
        | inl t ↦ rw t (ih st h)
        | inr f ↦ rw f (ih st h)
      ]
