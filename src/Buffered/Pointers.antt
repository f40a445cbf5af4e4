-- ===== src/Buffered/Pointers.antt =====
-- crates/peergos-core/src/buffered.rs: `BufferedPointers` without automatic commits, and `PointerUpdate` of
-- src/mutable.rs.
use rust_peergos_client.Common.{
  ℕ, ◌+◌, ◌%◌, ◌^◌, not, ◌&&◌, Option, none, some, List, [], ◌∷◌, ◌++◌, Bytes, length, take,
  if◌then◌else◌, ◌==◌, Result, ok,
}
use rust_peergos_client.Common.Int.{ℤ}
use rust_peergos_client.Multiformats.Cid.{Cid}
use rust_peergos_client.Champ.Equal.{eq_cid}
use rust_peergos_client.Buffered.Storage.{PublicKeyHash, BufferError}
use rust_peergos_client.Buffered.Cache.{is_in}

pub record PointerUpdate : Type 0 where
  pub original : Option Cid
  pub updated : Option Cid
  pub sequence : Option ℤ

-- `SigningPrivateKeyAndPublicHash`.
pub record Signer : Type 0 where
  pub public_key_hash : PublicKeyHash
  pub secret : Bytes

pub record WriterUpdate : Type 0 where
  pub owner : PublicKeyHash
  pub writer : PublicKeyHash
  pub update : PointerUpdate
  pub signer : Signer

pub record BufferedPointers : Type 0 where
  pub updates : List WriterUpdate
  pub generation : ℕ

pub record Checkpoint : Type 0 where
  pub generation : ℕ
  pub len : ℕ
  pub last_target : Option (Option Cid)

abbrev pub advance : Option Cid → WriterUpdate → WriterUpdate
advance target w = record {
  owner = w.owner;
  writer = w.writer;
  update = record { original = w.update.original; updated = target; sequence = w.update.sequence };
  signer = w.signer;
}

unfoldable pub new_pointers : BufferedPointers
new_pointers = record { updates = []; generation = 0 }

abbrev next_generation : ℕ → ℕ
next_generation g = (g + 1) % 2 ^ 64

unfoldable pub clear_pointers : BufferedPointers → BufferedPointers
clear_pointers self = record { updates = []; generation = next_generation self.generation }

-- The write is condensed with the last one where that has the same writer and owner.
unfoldable pub add_write :
    PublicKeyHash → Signer → PointerUpdate → List WriterUpdate → List WriterUpdate
add_write owner signer update [] =
    record { owner = owner; writer = signer.public_key_hash; update = update; signer = signer } ∷ []
add_write owner signer update (w ∷ []) =
    if eq_cid w.writer signer.public_key_hash && eq_cid w.owner owner
    then advance update.updated w ∷ []
    else w
      ∷ record { owner = owner; writer = signer.public_key_hash; update = update; signer = signer }
      ∷ []
add_write owner signer update (w ∷ v ∷ ws) = w ∷ add_write owner signer update (v ∷ ws)

unfoldable pub set_pointer_update :
    PublicKeyHash → Signer → PointerUpdate → BufferedPointers → BufferedPointers
unfolding add_write
set_pointer_update owner signer update self = record {
  updates = add_write owner signer update self.updates;
  generation = self.generation;
}

abbrev pub last_target_of : List WriterUpdate → Option (Option Cid)
last_target_of [] = none
last_target_of (w ∷ []) = some w.update.updated
last_target_of (w ∷ v ∷ ws) = last_target_of (v ∷ ws)

unfoldable pub checkpoint : BufferedPointers → Checkpoint
checkpoint self = record {
  generation = self.generation;
  len = length self.updates;
  last_target = last_target_of self.updates;
}

abbrev pub advance_last : Option Cid → List WriterUpdate → List WriterUpdate
advance_last target [] = []
advance_last target (w ∷ []) = advance target w ∷ []
advance_last target (w ∷ v ∷ ws) = w ∷ advance_last target (v ∷ ws)

abbrev pub restore_last : Option (Option Cid) → List WriterUpdate → List WriterUpdate
restore_last none ws = ws
restore_last (some target) ws = advance_last target ws

unfoldable pub rollback : Checkpoint → BufferedPointers → BufferedPointers
rollback cp self =
    if not (self.generation == cp.generation)
    then record { updates = []; generation = self.generation }
    else record {
      updates = restore_last cp.last_target (take cp.len self.updates);
      generation = self.generation;
    }

-- `iter().rev().find(|w| &w.writer == writer)`.
unfoldable pub find_last : PublicKeyHash → List WriterUpdate → Option PointerUpdate
find_last writer [] = none
find_last writer (w ∷ ws) = elim (find_last writer ws) [
  | some u ↦ some u
  | none ↦ if eq_cid w.writer writer then some w.update else none
]

-- The target is read where the writer has no buffered update.
unfoldable pub get_pointer_target :
    (PublicKeyHash → Result BufferError PointerUpdate)
    → PublicKeyHash
    → BufferedPointers
    → Result BufferError PointerUpdate
get_pointer_target target writer self = elim (find_last writer self.updates) [
  | some u ↦ ok u
  | none ↦ target writer
]

unfoldable pub roots : List WriterUpdate → List Cid
roots [] = []
roots (w ∷ ws) = elim w.update.updated [ some c ↦ c ∷ roots ws | none ↦ roots ws ]

-- The updates of an owner.
unfoldable pub writes_for : PublicKeyHash → List WriterUpdate → List WriterUpdate
writes_for owner [] = []
writes_for owner (w ∷ ws) =
    let rest = writes_for owner ws in if eq_cid w.owner owner then w ∷ rest else rest

unfoldable pub roots_for : PublicKeyHash → List WriterUpdate → List Cid
roots_for owner ws = roots (writes_for owner ws)

unfoldable pub collect_owners : List PublicKeyHash → List WriterUpdate → List PublicKeyHash
collect_owners res [] = res
collect_owners res (w ∷ ws) =
    collect_owners (if is_in w.owner res then res else res ++ (w.owner ∷ [])) ws

unfoldable pub owners : BufferedPointers → List PublicKeyHash
owners self = collect_owners [] self.updates

abbrev pub other_owners : PublicKeyHash → List WriterUpdate → List WriterUpdate
other_owners owner [] = []
other_owners owner (w ∷ ws) =
    let rest = other_owners owner ws in if not (eq_cid w.owner owner) then w ∷ rest else rest

unfoldable pub drop_owner : PublicKeyHash → BufferedPointers → BufferedPointers
drop_owner owner self = record {
  updates = other_owners owner self.updates;
  generation = next_generation self.generation;
}
