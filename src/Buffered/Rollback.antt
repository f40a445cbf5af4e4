-- ===== src/Buffered/Rollback.antt =====
-- crates/peergos-core/src/buffered.rs: `rollback` to a checkpoint.
use rust_peergos_client.Common.{
  ◌≡◌, refl, ap, ◌∙◌, arith, Bool-cases, true, ◌&&◌, inl, inr, Option, none, some, List, [], ◌∷◌,
  length, take, ◌==◌,
}
use rust_peergos_client.Multiformats.Cid.{Cid}
use rust_peergos_client.Champ.Equal.{eq_cid}
use rust_peergos_client.Buffered.Storage.{PublicKeyHash}
use rust_peergos_client.Buffered.Pointers.{
  PointerUpdate, Signer, WriterUpdate, BufferedPointers, advance, add_write, set_pointer_update,
  last_target_of, checkpoint, restore_last, rollback,
}

-- A write that a caller makes.
pub record Write : Type 0 where
  pub owner : PublicKeyHash
  pub signer : Signer
  pub update : PointerUpdate

unfoldable pub set_all : List Write → BufferedPointers → BufferedPointers
set_all [] self = self
set_all (w ∷ ws) self = set_all ws (set_pointer_update w.owner w.signer w.update self)

-- The second list has the updates of the first, the last of them with any target, and more after them.
abbrev Extends : List WriterUpdate → List WriterUpdate → Type 0
Extends [] vs = Unit
Extends (w ∷ []) [] = ⊥
Extends (w ∷ []) (v ∷ vs) = (target : Option Cid) × (v ≡ advance target w)
Extends (w ∷ x ∷ ws) [] = ⊥
Extends (w ∷ x ∷ ws) (v ∷ vs) = (v ≡ w) × Extends (x ∷ ws) vs

Extends-refl : (us : List WriterUpdate) → Extends us us
Extends-refl [] = tt
Extends-refl (w ∷ []) = (w.update.updated, refl)
Extends-refl (w ∷ x ∷ ws) = (refl, Extends-refl (x ∷ ws))

add_write-Extends :
    (o : PublicKeyHash) (s : Signer) (u : PointerUpdate) (us vs : List WriterUpdate)
    → Extends us vs
    → Extends us (add_write o s u vs)
unfolding add_write
add_write-Extends o s u [] vs h = tt
add_write-Extends o s u (w ∷ []) (v ∷ []) (target, e) =
    elim (Bool-cases (eq_cid v.writer s.public_key_hash && eq_cid v.owner o)) [
      | inl t ↦ rw t (u.updated, ap (advance u.updated) e)
      | inr f ↦ rw f (target, e)
    ]
add_write-Extends o s u (w ∷ []) (v ∷ y ∷ vs) h = h
add_write-Extends o s u (w ∷ []) [] h = elim h [ ]
add_write-Extends o s u (w ∷ x ∷ ws) [] h = elim h [ ]
add_write-Extends o s u (w ∷ x ∷ []) (v ∷ []) (e, h) = elim h [ ]
add_write-Extends o s u (w ∷ x ∷ y ∷ ws) (v ∷ []) (e, h) = elim h [ ]
add_write-Extends o s u (w ∷ x ∷ ws) (v ∷ y ∷ vs) (e, h) =
    (e, add_write-Extends o s u (x ∷ ws) (y ∷ vs) h)

restore_cons :
    (v y : WriterUpdate) (ys : List WriterUpdate) (o : Option (Option Cid))
    → restore_last o (v ∷ y ∷ ys) ≡ v ∷ restore_last o (y ∷ ys)
restore_cons v y ys none = refl
restore_cons v y ys (some target) = refl

restore-Extends :
    (us vs : List WriterUpdate)
    → Extends us vs
    → restore_last (last_target_of us) (take (length us) vs) ≡ us
unfolding take
restore-Extends [] vs h = refl
restore-Extends (w ∷ []) [] h = elim h [ ]
restore-Extends (w ∷ []) (v ∷ vs) (target, e) = ap (λ x. advance w.update.updated x ∷ []) e
restore-Extends (w ∷ x ∷ ws) [] h = elim h [ ]
restore-Extends (w ∷ x ∷ []) (v ∷ []) (e, h) = elim h [ ]
restore-Extends (w ∷ x ∷ y ∷ ws) (v ∷ []) (e, h) = elim h [ ]
restore-Extends (w ∷ x ∷ ws) (v ∷ y ∷ vs) (e, h) =
    restore_cons v y (take (length ws) vs) (last_target_of (x ∷ ws))
    ∙ (ap (λ z. z ∷ restore_last (last_target_of (x ∷ ws)) (y ∷ take (length ws) vs)) e
        ∙ ap (λ z. w ∷ z) (restore-Extends (x ∷ ws) (y ∷ vs) h))

set_all-Extends :
    (us : List WriterUpdate) (ws : List Write) (self : BufferedPointers)
    → Extends us self.updates
    → Extends us (set_all ws self).updates × ((set_all ws self).generation ≡ self.generation)
unfolding set_all set_pointer_update
set_all-Extends us [] self h = (h, refl)
set_all-Extends us (w ∷ ws) self h =
    set_all-Extends us ws (set_pointer_update w.owner w.signer w.update self)
      (add_write-Extends w.owner w.signer w.update us self.updates h)

-- A rollback to a checkpoint undoes every write since it, whichever owners and writers they were of.
pub rollback-set_all :
    (ws : List Write) (self : BufferedPointers)
    → rollback (checkpoint self) (set_all ws self) ≡ self
unfolding rollback checkpoint
rollback-set_all ws self =
    let (kept, same) = set_all-Extends self.updates ws self (Extends-refl self.updates) in
    let now : ((set_all ws self).generation == self.generation) ≡ true = ground (arith, same) in
    let restored = restore-Extends self.updates (set_all ws self).updates kept in
    rw now (λ i. record { updates = restored i; generation = same i })
