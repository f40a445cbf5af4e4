-- ===== src/Buffered/Latest.antt =====
-- crates/peergos-core/src/buffered.rs: what `get_pointer_target` gives after `set_pointer_update`.
use rust_peergos_client.Common.{
  ◌≡◌, refl, arith, Bool-cases, false, ◌&&◌, inl, inr, Option, some, List, [], ◌∷◌, Result, ok,
}
use rust_peergos_client.Champ.Equal.{eq_cid}
use rust_peergos_client.Buffered.SameCid.{eq_cid_refl, eq_cid_sound}
use rust_peergos_client.Buffered.Storage.{PublicKeyHash, BufferError}
use rust_peergos_client.Buffered.Pointers.{
  PointerUpdate, Signer, WriterUpdate, BufferedPointers, advance, add_write, set_pointer_update,
  find_last, get_pointer_target,
}

module _ (o : PublicKeyHash) (s : Signer) (u : PointerUpdate) where
  -- The writer's last update has the new target.
  abbrev AtTarget : Option PointerUpdate → Type 0
  AtTarget found = (v : PointerUpdate) × (found ≡ some v) × (v.updated ≡ u.updated)

  find_last-own :
      (ws : List WriterUpdate) → AtTarget (find_last s.public_key_hash (add_write o s u ws))
  unfolding find_last add_write
  find_last-own [] = (u, ground (arith, eq_cid_refl s.public_key_hash), refl)
  find_last-own (w ∷ []) =
      elim (Bool-cases (eq_cid w.writer s.public_key_hash && eq_cid w.owner o)) [
        | inl t ↦ ((advance u.updated w).update, rw t (ground (arith, t)), refl)
        | inr f ↦ (u, rw f (ground (arith, eq_cid_refl s.public_key_hash)), refl)
      ]
  find_last-own (w ∷ x ∷ ws) = let (v, e, t) = find_last-own (x ∷ ws) in (v, ground (arith, e), t)

  find_last-other :
      (c : PublicKeyHash) (ws : List WriterUpdate)
      → eq_cid s.public_key_hash c ≡ false
      → find_last c (add_write o s u ws) ≡ find_last c ws
  unfolding find_last add_write
  find_last-other c [] h = ground (arith, h)
  find_last-other c (w ∷ []) h =
      elim (Bool-cases (eq_cid w.writer s.public_key_hash && eq_cid w.owner o)) [
        | inl t ↦
            let same = eq_cid_sound w.writer s.public_key_hash (ground (arith, t)) in
            let apart : eq_cid w.writer c ≡ false = rw same h in rw t (ground (arith, apart))
        | inr f ↦ rw f (ground (arith, h))
      ]
  find_last-other c (w ∷ x ∷ ws) h = ground (arith, find_last-other c (x ∷ ws) h)

  -- After a write, its writer reads an update to the new target, and every other writer reads what it read
  -- before.
  pub get_pointer_target-set_pointer_update :
      (target : PublicKeyHash → Result BufferError PointerUpdate) (self : BufferedPointers)
      (c : PublicKeyHash)
      → eq_cid s.public_key_hash c ≡ false
      → ((v : PointerUpdate) × (get_pointer_target target s.public_key_hash
              (set_pointer_update o s u self)
            ≡ ok v)
          × (v.updated ≡ u.updated))
        × (get_pointer_target target c (set_pointer_update o s u self)
            ≡ get_pointer_target target c self)
  unfolding get_pointer_target set_pointer_update
  get_pointer_target-set_pointer_update target self c h =
      let (v, e, t) = find_last-own self.updates in
      ((v, ground (arith, e), t), ground (arith, find_last-other c self.updates h))
