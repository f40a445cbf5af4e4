-- ===== src/Buffered/PointerRuns.antt =====
-- Runs of the buffered pointers, and the theorems at concrete inputs.
use rust_peergos_client.Common.{ℕ, ◌≡◌, refl, arith, if◌then◌else◌, none, some, List, [], ◌∷◌}
use rust_peergos_client.Multiformats.Multihash.{sha2_256}
use rust_peergos_client.Multiformats.Cid.{Cid, raw}
use rust_peergos_client.Common.Int.{pos}
use rust_peergos_client.Champ.Equal.{eq_cid}
use rust_peergos_client.Buffered.SameCid.{eq_cid_refl}
use rust_peergos_client.Buffered.Storage.{PublicKeyHash}
use rust_peergos_client.Buffered.Pointers.{
  PointerUpdate, Signer, WriterUpdate, BufferedPointers, add_write, checkpoint, rollback,
}
use rust_peergos_client.Buffered.Rollback.{Write, set_all, rollback-set_all}
use rust_peergos_client.Buffered.Commits.{Targets, commit_all, Advanced, commit_all-add_write}

abbrev cid_of : ℕ → Cid
cid_of n = record {
  version = 1;
  codec = raw;
  multihash = record { hash_type = sha2_256; hash = n ∷ [] };
}

abbrev user : PublicKeyHash
user = cid_of 9

abbrev signer : Signer
signer = record { public_key_hash = user; secret = [] }

abbrev to_leaf : PointerUpdate
to_leaf = record { original = none; updated = some (cid_of 1); sequence = some (pos 1) }

abbrev to_parent : PointerUpdate
to_parent = record {
  original = some (cid_of 1);
  updated = some (cid_of 2);
  sequence = some (pos 2);
}

abbrev one_write : List WriterUpdate
one_write = record { owner = user; writer = user; update = to_leaf; signer = signer } ∷ []

abbrev pointers : BufferedPointers
pointers = record { updates = one_write; generation = 0 }

abbrev next_write : Write
next_write = record { owner = user; signer = signer; update = to_parent }

rollback-set_all_example :
    rollback (checkpoint pointers) (set_all (next_write ∷ next_write ∷ []) pointers) ≡ pointers
rollback-set_all_example = rollback-set_all (next_write ∷ next_write ∷ []) pointers

abbrev no_targets : Targets
no_targets c = none

abbrev at_leaf : Targets
at_leaf c = if eq_cid user c then some (cid_of 1) else none

committed : commit_all one_write no_targets ≡ some at_leaf
unfolding commit_all
committed = refl

at_original : at_leaf user ≡ some (cid_of 1)
at_original = ground (arith, eq_cid_refl user)

commit_all-add_write_example :
    Advanced user
      (some (cid_of 2))
      at_leaf
      (commit_all (add_write user signer to_parent one_write) no_targets)
commit_all-add_write_example =
    commit_all-add_write user signer to_parent one_write no_targets at_leaf committed at_original
