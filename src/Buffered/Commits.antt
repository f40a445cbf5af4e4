-- ===== src/Buffered/Commits.antt =====
-- crates/peergos-core/src/buffered.rs: writes that are condensed commit to what they would have committed to
-- one by one, and a writer reads its latest target.
use rust_peergos_client.Common.{
  ◌≡◌, refl, ap, sym, ◌∙◌, arith, Bool, Bool-cases, true, false, ◌&&◌, inl, inr, Option, none, some,
  List, [], ◌∷◌, if◌then◌else◌,
}
use rust_peergos_client.Multiformats.Cid.{Cid}
use rust_peergos_client.Champ.Equal.{eq_cid}
use rust_peergos_client.Buffered.SameCid.{eq_cid_refl, eq_cid_sound}
use rust_peergos_client.Buffered.Storage.{PublicKeyHash}
use rust_peergos_client.Buffered.Pointers.{PointerUpdate, Signer, WriterUpdate, add_write}

abbrev pub eq_maybe : Option Cid → Option Cid → Bool
eq_maybe none none = true
eq_maybe (some a) (some b) = eq_cid a b
eq_maybe _ _ = false

eq_maybe_sound : (a b : Option Cid) → eq_maybe a b ≡ true → a ≡ b
eq_maybe_sound none none h = refl
eq_maybe_sound (some a) (some b) h = ap some (eq_cid_sound a b h)
eq_maybe_sound none (some b) h = cc
eq_maybe_sound (some a) none h = cc

-- The pointers of a server: the target of each writer.
abbrev pub Targets : Type 0
Targets = PublicKeyHash → Option Cid

abbrev pub set_target : PublicKeyHash → Option Cid → Targets → Targets
set_target writer target q c = if eq_cid writer c then target else q c

-- A compare-and-swap of a writer's pointer, which fails where the pointer is not at the original.
abbrev pub swap : WriterUpdate → Targets → Option Targets
swap w q =
    if eq_maybe (q w.writer) w.update.original
    then some (set_target w.writer w.update.updated q)
    else none

-- The updates in their order.
unfoldable pub commit_all : List WriterUpdate → Targets → Option Targets
commit_all [] q = some q
commit_all (w ∷ ws) q = elim (swap w q) [ none ↦ none | some q' ↦ commit_all ws q' ]

-- The updates commit to the targets of the first, but with that of one writer advanced.
abbrev pub Advanced : PublicKeyHash → Option Cid → Targets → Option Targets → Type 0
Advanced writer target q result =
    (q' : Targets) × (result ≡ some q') × ((c : Cid) → q' c ≡ set_target writer target q c)

eq_maybe_refl : (a : Option Cid) → eq_maybe a a ≡ true
eq_maybe_refl none = refl
eq_maybe_refl (some a) = eq_cid_refl a

-- A new update at the end, at targets where its compare-and-swap succeeds.
commit_all-last :
    (o : PublicKeyHash) (s : Signer) (u : PointerUpdate) (p q : Targets)
    → p ≡ q
    → q s.public_key_hash ≡ u.original
    → Advanced s.public_key_hash u.updated q (
        commit_all
          (record { owner = o; writer = s.public_key_hash; update = u; signer = s } ∷ [])
          p)
unfolding commit_all
commit_all-last o s u p q e h =
    let at : p s.public_key_hash ≡ u.original = ap (λ r. r s.public_key_hash) e ∙ h in
    let test : eq_maybe (p s.public_key_hash) u.original ≡ true =
      ap (λ x. eq_maybe x u.original) at ∙ eq_maybe_refl u.original in
    (
      set_target s.public_key_hash u.updated p,
      ground (arith, test),
      λ c. ap (λ r. set_target s.public_key_hash u.updated r c) e,
    )

-- Where updates commit, a write whose original is then the writer's target commits with them, condensed or
-- not, to the targets with that of the writer advanced.
pub commit_all-add_write :
    (o : PublicKeyHash) (s : Signer) (u : PointerUpdate) (ws : List WriterUpdate) (p q : Targets)
    → commit_all ws p ≡ some q
    → q s.public_key_hash ≡ u.original
    → Advanced s.public_key_hash u.updated q (commit_all (add_write o s u ws) p)
unfolding commit_all add_write
commit_all-add_write o s u [] p q e h = commit_all-last o s u p q (cc) h
commit_all-add_write o s u (w ∷ []) p q e h =
    elim (Bool-cases (eq_maybe (p w.writer) w.update.original)) [
      | inr f ↦ ground (arith, e, f)
      | inl t ↦
          let done : set_target w.writer w.update.updated p ≡ q = ground (arith, e, t) in
          elim (Bool-cases (eq_cid w.writer s.public_key_hash && eq_cid w.owner o)) [
            | inl m ↦
                let same = eq_cid_sound w.writer s.public_key_hash (ground (arith, m)) in
                (
                  set_target w.writer u.updated p,
                  rw m (ground (arith, t)),
                  λ c.
                      let here : q c ≡ set_target w.writer w.update.updated p c =
                        ap (λ r. r c) (sym done) in
                      ground (arith, here, same),
                )
            | inr n ↦
                let (q', last, there) =
                  commit_all-last o s u (set_target w.writer w.update.updated p) q done h in
                (q', rw n (ground (arith, t, last)), there)
          ]
    ]
commit_all-add_write o s u (w ∷ x ∷ ws) p q e h =
    elim (Bool-cases (eq_maybe (p w.writer) w.update.original)) [
      | inr f ↦ ground (arith, e, f)
      | inl t ↦
          let rest : commit_all (x ∷ ws) (set_target w.writer w.update.updated p) ≡ some q =
            ground (arith, e, t) in
          let (q', last, there) =
            commit_all-add_write o s u (x ∷ ws) (set_target w.writer w.update.updated p) q rest h in
          (q', ground (arith, t, last), there)
    ]
