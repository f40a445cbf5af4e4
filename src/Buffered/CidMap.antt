-- ===== src/Buffered/CidMap.antt =====
-- The `HashMap<Cid, V>` of crates/peergos-core/src/buffered.rs, as an association list.
use rust_peergos_client.Common.{
  ◌≤◌, ◌≡◌, refl, arith, Option, none, some, List, [], ◌∷◌, length, if◌then◌else◌,
}
use rust_peergos_client.Multiformats.Cid.{Cid}
use rust_peergos_client.Champ.Equal.{eq_cid}
use rust_peergos_client.Buffered.SameCid.{eq_cid_refl, eq_cid_sound}

abbrev pub CidMap {ℓ} : Type ℓ → Type ℓ
CidMap V = List (Cid × V)

module _ {ℓ} {V : Type ℓ} where
  unfoldable pub lookup : Cid → CidMap V → Option V
  lookup c [] = none
  lookup c ((d, v) ∷ m) = let rest = lookup c m in if eq_cid d c then some v else rest

  unfoldable pub remove : Cid → CidMap V → CidMap V
  remove c [] = []
  remove c ((d, v) ∷ m) = let rest = remove c m in if eq_cid d c then rest else (d, v) ∷ rest

  unfoldable pub insert : Cid → V → CidMap V → CidMap V
  insert c v m = (c, v) ∷ remove c m

  pub lookup-remove :
      (c d : Cid) (m : CidMap V) → lookup c (remove d m) ≡ (if eq_cid d c then none else lookup c m)
  unfolding lookup remove
  lookup-remove c d [] = ground arith
  lookup-remove c d ((e, v) ∷ m) = ground (
    arith,
    lookup-remove c d m,
    eq_cid_sound e d,
    eq_cid_sound e c,
    eq_cid_sound d c,
    eq_cid_refl d,
    eq_cid_refl c,
  )

  pub lookup-insert :
      (c d : Cid) (v : V) (m : CidMap V)
      → lookup c (insert d v m) ≡ (if eq_cid d c then some v else lookup c m)
  unfolding lookup insert
  lookup-insert c d v m = ground (arith, lookup-remove c d m)

  pub length-remove : (c : Cid) (m : CidMap V) → length (remove c m) ≤ length m
  unfolding remove
  length-remove c [] = omega arith
  length-remove c ((d, v) ∷ m) = ground (arith, length-remove c m)

  -- A map in which no key is found is empty.
  pub lookup-none : (m : CidMap V) → ((c : Cid) → lookup c m ≡ none) → m ≡ []
  unfolding lookup
  lookup-none [] h = refl
  lookup-none ((d, v) ∷ m) h = ground (arith, h d, eq_cid_refl d)
