-- ===== src/Sync/Names.antt =====
-- crates/peergos-sync/src/sync.rs: the path of a renamed file, and the search for a free name.
use rust_peergos_client.Common.{
  ℕ, zero, suc, ◌+◌, ◌-◌, ◌%◌, ◌^◌, ◌≤◌, ◌<◌, ◌≡◌, ◌≢◌, refl, sym, ap, ◌∙◌, arith, true, false, not,
  Option, Option-cases, none, some, inl, inr, [], ◌∷◌, ◌++◌, append_assoc, length, take, drop,
  length-drop, ok, err, ◌>>=◌, ok_or, Yields, yields, fails, Yields-bind, Yields-if,
}
use mathlib.Core.Path.{subst}
use rust_peergos_client.Common.Text.{Text}
use rust_peergos_client.Common.Equality.{eq_bytes_refl}
use rust_peergos_client.Sync.FileSystem.{SyncFilesystem, out_of_fuel, panicked}
use rust_peergos_client.Sync.Paths.{
  slash, rfind, split_path, parent, file_name, join, strip_suffix, find, marker, marked,
  marker_parts, first_candidate,
}
use rust_peergos_client.Sync.Conflict.{next_version, free_version, conflict_name}

rfind-take :
    (b : ℕ) (s : Text) (i : ℕ)
    → rfind b s ≡ some i
    → (take (suc i) s ≡ take i s ++ (b ∷ [])) × (suc i ≤ length s)
unfolding rfind take
rfind-take b [] i h = cc
rfind-take b (c ∷ s) i h = elim (Option-cases (rfind b s)) [
  | inl n ↦ ground (arith, h, n)
  | inr (j, e) ↦ ground (arith, h, e, rfind-take b s j e)
]

-- A relative path does not begin with a slash.
abbrev pub IsRelative : Text → Type 0
IsRelative path = rfind slash path ≢ some 0

unfoldable pub prefix_of : Text → Text
prefix_of path = elim (rfind slash path) [ some i ↦ take (suc i) path | none ↦ [] ]

take-length : (s : Text) (n : ℕ) → n ≡ 0 → take n s ≡ []
unfolding take
take-length s zero h = refl
take-length s (suc n) h = ground arith

drop-zero : (s : Text) (n : ℕ) → n ≡ 0 → drop n s ≡ s
unfolding drop
drop-zero s zero h = refl
drop-zero s (suc n) h = ground arith

pub strip_suffix-file_name :
    (path : Text) → strip_suffix path (file_name path) ≡ some (prefix_of path)
unfolding strip_suffix split_path prefix_of
strip_suffix-file_name path = elim (Option-cases (rfind slash path)) [
  | inl n ↦ ground (
    arith,
    n,
    eq_bytes_refl path,
    drop-zero path (length path - length path) (omega arith),
    take-length path (length path - length path) (omega arith),
  )
  | inr (i, e) ↦
      let t = rfind-take slash path i e in
      let n : length path - length (drop (suc i) path) ≡ suc i =
        omega (arith, length-drop {0} (suc i) path, t.1) in
      ground (arith, e, n, eq_bytes_refl (drop (suc i) path), length-drop {0} (suc i) path)
]

prefix-join_at :
    (path name : Text) (i : ℕ)
    → rfind slash path ≡ some i
    → i ≢ 0
    → take (suc i) path ++ name ≡ join (take i path) name
prefix-join_at [] name i h n = unfold rfind in ground (arith, h)
prefix-join_at (c ∷ s) name zero h n = absurd (n refl)
prefix-join_at (c ∷ s) name (suc i) h n =
    ap (λ t. t ++ name) (rfind-take slash (c ∷ s) (suc i) h).0
    ∙ unfold take join in append_assoc (c ∷ take i s) (slash ∷ []) name

-- The relative path of the renamed file is the path that it was moved to.
pub prefix-join :
    (path name : Text) → IsRelative path → prefix_of path ++ name ≡ join (parent path) name
unfolding prefix_of split_path
prefix-join path name h = by_slash (rfind slash path) refl
  where
    by_slash :
        (o : Option ℕ)
        → rfind slash path ≡ o
        → (elim o as (λ o. Text) [ some i ↦ take (suc i) path | none ↦ [] ]) ++ name
          ≡ join
              (elim o as (λ o. Text × Text) [
                | some i ↦ (take i path, drop (suc i) path)
                | none ↦ ([], path)
              ]).0
              name
    by_slash none e = unfold join in refl
    by_slash (some i) e = prefix-join_at path name i e (λ z. h (e ∙ ap some z))

module _ {S : Type 0} (fs : SyncFilesystem S) where
  abbrev IsFree : S → Text → Text → Type 0
  IsFree s dir name = fs.exists s (join dir name) ≡ false

  next_version-Yields :
      (fuel : ℕ) (s : S) (dir candidate : Text)
      → Yields (IsFree s dir) (next_version fs fuel s dir candidate)
  unfolding next_version
  next_version-Yields zero s dir candidate = fails
  next_version-Yields (suc fuel) s dir candidate =
      Yields-if (not (fs.exists s (join dir candidate))) (λ e. yields (ground (arith, e)))
        (λ e. next_version-Yields fuel s dir candidate)

  free_version-Yields :
      (fuel : ℕ) (s : S) (dir name : Text) (version : ℕ)
      → Yields (IsFree s dir) (free_version fs fuel s dir name version)
  unfolding free_version
  free_version-Yields zero s dir name version = fails
  free_version-Yields (suc fuel) s dir name version =
      Yields-if (not (fs.exists s (join dir (first_candidate name version))))
        (λ e. yields (ground (arith, e)))
        (λ e. free_version-Yields fuel s dir name ((version + 1) % 2 ^ 32))

  -- The name that is found is free.
  pub conflict_name-Yields :
      (fuel : ℕ) (s : S) (dir name : Text)
      → Yields (IsFree s dir) (conflict_name fs fuel s dir name)
  unfolding conflict_name
  conflict_name-Yields fuel s dir name = by_marker (find marker name)
    where
      by_marker :
          (found : Option ℕ)
          → Yields (IsFree s dir) (elim found [
            | some cs ↦ ok_or (marker_parts name cs) panicked >>= λ (before, (ver, rest)).
                next_version fs fuel s dir (marked before ((ver + 1) % 2 ^ 32) rest)
            | none ↦ free_version fs fuel s dir name 0
          ])
      by_marker none = free_version-Yields fuel s dir name 0
      by_marker (some cs) =
          Yields-bind (ok_or (marker_parts name cs) panicked) (λ (before, (ver, rest)) e.
            next_version-Yields fuel s dir (marked before ((ver + 1) % 2 ^ 32) rest))

  free_version-finds :
      (fuel : ℕ) (s : S) (dir name : Text) (version steps v : ℕ)
      → v ≡ version + steps
      → steps < fuel
      → v < 2 ^ 32
      → IsFree s dir (first_candidate name v)
      → ((k : ℕ) → version ≤ k → k < v → fs.exists s (join dir (first_candidate name k)) ≡ true)
      → free_version fs fuel s dir name version ≡ ok (first_candidate name v)
  unfolding free_version
  free_version-finds zero s dir name version steps v e h b f t = ground arith
  free_version-finds (suc fuel) s dir name version zero v e h b f t =
      let same : v ≡ version = omega arith in
      let f' = subst (λ u. IsFree s dir (first_candidate name u)) same f in
      rw f' (ap (λ u. ok (first_candidate name u)) (sym same))
  free_version-finds (suc fuel) s dir name version (suc steps) v e h b f t =
      let next : (version + 1) % 2 ^ 32 ≡ version + 1 = omega arith in
      rw (t version (omega arith) (omega arith)) (
        rw next (
          free_version-finds fuel s dir name (version + 1) steps v (omega arith) (omega arith) b f
            (λ k le lt. t k (omega arith) lt)))

  -- Where a name has no marker, the search ends at the first version whose name is free, given that it
  -- is below 2 ^ 32 and within the fuel.
  pub conflict_name-finds :
      (fuel : ℕ) (s : S) (dir name : Text) (v : ℕ)
      → find marker name ≡ none
      → v < fuel
      → v < 2 ^ 32
      → fs.exists s (join dir (first_candidate name v)) ≡ false
      → ((k : ℕ) → k < v → fs.exists s (join dir (first_candidate name k)) ≡ true)
      → conflict_name fs fuel s dir name ≡ ok (first_candidate name v)
  unfolding conflict_name
  conflict_name-finds fuel s dir name v m h b f t =
      rw (conflict_name, m)
        (free_version-finds fuel s dir name 0 v v (omega arith) h b f (λ k _ lt. t k lt))

  next_version-stuck :
      (fuel : ℕ) (s : S) (dir candidate : Text)
      → fs.exists s (join dir candidate) ≡ true
      → next_version fs fuel s dir candidate ≡ err out_of_fuel
  unfolding next_version
  next_version-stuck zero s dir candidate t = refl
  next_version-stuck (suc fuel) s dir candidate t = rw t (next_version-stuck fuel s dir candidate t)

  -- A name that has the marker is tried with one version only: where that name is taken, the search
  -- does not end, whatever the fuel.
  pub conflict_name-stuck :
      (fuel : ℕ) (s : S) (dir name before rest : Text) (cs ver : ℕ)
      → find marker name ≡ some cs
      → marker_parts name cs ≡ some (before, (ver, rest))
      → fs.exists s (join dir (marked before ((ver + 1) % 2 ^ 32) rest)) ≡ true
      → conflict_name fs fuel s dir name ≡ err out_of_fuel
  unfolding conflict_name
  conflict_name-stuck fuel s dir name before rest cs ver f p t =
      rw (conflict_name, f, p)
        (next_version-stuck fuel s dir (marked before ((ver + 1) % 2 ^ 32) rest) t)
