-- ===== src/Buffered/Closed.antt =====
-- crates/peergos-core/src/buffered.rs: the blocks that a commit keeps are those reachable from its roots.
use rust_peergos_client.Common.{
  ℕ, suc, zero, ◌≡◌, refl, arith, Bool, Bool-cases, true, ◌||◌, inl, inr, Option-cases, some, List,
  [], ◌∷◌,
}
use rust_peergos_client.Multiformats.Cid.{Cid}
use rust_peergos_client.Champ.Equal.{eq_cid}
use rust_peergos_client.Buffered.SameCid.{eq_cid_refl, eq_cid_sound}
use rust_peergos_client.Buffered.CidMap.{CidMap, lookup}
use rust_peergos_client.Buffered.Cache.{is_in}
use rust_peergos_client.Buffered.Storage.{BufferedBlock, is_buffered}
use rust_peergos_client.Buffered.Reachable.{
  block_links, push_all, keep_reachable, reachable, enough, reachable_total,
}

is_in-push_all :
    (x : Cid) (cs stack : List Cid) → is_in x (push_all cs stack) ≡ (is_in x cs || is_in x stack)
unfolding is_in
is_in-push_all x [] stack = refl
is_in-push_all x (c ∷ cs) stack = ground (arith, is_in-push_all x cs (c ∷ stack))

module _ (buf : CidMap BufferedBlock) where
  abbrev pub IsSubset : List Cid → List Cid → Type 0
  IsSubset xs ys = (x : Cid) → is_in x xs ≡ true → is_in x ys ≡ true

  abbrev pub BufferedIn : List Cid → List Cid → Type 0
  BufferedIn xs ys =
      (x : Cid) → is_in x xs ≡ true → is_buffered (lookup x buf) ≡ true → is_in x ys ≡ true

  -- Every buffered block that a block of the first list links to is in the second.
  abbrev pub LinksIn : List Cid → List Cid → Type 0
  LinksIn xs ys =
      (c : Cid) (b : BufferedBlock)
      → is_in c xs ≡ true
      → lookup c buf ≡ some b
      → BufferedIn (block_links b) ys

  -- What is still linked is kept or waits on the stack.
  abbrev Waiting : List Cid → List Cid → Type 0
  Waiting keep stack =
      (c : Cid) (b : BufferedBlock)
      → is_in c keep ≡ true
      → lookup c buf ≡ some b
      → (x : Cid) → is_in x (block_links b) ≡ true
      → is_buffered (lookup x buf) ≡ true
      → (is_in x keep || is_in x stack) ≡ true

  Waiting-push :
      (cid : Cid) (b : BufferedBlock) (stack keep : List Cid)
      → lookup cid buf ≡ some b
      → Waiting keep (cid ∷ stack)
      → Waiting (cid ∷ keep) (push_all (block_links b) stack)
  unfolding is_in
  Waiting-push cid b stack keep s h c d k e x l p = elim (Bool-cases (eq_cid cid c)) [
    | inl t ↦
        let same = eq_cid_sound cid c t in
        let block : b ≡ d = cc in
        let mine : is_in x (block_links b) ≡ true = cc in
        ground (arith, is_in-push_all x (block_links b) stack, mine)
    | inr f ↦
        ground
          (arith, is_in-push_all x (block_links b) stack, h c d (ground (arith, k, f)) e x l p, f)
  ]

  all_kept :
      (keep kept : List Cid)
      → keep ≡ kept
      → Waiting keep []
      → IsSubset keep kept × BufferedIn [] kept × LinksIn kept kept
  unfolding is_in
  all_kept keep kept same h = (
    (λ x i. ground (arith, i, same)),
    (λ x i p. cc),
    (λ c b k s x l p.
        let mine : is_in c keep ≡ true = ground (arith, k, same) in
        ground (arith, h c b mine s x l p, same)),
  )

  keep_reachable-Closed :
      (fuel : ℕ) (stack keep kept : List Cid)
      → keep_reachable buf fuel stack keep ≡ some kept
      → Waiting keep stack
      → IsSubset keep kept × BufferedIn stack kept × LinksIn kept kept
  unfolding keep_reachable is_in
  keep_reachable-Closed zero [] keep kept e h = all_kept keep kept (cc) h
  keep_reachable-Closed (suc fuel) [] keep kept e h = all_kept keep kept (cc) h
  keep_reachable-Closed zero (cid ∷ stack) keep kept e h = cc
  keep_reachable-Closed (suc fuel) (cid ∷ stack) keep kept e h =
      elim (Bool-cases (is_in cid keep)) [
        | inl t ↦
            let step : keep_reachable buf fuel stack keep ≡ some kept = ground (arith, e, t) in
            let (sub, waiting, closed) =
              keep_reachable-Closed fuel stack keep kept step (λ c b k s x l p.
                let either = h c b k s x l p in ground (arith, either, t, eq_cid_sound cid x)) in
            (sub, (λ x i p. ground (arith, i, t, eq_cid_sound cid x, sub cid t, waiting x)), closed)
        | inr f ↦ elim (Option-cases (lookup cid buf)) [
          | inl n ↦
              let step : keep_reachable buf fuel stack keep ≡ some kept = ground (arith, e, f, n) in
              let (sub, waiting, closed) =
                keep_reachable-Closed fuel stack keep kept step (λ c b k s x l p.
                  let either = h c b k s x l p in
                  ground (arith, either, n, p, eq_cid_sound cid x)) in
              (sub, (λ x i p. ground (arith, i, n, p, eq_cid_sound cid x, waiting x)), closed)
          | inr (b, s) ↦
              let step : keep_reachable buf fuel (push_all (block_links b) stack) (cid ∷ keep)
                  ≡ some kept =
                ground (arith, e, f, s) in
              let (sub, waiting, closed) =
                keep_reachable-Closed fuel (push_all (block_links b) stack) (cid ∷ keep) kept step
                  (Waiting-push cid b stack keep s h) in
              (
                (λ x i. sub x (ground (arith, i))),
                (λ x i p.
                    ground (arith, i, p, sub x, waiting x, is_in-push_all x (block_links b) stack)),
                closed,
              )
        ]
      ]

  -- The search for the blocks to keep ends, whatever the buffered blocks link to. It keeps every buffered
  -- root, and every buffered block that a block it keeps links to: a commit leaves out nothing that its
  -- roots need.
  pub reachable-LinksIn :
      (roots : List Cid)
      → (kept : List Cid) × (reachable buf roots ≡ some kept)
        × BufferedIn roots kept
        × LinksIn kept kept
  unfolding reachable is_in
  reachable-LinksIn roots =
      let (kept, e) = reachable_total buf roots in
      let (sub, waiting, closed) =
        keep_reachable-Closed (enough buf roots) (push_all roots []) [] kept e
          (λ c b k s x l p. cc) in
      (kept, e, (λ x i p. waiting x (ground (arith, i, is_in-push_all x roots [])) p), closed)

  module _ (test : Cid → Bool)
      (linked : (c : Cid) (b : BufferedBlock)
        → test c ≡ true
        → lookup c buf ≡ some b
        → (x : Cid) → is_in x (block_links b) ≡ true
        → is_buffered (lookup x buf) ≡ true
        → test x ≡ true) where
    keep_reachable_least :
        (fuel : ℕ) (stack keep kept : List Cid)
        → keep_reachable buf fuel stack keep ≡ some kept
        → ((x : Cid) → is_in x keep ≡ true → test x ≡ true)
        → ((x : Cid) → is_in x stack ≡ true → is_buffered (lookup x buf) ≡ true → test x ≡ true)
        → (x : Cid) → is_in x kept ≡ true
        → test x ≡ true
    unfolding keep_reachable is_in
    keep_reachable_least zero [] keep kept e h k x i =
        let same : keep ≡ kept = cc in h x (ground (arith, i, same))
    keep_reachable_least (suc fuel) [] keep kept e h k x i =
        let same : keep ≡ kept = cc in h x (ground (arith, i, same))
    keep_reachable_least zero (cid ∷ stack) keep kept e h k x i = cc
    keep_reachable_least (suc fuel) (cid ∷ stack) keep kept e h k x i =
        let below : (y : Cid)
            → is_in y stack ≡ true
            → is_buffered (lookup y buf) ≡ true
            → test y ≡ true =
          λ y j p. k y (ground (arith, j)) p in
        elim (Bool-cases (is_in cid keep)) [
          | inl t ↦
              let step : keep_reachable buf fuel stack keep ≡ some kept = ground (arith, e, t) in
              keep_reachable_least fuel stack keep kept step h below x i
          | inr f ↦ elim (Option-cases (lookup cid buf)) [
            | inl n ↦
                let step : keep_reachable buf fuel stack keep ≡ some kept =
                  ground (arith, e, f, n) in
                keep_reachable_least fuel stack keep kept step h below x i
            | inr (b, s) ↦
                let step : keep_reachable buf fuel (push_all (block_links b) stack) (cid ∷ keep)
                    ≡ some kept =
                  ground (arith, e, f, s) in
                let here : test cid ≡ true =
                  k cid (ground (arith, eq_cid_refl cid)) (ground (arith, s)) in
                keep_reachable_least fuel (push_all (block_links b) stack) (cid ∷ keep) kept step
                  (λ y j. ground (arith, j, here, eq_cid_sound cid y, h y))
                  (λ y j p. ground (
                    arith,
                    j,
                    p,
                    below y,
                    linked cid b here s y,
                    is_in-push_all y (block_links b) stack,
                  ))
                  x i
          ]
        ]

    -- Nothing else is kept: a test that holds of the buffered roots, and of the buffered blocks that a block
    -- of which it holds links to, holds of all that is kept.
    pub reachable_least :
        (roots kept : List Cid)
        → reachable buf roots ≡ some kept
        → ((x : Cid) → is_in x roots ≡ true → is_buffered (lookup x buf) ≡ true → test x ≡ true)
        → (x : Cid) → is_in x kept ≡ true
        → test x ≡ true
    unfolding reachable is_in
    reachable_least roots kept e k x i =
        keep_reachable_least (enough buf roots) (push_all roots []) [] kept e (λ y j. cc)
          (λ y j p. k y (ground (arith, j, is_in-push_all y roots [])) p) x i
