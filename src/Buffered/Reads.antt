-- ===== src/Buffered/Reads.antt =====
-- crates/peergos-core/src/buffered.rs: what is read through a `BufferedStorage`.
use rust_peergos_client.Common.{
  ℕ, ◌≡◌, refl, sym, ap, ◌∙◌, arith, Bool-cases, inl, inr, Option, Option-cases, none, some, List,
  [], ◌∷◌, Bytes, length, if◌then◌else◌, ◌==◌, ◌||◌, leb, Result, ok, err, ◌>>=◌, Yields, yields,
  fails,
}
use rust_peergos_client.Multiformats.Multihash.{is_identity}
use rust_peergos_client.Multiformats.Cid.{Cid}
use rust_peergos_client.Champ.Equal.{eq_cid}
use rust_peergos_client.Buffered.SameCid.{eq_cid_sound}
use rust_peergos_client.Buffered.CidMap.{
  CidMap, lookup, insert, remove, lookup-insert, lookup-remove,
}
use rust_peergos_client.Buffered.Cache.{BlockCache, get, put, evict, is_some}
use rust_peergos_client.Buffered.Storage.{BufferError, BufferedBlock, BufferedStorage, get_raw}

evict-lookup :
    (cap : ℕ) (map : CidMap Bytes) (order : List Cid) (c : Cid) (d : Bytes)
    → lookup c (evict cap map order).0 ≡ some d
    → lookup c map ≡ some d
unfolding evict
evict-lookup cap map [] c d e = e
evict-lookup cap map (old ∷ order) c d e = elim (Bool-cases (leb cap (length map))) [
  | inl t ↦
      let later = evict-lookup cap (remove old map) order c d in
      ground (arith, e, t, later, lookup-remove c old map)
  | inr f ↦ ground (arith, e, f)
]

module _ (fetch : Cid → Result BufferError (Option Bytes)) where
  -- What the store is for its users: the buffered blocks over those of the target.
  unfoldable pub view : CidMap BufferedBlock → Cid → Result BufferError (Option Bytes)
  view buffer hash =
      if is_identity hash.multihash
      then ok (some hash.multihash.hash)
      else elim (lookup hash buffer) [ some b ↦ ok (some b.block) | none ↦ fetch hash ]

  -- The cache holds what the target gives.
  abbrev pub IsCoherent : BlockCache → Type 0
  IsCoherent cache = (c : Cid) (d : Bytes) → lookup c cache.map ≡ some d → fetch c ≡ ok (some d)

  put-IsCoherent :
      (cache : BlockCache) (hash : Cid) (d : Bytes)
      → fetch hash ≡ ok (some d)
      → IsCoherent cache
      → IsCoherent (put cache hash d)
  unfolding put
  put-IsCoherent cache hash d f coherent c b e =
      elim (Bool-cases (cache.cap == 0 || is_some (lookup hash cache.map))) [
        | inl t ↦ coherent c b (ground (arith, e, t))
        | inr n ↦
            let kept = evict cache.cap cache.map cache.order in
            let here : lookup c (insert hash d kept.0) ≡ some b = ground (arith, e, n) in
            let either = lookup-insert c hash d kept.0 in
            elim (Bool-cases (eq_cid hash c)) [
              | inl t ↦
                  let same = eq_cid_sound hash c t in
                  let bytes : d ≡ b = ground (arith, here, either, t) in
                  ap fetch (sym same) ∙ (f ∙ ap (λ x. ok (some x)) bytes)
              | inr m ↦ coherent c b (
                  evict-lookup cache.cap cache.map cache.order c b
                    (ground (arith, here, either, m)))
            ]
      ]

  abbrev pub Reads : BufferedStorage → BufferedStorage × Option Bytes → Type 0
  Reads self t = IsCoherent t.0.cache × (t.0.buffer ≡ self.buffer)

  -- With a cache that holds what the target gives, get_raw reads what the buffered blocks over those of the
  -- target are, its errors included, and leaves the buffer as it was and such a cache.
  pub get_raw-view :
      (self : BufferedStorage) (hash : Cid)
      → IsCoherent self.cache
      → ((get_raw fetch self hash >>= λ (self', d). ok d) ≡ view self.buffer hash)
        × Yields (Reads self) (get_raw fetch self hash)
  unfolding get_raw view get
  get_raw-view self hash coherent = elim (Bool-cases (is_identity hash.multihash)) [
    | inl t ↦ rw t (refl, yields (coherent, refl))
    | inr f ↦ elim (Option-cases (lookup hash self.buffer)) [
      | inr (b, e) ↦ rw (f, e) (refl, yields (coherent, refl))
      | inl n ↦ elim (Option-cases (lookup hash self.cache.map)) [
        | inr (d, e) ↦ rw (f, n, e) (sym (coherent hash d e), yields (coherent, refl))
        | inl m ↦ rw (f, n, m) (by_fetch (fetch hash) refl)
      ]
    ]
  ]
    where
      read : Option Bytes → BufferedStorage × Option Bytes
      read fetched = (
        elim fetched [
          | none ↦ self
          | some bytes ↦ record { buffer = self.buffer; cache = put self.cache hash bytes }
        ],
        fetched,
      )

      by_fetch :
          (r : Result BufferError (Option Bytes))
          → fetch hash ≡ r
          → (((r >>= λ fetched. ok (read fetched)) >>= λ (self', d). ok d) ≡ r)
            × Yields (Reads self) (r >>= λ fetched. ok (read fetched))
      by_fetch (ok none) e = (refl, yields (coherent, refl))
      by_fetch (ok (some d)) e = (refl, yields (put-IsCoherent self.cache hash d e coherent, refl))
      by_fetch (err x) e = (refl, fails)
