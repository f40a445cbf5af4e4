-- ===== src/Multiformats/Varint/Minimal.antt =====
-- `read_uvarint` accepts only what `put_uvarint` writes.
use rust_peergos_client.Common.{
  ℕ, zero, suc, ◌+◌, ◌*◌, ◌/◌, ◌%◌, ◌^◌, ◌≤◌, ◌<◌, ◌≡◌, refl, sym, ap, ◌∙◌, ◌⊎◌, inl, inr, arith,
  [], ◌∷◌, ◌++◌, Bytes, IsBytes, ok,
}
use rust_peergos_client.Multiformats.Varint.{put_uvarint, read_loop, read_uvarint}
use rust_peergos_client.Multiformats.Varint.RoundTrip.{
  put_uvarint_small, put_uvarint_large, limit, or_shifted, split_group, below_shifted, shift_seven,
}
use mathlib.Core.Path.{ap₂}
use Prim.Native.Nat.{bit_or}

-- A successful round is the last one, or one that goes on.
read_loop_round :
    (left i x s b : ℕ) (bs : Bytes) (v : ℕ) (rest : Bytes)
    → read_loop (suc left) i x s (b ∷ bs) ≡ ok (v, rest)
    → ((b < 0x80)
        × (i ≡ 9 → b < 2)
        × (b ≡ 0 → s ≡ 0)
        × (bit_or x (b * 2 ^ s % 2 ^ 64) ≡ v)
        × (bs ≡ rest))
      ⊎ ((0x80 ≤ b)
          × (read_loop left (i + 1) (bit_or x (b % 0x80 * 2 ^ s % 2 ^ 64)) (s + 7) bs
              ≡ ok (v, rest)))
unfolding read_loop
read_loop_round left i x s b bs v rest e = ground arith

-- What a successful run read: a number below the limit, in its minimal form.
abbrev Read : ℕ → ℕ → ℕ → Bytes → ℕ → Bytes → Type 0
Read left x s bs v rest =
    (w : ℕ) × (v ≡ x + w * 2 ^ s)
    × (bs ≡ put_uvarint w ++ rest)
    × (w ≡ 0 → s ≡ 0)
    × (w < limit left)

fits : (g k s : ℕ) → g < k → 0 < 2 ^ s → k * 2 ^ s ≤ 2 ^ 64 → g * 2 ^ s < 2 ^ 64
fits g k s h p hk = omega (arith, scaled)
  where
    scaled : g * 2 ^ s + 2 ^ s ≤ k * 2 ^ s
    scaled = grind arith

Read_last :
    (left x s b v : ℕ) (bs rest : Bytes)
    → x < 2 ^ s
    → limit left * 2 ^ s ≤ 2 ^ 64
    → b < 0x80
    → b < limit left
    → (b ≡ 0 → s ≡ 0)
    → bit_or x (b * 2 ^ s % 2 ^ 64) ≡ v
    → bs ≡ rest
    → Read left x s (b ∷ bs) v rest
Read_last left x s b v bs rest hx hl hb hw hz hv hr = (
  b,
  sym hv ∙ or_shifted s b x hx (fits b (limit left) s hw (omega arith) hl),
  rw (put_uvarint_small b hb) (ap (λ t. b ∷ t) hr),
  hz,
  hw,
)

-- A group of seven bits under what a later run read.
Read_more :
    (n x s b v : ℕ) (bs rest : Bytes)
    → b < 256
    → 0x80 ≤ b
    → Read (suc n) (x + b % 0x80 * 2 ^ s) (s + 7) bs v rest
    → Read (suc (suc n)) x s (b ∷ bs) v rest
Read_more n x s b v bs rest hb hl (w, hv, hbs, hz, hw) =
    let whole = b % 0x80 + 128 * w in
    let low : whole % 0x80 ≡ b % 0x80 = omega arith in
    let high : whole / 2 ^ 7 ≡ w = omega arith in
    let pos : 0 < w = ground arith in
    (
      whole,
      hv
          ∙ omega (
            arith,
            split_group whole s,
            ap (λ (t : ℕ). t * 2 ^ s) low,
            ap (λ (t : ℕ). t * 2 ^ (s + 7)) high,
          ),
      rw (put_uvarint_large whole (omega arith), high, low) (ap₂ (λ h t. h ∷ t) (omega arith) hbs),
      λ e. absurd (omega arith),
      omega arith,
    )

limit_pos : (n : ℕ) → 128 ≤ limit (suc (suc n))
limit_pos zero = omega arith
limit_pos (suc n) = omega (arith, limit_pos n)

next_limit : (n s : ℕ) → limit (suc (suc n)) * 2 ^ s ≤ 2 ^ 64 → limit (suc n) * 2 ^ (s + 7) ≤ 2 ^ 64
next_limit n s h = omega (arith, ap (λ (t : ℕ). limit (suc n) * t) (shift_seven s))

read_loop-Read :
    (left i x s : ℕ) (bs : Bytes) (v : ℕ) (rest : Bytes)
    → IsBytes bs
    → i + left ≡ 10
    → limit left * 2 ^ s ≤ 2 ^ 64
    → x < 2 ^ s
    → read_loop left i x s bs ≡ ok (v, rest)
    → Read left x s bs v rest
read_loop-Read zero i x s bs v rest hb hi hl hx e = unfold read_loop in cc
read_loop-Read (suc left) i x s [] v rest hb hi hl hx e = unfold read_loop in cc
read_loop-Read (suc zero) i x s (b ∷ bs) v rest hb hi hl hx e =
    elim (read_loop_round zero i x s b bs v rest e) [
      | inl (small, top, min, hv, hr) ↦
          Read_last 1 x s b v bs rest hx hl small (omega (arith, top (omega arith))) min hv hr
      | inr (large, more) ↦ unfold read_loop in cc
    ]
read_loop-Read (suc (suc n)) i x s (b ∷ bs) v rest hb hi hl hx e =
    elim (read_loop_round (suc n) i x s b bs v rest e) [
      | inl (small, top, min, hv, hr) ↦
          Read_last (suc (suc n)) x s b v bs rest hx hl small (omega (arith, limit_pos n)) min hv hr
      | inr (large, more) ↦
          let wide =
            fits (b % 0x80) (limit (suc (suc n))) s (omega (arith, limit_pos n)) (omega arith) hl in
          Read_more n x s b v bs rest hb.0 large (
            read_loop-Read (suc n) (i + 1) (x + b % 0x80 * 2 ^ s) (s + 7) bs v rest hb.1
              (omega arith) (next_limit n s hl) (below_shifted s (b % 0x80) x hx (omega arith))
              (rw (or_shifted s (b % 0x80) x hx wide) at more))
    ]

-- `read_uvarint` accepts nothing but the minimal form of a `u64`: where it reads a number from bytes,
-- the number is below 2 ^ 64, and the bytes are what `put_uvarint` writes for it, then the rest.
pub put_uvarint-read_uvarint :
    (bs : Bytes) (v : ℕ) (rest : Bytes)
    → IsBytes bs
    → read_uvarint bs ≡ ok (v, rest)
    → (v < 2 ^ 64) × (bs ≡ put_uvarint v ++ rest)
unfolding read_uvarint
put_uvarint-read_uvarint bs v rest hb e =
    let (w, hv, hbs, hz, hw) =
      read_loop-Read 10 0 0 0 bs v rest hb refl (omega arith) (omega arith) e in
    let same : v ≡ w = omega (arith, hv) in (omega (arith, same, hw), rw same hbs)
