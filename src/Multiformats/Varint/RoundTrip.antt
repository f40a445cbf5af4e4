-- ===== src/Multiformats/Varint/RoundTrip.antt =====
-- `read_uvarint` and `put_uvarint` are inverse to each other on `u64`.
use rust_peergos_client.Common.{
  ℕ, zero, suc, ◌+◌, ◌*◌, ◌/◌, ◌%◌, ◌^◌, ◌≤◌, ◌<◌, ◌≡◌, refl, ap, ◌∙◌, inl, inr, arith, [], ◌∷◌,
  ◌++◌, Bytes, ltb, ok, Bool-cases, ltb→lt,
}
use rust_peergos_client.Common.Bits.{bit_or_above, bit_or_top}
use rust_peergos_client.Common.Order.{lt_wf}
use rust_peergos_client.Multiformats.Varint.{put_loop, put_uvarint, read_loop, read_uvarint}
use Prim.Native.Nat.{bit_or}
use mathlib.Core.WellFounded.{Acc}
use native.Mathlib.Numerals.{towards_suc}

-- The loop does not depend on how its end is shown.
put_loop_same : (x : ℕ) (v w : Acc ◌<◌ x) → put_loop x v ≡ put_loop x w
unfolding put_loop
put_loop_same x (Acc.intro _ f) (Acc.intro _ g) =
    grind
      (arith, λ (p : x / 2 ^ 7 < x). put_loop_same (x / 2 ^ 7) (f (x / 2 ^ 7) p) (g (x / 2 ^ 7) p))

put_loop_small : (x : ℕ) (w : Acc ◌<◌ x) → x < 0x80 → put_loop x w ≡ x ∷ []
unfolding put_loop
put_loop_small x (Acc.intro _ f) h = grind arith

put_loop_large :
    (x : ℕ) (w : Acc ◌<◌ x) (v : Acc ◌<◌ (x / 2 ^ 7))
    → 0x80 ≤ x
    → put_loop x w ≡ (x % 0x80 + 0x80) ∷ put_loop (x / 2 ^ 7) v
unfolding put_loop
put_loop_large x (Acc.intro _ f) v h = grind (
  arith,
  bit_or_top (x % 256),
  λ (p : x / 2 ^ 7 < x). put_loop_same (x / 2 ^ 7) (f (x / 2 ^ 7) p) v,
)

pub put_uvarint_small : (x : ℕ) → x < 0x80 → put_uvarint x ≡ x ∷ []
unfolding put_uvarint
put_uvarint_small x h = put_loop_small x (lt_wf.apply x) h

pub put_uvarint_large :
    (x : ℕ) → 0x80 ≤ x → put_uvarint x ≡ (x % 0x80 + 0x80) ∷ put_uvarint (x / 2 ^ 7)
unfolding put_uvarint
put_uvarint_large x h = put_loop_large x (lt_wf.apply x) (lt_wf.apply (x / 2 ^ 7)) h

-- With `left` groups to go, what is still to be read is below this.
abbrev pub limit : ℕ → ℕ
limit zero = 1
limit (suc zero) = 2
limit (suc (suc n)) = 128 * limit (suc n)

pub shift_seven : (s : ℕ) → 2 ^ (s + 7) ≡ 128 * 2 ^ s
shift_seven s = simp towards_suc (omega arith)

pub or_shifted :
    (s w x : ℕ) → x < 2 ^ s → w * 2 ^ s < 2 ^ 64 → bit_or x (w * 2 ^ s % 2 ^ 64) ≡ x + w * 2 ^ s
or_shifted s w x hx hw =
    ap (bit_or x) {x = w * 2 ^ s % 2 ^ 64} {y = w * 2 ^ s} (omega arith) ∙ bit_or_above s w x hx

or_shifted_low :
    (s g x : ℕ)
    → x < 2 ^ s
    → g < 0x80
    → g * 2 ^ s < 2 ^ 64
    → bit_or x ((g + 0x80) % 0x80 * 2 ^ s % 2 ^ 64) ≡ x + g * 2 ^ s
or_shifted_low s g x hx hg hs =
    ap (λ t. bit_or x (t * 2 ^ s % 2 ^ 64)) {x = (g + 0x80) % 0x80} {y = g} (omega arith)
    ∙ or_shifted s g x hx hs

-- One round of the reader, where nothing is shifted out of the word.
read_last :
    (left i x s w : ℕ) (rest : Bytes)
    → x < 2 ^ s
    → w < 0x80
    → w * 2 ^ s < 2 ^ 64
    → (i ≡ 9 → w < 2)
    → ((w ≡ 0) → (s ≡ 0))
    → read_loop (suc left) i x s (w ∷ rest) ≡ ok (x + w * 2 ^ s, rest)
unfolding read_loop
read_last left i x s w rest hx hw hs hi hz = ground (arith, or_shifted s w x hx hs)

read_more :
    (left i x s g : ℕ) (rest : Bytes)
    → x < 2 ^ s
    → g < 0x80
    → g * 2 ^ s < 2 ^ 64
    → read_loop (suc left) i x s ((g + 0x80) ∷ rest)
      ≡ read_loop left (i + 1) (x + g * 2 ^ s) (s + 7) rest
unfolding read_loop
read_more left i x s g rest hx hg hs = ground (arith, or_shifted_low s g x hx hg hs)

-- The low group of `w` and the groups above it, shifted by `s`.
pub split_group : (w s : ℕ) → w * 2 ^ s ≡ w % 0x80 * 2 ^ s + w / 0x80 * 2 ^ (s + 7)
split_group w s = omega (
  arith,
  ap (λ (t : ℕ). t * 2 ^ s) {x = w} {y = w % 0x80 + 128 * (w / 0x80)} (omega arith),
  ap (λ (t : ℕ). w / 0x80 * t) (shift_seven s),
)

pub below_shifted : (s g x : ℕ) → x < 2 ^ s → g < 0x80 → x + g * 2 ^ s < 2 ^ (s + 7)
below_shifted s g x hx hg = omega (arith, shift_seven s, scaled)
  where
    scaled : g * 2 ^ s + 2 ^ s ≤ 128 * 2 ^ s
    scaled = grind arith

read_loop-put_uvarint :
    (left i x s w : ℕ) (rest : Bytes)
    → i + left ≡ 10
    → s ≡ 7 * i
    → w < limit left
    → w * 2 ^ s < 2 ^ 64
    → x < 2 ^ s
    → (w ≡ 0 → s ≡ 0)
    → read_loop left i x s (put_uvarint w ++ rest) ≡ ok (x + w * 2 ^ s, rest)
read_loop-put_uvarint zero i x s w rest hi hs hw hb hx hz = absurd (omega arith)
read_loop-put_uvarint (suc zero) i x s w rest hi hs hw hb hx hz =
    rw (put_uvarint_small w (omega arith))
      (read_last 0 i x s w rest hx (omega arith) hb (omega arith) hz)
read_loop-put_uvarint (suc (suc n)) i x s w rest hi hs hw hb hx hz =
    elim (Bool-cases (ltb w 0x80)) [
      | inl small ↦
          rw (put_uvarint_small w (ltb→lt _ _ small))
            (read_last (suc n) i x s w rest hx (ltb→lt _ _ small) hb (omega arith) hz)
      | inr large ↦
          rw
            (
              put_uvarint_large w (ground arith),
              read_more (suc n) i x s (w % 0x80) (put_uvarint (w / 2 ^ 7) ++ rest) hx (omega arith)
                  (omega (arith, split_group w s)),
              read_loop-put_uvarint (suc n) (i + 1) (x + w % 0x80 * 2 ^ s) (s + 7) (w / 2 ^ 7) rest
                  (omega arith) (omega arith) (omega arith) (omega (arith, split_group w s))
                  (below_shifted s (w % 0x80) x hx (omega arith)) (λ e. absurd (ground arith)),
            )
            (ap (λ t. ok (t, rest)) (omega (arith, split_group w s)))
    ]

-- `read_uvarint` reads back the `u64` that `put_uvarint` wrote, and leaves whatever follows it.
pub read_uvarint-put_uvarint :
    (x : ℕ) (rest : Bytes) → x < 2 ^ 64 → read_uvarint (put_uvarint x ++ rest) ≡ ok (x, rest)
unfolding read_uvarint
read_uvarint-put_uvarint x rest h =
    read_loop-put_uvarint 10 0 0 0 x rest refl refl (omega arith) (omega arith) (omega arith)
      (λ e. refl)
    ∙ ap (λ t. ok (t, rest)) (omega arith)
