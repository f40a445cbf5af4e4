-- ===== src/Cbor/Consumes.antt =====
-- Postconditions of the decoder's readers: what a successful read yields and consumes, and that no
-- read runs out of fuel.
use rust_peergos_client.Common.{
  ℕ, zero, suc, ◌+◌, ◌*◌, ◌^◌, ◌≤◌, ◌<◌, ◌≡◌, ◌≢◌, refl, arith, Bool, true, false, [], ◌∷◌, Bytes,
  IsByte, IsBytes, All-take, All-drop, length, length-take, length-drop, Result, ok, err, ◌>>=◌,
  leb, leb→le, ltb, ◌==◌, if◌then◌else◌,
}
use mathlib.Core.Path.{subst}
use rust_peergos_client.Common.Bits.{bit_or_shifted}
use rust_peergos_client.Cbor.Decode.{
  CborError, out_of_fuel, Reader, read_u8, read_n, big_endian, read_uint,
}
use rust_peergos_client.Cbor.Header.{at, payload}

-- The run kept within its fuel, and `P` holds of its value if it has one.
pub data Ensures {A : Type 0} (P : A → Type 0) : Result CborError A → Type 0 where
  value : {a : A} → P a → Ensures P (ok a)
  failed : {e : CborError} → e ≢ out_of_fuel → Ensures P (err e)

module _ {A B : Type 0} {P : A → Type 0} {Q : B → Type 0} where
  pub Ensures-bind :
      {m : Result CborError A} {f : A → Result CborError B}
      → Ensures P m
      → ((a : A) → P a → Ensures Q (f a))
      → Ensures Q (m >>= f)
  Ensures-bind (value {a} h) k = k a h
  Ensures-bind (failed h) k = failed h

module _ {A : Type 0} {P : A → Type 0} where
  pub Ensures-if :
      (b : Bool) {x y : Result CborError A}
      → (b ≡ true → Ensures P x)
      → (b ≡ false → Ensures P y)
      → Ensures P (if b then x else y)
  Ensures-if true hx hy = hx refl
  Ensures-if false hx hy = hy refl

  pub Ensures-imp :
      {Q : A → Type 0} {r : Result CborError A} → Ensures P r → ((a : A) → P a → Q a) → Ensures Q r
  Ensures-imp (value {a} h) k = value (k a h)
  Ensures-imp (failed h) k = failed h

  pub Ensures-ok : {r : Result CborError A} {a : A} → Ensures P r → r ≡ ok a → P a
  Ensures-ok (value h) e = subst P (cc) h
  Ensures-ok (failed h) e = cc

  pub Ensures-out_of_fuel : {r : Result CborError A} → Ensures P r → r ≢ err out_of_fuel
  Ensures-out_of_fuel (value h) e = cc
  Ensures-out_of_fuel (failed h) e = h (cc)

-- From `r` to `r'` at least `least` bytes were read, and the position tells how many.
pub record Consumes (least : ℕ) (r r' : Reader) : Type 0 where
  pub bytes : IsBytes r'.rest
  pub total : r'.pos + length r'.rest ≡ r.pos + length r.rest
  pub used : length r'.rest + least ≤ length r.rest

pub Consumes-trans :
    {m n : ℕ} (k : ℕ) {r s t : Reader}
    → Consumes m r s
    → Consumes n s t
    → k ≤ m + n
    → Consumes k r t
Consumes-trans k c d h = record { bytes = d.bytes; total = omega arith; used = omega arith }

read_u8-at :
    (bs : Bytes) (p : ℕ)
    → IsBytes bs
    → Ensures (λ t. IsByte t.0 × Consumes 1 (at bs p) t.1) (read_u8 (at bs p))
unfolding read_u8
read_u8-at [] p h = failed (λ e. cc)
read_u8-at (b ∷ bs) p h =
    value (h.0, record { bytes = h.1; total = omega arith; used = omega arith })

pub read_u8-Ensures :
    (r : Reader) → IsBytes r.rest → Ensures (λ t. IsByte t.0 × Consumes 1 r t.1) (read_u8 r)
read_u8-Ensures r h = read_u8-at r.rest r.pos h

pub read_n-Ensures :
    (n : ℕ) (r : Reader)
    → IsBytes r.rest
    → Ensures (λ t. IsBytes t.0 × (length t.0 ≡ n) × Consumes n r t.1) (read_n n r)
unfolding read_n
read_n-Ensures n r h =
    Ensures-if (leb n (length r.rest))
      (λ e. value (
        All-take IsByte n r.rest h,
        length-take n r.rest (leb→le _ _ e),
        record {
          bytes = All-drop IsByte n r.rest h;
          total = omega (arith, length-drop n r.rest, leb→le _ _ e);
          used = omega (arith, length-drop n r.rest, leb→le _ _ e);
        },
      ))
      (λ e. failed (λ e'. cc))

-- What a number below `k` becomes when `n` more bytes are read.
abbrev scale : ℕ → ℕ → ℕ
scale zero k = k
scale (suc n) k = scale n (k * 256)

big_endian-lt :
    (bs : Bytes) (acc k : ℕ) → acc < k → IsBytes bs → big_endian acc bs < scale (length bs) k
unfolding big_endian
big_endian-lt [] acc k h hb = h
big_endian-lt (b ∷ bs) acc k h hb =
    rw (bit_or_shifted 8 acc b hb.0)
      (big_endian-lt bs (acc * 2 ^ 8 + b) (k * 256) (omega arith) hb.1)

big_endian-below : (n : ℕ) (bs : Bytes) → IsBytes bs → length bs ≡ n → big_endian 0 bs < scale n 1
big_endian-below n bs h e = rw (← e) (big_endian-lt bs 0 1 (omega arith) h)

-- A `u64`, in at least as many bytes as its shortest form has after the first.
abbrev pub ReadsUint : Reader → ℕ × Reader → Type 0
ReadsUint r t = (t.0 < 2 ^ 64) × Consumes (length (payload t.0)) r t.1

-- Reading a number in `n` bytes, where no number below the bound needs more.
read_wide-Ensures :
    (n : ℕ) (r : Reader)
    → IsBytes r.rest
    → scale n 1 ≤ 2 ^ 64
    → ((v : ℕ) → v < scale n 1 → length (payload v) ≤ n)
    → Ensures (ReadsUint r) (do (b, r') ← read_n n r; ok (big_endian 0 b, r'))
read_wide-Ensures n r h hn hp = Ensures-bind (read_n-Ensures n r h) λ (b, r') (hb, hl, c). value (
  omega (arith, big_endian-below n b hb hl),
  record {
    bytes = c.bytes;
    total = c.total;
    used = omega (arith, c.used, hp (big_endian 0 b) (big_endian-below n b hb hl));
  },
)

pub read_uint-Ensures :
    (i : ℕ) (r : Reader) → IsBytes r.rest → Ensures (ReadsUint r) (read_uint i r)
unfolding read_uint payload
read_uint-Ensures i r h =
    Ensures-if {P = ReadsUint r} (ltb i 0x18)
      (λ e. value (ground arith, record { bytes = h; total = refl; used = ground arith }))
      λ _.
        Ensures-if {P = ReadsUint r} (i == 0x18)
          (λ _. Ensures-imp (read_u8-Ensures r h) λ (b, r') (hb, c). (
            omega arith,
            record { bytes = c.bytes; total = c.total; used = ground (arith, c.used) },
          ))
          λ _.
            Ensures-if {P = ReadsUint r} (i == 0x19)
              (λ _. read_wide-Ensures 2 r h (omega arith) (λ v hv. ground arith))
              λ _.
                Ensures-if {P = ReadsUint r} (i == 0x1a)
                  (λ _. read_wide-Ensures 4 r h (omega arith) (λ v hv. ground arith))
                  λ _.
                    Ensures-if {P = ReadsUint r} (i == 0x1b)
                      (λ _. read_wide-Ensures 8 r h (omega arith) (λ v hv. ground arith))
                      λ _. failed (λ e'. cc)
