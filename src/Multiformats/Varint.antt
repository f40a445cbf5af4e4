-- ===== src/Multiformats/Varint.antt =====
-- crates/peergos-multiformats/src/lib.rs: `put_uvarint` and `read_uvarint`. `put_uvarint` returns the
-- bytes that it appends; the reader takes the rest of the buffer from `pos` on and returns what is
-- left of it.
pub mod RoundTrip
pub mod Minimal
use rust_peergos_client.Common.{
  ℕ, zero, suc, ◌+◌, ◌*◌, ◌/◌, ◌%◌, ◌^◌, ◌≤◌, ◌<◌, arith, [], ◌∷◌, Bytes, ltb, ◌==◌, ◌&&◌,
  if◌then◌else◌, Result, ok, err,
}
use rust_peergos_client.Common.Order.{lt_wf}
use rust_peergos_client.Multiformats.Error.{
  MfError, eof_reading_varint, overflow_reading_varint, non_minimal_varint, varint_too_long,
}
use Prim.Native.Nat.{bit_or}
use mathlib.Core.Logic.{dite}
use mathlib.Core.WellFounded.{Acc}
use native.Mathlib.Decide.{dec_le}

-- `while x >= 0x80`.
unfoldable pub put_loop : (x : ℕ) → Acc ◌<◌ x → Bytes
put_loop x (Acc.intro _ smaller) =
    dite (dec_le 0x80 x)
      (λ more. bit_or (x % 256) 0x80 ∷ put_loop (x / 2 ^ 7) (smaller (x / 2 ^ 7) (omega arith)))
      (λ _. (x % 256) ∷ [])

unfoldable pub put_uvarint : ℕ → Bytes
unfolding put_loop lt_wf dec_le
put_uvarint x = put_loop x (lt_wf.apply x)

-- `for i in 0..10`, with `left` rounds to go. A shift in `u64` drops the bits above the word.
unfoldable pub read_loop : ℕ → ℕ → ℕ → ℕ → Bytes → Result MfError (ℕ × Bytes)
read_loop zero i x s bs = err varint_too_long
read_loop (suc left) i x s [] = err eof_reading_varint
read_loop (suc left) i x s (b ∷ bs) =
    let more = read_loop left (i + 1) (bit_or x (b % 0x80 * 2 ^ s % 2 ^ 64)) (s + 7) bs in
    if ltb b 0x80
    then (if i == 9 && ltb 1 b
        then err overflow_reading_varint
        else if b == 0 && ltb 0 s
        then err non_minimal_varint
        else ok (bit_or x (b * 2 ^ s % 2 ^ 64), bs))
    else more

unfoldable pub read_uvarint : Bytes → Result MfError (ℕ × Bytes)
unfolding read_loop
read_uvarint bs = read_loop 10 0 0 0 bs
