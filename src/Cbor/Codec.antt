-- ===== src/Cbor/Codec.antt =====
-- The decoder's entry points on any buffer of bytes.
use rust_peergos_client.Common.{
  ℕ, suc, ◌^◌, ◌≤◌, ◌<◌, ◌≡◌, ◌≢◌, arith, [], ◌∷◌, Bytes, IsBytes, length, ok, err, ◌==◌, ==_iff,
}
use rust_peergos_client.Cbor.Object.{CborObject}
use rust_peergos_client.Cbor.Encode.{to_bytes}
use rust_peergos_client.Cbor.Decode.{
  out_of_fuel, Reader, from_bytes, from_bytes_prefix, from_bytes_consumed, deserialize_all,
}
use rust_peergos_client.Cbor.Header.{at}
use rust_peergos_client.Cbor.Valid.{IsValid}
use rust_peergos_client.Cbor.Size.{length-write_object_pos}
use rust_peergos_client.Cbor.Consumes.{
  Ensures, value, failed, Ensures-bind, Ensures-if, Ensures-imp, Ensures-ok, Ensures-out_of_fuel,
}
use rust_peergos_client.Cbor.Sound.{Decoded}
use rust_peergos_client.Cbor.Accepts.{deserialize-Ensures}
use rust_peergos_client.Cbor.RoundTrip.{from_bytes-to_bytes}

-- A valid value whose encoding is no longer than what was read, and that is no more than there was.
abbrev pub Accepted : Bytes → CborObject → ℕ → Type 0
Accepted bytes v n = IsValid v × (length (to_bytes v) ≤ n) × (n ≤ length bytes)

Accepted-Decoded :
    (bytes : Bytes) (t : CborObject × Reader) → Decoded (at bytes 0) t → Accepted bytes t.0 t.1.pos
unfolding to_bytes
Accepted-Decoded bytes t (h, c) = (h, omega (arith, c.used, c.total), omega (arith, c.total))

deserialize_all-Ensures :
    (bytes : Bytes)
    → IsBytes bytes
    → Ensures (λ t. Accepted bytes t.0 t.1.pos) (deserialize_all bytes)
unfolding deserialize_all
deserialize_all-Ensures bytes h =
    Ensures-imp
      (deserialize-Ensures (suc (length bytes)) (length bytes) (at bytes 0) h (omega arith))
      (Accepted-Decoded bytes)

from_bytes-Ensures :
    (bytes : Bytes)
    → IsBytes bytes
    → Ensures (λ v. Accepted bytes v (length bytes)) (from_bytes bytes)
unfolding from_bytes
from_bytes-Ensures [] h = failed (λ e. cc)
from_bytes-Ensures (b ∷ bs) h =
    Ensures-bind (deserialize_all-Ensures (b ∷ bs) h) λ (v, r) (hv, least, most).
      Ensures-if (r.pos == length (b ∷ bs))
        (λ e. value (hv, omega (arith, (==_iff r.pos (length (b ∷ bs))).0 e), omega arith))
        (λ e. failed (λ e'. cc))

from_bytes_prefix-Ensures :
    (bytes : Bytes) → IsBytes bytes → Ensures IsValid (from_bytes_prefix bytes)
unfolding from_bytes_prefix
from_bytes_prefix-Ensures [] h = failed (λ e. cc)
from_bytes_prefix-Ensures (b ∷ bs) h =
    Ensures-bind (deserialize_all-Ensures (b ∷ bs) h) λ (v, r) t. value t.0

from_bytes_consumed-Ensures :
    (bytes : Bytes)
    → IsBytes bytes
    → Ensures (λ t. Accepted bytes t.0 t.1) (from_bytes_consumed bytes)
unfolding from_bytes_consumed
from_bytes_consumed-Ensures [] h = failed (λ e. cc)
from_bytes_consumed-Ensures (b ∷ bs) h =
    Ensures-bind (deserialize_all-Ensures (b ∷ bs) h) λ (v, r) t. value t

-- Each entry point ends on every buffer of bytes: none runs out of fuel.
pub from_bytes_total :
    (bytes : Bytes)
    → IsBytes bytes
    → (from_bytes bytes ≢ err out_of_fuel)
      × (from_bytes_prefix bytes ≢ err out_of_fuel)
      × (from_bytes_consumed bytes ≢ err out_of_fuel)
from_bytes_total bytes h = (
  Ensures-out_of_fuel (from_bytes-Ensures bytes h),
  Ensures-out_of_fuel (from_bytes_prefix-Ensures bytes h),
  Ensures-out_of_fuel (from_bytes_consumed-Ensures bytes h),
)

-- What `from_bytes_consumed` accepts is a valid value (integers in range, UTF-8 texts, map keys in
-- canonical order and each once), read from at least as many bytes as its encoding has, at least one,
-- and at most the whole buffer.
pub from_bytes_consumed-Accepted :
    (bytes : Bytes) (v : CborObject) (n : ℕ)
    → IsBytes bytes
    → from_bytes_consumed bytes ≡ ok (v, n)
    → IsValid v × (0 < n) × (length (to_bytes v) ≤ n) × (n ≤ length bytes)
unfolding to_bytes
from_bytes_consumed-Accepted bytes v n h e =
    let (hv, least, most) = Ensures-ok (from_bytes_consumed-Ensures bytes h) e in
    (hv, omega (arith, least, length-write_object_pos v), least, most)

-- Encoding a decoded value gives a buffer that is no longer and decodes to the same value: of all
-- the encodings that `from_bytes` accepts, `to_bytes` writes a shortest one.
pub to_bytes-shortest :
    (bytes : Bytes) (v : CborObject)
    → IsBytes bytes
    → length bytes < 2 ^ 63
    → from_bytes bytes ≡ ok v
    → (length (to_bytes v) ≤ length bytes) × (from_bytes (to_bytes v) ≡ ok v)
to_bytes-shortest bytes v h hl e =
    let (hv, least, most) = Ensures-ok (from_bytes-Ensures bytes h) e in
    (least, from_bytes-to_bytes v hv (omega (arith, least)))
