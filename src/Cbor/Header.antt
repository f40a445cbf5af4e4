-- ===== src/Cbor/Header.antt =====
-- The first bytes of an encoded value: what `write_type` writes, `read_major_type_with_size` reads.
use rust_peergos_client.Common.{
  ℕ, suc, ◌+◌, ◌*◌, ◌/◌, ◌%◌, ◌^◌, ◌<◌, ◌≡◌, refl, ap, ◌∙◌, arith, [], ◌∷◌, ◌++◌, Bytes, length,
  length-append, take-append_length, drop-append_length, take, drop, ltb, if◌then◌else◌, ok,
}
use rust_peergos_client.Common.Bits.{bit_or_shifted}
use rust_peergos_client.Cbor.Encode.{write_uint, write_type, two_bytes, four_bytes, eight_bytes}
use rust_peergos_client.Cbor.Decode.{
  Reader, read_n, big_endian, read_uint, read_major_type, read_major_type_with_size, peek_major,
}

-- The low five bits of the first byte, and the bytes that follow it.
unfoldable pub indicator : ℕ → ℕ
indicator v =
    if ltb v 0x18
    then v
    else if ltb v 0x100
    then 0x18
    else if ltb v 0x10000
    then 0x19
    else if ltb v 0x1_0000_0000
    then 0x1a
    else 0x1b

unfoldable pub payload : ℕ → Bytes
payload v =
    if ltb v 0x18
    then []
    else if ltb v 0x100
    then (v % 256) ∷ []
    else if ltb v 0x10000
    then two_bytes v
    else if ltb v 0x1_0000_0000
    then four_bytes v
    else eight_bytes v

pub indicator-lt : (v : ℕ) → indicator v < 2 ^ 5
unfolding indicator
indicator-lt v = ground arith

pub write_uint-header : (m v : ℕ) → write_uint (m * 2 ^ 5) v ≡ (m * 2 ^ 5 + indicator v) ∷ payload v
unfolding write_uint indicator payload
write_uint-header m v = ground (
  arith,
  bit_or_shifted 5 m (v % 256),
  bit_or_shifted 5 m 0x18,
  bit_or_shifted 5 m 0x19,
  bit_or_shifted 5 m 0x1a,
  bit_or_shifted 5 m 0x1b,
)

-- The next byte is the low byte of `x`, and what was read so far are the bits above it.
big_endian_step :
    (acc x : ℕ) (bs : Bytes) → acc ≡ x / 2 ^ 8 → big_endian acc ((x % 256) ∷ bs) ≡ big_endian x bs
unfolding big_endian
big_endian_step acc x bs h =
    ap (λ t. big_endian t bs) (bit_or_shifted 8 acc (x % 256) (omega arith) ∙ omega arith)

big_endian-nil : (acc : ℕ) → big_endian acc [] ≡ acc
unfolding big_endian
big_endian-nil acc = refl

big_endian-two_bytes : (v : ℕ) → v < 2 ^ 16 → big_endian 0 (two_bytes v) ≡ v
big_endian-two_bytes v h =
    big_endian_step 0 (v / 2 ^ 8) _ (omega arith)
    ∙ big_endian_step (v / 2 ^ 8) v [] (omega arith)
    ∙ big_endian-nil v

big_endian-four_bytes : (v : ℕ) → v < 2 ^ 32 → big_endian 0 (four_bytes v) ≡ v
big_endian-four_bytes v h =
    big_endian_step 0 (v / 2 ^ 24) _ (omega arith)
    ∙ big_endian_step (v / 2 ^ 24) (v / 2 ^ 16) _ (omega arith)
    ∙ big_endian_step (v / 2 ^ 16) (v / 2 ^ 8) _ (omega arith)
    ∙ big_endian_step (v / 2 ^ 8) v [] (omega arith)
    ∙ big_endian-nil v

big_endian-eight_bytes : (v : ℕ) → v < 2 ^ 64 → big_endian 0 (eight_bytes v) ≡ v
big_endian-eight_bytes v h =
    big_endian_step 0 (v / 2 ^ 56) _ (omega arith)
    ∙ big_endian_step (v / 2 ^ 56) (v / 2 ^ 48) _ (omega arith)
    ∙ big_endian_step (v / 2 ^ 48) (v / 2 ^ 40) _ (omega arith)
    ∙ big_endian_step (v / 2 ^ 40) (v / 2 ^ 32) _ (omega arith)
    ∙ big_endian_step (v / 2 ^ 32) (v / 2 ^ 24) _ (omega arith)
    ∙ big_endian_step (v / 2 ^ 24) (v / 2 ^ 16) _ (omega arith)
    ∙ big_endian_step (v / 2 ^ 16) (v / 2 ^ 8) _ (omega arith)
    ∙ big_endian_step (v / 2 ^ 8) v [] (omega arith)
    ∙ big_endian-nil v

-- A reader at `rest`, whose first byte stands at `pos`.
abbrev pub at : Bytes → ℕ → Reader
at rest pos = record { rest = rest; pos = pos }

pub at_pos : (rest : Bytes) (p q : ℕ) → p ≡ q → at rest p ≡ at rest q
at_pos rest p q e = ap (at rest) e

pub read_uint-payload :
    (v : ℕ) (rest : Bytes) (p : ℕ)
    → v < 2 ^ 64
    → read_uint (indicator v) (at (payload v ++ rest) p) ≡ ok (v, at rest (p + length (payload v)))
unfolding read_uint indicator payload take drop
read_uint-payload v rest p h =
    ground (arith, big_endian-two_bytes v, big_endian-four_bytes v, big_endian-eight_bytes v)

pub read_major_type-byte :
    (m i : ℕ) (bs : Bytes) (p : ℕ)
    → m < 8
    → i < 2 ^ 5
    → read_major_type m (at ((m * 2 ^ 5 + i) ∷ bs) p) ≡ ok (i, at bs (p + 1))
unfolding read_major_type drop
read_major_type-byte m i bs p hm hi = ground arith

pub write_type_shape :
    (m v : ℕ) (rest : Bytes)
    → write_type m v ++ rest ≡ (m * 2 ^ 5 + indicator v) ∷ (payload v ++ rest)
unfolding write_type
write_type_shape m v rest = ap (λ t. t ++ rest) (write_uint-header m v)

pub length-write_type : (m v : ℕ) → length (write_type m v) ≡ suc (length (payload v))
unfolding write_type
length-write_type m v = ap length (write_uint-header m v)

pub peek_major-write_type :
    (m v : ℕ) (rest : Bytes) (p : ℕ) → m < 8 → peek_major (at (write_type m v ++ rest) p) ≡ ok m
unfolding peek_major
peek_major-write_type m v rest p hm =
    rw (write_type_shape m v rest) (ap ok (omega (arith, indicator-lt v)))

pub read_type-write_type :
    (m v : ℕ) (rest : Bytes) (p : ℕ)
    → m < 8
    → v < 2 ^ 64
    → read_major_type_with_size m (at (write_type m v ++ rest) p)
      ≡ ok (v, at rest (p + length (write_type m v)))
unfolding read_major_type_with_size
read_type-write_type m v rest p hm hv =
    rw
      (
        write_type_shape m v rest,
        read_major_type-byte m (indicator v) (payload v ++ rest) p hm (indicator-lt v),
        read_uint-payload v rest (p + 1) hv,
        length-write_type m v,
      )
      (ap (λ t. ok (v, at rest t)) (omega arith))

-- Reading as many bytes as were written.
pub read_n-append :
    (b rest : Bytes) (p : ℕ) → read_n (length b) (at (b ++ rest) p) ≡ ok (b, at rest (p + length b))
unfolding read_n
read_n-append b rest p =
    ground (arith, length-append b rest, take-append_length b rest, drop-append_length b rest)
