-- ===== src/Champ/Bitmap.antt =====
-- crates/peergos-core/src/champ.rs: bitmaps, the order of keys and the index of a hash at a depth.
use rust_peergos_client.Common.{
  ℕ, zero, suc, ◌+◌, ◌-◌, ◌*◌, ◌/◌, ◌%◌, ◌^◌, Bool, false, Option, none, some, List, [], ◌∷◌, Bytes,
  length, get_elem?, compare, Ordering, if◌then◌else◌, ltb, ◌==◌,
}
use rust_peergos_client.Cbor.Object.{lex_cmp, then_with}
use Prim.Native.Nat.{bit_or, bit_and, min}

unfoldable pub byte_array_compare : Bytes → Bytes → Ordering
byte_array_compare a b = then_with (compare (length a) (length b)) (lex_cmp a b)

-- `resize(n, 0)`, where the list is shorter.
unfoldable pub resize : Bytes → ℕ → Bytes
resize bitmap zero = bitmap
resize [] (suc n) = 0 ∷ resize [] n
resize (b ∷ bitmap) (suc n) = b ∷ resize bitmap n

-- `xs[i] = f(xs[i])`; nothing changes out of range.
unfoldable pub update_at {ℓ} : {A : Type ℓ} → (A → A) → ℕ → List A → List A
update_at f i [] = []
update_at f zero (x ∷ xs) = f x ∷ xs
update_at f (suc i) (x ∷ xs) = x ∷ update_at f i xs

unfoldable pub bit_set : Bytes → ℕ → Bytes
bit_set bitmap pos =
    update_at (λ b. bit_or b (2 ^ (pos % 8))) (pos / 8) (resize bitmap (pos / 8 + 1))

-- `while bitmap.last() == Some(&0) { bitmap.pop(); }`.
unfoldable pub pop_zeros : Bytes → Bytes
pop_zeros [] = []
pop_zeros (b ∷ bitmap) = elim (pop_zeros bitmap) [
  | [] ↦ if b == 0 then [] else b ∷ []
  | c ∷ rest ↦ b ∷ c ∷ rest
]

unfoldable pub bit_clear : Bytes → ℕ → Bytes
bit_clear bitmap pos = pop_zeros (update_at (λ b. bit_and b (255 - 2 ^ (pos % 8))) (pos / 8) bitmap)

unfoldable pub bit_get : Bytes → ℕ → Bool
bit_get bitmap pos = elim (get_elem? bitmap (pos / 8)) [
  | none ↦ false
  | some b ↦ bit_and (b / 2 ^ (pos % 8)) 1 == 1
]

-- The set bits among the first `bitpos`.
unfoldable pub get_index : Bytes → ℕ → ℕ
get_index bitmap zero = 0
get_index bitmap (suc i) = get_index bitmap i + (if bit_get bitmap i then 1 else 0)

-- `b as i8 as i32`, and `>>` of an `i32`, on the 32 bits of its two's complement.
abbrev pub sign_extend : ℕ → ℕ
sign_extend b = if ltb b 128 then b else 2 ^ 32 - 256 + b

abbrev pub shift_right : ℕ → ℕ → ℕ
shift_right v s = if ltb v (2 ^ 31) then v / 2 ^ s else 2 ^ 32 - 1 - (2 ^ 32 - 1 - v) / 2 ^ s

abbrev pub byte_or_zero : Option ℕ → ℕ
byte_or_zero none = 0
byte_or_zero (some b) = sign_extend b

unfoldable pub mask : Bytes → ℕ → ℕ → ℕ
mask hash depth nbits =
    let index = depth * nbits / 8 in
    let shift = depth * nbits % 8 in
    let low_bits = min nbits (8 - shift) in
    let hi_bits = nbits - low_bits in
    let val1 = byte_or_zero (get_elem? hash index) in
    let val2 = byte_or_zero (get_elem? hash (index + 1)) in
    bit_or (bit_and (shift_right val1 shift) (2 ^ low_bits - 1))
      (bit_and val2 (2 ^ hi_bits - 1) * 2 ^ low_bits)
