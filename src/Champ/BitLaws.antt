-- ===== src/Champ/BitLaws.antt =====
-- crates/peergos-core/src/champ.rs: the bitmaps are sets of positions.
use rust_peergos_client.Common.{
  ℕ, zero, suc, ◌+◌, ◌-◌, ◌/◌, ◌%◌, ◌^◌, ◌<◌, ◌≡◌, refl, ap, ◌∙◌, arith, Bool, true, false, not,
  ◌&&◌, ◌||◌, Option, none, some, [], ◌∷◌, Bytes, IsBytes, get_elem?, if◌then◌else◌, ◌==◌,
}
use rust_peergos_client.Common.Bits.{all_below, all_below-at}
use rust_peergos_client.Champ.Equal.{eq_bool}
use rust_peergos_client.Champ.Bitmap.{resize, update_at, bit_set, pop_zeros, bit_clear, bit_get}
use Prim.Native.Nat.{bit_or, bit_and}

-- A bit of a byte.
abbrev byte_bit : ℕ → ℕ → Bool
byte_bit b j = bit_and (b / 2 ^ j) 1 == 1

abbrev set_test : ℕ → ℕ → ℕ → Bool
set_test i j b = eq_bool (byte_bit (bit_or b (2 ^ i)) j) (i == j || byte_bit b j)

abbrev clear_test : ℕ → ℕ → ℕ → Bool
clear_test i j b = eq_bool (byte_bit (bit_and b (255 - 2 ^ i)) j) (not (i == j) && byte_bit b j)

set_table : all_below 8 (λ i. all_below 8 (λ j. all_below 256 (λ b. set_test i j b))) ≡ true
unfolding all_below
set_table = refl

clear_table : all_below 8 (λ i. all_below 8 (λ j. all_below 256 (λ b. clear_test i j b))) ≡ true
unfolding all_below
clear_table = refl

eq_bool_sound : (a b : Bool) → eq_bool a b ≡ true → a ≡ b
eq_bool_sound a b h = ground arith

byte_bit-set :
    (i j b : ℕ) → i < 8 → j < 8 → b < 256 → byte_bit (bit_or b (2 ^ i)) j ≡ (i == j || byte_bit b j)
byte_bit-set i j b hi hj hb = eq_bool_sound _ _ (
    all_below-at 256 (λ b. set_test i j b) b
      (all_below-at 8 (λ j. all_below 256 (λ b. set_test i j b)) j
        (all_below-at 8 (λ i. all_below 8 (λ j. all_below 256 (λ b. set_test i j b))) i set_table
          hi)
        hj)
      hb)

byte_bit-clear :
    (i j b : ℕ)
    → i < 8
    → j < 8
    → b < 256
    → byte_bit (bit_and b (255 - 2 ^ i)) j ≡ (not (i == j) && byte_bit b j)
byte_bit-clear i j b hi hj hb = eq_bool_sound _ _ (
    all_below-at 256 (λ b. clear_test i j b) b
      (all_below-at 8 (λ j. all_below 256 (λ b. clear_test i j b)) j
        (all_below-at 8 (λ i. all_below 8 (λ j. all_below 256 (λ b. clear_test i j b))) i
          clear_table hi)
        hj)
      hb)

-- The bits of the byte at an index; none out of range.
abbrev bit_of : Option ℕ → ℕ → Bool
bit_of none j = false
bit_of (some b) j = byte_bit b j

get_elem-update_at :
    (f : ℕ → ℕ) (i j : ℕ) (l : Bytes)
    → get_elem? (update_at f i l) j
      ≡ elim (get_elem? l j) [ none ↦ none | some b ↦ some (if i == j then f b else b) ]
unfolding update_at
get_elem-update_at f i j [] = ground arith
get_elem-update_at f zero zero (x ∷ l) = refl
get_elem-update_at f zero (suc j) (x ∷ l) = ground arith
get_elem-update_at f (suc i) zero (x ∷ l) = ground arith
get_elem-update_at f (suc i) (suc j) (x ∷ l) = ground (arith, get_elem-update_at f i j l)

zero_table : all_below 8 (λ q. not (byte_bit 0 q)) ≡ true
unfolding all_below
zero_table = refl

byte_bit-zero : (q : ℕ) → q < 8 → byte_bit 0 q ≡ false
byte_bit-zero q h =
    let t = all_below-at 8 (λ q. not (byte_bit 0 q)) q zero_table h in ground (arith, t)

-- Growing a bitmap adds no bits, and reaches the index.
bit_of-resize :
    (l : Bytes) (n j q : ℕ) → q < 8 → bit_of (get_elem? (resize l n) j) q ≡ bit_of (get_elem? l j) q
unfolding resize
bit_of-resize l zero j q h = refl
bit_of-resize [] (suc n) zero q h = byte_bit-zero q h
bit_of-resize [] (suc n) (suc j) q h = bit_of-resize [] n j q h
bit_of-resize (b ∷ l) (suc n) zero q h = refl
bit_of-resize (b ∷ l) (suc n) (suc j) q h = bit_of-resize l n j q h

resize-reaches : (l : Bytes) (n j : ℕ) → j < n → (b : ℕ) × (get_elem? (resize l n) j ≡ some b)
unfolding resize
resize-reaches l zero j h = ground arith
resize-reaches [] (suc n) zero h = (0, refl)
resize-reaches [] (suc n) (suc j) h = resize-reaches [] n j (omega arith)
resize-reaches (b ∷ l) (suc n) zero h = (b, refl)
resize-reaches (b ∷ l) (suc n) (suc j) h = resize-reaches l n j (omega arith)

resize-IsBytes : (l : Bytes) (n : ℕ) → IsBytes l → IsBytes (resize l n)
unfolding resize
resize-IsBytes l zero h = h
resize-IsBytes [] (suc n) h = (omega arith, resize-IsBytes [] n tt)
resize-IsBytes (b ∷ l) (suc n) h = (h.0, resize-IsBytes l n h.1)

get_elem-IsByte : (l : Bytes) (j b : ℕ) → IsBytes l → get_elem? l j ≡ some b → b < 256
get_elem-IsByte [] j b h e = ground arith
get_elem-IsByte (x ∷ l) zero b h e = ground arith
get_elem-IsByte (x ∷ l) (suc j) b h e = get_elem-IsByte l j b h.1 e

pop_step :
    (b : ℕ) (r : Bytes) (j q : ℕ)
    → q < 8
    → bit_of
        (get_elem? (elim r [ [] ↦ if b == 0 then [] else b ∷ [] | c ∷ rest ↦ b ∷ c ∷ rest ]) j)
        q
      ≡ bit_of (get_elem? (b ∷ r) j) q
pop_step b [] zero q h = ground (arith, byte_bit-zero q h)
pop_step b [] (suc j) q h = ground arith
pop_step b (c ∷ rest) j q h = refl

bit_of-pop_zeros :
    (l : Bytes) (j q : ℕ) → q < 8 → bit_of (get_elem? (pop_zeros l) j) q ≡ bit_of (get_elem? l j) q
unfolding pop_zeros
bit_of-pop_zeros [] j q h = refl
bit_of-pop_zeros (b ∷ l) zero q h = pop_step b (pop_zeros l) zero q h
bit_of-pop_zeros (b ∷ l) (suc j) q h =
    pop_step b (pop_zeros l) (suc j) q h ∙ bit_of-pop_zeros l j q h

bit_get-bit_of : (bm : Bytes) (q : ℕ) → bit_get bm q ≡ bit_of (get_elem? bm (q / 8)) (q % 8)
unfolding bit_get
bit_get-bit_of bm q = ground arith

-- A position is the one of another byte or of another bit.
same_position : (p q : ℕ) → (p == q) ≡ (p / 8 == q / 8 && p % 8 == q % 8)
same_position p q = ground arith

bit_of-update_at :
    (f : ℕ → ℕ) (i j q : ℕ) (l : Bytes)
    → bit_of (get_elem? (update_at f i l) j) q
      ≡ bit_of (elim (get_elem? l j) [ none ↦ none | some b ↦ some (if i == j then f b else b) ]) q
bit_of-update_at f i j q l = ap (λ o. bit_of o q) (get_elem-update_at f i j l)

-- In a bitmap of bytes, setting a position adds it and no other.
pub bit_get-bit_set :
    (bm : Bytes) (p q : ℕ) → IsBytes bm → bit_get (bit_set bm p) q ≡ (p == q || bit_get bm q)
unfolding bit_set
bit_get-bit_set bm p q h =
    let f = λ (b : ℕ). bit_or b (2 ^ (p % 8)) in
    let grown = resize bm (p / 8 + 1) in
    bit_get-bit_of (update_at f (p / 8) grown) q
    ∙ bit_of-update_at f (p / 8) (q / 8) (q % 8) grown
    ∙ set_bit (get_elem? grown (q / 8)) refl
  where
    set_bit :
        (o : Option ℕ)
        → get_elem? (resize bm (p / 8 + 1)) (q / 8) ≡ o
        → bit_of
            (elim o [
              | none ↦ none
              | some b ↦ some (if p / 8 == q / 8 then bit_or b (2 ^ (p % 8)) else b)
            ])
            (q % 8)
          ≡ (p == q || bit_get bm q)
    set_bit none e = ground (
      arith,
      e,
      bit_get-bit_of bm q,
      bit_of-resize bm (p / 8 + 1) (q / 8) (q % 8) (omega arith),
      resize-reaches bm (p / 8 + 1) (q / 8),
      same_position p q,
    )
    set_bit (some b) e = ground (
      arith,
      e,
      bit_get-bit_of bm q,
      bit_of-resize bm (p / 8 + 1) (q / 8) (q % 8) (omega arith),
      same_position p q,
      byte_bit-set (p % 8) (q % 8) b (omega arith) (omega arith)
          (get_elem-IsByte (resize bm (p / 8 + 1)) (q / 8) b (resize-IsBytes bm (p / 8 + 1) h) e),
    )

-- In a bitmap of bytes, clearing a position drops it and no other.
pub bit_get-bit_clear :
    (bm : Bytes) (p q : ℕ)
    → IsBytes bm
    → bit_get (bit_clear bm p) q ≡ (not (p == q) && bit_get bm q)
unfolding bit_clear
bit_get-bit_clear bm p q h =
    let f = λ (b : ℕ). bit_and b (255 - 2 ^ (p % 8)) in
    bit_get-bit_of (pop_zeros (update_at f (p / 8) bm)) q
    ∙ bit_of-pop_zeros (update_at f (p / 8) bm) (q / 8) (q % 8) (omega arith)
    ∙ bit_of-update_at f (p / 8) (q / 8) (q % 8) bm
    ∙ cleared (get_elem? bm (q / 8)) refl
  where
    cleared :
        (o : Option ℕ)
        → get_elem? bm (q / 8) ≡ o
        → bit_of
            (elim o [
              | none ↦ none
              | some b ↦ some (if p / 8 == q / 8 then bit_and b (255 - 2 ^ (p % 8)) else b)
            ])
            (q % 8)
          ≡ (not (p == q) && bit_get bm q)
    cleared none e = ground (arith, bit_get-bit_of bm q, e)
    cleared (some b) e = ground (
      arith,
      bit_get-bit_of bm q,
      e,
      same_position p q,
      byte_bit-clear (p % 8) (q % 8) b (omega arith) (omega arith)
          (get_elem-IsByte bm (q / 8) b h e),
    )
