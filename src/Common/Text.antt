-- ===== src/Common/Text.antt =====
-- Rust's `str`, held as its UTF-8 bytes: `std::str::from_utf8` and `str::encode_utf16`.
use rust_peergos_client.Common.Tests.{ltb, leb, ◌==◌, if◌then◌else◌}
use Prim.Native.Nat.{ℕ, zero, suc, ◌+◌, ◌-◌, ◌*◌, ◌/◌, ◌%◌}
use mathlib.Core.Path.{◌≡◌}
use mathlib.Core.Bool.{Bool, true, false, ◌&&◌}
use mathlib.Core.Option.{Option, none, some}
use mathlib.Core.List.{List, [], ◌∷◌, ◌++◌}

-- The UTF-8 bytes of a `str` or `String`.
abbrev pub Text : Type 0
Text = List ℕ

-- For a first byte: how many bytes follow it, and the range of the next one.
unfoldable pub lead : ℕ → Option (ℕ × ℕ × ℕ)
lead b =
    if ltb b 0x80
    then some (0, 0x80, 0xbf)
    else if ltb b 0xc2
    then none
    else if ltb b 0xe0
    then some (1, 0x80, 0xbf)
    else if b == 0xe0
    then some (2, 0xa0, 0xbf)
    else if b == 0xed
    then some (2, 0x80, 0x9f)
    else if ltb b 0xf0
    then some (2, 0x80, 0xbf)
    else if b == 0xf0
    then some (3, 0x90, 0xbf)
    else if ltb b 0xf4
    then some (3, 0x80, 0xbf)
    else if b == 0xf4
    then some (3, 0x80, 0x8f)
    else none

-- `need` bytes of the current character are still to come, the next one in `lo ..= hi`.
unfoldable pub utf8_from : ℕ → ℕ → ℕ → List ℕ → Bool
utf8_from zero lo hi [] = true
utf8_from (suc need) lo hi [] = false
utf8_from zero lo hi (b ∷ bs) = elim (lead b) [
  | none ↦ false
  | some (need, l, h) ↦ utf8_from need l h bs
]
utf8_from (suc need) lo hi (b ∷ bs) = (leb lo b && leb b hi) && utf8_from need 0x80 0xbf bs

-- `std::str::from_utf8(bytes).is_ok()`.
unfoldable pub is_utf8 : List ℕ → Bool
unfolding utf8_from lead
is_utf8 bs = utf8_from 0 0x80 0xbf bs

-- One code point in UTF-16: one unit, or a surrogate pair.
unfoldable pub utf16_units : ℕ → List ℕ
utf16_units c =
    if ltb c 0x10000
    then c ∷ []
    else (0xd800 + (c - 0x10000) / 0x400) ∷ (0xdc00 + (c - 0x10000) % 0x400) ∷ []

-- The payload bits of a first byte that `need` bytes follow.
unfoldable pub lead_bits : ℕ → ℕ → ℕ
lead_bits zero b = b
lead_bits (suc zero) b = b % 0x20
lead_bits (suc (suc zero)) b = b % 0x10
lead_bits (suc (suc (suc need))) b = b % 0x08

abbrev pub need_of : ℕ → ℕ
need_of b = elim (lead b) [ none ↦ 0 | some (need, l, h) ↦ need ]

-- The UTF-16 units of the characters that end from here on; `acc` holds the bits read so far.
unfoldable pub utf16_from : ℕ → ℕ → List ℕ → List ℕ
unfolding lead lead_bits utf16_units
utf16_from need acc [] = []
utf16_from zero acc (b ∷ bs) =
    let more = utf16_from (need_of b) (lead_bits (need_of b) b) bs in
    if ltb b 0x80 then b ∷ more else more
utf16_from (suc zero) acc (b ∷ bs) = utf16_units (acc * 0x40 + b % 0x40) ++ utf16_from 0 0 bs
utf16_from (suc (suc need)) acc (b ∷ bs) = utf16_from (suc need) (acc * 0x40 + b % 0x40) bs

-- `s.encode_utf16().collect()`.
unfoldable pub encode_utf16 : Text → List ℕ
unfolding utf16_from
encode_utf16 s = utf16_from 0 0 s

-- A byte sequence that Rust lets a `str` hold.
abbrev pub IsText : List ℕ → Type 0
IsText s = is_utf8 s ≡ true
