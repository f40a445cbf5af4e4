-- ===== src/Mime/Utf8.antt =====
-- crates/peergos-fs/src/mimetype.rs: the UTF-8 check, which allows a last character that is cut off.
-- On bytes, `b & 0x1f` is `b % 32` and `(b & 0xc0) == 0x80` is `b / 64 == 2`, and the parts of a code
-- point do not overlap, so `|` adds them.
use rust_peergos_client.Common.{
  ℕ, zero, suc, ◌+◌, ◌*◌, ◌/◌, ◌%◌, Bool, true, false, not, ◌&&◌, [], ◌∷◌, Bytes, length,
  if◌then◌else◌, ltb, leb, ◌==◌,
}

unfoldable pub is_continuation_byte : ℕ → Bool
is_continuation_byte b = b / 64 == 2

-- `u8::leading_ones`.
abbrev pub leading_ones : ℕ → ℕ
leading_ones b =
    if ltb b 0x80
    then 0
    else if ltb b 0xc0
    then 1
    else if ltb b 0xe0
    then 2
    else if ltb b 0xf0
    then 3
    else if ltb b 0xf8
    then 4
    else if ltb b 0xfc
    then 5
    else if ltb b 0xfe
    then 6
    else if ltb b 0xff
    then 7
    else 8

unfoldable pub all_continue : Bytes → Bool
unfolding is_continuation_byte
all_continue [] = true
all_continue (b ∷ bs) = is_continuation_byte b && all_continue bs

-- `val > 0x10ffff || (val > 0xd800 && val <= 0xdfff)` refuses a code point.
abbrev pub is_allowed : ℕ → Bool
is_allowed val = leb val 0x10ffff && not (ltb 0xd800 val && leb val 0xdfff)

-- The character that starts with `b`, whose other bytes are all there.
unfoldable pub two_form : ℕ → ℕ → Bool
unfolding is_continuation_byte
two_form b c =
    let val = b % 32 * 64 + c % 64 in is_continuation_byte c && (ltb 0x7f val && is_allowed val)

unfoldable pub three_form : ℕ → ℕ → ℕ → Bool
unfolding is_continuation_byte
three_form b c d =
    let val = b % 16 * 4096 + c % 64 * 64 + d % 64 in
    is_continuation_byte c && (is_continuation_byte d && (ltb 0x7ff val && is_allowed val))

unfoldable pub four_form : ℕ → ℕ → ℕ → ℕ → Bool
unfolding is_continuation_byte
four_form b c d e =
    let val = b % 8 * 262144 + c % 64 * 4096 + d % 64 * 64 + e % 64 in
    is_continuation_byte c
    && (is_continuation_byte d && (is_continuation_byte e && (ltb 0xffff val && is_allowed val)))

-- The bytes after a first byte above 0x7f: what is cut off must continue.
unfoldable pub two_tail : (Bytes → Bool) → ℕ → Bytes → Bool
unfolding two_form all_continue
two_tail go_on b (c ∷ r) = two_form b c && go_on r
two_tail go_on b r = all_continue r

unfoldable pub three_tail : (Bytes → Bool) → ℕ → Bytes → Bool
unfolding three_form all_continue
three_tail go_on b (c ∷ d ∷ r) = three_form b c d && go_on r
three_tail go_on b r = all_continue r

unfoldable pub four_tail : (Bytes → Bool) → ℕ → Bytes → Bool
unfolding four_form all_continue
four_tail go_on b (c ∷ d ∷ e ∷ r) = four_form b c d e && go_on r
four_tail go_on b r = all_continue r

-- One round of the loop at a byte; `n` bounds the rounds that are left.
unfoldable pub valid_from : ℕ → Bytes → Bool
unfolding two_tail three_tail four_tail
valid_from n [] = true
valid_from zero (b ∷ r) = false
valid_from (suc n) (b ∷ r) =
    let ascii = valid_from n r in
    let two = two_tail (valid_from n) b r in
    let three = three_tail (valid_from n) b r in
    let four = four_tail (valid_from n) b r in
    if ltb b 0x80
    then ascii
    else if leading_ones b == 2
    then two
    else if leading_ones b == 3
    then three
    else if leading_ones b == 4
    then four
    else false

unfoldable pub valid_utf8 : Bytes → Bool
valid_utf8 bytes = valid_from (length bytes) bytes
