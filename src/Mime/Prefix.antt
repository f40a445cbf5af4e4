-- ===== src/Mime/Prefix.antt =====
-- crates/peergos-fs/src/mimetype.rs: the header of a file that holds UTF-8 text passes the check,
-- wherever it is cut off.
use rust_peergos_client.Common.{
  ℕ, zero, suc, ◌≤◌, ◌≡◌, refl, ◌∙◌, arith, Bool, true, ◌&&◌, Option-cases, some, inl, inr, [], ◌∷◌,
  Bytes, length, take, leb,
}
use rust_peergos_client.Common.Text.{lead, utf8_from, is_utf8}
use rust_peergos_client.Mime.Utf8.{
  is_continuation_byte, all_continue, two_form, three_form, four_form, two_tail, three_tail,
  four_tail, valid_from, valid_utf8,
}

-- The forms that `from_utf8` accepts pass the check.
two_form-of_lead :
    (b c lo hi : ℕ)
    → lead b ≡ some (1, lo, hi)
    → (leb lo c && leb c hi) ≡ true
    → two_form b c ≡ true
unfolding lead two_form is_continuation_byte
two_form-of_lead b c lo hi h k = ground arith

three_form-of_lead :
    (b c d lo hi : ℕ)
    → lead b ≡ some (2, lo, hi)
    → (leb lo c && leb c hi) ≡ true
    → (leb 0x80 d && leb d 0xbf) ≡ true
    → three_form b c d ≡ true
unfolding lead three_form is_continuation_byte
three_form-of_lead b c d lo hi h k l = ground arith

four_form-of_lead :
    (b c d e lo hi : ℕ)
    → lead b ≡ some (3, lo, hi)
    → (leb lo c && leb c hi) ≡ true
    → (leb 0x80 d && leb d 0xbf) ≡ true
    → (leb 0x80 e && leb e 0xbf) ≡ true
    → four_form b c d e ≡ true
unfolding lead four_form is_continuation_byte
four_form-of_lead b c d e lo hi h k l m = ground arith

-- How the check reads a first byte, by the number of bytes that follow it.
abbrev tail_of : ℕ → (Bytes → Bool) → ℕ → Bytes → Bool
tail_of zero go_on b r = go_on r
tail_of (suc zero) go_on b r = two_tail go_on b r
tail_of (suc (suc zero)) go_on b r = three_tail go_on b r
tail_of (suc (suc (suc k))) go_on b r = four_tail go_on b r

valid_from-lead :
    (f b k lo hi : ℕ) (r : Bytes)
    → lead b ≡ some (k, lo, hi)
    → valid_from (suc f) (b ∷ r) ≡ tail_of k (valid_from f) b r
unfolding lead valid_from
valid_from-lead f b zero lo hi r h = ground arith
valid_from-lead f b (suc zero) lo hi r h = ground arith
valid_from-lead f b (suc (suc zero)) lo hi r h = ground arith
valid_from-lead f b (suc (suc (suc k))) lo hi r h = ground arith

-- Only forms of up to four bytes have a first byte.
lead-most : (b k lo hi : ℕ) → lead b ≡ some (k, lo, hi) → (k ≤ 3) × (0x80 ≤ lo) × (hi ≤ 0xbf)
unfolding lead
lead-most b k lo hi h = ground arith

-- A character that is cut off by `take`, and what follows it.
tail_of-take :
    (go_on : Bytes → Bool) (b k lo hi n : ℕ) (r : Bytes)
    → lead b ≡ some (k, lo, hi)
    → utf8_from k lo hi r ≡ true
    → ((m : ℕ) (l h : ℕ) (s : Bytes)
        → utf8_from 0 l h s ≡ true
        → length (take m s) ≤ length (take n r)
        → go_on (take m s) ≡ true)
    → tail_of k go_on b (take n r) ≡ true
unfolding take
tail_of-take go_on b zero lo hi n r h e ih = ih n lo hi r e (omega arith)
tail_of-take go_on b (suc zero) lo hi n [] h e ih = unfold utf8_from in ground arith
tail_of-take go_on b (suc zero) lo hi zero (c ∷ r) h e ih = unfold two_tail all_continue in refl
tail_of-take go_on b (suc zero) lo hi (suc n) (c ∷ r) h e ih =
    unfold two_tail utf8_from in ground (arith, e, two_form-of_lead b c lo hi h, ih n 0x80 0xbf r)
tail_of-take go_on b (suc (suc zero)) lo hi n [] h e ih = unfold utf8_from in ground arith
tail_of-take go_on b (suc (suc zero)) lo hi n (c ∷ []) h e ih = unfold utf8_from in ground arith
tail_of-take go_on b (suc (suc zero)) lo hi zero (c ∷ d ∷ r) h e ih =
    unfold three_tail all_continue in refl
tail_of-take go_on b (suc (suc zero)) lo hi (suc zero) (c ∷ d ∷ r) h e ih =
    unfold three_tail all_continue is_continuation_byte utf8_from in
    ground (arith, e, lead-most b 2 lo hi h)
tail_of-take go_on b (suc (suc zero)) lo hi (suc (suc n)) (c ∷ d ∷ r) h e ih =
    unfold three_tail utf8_from in
    ground (arith, e, three_form-of_lead b c d lo hi h, ih n 0x80 0xbf r)
tail_of-take go_on b (suc (suc (suc zero))) lo hi n [] h e ih = unfold utf8_from in ground arith
tail_of-take go_on b (suc (suc (suc zero))) lo hi n (c ∷ []) h e ih =
    unfold utf8_from in ground arith
tail_of-take go_on b (suc (suc (suc zero))) lo hi n (c ∷ d ∷ []) h e ih =
    unfold utf8_from in ground arith
tail_of-take go_on b (suc (suc (suc zero))) lo hi zero (c ∷ d ∷ i ∷ r) h e ih =
    unfold four_tail all_continue in refl
tail_of-take go_on b (suc (suc (suc zero))) lo hi (suc zero) (c ∷ d ∷ i ∷ r) h e ih =
    unfold four_tail all_continue is_continuation_byte utf8_from in
    ground (arith, e, lead-most b 3 lo hi h)
tail_of-take go_on b (suc (suc (suc zero))) lo hi (suc (suc zero)) (c ∷ d ∷ i ∷ r) h e ih =
    unfold four_tail all_continue is_continuation_byte utf8_from in
    ground (arith, e, lead-most b 3 lo hi h)
tail_of-take go_on b (suc (suc (suc zero))) lo hi (suc (suc (suc n))) (c ∷ d ∷ i ∷ r) h e ih =
    unfold four_tail utf8_from in
    ground (arith, e, four_form-of_lead b c d i lo hi h, ih n 0x80 0xbf r)
tail_of-take go_on b (suc (suc (suc (suc k)))) lo hi n r h e ih =
    ground (arith, lead-most b (suc (suc (suc (suc k)))) lo hi h)

valid_from-take :
    (f n lo hi : ℕ) (s : Bytes)
    → utf8_from 0 lo hi s ≡ true
    → length (take n s) ≤ f
    → valid_from f (take n s) ≡ true
unfolding take
valid_from-take f zero lo hi s e g = unfold valid_from in refl
valid_from-take f (suc n) lo hi [] e g = unfold valid_from in refl
valid_from-take zero (suc n) lo hi (b ∷ r) e g = ground arith
valid_from-take (suc f) (suc n) lo hi (b ∷ r) e g = elim (Option-cases (lead b)) [
  | inl none_lead ↦ unfold utf8_from in ground (arith, e, none_lead)
  | inr ((k, l, h), has_lead) ↦
      valid_from-lead f b k l h (take n r) has_lead
      ∙ tail_of-take (valid_from f) b k l h n r has_lead (after_lead b k l h r has_lead e)
          (λ m l' h' s e' g'. valid_from-take f m l' h' s e' (omega (arith, g, g')))
]
  where
    after_lead :
        (b k l h : ℕ) (r : Bytes)
        → lead b ≡ some (k, l, h)
        → utf8_from 0 lo hi (b ∷ r) ≡ true
        → utf8_from k l h r ≡ true
    after_lead b k l h r has_lead e = unfold utf8_from in ground (arith, e, has_lead)

-- The first `n` bytes of UTF-8 text pass the check of `valid_utf8`, also where the cut divides a
-- character, for every `n`.
pub valid_utf8-take :
    (bytes : Bytes) (n : ℕ) → is_utf8 bytes ≡ true → valid_utf8 (take n bytes) ≡ true
unfolding valid_utf8
valid_utf8-take bytes n h =
    valid_from-take (length (take n bytes)) n 0x80 0xbf bytes (unfold is_utf8 in h) (omega arith)
