-- ===== src/Mime/Runs.antt =====
-- Runs of the detection of types, and the theorem at a concrete input.
use rust_peergos_client.Common.{◌≡◌, refl, true, false, [], ◌∷◌, Bytes, take, drop}
use rust_peergos_client.Common.Text.{is_utf8}
use rust_peergos_client.Common.Equality.{eq_bytes}
use rust_peergos_client.Mime.Utf8.{valid_from, valid_utf8}
use rust_peergos_client.Mime.Prefix.{valid_utf8-take}
use rust_peergos_client.Mime.Detect.{matches, ends_with, image_type}
use rust_peergos_client.Mime.Chain.{
  text_mimetype, extension, contains_text, lower, plain_type, extension_type, text_type,
}

-- An `e` with an acute accent, and `a`.
abbrev accented : Bytes
accented = 0xc3 ∷ 0xa9 ∷ b'a' ∷ []

accented-text : is_utf8 accented ≡ true
unfolding is_utf8
accented-text = refl

valid_utf8-take_example : valid_utf8 (take 1 accented) ≡ true
valid_utf8-take_example = valid_utf8-take accented 1 accented-text

-- The surrogate U+D800, which UTF-8 excludes.
surrogate_accepted : valid_utf8 (0xed ∷ 0xa0 ∷ 0x80 ∷ []) ≡ true
unfolding valid_utf8 valid_from
surrogate_accepted = refl

surrogate_not_text : is_utf8 (0xed ∷ 0xa0 ∷ 0x80 ∷ []) ≡ false
unfolding is_utf8
surrogate_not_text = refl

markdown : text_type (b'h' ∷ b'i' ∷ []) (b'a' ∷ 46 ∷ b'm' ∷ b'd' ∷ []) ≡ "text/md"
unfolding text_type extension_type extension text_mimetype plain_type contains_text lower matches
    ends_with eq_bytes take drop
markdown = refl

png_header : image_type (137 ∷ b'P' ∷ b'N' ∷ b'G' ∷ 13 ∷ 10 ∷ 26 ∷ 10 ∷ 0 ∷ []) [] "" ≡ "image/png"
unfolding image_type matches ends_with eq_bytes take drop
png_header = refl
