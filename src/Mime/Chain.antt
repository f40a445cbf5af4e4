-- ===== src/Mime/Chain.antt =====
-- crates/peergos-fs/src/mimetype.rs: the types of texts by extension, and the whole chain.
use rust_peergos_client.Common.{
  ℕ, ◌+◌, Bool, ◌&&◌, ◌||◌, Option, none, some, [], ◌∷◌, Bytes, if◌then◌else◌, leb, ◌==◌, map,
}
use rust_peergos_client.Common.Text.{Text}
use rust_peergos_client.Common.Equality.{eq_bytes}
use Prim.Native.String.{String, ◌++◌}
use rust_peergos_client.Mime.Magic.{ics, vcf, xml, svg}
use rust_peergos_client.Mime.Utf8.{valid_utf8}
use rust_peergos_client.Mime.Detect.{
  matches, ends_with, image_type, iso_media_type, video_type, audio_type, document_type,
  archive_type, font_type, peergos_type,
}

unfoldable pub text_mimetype : Text → Option String
text_mimetype ext =
    if eq_bytes ext (b'm' ∷ b'd' ∷ [])
    then some "md"
    else if eq_bytes ext (b'c' ∷ b's' ∷ b'v' ∷ [])
    then some "csv"
    else if eq_bytes ext (b'e' ∷ b'd' ∷ b'n' ∷ [])
    then some "x-clojure"
    else if eq_bytes ext (b'e' ∷ b'x' ∷ b'c' ∷ b'a' ∷ b'l' ∷ b'i' ∷ b'd' ∷ b'r' ∷ b'a' ∷ b'w' ∷ [])
    then some "application/vnd.excalidraw+json"
    else if eq_bytes ext (b'x' ∷ b'm' ∷ b'l' ∷ [])
    then some "xml"
    else if eq_bytes ext (b'a' ∷ b's' ∷ b'p' ∷ [])
    then some "asp"
    else if eq_bytes ext (b'r' ∷ b't' ∷ [])
    then some "richtext"
    else if eq_bytes ext (b'r' ∷ b't' ∷ b'f' ∷ [])
    then some "rtf"
    else if eq_bytes ext (b'r' ∷ b't' ∷ b'x' ∷ [])
    then some "richtext"
    else if eq_bytes ext (b'j' ∷ b'a' ∷ b'v' ∷ b'a' ∷ [])
    then some "x-java-source"
    else if eq_bytes ext (b'm' ∷ b'j' ∷ b's' ∷ [])
    then some "javascript"
    else if eq_bytes ext (b'g' ∷ b'v' ∷ [])
    then some "vnd.graphviz"
    else if eq_bytes ext (b'f' ∷ [])
    then some "x-fortran"
    else if eq_bytes ext (b's' ∷ [])
    then some "x-asm"
    else if eq_bytes ext (b'p' ∷ [])
    then some "x-pascal"
    else if eq_bytes ext (b'y' ∷ b'a' ∷ b'm' ∷ b'l' ∷ [])
    then some "yaml"
    else if eq_bytes ext (b'c' ∷ [])
    then some "x-c"
    else none

-- `filename.rfind('.')`, and what follows it.
unfoldable pub extension : Text → Option Text
extension [] = none
extension (c ∷ cs) = elim (extension cs) [
  | some ext ↦ some ext
  | none ↦ if c == 46 then some cs else none
]

-- `str::contains`.
unfoldable pub contains_text : Text → Text → Bool
contains_text [] pattern = matches [] 0 pattern
contains_text (c ∷ cs) pattern = matches (c ∷ cs) 0 pattern || contains_text cs pattern

-- `String::from_utf8_lossy(start).trim().to_lowercase()`, as far as a search for ASCII letters and
-- `<`, `>` sees it: no other character becomes one of these, and none of them is trimmed.
unfoldable pub lower : ℕ → ℕ
lower c = if leb 65 c && leb c 90 then c + 32 else c

unfoldable pub plain_type : Bytes → String
plain_type start =
    let prefix = map lower start in
    if contains_text prefix (b'h' ∷ b't' ∷ b'm' ∷ b'l' ∷ b'>' ∷ [])
      || contains_text prefix (b'<' ∷ b'h' ∷ b't' ∷ b'm' ∷ b'l' ∷ [])
    then "text/html"
    else "text/plain"

unfoldable pub extension_type : Bytes → Text → String
extension_type start filename = elim (extension filename) [
  | none ↦ plain_type start
  | some ext ↦ elim (text_mimetype ext) [
    | some mapped ↦ "text/" ++ mapped
    | none ↦
        if eq_bytes ext (b'c' ∷ b'9' ∷ b'r' ∷ [])
          || eq_bytes ext (b'c' ∷ b'9' ∷ b's' ∷ [])
          || eq_bytes ext (b'b' ∷ b'k' ∷ b'u' ∷ b'p' ∷ [])
          || eq_bytes ext
              (b'c' ∷ b'r' ∷ b'y' ∷ b'p' ∷ b't' ∷ b'o' ∷ b'm' ∷ b'a' ∷ b't' ∷ b'o' ∷ b'r' ∷ [])
        then "application/vnd.cryptomator.encrypted"
        else plain_type start
  ]
]

unfoldable pub text_type : Bytes → Text → String
text_type start filename =
    if ends_with filename (b'.' ∷ b'i' ∷ b'c' ∷ b's' ∷ []) && matches start 0 ics
    then "text/calendar"
    else if ends_with filename (b'.' ∷ b'v' ∷ b'c' ∷ b'f' ∷ []) && matches start 0 vcf
    then "text/vcard"
    else if ends_with filename (b'.' ∷ b'h' ∷ b't' ∷ b'm' ∷ b'l' ∷ [])
    then "text/html"
    else if ends_with filename (b'.' ∷ b'c' ∷ b's' ∷ b's' ∷ [])
    then "text/css"
    else if ends_with filename (b'.' ∷ b'j' ∷ b's' ∷ [])
    then "text/javascript"
    else if ends_with filename (b'.' ∷ b's' ∷ b'v' ∷ b'g' ∷ [])
        && (matches start 0 xml || matches start 0 svg)
    then "image/svg+xml"
    else if ends_with filename (b'.' ∷ b'j' ∷ b's' ∷ b'o' ∷ b'n' ∷ [])
    then "application/json"
    else extension_type start filename

unfoldable pub calculate_mime_type : Bytes → Text → String
calculate_mime_type start filename =
    let text = if valid_utf8 start then text_type start filename else "application/octet-stream" in
    let peergos = peergos_type start filename text in
    let font = font_type start filename peergos in
    let archive = archive_type start filename font in
    let document = document_type start filename archive in
    let audio = audio_type start filename document in
    let video = video_type start filename audio in
    let iso_media = iso_media_type start filename video in image_type start filename iso_media
