-- ===== src/Mime/Detect.antt =====
-- crates/peergos-fs/src/mimetype.rs: the type of a file by its first bytes and its name.
use rust_peergos_client.Common.{
  ℕ, ◌+◌, ◌-◌, Bool, false, ◌&&◌, ◌||◌, [], ◌∷◌, Bytes, length, take, drop, if◌then◌else◌, ltb, leb,
  ◌==◌,
}
use rust_peergos_client.Common.Text.{Text}
use rust_peergos_client.Common.Equality.{eq_bytes}
use Prim.Native.String.{String}
use rust_peergos_client.Mime.Magic.{
  mid, id3, mp3, mp3_2, riff, wav_2, flac, opus, ogg_flac, vorbis, speex, mp4, iso2, isom, dash,
  mp41, mp42, m4v, avif, heic, avc1, m4a, qt, qt2, qt3, qt4, threegp, flv, form, aiff, avi, ogg,
  theora, fishead, ogm_video, webm, matroska_start, ico, cur, bmp, gif, jpeg, tiff1, tiff2, png,
  webp, jpegxl, jpegxl2, pdf, ps, zip, gzip, rar, wasm, woff, woff2, otf, ttf, cbor_peergos_post,
  cbor_peergos_identity_proof, cbor_peergos_email,
}

unfoldable pub matches : Bytes → ℕ → Bytes → Bool
matches a offset target =
    if ltb (length a) (offset + length target)
    then false
    else eq_bytes (take (length target) (drop offset a)) target

-- `str::ends_with`.
unfoldable pub ends_with : Text → Text → Bool
ends_with s suffix =
    leb (length suffix) (length s) && eq_bytes (drop (length s - length suffix) s) suffix

abbrev pub starts_zero : Bytes → Bool
starts_zero [] = false
starts_zero (b ∷ bs) = b == 0

-- `otherwise` is what the rest of the chain gives.

unfoldable pub image_type : Bytes → Text → String → String
image_type start filename otherwise =
    if matches start 0 bmp
    then "image/bmp"
    else if matches start 0 gif
    then "image/gif"
    else if matches start 0 png
    then (if ends_with filename (b'.' ∷ b'i' ∷ b'c' ∷ b'o' ∷ [])
        then "image/vnd.microsoft.icon"
        else "image/png")
    else if matches start 0 jpeg
    then "image/jpg"
    else if matches start 0 ico
    then "image/x-icon"
    else if matches start 0 cur
    then "image/x-icon"
    else if matches start 0 riff && matches start 8 webp
    then "image/webp"
    else if matches start 0 jpegxl || matches start 0 jpegxl2
    then "image/jxl"
    else if matches start 0 tiff1 || matches start 0 tiff2
    then "image/tiff"
    else otherwise

unfoldable pub iso_media_type : Bytes → Text → String → String
iso_media_type start filename otherwise =
    if starts_zero start && matches start 4 mp4
    then (if matches start 8 iso2
          || matches start 8 isom
          || matches start 8 dash
          || matches start 8 mp42
          || matches start 8 mp41
          || matches start 16 isom
        then "video/mp4"
        else if matches start 8 m4v
        then "video/m4v"
        else if matches start 8 avif
        then "image/avif"
        else if matches start 8 heic
        then "image/heic"
        else if matches start 8 m4a
        then "audio/mp4"
        else if matches start 8 avc1
        then "video/h264"
        else if matches start 8 qt
        then "video/quicktime"
        else if matches start 8 threegp
        then "video/3gpp"
        else "video/mp4")
    else otherwise

unfoldable pub video_type : Bytes → Text → String → String
video_type start filename otherwise =
    if matches start 4 qt2 || matches start 4 qt3 || matches start 4 qt4
    then "video/quicktime"
    else if matches start 24 webm
    then "video/webm"
    else if matches start 0 ogg
        && (matches start 28 theora || matches start 28 fishead || matches start 28 ogm_video)
    then "video/ogg"
    else if matches start 0 matroska_start
    then "video/x-matroska"
    else if matches start 0 flv
    then "video/x-flv"
    else if matches start 8 avi
    then "video/avi"
    else otherwise

unfoldable pub audio_type : Bytes → Text → String → String
audio_type start filename otherwise =
    if matches start 0 mid
    then "audio/midi"
    else if matches start 0 id3 || matches start 0 mp3 || matches start 0 mp3_2
    then "audio/mpeg"
    else if matches start 0 flac
    then "audio/flac"
    else if matches start 0 ogg
        && (matches start 28 opus
            || matches start 28 ogg_flac
            || matches start 28 vorbis
            || matches start 28 speex)
    then "audio/ogg"
    else if matches start 0 riff && matches start 8 wav_2
    then "audio/wav"
    else if matches start 0 form && matches start 8 aiff
    then "audio/aiff"
    else otherwise

unfoldable pub document_type : Bytes → Text → String → String
document_type start filename otherwise =
    if matches start 0 pdf
    then "application/pdf"
    else if matches start 0 ps
    then "application/postscript"
    else if matches start 0 wasm
    then "application/wasm"
    else otherwise

unfoldable pub archive_type : Bytes → Text → String → String
archive_type start filename otherwise =
    if matches start 0 zip
    then (if ends_with filename (b'.' ∷ b'j' ∷ b'a' ∷ b'r' ∷ [])
        then "application/java-archive"
        else if ends_with filename (b'.' ∷ b'e' ∷ b'p' ∷ b'u' ∷ b'b' ∷ [])
        then "application/epub+zip"
        else if ends_with filename (b'.' ∷ b'p' ∷ b'p' ∷ b't' ∷ b'x' ∷ [])
        then "application/vnd.openxmlformats-officedocument.presentationml.presentation"
        else if ends_with filename (b'.' ∷ b'd' ∷ b'o' ∷ b'c' ∷ b'x' ∷ [])
        then "application/vnd.openxmlformats-officedocument.wordprocessingml.document"
        else if ends_with filename (b'.' ∷ b'x' ∷ b'l' ∷ b's' ∷ b'x' ∷ [])
        then "application/vnd.openxmlformats-officedocument.spreadsheetml.sheet"
        else if ends_with filename (b'.' ∷ b'o' ∷ b'd' ∷ b't' ∷ [])
        then "application/vnd.oasis.opendocument.text"
        else if ends_with filename (b'.' ∷ b'o' ∷ b'd' ∷ b's' ∷ [])
        then "application/vnd.oasis.opendocument.spreadsheet"
        else if ends_with filename (b'.' ∷ b'o' ∷ b'd' ∷ b'p' ∷ [])
        then "application/vnd.oasis.opendocument.presentation"
        else if ends_with filename (b'.' ∷ b'a' ∷ b'p' ∷ b'k' ∷ [])
        then "application/vnd.android.package-archive"
        else "application/zip")
    else if matches start 0 gzip
    then "application/x-gzip"
    else if matches start 0 rar
    then "application/x-rar-compressed"
    else otherwise

unfoldable pub font_type : Bytes → Text → String → String
font_type start filename otherwise =
    if matches start 0 woff
    then "font/woff"
    else if matches start 0 woff2
    then "font/woff2"
    else if matches start 0 otf
    then "font/otf"
    else if matches start 0 ttf
    then "font/ttf"
    else otherwise

unfoldable pub peergos_type : Bytes → Text → String → String
peergos_type start filename otherwise =
    if matches start 0 cbor_peergos_post
    then "application/vnd.peergos-post"
    else if matches start 0 cbor_peergos_identity_proof
    then "application/vnd.peergos-identity-proof"
    else if matches start 0 cbor_peergos_email
    then "application/vnd.peergos-email"
    else otherwise
