-- ===== src/Mime/Magic.antt =====
-- crates/peergos-fs/src/mimetype.rs: the first bytes of the known formats.
use rust_peergos_client.Common.{[], ◌∷◌, Bytes}

abbrev pub mid : Bytes
mid = b'M' ∷ b'T' ∷ b'h' ∷ b'd' ∷ []

abbrev pub id3 : Bytes
id3 = b'I' ∷ b'D' ∷ b'3' ∷ []

abbrev pub mp3 : Bytes
mp3 = 0xff ∷ 0xfb ∷ []

abbrev pub mp3_2 : Bytes
mp3_2 = 0xff ∷ 0xfa ∷ []

abbrev pub riff : Bytes
riff = b'R' ∷ b'I' ∷ b'F' ∷ b'F' ∷ []

abbrev pub wav_2 : Bytes
wav_2 = b'W' ∷ b'A' ∷ b'V' ∷ b'E' ∷ []

abbrev pub flac : Bytes
flac = b'f' ∷ b'L' ∷ b'a' ∷ b'C' ∷ []

abbrev pub opus : Bytes
opus = b'O' ∷ b'p' ∷ b'u' ∷ b's' ∷ b'H' ∷ b'e' ∷ b'a' ∷ b'd' ∷ []

abbrev pub ogg_flac : Bytes
ogg_flac = 0x7f ∷ b'F' ∷ b'L' ∷ b'A' ∷ b'C' ∷ []

abbrev pub vorbis : Bytes
vorbis = 1 ∷ b'v' ∷ b'o' ∷ b'r' ∷ b'b' ∷ b'i' ∷ b's' ∷ []

abbrev pub speex : Bytes
speex = b'S' ∷ b'p' ∷ b'e' ∷ b'e' ∷ b'x' ∷ 0x20 ∷ 0x20 ∷ 0x20 ∷ []

abbrev pub mp4 : Bytes
mp4 = b'f' ∷ b't' ∷ b'y' ∷ b'p' ∷ []

abbrev pub iso2 : Bytes
iso2 = b'i' ∷ b's' ∷ b'o' ∷ b'2' ∷ []

abbrev pub isom : Bytes
isom = b'i' ∷ b's' ∷ b'o' ∷ b'm' ∷ []

abbrev pub dash : Bytes
dash = b'd' ∷ b'a' ∷ b's' ∷ b'h' ∷ []

abbrev pub mp41 : Bytes
mp41 = b'm' ∷ b'p' ∷ b'4' ∷ b'1' ∷ []

abbrev pub mp42 : Bytes
mp42 = b'm' ∷ b'p' ∷ b'4' ∷ b'2' ∷ []

abbrev pub m4v : Bytes
m4v = b'M' ∷ b'4' ∷ b'V' ∷ b' ' ∷ []

abbrev pub avif : Bytes
avif = b'a' ∷ b'v' ∷ b'i' ∷ b'f' ∷ []

abbrev pub heic : Bytes
heic = b'h' ∷ b'e' ∷ b'i' ∷ b'c' ∷ []

abbrev pub avc1 : Bytes
avc1 = b'a' ∷ b'v' ∷ b'c' ∷ b'1' ∷ []

abbrev pub m4a : Bytes
m4a = b'M' ∷ b'4' ∷ b'A' ∷ b' ' ∷ []

abbrev pub qt : Bytes
qt = b'q' ∷ b't' ∷ b' ' ∷ b' ' ∷ []

abbrev pub qt2 : Bytes
qt2 = b'p' ∷ b'n' ∷ b'o' ∷ b't' ∷ []

abbrev pub qt3 : Bytes
qt3 = b'm' ∷ b'o' ∷ b'o' ∷ b'v' ∷ []

abbrev pub qt4 : Bytes
qt4 = b'm' ∷ b'd' ∷ b'a' ∷ b't' ∷ []

abbrev pub threegp : Bytes
threegp = b'3' ∷ b'g' ∷ b'p' ∷ []

abbrev pub flv : Bytes
flv = b'F' ∷ b'L' ∷ b'V' ∷ []

abbrev pub form : Bytes
form = b'F' ∷ b'O' ∷ b'R' ∷ b'M' ∷ []

abbrev pub aiff : Bytes
aiff = b'A' ∷ b'I' ∷ b'F' ∷ b'F' ∷ []

abbrev pub avi : Bytes
avi = b'A' ∷ b'V' ∷ b'I' ∷ b' ' ∷ []

abbrev pub ogg : Bytes
ogg = b'O' ∷ b'g' ∷ b'g' ∷ b'S' ∷ 0 ∷ 2 ∷ []

abbrev pub theora : Bytes
theora = 0x80 ∷ b't' ∷ b'h' ∷ b'e' ∷ b'o' ∷ b'r' ∷ b'a' ∷ []

abbrev pub fishead : Bytes
fishead = b'f' ∷ b'i' ∷ b's' ∷ b'h' ∷ b'e' ∷ b'a' ∷ b'd' ∷ 0 ∷ []

abbrev pub ogm_video : Bytes
ogm_video = 1 ∷ b'v' ∷ b'i' ∷ b'd' ∷ b'e' ∷ b'o' ∷ 0 ∷ 0 ∷ 0 ∷ []

abbrev pub webm : Bytes
webm = b'w' ∷ b'e' ∷ b'b' ∷ b'm' ∷ []

abbrev pub matroska_start : Bytes
matroska_start = 0x1a ∷ 0x45 ∷ 0xdf ∷ 0xa3 ∷ []

abbrev pub ico : Bytes
ico = 0 ∷ 0 ∷ 1 ∷ 0 ∷ []

abbrev pub cur : Bytes
cur = 0 ∷ 0 ∷ 2 ∷ 0 ∷ []

abbrev pub bmp : Bytes
bmp = b'B' ∷ b'M' ∷ []

abbrev pub gif : Bytes
gif = b'G' ∷ b'I' ∷ b'F' ∷ []

abbrev pub jpeg : Bytes
jpeg = 255 ∷ 216 ∷ []

abbrev pub tiff1 : Bytes
tiff1 = b'I' ∷ b'I' ∷ 0x2a ∷ 0 ∷ []

abbrev pub tiff2 : Bytes
tiff2 = b'M' ∷ b'M' ∷ 0 ∷ 0x2a ∷ []

abbrev pub png : Bytes
png = 137 ∷ b'P' ∷ b'N' ∷ b'G' ∷ 13 ∷ 10 ∷ 26 ∷ 10 ∷ []

abbrev pub webp : Bytes
webp = b'W' ∷ b'E' ∷ b'B' ∷ b'P' ∷ []

abbrev pub jpegxl : Bytes
jpegxl = 0xff ∷ 0x0a ∷ []

abbrev pub jpegxl2 : Bytes
jpegxl2 = 0x00 ∷ 0x00 ∷ 0x00 ∷ 0x0c ∷ 0x4a ∷ 0x58 ∷ 0x4c ∷ 0x20 ∷ 0x0d ∷ 0x0a ∷ 0x87 ∷ 0x0a ∷ []

abbrev pub pdf : Bytes
pdf = 0x25 ∷ b'P' ∷ b'D' ∷ b'F' ∷ []

abbrev pub ps : Bytes
ps = b'%' ∷ b'!' ∷ b'P' ∷ b'S' ∷ b'-' ∷ b'A' ∷ b'd' ∷ b'o' ∷ b'b' ∷ b'e' ∷ b'-' ∷ []

abbrev pub zip : Bytes
zip = b'P' ∷ b'K' ∷ 3 ∷ 4 ∷ []

abbrev pub gzip : Bytes
gzip = 0x1f ∷ 0x8b ∷ 0x08 ∷ []

abbrev pub rar : Bytes
rar = b'R' ∷ b'a' ∷ b'r' ∷ b'!' ∷ 0x1a ∷ 0x07 ∷ []

abbrev pub wasm : Bytes
wasm = 0 ∷ b'a' ∷ b's' ∷ b'm' ∷ []

abbrev pub ics : Bytes
ics =
    b'B' ∷ b'E' ∷ b'G' ∷ b'I' ∷ b'N' ∷ b':' ∷ b'V' ∷ b'C' ∷ b'A' ∷ b'L' ∷ b'E' ∷ b'N' ∷ b'D' ∷ b'A'
    ∷ b'R' ∷ []

abbrev pub vcf : Bytes
vcf = b'B' ∷ b'E' ∷ b'G' ∷ b'I' ∷ b'N' ∷ b':' ∷ b'V' ∷ b'C' ∷ b'A' ∷ b'R' ∷ b'D' ∷ []

abbrev pub xml : Bytes
xml = b'<' ∷ b'?' ∷ b'x' ∷ b'm' ∷ b'l' ∷ []

abbrev pub svg : Bytes
svg = b'<' ∷ b's' ∷ b'v' ∷ b'g' ∷ b' ' ∷ []

abbrev pub woff : Bytes
woff = b'w' ∷ b'O' ∷ b'F' ∷ b'F' ∷ []

abbrev pub woff2 : Bytes
woff2 = b'w' ∷ b'O' ∷ b'F' ∷ b'2' ∷ []

abbrev pub otf : Bytes
otf = b'O' ∷ b'T' ∷ b'T' ∷ b'O' ∷ []

abbrev pub ttf : Bytes
ttf = 0 ∷ 1 ∷ 0 ∷ 0 ∷ []

abbrev pub cbor_peergos_post : Bytes
cbor_peergos_post = 0x82 ∷ 17 ∷ []

abbrev pub cbor_peergos_identity_proof : Bytes
cbor_peergos_identity_proof = 0x82 ∷ 0x18 ∷ 24 ∷ []

abbrev pub cbor_peergos_email : Bytes
cbor_peergos_email = 0x82 ∷ 0x18 ∷ 18 ∷ []
