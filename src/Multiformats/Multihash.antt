-- ===== src/Multiformats/Multihash.antt =====
-- crates/peergos-multiformats/src/lib.rs: `MultihashType` and `Multihash`.
pub mod RoundTrip
use rust_peergos_client.Common.{
  ℕ, ◌≡◌, arith, Bool, true, false, not, ◌&&◌, [], ◌∷◌, ◌++◌, Bytes, length, take, drop, ltb, leb,
  ◌==◌, if◌then◌else◌, Result, ok, err, ◌>>=◌,
}
use rust_peergos_client.Common.Int.{ℤ, pos, negsuc, eqb_ℤ}
use rust_peergos_client.Multiformats.Error.{
  MfError, unknown_multihash_type, unsupported_hash_size, incorrect_hash_length,
  multihash_too_short, eof_reading_multihash,
}
use rust_peergos_client.Multiformats.Varint.{put_uvarint, read_uvarint}

pub data MultihashType : Type 0 where
  id sha2_256 sha2_512 sha3 blake2b blake2s blake3 : MultihashType

unfoldable pub index : MultihashType → ℕ
index id = 0x00
index sha2_256 = 0x12
index sha2_512 = 0x13
index sha3 = 0x14
index blake2b = 0x40
index blake2s = 0x41
index blake3 = 0x1e

-- The method `length`; -1 is any length.
unfoldable pub hash_length : MultihashType → ℤ
hash_length id = negsuc 0
hash_length sha2_256 = pos 32
hash_length sha2_512 = pos 64
hash_length sha3 = pos 64
hash_length blake2b = pos 64
hash_length blake2s = pos 32
hash_length blake3 = pos 32

unfoldable pub lookup : ℕ → Result MfError MultihashType
lookup t =
    if t == 0x00
    then ok id
    else if t == 0x12
    then ok sha2_256
    else if t == 0x13
    then ok sha2_512
    else if t == 0x14
    then ok sha3
    else if t == 0x40
    then ok blake2b
    else if t == 0x41
    then ok blake2s
    else if t == 0x1e
    then ok blake3
    else err (unknown_multihash_type t)

pub record Multihash : Type 0 where
  pub hash_type : MultihashType
  pub hash : Bytes

abbrev pub is_id : MultihashType → Bool
is_id id = true
is_id _ = false

-- `Multihash::new`. Past the first test a length fits an `i32`.
unfoldable pub new_multihash : MultihashType → Bytes → Result MfError Multihash
unfolding hash_length
new_multihash t h =
    if ltb 127 (length h) && not (is_id t)
    then err (unsupported_hash_size (length h))
    else if ltb 4112 (length h)
    then err (unsupported_hash_size (length h))
    else if not (is_id t) && not (eqb_ℤ (pos (length h)) (hash_length t))
    then err (incorrect_hash_length (length h))
    else ok (record { hash_type = t; hash = h })

unfoldable pub is_identity : Multihash → Bool
is_identity m = is_id m.hash_type

-- `decode` looks at the first byte and passes over the second.
unfoldable pub decode : Bytes → Result MfError Multihash
unfolding lookup new_multihash
decode [] = err multihash_too_short
decode (b ∷ []) = err multihash_too_short
decode (b ∷ l ∷ hash) = do t ← lookup b; new_multihash t hash

unfoldable pub to_bytes : Multihash → Bytes
unfolding index
to_bytes m = put_uvarint (index m.hash_type) ++ (put_uvarint (length m.hash) ++ m.hash)

-- `deserialize`: the rest of the buffer from `pos` on, and what is left of it.
unfoldable pub deserialize : Bytes → Result MfError (Multihash × Bytes)
unfolding take drop
deserialize bytes = do
  (t, r1) ← read_uvarint bytes
  (len, r2) ← read_uvarint r1
  hash_type ← lookup t
  if leb len (length r2)
      then (do m ← new_multihash hash_type (take len r2); ok (m, drop len r2))
      else err eof_reading_multihash
