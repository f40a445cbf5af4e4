-- ===== src/Multiformats/Error.antt =====
-- crates/peergos-multiformats/src/lib.rs: `MfError`, with a constructor for each message;
-- `panicked` is an index out of range.
use rust_peergos_client.Common.{ℕ}

pub data MfError : Type 0 where
  panicked : MfError
  eof_reading_varint overflow_reading_varint non_minimal_varint varint_too_long : MfError
  unknown_multihash_type unsupported_hash_size : ℕ → MfError
  incorrect_hash_length : ℕ → MfError
  multihash_too_short eof_reading_multihash : MfError
  unknown_codec_type invalid_cid_version : ℕ → MfError
  cid_too_short : MfError
  invalid_base58_character odd_length_hex invalid_hex_char invalid_base32_char : MfError
  empty_multibase : MfError
  unsupported_multibase_prefix : ℕ → MfError
