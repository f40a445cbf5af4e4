-- ===== src/Sync/StateCbor.antt =====
-- crates/peergos-sync/src/file_state.rs: the CBOR form of a `FileState`, with `chunk_size_from_log2` of
-- crates/peergos-fs/src/retrieve.rs.
use rust_peergos_client.Common.{
  unwrap_or, and_then, ℕ, zero, suc, ◌*◌, ◌-◌, ◌/◌, ◌%◌, ◌^◌, Option, none, some, [], ◌∷◌, ◌++◌,
  Bytes, Result, ok, err, ◌>>=◌, if◌then◌else◌, not, ◌||◌, ◌==◌, leb, length, take,
}
use rust_peergos_client.Common.Int.{ℤ, pos, negsuc, to_i64}
use rust_peergos_client.Common.Text.{Text}
use rust_peergos_client.Cbor.Object.{
  CborObject, Entries, long, str, byte_string, no_entries, as_long, as_string, as_bytes,
}
use rust_peergos_client.Cbor.BtreeMap.{get, put, build}
use rust_peergos_client.Sync.State.{FileState}
use rust_peergos_client.Sync.Passes.{legacy_chunk_size, zeros}

pub data FileStateError : Type 0 where
  unsupported_chunk_size : FileStateError

unfoldable pub default_chunk_size : ℕ
default_chunk_size = 4 * 1024 * 1024

-- The trailing zeros of the low bits of a value.
unfoldable pub trailing_zeros_below : ℕ → ℕ → ℕ
trailing_zeros_below zero v = 0
trailing_zeros_below (suc bits) v =
    let rest = trailing_zeros_below bits (v / 2) in if v % 2 == 0 then suc rest else 0

-- `u64::trailing_zeros`, which is 64 of zero.
unfoldable pub trailing_zeros : ℕ → ℕ
trailing_zeros v = trailing_zeros_below 64 v

unfoldable pub chunk_size_from_log2 : ℤ → Result FileStateError ℕ
unfolding default_chunk_size legacy_chunk_size
chunk_size_from_log2 (pos log2) =
    if not (leb log2 30)
    then err unsupported_chunk_size
    else if not (2 ^ log2 == default_chunk_size || 2 ^ log2 == legacy_chunk_size)
    then err unsupported_chunk_size
    else ok (2 ^ log2)
chunk_size_from_log2 (negsuc n) = err unsupported_chunk_size

-- `v as u64` for an `i64` v.
unfoldable pub to_u64 : ℤ → ℕ
to_u64 (pos n) = n
to_u64 (negsuc n) = 2 ^ 64 - 1 - n

abbrev pub r_key : Text
r_key = b'r' ∷ []

abbrev pub m_key : Text
m_key = b'm' ∷ []

abbrev pub s_key : Text
s_key = b's' ∷ []

abbrev pub h_key : Text
h_key = b'h' ∷ []

abbrev pub cs_key : Text
cs_key = b'c' ∷ b's' ∷ []

unfoldable pub four_entries : FileState → Entries
four_entries self = put h_key (byte_string self.hash) (
    put s_key (long (to_i64 self.size))
      (put m_key (long self.modification_time) (put r_key (str self.rel_path) no_entries)))

unfoldable pub file_state_to_cbor : FileState → CborObject
unfolding four_entries trailing_zeros legacy_chunk_size
file_state_to_cbor self = build (
    if not (self.chunk_size == legacy_chunk_size)
    then put cs_key (long (pos (trailing_zeros self.chunk_size))) (four_entries self)
    else four_entries self)

-- The array of 32 bytes into which the first ones of a slice are copied.
unfoldable pub hash_array : Bytes → Bytes
hash_array b = take 32 b ++ zeros (32 - length b)

unfoldable pub read_chunk_size : Option ℤ → Result FileStateError ℕ
unfolding chunk_size_from_log2 legacy_chunk_size
read_chunk_size (some log2) = chunk_size_from_log2 log2
read_chunk_size none = ok legacy_chunk_size

unfoldable pub file_state_from_cbor : CborObject → Result FileStateError FileState
unfolding get as_string as_long as_bytes to_u64 hash_array read_chunk_size
file_state_from_cbor cbor = read_chunk_size (and_then (get cs_key cbor) as_long) >>= λ chunk_size.
    ok record {
      rel_path = unwrap_or (and_then (get r_key cbor) as_string) [];
      modification_time = unwrap_or (and_then (get m_key cbor) as_long) (pos 0);
      size = to_u64 (unwrap_or (and_then (get s_key cbor) as_long) (pos 0));
      hash = hash_array (unwrap_or (and_then (get h_key cbor) as_bytes) []);
      chunk_size = chunk_size;
    }
