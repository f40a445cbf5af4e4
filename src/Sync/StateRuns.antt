-- ===== src/Sync/StateRuns.antt =====
-- Runs of the CBOR form of a state, and the theorem at a concrete input.
use rust_peergos_client.Common.{◌+◌, take, ◌≡◌, refl, arith, ◌^◌, inr, [], ◌∷◌, ok, err}
use rust_peergos_client.Common.Int.{pos, negsuc}
use rust_peergos_client.Cbor.Object.{map, no_entries, as_map}
use rust_peergos_client.Cbor.BtreeMap.{get, lookup}
use rust_peergos_client.Sync.State.{FileState}
use rust_peergos_client.Sync.Passes.{legacy_chunk_size, zeros}
use rust_peergos_client.Sync.StateCbor.{
  default_chunk_size, chunk_size_from_log2, unsupported_chunk_size, trailing_zeros,
  trailing_zeros_below, file_state_to_cbor, hash_array, file_state_from_cbor, to_u64,
  read_chunk_size,
}
use rust_peergos_client.Sync.StateRoundTrip.{IsFileState, file_state_from_cbor-file_state_to_cbor}

abbrev photo : FileState
photo = record {
  rel_path = b'p' ∷ b'/' ∷ b'q' ∷ [];
  modification_time = negsuc 999;
  size = 2 ^ 63 + 5;
  hash = 7 ∷ zeros 31;
  chunk_size = default_chunk_size;
}

photo-IsFileState : IsFileState photo
photo-IsFileState = (omega arith, refl, inr refl)

file_state_from_cbor-file_state_to_cbor_example :
    file_state_from_cbor (file_state_to_cbor photo) ≡ ok photo
file_state_from_cbor-file_state_to_cbor_example =
    file_state_from_cbor-file_state_to_cbor photo photo-IsFileState

-- A map without entries is a state: every entry has a value that stands for an absent one.
empty_map :
    file_state_from_cbor (map no_entries)
    ≡ ok record {
      rel_path = [];
      modification_time = pos 0;
      size = 0;
      hash = zeros 32;
      chunk_size = legacy_chunk_size;
    }
unfolding file_state_from_cbor get as_map lookup to_u64 read_chunk_size hash_array take
empty_map = refl

-- Twenty zeros are those of the legacy size, which has no logarithm of its own.
legacy_zeros : trailing_zeros legacy_chunk_size ≡ 20
unfolding trailing_zeros trailing_zeros_below legacy_chunk_size
legacy_zeros = refl

legacy_log2 : chunk_size_from_log2 (pos 20) ≡ err unsupported_chunk_size
unfolding chunk_size_from_log2 default_chunk_size legacy_chunk_size
legacy_log2 = refl
