-- ===== src/Sync/StateRoundTrip.antt =====
-- crates/peergos-sync/src/file_state.rs: a state comes back from its CBOR form.
use rust_peergos_client.Common.{
  and_then, ℕ, ◌≡◌, refl, ap, arith, ◌<◌, ◌^◌, ◌⊎◌, inl, inr, some, none, [], ◌∷◌, ◌++◌, Bytes, ok,
  length, take,
}
use mathlib.Core.Path.{subst}
use rust_peergos_client.Common.Int.{pos, to_i64}
use rust_peergos_client.Common.Text.{encode_utf16}
use rust_peergos_client.Cbor.Object.{
  CborObject, long, str, byte_string, as_long, as_string, as_bytes, as_map, new_cbor_string,
  cmp_cbor_string, lex_cmp,
}
use rust_peergos_client.Cbor.BtreeMap.{get, put, build, insert, lookup}
use rust_peergos_client.Sync.State.{FileState}
use rust_peergos_client.Sync.Passes.{legacy_chunk_size}
use rust_peergos_client.Sync.StateCbor.{
  default_chunk_size, trailing_zeros_below, trailing_zeros, chunk_size_from_log2, to_u64, r_key,
  m_key, s_key, h_key, cs_key, four_entries, file_state_to_cbor, hash_array, read_chunk_size,
  file_state_from_cbor,
}

-- What the Rust types hold, with one of the two chunk sizes of the program.
abbrev pub IsFileState : FileState → Type 0
IsFileState s =
    (s.size < 2 ^ 64)
    × (length s.hash ≡ 32)
    × ((s.chunk_size ≡ legacy_chunk_size) ⊎ (s.chunk_size ≡ default_chunk_size))

to_u64-to_i64 : (v : ℕ) → v < 2 ^ 64 → to_u64 (to_i64 v) ≡ v
unfolding to_u64
to_u64-to_i64 v h = ground arith

take_all : (b : Bytes) → take (length b) b ++ [] ≡ b
unfolding take
take_all [] = refl
take_all (x ∷ b) = ap (λ t. x ∷ t) (take_all b)

hash_array-same : (b : Bytes) → length b ≡ 32 → hash_array b ≡ b
unfolding hash_array
hash_array-same b h = rw h (subst (λ n. take n b ++ [] ≡ b) h (take_all b))

default_read :
    read_chunk_size (some (pos (trailing_zeros default_chunk_size))) ≡ ok default_chunk_size
unfolding read_chunk_size trailing_zeros trailing_zeros_below default_chunk_size
    chunk_size_from_log2 legacy_chunk_size
default_read = refl

-- The entries of a form without a chunk size are found under their keys.
four_read :
    (s : FileState)
    → (get r_key (build (four_entries s)) ≡ some (str s.rel_path))
      × (get m_key (build (four_entries s)) ≡ some (long s.modification_time))
      × (get s_key (build (four_entries s)) ≡ some (long (to_i64 s.size)))
      × (get h_key (build (four_entries s)) ≡ some (byte_string s.hash))
      × (get cs_key (build (four_entries s)) ≡ none)
unfolding four_entries get put build insert lookup as_map new_cbor_string cmp_cbor_string lex_cmp
    encode_utf16
four_read s = (refl, refl, refl, refl, refl)

-- The entries of a form with a chunk size.
five_read :
    (s : FileState) (c : CborObject)
    → (get r_key (build (put cs_key c (four_entries s))) ≡ some (str s.rel_path))
      × (get m_key (build (put cs_key c (four_entries s))) ≡ some (long s.modification_time))
      × (get s_key (build (put cs_key c (four_entries s))) ≡ some (long (to_i64 s.size)))
      × (get h_key (build (put cs_key c (four_entries s))) ≡ some (byte_string s.hash))
      × (get cs_key (build (put cs_key c (four_entries s))) ≡ some c)
unfolding four_entries get put build insert lookup as_map new_cbor_string cmp_cbor_string lex_cmp
    encode_utf16
five_read s c = (refl, refl, refl, refl, refl)

-- A form whose entries are those of a state reads as it, with the chunk size that is read.
read_entries :
    (s : FileState) (o : CborObject)
    → s.size < 2 ^ 64
    → length s.hash ≡ 32
    → get r_key o ≡ some (str s.rel_path)
    → get m_key o ≡ some (long s.modification_time)
    → get s_key o ≡ some (long (to_i64 s.size))
    → get h_key o ≡ some (byte_string s.hash)
    → read_chunk_size (and_then (get cs_key o) as_long) ≡ ok s.chunk_size
    → file_state_from_cbor o ≡ ok s
unfolding file_state_from_cbor as_string as_long as_bytes
read_entries s o size hash r m z h c =
    rw (file_state_from_cbor, c, r, m, z, h, to_u64-to_i64 s.size size, hash_array-same s.hash hash)
      refl

-- A state of which the size fits a u64 and the hash has 32 bytes comes back from its CBOR form, for each
-- of the two chunk sizes of the program, of which the form writes one.
pub file_state_from_cbor-file_state_to_cbor :
    (s : FileState) → IsFileState s → file_state_from_cbor (file_state_to_cbor s) ≡ ok s
unfolding file_state_to_cbor build
file_state_from_cbor-file_state_to_cbor s (size, hash, chunk) = elim chunk [
  | inl legacy ↦
      let (r, m, z, h, c) = four_read s in
      let form : file_state_to_cbor s ≡ build (four_entries s) =
        rw (file_state_to_cbor, legacy) refl in
      let read : read_chunk_size (and_then (get cs_key (build (four_entries s))) as_long)
          ≡ ok s.chunk_size =
        unfold read_chunk_size in rw (c, legacy) refl in
      rw form (read_entries s (build (four_entries s)) size hash r m z h read)
  | inr default ↦
      let zeros = long (pos (trailing_zeros s.chunk_size)) in
      let (r, m, z, h, c) = five_read s zeros in
      let form : file_state_to_cbor s ≡ build (put cs_key zeros (four_entries s)) =
        unfold default_chunk_size legacy_chunk_size in rw (file_state_to_cbor, default) refl in
      let read : read_chunk_size
            (and_then (get cs_key (build (put cs_key zeros (four_entries s)))) as_long)
          ≡ ok s.chunk_size =
        unfold as_long in rw (c, default) default_read in
      rw form (read_entries s (build (put cs_key zeros (four_entries s))) size hash r m z h read)
]
