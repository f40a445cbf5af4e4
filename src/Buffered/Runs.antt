-- ===== src/Buffered/Runs.antt =====
-- Runs of the buffered store and pointers, and the theorems at concrete inputs.
use rust_peergos_client.Common.{
  ℕ, suc, zero, ◌≡◌, refl, sym, ap, ◌∙◌, arith, Bool, true, false, Option, none, some, List, [],
  ◌∷◌, ◌++◌, Bytes, take, Result, ok, ◌>>=◌, All, Yields,
}
use rust_peergos_client.Multiformats.Multihash.{Multihash, sha2_256, new_multihash, hash_length}
use rust_peergos_client.Multiformats.Cid.{
  Cid, raw, dag_cbor, cast, is_v0, cast_tagged, code, lookup_codec,
}
use rust_peergos_client.Multiformats.Multihash
use rust_peergos_client.Multiformats.Varint.{read_uvarint, read_loop}
use rust_peergos_client.Cbor.Object.{links, collect_links}
use rust_peergos_client.Cbor.Decode.{
  from_bytes, deserialize_all, deserialize, dispatch, read_tagged, read_byte_string,
  read_major_type, read_major_type_with_size, read_uint, read_int, peek_major, peek_additional,
  read_u8, read_n, big_endian,
}
use rust_peergos_client.Common.Equality.{eq_bytes}
use rust_peergos_client.Champ.Equal.{eq_cid}
use rust_peergos_client.Buffered.SameCid.{eq_cid_refl, eq_cid_sound}
use rust_peergos_client.Buffered.CidMap.{CidMap, lookup}
use rust_peergos_client.Buffered.Cache.{is_in}
use rust_peergos_client.Buffered.Storage.{
  BufferError, PublicKeyHash, BufferedBlock, BufferedStorage, is_buffered, get_raw,
}
use rust_peergos_client.Buffered.Reads.{IsCoherent, view, Reads, get_raw-view}
use rust_peergos_client.Buffered.Batches.{nothing, cbor_batches}
use rust_peergos_client.Buffered.BatchLaws.{
  blocks_of, items_blocks, IsCborBatch, cbor_batches_whole,
}
use rust_peergos_client.Buffered.Reachable.{
  block_links, links_of, cast_all, keep_reachable, reachable,
}
use rust_peergos_client.Buffered.Closed.{BufferedIn, LinksIn, reachable-LinksIn, reachable_least}
use rust_peergos_client.Buffered.Flush.{group_blocks, no_groups, batches_of}
use rust_peergos_client.Buffered.Uploaded.{count, count_kept, batches_of-count_kept}

abbrev zeros : ℕ → Bytes
zeros zero = []
zeros (suc n) = 0 ∷ zeros n

-- A hash for the runs: the first 32 bytes.
abbrev first_bytes : Bytes → Bytes
first_bytes b = take 32 (b ++ zeros 32)

abbrev cid_of : Bytes → Bool → Cid
cid_of b is_raw = record {
  version = 1;
  codec = elim is_raw [ true ↦ raw | false ↦ dag_cbor ];
  multihash = record { hash_type = sha2_256; hash = first_bytes b };
}

abbrev user : PublicKeyHash
user = cid_of (9 ∷ []) true

-- A raw block, and a block that links to it.
abbrev leaf : Bytes
leaf = 1 ∷ []

abbrev parent : Bytes
parent = 0xd8 ∷ 0x2a ∷ 0x58 ∷ 37 ∷ 0 ∷ 1 ∷ 0x55 ∷ 0x12 ∷ 32 ∷ first_bytes leaf

abbrev buffered : Bytes → Bool → BufferedBlock
buffered b r = record { block = b; signature = 7 ∷ []; owner = user; writer = user; is_raw = r }

abbrev two_blocks : CidMap BufferedBlock
two_blocks =
    (cid_of parent false, buffered parent false) ∷ (cid_of leaf true, buffered leaf true) ∷ []

parent_links : block_links (buffered parent false) ≡ cid_of leaf true ∷ []
unfolding block_links links_of cast_all take from_bytes deserialize_all deserialize dispatch
    read_tagged read_byte_string read_major_type read_major_type_with_size read_uint read_int
    peek_major peek_additional read_u8 read_n big_endian links collect_links cast is_v0 cast_tagged
    Multihash.deserialize Multihash.lookup read_uvarint read_loop new_multihash hash_length
    lookup_codec
parent_links = refl

reachable-LinksIn_example :
    (kept : List Cid) × (reachable two_blocks (cid_of parent false ∷ []) ≡ some kept)
    × BufferedIn two_blocks (cid_of parent false ∷ []) kept
    × LinksIn two_blocks kept kept
reachable-LinksIn_example = reachable-LinksIn two_blocks (cid_of parent false ∷ [])

-- Only the leaf is reachable from itself.
leaf_only : reachable two_blocks (cid_of leaf true ∷ []) ≡ some (cid_of leaf true ∷ [])
unfolding reachable keep_reachable block_links links_of cast_all from_bytes deserialize_all
    deserialize dispatch read_tagged read_byte_string read_major_type read_major_type_with_size
    read_uint read_int peek_major peek_additional read_u8 read_n big_endian links collect_links cast
    is_v0 cast_tagged Multihash.deserialize Multihash.lookup Multihash.index read_uvarint read_loop
    new_multihash hash_length lookup_codec lookup is_in eq_cid code eq_bytes take
leaf_only = refl

abbrev is_leaf : Cid → Bool
is_leaf c = eq_cid (cid_of leaf true) c

leaf_found : lookup (cid_of leaf true) two_blocks ≡ some (buffered leaf true)
unfolding lookup eq_cid code Multihash.index eq_bytes take
leaf_found = refl

raw_links : (y : Cid) → is_in y (block_links (buffered leaf true)) ≡ true → is_leaf y ≡ true
unfolding block_links links_of is_in
raw_links y j = cc

leaf_linked :
    (c : Cid) (b : BufferedBlock)
    → is_leaf c ≡ true
    → lookup c two_blocks ≡ some b
    → (x : Cid) → is_in x (block_links b) ≡ true
    → is_buffered (lookup x two_blocks) ≡ true
    → is_leaf x ≡ true
leaf_linked c b t e x i p =
    let same = eq_cid_sound (cid_of leaf true) c t in
    let block : some (buffered leaf true) ≡ some b =
      sym leaf_found ∙ (ap (λ d. lookup d two_blocks) same ∙ e) in
    let none_linked : is_in x (block_links (buffered leaf true)) ≡ true = cc in
    raw_links x none_linked

leaf_root :
    (x : Cid)
    → is_in x (cid_of leaf true ∷ []) ≡ true
    → is_buffered (lookup x two_blocks) ≡ true
    → is_leaf x ≡ true
unfolding is_in
leaf_root x i p = ground (arith, i)

leaf_kept : is_in (cid_of leaf true) (cid_of leaf true ∷ []) ≡ true
unfolding is_in
leaf_kept = ground (arith, eq_cid_refl (cid_of leaf true))

reachable_least_example : is_leaf (cid_of leaf true) ≡ true
reachable_least_example =
    reachable_least two_blocks is_leaf leaf_linked (cid_of leaf true ∷ []) (cid_of leaf true ∷ [])
      leaf_only leaf_root (cid_of leaf true) leaf_kept

abbrev half_store : BufferedStorage
half_store = record {
  buffer = (cid_of leaf true, buffered leaf true) ∷ [];
  cache = record { map = []; order = []; cap = 10 };
}

-- The target has the parent only.
abbrev fetch : Cid → Result BufferError (Option Bytes)
fetch c = elim (eq_cid c (cid_of parent false)) as (λ o. Result BufferError (Option Bytes)) [
  | true ↦ ok (some parent)
  | false ↦ ok none
]

coherent : IsCoherent fetch half_store.cache
unfolding lookup
coherent c d e = cc

get_raw-view_example :
    ((get_raw fetch half_store (cid_of parent false) >>= λ (self, d). ok d)
      ≡ view fetch half_store.buffer (cid_of parent false))
    × Yields (Reads fetch half_store) (get_raw fetch half_store (cid_of parent false))
get_raw-view_example = get_raw-view fetch half_store (cid_of parent false) coherent

abbrev empty_store : BufferedStorage
empty_store = record { buffer = []; cache = record { map = []; order = []; cap = 10 } }

abbrev full_store : BufferedStorage
full_store = record {
  buffer =
      (cid_of (2 ∷ []) true, buffered (2 ∷ []) true) ∷ (cid_of leaf true, buffered leaf true) ∷ [];
  cache = record { map = []; order = []; cap = 10 };
}

abbrev items : List (Bytes × Bytes)
items = (7 ∷ [], leaf) ∷ (8 ∷ [], 2 ∷ []) ∷ []

cbor_batches_whole_example :
    (blocks_of (cbor_batches user nothing items) ≡ items_blocks items)
    × All IsCborBatch (cbor_batches user nothing items)
cbor_batches_whole_example = cbor_batches_whole user items

batches_of-count_kept_example :
    count leaf (blocks_of (batches_of (group_blocks (cid_of leaf true ∷ []) two_blocks no_groups)))
    ≡ count_kept leaf (cid_of leaf true ∷ []) two_blocks
batches_of-count_kept_example = batches_of-count_kept leaf (cid_of leaf true ∷ []) two_blocks
