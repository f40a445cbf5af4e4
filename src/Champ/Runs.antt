-- ===== src/Champ/Runs.antt =====
-- Runs of nodes and bitmaps, and the theorems at concrete inputs.
use rust_peergos_client.Common.{
  ◌≡◌, refl, ℕ, suc, true, IsBytes, arith, inl, none, some, [], ◌∷◌, ok,
}
use rust_peergos_client.Common.Int.{pos}
use rust_peergos_client.Cbor.Object.{
  CborObject, long, list, byte_string, no_items, item, merkle_link, lex_cmp,
}
use rust_peergos_client.Multiformats.Varint.{put_uvarint}
use rust_peergos_client.Multiformats.Multihash
use rust_peergos_client.Multiformats.Multihash.{Multihash, id, index, new_multihash}
use rust_peergos_client.Multiformats.Cid.{Cid, dag_cbor, to_bytes, to_bytes_v1, code}
use rust_peergos_client.Champ.Bitmap.{
  bit_set, bit_clear, bit_get, get_index, mask, resize, update_at, pop_zeros, byte_array_compare,
}
use rust_peergos_client.Champ.Tree.{Storage, get, write}
use rust_peergos_client.Champ.Write.{put}
use rust_peergos_client.Champ.PutGet.{get-put_inline}
use rust_peergos_client.Champ.Node.{
  mappings, link, Champ, empty, with_contents, add_new_prefix, insert_into_prefix, remove_mapping,
  insert_at, set_at, remove_at, sort_by_key, insert_sorted,
}
use rust_peergos_client.Champ.NodeCbor.{
  to_cbor, to_cbor_list, from_cbor, serialize, write_contents, write_payload, write_pairs,
}
use rust_peergos_client.Champ.NodeRoundTrip.{IsNode, from_cbor-to_cbor}

set_and_clear : bit_clear (bit_set (bit_set [] 3) 9) 9 ≡ 8 ∷ []
unfolding bit_set bit_clear resize update_at pop_zeros
set_and_clear = refl

second_index : get_index (bit_set (bit_set [] 3) 9) 9 ≡ 1
unfolding bit_set get_index bit_get resize update_at
second_index = refl

-- The third index of three bits spans two bytes.
mask_across : mask (0x80 ∷ 0x01 ∷ []) 2 3 ≡ 6
unfolding mask
mask_across = refl

abbrev sample_link : Cid
sample_link = record {
  version = 1;
  codec = dag_cbor;
  multihash = record { hash_type = id; hash = 5 ∷ 6 ∷ [] };
}

abbrev sample : Champ
sample = record {
  data_map = 8 ∷ [];
  node_map = 1 ∷ [];
  contents =
      mappings (record { key = 7 ∷ []; value = some (long (pos 1)) } ∷ []) ∷ link sample_link ∷ [];
  mirror_bat = none;
}

one_key :
    add_new_prefix empty 3 (7 ∷ []) none
    ≡ ok record {
      data_map = 8 ∷ [];
      node_map = [];
      contents = mappings (record { key = 7 ∷ []; value = none } ∷ []) ∷ [];
      mirror_bat = none;
    }
unfolding add_new_prefix empty insert_at with_contents bit_set get_index resize update_at bit_get
one_key = refl

-- A second key of the slot goes before a longer one.
two_keys :
    insert_into_prefix sample 0 (9 ∷ []) none
    ≡ ok record {
      data_map = 8 ∷ [];
      node_map = 1 ∷ [];
      contents =
          mappings (
            record { key = 7 ∷ []; value = some (long (pos 1)) }
            ∷ record { key = 9 ∷ []; value = none }
            ∷ [])
          ∷ link sample_link
          ∷ [];
      mirror_bat = none;
    }
unfolding insert_into_prefix set_at with_contents sort_by_key insert_sorted byte_array_compare
    lex_cmp
two_keys = refl

last_removed :
    remove_mapping sample 3 0
    ≡ ok record {
      data_map = [];
      node_map = 1 ∷ [];
      contents = link sample_link ∷ [];
      mirror_bat = none;
    }
unfolding remove_mapping remove_at with_contents bit_clear pop_zeros update_at get_index bit_get
last_removed = refl

abbrev sample_cbor : CborObject
sample_cbor = list (
    item (byte_string (8 ∷ [])) (
      item (byte_string (1 ∷ [])) (
        item
          (list (
            item (list (item (byte_string (7 ∷ [])) (item (long (pos 1)) no_items)))
              (item (merkle_link (1 ∷ 0x71 ∷ 0 ∷ 2 ∷ 5 ∷ 6 ∷ [])) no_items)))
          no_items)))

sample_written : to_cbor sample ≡ ok sample_cbor
unfolding to_cbor to_cbor_list write_contents write_payload write_pairs to_bytes to_bytes_v1 code
    Multihash.to_bytes put_uvarint
sample_written = refl

sample-IsNode : IsNode sample
unfolding new_multihash
sample-IsNode = ((((λ h. ground arith), tt), ((refl, inl refl), tt)), tt)

from_cbor-to_cbor_example : from_cbor sample_cbor ≡ ok sample
from_cbor-to_cbor_example = from_cbor-to_cbor sample sample_cbor sample-IsNode sample_written

-- A store that keeps nothing and names every block alike: the number of writes is its state.
abbrev counting : Storage ℕ
counting = record { get_block = λ s c. ok none; put_block = λ s bytes. ok (suc s, sample_link) }

abbrev one_entry : Champ
one_entry = record {
  data_map = 8 ∷ [];
  node_map = [];
  contents = mappings (record { key = 3 ∷ []; value = some (long (pos 1)) } ∷ []) ∷ [];
  mirror_bat = none;
}

put_one :
    put counting 3 4 (λ k. k) 1 0 empty (3 ∷ []) (3 ∷ []) 0 none (some (long (pos 1))) sample_link
    ≡ ok (1, (one_entry, sample_link))
unfolding put mask bit_get get_index empty add_new_prefix insert_at with_contents bit_set resize
    update_at write serialize to_cbor to_cbor_list write_contents write_payload write_pairs
put_one = refl

one_entry_inline : bit_get one_entry.data_map (mask (3 ∷ []) 0 3) ≡ true
unfolding bit_get mask
one_entry_inline = refl

empty-IsBytes : IsBytes empty.data_map
unfolding empty
empty-IsBytes = tt

get-put_inline_example : get counting 3 1 0 one_entry (3 ∷ []) (3 ∷ []) 0 ≡ ok (some (long (pos 1)))
get-put_inline_example =
    get-put_inline counting 3 4 (λ k. k) 1 0 0 1 0 empty one_entry sample_link (3 ∷ []) (3 ∷ []) 0
      none (some (long (pos 1))) sample_link empty-IsBytes put_one one_entry_inline
