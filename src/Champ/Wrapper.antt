-- ===== src/Champ/Wrapper.antt =====
-- crates/peergos-core/src/champ.rs: `ChampWrapper`, a root node and the store that holds the tree.
use rust_peergos_client.Common.{ℕ, Option, Bytes, Result, ok, ◌>>=◌, ok_or}
use rust_peergos_client.Cbor.Object.{CborObject}
use rust_peergos_client.Multiformats.Cid.{Cid}
use rust_peergos_client.Champ.Node.{Champ, ChampError, child_missing}
use rust_peergos_client.Champ.NodeCbor.{from_cbor}
use rust_peergos_client.Champ.Tree.{Storage}
use rust_peergos_client.Champ.Tree
use rust_peergos_client.Champ.Write

-- `BIT_WIDTH` and `MAX_HASH_COLLISIONS_PER_LEVEL`.
abbrev pub bit_width : ℕ
bit_width = 3

abbrev pub max_hash_collisions_per_level : ℕ
max_hash_collisions_per_level = 4

-- The wrapper and the state of its store.
pub record ChampWrapper (S : Type 0) : Type 0 where
  pub root : Champ
  pub root_hash : Cid
  pub store : S

-- `fuel` bounds the levels that a call goes down.
module _ {S : Type 0} (storage : Storage S) (key_hasher : Bytes → Bytes) (fuel : ℕ) where
  unfoldable pub get : ChampWrapper S → Bytes → Result ChampError (Option CborObject)
  get self raw_key =
      Tree.get storage bit_width fuel self.store self.root raw_key (key_hasher raw_key) 0

  unfoldable pub put :
      ChampWrapper S
      → Bytes
      → Option CborObject
      → Option CborObject
      → Result ChampError (ChampWrapper S × Cid)
  put self raw_key expected value =
      Write.put storage bit_width max_hash_collisions_per_level key_hasher fuel self.store self.root
        raw_key (key_hasher raw_key) 0 expected value self.root_hash
      >>= λ (s, (new_root, new_root_hash)).
          ok (record { root = new_root; root_hash = new_root_hash; store = s }, new_root_hash)

  unfoldable pub remove :
      ChampWrapper S → Bytes → Option CborObject → Result ChampError (ChampWrapper S × Cid)
  remove self raw_key expected =
      Write.remove storage bit_width max_hash_collisions_per_level key_hasher fuel self.store
        self.root raw_key (key_hasher raw_key) 0 expected self.root_hash
      >>= λ (s, (new_root, new_root_hash)).
          ok (record { root = new_root; root_hash = new_root_hash; store = s }, new_root_hash)

module _ {S : Type 0} (storage : Storage S) where
  unfoldable pub create : S → Cid → Result ChampError (ChampWrapper S)
  create s root_hash = storage.get_block s root_hash >>= λ block.
      ok_or block child_missing >>= λ raw.
      from_cbor raw >>= λ root. ok record { root = root; root_hash = root_hash; store = s }

  unfoldable pub size : ℕ → ChampWrapper S → Result ChampError ℕ
  size fuel self = Tree.size storage fuel self.store self.root
