-- ===== src/Cbor/Valid.antt =====
-- The values that the Rust types can hold: `i64` integers, bytes, UTF-8 texts, and maps whose keys
-- stand in the canonical order, each once.
use rust_peergos_client.Common.{◌≡◌, IsBytes, Ordering}
use rust_peergos_client.Common.Int.{IsI64}
use rust_peergos_client.Common.Text.{IsText}
use rust_peergos_client.Cbor.Object.{
  CborString, new_cbor_string, cmp_cbor_string, CborObject, long, boolean, byte_string, str, list,
  map, merkle_link, null, Objects, no_items, item, Entries, no_entries, entry,
}

-- A key made by `CborString::new` of a text.
pub record IsKey (k : CborString) : Type 0 where
  pub text : IsText k.value
  pub made : k ≡ new_cbor_string k.value

-- `k` comes before every key of the map, or after each of them.
abbrev pub Before : CborString → Entries → Type 0
Before k no_entries = Unit
Before k (entry j v m) = (cmp_cbor_string k j ≡ Ordering.lt) × Before k m

abbrev pub After : CborString → Entries → Type 0
After k no_entries = Unit
After k (entry j v m) = (cmp_cbor_string k j ≡ Ordering.gt) × After k m

abbrev pub IsSorted : Entries → Type 0
IsSorted no_entries = Unit
IsSorted (entry k v m) = Before k m × IsSorted m

abbrev mutual
  pub IsValid : CborObject → Type 0
  IsValid (long v) = IsI64 v
  IsValid (boolean b) = Unit
  IsValid (byte_string b) = IsBytes b
  IsValid (str s) = IsText s
  IsValid (list l) = AreValid l
  IsValid (map m) = IsSorted m × HasValid m
  IsValid (merkle_link b) = IsBytes b
  IsValid null = Unit

  pub AreValid : Objects → Type 0
  AreValid no_items = Unit
  AreValid (item x xs) = IsValid x × AreValid xs

  pub HasValid : Entries → Type 0
  HasValid no_entries = Unit
  HasValid (entry k v m) = IsKey k × IsValid v × HasValid m
