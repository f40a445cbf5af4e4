-- ===== src/Champ/Equal.antt =====
-- crates/peergos-cbor/src/lib.rs and crates/peergos-multiformats/src/lib.rs: the derived `==` of
-- CBOR values and of CIDs.
use rust_peergos_client.Common.{Bool, true, false, ◌&&◌, Option, none, some, ◌==◌}
use rust_peergos_client.Common.Int.{eqb_ℤ}
use rust_peergos_client.Common.Equality.{eq_bytes}
use rust_peergos_client.Cbor.Object.{
  CborObject, Objects, Entries, long, boolean, byte_string, str, list, map, merkle_link, null,
  no_items, item, no_entries, entry,
}
use rust_peergos_client.Multiformats.Multihash.{index}
use rust_peergos_client.Multiformats.Cid.{Cid, code}

abbrev pub eq_bool : Bool → Bool → Bool
eq_bool true b = b
eq_bool false true = false
eq_bool false false = true

unfoldable mutual
  unfolding eq_bytes

  pub eq_object : CborObject → CborObject → Bool
  eq_object (long a) (long b) = eqb_ℤ a b
  eq_object (boolean a) (boolean b) = eq_bool a b
  eq_object (byte_string a) (byte_string b) = eq_bytes a b
  eq_object (str a) (str b) = eq_bytes a b
  eq_object (list a) (list b) = eq_items a b
  eq_object (map a) (map b) = eq_entries a b
  eq_object (merkle_link a) (merkle_link b) = eq_bytes a b
  eq_object null null = true
  eq_object _ _ = false

  pub eq_items : Objects → Objects → Bool
  eq_items no_items no_items = true
  eq_items (item a as') (item b bs) = eq_object a b && eq_items as' bs
  eq_items _ _ = false

  -- Keys are equal by value.
  pub eq_entries : Entries → Entries → Bool
  eq_entries no_entries no_entries = true
  eq_entries (entry j a m) (entry k b n) =
      eq_bytes j.value k.value && (eq_object a b && eq_entries m n)
  eq_entries _ _ = false

unfoldable pub eq_value : Option CborObject → Option CborObject → Bool
unfolding eq_object
eq_value none none = true
eq_value (some a) (some b) = eq_object a b
eq_value _ _ = false

unfoldable pub eq_cid : Cid → Cid → Bool
unfolding eq_bytes
eq_cid a b =
    a.version == b.version
    && (code a.codec == code b.codec
        && (index a.multihash.hash_type == index b.multihash.hash_type
            && eq_bytes a.multihash.hash b.multihash.hash))
