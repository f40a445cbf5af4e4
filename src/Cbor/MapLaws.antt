-- ===== src/Cbor/MapLaws.antt =====
-- The map builder: what `put` stores, `get` finds, and the order of insertion leaves no trace.
use rust_peergos_client.Common.{◌≡◌, ◌≢◌, refl, arith, some, Ordering}
use rust_peergos_client.Common.Text.{Text, IsText, encode_utf16}
use rust_peergos_client.Cbor.Object.{
  CborString, new_cbor_string, cmp_cbor_string, CborObject, Entries, no_entries, entry,
}
use rust_peergos_client.Cbor.BtreeMap.{insert, lookup, get, put, build}
use rust_peergos_client.Cbor.Valid.{IsValid}
use rust_peergos_client.Cbor.SortedInsert.{insert-IsSorted, insert-HasValid}
use rust_peergos_client.Cbor.KeyOrder.{
  cmp-flip_lt, cmp-flip_gt, cmp-eq_utf16, cmp-of_utf16, cmp_trans,
}

-- Keys that compare equal compare alike with every other key.
cmp-congr :
    (a b c : CborString)
    → cmp_cbor_string a b ≡ Ordering.eq
    → (cmp_cbor_string a c ≡ cmp_cbor_string b c) × (cmp_cbor_string c a ≡ cmp_cbor_string c b)
unfolding cmp_cbor_string
cmp-congr a b c h = let e = cmp-eq_utf16 a b h in (rw e, rw e)

lookup-insert_self :
    (k : CborString) (v : CborObject) (m : Entries) → lookup k (insert k v m) ≡ some v
unfolding lookup insert
lookup-insert_self k v no_entries = ground (arith, cmp-of_utf16 k k)
lookup-insert_self k v (entry j w m) = ground (arith, cmp-of_utf16 k k, lookup-insert_self k v m)

lookup-insert_ne :
    (j k : CborString) (v : CborObject) (m : Entries)
    → cmp_cbor_string j k ≢ Ordering.eq
    → lookup j (insert k v m) ≡ lookup j m
unfolding lookup insert
lookup-insert_ne j k v no_entries h = ground arith
lookup-insert_ne j k v (entry i w m) h =
    ground (arith, lookup-insert_ne j k v m h, cmp_trans j k i, cmp-flip_lt j i, cmp-congr k i j)

insert_comm :
    (j k : CborString) (v w : CborObject) (m : Entries)
    → cmp_cbor_string j k ≢ Ordering.eq
    → insert j v (insert k w m) ≡ insert k w (insert j v m)
unfolding insert
insert_comm j k v w no_entries h = ground (arith, cmp-flip_lt j k, cmp-flip_gt j k)
insert_comm j k v w (entry i x m) h = ground (
  arith,
  insert_comm j k v w m h,
  cmp-flip_lt j k,
  cmp-flip_gt j k,
  cmp_trans j k i,
  cmp_trans k j i,
  cmp-flip_lt j i,
  cmp-flip_lt k i,
  cmp-flip_gt j i,
  cmp-flip_gt k i,
  cmp_trans j i k,
  cmp_trans k i j,
  cmp-congr k i j,
  cmp-congr j i k,
)

cmp_ne :
    (a b : Text)
    → encode_utf16 a ≢ encode_utf16 b
    → cmp_cbor_string (new_cbor_string a) (new_cbor_string b) ≢ Ordering.eq
unfolding new_cbor_string
cmp_ne a b h e = h (cmp-eq_utf16 (new_cbor_string a) (new_cbor_string b) e)

-- `get` finds what `put` stored last under the key, and every key with other UTF-16 units reads as
-- it did before.
pub get-put :
    (key other : Text) (v : CborObject) (m : Entries)
    → encode_utf16 other ≢ encode_utf16 key
    → (get key (build (put key v m)) ≡ some v)
      × (get other (build (put key v m)) ≡ get other (build m))
unfolding get put build
get-put key other v m h = (
  lookup-insert_self (new_cbor_string key) v m,
  lookup-insert_ne (new_cbor_string other) (new_cbor_string key) v m (cmp_ne other key h),
)

-- Entries put under keys with different UTF-16 units build the same map in either order.
pub put_comm :
    (a b : Text) (v w : CborObject) (m : Entries)
    → encode_utf16 a ≢ encode_utf16 b
    → put a v (put b w m) ≡ put b w (put a v m)
unfolding put
put_comm a b v w m h = insert_comm (new_cbor_string a) (new_cbor_string b) v w m (cmp_ne a b h)

-- `put` of a valid value under a text key keeps a map valid, so its entries stay in canonical order.
pub put-IsValid :
    (key : Text) (v : CborObject) (m : Entries)
    → IsText key
    → IsValid v
    → IsValid (build m)
    → IsValid (build (put key v m))
unfolding put build new_cbor_string
put-IsValid key v m ht hv hm = (
  insert-IsSorted (new_cbor_string key) v m hm.0,
  insert-HasValid (new_cbor_string key) v m (record { text = ht; made = refl }) hv hm.1,
)
