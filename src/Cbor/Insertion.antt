-- ===== src/Cbor/Insertion.antt =====
-- A key after all others is inserted at the end of a map.
use rust_peergos_client.Common.{◌≡◌, refl, ap, none, ok, Ordering}
use rust_peergos_client.Cbor.Object.{
  CborString, cmp_cbor_string, CborObject, Entries, no_entries, entry,
}
use rust_peergos_client.Cbor.BtreeMap.{insert, lookup}
use rust_peergos_client.Cbor.Decode.{insert_new}
use rust_peergos_client.Cbor.Valid.{Before, After}
use rust_peergos_client.Cbor.KeyOrder.{cmp-flip_lt}

abbrev pub join : Entries → Entries → Entries
join no_entries e = e
join (entry k v m) e = entry k v (join m e)

pub join-no_entries : (m : Entries) → join m no_entries ≡ m
join-no_entries no_entries = refl
join-no_entries (entry k v m) = ap (entry k v) (join-no_entries m)

pub join_entry :
    (m : Entries) (k : CborString) (v : CborObject) (e : Entries)
    → join (join m (entry k v no_entries)) e ≡ join m (entry k v e)
join_entry no_entries k v e = refl
join_entry (entry j w m) k v e = ap (entry j w) (join_entry m k v e)

-- Every key of `e` comes after every key of `m`.
abbrev pub Follows : Entries → Entries → Type 0
Follows m no_entries = Unit
Follows m (entry k v e) = After k m × Follows m e

pub Follows-no_entries : (e : Entries) → Follows no_entries e
Follows-no_entries no_entries = tt
Follows-no_entries (entry k v e) = (tt, Follows-no_entries e)

After-join :
    (j k : CborString) (v : CborObject) (m : Entries)
    → After j m
    → cmp_cbor_string k j ≡ Ordering.lt
    → After j (join m (entry k v no_entries))
After-join j k v no_entries h e = (cmp-flip_lt k j e, tt)
After-join j k v (entry i w m) h e = (h.0, After-join j k v m h.1 e)

pub Follows-join :
    (m : Entries) (k : CborString) (v : CborObject) (e : Entries)
    → Follows m e
    → Before k e
    → Follows (join m (entry k v no_entries)) e
Follows-join m k v no_entries h b = tt
Follows-join m k v (entry j w e) h b = (After-join j k v m h.0 b.0, Follows-join m k v e h.1 b.1)

lookup-After : (k : CborString) (m : Entries) → After k m → lookup k m ≡ none
unfolding lookup
lookup-After k no_entries h = refl
lookup-After k (entry j v m) h = rw (h.0, lookup) (lookup-After k m h.1)

insert-After :
    (k : CborString) (v : CborObject) (m : Entries)
    → After k m
    → insert k v m ≡ join m (entry k v no_entries)
unfolding insert
insert-After k v no_entries h = refl
insert-After k v (entry j w m) h = rw (h.0, insert) (ap (entry j w) (insert-After k v m h.1))

pub insert_new-After :
    (k : CborString) (v : CborObject) (m : Entries)
    → After k m
    → insert_new k v m ≡ ok (join m (entry k v no_entries))
unfolding insert_new
insert_new-After k v m h = rw (lookup-After k m h, insert_new) (ap ok (insert-After k v m h))
