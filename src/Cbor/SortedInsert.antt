-- ===== src/Cbor/SortedInsert.antt =====
-- Inserting a new key keeps a map in canonical order.
use rust_peergos_client.Common.{
  suc, ◌+◌, ◌≡◌, refl, arith, none, [], ◌++◌, length, length-append, Ordering,
}
use rust_peergos_client.Cbor.Object.{
  CborString, cmp_cbor_string, CborObject, Entries, no_entries, entry,
}
use rust_peergos_client.Cbor.BtreeMap.{insert, lookup, len}
use rust_peergos_client.Cbor.Encode.{write_object, write_string, write_entries}
use rust_peergos_client.Cbor.Valid.{IsKey, Before, IsSorted, IsValid, HasValid}
use rust_peergos_client.Cbor.KeyOrder.{cmp-flip_gt, cmp_trans}

Ordering-cases :
    {A : Type 0} (o : Ordering)
    → (o ≡ Ordering.lt → A)
    → (o ≡ Ordering.eq → A)
    → (o ≡ Ordering.gt → A)
    → A
Ordering-cases Ordering.lt l e g = l refl
Ordering-cases Ordering.eq l e g = e refl
Ordering-cases Ordering.gt l e g = g refl

Before-trans :
    (k j : CborString) (m : Entries) → cmp_cbor_string k j ≡ Ordering.lt → Before j m → Before k m
Before-trans k j no_entries h b = tt
Before-trans k j (entry i v m) h b = (cmp_trans k j i h b.0, Before-trans k j m h b.1)

Before-insert :
    (j k : CborString) (v : CborObject) (m : Entries)
    → cmp_cbor_string j k ≡ Ordering.lt
    → Before j m
    → Before j (insert k v m)
unfolding insert
Before-insert j k v no_entries h b = (h, tt)
Before-insert j k v (entry i w m) h b =
    Ordering-cases (cmp_cbor_string k i) (λ e. rw (e, insert) (h, b))
      (λ e. rw (e, insert) (b.0, b.1)) (λ e. rw (e, insert) (b.0, Before-insert j k v m h b.1))

pub insert-IsSorted :
    (k : CborString) (v : CborObject) (m : Entries) → IsSorted m → IsSorted (insert k v m)
unfolding insert
insert-IsSorted k v no_entries h = (tt, tt)
insert-IsSorted k v (entry j w m) h =
    Ordering-cases (cmp_cbor_string k j) (λ e. rw (e, insert) ((e, Before-trans k j m e h.0), h))
      (λ e. rw (e, insert) (h.0, h.1))
      (λ e.
        rw (e, insert) (Before-insert j k v m (cmp-flip_gt k j e) h.0, insert-IsSorted k v m h.1))

pub insert-HasValid :
    (k : CborString) (v : CborObject) (m : Entries)
    → IsKey k
    → IsValid v
    → HasValid m
    → HasValid (insert k v m)
unfolding insert
insert-HasValid k v no_entries hk hv h = (hk, hv, tt)
insert-HasValid k v (entry j w m) hk hv h =
    Ordering-cases (cmp_cbor_string k j) (λ e. rw (e, insert) (hk, hv, h))
      (λ e. rw (e, insert) (h.0, hv, h.2))
      (λ e. rw (e, insert) (h.0, h.1, insert-HasValid k v m hk hv h.2))

-- The encoding grows by the new entry.
pub length-insert :
    (k : CborString) (v : CborObject) (m : Entries)
    → lookup k m ≡ none
    → length (write_entries (insert k v m))
      ≡ length (write_string 3 k.value) + length (write_object v) + length (write_entries m)
unfolding insert lookup write_object
length-insert k v no_entries h = omega (
  arith,
  length-append (write_string 3 k.value) (write_object v ++ []),
  length-append (write_object v) [],
)
length-insert k v (entry j w m) h =
    let old = length-append (write_string 3 j.value) (write_object w ++ write_entries m) in
    let old_value = length-append (write_object w) (write_entries m) in
    ground (
      arith,
      old,
      old_value,
      length-append (write_string 3 k.value)
          (write_object v ++ (write_string 3 j.value ++ (write_object w ++ write_entries m))),
      length-append (write_object v)
          (write_string 3 j.value ++ (write_object w ++ write_entries m)),
      length-append (write_string 3 j.value) (write_object w ++ write_entries (insert k v m)),
      length-append (write_object w) (write_entries (insert k v m)),
      length-insert k v m,
    )

pub len-insert :
    (k : CborString) (v : CborObject) (m : Entries)
    → lookup k m ≡ none
    → len (insert k v m) ≡ suc (len m)
unfolding insert lookup len
len-insert k v no_entries h = refl
len-insert k v (entry j w m) h = ground (arith, len-insert k v m)
