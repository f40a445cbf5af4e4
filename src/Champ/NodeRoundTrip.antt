-- ===== src/Champ/NodeRoundTrip.antt =====
-- crates/peergos-core/src/champ.rs: a node comes back from its CBOR form.
use rust_peergos_client.Common.{
  ◌*◌, ◌%◌, ◌≡◌, ◌≢◌, refl, sym, ap, ◌∙◌, arith, Option, none, some, List, [], ◌∷◌, Bytes, length,
  ok, ◌>>=◌, >>=-eq_ok, Option-cases, inl, inr,
}
use mathlib.Core.Path.{subst}
use rust_peergos_client.Cbor.Object.{
  CborObject, Objects, no_items, item, list, null, byte_string, merkle_link, no_entries, as_bytes,
  as_list, as_map, new_cbor_string, cmp_cbor_string, lex_cmp,
}
use rust_peergos_client.Cbor.BtreeMap.{get, put, build, insert, lookup}
use rust_peergos_client.Cbor.Encode.{count}
use rust_peergos_client.Common.Text.{encode_utf16}
use rust_peergos_client.Multiformats.Cid.{Cid, to_bytes}
use rust_peergos_client.Multiformats.Cid.RoundTrip.{IsCid, cast-to_bytes}
use rust_peergos_client.Champ.Node.{KeyElement, Payload, mappings, link, BatId, Champ, with_bat}
use rust_peergos_client.Champ.NodeCbor.{
  bats, d_key, cast_cid, bat_id_from_cbor, bat_id_to_cbor, read_pairs, read_payload, read_contents,
  read_three, read_list, from_cbor_list, first_bat, from_cbor, write_pairs, write_payload,
  write_contents, to_cbor_list, to_cbor, value_or_null, value_of,
}

-- No stored value is CBOR's null, which stands for an absent one.
abbrev pub HasValue : Option CborObject → Type 0
HasValue none = Unit
HasValue (some v) = v ≢ null

abbrev pub HasValues : List KeyElement → Type 0
HasValues [] = Unit
HasValues (e ∷ es) = HasValue e.value × HasValues es

abbrev pub IsPayload : Payload → Type 0
IsPayload (mappings ms) = HasValues ms
IsPayload (link c) = IsCid c

abbrev pub ArePayloads : List Payload → Type 0
ArePayloads [] = Unit
ArePayloads (p ∷ ps) = IsPayload p × ArePayloads ps

abbrev pub IsBat : Option BatId → Type 0
IsBat none = Unit
IsBat (some bat) = IsCid bat.id

-- The links and the bat are CIDs that the program makes, and no value is null.
abbrev pub IsNode : Champ → Type 0
IsNode n = ArePayloads n.contents × IsBat n.mirror_bat

value_of-or_null : (v : Option CborObject) → HasValue v → value_of (value_or_null v) ≡ v
value_of-or_null none h = refl
value_of-or_null (some v) h = ground (arith, h)

read_pairs-write_pairs : (ms : List KeyElement) → HasValues ms → read_pairs (write_pairs ms) ≡ ok ms
unfolding read_pairs write_pairs as_bytes
read_pairs-write_pairs [] h = refl
read_pairs-write_pairs (m ∷ ms) h =
    rw (read_pairs-write_pairs ms h.1, value_of-or_null m.value h.0) refl

count-write_pairs : (ms : List KeyElement) → count (write_pairs ms) ≡ 2 * length ms
unfolding write_pairs
count-write_pairs [] = refl
count-write_pairs (m ∷ ms) = omega (arith, count-write_pairs ms)

cast_cid-to_bytes :
    (c : Cid) (bytes : Bytes) → IsCid c → to_bytes c ≡ some bytes → cast_cid bytes ≡ ok c
unfolding cast_cid
cast_cid-to_bytes c bytes h e = rw (cast_cid, cast-to_bytes c bytes h e) refl

read_payload-write_payload :
    (p : Payload) (o : CborObject) → IsPayload p → write_payload p ≡ ok o → read_payload o ≡ ok p
unfolding write_payload read_payload
read_payload-write_payload (mappings ms) o h e =
    let form : list (write_pairs ms) ≡ o = cc in rw (sym form) (read_mappings ms h)
  where
    read_mappings :
        (ms : List KeyElement)
        → HasValues ms
        → read_payload (list (write_pairs ms)) ≡ ok (mappings ms)
    read_mappings ms h =
        let even : count (write_pairs ms) % 2 ≡ 0 = omega (arith, count-write_pairs ms) in
        rw (read_payload, even, read_pairs-write_pairs ms h) refl
read_payload-write_payload (link c) o h e = elim (Option-cases (to_bytes c)) [
  | inl n ↦ ground (arith, e, n)
  | inr (bytes, s) ↦
      let form : merkle_link bytes ≡ o = ground (arith, e, s) in
      rw (sym form) (rw (read_payload, cast_cid-to_bytes c bytes h s) refl)
]

read_contents-write_contents :
    (ps : List Payload) (os : Objects)
    → ArePayloads ps
    → write_contents ps ≡ ok os
    → read_contents os ≡ ok ps
unfolding write_contents read_contents
read_contents-write_contents [] os h e =
    let form : no_items ≡ os = cc in rw (sym form, read_contents) refl
read_contents-write_contents (p ∷ ps) os h e =
    let (o, wp, e') =
      >>=-eq_ok (write_payload p) (λ o. write_contents ps >>= λ rest. ok (item o rest)) e in
    let (rest, wps, e'') = >>=-eq_ok (write_contents ps) (λ rest. ok (item o rest)) e' in
    let form : item o rest ≡ os = cc in
    rw
      (
        sym form,
        read_contents,
        read_payload-write_payload p o h.0 wp,
        read_contents-write_contents ps rest h.1 wps,
      )
      refl

from_cbor_list-to_cbor_list :
    (n : Champ) (v : CborObject)
    → ArePayloads n.contents
    → to_cbor_list n ≡ ok v
    → (os : Objects) × (v ≡ list os) × (from_cbor_list v ≡ ok (with_bat n none))
unfolding to_cbor_list from_cbor_list read_list read_three as_list as_bytes with_bat
from_cbor_list-to_cbor_list n v h e =
    let rest = λ (contents : Objects).
      item (byte_string n.data_map)
        (item (byte_string n.node_map) (item (list contents) no_items)) in
    let (c, wc, e') =
      >>=-eq_ok (write_contents n.contents) (λ contents. ok (list (rest contents))) e in
    let form : list (rest c) ≡ v = cc in
    (rest c, sym form, rw (sym form) (rw (read_contents-write_contents n.contents c h wc) refl))

bat_round_trip :
    (bat : BatId) (b : CborObject)
    → IsCid bat.id
    → bat_id_to_cbor bat ≡ ok b
    → bat_id_from_cbor b ≡ ok bat
unfolding bat_id_to_cbor bat_id_from_cbor as_bytes
bat_round_trip bat b h e = elim (Option-cases (to_bytes bat.id)) [
  | inl n ↦ ground (arith, e, n)
  | inr (bytes, s) ↦
      let form : byte_string bytes ≡ b = ground (arith, e, s) in
      rw (sym form) (rw (cast_cid-to_bytes bat.id bytes h s) refl)
]

-- The two entries of the map form are found under their keys.
map_entries :
    (b d : CborObject)
    → (get bats (build (put bats b (put d_key d no_entries))) ≡ some b)
      × (get d_key (build (put bats b (put d_key d no_entries))) ≡ some d)
unfolding get put build insert lookup as_map new_cbor_string cmp_cbor_string lex_cmp encode_utf16
map_entries b d = (refl, refl)

plain_round_trip :
    (n : Champ) (v : CborObject)
    → ArePayloads n.contents
    → to_cbor_list n ≡ ok v
    → from_cbor v ≡ ok (with_bat n none)
unfolding from_cbor
plain_round_trip n v h e =
    let (os, form, read) = from_cbor_list-to_cbor_list n v h e in
    rw form (ap from_cbor_list (sym form) ∙ read)

-- The map form, with its list and its bat read back.
map_form_read :
    (n : Champ) (bat : BatId) (b d : CborObject)
    → from_cbor_list d ≡ ok (with_bat n none)
    → bat_id_from_cbor b ≡ ok bat
    → from_cbor (build (put bats (list (item b no_items)) (put d_key d no_entries)))
      ≡ ok (with_bat n (some bat))
unfolding from_cbor build first_bat with_bat
map_form_read n bat b d rd rb =
    let entries = map_entries (list (item b no_items)) d in rw (entries.0, rb, entries.1, rd) refl

bat_form_round_trip :
    (n : Champ) (bat : BatId) (v : CborObject)
    → ArePayloads n.contents
    → IsCid bat.id
    → (to_cbor_list n >>= λ d. bat_id_to_cbor bat >>= λ b.
        ok (build (put bats (list (item b no_items)) (put d_key d no_entries))))
      ≡ ok v
    → from_cbor v ≡ ok (with_bat n (some bat))
bat_form_round_trip n bat v h hb e =
    let form =
      λ (d b : CborObject). build (put bats (list (item b no_items)) (put d_key d no_entries)) in
    let (d, wd, e') =
      >>=-eq_ok (to_cbor_list n) (λ d. bat_id_to_cbor bat >>= λ b. ok (form d b)) e in
    let (b, wb, e'') = >>=-eq_ok (bat_id_to_cbor bat) (λ b. ok (form d b)) e' in
    let (os, shape, read) = from_cbor_list-to_cbor_list n d h wd in
    let same : form d b ≡ v = cc in
    rw (sym same) (map_form_read n bat b d read (bat_round_trip bat b hb wb))

to_cbor-bat :
    (n : Champ) (bat : BatId)
    → n.mirror_bat ≡ some bat
    → to_cbor n ≡ (
        to_cbor_list n >>= λ d. bat_id_to_cbor bat >>= λ b.
        ok (build (put bats (list (item b no_items)) (put d_key d no_entries))))
unfolding to_cbor to_cbor_list
to_cbor-bat n bat e = rw (e, to_cbor) refl

-- `Champ::from_cbor` reads back a node whose links and bat are CIDs that the program makes, with no
-- null among its values, with and without a mirror bat.
pub from_cbor-to_cbor :
    (n : Champ) (v : CborObject) → IsNode n → to_cbor n ≡ ok v → from_cbor v ≡ ok n
from_cbor-to_cbor n v (h, hb) e = elim (Option-cases n.mirror_bat) [
  | inl none_bat ↦
      let e' : to_cbor_list n ≡ ok v = unfold to_cbor in ground (arith, e, none_bat) in
      plain_round_trip n v h e'
      ∙ ap (λ b. ok (with_bat n b)) (sym none_bat)
      ∙ unfold with_bat in refl
  | inr (bat, has_bat) ↦
      let hc : IsCid bat.id = subst IsBat has_bat hb in
      bat_form_round_trip n bat v h hc (sym (to_cbor-bat n bat has_bat) ∙ e)
      ∙ ap (λ b. ok (with_bat n b)) (sym has_bat)
      ∙ unfold with_bat in refl
]
