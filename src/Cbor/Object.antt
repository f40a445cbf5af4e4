-- ===== src/Cbor/Object.antt =====
-- crates/peergos-cbor/src/lib.rs: the value type, its text keys in canonical order, and the typed
-- accessors. Texts are held as their UTF-8 bytes.
use rust_peergos_client.Common.{
  ℕ, Bool, true, false, Option, none, some, List, [], ◌∷◌, ◌++◌, Bytes, length, compare, Ordering,
}
use rust_peergos_client.Common.Int.{ℤ}
use rust_peergos_client.Common.Text.{Text, encode_utf16}

-- `CborString`: equal by value, ordered by its UTF-16 units.
pub record CborString : Type 0 where
  pub value : Text
  pub utf16 : List ℕ

unfoldable pub new_cbor_string : Text → CborString
new_cbor_string value = record { value = value; utf16 = encode_utf16 value }

-- `a.then_with(|| b)`.
abbrev pub then_with : Ordering → Ordering → Ordering
then_with Ordering.eq second = second
then_with first second = first

-- `Vec<u16>::cmp`: lexicographic, a proper prefix first.
unfoldable pub lex_cmp : List ℕ → List ℕ → Ordering
lex_cmp [] [] = Ordering.eq
lex_cmp [] (b ∷ ys) = Ordering.lt
lex_cmp (a ∷ xs) [] = Ordering.gt
lex_cmp (a ∷ xs) (b ∷ ys) = then_with (compare a b) (lex_cmp xs ys)

unfoldable pub cmp_cbor_string : CborString → CborString → Ordering
cmp_cbor_string a b =
    then_with (compare (length a.utf16) (length b.utf16)) (lex_cmp a.utf16 b.utf16)

-- `Objects` is a `Vec<CborObject>`; `Entries` is a `BTreeMap<CborString, CborObject>` in the order
-- of its iterator.
mutual
  pub data CborObject : Type 0 where
    long : ℤ → CborObject
    boolean : Bool → CborObject
    byte_string : Bytes → CborObject
    str : Text → CborObject
    list : Objects → CborObject
    map : Entries → CborObject
    merkle_link : Bytes → CborObject
    null : CborObject

  pub data Objects : Type 0 where
    no_items : Objects
    item : CborObject → Objects → Objects

  pub data Entries : Type 0 where
    no_entries : Entries
    entry : CborString → CborObject → Entries → Entries

-- The accessors.
unfoldable pub as_map : CborObject → Option Entries
as_map (map m) = some m
as_map _ = none

unfoldable pub as_list : CborObject → Option Objects
as_list (list l) = some l
as_list _ = none

unfoldable pub as_long : CborObject → Option ℤ
as_long (long v) = some v
as_long _ = none

unfoldable pub as_bool : CborObject → Option Bool
as_bool (boolean v) = some v
as_bool _ = none

unfoldable pub as_string : CborObject → Option Text
as_string (str s) = some s
as_string _ = none

unfoldable pub as_bytes : CborObject → Option Bytes
as_bytes (byte_string b) = some b
as_bytes _ = none

unfoldable pub as_link : CborObject → Option Bytes
as_link (merkle_link c) = some c
as_link _ = none

unfoldable pub is_null : CborObject → Bool
is_null null = true
is_null _ = false

-- The links that a value holds, in order (`links` and `collect_links`).
unfoldable mutual
  pub collect_links : CborObject → List Bytes → List Bytes
  collect_links (merkle_link cid) out = out ++ (cid ∷ [])
  collect_links (list l) out = collect_items l out
  collect_links (map m) out = collect_entries m out
  collect_links _ out = out

  pub collect_items : Objects → List Bytes → List Bytes
  collect_items no_items out = out
  collect_items (item x xs) out = collect_items xs (collect_links x out)

  pub collect_entries : Entries → List Bytes → List Bytes
  collect_entries no_entries out = out
  collect_entries (entry k v m) out = collect_entries m (collect_links v out)

unfoldable pub links : CborObject → List Bytes
unfolding collect_links
links v = collect_links v []
