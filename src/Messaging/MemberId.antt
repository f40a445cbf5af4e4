-- ===== src/Messaging/MemberId.antt =====
-- crates/peergos-fs/src/messaging/id.rs: a member's position in the invite tree, and its order.
-- The type is named `Id` there.
use rust_peergos_client.Common.{
  ℕ, Option, none, some, List, [], ◌∷◌, ◌++◌, length, take, compare, Ordering, if◌then◌else◌, ◌==◌,
  ◌+◌, ◌-◌, ◌%◌, ◌^◌, ltb, not, Result, ok, ◌>>=◌, ok_or,
}
use rust_peergos_client.Common.Int.{ℤ, pos, negsuc, pos_part, neg_part, eqb_ℤ, complement}
use rust_peergos_client.Cbor.Object.{
  CborObject, long, list, Objects, no_items, item, as_list, as_long,
}

pub record MemberId : Type 0 where
  pub id : List ℤ

-- The places where the messaging types refuse a CBOR value.
pub data CborError : Type 0 where
  incorrect_id : CborError
  component_not_long : CborError
  incorrect_clock : CborError
  entry_not_list : CborError
  entry_not_long : CborError
  empty_entry : CborError

-- `v as i32` for an `i64` v.
unfoldable pub low_i32 : ℕ → ℤ
low_i32 r = if ltb r (2 ^ 31) then pos r else negsuc (2 ^ 32 - 1 - r)

unfoldable pub to_i32 : ℤ → ℤ
to_i32 (pos n) = low_i32 (n % 2 ^ 32)
to_i32 (negsuc n) = complement (low_i32 (n % 2 ^ 32))

-- `i32::cmp` and `i64::cmp`.
abbrev pub cmp_int : ℤ → ℤ → Ordering
cmp_int a b = compare (pos_part a + neg_part b) (pos_part b + neg_part a)

unfoldable pub single : ℤ → MemberId
single counter = record { id = counter ∷ [] }

unfoldable pub creator : MemberId
creator = single (pos 0)

unfoldable pub fork : MemberId → ℤ → MemberId
fork self counter = record { id = self.id ++ (counter ∷ []) }

-- `self.id[..self.id.len() - 1]`, which panics where there is no component.
unfoldable pub parent : MemberId → Option MemberId
parent self =
    if length self.id == 0 then none else some record { id = take (length self.id - 1) self.id }

-- The first difference over the common prefix.
unfoldable pub first_difference : List ℤ → List ℤ → Option Ordering
first_difference [] _ = none
first_difference (x ∷ xs) [] = none
first_difference (x ∷ xs) (y ∷ ys) =
    if not (eqb_ℤ x y) then some (cmp_int x y) else first_difference xs ys

unfoldable pub cmp_id : MemberId → MemberId → Ordering
cmp_id a b = elim (first_difference a.id b.id) [
  | some difference ↦ difference
  | none ↦ compare (length a.id) (length b.id)
]

unfoldable pub components : Objects → Result CborError (List ℤ)
components no_items = ok []
components (item e l) =
    ok_or (as_long e) component_not_long >>= λ v. components l >>= λ vs. ok (to_i32 v ∷ vs)

unfoldable pub id_from_cbor : CborObject → Result CborError MemberId
id_from_cbor cbor =
    ok_or (as_list cbor) incorrect_id >>= λ l. components l >>= λ vs. ok record { id = vs }

unfoldable pub longs : List ℤ → Objects
longs [] = no_items
longs (i ∷ is) = item (long i) (longs is)

unfoldable pub id_to_cbor : MemberId → CborObject
id_to_cbor self = list (longs self.id)
