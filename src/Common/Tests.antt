-- ===== src/Common/Tests.antt =====
-- Boolean tests on native numbers, the conditional, case splits and Rust's `Result`.
use Prim.Native.Nat.{ℕ, ◌≤◌, ◌<◌, compare, Ordering}
use mathlib.Core.Path.{◌≡◌, refl, subst, ap, ◌∙◌}
use mathlib.Core.Logic.{◌↔◌, ◌⊎◌, inl, inr}
use mathlib.Core.Bool.{Bool, true, false, ◌&&◌}
use mathlib.Core.Option.{Option, none, some}
use native.Mathlib.Omega.{arith}

abbrev pub ltb : ℕ → ℕ → Bool
ltb a b = elim (compare a b) [ Ordering.lt ↦ true | _ ↦ false ]

abbrev pub leb : ℕ → ℕ → Bool
leb a b = elim (compare a b) [ Ordering.gt ↦ false | _ ↦ true ]

infix 50 ◌==◌
abbrev pub ◌==◌ : ℕ → ℕ → Bool
a == b = elim (compare a b) [ Ordering.eq ↦ true | _ ↦ false ]

infix 1 if◌then◌else◌
abbrev pub if◌then◌else◌ {ℓ} : {A : Type ℓ} → Bool → A → A → A
if true then x else y = x
if false then x else y = y

pub ltb→lt : (a b : ℕ) → ltb a b ≡ true → a < b
ltb→lt a b h = ground arith

pub leb→le : (a b : ℕ) → leb a b ≡ true → a ≤ b
leb→le a b h = ground arith

pub ==_iff : (a b : ℕ) → ((a == b) ≡ true) ↔ (a ≡ b)
==_iff a b = ground arith

pub &&_parts : (a b : Bool) → (a && b) ≡ true → (a ≡ true) × (b ≡ true)
&&_parts a b h = ground arith

pub Bool-cases : (b : Bool) → (b ≡ true) ⊎ (b ≡ false)
Bool-cases true = inl refl
Bool-cases false = inr refl

pub Option-cases {ℓ} : {A : Type ℓ} (o : Option A) → (o ≡ none) ⊎ ((a : A) × (o ≡ some a))
Option-cases none = inl refl
Option-cases (some a) = inr (a, refl)

-- `option.and_then(f)`.
abbrev pub and_then {ℓ κ} : {A : Type ℓ} {B : Type κ} → Option A → (A → Option B) → Option B
and_then none f = none
and_then (some v) f = f v

-- `option.unwrap_or(value)`.
abbrev pub unwrap_or {ℓ} : {A : Type ℓ} → Option A → A → A
unwrap_or none value = value
unwrap_or (some v) value = v

-- `std::result::Result<A, E>`.
pub data Result {ℓ κ} (E : Type ℓ) (A : Type κ) : Type (ℓ ⊔ κ) where
  ok : A → Result E A
  err : E → Result E A

module _ {ℓ κ} {E : Type ℓ} {A : Type κ} where
  -- The `?` operator.
  infixl 5 ◌>>=◌
  abbrev pub ◌>>=◌ {μ} : {B : Type μ} → Result E A → (A → Result E B) → Result E B
  ok a >>= f = f a
  err e >>= f = err e

  pub >>=-eq_ok {μ} :
      {B : Type μ} (m : Result E A) (f : A → Result E B) {b : B}
      → (m >>= f) ≡ ok b
      → (a : A) × (m ≡ ok a) × (f a ≡ ok b)
  >>=-eq_ok (ok a) f h = (a, refl, h)
  >>=-eq_ok (err e) f h = cc

  pub Result-cases : (r : Result E A) → ((a : A) × (r ≡ ok a)) ⊎ ((e : E) × (r ≡ err e))
  Result-cases (ok a) = inl (a, refl)
  Result-cases (err e) = inr (e, refl)

-- `opt.ok_or(e)`.
abbrev pub ok_or {ℓ κ} : {E : Type ℓ} {A : Type κ} → Option A → E → Result E A
ok_or none e = err e
ok_or (some a) e = ok a

-- `P` holds of the value of a successful result.
pub data Yields {ℓ κ μ} {E : Type ℓ} {A : Type κ} (P : A → Type μ)
    : Result E A → Type (ℓ ⊔ κ ⊔ μ) where
  yields : {a : A} → P a → Yields P (ok a)
  fails : {e : E} → Yields P (err e)

module _ {ℓ κ μ} {E : Type ℓ} {A : Type κ} {P : A → Type μ} where
  -- The rest of a chain is shown for the value of its first step.
  pub Yields-bind {ν} :
      {B : Type ν} (m : Result E B) {f : B → Result E A}
      → ((b : B) → m ≡ ok b → Yields P (f b))
      → Yields P (m >>= f)
  Yields-bind (ok b) k = k b refl
  Yields-bind (err e) k = fails

  pub Yields-if :
      (b : Bool) {x y : Result E A}
      → (b ≡ true → Yields P x)
      → (b ≡ false → Yields P y)
      → Yields P (if b then x else y)
  Yields-if true hx hy = hx refl
  Yields-if false hx hy = hy refl

  pub Yields-ok : {r : Result E A} {a : A} → Yields P r → r ≡ ok a → P a
  Yields-ok (yields h) e = subst P (cc) h
  Yields-ok fails e = cc

  pub Yields-of : (r : Result E A) → ((a : A) → r ≡ ok a → P a) → Yields P r
  Yields-of (ok a) k = yields (k a refl)
  Yields-of (err e) k = fails

module _ {ℓ κ μ} {E : Type ℓ} {A : Type κ} {B : Type μ} where
  pub >>=-rest :
      (m : Result E B) {f g : B → Result E A} → ((b : B) → f b ≡ g b) → (m >>= f) ≡ (m >>= g)
  >>=-rest (ok b) h = h b
  >>=-rest (err e) h = refl

  -- Chains with the same first step and the same rest.
  pub >>=-same :
      {m n : Result E B} {f g : B → Result E A}
      → m ≡ n
      → ((b : B) → f b ≡ g b)
      → (m >>= f) ≡ (n >>= g)
  >>=-same {m} {n} {f} {g} e h = ap (λ x. x >>= f) e ∙ >>=-rest n h

module _ {ℓ} {A : Type ℓ} where
  pub if-same :
      (b : Bool) {x x' y y' : A} → x ≡ x' → y ≡ y' → (if b then x else y) ≡ (if b then x' else y')
  if-same true h k = h
  if-same false h k = k
