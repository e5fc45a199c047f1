-- ===== src/Prelude/Tests.antt =====
-- Boolean tests on the native numbers, the conditional, and case lemmas that keep an equation.
use Prim.Native.Nat.{ℕ, ◌≤◌, compare, Ordering}
use mathlib.Core.Path.{◌≡◌, refl}
use mathlib.Core.Logic.{◌↔◌, ◌⊎◌, inl, inr}
use mathlib.Core.Bool.{Bool, true, false}
use mathlib.Core.Option.{Option, none, some}
use native.Mathlib.Omega.{arith}

abbrev pub ltb : ℕ → ℕ → Bool
ltb a b = elim (compare a b) [ Ordering.lt ↦ true | _ ↦ false ]

abbrev pub leb : ℕ → ℕ → Bool
leb a b = elim (compare a b) [ Ordering.gt ↦ false | _ ↦ true ]

abbrev pub nat_beq : ℕ → ℕ → Bool
nat_beq a b = elim (compare a b) [ Ordering.eq ↦ true | _ ↦ false ]

infix 1 if◌then◌else◌
abbrev pub if◌then◌else◌ {ℓ} : {A : Type ℓ} → Bool → A → A → A
if true then x else y = x
if false then x else y = y

pub nat_beq_iff : (a b : ℕ) → (nat_beq a b ≡ true) ↔ (a ≡ b)
nat_beq_iff a b = ground arith

pub leb→le : (a b : ℕ) → leb a b ≡ true → a ≤ b
leb→le a b h = ground arith

pub Bool-cases : (b : Bool) → (b ≡ true) ⊎ (b ≡ false)
Bool-cases true = inl refl
Bool-cases false = inr refl

pub Option-cases {ℓ} : {A : Type ℓ} (o : Option A) → (o ≡ none) ⊎ ((a : A) × (o ≡ some a))
Option-cases none = inl refl
Option-cases (some a) = inr (a, refl)

pub some-inj {ℓ} : {A : Type ℓ} {x y : A} → some x ≡ some y → x ≡ y
some-inj h = cc h

abbrev pub is_some {ℓ} : {A : Type ℓ} → Option A → Bool
is_some none = false
is_some (some a) = true

-- `a != b` on booleans
abbrev pub bool_ne : Bool → Bool → Bool
bool_ne true true = false
bool_ne true false = true
bool_ne false true = true
bool_ne false false = false

-- The branch that a known test takes, also where `rw` would rewrite the test inside a record.
pub if_true {ℓ} : {A : Type ℓ} (b : Bool) (x y : A) → b ≡ true → (if b then x else y) ≡ x
if_true b x y h = rw h

pub if_false {ℓ} : {A : Type ℓ} (b : Bool) (x y : A) → b ≡ false → (if b then x else y) ≡ y
if_false b x y h = rw h

-- A property of a conditional, branch by branch.
pub if_elim {ℓ κ} :
    {A : Type ℓ} (P : A → Type κ) (b : Bool) (x y : A)
    → (b ≡ true → P x)
    → (b ≡ false → P y)
    → P (if b then x else y)
if_elim P true x y h g = h refl
if_elim P false x y h g = g refl
