-- ===== src/Prelude/Lists.antt =====
-- Lists measured by native numbers, under the library's names.
use Prim.Native.Nat.{ℕ, zero, suc, ◌+◌}
use mathlib.Core.Path.{◌≡◌, refl, ap, subst}
use mathlib.Core.Logic.{inl, inr}
use mathlib.Core.Bool.{Bool, true, false, ◌&&◌}
use scriva.Prelude.Tests.{Bool-cases}
use mathlib.Core.List.{List, [], ◌∷◌, ◌++◌}
use native.Mathlib.Omega.{arith}

module _ {ℓ} {A : Type ℓ} where
  abbrev pub length : List A → ℕ
  length [] = 0
  length (x ∷ xs) = suc (length xs)

  pub length-append : (xs ys : List A) → length (xs ++ ys) ≡ length xs + length ys
  length-append [] ys = omega arith
  length-append (x ∷ xs) ys = omega (arith, length-append xs ys)

  abbrev pub take : ℕ → List A → List A
  take zero xs = []
  take (suc n) [] = []
  take (suc n) (x ∷ xs) = x ∷ take n xs

  abbrev pub drop : ℕ → List A → List A
  drop zero xs = xs
  drop (suc n) [] = []
  drop (suc n) (x ∷ xs) = drop n xs

  pub take-length_append : (xs ys : List A) → take (length xs) (xs ++ ys) ≡ xs
  take-length_append [] ys = refl
  take-length_append (x ∷ xs) ys = ap (λ zs. x ∷ zs) (take-length_append xs ys)

  pub drop-length_append : (xs ys : List A) → drop (length xs) (xs ++ ys) ≡ ys
  drop-length_append [] ys = refl
  drop-length_append (x ∷ xs) ys = drop-length_append xs ys

-- A predicate on every element: it computes to a tuple.
abbrev pub All {ℓ κ} : {A : Type ℓ} → (A → Type κ) → List A → Type κ
All P [] = Unit
All P (x ∷ xs) = P x × All P xs

pub All-append {ℓ κ} :
    {A : Type ℓ} (P : A → Type κ) (front back : List A)
    → All P front
    → All P back
    → All P (front ++ back)
All-append P [] back left right = right
All-append P (x ∷ front) back left right = (left.0, All-append P front back left.1 right)

pub All-map {ℓ κ μ} :
    {A : Type ℓ} {P : A → Type κ} {Q : A → Type μ} (xs : List A)
    → ((x : A) → P x → Q x)
    → All P xs
    → All Q xs
All-map [] f h = tt
All-map (x ∷ xs) f h = (f x h.0, All-map xs f h.1)

-- A Boolean test on every element, and what it says.
abbrev pub all {ℓ} : {A : Type ℓ} → (A → Bool) → List A → Bool
all test [] = true
all test (x ∷ xs) = test x && all test xs

pub all-All {ℓ} :
    {A : Type ℓ} (test : A → Bool) (xs : List A) → all test xs ≡ true → All (λ x. test x ≡ true) xs
all-All test [] h = tt
all-All test (x ∷ xs) h = elim (Bool-cases (test x)) [
  | inl held ↦ (held, all-All test xs (subst (λ b. (b && all test xs) ≡ true) held h))
  | inr fails ↦ let bad : false ≡ true = subst (λ b. (b && all test xs) ≡ true) fails h in cc bad
]
