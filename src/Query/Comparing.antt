-- ===== src/Query/Comparing.antt =====
-- query/filter.go: Compare is a total order on the values of one type, and the operators agree with it.
use Prim.Native.Nat.{Ordering, ℕ, compare as compare_nat}
use Prim.Native.Char.{code}
use Prim.Native.String.{
  String as Str, [] as nil, ◌∷◌ as cons, then as lexi, compare as compare_strings,
}
use Prim.Native.String.compare.{nil-nil, nil-cons, cons-nil, cons-cons}
use text.Mathlib.Text.{is_eq}
use scriva.Prelude.{
  ◌≡◌, ◌↔◌, refl, sym, ap, ◌∙◌, Bool, true, false, not, ◌&&◌, ◌||◌, Option, none, some, string_eq,
  arith,
}
use scriva.Query.{
  Values, is_less, is_equal, is_greater, equal, equal_as, compare, compare_as, compare_numbers,
  op_eq, op_neq, op_gt, op_gte, op_lt, op_lte, match_op,
}

abbrev pub flip : Ordering → Ordering
flip Ordering.lt = Ordering.gt
flip Ordering.eq = Ordering.eq
flip Ordering.gt = Ordering.lt

flip-lexi : (o p : Ordering) → lexi (flip o) (flip p) ≡ flip (lexi o p)
flip-lexi Ordering.lt p = refl
flip-lexi Ordering.eq p = refl
flip-lexi Ordering.gt p = refl

flip-compare_nat : (m n : ℕ) → compare_nat n m ≡ flip (compare_nat m n)
flip-compare_nat m n = ground arith

pub compare_strings-flip : (s t : Str) → compare_strings t s ≡ flip (compare_strings s t)
compare_strings-flip nil nil = nil-nil ∙ ap flip (sym nil-nil)
compare_strings-flip nil (cons d t) = cons-nil d t ∙ ap flip (sym (nil-cons d t))
compare_strings-flip (cons c s) nil = nil-cons c s ∙ ap flip (sym (cons-nil c s))
compare_strings-flip (cons c s) (cons d t) =
    cons-cons d c t s
    ∙ ap (λ o. lexi o (compare_strings t s)) (flip-compare_nat (code c) (code d))
    ∙ ap (λ o. lexi (flip (compare_nat (code c) (code d))) o) (compare_strings-flip s t)
    ∙ flip-lexi (compare_nat (code c) (code d)) (compare_strings s t)
    ∙ ap flip (sym (cons-cons c d s t))

lexi_trans :
    (c d e : ℕ) (o p q : Ordering)
    → (o ≡ Ordering.lt → p ≡ Ordering.lt → q ≡ Ordering.lt)
    → lexi (compare_nat c d) o ≡ Ordering.lt
    → lexi (compare_nat d e) p ≡ Ordering.lt
    → lexi (compare_nat c e) q ≡ Ordering.lt
lexi_trans c d e o p q tail h k = ground (arith, tail)

pub compare_strings_trans :
    (s t u : Str)
    → compare_strings s t ≡ Ordering.lt
    → compare_strings t u ≡ Ordering.lt
    → compare_strings s u ≡ Ordering.lt
compare_strings_trans nil nil u h k =
    let bad : Ordering.eq ≡ Ordering.lt = sym nil-nil ∙ h in cc bad
compare_strings_trans (cons c s) nil u h k =
    let bad : Ordering.gt ≡ Ordering.lt = sym (cons-nil c s) ∙ h in cc bad
compare_strings_trans nil (cons d t) nil h k =
    let bad : Ordering.gt ≡ Ordering.lt = sym (cons-nil d t) ∙ k in cc bad
compare_strings_trans (cons c s) (cons d t) nil h k =
    let bad : Ordering.gt ≡ Ordering.lt = sym (cons-nil d t) ∙ k in cc bad
compare_strings_trans nil (cons d t) (cons e u) h k = nil-cons e u
compare_strings_trans (cons c s) (cons d t) (cons e u) h k =
    cons-cons c e s u
    ∙ lexi_trans (code c) (code d) (code e) _ _ _ (compare_strings_trans s t u)
        (sym (cons-cons c d s t) ∙ h) (sym (cons-cons d e t u) ∙ k)

is_equal-is_eq : (o : Ordering) → is_eq o ≡ is_equal o
is_equal-is_eq Ordering.lt = refl
is_equal-is_eq Ordering.eq = refl
is_equal-is_eq Ordering.gt = refl

de_morgan : (a b : Bool) → not (not a && not b) ≡ (a || b)
de_morgan true b = refl
de_morgan false true = refl
de_morgan false false = refl

-- What the code relies on of `<` and `==` on float64: a JSON number is never NaN.
pub record IsLinear {V : Type 0} (Q : Values V) : Type 0 where
  pub less-irrefl : (a : Q.F) → Q.less a a ≡ false
  pub less-trans : (a b c : Q.F) → Q.less a b ≡ true → Q.less b c ≡ true → Q.less a c ≡ true
  pub same_iff : (a b : Q.F) → (Q.same a b ≡ true) ↔ ((Q.less a b ≡ false) × (Q.less b a ≡ false))

module _ {V : Type 0} (Q : Values V) where
  open Q use {F, as_number, less, sprint}

  -- what the operators mean: the order of the numbers where both values are numbers, and otherwise the
  -- order of their texts
  abbrev pub below_as : Option F → Option F → V → V → Bool
  below_as (some f) (some g) a b = less f g
  below_as none n a b = is_less (compare_strings (sprint a) (sprint b))
  below_as (some f) none a b = is_less (compare_strings (sprint a) (sprint b))

  abbrev pub below : V → V → Bool
  below a b = below_as (as_number a) (as_number b) a b

module _ {V : Type 0} (Q : Values V) (L : IsLinear Q) where
  open Q use {F, as_number, less, same, sprint}
  open L use {less-irrefl, less-trans, same_iff}

  compare_numbers-flip : (a b : F) → compare_numbers Q b a ≡ flip (compare_numbers Q a b)
  compare_numbers-flip a b = ground (arith, less-irrefl a, less-trans a b a)

  compare_as-flip : (m n : Option F) (a b : V) → compare_as Q n m b a ≡ flip (compare_as Q m n a b)
  compare_as-flip none none a b = compare_strings-flip (sprint a) (sprint b)
  compare_as-flip none (some g) a b = compare_strings-flip (sprint a) (sprint b)
  compare_as-flip (some f) none a b = compare_strings-flip (sprint a) (sprint b)
  compare_as-flip (some f) (some g) a b = compare_numbers-flip f g

  -- Comparing the other way round gives the opposite sign, whatever the types.
  pub compare-flip : (a b : V) → compare Q b a ≡ flip (compare Q a b)
  unfolding compare
  compare-flip a b = compare_as-flip (as_number a) (as_number b) a b

  equal_as-compare :
      (m n : Option F) (a b : V) → equal_as Q m n a b ≡ is_equal (compare_as Q m n a b)
  equal_as-compare (some f) (some g) a b =
      ground (arith, same_iff f g, less-irrefl f, less-trans f g f)
  equal_as-compare none none a b = is_equal-is_eq (compare_strings (sprint a) (sprint b))
  equal_as-compare none (some g) a b = is_equal-is_eq (compare_strings (sprint a) (sprint b))
  equal_as-compare (some f) none a b = is_equal-is_eq (compare_strings (sprint a) (sprint b))

  pub equal-compare : (a b : V) → equal Q a b ≡ is_equal (compare Q a b)
  unfolding equal compare
  equal-compare a b = equal_as-compare (as_number a) (as_number b) a b

  is_less-compare_as :
      (m n : Option F) (a b : V) → is_less (compare_as Q m n a b) ≡ below_as Q m n a b
  is_less-compare_as none n a b = refl
  is_less-compare_as (some f) none a b = refl
  is_less-compare_as (some f) (some g) a b = ground arith

  is_less-flip : (o : Ordering) → is_less (flip o) ≡ is_greater o
  is_less-flip Ordering.lt = refl
  is_less-flip Ordering.eq = refl
  is_less-flip Ordering.gt = refl

  pub is_less-compare : (a b : V) → is_less (compare Q a b) ≡ below Q a b
  unfolding compare
  is_less-compare a b = is_less-compare_as (as_number a) (as_number b) a b

  pub is_greater-compare : (a b : V) → is_greater (compare Q a b) ≡ below Q b a
  is_greater-compare a b =
      sym (is_less-flip (compare Q a b)) ∙ ap is_less (sym (compare-flip a b)) ∙ is_less-compare b a

  is_equal-signs : (o : Ordering) → is_equal o ≡ (not (is_less o) && not (is_greater o))
  is_equal-signs Ordering.lt = refl
  is_equal-signs Ordering.eq = refl
  is_equal-signs Ordering.gt = refl

  -- With numbers that are linearly ordered, the six operators are read off one strict order, that of the
  -- numbers between two numbers and that of the texts elsewhere: lt holds below the operand, gt above it,
  -- gte and lte where these fail, eq where both fail and neq where one of them holds.
  pub match_op-compare :
      (v c : V)
      → (match_op Q op_lt v c ≡ below Q v c)
        × (match_op Q op_gt v c ≡ below Q c v)
        × (match_op Q op_gte v c ≡ not (below Q v c))
        × (match_op Q op_lte v c ≡ not (below Q c v))
        × (match_op Q op_eq v c ≡ (not (below Q v c) && not (below Q c v)))
        × (match_op Q op_neq v c ≡ (below Q v c || below Q c v))
  match_op-compare v c =
      let lt = is_less-compare v c in
      let gt = is_greater-compare v c in
      let eq : equal Q v c ≡ (not (below Q v c) && not (below Q c v)) =
        equal-compare v c
        ∙ is_equal-signs (compare Q v c)
        ∙ ap (λ b. not b && not (is_greater (compare Q v c))) lt
        ∙ ap (λ b. not (below Q v c) && not b) gt in
      (lt, gt, ap not lt, ap not gt, eq, ap not eq ∙ de_morgan (below Q v c) (below Q c v))

  -- both are numbers, or neither is
  abbrev pub same_type : Option F → Option F → Bool
  same_type none none = true
  same_type (some f) (some g) = true
  same_type none (some g) = false
  same_type (some f) none = false

  compare_as_trans :
      (m n o : Option F) (a b c : V)
      → same_type m n ≡ true
      → same_type n o ≡ true
      → compare_as Q m n a b ≡ Ordering.lt
      → compare_as Q n o b c ≡ Ordering.lt
      → compare_as Q m o a c ≡ Ordering.lt
  compare_as_trans none none none a b c t u h k =
      compare_strings_trans (sprint a) (sprint b) (sprint c) h k
  compare_as_trans (some f) (some g) (some i) a b c t u h k = ground (arith, less-trans f g i)
  compare_as_trans none (some g) o a b c t u h k = cc t
  compare_as_trans (some f) none o a b c t u h k = cc t
  compare_as_trans none none (some g) a b c t u h k = cc u
  compare_as_trans (some f) (some g) none a b c t u h k = cc u

  -- Among values of one type, all numbers or none, Compare is transitive.
  pub compare_trans :
      (a b c : V)
      → same_type (as_number a) (as_number b) ≡ true
      → same_type (as_number b) (as_number c) ≡ true
      → compare Q a b ≡ Ordering.lt
      → compare Q b c ≡ Ordering.lt
      → compare Q a c ≡ Ordering.lt
  unfolding compare
  compare_trans a b c = compare_as_trans (as_number a) (as_number b) (as_number c) a b c
