-- ===== src/SecondaryIndex/KeyOrder.antt =====
-- engine/secondary_index.go: the order of the sorted view, described without Compare: by value, and by key
-- where neither value is below the other.
use Prim.Native.Nat.{Ordering}
use Prim.Native.String.{compare as compare_strings}
use text.Mathlib.TextEquality.{path_by_compare}
use scriva.Prelude.{
  ◌≡◌, refl, sym, ap, ◌∙◌, String, Bool, true, false, not, ◌&&◌, ◌||◌, Option, none, some, is_some,
  ℕ, ◌<◌, List, arith, inl, inr, ◌⊎◌,
}
use scriva.Query.{Values, is_less, is_greater, compare}
use scriva.Query.Comparing.{
  flip, compare_strings-flip, compare_strings_trans, IsLinear, below_as, below, is_less-compare,
  is_greater-compare,
}
use scriva.SecondaryIndex.{IndexValues, OrderedKey, nth, less_by, order_less_key}

pub is_less-lt : (o : Ordering) → is_less o ≡ true → o ≡ Ordering.lt
is_less-lt Ordering.lt h = refl
is_less-lt Ordering.eq h = cc h
is_less-lt Ordering.gt h = cc h

strings-asym :
    (s t : String) → is_less (compare_strings s t) ≡ true → is_less (compare_strings t s) ≡ false
strings-asym s t h = ap is_less (compare_strings-flip s t ∙ ap flip (is_less-lt _ h))

strings_trans :
    (s t u : String)
    → is_less (compare_strings s t) ≡ true
    → is_less (compare_strings t u) ≡ true
    → is_less (compare_strings s u) ≡ true
strings_trans s t u h k = ap is_less (compare_strings_trans s t u (is_less-lt _ h) (is_less-lt _ k))

pub order_cases : (o : Ordering) → (o ≡ Ordering.eq) ⊎ ((o ≡ Ordering.lt) ⊎ (o ≡ Ordering.gt))
order_cases Ordering.lt = inr (inl refl)
order_cases Ordering.eq = inl refl
order_cases Ordering.gt = inr (inr refl)

-- A text between two others is behind the first or before the second.
strings-split :
    (s t u : String)
    → is_less (compare_strings s u) ≡ true
    → (is_less (compare_strings s t) || is_less (compare_strings t u)) ≡ true
strings-split s t u h = elim (order_cases (compare_strings s t)) [
  | inl same ↦
      let e : s ≡ t = path_by_compare s t same in
      let before : is_less (compare_strings t u) ≡ true =
        ap (λ x. is_less (compare_strings x u)) (sym e) ∙ h in
      ground (arith, before)
  | inr (inl before) ↦ ground (arith, ap is_less before)
  | inr (inr behind) ↦
      let turned : is_less (compare_strings t s) ≡ true =
        ap is_less (compare_strings-flip s t ∙ ap flip behind) in
      ground (arith, strings_trans t s u turned h)
]

module _ {V : Type 0} (Q : Values V) where
  -- `a` stands before `b` in the view
  abbrev pub precedes : OrderedKey V → OrderedKey V → Bool
  precedes a b =
      below Q a.val b.val || (not (below Q b.val a.val) && is_less (compare_strings a.key b.key))

  -- all values are numbers, or none is
  abbrev pub HasKind : Bool → OrderedKey V → Type 0
  HasKind numeric a = is_some (Q.as_number a.val) ≡ numeric

  -- A view of values of one kind, whose keys stand in order.
  pub record IsSorted (numeric : Bool) (view : List (OrderedKey V)) : Type 0 where
    pub kind : (i : ℕ) (a : OrderedKey V) → nth i view ≡ some a → HasKind numeric a
    pub ascending :
        (i j : ℕ) (a b : OrderedKey V)
        → i < j
        → nth i view ≡ some a
        → nth j view ≡ some b
        → precedes a b ≡ true

-- What the code relies on of `<` on float64 besides: a number between two others is above the first or
-- below the second.
abbrev pub IsWeak : {V : Type 0} → Values V → Type 0
IsWeak Q = (f g h : Q.F) → Q.less f h ≡ true → (Q.less f g || Q.less g h) ≡ true

less_by-signs :
    {V : Type 0} (I : IndexValues V) (o : Ordering) (k l : String)
    → less_by I o k l ≡ (is_less o || (not (is_greater o) && is_less (compare_strings k l)))
less_by-signs I Ordering.lt k l = refl
less_by-signs I Ordering.eq k l = refl
less_by-signs I Ordering.gt k l = refl

module _ {V : Type 0} (Q : Values V) (L : IsLinear Q) where
  open Q use {F, as_number, less}
  open L use {less-irrefl, less-trans}

  below_as-asym :
      (m n : Option F) (a b : V) → below_as Q m n a b ≡ true → below_as Q n m b a ≡ false
  below_as-asym (some f) (some g) a b h = ground (arith, less-irrefl f, less-trans f g f, h)
  below_as-asym none none a b h = strings-asym (Q.sprint a) (Q.sprint b) h
  below_as-asym none (some g) a b h = strings-asym (Q.sprint a) (Q.sprint b) h
  below_as-asym (some f) none a b h = strings-asym (Q.sprint a) (Q.sprint b) h

  module _ (weak : IsWeak Q) (numeric : Bool) where
    below_as-split :
        (m n o : Option F) (a b c : V)
        → is_some m ≡ numeric
        → is_some n ≡ numeric
        → is_some o ≡ numeric
        → below_as Q m o a c ≡ true
        → (below_as Q m n a b || below_as Q n o b c) ≡ true
    below_as-split (some f) (some g) (some i) a b c x y z h = weak f g i h
    below_as-split none none none a b c x y z h =
        strings-split (Q.sprint a) (Q.sprint b) (Q.sprint c) h
    below_as-split none (some g) o a b c x y z h =
        let bad : false ≡ true = x ∙ sym y in let no : ⊥ = cc bad in elim no [ ]
    below_as-split (some f) none o a b c x y z h =
        let bad : true ≡ false = x ∙ sym y in let no : ⊥ = cc bad in elim no [ ]
    below_as-split none none (some i) a b c x y z h =
        let bad : false ≡ true = x ∙ sym z in let no : ⊥ = cc bad in elim no [ ]
    below_as-split (some f) (some g) none a b c x y z h =
        let bad : true ≡ false = x ∙ sym z in let no : ⊥ = cc bad in elim no [ ]

    between :
        (a b c : OrderedKey V)
        → HasKind Q numeric a
        → HasKind Q numeric b
        → HasKind Q numeric c
        → below Q a.val c.val ≡ true
        → (below Q a.val b.val || below Q b.val c.val) ≡ true
    between a b c x y z =
        below_as-split (as_number a.val) (as_number b.val) (as_number c.val) a.val b.val c.val x y z

    -- Among keys whose values are of one kind the order is transitive.
    pub precedes_trans :
        (a b c : OrderedKey V)
        → HasKind Q numeric a
        → HasKind Q numeric b
        → HasKind Q numeric c
        → precedes Q a b ≡ true
        → precedes Q b c ≡ true
        → precedes Q a c ≡ true
    precedes_trans a b c x y z h k = ground (
      arith,
      h,
      k,
      between a c b x z y,
      between b a c y x z,
      between c b a z y x,
      below_as-asym (as_number a.val) (as_number b.val) a.val b.val,
      below_as-asym (as_number b.val) (as_number c.val) b.val c.val,
      strings_trans a.key b.key c.key,
    )

module _ {V : Type 0} (I : IndexValues V) (L : IsLinear I.Q) where
  -- The code's order is the described one.
  pub order_less_key-precedes : (a b : OrderedKey V) → order_less_key I a b ≡ precedes I.Q a b
  unfolding order_less_key
  order_less_key-precedes a b =
      less_by-signs I (compare I.Q a.val b.val) a.key b.key
      ∙ ap
          (λ x.
            x
            || (not (is_greater (compare I.Q a.val b.val))
                && is_less (compare_strings a.key b.key)))
          (is_less-compare I.Q L a.val b.val)
      ∙ ap (λ x. below I.Q a.val b.val || (not x && is_less (compare_strings a.key b.key)))
          (is_greater-compare I.Q L a.val b.val)
