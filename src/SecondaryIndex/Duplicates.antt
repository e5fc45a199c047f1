-- ===== src/SecondaryIndex/Duplicates.antt =====
-- engine/secondary_index.go: which duplicated key firstDuplicate reports.
use Prim.Native.Nat.{Ordering}
use Prim.Native.String.{compare as compare_strings}
use Prim.Native.String.{[] as nil, ◌∷◌ as cons}
use Prim.Native.String.compare.{nil-cons}
use text.Mathlib.TextPositions.{compare_refl}
use text.Mathlib.TextEquality.{path_by_compare}
use scriva.Prelude.{
  ◌≡◌, ◌≢◌, ◌⊎◌, refl, sym, ap, subst, ◌∙◌, String, true, false, ◌||◌, [], ◌∷◌, All, ◌==◌,
  string_eq, beq_iff, beq_refl, lookup, some, if◌then◌else◌, if_true, if_false, Bool-cases, inl,
  inr, arith,
}
use scriva.Query.{is_less}
use scriva.Query.Comparing.{flip, compare_strings-flip, compare_strings_trans}
use scriva.SecondaryIndex.{KeySet}
use scriva.SecondaryIndex.KeyOrder.{is_less-lt, order_cases}
use scriva.SecondaryIndex.Rebuild.{first_key}

-- `a` is not above `b`
abbrev pub NotAbove : String → String → Type 0
NotAbove a b = is_less (compare_strings b a) ≡ false

-- a key that sorts before another is not above it
less-NotAbove : (a b : String) → compare_strings a b ≡ Ordering.lt → NotAbove a b
less-NotAbove a b h = ap is_less (compare_strings-flip a b ∙ ap flip h)

NotAbove-cases : (a b : String) → NotAbove a b → (a ≡ b) ⊎ (compare_strings a b ≡ Ordering.lt)
NotAbove-cases a b h = elim (order_cases (compare_strings a b)) [
  | inl same ↦ inl (path_by_compare a b same)
  | inr (inl before) ↦ inr before
  | inr (inr behind) ↦
      let bad : true ≡ false = sym (ap is_less (compare_strings-flip a b ∙ ap flip behind)) ∙ h in
      let absurd : ⊥ = cc bad in elim absurd [ ]
]

NotAbove-trans : (a b c : String) → NotAbove a b → NotAbove b c → NotAbove a c
NotAbove-trans a b c h k = elim (NotAbove-cases a b h) [
  | inl same ↦ subst (λ x. NotAbove x c) (sym same) k
  | inr before ↦ elim (NotAbove-cases b c k) [
    | inl same ↦ subst (NotAbove a) same h
    | inr further ↦ less-NotAbove a c (compare_strings_trans a b c before further)
  ]
]

not_empty : (s : String) → s ≢ "" → (s == "") ≡ false
not_empty s h = elim (Bool-cases (s == "")) [
  | inl same ↦ let bad : ⊥ = h ((beq_iff s "").0 same) in elim bad [ ]
  | inr differs ↦ differs
]

abbrev pub Named : KeySet → Type 0
Named = All (λ e. e.0 ≢ "")

-- a key that is above none of a set
abbrev pub AboveNone : String → KeySet → Type 0
AboveNone r = All (λ e. NotAbove r e.0)

-- the reported key is not above the one that the loop starts from, nor above any of the rest
abbrev IsLeast : String → String → KeySet → Type 0
IsLeast r first m = NotAbove r first × All (λ e. NotAbove r e.0) m

first_key-IsLeast :
    (first : String) (m : KeySet) → first ≢ "" → Named m → IsLeast (first_key first m) first m
unfolding first_key
first_key-IsLeast first [] f n = (ap is_less (compare_refl first), tt)
first_key-IsLeast first ((k, u) ∷ m) f n = elim (Bool-cases (is_less (compare_strings k first))) [
  | inl before ↦
      let next : (if (first == "") || is_less (compare_strings k first) then k else first) ≡ k =
        if_true ((first == "") || is_less (compare_strings k first)) _ _ (ground arith) in
      let rest = first_key-IsLeast k m n.0 n.1 in
      subst (λ x. IsLeast (first_key x m) first ((k, u) ∷ m)) (sym next)
        (
          NotAbove-trans _ k first rest.0 (less-NotAbove k first (is_less-lt _ before)),
          (rest.0, rest.1),
        )
  | inr behind ↦
      let next : (if (first == "") || is_less (compare_strings k first) then k else first) ≡ first =
        if_false ((first == "") || is_less (compare_strings k first)) _ _
          (ground (arith, not_empty first f)) in
      let rest = first_key-IsLeast first m f n.1 in
      subst (λ x. IsLeast (first_key x m) first ((k, u) ∷ m)) (sym next)
        (rest.0, (NotAbove-trans _ first k rest.0 behind, rest.1))
]

lookup-first_key :
    (first : String) (m : KeySet)
    → first ≢ ""
    → Named m
    → lookup (first_key first m) ((first, tt) ∷ m) ≡ some tt
unfolding first_key lookup
lookup-first_key first [] f n = ground (arith, beq_refl first)
lookup-first_key first ((k, u) ∷ m) f n = elim (Bool-cases (is_less (compare_strings k first))) [
  | inl before ↦
      let next : (if (first == "") || is_less (compare_strings k first) then k else first) ≡ k =
        if_true ((first == "") || is_less (compare_strings k first)) _ _ (ground arith) in
      subst (λ x. lookup (first_key x m) ((first, tt) ∷ (k, tt) ∷ m) ≡ some tt) (sym next)
        (ground (arith, lookup-first_key k m n.0 n.1))
  | inr behind ↦
      let next : (if (first == "") || is_less (compare_strings k first) then k else first) ≡ first =
        if_false ((first == "") || is_less (compare_strings k first)) _ _
          (ground (arith, not_empty first f)) in
      subst (λ x. lookup (first_key x m) ((first, tt) ∷ (k, tt) ∷ m) ≡ some tt) (sym next)
        (ground (arith, lookup-first_key first m f n.1))
]

-- Unless the empty key is duplicated, the key that firstDuplicate reports is one of the duplicated keys
-- and the smallest of them, in whatever order the map yields them.
pub first_key-Least :
    (d : String × Unit {0}) (ds : KeySet)
    → Named (d ∷ ds)
    → (lookup (first_key "" (d ∷ ds)) (d ∷ ds) ≡ some tt)
      × AboveNone (first_key "" (d ∷ ds)) (d ∷ ds)
unfolding first_key
first_key-Least d ds n = (lookup-first_key d.0 ds n.0 n.1, first_key-IsLeast d.0 ds n.0 n.1)

empty_first : (k : String) → k ≢ "" → compare_strings "" k ≡ Ordering.lt
empty_first nil h = let bad : ⊥ = h refl in elim bad [ ]
empty_first (cons c k) h = nil-cons c k

-- When the empty key is one of two duplicated keys, the report depends on the order in which the map
-- yields them: the empty key, the smallest of all, is passed over when it comes first.
pub first_key-order :
    (k : String)
    → k ≢ ""
    → (first_key "" (("", tt) ∷ (k, tt) ∷ []) ≡ k) × (first_key "" ((k, tt) ∷ ("", tt) ∷ []) ≡ "")
unfolding first_key
first_key-order k h = (
  refl,
  if_true ((k == "") || is_less (compare_strings "" k)) _ _ (ground (arith, empty_first k h)),
)
