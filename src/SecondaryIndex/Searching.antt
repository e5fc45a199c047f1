-- ===== src/SecondaryIndex/Searching.antt =====
-- engine/secondary_index.go: the binary search behind the ordered view.
use scriva.Prelude.{
  length, ℕ, zero, suc, ◌+◌, ◌/◌, ◌≤◌, ◌<◌, ◌≡◌, sym, subst, ◌∙◌, Bool, true, false, ltb, if_true,
  if_false, Bool-cases, Option-cases, some, not, List, [], ◌∷◌, refl, ap, inl, inr, arith,
}
use scriva.Query.Comparing.{IsLinear}
use scriva.SecondaryIndex.KeyOrder.{
  precedes, HasKind, IsSorted, IsWeak, precedes_trans, order_less_key-precedes,
}
use scriva.SecondaryIndex.{
  search_in, search_index, IndexValues, OrderedKey, SecondaryIndex, not_before, nth, search_sorted,
}

-- The test fails below `r`, and holds from `r` up to `n`.
abbrev Splits : (ℕ → Bool) → ℕ → ℕ → Type 0
Splits f n r = (r ≤ n) × ((k : ℕ) → k < r → f k ≡ false) × ((k : ℕ) → r ≤ k → k < n → f k ≡ true)

abbrev Monotone : (ℕ → Bool) → Type 0
Monotone f = (i j : ℕ) → i ≤ j → f i ≡ true → f j ≡ true

not-false : (b : Bool) → not b ≡ false → b ≡ true
not-false b h = ground (arith, h)

not-true : (b : Bool) → not b ≡ true → b ≡ false
not-true b h = ground (arith, h)

nth-length {ℓ} : {A : Type ℓ} (k : ℕ) (xs : List A) (a : A) → nth k xs ≡ some a → k < length xs
nth-length k [] a h = let bad : ⊥ = cc h in elim bad [ ]
nth-length zero (x ∷ xs) a h = omega arith
nth-length (suc k) (x ∷ xs) a h = omega (arith, nth-length k xs a h)

nth-below {ℓ} :
    {A : Type ℓ} (i j : ℕ) (xs : List A) (b : A)
    → i ≤ j
    → nth j xs ≡ some b
    → (a : A) × (nth i xs ≡ some a)
nth-below i j [] b le h = let bad : ⊥ = cc h in elim bad [ ]
nth-below zero j (x ∷ xs) b le h = (x, refl)
nth-below (suc i) zero (x ∷ xs) b le h = let bad : ⊥ = omega (arith, le) in elim bad [ ]
nth-below (suc i) (suc j) (x ∷ xs) b le h = nth-below i j xs b (omega (arith, le)) h

module _ (f : ℕ → Bool) (n : ℕ) (mono : Monotone f) where
  below : (h k : ℕ) → f h ≡ false → k ≤ h → f k ≡ false
  below h k fails le = elim (Bool-cases (f k)) [
    | inl holds ↦ let bad : false ≡ true = sym fails ∙ mono k h le holds in cc bad
    | inr none_here ↦ none_here
  ]

  search_in-Splits :
      (fuel i j : ℕ)
      → j ≤ i + fuel
      → i ≤ j
      → j ≤ n
      → ((k : ℕ) → k < i → f k ≡ false)
      → ((k : ℕ) → j ≤ k → k < n → f k ≡ true)
      → Splits f n (search_in fuel i j f)
  unfolding search_in
  search_in-Splits zero i j enough ij jn low high =
      (omega arith, low, λ k ik kn. high k (omega arith) kn)
  search_in-Splits (suc fuel) i j enough ij jn low high = elim (Bool-cases (ltb i j)) [
    | inl open_range ↦
        subst (Splits f n) (sym (if_true (ltb i j) _ _ open_range))
          (elim (Bool-cases (f ((i + j) / 2))) [
            | inl holds ↦
                subst (λ (b : ℕ × ℕ). Splits f n (search_in fuel b.0 b.1 f))
                  (sym (if_true (f ((i + j) / 2)) _ _ holds))
                  (search_in-Splits fuel i ((i + j) / 2) (ground arith) (ground arith)
                    (ground arith) low (λ k hk kn. mono ((i + j) / 2) k hk holds))
            | inr fails ↦
                subst (λ (b : ℕ × ℕ). Splits f n (search_in fuel b.0 b.1 f))
                  (sym (if_false (f ((i + j) / 2)) _ _ fails))
                  (search_in-Splits fuel (suc ((i + j) / 2)) j (ground arith) (ground arith) jn
                    (λ k kh. below ((i + j) / 2) k fails (ground arith)) high)
          ])
    | inr closed ↦
        subst (Splits f n) (sym (if_false (ltb i j) _ _ closed))
          ((ground arith), low, λ k ik kn. high k (ground arith) kn)
  ]

-- The binary search of a monotone test, by its rounds.
search_index-Splits : (f : ℕ → Bool) (n : ℕ) → Monotone f → Splits f n (search_index n f)
unfolding search_index
search_index-Splits f n mono =
    search_in-Splits f n mono n 0 n (omega arith) (omega arith) (omega arith)
      (λ k below_zero. ground arith) (λ k above above'. ground arith)

module _ {V : Type 0} (I : IndexValues V) (L : IsLinear I.Q) (weak : IsWeak I.Q) (numeric : Bool)
    (target : OrderedKey V) (s : SecondaryIndex V) where
  -- the keys before the position precede the target, and the keys from there on do not
  abbrev pub IsPlace : ℕ → Type 0
  IsPlace r =
      (r ≤ length s.sorted)
      × ((k : ℕ) (a : OrderedKey V)
          → k < r
          → nth k s.sorted ≡ some a
          → precedes I.Q a target ≡ true)
      × ((k : ℕ) (a : OrderedKey V)
          → r ≤ k
          → nth k s.sorted ≡ some a
          → precedes I.Q a target ≡ false)

  not_before-some :
      (k : ℕ) (a : OrderedKey V)
      → nth k s.sorted ≡ some a
      → not_before I target (nth k s.sorted) ≡ not (precedes I.Q a target)
  unfolding not_before
  not_before-some k a at =
      ap (not_before I target) at ∙ ap not (order_less_key-precedes I L a target)

  -- behind a key that does not precede the target stands no other that does
  sorted-Monotone :
      HasKind I.Q numeric target
      → IsSorted I.Q numeric s.sorted
      → Monotone (λ i. not_before I target (nth i s.sorted))
  unfolding not_before
  sorted-Monotone mine sorted i j le h = elim (Option-cases (nth j s.sorted)) [
    | inl gone ↦ ap (not_before I target) gone
    | inr (b, at_j) ↦
        let (a, at_i) = nth-below i j s.sorted b le at_j in
        elim (Bool-cases (precedes I.Q b target)) [
          | inr behind ↦ not_before-some j b at_j ∙ ap not behind
          | inl before ↦ elim (Bool-cases (ltb i j)) [
            | inl apart ↦
                let first =
                  precedes_trans I.Q L weak numeric a b target (sorted.kind i a at_i)
                    (sorted.kind j b at_j) mine
                    (sorted.ascending i j a b (ground (arith, apart)) at_i at_j) before in
                let bad : true ≡ false = sym h ∙ not_before-some i a at_i ∙ ap not first in
                let no : ⊥ = cc bad in elim no [ ]
            | inr same ↦
                let e : i ≡ j = ground (arith, le, same) in
                ap (λ n. not_before I target (nth n s.sorted)) (sym e) ∙ h
          ]
        ]
  ]

  -- On a view of values of one kind whose keys stand in order, with numbers that are weakly ordered and a
  -- target of the same kind, searchSorted ends, within as many rounds as the view has keys, where the
  -- keys that precede the target end: by value, and by key where neither value is below the other.
  pub search_sorted-Splits :
      HasKind I.Q numeric target
      → IsSorted I.Q numeric s.sorted
      → IsPlace (search_sorted I target s)
  unfolding search_sorted
  search_sorted-Splits mine sorted =
      let (bound, low, high) =
        search_index-Splits (λ i. not_before I target (nth i s.sorted)) (length s.sorted)
          (sorted-Monotone mine sorted) in
      (
        bound,
        λ k a under at.
            not-false (precedes I.Q a target) (sym (not_before-some k a at) ∙ low k under),
        λ k a over at.
            not-true (precedes I.Q a target)
              (sym (not_before-some k a at) ∙ high k over (nth-length k s.sorted a at)),
      )
