-- ===== src/Auth/Resolution.antt =====
-- What a key set that was built from the configured keys resolves a presented key to.
use scriva.Prelude.{
  is_some, String, ◌≡◌, refl, sym, ap, subst, ◌∙◌, false, Option, none, some, List, [], ◌∷◌, Dict,
  lookup, insert, lookup-insert, All, All-map, ◌==◌, beq_iff, string_eq, Bool-cases, inl, inr,
  if◌then◌else◌, if_true, if_false, Option-cases, arith,
}
use scriva.Auth.{Principal}
use scriva.Auth.Keys.{
  ApiKey, KeyEntry, KeyError, Built, built, rejected, principal_of, build_entries, build_key_set,
  find_key, lookup_key, with_entry,
}

with_entry-built :
    (e : KeyEntry) (r : Built) (es : List KeyEntry)
    → with_entry e r ≡ built es
    → (rest : List KeyEntry) × (es ≡ e ∷ rest) × (r ≡ built rest)
with_entry-built e (rejected err) es h = let bad : ⊥ = cc h in elim bad [ ]
with_entry-built e (built rest) es h = (rest, cc h, refl)

entry_of : (String → String) → ApiKey → KeyEntry
entry_of key_id k = record { key = k.key; principal = principal_of key_id k }

-- what a key set that was built says of its first key
build_entries-cons :
    (key_id : String → String) (seen : Dict String String) (k : ApiKey) (ks : List ApiKey)
    (es : List KeyEntry)
    → build_entries key_id seen (k ∷ ks) ≡ built es
    → (rest : List KeyEntry) × (es ≡ entry_of key_id k ∷ rest)
      × (build_entries key_id (insert k.key k.name seen) ks ≡ built rest)
      × (lookup k.key seen ≡ none)
unfolding build_entries entry_of
build_entries-cons key_id seen k ks es h = elim (Bool-cases (k.key == "")) [
  | inl empty ↦
      let bad : rejected (KeyError.empty_key k.name) ≡ built es = sym (if_true _ _ _ empty) ∙ h in
      let absurd : ⊥ = cc bad in elim absurd [ ]
  | inr named ↦ elim (Option-cases (lookup k.key seen)) [
    | inr (prev, twice) ↦
        let bad : rejected (KeyError.duplicate_key_value k.name) ≡ built es =
          sym (if_true (is_some (lookup k.key seen)) _ _ (ap is_some twice))
          ∙ sym (if_false _ _ _ named)
          ∙ h in
        let absurd : ⊥ = cc bad in elim absurd [ ]
    | inl fresh ↦
        let made = with_entry-built _ _ es (
          sym (if_false (is_some (lookup k.key seen)) _ _ (ap is_some fresh))
          ∙ sym (if_false _ _ _ named)
          ∙ h) in
        (made.0, made.1, made.2, fresh)
  ]
]

-- A key that is not in a map after an insertion was not in it before, and is another key.
insert-Fresh :
    (k : String) (n : String) (seen : Dict String String) (x : String)
    → lookup x (insert k n seen) ≡ none
    → (lookup x seen ≡ none) × ((x == k) ≡ false)
insert-Fresh k n seen x h = ground (arith, lookup-insert k x n seen, beq_iff k x, beq_iff x k)

-- No entry carries a key that was seen before.
build_entries-Fresh :
    (key_id : String → String) (seen : Dict String String) (ks : List ApiKey) (es : List KeyEntry)
    → build_entries key_id seen ks ≡ built es
    → All (λ e. lookup e.key seen ≡ none) es
unfolding build_entries entry_of
build_entries-Fresh key_id seen [] es h =
    let shape : [] ≡ es = cc h in subst (All (λ e. lookup e.key seen ≡ none)) shape tt
build_entries-Fresh key_id seen (k ∷ ks) es h =
    let made = build_entries-cons key_id seen k ks es h in
    subst (All (λ e. lookup e.key seen ≡ none)) (sym made.1) (
      made.3,
      All-map made.0 (λ e later. (insert-Fresh k.key k.name seen e.key later).0)
          (build_entries-Fresh key_id (insert k.key k.name seen) ks made.0 made.2),
    )

find_key-Other :
    (x : String) (es : List KeyEntry) (found : Option Principal)
    → All (λ e. (e.key == x) ≡ false) es
    → find_key x es found ≡ found
unfolding find_key
find_key-Other x [] found h = refl
find_key-Other x (e ∷ es) found h =
    ap (find_key x es) (if_false (e.key == x) (some e.principal) found h.0)
    ∙ find_key-Other x es found h.1

-- the first configured key with the presented value
abbrev pub configured : (String → String) → String → List ApiKey → Option Principal
configured key_id x [] = none
configured key_id x (k ∷ ks) =
    if k.key == x then some (principal_of key_id k) else configured key_id x ks

build_entries-configured :
    (key_id : String → String) (x : String) (seen : Dict String String) (ks : List ApiKey)
    (es : List KeyEntry)
    → build_entries key_id seen ks ≡ built es
    → find_key x es none ≡ configured key_id x ks
unfolding build_entries find_key entry_of
build_entries-configured key_id x seen [] es h =
    let shape : [] ≡ es = cc h in subst (λ l. find_key x l none ≡ none) shape refl
build_entries-configured key_id x seen (k ∷ ks) es h =
    let made = build_entries-cons key_id seen k ks es h in
    subst (λ l. find_key x l none ≡ configured key_id x (k ∷ ks)) (sym made.1)
      (elim (Bool-cases (k.key == x)) [
        | inl same ↦
            ap (find_key x made.0) (if_true (k.key == x) _ _ same)
            ∙ find_key-Other x made.0 _ (
                All-map made.0
                  (λ e later.
                    subst (λ s. (e.key == s) ≡ false) ((beq_iff k.key x).0 same)
                      (insert-Fresh k.key k.name seen e.key later).1)
                  (build_entries-Fresh key_id (insert k.key k.name seen) ks made.0 made.2))
            ∙ sym (if_true (k.key == x) _ _ same)
        | inr other ↦
            ap (find_key x made.0) (if_false (k.key == x) _ _ other)
            ∙ build_entries-configured key_id x (insert k.key k.name seen) ks made.0 made.2
            ∙ sym (if_false (k.key == x) _ _ other)
      ])

-- A presented key resolves, in a key set that was built, to the principal of the first configured key
-- with that value, and to none when there is no such key: the loop that never stops early agrees with
-- a search that does.
pub lookup_key-configured :
    (key_id : String → String) (x : String) (ks : List ApiKey) (es : List KeyEntry)
    → build_key_set key_id ks ≡ built es
    → lookup_key x es ≡ configured key_id x ks
unfolding build_key_set lookup_key
lookup_key-configured key_id x ks es h = build_entries-configured key_id x [] ks es h

-- No key of a key set that was built resolves to the unrestrained principal.
pub configured-unrestrained :
    (key_id : String → String) (x : String) (ks : List ApiKey) (p : Principal)
    → configured key_id x ks ≡ some p
    → p.unrestrained ≡ false
configured-unrestrained key_id x [] p h = let bad : ⊥ = cc h in elim bad [ ]
configured-unrestrained key_id x (k ∷ ks) p h = elim (Bool-cases (k.key == x)) [
  | inl same ↦
      let found : some (principal_of key_id k) ≡ some p = sym (if_true (k.key == x) _ _ same) ∙ h in
      let who : principal_of key_id k ≡ p = cc found in
      ap (λ (q : Principal). q.unrestrained) (sym who)
  | inr other ↦ configured-unrestrained key_id x ks p (sym (if_false (k.key == x) _ _ other) ∙ h)
]
