-- ===== src/SecondaryIndex/Claiming.antt =====
-- txCheckUnique of engine/collection.go: the operations of one batch claim a unique key once.
use scriva.Prelude.{
  is_some, ℕ, ◌≡◌, ◌⊎◌, inl, inr, refl, sym, ap, subst, ◌∙◌, String, Bool, true, false, not, ◌&&◌,
  Option, none, some, Option-cases, Bool-cases, List, [], ◌∷◌, lookup, ◌==◌, nat_eq, string_eq,
  beq_iff, if_true, if_false,
}
use scriva.Store.{Codec}
use scriva.Collection.{Fields}
use scriva.SecondaryIndex.{SecondaryIndex, IndexValues, to_index_key, accepts}
use scriva.SecondaryIndex.Table.{
  Table, data_field, Claims, claim_value, claim_fields, claim_ops, tx_check,
}
use scriva.SecondaryIndex.Stakes.{claimed, Kept, claim_value-Kept, claim_value-own}

-- the value stands in the list
abbrev pub Among : {A : Type 0} → A → List A → Type 0
Among x [] = ⊥
Among x (y ∷ ys) = (y ≡ x) ⊎ Among x ys

module _ (C : Codec) (I : IndexValues C.V) where
  open C use {V}

  claim_fields-Kept :
      (seen : ℕ → Bool) (id : ℕ) (doc : Fields C) (t : Table C I) (m n : Claims C I)
      → claim_fields C I seen id doc t (some m) ≡ some n
      → Kept C I m n
  unfolding claim_fields
  claim_fields-Kept seen id doc [] m n h = subst (Kept C I m) (cc h) (λ g k i at. at)
  claim_fields-Kept seen id doc ((field, s) ∷ t) m n h =
      elim (Option-cases (claim_value C I seen id field s (data_field C I field doc) m)) [
        | inl gone ↦
            let bad : none ≡ some n = sym (ap (claim_fields C I seen id doc t) gone) ∙ h in cc bad
        | inr (m1, at1) ↦
            let rest : claim_fields C I seen id doc t (some m1) ≡ some n =
              sym (ap (claim_fields C I seen id doc t) at1) ∙ h in
            λ g k i at.
              claim_fields-Kept seen id doc t m1 n rest g k i
                (claim_value-Kept C I seen id field s (data_field C I field doc) m m1 at1 g k i at)
      ]

  claim_fields-own :
      (seen : ℕ → Bool) (id : ℕ) (doc : Fields C) (t : Table C I) (m n : Claims C I)
      (field : String) (s : SecondaryIndex V) (v : V)
      → claim_fields C I seen id doc t (some m) ≡ some n
      → lookup field t ≡ some s
      → (s.unique && accepts I v s) ≡ true
      → data_field C I field doc ≡ some v
      → claimed C I n field (to_index_key I v) ≡ some id
  unfolding claim_fields lookup
  claim_fields-own seen id doc [] m n field s v h at on d = cc at
  claim_fields-own seen id doc ((f, x) ∷ t) m n field s v h at on d =
      elim (Option-cases (claim_value C I seen id f x (data_field C I f doc) m)) [
        | inl gone ↦
            let bad : none ≡ some n = sym (ap (claim_fields C I seen id doc t) gone) ∙ h in cc bad
        | inr (m1, at1) ↦
            let rest : claim_fields C I seen id doc t (some m1) ≡ some n =
              sym (ap (claim_fields C I seen id doc t) at1) ∙ h in
            elim (Bool-cases (f == field)) [
              | inr differs ↦
                  claim_fields-own seen id doc t m1 n field s v rest
                    (sym (if_false (f == field) _ _ differs) ∙ at) on d
              | inl same ↦
                  let found : some x ≡ some s = sym (if_true (f == field) _ _ same) ∙ at in
                  let this : x ≡ s = cc found in
                  let name : f ≡ field = (beq_iff f field).0 same in
                  let step : claim_value C I seen id field s (some v) m ≡ some m1 =
                    sym (
                      ap (λ (g : String). claim_value C I seen id g x (data_field C I g doc) m) name
                      ∙ ap
                          (λ (y : SecondaryIndex V).
                            claim_value C I seen id field y (data_field C I field doc) m)
                          this
                      ∙ ap (λ (o : Option V). claim_value C I seen id field s o m) d)
                    ∙ at1 in
                  claim_fields-Kept seen id doc t m1 n rest field (to_index_key I v) id
                    (claim_value-own C I seen id field s v m m1 on step)
            ]
      ]

  claim_ops-none :
      (seen : ℕ → Bool) (t : Table C I) (ops : List (ℕ × Fields C))
      → claim_ops C I seen t ops none ≡ none
  unfolding claim_ops claim_fields
  claim_ops-none seen t [] = refl
  claim_ops-none seen [] ((id, doc) ∷ ops) = claim_ops-none seen [] ops
  claim_ops-none seen (e ∷ t) ((id, doc) ∷ ops) = claim_ops-none seen (e ∷ t) ops

  claim_ops-Kept :
      (seen : ℕ → Bool) (t : Table C I) (ops : List (ℕ × Fields C)) (m n : Claims C I)
      → claim_ops C I seen t ops (some m) ≡ some n
      → Kept C I m n
  unfolding claim_ops
  claim_ops-Kept seen t [] m n h = subst (Kept C I m) (cc h) (λ g k i at. at)
  claim_ops-Kept seen t ((id, doc) ∷ ops) m n h =
      elim (Option-cases (claim_fields C I seen id doc t (some m))) [
        | inl gone ↦
            let bad : none ≡ some n =
              sym (ap (claim_ops C I seen t ops) gone ∙ claim_ops-none seen t ops) ∙ h in
            cc bad
        | inr (m1, at1) ↦ λ g k i at.
            claim_ops-Kept seen t ops m1 n (sym (ap (claim_ops C I seen t ops) at1) ∙ h) g k i
              (claim_fields-Kept seen id doc t m m1 at1 g k i at)
      ]

  -- An operation of a batch that passed has its key at the end.
  claim_ops-own :
      (seen : ℕ → Bool) (t : Table C I) (ops : List (ℕ × Fields C)) (m n : Claims C I)
      (field : String) (s : SecondaryIndex V) (v : V) (id : ℕ) (doc : Fields C)
      → claim_ops C I seen t ops (some m) ≡ some n
      → lookup field t ≡ some s
      → (s.unique && accepts I v s) ≡ true
      → data_field C I field doc ≡ some v
      → Among (id, doc) ops
      → claimed C I n field (to_index_key I v) ≡ some id
  unfolding claim_ops
  claim_ops-own seen t [] m n field s v id doc h at on d mine = absurd mine
  claim_ops-own seen t ((j, other_doc) ∷ ops) m n field s v id doc h at on d mine =
      elim (Option-cases (claim_fields C I seen j other_doc t (some m))) [
        | inl gone ↦
            let bad : none ≡ some n =
              sym (ap (claim_ops C I seen t ops) gone ∙ claim_ops-none seen t ops) ∙ h in
            cc bad
        | inr (m1, at1) ↦
            let rest = sym (ap (claim_ops C I seen t ops) at1) ∙ h in
            elim mine [
              | inr later ↦ claim_ops-own seen t ops m1 n field s v id doc rest at on d later
              | inl this ↦
                  let first : claim_fields C I seen id doc t (some m) ≡ some m1 =
                    sym
                      (ap (λ (op : ℕ × Fields C). claim_fields C I seen op.0 op.1 t (some m)) this)
                    ∙ at1 in
                  claim_ops-Kept seen t ops m1 n rest field (to_index_key I v) id
                    (claim_fields-own seen id doc t m m1 field s v first at on d)
            ]
      ]

  -- When the uniqueness check of a batch passes, two of its inserts and updates that bring the same key
  -- to a unique index are of one record.
  pub tx_check-passed :
      (t : Table C I) (seen : ℕ → Bool) (ops : List (ℕ × Fields C)) (field : String)
      (s : SecondaryIndex V) (i j : ℕ) (a b : Fields C) (v w : V)
      → tx_check C I t seen ops ≡ false
      → lookup field t ≡ some s
      → s.unique ≡ true
      → Among (i, a) ops
      → data_field C I field a ≡ some v
      → accepts I v s ≡ true
      → Among (j, b) ops
      → data_field C I field b ≡ some w
      → accepts I w s ≡ true
      → to_index_key I v ≡ to_index_key I w
      → i ≡ j
  unfolding tx_check
  tx_check-passed t seen ops field s i j a b v w h at u p dv av q dw aw same =
      elim (Option-cases (claim_ops C I seen t ops (some []))) [
        | inl gone ↦
            let bad : true ≡ false =
              sym (ap (λ (o : Option (Claims C I)). not (is_some o)) gone) ∙ h in
            cc bad
        | inr (n, done) ↦
            let left : claimed C I n field (to_index_key I v) ≡ some i =
              claim_ops-own seen t ops [] n field s v i a done at
                (ap (λ x. x && accepts I v s) u ∙ av) dv p in
            let right : claimed C I n field (to_index_key I w) ≡ some j =
              claim_ops-own seen t ops [] n field s w j b done at
                (ap (λ x. x && accepts I w s) u ∙ aw) dw q in
            let both : some i ≡ some j = sym left ∙ ap (claimed C I n field) same ∙ right in cc both
      ]
