-- ===== src/SecondaryIndex/Stakes.antt =====
-- txCheckUnique of engine/collection.go: the map of the claimed keys.
use scriva.Prelude.{
  ℕ, ◌≡◌, inl, inr, sym, ap, subst, ◌∙◌, String, Bool, true, false, ◌&&◌, Option, none, some,
  Bool-cases, Dict, lookup, insert, lookup-insert, ◌==◌, nat_eq, string_eq, beq_iff, beq_refl,
  if◌then◌else◌, if_true, if_false, arith,
}
use scriva.Store.{Codec}
use scriva.SecondaryIndex.{SecondaryIndex, IndexValues, to_index_key, accepts, lookup_ids}
use scriva.SecondaryIndex.Table.{
  sidx_conflict, Claims, by_value, taken_by_other, stake, claim_value,
}

module _ (C : Codec) (I : IndexValues C.V) where
  open C use {V}

  -- the id that claims a key of a field
  abbrev pub claimed : Claims C I → String → String → Option ℕ
  claimed m field key = lookup key (by_value C I (lookup field m))

  -- Claims stay with their ids.
  abbrev pub Kept : Claims C I → Claims C I → Type 0
  Kept m n =
      (field key : String) (i : ℕ) → claimed m field key ≡ some i → claimed n field key ≡ some i

  taken-same : (id i : ℕ) (o : Option ℕ) → taken_by_other C I id o ≡ false → o ≡ some i → i ≡ id
  taken-same id i none h at = cc at
  taken-same id i (some prev) h at = ground (arith, beq_iff prev id, h, at)

  -- what a successful stake makes of the claims
  stake-result :
      (field key : String) (id : ℕ) (m n : Claims C I)
      → stake C I field key id m ≡ some n
      → (taken_by_other C I id (claimed m field key) ≡ false)
        × (insert field (insert key id (by_value C I (lookup field m))) m ≡ n)
  unfolding stake
  stake-result field key id m n h =
      elim (Bool-cases (taken_by_other C I id (claimed m field key))) [
        | inl t ↦ let bad : none ≡ some n = sym (if_true _ _ _ t) ∙ h in cc bad
        | inr f ↦
            let good : some (insert field (insert key id (by_value C I (lookup field m))) m)
                ≡ some n =
              sym (if_false _ _ _ f) ∙ h in
            (f, cc good)
      ]

  claimed-insert :
      (field : String) (m : Claims C I) (staked : Dict String ℕ) (g k : String)
      → claimed (insert field staked m) g k
        ≡ (if field == g then lookup k staked else claimed m g k)
  claimed-insert field m staked g k =
      ap (λ (o : Option (Dict String ℕ)). lookup k (by_value C I o))
        (lookup-insert field g staked m)
      ∙ ground arith

  stake-own :
      (field key : String) (id : ℕ) (m n : Claims C I)
      → stake C I field key id m ≡ some n
      → claimed n field key ≡ some id
  stake-own field key id m n h =
      let staked = by_value C I (lookup field m) in
      subst (λ (x : Claims C I). claimed x field key ≡ some id) (stake-result field key id m n h).1
        (claimed-insert field m (insert key id staked) field key
          ∙ if_true (field == field) _ _ (beq_refl field)
          ∙ lookup-insert key key id staked
          ∙ if_true (key == key) _ _ (beq_refl key))

  stake-Kept :
      (field key : String) (id : ℕ) (m n : Claims C I)
      → stake C I field key id m ≡ some n
      → Kept m n
  stake-Kept field key id m n h g k i at =
      let staked = by_value C I (lookup field m) in
      let (free, made) = stake-result field key id m n h in
      subst (λ (x : Claims C I). claimed x g k ≡ some i) made
        (claimed-insert field m (insert key id staked) g k ∙ elim (Bool-cases (field == g)) [
          | inr differs ↦ if_false (field == g) _ _ differs ∙ at
          | inl same ↦
              let here : claimed m field k ≡ some i =
                ap (λ (f : String). claimed m f k) ((beq_iff field g).0 same) ∙ at in
              if_true (field == g) _ _ same
              ∙ lookup-insert key k id staked
              ∙ elim (Bool-cases (key == k)) [
                | inr other ↦ if_false (key == k) _ _ other ∙ here
                | inl that ↦
                    if_true (key == k) _ _ that
                    ∙ ap (λ (j : ℕ). some j)
                        (sym (
                          taken-same id i (claimed m field key) free
                            (ap (claimed m field) ((beq_iff key k).0 that) ∙ here)))
              ]
        ])

  -- What a step did that did not refuse: claims stay, and a key of its own on a unique index is claimed.
  pub claim_value-Kept :
      (seen : ℕ → Bool) (id : ℕ) (field : String) (s : SecondaryIndex V) (o : Option V)
      (m n : Claims C I)
      → claim_value C I seen id field s o m ≡ some n
      → Kept m n
  unfolding claim_value
  claim_value-Kept seen id field s none m n h = subst (Kept m) (cc h) (λ g k i at. at)
  claim_value-Kept seen id field s (some v) m n h =
      let key = to_index_key I v in
      elim (Bool-cases (s.unique && accepts I v s)) [
        | inr off ↦
            let same : some m ≡ some n = sym (if_false _ _ _ off) ∙ h in
            subst (Kept m) (cc same) (λ g k i at. at)
        | inl on ↦ elim (Bool-cases (sidx_conflict seen id (lookup_ids key s))) [
          | inl hit ↦
              let bad : none ≡ some n = sym (if_true _ _ _ on ∙ if_true _ _ _ hit) ∙ h in cc bad
          | inr miss ↦
              stake-Kept field key id m n (sym (if_true _ _ _ on ∙ if_false _ _ _ miss) ∙ h)
        ]
      ]

  pub claim_value-own :
      (seen : ℕ → Bool) (id : ℕ) (field : String) (s : SecondaryIndex V) (v : V) (m n : Claims C I)
      → (s.unique && accepts I v s) ≡ true
      → claim_value C I seen id field s (some v) m ≡ some n
      → claimed n field (to_index_key I v) ≡ some id
  unfolding claim_value
  claim_value-own seen id field s v m n on h =
      let key = to_index_key I v in
      elim (Bool-cases (sidx_conflict seen id (lookup_ids key s))) [
        | inl hit ↦
            let bad : none ≡ some n = sym (if_true _ _ _ on ∙ if_true _ _ _ hit) ∙ h in cc bad
        | inr miss ↦ stake-own field key id m n (sym (if_true _ _ _ on ∙ if_false _ _ _ miss) ∙ h)
      ]
