-- ===== src/SecondaryIndex/Uniqueness.antt =====
-- engine/secondary_index.go and engine/collection.go: what the uniqueness check and the absence of
-- duplicate markers say of the holders of a key.
use scriva.Prelude.{
  is_some, ℕ, ◌≡◌, refl, sym, ap, subst, ◌∙◌, String, Bool, true, false, ◌&&◌, ◌||◌, Option, none,
  some, [], ◌∷◌, lookup, All, length, ltb, ◌==◌, nat_eq, string_eq, beq_iff, beq_refl, if_true,
  if_false, Bool-cases, inl, inr, arith,
}
use scriva.Store.{Codec}
use scriva.Collection.{Fields}
use scriva.SecondaryIndex.{
  IdSet, KeySet, SecondaryIndex, IndexValues, to_index_key, accepts, ids_of, lookup_ids,
}
use scriva.SecondaryIndex.Buckets.{has, bucket}
use scriva.SecondaryIndex.Consistency.{
  is_key, Consistent, update_id-Consistent, remove_id-Consistent, add-Consistent,
}
use scriva.SecondaryIndex.Rebuild.{some_duplicate, first_duplicate}
use scriva.SecondaryIndex.Table.{
  sidx_conflict, Table, data_field, claims, sidx_check, add_value, sidx_index_entry, update_value,
  sidx_update_entry, sidx_remove_entry,
}

conflict-seen :
    (seen : ℕ → Bool) (id j : ℕ) (b : IdSet)
    → sidx_conflict seen id (ids_of b) ≡ false
    → has j b ≡ true
    → (j == id) ≡ false
    → seen j ≡ false
unfolding sidx_conflict
conflict-seen seen id j [] h held n = cc held
conflict-seen seen id j ((i, u) ∷ b) h held n =
    ground (arith, conflict-seen seen id j b, beq_iff i j)

module _ {V : Type 0} (I : IndexValues V) where
  held-has :
      (s : SecondaryIndex V) (k : String) (j : ℕ)
      → Consistent I s
      → lookup j s.reverse ≡ some k
      → has j (bucket I k s) ≡ true
  held-has s k j c h = c.listed k j ∙ ap (is_key k) h ∙ beq_refl k

  claims-seen :
      (seen : ℕ → Bool) (id j : ℕ) (s : SecondaryIndex V) (v : V)
      → sidx_conflict seen id (lookup_ids (to_index_key I v) s) ≡ false
      → Consistent I s
      → (j == id) ≡ false
      → lookup j s.reverse ≡ some (to_index_key I v)
      → seen j ≡ false
  unfolding lookup_ids
  claims-seen seen id j s v h c n held =
      conflict-seen seen id j (bucket I (to_index_key I v) s) h (held-has s _ j c held) n

  at_most_one :
      (b : IdSet) (i j : ℕ) → ltb 1 (length b) ≡ false → has i b ≡ true → has j b ≡ true → i ≡ j
  at_most_one [] i j h p q = cc p
  at_most_one ((x, u) ∷ []) i j h p q = ground (arith, beq_iff x i, beq_iff x j)
  at_most_one ((x, u) ∷ y ∷ b) i j h p q = let bad : ⊥ = ground arith in elim bad [ ]

  no_duplicate-dups :
      (n : ℕ) (ds : KeySet) (s : SecondaryIndex V) → some_duplicate n ds s ≡ none → ds ≡ []
  unfolding some_duplicate
  no_duplicate-dups n [] s h = refl
  no_duplicate-dups n (d ∷ ds) s h = let bad : ⊥ = cc h in elim bad [ ]

  -- An index whose maps agree and that reports no duplicate has at most one record under each key.
  pub first_duplicate-none :
      (n : ℕ) (s : SecondaryIndex V) (k : String) (i j : ℕ)
      → Consistent I s
      → first_duplicate n s ≡ none
      → lookup i s.reverse ≡ some k
      → lookup j s.reverse ≡ some k
      → i ≡ j
  unfolding first_duplicate lookup
  first_duplicate-none n s k i j c h p q =
      at_most_one (bucket I k s) i j
        (sym (c.marked k)
          ∙ ap (λ (d : KeySet). is_some (lookup k d)) (no_duplicate-dups n s.dups s h))
        (held-has s k i c p) (held-has s k j c q)

module _ (C : Codec) (I : IndexValues C.V) where
  open C use {V}

  or_false : (a b : Bool) → (a || b) ≡ false → (a ≡ false) × (b ≡ false)
  or_false a b h = ground arith

  -- what the check of one unique index comes to
  passed :
      (s : SecondaryIndex V) (v : V) (o : Option V) (seen : ℕ → Bool) (id : ℕ)
      → s.unique ≡ true
      → o ≡ some v
      → accepts I v s ≡ true
      → (s.unique && claims C I seen id s o)
        ≡ sidx_conflict seen id (lookup_ids (to_index_key I v) s)
  passed s v o seen id u d a =
      ap (λ b. b && claims C I seen id s o) u
      ∙ ap (claims C I seen id s) d
      ∙ ap (λ b. b && sidx_conflict seen id (lookup_ids (to_index_key I v) s)) a

  -- After a uniqueness check that passes, no other visible record holds the key that a document has on
  -- a unique index.
  pub sidx_check-passed :
      (m : Table C I) (seen : ℕ → Bool) (id : ℕ) (doc : Fields C) (field : String)
      (s : SecondaryIndex V) (v : V) (j : ℕ)
      → sidx_check C I m seen id doc ≡ false
      → lookup field m ≡ some s
      → s.unique ≡ true
      → data_field C I field doc ≡ some v
      → accepts I v s ≡ true
      → Consistent I s
      → lookup j s.reverse ≡ some (to_index_key I v)
      → (j == id) ≡ false
      → seen j ≡ false
  unfolding sidx_check lookup
  sidx_check-passed [] seen id doc field s v j h at u d a c held n = cc at
  sidx_check-passed ((f, t) ∷ m) seen id doc field s v j h at u d a c held n =
      elim (Bool-cases (f == field)) [
        | inl same ↦
            let found : some t ≡ some s =
              sym (if_true (f == field) (some t) (lookup field m) same) ∙ at in
            let this : t ≡ s = cc found in
            let there =
              subst
                (λ (x : SecondaryIndex V).
                  (x.unique && claims C I seen id x (data_field C I field doc)) ≡ false)
                this
                (subst (λ g. (t.unique && claims C I seen id t (data_field C I g doc)) ≡ false)
                  ((beq_iff f field).0 same) (or_false _ _ h).0) in
            claims-seen I seen id j s v
              (sym (passed s v (data_field C I field doc) seen id u d a) ∙ there) c n held
        | inr differs ↦
            sidx_check-passed m seen id doc field s v j (or_false _ _ h).1
              (sym (if_false (f == field) (some t) (lookup field m) differs) ∙ at) u d a c held n
      ]

  -- every index of the table agrees with itself
  abbrev pub AllConsistent : Table C I → Type 0
  AllConsistent = All (λ e. Consistent I e.1)

  update_value-Consistent :
      (id : ℕ) (o : Option V) (s : SecondaryIndex V)
      → Consistent I s
      → Consistent I (update_value C I id o s)
  update_value-Consistent id none s c = remove_id-Consistent I id s c
  update_value-Consistent id (some v) s c = update_id-Consistent I id v s c

  add_value-Consistent :
      (id : ℕ) (o : Option V) (s : SecondaryIndex V)
      → lookup id s.reverse ≡ none
      → Consistent I s
      → Consistent I (add_value C I id o s)
  add_value-Consistent id none s h c = c
  add_value-Consistent id (some v) s h c = add-Consistent I v id s h c

  update_entry-Consistent :
      (id : ℕ) (doc : Fields C) (m : Table C I)
      → AllConsistent m
      → AllConsistent (sidx_update_entry C I id doc m)
  unfolding sidx_update_entry
  update_entry-Consistent id doc [] h = tt
  update_entry-Consistent id doc ((field, s) ∷ m) h = (
    update_value-Consistent id (data_field C I field doc) s h.0,
    update_entry-Consistent id doc m h.1,
  )

  remove_entry-Consistent :
      (id : ℕ) (m : Table C I) → AllConsistent m → AllConsistent (sidx_remove_entry C I id m)
  unfolding sidx_remove_entry
  remove_entry-Consistent id [] h = tt
  remove_entry-Consistent id ((field, s) ∷ m) h =
      (remove_id-Consistent I id s h.0, remove_entry-Consistent id m h.1)

  -- no index of the table knows the id
  abbrev pub IsNew : ℕ → Table C I → Type 0
  IsNew id = All (λ e. lookup id e.1.reverse ≡ none)

  index_entry-Consistent :
      (id : ℕ) (doc : Fields C) (m : Table C I)
      → IsNew id m
      → AllConsistent m
      → AllConsistent (sidx_index_entry C I id doc m)
  unfolding sidx_index_entry
  index_entry-Consistent id doc [] n h = tt
  index_entry-Consistent id doc ((field, s) ∷ m) n h = (
    add_value-Consistent id (data_field C I field doc) s n.0 h.0,
    index_entry-Consistent id doc m n.1 h.1,
  )

  -- The writes of a collection keep each of its indexes in agreement with itself: an update and a delete
  -- of any record, and an insert under an id that no index knows.
  pub Table-Consistent :
      (id new : ℕ) (doc : Fields C) (m : Table C I)
      → AllConsistent m
      → IsNew new m
      → AllConsistent (sidx_update_entry C I id doc m)
        × AllConsistent (sidx_remove_entry C I id m)
        × AllConsistent (sidx_index_entry C I new doc m)
  Table-Consistent id new doc m h n = (
    update_entry-Consistent id doc m h,
    remove_entry-Consistent id m h,
    index_entry-Consistent new doc m n h,
  )
