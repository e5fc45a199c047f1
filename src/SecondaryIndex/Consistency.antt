-- ===== src/SecondaryIndex/Consistency.antt =====
-- engine/secondary_index.go: the buckets, the reverse map and the duplicate markers of an index agree,
-- and every operation keeps them so.
use scriva.Prelude.{
  is_some, ℕ, ◌≡◌, refl, sym, ap, subst, ◌∙◌, String, Bool, false, not, ◌&&◌, Option, none, some,
  Dict, lookup, remove, lookup-insert, lookup-remove, length, ltb, ◌==◌, nat_eq, string_eq, beq_iff,
  IsMap, insert-IsMap, remove-IsMap, if◌then◌else◌, if_elim, if_true, if_false, Bool-cases,
  Option-cases, inl, inr, arith,
}
use scriva.SecondaryIndex.{
  IdSet, SecondaryIndex, new_secondary_index, IndexValues, to_index_key, put_id, drop_id, add,
  remove_id, remove_found, update_id, leave_old, accepts,
}
use scriva.SecondaryIndex.Buckets.{
  has, has-insert, has-remove, bucket, Moved, put_id-Moved, drop_id-Moved,
}

abbrev pub is_key : String → Option String → Bool
is_key k none = false
is_key k (some j) = j == k

module _ {V : Type 0} (I : IndexValues V) where
  -- An id is in the bucket of a key exactly when the reverse map says so, except that no bucket holds
  -- the ids that are `out`; a key is marked exactly when more than one id is in its bucket.
  pub record Agree (out : ℕ → Bool) (s : SecondaryIndex V) : Type 0 where
    pub listed :
        (k : String) (j : ℕ) → has j (bucket I k s) ≡ (not (out j) && is_key k (lookup j s.reverse))
    pub marked : (k : String) → is_some (lookup k s.dups) ≡ ltb 1 (length (bucket I k s))
    pub distinct : (k : String) → IsMap (bucket I k s)

  abbrev pub nobody : ℕ → Bool
  nobody j = false

  abbrev pub Consistent : SecondaryIndex V → Type 0
  Consistent = Agree nobody

  marked-Moved :
      (key : String) (s t : SecondaryIndex V) (b : IdSet) (rev : Dict ℕ String) (k : String)
      → Moved I key s t b rev
      → is_some (lookup k s.dups) ≡ ltb 1 (length (bucket I k s))
      → is_some (lookup k t.dups) ≡ ltb 1 (length (bucket I k t))
  marked-Moved key s t b rev k m h = elim (Bool-cases (key == k)) [
    | inl same ↦ m.dups_moved k ∙ if_true (key == k) _ _ same
    | inr other ↦
        m.dups_moved k
        ∙ if_false (key == k) _ _ other
        ∙ h
        ∙ ap (λ (x : IdSet). ltb 1 (length x))
            (sym (m.buckets_moved k ∙ if_false (key == k) _ _ other))
  ]

  distinct-Moved :
      (key : String) (s t : SecondaryIndex V) (b : IdSet) (rev : Dict ℕ String) (k : String)
      → Moved I key s t b rev
      → IsMap b
      → IsMap (bucket I k s)
      → IsMap (bucket I k t)
  distinct-Moved key s t b rev k m new old =
      subst IsMap (sym (m.buckets_moved k))
        (if_elim IsMap (key == k) b (bucket I k s) (λ _. new) (λ _. old))

  drop_id-Agree :
      (key : String) (id : ℕ) (s : SecondaryIndex V)
      → lookup id s.reverse ≡ some key
      → Consistent s
      → Agree (λ j. id == j) (drop_id I key id s)
  drop_id-Agree key id s h c =
      let m = drop_id-Moved I key id s in
      record {
        listed = λ k j.
            ap (has j) (m.buckets_moved k)
            ∙ ground (
              arith,
              has-remove id j (bucket I key s),
              c.listed k j,
              beq_iff key k,
              beq_iff id j,
              h,
            )
            ∙ ap (λ (r : Dict ℕ String). not (id == j) && is_key k (lookup j r))
                (sym m.reverse_moved);
        marked = λ k. marked-Moved key s _ _ _ k m (c.marked k);
        distinct =
            λ k. distinct-Moved key s _ _ _ k m (remove-IsMap id _ (c.distinct key)) (c.distinct k);
      }

  put_id-Consistent :
      (v : V) (id : ℕ) (s : SecondaryIndex V)
      → Agree (λ j. id == j) s
      → Consistent (put_id I v id s)
  put_id-Consistent v id s c =
      let key = to_index_key I v in
      let m = put_id-Moved I v id s in
      record {
        listed = λ k j.
            ap (has j) (m.buckets_moved k)
            ∙ ground (
              arith,
              has-insert id j (bucket I key s),
              c.listed k j,
              lookup-insert id j key s.reverse,
              beq_iff key k,
              beq_iff id j,
            )
            ∙ ap (λ (r : Dict ℕ String). is_key k (lookup j r)) (sym m.reverse_moved);
        marked = λ k. marked-Moved key s _ _ _ k m (c.marked k);
        distinct = λ k.
            distinct-Moved key s _ _ _ k m (insert-IsMap id tt _ (c.distinct key)) (c.distinct k);
      }

  Agree-absent :
      (id : ℕ) (s : SecondaryIndex V)
      → lookup id s.reverse ≡ none
      → Consistent s
      → Agree (λ j. id == j) s
  Agree-absent id s h c = record {
    listed = λ k j. ground (arith, c.listed k j, beq_iff id j, h);
    marked = c.marked;
    distinct = c.distinct;
  }

  leave_old-Agree :
      (id : ℕ) (s : SecondaryIndex V)
      → Consistent s
      → Agree (λ j. id == j) (leave_old I id (lookup id s.reverse) s)
  unfolding leave_old
  leave_old-Agree id s c = elim (Option-cases (lookup id s.reverse)) [
    | inl absent ↦
        subst (λ o. Agree (λ j. id == j) (leave_old I id o s)) (sym absent)
          (Agree-absent id s absent c)
    | inr (key, held) ↦
        subst (λ o. Agree (λ j. id == j) (leave_old I id o s)) (sym held)
          (drop_id-Agree key id s held c)
  ]

  -- the reverse entry of an id that no bucket holds goes
  forget-Consistent :
      (id : ℕ) (s : SecondaryIndex V)
      → Agree (λ j. id == j) s
      → Consistent (record s { reverse = remove id s.reverse })
  forget-Consistent id s c = record {
    listed = λ k j. ground (arith, c.listed k j, beq_iff id j, lookup-remove id j s.reverse);
    marked = c.marked;
    distinct = c.distinct;
  }

  pub remove_id-Consistent :
      (id : ℕ) (s : SecondaryIndex V) → Consistent s → Consistent (remove_id I id s)
  unfolding remove_id remove_found
  remove_id-Consistent id s c = elim (Option-cases (lookup id s.reverse)) [
    | inl absent ↦ subst (λ o. Consistent (remove_found I id o s)) (sym absent) c
    | inr (key, held) ↦
        subst (λ o. Consistent (remove_found I id o s)) (sym held)
          (forget-Consistent id (drop_id I key id s) (drop_id-Agree key id s held c))
  ]

  -- An update keeps the maps of a consistent index in agreement, whatever id and value it takes.
  pub update_id-Consistent :
      (id : ℕ) (v : V) (s : SecondaryIndex V) → Consistent s → Consistent (update_id I id v s)
  unfolding update_id
  update_id-Consistent id v s c =
      if_elim Consistent (accepts I v s) _ _
        (λ _.
          put_id-Consistent v id (leave_old I id (lookup id s.reverse) s) (leave_old-Agree id s c))
        (λ _. remove_id-Consistent id s c)

  pub add-Consistent :
      (v : V) (id : ℕ) (s : SecondaryIndex V)
      → lookup id s.reverse ≡ none
      → Consistent s
      → Consistent (add I v id s)
  unfolding add
  add-Consistent v id s h c =
      if_elim Consistent (accepts I v s) _ _ (λ _. put_id-Consistent v id s (Agree-absent id s h c))
        (λ _. c)

  pub new-Consistent :
      (field : String) (unique : Bool) → Consistent (new_secondary_index field unique)
  unfolding new_secondary_index lookup
  new-Consistent field unique = record {
    listed = λ k j. refl;
    marked = λ k. refl;
    distinct = λ k. tt;
  }

  -- the reverse map after each operation
  drop_id-reverse :
      (key : String) (id : ℕ) (s : SecondaryIndex V) → (drop_id I key id s).reverse ≡ s.reverse
  drop_id-reverse key id s = (drop_id-Moved I key id s).reverse_moved

  leave_old-reverse :
      (id : ℕ) (o : Option String) (s : SecondaryIndex V) → (leave_old I id o s).reverse ≡ s.reverse
  unfolding leave_old
  leave_old-reverse id none s = refl
  leave_old-reverse id (some key) s = drop_id-reverse key id s

  lookup-put_id :
      (v : V) (id j : ℕ) (s : SecondaryIndex V)
      → lookup j (put_id I v id s).reverse
        ≡ (if id == j then some (to_index_key I v) else lookup j s.reverse)
  lookup-put_id v id j s =
      ap (lookup j) (put_id-Moved I v id s).reverse_moved
      ∙ lookup-insert id j (to_index_key I v) s.reverse

  pub lookup-remove_id :
      (id j : ℕ) (s : SecondaryIndex V)
      → lookup j (remove_id I id s).reverse ≡ (if id == j then none else lookup j s.reverse)
  unfolding remove_id remove_found
  lookup-remove_id id j s = elim (Option-cases (lookup id s.reverse)) [
    | inl absent ↦
        subst
          (λ o.
            lookup j (remove_found I id o s).reverse
            ≡ (if id == j then none else lookup j s.reverse))
          (sym absent) (ground (arith, beq_iff id j))
    | inr (key, held) ↦
        subst
          (λ o.
            lookup j (remove_found I id o s).reverse
            ≡ (if id == j then none else lookup j s.reverse))
          (sym held)
          (ap (λ (r : Dict ℕ String). lookup j (remove id r)) (drop_id-reverse key id s)
            ∙ lookup-remove id j s.reverse)
  ]

  -- the key under which a value is indexed
  abbrev pub key_for : V → SecondaryIndex V → Option String
  key_for v s = if accepts I v s then some (to_index_key I v) else none

  pub lookup-update_id :
      (id j : ℕ) (v : V) (s : SecondaryIndex V)
      → lookup j (update_id I id v s).reverse
        ≡ (if id == j then key_for v s else lookup j s.reverse)
  unfolding update_id
  lookup-update_id id j v s =
      if_elim
        (λ (t : SecondaryIndex V).
          lookup j t.reverse ≡ (if id == j then key_for v s else lookup j s.reverse))
        (accepts I v s) _ _
        (λ ok.
          lookup-put_id v id j (leave_old I id (lookup id s.reverse) s)
          ∙ ap (λ (r : Dict ℕ String). if id == j then some (to_index_key I v) else lookup j r)
              (leave_old-reverse id (lookup id s.reverse) s)
          ∙ ap (λ o. if id == j then o else lookup j s.reverse)
              (sym (if_true (accepts I v s) _ _ ok)))
        (λ no_value.
          lookup-remove_id id j s
          ∙ ap (λ o. if id == j then o else lookup j s.reverse)
              (sym (if_false (accepts I v s) _ _ no_value)))

  -- no operation changes the field
  leave_old-field :
      (id : ℕ) (o : Option String) (s : SecondaryIndex V) → (leave_old I id o s).field ≡ s.field
  unfolding leave_old
  leave_old-field id none s = refl
  leave_old-field id (some key) s = (drop_id-Moved I key id s).field_kept

  remove_found-field :
      (id : ℕ) (o : Option String) (s : SecondaryIndex V) → (remove_found I id o s).field ≡ s.field
  unfolding remove_found
  remove_found-field id none s = refl
  remove_found-field id (some key) s = (drop_id-Moved I key id s).field_kept

  pub remove_id-field : (id : ℕ) (s : SecondaryIndex V) → (remove_id I id s).field ≡ s.field
  unfolding remove_id
  remove_id-field id s = remove_found-field id (lookup id s.reverse) s

  pub update_id-field :
      (id : ℕ) (v : V) (s : SecondaryIndex V) → (update_id I id v s).field ≡ s.field
  unfolding update_id
  update_id-field id v s =
      if_elim (λ (t : SecondaryIndex V). t.field ≡ s.field) (accepts I v s) _ _
        (λ _.
          (put_id-Moved I v id (leave_old I id (lookup id s.reverse) s)).field_kept
          ∙ leave_old-field id (lookup id s.reverse) s)
        (λ _. remove_id-field id s)
