-- ===== src/SecondaryIndex/Buckets.antt =====
-- engine/secondary_index.go: what the two halves of a move, out of a bucket and into one, do to the
-- buckets, the reverse map and the duplicate markers.
use scriva.Prelude.{
  is_some, ℕ, ◌≡◌, refl, sym, ap, subst, ◌∙◌, String, Bool, true, false, not, ◌&&◌, ◌||◌, [], ◌∷◌,
  Dict, lookup, insert, remove, lookup-insert, lookup-remove, length, ltb, ◌==◌, nat_eq, string_eq,
  beq_iff, if◌then◌else◌, if_elim, if_true, if_false, Bool-cases, inl, inr, arith,
}
use scriva.SecondaryIndex.{
  IdSet, KeySet, SecondaryIndex, is_mixed, or_empty, is_nil, nth, IndexValues, val_kind,
  to_index_key, observe, key_at, ordered_insert, insert_at, ordered_remove, remove_at,
  search_sorted, note_locked, put_id, drop_id, val_for_kind,
}

abbrev pub has : ℕ → IdSet → Bool
has id [] = false
has id ((j, u) ∷ m) = if j == id then true else has id m

pub has-insert : (id j : ℕ) (b : IdSet) → has j (insert id tt b) ≡ ((id == j) || has j b)
unfolding insert
has-insert id j [] = ground arith
has-insert id j ((i, u) ∷ b) = ground (arith, has-insert id j b)

pub has-remove : (id j : ℕ) (b : IdSet) → has j (remove id b) ≡ (not (id == j) && has j b)
unfolding remove
has-remove id j [] = ground arith
has-remove id j ((i, u) ∷ b) = ground (arith, has-remove id j b)

module _ {V : Type 0} (I : IndexValues V) where
  -- the ids under a key
  abbrev pub bucket : String → SecondaryIndex V → IdSet
  bucket key s = or_empty (lookup key s.buckets)

  bucket_insert :
      (key k : String) (b : IdSet) (m : Dict String IdSet)
      → or_empty (lookup k (insert key b m)) ≡ (if key == k then b else or_empty (lookup k m))
  bucket_insert key k b m = ground (arith, lookup-insert key k b m)

  bucket_remove :
      (key k : String) (b : IdSet) (m : Dict String IdSet)
      → b ≡ []
      → or_empty (lookup k (remove key m)) ≡ (if key == k then b else or_empty (lookup k m))
  bucket_remove key k b m h = ground (arith, lookup-remove key k m)

  -- the maps of two indexes agree
  abbrev SameMaps : SecondaryIndex V → SecondaryIndex V → Type 0
  SameMaps s t =
      (t.buckets ≡ s.buckets) × (t.reverse ≡ s.reverse) × (t.dups ≡ s.dups) × (t.field ≡ s.field)

  insert_at-SameMaps :
      (key : String) (val : V) (i : ℕ) (s : SecondaryIndex V) → SameMaps s (insert_at I key val i s)
  insert_at-SameMaps key val i s =
      if_elim (SameMaps s) (key_at I key (nth i s.sorted)) _ _ (λ _. (refl, refl, refl, refl))
        (λ _. (refl, refl, refl, refl))

  ordered_insert-SameMaps :
      (key : String) (val : V) (s : SecondaryIndex V) → SameMaps s (ordered_insert I key val s)
  unfolding ordered_insert
  ordered_insert-SameMaps key val s =
      if_elim (SameMaps s) (is_mixed s.kind) s
        (insert_at I key val (search_sorted I (record { key = key; val = val }) s) s)
        (λ _. (refl, refl, refl, refl)) (λ _. insert_at-SameMaps key val _ s)

  remove_at-SameMaps :
      (key : String) (i : ℕ) (s : SecondaryIndex V) → SameMaps s (remove_at I key i s)
  remove_at-SameMaps key i s =
      if_elim (SameMaps s) (key_at I key (nth i s.sorted)) _ _ (λ _. (refl, refl, refl, refl))
        (λ _. (refl, refl, refl, refl))

  ordered_remove-SameMaps :
      (key : String) (s : SecondaryIndex V) → SameMaps s (ordered_remove I key s)
  unfolding ordered_remove
  ordered_remove-SameMaps key s =
      if_elim (SameMaps s) (is_mixed s.kind) s
        (remove_at I key (search_sorted I (record { key = key; val = val_for_kind I s.kind key }) s)
          s)
        (λ _. (refl, refl, refl, refl)) (λ _. remove_at-SameMaps key _ s)

  -- One bucket key has its markers set right; the markers of the others stay.
  dups-note_locked :
      (key k : String) (s : SecondaryIndex V)
      → is_some (lookup k (note_locked key s).dups)
        ≡ (if key == k then ltb 1 (length (bucket k s)) else is_some (lookup k s.dups))
  unfolding note_locked
  dups-note_locked key k s =
      ground (arith, lookup-insert key k tt s.dups, lookup-remove key k s.dups, beq_iff key k)

  -- What a step that ends in the refresh of one key's marker has done.
  pub record Moved (key : String) (s t : SecondaryIndex V) (b : IdSet) (rev : Dict ℕ String)
      : Type 0 where
    pub buckets_moved : (k : String) → bucket k t ≡ (if key == k then b else bucket k s)
    pub reverse_moved : t.reverse ≡ rev
    pub field_kept : t.field ≡ s.field
    pub dups_moved :
        (k : String)
        → is_some (lookup k t.dups)
          ≡ (if key == k then ltb 1 (length (bucket k t)) else is_some (lookup k s.dups))

  -- the state before the refresh, with the maps of `m`
  noted :
      (key : String) (s m t : SecondaryIndex V) (b : IdSet) (rev : Dict ℕ String)
      → SameMaps m t
      → ((k : String) → bucket k m ≡ (if key == k then b else bucket k s))
      → m.reverse ≡ rev
      → m.dups ≡ s.dups
      → m.field ≡ s.field
      → Moved key s (note_locked key t) b rev
  unfolding note_locked
  noted key s m t b rev same bs rs ds fs = record {
    buckets_moved = λ k. ap (λ (x : Dict String IdSet). or_empty (lookup k x)) same.0 ∙ bs k;
    reverse_moved = same.1 ∙ rs;
    field_kept = same.3 ∙ fs;
    dups_moved = λ k.
        dups-note_locked key k t
        ∙ ap
            (λ (x : KeySet). if key == k then ltb 1 (length (bucket k t)) else is_some (lookup k x))
            (same.2 ∙ ds);
  }

  pub put_id-Moved :
      (v : V) (id : ℕ) (s : SecondaryIndex V)
      → Moved
          (to_index_key I v)
          s
          (put_id I v id s)
          (insert id tt (bucket (to_index_key I v) s))
          (insert id (to_index_key I v) s.reverse)
  unfolding put_id observe
  put_id-Moved v id s =
      let key = to_index_key I v in
      let s1 = observe I v (record s {
        buckets = insert key (insert id tt (bucket key s)) s.buckets;
        reverse = insert id key s.reverse;
      }) in
      noted key s s1 _ _ _
        (if_elim (SameMaps s1) (is_nil (lookup key s.buckets))
          (ordered_insert I key (val_kind I v).1 s1) s1
          (λ _. ordered_insert-SameMaps key (val_kind I v).1 s1) (λ _. (refl, refl, refl, refl)))
        (λ k. bucket_insert key k (insert id tt (bucket key s)) s.buckets) refl refl refl

  length_zero : (b : IdSet) → (length b == 0) ≡ true → b ≡ []
  length_zero [] h = refl
  length_zero (x ∷ b) h = let bad : ⊥ = ground arith in elim bad [ ]

  pub drop_id-Moved :
      (key : String) (id : ℕ) (s : SecondaryIndex V)
      → Moved key s (drop_id I key id s) (remove id (bucket key s)) s.reverse
  unfolding drop_id
  drop_id-Moved key id s =
      let b = remove id (bucket key s) in
      elim (Bool-cases (length b == 0)) [
        | inl empty ↦
            subst (λ t. Moved key s (note_locked key t) b s.reverse)
              (sym (if_true (length b == 0) _ _ empty))
              (noted key s (record s { buckets = remove key s.buckets }) _ _ _
                (ordered_remove-SameMaps key (record s { buckets = remove key s.buckets }))
                (λ k. bucket_remove key k b s.buckets (length_zero b empty)) refl refl refl)
        | inr full ↦
            subst (λ t. Moved key s (note_locked key t) b s.reverse)
              (sym (if_false (length b == 0) _ _ full))
              (noted key s (record s { buckets = insert key b s.buckets }) _ _ _
                (refl, refl, refl, refl) (λ k. bucket_insert key k b s.buckets) refl refl refl)
      ]
