-- ===== src/SecondaryIndex/Rebuilding.antt =====
-- engine/secondary_index.go: what a rebuild leaves, and that it leaves what following the entries would.
use scriva.Prelude.{
  is_some, ℕ, ◌≡◌, refl, sym, ap, subst, ◌∙◌, String, Bool, Option, none, some, List, [], ◌∷◌, Dict,
  lookup, insert, lookup-insert, length, ltb, ◌==◌, nat_eq, string_eq, beq_iff, beq_refl, IsMap,
  insert-IsMap, if◌then◌else◌, if_elim, if_true, if_false, Bool-cases, inl, inr, arith,
}
use scriva.Store.{Entry, Op, op_insert, op_update, op_delete, other}
use scriva.SecondaryIndex.{
  IdSet, SecondaryIndex, new_secondary_index, IndexValues, to_index_key, accepts, or_empty,
  index_empty,
}
use scriva.SecondaryIndex.Buckets.{has, has-insert, bucket}
use scriva.SecondaryIndex.Consistency.{is_key, Consistent, new-Consistent}
use scriva.SecondaryIndex.Rebuild.{
  dups_of, latest_step, latest_of, field_of, Fresh, gather_value, gather_record, gather,
  rebuild_index, replay_entries,
}
use scriva.SecondaryIndex.Replaying.{
  replay_entries-Consistent, value_key, entry_key, last_key, lookup-replay_entries,
}

lookup-dups_of :
    (k : String) (m : Dict String IdSet)
    → IsMap m
    → is_some (lookup k (dups_of m)) ≡ ltb 1 (length (or_empty (lookup k m)))
unfolding dups_of lookup
lookup-dups_of k [] h = refl
lookup-dups_of k ((j, ids) ∷ m) h =
    ground (arith, lookup-dups_of k m h.1, lookup-insert j k tt (dups_of m), beq_iff j k, h.0)

module _ {V : Type 0} (I : IndexValues V) where
  -- what `latest` holds of a record, as the key it is indexed under
  abbrev record_key : SecondaryIndex V → Option (Option (Option (Dict String V))) → Option String
  record_key s none = none
  record_key s (some none) = none
  record_key s (some (some doc)) = value_key I s (field_of I s.field doc)

  latest_step-key :
      (s : SecondaryIndex V) (op : Op) (e : Entry V) (id : ℕ)
      (m : Dict ℕ (Option (Option (Dict String V))))
      → record_key s (lookup id (latest_step I op e m)) ≡ (
          if e.id == id
          then entry_key I s op e (record_key s (lookup id m))
          else record_key s (lookup id m))
  unfolding latest_step
  latest_step-key s op_insert e id m = ground (arith, lookup-insert e.id id (some e.fields) m)
  latest_step-key s op_update e id m = ground (arith, lookup-insert e.id id (some e.fields) m)
  latest_step-key s op_delete e id m = ground (arith, lookup-insert e.id id none m)
  latest_step-key s (other x) e id m = ground arith

  latest_of-key :
      (s : SecondaryIndex V) (es : List (Entry V)) (id : ℕ)
      (m : Dict ℕ (Option (Option (Dict String V))))
      → record_key s (lookup id (latest_of I es m))
        ≡ last_key I s id es (record_key s (lookup id m))
  unfolding latest_of
  latest_of-key s [] id m = refl
  latest_of-key s (e ∷ es) id m =
      latest_of-key s es id (latest_step I e.op e m)
      ∙ ap (last_key I s id es) (latest_step-key s e.op e id m)

  latest_step-IsMap :
      (op : Op) (e : Entry V) (m : Dict ℕ (Option (Option (Dict String V))))
      → IsMap m
      → IsMap (latest_step I op e m)
  unfolding latest_step
  latest_step-IsMap op_insert e m h = insert-IsMap e.id (some e.fields) m h
  latest_step-IsMap op_update e m h = insert-IsMap e.id (some e.fields) m h
  latest_step-IsMap op_delete e m h = insert-IsMap e.id none m h
  latest_step-IsMap (other x) e m h = h

  latest_of-IsMap :
      (es : List (Entry V)) (m : Dict ℕ (Option (Option (Dict String V))))
      → IsMap m
      → IsMap (latest_of I es m)
  unfolding latest_of
  latest_of-IsMap [] m h = h
  latest_of-IsMap (e ∷ es) m h = latest_of-IsMap es _ (latest_step-IsMap e.op e m h)

  -- what rebuild has gathered agrees
  record Gathered (f : Fresh I) : Type 0 where
    listed :
        (k : String) (j : ℕ) → has j (or_empty (lookup k f.fresh)) ≡ is_key k (lookup j f.fresh_rev)
    distinct : (k : String) → IsMap (or_empty (lookup k f.fresh))
    buckets_map : IsMap f.fresh

  gather_value-Gathered :
      (s : SecondaryIndex V) (id : ℕ) (o : Option V) (f : Fresh I)
      → lookup id f.fresh_rev ≡ none
      → Gathered f
      → Gathered (gather_value I s id o f)
  unfolding gather_value
  gather_value-Gathered s id none f h g = g
  gather_value-Gathered s id (some v) f h g =
      if_elim Gathered (accepts I v s) _ _
        (λ _.
          let key = to_index_key I v in
          record {
            listed = λ k j. ground (
              arith,
              lookup-insert key k (insert id tt (or_empty (lookup key f.fresh))) f.fresh,
              lookup-insert id j key f.fresh_rev,
              has-insert id j (or_empty (lookup key f.fresh)),
              g.listed k j,
              beq_iff key k,
              beq_iff id j,
              h,
            );
            distinct = λ k.
                subst (λ o. IsMap (or_empty o))
                  (sym (lookup-insert key k (insert id tt (or_empty (lookup key f.fresh))) f.fresh))
                  (if_elim (λ o. IsMap (or_empty o)) (key == k) _ _
                    (λ _. insert-IsMap id tt _ (g.distinct key)) (λ _. g.distinct k));
            buckets_map = insert-IsMap key _ f.fresh g.buckets_map;
          })
        (λ _. g)

  gather_value-key :
      (s : SecondaryIndex V) (id j : ℕ) (o : Option V) (f : Fresh I)
      → lookup id f.fresh_rev ≡ none
      → lookup j (gather_value I s id o f).fresh_rev
        ≡ (if id == j then value_key I s o else lookup j f.fresh_rev)
  unfolding gather_value
  gather_value-key s id j none f h = ground (arith, beq_iff id j)
  gather_value-key s id j (some v) f h = elim (Bool-cases (accepts I v s)) [
    | inl ok ↦
        ap (λ (g : Fresh I). lookup j g.fresh_rev) (if_true (accepts I v s) _ _ ok)
        ∙ lookup-insert id j (to_index_key I v) f.fresh_rev
        ∙ ap (λ o. if id == j then o else lookup j f.fresh_rev)
            (sym (if_true (accepts I v s) _ _ ok))
    | inr bad ↦
        ap (λ (g : Fresh I). lookup j g.fresh_rev) (if_false (accepts I v s) _ _ bad)
        ∙ ground (arith, beq_iff id j)
        ∙ ap (λ o. if id == j then o else lookup j f.fresh_rev)
            (sym (if_false (accepts I v s) _ _ bad))
  ]

  gather_record-key :
      (s : SecondaryIndex V) (id j : ℕ) (r : Option (Option (Dict String V))) (f : Fresh I)
      → lookup id f.fresh_rev ≡ none
      → lookup j (gather_record I s id r f).fresh_rev
        ≡ (if id == j then record_key s (some r) else lookup j f.fresh_rev)
  unfolding gather_record
  gather_record-key s id j none f h = ground (arith, beq_iff id j)
  gather_record-key s id j (some doc) f h = gather_value-key s id j (field_of I s.field doc) f h

  gather_record-Gathered :
      (s : SecondaryIndex V) (id : ℕ) (r : Option (Option (Dict String V))) (f : Fresh I)
      → lookup id f.fresh_rev ≡ none
      → Gathered f
      → Gathered (gather_record I s id r f)
  unfolding gather_record
  gather_record-Gathered s id none f h g = g
  gather_record-Gathered s id (some doc) f h g =
      gather_value-Gathered s id (field_of I s.field doc) f h g

  -- the records of `latest` are not gathered yet
  abbrev Ahead : Dict ℕ (Option (Option (Dict String V))) → Fresh I → Type 0
  Ahead m f =
      (i : ℕ) (r : Option (Option (Dict String V)))
      → lookup i m ≡ some r
      → lookup i f.fresh_rev ≡ none

  abbrev or_before :
      SecondaryIndex V → Option (Option (Option (Dict String V))) → Option String → Option String
  or_before s none old = old
  or_before s (some r) old = record_key s (some r)

  gather-Gathered :
      (s : SecondaryIndex V) (m : Dict ℕ (Option (Option (Dict String V)))) (f : Fresh I)
      → IsMap m
      → Ahead m f
      → Gathered f
      → Gathered (gather I s m f)
        × ((j : ℕ)
            → lookup j (gather I s m f).fresh_rev ≡ or_before s (lookup j m) (lookup j f.fresh_rev))
  unfolding gather lookup
  gather-Gathered s [] f h ahead g = (g, λ j. refl)
  gather-Gathered s ((id, r) ∷ m) f h ahead g =
      let absent : lookup id f.fresh_rev ≡ none =
        ahead id r (if_true (id == id) _ _ (beq_refl id)) in
      let next = gather_record I s id r f in
      let rest =
        gather-Gathered s m next h.1
          (λ i q found. elim (Bool-cases (id == i)) [
            | inl same ↦
                let twice : none ≡ some q =
                  sym (subst (λ n. lookup n m ≡ none) ((beq_iff id i).0 same) h.0) ∙ found in
                let bad : ⊥ = cc twice in elim bad [ ]
            | inr differs ↦
                gather_record-key s id i r f absent
                ∙ if_false (id == i) _ _ differs
                ∙ ahead i q (if_false (id == i) _ _ differs ∙ found)
          ])
          (gather_record-Gathered s id r f absent g) in
      (
        rest.0,
        λ j. rest.1 j ∙ elim (Bool-cases (id == j)) [
          | inl same ↦
              ap (λ o. or_before s o (lookup j next.fresh_rev))
                (subst (λ n. lookup n m ≡ none) ((beq_iff id j).0 same) h.0)
              ∙ gather_record-key s id j r f absent
              ∙ if_true (id == j) _ _ same
              ∙ ap (λ o. or_before s o (lookup j f.fresh_rev))
                  (sym (if_true (id == j) (some r) (lookup j m) same))
          | inr differs ↦
              ap (or_before s (lookup j m))
                (gather_record-key s id j r f absent ∙ if_false (id == j) _ _ differs)
              ∙ ap (λ o. or_before s o (lookup j f.fresh_rev))
                  (sym (if_false (id == j) (some r) (lookup j m) differs))
        ],
      )

  gathered :
      (s : SecondaryIndex V) (es : List (Entry V)) (f : Fresh I)
      → f ≡ record { fresh = []; fresh_rev = []; fresh_kind = index_empty }
      → Gathered (gather I s (latest_of I es []) f)
        × ((j : ℕ)
            → lookup j (gather I s (latest_of I es []) f).fresh_rev
              ≡ or_before s (lookup j (latest_of I es [])) (lookup j f.fresh_rev))
  unfolding lookup
  gathered s es f h =
      gather-Gathered s (latest_of I es []) f (latest_of-IsMap es [] tt)
        (λ i r found. ap (λ (g : Fresh I). lookup i g.fresh_rev) h)
        (subst Gathered (sym h)
          (record { listed = λ k j. refl; distinct = λ k. tt; buckets_map = tt }))

  or_before-none :
      (s : SecondaryIndex V) (o : Option (Option (Option (Dict String V))))
      → or_before s o none ≡ record_key s o
  or_before-none s none = refl
  or_before-none s (some r) = refl

  -- A rebuild leaves an index whose maps agree.
  pub rebuild_index-Consistent :
      (es : List (Entry V)) (s : SecondaryIndex V) → Consistent I (rebuild_index I es s)
  unfolding rebuild_index
  rebuild_index-Consistent es s =
      let g =
        (gathered s es (record { fresh = []; fresh_rev = []; fresh_kind = index_empty }) refl).0 in
      record {
        listed = g.listed;
        marked = λ k. lookup-dups_of k _ g.buckets_map;
        distinct = g.distinct;
      }

  lookup-rebuild_index :
      (id : ℕ) (es : List (Entry V)) (s : SecondaryIndex V)
      → lookup id (rebuild_index I es s).reverse ≡ last_key I s id es none
  unfolding rebuild_index lookup
  lookup-rebuild_index id es s =
      (gathered s es (record { fresh = []; fresh_rev = []; fresh_kind = index_empty }) refl).1 id
      ∙ or_before-none s (lookup id (latest_of I es []))
      ∙ latest_of-key s es id []

  -- An index that follows the entries from the start, and an index that is rebuilt from them, put every
  -- record under the same key: the bucket of each key has the same ids.
  pub rebuild_index-replay_entries :
      (es : List (Entry V)) (field : String) (unique : Bool) (k : String) (id : ℕ)
      → has id (bucket I k (replay_entries I es (new_secondary_index field unique)))
        ≡ has id (bucket I k (rebuild_index I es (new_secondary_index field unique)))
  unfolding new_secondary_index lookup
  rebuild_index-replay_entries es field unique k id =
      let s = new_secondary_index field unique in
      (replay_entries-Consistent I es s (new-Consistent I field unique)).listed k id
      ∙ ap (is_key k) (lookup-replay_entries I id es s ∙ sym (lookup-rebuild_index id es s))
      ∙ sym ((rebuild_index-Consistent es s).listed k id)
