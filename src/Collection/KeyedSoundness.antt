-- ===== src/Collection/KeyedSoundness.antt =====
-- The operations by key keep the invariant.
use scriva.Prelude.{
  ℕ, suc, ◌+◌, ◌≡◌, inl, inr, refl, subst, ◌≤◌, String, Bool, true, Option, none, some, List, [],
  ◌∷◌, All-lookup, lookup, arith, nat_eq, if_elim,
}
use scriva.Store.{Entry, omit_empty, new_entry, new_insert, new_update}
use scriva.Index
use scriva.Index.{Index, IndexEntry, rev_of}
use scriva.Collection.{Env, Fields, Collection, Io, Outcome, resolve_insert_expiry_at}
use scriva.Collection.Commit.{Result, ok, err}
use scriva.Collection.Writes.{stamp_key, versioned, index_record}
use scriva.Collection.Keys.{
  with_ensured, ensure_key_index, insert_with_key, with_id, update_by_key, delete_by_key, held_by,
  holder_entry, upsert_held, upsert, swap_read, swap_held, compare_and_swap,
}
use scriva.Index.Replay.{History}
use scriva.Collection.Coherence.{Coherent, IsSound}
use scriva.Collection.Preservation.{Applies, Coherent-other, commit-IsSound}
use scriva.Collection.Soundness.{
  stamp_key-written, index_record-Applies, next_id-IsSound, now-IsSound, fresh_id,
  refuse_if-IsSound, unless_fenced-IsSound, insert_record-IsSound, update_record-IsSound,
  delete-IsSound,
}

module _ (E : Env) where
  open E use {C, X, string_value}
  open C use {V}

  with_ensured-IsSound :
      {A : Type 0} (o : Option X.S) (c : Collection E)
      (rest : Collection E → Collection E × Outcome A)
      → IsSound E c
      → ((d : Collection E) → IsSound E d → IsSound E (rest d).0)
      → IsSound E (with_ensured E o c rest).0
  with_ensured-IsSound none c rest s t = s
  with_ensured-IsSound (some x) c rest s t =
      t (record c { sidx = x })
        (λ f.
          let (h, es, k) = s f in
          (h, es, Coherent-other E c h es x c.published c.emitted c.clock_floor k))

  ensure_key_index-IsSound :
      {A : Type 0} (c : Collection E) (rest : Collection E → Collection E × Outcome A)
      → IsSound E c
      → ((d : Collection E) → IsSound E d → IsSound E (rest d).0)
      → IsSound E (ensure_key_index E c rest).0
  unfolding ensure_key_index
  ensure_key_index-IsSound c rest s t = with_ensured-IsSound _ c rest s t

  pub insert_with_key-IsSound :
      (io : Io) (key : String) (doc : Fields C) (c : Collection E)
      → IsSound E c
      → IsSound E (insert_with_key E io key doc c).0
  unfolding insert_with_key
  insert_with_key-IsSound io key doc c s = refuse_if-IsSound E _ _ c _ s (
      unless_fenced-IsSound E c _ s (
        ensure_key_index-IsSound c _ s (λ c1 s1. refuse_if-IsSound E _ _ c1 _ s1 (
          insert_record-IsSound E io (stamp_key (string_value key) doc) _ _
            (stamp_key-written (string_value key) doc) (now-IsSound E io.clock c1 s1)))))

  with_id-IsSound :
      {A : Type 0} (r : Result ℕ) (c : Collection E) (rest : ℕ → Collection E × Outcome A)
      → IsSound E c
      → ((id : ℕ) → IsSound E (rest id).0)
      → IsSound E (with_id E r c rest).0
  with_id-IsSound (err x) c rest s t = s
  with_id-IsSound (ok id) c rest s t = t id

  pub update_by_key-IsSound :
      (io : Io) (key : String) (doc : Fields C) (c : Collection E)
      → IsSound E c
      → IsSound E (update_by_key E io key doc c).0
  unfolding update_by_key
  update_by_key-IsSound io key doc c s =
      let s' = now-IsSound E io.clock c s in
      refuse_if-IsSound E _ _ c _ s (
        with_id-IsSound _ _ _ s' (λ id.
          update_record-IsSound E io id (stamp_key (string_value key) doc) 0 true _
            (stamp_key-written (string_value key) doc) s'))

  pub delete_by_key-IsSound :
      (io : Io) (key : String) (c : Collection E)
      → IsSound E c
      → IsSound E (delete_by_key E io key c).0
  unfolding delete_by_key
  delete_by_key-IsSound io key c s =
      let s' = now-IsSound E io.clock c s in
      with_id-IsSound _ _ _ s' (λ id. delete-IsSound E io id _ s')

  holder_entry-found :
      (i : ℕ) (o : Option IndexEntry) (id : ℕ) (loc : IndexEntry)
      → holder_entry E i o ≡ some (id, loc)
      → (i ≡ id) × (o ≡ some loc)
  holder_entry-found i none id loc h = cc h
  holder_entry-found i (some l) id loc h =
      let pair : some (i, l) ≡ some (id, loc) = h in (cc pair, cc pair)

  -- The holder that a lookup finds is in the index.
  held_by-found :
      (ids : List ℕ) (idx : Index) (id : ℕ) (loc : IndexEntry)
      → held_by E ids idx ≡ some (id, loc)
      → lookup id idx.entries ≡ some loc
  unfolding Index.get
  held_by-found [] idx id loc h = cc h
  held_by-found (i ∷ ids) idx id loc h =
      let (same, at) = holder_entry-found i (Index.get i idx) id loc h in
      subst (λ (j : ℕ). lookup j idx.entries ≡ some loc) same at

  -- A replace of a record in the index, under its next revision.
  replace-Applies :
      (c : Collection E) (h : History C) (es : List (ℕ × Entry V)) (t id exp : ℕ) (doc : Fields C)
      (loc : IndexEntry) (move : X.S → X.S)
      → Coherent E c h es
      → lookup id c.index.entries ≡ some loc
      → Applies E c
          (versioned (loc.rev + 1) exp (new_update t id doc))
          (λ off. index_record E (versioned (loc.rev + 1) exp (new_update t id doc)) move off)
  unfolding new_update new_entry
  replace-Applies c h es t id exp doc loc move k at =
      index_record-Applies E c h es (versioned (loc.rev + 1) exp (new_update t id doc)) move k
        (inr refl) (rw at (omega arith))
        (All-lookup (λ p. p.0 ≤ c.id_seq) id loc c.index.entries at k.ids)

  upsert_held-IsSound :
      (io : Io) (t : ℕ) (stamped : Fields C) (c : Collection E) (o : Option (ℕ × IndexEntry))
      → omit_empty stamped ≡ stamped
      → ((id : ℕ) (loc : IndexEntry) → o ≡ some (id, loc) → lookup id c.index.entries ≡ some loc)
      → IsSound E c
      → IsSound E (upsert_held E io t stamped c o).0
  unfolding new_update new_insert new_entry
  upsert_held-IsSound io t stamped c (some (id, cur)) w found s =
      let e = versioned (cur.rev + 1) cur.expires_at (new_update io.clock id stamped) in
      refuse_if-IsSound E _ _ c _ s (
        commit-IsSound E io "upsert" e _ _ _ c s
          (λ f.
            let (h, es, k) = s f in
            replace-Applies c h es io.clock id cur.expires_at stamped cur
              (X.update_entry id stamped) k (found id cur refl))
          w)
  upsert_held-IsSound io t stamped c none w found s =
      let c' = record c { id_seq = suc c.id_seq } in
      let e =
        versioned 1 (resolve_insert_expiry_at E 0 t c')
          (new_insert io.clock (suc c.id_seq) stamped) in
      let s' = next_id-IsSound E c s in
      refuse_if-IsSound E _ _ c' _ s' (
        refuse_if-IsSound E _ _ c' _ s' (
          commit-IsSound E io "upsert" e _ _ _ c' s'
            (λ f.
              let (h, es, k) = s' f in
              index_record-Applies E c' h es e (X.index_entry (suc c.id_seq) stamped) k (inl refl)
                (fresh_id E c s f) (omega arith))
            w))

  pub upsert-IsSound :
      (io : Io) (key : String) (doc : Fields C) (c : Collection E)
      → IsSound E c
      → IsSound E (upsert E io key doc c).0
  unfolding upsert
  upsert-IsSound io key doc c s = refuse_if-IsSound E _ _ c _ s (
      unless_fenced-IsSound E c _ s (
        ensure_key_index-IsSound c _ s (λ c1 s1. refuse_if-IsSound E _ _ c1 _ s1 (
          upsert_held-IsSound io _ (stamp_key (string_value key) doc) _ _
            (stamp_key-written (string_value key) doc) (held_by-found _ _)
            (now-IsSound E io.clock c1 s1)))))

  swap_read-IsSound :
      (io : Io) (t : ℕ) (key : String) (doc : Fields C) (holds : Fields C → ℕ → Bool)
      (c : Collection E) (id : ℕ) (loc : IndexEntry) (r : Result (Entry V))
      → lookup id c.index.entries ≡ some loc
      → IsSound E c
      → IsSound E (swap_read E io t key doc holds c id loc r).0
  unfolding new_update new_entry
  swap_read-IsSound io t key doc holds c id loc (err x) at s = s
  swap_read-IsSound io t key doc holds c id loc (ok read) at s =
      let stamped = stamp_key (string_value key) doc in
      let e = versioned (loc.rev + 1) loc.expires_at (new_update t id stamped) in
      if_elim (λ (p : Collection E × Outcome Bool). IsSound E p.0) (holds read.fields loc.rev) _ _
        (λ _. refuse_if-IsSound E _ _ c _ s (
          commit-IsSound E io "cas" e _ _ _ c s
            (λ f.
              let (h, es, k) = s f in
              replace-Applies c h es t id loc.expires_at stamped loc (X.update_entry id stamped) k
                at)
            (stamp_key-written (string_value key) doc)))
        (λ _. s)

  swap_held-IsSound :
      (io : Io) (t : ℕ) (key : String) (doc : Fields C) (holds : Fields C → ℕ → Bool)
      (c : Collection E) (o : Option (ℕ × IndexEntry))
      → ((id : ℕ) (loc : IndexEntry) → o ≡ some (id, loc) → lookup id c.index.entries ≡ some loc)
      → IsSound E c
      → IsSound E (swap_held E io t key doc holds c o).0
  swap_held-IsSound io t key doc holds c none found s = s
  swap_held-IsSound io t key doc holds c (some (id, loc)) found s =
      swap_read-IsSound io t key doc holds c id loc _ (found id loc refl) s

  pub compare_and_swap-IsSound :
      (io : Io) (key : String) (doc : Fields C) (holds : Fields C → ℕ → Bool) (c : Collection E)
      → IsSound E c
      → IsSound E (compare_and_swap E io key doc holds c).0
  unfolding compare_and_swap
  compare_and_swap-IsSound io key doc holds c s =
      let s' = now-IsSound E io.clock c s in
      unless_fenced-IsSound E _ _ s' (
        refuse_if-IsSound E _ _ _ _ s'
          (swap_held-IsSound io _ key doc holds _ _ (held_by-found _ _) s'))
