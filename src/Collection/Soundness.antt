-- ===== src/Collection/Soundness.antt =====
-- Insert, Update and Delete keep the invariant.
use scriva.Prelude.{
  ℕ, suc, ◌+◌, ◌≡◌, ◌⊎◌, inl, inr, refl, sym, subst, ◌∙◌, ◌≤◌, ◌<◌, String, Bool, true, false,
  Option, none, some, List, [], ◌∷◌, All, All-map, All-insert, All-remove, All-lookup, Dict, lookup,
  insert as dict_insert, arith, ◌==◌, nat_eq, string_eq, if◌then◌else◌, if_elim,
}
use scriva.Store.{
  Entry, omit_empty, op_insert, op_update, new_entry, new_insert, new_update, new_delete,
}
use scriva.Index
use scriva.Index.{Index, IndexEntry, rev_of, apply_op, apply_one}
use scriva.Index.Counting.{set-IsHonest, delete-IsHonest}
use scriva.Index.Replay.{History}
use scriva.Collection.{
  Env, Fields, key_field, Collection, Io, Outcome, CollectionError, fenced_error, now, refuse_if,
  unless_fenced, is_fenced,
}
use scriva.Collection.Writes.{
  has_key, stamp_key, versioned, index_record, unindex_record, insert_record, insert, keep_key,
  preserve_reserved_locked, update_found, update_record, update, update_with_expiry, delete_found,
  delete,
}
use scriva.Collection.Coherence.{Coherent, IsSound, set-apply_one}
use scriva.Collection.Preservation.{Applies, Coherent-other, commit-IsSound}

insert-nonempty :
    {V : Type 0} (v : V) (m : Dict String V)
    → omit_empty (some (dict_insert key_field v m)) ≡ some (dict_insert key_field v m)
unfolding dict_insert
insert-nonempty v [] = refl
insert-nonempty {V = V} v ((j, w) ∷ m) =
    if_elim (λ (x : Dict String V). omit_empty (some x) ≡ some x) (j == key_field) _ _ (λ _. refl)
      (λ _. refl)

-- A document with a key in it is not empty.
pub stamp_key-written :
    {V : Type 0} (v : V) (doc : Option (Dict String V))
    → omit_empty (stamp_key v doc) ≡ stamp_key v doc
unfolding stamp_key
stamp_key-written v none = insert-nonempty v []
stamp_key-written v (some m) = insert-nonempty v m

lookup-beyond : {W : Type 0} (n : ℕ) (m : Dict ℕ W) → All (λ p. p.0 ≤ n) m → lookup (suc n) m ≡ none
unfolding lookup
lookup-beyond n [] h = refl
lookup-beyond n ((j, w) ∷ m) h = ground (arith, lookup-beyond n m h.1, h.0)

module _ (E : Env) where
  open E use {C, X, string_value}
  open C use {V}

  pub index_record-Applies :
      (c : Collection E) (h : History C) (es : List (ℕ × Entry V)) (e : Entry V) (move : X.S → X.S)
      → Coherent E c h es
      → (e.op ≡ op_insert) ⊎ (e.op ≡ op_update)
      → rev_of (lookup e.id c.index.entries) < e.rev
      → e.id ≤ c.id_seq
      → Applies E c e (λ off. index_record E e move off)
  unfolding index_record Index.set
  index_record-Applies c h es e move k op rev old = record {
    idx = λ path off.
        Index.set e.id
          (record {
            segment_path = path;
            offset = off;
            rev = e.rev;
            expires_at = e.expires_at;
            epoch = e.epoch;
          })
          c.index;
    sidx = move c.sidx;
    result = λ seg off. refl;
    follows = λ path off sum. set-apply_one path off sum e c.index op rev;
    ids = λ path off. All-insert (λ p. p.0 ≤ c.id_seq) e.id _ c.index.entries old k.ids;
    honest = λ path off. set-IsHonest e.id _ c.index k.honest;
  }

  pub unindex_record-Applies :
      (c : Collection E) (h : History C) (es : List (ℕ × Entry V)) (t id : ℕ)
      → Coherent E c h es
      → Applies E c (new_delete t id) (λ off. unindex_record E id)
  unfolding unindex_record Index.delete new_delete new_entry apply_one
  unindex_record-Applies c h es t id k = record {
    idx = λ path off. Index.delete id c.index;
    sidx = X.remove_entry id c.sidx;
    result = λ seg off. refl;
    follows = λ path off sum. refl;
    ids = λ path off. All-remove (λ p. p.0 ≤ c.id_seq) id c.index.entries k.ids;
    honest = λ path off. delete-IsHonest id c.index k.honest;
  }

  pub next_id-IsSound :
      (c : Collection E) → IsSound E c → IsSound E (record c { id_seq = suc c.id_seq })
  next_id-IsSound c s f =
      let (h, es, k) = s f in
      (
        h,
        es,
        record {
          usable = k.usable;
          tidy = k.tidy;
          stored = k.stored;
          live = k.live;
          indexed = k.indexed;
          ids = All-map c.index.entries (λ p le. omega (arith, le)) k.ids;
          honest = k.honest;
          ordered = k.ordered;
          number = k.number;
          numbered = k.numbered;
          below = k.below;
          handed_out = k.handed_out;
        },
      )

  pub now-IsSound : (clock : ℕ) (c : Collection E) → IsSound E c → IsSound E (now E clock c).0
  unfolding now
  now-IsSound clock c s =
      if_elim (λ (p : Collection E × ℕ). IsSound E p.0) _ _ _ (λ _. s)
        (λ _ f.
          let (h, es, k) = s f in
          (h, es, Coherent-other E c h es c.sidx c.published c.emitted clock k))

  -- The clock changes neither the index nor the counter of ids.
  pub now-index : (clock : ℕ) (c : Collection E) → (now E clock c).0.index ≡ c.index
  unfolding now
  now-index clock c =
      if_elim (λ (p : Collection E × ℕ). p.0.index ≡ c.index) _ _ _ (λ _. refl) (λ _. refl)

  pub now-id_seq : (clock : ℕ) (c : Collection E) → (now E clock c).0.id_seq ≡ c.id_seq
  unfolding now
  now-id_seq clock c =
      if_elim (λ (p : Collection E × ℕ). p.0.id_seq ≡ c.id_seq) _ _ _ (λ _. refl) (λ _. refl)

  pub now-fenced : (clock : ℕ) (c : Collection E) → (now E clock c).0.fenced ≡ c.fenced
  unfolding now
  now-fenced clock c =
      if_elim (λ (p : Collection E × ℕ). p.0.fenced ≡ c.fenced) _ _ _ (λ _. refl) (λ _. refl)

  -- The next id is not in the index.
  pub fresh_id :
      (c : Collection E)
      → IsSound E c
      → c.fenced ≡ none
      → rev_of (lookup (suc c.id_seq) c.index.entries) < 1
  fresh_id c s f =
      let (h, es, k) = s f in rw (lookup-beyond c.id_seq c.index.entries k.ids) (omega arith)

  pub refuse_if-IsSound :
      {A : Type 0} (test : Bool) (x : CollectionError) (c : Collection E)
      (p : Collection E × Outcome A)
      → IsSound E c
      → IsSound E p.0
      → IsSound E (refuse_if E test x c p).0
  unfolding refuse_if
  refuse_if-IsSound true x c p s t = s
  refuse_if-IsSound false x c p s t = t

  pub unless_fenced-IsSound :
      {A : Type 0} (c : Collection E) (p : Collection E × Outcome A)
      → IsSound E c
      → IsSound E p.0
      → IsSound E (unless_fenced E c p).0
  unfolding unless_fenced
  unless_fenced-IsSound c p s t = refuse_if-IsSound (is_fenced E c.fenced) fenced_error c p s t

  pub insert_record-IsSound :
      (io : Io) (doc : Fields C) (expires_at : ℕ) (c : Collection E)
      → omit_empty doc ≡ doc
      → IsSound E c
      → IsSound E (insert_record E io doc expires_at c).0
  unfolding insert_record new_insert new_entry
  insert_record-IsSound io doc expires_at c written s =
      let c' = (now E io.clock (record c { id_seq = suc c.id_seq })).0 in
      let t = (now E io.clock (record c { id_seq = suc c.id_seq })).1 in
      let e = versioned 1 expires_at (new_insert t (suc c.id_seq) doc) in
      let s' = now-IsSound io.clock (record c { id_seq = suc c.id_seq }) (next_id-IsSound c s) in
      let same = now-id_seq io.clock (record c { id_seq = suc c.id_seq }) in
      let fresh : c'.fenced ≡ none → rev_of (lookup (suc c.id_seq) c'.index.entries) < 1 = λ f.
        subst (λ (i : Index). rev_of (lookup (suc c.id_seq) i.entries) < 1)
          (sym (now-index io.clock (record c { id_seq = suc c.id_seq })))
          (fresh_id c s (sym (now-fenced io.clock (record c { id_seq = suc c.id_seq })) ∙ f)) in
      unless_fenced-IsSound c' _ s' (
        refuse_if-IsSound _ _ c' _ s' (
          refuse_if-IsSound _ _ c' _ s' (
            commit-IsSound E io "insert" e _ _ _ c' s'
              (λ f.
                let (h, es, k) = s' f in
                index_record-Applies c' h es e (X.index_entry (suc c.id_seq) doc) k (inl refl)
                  (fresh f) (omega (arith, same)))
              written)))

  -- An insert keeps the invariant, on every clock and disk; the document is nil or not empty.
  pub insert-IsSound :
      (io : Io) (doc : Fields C) (explicit : ℕ) (c : Collection E)
      → omit_empty doc ≡ doc
      → IsSound E c
      → IsSound E (insert E io doc explicit c).0
  unfolding insert
  insert-IsSound io doc explicit c written s =
      refuse_if-IsSound (has_key doc) _ c _ s
        (insert_record-IsSound io doc _ _ written (now-IsSound io.clock c s))

  keep_key-written :
      (doc : Fields C) (o : Option String)
      → omit_empty doc ≡ doc
      → omit_empty (keep_key E doc o) ≡ keep_key E doc o
  keep_key-written doc none w = w
  keep_key-written doc (some key) w = stamp_key-written (string_value key) doc

  pub preserve-written :
      (id : ℕ) (doc : Fields C) (c : Collection E)
      → omit_empty doc ≡ doc
      → omit_empty (preserve_reserved_locked E id doc c) ≡ preserve_reserved_locked E id doc c
  unfolding preserve_reserved_locked
  preserve-written id doc c w =
      if_elim (λ (d : Fields C). omit_empty d ≡ d) (has_key doc) _ _ (λ _. w)
        (λ _. keep_key-written doc (X.key_of c.sidx id) w)

  update_found-IsSound :
      (io : Io) (t id : ℕ) (doc : Fields C) (expires_at : ℕ) (keep_expiry : Bool) (c : Collection E)
      (o : Option IndexEntry)
      → Index.get id c.index ≡ o
      → omit_empty doc ≡ doc
      → IsSound E c
      → IsSound E (update_found E io t id doc expires_at keep_expiry c o).0
  unfolding Index.get new_update new_entry
  update_found-IsSound io t id doc expires_at keep_expiry c none at w s = s
  update_found-IsSound io t id doc expires_at keep_expiry c (some cur) at w s =
      let kept = preserve_reserved_locked E id doc c in
      let e =
        versioned (cur.rev + 1) (if keep_expiry then cur.expires_at else expires_at)
          (new_update t id kept) in
      refuse_if-IsSound _ _ c _ s (
        commit-IsSound E io "update" e _ _ _ c s
          (λ f.
            let (h, es, k) = s f in
            index_record-Applies c h es e (X.update_entry id kept) k (inr refl)
              (rw at (omega arith))
              (All-lookup (λ p. p.0 ≤ c.id_seq) id cur c.index.entries at k.ids))
          (preserve-written id doc c w))

  pub update_record-IsSound :
      (io : Io) (id : ℕ) (doc : Fields C) (expires_at : ℕ) (keep_expiry : Bool) (c : Collection E)
      → omit_empty doc ≡ doc
      → IsSound E c
      → IsSound E (update_record E io id doc expires_at keep_expiry c).0
  unfolding update_record
  update_record-IsSound io id doc expires_at keep_expiry c w s =
      let s' = now-IsSound io.clock c s in
      unless_fenced-IsSound _ _ s'
        (update_found-IsSound io _ id doc expires_at keep_expiry _ _ refl w s')

  -- So do both updates by id,
  pub update-IsSound :
      (io : Io) (id : ℕ) (doc : Fields C) (c : Collection E)
      → omit_empty doc ≡ doc
      → IsSound E c
      → IsSound E (update E io id doc c).0
  unfolding update
  update-IsSound io id doc c w s =
      refuse_if-IsSound (has_key doc) _ c _ s (update_record-IsSound io id doc 0 true c w s)

  pub update_with_expiry-IsSound :
      (io : Io) (id : ℕ) (doc : Fields C) (explicit : ℕ) (c : Collection E)
      → omit_empty doc ≡ doc
      → IsSound E c
      → IsSound E (update_with_expiry E io id doc explicit c).0
  unfolding update_with_expiry
  update_with_expiry-IsSound io id doc explicit c w s =
      refuse_if-IsSound (has_key doc) _ c _ s
        (update_record-IsSound io id doc _ false _ w (now-IsSound io.clock c s))

  delete_found-IsSound :
      (io : Io) (t id : ℕ) (c : Collection E) (o : Option IndexEntry)
      → IsSound E c
      → IsSound E (delete_found E io t id c o).0
  delete_found-IsSound io t id c none s = s
  delete_found-IsSound io t id c (some cur) s =
      commit-IsSound E io "delete" (new_delete t id) (λ off. unindex_record E id) tt _ c s
        (λ f. let (h, es, k) = s f in unindex_record-Applies c h es t id k)
        (unfold new_delete new_entry in refl)

  -- and a delete.
  pub delete-IsSound :
      (io : Io) (id : ℕ) (c : Collection E) → IsSound E c → IsSound E (delete E io id c).0
  unfolding delete
  delete-IsSound io id c s =
      let s' = now-IsSound io.clock c s in
      unless_fenced-IsSound _ _ s' (delete_found-IsSound io _ id _ _ s')
