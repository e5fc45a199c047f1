-- ===== src/Collection/Reaping/Survivors.antt =====
-- engine/ttl.go: which records a pass of the reaper takes out of the index.
use scriva.Prelude.{
  ℕ, ◌≡◌, ◌⊎◌, inl, inr, refl, sym, ap, subst, ◌∙◌, true, false, Option, none, some, Bool-cases,
  List, [], ◌∷◌, All, Dict, lookup, beq_iff, leb, arith, ◌==◌, nat_eq, string_eq, if◌then◌else◌,
  if_true, if_false, if_elim,
}
use scriva.Store.{Entry}
use scriva.Segment
use scriva.Segment.{Segment, SegmentError, Write, append, seal, sync, segment_poisoned}
use scriva.Index.{Index, IndexEntry}
use scriva.Collection.{
  Env, Collection, Rotation, RotateError, CollectionError, write_cause, fence, is_fenced, now,
}
use scriva.Collection.Commit.{
  Result, sync_outcome, sync_commit_locked, publish_commit, emit, rotate_persist, rotate_create,
  rotate_segment,
}
use scriva.Collection.Writes.{unindex_record}
use scriva.Collection.Soundness.{now-index}
use scriva.Collection.Reaping
use scriva.Collection.Reaping.{
  ReapIo, ReapError, Pass, pass_aborted, pass_over, due, ends_pass, after_reap, reap_due, reap_each,
  drop_reaped, emit_deletes, rotated_pass, finish_pass, after_pass_sync, after_pass, reap_ids,
  reap_expired, expired_ids,
}
use scriva.Collection.Reaping.Soundness.{forgotten}
use scriva.Collection.Reaping.Tombstones.{
  listed, reaps, lookup-forgotten, IsDue, Adds, Keeps, reap_each-Keeps,
}

module _ (E : Env) where
  open E use {C, X}
  open C use {V}

  rotate_segment-index :
      (rot : Rotation) (c : Collection E) → (rotate_segment E rot c).0.index ≡ c.index
  unfolding rotate_segment rotate_create rotate_persist fence
  rotate_segment-index rot c = ground arith

  drop_reaped-index :
      (es : List (Entry V)) (c : Collection E) → (drop_reaped E es c).index ≡ forgotten es c.index
  unfolding drop_reaped forgotten unindex_record publish_commit
  drop_reaped-index [] c = refl
  drop_reaped-index (e ∷ es) c = drop_reaped-index es (publish_commit E e (unindex_record E e.id c))

  emit_deletes-index :
      (es : List (Entry V)) (c : Collection E) → (emit_deletes E es c).index ≡ c.index
  unfolding emit_deletes emit
  emit_deletes-index [] c = refl
  emit_deletes-index (e ∷ es) c = emit_deletes-index es (emit E _ c)

  -- What a pass took out of the index.
  pub record Took (t : ℕ) (idx : Index) (ids : List ℕ) (p : Collection E × Option ReapError)
      : Type 0 where
    pub gone : List (Entry V)
    pub index : p.0.index ≡ forgotten gone idx
    pub all_due : All (IsDue t idx) gone
    pub complete :
        p.1 ≡ none
        → (j : ℕ) → listed j ids ≡ true
        → due t (lookup j idx.entries) ≡ true
        → reaps j gone ≡ true

  stop_error-none :
      (stop : Option (ℕ × CollectionError)) → Reaping.stop_error stop ≡ none → stop ≡ none
  stop_error-none none h = refl
  stop_error-none (some (id, x)) h = let bad : ⊥ = cc h in elim bad [ ]

  nothing-Took :
      (t : ℕ) (idx : Index) (ids : List ℕ) (c : Collection E) (x : ReapError)
      → c.index ≡ idx
      → Took t idx ids (c, some x)
  unfolding forgotten
  nothing-Took t idx ids c x same = record {
    gone = [];
    index = same;
    all_due = tt;
    complete = λ bad. let none_some : ⊥ = cc bad in elim none_some [ ];
  }

  rotated_pass-Took :
      (t : ℕ) (idx : Index) (ids : List ℕ) (es : List (Entry V))
      (stop : Option (ℕ × CollectionError)) (p : Collection E × Option RotateError)
      → p.0.index ≡ forgotten es idx
      → Adds V t idx ids [] es stop
      → Took t idx ids (rotated_pass E stop p)
  rotated_pass-Took t idx ids es stop (c, none) same a = record {
    gone = es;
    index = same;
    all_due = a.all_due;
    complete = λ h. a.complete (stop_error-none stop h);
  }
  rotated_pass-Took t idx ids es stop (c, some x) same a = record {
    gone = es;
    index = same;
    all_due = a.all_due;
    complete = λ bad. let none_some : ⊥ = cc bad in elim none_some [ ];
  }

  finish_pass-Took :
      (rot : Rotation) (t : ℕ) (idx : Index) (ids : List ℕ) (es : List (Entry V))
      (stop : Option (ℕ × CollectionError)) (c : Collection E)
      → c.index ≡ idx
      → Adds V t idx ids [] es stop
      → Took t idx ids (finish_pass E rot es stop c)
  unfolding finish_pass
  finish_pass-Took rot t idx ids es stop c same a =
      let d = drop_reaped E es c in
      let at : (emit_deletes E es d).index ≡ forgotten es idx =
        emit_deletes-index es d ∙ drop_reaped-index es c ∙ ap (forgotten es) same in
      if_elim (Took t idx ids) (leb d.cfg.segment_max_size d.active.size) _ _
        (λ _.
          rotated_pass-Took t idx ids es stop (rotate_segment E rot (emit_deletes E es d))
            (rotate_segment-index rot (emit_deletes E es d) ∙ at) a)
        (λ _. record {
          gone = es;
          index = at;
          all_due = a.all_due;
          complete = λ h. a.complete (stop_error-none stop h);
        })

  synced_pass-Took :
      (rot : Rotation) (t : ℕ) (idx : Index) (ids : List ℕ) (es : List (Entry V))
      (stop : Option (ℕ × CollectionError)) (c : Collection E) (r : Segment.Result (Unit {0}))
      → c.index ≡ idx
      → Adds V t idx ids [] es stop
      → Took t idx ids (after_pass_sync E rot es stop (sync_outcome E "reap" r c))
  unfolding fence
  synced_pass-Took rot t idx ids es stop c (Segment.ok _) same a =
      finish_pass-Took rot t idx ids es stop c same a
  synced_pass-Took rot t idx ids es stop c (Segment.err x) same a =
      nothing-Took t idx ids (fence E "reap" (write_cause x) c) _ same

  sync_pass-Took :
      (io : ReapIo) (t : ℕ) (idx : Index) (ids : List ℕ) (es : List (Entry V))
      (stop : Option (ℕ × CollectionError)) (c : Collection E)
      → c.index ≡ idx
      → Adds V t idx ids [] es stop
      → Took t idx ids
          (after_pass_sync E io.rotation es stop (sync_commit_locked E io.synced "reap" c))
  unfolding sync_commit_locked
  sync_pass-Took io t idx ids es stop c same a =
      if_elim
        (λ (p : Collection E × Result (Unit {0})).
          Took t idx ids (after_pass_sync E io.rotation es stop p))
        c.cfg.sync_always _ _
        (λ _. synced_pass-Took io.rotation t idx ids es stop c (sync io.synced c.active) same a)
        (λ _. finish_pass-Took io.rotation t idx ids es stop c same a)

  after_pass-Took :
      (io : ReapIo) (t : ℕ) (idx : Index) (ids : List ℕ) (c : Collection E) (p : Pass V)
      → Keeps E t idx ids [] c p
      → Took t idx ids (after_pass E io (c, p))
  unfolding forgotten
  after_pass-Took io t idx ids c (pass_aborted x) same = nothing-Took t idx ids c _ same
  after_pass-Took io t idx ids c (pass_over [] stop) (same, a) = record {
    gone = [];
    index = same;
    all_due = tt;
    complete = λ h. a.complete (stop_error-none stop h);
  }
  after_pass-Took io t idx ids c (pass_over (e ∷ es) stop) (same, a) =
      sync_pass-Took io t idx ids (e ∷ es) stop c same a

  reap_ids-Took :
      (io : ReapIo) (t : ℕ) (ids : List ℕ) (c : Collection E)
      → Took t c.index ids (reap_ids E io t ids c)
  unfolding reap_ids forgotten listed
  reap_ids-Took io t [] c = record {
    gone = [];
    index = refl;
    all_due = tt;
    complete = λ h j l d. let bad : ⊥ = cc l in elim bad [ ];
  }
  reap_ids-Took io t (id ∷ ids) c =
      after_pass-Took io t c.index (id ∷ ids) (reap_each E io.writes t (id ∷ ids) [] c).0
        (reap_each E io.writes t (id ∷ ids) [] c).1
        (reap_each-Keeps E io.writes t c.index (id ∷ ids) [] c refl tt)

  reaps-due :
      (t : ℕ) (idx : Index) (j : ℕ) (es : List (Entry V))
      → All (IsDue t idx) es
      → reaps j es ≡ true
      → due t (lookup j idx.entries) ≡ true
  unfolding reaps
  reaps-due t idx j [] h r = cc r
  reaps-due t idx j (e ∷ es) h r = elim (Bool-cases (e.id == j)) [
    | inl same ↦ sym (ap (λ (i : ℕ). due t (lookup i idx.entries)) ((beq_iff e.id j).0 same)) ∙ h.0
    | inr fine ↦ reaps-due t idx j es h.1 (ground (arith, r, fine))
  ]

  expired_ids-listed :
      (t j : ℕ) (m : Dict ℕ IndexEntry)
      → due t (lookup j m) ≡ true
      → listed j (expired_ids t m) ≡ true
  unfolding expired_ids listed lookup
  expired_ids-listed t j [] h = cc h
  expired_ids-listed t j ((id, loc) ∷ m) h =
      ground (arith, h, expired_ids-listed t j m, beq_iff id j)

  Took-at :
      (t j : ℕ) (idx : Index) (ids : List ℕ) (p : Collection E × Option ReapError)
      (k : Took t idx ids p)
      → lookup j p.0.index.entries ≡ (if reaps j k.gone then none else lookup j idx.entries)
  Took-at t j idx ids p k =
      ap (λ (i : Index). lookup j i.entries) k.index ∙ lookup-forgotten j k.gone idx

  -- What a pass does to one record of the index: it keeps it, or takes out one that is due.
  abbrev pub Fate : ℕ → ℕ → Index → Collection E × Option ReapError → Type 0
  Fate t j idx p =
      (lookup j p.0.index.entries ≡ lookup j idx.entries)
      ⊎ ((due t (lookup j idx.entries) ≡ true) × (lookup j p.0.index.entries ≡ none))

  Took-Fate :
      (t j : ℕ) (idx : Index) (ids : List ℕ) (p : Collection E × Option ReapError)
      → Took t idx ids p
      → Fate t j idx p
  Took-Fate t j idx ids p k = elim (Bool-cases (reaps j k.gone)) [
    | inl r ↦ inr (
      reaps-due t idx j k.gone k.all_due r,
      Took-at t j idx ids p k ∙ if_true (reaps j k.gone) _ _ r,
    )
    | inr r ↦ inl (Took-at t j idx ids p k ∙ if_false (reaps j k.gone) _ _ r)
  ]

  -- Whatever the disk does, a pass of the reaper takes only records whose deadline has passed out of
  -- the index and leaves the entries of the others as they are.
  pub reap_expired-Fate :
      (io : ReapIo) (c : Collection E) (j : ℕ)
      → Fate (now E io.clock c).1 j c.index (reap_expired E io c)
  unfolding reap_expired
  reap_expired-Fate io c j =
      let d = (now E io.clock c).0 in
      let t = (now E io.clock c).1 in
      let ids = expired_ids t d.index.entries in
      if_elim (Fate t j c.index) (is_fenced E c.fenced) _ _ (λ _. inl refl)
        (λ _.
          subst (λ (i : Index). Fate t j i (reap_ids E io t ids d)) (now-index E io.clock c)
            (Took-Fate t j d.index ids (reap_ids E io t ids d) (reap_ids-Took io t ids d)))

  -- A pass that returned no error took out just what was due.
  abbrev Cleared : ℕ → ℕ → Index → Collection E × Option ReapError → Type 0
  Cleared t j idx p =
      p.1 ≡ none
      → lookup j p.0.index.entries
        ≡ (if due t (lookup j idx.entries) then none else lookup j idx.entries)

  Took-Cleared :
      (t j : ℕ) (idx : Index) (ids : List ℕ) (p : Collection E × Option ReapError)
      → Took t idx ids p
      → (due t (lookup j idx.entries) ≡ true → listed j ids ≡ true)
      → Cleared t j idx p
  Took-Cleared t j idx ids p k all h = elim (Bool-cases (due t (lookup j idx.entries))) [
    | inl d ↦
        Took-at t j idx ids p k
        ∙ if_true (reaps j k.gone) _ _ (k.complete h j (all d) d)
        ∙ sym (if_true (due t (lookup j idx.entries)) _ _ d)
    | inr n ↦ elim (Bool-cases (reaps j k.gone)) [
      | inl r ↦
          let bad : false ≡ true = sym n ∙ reaps-due t idx j k.gone k.all_due r in
          let no : ⊥ = cc bad in elim no [ ]
      | inr r ↦
          Took-at t j idx ids p k
          ∙ if_false (reaps j k.gone) _ _ r
          ∙ sym (if_false (due t (lookup j idx.entries)) _ _ n)
    ]
  ]

  -- A pass of the reaper that returns no error takes exactly the records whose deadline has passed out
  -- of the index: of those nothing is left, and every other entry stands as before.
  pub reap_expired-due :
      (io : ReapIo) (c : Collection E) (j : ℕ)
      → (reap_expired E io c).1 ≡ none
      → lookup j (reap_expired E io c).0.index.entries ≡ (
          if due (now E io.clock c).1 (lookup j c.index.entries)
          then none
          else lookup j c.index.entries)
  unfolding reap_expired
  reap_expired-due io c j =
      let d = (now E io.clock c).0 in
      let t = (now E io.clock c).1 in
      let ids = expired_ids t d.index.entries in
      if_elim (Cleared t j c.index) (is_fenced E c.fenced) _ _
        (λ _ bad. let none_some : ⊥ = cc bad in elim none_some [ ])
        (λ _.
          subst (λ (i : Index). Cleared t j i (reap_ids E io t ids d)) (now-index E io.clock c)
            (Took-Cleared t j d.index ids (reap_ids E io t ids d) (reap_ids-Took io t ids d)
              (expired_ids-listed t j d.index.entries)))
