-- ===== src/Collection/Reaping/Tombstones.antt =====
-- engine/ttl.go: which tombstones the loop of a pass has written when it ends.
use scriva.Prelude.{
  ℕ, ◌≡◌, inl, inr, refl, sym, ap, ◌∙◌, String, Bool, true, false, ◌||◌, Option, none, some,
  Bool-cases, List, [], ◌∷◌, ◌++◌, All, lookup, lookup-remove, beq_iff, arith, ◌==◌, nat_eq,
  string_eq, if◌then◌else◌, if_elim,
}
use scriva.Store.{Entry, new_delete, new_entry}
use scriva.Segment
use scriva.Segment.{Segment, SegmentError, Write, append, seal, sync, segment_poisoned}
use scriva.Index
use scriva.Index.{Index, IndexEntry, expired}
use scriva.Collection.{Env, Collection, CollectionError, fence, is_fenced}
use scriva.Collection.Commit.{Result, ok, err, append_outcome, append_locked}
use scriva.Collection.Batch.{next_write, later_writes}
use scriva.Collection.Reaping.{
  Pass, pass_aborted, pass_over, due, ends_pass, after_reap, reap_due, reap_each,
}
use scriva.Collection.Reaping.Soundness.{forgotten}

-- the id is one of the list's, and one of the tombstones'
unfoldable pub listed : ℕ → List ℕ → Bool
listed j [] = false
listed j (id ∷ ids) = (id == j) || listed j ids

unfoldable pub reaps : {V : Type 0} → ℕ → List (Entry V) → Bool
reaps j [] = false
reaps j (e ∷ es) = (e.id == j) || reaps j es

pub lookup-forgotten :
    {V : Type 0} (j : ℕ) (es : List (Entry V)) (idx : Index)
    → lookup j (forgotten es idx).entries ≡ (if reaps j es then none else lookup j idx.entries)
unfolding forgotten reaps Index.delete
lookup-forgotten j [] idx = refl
lookup-forgotten j (e ∷ es) idx =
    ground (arith, lookup-forgotten j es (Index.delete e.id idx), lookup-remove e.id j idx.entries)

pub reaps-snoc :
    {V : Type 0} (j : ℕ) (es : List (Entry V)) (e : Entry V)
    → reaps j (es ++ e ∷ []) ≡ (reaps j es || (e.id == j))
unfolding reaps
reaps-snoc j [] e = ground arith
reaps-snoc j (f ∷ es) e = ground (arith, reaps-snoc j es e)

-- A tombstone of a record that is due in the index.
abbrev pub IsDue : {V : Type 0} → ℕ → Index → Entry V → Type 0
IsDue t idx e = due t (lookup e.id idx.entries) ≡ true

All-snoc :
    {V : Type 0} (t : ℕ) (idx : Index) (es : List (Entry V)) (e : Entry V)
    → All (IsDue t idx) es
    → IsDue t idx e
    → All (IsDue t idx) (es ++ e ∷ [])
All-snoc t idx [] e h d = (d, tt)
All-snoc t idx (f ∷ es) e h d = (h.0, All-snoc t idx es e h.1 d)

-- What the loop over the ids adds to the tombstones that it has.
pub record Adds (V : Type 0) (t : ℕ) (idx : Index) (ids : List ℕ) (reaped after : List (Entry V))
    (stop : Option (ℕ × CollectionError)) : Type 0 where
  pub all_due : All (IsDue t idx) after
  pub kept : (j : ℕ) → reaps j reaped ≡ true → reaps j after ≡ true
  pub complete :
      stop ≡ none
      → (j : ℕ) → listed j ids ≡ true
      → due t (lookup j idx.entries) ≡ true
      → reaps j after ≡ true

module _ (E : Env) where
  open E use {C, X}
  open C use {V}

  append_outcome-index :
      (op : String) (r : Segment.Result ℕ) (c : Collection E)
      → (append_outcome E op r c).0.index ≡ c.index
  unfolding fence
  append_outcome-index op (Segment.ok off) c = refl
  append_outcome-index op (Segment.err segment_poisoned) c = refl
  append_outcome-index op (Segment.err Segment.append_to_sealed) c = refl
  append_outcome-index op (Segment.err Segment.rollback_sealed) c = refl
  append_outcome-index op (Segment.err Segment.record_too_large) c = refl
  append_outcome-index op (Segment.err Segment.write_failed) c = refl
  append_outcome-index op (Segment.err Segment.sync_failed) c = refl
  append_outcome-index op (Segment.err Segment.close_failed) c = refl
  append_outcome-index op (Segment.err (Segment.store_error e)) c = refl

  append_locked-index :
      (w : Write) (op : String) (e : Entry V) (c : Collection E)
      → (append_locked E w op e c).0.index ≡ c.index
  unfolding append_locked
  append_locked-index w op e c =
      if_elim (λ (p : Collection E × Result ℕ). p.0.index ≡ c.index) (is_fenced E c.fenced) _ _
        (λ _. refl)
        (λ _.
          let q = append C w e c.active in append_outcome-index op q.1 (record c { active = q.0 }))

  abbrev pub Keeps : ℕ → Index → List ℕ → List (Entry V) → Collection E → Pass V → Type 0
  Keeps t idx ids reaped c (pass_aborted x) = c.index ≡ idx
  Keeps t idx ids reaped c (pass_over after stop) =
      (c.index ≡ idx) × Adds V t idx ids reaped after stop

  stopped-Adds :
      (t : ℕ) (idx : Index) (ids : List ℕ) (reaped : List (Entry V)) (at : ℕ × CollectionError)
      → All (IsDue t idx) reaped
      → Adds V t idx ids reaped reaped (some at)
  stopped-Adds t idx ids reaped at h = record {
    all_due = h;
    kept = λ j r. r;
    complete = λ bad. let none_some : ⊥ = cc bad in elim none_some [ ];
  }

  after_reap-Keeps :
      (t id : ℕ) (idx : Index) (ids : List ℕ) (reaped : List (Entry V))
      (next : Collection E → Collection E × Pass V) (p : Collection E × Result ℕ)
      → All (IsDue t idx) reaped
      → p.0.index ≡ idx
      → ((d : Collection E) → d.index ≡ idx → Keeps t idx (id ∷ ids) reaped (next d).0 (next d).1)
      → Keeps t idx
          (id ∷ ids)
          reaped
          (after_reap E reaped id next p).0
          (after_reap E reaped id next p).1
  after_reap-Keeps t id idx ids reaped next (d, ok off) h same ends = ends d same
  after_reap-Keeps t id idx ids reaped next (d, err x) h same ends =
      if_elim (Keeps t idx (id ∷ ids) reaped d) (ends_pass x) _ _ (λ _. same)
        (λ _. (same, stopped-Adds t idx (id ∷ ids) reaped (id, x) h))

  reaped-Adds :
      (t id : ℕ) (idx : Index) (ids : List ℕ) (reaped after : List (Entry V))
      (stop : Option (ℕ × CollectionError))
      → Adds V t idx ids (reaped ++ new_delete t id ∷ []) after stop
      → Adds V t idx (id ∷ ids) reaped after stop
  unfolding listed new_delete new_entry
  reaped-Adds t id idx ids reaped after stop a = record {
    all_due = a.all_due;
    kept = λ j r. a.kept j (ground (arith, reaps-snoc j reaped (new_delete t id), r));
    complete = λ s j l d. elim (Bool-cases (id == j)) [
      | inl same ↦ a.kept j (ground (arith, reaps-snoc j reaped (new_delete t id), same))
      | inr fine ↦ a.complete s j (ground (arith, l, fine)) d
    ];
  }

  skipped-Adds :
      (t id : ℕ) (idx : Index) (ids : List ℕ) (reaped after : List (Entry V))
      (stop : Option (ℕ × CollectionError))
      → due t (lookup id idx.entries) ≡ false
      → Adds V t idx ids reaped after stop
      → Adds V t idx (id ∷ ids) reaped after stop
  unfolding listed
  skipped-Adds t id idx ids reaped after stop n a = record {
    all_due = a.all_due;
    kept = a.kept;
    complete = λ s j l d. elim (Bool-cases (id == j)) [
      | inl same ↦
          let bad : ⊥ = cc (n, d, ap (λ i. lookup i idx.entries) ((beq_iff id j).0 same)) in
          elim bad [ ]
      | inr fine ↦ a.complete s j (ground (arith, l, fine)) d
    ];
  }

  reaped-Keeps :
      (t id : ℕ) (idx : Index) (ids : List ℕ) (reaped : List (Entry V)) (p : Collection E × Pass V)
      → Keeps t idx ids (reaped ++ new_delete t id ∷ []) p.0 p.1
      → Keeps t idx (id ∷ ids) reaped p.0 p.1
  reaped-Keeps t id idx ids reaped (d, pass_aborted x) k = k
  reaped-Keeps t id idx ids reaped (d, pass_over after stop) (same, a) =
      (same, reaped-Adds t id idx ids reaped after stop a)

  skipped-Keeps :
      (t id : ℕ) (idx : Index) (ids : List ℕ) (reaped : List (Entry V)) (p : Collection E × Pass V)
      → due t (lookup id idx.entries) ≡ false
      → Keeps t idx ids reaped p.0 p.1
      → Keeps t idx (id ∷ ids) reaped p.0 p.1
  skipped-Keeps t id idx ids reaped (d, pass_aborted x) n k = k
  skipped-Keeps t id idx ids reaped (d, pass_over after stop) n (same, a) =
      (same, skipped-Adds t id idx ids reaped after stop n a)

  reap_due-elim :
      (P : Collection E × Pass V → Type 0) (b : Bool)
      (reap skip : Collection E → Collection E × Pass V) (c : Collection E)
      → (b ≡ true → P (reap c))
      → (b ≡ false → P (skip c))
      → P (reap_due E b reap skip c)
  reap_due-elim P true reap skip c r s = r refl
  reap_due-elim P false reap skip c r s = s refl

  pub reap_each-Keeps :
      (ws : List Write) (t : ℕ) (idx : Index) (ids : List ℕ) (reaped : List (Entry V))
      (c : Collection E)
      → c.index ≡ idx
      → All (IsDue t idx) reaped
      → Keeps t idx ids reaped (reap_each E ws t ids reaped c).0 (reap_each E ws t ids reaped c).1
  unfolding reap_each listed Index.get new_delete new_entry
  reap_each-Keeps ws t idx [] reaped c same h =
      (same, record { all_due = h; kept = λ j r. r; complete = λ s j l d. absurd (cc l) })
  reap_each-Keeps ws t idx (id ∷ ids) reaped c same h =
      let e = new_delete t id in
      let entry : lookup id c.index.entries ≡ lookup id idx.entries =
        ap (λ (i : Index). lookup id i.entries) same in
      reap_due-elim (λ p. Keeps t idx (id ∷ ids) reaped p.0 p.1) (due t (lookup id c.index.entries))
        _ (reap_each E ws t ids reaped) c
        (λ d.
          after_reap-Keeps t id idx ids reaped
            (reap_each E (later_writes ws) t ids (reaped ++ e ∷ []))
            (append_locked E (next_write ws) "reap" e c) h
            (append_locked-index (next_write ws) "reap" e c ∙ same)
            (λ x at.
              reaped-Keeps t id idx ids reaped
                (reap_each E (later_writes ws) t ids (reaped ++ e ∷ []) x)
                (reap_each-Keeps (later_writes ws) t idx ids (reaped ++ e ∷ []) x at
                  (All-snoc t idx reaped e h (sym (ap (due t) entry) ∙ d)))))
        (λ n.
          skipped-Keeps t id idx ids reaped (reap_each E ws t ids reaped c)
            (sym (ap (due t) entry) ∙ n) (reap_each-Keeps ws t idx ids reaped c same h))
