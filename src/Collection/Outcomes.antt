-- ===== src/Collection/Outcomes.antt =====
-- How an append of a write ends, and that a fence stays.
use scriva.Prelude.{
  ℕ, ◌≡◌, ◌≢◌, ◌⊎◌, inl, inr, refl, sym, ap, subst, ◌∙◌, String, true, Option, none, some, nat_eq,
  if_false, if_true,
}
use scriva.Store.{Entry}
use scriva.Segment
use scriva.Segment.{Segment, SegmentError, Write, append, segment_poisoned}
use scriva.Segment.Appending.{IsTidy, append-failed}
use scriva.Collection.{
  Env, Collection, CollectionError, not_applied, write_outcome_unknown, Fence, fenced_error,
  first_cause, fence, is_fenced, Cause, write_cause,
}
use scriva.Collection.Commit.{Result, ok, err, append_locked, append_outcome}

-- The second state shows no more than the first one does.
pub record Unpublished (E : Env) (c d : Collection E) : Type 0 where
  pub index : d.index ≡ c.index
  pub sidx : d.sidx ≡ c.sidx
  pub published : d.published ≡ c.published
  pub emitted : d.emitted ≡ c.emitted

module _ (E : Env) where
  open E use {C, X}
  open C use {V}

  first_cause-some : (o : Option Fence) (f : Fence) → first_cause E o f ≢ none
  first_cause-some none f h = cc h
  first_cause-some (some g) f h = cc h

  first_cause-kept : (o : Option Fence) (f : Fence) → o ≢ none → first_cause E o f ≡ o
  first_cause-kept none f h = absurd (h refl)
  first_cause-kept (some g) f h = refl

  pub fence-fenced :
      (op : String) (cause : Cause) (c : Collection E) → (fence E op cause c).fenced ≢ none
  unfolding fence
  fence-fenced op cause c = first_cause-some c.fenced (record { op = op; cause = cause })

  -- A fence that is set stays the same: the first cause is kept.
  pub fence-first :
      (op : String) (cause : Cause) (c : Collection E) → c.fenced ≢ none → fence E op cause c ≡ c
  unfolding fence
  fence-first op cause c h =
      ap (λ (o : Option Fence). record c { fenced = o })
        (first_cause-kept c.fenced (record { op = op; cause = cause }) h)

  -- How an append ends: nothing changed; or the collection is fenced; or the active segment has the
  -- line.
  abbrev pub AppendEnds : Write → Entry V → Collection E → Collection E × Result ℕ → Type 0
  AppendEnds io e c p =
      ((x : SegmentError) × (p ≡ (c, err (not_applied x))))
      ⊎ ((x : CollectionError) × (d : Collection E) × (p ≡ (d, err x))
          × (d.fenced ≢ none)
          × Unpublished E c d)
      ⊎ ((seg : Segment) × (offset : ℕ) × (p ≡ (record c { active = seg }, ok offset))
          × (append C io e c.active ≡ (seg, Segment.ok offset)))

  outcome_other :
      (x : SegmentError) (op : String) (d : Collection E)
      → (x ≡ segment_poisoned) ⊎ (append_outcome E op (Segment.err x) d ≡ (d, err (not_applied x)))
  outcome_other segment_poisoned op d = inl refl
  outcome_other Segment.append_to_sealed op d = inr refl
  outcome_other Segment.rollback_sealed op d = inr refl
  outcome_other Segment.record_too_large op d = inr refl
  outcome_other Segment.write_failed op d = inr refl
  outcome_other Segment.sync_failed op d = inr refl
  outcome_other Segment.close_failed op d = inr refl
  outcome_other (Segment.store_error e) op d = inr refl

  poisoned-AppendEnds :
      (io : Write) (op : String) (e : Entry V) (c : Collection E) (seg : Segment) (x : SegmentError)
      → x ≡ segment_poisoned
      → AppendEnds io e c (append_outcome E op (Segment.err x) (record c { active = seg }))
  unfolding fence
  poisoned-AppendEnds io op e c seg x bad =
      let d = record c { active = seg } in
      let cause = write_cause segment_poisoned in
      let d' = fence E op cause (fence E "truncate" cause d) in
      rw bad (
        inr (
          inl (
            write_outcome_unknown segment_poisoned,
            d',
            refl,
            fence-fenced op cause (fence E "truncate" cause d),
            record { index = refl; sidx = refl; published = refl; emitted = refl },
          )))

  append_failed-AppendEnds :
      (io : Write) (op : String) (e : Entry V) (c : Collection E) (seg : Segment) (x : SegmentError)
      → (seg ≡ c.active) ⊎ (x ≡ segment_poisoned)
      → AppendEnds io e c (append_outcome E op (Segment.err x) (record c { active = seg }))
  append_failed-AppendEnds io op e c seg x left =
      elim (outcome_other x op (record c { active = seg })) [
        | inl bad ↦ poisoned-AppendEnds io op e c seg x bad
        | inr fine ↦ elim left [
          | inl same ↦
              inl (
                x,
                fine ∙ ap (λ (s : Segment). (record c { active = s }, err (not_applied x))) same,
              )
          | inr bad ↦ poisoned-AppendEnds io op e c seg x bad
        ]
      ]

  append_outcome-AppendEnds :
      (io : Write) (op : String) (e : Entry V) (c : Collection E)
      → IsTidy c.active
      → (q : Segment × Segment.Result ℕ) → append C io e c.active ≡ q
      → AppendEnds io e c (append_outcome E op q.1 (record c { active = q.0 }))
  append_outcome-AppendEnds io op e c tidy (seg, Segment.ok offset) h =
      inr (inr (seg, offset, refl, h))
  append_outcome-AppendEnds io op e c tidy (seg, Segment.err x) h =
      append_failed-AppendEnds io op e c seg x
        (elim (append-failed C io e c.active x tidy
          (ap (λ (r : Segment × Segment.Result ℕ). r.1) h)) [
            | inl same ↦ inl (sym (ap (λ (r : Segment × Segment.Result ℕ). r.0) h) ∙ same)
            | inr (_, _, bad) ↦ inr bad
          ])

  -- appendLocked on a collection that is not fenced.
  pub append_locked-AppendEnds :
      (io : Write) (op : String) (e : Entry V) (c : Collection E)
      → c.fenced ≡ none
      → IsTidy c.active
      → AppendEnds io e c (append_locked E io op e c)
  unfolding append_locked
  append_locked-AppendEnds io op e c h tidy =
      subst (AppendEnds io e c) (sym (if_false _ _ _ (ap (is_fenced E) h)))
        (append_outcome-AppendEnds io op e c tidy (append C io e c.active) refl)

  pub is_fenced-some : (o : Option Fence) → o ≢ none → is_fenced E o ≡ true
  is_fenced-some none h = absurd (h refl)
  is_fenced-some (some f) h = refl

  pub append_locked-fenced :
      (io : Write) (op : String) (e : Entry V) (c : Collection E)
      → c.fenced ≢ none
      → append_locked E io op e c ≡ (c, err fenced_error)
  unfolding append_locked
  append_locked-fenced io op e c h = if_true _ _ _ (is_fenced-some c.fenced h)
