-- ===== src/Collection/Batch/Undo.antt =====
-- engine/collection.go: what a batch that fails leaves, by rollbackBatchLocked.
use scriva.Prelude.{
  ℕ, ◌≡◌, ◌≢◌, ◌⊎◌, inl, inr, sym, ap, subst, Bool, true, false, none, List, [], ◌∷◌, ◌++◌, Dict,
  lookup, take, take-length_append, arith, nat_eq, string_eq,
}
use scriva.Segment
use scriva.Segment.{
  Segment, SegmentError, Write, append, rollback, rollback_locked, segment_poisoned,
}
use scriva.Segment.Appending.{IsTidy}
use scriva.Index.{IndexEntry}
use scriva.Collection.{Env, Collection, write_cause}
use scriva.Collection.Outcomes.{fence-fenced}
use scriva.Collection.Batch.{Applied, restore_index, undo, rollback_batch_locked}
use scriva.Collection.Batch.Saved.{Saves, Named, restore-lookup}
use scriva.Collection.Batch.Growing.{Grown, OpsEnd, note_poison_cases}

-- A rollback of lines that were added to a tidy segment: the segment is poisoned, or as it was.
rollback-longer :
    (truncated : Bool) (size : ℕ) (more : List ℕ) (a : Segment)
    → IsTidy a
    → a.is_sealed ≡ false
    → ((rollback truncated a.size (record a { size = size; content = a.content ++ more })).1
        ≡ Segment.err segment_poisoned)
      ⊎ (rollback truncated a.size (record a { size = size; content = a.content ++ more })
          ≡ (a, Segment.ok tt))
unfolding rollback rollback_locked
rollback-longer false size more a tidy usable = ground arith
rollback-longer true size more a tidy usable =
    ground
      (arith, ap (λ (k : ℕ). take k (a.content ++ more)) tidy, take-length_append a.content more)

module _ (E : Env) where
  open E use {C, X}
  open C use {V}

  -- A rollback's collection, against the one before the batch: the same but for the indexes, and each
  -- record has the index entry that it had.
  pub record Restored (c d : Collection E) : Type 0 where
    pub others : d ≡ record c { index = d.index; sidx = d.sidx }
    pub entries : (id : ℕ) → lookup id d.index.entries ≡ lookup id c.index.entries
    pub sidx :
        (d.sidx ≡ c.sidx) ⊎ ((s : X.S) × (d.sidx ≡ (X.rebuild_all (c.sealed ++ c.active ∷ []) s).0))

  rollback-Grown :
      (before : Dict ℕ IndexEntry) (c d : Collection E) (truncated : Bool)
      → IsTidy c.active
      → c.active.is_sealed ≡ false
      → Grown E before c d
      → ((rollback truncated c.active.size d.active).1 ≡ Segment.err segment_poisoned)
        ⊎ (rollback truncated c.active.size d.active ≡ (c.active, Segment.ok tt))
  rollback-Grown before c d truncated tidy usable g =
      subst
        (λ (s : Segment).
          ((rollback truncated c.active.size s).1 ≡ Segment.err segment_poisoned)
          ⊎ (rollback truncated c.active.size s ≡ (c.active, Segment.ok tt)))
        (sym g.lines) (rollback-longer truncated d.active.size g.more c.active tidy usable)

  undo-Restored :
      (before : Dict ℕ IndexEntry) (c d : Collection E) (q : Segment × Segment.Result (Unit {0}))
      → Named c.index
      → Saves c.index before
      → Grown E before c d
      → (q.1 ≡ Segment.err segment_poisoned) ⊎ (q ≡ (c.active, Segment.ok tt))
      → ((undo E before d q).0.fenced ≢ none) ⊎ Restored c (undo E before d q).0
  undo-Restored before c d (seg, r) named saved g (inl bad) = inl (
      subst (λ (x : Segment.Result (Unit {0})). (undo E before d (seg, x)).0.fenced ≢ none)
        (sym bad)
        (fence-fenced E "truncate" (write_cause segment_poisoned) (record d { active = seg })))
  undo-Restored before c d q named saved g (inr good) =
      subst
        (λ (x : Segment × Segment.Result (Unit {0})).
          ((undo E before d x).0.fenced ≢ none) ⊎ Restored c (undo E before d x).0)
        (sym good)
        (inr (record {
          others =
              ap
                (λ (x : Collection E). record x {
                  active = c.active;
                  index = restore_index before d.index;
                  sidx = (X.rebuild_all (d.sealed ++ c.active ∷ []) d.sidx).0;
                })
                g.others;
          entries = restore-lookup c.index before d.index named saved g.kept;
          sidx = inr (
            d.sidx,
            ap (λ (ss : List Segment). (X.rebuild_all (ss ++ c.active ∷ []) d.sidx).0)
                (ap (λ (x : Collection E). x.sealed) g.others),
          );
        }))

  undo-fenced :
      (before : Dict ℕ IndexEntry) (d : Collection E) (q : Segment × Segment.Result (Unit {0}))
      → d.fenced ≢ none
      → (undo E before d q).0.fenced ≢ none
  undo-fenced before d (seg, Segment.ok _) shut = shut
  undo-fenced before d (seg, Segment.err x) shut =
      elim (note_poison_cases E x (record d { active = seg })) [
        | inl bad ↦ bad
        | inr same ↦ subst (λ (y : Collection E). y.fenced ≢ none) (sym same) shut
      ]

  -- The rollback of a batch whose operations ended in one of their ways.
  pub rollback_batch_locked-OpsEnd :
      (before : Dict ℕ IndexEntry) (c : Collection E) (truncated : Bool)
      (p : Collection E × Applied V)
      → IsTidy c.active
      → c.active.is_sealed ≡ false
      → Named c.index
      → Saves c.index before
      → OpsEnd E before c p
      → ((rollback_batch_locked E truncated c.active.size before p.0).0.fenced ≢ none)
        ⊎ Restored c (rollback_batch_locked E truncated c.active.size before p.0).0
  unfolding rollback_batch_locked
  rollback_batch_locked-OpsEnd before c truncated p tidy usable named saved (inl shut) =
      inl (undo-fenced before p.0 (rollback truncated c.active.size p.0.active) shut)
  rollback_batch_locked-OpsEnd before c truncated p tidy usable named saved (inr g) =
      undo-Restored before c p.0 _ named saved g
        (rollback-Grown before c p.0 truncated tidy usable g)
