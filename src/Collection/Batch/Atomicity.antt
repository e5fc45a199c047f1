-- ===== src/Collection/Batch/Atomicity.antt =====
-- engine/collection.go: a batch on the legacy route takes place as a whole or not at all.
use scriva.Prelude.{
  ℕ, ◌≡◌, ◌≢◌, ◌⊎◌, inl, inr, refl, sym, ap, subst, Bool, true, false, Option, none, some, List, [],
  ◌∷◌, Dict, leb, if◌then◌else◌, if_false, if_elim, nat_eq, string_eq,
}
use scriva.Segment
use scriva.Segment.{Segment}
use scriva.Segment.Appending.{IsTidy}
use scriva.Index.{IndexEntry}
use scriva.Handles.{TxOp}
use scriva.Collection.{Env, Collection, CollectionError, fenced_error, is_fenced, now}
use scriva.Collection.Batch.{
  BatchIo, BatchError, refused, deleted_before_commit, refuse_batch, BatchOutcome, batch_failed,
  Applied, stopped, applied, Progress, save_before, first_missing, after_batch_sync, after_ops,
  keep_keys, apply_ops, no_progress, validated, finish_batch, commit_batch, commit_tx,
  sync_active_locked,
}
use scriva.Collection.Batch.Saved.{Named, Saves, Covers, save_before-Saves, save_before-Covers}
use scriva.Collection.Batch.Staged.{keep_keys-Covers}
use scriva.Collection.Batch.Growing.{OpsEnd, Grown-start, apply_ops-OpsEnd}
use scriva.Collection.Batch.Undo.{Restored, rollback_batch_locked-OpsEnd}

module _ (E : Env) where
  open E use {C, X}
  open C use {V}

  -- a failure leaves the collection fenced, or as it was
  abbrev pub FailsClean : Collection E → Collection E × BatchOutcome → Type 0
  FailsClean c p = (x : BatchError) → p.1 ≡ batch_failed x → (p.0.fenced ≢ none) ⊎ Restored E c p.0

  finish_batch-FailsClean :
      (io : BatchIo) (p : Progress V) (c d : Collection E) → FailsClean c (finish_batch E io p d)
  unfolding finish_batch
  finish_batch-FailsClean io p c d =
      if_elim (FailsClean c) (leb d.cfg.segment_max_size d.active.size) _ _
        (λ _ x h. let bad : ⊥ = cc h in elim bad [ ]) (λ _ x h. let bad : ⊥ = cc h in elim bad [ ])

  unchanged-FailsClean : (x : BatchError) (c : Collection E) → FailsClean c (c, batch_failed x)
  unchanged-FailsClean x c y h =
      inr (record { others = refl; entries = λ id. refl; sidx = inl refl })

  refuse_batch-FailsClean :
      (test : Bool) (x : CollectionError) (c : Collection E) (p : Collection E × BatchOutcome)
      → FailsClean c p
      → FailsClean c (refuse_batch E test x c p)
  unfolding refuse_batch
  refuse_batch-FailsClean true x c p h = unchanged-FailsClean (refused x) c
  refuse_batch-FailsClean false x c p h = h

  module _ (io : BatchIo) (before : Dict ℕ IndexEntry) (c : Collection E) (tidy : IsTidy c.active)
      (usable : c.active.is_sealed ≡ false) (named : Named c.index)
      (saved : Saves c.index before) where
    after_batch_sync-FailsClean :
        (p : Progress V) (d : Collection E) (r : Segment.Result (Unit {0}))
        → OpsEnd E before c (d, applied p)
        → FailsClean c (after_batch_sync E io c.active.size before p d r)
    after_batch_sync-FailsClean p d (Segment.ok _) ends = finish_batch-FailsClean io p c d
    after_batch_sync-FailsClean p d (Segment.err x) ends = λ y h.
        rollback_batch_locked-OpsEnd E before c io.truncated (d, applied p) tidy usable named saved
          ends

    after_ops-FailsClean :
        (p : Collection E × Applied V)
        → OpsEnd E before c p
        → FailsClean c (after_ops E io c.active.size before p)
    after_ops-FailsClean (d, stopped id x) ends = λ y h.
        rollback_batch_locked-OpsEnd E before c io.truncated (d, stopped id x) tidy usable named
          saved ends
    after_ops-FailsClean (d, applied p) ends =
        after_batch_sync-FailsClean p d (sync_active_locked E io.synced d) ends

    validated-FailsClean :
        (ops : List (TxOp V)) (t : ℕ) (o : Option ℕ)
        → Covers before (keep_keys E ops c)
        → FailsClean c (validated E io c.active.size before ops t c o)
    validated-FailsClean ops t (some id) cov = unchanged-FailsClean (deleted_before_commit id) c
    validated-FailsClean ops t none cov = refuse_batch-FailsClean _ _ c _ (
        refuse_batch-FailsClean _ _ c _ (
          after_ops-FailsClean (apply_ops E io.writes t (keep_keys E ops c) (no_progress E) c) (
            apply_ops-OpsEnd E before c io.writes t (keep_keys E ops c) (no_progress E) c cov
              (Grown-start E before c tidy))))

  -- What the clock leaves of the hypotheses of a batch.
  abbrev pub Ready : Collection E → Type 0
  Ready c = IsTidy c.active × (c.active.is_sealed ≡ false) × Named c.index

  commit_batch-FailsClean :
      (io : BatchIo) (ops : List (TxOp V)) (c : Collection E)
      → Ready c
      → FailsClean (now E io.clock c).0 (commit_batch E io ops c)
  unfolding commit_batch now
  commit_batch-FailsClean io ops c (tidy, usable, named) =
      let before = save_before c.index ops [] in
      let saved = save_before-Saves c.index ops [] tt in
      let cov = save_before-Covers c.index ops [] in
      if_elim
        (λ (p : Collection E × ℕ).
          FailsClean p.0
            (validated E io c.active.size before ops p.1 p.0 (first_missing p.0.index ops)))
        (leb io.clock c.clock_floor) _ _
        (λ _.
          validated-FailsClean io before c tidy usable named saved ops c.clock_floor
            (first_missing c.index ops) (keep_keys-Covers E before ops c cov))
        (λ _.
          let d = record c { clock_floor = io.clock } in
          validated-FailsClean io before d tidy usable named saved ops io.clock
            (first_missing c.index ops) (keep_keys-Covers E before ops d cov))

  -- A batch that fails on a collection that is not fenced, with an error at any stage, leaves it
  -- fenced, or as it was but for the clock: the active segment is byte for byte what it was, nothing
  -- is published or emitted, each record has its old index entry, and the secondary indexes are the
  -- old ones or rebuilt from the segments. The active segment is open and of its file's size, and no
  -- index entry names a segment "".
  pub commit_tx-failed :
      (io : BatchIo) (ops : List (TxOp V)) (c : Collection E) (x : BatchError)
      → c.fenced ≡ none
      → Ready c
      → (commit_tx E io ops c).1 ≡ batch_failed x
      → ((commit_tx E io ops c).0.fenced ≢ none)
        ⊎ Restored E (now E io.clock c).0 (commit_tx E io ops c).0
  unfolding commit_tx refuse_batch
  commit_tx-failed io [] c x free ready h = let bad : ⊥ = cc h in elim bad [ ]
  commit_tx-failed io (op ∷ ops) c x free ready h =
      let same : (if is_fenced E c.fenced
            then (c, batch_failed (refused fenced_error))
            else commit_batch E io (op ∷ ops) c)
          ≡ commit_batch E io (op ∷ ops) c =
        if_false _ _ _ (ap (is_fenced E) free) in
      subst
        (λ (p : Collection E × BatchOutcome).
          p.1 ≡ batch_failed x → (p.0.fenced ≢ none) ⊎ Restored E (now E io.clock c).0 p.0)
        (sym same) (commit_batch-FailsClean io (op ∷ ops) c ready x) h
