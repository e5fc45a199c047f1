-- ===== src/Xtx/Prepare/Endings.antt =====
-- engine/xtx_prepare.go: the ways in which xtxPrepareAndDecide ends.
use scriva.Prelude.{
  some-inj, ℕ, Bool, true, false, not, ◌&&◌, Option, none, some, List, [], ◌∷◌, ◌++◌, lookup,
  length, if_true, if_false, is_some, map, String, ◌≡◌, refl, sym, ap, ◌∙◌, subst, ◌≤◌, string_eq,
}
use scriva.Xtx.Journal.{Part, kind_abort}
use scriva.Xtx.Coordinator.{XtxError}
use scriva.Xtx.Coordinator.Validation.{Hash}
use scriva.Xtx.Coordinator.Deciding.{
  XtxJournal, LineWrite, line_failed, XtxReplBind, is_unknown, new_record, commit_prepared_bound,
}
use scriva.Xtx.Coordinator.Deciding.Outcomes.{
  Untouched, Entered, Ending, decided, unknown, failed, stranded, commit_prepared_bound-Ending,
  Aborting, unwritten, written, abort-Aborting,
}
use scriva.Xtx.Prepare.{
  XtxRun, PrepareIo, Prepared, prepared, durability_error, outcome_unknown_error, Parts, sync_runs,
  no_start, part_of, append_runs, give_up, after_decision, after_runs_sync, after_appends,
  prepare_and_decide,
}
use scriva.Xtx.Prepare.Durable.{All2, Wrote, Flushed, append_runs-Wrote, sync_runs-Flushed}

module _ (H : Hash) (tx key : String) (bind : Option XtxReplBind) (j : XtxJournal)
    (rs : List XtxRun) where
  -- the parts of the commit record
  abbrev pub run_parts : List Part
  run_parts = map (part_of H) rs

  -- how a commit of the runs `rs` ends, by what the write of its record did: the runs, the journal and
  -- the result
  pub data PrepareEnding (w : LineWrite) (p : List XtxRun × XtxJournal × Prepared) : Type 0 where
    all_decided :
        (offsets : List (String × List ℕ))
        → p.2 ≡ prepared offsets
        → All2 (Flushed tx) rs p.0
        → Entered H tx key run_parts bind j p.1
        → p.1.durable ≡ length p.1.lines
        → PrepareEnding w p
    in_doubt :
        (resync : Bool)
        → p.2 ≡ outcome_unknown_error resync
        → All2 (Flushed tx) rs p.0
        → Entered H tx key run_parts bind j p.1
        → p.1.durable ≡ j.durable
        → PrepareEnding w p
    given_up : p.2 ≡ durability_error → Aborting tx key "io" j p.1 → PrepareEnding w p
    record_stranded : p.2 ≡ durability_error → w ≡ line_failed true false → PrepareEnding w p

  module _ (io : PrepareIo) (fresh : lookup tx j.table.by_tx ≡ none)
      (le : j.durable ≤ length j.lines) where
    Aborting-behind :
        (j' j'' : XtxJournal)
        → Untouched j j'
        → Aborting tx key "io" j' j''
        → Aborting tx key "io" j j''
    Aborting-behind j' j'' u (unwritten v) = unwritten (record {
      epoch = v.epoch ∙ u.epoch;
      lines = v.lines ∙ u.lines;
      durable = v.durable ∙ u.durable;
      table = v.table ∙ u.table;
    })
    Aborting-behind j' j'' u (written e l d) =
        written (e ∙ u.epoch)
          (l ∙ ap (λ ls. ls ++ record (new_record kind_abort tx key) { why = "io" } ∷ []) u.lines)
          (subst (λ n. n ≤ j''.durable) u.durable d)

    give_up-Ending :
        (qs : List XtxRun) (j' : XtxJournal)
        → Untouched j j'
        → PrepareEnding io.commit_io.line (give_up H io tx key qs j')
    unfolding give_up
    give_up-Ending qs j' u = given_up refl (
        Aborting-behind j' _ u (
          abort-Aborting tx key "io" j' io.abort_io (ap (λ t. lookup tx t.by_tx) u.table ∙ fresh) (
            subst (λ n. n ≤ length j'.lines) (sym u.durable)
              (subst (λ ls. j.durable ≤ length ls) (sym u.lines) le))))

    after_decision-Ending :
        (qs : List XtxRun) (offsets : List (String × List ℕ)) (p : XtxJournal × Option XtxError)
        → All2 (Flushed tx) rs qs
        → Ending H tx key run_parts bind j io.commit_io.line p
        → PrepareEnding io.commit_io.line (after_decision H io tx key bind qs offsets p)
    unfolding after_decision
    after_decision-Ending qs offsets (j', none) f (decided e n d) = all_decided offsets refl f n d
    after_decision-Ending qs offsets (j', none) f (unknown e n d) =
        let bad : ⊥ = cc e in elim bad [ ]
    after_decision-Ending qs offsets (j', none) f (failed x e k u) =
        let bad : ⊥ = cc e in elim bad [ ]
    after_decision-Ending qs offsets (j', none) f (stranded e line n d b) =
        let bad : ⊥ = cc e in elim bad [ ]
    after_decision-Ending qs offsets (j', some y) f (stranded e line n d b) =
        let known : is_unknown y ≡ false = ap is_unknown (some-inj e) in
        subst (PrepareEnding io.commit_io.line)
          (sym (
            if_false (is_unknown y)
              (qs, j', outcome_unknown_error (io.has_broker && not (is_some bind))) _ known))
          (record_stranded refl line)
    after_decision-Ending qs offsets (j', some y) f (decided e n d) =
        let bad : ⊥ = cc e in elim bad [ ]
    after_decision-Ending qs offsets (j', some y) f (unknown e n d) =
        let known : is_unknown y ≡ true = ap is_unknown (some-inj e) in
        subst (PrepareEnding io.commit_io.line)
          (sym (if_true (is_unknown y) _ (give_up H io tx key qs j') known))
          (in_doubt (io.has_broker && not (is_some bind)) refl f n d)
    after_decision-Ending qs offsets (j', some y) f (failed x e k u) =
        let known : is_unknown y ≡ false = ap is_unknown (some-inj e) ∙ k in
        subst (PrepareEnding io.commit_io.line)
          (sym (
            if_false (is_unknown y)
              (qs, j', outcome_unknown_error (io.has_broker && not (is_some bind))) _ known))
          (give_up-Ending qs j' u)

    same : Untouched j j
    same = record { epoch = refl; lines = refl; durable = refl; table = refl }

    after_runs_sync-Ending :
        (offsets : List (String × List ℕ)) (p : List XtxRun × Bool)
        → (p.1 ≡ true → All2 (Flushed tx) rs p.0)
        → PrepareEnding io.commit_io.line (after_runs_sync H io tx key bind j run_parts offsets p)
    unfolding after_runs_sync
    after_runs_sync-Ending offsets (qs, false) f = give_up-Ending qs j same
    after_runs_sync-Ending offsets (qs, true) f =
        after_decision-Ending qs offsets
          (commit_prepared_bound H io.commit_io tx key run_parts bind j) (f refl)
          (commit_prepared_bound-Ending H tx key run_parts bind j io.commit_io fresh)

    after_appends-Ending :
        (p : List XtxRun × Option Parts)
        → ((v : Parts) → p.1 ≡ some v → All2 (Wrote tx) rs p.0 × (v.0 ≡ run_parts))
        → PrepareEnding io.commit_io.line (after_appends H io tx key bind j p)
    unfolding after_appends
    after_appends-Ending (qs, none) f = give_up-Ending qs j same
    after_appends-Ending (qs, some (ps, offsets)) f =
        let (wrote, names) = f (ps, offsets) refl in
        subst
          (λ (xs : List Part).
            PrepareEnding io.commit_io.line
              (after_runs_sync H io tx key bind j xs offsets (sync_runs io.synced qs)))
          (sym names)
          (after_runs_sync-Ending offsets (sync_runs io.synced qs)
            (sync_runs-Flushed tx io.synced rs qs wrote))

-- xtxPrepareAndDecide, for a transaction that the journal does not know, ends with all runs and the
-- commit record flushed; with all runs flushed and the commit record in doubt; with an error and at
-- most an abort record in the journal; or with an error and a commit record whose whole line
-- stays in the file although its write and its truncation failed.
pub prepare_and_decide-Ending :
    (H : Hash) (io : PrepareIo) (key tx : String) (rs : List XtxRun) (bind : Option XtxReplBind)
    (j : XtxJournal)
    → lookup tx j.table.by_tx ≡ none
    → j.durable ≤ length j.lines
    → PrepareEnding H tx key bind j
        (map no_start rs)
        io.commit_io.line
        (prepare_and_decide H io key tx rs bind j)
unfolding prepare_and_decide
prepare_and_decide-Ending H io key tx rs bind j fresh le =
    after_appends-Ending H tx key bind j (map no_start rs) io fresh le
      (append_runs H io tx (map no_start rs)) (append_runs-Wrote H tx io (map no_start rs))
