-- ===== src/Xtx/Discovery/TruthTable.antt =====
-- What engine/xtx_recovery.go decides against the truth table of internal/xtxspec/recovery.go.
use scriva.Prelude.{
  nat_eq, string_eq, Bool, false, Option, none, some, List, [], ◌∷◌, Dict, lookup, String, ◌≡◌,
  refl, arith, All, All-lookup, Option-cases, inl, inr, ℕ,
}
use scriva.Xtx.Journal.{Part}
use scriva.Xtx.Recovery.{
  Outcome, nothing, aborted, committed, refuse, Run, Input, check_run, check_part, check_parts,
  resolve,
}
use scriva.Xtx.Coordinator.{XtxDecision}
use scriva.Xtx.Coordinator.Validation.{Hash}
use scriva.Xtx.Coordinator.Views.{table_decision}
use scriva.Xtx.Prepare.{StampedEntry}
use scriva.Xtx.Discovery.{
  run_of, Resolution, skipped, presumed_aborted, recovered_committed, retired_committed,
  recovered_aborted, retired_aborted, missing_collection, foreign_run, missing_run, digest_mismatch,
  check_runs, recover_tx, evidence_of, add_run, discover,
}

abbrev pub outcome_of_resolution : Resolution → Outcome
outcome_of_resolution skipped = nothing
outcome_of_resolution presumed_aborted = aborted
outcome_of_resolution recovered_committed = committed
outcome_of_resolution retired_committed = committed
outcome_of_resolution recovered_aborted = aborted
outcome_of_resolution retired_aborted = aborted
outcome_of_resolution missing_collection = refuse
outcome_of_resolution foreign_run = refuse
outcome_of_resolution missing_run = refuse
outcome_of_resolution digest_mismatch = refuse

abbrev pub table_parts : Option XtxDecision → List Part
table_parts none = []
table_parts (some d) = d.parts

-- what the truth table reads of a transaction, with a journal that is there and free of conflict
abbrev pub input_of : Option XtxDecision → Dict String Bool → Dict String Run → Bool → Input
input_of o existing ev torn = record {
  decision = table_decision o;
  parts = table_parts o;
  evidence = ev;
  existing = existing;
  journal_missing = false;
  conflict = false;
  torn_journal_tail = torn;
}

-- no run was de-stamped by a compaction
abbrev IsStamped : String × Run → Type 0
IsStamped e = e.1.destamped ≡ false

check_runs-outcome :
    (row : ℕ) (ps : List Part) (ev : Dict String Run)
    → All IsStamped ev
    → (check_parts row ps ev).outcome ≡ outcome_of_resolution (check_runs ps ev)
unfolding check_parts check_runs check_part check_run
check_runs-outcome row [] ev h = refl
check_runs-outcome row (p ∷ ps) ev h = elim (Option-cases (lookup p.c ev)) [
  | inl gone ↦ rw (gone, check_parts, check_runs, check_part)
  | inr (run, found) ↦
      let intact : run.destamped ≡ false = All-lookup IsStamped p.c run ev found h in
      rw (found, check_parts, check_runs, check_part)
        (ground (arith, intact, check_runs-outcome row ps ev h, check_runs-outcome 4 ps ev h))
]

recover_tx-outcome :
    (o : Option XtxDecision) (existing : Dict String Bool) (ev : Dict String Run) (torn : Bool)
    → All IsStamped ev
    → (resolve (input_of o existing ev torn)).outcome
      ≡ outcome_of_resolution (recover_tx o existing ev)
unfolding resolve recover_tx
recover_tx-outcome none existing [] torn h = refl
recover_tx-outcome none existing (e ∷ ev) torn h = ground arith
recover_tx-outcome (some d) existing ev torn h = ground (arith, check_runs-outcome 3 d.parts ev h)

module _ (H : Hash) where
  add_run-IsStamped :
      (c : String) (run : List StampedEntry) (ev : Dict String Run)
      → All IsStamped ev
      → All IsStamped (add_run c (evidence_of H run) ev)
  unfolding evidence_of
  add_run-IsStamped c [] ev h = h
  add_run-IsStamped c (e ∷ es) ev h = (refl, h)

  discover-IsStamped :
      (tx : String) (cols : List (String × List StampedEntry)) → All IsStamped (discover H tx cols)
  unfolding discover
  discover-IsStamped tx [] = tt
  discover-IsStamped tx ((c, lines) ∷ cols) =
      add_run-IsStamped c (run_of tx lines) (discover H tx cols) (discover-IsStamped tx cols)

  -- The engine's recovery decides what the truth table says, in every case: for the decision that the
  -- journal's table holds of a transaction and the runs that a scan of the collections finds, the
  -- outcome is that of `Resolve` on the same evidence, refusals included.
  pub recover_tx-resolve :
      (o : Option XtxDecision) (tx : String) (cols : List (String × List StampedEntry))
      (existing : Dict String Bool) (torn : Bool)
      → (resolve (input_of o existing (discover H tx cols) torn)).outcome
        ≡ outcome_of_resolution (recover_tx o existing (discover H tx cols))
  recover_tx-resolve o tx cols existing torn =
      recover_tx-outcome o existing (discover H tx cols) torn (discover-IsStamped tx cols)
