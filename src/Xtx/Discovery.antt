-- ===== src/Xtx/Discovery.antt =====
-- engine/xtx_recovery.go: the evidence that a scan of the segments finds of a transaction, and what
-- recovery decides with the journal's decision. A collection stands for the stamped and unstamped lines
-- of all its segments, in order. What recovery then writes, the truncation of dead runs at a segment's
-- end and the abort record of an undecided transaction, is not modelled, nor are the refusals of a root
-- whose journal is missing. The proofs are in the modules below.
pub mod TruthTable
pub mod Evidence
pub mod Whole
pub mod Loading
pub mod Opening
pub mod Crash
use scriva.Prelude.{
  ℕ, suc, ◌==◌, nat_eq, string_eq, Bool, true, false, not, ◌&&◌, ◌||◌, Option, none, some, List, [],
  ◌∷◌, Dict, lookup, length, if◌then◌else◌, String, map,
}
use scriva.Xtx.Journal.{Part, kind_commit, kind_abort}
use scriva.Xtx.Recovery
use scriva.Xtx.Recovery.{Run, has_foreign, has_missing}
use scriva.Xtx.Coordinator.{XtxRecord, XtxDecision, XtxTable, new_table}
use scriva.Query.{is_less}
use Prim.Native.String.{compare as compare_strings}
use scriva.Xtx.Coordinator.Validation.{OpRef, Hash, part_digest, load}
use scriva.Xtx.Prepare.{StampedEntry, uint32}

-- `runsInCol[txid]`
unfoldable pub run_of : String → List StampedEntry → List StampedEntry
run_of tx [] = []
run_of tx (e ∷ es) = let rest = run_of tx es in if e.t == tx then e ∷ rest else rest

-- every item, from position `i`, has its position and the run length of the first
unfoldable pub in_order : ℕ → ℕ → List StampedEntry → Bool
in_order n i [] = true
in_order n i (e ∷ es) = e.i == uint32 i && e.n == n && in_order n (suc i) es

-- What recovery decides for a transaction; `skipped` is one without decision and without runs.
pub data Resolution : Type 0 where
  skipped presumed_aborted recovered_committed retired_committed : Resolution
  recovered_aborted retired_aborted : Resolution
  missing_collection foreign_run missing_run digest_mismatch : Resolution

-- the second loop over the participants of a commit record
unfoldable pub check_runs : List Part → Dict String Run → Resolution
check_runs [] ev = recovered_committed
check_runs (p ∷ ps) ev =
    let rest = check_runs ps ev in
    elim (lookup p.c ev) [
      | none ↦ missing_run
      | some run ↦
          if not run.complete || not (run.n == p.n)
          then missing_run
          else if not (run.digest == p.d)
          then digest_mismatch
          else rest
    ]

unfoldable pub recover_commit : List Part → Dict String Bool → Dict String Run → Resolution
unfolding check_runs
recover_commit parts existing ev =
    if has_missing parts existing
    then missing_collection
    else if has_foreign parts ev
    then foreign_run
    else check_runs parts ev

abbrev no_runs : Dict String Run → Bool
no_runs [] = true
no_runs (_ ∷ _) = false

unfoldable pub recover_decided : XtxDecision → Dict String Bool → Dict String Run → Resolution
unfolding recover_commit
recover_decided d existing ev =
    if d.outcome == kind_commit
    then if d.retired then retired_committed else recover_commit d.parts existing ev
    else if d.retired
    then retired_aborted
    else recovered_aborted

-- the body of the loop over the transactions
unfoldable pub recover_tx : Option XtxDecision → Dict String Bool → Dict String Run → Resolution
unfolding recover_decided
recover_tx none existing ev = if no_runs ev then skipped else presumed_aborted
recover_tx (some d) existing ev = recover_decided d existing ev

abbrev pub add_run : String → Option Run → Dict String Run → Dict String Run
add_run c none ev = ev
add_run c (some run) ev = (c, run) ∷ ev

module _ (H : Hash) where
  -- the evidence of one collection
  unfoldable pub evidence_of : List StampedEntry → Option Run
  evidence_of [] = none
  evidence_of (e ∷ es) = some (record {
    complete = uint32 (length (e ∷ es)) == e.n && in_order e.n 0 (e ∷ es);
    n = uint32 (length (e ∷ es));
    digest = part_digest H (map (λ (x : StampedEntry). x.ref) (e ∷ es));
    destamped = false;
  })

  -- the runs of one transaction, by collection
  unfoldable pub discover : String → List (String × List StampedEntry) → Dict String Run
  unfolding evidence_of run_of
  discover tx [] = []
  discover tx ((c, lines) ∷ cols) = add_run c (evidence_of (run_of tx lines)) (discover tx cols)

-- the collections whose directories exist
abbrev pub existing_of : List (String × List StampedEntry) → Dict String Bool
existing_of [] = []
existing_of ((c, lines) ∷ cols) = (c, true) ∷ existing_of cols

-- the resolutions at which the loop returns an error
abbrev pub refuses : Resolution → Bool
refuses missing_collection = true
refuses foreign_run = true
refuses missing_run = true
refuses digest_mismatch = true
refuses _ = false

-- a set of ids in ascending order, as `allTxIDs` and `sort.Strings` give it
unfoldable pub add_id : String → List String → List String
add_id x [] = x ∷ []
add_id x (y ∷ ys) =
    let rest = add_id x ys in
    if y == x then y ∷ ys else if is_less (compare_strings x y) then x ∷ y ∷ ys else y ∷ rest

-- the ids of `xj.decisions()`
unfoldable pub add_decided : Dict String XtxDecision → List String → List String
unfolding add_id
add_decided [] ids = ids
add_decided ((tx, d) ∷ ds) ids = add_id tx (add_decided ds ids)

-- the ids of the stamped lines of a collection
unfoldable pub add_stamped : List StampedEntry → List String → List String
unfolding add_id
add_stamped [] ids = ids
add_stamped (e ∷ es) ids =
    let rest = add_stamped es ids in if e.t == "" then rest else add_id e.t rest

-- the keys of `evidenceByTx`
unfoldable pub add_evidence : List (String × List StampedEntry) → List String → List String
unfolding add_stamped
add_evidence [] ids = ids
add_evidence ((c, lines) ∷ cols) ids = add_stamped lines (add_evidence cols ids)

abbrev pub cons_resolved :
    String → Resolution → Option (Dict String Resolution) → Option (Dict String Resolution)
cons_resolved tx r none = none
cons_resolved tx r (some rs) = some ((tx, r) ∷ rs)

-- the loop over the transactions, which ends at the first that is refused
unfoldable pub resolve_all : (String → Resolution) → List String → Option (Dict String Resolution)
resolve_all f [] = some []
resolve_all f (tx ∷ txs) =
    let rest = resolve_all f txs in if refuses (f tx) then none else cons_resolved tx (f tx) rest

module _ (H : Hash) where
  -- the resolution of a transaction, with the journal's table
  abbrev pub resolution_in : XtxTable → List (String × List StampedEntry) → String → Resolution
  resolution_in t cols tx = recover_tx (lookup tx t.by_tx) (existing_of cols) (discover H tx cols)

  -- The resolution of one transaction from the journal's whole lines and the runs that the scan finds;
  -- `none` when the journal does not load.
  unfoldable pub recover_one :
      String → List XtxRecord → String → List (String × List StampedEntry) → Option Resolution
  unfolding recover_tx discover
  recover_one epoch ls tx cols = elim (load H epoch ls new_table) [
    | none ↦ none
    | some t ↦ some (resolution_in t cols tx)
  ]

  -- The open of a root: the journal's whole lines are loaded, and every transaction of the journal and
  -- of the segments is resolved; `none` is an open that is refused.
  unfoldable pub recover_crashed :
      String → List XtxRecord → List (String × List StampedEntry) → Option (Dict String Resolution)
  unfolding recover_tx discover resolve_all add_decided add_evidence
  recover_crashed epoch ls cols = elim (load H epoch ls new_table) [
    | none ↦ none
    | some t ↦ resolve_all (resolution_in t cols) (add_decided t.by_tx (add_evidence cols []))
  ]

-- what an open that went through decided for a transaction; the loop passes over the ones it has no
-- trace of
abbrev pub or_skipped : Option Resolution → Resolution
or_skipped none = skipped
or_skipped (some r) = r

unfoldable pub decided_at : String → Option (Dict String Resolution) → Option Resolution
unfolding lookup
decided_at tx none = none
decided_at tx (some rs) = some (or_skipped (lookup tx rs))
