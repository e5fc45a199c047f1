-- ===== src/Xtx/Recovery.antt =====
-- internal/xtxspec/recovery.go: the truth table that decides one transaction at open, and the
-- visibility predicate of stamped entries. The proofs are in the module below.
pub mod Atomicity
use scriva.Prelude.{
  ℕ, String, Bool, true, false, not, ◌&&◌, ◌||◌, Option, none, some, List, [], ◌∷◌, Dict, lookup,
  insert, ◌==◌, string_eq, nat_eq, if◌then◌else◌,
}
use scriva.Xtx.Journal.{
  Part, Decision, dec_none, dec_commit, dec_abort, dec_retire_commit, dec_retire_abort, is_commit,
  decision_at,
}

pub data Outcome : Type 0 where
  nothing aborted committed refuse : Outcome

-- What recovery found of one participant of one transaction.
pub record Run : Type 0 where
  pub complete : Bool
  pub n : ℕ
  pub digest : String
  pub destamped : Bool

pub record Input : Type 0 where
  pub decision : Decision
  pub parts : List Part
  pub evidence : Dict String Run
  pub existing : Dict String Bool
  pub journal_missing : Bool
  pub conflict : Bool
  pub torn_journal_tail : Bool

pub record Verdict : Type 0 where
  pub row : ℕ
  pub outcome : Outcome
  pub code : String
  pub action : String

unfoldable pub in_parts : String → List Part → Bool
in_parts c [] = false
in_parts c (p ∷ ps) = p.c == c || in_parts c ps

-- `for c := range in.Evidence { if !inParts[c] …`: some evidence is of no participant
unfoldable pub has_foreign : List Part → Dict String Run → Bool
has_foreign ps [] = false
has_foreign ps ((c, run) ∷ ev) = not (in_parts c ps) || has_foreign ps ev

-- `in.Existing[c]`: a missing key reads as false
unfoldable pub exists_in : String → Dict String Bool → Bool
exists_in c ex = elim (lookup c ex) [ none ↦ false | some b ↦ b ]

unfoldable pub has_missing : List Part → Dict String Bool → Bool
has_missing [] ex = false
has_missing (p ∷ ps) ex = not (exists_in p.c ex) || has_missing ps ex

-- the verdict that one participant's evidence forces, if any, and whether it was de-stamped
pub data PartCheck : Type 0 where
  destamped intact : PartCheck
  missing mismatch : PartCheck

unfoldable pub check_run : Part → Run → PartCheck
check_run p ev =
    if ev.destamped
    then destamped
    else if not ev.complete || not (ev.n == p.n)
    then missing
    else if not (ev.digest == p.d)
    then mismatch
    else intact

unfoldable pub check_part : Part → Option Run → PartCheck
unfolding check_run
check_part p none = missing
check_part p (some ev) = check_run p ev

abbrev pub never_subset : String
never_subset = "ErrXTxIncomplete; never commit a subset"

-- the last loop of `Resolve`, with the row found so far
unfoldable pub check_parts : ℕ → List Part → Dict String Run → Verdict
check_parts row [] ev = record {
  row = row;
  outcome = committed;
  code = "";
  action = "entries visible; indexes tail-replayed";
}
check_parts row (p ∷ ps) ev = elim (check_part p (lookup p.c ev)) [
  | destamped ↦ check_parts 4 ps ev
  | intact ↦ check_parts row ps ev
  | missing ↦ record {
    row = 5;
    outcome = refuse;
    code = "xtx-participant-missing";
    action = never_subset;
  }
  | mismatch ↦ record {
    row = 5;
    outcome = refuse;
    code = "xtx-digest-mismatch";
    action = never_subset;
  }
]

unfoldable pub resolve_commit : Input → Verdict
resolve_commit i =
    if has_foreign i.parts i.evidence
    then record {
      row = 7;
      outcome = refuse;
      code = "xtx-foreign-run";
      action = "ErrXTxIncomplete; refuse open";
    }
    else if has_missing i.parts i.existing
    then record {
      row = 6;
      outcome = refuse;
      code = "xtx-missing-collection";
      action = "refuse open";
    }
    else check_parts 3 i.parts i.evidence

abbrev pub is_empty : Dict String Run → Bool
is_empty [] = true
is_empty (_ ∷ _) = false

unfoldable pub resolve_undecided : Input → Verdict
resolve_undecided i =
    if is_empty i.evidence
    then record { row = 1; outcome = nothing; code = ""; action = "" }
    else record {
      row = if i.torn_journal_tail then 13 else 2;
      outcome = aborted;
      code = "xtx-undecided-run";
      action = "truncate tail runs; append ABORT{why:recovery}; fsync";
    }

-- the `switch in.Decision`
unfoldable pub resolve_decision : Decision → Input → Verdict
unfolding resolve_commit resolve_undecided
resolve_decision dec_none i = resolve_undecided i
resolve_decision dec_abort i = record {
  row = 8;
  outcome = aborted;
  code = "";
  action = "skip entries; truncate if still tail";
}
resolve_decision dec_retire_abort i = record {
  row = 10;
  outcome = aborted;
  code = "";
  action = "skip; drop at next compaction";
}
resolve_decision dec_retire_commit i = record {
  row = 9;
  outcome = committed;
  code = "";
  action = "entries visible; no digest check";
}
resolve_decision dec_commit i = resolve_commit i

unfoldable pub resolve : Input → Verdict
unfolding resolve_decision
resolve i =
    if i.conflict
    then record {
      row = 11;
      outcome = refuse;
      code = "xtx-decision-conflict";
      action = "refuse open";
    }
    else if i.journal_missing && not (is_empty i.evidence)
    then record {
      row = 12;
      outcome = refuse;
      code = "xtx-journal-missing";
      action = "refuse open; operator repair --xtx-presume-abort";
    }
    else resolve_decision i.decision i

unfoldable pub entry_visible : String → Dict String Decision → Bool
unfolding decision_at
entry_visible tx ds = is_commit (decision_at tx ds)
