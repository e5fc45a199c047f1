-- ===== src/Scenarios/Transactions.antt =====
-- Journals and recoveries of one transaction, "t", with one participant.
use mathlib.Core.List.{Memᴰ}
use scriva.Prelude.{
  String, ◌≡◌, ◌≢◌, ◌⊎◌, inr, refl, true, false, some, List, [], ◌∷◌, Dict, lookup, insert, All,
  string_eq, nat_eq,
}
use scriva.Xtx.Journal.{
  Part, Record, Decision, dec_commit, dec_abort, dec_retire_commit, ok, decision_of,
  record_decision, decide, decisions_from, decisions, decision_at,
}
use scriva.Xtx.Journal.Agreement.{decisions-conflict}
use scriva.Xtx.Recovery.{
  nothing, aborted, committed, refuse, Run, Input, in_parts, has_foreign, exists_in, has_missing,
  check_run, check_part, check_parts, resolve_commit, resolve_decision, resolve, entry_visible,
}
use scriva.Xtx.Recovery.Atomicity.{
  IsWhole, resolve-commit-IsWhole, resolve-commit_complete, resolve-visible,
}

abbrev orders : Part
orders = record { c = "orders"; n = 2; d = "digest" }

abbrev commit_record : Record
commit_record = record { k = "commit"; tx = "t"; parts = orders ∷ []; pd = ""; o = "" }

abbrev abort_record : Record
abort_record = record { k = "abort"; tx = "t"; parts = []; pd = ""; o = "" }

abbrev retire_record : Record
retire_record = record { k = "retire"; tx = "t"; parts = []; pd = ""; o = "commit" }

abbrev journal : List Record
journal = commit_record ∷ retire_record ∷ []

abbrev retired : Dict String Decision
retired = ("t", dec_retire_commit) ∷ []

journal-folds : decisions journal ≡ ok retired
unfolding decisions decisions_from decide record_decision decision_of lookup insert
journal-folds = refl

read_commit : decision_of commit_record ≡ some dec_commit
unfolding decision_of
read_commit = refl

read_abort : decision_of abort_record ≡ some dec_abort
unfolding decision_of
read_abort = refl

decisions-conflict_example : decisions (commit_record ∷ abort_record ∷ []) ≢ ok retired
decisions-conflict_example =
    decisions-conflict (commit_record ∷ abort_record ∷ []) retired commit_record abort_record
      dec_commit dec_abort (Memᴰ.head refl) (Memᴰ.tail (Memᴰ.head refl)) refl read_commit read_abort
      (λ h. cc h)

abbrev whole_run : Run
whole_run = record { complete = true; n = 2; digest = "digest"; destamped = false }

abbrev crashed : Input
crashed = record {
  decision = dec_commit;
  parts = orders ∷ [];
  evidence = ("orders", whole_run) ∷ [];
  existing = ("orders", true) ∷ [];
  journal_missing = false;
  conflict = false;
  torn_journal_tail = false;
}

crashed-committed : (resolve crashed).outcome ≡ committed
unfolding resolve resolve_decision resolve_commit has_foreign in_parts has_missing exists_in
    check_parts check_part check_run lookup
crashed-committed = refl

resolve-commit-IsWhole_example :
    All (IsWhole crashed) crashed.parts
    × (has_foreign crashed.parts crashed.evidence ≡ false)
    × (crashed.conflict ≡ false)
resolve-commit-IsWhole_example = resolve-commit-IsWhole crashed refl crashed-committed

none_foreign : has_foreign crashed.parts crashed.evidence ≡ false
unfolding has_foreign in_parts
none_foreign = refl

orders-IsWhole : IsWhole crashed orders
unfolding exists_in lookup
orders-IsWhole = record { dir = refl; run = whole_run; found = refl; good = inr (refl, refl, refl) }

resolve-commit_complete_example : (resolve crashed).outcome ≡ committed
resolve-commit_complete_example =
    resolve-commit_complete crashed refl refl refl none_foreign (orders-IsWhole, tt)

decided : crashed.decision ≡ decision_at "t" (("t", dec_commit) ∷ [])
unfolding decision_at lookup
decided = refl

resolve-visible_example :
    ((resolve crashed).outcome ≡ refuse)
    ⊎ (((resolve crashed).outcome ≡ committed)
        × (entry_visible "t" (("t", dec_commit) ∷ []) ≡ true))
    ⊎ (((resolve crashed).outcome ≡ aborted) × (entry_visible "t" (("t", dec_commit) ∷ []) ≡ false))
    ⊎ (((resolve crashed).outcome ≡ nothing) × (entry_visible "t" (("t", dec_commit) ∷ []) ≡ false))
resolve-visible_example = resolve-visible crashed "t" (("t", dec_commit) ∷ []) decided
