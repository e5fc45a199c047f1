-- ===== src/Xtx/CrashSafety.antt =====
-- engine/xtx_prepare.go, xtx_journal.go and xtx_recovery.go together: a commit over several
-- collections is atomic across a failing disk and a crash.
use scriva.Prelude.{
  ℕ, Option, some, List, ◌++◌, length, map, String, ◌≡◌, ◌≢◌, true, false, sym, ◌∙◌, subst, arith,
  ◌≤◌, All,
}
use scriva.Xtx.Coordinator.{XtxRecord}
use scriva.Xtx.Coordinator.Validation.{Hash}
use scriva.Xtx.Coordinator.Deciding.{XtxJournal, line_failed, XtxReplBind}
use scriva.Xtx.Prepare.{
  StampedEntry, XtxRun, PrepareIo, Prepared, prepared, durability_error, no_start,
  prepare_and_decide,
}
use scriva.Xtx.Prepare.Endings.{
  PrepareEnding, all_decided, in_doubt, given_up, record_stranded, prepare_and_decide-Ending,
}
use scriva.Xtx.Discovery.{recovered_committed, recover_crashed, decided_at}
use scriva.Xtx.Discovery.Evidence.{AllOthers, Crashed, IsClean, take-all}
use scriva.Xtx.Discovery.Loading.{JournalSurvives, Ready}
use scriva.Xtx.Discovery.Opening.{OthersResolve, recover_one-Resolved, recover_crashed-Resolved}
use scriva.Xtx.Discovery.Crash.{
  Aborts, IsAborted, AllWhole, recovered, Atomic, ending-Settled, decided-Settled, Settled-Atomic,
  given_up-Aborts,
}

module _ (H : Hash) (io : PrepareIo) (key tx : String) (rs : List XtxRun)
    (bind : Option XtxReplBind) (j : XtxJournal) (ready : Ready H tx key bind j) where
  ending :
      PrepareEnding H tx key bind j
        (map no_start rs)
        io.commit_io.line
        (prepare_and_decide H io key tx rs bind j)
  ending =
      prepare_and_decide-Ending H io key tx rs bind j ready.fresh
        (subst (λ n. n ≤ length j.lines) (sym ready.durable) (omega arith))

  failed-Aborts :
      (ls : List XtxRecord) (cols : List (String × List StampedEntry))
      (p : List XtxRun × XtxJournal × Prepared)
      → PrepareEnding H tx key bind j (map no_start rs) io.commit_io.line p
      → io.commit_io.line ≢ line_failed true false
      → p.2 ≡ durability_error
      → JournalSurvives p.1 ls
      → Aborts H tx j cols ls
  failed-Aborts ls cols p (all_decided at r f e d) gone failed v =
      let bad : ⊥ = cc (sym r ∙ failed) in elim bad [ ]
  failed-Aborts ls cols p (in_doubt resync r f e d) gone failed v =
      let bad : ⊥ = cc (sym r ∙ failed) in elim bad [ ]
  failed-Aborts ls cols p (given_up r a) gone failed v =
      given_up-Aborts H tx key bind j ready cols p.1 ls a v
  failed-Aborts ls cols p (record_stranded r line) gone failed v =
      let bad : ⊥ = gone line in elim bad [ ]

  -- A commit that was refused stays refused: for an id of the journal's epoch that a settled journal does not
  -- know, a key that is not too long and a well-formed binding, unless the write of the commit record
  -- failed with its whole line in the file and the truncation failed too, once xtxPrepareAndDecide has
  -- returned the durability error, and when no other transaction is refused by the lines that the
  -- collections hold, the open behind any crash goes through, and the transaction is not recovered as
  -- committed.
  pub prepare_and_decide-failed :
      (ls : List XtxRecord) (cols : List (String × List StampedEntry))
      → io.commit_io.line ≢ line_failed true false
      → OthersResolve H tx j.table cols
      → (prepare_and_decide H io key tx rs bind j).2 ≡ durability_error
      → JournalSurvives (prepare_and_decide H io key tx rs bind j).1 ls
      → IsAborted (decided_at tx (recover_crashed H j.epoch ls cols))
  prepare_and_decide-failed ls cols gone o failed v =
      let (r, s, aborted, fine) =
        failed-Aborts ls cols (prepare_and_decide H io key tx rs bind j) ending gone failed v in
      subst IsAborted (sym (recover_crashed-Resolved H tx j cols ls r s ready.own o fine)) aborted

module _ (H : Hash) (io : PrepareIo) (key tx : String) (rs : List XtxRun)
    (bind : Option XtxReplBind) (j : XtxJournal) (ready : Ready H tx key bind j)
    (clean : All (IsClean H tx) rs) (ls : List XtxRecord)
    (cols others : List (String × List StampedEntry)) (apart : AllOthers H tx others) where
  -- A commit over several collections is atomic across a crash: for an id of the journal's epoch that a
  -- settled journal does not know and of which no collection has a line yet, a key that is not too long
  -- and a well-formed binding, whatever writes, fsyncs and truncations fail, but for a write of the
  -- commit record that failed with its whole line in the file and a truncation that failed too, and
  -- whatever unflushed lines a crash takes from the journal and from each segment, when no other
  -- transaction is refused by the lines that the crash left, the next open goes through, and it either
  -- recovers the transaction as committed, with every line of every run in its collection, or leaves it
  -- aborted.
  pub prepare_and_decide-Atomic :
      io.commit_io.line ≢ line_failed true false
      → OthersResolve H tx j.table (cols ++ others)
      → JournalSurvives (prepare_and_decide H io key tx rs bind j).1 ls
      → Crashed H tx (prepare_and_decide H io key tx rs bind j).0 cols
      → Atomic H io key tx rs bind j ls cols others
  prepare_and_decide-Atomic gone o v w =
      Settled-Atomic H io key tx rs bind j ls cols others ready clean apart o (
        ending-Settled H io key tx rs bind j ls cols others ready clean apart
          (prepare_and_decide H io key tx rs bind j) (ending H io key tx rs bind j ready) gone v w)

  decided-durable :
      (p : List XtxRun × XtxJournal × Prepared) (offsets : List (String × List ℕ))
      → PrepareEnding H tx key bind j (map no_start rs) io.commit_io.line p
      → p.2 ≡ prepared offsets
      → JournalSurvives p.1 ls
      → Crashed H tx p.0 cols
      → (recovered H io key tx rs bind j ls cols others ≡ some recovered_committed)
        × AllWhole tx rs cols
  decided-durable p offsets (all_decided at r f e d) done v w =
      let all = take-all v.kept p.1.lines (subst (λ n. n ≤ v.kept) d v.enough) in
      let (s, whole) =
        decided-Settled H io key tx rs bind j ls cols others ready clean apart p.0 p.1 f e w
          (v.lines ∙ all ∙ e.lines) in
      (recover_one-Resolved H tx j (cols ++ others) ls recovered_committed s, whole)
  decided-durable p offsets (in_doubt resync r f e d) done v w =
      let bad : ⊥ = cc (sym r ∙ done) in elim bad [ ]
  decided-durable p offsets (given_up r a) done v w =
      let bad : ⊥ = cc (sym r ∙ done) in elim bad [ ]
  decided-durable p offsets (record_stranded r line) done v w =
      let bad : ⊥ = cc (sym r ∙ done) in elim bad [ ]

  -- A commit that was acknowledged is durable: for an id of the journal's epoch that a settled
  -- journal does not know and of which no collection has a line yet, a key that is not too long and a
  -- well-formed binding, once xtxPrepareAndDecide has returned the offsets, the
  -- transaction is recovered as committed after every crash, with every line of every run in its
  -- collection.
  pub prepare_and_decide-prepared :
      (offsets : List (String × List ℕ))
      → (prepare_and_decide H io key tx rs bind j).2 ≡ prepared offsets
      → JournalSurvives (prepare_and_decide H io key tx rs bind j).1 ls
      → Crashed H tx (prepare_and_decide H io key tx rs bind j).0 cols
      → (recovered H io key tx rs bind j ls cols others ≡ some recovered_committed)
        × AllWhole tx rs cols
  prepare_and_decide-prepared offsets done v w =
      decided-durable (prepare_and_decide H io key tx rs bind j) offsets
        (ending H io key tx rs bind j ready) done v w
