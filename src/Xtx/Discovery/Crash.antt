-- ===== src/Xtx/Discovery/Crash.antt =====
-- A crash at any point behind xtxPrepareAndDecide, and the recovery at the next open.
use scriva.Prelude.{
  Option, none, some, List, [], ◌∷◌, ◌++◌, length, take, map, String, ◌≡◌, ◌≢◌, refl, true, false,
  sym, ap, ◌∙◌, subst, arith, ◌≤◌, ◌⊎◌, inl, inr, All,
}
use scriva.Xtx.Journal.{kind_abort}
use scriva.Xtx.Coordinator.{XtxRecord}
use scriva.Xtx.Coordinator.Validation.{Hash}
use scriva.Xtx.Coordinator.Deciding.{
  XtxJournal, line_failed, XtxReplBind, new_record, commit_record,
}
use scriva.Xtx.Coordinator.Deciding.Outcomes.{Entered, Aborting, unwritten, written}
use scriva.Xtx.Prepare.{StampedEntry, XtxRun, PrepareIo, Prepared, no_start, part_of}
use scriva.Xtx.Prepare.Durable.{All2, whole_lines, Flushed}
use scriva.Xtx.Prepare.Endings.{PrepareEnding, all_decided, in_doubt, given_up, record_stranded}
use scriva.Xtx.Discovery.{
  Resolution, skipped, presumed_aborted, recovered_committed, recovered_aborted, recover_commit,
  recover_tx, discover, existing_of, refuses, recover_one, recover_crashed, decided_at,
}
use scriva.Xtx.Discovery.Evidence.{
  AllOthers, Crashed, IsClean, HasEntries, discover-found, existing_of-found, Flushed-lines,
  take-all,
}
use scriva.Xtx.Discovery.Opening.{Resolved, OthersResolve, recover_crashed-Resolved}
use scriva.Xtx.Discovery.Whole.{dirs, recover_commit-whole}
use scriva.Xtx.Discovery.Loading.{
  JournalSurvives, take-last, Ready, recover-unrecorded, recover-aborted, recover-committed,
}

-- The open goes through, and the transaction does not count as committed.
abbrev pub IsAborted : Option Resolution → Type 0
IsAborted o = (o ≡ some skipped) ⊎ (o ≡ some presumed_aborted) ⊎ (o ≡ some recovered_aborted)

-- what the journal's lines decide for the transaction: it is left aborted
abbrev pub Aborts :
    Hash → String → XtxJournal → List (String × List StampedEntry) → List XtxRecord → Type 0
Aborts H tx j cols ls =
    (r : Resolution) × Resolved H tx j cols ls r × IsAborted (some r) × (refuses r ≡ false)

-- The collections hold every line of the runs, behind what they held before.
abbrev pub AllWhole : String → List XtxRun → List (String × List StampedEntry) → Type 0
AllWhole tx =
    All2
      (λ r c. (c.0 ≡ r.col) × (sealed : List StampedEntry) × (c.1 ≡ (sealed ++ whole_lines tx r)))

no_start-IsClean :
    (H : Hash) (tx : String) (rs : List XtxRun)
    → All (IsClean H tx) rs
    → All (IsClean H tx) (map no_start rs)
no_start-IsClean H tx [] h = tt
no_start-IsClean H tx (r ∷ rs) h = (h.0, no_start-IsClean H tx rs h.1)

module _ (H : Hash) (tx key : String) (bind : Option XtxReplBind) (j : XtxJournal)
    (ready : Ready H tx key bind j) (cols : List (String × List StampedEntry)) where
  unrecorded-Aborts : Aborts H tx j cols j.lines
  unfolding recover_tx
  unrecorded-Aborts = (
    recover_tx none (existing_of cols) (discover H tx cols),
    recover-unrecorded H tx key bind j ready cols,
    ground arith,
    ground arith,
  )

  -- what a crash leaves of a journal with one more record
  one_more :
      (j' : XtxJournal) (x : XtxRecord) (ls : List XtxRecord)
      → j'.lines ≡ (j.lines ++ x ∷ [])
      → j.durable ≤ j'.durable
      → JournalSurvives j' ls
      → (ls ≡ j.lines) ⊎ (ls ≡ (j.lines ++ x ∷ []))
  one_more j' x ls l d v =
      let at = v.lines ∙ ap (take v.kept) l in
      elim (take-last v.kept j.lines x (omega (arith, d, v.enough, sym ready.durable))) [
        | inl e ↦ inl (at ∙ e)
        | inr e ↦ inr (at ∙ e)
      ]

  pub given_up-Aborts :
      (j' : XtxJournal) (ls : List XtxRecord)
      → Aborting tx key "io" j j'
      → JournalSurvives j' ls
      → Aborts H tx j cols ls
  given_up-Aborts j' ls (unwritten u) v =
      let all =
        take-all v.kept j'.lines (
          subst (λ n. n ≤ v.kept) (u.durable ∙ ready.durable ∙ ap length (sym u.lines)) v.enough) in
      subst (Aborts H tx j cols) (sym (v.lines ∙ all ∙ u.lines)) unrecorded-Aborts
  given_up-Aborts j' ls (written e l d) v =
      elim (one_more j' (record (new_record kind_abort tx key) { why = "io" }) ls l d v) [
        | inl old ↦ subst (Aborts H tx j cols) (sym old) unrecorded-Aborts
        | inr new ↦
            subst (Aborts H tx j cols) (sym new)
              (recovered_aborted, recover-aborted H tx key bind j ready cols, inr (inr refl), refl)
      ]

whole-committed :
    (H : Hash) (tx key : String) (bind : Option XtxReplBind) (j : XtxJournal)
    (ready : Ready H tx key bind j) (cols others : List (String × List StampedEntry))
    (rs qs : List XtxRun) (j' : XtxJournal)
    → All (IsClean H tx) rs
    → AllOthers H tx others
    → All2 (Flushed tx) rs qs
    → Crashed H tx qs cols
    → (e : Entered H tx key (map (part_of H) rs) bind j j')
    → Resolved H tx j
        (cols ++ others)
        (j.lines ++ commit_record tx key (map (part_of H) rs) e.pd bind ∷ [])
        recovered_committed
whole-committed H tx key bind j ready cols others rs qs j' clean o f v e =
    let ps = map (part_of H) rs in
    let (entries, committed) = recover_commit-whole H tx rs (existing_of others) e.valid in
    subst (Resolved H tx j (cols ++ others) (j.lines ++ commit_record tx key ps e.pd bind ∷ []))
      (ap (λ ex. recover_commit ps ex (discover H tx (cols ++ others)))
          (existing_of-found H tx others rs qs cols f v)
        ∙ ap (λ ev. recover_commit ps (dirs H tx rs ++ existing_of others) ev)
            (discover-found H tx others rs qs cols clean entries f v o)
        ∙ committed)
      (recover-committed H tx key bind j ready (cols ++ others) ps e.pd e.digest e.valid
        e.unrefused)

Flushed-AllWhole :
    (H : Hash) (tx : String) (rs qs : List XtxRun) (cols : List (String × List StampedEntry))
    → All (HasEntries H tx) (map no_start rs)
    → All2 (Flushed tx) (map no_start rs) qs
    → Crashed H tx qs cols
    → AllWhole tx rs cols
Flushed-AllWhole H tx [] [] [] n f v = tt
Flushed-AllWhole H tx [] [] (c ∷ cols) n f v = elim v [ ]
Flushed-AllWhole H tx [] (q ∷ qs) cols n f v = elim f [ ]
Flushed-AllWhole H tx (r ∷ rs) [] cols n f v = elim f [ ]
Flushed-AllWhole H tx (r ∷ rs) (q ∷ qs) [] n f v = elim v [ ]
Flushed-AllWhole H tx (r ∷ rs) (q ∷ qs) (c ∷ cols) n f v = (
  (
    v.0.name ∙ f.0.col,
    v.0.sealed,
    v.0.lines
        ∙ ap (λ xs. v.0.sealed ++ xs) (Flushed-lines H tx (no_start r) q v.0.live n.0 f.0 v.0.rest),
  ),
  Flushed-AllWhole H tx rs qs cols n.1 f.1 v.1,
)

module _ (H : Hash) (io : PrepareIo) (key tx : String) (rs : List XtxRun)
    (bind : Option XtxReplBind) (j : XtxJournal) (ls : List XtxRecord)
    (cols others : List (String × List StampedEntry)) where
  -- the recovery of the transaction from what the crash left
  abbrev pub recovered : Option Resolution
  recovered = recover_one H j.epoch ls tx (cols ++ others)

  -- what the open behind the crash decides for the transaction
  abbrev pub opened : Option Resolution
  opened = decided_at tx (recover_crashed H j.epoch ls (cols ++ others))

  abbrev pub Atomic : Type 0
  Atomic = ((opened ≡ some recovered_committed) × AllWhole tx rs cols) ⊎ IsAborted opened

  -- the same of the journal's lines
  abbrev pub Settled : Type 0
  Settled =
      (Resolved H tx j (cols ++ others) ls recovered_committed × AllWhole tx rs cols)
      ⊎ Aborts H tx j (cols ++ others) ls

  module _ (ready : Ready H tx key bind j) (clean : All (IsClean H tx) rs)
      (apart : AllOthers H tx others) where
    pub decided-Settled :
        (qs : List XtxRun) (j' : XtxJournal)
        → All2 (Flushed tx) (map no_start rs) qs
        → (e : Entered H tx key (map (part_of H) (map no_start rs)) bind j j')
        → Crashed H tx qs cols
        → ls ≡ (j.lines ++ commit_record tx key (map (part_of H) (map no_start rs)) e.pd bind ∷ [])
        → Resolved H tx j (cols ++ others) ls recovered_committed × AllWhole tx rs cols
    decided-Settled qs j' f e v new = (
      subst (λ xs. Resolved H tx j (cols ++ others) xs recovered_committed) (sym new)
          (whole-committed H tx key bind j ready cols others (map no_start rs) qs j'
            (no_start-IsClean H tx rs clean) apart f v e),
      Flushed-AllWhole H tx rs qs cols
          (recover_commit-whole H tx (map no_start rs) (existing_of others) e.valid).0 f v,
    )

    pub ending-Settled :
        (p : List XtxRun × XtxJournal × Prepared)
        → PrepareEnding H tx key bind j (map no_start rs) io.commit_io.line p
        → io.commit_io.line ≢ line_failed true false
        → JournalSurvives p.1 ls
        → Crashed H tx p.0 cols
        → Settled
    ending-Settled p (all_decided offsets r f e d) gone v w =
        let all = take-all v.kept p.1.lines (subst (λ n. n ≤ v.kept) d v.enough) in
        inl (decided-Settled p.0 p.1 f e w (v.lines ∙ all ∙ e.lines))
    ending-Settled p (in_doubt resync r f e d) gone v w =
        elim (one_more H tx key bind j ready (cols ++ others) p.1 _ ls e.lines (omega (arith, d))
          v) [
            | inl old ↦ inr (
                subst (Aborts H tx j (cols ++ others)) (sym old)
                  (unrecorded-Aborts H tx key bind j ready (cols ++ others)))
            | inr new ↦ inl (decided-Settled p.0 p.1 f e w new)
          ]
    ending-Settled p (given_up r a) gone v w =
        inr (given_up-Aborts H tx key bind j ready (cols ++ others) p.1 ls a v)
    ending-Settled p (record_stranded r line) gone v w = let bad : ⊥ = gone line in elim bad [ ]

    pub Settled-Atomic : OthersResolve H tx j.table (cols ++ others) → Settled → Atomic
    Settled-Atomic o (inl (s, whole)) = inl (
      recover_crashed-Resolved H tx j (cols ++ others) ls recovered_committed s ready.own o refl,
      whole,
    )
    Settled-Atomic o (inr (r, s, aborted, fine)) = inr (
        subst IsAborted
          (sym (recover_crashed-Resolved H tx j (cols ++ others) ls r s ready.own o fine)) aborted)
