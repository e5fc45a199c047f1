-- ===== src/Xtx/Prepare.antt =====
-- engine/xtx_prepare.go with AppendStamped, rollback and Sync of engine/segment.go: the commit of a
-- transaction over several collections up to its decision. A segment is the list of the whole lines of
-- its file, with how many of them were flushed, and its size counts lines; what the disk does is an
-- argument. The proofs are in the modules below.
pub mod Durable
pub mod Endings
pub mod Open
pub mod Commits
use scriva.Prelude.{
  ℕ, suc, ◌^◌, ◌%◌, ◌==◌, nat_eq, Bool, true, false, not, ◌&&◌, ◌||◌, Option, none, some, List, [],
  ◌∷◌, ◌++◌, length, take, ltb, if◌then◌else◌, String, map, is_some,
}
use scriva.Xtx.Journal.{Part}
use scriva.Xtx.Coordinator.{XtxError}
use scriva.Xtx.Coordinator.Validation.{OpRef, Hash, part_digest}
use scriva.Xtx.Coordinator.Deciding.{
  XtxJournal, JournalIo, XtxReplBind, is_unknown, commit_prepared_bound, abort,
}

-- a line of a segment, with what a digest reads of its entry; without a stamp, `t` is empty
pub record StampedEntry : Type 0 where
  pub ref : OpRef
  pub t : String
  pub i : ℕ
  pub n : ℕ

-- a collection's active segment
pub record Active : Type 0 where
  pub lines : List StampedEntry
  pub durable : ℕ
  pub is_sealed : Bool
  pub is_poisoned : Bool

-- xtxRun, with what `startSizes` holds for its collection
pub record XtxRun : Type 0 where
  pub col : String
  pub active : Active
  pub entries : List OpRef
  pub start : Option ℕ

-- One write of a stamped line: done, refused for its encoding or length, or failed, with whether the
-- whole line went into the file all the same and whether the rollback's truncation succeeds.
pub data StampedWrite : Type 0 where
  stamped_written stamped_refused : StampedWrite
  stamped_failed : (whole truncated : Bool) → StampedWrite

-- What the disk does, by collection and by position in its run.
pub record PrepareIo : Type 0 where
  pub append : String → ℕ → StampedWrite
  pub synced : String → Bool
  pub truncated : String → Bool
  pub commit_io : JournalIo
  pub abort_io : JournalIo
  pub has_broker : Bool

-- `outcome_unknown_error` says whether the followers are sent through a snapshot
pub data Prepared : Type 0 where
  prepared : List (String × List ℕ) → Prepared
  durability_error : Prepared
  outcome_unknown_error : (resync : Bool) → Prepared

abbrev pub uint32 : ℕ → ℕ
uint32 x = x % 2 ^ 32

-- rollbackLocked
unfoldable pub rollback_lines : Bool → ℕ → Active → Active
rollback_lines truncated size s =
    if s.is_poisoned
    then s
    else if truncated
    then record s {
      lines = take size s.lines;
      durable = if ltb size s.durable then size else s.durable;
    }
    else record s { is_poisoned = true }

-- rollback
unfoldable pub rollback_active : Bool → ℕ → Active → Active
unfolding rollback_lines
rollback_active truncated size s = if s.is_sealed then s else rollback_lines truncated size s

unfoldable pub write_stamped : StampedWrite → StampedEntry → Active → Active × Option ℕ
unfolding rollback_lines
write_stamped stamped_refused e s = (s, none)
write_stamped stamped_written e s =
    if s.is_poisoned
    then (s, none)
    else (record s { lines = s.lines ++ e ∷ [] }, some (length s.lines))
write_stamped (stamped_failed whole truncated) e s =
    if s.is_poisoned
    then (s, none)
    else if whole && not truncated
    then (record s { lines = s.lines ++ e ∷ []; is_poisoned = true }, none)
    else (rollback_lines truncated (length s.lines) s, none)

-- AppendStamped: the offset at which the line starts
unfoldable pub append_stamped : StampedWrite → StampedEntry → Active → Active × Option ℕ
unfolding write_stamped
append_stamped w e s = if s.is_sealed then (s, none) else write_stamped w e s

abbrev pub stamped : String → ℕ → ℕ → OpRef → StampedEntry
stamped tx n i r = record { ref = r; t = tx; i = uint32 i; n = n }

abbrev cons_offset : ℕ → Option (List ℕ) → Option (List ℕ)
cons_offset at none = none
cons_offset at (some rest) = some (at ∷ rest)

-- the rest of the loop runs when the append succeeded
unfoldable pub chain_append :
    Active × Option ℕ → Active × Option (List ℕ) → Active × Option (List ℕ)
chain_append (s, none) after = (s, none)
chain_append (s, some at) (s', rest) = (s', cons_offset at rest)

-- the loop over the entries of one run, from position `i`
unfoldable pub append_run :
    (ℕ → StampedWrite) → String → ℕ → ℕ → List OpRef → Active → Active × Option (List ℕ)
unfolding append_stamped chain_append
append_run io tx n i [] s = (s, some [])
append_run io tx n i (r ∷ rs) s =
    let p = append_stamped (io i) (stamped tx n i r) s in
    chain_append p (append_run io tx n (suc i) rs p.0)

-- what S2 does to one run
unfoldable pub sync_run : Bool → XtxRun → XtxRun × Bool
sync_run synced r =
    if r.active.is_sealed
    then (r, true)
    else if synced
    then (record r { active = record (r.active) { durable = length r.active.lines } }, true)
    else (record r { active = record (r.active) { is_poisoned = true } }, false)

unfoldable pub chain_sync : XtxRun × Bool → List XtxRun → List XtxRun × Bool → List XtxRun × Bool
chain_sync (r, true) rs (rs', done) = (r ∷ rs', done)
chain_sync (r, false) rs after = (r ∷ rs, false)

-- S2
unfoldable pub sync_runs : (String → Bool) → List XtxRun → List XtxRun × Bool
unfolding sync_run chain_sync
sync_runs io [] = ([], true)
sync_runs io (r ∷ rs) = chain_sync (sync_run (io r.col) r) rs (sync_runs io rs)

unfoldable pub rollback_run : (String → Bool) → XtxRun → XtxRun
unfolding rollback_active
rollback_run io r = elim r.start [
  | none ↦ r
  | some size ↦ record r { active = rollback_active (io r.col) size r.active }
]

-- rollbackRuns
abbrev pub rollback_runs : (String → Bool) → List XtxRun → List XtxRun
rollback_runs io rs = map (rollback_run io) rs

abbrev pub no_start : XtxRun → XtxRun
no_start r = record r { start = none }

-- the lists of parts and of offsets
abbrev pub Parts : Type 0
Parts = List Part × List (String × List ℕ)

module _ (H : Hash) where
  abbrev pub part_of : XtxRun → Part
  part_of r = record { c = r.col; n = uint32 (length r.entries); d = part_digest H r.entries }

  abbrev cons_part : Part → List ℕ → Option Parts → Option Parts
  cons_part p at none = none
  cons_part p at (some (ps, ats)) = some (p ∷ ps, (p.c, at) ∷ ats)

  -- one run of S1, with its appends done, and the rest of the loop
  unfoldable pub chain_run :
      XtxRun
      → List XtxRun
      → Active × Option (List ℕ)
      → List XtxRun × Option Parts
      → List XtxRun × Option Parts
  chain_run r rs (s, none) after =
      (record r { active = s; start = some (length r.active.lines) } ∷ rs, none)
  chain_run r rs (s, some at) (rs', rest) = (
    record r { active = s; start = some (length r.active.lines) } ∷ rs',
    cons_part (part_of r) at rest,
  )

  -- S1: the parts of the commit record and the offsets
  unfoldable pub append_runs : PrepareIo → String → List XtxRun → List XtxRun × Option Parts
  unfolding append_run chain_run
  append_runs io tx [] = ([], some ([], []))
  append_runs io tx (r ∷ rs) =
      chain_run r rs
        (append_run (io.append r.col) tx (uint32 (length r.entries)) 0 r.entries r.active)
        (append_runs io tx rs)

  -- `rollbackRuns(); _ = j.abort(txid, key, "io")`
  unfoldable pub give_up :
      PrepareIo → String → String → List XtxRun → XtxJournal → List XtxRun × XtxJournal × Prepared
  unfolding rollback_run
  give_up io tx key rs j =
      (rollback_runs io.truncated rs, (abort io.abort_io tx key "io" j).0, durability_error)

  -- S3 and S4 over
  unfoldable pub after_decision :
      PrepareIo
      → String
      → String
      → Option XtxReplBind
      → List XtxRun
      → List (String × List ℕ)
      → XtxJournal × Option XtxError
      → List XtxRun × XtxJournal × Prepared
  unfolding give_up
  after_decision io tx key bind rs offsets (j, none) = (rs, j, prepared offsets)
  after_decision io tx key bind rs offsets (j, some x) =
      if is_unknown x
      then (rs, j, outcome_unknown_error (io.has_broker && not (is_some bind)))
      else give_up io tx key rs j

  unfoldable pub after_runs_sync :
      PrepareIo
      → String
      → String
      → Option XtxReplBind
      → XtxJournal
      → List Part
      → List (String × List ℕ)
      → List XtxRun × Bool
      → List XtxRun × XtxJournal × Prepared
  unfolding give_up after_decision
  after_runs_sync io tx key bind j parts offsets (rs, false) = give_up io tx key rs j
  after_runs_sync io tx key bind j parts offsets (rs, true) =
      after_decision io tx key bind rs offsets
        (commit_prepared_bound H io.commit_io tx key parts bind j)

  unfoldable pub after_appends :
      PrepareIo
      → String
      → String
      → Option XtxReplBind
      → XtxJournal
      → List XtxRun × Option Parts
      → List XtxRun × XtxJournal × Prepared
  unfolding give_up after_runs_sync sync_runs
  after_appends io tx key bind j (rs, none) = give_up io tx key rs j
  after_appends io tx key bind j (rs, some (parts, offsets)) =
      after_runs_sync io tx key bind j parts offsets (sync_runs io.synced rs)

  -- xtxPrepareAndDecide
  unfoldable pub prepare_and_decide :
      PrepareIo
      → String
      → String
      → List XtxRun
      → Option XtxReplBind
      → XtxJournal
      → List XtxRun × XtxJournal × Prepared
  unfolding after_appends append_runs
  prepare_and_decide io key tx rs bind j =
      after_appends io tx key bind j (append_runs io tx (map no_start rs))
