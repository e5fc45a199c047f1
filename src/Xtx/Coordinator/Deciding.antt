-- ===== src/Xtx/Coordinator/Deciding.antt =====
-- engine/xtx_journal.go: the appends to the journal. What the disk does is an argument. `lines` are the
-- whole record lines of the file, of which the first `durable` were flushed; the part of a line that a
-- failed write and a failed truncation leave at the end does not count.
pub mod Settling
pub mod Outcomes
use scriva.Prelude.{
  ℕ, ◌==◌, string_eq, nat_eq, Bool, true, false, not, ◌&&◌, ◌||◌, Option, none, some, List, [], ◌∷◌,
  ◌++◌, Dict, lookup, remove, length, ltb, if◌then◌else◌, is_some, String,
}
use Prim.Native.String.{len}
use scriva.Xtx.Journal.{Part, kind_commit, kind_abort}
use scriva.Xtx.Coordinator.{
  XtxRecord, XtxDecision, XtxTable, XtxError, outcome_conflict, lsn_conflict, key_too_long,
  invalid_parts, incomplete_binding, closed, durability, outcome_unknown, unknown_reason,
  foreign_tx, apply,
}
use scriva.Xtx.Coordinator.Validation.{
  Hash, belongs, abort_reason, max_key_len, validate_parts, parts_digest,
}

pub record XtxJournal : Type 0 where
  pub epoch : String
  pub table : XtxTable
  pub records : List XtxRecord
  pub lines : List XtxRecord
  pub durable : ℕ
  pub pending : Dict String String
  pub is_poisoned : Bool
  pub is_closed : Bool

-- One write of a line: done, or failed, with whether the whole line went into the file all the same and
-- whether the rollback's truncation succeeds.
pub data LineWrite : Type 0 where
  line_written : LineWrite
  line_failed : (whole truncated : Bool) → LineWrite

-- what the disk does to one record: its write, and whether the fsync succeeds
pub record JournalIo : Type 0 where
  pub line : LineWrite
  pub synced : Bool

-- xtxReplBind
pub record XtxReplBind : Type 0 where
  pub lsn : ℕ
  pub lead_tx : String
  pub digest : String

-- `errors.Is(err, ErrXTxOutcomeUnknown)`
abbrev pub is_unknown : XtxError → Bool
is_unknown outcome_unknown = true
is_unknown _ = false

unfoldable pub usable : XtxJournal → Option XtxError
usable j = if j.is_closed then some closed else if j.is_poisoned then some durability else none

-- the journal and whether the append succeeded
unfoldable pub append_line : LineWrite → XtxRecord → XtxJournal → XtxJournal × Bool
append_line line_written r j = (record j { lines = j.lines ++ r ∷ [] }, true)
append_line (line_failed whole truncated) r j = (
  record j {
    lines = if whole && not truncated then j.lines ++ r ∷ [] else j.lines;
    is_poisoned = j.is_poisoned || not truncated;
  },
  false,
)

unfoldable pub sync_locked : Bool → XtxJournal → XtxJournal × Bool
sync_locked true j = (record j { durable = length j.lines }, true)
sync_locked false j = (record j { is_poisoned = true }, false)

abbrev pub install :
    XtxRecord → XtxJournal → XtxTable × Option XtxError → XtxJournal × Option XtxError
install r j (t, some x) = (record j { table = t }, some x)
install r j (t, none) = (record j { table = t; records = j.records ++ r ∷ [] }, none)

unfoldable pub install_locked : XtxRecord → XtxJournal → XtxJournal × Option XtxError
install_locked r j = install r j (apply r j.table)

abbrev pub new_record : String → String → String → XtxRecord
new_record kind tx key = record {
  k = kind;
  tx = tx;
  key = key;
  parts = [];
  pd = "";
  why = "";
  o = "";
  rl = 0;
  rt = "";
  rd = "";
}

-- the binding's fields in a record, zero without one
abbrev pub bound {ℓ} : {A : Type ℓ} → A → (XtxReplBind → A) → Option XtxReplBind → A
bound zero_value field none = zero_value
bound zero_value field (some b) = field b

abbrev pub commit_record : String → String → List Part → String → Option XtxReplBind → XtxRecord
commit_record tx key parts pd bind = record (new_record kind_commit tx key) {
  parts = parts;
  pd = pd;
  rl = bound 0 (λ b. b.lsn) bind;
  rt = bound "" (λ b. b.lead_tx) bind;
  rd = bound "" (λ b. b.digest) bind;
}

unfoldable pub bind_refused : Option XtxReplBind → XtxTable → Option XtxError
bind_refused none t = none
bind_refused (some b) t =
    if b.lsn == 0 || b.lead_tx == "" || b.digest == ""
    then some incomplete_binding
    else if is_some (lookup b.lsn t.by_lsn)
    then some lsn_conflict
    else none

unfoldable pub after_commit_sync : XtxRecord → XtxJournal × Bool → XtxJournal × Option XtxError
unfolding install_locked
after_commit_sync r (j, false) = (j, some outcome_unknown)
after_commit_sync r (j, true) = install_locked r (record j { pending = remove r.tx j.pending })

unfoldable pub after_commit_append :
    Bool → XtxRecord → XtxJournal × Bool → XtxJournal × Option XtxError
unfolding after_commit_sync sync_locked
after_commit_append synced r (j, false) =
    (record j { pending = remove r.tx j.pending }, some durability)
after_commit_append synced r (j, true) = after_commit_sync r (sync_locked synced j)

-- commitPreparedBound under the mutex, with the digest of the parts
unfoldable pub commit_locked :
    JournalIo → Option XtxReplBind → XtxRecord → XtxJournal → XtxJournal × Option XtxError
unfolding usable bind_refused after_commit_append append_line
commit_locked io bind r j = elim (usable j) [
  | some x ↦ (j, some x)
  | none ↦ elim (bind_refused bind j.table) [
    | some x ↦ (j, some x)
    | none ↦ after_commit_append io.synced r (append_line io.line r j)
  ]
]

unfoldable pub after_abort_sync : XtxRecord → XtxJournal × Bool → XtxJournal × Option XtxError
unfolding install_locked
after_abort_sync r (j, false) = (j, some outcome_unknown)
after_abort_sync r (j, true) = install_locked r j

unfoldable pub after_abort_append :
    Bool → XtxRecord → XtxJournal × Bool → XtxJournal × Option XtxError
unfolding after_abort_sync sync_locked
after_abort_append synced r (j, false) = (j, some durability)
after_abort_append synced r (j, true) = after_abort_sync r (sync_locked synced j)

-- appendDecisionLocked
unfoldable pub append_decision_locked :
    JournalIo → XtxRecord → String → XtxJournal → XtxJournal × Option XtxError
unfolding after_abort_append append_line
append_decision_locked io r why j =
    let decided = record r { why = why } in
    after_abort_append io.synced decided (append_line io.line decided j)

unfoldable pub abort_known :
    JournalIo
    → String
    → String
    → String
    → Option XtxDecision
    → XtxJournal
    → XtxJournal × Option XtxError
unfolding append_decision_locked
abort_known io tx key why (some d) j =
    (j, if d.outcome == kind_abort then none else some outcome_conflict)
abort_known io tx key why none j = append_decision_locked io (new_record kind_abort tx key) why j

-- abort
unfoldable pub abort :
    JournalIo → String → String → String → XtxJournal → XtxJournal × Option XtxError
unfolding usable abort_known
abort io tx key why j =
    if not (abort_reason why) then (j, some unknown_reason) else elim (usable j) [
      | some x ↦ (j, some x)
      | none ↦
          if not (belongs j.epoch tx)
          then (j, some foreign_tx)
          else abort_known io tx key why (lookup tx j.table.by_tx) j
    ]

module _ (H : Hash) where
  -- commitPreparedBound
  unfoldable pub commit_prepared_bound :
      JournalIo
      → String
      → String
      → List Part
      → Option XtxReplBind
      → XtxJournal
      → XtxJournal × Option XtxError
  unfolding commit_locked
  commit_prepared_bound io tx key parts bind j =
      if ltb max_key_len (len key)
      then (j, some key_too_long)
      else if not (validate_parts H parts)
      then (j, some invalid_parts)
      else elim (parts_digest H parts) [
        | none ↦ (j, some invalid_parts)
        | some pd ↦ commit_locked io bind (commit_record tx key parts pd bind) j
      ]
