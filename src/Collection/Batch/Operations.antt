-- ===== src/Collection/Batch/Operations.antt =====
-- CommitTx of engine/collection.go: its errors and outcomes, the saved index entries, and what each
-- staged operation adds.
use scriva.Prelude.{
  is_some, ℕ, String, Bool, true, false, not, ◌&&◌, Option, none, some, List, [], ◌∷◌, ◌++◌, Dict,
  lookup, insert, ltb, ◌==◌, nat_eq, string_eq, if◌then◌else◌,
}
use scriva.Store.{Entry, op_insert, op_update, op_delete}
use scriva.Segment.{SegmentError, Write, written}
use scriva.Index
use scriva.Index.{Index, IndexEntry}
use scriva.Handles.{TxOp, TxOpKind, tx_insert, tx_update, tx_delete}
use scriva.Collection.{Rotation, RotateError, CollectionError, Event}

pub record BatchIo : Type 0 where
  pub clock : ℕ
  pub writes : List Write
  pub synced : Bool
  pub truncated : Bool
  pub meta_written : Bool
  pub rotation : Rotation

pub data UndoError : Type 0 where
  truncate_error : SegmentError → UndoError
  rebuild_error : UndoError

pub data BatchError : Type 0 where
  refused : CollectionError → BatchError
  deleted_before_commit : ℕ → BatchError
  append_error : ℕ → SegmentError → Option UndoError → BatchError
  sync_error : SegmentError → Option UndoError → BatchError

-- the stages of a PostCommitError
pub data PostError : Type 0 where
  meta_error : PostError
  rotate_error : RotateError → PostError

pub data BatchOutcome : Type 0 where
  batch_failed : BatchError → BatchOutcome
  batch_committed : Option PostError → BatchOutcome

-- `committed`, `events` and `maxInsertID`
pub record Progress (V : Type 0) : Type 0 where
  pub entries : List (Entry V)
  pub events : List (Event V)
  pub max_insert_id : ℕ

pub data Applied (V : Type 0) : Type 0 where
  stopped : ℕ → SegmentError → Applied V
  applied : Progress V → Applied V

-- the zero IndexEntry, which stands for an absent record
abbrev pub zero_entry : IndexEntry
zero_entry = record { segment_path = ""; offset = 0; rev = 0; expires_at = 0; epoch = 0 }

abbrev pub entry_or_zero : Option IndexEntry → IndexEntry
entry_or_zero none = zero_entry
entry_or_zero (some e) = e

-- the first state of each id
unfoldable pub save_before :
    {V : Type 0} → Index → List (TxOp V) → Dict ℕ IndexEntry → Dict ℕ IndexEntry
unfolding lookup insert Index.get
save_before idx [] before = before
save_before idx (op ∷ ops) before = save_before idx ops (
    if is_some (lookup op.id before)
    then before
    else insert op.id (entry_or_zero (Index.get op.id idx)) before)

-- the loop over `before` in rollbackBatchLocked
unfoldable pub restore_index : Dict ℕ IndexEntry → Index → Index
restore_index [] idx = idx
restore_index ((id, e) ∷ before) idx =
    restore_index before (if e.segment_path == "" then Index.delete id idx else Index.set id e idx)

abbrev pub is_change : TxOpKind → Bool
is_change tx_insert = false
is_change tx_update = true
is_change tx_delete = true

-- the first update or delete whose record is not there
unfoldable pub first_missing : {V : Type 0} → Index → List (TxOp V) → Option ℕ
unfolding Index.get
first_missing idx [] = none
first_missing idx (op ∷ ops) =
    if is_change op.kind && not (is_some (Index.get op.id idx))
    then some op.id
    else first_missing idx ops

abbrev pub next_write : List Write → Write
next_write [] = written
next_write (w ∷ ws) = w

abbrev pub later_writes : List Write → List Write
later_writes [] = []
later_writes (w ∷ ws) = ws

abbrev pub larger : ℕ → ℕ → ℕ
larger id highest = if ltb highest id then id else highest

abbrev pub max_insert : TxOpKind → ℕ → ℕ → ℕ
max_insert tx_insert id highest = larger id highest
max_insert tx_update id highest = highest
max_insert tx_delete id highest = highest

abbrev pub event_of : {V : Type 0} → TxOpKind → TxOp V → Event V
event_of tx_insert op = record { op = op_insert; id = op.id; fields = op.fields; ts = op.ts }
event_of tx_update op = record { op = op_update; id = op.id; fields = op.fields; ts = op.ts }
event_of tx_delete op = record { op = op_delete; id = op.id; fields = none; ts = op.ts }

abbrev pub noted : {V : Type 0} → TxOp V → Entry V → Progress V → Progress V
noted op e p = record {
  entries = p.entries ++ e ∷ [];
  events = p.events ++ event_of op.kind op ∷ [];
  max_insert_id = max_insert op.kind op.id p.max_insert_id;
}

-- what txCheckUnique looks at
abbrev pub claimed_by : {V : Type 0} → TxOpKind → TxOp V → List (ℕ × Option (Dict String V))
claimed_by tx_insert op = (op.id, op.fields) ∷ []
claimed_by tx_update op = (op.id, op.fields) ∷ []
claimed_by tx_delete op = []

unfoldable pub claims_of : {V : Type 0} → List (TxOp V) → List (ℕ × Option (Dict String V))
claims_of [] = []
claims_of (op ∷ ops) = claimed_by op.kind op ++ claims_of ops
