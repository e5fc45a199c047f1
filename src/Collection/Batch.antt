-- ===== src/Collection/Batch.antt =====
-- CommitTx of engine/collection.go on its legacy route: a batch of staged operations under one lock,
-- and the rollback of one that fails. What the disk does on each append is the list `writes`, with
-- nothing failing beyond it. The atomic route, and with it the data's encryption, is not modelled.
pub mod Operations
pub mod Saved
pub mod Staged
pub mod Growing
pub mod Undo
pub mod Atomicity
pub mod Soundness
use scriva.Prelude.{
  is_some, ℕ, suc, ◌+◌, String, Bool, true, false, not, ◌&&◌, Option, none, some, List, [], ◌∷◌,
  ◌++◌, Dict, lookup, insert, leb, ltb, ◌==◌, nat_eq, string_eq, if◌then◌else◌,
}
use scriva.Store.{Entry, op_insert, op_update, op_delete, new_insert, new_update, new_delete}
use scriva.Segment
use scriva.Segment.{Segment, SegmentError, Write, written, append, sync, rollback, segment_poisoned}
use scriva.Index
use scriva.Index.{Index, IndexEntry}
use scriva.Handles.{TxOp, TxOpKind, tx_insert, tx_update, tx_delete}
use scriva.Collection.{
  Env, Collection, Rotation, RotateError, CollectionError, fenced_error, resource_exhausted,
  duplicate_key, write_cause, Event, fence, is_fenced, now, resolve_insert_expiry_at,
  entry_quota_bytes, over_quota,
}
use scriva.Collection.Commit.{publish_commit, emit, rotate_segment}
use scriva.Collection.Writes.{
  versioned, visible, index_record, unindex_record, preserve_reserved_locked,
}
pub use scriva.Collection.Batch.Operations.{
  BatchIo, UndoError, BatchError, PostError, BatchOutcome, Progress, Applied, zero_entry,
  entry_or_zero, is_change, next_write, later_writes, larger, max_insert, event_of, noted,
  claimed_by, truncate_error, rebuild_error, refused, deleted_before_commit, append_error,
  sync_error, meta_error, rotate_error, batch_failed, batch_committed, stopped, applied,
}
unfoldable pub use scriva.Collection.Batch.Operations.{
  save_before, restore_index, first_missing, claims_of,
}

module _ (E : Env) where
  open E use {C, X}
  open C use {V}

  -- The hook of a poisoned segment fences its collection.
  abbrev pub note_poison : SegmentError → Collection E → Collection E
  note_poison segment_poisoned c = fence E "truncate" (write_cause segment_poisoned) c
  note_poison x c = c

  abbrev pub rebuilt : Collection E → X.S × Bool → Collection E × Option UndoError
  rebuilt c (s, bad) = (record c { sidx = s }, if bad then some rebuild_error else none)

  abbrev pub undo :
      Dict ℕ IndexEntry
      → Collection E
      → Segment × Segment.Result (Unit {0})
      → Collection E × Option UndoError
  undo before c (seg, Segment.err x) =
      (note_poison x (record c { active = seg }), some (truncate_error x))
  undo before c (seg, Segment.ok _) =
      rebuilt (record c { active = seg; index = restore_index before c.index })
        (X.rebuild_all (c.sealed ++ seg ∷ []) c.sidx)

  -- rollbackBatchLocked, with no ids in `inserted`
  unfoldable pub rollback_batch_locked :
      Bool → ℕ → Dict ℕ IndexEntry → Collection E → Collection E × Option UndoError
  unfolding restore_index rollback
  rollback_batch_locked truncated start_size before c =
      undo before c (rollback truncated start_size c.active)

  -- preserveReservedLocked on the updates
  abbrev pub keep_reserved : TxOpKind → TxOp V → Collection E → TxOp V
  keep_reserved tx_update op c = record op { fields = preserve_reserved_locked E op.id op.fields c }
  keep_reserved tx_insert op c = op
  keep_reserved tx_delete op c = op

  unfoldable pub keep_keys : List (TxOp V) → Collection E → List (TxOp V)
  unfolding preserve_reserved_locked
  keep_keys [] c = []
  keep_keys (op ∷ ops) c = keep_reserved op.kind op c ∷ keep_keys ops c

  -- the revision and the deadline of an update
  abbrev pub update_entry : TxOp V → Option IndexEntry → Entry V
  update_entry op none = versioned 1 0 (new_update op.ts op.id op.fields)
  update_entry op (some cur) =
      versioned (cur.rev + 1) cur.expires_at (new_update op.ts op.id op.fields)

  abbrev pub entry_of : ℕ → TxOpKind → TxOp V → Collection E → Entry V
  entry_of t tx_insert op c =
      versioned 1 (resolve_insert_expiry_at E 0 t c) (new_insert op.ts op.id op.fields)
  entry_of t tx_update op c = update_entry op (Index.get op.id c.index)
  entry_of t tx_delete op c = new_delete op.ts op.id

  abbrev pub index_op : TxOpKind → TxOp V → Entry V → ℕ → Collection E → Collection E
  index_op tx_insert op e off c = index_record E e (X.index_entry op.id op.fields) off c
  index_op tx_update op e off c = index_record E e (X.update_entry op.id op.fields) off c
  index_op tx_delete op e off c = unindex_record E op.id c

  -- the records and the bytes that the inserts add
  unfoldable pub quota_of : ℕ → List (TxOp V) → Collection E → ℕ × ℕ
  unfolding entry_quota_bytes resolve_insert_expiry_at
  quota_of t [] c = (0, 0)
  quota_of t (op ∷ ops) c =
      let rest = quota_of t ops c in
      if is_change op.kind
      then rest
      else (suc rest.0, entry_quota_bytes E (entry_of t tx_insert op c) c + rest.1)

  abbrev pub over_batch_quota : ℕ × ℕ → Collection E → Bool
  over_batch_quota (records, bytes) c = ltb 0 records && over_quota E records bytes c

  -- the loop that applies the operations
  abbrev pub applied_at :
      TxOp V
      → Entry V
      → Collection E
      → (Collection E → Collection E × Applied V)
      → Segment × Segment.Result ℕ
      → Collection E × Applied V
  applied_at op e c rest (seg, Segment.err x) =
      (note_poison x (record c { active = seg }), stopped op.id x)
  applied_at op e c rest (seg, Segment.ok off) =
      rest (index_op op.kind op e off (record c { active = seg }))

  unfoldable pub apply_ops :
      List Write → ℕ → List (TxOp V) → Progress V → Collection E → Collection E × Applied V
  unfolding append
  apply_ops ws t [] p c = (c, applied p)
  apply_ops ws t (op ∷ ops) p c =
      let e = entry_of t op.kind op c in
      applied_at op e c (apply_ops (later_writes ws) t ops (noted op e p))
        (append C (next_write ws) e c.active)

  unfoldable pub publish_all : List (Entry V) → Collection E → Collection E
  unfolding publish_commit
  publish_all [] c = c
  publish_all (e ∷ es) c = publish_all es (publish_commit E e c)

  unfoldable pub emit_all : List (Event V) → Collection E → Collection E
  unfolding emit
  emit_all [] c = c
  emit_all (ev ∷ evs) c = emit_all evs (emit E ev c)

  -- syncActiveLocked
  unfoldable pub sync_active_locked : Bool → Collection E → Segment.Result (Unit {0})
  unfolding sync
  sync_active_locked synced c = if c.cfg.sync_always then sync synced c.active else Segment.ok tt

  abbrev pub first_post : Option PostError → Option RotateError → Option PostError
  first_post (some x) r = some x
  first_post none none = none
  first_post none (some r) = some (rotate_error r)

  abbrev pub rotated :
      Option PostError → Collection E × Option RotateError → Collection E × BatchOutcome
  rotated post (c, r) = (c, batch_committed (first_post post r))

  -- from the publication on
  unfoldable pub finish_batch : BatchIo → Progress V → Collection E → Collection E × BatchOutcome
  unfolding publish_all emit_all rotate_segment
  finish_batch io p c =
      let d = emit_all p.events (publish_all p.entries c) in
      let post = if ltb 0 p.max_insert_id && not io.meta_written then some meta_error else none in
      if leb c.cfg.segment_max_size c.active.size
      then rotated post (rotate_segment E io.rotation d)
      else (d, batch_committed post)

  abbrev pub undone :
      (Option UndoError → BatchError)
      → Collection E × Option UndoError
      → Collection E × BatchOutcome
  undone x (c, u) = (c, batch_failed (x u))

  abbrev pub after_batch_sync :
      BatchIo
      → ℕ
      → Dict ℕ IndexEntry
      → Progress V
      → Collection E
      → Segment.Result (Unit {0})
      → Collection E × BatchOutcome
  after_batch_sync io start_size before p c (Segment.ok _) = finish_batch io p c
  after_batch_sync io start_size before p c (Segment.err x) =
      undone (sync_error x) (rollback_batch_locked io.truncated start_size before c)

  abbrev pub after_ops :
      BatchIo → ℕ → Dict ℕ IndexEntry → Collection E × Applied V → Collection E × BatchOutcome
  after_ops io start_size before (c, stopped id x) =
      undone (append_error id x) (rollback_batch_locked io.truncated start_size before c)
  after_ops io start_size before (c, applied p) =
      after_batch_sync io start_size before p c (sync_active_locked io.synced c)

  abbrev pub no_progress : Progress V
  no_progress = record { entries = []; events = []; max_insert_id = 0 }

  -- an early return
  unfoldable pub refuse_batch :
      Bool
      → CollectionError
      → Collection E
      → Collection E × BatchOutcome
      → Collection E × BatchOutcome
  refuse_batch test x c rest = if test then (c, batch_failed (refused x)) else rest

  -- from the pre-validation's result on
  abbrev pub validated :
      BatchIo
      → ℕ
      → Dict ℕ IndexEntry
      → List (TxOp V)
      → ℕ
      → Collection E
      → Option ℕ
      → Collection E × BatchOutcome
  validated io start_size before ops t c (some id) = (c, batch_failed (deleted_before_commit id))
  validated io start_size before ops t c none =
      let kept = keep_keys ops c in
      refuse_batch (X.batch_conflicts c.sidx (visible c.index t) (claims_of ops)) duplicate_key c (
        refuse_batch (over_batch_quota (quota_of t kept c) c) resource_exhausted c
          (after_ops io start_size before (apply_ops io.writes t kept no_progress c)))

  -- the critical section of CommitTx and what follows it, on a collection that is not fenced
  unfoldable pub commit_batch : BatchIo → List (TxOp V) → Collection E → Collection E × BatchOutcome
  unfolding now save_before first_missing refuse_batch
  commit_batch io ops c =
      let (c', t) = now E io.clock c in
      validated io c.active.size (save_before c.index ops []) ops t c' (first_missing c'.index ops)

  -- CommitTx
  unfoldable pub commit_tx : BatchIo → List (TxOp V) → Collection E → Collection E × BatchOutcome
  unfolding commit_batch refuse_batch
  commit_tx io [] c = (c, batch_committed none)
  commit_tx io (op ∷ ops) c =
      refuse_batch (is_fenced E c.fenced) fenced_error c (commit_batch io (op ∷ ops) c)
