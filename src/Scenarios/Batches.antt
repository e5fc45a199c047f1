-- ===== src/Scenarios/Batches.antt =====
-- Two staged inserts: a batch that commits, and one whose second append fails.
use scriva.Prelude.{
  ℕ, ◌≡◌, ◌≢◌, ◌⊎◌, refl, true, none, some, List, [], ◌∷◌, lookup, arith, nat_eq, string_eq,
}
use scriva.Segment.{
  written, failed as write_fails, write_failed, append, append_bytes, write, rollback,
  rollback_locked, sync,
}
use scriva.Store.{
  encode, checksum, checksum_input, fields_bytes, nonzero_bytes, little_endian, new_insert,
  new_entry,
}
use scriva.Index.{new_index}
use scriva.Handles.{TxOp, tx_op, tx_insert}
use scriva.Collection.{Collection, now, over_quota, resolve_insert_expiry_at, entry_quota_bytes}
use scriva.Collection.Commit.{publish_commit, emit}
use scriva.Collection.Writes.{index_record}
use scriva.Collection.Coherence.{IsSound}
use scriva.Collection.Soundness.{next_id-IsSound}
use scriva.Collection.Batch.{
  BatchIo, append_error, batch_failed, batch_committed, save_before, restore_index, first_missing,
  claims_of, rollback_batch_locked, keep_keys, quota_of, apply_ops, publish_all, emit_all,
  sync_active_locked, finish_batch, refuse_batch, commit_batch, commit_tx,
}
use scriva.Collection.Batch.Saved.{Named}
use scriva.Collection.Batch.Staged.{NewIds}
use scriva.Collection.Batch.Undo.{Restored}
use scriva.Collection.Batch.Atomicity.{commit_tx-failed}
use scriva.Collection.Batch.Soundness.{commit_tx-committed}
use scriva.Scenarios.Toy.{env}
use scriva.Scenarios.Writes.{opened, opened-IsSound, all_well}

-- two ids were handed out to the operations
abbrev staged : Collection env
staged = record opened { id_seq = 2 }

abbrev ops : List (TxOp ℕ)
ops = tx_op tx_insert 1 (some (("n", 7) ∷ [])) 5 ∷ tx_op tx_insert 2 (some (("n", 8) ∷ [])) 5 ∷ []

abbrev io : BatchIo
io = record {
  clock = 5;
  writes = [];
  synced = true;
  truncated = true;
  meta_written = true;
  rotation = all_well;
}

abbrev bad_io : BatchIo
bad_io = record io { writes = written ∷ write_fails 3 true ∷ [] }

staged-IsSound : IsSound env staged
staged-IsSound =
    next_id-IsSound env (record opened { id_seq = 1 }) (next_id-IsSound env opened opened-IsSound)

ops-NewIds : NewIds staged.index ops
unfolding lookup new_index
ops-NewIds = (λ _. refl, (λ _. refl, tt), (λ _. refl, tt, tt))

staged-Named : Named staged.index
unfolding lookup new_index
staged-Named id e h = let bad : ⊥ = cc h in elim bad [ ]

commit_tx-runs : (commit_tx env io ops staged).1 ≡ batch_committed none
unfolding commit_tx refuse_batch commit_batch now save_before first_missing claims_of keep_keys
    quota_of over_quota resolve_insert_expiry_at entry_quota_bytes apply_ops append append_bytes
    write encode checksum checksum_input fields_bytes nonzero_bytes little_endian new_insert
    new_entry index_record sync_active_locked sync finish_batch publish_all publish_commit emit_all
    emit lookup
commit_tx-runs = refl

commit_tx-stops :
    (commit_tx env bad_io ops staged).1 ≡ batch_failed (append_error 2 write_failed none)
unfolding commit_tx refuse_batch commit_batch now save_before first_missing claims_of keep_keys
    quota_of over_quota resolve_insert_expiry_at entry_quota_bytes apply_ops append append_bytes
    write encode checksum checksum_input fields_bytes nonzero_bytes little_endian new_insert
    new_entry index_record rollback_batch_locked rollback rollback_locked restore_index lookup
commit_tx-stops = refl

commit_tx-committed_example : IsSound env (commit_tx env io ops staged).0
commit_tx-committed_example =
    commit_tx-committed env io ops staged none refl staged-IsSound
      ((refl, omega arith), ((refl, omega arith), tt)) ops-NewIds commit_tx-runs

commit_tx-failed_example :
    ((commit_tx env bad_io ops staged).0.fenced ≢ none)
    ⊎ Restored env (now env 5 staged).0 (commit_tx env bad_io ops staged).0
commit_tx-failed_example =
    commit_tx-failed env bad_io ops staged (append_error 2 write_failed none) refl
      (refl, refl, staged-Named) commit_tx-stops
