-- ===== src/Collection/Sequences.antt =====
-- Any sequence of writes to one collection, in the order in which they take its lock.
use scriva.Prelude.{ℕ, ◌≡◌, ◌≤◌, Option, none, List, All, String, Bool, [], ◌∷◌, ◌++◌, length, take}
use scriva.Store
use scriva.Store.{omit_empty, Bytes, IsLine}
use scriva.Segment.{open_active_segment}
use scriva.Index.{Index, rebuild}
use scriva.Collection.{Env, Fields, Collection, Io}
use scriva.Collection.Writes.{insert, update, update_with_expiry, delete}
use scriva.Collection.Keys.{insert_with_key, update_by_key, delete_by_key, upsert, compare_and_swap}
use scriva.Handles.{TxOp}
use scriva.Collection.Batch.{BatchIo, PostError, batch_committed, commit_tx}
use scriva.Collection.Batch.Staged.{Fit, NewIds}
use scriva.Collection.Batch.Soundness.{commit_tx-committed}
use scriva.Collection.Reaping.{ReapIo, reap_expired}
use scriva.Collection.Reaping.Soundness.{reap_expired-IsSound}
use scriva.Collection.Coherence.{IsSound, less}
use scriva.Collection.Soundness.{
  insert-IsSound, update-IsSound, update_with_expiry-IsSound, delete-IsSound,
}
use scriva.Collection.KeyedSoundness.{
  insert_with_key-IsSound, update_by_key-IsSound, delete_by_key-IsSound, upsert-IsSound,
  compare_and_swap-IsSound,
}
use scriva.Collection.Recovery.{reopen-IsSound}

-- The states that writes reach from `c`, whatever their clocks and the disk do and whether they
-- succeed, but that a batch commits. A keyless document is nil or not empty; the ids of a batch were
-- handed out, and its inserts are under new ones.
pub data Reaches (E : Env) (c : Collection E) : Collection E → Type 0 where
  start : Reaches E c c
  inserted :
      (d : Collection E) (io : Io) (doc : Fields E.C) (explicit : ℕ)
      → omit_empty doc ≡ doc
      → Reaches E c d
      → Reaches E c (insert E io doc explicit d).0
  updated :
      (d : Collection E) (io : Io) (id : ℕ) (doc : Fields E.C)
      → omit_empty doc ≡ doc
      → Reaches E c d
      → Reaches E c (update E io id doc d).0
  updated_with_expiry :
      (d : Collection E) (io : Io) (id : ℕ) (doc : Fields E.C) (explicit : ℕ)
      → omit_empty doc ≡ doc
      → Reaches E c d
      → Reaches E c (update_with_expiry E io id doc explicit d).0
  deleted : (d : Collection E) (io : Io) (id : ℕ) → Reaches E c d → Reaches E c (delete E io id d).0
  inserted_with_key :
      (d : Collection E) (io : Io) (key : String) (doc : Fields E.C)
      → Reaches E c d
      → Reaches E c (insert_with_key E io key doc d).0
  updated_by_key :
      (d : Collection E) (io : Io) (key : String) (doc : Fields E.C)
      → Reaches E c d
      → Reaches E c (update_by_key E io key doc d).0
  deleted_by_key :
      (d : Collection E) (io : Io) (key : String)
      → Reaches E c d
      → Reaches E c (delete_by_key E io key d).0
  upserted :
      (d : Collection E) (io : Io) (key : String) (doc : Fields E.C)
      → Reaches E c d
      → Reaches E c (upsert E io key doc d).0
  swapped :
      (d : Collection E) (io : Io) (key : String) (doc : Fields E.C) (holds : Fields E.C → ℕ → Bool)
      → Reaches E c d
      → Reaches E c (compare_and_swap E io key doc holds d).0
  reaped : (d : Collection E) (io : ReapIo) → Reaches E c d → Reaches E c (reap_expired E io d).0
  batched :
      (d : Collection E) (io : BatchIo) (ops : List (TxOp E.C.V)) (post : Option PostError)
      → d.fenced ≡ none
      → All (Fit d.id_seq) ops
      → NewIds d.index ops
      → (commit_tx E io ops d).1 ≡ batch_committed post
      → Reaches E c d
      → Reaches E c (commit_tx E io ops d).0

module _ (E : Env) where
  open E use {C}

  Reaches-IsSound : (c d : Collection E) → Reaches E c d → IsSound E c → IsSound E d
  Reaches-IsSound c _ start s = s
  Reaches-IsSound c _ (inserted d io doc explicit w r) s =
      insert-IsSound E io doc explicit d w (Reaches-IsSound c d r s)
  Reaches-IsSound c _ (updated d io id doc w r) s =
      update-IsSound E io id doc d w (Reaches-IsSound c d r s)
  Reaches-IsSound c _ (updated_with_expiry d io id doc explicit w r) s =
      update_with_expiry-IsSound E io id doc explicit d w (Reaches-IsSound c d r s)
  Reaches-IsSound c _ (deleted d io id r) s = delete-IsSound E io id d (Reaches-IsSound c d r s)
  Reaches-IsSound c _ (inserted_with_key d io key doc r) s =
      insert_with_key-IsSound E io key doc d (Reaches-IsSound c d r s)
  Reaches-IsSound c _ (updated_by_key d io key doc r) s =
      update_by_key-IsSound E io key doc d (Reaches-IsSound c d r s)
  Reaches-IsSound c _ (deleted_by_key d io key r) s =
      delete_by_key-IsSound E io key d (Reaches-IsSound c d r s)
  Reaches-IsSound c _ (upserted d io key doc r) s =
      upsert-IsSound E io key doc d (Reaches-IsSound c d r s)
  Reaches-IsSound c _ (swapped d io key doc holds r) s =
      compare_and_swap-IsSound E io key doc holds d (Reaches-IsSound c d r s)
  Reaches-IsSound c _ (reaped d io r) s = reap_expired-IsSound E io d (Reaches-IsSound c d r s)
  Reaches-IsSound c _ (batched d io ops post free fit ids done r) s =
      commit_tx-committed E io ops d post free (Reaches-IsSound c d r s) fit ids done

  -- After any sequence of single-record writes, passes of the reaper and committed batches from a
  -- sound collection, failed writes and passes and rotations included, with keyless documents nil or
  -- not empty and the ids of a batch handed out and its inserts new, a collection that is not fenced
  -- survives a crash in the middle of a line: opening the active segment with a
  -- part of the line behind it and rebuilding from the segments succeeds, and gives the entries that
  -- the index had in memory.
  pub Reaches-reopen :
      (c d : Collection E) (line : Bytes) (n : ℕ) (idx : Index)
      → IsSound E c
      → Reaches E c d
      → d.fenced ≡ none
      → IsLine line
      → n ≤ length line
      → (after : Index) × (rebuild C
            (less E)
            (d.sealed
              ++ open_active_segment d.active.path (d.active.content ++ take n (line ++ 10 ∷ []))
                ∷ [])
            idx
          ≡ Store.ok after)
        × (after.entries ≡ d.index.entries)
  Reaches-reopen c d line n idx s r f plain le =
      reopen-IsSound E d line n idx (Reaches-IsSound c d r s) f plain le
