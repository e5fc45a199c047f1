-- ===== src/Xtx/Coordinator/Deciding/Outcomes.antt =====
-- engine/xtx_journal.go: the ways in which commitPreparedBound ends for a transaction that the
-- journal does not know, and what abort may add.
use Prim.Native.String.{len}
use scriva.Prelude.{
  string_eq, nat_eq, Bool, true, false, not, Option, none, some, List, [], ◌∷◌, ◌++◌, lookup,
  remove, length, ltb, if_elim, String, ◌≡◌, refl, arith, inl, inr, Option-cases, ◌≤◌,
  length-append,
}
use scriva.Xtx.Journal.{Part, kind_abort}
use scriva.Xtx.Coordinator.{
  XtxRecord, XtxTable, XtxError, key_too_long, invalid_parts, closed, durability, outcome_unknown,
  apply,
}
use scriva.Xtx.Coordinator.Validation.{
  Hash, max_key_len, validate_parts, parts_digest, belongs, abort_reason,
}
use scriva.Xtx.Coordinator.Deciding.{
  XtxJournal, LineWrite, line_written, line_failed, JournalIo, XtxReplBind, is_unknown, usable,
  append_line, sync_locked, install, install_locked, new_record, commit_record, bind_refused,
  after_commit_sync, after_commit_append, commit_locked, after_abort_sync, after_abort_append,
  append_decision_locked, abort_known, abort, commit_prepared_bound,
}
use scriva.Xtx.Coordinator.Deciding.Settling.{commit-Installed}

-- The journal's file is as before.
pub record Untouched (j j' : XtxJournal) : Type 0 where
  pub epoch : j'.epoch ≡ j.epoch
  pub lines : j'.lines ≡ j.lines
  pub durable : j'.durable ≡ j.durable
  pub table : j'.table ≡ j.table

module _ (H : Hash) (tx key : String) (parts : List Part) (bind : Option XtxReplBind)
    (j : XtxJournal) where
  -- The commit record stands at the end of the journal's file.
  pub record Entered (j' : XtxJournal) : Type 0 where
    pub pd : String
    pub digest : parts_digest H parts ≡ some pd
    pub valid : validate_parts H parts ≡ true
    pub short : ltb max_key_len (len key) ≡ false
    pub unrefused : bind_refused bind j.table ≡ none
    pub epoch : j'.epoch ≡ j.epoch
    pub lines : j'.lines ≡ (j.lines ++ commit_record tx key parts pd bind ∷ [])

  -- how the commit ends, by what its write did
  pub data Ending (w : LineWrite) (p : XtxJournal × Option XtxError) : Type 0 where
    decided : p.1 ≡ none → Entered p.0 → p.0.durable ≡ length p.0.lines → Ending w p
    unknown : p.1 ≡ some outcome_unknown → Entered p.0 → p.0.durable ≡ j.durable → Ending w p
    failed : (x : XtxError) → p.1 ≡ some x → is_unknown x ≡ false → Untouched j p.0 → Ending w p
    stranded :
        p.1 ≡ some durability
        → w ≡ line_failed true false
        → Entered p.0
        → p.0.durable ≡ j.durable
        → p.0.is_poisoned ≡ true
        → Ending w p

  refused : (w : LineWrite) (x : XtxError) → is_unknown x ≡ false → Ending w (j, some x)
  refused w x h =
      failed x refl h (record { epoch = refl; lines = refl; durable = refl; table = refl })

  usable-known : (x : XtxError) → usable j ≡ some x → is_unknown x ≡ false
  unfolding usable
  usable-known closed h = refl
  usable-known durability h = refl
  usable-known outcome_unknown h = let bad : ⊥ = ground (arith, h) in elim bad [ ]
  usable-known _ h = refl

  bind_refused-known :
      (b : Option XtxReplBind) (x : XtxError)
      → bind_refused b j.table ≡ some x
      → is_unknown x ≡ false
  unfolding bind_refused
  bind_refused-known none x h = let bad : ⊥ = cc h in elim bad [ ]
  bind_refused-known (some b) outcome_unknown h = let bad : ⊥ = ground (arith, h) in elim bad [ ]
  bind_refused-known (some b) _ h = refl

  -- the journal behind an fsync that succeeded
  install-Ending :
      (w : LineWrite) (pd : String) (j' : XtxJournal) (p : XtxTable × Option XtxError)
      → p.1 ≡ none
      → Entered j'
      → j'.durable ≡ length j'.lines
      → Ending w (install (commit_record tx key parts pd bind) j' p)
  install-Ending w pd j' (t, none) fine e d =
      decided refl
        (record {
          pd = e.pd;
          digest = e.digest;
          valid = e.valid;
          short = e.short;
          unrefused = e.unrefused;
          epoch = e.epoch;
          lines = e.lines;
        })
        d
  install-Ending w pd j' (t, some x) fine e d = let bad : ⊥ = cc fine in elim bad [ ]

  append-Ending :
      (io : JournalIo) (pd : String)
      → lookup tx j.table.by_tx ≡ none
      → parts_digest H parts ≡ some pd
      → validate_parts H parts ≡ true
      → ltb max_key_len (len key) ≡ false
      → bind_refused bind j.table ≡ none
      → (w : LineWrite) (synced : Bool)
      → Ending w (
          after_commit_append synced
            (commit_record tx key parts pd bind)
            (append_line w (commit_record tx key parts pd bind) j))
  unfolding after_commit_append append_line sync_locked after_commit_sync install_locked
  append-Ending io pd fresh d v s b (line_failed false truncated) synced =
      failed durability refl refl
        (record { epoch = refl; lines = refl; durable = refl; table = refl })
  append-Ending io pd fresh d v s b (line_failed true true) synced =
      failed durability refl refl
        (record { epoch = refl; lines = refl; durable = refl; table = refl })
  append-Ending io pd fresh d v s b (line_failed true false) synced =
      stranded refl refl
        (record {
          pd = pd;
          digest = d;
          valid = v;
          short = s;
          unrefused = b;
          epoch = refl;
          lines = refl;
        })
        refl (ground arith)
  append-Ending io pd fresh d v s b line_written false =
      unknown refl
        (record {
          pd = pd;
          digest = d;
          valid = v;
          short = s;
          unrefused = b;
          epoch = refl;
          lines = refl;
        })
        refl
  append-Ending io pd fresh d v s b line_written true =
      let lines = j.lines ++ commit_record tx key parts pd bind ∷ [] in
      install-Ending line_written pd
        (record j { lines = lines; durable = length lines; pending = remove tx j.pending })
        (apply (commit_record tx key parts pd bind) j.table)
        (commit-Installed tx key pd parts bind j.table fresh b).fine
        (record {
          pd = pd;
          digest = d;
          valid = v;
          short = s;
          unrefused = b;
          epoch = refl;
          lines = refl;
        })
        refl

  commit_locked-Ending :
      (io : JournalIo) (pd : String)
      → lookup tx j.table.by_tx ≡ none
      → parts_digest H parts ≡ some pd
      → validate_parts H parts ≡ true
      → ltb max_key_len (len key) ≡ false
      → Ending io.line (commit_locked io bind (commit_record tx key parts pd bind) j)
  unfolding commit_locked
  commit_locked-Ending io pd fresh d v s =
      let r = commit_record tx key parts pd bind in
      elim (Option-cases (usable j)) [
        | inr (x, bad) ↦ rw (bad, commit_locked) (refused io.line x (usable-known x bad))
        | inl fine ↦ elim (Option-cases (bind_refused bind j.table)) [
          | inr (x, bad) ↦
              rw (fine, bad, commit_locked) (refused io.line x (bind_refused-known bind x bad))
          | inl own ↦
              rw (fine, own, commit_locked) (append-Ending io pd fresh d v s own io.line io.synced)
        ]
      ]

  -- commitPreparedBound ends with the commit record in the file and flushed; with the record in the file
  -- and the outcome unknown; with the file as it was and another error; or, when neither the write of
  -- the whole line nor its truncation reported success, with the record in the file and the durability
  -- error.
  pub commit_prepared_bound-Ending :
      (io : JournalIo)
      → lookup tx j.table.by_tx ≡ none
      → Ending io.line (commit_prepared_bound H io tx key parts bind j)
  unfolding commit_prepared_bound
  commit_prepared_bound-Ending io fresh =
      if_elim (Ending io.line) (ltb max_key_len (len key)) _ _
        (λ _. refused io.line key_too_long refl)
        (λ short.
          if_elim (Ending io.line) (not (validate_parts H parts)) _ _
            (λ _. refused io.line invalid_parts refl)
            (λ passed. elim (Option-cases (parts_digest H parts)) [
              | inl gone ↦ rw gone (refused io.line invalid_parts refl)
              | inr (pd, digest) ↦
                  rw digest (commit_locked-Ending io pd fresh digest (ground (arith, passed)) short)
            ]))

-- What abort may add to the journal's file: nothing, or one abort record.
pub data Aborting (tx key why : String) (j j' : XtxJournal) : Type 0 where
  unwritten : Untouched j j' → Aborting tx key why j j'
  written :
      j'.epoch ≡ j.epoch
      → j'.lines ≡ (j.lines ++ record (new_record kind_abort tx key) { why = why } ∷ [])
      → j.durable ≤ j'.durable
      → Aborting tx key why j j'

module _ (tx key why : String) (j : XtxJournal) where
  left : Aborting tx key why j j
  left = unwritten (record { epoch = refl; lines = refl; durable = refl; table = refl })

  install-Aborting :
      (r : XtxRecord) (j' : XtxJournal) (p : XtxTable × Option XtxError)
      → j'.epoch ≡ j.epoch
      → j'.lines ≡ (j.lines ++ record (new_record kind_abort tx key) { why = why } ∷ [])
      → j.durable ≤ j'.durable
      → Aborting tx key why j (install r j' p).0
  install-Aborting r j' (t, none) e l d = written e l d
  install-Aborting r j' (t, some x) e l d = written e l d

  append-Aborting :
      (w : LineWrite) (synced : Bool)
      → j.durable ≤ length j.lines
      → Aborting tx key why j
          (after_abort_append synced
            (record (new_record kind_abort tx key) { why = why })
            (append_line w (record (new_record kind_abort tx key) { why = why }) j)).0
  unfolding after_abort_append append_line sync_locked after_abort_sync install_locked
  append-Aborting (line_failed false truncated) synced le =
      unwritten (record { epoch = refl; lines = refl; durable = refl; table = refl })
  append-Aborting (line_failed true true) synced le =
      unwritten (record { epoch = refl; lines = refl; durable = refl; table = refl })
  append-Aborting (line_failed true false) synced le = written refl refl (omega arith)
  append-Aborting line_written false le = written refl refl (omega arith)
  append-Aborting line_written true le =
      let r = record (new_record kind_abort tx key) { why = why } in
      let lines = j.lines ++ r ∷ [] in
      install-Aborting r (record j { lines = lines; durable = length lines }) (apply r j.table) refl
        refl (omega (arith, le, length-append j.lines (r ∷ [])))

  pub abort-Aborting :
      (io : JournalIo)
      → lookup tx j.table.by_tx ≡ none
      → j.durable ≤ length j.lines
      → Aborting tx key why j (abort io tx key why j).0
  unfolding abort abort_known append_decision_locked
  abort-Aborting io fresh le =
      if_elim (λ (p : XtxJournal × Option XtxError). Aborting tx key why j p.0)
        (not (abort_reason why)) _ _ (λ _. left)
        (λ _. elim (Option-cases (usable j)) [
          | inr (x, bad) ↦ rw bad left
          | inl fine ↦ rw fine (
              if_elim (λ (p : XtxJournal × Option XtxError). Aborting tx key why j p.0)
                (not (belongs j.epoch tx)) _ _ (λ _. left)
                (λ _. rw (fresh, abort_known) (append-Aborting io.line io.synced le)))
        ])
