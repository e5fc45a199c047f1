-- ===== src/Collection/Batch/Soundness.antt =====
-- engine/collection.go: a batch that commits keeps the collection's invariant.
use scriva.Prelude.{
  ℕ, ◌≡◌, inl, inr, refl, sym, subst, ◌≤◌, Bool, true, false, Option, none, some, ◌++◌,
  Option-cases, List, [], ◌∷◌, All, Dict, lookup, leb, arith, nat_eq, string_eq, if_elim,
}
use scriva.Store.{Entry, omit_empty, new_entry, new_insert, new_update, new_delete}
use scriva.Segment
use scriva.Segment.{Segment, SegmentError, Write, append}
use scriva.Index
use scriva.Index.{Index, IndexEntry, rev_of}
use scriva.Index.Replay.{History}
use scriva.Handles.{TxOp, TxOpKind, tx_insert, tx_update, tx_delete}
use scriva.Collection.{Env, Collection, CollectionError, Event, now}
use scriva.Collection.Commit.{publish_commit, emit}
use scriva.Collection.Coherence.{Coherent, IsSound, Coherent-write}
use scriva.Collection.Rotating.{rotate_segment-IsSound}
use scriva.Collection.Preservation.{Applies, Coherent-other}
use scriva.Collection.Soundness.{index_record-Applies, unindex_record-Applies}
use scriva.Collection.Batch.{
  BatchIo, PostError, BatchOutcome, batch_committed, Applied, stopped, applied, Progress,
  update_entry, entry_of, index_op, applied_at, apply_ops, next_write, later_writes, noted,
  publish_all, emit_all, first_missing, keep_keys, finish_batch, after_batch_sync, after_ops,
  refuse_batch, no_progress, validated, commit_batch, commit_tx, save_before, sync_active_locked,
}
use scriva.Collection.Batch.Growing.{index_op-Apart, entry_of-id}
use scriva.Collection.Batch.Staged.{Fit, NewIds, NewIds-Apart, keep_keys-NewIds, keep_keys-Fit}

module _ (E : Env) where
  open E use {C, X}
  open C use {V}

  update_op-Applies :
      (c : Collection E) (h : History C) (es : List (ℕ × Entry V)) (op : TxOp V)
      (o : Option IndexEntry)
      → Coherent E c h es
      → op.id ≤ c.id_seq
      → lookup op.id c.index.entries ≡ o
      → Applies E c (update_entry E op o) (index_op E tx_update op (update_entry E op o))
  unfolding new_update new_entry
  update_op-Applies c h es op none k old at =
      index_record-Applies E c h es (update_entry E op none) (X.update_entry op.id op.fields) k
        (inr refl) (rw at (omega arith)) old
  update_op-Applies c h es op (some cur) k old at =
      index_record-Applies E c h es (update_entry E op (some cur)) (X.update_entry op.id op.fields)
        k (inr refl) (rw at (omega arith)) old

  index_op-Applies :
      (c : Collection E) (h : History C) (es : List (ℕ × Entry V)) (t : ℕ) (kind : TxOpKind)
      (op : TxOp V)
      → Coherent E c h es
      → op.id ≤ c.id_seq
      → (kind ≡ tx_insert → lookup op.id c.index.entries ≡ none)
      → Applies E c (entry_of E t kind op c) (index_op E kind op (entry_of E t kind op c))
  unfolding new_insert new_entry Index.get
  index_op-Applies c h es t tx_insert op k old fresh =
      index_record-Applies E c h es (entry_of E t tx_insert op c) (X.index_entry op.id op.fields) k
        (inl refl) (rw (fresh refl) (omega arith)) old
  index_op-Applies c h es t tx_update op k old fresh =
      update_op-Applies c h es op (lookup op.id c.index.entries) k old refl
  index_op-Applies c h es t tx_delete op k old fresh = unindex_record-Applies E c h es op.ts op.id k

  entry_of-written :
      (t : ℕ) (kind : TxOpKind) (op : TxOp V) (c : Collection E)
      → omit_empty op.fields ≡ op.fields
      → omit_empty (entry_of E t kind op c).fields ≡ (entry_of E t kind op c).fields
  unfolding new_insert new_update new_delete new_entry Index.get
  entry_of-written t tx_insert op c w = w
  entry_of-written t tx_update op c w = elim (Option-cases (lookup op.id c.index.entries)) [
    | inl h ↦
        subst
          (λ (o : Option IndexEntry).
            omit_empty (update_entry E op o).fields ≡ (update_entry E op o).fields)
          (sym h) w
    | inr (cur, h) ↦
        subst
          (λ (o : Option IndexEntry).
            omit_empty (update_entry E op o).fields ≡ (update_entry E op o).fields)
          (sym h) w
  ]
  entry_of-written t tx_delete op c w = refl

  -- the line of one operation, and the indexes after it
  op-Coherent :
      (c : Collection E) (h : History C) (es : List (ℕ × Entry V)) (w : Write) (e : Entry V)
      (apply : ℕ → Collection E → Collection E) (seg : Segment) (off : ℕ)
      → Coherent E c h es
      → Applies E c e apply
      → omit_empty e.fields ≡ e.fields
      → append C w e c.active ≡ (seg, Segment.ok off)
      → (fs : List (ℕ × Entry V)) × Coherent E (apply off (record c { active = seg })) h fs
  op-Coherent c h es w e apply seg off k f doc done =
      let (fs, k') =
        Coherent-write E c h es w e seg off k doc done (f.idx seg.path off) (f.follows seg.path off)
          (f.ids seg.path off) (f.honest seg.path off) in
      (
        fs,
        subst (λ (d : Collection E). Coherent E d h fs) (sym (f.result seg off))
            (Coherent-other E _ h fs f.sidx c.published c.emitted c.clock_floor k'),
      )

  -- What the loop over the operations needs, and what it leaves when it was not stopped.
  abbrev pub Ran : Collection E × Applied V → Type 0
  Ran p = (q : Progress V) → p.1 ≡ applied q → IsSound E p.0

  abbrev pub Suits : Collection E → List (TxOp V) → Type 0
  Suits c ops = All (Fit c.id_seq) ops × NewIds c.index ops

  index_op-Suits :
      (op : TxOp V) (ops : List (TxOp V)) (e : Entry V) (off : ℕ) (d : Collection E) (seg : Segment)
      → e.id ≡ op.id
      → Suits d (op ∷ ops)
      → Suits (index_op E op.kind op e off (record d { active = seg })) ops
  index_op-Suits op ops e off d seg own ((_, fit), (_, apart, fresh)) =
      let (idx, s, at, same) = index_op-Apart E op.kind op e off (record d { active = seg }) own in
      subst (λ (x : Collection E). Suits x ops) (sym at)
        (fit, NewIds-Apart op.id d.index idx ops same apart fresh)

  applied_at-Ran :
      (op : TxOp V) (ops : List (TxOp V)) (t : ℕ) (d : Collection E) (h : History C)
      (es : List (ℕ × Entry V)) (w : Write) (rest : Collection E → Collection E × Applied V)
      → Coherent E d h es
      → Suits d (op ∷ ops)
      → ((x : Collection E) (fs : List (ℕ × Entry V))
          → Coherent E x h fs
          → Suits x ops
          → Ran (rest x))
      → (q : Segment × Segment.Result ℕ) → append C w (entry_of E t op.kind op d) d.active ≡ q
      → Ran (applied_at E op (entry_of E t op.kind op d) d rest q)
  applied_at-Ran op ops t d h es w rest k suits next (seg, Segment.err x) done =
      λ q at. let bad : ⊥ = cc at in elim bad [ ]
  applied_at-Ran op ops t d h es w rest k suits next (seg, Segment.ok off) done =
      let e = entry_of E t op.kind op d in
      let (fs, k') =
        op-Coherent d h es w e (index_op E op.kind op e) seg off k
          (index_op-Applies d h es t op.kind op k suits.0.0.1 suits.1.0)
          (entry_of-written t op.kind op d suits.0.0.0) done in
      next _ fs k' (index_op-Suits op ops e off d seg (entry_of-id E t op.kind op d) suits)

  apply_ops-Ran :
      (ws : List Write) (t : ℕ) (ops : List (TxOp V)) (p : Progress V) (d : Collection E)
      (h : History C) (es : List (ℕ × Entry V))
      → Coherent E d h es
      → Suits d ops
      → Ran (apply_ops E ws t ops p d)
  unfolding apply_ops
  apply_ops-Ran ws t [] p d h es k suits = λ q at f. (h, es, k)
  apply_ops-Ran ws t (op ∷ ops) p d h es k suits =
      let p' = noted op (entry_of E t op.kind op d) p in
      applied_at-Ran op ops t d h es (next_write ws) (apply_ops E (later_writes ws) t ops p') k
        suits (λ x fs. apply_ops-Ran (later_writes ws) t ops p' x h fs)
        (append C (next_write ws) (entry_of E t op.kind op d) d.active) refl

  publish_all-IsSound :
      (es : List (Entry V)) (c : Collection E) → IsSound E c → IsSound E (publish_all E es c)
  unfolding publish_all publish_commit
  publish_all-IsSound [] c s = s
  publish_all-IsSound (e ∷ es) c s = publish_all-IsSound es (publish_commit E e c) (λ f.
      let (h, fs, k) = s f in
      (h, fs, Coherent-other E c h fs c.sidx (c.published ++ e ∷ []) c.emitted c.clock_floor k))

  emit_all-IsSound :
      (evs : List (Event V)) (c : Collection E) → IsSound E c → IsSound E (emit_all E evs c)
  unfolding emit_all emit
  emit_all-IsSound [] c s = s
  emit_all-IsSound (ev ∷ evs) c s = emit_all-IsSound evs (emit E ev c) (λ f.
      let (h, fs, k) = s f in
      (h, fs, Coherent-other E c h fs c.sidx c.published (c.emitted ++ ev ∷ []) c.clock_floor k))

  -- a commit leaves a sound collection
  abbrev pub CommitsSound : Collection E × BatchOutcome → Type 0
  CommitsSound p = (r : Option PostError) → p.1 ≡ batch_committed r → IsSound E p.0

  finish_batch-CommitsSound :
      (io : BatchIo) (p : Progress V) (c : Collection E)
      → IsSound E c
      → CommitsSound (finish_batch E io p c)
  unfolding finish_batch
  finish_batch-CommitsSound io p c s =
      let s' =
        emit_all-IsSound p.events (publish_all E p.entries c) (publish_all-IsSound p.entries c s) in
      if_elim CommitsSound (leb c.cfg.segment_max_size c.active.size) _ _
        (λ _ r h. rotate_segment-IsSound E io.rotation _ s') (λ _ r h. s')

  after_batch_sync-CommitsSound :
      (io : BatchIo) (start_size : ℕ) (before : Dict ℕ IndexEntry) (p : Progress V)
      (c : Collection E) (r : Segment.Result (Unit {0}))
      → IsSound E c
      → CommitsSound (after_batch_sync E io start_size before p c r)
  after_batch_sync-CommitsSound io n before p c (Segment.ok _) s =
      finish_batch-CommitsSound io p c s
  after_batch_sync-CommitsSound io n before p c (Segment.err x) s =
      λ r h. let bad : ⊥ = cc h in elim bad [ ]

  after_ops-CommitsSound :
      (io : BatchIo) (start_size : ℕ) (before : Dict ℕ IndexEntry) (p : Collection E × Applied V)
      → Ran p
      → CommitsSound (after_ops E io start_size before p)
  after_ops-CommitsSound io n before (c, stopped id x) ran =
      λ r h. let bad : ⊥ = cc h in elim bad [ ]
  after_ops-CommitsSound io n before (c, applied p) ran =
      after_batch_sync-CommitsSound io n before p c (sync_active_locked E io.synced c) (ran p refl)

  refuse_batch-CommitsSound :
      (test : Bool) (x : CollectionError) (c : Collection E) (p : Collection E × BatchOutcome)
      → CommitsSound p
      → CommitsSound (refuse_batch E test x c p)
  unfolding refuse_batch
  refuse_batch-CommitsSound true x c p h = λ r at. let bad : ⊥ = cc at in elim bad [ ]
  refuse_batch-CommitsSound false x c p h = h

  validated-CommitsSound :
      (io : BatchIo) (n : ℕ) (before : Dict ℕ IndexEntry) (ops : List (TxOp V)) (t : ℕ)
      (c : Collection E) (h : History C) (es : List (ℕ × Entry V)) (o : Option ℕ)
      → Coherent E c h es
      → Suits c ops
      → CommitsSound (validated E io n before ops t c o)
  validated-CommitsSound io n before ops t c h es (some id) k suits =
      λ r at. let bad : ⊥ = cc at in elim bad [ ]
  validated-CommitsSound io n before ops t c h es none k (fit, fresh) =
      refuse_batch-CommitsSound _ _ c _ (
        refuse_batch-CommitsSound _ _ c _ (
          after_ops-CommitsSound io n before
            (apply_ops E io.writes t (keep_keys E ops c) (no_progress E) c)
            (apply_ops-Ran io.writes t (keep_keys E ops c) (no_progress E) c h es k
              (keep_keys-Fit E ops c fit, keep_keys-NewIds E c.index ops c fresh))))

  commit_batch-CommitsSound :
      (io : BatchIo) (ops : List (TxOp V)) (c : Collection E) (h : History C)
      (es : List (ℕ × Entry V))
      → Coherent E c h es
      → Suits c ops
      → CommitsSound (commit_batch E io ops c)
  unfolding commit_batch now
  commit_batch-CommitsSound io ops c h es k suits =
      let before = save_before c.index ops [] in
      if_elim
        (λ (p : Collection E × ℕ).
          CommitsSound
            (validated E io c.active.size before ops p.1 p.0 (first_missing p.0.index ops)))
        (leb io.clock c.clock_floor) _ _
        (λ _.
          validated-CommitsSound io c.active.size before ops c.clock_floor c h es
            (first_missing c.index ops) k suits)
        (λ _.
          validated-CommitsSound io c.active.size before ops io.clock
            (record c { clock_floor = io.clock }) h es (first_missing c.index ops)
            (Coherent-other E c h es c.sidx c.published c.emitted io.clock k) suits)

  -- A batch that commits keeps the invariant of a collection, whatever the disk does on its way: unless
  -- the rotation behind it fences the collection, the index is the replay of the segments. The batch's
  -- ids were handed out, its documents are nil or not empty, and its inserts are under ids that are
  -- neither in the index nor of an earlier operation.
  pub commit_tx-committed :
      (io : BatchIo) (ops : List (TxOp V)) (c : Collection E) (r : Option PostError)
      → c.fenced ≡ none
      → IsSound E c
      → All (Fit c.id_seq) ops
      → NewIds c.index ops
      → (commit_tx E io ops c).1 ≡ batch_committed r
      → IsSound E (commit_tx E io ops c).0
  unfolding commit_tx
  commit_tx-committed io [] c r free s fit fresh at = s
  commit_tx-committed io (op ∷ ops) c r free s fit fresh at =
      let (h, es, k) = s free in
      refuse_batch-CommitsSound _ _ c _
        (commit_batch-CommitsSound io (op ∷ ops) c h es k (fit, fresh)) r at
