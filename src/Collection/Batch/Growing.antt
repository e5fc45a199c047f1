-- ===== src/Collection/Batch/Growing.antt =====
-- engine/collection.go: what the loop of CommitTx leaves when it ends, or is stopped by an append.
use mathlib.Core.List.{append-nil, append_assoc}
use scriva.Prelude.{
  ℕ, ◌+◌, ◌≡◌, ◌≢◌, ◌⊎◌, inl, inr, refl, sym, ap, subst, ◌∙◌, true, false, Option, none,
  Option-cases, Bool-cases, List, [], ◌∷◌, ◌++◌, Dict, lookup, length, length-append, lookup-insert,
  lookup-remove, beq_iff, arith, ◌==◌, nat_eq, string_eq, if_false, is_some,
}
use scriva.Store.{Entry, new_insert, new_update, new_delete, new_entry}
use scriva.Segment
use scriva.Segment.{
  Segment, SegmentError, Write, append, rollback, rollback_locked, segment_poisoned,
}
use scriva.Segment.Appending.{IsTidy, append-failed, append-Appended}
use scriva.Index
use scriva.Index.{Index, IndexEntry}
use scriva.Handles.{TxOp, TxOpKind, tx_insert, tx_update, tx_delete}
use scriva.Collection.{Env, Collection, write_cause}
use scriva.Collection.Outcomes.{fence-fenced}
use scriva.Collection.Writes.{index_record, unindex_record}
use scriva.Collection.Batch.{
  Applied, Progress, note_poison, update_entry, entry_of, index_op, applied_at, apply_ops,
  next_write, later_writes, noted,
}
use scriva.Collection.Batch.Saved.{Covers}

-- What some operations of a batch did: lines were added to the active segment, and the index changed
-- at the ids of the batch.
pub record Grown (E : Env) (before : Dict ℕ IndexEntry) (c d : Collection E) : Type 0 where
  pub others : d ≡ record c { active = d.active; index = d.index; sidx = d.sidx }
  pub tidy : IsTidy d.active
  pub more : List ℕ
  pub lines :
      d.active ≡ record c.active { size = d.active.size; content = c.active.content ++ more }
  pub kept :
      (id : ℕ) → lookup id before ≡ none → lookup id d.index.entries ≡ lookup id c.index.entries

-- The index at the ids other than one's own.
abbrev pub Apart : ℕ → Index → Index → Type 0
Apart id i j = (k : ℕ) → (id == k) ≡ false → lookup k j.entries ≡ lookup k i.entries

covered_apart :
    (id j : ℕ) (before : Dict ℕ IndexEntry)
    → is_some (lookup id before) ≡ true
    → lookup j before ≡ none
    → (id == j) ≡ false
covered_apart id j before mine out = elim (Bool-cases (id == j)) [
  | inl same ↦
      let k : id ≡ j = (beq_iff id j).0 same in
      absurd (cc (mine, ap (λ (i : ℕ). lookup i before) k, out))
  | inr fine ↦ fine
]

module _ (E : Env) where
  open E use {C, X}
  open C use {V}

  pub note_poison_cases :
      (x : SegmentError) (c : Collection E)
      → ((note_poison E x c).fenced ≢ none) ⊎ (note_poison E x c ≡ c)
  note_poison_cases segment_poisoned c =
      inl (fence-fenced E "truncate" (write_cause segment_poisoned) c)
  note_poison_cases Segment.append_to_sealed c = inr refl
  note_poison_cases Segment.rollback_sealed c = inr refl
  note_poison_cases Segment.record_too_large c = inr refl
  note_poison_cases Segment.write_failed c = inr refl
  note_poison_cases Segment.sync_failed c = inr refl
  note_poison_cases Segment.close_failed c = inr refl
  note_poison_cases (Segment.store_error e) c = inr refl

  note_poison-poisoned :
      (x : SegmentError) (c : Collection E)
      → x ≡ segment_poisoned
      → (note_poison E x c).fenced ≢ none
  note_poison-poisoned x c h =
      subst (λ (y : SegmentError). (note_poison E y c).fenced ≢ none) (sym h)
        (fence-fenced E "truncate" (write_cause segment_poisoned) c)

  pub entry_of-id :
      (t : ℕ) (k : TxOpKind) (op : TxOp V) (c : Collection E) → (entry_of E t k op c).id ≡ op.id
  unfolding new_insert new_update new_delete new_entry Index.get
  entry_of-id t tx_insert op c = refl
  entry_of-id t tx_update op c = elim (Option-cases (lookup op.id c.index.entries)) [
    | inl h ↦ ap (λ (o : Option IndexEntry). (update_entry E op o).id) h
    | inr (cur, h) ↦ ap (λ (o : Option IndexEntry). (update_entry E op o).id) h
  ]
  entry_of-id t tx_delete op c = refl

  -- what one operation does to the indexes
  pub index_op-Apart :
      (k : TxOpKind) (op : TxOp V) (e : Entry V) (off : ℕ) (c : Collection E)
      → e.id ≡ op.id
      → (idx : Index) × (s : X.S) × (index_op E k op e off c ≡ record c { index = idx; sidx = s })
        × Apart op.id c.index idx
  unfolding index_record unindex_record Index.set Index.delete
  index_op-Apart tx_insert op e off c own = (
    _,
    _,
    refl,
    λ j out.
        lookup-insert e.id j _ c.index.entries
        ∙ if_false (e.id == j) _ _ (ap (λ i. i == j) own ∙ out),
  )
  index_op-Apart tx_update op e off c own = (
    _,
    _,
    refl,
    λ j out.
        lookup-insert e.id j _ c.index.entries
        ∙ if_false (e.id == j) _ _ (ap (λ i. i == j) own ∙ out),
  )
  index_op-Apart tx_delete op e off c own =
      (_, _, refl, λ j out. lookup-remove op.id j c.index.entries ∙ if_false (op.id == j) _ _ out)

  pub Grown-start :
      (before : Dict ℕ IndexEntry) (c : Collection E) → IsTidy c.active → Grown E before c c
  Grown-start before c tidy = record {
    others = refl;
    tidy = tidy;
    more = [];
    lines =
        ap (λ (b : List ℕ). record c.active { content = b }) (sym (append-nil c.active.content));
    kept = λ id out. refl;
  }

  Grown-op :
      (before : Dict ℕ IndexEntry) (c d : Collection E) (op : TxOp V) (k : TxOpKind) (e : Entry V)
      (w : Write) (seg : Segment) (off : ℕ)
      → is_some (lookup op.id before) ≡ true
      → e.id ≡ op.id
      → append C w e d.active ≡ (seg, Segment.ok off)
      → Grown E before c d
      → Grown E before c (index_op E k op e off (record d { active = seg }))
  Grown-op before c d op k e w seg off mine own done g =
      let (b, _, a) =
        append-Appended C w e d.active off (ap (λ (r : Segment × Segment.Result ℕ). r.1) done) in
      let grown : seg
          ≡ record d.active { size = d.active.size + length b; content = d.active.content ++ b } =
        sym (ap (λ (r : Segment × Segment.Result ℕ). r.0) done) ∙ a.result in
      let (idx, s, at, apart) = index_op-Apart k op e off (record d { active = seg }) own in
      subst (Grown E before c) (sym at) (record {
        others =
            ap (λ (x : Collection E). record x { active = seg; index = idx; sidx = s }) g.others;
        tidy =
            subst IsTidy (sym grown) (omega (arith, g.tidy, length-append {0} d.active.content b));
        more = g.more ++ b;
        lines =
            grown
            ∙ ap
                (λ (x : Segment). record x {
                  size = d.active.size + length b;
                  content = x.content ++ b;
                })
                g.lines
            ∙ ap
                (λ (bs : List ℕ). record c.active { size = d.active.size + length b; content = bs })
                (append_assoc c.active.content g.more b)
            ∙ ap
                (λ (n : ℕ). record c.active {
                  size = n;
                  content = c.active.content ++ (g.more ++ b);
                })
                (sym (ap (λ (x : Segment). x.size) grown));
        kept = λ id out. apart id (covered_apart op.id id before mine out) ∙ g.kept id out;
      })

  -- How the loop ends: the collection is fenced, or it has grown by the operations applied so far.
  abbrev pub OpsEnd : Dict ℕ IndexEntry → Collection E → Collection E × Applied V → Type 0
  OpsEnd before c p = (p.0.fenced ≢ none) ⊎ Grown E before c p.0

  stopped-OpsEnd :
      (before : Dict ℕ IndexEntry) (c d : Collection E) (w : Write) (e : Entry V) (seg : Segment)
      (x : SegmentError)
      → append C w e d.active ≡ (seg, Segment.err x)
      → Grown E before c d
      → ((note_poison E x (record d { active = seg })).fenced ≢ none)
        ⊎ Grown E before c (note_poison E x (record d { active = seg }))
  stopped-OpsEnd before c d w e seg x done g =
      elim (append-failed C w e d.active x g.tidy
        (ap (λ (r : Segment × Segment.Result ℕ). r.1) done)) [
          | inr (_, _, bad) ↦ inl (note_poison-poisoned x _ bad)
          | inl same ↦ elim (note_poison_cases x (record d { active = seg })) [
            | inl shut ↦ inl shut
            | inr still ↦ inr (
                subst (Grown E before c)
                  (sym (
                    still
                    ∙ ap (λ (s : Segment). record d { active = s })
                        (sym (ap (λ (r : Segment × Segment.Result ℕ). r.0) done) ∙ same)))
                  g)
          ]
        ]

  applied_at-OpsEnd :
      (before : Dict ℕ IndexEntry) (c : Collection E) (op : TxOp V) (d : Collection E) (w : Write)
      (e : Entry V) (rest : Collection E → Collection E × Applied V)
      → e.id ≡ op.id
      → is_some (lookup op.id before) ≡ true
      → Grown E before c d
      → ((x : Collection E) → Grown E before c x → OpsEnd before c (rest x))
      → (q : Segment × Segment.Result ℕ) → append C w e d.active ≡ q
      → OpsEnd before c (applied_at E op e d rest q)
  applied_at-OpsEnd before c op d w e rest own mine g ends (seg, Segment.err x) done =
      stopped-OpsEnd before c d w e seg x done g
  applied_at-OpsEnd before c op d w e rest own mine g ends (seg, Segment.ok off) done =
      ends _ (Grown-op before c d op op.kind e w seg off mine own done g)

  pub apply_ops-OpsEnd :
      (before : Dict ℕ IndexEntry) (c : Collection E) (ws : List Write) (t : ℕ)
      (ops : List (TxOp V)) (p : Progress V) (d : Collection E)
      → Covers before ops
      → Grown E before c d
      → OpsEnd before c (apply_ops E ws t ops p d)
  unfolding apply_ops
  apply_ops-OpsEnd before c ws t [] p d cov g = inr g
  apply_ops-OpsEnd before c ws t (op ∷ ops) p d cov g =
      let e = entry_of E t op.kind op d in
      let p' = noted op e p in
      applied_at-OpsEnd before c op d (next_write ws) e (apply_ops E (later_writes ws) t ops p')
        (entry_of-id t op.kind op d) cov.0 g
        (λ x. apply_ops-OpsEnd before c (later_writes ws) t ops p' x cov.1)
        (append C (next_write ws) e d.active) refl
