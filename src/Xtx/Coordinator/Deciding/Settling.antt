-- ===== src/Xtx/Coordinator/Deciding/Settling.antt =====
-- engine/xtx_journal.go: what commitPreparedBound and abort leave in the journal of a transaction that
-- it does not know yet.
use scriva.Prelude.{
  ◌==◌, string_eq, nat_eq, true, false, not, ◌&&◌, Option, none, some, List, [], lookup,
  lookup-insert_self, lookup-insert, true, if_elim, if_false, String, ◌≡◌, refl, sym, ap, ◌∙◌,
  subst, arith, ◌⊎◌, inl, inr, Option-cases,
}
use scriva.Xtx.Journal.{Part, kind_commit, kind_abort}
use scriva.Xtx.Coordinator.{
  XtxRecord, XtxDecision, XtxTable, XtxError, lsn_conflict, outcome_of, put_decision, new_decision,
  apply_binding, apply_commit, apply_kind, apply_key, apply_to, apply, same_binding,
  bound_elsewhere,
}
use scriva.Xtx.Coordinator.Deciding.{bound, XtxReplBind, new_record, commit_record, bind_refused}

-- what a record that the table did not know leaves in it
pub record Installed (tx outcome : String) (parts : List Part) (p : XtxTable × Option XtxError)
    : Type 0 where
  pub fine : p.1 ≡ none
  pub entry : XtxDecision
  pub at : lookup tx p.0.by_tx ≡ some entry
  pub outcome_at : entry.outcome ≡ outcome
  pub live : entry.retired ≡ false
  pub parts_at : entry.parts ≡ parts

key-Installed :
    (r : XtxRecord) (tx outcome : String) (parts : List Part) (p : XtxTable × Option XtxError)
    → Installed tx outcome parts p
    → Installed tx outcome parts (apply_key r p)
unfolding apply_key
key-Installed r tx outcome parts (t, some x) i = i
key-Installed r tx outcome parts (t, none) i = record {
  fine = refl;
  entry = i.entry;
  at = if_elim (λ (u : XtxTable). lookup tx u.by_tx ≡ some i.entry) _ _ _ (λ _. i.at) (λ _. i.at);
  outcome_at = i.outcome_at;
  live = i.live;
  parts_at = i.parts_at;
}

abbrev commit_entry : XtxRecord → XtxDecision
commit_entry r = record (new_decision r) { parts = r.parts; pd = r.pd }

first_bound :
    (r : XtxRecord) (d : XtxDecision)
    → d.rl ≡ 0
    → (not (d.rl == 0) && not (same_binding r d)) ≡ false
first_bound r d unbound = ap (λ n. not (n == 0) && not (same_binding r d)) unbound

not_elsewhere :
    (r : XtxRecord) (t : XtxTable)
    → ((r.rl == 0) ≡ true) ⊎ (lookup r.rl t.by_lsn ≡ none)
    → (r.rl == 0) ≡ false
    → bound_elsewhere r.tx (lookup r.rl t.by_lsn) ≡ false
not_elsewhere r t (inl zero_lsn) some_lsn =
    let bad : true ≡ false = sym zero_lsn ∙ some_lsn in let no : ⊥ = cc bad in elim no [ ]
not_elsewhere r t (inr fresh) some_lsn = ap (bound_elsewhere r.tx) fresh

binding-Installed :
    (r : XtxRecord) (d : XtxDecision) (t : XtxTable)
    → lookup r.tx t.by_tx ≡ some d
    → d.retired ≡ false
    → d.rl ≡ 0
    → ((r.rl == 0) ≡ true) ⊎ (lookup r.rl t.by_lsn ≡ none)
    → Installed r.tx d.outcome d.parts (apply_binding r d t)
unfolding apply_binding
binding-Installed r d t known alive unbound fresh =
    if_elim (Installed r.tx d.outcome d.parts) (r.rl == 0) _ _
      (λ _. record {
        fine = refl;
        entry = d;
        at = known;
        outcome_at = refl;
        live = alive;
        parts_at = refl;
      })
      (λ bound.
        subst (Installed r.tx d.outcome d.parts)
          (sym (
            if_false (not (d.rl == 0) && not (same_binding r d)) _ _ (first_bound r d unbound)
            ∙ if_false (bound_elsewhere r.tx (lookup r.rl t.by_lsn)) (t, some lsn_conflict) _
                (not_elsewhere r t fresh bound)))
          (record {
            fine = refl;
            entry = record d { rl = r.rl; rt = r.rt; rd = r.rd };
            at = lookup-insert_self r.tx (record d { rl = r.rl; rt = r.rt; rd = r.rd }) t.by_tx;
            outcome_at = refl;
            live = alive;
            parts_at = refl;
          }))

fresh_lsn :
    (bind : Option XtxReplBind) (t : XtxTable)
    → bind_refused bind t ≡ none
    → ((bound 0 (λ b. b.lsn) bind == 0) ≡ true)
      ⊎ (lookup (bound 0 (λ (b : XtxReplBind). b.lsn) bind) t.by_lsn ≡ none)
unfolding bind_refused
fresh_lsn none t h = inl refl
fresh_lsn (some b) t h = inr (elim (Option-cases (lookup b.lsn t.by_lsn)) [
  | inl free ↦ free
  | inr (prev, taken) ↦ let bad : ⊥ = ground (arith, h, taken) in elim bad [ ]
])

pub commit-Installed :
    (tx key pd : String) (parts : List Part) (bind : Option XtxReplBind) (t : XtxTable)
    → lookup tx t.by_tx ≡ none
    → bind_refused bind t ≡ none
    → Installed tx kind_commit parts (apply (commit_record tx key parts pd bind) t)
unfolding apply apply_to apply_kind apply_commit outcome_of
commit-Installed tx key pd parts bind t fresh b =
    let r = commit_record tx key parts pd bind in
    subst (λ o. Installed tx kind_commit parts (apply_to r o t)) (sym fresh)
      (key-Installed r tx kind_commit parts
        (apply_binding r (commit_entry r)
          (put_decision tx (commit_entry r) (put_decision tx (new_decision r) t)))
        (binding-Installed r (commit_entry r)
          (put_decision tx (commit_entry r) (put_decision tx (new_decision r) t))
          (lookup-insert_self tx (commit_entry r) (put_decision tx (new_decision r) t).by_tx) refl
          refl (fresh_lsn bind t b)))

pub abort-Installed :
    (tx key why : String) (t : XtxTable)
    → lookup tx t.by_tx ≡ none
    → Installed tx kind_abort [] (apply (record (new_record kind_abort tx key) { why = why }) t)
unfolding apply apply_to apply_kind outcome_of
abort-Installed tx key why t fresh =
    let r = record (new_record kind_abort tx key) { why = why } in
    let t' = put_decision tx (new_decision r) t in
    subst (λ o. Installed tx kind_abort [] (apply_to r o t)) (sym fresh)
      (key-Installed r tx kind_abort []
        (put_decision tx (record (new_decision r) { why = why }) t', none)
        (record {
          fine = refl;
          entry = record (new_decision r) { why = why };
          at = lookup-insert_self tx (record (new_decision r) { why = why }) t'.by_tx;
          outcome_at = refl;
          live = refl;
          parts_at = refl;
        }))

module _ (r : XtxRecord) (x : String) (other : (r.tx == x) ≡ false) where
  -- the entry of `x` is that of the table before
  abbrev Keeps : XtxTable → XtxTable × Option XtxError → Type 0
  Keeps t p = lookup x p.0.by_tx ≡ lookup x t.by_tx

  put-Keeps :
      (d : XtxDecision) (t : XtxTable) → lookup x (put_decision r.tx d t).by_tx ≡ lookup x t.by_tx
  put-Keeps d t = lookup-insert r.tx x d t.by_tx ∙ if_false (r.tx == x) _ _ other

  binding-Keeps : (d : XtxDecision) (t : XtxTable) → Keeps t (apply_binding r d t)
  unfolding apply_binding
  binding-Keeps d t = ground (arith, put-Keeps (record d { rl = r.rl; rt = r.rt; rd = r.rd }) t)

  commit-Keeps : (d : XtxDecision) (t : XtxTable) → Keeps t (apply_commit r d t)
  unfolding apply_commit
  commit-Keeps d t =
      let filled : XtxDecision = record d { parts = r.parts; pd = r.pd } in
      ground (
        arith,
        binding-Keeps d t,
        binding-Keeps filled (put_decision r.tx filled t) ∙ put-Keeps filled t,
      )

  kind-Keeps : (d : XtxDecision) (t : XtxTable) → Keeps t (apply_kind r d t)
  unfolding apply_kind
  kind-Keeps d t = ground (
    arith,
    commit-Keeps d t,
    put-Keeps (record d { why = r.why }) t,
    put-Keeps (record d { retired = true }) t,
  )

  key-Keeps : (t : XtxTable) (p : XtxTable × Option XtxError) → Keeps t p → Keeps t (apply_key r p)
  unfolding apply_key
  key-Keeps t (u, some e) h = h
  key-Keeps t (u, none) h = ground (arith, h)

  apply_to-Keeps : (o : Option XtxDecision) (t : XtxTable) → Keeps t (apply_to r o t)
  unfolding apply_to
  apply_to-Keeps none t =
      let d = new_decision r in
      key-Keeps t (apply_kind r d (put_decision r.tx d t))
        (kind-Keeps d (put_decision r.tx d t) ∙ put-Keeps d t)
  apply_to-Keeps (some d) t = ground (arith, key-Keeps t (apply_kind r d t) (kind-Keeps d t))

  -- A record leaves the entries of the other transactions as they are.
  pub apply-others : (t : XtxTable) → lookup x (apply r t).0.by_tx ≡ lookup x t.by_tx
  unfolding apply
  apply-others t = apply_to-Keeps (lookup r.tx t.by_tx) t
