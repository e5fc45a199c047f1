-- ===== src/Xtx/Coordinator/Views.antt =====
-- engine/xtx_journal.go: the decision that the table holds for a transaction, behind each record.
use scriva.Prelude.{
  ◌==◌, string_eq, nat_eq, beq_iff, Bool, true, false, not, ◌&&◌, ◌||◌, Option, none, some, Dict,
  lookup, insert, lookup-insert, if_elim, beq_refl, if◌then◌else◌, String, ◌≡◌, refl, sym, ap, ◌∙◌,
  subst, arith, Bool-cases, inl, inr, if_true, if_false,
}
use scriva.Xtx.Journal.{
  Record, Decision, dec_none, dec_commit, dec_abort, dec_retire_commit, dec_retire_abort, ok,
  kind_commit, kind_abort, kind_retire, record_decision,
}
use scriva.Xtx.Coordinator.{
  XtxRecord, XtxDecision, XtxTable, XtxError, outcome_of, put_decision, new_decision, apply_binding,
  apply_commit, apply_kind, apply_key, apply_to,
}

abbrev pub decision_from : String → Bool → Decision
decision_from outcome retired =
    if outcome == kind_commit
    then if retired then dec_retire_commit else dec_commit
    else if retired
    then dec_retire_abort
    else dec_abort

-- the decision that an entry of the table stands for
abbrev pub decision : XtxDecision → Decision
decision d = decision_from d.outcome d.retired

-- the decision that a table holds for a transaction
abbrev pub table_decision : Option XtxDecision → Decision
table_decision none = dec_none
table_decision (some d) = decision d

abbrev pub view_of : Option XtxDecision → Option Decision
view_of none = none
view_of (some d) = some (decision d)

abbrev pub view : String → XtxTable → Option Decision
view tx t = view_of (lookup tx t.by_tx)

-- a record as the specification reads it
abbrev pub spec : XtxRecord → Record
spec r = record { k = r.k; tx = r.tx; parts = r.parts; pd = r.pd; o = r.o }

put-view :
    (a tx : String) (d : XtxDecision) (t : XtxTable)
    → view tx (put_decision a d t) ≡ (if a == tx then some (decision d) else view tx t)
put-view a tx d t = ground (arith, lookup-insert a tx d t.by_tx)

put-view_same :
    (a tx : String) (d : XtxDecision) (t : XtxTable)
    → view a t ≡ some (decision d)
    → view tx (put_decision a d t) ≡ view tx t
put-view_same a tx d t h = elim (Bool-cases (a == tx)) [
  | inl same ↦
      put-view a tx d t
      ∙ if_true (a == tx) _ _ same
      ∙ subst (λ x. some (decision d) ≡ view x t) ((beq_iff a tx).0 same) (sym h)
  | inr other ↦ put-view a tx d t ∙ if_false (a == tx) _ _ other
]

binding-view :
    (r : XtxRecord) (tx : String) (d : XtxDecision) (t : XtxTable)
    → view r.tx t ≡ some (decision d)
    → view tx (apply_binding r d t).0 ≡ view tx t
unfolding apply_binding
binding-view r tx d t h =
    ground (arith, put-view_same r.tx tx (record d { rl = r.rl; rt = r.rt; rd = r.rd }) t h)

commit-view :
    (r : XtxRecord) (tx : String) (d : XtxDecision) (t : XtxTable)
    → view r.tx t ≡ some (decision d)
    → view tx (apply_commit r d t).0 ≡ view tx t
unfolding apply_commit
commit-view r tx d t h =
    let filled : XtxDecision = record d { parts = r.parts; pd = r.pd } in
    let own = put-view_same r.tx r.tx filled t h in
    let all = put-view_same r.tx tx filled t h in
    ground (
      arith,
      binding-view r tx d t h,
      binding-view r tx filled (put_decision r.tx filled t) (own ∙ h) ∙ all,
    )

-- A record's kind is one string.
pub one_kind : (k a b : String) → (a == b) ≡ false → (k == a) ≡ true → (k == b) ≡ false
one_kind k a b differ same = ap (λ x. x == b) ((beq_iff k a).0 same) ∙ differ

-- what a record does to the decisions in the table, with the decision `d` in it
abbrev Kept : XtxRecord → String → XtxDecision → XtxTable → XtxTable × Option XtxError → Type 0
Kept r tx d t p =
    view tx p.0
    ≡ (if r.k == kind_retire && r.tx == tx then some (decision_from d.outcome true) else view tx t)

view-Kept :
    (r : XtxRecord) (tx : String) (d : XtxDecision) (t : XtxTable) (p : XtxTable × Option XtxError)
    → (r.k == kind_retire) ≡ false
    → view tx p.0 ≡ view tx t
    → Kept r tx d t p
view-Kept r tx d t p n h = ground (arith, n, h)

kind-view :
    (r : XtxRecord) (tx : String) (d : XtxDecision) (t : XtxTable)
    → view r.tx t ≡ some (decision d)
    → Kept r tx d t (apply_kind r d t)
unfolding apply_kind
kind-view r tx d t h =
    if_elim (Kept r tx d t) (r.k == kind_commit) _ _
      (λ c.
        view-Kept r tx d t (apply_commit r d t) (one_kind r.k kind_commit kind_retire refl c)
          (commit-view r tx d t h))
      (λ _.
        if_elim (Kept r tx d t) (r.k == kind_abort) _ _
          (λ a.
            view-Kept r tx d t
              (if d.why == "" then put_decision r.tx (record d { why = r.why }) t else t, none)
              (one_kind r.k kind_abort kind_retire refl a)
              (if_elim (λ (u : XtxTable). view tx u ≡ view tx t) (d.why == "") _ _
                (λ _. put-view_same r.tx tx (record d { why = r.why }) t h) (λ _. refl)))
          (λ _.
            if_elim (Kept r tx d t) (r.k == kind_retire) _ _
              (λ e. ground (arith, put-view r.tx tx (record d { retired = true }) t, e))
              (λ n. view-Kept r tx d t (t, none) n refl)))

key-view :
    (r : XtxRecord) (tx : String) (p : XtxTable × Option XtxError)
    → view tx (apply_key r p).0 ≡ view tx p.0
unfolding apply_key
key-view r tx (t, some x) = refl
key-view r tx (t, none) = ground arith

key-failed :
    (r : XtxRecord) (p : XtxTable × Option XtxError) → (apply_key r p).1 ≡ none → p.1 ≡ none
unfolding apply_key
key-failed r (t, some x) h = h
key-failed r (t, none) h = refl

-- the decision that a record brings
abbrev pub brings : XtxRecord → Decision
brings r = decision_from (outcome_of r) (r.k == kind_retire)

-- what a successful step leaves for the record's transaction
abbrev joined : XtxRecord → Option XtxDecision → Decision
joined r none = brings r
joined r (some d) = decision_from d.outcome (d.retired || r.k == kind_retire)

pub apply_to-view :
    (r : XtxRecord) (tx : String) (o : Option XtxDecision) (t : XtxTable)
    → lookup r.tx t.by_tx ≡ o
    → (apply_to r o t).1 ≡ none
    → view tx (apply_to r o t).0 ≡ (if r.tx == tx then some (joined r o) else view tx t)
unfolding apply_to
apply_to-view r tx none t e h =
    let d = new_decision r in
    let put = put_decision r.tx d t in
    let at : view r.tx put ≡ some (decision d) =
      put-view r.tx r.tx d t ∙ if_true (r.tx == r.tx) _ _ (beq_refl r.tx) in
    let kept = key-view r tx (apply_kind r d put) ∙ kind-view r tx d put at in
    ground (arith, kept, put-view r.tx tx d t)
apply_to-view r tx (some d) t e h =
    let kept = key-view r tx (apply_kind r d t) ∙ kind-view r tx d t (ap view_of e) in
    let mine : (r.tx == tx) ≡ true → view tx t ≡ some (decision d) =
      λ s. sym (ap (λ x. view x t) ((beq_iff r.tx tx).0 s)) ∙ ap view_of e in
    ground (arith, kept, mine)

-- The side of the record that a successful step read.
pub apply_to-outcome :
    (r : XtxRecord) (d : XtxDecision) (t : XtxTable)
    → (apply_to r (some d) t).1 ≡ none
    → d.outcome ≡ outcome_of r
unfolding apply_to
apply_to-outcome r d t h = elim (Bool-cases (d.outcome == outcome_of r)) [
  | inl same ↦ (beq_iff d.outcome (outcome_of r)).0 same
  | inr differs ↦ let bad : ⊥ = ground (arith, h, differs) in elim bad [ ]
]

pub record_decision-same_side :
    (tx o : String) (a b : Bool) (ds : Dict String Decision)
    → record_decision tx (decision_from o b) (some (decision_from o a)) ds
      ≡ ok (if b && not a then insert tx (decision_from o true) ds else ds)
unfolding record_decision
record_decision-same_side tx o a b ds = ground arith
