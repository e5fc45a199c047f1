-- ===== src/Xtx/Coordinator/Folding.antt =====
-- The decision table of engine/xtx_journal.go against the fold of internal/xtxspec/journal.go.
use scriva.Prelude.{
  ◌==◌, string_eq, nat_eq, beq_iff, true, not, ◌&&◌, Option, none, some, List, [], ◌∷◌, Dict,
  lookup, insert, lookup-insert, if◌then◌else◌, String, map, ◌≡◌, refl, sym, ap, ◌∙◌, subst, arith,
}
use scriva.Xtx.Journal.{
  Decision, dec_none, ok, kind_commit, kind_abort, kind_retire, decision_of, record_decision,
  decide, decisions_from, decisions, decision_at, ◌>>=◌,
}
use scriva.Xtx.Coordinator.{
  XtxRecord, XtxDecision, XtxTable, new_table, outcome_of, apply_to, apply,
}
use scriva.Xtx.Coordinator.Validation.{Hash, check_kind, check_record, load}
use scriva.Xtx.Coordinator.Views.{
  decision_from, decision, table_decision, view_of, view, spec, one_kind, brings, apply_to-view,
  apply_to-outcome, record_decision-same_side,
}

module _ (H : Hash) where
  check_kind-decision :
      (r : XtxRecord) → check_kind H r ≡ true → decision_of (spec r) ≡ some (brings r)
  unfolding check_kind decision_of outcome_of
  check_kind-decision r h = ground (
    arith,
    h,
    one_kind r.k kind_commit kind_retire refl,
    one_kind r.k kind_abort kind_retire refl,
    one_kind r.k kind_abort kind_commit refl,
    one_kind r.o kind_abort kind_commit refl,
  )

  -- A record that passes the checks has the decision that the specification reads.
  check_record-decision :
      (epoch : String) (r : XtxRecord)
      → check_record H epoch r ≡ true
      → decision_of (spec r) ≡ some (brings r)
  unfolding check_record
  check_record-decision epoch r h = check_kind-decision r (ground (arith, h))

  -- The table and the map of the specification hold the same decisions.
  abbrev Agree : XtxTable → Dict String Decision → Type 0
  Agree t ds = (tx : String) → lookup tx ds ≡ view tx t

  record_decision-Agree :
      (r : XtxRecord) (o : Option XtxDecision) (t : XtxTable) (ds : Dict String Decision)
      → lookup r.tx t.by_tx ≡ o
      → (apply_to r o t).1 ≡ none
      → Agree t ds
      → (out : Dict String Decision) × (record_decision r.tx (brings r) (view_of o) ds ≡ ok out)
        × Agree (apply_to r o t).0 out
  unfolding record_decision
  record_decision-Agree r none t ds e h agree = (
    insert r.tx (brings r) ds,
    refl,
    λ tx.
        ground
          (arith, apply_to-view r tx none t e h, lookup-insert r.tx tx (brings r) ds, agree tx),
  )
  record_decision-Agree r (some d) t ds e h agree =
      let side = apply_to-outcome r d t h in
      let b = r.k == kind_retire in
      (
        (if b && not d.retired then insert r.tx (decision_from d.outcome true) ds else ds),
        ap (λ o. record_decision r.tx (decision_from o b) (some (decision d)) ds) (sym side)
            ∙ record_decision-same_side r.tx d.outcome d.retired b ds,
        λ tx.
            let mine : (r.tx == tx) ≡ true → view tx t ≡ some (decision d) =
              λ s. sym (ap (λ x. view x t) ((beq_iff r.tx tx).0 s)) ∙ ap view_of e in
            ground (
              arith,
              apply_to-view r tx (some d) t e h,
              lookup-insert r.tx tx (decision_from d.outcome true) ds,
              agree tx,
              mine,
            ),
      )

  -- A journal that loads.
  load-step :
      (epoch : String) (r : XtxRecord) (rs : List XtxRecord) (t t' : XtxTable)
      → load H epoch (r ∷ rs) t ≡ some t'
      → (check_record H epoch r ≡ true)
        × ((apply r t).1 ≡ none)
        × (load H epoch rs (apply r t).0 ≡ some t')
  unfolding load
  load-step epoch r rs t t' h = ground (arith, h)

  load-Agree :
      (epoch : String) (rs : List XtxRecord) (t t' : XtxTable) (ds : Dict String Decision)
      → load H epoch rs t ≡ some t'
      → Agree t ds
      → (out : Dict String Decision) × (decisions_from ds (map spec rs) ≡ ok out) × Agree t' out
  unfolding load decisions_from decide apply
  load-Agree epoch [] t t' ds h agree =
      (ds, refl, let same : t ≡ t' = cc h in subst (λ u. Agree u ds) same agree)
  load-Agree epoch (r ∷ rs) t t' ds h agree =
      let (checked, applied, rest) = load-step epoch r rs t t' h in
      let (mid, first, agree') =
        record_decision-Agree r (lookup r.tx t.by_tx) t ds refl applied agree in
      let (out, folded, agree'') = load-Agree epoch rs (apply r t).0 t' mid rest agree' in
      (
        out,
        ap (λ o. decide o r.tx ds >>= λ out'. decisions_from out' (map spec rs))
              (check_record-decision epoch r checked)
            ∙ ap
                (λ o. record_decision r.tx (brings r) o ds >>= λ out'.
                  decisions_from out' (map spec rs))
                (agree r.tx)
            ∙ ap (λ q. q >>= λ out'. decisions_from out' (map spec rs)) first
            ∙ folded,
        agree'',
      )

  opt-decision_at :
      (o : Option Decision) (d : Option XtxDecision)
      → o ≡ view_of d
      → elim o [ none ↦ dec_none | some x ↦ x ] ≡ table_decision d
  opt-decision_at none none h = refl
  opt-decision_at none (some d) h = let bad : ⊥ = cc h in elim bad [ ]
  opt-decision_at (some x) none h = let bad : ⊥ = cc h in elim bad [ ]
  opt-decision_at (some x) (some d) h = cc h

  -- The engine's decision table implements the specification's fold: when a journal loads, its records
  -- fold without a conflict, and for every transaction the table and the fold hold the same decision,
  -- retirement included.
  pub load-decisions :
      (epoch : String) (rs : List XtxRecord) (t : XtxTable) (tx : String)
      → load H epoch rs new_table ≡ some t
      → (ds : Dict String Decision) × (decisions (map spec rs) ≡ ok ds)
        × (decision_at tx ds ≡ table_decision (lookup tx t.by_tx))
  unfolding decisions decision_at lookup
  load-decisions epoch rs t tx h =
      let (out, folded, agree) = load-Agree epoch rs new_table t [] h (λ x. refl) in
      (out, folded, opt-decision_at (lookup tx out) (lookup tx t.by_tx) (agree tx))
