-- ===== src/Xtx/Recovery/Atomicity.antt =====
-- What the truth table of recovery.go guarantees.
use scriva.Prelude.{
  ℕ, String, ◌≡◌, refl, true, false, Option, none, some, List, [], ◌∷◌, Dict, lookup, All, arith,
  ◌⊎◌, inl, inr, string_eq, nat_eq, beq_iff,
}
use scriva.Xtx.Journal.{Part, Decision, dec_commit, decision_at}
use scriva.Xtx.Recovery.{
  nothing, aborted, committed, refuse, Run, Input, has_foreign, exists_in, has_missing, PartCheck,
  destamped, intact, missing, mismatch, check_run, check_part, check_parts, resolve, entry_visible,
}

-- A participant is whole: its collection exists, and its run is de-stamped, or complete with the
-- length and the digest of the commit record.
pub record IsWhole (i : Input) (p : Part) : Type 0 where
  pub dir : exists_in p.c i.existing ≡ true
  pub run : Run
  pub found : lookup p.c i.evidence ≡ some run
  pub good : (run.destamped ≡ true) ⊎ ((run.complete ≡ true) × (run.n ≡ p.n) × (run.digest ≡ p.d))

check_run-good :
    (p : Part) (run : Run)
    → (check_run p run ≡ destamped) ⊎ (check_run p run ≡ intact)
    → (run.destamped ≡ true) ⊎ ((run.complete ≡ true) × (run.n ≡ p.n) × (run.digest ≡ p.d))
unfolding check_run
check_run-good p run h = ground (arith, beq_iff run.n p.n, beq_iff run.digest p.d)

check_parts-found :
    (i : Input) (p : Part) (o : Option Run)
    → lookup p.c i.evidence ≡ o
    → exists_in p.c i.existing ≡ true
    → (check_part p o ≡ destamped) ⊎ (check_part p o ≡ intact)
    → IsWhole i p
unfolding check_part
check_parts-found i p none e d h = absurd (ground arith)
check_parts-found i p (some run) e d h = record {
  dir = d;
  run = run;
  found = e;
  good = check_run-good p run h;
}

PartCheck-cases :
    (r : PartCheck) → ((r ≡ destamped) ⊎ (r ≡ intact)) ⊎ ((r ≡ missing) ⊎ (r ≡ mismatch))
PartCheck-cases r = ground arith

-- One round of the loop: the participant passed, and the rest of the loop ran on.
check_parts-step :
    (row : ℕ) (p : Part) (ps : List Part) (ev : Dict String Run)
    → (check_parts row (p ∷ ps) ev).outcome ≡ committed
    → ((check_part p (lookup p.c ev) ≡ destamped) ⊎ (check_part p (lookup p.c ev) ≡ intact))
      × ((next : ℕ) × ((check_parts next ps ev).outcome ≡ committed))
unfolding check_parts
check_parts-step row p ps ev h = elim (PartCheck-cases (check_part p (lookup p.c ev))) [
  | inl (inl e) ↦ (inl e, (4, rw (e, check_parts) at h))
  | inl (inr e) ↦ (inr e, (row, rw (e, check_parts) at h))
  | inr bad ↦ absurd (ground arith)
]

check_parts-IsWhole :
    (i : Input) (row : ℕ) (ps : List Part)
    → has_missing ps i.existing ≡ false
    → (check_parts row ps i.evidence).outcome ≡ committed
    → All (IsWhole i) ps
unfolding has_missing
check_parts-IsWhole i row [] m h = tt
check_parts-IsWhole i row (p ∷ ps) m h =
    let (passed, (next, rest)) = check_parts-step row p ps i.evidence h in
    (
      check_parts-found i p (lookup p.c i.evidence) refl (ground arith) passed,
      check_parts-IsWhole i next ps (ground arith) rest,
    )

resolve-commit_parts :
    (i : Input)
    → i.decision ≡ dec_commit
    → (resolve i).outcome ≡ committed
    → (i.conflict ≡ false)
      × (has_foreign i.parts i.evidence ≡ false)
      × (has_missing i.parts i.existing ≡ false)
      × ((check_parts 3 i.parts i.evidence).outcome ≡ committed)
unfolding resolve
resolve-commit_parts i d h = ground arith

-- Recovery never commits a subset: a transaction whose COMMIT record is the evidence is recovered
-- as committed only if every participant of that record is whole (its directory exists, and its run
-- is de-stamped, or complete with the recorded length and digest), no run belongs to a collection
-- outside the record, and the journal is free of conflict.
pub resolve-commit-IsWhole :
    (i : Input)
    → i.decision ≡ dec_commit
    → (resolve i).outcome ≡ committed
    → All (IsWhole i) i.parts × (has_foreign i.parts i.evidence ≡ false) × (i.conflict ≡ false)
resolve-commit-IsWhole i d h =
    let (calm, own, dirs, rounds) = resolve-commit_parts i d h in
    (check_parts-IsWhole i 3 i.parts dirs rounds, own, calm)

check_run-passes :
    (p : Part) (run : Run)
    → (run.destamped ≡ true) ⊎ ((run.complete ≡ true) × (run.n ≡ p.n) × (run.digest ≡ p.d))
    → (check_run p run ≡ destamped) ⊎ (check_run p run ≡ intact)
unfolding check_run
check_run-passes p run h = ground (arith, beq_iff run.n p.n, beq_iff run.digest p.d)

check_part-passes :
    (i : Input) (p : Part)
    → IsWhole i p
    → (check_part p (lookup p.c i.evidence) ≡ destamped)
      ⊎ (check_part p (lookup p.c i.evidence) ≡ intact)
unfolding check_part
check_part-passes i p w = rw (w.found) (check_run-passes p w.run w.good)

check_parts-passes :
    (i : Input) (row : ℕ) (ps : List Part)
    → All (IsWhole i) ps
    → (check_parts row ps i.evidence).outcome ≡ committed
unfolding check_parts
check_parts-passes i row [] h = refl
check_parts-passes i row (p ∷ ps) h = elim (check_part-passes i p h.0) [
  | inl e ↦ rw (e, check_parts) (check_parts-passes i 4 ps h.1)
  | inr e ↦ rw (e, check_parts) (check_parts-passes i row ps h.1)
]

has_missing-none :
    (i : Input) (ps : List Part) → All (IsWhole i) ps → has_missing ps i.existing ≡ false
unfolding has_missing
has_missing-none i [] h = refl
has_missing-none i (p ∷ ps) h = ground (arith, h.0.dir, has_missing-none i ps h.1)

-- A durable decision is honoured: with the COMMIT record decided, every participant whole, no foreign
-- run, no conflict and the journal in place, recovery commits.
pub resolve-commit_complete :
    (i : Input)
    → i.decision ≡ dec_commit
    → i.conflict ≡ false
    → i.journal_missing ≡ false
    → has_foreign i.parts i.evidence ≡ false
    → All (IsWhole i) i.parts
    → (resolve i).outcome ≡ committed
unfolding resolve
resolve-commit_complete i d c m f w =
    ground (arith, has_missing-none i i.parts w, check_parts-passes i 3 i.parts w)

check_parts-outcome :
    (row : ℕ) (ps : List Part) (ev : Dict String Run)
    → ((check_parts row ps ev).outcome ≡ committed) ⊎ ((check_parts row ps ev).outcome ≡ refuse)
unfolding check_parts
check_parts-outcome row [] ev = inl refl
check_parts-outcome row (p ∷ ps) ev =
    ground (arith, check_parts-outcome 4 ps ev, check_parts-outcome row ps ev)

-- Recovery and reads agree on every branch: unless the open is refused, the entries of a transaction
-- whose decision is the one in the map are visible when its outcome is `committed`, and they are not
-- when it is `aborted` or `nothing`.
pub resolve-visible :
    (i : Input) (tx : String) (ds : Dict String Decision)
    → i.decision ≡ decision_at tx ds
    → ((resolve i).outcome ≡ refuse)
      ⊎ (((resolve i).outcome ≡ committed) × (entry_visible tx ds ≡ true))
      ⊎ (((resolve i).outcome ≡ aborted) × (entry_visible tx ds ≡ false))
      ⊎ (((resolve i).outcome ≡ nothing) × (entry_visible tx ds ≡ false))
unfolding resolve entry_visible
resolve-visible i tx ds d = ground (arith, check_parts-outcome 3 i.parts i.evidence)
