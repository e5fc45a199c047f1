-- ===== src/Xtx/Journal/Agreement.antt =====
-- A journal that folds without an error speaks with one voice about every transaction.
use mathlib.Core.List.{Memᴰ}
use scriva.Prelude.{
  String, ◌≡◌, ◌≢◌, refl, sym, Option, none, some, List, [], ◌∷◌, Dict, lookup, if◌then◌else◌,
  subst, ◌≤◌, ◌==◌, string_eq, Bool-cases, nat_eq, lookup-insert, ltb, beq_iff, beq_refl, All,
  arith, ◌⊎◌, inl, inr,
}
use scriva.Xtx.Journal.{
  Record, Decision, ok, is_commit, rank, decision_of, record_decision, decide, decisions_from,
  decisions, >>=-eq-ok,
}

-- `e` supersedes `d`: the same side, and no lower in the order of the constants.
pub record Refines (d e : Decision) : Type 0 where
  pub side : is_commit d ≡ is_commit e
  pub up : rank d ≤ rank e

Refines-trans : {d e f : Decision} → Refines d e → Refines e f → Refines d f
Refines-trans h k = ground arith

-- The decision that the map holds for `tx` refines `d`.
pub record Holds (ds : Dict String Decision) (tx : String) (d : Decision) : Type 0 where
  pub final : Decision
  pub found : lookup tx ds ≡ some final
  pub refines : Refines d final

-- What a record's decision leaves for its transaction.
abbrev newer : Option Decision → Decision → Decision
newer none d = d
newer (some prev) d = if ltb (rank prev) (rank d) then d else prev

record_decision-lookup :
    (tx t : String) (d : Decision) (o : Option Decision) (out out' : Dict String Decision)
    → lookup tx out ≡ o
    → record_decision tx d o out ≡ ok out'
    → lookup t out' ≡ (if tx == t then some (newer o d) else lookup t out)
unfolding record_decision
record_decision-lookup tx t d none out out' e h = ground (arith, lookup-insert tx t d out)
record_decision-lookup tx t d (some prev) out out' e h =
    ground (arith, lookup-insert tx t d out, beq_iff tx t)

record_decision-Refines :
    (tx : String) (d : Decision) (o : Option Decision) (out : Dict String Decision)
    {out' : Dict String Decision}
    → record_decision tx d o out ≡ ok out'
    → Refines d (newer o d)
unfolding record_decision
record_decision-Refines tx d none out h = ground arith
record_decision-Refines tx d (some prev) out h = ground arith

record_decision-Refines_old :
    (tx : String) (d prev : Decision) (out : Dict String Decision) {out' : Dict String Decision}
    → record_decision tx d (some prev) out ≡ ok out'
    → Refines prev (newer (some prev) d)
unfolding record_decision
record_decision-Refines_old tx d prev out h = ground arith

-- A step makes the record's decision hold.
decide-Holds :
    (tx : String) (d : Decision) (out out' : Dict String Decision)
    → decide (some d) tx out ≡ ok out'
    → Holds out' tx d
unfolding decide
decide-Holds tx d out out' h = record {
  final = newer (lookup tx out) d;
  found = rw (record_decision-lookup tx tx d (lookup tx out) out out' refl h) (rw (beq_refl tx));
  refines = record_decision-Refines tx d (lookup tx out) out h;
}

-- A step keeps what held for every transaction.
decide-keeps :
    (o : Option Decision) (tx t : String) (c : Decision) (out out' : Dict String Decision)
    → decide o tx out ≡ ok out'
    → Holds out t c
    → Holds out' t c
unfolding decide
decide-keeps none tx t c out out' h k = cc
decide-keeps (some d) tx t c out out' h k = elim (Bool-cases (tx == t)) [
  | inl same ↦
      let e : lookup tx out ≡ some k.final = rw ((beq_iff tx t).0 same) k.found in
      record {
        final = newer (some k.final) d;
        found = rw (record_decision-lookup tx t d (some k.final) out out' e (rw e at h)) (rw same);
        refines =
            Refines-trans k.refines (record_decision-Refines_old tx d k.final out (rw e at h));
      }
  | inr other ↦ record {
    final = k.final;
    found = rw (record_decision-lookup tx t d (lookup tx out) out out' refl h) (rw other k.found);
    refines = k.refines;
  }
]

decisions_from-keeps :
    (rs : List Record) (t : String) (c : Decision) (out out' : Dict String Decision)
    → decisions_from out rs ≡ ok out'
    → Holds out t c
    → Holds out' t c
unfolding decisions_from
decisions_from-keeps [] t c out out' h k = subst (λ o. Holds o t c) (cc) k
decisions_from-keeps (r ∷ rs) t c out out' h k =
    let (mid, first, rest) =
      >>=-eq-ok (decide (decision_of r) r.tx out) (λ o. decisions_from o rs) h in
    decisions_from-keeps rs t c mid out' rest
      (decide-keeps (decision_of r) r.tx t c out mid first k)

-- The journal's verdict on a record: its kind is known, and the map holds its decision.
pub record Counted (ds : Dict String Decision) (r : Record) : Type 0 where
  pub decision : Decision
  pub read : decision_of r ≡ some decision
  pub holds : Holds ds r.tx decision

decide-Counted :
    (r : Record) (o : Option Decision) (out mid out' : Dict String Decision) (rs : List Record)
    → decision_of r ≡ o
    → decide o r.tx out ≡ ok mid
    → decisions_from mid rs ≡ ok out'
    → Counted out' r
unfolding decide
decide-Counted r none out mid out' rs e first rest = cc
decide-Counted r (some d) out mid out' rs e first rest = record {
  decision = d;
  read = e;
  holds = decisions_from-keeps rs r.tx d mid out' rest (decide-Holds r.tx d out mid first);
}

decisions_from-Counted :
    (rs : List Record) (out out' : Dict String Decision)
    → decisions_from out rs ≡ ok out'
    → All (Counted out') rs
unfolding decisions_from
decisions_from-Counted [] out out' h = tt
decisions_from-Counted (r ∷ rs) out out' h =
    let (mid, first, rest) =
      >>=-eq-ok (decide (decision_of r) r.tx out) (λ o. decisions_from o rs) h in
    (
      decide-Counted r (decision_of r) out mid out' rs refl first rest,
      decisions_from-Counted rs mid out' rest,
    )

-- When the fold of a journal succeeds, every record in it has a known kind, and the decision that
-- the map holds for the record's transaction is on the record's own side (commit or abort) and is
-- at least as late in the order of the constants: retirement supersedes, nothing is lost.
decisions-Counted :
    (rs : List Record) (ds : Dict String Decision) → decisions rs ≡ ok ds → All (Counted ds) rs
unfolding decisions
decisions-Counted rs ds h = decisions_from-Counted rs [] ds h

Memᴰ-All {ℓ κ} : {A : Type ℓ} (P : A → Type κ) {a : A} (xs : List A) → Memᴰ a xs → All P xs → P a
Memᴰ-All P [] m h = elim m [ ]
Memᴰ-All P (x ∷ xs) (Memᴰ.head e) h = subst P (sym e) h.0
Memᴰ-All P (x ∷ xs) (Memᴰ.tail m) h = Memᴰ-All P xs m h.1

Counted-side :
    (ds : Dict String Decision) (r s : Record) (d e : Decision)
    → Counted ds r
    → Counted ds s
    → r.tx ≡ s.tx
    → decision_of r ≡ some d
    → decision_of s ≡ some e
    → is_commit d ≡ is_commit e
Counted-side ds r s d e cr cs t hr hs = cc (cr.holds.refines.side, cs.holds.refines.side)

-- A journal with two records of one transaction that stand on opposite sides, one for commit and
-- one for abort, whether decided or retired, never folds: it is refused.
pub decisions-conflict :
    (rs : List Record) (ds : Dict String Decision) (r s : Record) (d e : Decision)
    → Memᴰ r rs
    → Memᴰ s rs
    → r.tx ≡ s.tx
    → decision_of r ≡ some d
    → decision_of s ≡ some e
    → is_commit d ≢ is_commit e
    → decisions rs ≢ ok ds
decisions-conflict rs ds r s d e mr ms t hr hs differ folded =
    let all = decisions-Counted rs ds folded in
    differ (
      Counted-side ds r s d e (Memᴰ-All (Counted ds) rs mr all) (Memᴰ-All (Counted ds) rs ms all) t
        hr hs)

-- A record of the journal that decides `d` for `tx`.
pub record Source (rs : List Record) (tx : String) (d : Decision) : Type 0 where
  pub entry : Record
  pub mem : Memᴰ entry rs
  pub about : entry.tx ≡ tx
  pub read : decision_of entry ≡ some d

decide-source :
    (o : Option Decision) (tx t : String) (d : Decision) (out mid : Dict String Decision)
    → decide o tx out ≡ ok mid
    → lookup t mid ≡ some d
    → ((tx ≡ t) × (o ≡ some d)) ⊎ (lookup t out ≡ some d)
unfolding decide
decide-source none tx t d out mid h found = cc
decide-source (some c) tx t d out mid h found =
    ground (arith, record_decision-lookup tx t c (lookup tx out) out mid refl, beq_iff tx t)

decisions_from-Source :
    (rs : List Record) (t : String) (d : Decision) (out out' : Dict String Decision)
    → decisions_from out rs ≡ ok out'
    → lookup t out' ≡ some d
    → Source rs t d ⊎ (lookup t out ≡ some d)
unfolding decisions_from
decisions_from-Source [] t d out out' h found = inr (subst (λ o. lookup t o ≡ some d) (cc) found)
decisions_from-Source (r ∷ rs) t d out out' h found =
    let (mid, first, rest) =
      >>=-eq-ok (decide (decision_of r) r.tx out) (λ o. decisions_from o rs) h in
    elim (decisions_from-Source rs t d mid out' rest found) [
      | inl s ↦
          inl (record { entry = s.entry; mem = Memᴰ.tail s.mem; about = s.about; read = s.read })
      | inr before ↦ elim (decide-source (decision_of r) r.tx t d out mid first before) [
        | inl own ↦ inl (record { entry = r; mem = Memᴰ.head refl; about = own.0; read = own.1 })
        | inr old ↦ inr old
      ]
    ]

-- No decision is invented: whatever the map holds for a transaction stands in one of its records.
decisions-Source :
    (rs : List Record) (ds : Dict String Decision) (tx : String) (d : Decision)
    → decisions rs ≡ ok ds
    → lookup tx ds ≡ some d
    → Source rs tx d
unfolding decisions lookup
decisions-Source rs ds tx d h found = elim (decisions_from-Source rs tx d [] ds h found) [
  | inl s ↦ s
  | inr e ↦ absurd (cc)
]
