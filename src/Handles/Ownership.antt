-- ===== src/Handles/Ownership.antt =====
-- server/handle_owner.go and server/grpc.go: a transaction handle answers to the credential that
-- began it, under every interleaving of the handlers.
use scriva.Prelude.{
  ℕ, ◌≡◌, ◌≢◌, refl, sym, ap, subst, ◌∙◌, String, Bool, true, false, Option, none, some, [], Dict,
  lookup, insert, lookup-insert, lookup-remove, ◌==◌, beq_iff, string_eq, Option-cases, inl, inr,
  arith, if_elim,
}
use scriva.Handles.{
  Tx, HandleOwners, new_handle_owners, bind, forget, check, owner_or_nobody, get_tx, Server, Reply,
  reply, refusal, opened_tx, owned, owned_tx, put_tx, stage_owned, stage_tx, closed_tx,
  commit_owned, commit_tx, rollback_owned, rollback_tx, begin_xtx, reap_expired,
}
use scriva.Handles.Sweeping.{lookup-bind-some}

module _ {V : Type 0} where
  -- The states that the handlers reach, with the caller that began each handle: single-collection and
  -- cross-collection begins, staging, commits, rollbacks and the sweeper, in any order and by anyone.
  pub data Reaches : Server V → Dict String String → Type 0 where
    started : (s : Server V) → s.owners ≡ new_handle_owners → Reaches s []
    began :
        (s : Server V) (by : Dict String String) (id : String) (now : ℕ)
        (caller collection : String)
        → Reaches s by
        → Reaches (opened_tx id now caller collection s) (insert id caller by)
    began_xtx :
        (s : Server V) (by : Dict String String) (id caller : String) (exists : String → Bool)
        → Reaches s by
        → Reaches (begin_xtx id caller exists s) (insert id caller by)
    staged :
        (s : Server V) (by : Dict String String) (caller id collection : String)
        (staging : Tx V → Tx V)
        → Reaches s by
        → Reaches (stage_tx caller id collection staging s).1 by
    committed :
        (s : Server V) (by : Dict String String) (found : Bool) (caller id : String)
        → Reaches s by
        → Reaches (commit_tx found caller id s).1 by
    rolled_back :
        (s : Server V) (by : Dict String String) (caller id : String)
        → Reaches s by
        → Reaches (rollback_tx caller id s).1 by
    reaped :
        (s : Server V) (by : Dict String String) (now : ℕ)
        → Reaches s by
        → Reaches (record s { tx_mgr = (reap_expired now s.tx_mgr).0 }) by

-- Every recorded owner began its handle.
abbrev Agrees : HandleOwners → Dict String String → Type 0
Agrees h by = (k o : String) → lookup k h.owner ≡ some o → lookup k by ≡ some o

bind-Agrees :
    (id caller : String) (exists : String → Bool) (h : HandleOwners) (by : Dict String String)
    → Agrees h by
    → Agrees (bind id caller exists h) (insert id caller by)
bind-Agrees id caller exists h by ok k o found = ground (
  arith,
  lookup-bind-some id caller exists h k o found,
  lookup-insert id k caller h.owner,
  lookup-insert id k caller by,
  ok k o,
)

forget-Agrees :
    (id : String) (h : HandleOwners) (by : Dict String String)
    → Agrees h by
    → Agrees (forget id h) by
unfolding forget
forget-Agrees id h by ok k o found = ground (arith, lookup-remove id k h.owner, ok k o)

started-Agrees : (h : HandleOwners) → h ≡ new_handle_owners → Agrees h []
unfolding new_handle_owners lookup
started-Agrees h fresh k o found =
    let bad : none ≡ some o = subst (λ (x : HandleOwners). lookup k x.owner ≡ some o) fresh found in
    cc bad

module _ {V : Type 0} where
  staged-Agrees :
      (id collection : String) (staging : Tx V → Tx V) (s : Server V) (r : Reply (Tx V))
      (by : Dict String String)
      → Agrees s.owners by
      → Agrees (stage_owned id collection staging s r).1.owners by
  unfolding stage_owned put_tx
  staged-Agrees id collection staging s (refusal e) by ok = ok
  staged-Agrees id collection staging s (reply tx) by ok =
      if_elim (λ (r : Reply Bool × Server V). Agrees r.1.owners by) (tx.collection == collection) _
        _ (λ _. ok) (λ _. ok)

  committed-Agrees :
      (found : Bool) (id : String) (s : Server V) (r : Reply (Tx V)) (by : Dict String String)
      → Agrees s.owners by
      → Agrees (commit_owned found id s r).1.owners by
  unfolding commit_owned closed_tx
  committed-Agrees found id s (refusal e) by ok = ok
  committed-Agrees true id s (reply tx) by ok = forget-Agrees id s.owners by ok
  committed-Agrees false id s (reply tx) by ok = ok

  rolled_back-Agrees :
      (id : String) (s : Server V) (r : Reply (Tx V)) (by : Dict String String)
      → Agrees s.owners by
      → Agrees (rollback_owned id s r).1.owners by
  unfolding rollback_owned closed_tx
  rolled_back-Agrees id s (refusal e) by ok = ok
  rolled_back-Agrees id s (reply tx) by ok = forget-Agrees id s.owners by ok

  reached-Agrees : (s : Server V) (by : Dict String String) → Reaches s by → Agrees s.owners by
  unfolding begin_xtx stage_tx commit_tx rollback_tx
  reached-Agrees s by (started _ fresh) = started-Agrees s.owners fresh
  reached-Agrees s by (began t old id now caller collection r) =
      bind-Agrees id caller _ t.owners old (reached-Agrees t old r)
  reached-Agrees s by (began_xtx t old id caller exists r) =
      bind-Agrees id caller exists t.owners old (reached-Agrees t old r)
  reached-Agrees s by (staged t _ caller id collection staging r) =
      staged-Agrees id collection staging t (owned_tx caller id t) by (reached-Agrees t by r)
  reached-Agrees s by (committed t _ found caller id r) =
      committed-Agrees found id t (owned_tx caller id t) by (reached-Agrees t by r)
  reached-Agrees s by (rolled_back t _ caller id r) =
      rolled_back-Agrees id t (owned_tx caller id t) by (reached-Agrees t by r)
  reached-Agrees s by (reaped t _ now r) = reached-Agrees t by r

  owned-Passed :
      (o : Option (Tx V)) (passed : Bool) (tx : Tx V) → owned o passed ≡ reply tx → passed ≡ true
  owned-Passed none passed tx h = let bad : ⊥ = cc h in elim bad [ ]
  owned-Passed (some t) false tx h = let bad : ⊥ = cc h in elim bad [ ]
  owned-Passed (some t) true tx h = refl

  -- With authentication on, whoever passes the check of a handle is the credential that began it,
  -- after any interleaving of the handlers and the sweeper.
  pub owned_tx-Reaches :
      (s : Server V) (by : Dict String String) (caller id : String) (tx : Tx V)
      → Reaches s by
      → caller ≢ ""
      → owned_tx caller id s ≡ reply tx
      → lookup id by ≡ some caller
  unfolding owned_tx check
  owned_tx-Reaches s by caller id tx reach someone h =
      let passed = owned-Passed (get_tx id s.tx_mgr) (check caller id s.owners) tx h in
      let same : owner_or_nobody (lookup id s.owners.owner) ≡ caller =
        (beq_iff _ caller).0 passed in
      elim (Option-cases (lookup id s.owners.owner)) [
        | inl nobody ↦ let bad : ⊥ = someone (sym same ∙ ap owner_or_nobody nobody) in elim bad [ ]
        | inr (o, recorded) ↦
            let who : o ≡ caller = sym (ap owner_or_nobody recorded) ∙ same in
            reached-Agrees s by reach id o recorded ∙ ap some who
      ]
