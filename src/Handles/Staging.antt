-- ===== src/Handles/Staging.antt =====
-- engine/txmanager.go and server/grpc.go: what a commit hands to the collection.
use scriva.Prelude.{
  ℕ, ◌≡◌, refl, sym, ap, subst, ◌∙◌, String, Bool, true, false, none, some, List, [], ◌∷◌, ◌++◌,
  lookup-insert_self, lookup-remove, ◌==◌, beq_iff, beq_refl, string_eq, if_true, if_false,
}
use scriva.Handles.{
  Tx, TxOp, stage, begin, get_tx, is_found, remove_tx, check, owner_or_nobody, Server, Reply, reply,
  begin_tx, opened_tx, owned_tx, put_tx, stage_owned, stage_tx, closed_tx, commit_owned, commit_tx,
}
use scriva.Handles.Sweeping.{lookup-bind_live}

module _ {V : Type 0} where
  -- a caller's operations, one request after the other
  unfoldable pub stage_all : String → String → String → List (TxOp V) → Server V → Server V
  unfolding stage_tx stage
  stage_all caller id collection [] s = s
  stage_all caller id collection (op ∷ ops) s =
      stage_all caller id collection ops (stage_tx caller id collection (stage op op.ts) s).1

  -- the caller owns the handle, which holds these operations
  record Holds (caller id collection : String) (ops : List (TxOp V)) (s : Server V) : Type 0 where
    tx : Tx V
    opened : get_tx id s.tx_mgr ≡ some tx
    passes : check caller id s.owners ≡ true
    bound_to : tx.collection ≡ collection
    buffer : tx.ops ≡ ops

  owned_tx-Holds :
      (caller id collection : String) (ops : List (TxOp V)) (s : Server V)
      (h : Holds caller id collection ops s)
      → owned_tx caller id s ≡ reply h.tx
  unfolding owned_tx
  owned_tx-Holds caller id collection ops s h = rw (h.opened, h.passes) refl

  opened_tx-Holds :
      (id : String) (now : ℕ) (caller collection : String) (s : Server V)
      → Holds caller id collection [] (opened_tx id now caller collection s)
  unfolding begin get_tx check
  opened_tx-Holds id now caller collection s = record {
    tx = record { id = id; collection = collection; ops = []; created_at = now; last_used = now };
    opened = lookup-insert_self id _ s.tx_mgr.txs;
    passes =
        ap (λ o. owner_or_nobody o == caller)
          (lookup-bind_live id caller _ s.owners id
              (ap is_found (lookup-insert_self id _ s.tx_mgr.txs))
            ∙ lookup-insert_self id caller s.owners.owner)
        ∙ beq_refl caller;
    bound_to = refl;
    buffer = refl;
  }

  stage_tx-Holds :
      (caller id collection : String) (ops : List (TxOp V)) (s : Server V) (op : TxOp V)
      → Holds caller id collection ops s
      → Holds caller id collection
          (ops ++ op ∷ [])
          (stage_tx caller id collection (stage op op.ts) s).1
  unfolding stage_tx stage_owned put_tx get_tx check stage
  stage_tx-Holds caller id collection ops s op h =
      let moved : (stage_tx caller id collection (stage op op.ts) s).1
          ≡ put_tx id (stage op op.ts h.tx) s =
        ap (λ (r : Reply (Tx V)). (stage_owned id collection (stage op op.ts) s r).1)
          (owned_tx-Holds caller id collection ops s h)
        ∙ ap (λ (p : Reply Bool × Server V). p.1)
            (if_true (h.tx.collection == collection) _ _
              ((beq_iff h.tx.collection collection).1 h.bound_to)) in
      subst (Holds caller id collection (ops ++ op ∷ [])) (sym moved) (record {
        tx = stage op op.ts h.tx;
        opened = lookup-insert_self id _ s.tx_mgr.txs;
        passes = h.passes;
        bound_to = h.bound_to;
        buffer = ap (λ (l : List (TxOp V)). l ++ op ∷ []) h.buffer;
      })

  append-cons :
      (a : List (TxOp V)) (x : TxOp V) (c : List (TxOp V)) → (a ++ x ∷ []) ++ c ≡ a ++ x ∷ c
  append-cons [] x c = refl
  append-cons (y ∷ a) x c = ap (λ (l : List (TxOp V)). y ∷ l) (append-cons a x c)

  append_nil : (a : List (TxOp V)) → a ++ [] ≡ a
  append_nil [] = refl
  append_nil (x ∷ a) = ap (λ (l : List (TxOp V)). x ∷ l) (append_nil a)

  stage_all-Holds :
      (caller id collection : String) (ops more : List (TxOp V)) (s : Server V)
      → Holds caller id collection ops s
      → Holds caller id collection (ops ++ more) (stage_all caller id collection more s)
  unfolding stage_all
  stage_all-Holds caller id collection ops [] s h =
      subst (λ l. Holds caller id collection l s) (sym (append_nil ops)) h
  stage_all-Holds caller id collection ops (op ∷ more) s h =
      subst (λ l. Holds caller id collection l (stage_all caller id collection (op ∷ more) s))
        (append-cons ops op more)
        (stage_all-Holds caller id collection (ops ++ op ∷ []) more
          (stage_tx caller id collection (stage op op.ts) s).1
          (stage_tx-Holds caller id collection ops s op h))

  commit_tx-Holds :
      (caller id collection : String) (ops : List (TxOp V)) (s : Server V)
      → Holds caller id collection ops s
      → commit_tx true caller id s ≡ (reply (collection, ops), closed_tx id s)
  unfolding commit_tx commit_owned
  commit_tx-Holds caller id collection ops s h =
      ap (commit_owned true id s) (owned_tx-Holds caller id collection ops s h)
      ∙ rw (h.bound_to, h.buffer) refl

  -- begin, stage, commit
  unfoldable pub run_tx :
      Server V
      → String
      → ℕ
      → String
      → String
      → List (TxOp V)
      → Reply (String × List (TxOp V)) × Server V
  run_tx s id now caller collection ops =
      commit_tx true caller id
        (stage_all caller id collection ops (begin_tx true id now caller collection s).1)

  run_tx-closed :
      (s : Server V) (id : String) (now : ℕ) (caller collection : String) (ops : List (TxOp V))
      → (collection == "") ≡ false
      → run_tx s id now caller collection ops ≡ (
        reply (collection, ops),
        closed_tx id (stage_all caller id collection ops (opened_tx id now caller collection s)),
      )
  unfolding run_tx begin_tx
  run_tx-closed s id now caller collection ops named =
      let begun : (begin_tx true id now caller collection s).1
          ≡ opened_tx id now caller collection s =
        ap (λ (p : Reply String × Server V). p.1) (if_false (collection == "") _ _ named) in
      ap (λ t. commit_tx true caller id (stage_all caller id collection ops t)) begun
      ∙ commit_tx-Holds caller id collection ops
          (stage_all caller id collection ops (opened_tx id now caller collection s))
          (stage_all-Holds caller id collection [] ops (opened_tx id now caller collection s)
            (opened_tx-Holds id now caller collection s))

  closed_tx-gone : (id : String) (s : Server V) → get_tx id (closed_tx id s).tx_mgr ≡ none
  unfolding get_tx closed_tx remove_tx
  closed_tx-gone id s = lookup-remove id id s.tx_mgr.txs ∙ if_true (id == id) _ _ (beq_refl id)

  -- A caller that begins a transaction on a named collection, stages operations and commits has the
  -- collection handed exactly these operations, in order; the handle is closed behind it.
  pub run_tx-committed :
      (s : Server V) (id : String) (now : ℕ) (caller collection : String) (ops : List (TxOp V))
      → (collection == "") ≡ false
      → ((run_tx s id now caller collection ops).0 ≡ reply (collection, ops))
        × (get_tx id (run_tx s id now caller collection ops).1.tx_mgr ≡ none)
  run_tx-committed s id now caller collection ops named =
      let run = run_tx-closed s id now caller collection ops named in
      (
        ap (λ (p : Reply (String × List (TxOp V)) × Server V). p.0) run,
        ap (λ (p : Reply (String × List (TxOp V)) × Server V). get_tx id p.1.tx_mgr) run
            ∙ closed_tx-gone id
                (stage_all caller id collection ops (opened_tx id now caller collection s)),
      )
