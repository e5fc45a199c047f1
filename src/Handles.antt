-- ===== src/Handles.antt =====
-- engine/txmanager.go, server/handle_owner.go and the transaction handlers of server/grpc.go: the open
-- single-collection transactions, the credential that each handle is bound to, and the handlers that
-- use both. The clock, the random id and whether the database has the collection are arguments; each
-- step holds the lock that it takes. Instants are Unix nanoseconds, not negative, so that a cutoff
-- before 0 has the effect of 0, and the readings of one step are one argument. The sweeper's goroutine is not modelled; a caller is a credential's
-- id, "" without authentication.
pub mod Ownership
pub mod Expiry
pub mod Sweeping
pub mod Staging
use scriva.Prelude.{
  ℕ, zero, suc, ◌+◌, ◌-◌, ◌*◌, String, Bool, true, false, not, Option, none, some, List, [], ◌∷◌,
  ◌++◌, Dict, lookup, insert, remove, length, ltb, ◌==◌, string_eq, if◌then◌else◌,
}

-- txOpKind
pub data TxOpKind : Type 0 where
  tx_insert tx_update tx_delete : TxOpKind

pub record TxOp (V : Type 0) : Type 0 where
  pub kind : TxOpKind
  pub id : ℕ
  pub fields : Option (Dict String V)
  pub ts : ℕ

pub record Tx (V : Type 0) : Type 0 where
  pub id : String
  pub collection : String
  pub ops : List (TxOp V)
  pub created_at : ℕ
  pub last_used : ℕ

-- an operation appended to the buffer, and the touch
unfoldable pub stage : {V : Type 0} → TxOp V → ℕ → Tx V → Tx V
stage op now tx = record tx { ops = tx.ops ++ op ∷ []; last_used = now }

abbrev pub tx_op : {V : Type 0} → TxOpKind → ℕ → Option (Dict String V) → ℕ → TxOp V
tx_op kind id doc ts = record { kind = kind; id = id; fields = doc; ts = ts }

unfoldable pub stage_insert : {V : Type 0} → ℕ → Option (Dict String V) → ℕ → Tx V → Tx V
unfolding stage
stage_insert id doc now tx = stage (tx_op tx_insert id doc now) now tx

unfoldable pub stage_update : {V : Type 0} → ℕ → Option (Dict String V) → ℕ → Tx V → Tx V
unfolding stage
stage_update id doc now tx = stage (tx_op tx_update id doc now) now tx

unfoldable pub stage_delete : {V : Type 0} → ℕ → ℕ → Tx V → Tx V
unfolding stage
stage_delete id now tx = stage (tx_op tx_delete id none now) now tx

pub record TxManager (V : Type 0) : Type 0 where
  pub txs : Dict String (Tx V)
  pub ttl : ℕ

unfoldable pub begin : {V : Type 0} → String → ℕ → String → TxManager V → TxManager V
begin id now collection m = record m {
  txs =
      insert id
        (record { id = id; collection = collection; ops = []; created_at = now; last_used = now })
        m.txs;
}

-- TxManager.Get
unfoldable pub get_tx : {V : Type 0} → String → TxManager V → Option (Tx V)
get_tx id m = lookup id m.txs

-- TxManager.Remove
unfoldable pub remove_tx : {V : Type 0} → String → TxManager V → TxManager V
remove_tx id m = record m { txs = remove id m.txs }

-- the loop of reapExpired: what stays, and the ids that go
unfoldable pub reap_idle : {V : Type 0} → ℕ → Dict String (Tx V) → Dict String (Tx V) × List String
reap_idle cutoff [] = ([], [])
reap_idle cutoff ((id, tx) ∷ m) =
    let rest = reap_idle cutoff m in
    if ltb tx.last_used cutoff then (rest.0, id ∷ rest.1) else ((id, tx) ∷ rest.0, rest.1)

unfoldable pub reap_expired : {V : Type 0} → ℕ → TxManager V → TxManager V × List String
unfolding reap_idle
reap_expired now m =
    let reaped = reap_idle (now - m.ttl) m.txs in (record m { txs = reaped.0 }, reaped.1)

-- handleOwners
pub record HandleOwners : Type 0 where
  pub owner : Dict String String
  pub sweep_at : ℕ

abbrev pub handle_owners_min_sweep : ℕ
handle_owners_min_sweep = 1024

unfoldable pub new_handle_owners : HandleOwners
new_handle_owners = record { owner = []; sweep_at = handle_owners_min_sweep }

-- the loop that deletes the entries whose handle is gone
unfoldable pub sweep : (String → Bool) → Dict String String → Dict String String
sweep exists [] = []
sweep exists ((k, o) ∷ m) = let rest = sweep exists m in if exists k then (k, o) ∷ rest else rest

abbrev pub swept : Dict String String → HandleOwners
swept m = record {
  owner = m;
  sweep_at =
      if ltb (2 * length m) handle_owners_min_sweep then handle_owners_min_sweep else 2 * length m;
}

unfoldable pub bind_in : (String → Bool) → ℕ → Dict String String → HandleOwners
unfolding sweep
bind_in exists sweep_at m =
    if ltb (length m) sweep_at
    then record { owner = m; sweep_at = sweep_at }
    else swept (sweep exists m)

unfoldable pub bind : String → String → (String → Bool) → HandleOwners → HandleOwners
unfolding insert bind_in
bind id owner exists h = bind_in exists h.sweep_at (insert id owner h.owner)

unfoldable pub forget : String → HandleOwners → HandleOwners
unfolding remove
forget id h = record h { owner = remove id h.owner }

-- `h.owner[id]`: a missing entry reads as ""
abbrev pub owner_or_nobody : Option String → String
owner_or_nobody none = ""
owner_or_nobody (some o) = o

-- `true` is nil, `false` PermissionDenied
unfoldable pub check : String → String → HandleOwners → Bool
unfolding lookup
check caller id h = owner_or_nobody (lookup id h.owner) == caller

-- the fields `txMgr` and `owners` of GRPCServer
pub record Server (V : Type 0) : Type 0 where
  pub tx_mgr : TxManager V
  pub owners : HandleOwners

pub data HandleError : Type 0 where
  collection_required no_such_collection tx_not_found wrong_collection : HandleError
  foreign_handle : HandleError

pub data Reply {ℓ} (A : Type ℓ) : Type ℓ where
  refusal : HandleError → Reply A
  reply : A → Reply A

module _ {V : Type 0} where
  abbrev pub is_found : Option (Tx V) → Bool
  is_found none = false
  is_found (some tx) = true

  -- the test of live handles that BeginTx passes to bind
  abbrev pub is_tx : Server V → String → Bool
  is_tx s id = is_found (get_tx id s.tx_mgr)

  abbrev pub opened_tx : String → ℕ → String → String → Server V → Server V
  opened_tx id now caller collection s =
      let m = begin id now collection s.tx_mgr in
      record { tx_mgr = m; owners = bind id caller (is_tx (record s { tx_mgr = m })) s.owners }

  -- GRPCServer.BeginTx; `found` is that the database has the collection
  unfoldable pub begin_tx : Bool → String → ℕ → String → String → Server V → Reply String × Server V
  unfolding begin get_tx bind
  begin_tx found id now caller collection s =
      if collection == ""
      then (refusal collection_required, s)
      else if not found
      then (refusal no_such_collection, s)
      else (reply id, opened_tx id now caller collection s)

  abbrev pub owned : Option (Tx V) → Bool → Reply (Tx V)
  owned none passed = refusal tx_not_found
  owned (some tx) false = refusal foreign_handle
  owned (some tx) true = reply tx

  unfoldable pub owned_tx : String → String → Server V → Reply (Tx V)
  unfolding get_tx check
  owned_tx caller id s = owned (get_tx id s.tx_mgr) (check caller id s.owners)

  -- the buffer is shared with the manager: staging changes the open transaction
  unfoldable pub put_tx : String → Tx V → Server V → Server V
  unfolding insert
  put_tx id tx s = record s { tx_mgr = record s.tx_mgr { txs = insert id tx s.tx_mgr.txs } }

  unfoldable pub stage_owned :
      String → String → (Tx V → Tx V) → Server V → Reply (Tx V) → Reply Bool × Server V
  unfolding put_tx
  stage_owned id collection staged s (refusal e) = (refusal e, s)
  stage_owned id collection staged s (reply tx) =
      if tx.collection == collection
      then (reply true, put_tx id (staged tx) s)
      else (refusal wrong_collection, s)

  -- the branch of Insert, Update and Delete inside a transaction; `staged` is the stage function
  unfoldable pub stage_tx :
      String → String → String → (Tx V → Tx V) → Server V → Reply Bool × Server V
  unfolding owned_tx stage_owned
  stage_tx caller id collection staged s = stage_owned id collection staged s (owned_tx caller id s)

  unfoldable pub closed_tx : String → Server V → Server V
  unfolding remove_tx forget
  closed_tx id s = record { tx_mgr = remove_tx id s.tx_mgr; owners = forget id s.owners }

  unfoldable pub commit_owned :
      Bool → String → Server V → Reply (Tx V) → Reply (String × List (TxOp V)) × Server V
  unfolding closed_tx
  commit_owned found id s (refusal e) = (refusal e, s)
  commit_owned found id s (reply tx) =
      if found
      then (reply (tx.collection, tx.ops), closed_tx id s)
      else (refusal no_such_collection, s)

  -- GRPCServer.CommitTx up to the call of Collection.CommitTx: the collection and the operations that
  -- it hands over
  unfoldable pub commit_tx :
      Bool → String → String → Server V → Reply (String × List (TxOp V)) × Server V
  unfolding owned_tx commit_owned
  commit_tx found caller id s = commit_owned found id s (owned_tx caller id s)

  unfoldable pub rollback_owned : String → Server V → Reply (Tx V) → Reply Bool × Server V
  unfolding closed_tx
  rollback_owned id s (refusal e) = (refusal e, s)
  rollback_owned id s (reply tx) = (reply true, closed_tx id s)

  unfoldable pub rollback_tx : String → String → Server V → Reply Bool × Server V
  unfolding owned_tx rollback_owned
  rollback_tx caller id s = rollback_owned id s (owned_tx caller id s)

  -- GRPCServer.BeginXTx: the bind of a cross-collection handle, with the engine's test of such handles
  unfoldable pub begin_xtx : String → String → (String → Bool) → Server V → Server V
  unfolding bind
  begin_xtx id caller exists s = record s { owners = bind id caller exists s.owners }
