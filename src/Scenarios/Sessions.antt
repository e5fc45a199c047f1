-- ===== src/Scenarios/Sessions.antt =====
-- A server on which two callers begin transactions.
use scriva.Prelude.{
  ℕ, ◌≡◌, ◌≤◌, ◌<◌, refl, String, Bool, false, none, some, List, [], ◌∷◌, Dict, lookup, insert,
  length, ◌==◌, string_eq, arith,
}
use scriva.Handles.{
  Tx, TxOp, tx_insert, tx_op, HandleOwners, new_handle_owners, bind, check, Server, reply,
  opened_tx, owned_tx, get_tx, begin,
}
use scriva.Handles.Ownership.{Reaches, started, began, owned_tx-Reaches}
use scriva.Handles.Staging.{run_tx, run_tx-committed}
use scriva.Handles.Sweeping.{count_where, next_sweep, length-bind, begin_tx-sweeps}

abbrev fresh_server : Server ℕ
fresh_server = record {
  tx_mgr = record { txs = []; ttl = 5 };
  owners = record { owner = []; sweep_at = 1024 };
}

abbrev begun : Server ℕ
begun = opened_tx "t" 7 "alice" "a" fresh_server

fresh_owners : fresh_server.owners ≡ new_handle_owners
unfolding new_handle_owners
fresh_owners = refl

abbrev nobody_yet : Dict String String
nobody_yet = []

begun-Reaches : Reaches begun (insert "t" "alice" nobody_yet)
begun-Reaches = began fresh_server nobody_yet "t" 7 "alice" "a" (started fresh_server fresh_owners)

abbrev tx_of_alice : Tx ℕ
tx_of_alice = record { id = "t"; collection = "a"; ops = []; created_at = 7; last_used = 7 }

alice-owns : owned_tx "alice" "t" begun ≡ reply tx_of_alice
unfolding owned_tx begin bind
alice-owns = refl

owned_tx-Reaches_example : lookup "t" (insert "t" "alice" nobody_yet) ≡ some "alice"
owned_tx-Reaches_example =
    owned_tx-Reaches begun (insert "t" "alice" nobody_yet) "alice" "t" tx_of_alice begun-Reaches
      (λ h. cc h) alice-owns

abbrev two_ops : List (TxOp ℕ)
two_ops = tx_op tx_insert 1 (some (("n", 1) ∷ [])) 8 ∷ tx_op tx_insert 2 none 9 ∷ []

run_tx-committed_example :
    ((run_tx fresh_server "t" 7 "alice" "a" two_ops).0 ≡ reply ("a", two_ops))
    × (get_tx "t" (run_tx fresh_server "t" 7 "alice" "a" two_ops).1.tx_mgr ≡ none)
run_tx-committed_example = run_tx-committed fresh_server "t" 7 "alice" "a" two_ops refl

abbrev small_table : HandleOwners
small_table = record { owner = ("x", "bob") ∷ ("y", "bob") ∷ []; sweep_at = 2 }

abbrev only_t : String → Bool
only_t k = k == "t"

length-bind_example :
    (length (bind "t" "alice" only_t small_table).owner
      < (bind "t" "alice" only_t small_table).sweep_at)
    × ((bind "t" "alice" only_t small_table).sweep_at
        ≡ next_sweep 2
            (length (insert "t" "alice" small_table.owner))
            (count_where only_t (insert "t" "alice" small_table.owner)))
length-bind_example = length-bind "t" "alice" only_t small_table

abbrev full_server : Server ℕ
full_server = record { tx_mgr = record { txs = []; ttl = 5 }; owners = small_table }

full : small_table.sweep_at ≤ length (insert "t" "alice" small_table.owner)
unfolding insert
full = omega arith

nothing_open : lookup "x" full_server.tx_mgr.txs ≡ none
unfolding lookup
nothing_open = refl

begin_tx-sweeps_example : check "bob" "x" (opened_tx "t" 7 "alice" "a" full_server).owners ≡ false
begin_tx-sweeps_example =
    begin_tx-sweeps full_server "t" 7 "alice" "a" "x" "bob" full nothing_open refl (λ h. cc h)
