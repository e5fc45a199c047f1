-- ===== src/Handles/Expiry.antt =====
-- engine/txmanager.go: the expiry of idle transactions.
use scriva.Prelude.{
  ℕ, ◌-◌, ◌≡◌, refl, ap, String, Option, none, some, [], ◌∷◌, Dict, lookup, IsMap, ltb, beq_iff,
  string_eq, if◌then◌else◌, arith,
}
use scriva.Handles.{Tx, TxManager, get_tx, reap_idle, reap_expired}

module _ {V : Type 0} where
  -- a transaction that was used at the cutoff or later
  abbrev pub in_use : ℕ → Option (Tx V) → Option (Tx V)
  in_use cutoff none = none
  in_use cutoff (some tx) = if ltb tx.last_used cutoff then none else some tx

  in_use-none : (cutoff : ℕ) (o : Option (Tx V)) → o ≡ none → in_use cutoff o ≡ none
  in_use-none cutoff o h = ap (in_use cutoff) h

  lookup-reap_idle :
      (cutoff : ℕ) (k : String) (m : Dict String (Tx V))
      → IsMap m
      → lookup k (reap_idle cutoff m).0 ≡ in_use cutoff (lookup k m)
  unfolding lookup reap_idle
  lookup-reap_idle cutoff k [] h = refl
  lookup-reap_idle cutoff k ((j, tx) ∷ m) h =
      ground (arith, lookup-reap_idle cutoff k m h.1, beq_iff j k, h.0)

  -- The sweeper removes the transactions that were idle for longer than the timeout, and no other.
  get_tx-reap_expired :
      (now : ℕ) (k : String) (m : TxManager V)
      → IsMap m.txs
      → get_tx k (reap_expired now m).0 ≡ in_use (now - m.ttl) (get_tx k m)
  unfolding get_tx reap_expired
  get_tx-reap_expired now k m h = lookup-reap_idle (now - m.ttl) k m.txs h
