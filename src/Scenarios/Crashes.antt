-- ===== src/Scenarios/Crashes.antt =====
-- A commit over two collections on a disk that works, on one whose journal fsync fails, on one whose
-- second segment fails, and on one that reports an error for a commit record which it
-- has written and cannot take back.
use scriva.Prelude.{
  ℕ, zero, suc, true, false, none, some, List, [], ◌∷◌, ◌++◌, Dict, map, lookup, String, ◌≡◌, refl,
  string_eq, nat_eq, ◌==◌, if◌then◌else◌, leb, length, All, insert as dict_insert,
  remove as dict_remove, arith,
}
use scriva.Store.{Bytes, op_insert, op_update, little_endian}
use scriva.Xtx.Coordinator.{
  XtxRecord, XtxTable, new_table, apply, apply_to, apply_kind, apply_commit, apply_binding,
  apply_key, outcome_of,
}
use scriva.Xtx.Coordinator.Validation.{
  Hash, check_record, check_kind, check_commit, parse_tx_id, is_lower_hex, belongs, digest_bytes,
  part_digest, raw_digest, parts_bytes, parts_digest, ascending, validate_parts, load,
}
use scriva.Xtx.Coordinator.Deciding.{
  XtxJournal, JournalIo, line_written, line_failed, usable, append_line, sync_locked,
  install_locked, bind_refused, after_commit_sync, after_commit_append, commit_locked,
  after_abort_append, append_decision_locked, abort_known, abort, commit_prepared_bound,
}
use scriva.Xtx.Prepare.{
  StampedEntry, Active, XtxRun, stamped_written, stamped_failed, PrepareIo, part_of, prepared,
  durability_error, rollback_lines, write_stamped, append_stamped, chain_append, append_run,
  sync_run, chain_sync, sync_runs, chain_run, append_runs, give_up, after_decision, after_runs_sync,
  after_appends, prepare_and_decide, rollback_run, rollback_active,
}
use scriva.Xtx.Prepare.Commits.{prepare_and_decide-commits}
use scriva.Xtx.Discovery.{
  run_of, recovered_committed, recover_tx, recover_crashed, discover, existing_of, decided_at,
  recover_decided, recover_commit, check_runs, evidence_of, resolve_all, add_decided, add_evidence,
  add_stamped, add_id,
}
use scriva.Xtx.Discovery.TruthTable.{input_of, outcome_of_resolution, recover_tx-resolve}
use scriva.Xtx.Coordinator.Folding.{load-decisions}
use scriva.Xtx.Coordinator.Views.{spec, table_decision}
use scriva.Xtx.Journal.{Decision, ok, decisions, decision_at}
use scriva.Xtx.Recovery.{resolve, has_missing, exists_in, has_foreign}
use scriva.Xtx.Discovery.Evidence.{Crashed, IsClean, AllOthers}
use scriva.Xtx.Discovery.Opening.{OthersResolve}
use scriva.Xtx.Discovery.Loading.{JournalSurvives, Ready}
use scriva.Xtx.Discovery.Crash.{IsAborted, AllWhole, recovered, Atomic}
use scriva.Xtx.CrashSafety.{
  prepare_and_decide-Atomic, prepare_and_decide-prepared, prepare_and_decide-failed,
}

abbrev zeros : ℕ → Bytes
zeros zero = []
zeros (suc n) = 0 ∷ zeros n

-- two digests, by length
abbrev hash : Hash
hash = record {
  sha256_hex = λ b. if leb (length b) 40 then "short" else "long";
  decode_hex = λ s. some (zeros 32);
  text = λ s. [];
}

abbrev tx_id : String
tx_id = "0123456789abcdef-0000000000000001"

abbrev journal : XtxJournal
journal = record {
  epoch = "0123456789abcdef";
  table = new_table;
  records = [];
  lines = [];
  durable = 0;
  pending = (tx_id, "key") ∷ [];
  is_poisoned = false;
  is_closed = false;
}

-- a segment with one line of a single write
abbrev segment : Active
segment = record {
  lines = record { ref = record { id = 1; op = op_insert; rev = 1 }; t = ""; i = 0; n = 0 } ∷ [];
  durable = 1;
  is_sealed = false;
  is_poisoned = false;
}

abbrev runs : List XtxRun
runs =
    record {
      col = "accounts";
      active = segment;
      entries =
          record { id = 1; op = op_update; rev = 2 }
          ∷ record { id = 2; op = op_insert; rev = 1 }
          ∷ [];
      start = none;
    }
    ∷ record {
      col = "orders";
      active = segment;
      entries = record { id = 7; op = op_insert; rev = 1 } ∷ [];
      start = none;
    }
    ∷ []

abbrev good_journal : JournalIo
good_journal = record { line = line_written; synced = true }

abbrev good_disk : PrepareIo
good_disk = record {
  append = λ c i. stamped_written;
  synced = λ c. true;
  truncated = λ c. true;
  commit_io = good_journal;
  abort_io = good_journal;
  has_broker = false;
}

runs-IsClean : All (IsClean hash tx_id) runs
unfolding run_of
runs-IsClean = (refl, (refl, tt))

journal-Ready : Ready hash tx_id "key" none journal
unfolding load lookup belongs parse_tx_id is_lower_hex
journal-Ready = record {
  durable = refl;
  loads = refl;
  fresh = refl;
  own = refl;
  short = refl;
  binding = tt;
}

-- the stamped lines of the two runs
abbrev stamped_accounts : List StampedEntry
stamped_accounts =
    record { ref = record { id = 1; op = op_update; rev = 2 }; t = tx_id; i = 0; n = 2 }
    ∷ record { ref = record { id = 2; op = op_insert; rev = 1 }; t = tx_id; i = 1; n = 2 }
    ∷ []

abbrev stamped_orders : List StampedEntry
stamped_orders =
    record { ref = record { id = 7; op = op_insert; rev = 1 }; t = tx_id; i = 0; n = 1 } ∷ []

abbrev decided : XtxRecord
decided = record {
  k = "commit";
  tx = tx_id;
  key = "key";
  parts =
      record { c = "accounts"; n = 2; d = "long" }
      ∷ record { c = "orders"; n = 1; d = "short" }
      ∷ [];
  pd = "long";
  why = "";
  o = "";
  rl = 0;
  rt = "";
  rd = "";
}

abbrev all_there : List (String × List StampedEntry)
all_there =
    ("accounts", segment.lines ++ stamped_accounts)
    ∷ ("orders", segment.lines ++ stamped_orders)
    ∷ []

-- a collection that takes no part
abbrev others : List (String × List StampedEntry)
others = ("logs", segment.lines) ∷ []

others-AllOthers : AllOthers hash tx_id others
unfolding run_of
others-AllOthers = (refl, tt)

no_lines : run_of tx_id [] ≡ []
unfolding run_of
no_lines = refl

-- What a commit left: its journal's lines, and the collections behind the crash.
abbrev Left : PrepareIo → List XtxRecord → List (String × List StampedEntry) → Type 0
Left io ls cols =
    JournalSurvives (prepare_and_decide hash io "key" tx_id runs none journal).1 ls
    × Crashed hash tx_id (prepare_and_decide hash io "key" tx_id runs none journal).0 cols

abbrev offsets : List (String × List ℕ)
offsets = ("accounts", 1 ∷ 2 ∷ []) ∷ ("orders", 1 ∷ []) ∷ []

good-Left :
    ((prepare_and_decide hash good_disk "key" tx_id runs none journal).2 ≡ prepared offsets)
    × Left good_disk (decided ∷ []) all_there
unfolding prepare_and_decide append_runs append_run append_stamped write_stamped chain_append
    chain_run after_appends sync_runs sync_run chain_sync after_runs_sync after_decision
    commit_prepared_bound commit_locked usable bind_refused append_line after_commit_append
    sync_locked after_commit_sync install_locked validate_parts ascending parts_digest parts_bytes
    raw_digest part_digest digest_bytes little_endian apply apply_to apply_kind apply_commit
    apply_binding apply_key outcome_of lookup dict_insert dict_remove
good-Left = (
  refl,
  (
    record { kept = 1; enough = omega arith; lines = refl },
    (
      record {
        name = refl;
        sealed = [];
        unstamped = no_lines;
        live = segment.lines ++ stamped_accounts;
        rest = record { kept = 3; enough = omega arith; lines = refl };
        lines = refl;
      },
      (
        record {
          name = refl;
          sealed = [];
          unstamped = no_lines;
          live = segment.lines ++ stamped_orders;
          rest = record { kept = 2; enough = omega arith; lines = refl };
          lines = refl;
        },
        tt,
      ),
    ),
  ),
)

prepare_and_decide-prepared_example :
    (recovered hash good_disk "key" tx_id runs none journal (decided ∷ []) all_there others
      ≡ some recovered_committed)
    × AllWhole tx_id runs all_there
prepare_and_decide-prepared_example =
    prepare_and_decide-prepared hash good_disk "key" tx_id runs none journal journal-Ready
      runs-IsClean (decided ∷ []) all_there others others-AllOthers offsets good-Left.0
      good-Left.1.0 good-Left.1.1

runs_valid : validate_parts hash (map (part_of hash) runs) ≡ true
unfolding validate_parts ascending raw_digest part_digest digest_bytes little_endian
runs_valid = refl

takes_writes : (usable journal ≡ none) × (lookup tx_id journal.table.by_tx ≡ none)
unfolding usable lookup
takes_writes = (refl, refl)

unbound : bind_refused none journal.table ≡ none
unfolding bind_refused
unbound = refl

prepare_and_decide-commits_example :
    (offsets : List (String × List ℕ)) × ((prepare_and_decide hash good_disk "key" tx_id runs none
        journal).2
      ≡ prepared offsets)
prepare_and_decide-commits_example =
    prepare_and_decide-commits hash good_disk "key" tx_id runs none journal (λ c i. refl)
      (λ c. refl) refl refl ((refl, refl), ((refl, refl), tt)) takes_writes.0 unbound takes_writes.1
      refl runs_valid

-- the fsync of the journal fails, and the crash takes the commit record
abbrev doubtful_disk : PrepareIo
doubtful_disk = record good_disk { commit_io = record { line = line_written; synced = false } }

doubtful-Left : Left doubtful_disk [] all_there
unfolding prepare_and_decide append_runs append_run append_stamped write_stamped chain_append
    chain_run after_appends sync_runs sync_run chain_sync after_runs_sync after_decision
    commit_prepared_bound commit_locked usable bind_refused append_line after_commit_append
    sync_locked after_commit_sync install_locked validate_parts ascending parts_digest parts_bytes
    raw_digest part_digest digest_bytes little_endian apply apply_to apply_kind apply_commit
    apply_binding apply_key outcome_of lookup dict_insert dict_remove
doubtful-Left = (
  record { kept = 0; enough = omega arith; lines = refl },
  (
    record {
      name = refl;
      sealed = [];
      unstamped = no_lines;
      live = segment.lines ++ stamped_accounts;
      rest = record { kept = 3; enough = omega arith; lines = refl };
      lines = refl;
    },
    (
      record {
        name = refl;
        sealed = [];
        unstamped = no_lines;
        live = segment.lines ++ stamped_orders;
        rest = record { kept = 2; enough = omega arith; lines = refl };
        lines = refl;
      },
      tt,
    ),
  ),
)

-- an empty journal refuses nothing
nothing_decided :
    (cols : List (String × List StampedEntry)) → OthersResolve hash tx_id journal.table cols
unfolding recover_tx lookup
nothing_decided cols x other = ground arith

prepare_and_decide-Atomic_example :
    Atomic hash doubtful_disk "key" tx_id runs none journal [] all_there others
prepare_and_decide-Atomic_example =
    prepare_and_decide-Atomic hash doubtful_disk "key" tx_id runs none journal journal-Ready
      runs-IsClean [] all_there others others-AllOthers (λ h. cc h)
      (nothing_decided (all_there ++ others)) doubtful-Left.0 doubtful-Left.1

-- The first write to the second segment fails, no truncation succeeds, and the abort record is lost:
-- the run of the first collection stays.
abbrev failing_disk : PrepareIo
failing_disk = record {
  append = λ c i. if c == "orders" then stamped_failed false false else stamped_written;
  synced = λ c. true;
  truncated = λ c. false;
  commit_io = good_journal;
  abort_io = record { line = line_failed false false; synced = false };
  has_broker = false;
}

failing_left :
    ((prepare_and_decide hash failing_disk "key" tx_id runs none journal).2 ≡ durability_error)
    × JournalSurvives (prepare_and_decide hash failing_disk "key" tx_id runs none journal).1 []
unfolding prepare_and_decide append_runs append_run append_stamped write_stamped chain_append
    chain_run after_appends give_up abort usable belongs parse_tx_id is_lower_hex lookup abort_known
    append_decision_locked append_line after_abort_append rollback_lines
failing_left = (refl, record { kept = 0; enough = omega arith; lines = refl })

prepare_and_decide-failed_example :
    IsAborted (decided_at tx_id (recover_crashed hash "0123456789abcdef" [] all_there))
prepare_and_decide-failed_example =
    prepare_and_decide-failed hash failing_disk "key" tx_id runs none journal journal-Ready []
      all_there (λ h. cc h) (nothing_decided all_there) failing_left.0 failing_left.1

-- The commit record is written whole with an error and its truncation fails: the runs are rolled back,
-- the commit is refused, the record may survive, and recovery then refuses the open.
abbrev stranding_disk : PrepareIo
stranding_disk = record good_disk {
  commit_io = record { line = line_failed true false; synced = false };
}

abbrev rolled_back : List (String × List StampedEntry)
rolled_back = ("accounts", segment.lines) ∷ ("orders", segment.lines) ∷ []

stranded-Left :
    ((prepare_and_decide hash stranding_disk "key" tx_id runs none journal).2 ≡ durability_error)
    × Left stranding_disk (decided ∷ []) rolled_back
unfolding prepare_and_decide append_runs append_run append_stamped write_stamped chain_append
    chain_run after_appends sync_runs sync_run chain_sync after_runs_sync after_decision
    commit_prepared_bound commit_locked usable bind_refused append_line after_commit_append
    validate_parts ascending parts_digest parts_bytes raw_digest part_digest digest_bytes
    little_endian lookup dict_remove give_up abort rollback_run rollback_active rollback_lines
stranded-Left = (
  refl,
  (
    record { kept = 1; enough = omega arith; lines = refl },
    (
      record {
        name = refl;
        sealed = [];
        unstamped = no_lines;
        live = segment.lines;
        rest = record { kept = 1; enough = omega arith; lines = refl };
        lines = refl;
      },
      (
        record {
          name = refl;
          sealed = [];
          unstamped = no_lines;
          live = segment.lines;
          rest = record { kept = 1; enough = omega arith; lines = refl };
          lines = refl;
        },
        tt,
      ),
    ),
  ),
)

stranded_refused : recover_crashed hash "0123456789abcdef" (decided ∷ []) rolled_back ≡ none
unfolding recover_crashed load check_record check_kind check_commit belongs parse_tx_id is_lower_hex
    validate_parts ascending parts_digest parts_bytes raw_digest apply apply_to apply_kind
    apply_commit apply_binding lookup little_endian apply_key recover_tx recover_decided
    recover_commit check_runs discover evidence_of run_of resolve_all add_decided add_evidence
    add_stamped add_id dict_insert outcome_of has_missing exists_in has_foreign
stranded_refused = refl

abbrev loaded : XtxTable
loaded = (apply decided new_table).0

decided-loads : load hash "0123456789abcdef" (decided ∷ []) new_table ≡ some loaded
unfolding load check_record check_kind check_commit belongs parse_tx_id is_lower_hex validate_parts
    ascending parts_digest parts_bytes raw_digest apply apply_to apply_kind apply_commit
    apply_binding lookup little_endian apply_key
decided-loads = refl

load-decisions_example :
    (ds : Dict String Decision) × (decisions (map spec (decided ∷ [])) ≡ ok ds)
    × (decision_at tx_id ds ≡ table_decision (lookup tx_id loaded.by_tx))
load-decisions_example =
    load-decisions hash "0123456789abcdef" (decided ∷ []) loaded tx_id decided-loads

-- the run of the second collection is lost
abbrev orders_lost : List (String × List StampedEntry)
orders_lost = ("accounts", segment.lines ++ stamped_accounts) ∷ ("orders", segment.lines) ∷ []

recover_tx-resolve_example :
    (resolve (
      input_of
        (lookup tx_id loaded.by_tx)
        (existing_of orders_lost)
        (discover hash tx_id orders_lost)
        false)).outcome
    ≡ outcome_of_resolution (
        recover_tx
          (lookup tx_id loaded.by_tx)
          (existing_of orders_lost)
          (discover hash tx_id orders_lost))
recover_tx-resolve_example =
    recover_tx-resolve hash (lookup tx_id loaded.by_tx) tx_id orders_lost (existing_of orders_lost)
      false
