-- ===== src/Xtx/Coordinator.antt =====
-- engine/xtx_journal.go: the coordinator's journal, its decision table and its appends. The journal's
-- file is the list of its whole record lines, with how many of them were flushed. The proofs are in the modules below.
pub mod Validation
pub mod Views
pub mod Folding
pub mod Deciding
use Prim.Native.Char.{code}
use Prim.Native.String.{String, [] as nil, ◌∷◌ as cons, len, slice, compare as compare_strings}
use Prim.Native.Nat.{Ordering}
use scriva.Prelude.{
  ℕ, suc, ◌==◌, string_eq, nat_eq, Bool, true, false, not, ◌&&◌, ◌||◌, Option, none, some, List, [],
  ◌∷◌, ◌++◌, Dict, lookup, insert, remove, length, ltb, leb, if◌then◌else◌, if_true, is_some,
  bool_ne, ◌≡◌,
}
use scriva.Store.{Bytes, Op, op_bytes, little_endian}
use scriva.Xtx.Journal.{Part, kind_commit, kind_abort, kind_retire}

-- a record line; its timestamp and its checksum decide nothing here
pub record XtxRecord : Type 0 where
  pub k : String
  pub tx : String
  pub key : String
  pub parts : List Part
  pub pd : String
  pub why : String
  pub o : String
  pub rl : ℕ
  pub rt : String
  pub rd : String

pub record XtxDecision : Type 0 where
  pub key : String
  pub outcome : String
  pub retired : Bool
  pub why : String
  pub parts : List Part
  pub pd : String
  pub rl : ℕ
  pub rt : String
  pub rd : String

-- the table without `maxSeq`
pub record XtxTable : Type 0 where
  pub by_tx : Dict String XtxDecision
  pub by_key : Dict String String
  pub by_lsn : Dict ℕ String
  pub by_lead : Dict String String

pub data XtxError : Type 0 where
  outcome_conflict key_conflict content_conflict binding_conflict lsn_conflict : XtxError
  key_too_long invalid_parts incomplete_binding encode_failed closed : XtxError
  durability outcome_unknown unknown_reason foreign_tx : XtxError

abbrev pub new_table : XtxTable
new_table = record { by_tx = []; by_key = []; by_lsn = []; by_lead = [] }

unfoldable pub outcome_of : XtxRecord → String
outcome_of r = if r.k == kind_retire then r.o else r.k

abbrev pub put_decision : String → XtxDecision → XtxTable → XtxTable
put_decision tx d t = record t { by_tx = insert tx d t.by_tx }

abbrev pub same_binding : XtxRecord → XtxDecision → Bool
same_binding r d = d.rl == r.rl && d.rt == r.rt && d.rd == r.rd

abbrev pub bound_elsewhere : String → Option String → Bool
bound_elsewhere tx none = false
bound_elsewhere tx (some prev) = not (prev == tx)

-- the replication binding of a commit record, with the decision `d` in the table
unfoldable pub apply_binding : XtxRecord → XtxDecision → XtxTable → XtxTable × Option XtxError
apply_binding r d t =
    if r.rl == 0
    then (t, none)
    else if not (d.rl == 0) && not (same_binding r d)
    then (t, some binding_conflict)
    else if bound_elsewhere r.tx (lookup r.rl t.by_lsn)
    then (t, some lsn_conflict)
    else (
      record (put_decision r.tx (record d { rl = r.rl; rt = r.rt; rd = r.rd }) t) {
        by_lsn = insert r.rl r.tx t.by_lsn;
        by_lead = insert r.rt r.tx t.by_lead;
      },
      none,
    )

abbrev pub no_parts : List Part → Bool
no_parts [] = true
no_parts (p ∷ ps) = false

unfoldable pub apply_commit : XtxRecord → XtxDecision → XtxTable → XtxTable × Option XtxError
apply_commit r d t =
    if not (no_parts d.parts) || not (d.pd == "")
    then if d.pd == r.pd then apply_binding r d t else (t, some content_conflict)
    else let filled = record d { parts = r.parts; pd = r.pd } in
      apply_binding r filled (put_decision r.tx filled t)

-- the `switch` on the record's kind, with the decision `d` in the table
unfoldable pub apply_kind : XtxRecord → XtxDecision → XtxTable → XtxTable × Option XtxError
apply_kind r d t =
    if r.k == kind_commit
    then apply_commit r d t
    else if r.k == kind_abort
    then (if d.why == "" then put_decision r.tx (record d { why = r.why }) t else t, none)
    else if r.k == kind_retire
    then (put_decision r.tx (record d { retired = true }) t, none)
    else (t, none)

-- `t.byTx[prev].Outcome != commit`, on a key's transaction
abbrev lost_key : String → XtxTable → Option String → Bool
lost_key tx t none = true
lost_key tx t (some prev) =
    elim (lookup prev t.by_tx) [ none ↦ true | some d ↦ not (d.outcome == kind_commit) ]
    || prev == tx

unfoldable pub apply_key : XtxRecord → XtxTable × Option XtxError → XtxTable × Option XtxError
apply_key r (t, some x) = (t, some x)
apply_key r (t, none) = (
  if not (r.key == "") && lost_key r.tx t (lookup r.key t.by_key)
      then record t { by_key = insert r.key r.tx t.by_key }
      else t,
  none,
)

abbrev pub new_decision : XtxRecord → XtxDecision
new_decision r = record {
  key = r.key;
  outcome = outcome_of r;
  retired = false;
  why = "";
  parts = [];
  pd = "";
  rl = 0;
  rt = "";
  rd = "";
}

unfoldable pub apply_to : XtxRecord → Option XtxDecision → XtxTable → XtxTable × Option XtxError
apply_to r none t =
    apply_key r (apply_kind r (new_decision r) (put_decision r.tx (new_decision r) t))
apply_to r (some d) t =
    if not (d.outcome == outcome_of r)
    then (t, some outcome_conflict)
    else if not (d.key == r.key)
    then (t, some key_conflict)
    else apply_key r (apply_kind r d t)

-- xtxTable.apply
unfoldable pub apply : XtxRecord → XtxTable → XtxTable × Option XtxError
apply r t = apply_to r (lookup r.tx t.by_tx) t
