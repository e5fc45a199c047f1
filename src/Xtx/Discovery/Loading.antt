-- ===== src/Xtx/Discovery/Loading.antt =====
-- The open of a journal that a crash left behind a commit: what it decides for the transaction.
use Prim.Native.String.{len}
use scriva.Prelude.{
  ℕ, zero, suc, ◌==◌, string_eq, nat_eq, beq_refl, beq_iff, Bool, true, false, Option, none, some,
  List, [], ◌∷◌, ◌++◌, lookup, length, take, leb, if_true, if_false, Dict, String, ◌≡◌, refl, sym,
  ap, ◌∙◌, subst, arith, ◌⊎◌, inl, inr, ◌≤◌, is_some,
}
use scriva.Xtx.Journal.{Part, kind_commit, kind_abort}
use scriva.Xtx.Recovery.{Run}
use scriva.Xtx.Coordinator.{XtxRecord, XtxDecision, XtxTable, new_table, apply}
use scriva.Xtx.Coordinator.Validation.{
  Hash, belongs, max_key_len, raw_digest, validate_parts, parts_digest, is_digest, check_commit,
  check_kind, check_record, load,
}
use scriva.Xtx.Coordinator.Deciding.{
  XtxJournal, XtxReplBind, new_record, commit_record, bind_refused,
}
use scriva.Xtx.Coordinator.Deciding.Settling.{commit-Installed, abort-Installed, apply-others}
use scriva.Xtx.Prepare.{StampedEntry}
use scriva.Xtx.Discovery.Opening.{Resolved}
use scriva.Xtx.Discovery.{
  recovered_aborted, recover_commit, recover_decided, recover_tx, discover, existing_of, Resolution,
}

-- What a crash leaves of the journal: its first lines, and all that were flushed.
pub record JournalSurvives (j : XtxJournal) (ls : List XtxRecord) : Type 0 where
  pub kept : ℕ
  pub enough : j.durable ≤ kept
  pub lines : ls ≡ take kept j.lines

pub take-last {ℓ} :
    {A : Type ℓ} (k : ℕ) (xs : List A) (x : A)
    → length xs ≤ k
    → (take k (xs ++ x ∷ []) ≡ xs) ⊎ (take k (xs ++ x ∷ []) ≡ (xs ++ x ∷ []))
take-last zero [] x h = inl refl
take-last (suc zero) [] x h = inr refl
take-last (suc (suc k)) [] x h = inr refl
take-last zero (y ∷ xs) x h = let bad : ⊥ = ground (arith, h) in elim bad [ ]
take-last (suc k) (y ∷ xs) x h = elim (take-last k xs x (omega (arith, h))) [
  | inl e ↦ inl (ap (λ zs. y ∷ zs) e)
  | inr e ↦ inr (ap (λ zs. y ∷ zs) e)
]

-- the binding as decodeXTxRecord wants it
abbrev pub IsWellFormed : Hash → Option XtxReplBind → Type 0
IsWellFormed H none = Unit
IsWellFormed H (some b) = (leb (len b.lead_tx) 64 ≡ true) × (is_some (raw_digest H b.digest) ≡ true)

-- A settled journal: every line is flushed and the lines load to the table. It does not know the
-- transaction, whose id is of its epoch, whose key is not too long and whose binding is well formed.
pub record Ready (H : Hash) (tx key : String) (bind : Option XtxReplBind) (j : XtxJournal)
    : Type 0 where
  pub durable : j.durable ≡ length j.lines
  pub loads : load H j.epoch j.lines new_table ≡ some j.table
  pub fresh : lookup tx j.table.by_tx ≡ none
  pub own : belongs j.epoch tx ≡ true
  pub short : leb (len key) max_key_len ≡ true
  pub binding : IsWellFormed H bind

recover_decided-abort :
    (d : XtxDecision) (ex : Dict String Bool) (ev : Dict String Run)
    → d.outcome ≡ kind_abort
    → d.retired ≡ false
    → recover_decided d ex ev ≡ recovered_aborted
unfolding recover_decided
recover_decided-abort d ex ev o live =
    let other : (d.outcome == kind_commit) ≡ false = ap (λ x. x == kind_commit) o in
    ground (arith, other, live)

recover_decided-commit :
    (d : XtxDecision) (parts : List Part) (ex : Dict String Bool) (ev : Dict String Run)
    → d.outcome ≡ kind_commit
    → d.retired ≡ false
    → d.parts ≡ parts
    → recover_decided d ex ev ≡ recover_commit parts ex ev
unfolding recover_decided
recover_decided-commit d parts ex ev o live ps =
    let same : (d.outcome == kind_commit) ≡ true = ap (λ x. x == kind_commit) o in
    if_true (d.outcome == kind_commit) _ _ same
    ∙ if_false d.retired _ _ live
    ∙ ap (λ q. recover_commit q ex ev) ps

beq-flip : (x y : String) → (x == y) ≡ false → (y == x) ≡ false
beq-flip x y h = ground (arith, h, beq_iff x y, beq_iff y x)

module _ (H : Hash) where
  load-last :
      (epoch : String) (rs : List XtxRecord) (r : XtxRecord) (t u : XtxTable)
      → load H epoch rs t ≡ some u
      → check_record H epoch r ≡ true
      → (apply r u).1 ≡ none
      → load H epoch (rs ++ r ∷ []) t ≡ some (apply r u).0
  unfolding load
  load-last epoch [] r t u h c a =
      let same : t ≡ u = cc h in
      subst (λ (x : XtxTable). load H epoch (r ∷ []) x ≡ some (apply r u).0) (sym same)
        (ground (arith, c, a))
  load-last epoch (x ∷ rs) r t u h c a =
      ground (arith, h, load-last epoch rs r (apply x t).0 u, c, a)

  check-commit_record :
      (epoch tx key pd : String) (parts : List Part) (bind : Option XtxReplBind) (t : XtxTable)
      → belongs epoch tx ≡ true
      → leb (len key) max_key_len ≡ true
      → IsWellFormed H bind
      → bind_refused bind t ≡ none
      → validate_parts H parts ≡ true
      → parts_digest H parts ≡ some pd
      → check_record H epoch (commit_record tx key parts pd bind) ≡ true
  unfolding check_record check_kind check_commit bind_refused
  check-commit_record epoch tx key pd parts none t o s w b v d =
      ground (arith, o, s, v, ap (is_digest pd) d ∙ beq_refl pd)
  check-commit_record epoch tx key pd parts (some b) t o s w r v d =
      ground (arith, o, s, v, w.0, w.1, r, ap (is_digest pd) d ∙ beq_refl pd)

  check-abort_record :
      (epoch tx key : String)
      → belongs epoch tx ≡ true
      → leb (len key) max_key_len ≡ true
      → check_record H epoch (record (new_record kind_abort tx key) { why = "io" }) ≡ true
  unfolding check_record check_kind
  check-abort_record epoch tx key o s = ground (arith, o, s)

  -- a record at the end of the lines of a settled journal
  last-Resolved :
      (tx : String) (j : XtxJournal) (cols : List (String × List StampedEntry)) (r : XtxRecord)
      (d : XtxDecision) (o : Resolution)
      → load H j.epoch j.lines new_table ≡ some j.table
      → r.tx ≡ tx
      → check_record H j.epoch r ≡ true
      → (apply r j.table).1 ≡ none
      → lookup tx (apply r j.table).0.by_tx ≡ some d
      → recover_tx (some d) (existing_of cols) (discover H tx cols) ≡ o
      → Resolved H tx j cols (j.lines ++ r ∷ []) o
  last-Resolved tx j cols r d o loads same checked fine at own = record {
    table = (apply r j.table).0;
    loads = load-last j.epoch j.lines r new_table j.table loads checked fine;
    others = λ x other. apply-others r x (ap (λ y. y == x) same ∙ beq-flip x tx other) j.table;
    own = ap (λ e. recover_tx e (existing_of cols) (discover H tx cols)) at ∙ own;
  }

  module _ (tx key : String) (bind : Option XtxReplBind) (j : XtxJournal)
      (ready : Ready H tx key bind j) (cols : List (String × List StampedEntry)) where
    -- without its record the transaction is unknown
    pub recover-unrecorded :
        Resolved H tx j cols j.lines (recover_tx none (existing_of cols) (discover H tx cols))
    recover-unrecorded = record {
      table = j.table;
      loads = ready.loads;
      others = λ x other. refl;
      own = ap (λ d. recover_tx d (existing_of cols) (discover H tx cols)) ready.fresh;
    }

    pub recover-aborted :
        Resolved H tx j cols
          (j.lines ++ record (new_record kind_abort tx key) { why = "io" } ∷ [])
          recovered_aborted
    unfolding recover_tx recover_decided
    recover-aborted =
        let i = abort-Installed tx key "io" j.table ready.fresh in
        last-Resolved tx j cols (record (new_record kind_abort tx key) { why = "io" }) i.entry
          recovered_aborted ready.loads refl
          (check-abort_record j.epoch tx key ready.own ready.short) i.fine i.at
          (recover_decided-abort i.entry (existing_of cols) (discover H tx cols) i.outcome_at
            i.live)

    pub recover-committed :
        (parts : List Part) (pd : String)
        → parts_digest H parts ≡ some pd
        → validate_parts H parts ≡ true
        → bind_refused bind j.table ≡ none
        → Resolved H tx j cols
            (j.lines ++ commit_record tx key parts pd bind ∷ [])
            (recover_commit parts (existing_of cols) (discover H tx cols))
    unfolding recover_tx recover_decided
    recover-committed parts pd d v b =
        let i = commit-Installed tx key pd parts bind j.table ready.fresh b in
        last-Resolved tx j cols (commit_record tx key parts pd bind) i.entry
          (recover_commit parts (existing_of cols) (discover H tx cols)) ready.loads refl
          (check-commit_record j.epoch tx key pd parts bind j.table ready.own ready.short
            ready.binding b v d)
          i.fine i.at
          (recover_decided-commit i.entry parts (existing_of cols) (discover H tx cols) i.outcome_at
            i.live i.parts_at)
