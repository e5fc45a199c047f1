-- ===== src/Xtx/Discovery/Opening.antt =====
-- The open of a root as a whole: it resolves every transaction that left a trace, each by itself.
use scriva.Prelude.{
  ◌==◌, nat_eq, string_eq, beq_iff, Bool, true, false, ◌||◌, none, some, List, [], ◌∷◌, Dict,
  lookup, String, ◌≡◌, refl, sym, ap, ◌∙◌, arith, Bool-cases, inl, inr, if◌then◌else◌, if_true,
  if_false,
}
use scriva.Xtx.Coordinator.{XtxRecord, XtxDecision, XtxTable, new_table}
use scriva.Xtx.Coordinator.Validation.{Hash, parse_tx_id, belongs, load}
use scriva.Xtx.Coordinator.Deciding.{XtxJournal}
use scriva.Xtx.Prepare.{StampedEntry}
use scriva.Xtx.Discovery.{
  run_of, Resolution, skipped, recover_tx, evidence_of, discover, existing_of, refuses, add_id,
  add_decided, add_stamped, add_evidence, resolve_all, resolution_in, recover_one, recover_crashed,
  decided_at, or_skipped, add_run,
}

abbrev is_listed : String → List String → Bool
is_listed z [] = false
is_listed z (x ∷ xs) = x == z || is_listed z xs

is_listed-add_id :
    (z x : String) (ys : List String) → is_listed z (add_id x ys) ≡ (x == z || is_listed z ys)
unfolding add_id
is_listed-add_id z x [] = refl
is_listed-add_id z x (y ∷ ys) = ground (arith, is_listed-add_id z x ys, beq_iff y x)

-- An id that is not listed has no decision.
add_decided-unlisted :
    (z : String) (ds : Dict String XtxDecision) (ids : List String)
    → is_listed z (add_decided ds ids) ≡ false
    → (lookup z ds ≡ none) × (is_listed z ids ≡ false)
unfolding add_decided lookup
add_decided-unlisted z [] ids h = (refl, h)
add_decided-unlisted z ((x, d) ∷ ds) ids h =
    let both = sym (is_listed-add_id z x (add_decided ds ids)) ∙ h in
    let other : (x == z) ≡ false = ground (arith, both) in
    let rest : is_listed z (add_decided ds ids) ≡ false = ground (arith, both) in
    let (gone, before) = add_decided-unlisted z ds ids rest in (ground (arith, other, gone), before)

-- nor a line in any collection
add_stamped-unlisted :
    (z : String) (es : List StampedEntry) (ids : List String)
    → (z == "") ≡ false
    → is_listed z (add_stamped es ids) ≡ false
    → (run_of z es ≡ []) × (is_listed z ids ≡ false)
unfolding add_stamped run_of
add_stamped-unlisted z [] ids n h = (refl, h)
add_stamped-unlisted z (e ∷ es) ids n h = elim (Bool-cases (e.t == "")) [
  | inl bare ↦
      let rest : is_listed z (add_stamped es ids) ≡ false = ground (arith, h, bare) in
      let (gone, before) = add_stamped-unlisted z es ids n rest in
      let other : (e.t == z) ≡ false = ground (arith, n, bare, beq_iff e.t "", beq_iff e.t z) in
      (ground (arith, other, gone), before)
  | inr stamped ↦
      let added : is_listed z (add_id e.t (add_stamped es ids)) ≡ false =
        ground (arith, h, stamped) in
      let both = sym (is_listed-add_id z e.t (add_stamped es ids)) ∙ added in
      let other : (e.t == z) ≡ false = ground (arith, both) in
      let rest : is_listed z (add_stamped es ids) ≡ false = ground (arith, both) in
      let (gone, before) = add_stamped-unlisted z es ids n rest in
      (ground (arith, other, gone), before)
]

module _ (H : Hash) where
  discover-unlisted :
      (z : String) (cols : List (String × List StampedEntry)) (ids : List String)
      → (z == "") ≡ false
      → is_listed z (add_evidence cols ids) ≡ false
      → discover H z cols ≡ []
  unfolding add_evidence discover evidence_of
  discover-unlisted z [] ids n h = refl
  discover-unlisted z ((c, lines) ∷ cols) ids n h =
      let (gone, before) = add_stamped-unlisted z lines (add_evidence cols ids) n h in
      ap (λ es. add_run c (evidence_of H es) (discover H z cols)) gone
      ∙ discover-unlisted z cols ids n before

-- A loop in which nothing is refused resolves every listed id by itself.
resolve_all-lookup :
    (f : String → Resolution) (txs : List String)
    → ((x : String) → refuses (f x) ≡ false)
    → (rs : Dict String Resolution) × (resolve_all f txs ≡ some rs)
      × ((z : String) → lookup z rs ≡ (if is_listed z txs then some (f z) else none))
unfolding resolve_all lookup
resolve_all-lookup f [] fine = ([], refl, λ z. refl)
resolve_all-lookup f (x ∷ xs) fine =
    let (rs, done, at) = resolve_all-lookup f xs fine in
    (
      (x, f x) ∷ rs,
      rw (fine x, done) refl,
      λ z. elim (Bool-cases (x == z)) [
        | inl same ↦ rw same (ap (λ y. some (f y)) ((beq_iff x z).0 same))
        | inr other ↦ rw other (at z)
      ],
    )

-- Every other transaction resolves without a refusal.
abbrev pub OthersResolve : Hash → String → XtxTable → List (String × List StampedEntry) → Type 0
OthersResolve H tx t cols =
    (x : String) → (x == tx) ≡ false → refuses (resolution_in H t cols x) ≡ false

-- The lines load to a table that knows of the other transactions what the journal's table knows, and by
-- which the transaction resolves to `r`.
pub record Resolved (H : Hash) (tx : String) (j : XtxJournal)
    (cols : List (String × List StampedEntry)) (ls : List XtxRecord) (r : Resolution) : Type 0 where
  pub table : XtxTable
  pub loads : load H j.epoch ls new_table ≡ some table
  pub others : (x : String) → (x == tx) ≡ false → lookup x table.by_tx ≡ lookup x j.table.by_tx
  pub own : resolution_in H table cols tx ≡ r

belongs-named : (epoch tx : String) → belongs epoch tx ≡ true → (tx == "") ≡ false
unfolding belongs parse_tx_id
belongs-named epoch tx h = elim (Bool-cases (tx == "")) [
  | inl empty ↦
      let bad : false ≡ true = sym (ap (belongs epoch) ((beq_iff tx "").0 empty)) ∙ h in
      let no : ⊥ = cc bad in elim no [ ]
  | inr named ↦ named
]

module _ (H : Hash) (tx : String) (j : XtxJournal) (cols : List (String × List StampedEntry))
    (ls : List XtxRecord) (r : Resolution) (s : Resolved H tx j cols ls r) where
  -- the transaction by itself
  pub recover_one-Resolved : recover_one H j.epoch ls tx cols ≡ some r
  unfolding recover_one
  recover_one-Resolved = rw (s.loads, recover_one) (ap (λ x. some x) s.own)

  all_fine :
      OthersResolve H tx j.table cols
      → refuses r ≡ false
      → (x : String) → refuses (resolution_in H s.table cols x) ≡ false
  all_fine o fine x = elim (Bool-cases (x == tx)) [
    | inl same ↦
        ap (λ y. refuses (resolution_in H s.table cols y)) ((beq_iff x tx).0 same)
        ∙ ap refuses s.own
        ∙ fine
    | inr other ↦
        ap (λ d. refuses (recover_tx d (existing_of cols) (discover H x cols))) (s.others x other)
        ∙ o x other
  ]

  unlisted-skipped :
      belongs j.epoch tx ≡ true
      → is_listed tx (add_decided s.table.by_tx (add_evidence cols [])) ≡ false
      → skipped ≡ r
  unfolding recover_tx
  unlisted-skipped own h =
      let (gone, before) = add_decided-unlisted tx s.table.by_tx (add_evidence cols []) h in
      let lone = discover-unlisted H tx cols [] (belongs-named j.epoch tx own) before in
      sym (ap (λ ev. recover_tx none (existing_of cols) ev) lone)
      ∙ sym (ap (λ d. recover_tx d (existing_of cols) (discover H tx cols)) gone)
      ∙ s.own

  -- When no transaction is refused the open goes through, with the resolution of the transaction.
  pub recover_crashed-Resolved :
      belongs j.epoch tx ≡ true
      → OthersResolve H tx j.table cols
      → refuses r ≡ false
      → decided_at tx (recover_crashed H j.epoch ls cols) ≡ some r
  unfolding recover_crashed decided_at
  recover_crashed-Resolved own o fine =
      let ids = add_decided s.table.by_tx (add_evidence cols []) in
      let (rs, done, at) =
        resolve_all-lookup (resolution_in H s.table cols) ids (all_fine o fine) in
      let opened : recover_crashed H j.epoch ls cols ≡ some rs =
        rw (s.loads, recover_crashed) done in
      ap (decided_at tx) opened ∙ elim (Bool-cases (is_listed tx ids)) [
        | inl listed ↦
            ap (λ x. some (or_skipped x))
              (at tx ∙ if_true (is_listed tx ids) _ _ listed ∙ ap (λ x. some x) s.own)
        | inr unlisted ↦
            ap (λ x. some (or_skipped x)) (at tx ∙ if_false (is_listed tx ids) _ _ unlisted)
            ∙ ap (λ x. some x) (unlisted-skipped own unlisted)
      ]
