-- ===== src/Xtx/Discovery/Whole.antt =====
-- engine/xtx_recovery.go: a commit record that passed validateParts, with whole runs, is recovered as
-- committed.
use Prim.Native.Nat.{Ordering}
use Prim.Native.String.{compare as compare_strings}
use text.Mathlib.TextPositions.{compare_refl}
use scriva.Query.Comparing.{compare_strings_trans}
use scriva.Prelude.{
  ◌++◌, ◌==◌, nat_eq, string_eq, beq_refl, beq_iff, Bool, true, false, not, ◌||◌, Option, none,
  some, List, [], ◌∷◌, Dict, lookup, length, if_true, if_false, String, map, ◌≡◌, refl, sym, ap,
  ◌∙◌, subst, arith, All, All-map, Bool-cases, ◌⊎◌, inl, inr,
}
use scriva.Xtx.Journal.{Part}
use scriva.Xtx.Recovery.{Run, in_parts, has_foreign, exists_in, has_missing}
use scriva.Xtx.Coordinator.Validation.{
  OpRef, Hash, ascending, validate_parts, part_digest, comes_before,
}
use scriva.Xtx.Prepare.Durable.{append_nil}
use scriva.Xtx.Prepare.{XtxRun, uint32, part_of}
use scriva.Xtx.Discovery.{recovered_committed, check_runs, recover_commit}
use scriva.Xtx.Discovery.Evidence.{whole_run, found, HasEntries}

module _ (H : Hash) (tx : String) where
  abbrev pub parts : List XtxRun → List Part
  parts rs = map (part_of H) rs

  abbrev pub dirs : List XtxRun → Dict String Bool
  dirs rs = map (λ (r : XtxRun). (r.col, true)) rs

  -- in the order of validateParts
  comes_before-lt : (c d : String) → comes_before c d ≡ true → compare_strings c d ≡ Ordering.lt
  comes_before-lt c d h = ground (arith, h)

  comes_before_trans :
      (a b c : String) → comes_before a b ≡ true → comes_before b c ≡ true → comes_before a c ≡ true
  comes_before_trans a b c h k =
      let e = compare_strings_trans a b c (comes_before-lt a b h) (comes_before-lt b c k) in
      ground (arith, e)

  comes_before-differs : (a b : String) → comes_before a b ≡ true → (a == b) ≡ false
  comes_before-differs a b h = elim (Bool-cases (a == b)) [
    | inl same ↦
        let e : a ≡ b = (beq_iff a b).0 same in
        let bad : Ordering.eq ≡ Ordering.lt =
          sym (compare_refl a) ∙ ap (λ x. compare_strings a x) e ∙ comes_before-lt a b h in
        let no : ⊥ = cc bad in elim no [ ]
    | inr other ↦ other
  ]

  -- what the loop of validateParts tested of the first part
  record Passed (prev : Option String) (r : XtxRun) (rs : List XtxRun) : Type 0 where
    count : (uint32 (length r.entries) == 0) ≡ false
    ahead : (c : String) → prev ≡ some c → comes_before c r.col ≡ true
    rest : ascending H (some r.col) (parts rs) ≡ true

  ascending-Passed :
      (prev : Option String) (r : XtxRun) (rs : List XtxRun)
      → ascending H prev (parts (r ∷ rs)) ≡ true
      → Passed prev r rs
  unfolding ascending
  ascending-Passed none r rs h = record {
    count = ground (arith, h);
    ahead = λ c e. let bad : ⊥ = cc e in elim bad [ ];
    rest = ground (arith, h);
  }
  ascending-Passed (some c) r rs h = record {
    count = ground (arith, h);
    ahead = λ d e.
        let same : c ≡ d = cc e in
        subst (λ x. comes_before x r.col ≡ true) same (ground (arith, h));
    rest = ground (arith, h);
  }

  -- every later collection has another name
  ascending-apart :
      (a c : String) (rs : List XtxRun)
      → (a ≡ c) ⊎ (comes_before a c ≡ true)
      → ascending H (some c) (parts rs) ≡ true
      → All (λ (r : XtxRun). (a == r.col) ≡ false) rs
  unfolding ascending
  ascending-apart a c [] le h = tt
  ascending-apart a c (r ∷ rs) le h =
      let p = ascending-Passed (some c) r rs h in
      let before : comes_before a r.col ≡ true = elim le [
        | inl e ↦ subst (λ x. comes_before x r.col ≡ true) (sym e) (p.ahead c refl)
        | inr lt ↦ comes_before_trans a c r.col lt (p.ahead c refl)
      ] in
      (comes_before-differs a r.col before, ascending-apart a r.col rs (inr before) p.rest)

  -- the entry that a collection has in a map
  abbrev Own {ℓ} : {V : Type ℓ} → (XtxRun → V) → Dict String V → XtxRun → Type ℓ
  Own f m r = lookup r.col m ≡ some (f r)

  Own-behind {ℓ} :
      {V : Type ℓ} (f : XtxRun → V) (c : String) (v : V) (m : Dict String V) (rs : List XtxRun)
      → All (λ (r : XtxRun). (c == r.col) ≡ false) rs
      → All (Own f m) rs
      → All (Own f ((c, v) ∷ m)) rs
  unfolding lookup
  Own-behind f c v m [] apart own = tt
  Own-behind f c v m (r ∷ rs) apart own = (
    if_false (c == r.col) (some v) (lookup r.col m) apart.0 ∙ own.0,
    Own-behind f c v m rs apart.1 own.1,
  )

  map-Own {ℓ} :
      {V : Type ℓ} (f : XtxRun → V) (prev : Option String) (rs : List XtxRun) (more : Dict String V)
      → ascending H prev (parts rs) ≡ true
      → All (Own f (map (λ (s : XtxRun). (s.col, f s)) rs ++ more)) rs
  unfolding lookup
  map-Own f prev [] more h = tt
  map-Own f prev (r ∷ rs) more h =
      let p = ascending-Passed prev r rs h in
      let m = map (λ (s : XtxRun). (s.col, f s)) rs ++ more in
      (
        if_true (r.col == r.col) (some (f r)) (lookup r.col m) (beq_refl r.col),
        Own-behind f r.col (f r) m rs (ascending-apart r.col r.col rs (inl refl) p.rest)
            (map-Own f (some r.col) rs more p.rest),
      )

  has_missing-dirs :
      (rs : List XtxRun) (ex : Dict String Bool)
      → All (Own (λ r. true) ex) rs
      → has_missing (parts rs) ex ≡ false
  unfolding has_missing exists_in
  has_missing-dirs [] ex h = refl
  has_missing-dirs (r ∷ rs) ex h = ground (arith, h.0, has_missing-dirs rs ex h.1)

  check_runs-whole :
      (rs : List XtxRun) (ev : Dict String Run)
      → All (Own (λ (r : XtxRun). whole_run H tx r.entries) ev) rs
      → check_runs (parts rs) ev ≡ recovered_committed
  unfolding check_runs
  check_runs-whole [] ev h = refl
  check_runs-whole (r ∷ rs) ev h =
      rw (h.0, check_runs)
        (if_false (not (uint32 (length r.entries) == uint32 (length r.entries))) _ _
            (ap not (beq_refl (uint32 (length r.entries))))
          ∙ if_false (not (part_digest H r.entries == part_digest H r.entries)) _ _
              (ap not (beq_refl (part_digest H r.entries)))
          ∙ check_runs-whole rs ev h.1)

  InParts : List Part → XtxRun → Type 0
  InParts ps r = in_parts r.col ps ≡ true

  parts-InParts : (rs : List XtxRun) → All (InParts (parts rs)) rs
  unfolding InParts in_parts
  parts-InParts [] = tt
  parts-InParts (r ∷ rs) = (
    ap (λ b. b || in_parts r.col (parts rs)) (beq_refl r.col),
    All-map rs (λ s h. ground (arith, h)) (parts-InParts rs),
  )

  has_foreign-found :
      (ps : List Part) (rs : List XtxRun)
      → All (InParts ps) rs
      → has_foreign ps (found H tx rs) ≡ false
  unfolding InParts has_foreign
  has_foreign-found ps [] h = refl
  has_foreign-found ps (r ∷ rs) h = ground (arith, h.0, has_foreign-found ps rs h.1)

  counted :
      (r : XtxRun) (es : List OpRef)
      → r.entries ≡ es
      → (uint32 (length r.entries) == 0) ≡ false
      → HasEntries H tx r
  counted r [] e h =
      let bad : true ≡ false = sym (ap (λ (xs : List OpRef). uint32 (length xs) == 0) e) ∙ h in
      let no : ⊥ = cc bad in elim no [ ]
  counted r (x ∷ es) e h = (x, es, e)

  -- validated parts are of runs with entries
  ascending-HasEntries :
      (prev : Option String) (rs : List XtxRun)
      → ascending H prev (parts rs) ≡ true
      → All (HasEntries H tx) rs
  ascending-HasEntries prev [] h = tt
  ascending-HasEntries prev (r ∷ rs) h =
      let p = ascending-Passed prev r rs h in
      (counted r r.entries refl p.count, ascending-HasEntries (some r.col) rs p.rest)

  -- A commit record whose parts passed validateParts is recovered as committed from whole runs.
  pub recover_commit-whole :
      (rs : List XtxRun) (more : Dict String Bool)
      → validate_parts H (parts rs) ≡ true
      → All (HasEntries H tx) rs
        × (recover_commit (parts rs) (dirs rs ++ more) (found H tx rs) ≡ recovered_committed)
  unfolding validate_parts recover_commit
  recover_commit-whole rs more h =
      let sorted : ascending H none (parts rs) ≡ true = ground (arith, h) in
      let f : XtxRun → Run = λ r. whole_run H tx r.entries in
      let own : All (Own f (found H tx rs)) rs =
        subst (λ (m : Dict String Run). All (Own f m) rs) (append_nil (found H tx rs))
          (map-Own f none rs [] sorted) in
      (
        ascending-HasEntries none rs sorted,
        if_false (has_missing (parts rs) (dirs rs ++ more)) _ _
              (has_missing-dirs rs (dirs rs ++ more) (map-Own (λ r. true) none rs more sorted))
            ∙ if_false (has_foreign (parts rs) (found H tx rs)) _ _
                (has_foreign-found (parts rs) rs (parts-InParts rs))
            ∙ check_runs-whole rs (found H tx rs) own,
      )
