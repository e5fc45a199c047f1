-- ===== src/Xtx/Discovery/Evidence.antt =====
-- engine/xtx_recovery.go: the evidence of a transaction whose runs are whole.
use scriva.Prelude.{
  ℕ, zero, suc, ◌==◌, nat_eq, string_eq, beq_refl, Bool, true, false, ◌&&◌, Option, some, List, [],
  ◌∷◌, ◌++◌, Dict, length, take, if_true, String, map, ◌≡◌, refl, sym, ap, ◌∙◌, subst, arith, ◌≤◌,
  All, inl, inr,
}
use scriva.Xtx.Recovery.{Run}
use scriva.Xtx.Coordinator.Validation.{OpRef, Hash, part_digest}
use scriva.Xtx.Prepare.{StampedEntry, Active, XtxRun, uint32, stamped}
use scriva.Xtx.Prepare.Durable.{All2, stamps, whole_lines, Flushed}
use scriva.Xtx.Discovery.{run_of, in_order, evidence_of, add_run, discover, existing_of}

-- What a crash leaves of a segment: its first lines, and all that were flushed.
pub record Survives (s : Active) (ls : List StampedEntry) : Type 0 where
  pub kept : ℕ
  pub enough : s.durable ≤ kept
  pub lines : ls ≡ take kept s.lines

pub take-all {ℓ} : {A : Type ℓ} (k : ℕ) (xs : List A) → length xs ≤ k → take k xs ≡ xs
take-all zero [] h = refl
take-all (suc k) [] h = refl
take-all zero (x ∷ xs) h = let bad : ⊥ = ground (arith, h) in elim bad [ ]
take-all (suc k) (x ∷ xs) h = ap (λ ys. x ∷ ys) (take-all k xs (omega (arith, h)))

pub Survives-all :
    (s : Active) (ls : List StampedEntry)
    → Survives s ls
    → s.durable ≡ length s.lines
    → ls ≡ s.lines
Survives-all s ls v h = v.lines ∙ take-all v.kept s.lines (subst (λ n. n ≤ v.kept) h v.enough)

run_of-append :
    (tx : String) (xs ys : List StampedEntry)
    → run_of tx (xs ++ ys) ≡ (run_of tx xs ++ run_of tx ys)
unfolding run_of
run_of-append tx [] ys = refl
run_of-append tx (x ∷ xs) ys = ground (arith, run_of-append tx xs ys)

run_of-stamps :
    (tx : String) (n i : ℕ) (rs : List OpRef) → run_of tx (stamps tx n i rs) ≡ stamps tx n i rs
unfolding run_of
run_of-stamps tx n i [] = refl
run_of-stamps tx n i (r ∷ rs) =
    if_true (tx == tx) _ _ (beq_refl tx)
    ∙ ap (λ es. stamped tx n i r ∷ es) (run_of-stamps tx n (suc i) rs)

in_order-stamps : (tx : String) (n i : ℕ) (rs : List OpRef) → in_order n i (stamps tx n i rs) ≡ true
unfolding in_order
in_order-stamps tx n i [] = refl
in_order-stamps tx n i (r ∷ rs) =
    ground (arith, beq_refl (uint32 i), beq_refl n, in_order-stamps tx n (suc i) rs)

length-stamps : (tx : String) (n i : ℕ) (rs : List OpRef) → length (stamps tx n i rs) ≡ length rs
length-stamps tx n i [] = refl
length-stamps tx n i (r ∷ rs) = ap suc (length-stamps tx n (suc i) rs)

refs-stamps :
    (tx : String) (n i : ℕ) (rs : List OpRef)
    → map (λ (x : StampedEntry). x.ref) (stamps tx n i rs) ≡ rs
refs-stamps tx n i [] = refl
refs-stamps tx n i (r ∷ rs) = ap (λ es. r ∷ es) (refs-stamps tx n (suc i) rs)

module _ (H : Hash) (tx : String) where
  abbrev run_record : Bool → ℕ → String → Option Run
  run_record b n d = some (record { complete = b; n = n; digest = d; destamped = false })

  -- the evidence of a whole run
  abbrev pub whole_run : List OpRef → Run
  whole_run rs = record {
    complete = true;
    n = uint32 (length rs);
    digest = part_digest H rs;
    destamped = false;
  }

  evidence_of-stamps :
      (r : OpRef) (rs : List OpRef)
      → evidence_of H (stamps tx (uint32 (length (r ∷ rs))) 0 (r ∷ rs)) ≡ some (whole_run (r ∷ rs))
  unfolding evidence_of
  evidence_of-stamps r rs =
      let m = uint32 (length (r ∷ rs)) in
      let ls = stamps tx m 0 (r ∷ rs) in
      let count : uint32 (length ls) ≡ m = ap uint32 (length-stamps tx m 0 (r ∷ rs)) in
      let ordered : (uint32 (length ls) == m && in_order m 0 ls) ≡ true =
        ap (λ n. n == m && in_order m 0 ls) count
        ∙ ap (λ b. b && in_order m 0 ls) (beq_refl m)
        ∙ in_order-stamps tx m 0 (r ∷ rs) in
      ap
        (λ b.
          run_record b (uint32 (length ls)) (part_digest H (map (λ (x : StampedEntry). x.ref) ls)))
        ordered
      ∙ ap (λ n. run_record true n (part_digest H (map (λ (x : StampedEntry). x.ref) ls))) count
      ∙ ap (λ es. run_record true m (part_digest H es)) (refs-stamps tx m 0 (r ∷ rs))

  -- no line of the transaction stands in the segment yet
  abbrev pub IsClean : XtxRun → Type 0
  IsClean r = run_of tx r.active.lines ≡ []

  abbrev pub HasEntries : XtxRun → Type 0
  HasEntries r = (e : OpRef) × (es : List OpRef) × (r.entries ≡ e ∷ es)

  -- What a crash leaves of a participant, as a collection with its lines: the sealed segments, in which
  -- the transaction has no line, and what is left of the active one.
  pub record LeftOver (q : XtxRun) (c : String × List StampedEntry) : Type 0 where
    pub name : c.0 ≡ q.col
    pub sealed : List StampedEntry
    pub unstamped : run_of tx sealed ≡ []
    pub live : List StampedEntry
    pub rest : Survives q.active live
    pub lines : c.1 ≡ (sealed ++ live)

  abbrev pub Crashed : List XtxRun → List (String × List StampedEntry) → Type 0
  Crashed = All2 LeftOver

  -- The transaction has no line in the other collections.
  abbrev pub AllOthers : List (String × List StampedEntry) → Type 0
  AllOthers = All (λ c. run_of tx c.1 ≡ [])

  -- after any crash the segment holds the whole run
  pub Flushed-lines :
      (r q : XtxRun) (ls : List StampedEntry)
      → HasEntries r
      → Flushed tx r q
      → Survives q.active ls
      → ls ≡ whole_lines tx r
  Flushed-lines r q ls (e, es, some_entries) f v = elim f.flushed [
    | inl none_left ↦ let bad : ⊥ = cc (sym none_left ∙ some_entries) in elim bad [ ]
    | inr all ↦ Survives-all q.active ls v all ∙ f.lines
  ]

  evidence_of-Flushed :
      (r q : XtxRun) (c : String × List StampedEntry)
      → IsClean r
      → HasEntries r
      → Flushed tx r q
      → LeftOver q c
      → evidence_of H (run_of tx c.1) ≡ some (whole_run r.entries)
  evidence_of-Flushed r q c clean (e, es, at) f v =
      let run = stamps tx (uint32 (length r.entries)) 0 r.entries in
      ap (λ xs. evidence_of H (run_of tx xs))
        (v.lines ∙ ap (λ xs. v.sealed ++ xs) (Flushed-lines r q v.live (e, es, at) f v.rest))
      ∙ ap (evidence_of H) (
          run_of-append tx v.sealed (whole_lines tx r)
          ∙ ap (λ xs. xs ++ run_of tx (whole_lines tx r)) v.unstamped
          ∙ run_of-append tx r.active.lines run
          ∙ ap (λ xs. xs ++ run_of tx run) clean
          ∙ run_of-stamps tx (uint32 (length r.entries)) 0 r.entries)
      ∙ subst
          (λ (xs : List OpRef).
            evidence_of H (stamps tx (uint32 (length xs)) 0 xs) ≡ some (whole_run xs))
          (sym at) (evidence_of-stamps e es)

  discover-AllOthers :
      (others : List (String × List StampedEntry)) → AllOthers others → discover H tx others ≡ []
  unfolding discover evidence_of
  discover-AllOthers [] h = refl
  discover-AllOthers ((name, ls) ∷ others) h =
      ap (λ xs. add_run name (evidence_of H xs) (discover H tx others)) h.0
      ∙ discover-AllOthers others h.1

  abbrev pub found : List XtxRun → Dict String Run
  found rs = map (λ (r : XtxRun). (r.col, whole_run r.entries)) rs

  module _ (others : List (String × List StampedEntry)) where
    pub discover-found :
        (rs qs : List XtxRun) (cols : List (String × List StampedEntry))
        → All IsClean rs
        → All HasEntries rs
        → All2 (Flushed tx) rs qs
        → Crashed qs cols
        → AllOthers others
        → discover H tx (cols ++ others) ≡ found rs
    unfolding discover
    discover-found [] [] [] c n f v o = discover-AllOthers others o
    discover-found [] [] (x ∷ cols) c n f v o = elim v [ ]
    discover-found [] (q ∷ qs) cols c n f v o = elim f [ ]
    discover-found (r ∷ rs) [] cols c n f v o = elim f [ ]
    discover-found (r ∷ rs) (q ∷ qs) [] c n f v o = elim v [ ]
    discover-found (r ∷ rs) (q ∷ qs) ((name, ls) ∷ cols) c n f v o =
        ap (λ e. add_run name e (discover H tx (cols ++ others)))
          (evidence_of-Flushed r q (name, ls) c.0 n.0 f.0 v.0)
        ∙ ap (λ d. (name, whole_run r.entries) ∷ d) (discover-found rs qs cols c.1 n.1 f.1 v.1 o)
        ∙ ap (λ k. (k, whole_run r.entries) ∷ found rs) (v.0.name ∙ f.0.col)

    pub existing_of-found :
        (rs qs : List XtxRun) (cols : List (String × List StampedEntry))
        → All2 (Flushed tx) rs qs
        → Crashed qs cols
        → existing_of (cols ++ others)
          ≡ (map (λ (r : XtxRun). (r.col, true)) rs ++ existing_of others)
    existing_of-found [] [] [] f v = refl
    existing_of-found [] [] (x ∷ cols) f v = elim v [ ]
    existing_of-found [] (q ∷ qs) cols f v = elim f [ ]
    existing_of-found (r ∷ rs) [] cols f v = elim f [ ]
    existing_of-found (r ∷ rs) (q ∷ qs) [] f v = elim v [ ]
    existing_of-found (r ∷ rs) (q ∷ qs) ((name, ls) ∷ cols) f v =
        ap (λ k. (k, true) ∷ existing_of (cols ++ others)) (v.0.name ∙ f.0.col)
        ∙ ap (λ d. (r.col, true) ∷ d) (existing_of-found rs qs cols f.1 v.1)
