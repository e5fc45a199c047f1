-- ===== src/Xtx/Prepare/Durable.antt =====
-- engine/xtx_prepare.go: what stands in the segments after the appends and the fsyncs of a commit.
use scriva.Prelude.{
  some-inj, ℕ, suc, nat_eq, Bool, true, false, Option, none, some, List, [], ◌∷◌, ◌++◌, length,
  if_elim, if_true, String, ◌≡◌, refl, sym, ap, ◌∙◌, subst, arith, ◌⊎◌, inl, inr, Bool-cases, map,
}
use scriva.Xtx.Coordinator.Validation.{OpRef, Hash}
use scriva.Xtx.Prepare.{
  StampedEntry, Active, XtxRun, StampedWrite, stamped_written, stamped_refused, stamped_failed,
  PrepareIo, uint32, chain_sync, write_stamped, append_stamped, stamped, chain_append, append_run,
  sync_run, sync_runs, append_runs, part_of, Parts, chain_run,
}

-- A relation between two lists, element by element.
abbrev pub All2 {ℓ κ} : {A : Type ℓ} {B : Type κ} → (A → B → Type 0) → List A → List B → Type 0
All2 R [] [] = Unit
All2 R [] (y ∷ ys) = ⊥
All2 R (x ∷ xs) [] = ⊥
All2 R (x ∷ xs) (y ∷ ys) = R x y × All2 R xs ys

-- the lines of a run, from position `i`
abbrev pub stamps : String → ℕ → ℕ → List OpRef → List StampedEntry
stamps tx n i [] = []
stamps tx n i (r ∷ rs) = stamped tx n i r ∷ stamps tx n (suc i) rs

append_assoc {ℓ} : {A : Type ℓ} (xs ys zs : List A) → ((xs ++ ys) ++ zs) ≡ (xs ++ (ys ++ zs))
append_assoc [] ys zs = refl
append_assoc (x ∷ xs) ys zs = ap (λ ws. x ∷ ws) (append_assoc xs ys zs)

pub append_nil {ℓ} : {A : Type ℓ} (xs : List A) → (xs ++ []) ≡ xs
append_nil [] = refl
append_nil (x ∷ xs) = ap (λ ws. x ∷ ws) (append_nil xs)

append_stamped-lines :
    (w : StampedWrite) (e : StampedEntry) (s : Active) (at : ℕ)
    → (append_stamped w e s).1 ≡ some at
    → ((append_stamped w e s).0.lines ≡ (s.lines ++ e ∷ []))
      × (s.is_sealed ≡ false)
      × ((append_stamped w e s).0.is_sealed ≡ false)
unfolding append_stamped write_stamped
append_stamped-lines stamped_written e s at h = ground arith
append_stamped-lines stamped_refused e s at h = ground arith
append_stamped-lines (stamped_failed whole truncated) e s at h = ground arith

chain_append-some :
    (p : Active × Option ℕ) (q : Active × Option (List ℕ)) (ats : List ℕ)
    → (chain_append p q).1 ≡ some ats
    → (at : ℕ) × (rest : List ℕ) × (p.1 ≡ some at)
      × (q.1 ≡ some rest)
      × ((chain_append p q).0 ≡ q.0)
unfolding chain_append
chain_append-some (s, none) q ats h = let bad : ⊥ = cc h in elim bad [ ]
chain_append-some (s, some at) (s', none) ats h = let bad : ⊥ = cc h in elim bad [ ]
chain_append-some (s, some at) (s', some rest) ats h = (at, rest, refl, refl, refl)

module _ (io : ℕ → StampedWrite) (tx : String) (n : ℕ) where
  append_run-lines :
      (i : ℕ) (rs : List OpRef) (s : Active) (ats : List ℕ)
      → (append_run io tx n i rs s).1 ≡ some ats
      → (append_run io tx n i rs s).0.lines ≡ (s.lines ++ stamps tx n i rs)
  unfolding append_run
  append_run-lines i [] s ats h = sym (append_nil s.lines)
  append_run-lines i (r ∷ rs) s ats h =
      let e = stamped tx n i r in
      let p = append_stamped (io i) e s in
      let q = append_run io tx n (suc i) rs p.0 in
      let (at, rest, first, more, whole) = chain_append-some p q ats h in
      ap (λ (u : Active). u.lines) whole
      ∙ append_run-lines (suc i) rs p.0 rest more
      ∙ ap (λ ls. ls ++ stamps tx n (suc i) rs) (append_stamped-lines (io i) e s at first).0
      ∙ append_assoc s.lines (e ∷ []) (stamps tx n (suc i) rs)

  append_run-is_sealed :
      (i : ℕ) (rs : List OpRef) (s : Active) (ats : List ℕ)
      → (append_run io tx n i rs s).1 ≡ some ats
      → s.is_sealed ≡ false
      → (append_run io tx n i rs s).0.is_sealed ≡ false
  unfolding append_run
  append_run-is_sealed i [] s ats h o = o
  append_run-is_sealed i (r ∷ rs) s ats h o =
      let e = stamped tx n i r in
      let p = append_stamped (io i) e s in
      let q = append_run io tx n (suc i) rs p.0 in
      let (at, rest, first, more, whole) = chain_append-some p q ats h in
      ap (λ (u : Active). u.is_sealed) whole
      ∙ append_run-is_sealed (suc i) rs p.0 rest more (append_stamped-lines (io i) e s at first).2

module _ (tx : String) where
  -- the lines that a run leaves in its collection's segment
  abbrev pub whole_lines : XtxRun → List StampedEntry
  whole_lines r = r.active.lines ++ stamps tx (uint32 (length r.entries)) 0 r.entries

  -- A run after its appends.
  pub record Wrote (r q : XtxRun) : Type 0 where
    pub col : q.col ≡ r.col
    pub lines : q.active.lines ≡ whole_lines r
    pub unsealed : (r.entries ≡ []) ⊎ (q.active.is_sealed ≡ false)

  -- A run after its fsync: all its lines are flushed.
  pub record Flushed (r q : XtxRun) : Type 0 where
    pub col : q.col ≡ r.col
    pub lines : q.active.lines ≡ whole_lines r
    pub flushed : (r.entries ≡ []) ⊎ (q.active.durable ≡ length q.active.lines)

  append_run-unsealed :
      (io : ℕ → StampedWrite) (n : ℕ) (rs : List OpRef) (s : Active) (ats : List ℕ)
      → (append_run io tx n 0 rs s).1 ≡ some ats
      → (rs ≡ []) ⊎ ((append_run io tx n 0 rs s).0.is_sealed ≡ false)
  unfolding append_run
  append_run-unsealed io n [] s ats h = inl refl
  append_run-unsealed io n (r ∷ rs) s ats h =
      let e = stamped tx n 0 r in
      let p = append_stamped (io 0) e s in
      let (at, rest, first, more, whole) =
        chain_append-some p (append_run io tx n 1 rs p.0) ats h in
      inr (
        append_run-is_sealed io tx n 0 (r ∷ rs) s ats h
          (append_stamped-lines (io 0) e s at first).1)

module _ (H : Hash) (tx : String) where
  chain_run-some :
      (r : XtxRun) (rs : List XtxRun) (p : Active × Option (List ℕ))
      (after : List XtxRun × Option Parts) (v : Parts)
      → (chain_run H r rs p after).1 ≡ some v
      → (at : List ℕ) × (rest : Parts) × (p.1 ≡ some at)
        × (after.1 ≡ some rest)
        × ((chain_run H r rs p after).0
            ≡ (record r { active = p.0; start = some (length r.active.lines) } ∷ after.0))
        × (v.0 ≡ (part_of H r ∷ rest.0))
  unfolding chain_run
  chain_run-some r rs (s, none) after v h = let bad : ⊥ = cc h in elim bad [ ]
  chain_run-some r rs (s, some at) (rs', none) v h = let bad : ⊥ = cc h in elim bad [ ]
  chain_run-some r rs (s, some at) (rs', some rest) v h =
      (at, rest, refl, refl, refl, ap (λ (u : Parts). u.0) (sym (some-inj h)))

  pub append_runs-Wrote :
      (io : PrepareIo) (rs : List XtxRun) (v : Parts)
      → (append_runs H io tx rs).1 ≡ some v
      → All2 (Wrote tx) rs (append_runs H io tx rs).0 × (v.0 ≡ map (part_of H) rs)
  unfolding append_runs
  append_runs-Wrote io [] v h = (tt, ap (λ (u : Parts). u.0) (sym (some-inj h)))
  append_runs-Wrote io (r ∷ rs) v h =
      let n = uint32 (length r.entries) in
      let p = append_run (io.append r.col) tx n 0 r.entries r.active in
      let (at, rest, mine, others, lists, parts) =
        chain_run-some r rs p (append_runs H io tx rs) v h in
      let (wrote, names) = append_runs-Wrote io rs rest others in
      let first : Wrote tx r (record r { active = p.0; start = some (length r.active.lines) }) =
        record {
          col = refl;
          lines = append_run-lines (io.append r.col) tx n 0 r.entries r.active at mine;
          unsealed = append_run-unsealed tx (io.append r.col) n r.entries r.active at mine;
        } in
      (
        subst (All2 (Wrote tx) (r ∷ rs)) (sym lists) (first, wrote),
        parts ∙ ap (λ ps. part_of H r ∷ ps) names,
      )

module _ (tx : String) where
  sync_run-Flushed :
      (synced : Bool) (r q : XtxRun)
      → Wrote tx r q
      → (sync_run synced q).1 ≡ true
      → Flushed tx r (sync_run synced q).0
  unfolding sync_run
  sync_run-Flushed true r q w h =
      if_elim (λ (p : XtxRun × Bool). Flushed tx r p.0) q.active.is_sealed _ _
        (λ closed. record {
          col = w.col;
          lines = w.lines;
          flushed = inl (ground (arith, w.unsealed, closed));
        })
        (λ _. record { col = w.col; lines = w.lines; flushed = inr refl })
  sync_run-Flushed false r q w h = elim (Bool-cases q.active.is_sealed) [
    | inl closed ↦
        subst (λ (p : XtxRun × Bool). Flushed tx r p.0)
          (sym (if_true q.active.is_sealed (q, true) _ closed))
          (record {
            col = w.col;
            lines = w.lines;
            flushed = inl (ground (arith, w.unsealed, closed));
          })
    | inr writable ↦ let bad : ⊥ = ground (arith, h, writable) in elim bad [ ]
  ]

  chain_sync-true :
      (p : XtxRun × Bool) (rs : List XtxRun) (after : List XtxRun × Bool)
      → (chain_sync p rs after).1 ≡ true
      → (p.1 ≡ true) × (after.1 ≡ true) × ((chain_sync p rs after).0 ≡ (p.0 ∷ after.0))
  unfolding chain_sync
  chain_sync-true (r, true) rs (rs', done) h = (refl, h, refl)
  chain_sync-true (r, false) rs after h = let bad : ⊥ = cc h in elim bad [ ]

  pub sync_runs-Flushed :
      (io : String → Bool) (rs qs : List XtxRun)
      → All2 (Wrote tx) rs qs
      → (sync_runs io qs).1 ≡ true
      → All2 (Flushed tx) rs (sync_runs io qs).0
  unfolding sync_runs
  sync_runs-Flushed io [] [] w h = tt
  sync_runs-Flushed io [] (q ∷ qs) w h = elim w [ ]
  sync_runs-Flushed io (r ∷ rs) [] w h = elim w [ ]
  sync_runs-Flushed io (r ∷ rs) (q ∷ qs) w h =
      let (mine, others, lists) = chain_sync-true (sync_run (io q.col) q) qs (sync_runs io qs) h in
      subst (All2 (Flushed tx) (r ∷ rs)) (sym lists)
        (sync_run-Flushed (io q.col) r q w.0 mine, sync_runs-Flushed io rs qs w.1 others)
