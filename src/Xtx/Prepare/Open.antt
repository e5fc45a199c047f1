-- ===== src/Xtx/Prepare/Open.antt =====
-- engine/xtx_prepare.go: the appends and the fsyncs on a disk that does not fail.
use scriva.Prelude.{
  some-inj, ℕ, suc, string_eq, nat_eq, Bool, true, false, Option, none, some, List, [], ◌∷◌, length,
  map, String, ◌≡◌, refl, sym, ap, ◌∙◌, subst, arith, All,
}
use scriva.Xtx.Journal.{Part}
use scriva.Xtx.Coordinator.Validation.{OpRef, Hash}
use scriva.Xtx.Prepare.{
  Active, XtxRun, StampedWrite, stamped_written, PrepareIo, uint32, write_stamped, append_stamped,
  stamped, chain_append, append_run, sync_run, chain_sync, sync_runs, part_of, Parts, chain_run,
  append_runs,
}

-- A segment that takes writes.
abbrev pub IsOpen : Active → Type 0
IsOpen s = (s.is_sealed ≡ false) × (s.is_poisoned ≡ false)

append_stamped-IsOpen :
    (tx : String) (n i : ℕ) (r : OpRef) (s : Active)
    → IsOpen s
    → ((append_stamped stamped_written (stamped tx n i r) s).1 ≡ some (length s.lines))
      × IsOpen (append_stamped stamped_written (stamped tx n i r) s).0
unfolding append_stamped write_stamped
append_stamped-IsOpen tx n i r s (o, p) = ground (arith, o, p)

chain_append-IsOpen :
    (p : Active × Option ℕ) (q : Active × Option (List ℕ)) (at : ℕ) (ats : List ℕ)
    → p.1 ≡ some at
    → q.1 ≡ some ats
    → IsOpen q.0
    → (all : List ℕ) × ((chain_append p q).1 ≡ some all) × IsOpen (chain_append p q).0
unfolding chain_append
chain_append-IsOpen (s, none) q at ats h k o = let bad : ⊥ = cc h in elim bad [ ]
chain_append-IsOpen (s, some x) (s', none) at ats h k o = let bad : ⊥ = cc k in elim bad [ ]
chain_append-IsOpen (s, some x) (s', some rest) at ats h k o = (x ∷ rest, refl, o)

-- Every write succeeds.
abbrev pub Writes : (ℕ → StampedWrite) → Type 0
Writes io = (i : ℕ) → io i ≡ stamped_written

append_run-IsOpen :
    (io : ℕ → StampedWrite) (tx : String) (n i : ℕ) (rs : List OpRef) (s : Active)
    → Writes io
    → IsOpen s
    → (ats : List ℕ) × ((append_run io tx n i rs s).1 ≡ some ats)
      × IsOpen (append_run io tx n i rs s).0
unfolding append_run chain_append
append_run-IsOpen io tx n i [] s w o = ([], refl, o)
append_run-IsOpen io tx n i (r ∷ rs) s w o =
    let p = append_stamped (io i) (stamped tx n i r) s in
    let step : (p.1 ≡ some (length s.lines)) × IsOpen p.0 =
      subst
        (λ (x : StampedWrite).
          ((append_stamped x (stamped tx n i r) s).1 ≡ some (length s.lines))
          × IsOpen (append_stamped x (stamped tx n i r) s).0)
        (sym (w i)) (append_stamped-IsOpen tx n i r s o) in
    let (ats, rest, kept) = append_run-IsOpen io tx n (suc i) rs p.0 w step.1 in
    chain_append-IsOpen p (append_run io tx n (suc i) rs p.0) (length s.lines) ats step.0 rest kept

abbrev pub AllOpen : List XtxRun → Type 0
AllOpen = All (λ r. IsOpen r.active)

pub sync_runs-open :
    (io : String → Bool) (rs : List XtxRun)
    → ((c : String) → io c ≡ true)
    → (sync_runs io rs).1 ≡ true
unfolding sync_runs chain_sync sync_run
sync_runs-open io [] w = refl
sync_runs-open io (r ∷ rs) w = ground (arith, w r.col, sync_runs-open io rs w)

module _ (H : Hash) (io : PrepareIo) (tx : String) (w : (c : String) → Writes (io.append c)) where
  chain_run-open :
      (r : XtxRun) (rs : List XtxRun) (p : Active × Option (List ℕ))
      (after : List XtxRun × Option Parts) (ats : List ℕ) (v : Parts)
      → p.1 ≡ some ats
      → after.1 ≡ some v
      → v.0 ≡ map (part_of H) rs
      → (all : Parts) × ((chain_run H r rs p after).1 ≡ some all)
        × (all.0 ≡ map (part_of H) (r ∷ rs))
  unfolding chain_run
  chain_run-open r rs (s, none) after ats v h k e = let bad : ⊥ = cc h in elim bad [ ]
  chain_run-open r rs (s, some at) (rs', none) ats v h k e = let bad : ⊥ = cc k in elim bad [ ]
  chain_run-open r rs (s, some at) (rs', some (ps, offsets)) ats v h k e = (
    (part_of H r ∷ ps, (r.col, at) ∷ offsets),
    refl,
    ap (λ (xs : List Part). part_of H r ∷ xs) (ap (λ (u : Parts). u.0) (some-inj k) ∙ e),
  )

  pub append_runs-open :
      (rs : List XtxRun)
      → AllOpen rs
      → (all : Parts) × ((append_runs H io tx rs).1 ≡ some all) × (all.0 ≡ map (part_of H) rs)
  unfolding append_runs
  append_runs-open [] o = (([], []), refl, refl)
  append_runs-open (r ∷ rs) o =
      let n = uint32 (length r.entries) in
      let (ats, mine, kept) =
        append_run-IsOpen (io.append r.col) tx n 0 r.entries r.active (w r.col) o.0 in
      let (v, others, names) = append_runs-open rs o.1 in
      chain_run-open r rs (append_run (io.append r.col) tx n 0 r.entries r.active)
        (append_runs H io tx rs) ats v mine others names
