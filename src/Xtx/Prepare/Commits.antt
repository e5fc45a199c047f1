-- ===== src/Xtx/Prepare/Commits.antt =====
-- engine/xtx_prepare.go on a disk that does not fail.
use Prim.Native.String.{len}
use scriva.Prelude.{
  some-inj, ℕ, string_eq, nat_eq, Bool, true, false, Option, none, some, List, [], ◌∷◌, ◌++◌,
  lookup, remove, length, ltb, map, String, ◌≡◌, refl, sym, ap, ◌∙◌, arith, is_some, Option-cases,
  inl, inr,
}
use scriva.Xtx.Journal.{Part}
use scriva.Xtx.Coordinator.{XtxRecord, XtxTable, XtxError, apply}
use scriva.Xtx.Coordinator.Validation.{
  Hash, max_key_len, raw_digest, parts_bytes, parts_digest, ascending, validate_parts,
}
use scriva.Xtx.Coordinator.Deciding.{
  XtxJournal, JournalIo, line_written, XtxReplBind, usable, append_line, sync_locked, install,
  install_locked, commit_record, bind_refused, after_commit_sync, after_commit_append,
  commit_locked, commit_prepared_bound,
}
use scriva.Xtx.Coordinator.Deciding.Settling.{commit-Installed}
use scriva.Xtx.Prepare.{
  XtxRun, PrepareIo, prepared, sync_runs, no_start, part_of, Parts, append_runs, after_decision,
  after_runs_sync, after_appends, prepare_and_decide,
}
use scriva.Xtx.Prepare.Open.{Writes, AllOpen, sync_runs-open, append_runs-open}

module _ (H : Hash) where
  -- Parts that validateParts accepts have a digest.
  ascending-bytes :
      (prev : Option String) (ps : List Part)
      → ascending H prev ps ≡ true
      → is_some (parts_bytes H ps) ≡ true
  unfolding ascending parts_bytes
  ascending-bytes prev [] h = refl
  ascending-bytes prev (p ∷ ps) h =
      let own : is_some (raw_digest H p.d) ≡ true = ground (arith, h) in
      let rest : ascending H (some p.c) ps ≡ true = ground (arith, h) in
      let bytes = ascending-bytes (some p.c) ps rest in
      elim (Option-cases (raw_digest H p.d)) [
        | inl gone ↦
            let bad : false ≡ true = sym (ap is_some gone) ∙ own in
            let no : ⊥ = cc bad in elim no [ ]
        | inr (d, at) ↦ elim (Option-cases (parts_bytes H ps)) [
          | inl gone ↦
              let bad : false ≡ true = sym (ap is_some gone) ∙ bytes in
              let no : ⊥ = cc bad in elim no [ ]
          | inr (b, found) ↦ rw (at, found, parts_bytes) refl
        ]
      ]

  validate_parts-digest :
      (ps : List Part) → validate_parts H ps ≡ true → (pd : String) × (parts_digest H ps ≡ some pd)
  unfolding validate_parts parts_digest
  validate_parts-digest ps h =
      let sorted : ascending H none ps ≡ true = ground (arith, h) in
      elim (Option-cases (parts_bytes H ps)) [
        | inl gone ↦
            let bad : false ≡ true = sym (ap is_some gone) ∙ ascending-bytes none ps sorted in
            let no : ⊥ = cc bad in elim no [ ]
        | inr (b, found) ↦ (H.sha256_hex b, rw (found, parts_digest) refl)
      ]

  install-none :
      (r : XtxRecord) (j : XtxJournal) (p : XtxTable × Option XtxError)
      → p.1 ≡ none
      → (install r j p).1 ≡ none
  install-none r j (t, none) h = refl
  install-none r j (t, some x) h = h

  commit_locked-open :
      (io : JournalIo) (bind : Option XtxReplBind) (tx key pd : String) (ps : List Part)
      (j : XtxJournal)
      → io.line ≡ line_written
      → io.synced ≡ true
      → usable j ≡ none
      → bind_refused bind j.table ≡ none
      → lookup tx j.table.by_tx ≡ none
      → (commit_locked io bind (commit_record tx key ps pd bind) j).1 ≡ none
  unfolding commit_locked after_commit_append append_line sync_locked after_commit_sync
      install_locked
  commit_locked-open io bind tx key pd ps j l s u b fresh =
      let r = commit_record tx key ps pd bind in
      let lines = j.lines ++ r ∷ [] in
      let flushed : XtxJournal = record j {
        lines = lines;
        durable = length lines;
        pending = remove tx j.pending;
      } in
      rw (u, b, commit_locked)
        (ap (λ x. (after_commit_append io.synced r (append_line x r j)).1) l
          ∙ ap (λ x. (after_commit_append x r (append_line line_written r j)).1) s
          ∙ install-none r flushed (apply r j.table)
              (commit-Installed tx key pd ps bind j.table fresh b).fine)

  commit_prepared_bound-open :
      (io : JournalIo) (bind : Option XtxReplBind) (tx key : String) (ps : List Part)
      (j : XtxJournal)
      → io.line ≡ line_written
      → io.synced ≡ true
      → usable j ≡ none
      → bind_refused bind j.table ≡ none
      → lookup tx j.table.by_tx ≡ none
      → ltb max_key_len (len key) ≡ false
      → validate_parts H ps ≡ true
      → (commit_prepared_bound H io tx key ps bind j).1 ≡ none
  unfolding commit_prepared_bound
  commit_prepared_bound-open io bind tx key ps j l s u b fresh short valid =
      let (pd, digest) = validate_parts-digest ps valid in
      rw (short, valid, digest) (commit_locked-open io bind tx key pd ps j l s u b fresh)

  decision-open :
      (io : PrepareIo) (tx key : String) (bind : Option XtxReplBind) (qs : List XtxRun)
      (offsets : List (String × List ℕ)) (p : XtxJournal × Option XtxError)
      → p.1 ≡ none
      → (after_decision H io tx key bind qs offsets p).2 ≡ prepared offsets
  unfolding after_decision
  decision-open io tx key bind qs offsets (j, none) h = refl
  decision-open io tx key bind qs offsets (j, some x) h = let bad : ⊥ = cc h in elim bad [ ]

  sync-open :
      (io : PrepareIo) (tx key : String) (bind : Option XtxReplBind) (j : XtxJournal)
      (ps : List Part) (offsets : List (String × List ℕ)) (p : List XtxRun × Bool)
      → p.1 ≡ true
      → (commit_prepared_bound H io.commit_io tx key ps bind j).1 ≡ none
      → (after_runs_sync H io tx key bind j ps offsets p).2 ≡ prepared offsets
  unfolding after_runs_sync
  sync-open io tx key bind j ps offsets (qs, false) f h = let bad : ⊥ = cc f in elim bad [ ]
  sync-open io tx key bind j ps offsets (qs, true) f h =
      decision-open io tx key bind qs offsets
        (commit_prepared_bound H io.commit_io tx key ps bind j) h

  appends-open :
      (io : PrepareIo) (tx key : String) (bind : Option XtxReplBind) (j : XtxJournal)
      (p : List XtxRun × Option Parts) (v : Parts)
      → p.1 ≡ some v
      → ((c : String) → io.synced c ≡ true)
      → (commit_prepared_bound H io.commit_io tx key v.0 bind j).1 ≡ none
      → (offsets : List (String × List ℕ)) × ((after_appends H io tx key bind j p).2
          ≡ prepared offsets)
  unfolding after_appends
  appends-open io tx key bind j (qs, none) v h f c = let bad : ⊥ = cc h in elim bad [ ]
  appends-open io tx key bind j (qs, some (ps, offsets)) v h f c = (
    offsets,
    sync-open io tx key bind j ps offsets (sync_runs io.synced qs) (sync_runs-open io.synced qs f) (
        ap (λ (u : Parts). (commit_prepared_bound H io.commit_io tx key u.0 bind j).1) (some-inj h)
        ∙ c),
  )

  no_start-parts : (rs : List XtxRun) → map (part_of H) (map no_start rs) ≡ map (part_of H) rs
  no_start-parts [] = refl
  no_start-parts (r ∷ rs) = ap (λ ps. part_of H r ∷ ps) (no_start-parts rs)

  no_start-AllOpen : (rs : List XtxRun) → AllOpen rs → AllOpen (map no_start rs)
  no_start-AllOpen [] o = tt
  no_start-AllOpen (r ∷ rs) o = (o.0, no_start-AllOpen rs o.1)

  -- On a disk that does not fail a commit goes through: when every write and every fsync succeeds, the
  -- participants' segments and the journal take writes, the journal does not know the transaction, the
  -- binding is not refused, the key is not too long and the participants pass validateParts,
  -- xtxPrepareAndDecide returns the offsets.
  pub prepare_and_decide-commits :
      (io : PrepareIo) (key tx : String) (rs : List XtxRun) (bind : Option XtxReplBind)
      (j : XtxJournal)
      → ((c : String) → Writes (io.append c))
      → ((c : String) → io.synced c ≡ true)
      → io.commit_io.line ≡ line_written
      → io.commit_io.synced ≡ true
      → AllOpen rs
      → usable j ≡ none
      → bind_refused bind j.table ≡ none
      → lookup tx j.table.by_tx ≡ none
      → ltb max_key_len (len key) ≡ false
      → validate_parts H (map (part_of H) rs) ≡ true
      → (offsets : List (String × List ℕ)) × ((prepare_and_decide H io key tx rs bind j).2
          ≡ prepared offsets)
  unfolding prepare_and_decide
  prepare_and_decide-commits io key tx rs bind j w f l s o u b fresh short valid =
      let (v, appended, names) =
        append_runs-open H io tx w (map no_start rs) (no_start-AllOpen rs o) in
      appends-open io tx key bind j (append_runs H io tx (map no_start rs)) v appended f (
        ap (λ ps. (commit_prepared_bound H io.commit_io tx key ps bind j).1)
          (names ∙ no_start-parts rs)
        ∙ commit_prepared_bound-open io.commit_io bind tx key (map (part_of H) rs) j l s u b fresh
            short valid)
