-- ===== src/Collection/Refusals.antt =====
-- What a write leaves that did not commit.
use scriva.Prelude.{
  ℕ, ◌≡◌, ◌≢◌, ◌⊎◌, inl, inr, refl, sym, subst, String, Bool, true, false, none, Option-cases,
  if_elim,
}
use scriva.Store.{Entry}
use scriva.Segment
use scriva.Segment.{Segment, sync}
use scriva.Segment.Appending.{IsTidy}
use scriva.Collection.{
  Env, Collection, CollectionError, Io, Outcome, failed, Event, write_cause, fence,
}
use scriva.Collection.Commit.{
  Result, sync_outcome, sync_commit_locked, after_commit, after_sync, after_append, commit,
}
use scriva.Collection.Outcomes.{
  Unpublished, append_locked-AppendEnds, append_locked-fenced, fence-fenced,
}

module _ (E : Env) where
  open E use {C, X}
  open C use {V}

  module _ {A : Type 0} (io : Io) (op : String) (e : Entry V)
      (apply : ℕ → Collection E → Collection E) (a : A) (ev : Event V) where
    -- A failed outcome, if it is one, has published nothing; and it has left the active segment as it
    -- was, or the collection is fenced.
    Clean : Collection E → Collection E × Outcome A → Type 0
    Clean c p =
        (x : CollectionError)
        → p.1 ≡ failed x
        → Unpublished E c p.0 × ((p.0.active ≡ c.active) ⊎ (p.0.fenced ≢ none))

    after_commit-Clean :
        (c d : Collection E) (need : Bool) → Clean c (after_commit E io.rotation a ev need d)
    unfolding after_commit Clean
    after_commit-Clean c d true x h = cc h
    after_commit-Clean c d false x h = cc h

    synced-Clean :
        (c : Collection E) (seg : Segment) (off : ℕ) (r : Segment.Result (Unit {0}))
        → Clean c
            (after_sync E io e (apply off) a ev (sync_outcome E op r (record c { active = seg })))
    unfolding Clean
    synced-Clean c seg off (Segment.ok _) x h = after_commit-Clean c _ _ x h
    synced-Clean c seg off (Segment.err y) x h = (
      unfold fence in record { index = refl; sidx = refl; published = refl; emitted = refl },
      inr (fence-fenced E op (write_cause y) (record c { active = seg })),
    )

    sync_commit-Clean :
        (c : Collection E) (seg : Segment) (off : ℕ)
        → Clean c (
            after_sync E io e
              (apply off)
              a
              ev
              (sync_commit_locked E io.synced op (record c { active = seg })))
    unfolding sync_commit_locked
    sync_commit-Clean c seg off =
        if_elim
          (λ (p : Collection E × Result (Unit {0})). Clean c (after_sync E io e (apply off) a ev p))
          c.cfg.sync_always _ _ (λ _. synced-Clean c seg off (sync io.synced seg))
          (λ _. after_commit-Clean c _ _)

    -- A write that fails in or after its append has changed no index and published and emitted
    -- nothing; the active segment is as it was before, or the collection is fenced.
    pub commit-failed :
        (c : Collection E) (x : CollectionError)
        → IsTidy c.active
        → (commit E io op e apply a ev c).1 ≡ failed x
        → Unpublished E c (commit E io op e apply a ev c).0
          × (((commit E io op e apply a ev c).0.active ≡ c.active)
              ⊎ ((commit E io op e apply a ev c).0.fenced ≢ none))
    unfolding commit Clean
    commit-failed c x tidy = elim (Option-cases c.fenced) [
      | inr (g, shut) ↦
          subst (λ (p : Collection E × Result ℕ). Clean c (after_append E io op e apply a ev p))
            (sym (append_locked-fenced E io.write op e c (λ usable. cc (usable, shut))))
            (λ _ _.
              (record { index = refl; sidx = refl; published = refl; emitted = refl }, inl refl))
            x
      | inl usable ↦
          let After : Collection E × Result ℕ → Type 0 =
            λ p. Clean c (after_append E io op e apply a ev p) in
          elim (append_locked-AppendEnds E io.write op e c usable tidy) [
            | inl (y, at) ↦
                subst After (sym at)
                  (λ _ _. (
                    record { index = refl; sidx = refl; published = refl; emitted = refl },
                    inl refl,
                  ))
                  x
            | inr (inl (y, d, at, shut, same)) ↦ subst After (sym at) (λ _ _. (same, inr shut)) x
            | inr (inr (seg, off, at, done)) ↦ subst After (sym at) (sync_commit-Clean c seg off) x
          ]
    ]
