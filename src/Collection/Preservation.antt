-- ===== src/Collection/Preservation.antt =====
-- Every write keeps the invariant, whatever the disk does on its way.
use scriva.Prelude.{
  ℕ, ◌≡◌, inl, inr, sym, subst, ◌≤◌, String, Bool, none, some, Option-cases, List, [], ◌∷◌, ◌++◌,
  All, nat_eq, if_elim,
}
use scriva.Store.{Entry, omit_empty}
use scriva.Segment
use scriva.Segment.{Segment, Write, append, sync}
use scriva.Index.{Index, apply_one}
use scriva.Index.Counting.{IsHonest}
use scriva.Index.Replay.{History}
use scriva.Collection.{Env, Collection, Io, Event, Outcome, write_cause}
use scriva.Collection.Commit.{
  Result, sync_outcome, sync_commit_locked, publish_commit, emit, after_commit, after_sync,
  after_append, commit,
}
use scriva.Collection.Outcomes.{fence-fenced, append_locked-AppendEnds, append_locked-fenced}
use scriva.Collection.Coherence.{Coherent, IsSound, Coherent-write}
use scriva.Collection.Rotating.{rotate_segment-IsSound}

-- What the step from an append to the indexes does: the new index follows from a replay of the line.
pub record Applies (E : Env) (c : Collection E) (e : Entry E.C.V)
    (apply : ℕ → Collection E → Collection E) : Type 0 where
  pub idx : String → ℕ → Index
  pub sidx : E.X.S
  pub result :
      (seg : Segment) (off : ℕ)
      → apply off (record c { active = seg })
        ≡ record c { active = seg; index = idx seg.path off; sidx = sidx }
  pub follows :
      (path : String) (off sum : ℕ)
      → (idx path off).entries ≡ apply_one path off (record e { crc = some sum }) c.index.entries
  pub ids : (path : String) (off : ℕ) → All (λ p. p.0 ≤ c.id_seq) (idx path off).entries
  pub honest : (path : String) (off : ℕ) → IsHonest (idx path off)

module _ (E : Env) where
  open E use {C, X}
  open C use {V}

  -- The invariant does not speak of the secondary indexes, the feed, the events or the clock.
  pub Coherent-other :
      (c : Collection E) (h : History C) (es : List (ℕ × Entry V)) (x : X.S) (p : List (Entry V))
      (m : List (Event V)) (t : ℕ)
      → Coherent E c h es
      → Coherent E (record c { sidx = x; published = p; emitted = m; clock_floor = t }) h es
  Coherent-other c h es x p m t k = record {
    usable = k.usable;
    tidy = k.tidy;
    stored = k.stored;
    live = k.live;
    indexed = k.indexed;
    ids = k.ids;
    honest = k.honest;
    ordered = k.ordered;
    number = k.number;
    numbered = k.numbered;
    below = k.below;
    handed_out = k.handed_out;
  }

  module _ {A : Type 0} (io : Io) (op : String) (e : Entry V)
      (apply : ℕ → Collection E → Collection E) (a : A) (ev : Event V) where
    after_commit-IsSound :
        (c : Collection E) (need : Bool)
        → IsSound E (emit E ev c)
        → IsSound E (after_commit E io.rotation a ev need c).0
    unfolding after_commit
    after_commit-IsSound c need s =
        if_elim (λ (p : Collection E × Outcome A). IsSound E p.0) need _ _
          (λ _. rotate_segment-IsSound E io.rotation (emit E ev c) s) (λ _. s)

    published-IsSound :
        (c : Collection E) (h : History C) (es : List (ℕ × Entry V)) (seg : Segment) (off : ℕ)
        → Coherent E c h es
        → Applies E c e apply
        → omit_empty e.fields ≡ e.fields
        → append C io.write e c.active ≡ (seg, Segment.ok off)
        → IsSound E (emit E ev (publish_commit E e (apply off (record c { active = seg }))))
    unfolding emit publish_commit
    published-IsSound c h es seg off k f doc done =
        subst (λ (d : Collection E). IsSound E (emit E ev (publish_commit E e d)))
          (sym (f.result seg off))
          (λ _.
            let (fs, k') =
              Coherent-write E c h es io.write e seg off k doc done (f.idx seg.path off)
                (f.follows seg.path off) (f.ids seg.path off) (f.honest seg.path off) in
            (
              h,
              fs,
              Coherent-other _ h fs f.sidx (c.published ++ e ∷ []) (c.emitted ++ ev ∷ [])
                  c.clock_floor k',
            ))

    -- The rest of a write, from the sync on, when the line is in the file.
    synced-IsSound :
        (c : Collection E) (off : ℕ) (r : Segment.Result (Unit {0}))
        → IsSound E (emit E ev (publish_commit E e (apply off c)))
        → IsSound E (after_sync E io e (apply off) a ev (sync_outcome E op r c)).0
    synced-IsSound c off (Segment.ok _) s = after_commit-IsSound _ _ s
    synced-IsSound c off (Segment.err x) s = λ f. absurd (fence-fenced E op (write_cause x) c f)

    sync_commit-IsSound :
        (c : Collection E) (off : ℕ)
        → IsSound E (emit E ev (publish_commit E e (apply off c)))
        → IsSound E (after_sync E io e (apply off) a ev (sync_commit_locked E io.synced op c)).0
    unfolding sync_commit_locked
    sync_commit-IsSound c off s =
        if_elim
          (λ (p : Collection E × Result (Unit {0})).
            IsSound E (after_sync E io e (apply off) a ev p).0)
          c.cfg.sync_always _ _ (λ _. synced-IsSound c off (sync io.synced c.active) s)
          (λ _. after_commit-IsSound _ _ s)

    -- A write keeps the invariant if what it does to the index is what a replay of its line would do.
    pub commit-IsSound :
        (c : Collection E)
        → IsSound E c
        → (c.fenced ≡ none → Applies E c e apply)
        → omit_empty e.fields ≡ e.fields
        → IsSound E (commit E io op e apply a ev c).0
    unfolding commit
    commit-IsSound c s f doc = elim (Option-cases c.fenced) [
      | inr (g, shut) ↦
          subst (λ (p : Collection E × Result ℕ). IsSound E (after_append E io op e apply a ev p).0)
            (sym (append_locked-fenced E io.write op e c (λ usable. cc (usable, shut)))) s
      | inl usable ↦
          let (h, es, k) = s usable in
          let After : Collection E × Result ℕ → Type 0 =
            λ p. IsSound E (after_append E io op e apply a ev p).0 in
          elim (append_locked-AppendEnds E io.write op e c usable k.tidy) [
            | inl (x, at) ↦ subst After (sym at) s
            | inr (inl (x, d, at, shut, _)) ↦ subst After (sym at) (λ g. absurd (shut g))
            | inr (inr (seg, off, at, done)) ↦ subst After (sym at) (
                sync_commit-IsSound (record c { active = seg }) off
                  (published-IsSound c h es seg off k (f usable) doc done))
          ]
    ]
