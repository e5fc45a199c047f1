-- ===== src/Collection/Reaping/Soundness.antt =====
-- engine/ttl.go: a pass of the reaper keeps the collection's invariant. While it appends, the index
-- lags behind the segment; what it will be is what a replay of the tombstones makes of it.
use scriva.Prelude.{
  ℕ, ◌≡◌, ◌≢◌, inl, inr, refl, sym, subst, ◌≤◌, Bool, true, false, Option, none, some, Option-cases,
  List, [], ◌∷◌, ◌++◌, All-remove, leb, nat_eq, string_eq, if_elim,
}
use scriva.Store.{Entry, op_delete, new_delete, new_entry}
use scriva.Segment
use scriva.Segment.{Segment, Write, append, sync}
use scriva.Index
use scriva.Index.{Index, IndexEntry, apply_one}
use scriva.Index.Counting.{delete-IsHonest}
use scriva.Index.Replay.{History}
use scriva.Collection.{
  Env, Collection, Rotation, RotateError, CollectionError, Event, write_cause, is_fenced,
}
use scriva.Collection.Commit.{
  Result, append_locked, sync_outcome, sync_commit_locked, publish_commit, emit,
}
use scriva.Collection.Writes.{unindex_record}
use scriva.Collection.Outcomes.{fence-fenced, append_locked-AppendEnds, append_locked-fenced}
use scriva.Collection.Coherence.{Coherent, IsSound, Coherent-write}
use scriva.Collection.Rotating.{rotate_segment-IsSound}
use scriva.Collection.Preservation.{Coherent-other}
use scriva.Collection.Soundness.{now-IsSound}
use scriva.Collection.Batch.{next_write, later_writes}
use scriva.Collection.Reaping.{
  ReapIo, ReapError, Pass, pass_aborted, pass_over, due, after_reap, reap_due, reap_each,
  drop_reaped, emit_deletes, rotated_pass, finish_pass, after_pass_sync, after_pass, reap_ids,
  reap_expired,
}

-- the index without the records of the tombstones
unfoldable pub forgotten : {V : Type 0} → List (Entry V) → Index → Index
forgotten [] idx = idx
forgotten (e ∷ es) idx = forgotten es (Index.delete e.id idx)

forgotten-snoc :
    {V : Type 0} (es : List (Entry V)) (e : Entry V) (idx : Index)
    → forgotten (es ++ e ∷ []) idx ≡ Index.delete e.id (forgotten es idx)
unfolding forgotten
forgotten-snoc [] e idx = refl
forgotten-snoc (f ∷ es) e idx = forgotten-snoc es e (Index.delete f.id idx)

module _ (E : Env) where
  open E use {C, X}
  open C use {V}

  -- Once the ids of the tombstones are dropped, the collection is sound.
  abbrev pub Pending : List (Entry V) → Collection E → Type 0
  Pending reaped c = IsSound E (record c { index = forgotten reaped c.index })

  Coherent-tombstone :
      (c : Collection E) (idx : Index) (h : History C) (es : List (ℕ × Entry V)) (w : Write)
      (t id : ℕ) (seg : Segment) (off : ℕ)
      → Coherent E (record c { index = idx }) h es
      → append C w (new_delete t id) c.active ≡ (seg, Segment.ok off)
      → (fs : List (ℕ × Entry V)) × Coherent E
          (record c { active = seg; index = Index.delete id idx })
          h
          fs
  unfolding Index.delete new_delete new_entry apply_one
  Coherent-tombstone c idx h es w t id seg off k done =
      Coherent-write E (record c { index = idx }) h es w (new_delete t id) seg off k refl done
        (Index.delete id idx) (λ sum. refl) (All-remove (λ p. p.0 ≤ c.id_seq) id idx.entries k.ids)
        (delete-IsHonest id idx k.honest)

  abbrev pub PassSound : Collection E → Pass V → Type 0
  PassSound c (pass_aborted x) = c.fenced ≢ none
  PassSound c (pass_over reaped stop) = Pending reaped c

  shut-PassSound : (c : Collection E) (p : Pass V) → c.fenced ≢ none → PassSound c p
  shut-PassSound c (pass_aborted x) shut = shut
  shut-PassSound c (pass_over reaped stop) shut = λ f. absurd (shut f)

  after_reap-PassSound :
      (w : Write) (t id : ℕ) (reaped : List (Entry V)) (next : Collection E → Collection E × Pass V)
      (c : Collection E)
      → Pending reaped c
      → ((d : Collection E)
          → Pending (reaped ++ new_delete t id ∷ []) d
          → PassSound (next d).0 (next d).1)
      → PassSound
          (after_reap E reaped id next (append_locked E w "reap" (new_delete t id) c)).0
          (after_reap E reaped id next (append_locked E w "reap" (new_delete t id) c)).1
  unfolding new_delete new_entry
  after_reap-PassSound w t id reaped next c pending ends =
      let After : Collection E × Result ℕ → Type 0 =
        λ p. PassSound (after_reap E reaped id next p).0 (after_reap E reaped id next p).1 in
      elim (Option-cases c.fenced) [
        | inr (g, shut) ↦
            let held : c.fenced ≢ none = λ usable. cc (usable, shut) in
            subst After (sym (append_locked-fenced E w "reap" (new_delete t id) c held)) held
        | inl usable ↦
            let (h, es, k) = pending usable in
            elim (append_locked-AppendEnds E w "reap" (new_delete t id) c usable k.tidy) [
              | inl (x, at) ↦ subst After (sym at) pending
              | inr (inl (x, d, at, shut, _)) ↦ subst After (sym at) (shut-PassSound d _ shut)
              | inr (inr (seg, off, at, done)) ↦ subst After (sym at) (
                  ends (record c { active = seg })
                    (λ _.
                      let (fs, k') =
                        Coherent-tombstone c (forgotten reaped c.index) h es w t id seg off k
                          done in
                      (
                        h,
                        fs,
                        subst
                            (λ (i : Index). Coherent E (record c { active = seg; index = i }) h fs)
                            (sym (forgotten-snoc reaped (new_delete t id) c.index)) k',
                      )))
            ]
      ]

  reap_due-PassSound :
      (b : Bool) (reap skip : Collection E → Collection E × Pass V) (c : Collection E)
      → PassSound (reap c).0 (reap c).1
      → PassSound (skip c).0 (skip c).1
      → PassSound (reap_due E b reap skip c).0 (reap_due E b reap skip c).1
  reap_due-PassSound true reap skip c r s = r
  reap_due-PassSound false reap skip c r s = s

  reap_each-PassSound :
      (ws : List Write) (t : ℕ) (ids : List ℕ) (reaped : List (Entry V)) (c : Collection E)
      → Pending reaped c
      → PassSound (reap_each E ws t ids reaped c).0 (reap_each E ws t ids reaped c).1
  unfolding reap_each
  reap_each-PassSound ws t [] reaped c pending = pending
  reap_each-PassSound ws t (id ∷ ids) reaped c pending =
      let more = reaped ++ new_delete t id ∷ [] in
      reap_due-PassSound (due t (Index.get id c.index)) _ (reap_each E ws t ids reaped) c
        (after_reap-PassSound (next_write ws) t id reaped (reap_each E (later_writes ws) t ids more)
          c pending (reap_each-PassSound (later_writes ws) t ids more))
        (reap_each-PassSound ws t ids reaped c pending)

  drop_reaped-IsSound :
      (es : List (Entry V)) (c : Collection E) → Pending es c → IsSound E (drop_reaped E es c)
  unfolding drop_reaped forgotten unindex_record publish_commit
  drop_reaped-IsSound [] c s = s
  drop_reaped-IsSound (e ∷ es) c s =
      drop_reaped-IsSound es (publish_commit E e (unindex_record E e.id c)) (λ f.
        let (h, fs, k) = s f in
        (
          h,
          fs,
          Coherent-other E _ h fs (X.remove_entry e.id c.sidx) (c.published ++ e ∷ []) c.emitted
              c.clock_floor k,
        ))

  emit_deletes-IsSound :
      (es : List (Entry V)) (c : Collection E) → IsSound E c → IsSound E (emit_deletes E es c)
  unfolding emit_deletes emit
  emit_deletes-IsSound [] c s = s
  emit_deletes-IsSound (e ∷ es) c s =
      let ev : Event V = record { op = op_delete; id = e.id; fields = none; ts = e.ts } in
      emit_deletes-IsSound es (emit E ev c) (λ f.
        let (h, fs, k) = s f in
        (h, fs, Coherent-other E c h fs c.sidx c.published (c.emitted ++ ev ∷ []) c.clock_floor k))

  rotated_pass-IsSound :
      (stop : Option (ℕ × CollectionError)) (p : Collection E × Option RotateError)
      → IsSound E p.0
      → IsSound E (rotated_pass E stop p).0
  rotated_pass-IsSound stop (c, none) s = s
  rotated_pass-IsSound stop (c, some x) s = s

  finish_pass-IsSound :
      (rot : Rotation) (es : List (Entry V)) (stop : Option (ℕ × CollectionError))
      (c : Collection E)
      → Pending es c
      → IsSound E (finish_pass E rot es stop c).0
  unfolding finish_pass
  finish_pass-IsSound rot es stop c pending =
      let d = drop_reaped E es c in
      let s = emit_deletes-IsSound es d (drop_reaped-IsSound es c pending) in
      if_elim (λ (p : Collection E × Option ReapError). IsSound E p.0)
        (leb d.cfg.segment_max_size d.active.size) _ _
        (λ _. rotated_pass-IsSound stop _ (rotate_segment-IsSound E rot (emit_deletes E es d) s))
        (λ _. s)

  synced_pass-IsSound :
      (rot : Rotation) (es : List (Entry V)) (stop : Option (ℕ × CollectionError))
      (c : Collection E) (r : Segment.Result (Unit {0}))
      → Pending es c
      → IsSound E (after_pass_sync E rot es stop (sync_outcome E "reap" r c)).0
  synced_pass-IsSound rot es stop c (Segment.ok _) pending =
      finish_pass-IsSound rot es stop c pending
  synced_pass-IsSound rot es stop c (Segment.err x) pending =
      λ f. absurd (fence-fenced E "reap" (write_cause x) c f)

  sync_pass-IsSound :
      (io : ReapIo) (es : List (Entry V)) (stop : Option (ℕ × CollectionError)) (c : Collection E)
      → Pending es c
      → IsSound E
          (after_pass_sync E io.rotation es stop (sync_commit_locked E io.synced "reap" c)).0
  unfolding sync_commit_locked
  sync_pass-IsSound io es stop c pending =
      if_elim
        (λ (p : Collection E × Result (Unit {0})).
          IsSound E (after_pass_sync E io.rotation es stop p).0)
        c.cfg.sync_always _ _
        (λ _. synced_pass-IsSound io.rotation es stop c (sync io.synced c.active) pending)
        (λ _. finish_pass-IsSound io.rotation es stop c pending)

  after_pass-IsSound :
      (io : ReapIo) (c : Collection E) (p : Pass V)
      → PassSound c p
      → IsSound E (after_pass E io (c, p)).0
  unfolding forgotten
  after_pass-IsSound io c (pass_aborted x) shut = λ f. absurd (shut f)
  after_pass-IsSound io c (pass_over [] stop) s = s
  after_pass-IsSound io c (pass_over (e ∷ es) stop) s = sync_pass-IsSound io (e ∷ es) stop c s

  -- The locked part of a pass keeps the invariant, whatever ids it was given and whatever the disk
  -- does on its way.
  reap_ids-IsSound :
      (io : ReapIo) (t : ℕ) (ids : List ℕ) (c : Collection E)
      → IsSound E c
      → IsSound E (reap_ids E io t ids c).0
  unfolding reap_ids forgotten
  reap_ids-IsSound io t [] c s = s
  reap_ids-IsSound io t (id ∷ ids) c s =
      after_pass-IsSound io _ _ (reap_each-PassSound io.writes t (id ∷ ids) [] c s)

  pub reap_expired-IsSound :
      (io : ReapIo) (c : Collection E) → IsSound E c → IsSound E (reap_expired E io c).0
  unfolding reap_expired
  reap_expired-IsSound io c s =
      if_elim (λ (p : Collection E × Option ReapError). IsSound E p.0) (is_fenced E c.fenced) _ _
        (λ _. s) (λ _. reap_ids-IsSound io _ _ _ (now-IsSound E io.clock c s))
