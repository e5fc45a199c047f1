-- ===== src/Collection/Commit.antt =====
-- The steps of a single-record write in engine/collection.go, from the append to the rotation.
use scriva.Prelude.{
  ℕ, suc, String, Bool, true, Option, none, some, [], ◌∷◌, ◌++◌, leb, if◌then◌else◌,
}
use scriva.Store.{Entry}
use scriva.Segment
use scriva.Segment.{
  Segment, SegmentError, Write, append, seal, sync, open_active_segment, segment_poisoned,
}
use scriva.Collection.{
  Env, Collection, Rotation, Io, RotateError, rotate_fenced, seal_failed, create_failed, dir_failed,
  close_failed, meta_failed, CollectionError, fenced_error, write_outcome_unknown, not_applied,
  Outcome, failed, committed, write_cause, rotate_cause, Event, fence, is_fenced,
}

pub data Result {ℓ} (A : Type ℓ) : Type ℓ where
  ok : A → Result A
  err : CollectionError → Result A

module _ (E : Env) where
  open E use {C, X, segment_path}
  open C use {V}

  -- A poisoned append has fenced the collection through the segment's hook before the writer does.
  abbrev pub append_outcome : String → Segment.Result ℕ → Collection E → Collection E × Result ℕ
  append_outcome op (Segment.ok offset) c = (c, ok offset)
  append_outcome op (Segment.err segment_poisoned) c = (
    fence E op (write_cause segment_poisoned) (fence E "truncate" (write_cause segment_poisoned) c),
    err (write_outcome_unknown segment_poisoned),
  )
  append_outcome op (Segment.err x) c = (c, err (not_applied x))

  -- appendLocked
  unfoldable pub append_locked : Write → String → Entry V → Collection E → Collection E × Result ℕ
  append_locked io op e c =
      if is_fenced E c.fenced
      then (c, err fenced_error)
      else let (seg, r) = append C io e c.active in append_outcome op r (record c { active = seg })

  abbrev pub sync_outcome :
      String → Segment.Result (Unit {0}) → Collection E → Collection E × Result (Unit {0})
  sync_outcome op (Segment.ok _) c = (c, ok tt)
  sync_outcome op (Segment.err x) c = (fence E op (write_cause x) c, err (write_outcome_unknown x))

  -- syncCommitLocked
  unfoldable pub sync_commit_locked :
      Bool → String → Collection E → Collection E × Result (Unit {0})
  sync_commit_locked synced op c =
      if c.cfg.sync_always then sync_outcome op (sync synced c.active) c else (c, ok tt)

  -- publishCommit, with replication enabled
  unfoldable pub publish_commit : Entry V → Collection E → Collection E
  publish_commit e c = record c { published = c.published ++ e ∷ [] }

  -- emit; a subscriber's buffer is not modelled
  unfoldable pub emit : Event V → Collection E → Collection E
  emit ev c = record c { emitted = c.emitted ++ ev ∷ [] }

  -- rotateSegment from the directory's fsync on
  unfoldable pub rotate_persist :
      Rotation → Segment.Result (Unit {0}) → Collection E → Collection E × Option RotateError
  rotate_persist rot closed c =
      if (if c.cfg.sync_none then true else rot.dir_synced)
      then (
        c,
        elim closed [
          | Segment.err x ↦ some close_failed
          | Segment.ok _ ↦ if rot.meta_written then none else some meta_failed
        ],
      )
      else (fence E "rotate" (rotate_cause dir_failed) c, some dir_failed)

  -- and from the new file's creation on; `old` is sealed
  unfoldable pub rotate_create :
      Rotation
      → Segment
      → Segment.Result (Unit {0})
      → Collection E
      → Collection E × Option RotateError
  unfolding rotate_persist
  rotate_create rot old closed c =
      let n = suc c.seg_seq in
      if rot.opened
      then rotate_persist rot closed (record c {
        seg_seq = n;
        sealed = c.sealed ++ old ∷ [];
        active = open_active_segment (segment_path n) [];
      })
      else if rot.reopened
      then (
        record c { seg_seq = n; active = open_active_segment old.path old.content },
        some create_failed,
      )
      else (
        fence E "rotate" (rotate_cause create_failed) (record c { seg_seq = n; active = old }),
        some create_failed,
      )

  -- rotateSegment
  unfoldable pub rotate_segment : Rotation → Collection E → Collection E × Option RotateError
  unfolding rotate_create
  rotate_segment rot c =
      if is_fenced E c.fenced
      then (c, some rotate_fenced)
      else let (old, r) = seal rot.seal_synced rot.seal_closed c.active in
        if old.is_sealed
        then rotate_create rot old r c
        else (fence E "seal" (rotate_cause seal_failed) c, some seal_failed)

  abbrev pub with_rotation :
      {A : Type 0} → A → Collection E × Option RotateError → Collection E × Outcome A
  with_rotation a (c, r) = (c, committed a r)

  -- afterCommit
  unfoldable pub after_commit :
      {A : Type 0} → Rotation → A → Event V → Bool → Collection E → Collection E × Outcome A
  after_commit rot a ev need_rotate c =
      let c' = emit ev c in
      if need_rotate then with_rotation a (rotate_segment rot c') else (c', committed a none)

  -- What is left of a write after the append, and after the sync: `apply` puts the record, now at
  -- this offset, into the indexes.
  abbrev pub after_sync :
      {A : Type 0}
      → Io
      → Entry V
      → (Collection E → Collection E)
      → A
      → Event V
      → Collection E × Result (Unit {0})
      → Collection E × Outcome A
  after_sync io e apply a ev (c, err x) = (c, failed x)
  after_sync io e apply a ev (c, ok _) =
      let c' = publish_commit e (apply c) in
      after_commit io.rotation a ev (leb c'.cfg.segment_max_size c'.active.size) c'

  abbrev pub after_append :
      {A : Type 0}
      → Io
      → String
      → Entry V
      → (ℕ → Collection E → Collection E)
      → A
      → Event V
      → Collection E × Result ℕ
      → Collection E × Outcome A
  after_append io op e apply a ev (c, err x) = (c, failed x)
  after_append io op e apply a ev (c, ok offset) =
      after_sync io e (apply offset) a ev (sync_commit_locked io.synced op c)

  -- the tail that the writes share, from appendLocked on
  unfoldable pub commit :
      {A : Type 0}
      → Io
      → String
      → Entry V
      → (ℕ → Collection E → Collection E)
      → A
      → Event V
      → Collection E
      → Collection E × Outcome A
  commit io op e apply a ev c = after_append io op e apply a ev (append_locked io.write op e c)
