-- ===== src/Collection/Reaping.antt =====
-- reapExpired of engine/ttl.go: the pass that writes tombstones for the records whose deadline has
-- passed, with one sync for all of them. The ids are read before the write lock is taken, so the
-- locked part, reap_ids, takes any of them. What the disk does on each append is the list `writes`,
-- with nothing failing beyond it.
pub mod Soundness
pub mod Tombstones
pub mod Survivors
use scriva.Prelude.{
  ℕ, Bool, true, false, Option, none, some, List, [], ◌∷◌, ◌++◌, Dict, leb, nat_eq, string_eq,
  if◌then◌else◌,
}
use scriva.Store.{Entry, op_delete, new_delete}
use scriva.Segment.{Write}
use scriva.Index
use scriva.Index.{IndexEntry, expired}
use scriva.Collection.{
  Env, Collection, Rotation, RotateError, CollectionError, fenced_error, write_outcome_unknown,
  is_fenced, now,
}
use scriva.Collection.Commit.{
  Result, ok, err, append_locked, sync_commit_locked, publish_commit, emit, rotate_segment,
}
use scriva.Collection.Writes.{unindex_record}
use scriva.Collection.Batch.{next_write, later_writes}

pub record ReapIo : Type 0 where
  pub clock : ℕ
  pub writes : List Write
  pub synced : Bool
  pub rotation : Rotation

pub data ReapError : Type 0 where
  aborted : CollectionError → ReapError
  stopped_at : ℕ → CollectionError → ReapError
  not_rotated : RotateError → ReapError

-- How the loop ends: by a return, or with the tombstones that it wrote and `stopErr`.
pub data Pass (V : Type 0) : Type 0 where
  pass_aborted : CollectionError → Pass V
  pass_over : List (Entry V) → Option (ℕ × CollectionError) → Pass V

unfoldable pub expired_ids : ℕ → Dict ℕ IndexEntry → List ℕ
unfolding expired
expired_ids t [] = []
expired_ids t ((id, loc) ∷ m) =
    let ids = expired_ids t m in if expired loc.expires_at t then id ∷ ids else ids

-- `ok && expired(loc.ExpiresAt, now)`
abbrev pub due : ℕ → Option IndexEntry → Bool
due t none = false
due t (some loc) = expired loc.expires_at t

-- the errors that end the pass at once
abbrev pub ends_pass : CollectionError → Bool
ends_pass (write_outcome_unknown x) = true
ends_pass fenced_error = true
ends_pass x = false

abbrev pub stop_error : Option (ℕ × CollectionError) → Option ReapError
stop_error none = none
stop_error (some (id, x)) = some (stopped_at id x)

module _ (E : Env) where
  open E use {C, X}
  open C use {V}

  abbrev pub after_reap :
      List (Entry V)
      → ℕ
      → (Collection E → Collection E × Pass V)
      → Collection E × Result ℕ
      → Collection E × Pass V
  after_reap reaped id next (c, ok off) = next c
  after_reap reaped id next (c, err x) =
      (c, if ends_pass x then pass_aborted x else pass_over reaped (some (id, x)))

  abbrev pub reap_due :
      Bool
      → (Collection E → Collection E × Pass V)
      → (Collection E → Collection E × Pass V)
      → Collection E
      → Collection E × Pass V
  reap_due true reap skip c = reap c
  reap_due false reap skip c = skip c

  -- the loop under the write lock
  unfoldable pub reap_each :
      List Write → ℕ → List ℕ → List (Entry V) → Collection E → Collection E × Pass V
  unfolding append_locked Index.get
  reap_each ws t [] reaped c = (c, pass_over reaped none)
  reap_each ws t (id ∷ ids) reaped c =
      let e = new_delete t id in
      reap_due (due t (Index.get id c.index))
        (λ d.
          after_reap reaped id (reap_each (later_writes ws) t ids (reaped ++ e ∷ []))
            (append_locked E (next_write ws) "reap" e d))
        (reap_each ws t ids reaped) c

  unfoldable pub drop_reaped : List (Entry V) → Collection E → Collection E
  unfolding unindex_record publish_commit
  drop_reaped [] c = c
  drop_reaped (e ∷ es) c = drop_reaped es (publish_commit E e (unindex_record E e.id c))

  unfoldable pub emit_deletes : List (Entry V) → Collection E → Collection E
  unfolding emit
  emit_deletes [] c = c
  emit_deletes (e ∷ es) c =
      emit_deletes es (emit E (record { op = op_delete; id = e.id; fields = none; ts = e.ts }) c)

  abbrev pub rotated_pass :
      Option (ℕ × CollectionError)
      → Collection E × Option RotateError
      → Collection E × Option ReapError
  rotated_pass stop (c, none) = (c, stop_error stop)
  rotated_pass stop (c, some x) = (c, some (not_rotated x))

  -- from the drop of the ids on
  unfoldable pub finish_pass :
      Rotation
      → List (Entry V)
      → Option (ℕ × CollectionError)
      → Collection E
      → Collection E × Option ReapError
  unfolding drop_reaped emit_deletes rotate_segment
  finish_pass rot es stop c =
      let d = drop_reaped es c in
      let emitted = emit_deletes es d in
      if leb d.cfg.segment_max_size d.active.size
      then rotated_pass stop (rotate_segment E rot emitted)
      else (emitted, stop_error stop)

  abbrev pub after_pass_sync :
      Rotation
      → List (Entry V)
      → Option (ℕ × CollectionError)
      → Collection E × Result (Unit {0})
      → Collection E × Option ReapError
  after_pass_sync rot es stop (c, err x) = (c, some (aborted x))
  after_pass_sync rot es stop (c, ok _) = finish_pass rot es stop c

  abbrev pub after_pass : ReapIo → Collection E × Pass V → Collection E × Option ReapError
  after_pass io (c, pass_aborted x) = (c, some (aborted x))
  after_pass io (c, pass_over [] stop) = (c, stop_error stop)
  after_pass io (c, pass_over (e ∷ es) stop) =
      after_pass_sync io.rotation (e ∷ es) stop (sync_commit_locked E io.synced "reap" c)

  -- reapExpired from the write lock on
  unfoldable pub reap_ids : ReapIo → ℕ → List ℕ → Collection E → Collection E × Option ReapError
  unfolding reap_each sync_commit_locked finish_pass
  reap_ids io t [] c = (c, none)
  reap_ids io t (id ∷ ids) c = after_pass io (reap_each io.writes t (id ∷ ids) [] c)

  -- reapExpired
  unfoldable pub reap_expired : ReapIo → Collection E → Collection E × Option ReapError
  unfolding reap_ids expired_ids now
  reap_expired io c =
      if is_fenced E c.fenced
      then (c, some (aborted fenced_error))
      else let (c', t) = now E io.clock c in reap_ids io t (expired_ids t c'.index.entries) c'
