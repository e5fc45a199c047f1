-- ===== src/Collection/Reads.antt =====
-- Get of engine/collection.go and the lookups that it and the keyed operations use. No compaction
-- swap runs between a lookup and its read, so the first optimistic attempt of getStored stands.
use scriva.Prelude.{
  ℕ, String, Option, none, some, List, [], ◌∷◌, Dict, ◌==◌, nat_eq, string_eq, if◌then◌else◌,
}
use scriva.Store
use scriva.Store.{Entry, Codec}
use scriva.Segment.{Segment}
use scriva.Segment.Reading.{read_at}
use scriva.Index
use scriva.Index.{Index, IndexEntry, expired}
use scriva.Collection.{
  Env, Collection, fenced_error, not_found, key_not_found, key_index_conflict, segment_not_found,
  read_failed, integrity_error, now, is_fenced,
}
use scriva.Collection.Commit.{Result, ok, err}

-- Record, without the key, which Get reads from the data
pub record Rec (V : Type 0) : Type 0 where
  pub id : ℕ
  pub rev : ℕ
  pub ts : ℕ
  pub fields : Option (Dict String V)

module _ (E : Env) where
  open E use {C, X}
  open C use {V}

  abbrev pub first_by_path : String → Segment → List Segment → Option Segment
  first_by_path path last [] = if last.path == path then some last else none
  first_by_path path last (s ∷ ss) = if s.path == path then some s else first_by_path path last ss

  -- segmentByPathLocked
  unfoldable pub segment_by_path_locked : String → Collection E → Option Segment
  segment_by_path_locked path c = first_by_path path c.active c.sealed

  -- the end of readLocated, with the result of ReadAt in hand
  abbrev pub located : ℕ → Store.Result (Entry V) → Result (Entry V)
  located id (Store.err x) = err read_failed
  located id (Store.ok e) = if e.id == id then ok e else err integrity_error

  abbrev pub read_segment : ℕ → ℕ → Option Segment → Result (Entry V)
  read_segment id offset none = err segment_not_found
  read_segment id offset (some seg) = located id (read_at C offset seg)

  -- readLocated, with the segment that getStored found
  unfoldable pub read_located : ℕ → Option IndexEntry → ℕ → Collection E → Result (Entry V)
  unfolding segment_by_path_locked expired
  read_located id none t c = err not_found
  read_located id (some loc) t c =
      if expired loc.expires_at t
      then err not_found
      else read_segment id loc.offset (segment_by_path_locked loc.segment_path c)

  abbrev pub as_record : ℕ → Option IndexEntry → Result (Entry V) → Result (Rec V)
  as_record id none r = err not_found
  as_record id (some loc) (err x) = err x
  as_record id (some loc) (ok e) =
      ok (record { id = id; rev = loc.rev; ts = e.ts; fields = e.fields })

  -- Get
  unfoldable pub get : ℕ → ℕ → Collection E → Collection E × Result (Rec V)
  unfolding read_located
  get clock id c =
      if is_fenced E c.fenced
      then (c, err fenced_error)
      else let (c', t) = now E clock c in
        let loc = Index.get id c.index in (c', as_record id loc (read_located id loc t c))

  -- liveIDs
  abbrev pub keep_live : ℕ → ℕ → Option IndexEntry → List ℕ → List ℕ
  keep_live id t none rest = rest
  keep_live id t (some loc) rest = if expired loc.expires_at t then rest else id ∷ rest

  unfoldable pub live_ids : List ℕ → ℕ → Index → List ℕ
  live_ids [] t idx = []
  live_ids (id ∷ ids) t idx = keep_live id t (Index.get id idx) (live_ids ids t idx)

  -- indexLookup of the key field
  abbrev pub live_holders : Option (List ℕ) → ℕ → Index → List ℕ
  live_holders none t idx = []
  live_holders (some ids) t idx = live_ids ids t idx

  abbrev pub first_holder : List ℕ → Result ℕ
  first_holder [] = err key_not_found
  first_holder (id ∷ ids) = ok id

  -- resolveKey
  unfoldable pub resolve_key : ℕ → String → Collection E → Result ℕ
  unfolding live_ids
  resolve_key t key c =
      if is_fenced E c.fenced
      then err fenced_error
      else if X.key_conflict c.sidx
      then err key_index_conflict
      else first_holder (live_holders (X.holders c.sidx key) t c.index)
