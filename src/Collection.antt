-- ===== src/Collection.antt =====
-- engine/collection.go with fence.go, quota.go and the clock of ttl.go: the state of one collection
-- and the steps that every write takes. A record's data is not encrypted. Each operation runs under
-- the collection's write lock, so it is one step here; what the clock and the disk do on it is an
-- argument, `Io`. The operations are in the modules below.
pub mod Commit
pub mod Writes
pub mod Outcomes
pub mod Coherence
pub mod Rotating
pub mod Preservation
pub mod Soundness
pub mod Reads
pub mod Keys
pub mod KeyedSoundness
pub mod Sequences
pub mod Refusals
pub mod Recovery
pub mod Batch
pub mod Reaping
use scriva.Prelude.{
  ℕ, zero, suc, ◌+◌, ◌*◌, ◌≡◌, ◌≢◌, String, Bool, true, false, not, ◌&&◌, Option, none, some, List,
  [], ◌∷◌, ◌++◌, Dict, lookup, insert, length, ltb, leb, max, ◌==◌, nat_eq, string_eq,
  if◌then◌else◌,
}
use scriva.Store
use scriva.Store.{Entry, Codec, Op, encode}
use scriva.Segment
use scriva.Segment.{
  Segment, SegmentError, Write, append, seal, sync, open_active_segment, segment_poisoned,
}
use scriva.Index.{Index, len}

abbrev pub Fields : Codec → Type 0
Fields C = Option (Dict String C.V)

-- KeyField
abbrev pub key_field : String
key_field = "_key"

-- What a collection asks of its secondary indexes (secondary_index.go): `conflicts` is
-- sidxCheckUnique on the ids that are visible, `key_of` the reverse map of the _key index, `holders`
-- its bucket, each `none` when there is no such index; ensure_key_index builds the _key index from the
-- segments when it is missing, `none` when a segment cannot be read. `batch_conflicts` is
-- txCheckUnique on the inserts and updates of a batch, and `rebuild_all` rebuilds every index from the
-- segments, with whether that failed.
pub record Secondary (C : Codec) : Type 1 where
  pub S : Type 0
  pub conflicts : S → (ℕ → Bool) → ℕ → Fields C → Bool
  pub index_entry : ℕ → Fields C → S → S
  pub update_entry : ℕ → Fields C → S → S
  pub remove_entry : ℕ → S → S
  pub key_of : S → ℕ → Option String
  pub key_conflict : S → Bool
  pub holders : S → String → Option (List ℕ)
  pub ensure_key_index : List Segment → S → Option S
  pub batch_conflicts : S → (ℕ → Bool) → List (ℕ × Fields C) → Bool
  pub rebuild_all : List Segment → S → S × Bool

-- What the collection relies on beyond the modules: the names of its segment files, which
-- segmentNum reads back, and a string as a value.
pub record Env : Type 1 where
  pub C : Codec
  pub X : Secondary C
  pub segment_path : ℕ → String
  pub segment_num : String → Option ℕ
  pub name_less : String → String → Bool
  pub string_value : String → C.V
  pub num-path : (n : ℕ) → segment_num (segment_path n) ≡ some n

-- CollectionConfig; 0 is "no limit" and "no default"
pub record Config : Type 0 where
  pub segment_max_size : ℕ
  pub max_records : ℕ
  pub max_bytes : ℕ
  pub default_ttl : ℕ
  pub sync_always : Bool
  pub sync_none : Bool

-- What the disk does on a rotation: the seal's fsync and close, whether the new file opens and, if
-- not, the old one again, the directory's fsync, and the write of meta.json.
pub record Rotation : Type 0 where
  pub seal_synced : Bool
  pub seal_closed : Bool
  pub opened : Bool
  pub reopened : Bool
  pub dir_synced : Bool
  pub meta_written : Bool

-- The clock's reading, and what the disk does.
pub record Io : Type 0 where
  pub clock : ℕ
  pub write : Write
  pub synced : Bool
  pub rotation : Rotation

pub data RotateError : Type 0 where
  rotate_fenced seal_failed create_failed dir_failed close_failed meta_failed : RotateError

pub data CollectionError : Type 0 where
  fenced_error resource_exhausted duplicate_key not_found reserved_field : CollectionError
  key_not_found key_index_conflict key_index_failed segment_not_found read_failed integrity_error :
      CollectionError
  write_outcome_unknown : SegmentError → CollectionError
  not_applied : SegmentError → CollectionError
  post_commit : RotateError → CollectionError

-- A refused or failed write, or a committed one with the error of a later step, if any.
pub data Outcome {ℓ} (A : Type ℓ) : Type ℓ where
  failed : CollectionError → Outcome A
  committed : A → Option RotateError → Outcome A

pub data Cause : Type 0 where
  write_cause : SegmentError → Cause
  rotate_cause : RotateError → Cause

-- the first cause of a fence
pub record Fence : Type 0 where
  pub op : String
  pub cause : Cause

pub record Event (V : Type 0) : Type 0 where
  pub op : Op
  pub id : ℕ
  pub fields : Option (Dict String V)
  pub ts : ℕ

-- `published` is what publishCommit handed to the replication feed, `emitted` the watch events.
pub record Collection (E : Env) : Type 0 where
  pub cfg : Config
  pub fenced : Option Fence
  pub id_seq : ℕ
  pub clock_floor : ℕ
  pub explicit_ttl : ℕ
  pub seg_seq : ℕ
  pub sealed : List Segment
  pub active : Segment
  pub index : Index
  pub sidx : E.X.S
  pub published : List (Entry E.C.V)
  pub emitted : List (Event E.C.V)

module _ (E : Env) where
  open E use {C, X}
  open C use {V}

  -- `c.fenced.CompareAndSwap(nil, f)`
  abbrev pub first_cause : Option Fence → Fence → Option Fence
  first_cause none f = some f
  first_cause (some g) f = some g

  -- fence: only the first call takes effect
  unfoldable pub fence : String → Cause → Collection E → Collection E
  fence op cause c = record c { fenced = first_cause c.fenced (record { op = op; cause = cause }) }

  abbrev pub is_fenced : Option Fence → Bool
  is_fenced none = false
  is_fenced (some f) = true

  -- an early return: the error when the test holds, and else the rest of the operation
  unfoldable pub refuse_if :
      {A : Type 0}
      → Bool
      → CollectionError
      → Collection E
      → Collection E × Outcome A
      → Collection E × Outcome A
  refuse_if test x c rest = if test then (c, failed x) else rest

  -- checkFenced, around the rest of an operation
  unfoldable pub unless_fenced :
      {A : Type 0} → Collection E → Collection E × Outcome A → Collection E × Outcome A
  unfolding refuse_if
  unless_fenced c rest = refuse_if (is_fenced c.fenced) fenced_error c rest

  -- now: the clock, floored by its high-water mark
  unfoldable pub now : ℕ → Collection E → Collection E × ℕ
  now clock c =
      if leb clock c.clock_floor
      then (c, c.clock_floor)
      else (record c { clock_floor = clock }, clock)

  -- resolveInsertExpiryAt; an explicit 0 is the zero time
  unfoldable pub resolve_insert_expiry_at : ℕ → ℕ → Collection E → ℕ
  resolve_insert_expiry_at explicit t c =
      if not (explicit == 0)
      then explicit
      else if ltb 0 c.explicit_ttl
      then t + c.explicit_ttl * 1000000000
      else if ltb 0 c.cfg.default_ttl
      then t + c.cfg.default_ttl
      else 0

  -- entryQuotaBytes
  abbrev pub encoded_length : Store.Result Store.Bytes → ℕ
  encoded_length (Store.ok b) = length b
  encoded_length (Store.err e) = 0

  unfoldable pub entry_quota_bytes : Entry V → Collection E → ℕ
  entry_quota_bytes e c = if c.cfg.max_bytes == 0 then 0 else encoded_length (encode C e)

  abbrev pub total_size : List Segment → ℕ
  total_size [] = 0
  total_size (s ∷ ss) = s.size + total_size ss

  -- sizeBytesLocked
  unfoldable pub size_bytes_locked : Collection E → ℕ
  size_bytes_locked c = total_size c.sealed + c.active.size

  -- checkQuotaLocked: whether the write is refused
  unfoldable pub over_quota : ℕ → ℕ → Collection E → Bool
  unfolding size_bytes_locked len
  over_quota records bytes c =
      if ltb 0 c.cfg.max_records && ltb c.cfg.max_records (len c.index + records)
      then true
      else ltb 0 c.cfg.max_bytes && ltb c.cfg.max_bytes (size_bytes_locked c + bytes)
