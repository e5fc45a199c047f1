-- ===== src/Scenarios/Writes.antt =====
-- A new collection, a committed insert, a write that poisons the segment, and a rotation.
use scriva.Prelude.{
  ℕ, ◌≡◌, ◌≢◌, ◌⊎◌, refl, true, false, none, some, [], ◌∷◌, ◌++◌, lookup, arith, take, string_eq,
  nat_eq,
}
use scriva.Store
use scriva.Store.{
  Entry, op_insert, encode, checksum, checksum_input, fields_bytes, nonzero_bytes, little_endian,
  new_insert, new_entry,
}
use scriva.Segment.{
  written, failed as write_fails, append, append_bytes, write, rollback_locked, segment_poisoned,
  open_active_segment, sync,
}
use scriva.Index.{Index, new_index, rebuild, apply_all}
use scriva.Index.Replay.{replay}
use scriva.Collection.{
  Rotation, Io, Collection, Event, Outcome, failed, write_outcome_unknown, now, refuse_if,
  unless_fenced, over_quota,
}
use scriva.Collection.Commit.{
  append_locked, sync_commit_locked, publish_commit, emit, after_commit, commit, rotate_segment,
}
use scriva.Collection.Writes.{insert, insert_record, has_key, sidx_check_unique, index_record}
use scriva.Collection.Coherence.{Coherent, IsSound, less}
use scriva.Collection.Rotating.{rotate_segment-IsSound}
use scriva.Collection.Outcomes.{Unpublished}
use scriva.Collection.Refusals.{commit-failed}
use scriva.Collection.Sequences.{start, inserted, Reaches-reopen}
use scriva.Scenarios.Toy.{toy, env, path_of}
use scriva.Scenarios.Files.{entry, line, line-IsLine}

abbrev pub all_well : Rotation
all_well = record {
  seal_synced = true;
  seal_closed = true;
  opened = true;
  reopened = true;
  dir_synced = true;
  meta_written = true;
}

abbrev pub io : Io
io = record { clock = 5; write = written; synced = true; rotation = all_well }

-- a disk that fails in a write and in the truncation after it
abbrev bad_io : Io
bad_io = record io { write = write_fails 3 false }

abbrev pub opened : Collection env
opened = record {
  cfg = record {
    segment_max_size = 100;
    max_records = 0;
    max_bytes = 0;
    default_ttl = 0;
    sync_always = true;
    sync_none = false;
  };
  fenced = none;
  id_seq = 0;
  clock_floor = 0;
  explicit_ttl = 0;
  seg_seq = 1;
  sealed = [];
  active = record {
    path = path_of 1;
    size = 0;
    is_sealed = false;
    open_file = true;
    poisoned = false;
    content = [];
  };
  index = new_index;
  sidx = tt;
  published = [];
  emitted = [];
}

opened-Coherent : Coherent env opened [] []
unfolding replay apply_all new_index
opened-Coherent = record {
  usable = refl;
  tidy = refl;
  stored = tt;
  live = refl;
  indexed = refl;
  ids = tt;
  honest = record { unset = λ _. tt };
  ordered = tt;
  number = 1;
  numbered = refl;
  below = tt;
  handed_out = omega arith;
}

pub opened-IsSound : IsSound env opened
opened-IsSound _ = ([], [], opened-Coherent)

abbrev after_insert : Collection env
after_insert = (insert env io (some (("n", 7) ∷ [])) 0 opened).0

after_insert-usable : after_insert.fenced ≡ none
unfolding insert insert_record refuse_if unless_fenced has_key lookup now over_quota
    sidx_check_unique commit append_locked append append_bytes write encode checksum checksum_input
    fields_bytes nonzero_bytes little_endian sync_commit_locked sync publish_commit index_record
    emit after_commit new_insert new_entry
after_insert-usable = refl

Reaches-reopen_example :
    (after : Index) × (rebuild toy
        (less env)
        (after_insert.sealed
          ++ open_active_segment after_insert.active.path
              (after_insert.active.content ++ take 4 (line ++ 10 ∷ []))
            ∷ [])
        new_index
      ≡ Store.ok after)
    × (after.entries ≡ after_insert.index.entries)
Reaches-reopen_example =
    Reaches-reopen env opened after_insert line 4 new_index opened-IsSound
      (inserted opened io (some (("n", 7) ∷ [])) 0 refl start) after_insert-usable line-IsLine.0
      (omega arith)

abbrev event : Event ℕ
event = record { op = op_insert; id = 1; fields = entry.fields; ts = 5 }

abbrev after_failure : Collection env × Outcome ℕ
after_failure =
    commit env bad_io "insert" entry (λ off. index_record env entry (λ s. s) off) 1 event opened

after_failure-unknown : after_failure.1 ≡ failed (write_outcome_unknown segment_poisoned)
unfolding commit append_locked append append_bytes write rollback_locked encode checksum
    checksum_input fields_bytes nonzero_bytes little_endian
after_failure-unknown = refl

commit-failed_example :
    Unpublished env opened after_failure.0
    × ((after_failure.0.active ≡ opened.active) ⊎ (after_failure.0.fenced ≢ none))
commit-failed_example =
    commit-failed env bad_io "insert" entry (λ off. index_record env entry (λ s. s) off) 1 event
      opened (write_outcome_unknown segment_poisoned) refl after_failure-unknown

rotate_segment-IsSound_example : IsSound env (rotate_segment env all_well opened).0
rotate_segment-IsSound_example = rotate_segment-IsSound env all_well opened opened-IsSound
