-- ===== src/Scenarios/Deadlines.antt =====
-- A record whose deadline passes, and the pass of the reaper that takes it away.
use scriva.Prelude.{
  ◌≡◌, refl, true, none, some, [], ◌∷◌, lookup, insert as dict_insert, nat_eq, string_eq,
  if◌then◌else◌,
}
use scriva.Store.{
  encode, checksum, checksum_input, fields_bytes, nonzero_bytes, little_endian, new_insert,
  new_delete, new_entry,
}
use scriva.Segment.{append, append_bytes, write, sync}
use scriva.Index
use scriva.Index.{expired, new_index}
use scriva.Collection.{
  Collection, now, refuse_if, unless_fenced, over_quota, resolve_insert_expiry_at,
}
use scriva.Collection.Commit.{
  append_locked, sync_commit_locked, publish_commit, emit, after_commit, commit,
}
use scriva.Collection.Writes.{
  insert, insert_record, has_key, sidx_check_unique, index_record, unindex_record,
}
use scriva.Collection.Reaping.{
  ReapIo, due, reap_expired, expired_ids, reap_ids, reap_each, finish_pass, drop_reaped,
  emit_deletes,
}
use scriva.Collection.Reaping.Survivors.{Fate, reap_expired-Fate, reap_expired-due}
use scriva.Scenarios.Toy.{env}
use scriva.Scenarios.Writes.{io, opened, all_well}

-- inserted at 5, with the deadline 7
abbrev with_deadline : Collection env
with_deadline = (insert env io (some (("n", 7) ∷ [])) 7 opened).0

abbrev at_nine : ReapIo
at_nine = record { clock = 9; writes = []; synced = true; rotation = all_well }

at_nine-reaps : (reap_expired env at_nine with_deadline).1 ≡ none
unfolding insert insert_record refuse_if unless_fenced has_key lookup now over_quota
    resolve_insert_expiry_at sidx_check_unique commit append_locked append append_bytes write encode
    checksum checksum_input fields_bytes nonzero_bytes little_endian sync_commit_locked sync
    publish_commit index_record emit after_commit new_insert new_delete new_entry reap_expired
    expired_ids expired reap_ids reap_each finish_pass drop_reaped emit_deletes unindex_record
    Index.set dict_insert new_index
at_nine-reaps = refl

reap_expired-Fate_example :
    Fate env
      (now env 9 with_deadline).1
      1
      with_deadline.index
      (reap_expired env at_nine with_deadline)
reap_expired-Fate_example = reap_expired-Fate env at_nine with_deadline 1

reap_expired-due_example : lookup 1 (reap_expired env at_nine with_deadline).0.index.entries ≡ (
    if due (now env 9 with_deadline).1 (lookup 1 with_deadline.index.entries)
    then none
    else lookup 1 with_deadline.index.entries)
reap_expired-due_example = reap_expired-due env at_nine with_deadline 1 at_nine-reaps
