-- ===== src/Collection/Writes.antt =====
-- Insert, Update and Delete of engine/collection.go. One operation reads the clock once: a later
-- reading within it is taken to be the same.
use scriva.Prelude.{
  ℕ, suc, ◌+◌, String, Bool, true, false, not, Option, none, some, [], Dict, lookup,
  insert as dict_insert, nat_eq, string_eq, if◌then◌else◌,
}
use scriva.Store.{Entry, op_insert, op_update, op_delete, new_insert, new_update, new_delete}
use scriva.Index
use scriva.Index.{IndexEntry, expired}
use scriva.Collection.{
  Env, Fields, key_field, Collection, Io, resource_exhausted, duplicate_key, not_found,
  reserved_field, Outcome, failed, now, refuse_if, unless_fenced, resolve_insert_expiry_at,
  entry_quota_bytes, over_quota,
}
use scriva.Collection.Commit.{commit}

-- `_, ok := data[KeyField]`; a nil map has no key
unfoldable pub has_key : {V : Type 0} → Option (Dict String V) → Bool
has_key none = false
has_key (some m) = elim (lookup key_field m) [ none ↦ false | some _ ↦ true ]

-- stampKey
unfoldable pub stamp_key : {V : Type 0} → V → Option (Dict String V) → Option (Dict String V)
stamp_key v none = some (dict_insert key_field v [])
stamp_key v (some m) = some (dict_insert key_field v m)

-- an entry as a write fills it in
abbrev pub versioned : {V : Type 0} → ℕ → ℕ → Entry V → Entry V
versioned rev expires_at e = record e { rev = rev; expires_at = expires_at }

-- the holders that a uniqueness check sees: those in the index that have not expired
unfoldable pub visible : Index.Index → ℕ → ℕ → Bool
unfolding expired Index.get
visible idx t id = elim (Index.get id idx) [
  | none ↦ false
  | some loc ↦ not (expired loc.expires_at t)
]

module _ (E : Env) where
  open E use {C, X, string_value}
  open C use {V}

  -- sidxCheckUnique
  unfoldable pub sidx_check_unique : ℕ → ℕ → Fields C → Collection E → Bool
  sidx_check_unique t id doc c = X.conflicts c.sidx (visible c.index t) id doc

  -- `c.index.Set(id, IndexEntry{…})` and the secondary indexes
  unfoldable pub index_record : Entry V → (X.S → X.S) → ℕ → Collection E → Collection E
  index_record e move offset c = record c {
    index =
        Index.set e.id
          (record {
            segment_path = c.active.path;
            offset = offset;
            rev = e.rev;
            expires_at = e.expires_at;
            epoch = e.epoch;
          })
          c.index;
    sidx = move c.sidx;
  }

  unfoldable pub unindex_record : ℕ → Collection E → Collection E
  unindex_record id c = record c {
    index = Index.delete id c.index;
    sidx = X.remove_entry id c.sidx;
  }

  -- insert
  unfoldable pub insert_record : Io → Fields C → ℕ → Collection E → Collection E × Outcome (ℕ × ℕ)
  insert_record io doc expires_at c =
      let id = suc c.id_seq in
      let (c', t) = now E io.clock (record c { id_seq = id }) in
      let e = versioned 1 expires_at (new_insert t id doc) in
      unless_fenced E c' (
        refuse_if E (over_quota E 1 (entry_quota_bytes E e c') c') resource_exhausted c' (
          refuse_if E (sidx_check_unique t id doc c') duplicate_key c' (
            commit E io "insert" e (λ off. index_record e (X.index_entry id doc) off) (id, t)
              (record { op = op_insert; id = id; fields = doc; ts = t }) c')))

  -- Insert and InsertWithExpiry; an explicit deadline of 0 is the zero time
  unfoldable pub insert : Io → Fields C → ℕ → Collection E → Collection E × Outcome (ℕ × ℕ)
  insert io doc explicit c = refuse_if E (has_key doc) reserved_field c (
      let (c', t) = now E io.clock c in
      insert_record io doc (resolve_insert_expiry_at E explicit t c') c')

  abbrev pub keep_key : Fields C → Option String → Fields C
  keep_key doc none = doc
  keep_key doc (some key) = stamp_key (string_value key) doc

  -- preserveReservedLocked
  unfoldable pub preserve_reserved_locked : ℕ → Fields C → Collection E → Fields C
  preserve_reserved_locked id doc c = if has_key doc then doc else keep_key doc (X.key_of c.sidx id)

  -- update, once the record's index entry is in hand
  abbrev pub update_found :
      Io → ℕ → ℕ → Fields C → ℕ → Bool → Collection E → Option IndexEntry → Collection E × Outcome ℕ
  update_found io t id doc expires_at keep_expiry c none = (c, failed not_found)
  update_found io t id doc expires_at keep_expiry c (some cur) =
      let kept = preserve_reserved_locked id doc c in
      let exp = if keep_expiry then cur.expires_at else expires_at in
      let e = versioned (cur.rev + 1) exp (new_update t id kept) in
      refuse_if E (sidx_check_unique t id doc c) duplicate_key c (
        commit E io "update" e (λ off. index_record e (X.update_entry id kept) off) t
          (record { op = op_update; id = id; fields = kept; ts = t }) c)

  -- update
  unfoldable pub update_record :
      Io → ℕ → Fields C → ℕ → Bool → Collection E → Collection E × Outcome ℕ
  update_record io id doc expires_at keep_expiry c =
      let (c', t) = now E io.clock c in
      unless_fenced E c'
        (update_found io t id doc expires_at keep_expiry c' (Index.get id c'.index))

  -- Update
  unfoldable pub update : Io → ℕ → Fields C → Collection E → Collection E × Outcome ℕ
  update io id doc c = refuse_if E (has_key doc) reserved_field c (update_record io id doc 0 true c)

  -- UpdateWithExpiry
  unfoldable pub update_with_expiry :
      Io → ℕ → Fields C → ℕ → Collection E → Collection E × Outcome ℕ
  update_with_expiry io id doc explicit c = refuse_if E (has_key doc) reserved_field c (
      let (c', t) = now E io.clock c in
      update_record io id doc (resolve_insert_expiry_at E explicit t c') false c')

  abbrev pub delete_found :
      Io → ℕ → ℕ → Collection E → Option IndexEntry → Collection E × Outcome (Unit {0})
  delete_found io t id c none = (c, failed not_found)
  delete_found io t id c (some cur) =
      commit E io "delete" (new_delete t id) (λ off. unindex_record id) tt
        (record { op = op_delete; id = id; fields = none; ts = t }) c

  -- Delete
  unfoldable pub delete : Io → ℕ → Collection E → Collection E × Outcome (Unit {0})
  delete io id c =
      let (c', t) = now E io.clock c in
      unless_fenced E c' (delete_found io t id c' (Index.get id c'.index))
