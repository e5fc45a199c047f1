-- ===== src/Collection/Keys.antt =====
-- engine/keys.go and compareAndSwap of engine/collection.go: the operations by string key. Persisting
-- a new _key index is taken to succeed.
use scriva.Prelude.{
  ℕ, suc, ◌+◌, String, Bool, true, false, Option, none, some, List, [], ◌∷◌, ◌++◌, ◌==◌, nat_eq,
  if◌then◌else◌,
}
use scriva.Store.{Entry, op_insert, op_update, new_insert, new_update}
use scriva.Index
use scriva.Index.{Index, IndexEntry}
use scriva.Collection.{
  Env, Fields, Collection, Io, resource_exhausted, duplicate_key, reserved_field,
  key_index_conflict, key_index_failed, Outcome, failed, committed, now, refuse_if, unless_fenced,
  resolve_insert_expiry_at, entry_quota_bytes, over_quota,
}
use scriva.Collection.Commit.{Result, ok, err, commit}
use scriva.Collection.Writes.{
  has_key, stamp_key, versioned, sidx_check_unique, index_record, insert_record, update_record,
  delete,
}
use scriva.Collection.Reads.{Rec, live_holders, resolve_key, read_segment, segment_by_path_locked}

module _ (E : Env) where
  open E use {C, X, string_value}
  open C use {V}

  abbrev pub with_ensured :
      {A : Type 0}
      → Option X.S
      → Collection E
      → (Collection E → Collection E × Outcome A)
      → Collection E × Outcome A
  with_ensured none c rest = (c, failed key_index_failed)
  with_ensured (some s) c rest = rest (record c { sidx = s })

  -- ensureKeyIndex, on a collection that is not fenced, and what follows it
  unfoldable pub ensure_key_index :
      {A : Type 0}
      → Collection E
      → (Collection E → Collection E × Outcome A)
      → Collection E × Outcome A
  ensure_key_index c rest =
      with_ensured (X.ensure_key_index (c.sealed ++ c.active ∷ []) c.sidx) c rest

  -- InsertWithKey
  unfoldable pub insert_with_key :
      Io → String → Fields C → Collection E → Collection E × Outcome (ℕ × ℕ)
  insert_with_key io key doc c = refuse_if E (has_key doc) reserved_field c (
      unless_fenced E c (
        ensure_key_index c (λ c1. refuse_if E (X.key_conflict c1.sidx) key_index_conflict c1 (
          let (c2, t) = now E io.clock c1 in
          insert_record E io (stamp_key (string_value key) doc) (resolve_insert_expiry_at E 0 t c2)
            c2))))

  abbrev pub with_id :
      {A : Type 0}
      → Result ℕ
      → Collection E
      → (ℕ → Collection E × Outcome A)
      → Collection E × Outcome A
  with_id (err x) c rest = (c, failed x)
  with_id (ok id) c rest = rest id

  -- UpdateByKey
  unfoldable pub update_by_key : Io → String → Fields C → Collection E → Collection E × Outcome ℕ
  update_by_key io key doc c = refuse_if E (has_key doc) reserved_field c (
      let (c', t) = now E io.clock c in
      with_id (resolve_key E t key c') c'
        (λ id. update_record E io id (stamp_key (string_value key) doc) 0 true c'))

  -- DeleteByKey
  unfoldable pub delete_by_key : Io → String → Collection E → Collection E × Outcome (Unit {0})
  delete_by_key io key c =
      let (c', t) = now E io.clock c in
      with_id (resolve_key E t key c') c' (λ id. delete E io id c')

  -- the record that carries the key, with its index entry
  abbrev pub holder_entry : ℕ → Option IndexEntry → Option (ℕ × IndexEntry)
  holder_entry id none = none
  holder_entry id (some loc) = some (id, loc)

  abbrev pub held_by : List ℕ → Index → Option (ℕ × IndexEntry)
  held_by [] idx = none
  held_by (id ∷ ids) idx = holder_entry id (Index.get id idx)

  -- Upsert in its critical section: a replace, or an insert under a new id
  abbrev pub upsert_held :
      Io → ℕ → Fields C → Collection E → Option (ℕ × IndexEntry) → Collection E × Outcome (Rec V)
  upsert_held io t stamped c (some (id, cur)) =
      let e = versioned (cur.rev + 1) cur.expires_at (new_update io.clock id stamped) in
      refuse_if E (sidx_check_unique E t id stamped c) duplicate_key c (
        commit E io "upsert" e (λ off. index_record E e (X.update_entry id stamped) off)
          (record { id = id; rev = cur.rev + 1; ts = io.clock; fields = stamped })
          (record { op = op_update; id = id; fields = stamped; ts = io.clock }) c)
  upsert_held io t stamped c none =
      let id = suc c.id_seq in
      let c' = record c { id_seq = id } in
      let e = versioned 1 (resolve_insert_expiry_at E 0 t c') (new_insert io.clock id stamped) in
      refuse_if E (over_quota E 1 (entry_quota_bytes E e c') c') resource_exhausted c' (
        refuse_if E (sidx_check_unique E t id stamped c') duplicate_key c' (
          commit E io "upsert" e (λ off. index_record E e (X.index_entry id stamped) off)
            (record { id = id; rev = 1; ts = io.clock; fields = stamped })
            (record { op = op_insert; id = id; fields = stamped; ts = io.clock }) c'))

  -- Upsert
  unfoldable pub upsert : Io → String → Fields C → Collection E → Collection E × Outcome (Rec V)
  upsert io key doc c = refuse_if E (has_key doc) reserved_field c (
      unless_fenced E c (
        ensure_key_index c (λ c1. refuse_if E (X.key_conflict c1.sidx) key_index_conflict c1 (
          let (c2, t) = now E io.clock c1 in
          upsert_held io t (stamp_key (string_value key) doc) c2
            (held_by (live_holders E (X.holders c2.sidx key) t c2.index) c2.index)))))

  -- compareAndSwap from the predicate on; `(false, nil)` is a commit of nothing
  abbrev pub swap_read :
      Io
      → ℕ
      → String
      → Fields C
      → (Fields C → ℕ → Bool)
      → Collection E
      → ℕ
      → IndexEntry
      → Result (Entry V)
      → Collection E × Outcome Bool
  swap_read io t key doc holds c id loc (err x) = (c, failed x)
  swap_read io t key doc holds c id loc (ok read) =
      let stamped = stamp_key (string_value key) doc in
      let e = versioned (loc.rev + 1) loc.expires_at (new_update t id stamped) in
      if holds read.fields loc.rev
      then refuse_if E (sidx_check_unique E t id stamped c) duplicate_key c (
          commit E io "cas" e (λ off. index_record E e (X.update_entry id stamped) off) true
            (record { op = op_update; id = id; fields = stamped; ts = t }) c)
      else (c, committed false none)

  abbrev pub swap_held :
      Io
      → ℕ
      → String
      → Fields C
      → (Fields C → ℕ → Bool)
      → Collection E
      → Option (ℕ × IndexEntry)
      → Collection E × Outcome Bool
  swap_held io t key doc holds c none = (c, committed false none)
  swap_held io t key doc holds c (some (id, loc)) =
      swap_read io t key doc holds c id loc
        (read_segment E id loc.offset (segment_by_path_locked E loc.segment_path c))

  -- compareAndSwap
  unfoldable pub compare_and_swap :
      Io → String → Fields C → (Fields C → ℕ → Bool) → Collection E → Collection E × Outcome Bool
  compare_and_swap io key doc holds c =
      let (c', t) = now E io.clock c in
      unless_fenced E c' (
        refuse_if E (X.key_conflict c'.sidx) key_index_conflict c' (
          swap_held io t key doc holds c'
            (held_by (live_holders E (X.holders c'.sidx key) t c'.index) c'.index)))

  -- UpdateIfRev
  unfoldable pub update_if_rev :
      Io → String → ℕ → Fields C → Collection E → Collection E × Outcome Bool
  update_if_rev io key expected doc c =
      refuse_if E (has_key doc) reserved_field c
        (compare_and_swap io key doc (λ _ rev. rev == expected) c)
