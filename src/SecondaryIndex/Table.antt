-- ===== src/SecondaryIndex/Table.antt =====
-- engine/collection.go and engine/keys.go: the secondary indexes of a collection by field, and the
-- operations that the writes call, as the interface `Secondary` of Collection asks for them.
use scriva.Prelude.{
  is_some, ℕ, String, Bool, true, false, not, ◌&&◌, ◌||◌, Option, none, some, List, [], ◌∷◌, ◌++◌,
  Dict, lookup, insert, remove, ◌==◌, nat_eq, string_eq, if◌then◌else◌,
}
use scriva.Store
use scriva.Store.{Entry, Codec}
use scriva.Segment.{Segment, scan_from_offset}
use scriva.Collection.{Fields, Secondary, key_field}
use scriva.SecondaryIndex.{
  SecondaryIndex, new_secondary_index, IndexValues, to_index_key, accepts, lookup_ids, add,
  remove_id, update_id,
}
use scriva.SecondaryIndex.Buckets.{}
use scriva.SecondaryIndex.Rebuild.{first_duplicate, rebuild_index}

-- maxKeyConflictIDs
abbrev pub max_key_conflict_ids : ℕ
max_key_conflict_ids = 16

-- sidxConflict: another id in the bucket that the index of the collection shows as visible
unfoldable pub sidx_conflict : (ℕ → Bool) → ℕ → List ℕ → Bool
sidx_conflict seen id [] = false
sidx_conflict seen id (j ∷ js) =
    let rest = sidx_conflict seen id js in if j == id then rest else if seen j then true else rest

module _ (C : Codec) (I : IndexValues C.V) where
  open C use {V}

  -- sidxMap
  abbrev pub Table : Type 0
  Table = Dict String (SecondaryIndex V)

  -- `data[field]`
  unfoldable pub data_field : String → Fields C → Option V
  unfolding lookup
  data_field field none = none
  data_field field (some m) = lookup field m

  abbrev pub claims : (ℕ → Bool) → ℕ → SecondaryIndex V → Option V → Bool
  claims seen id s none = false
  claims seen id s (some v) =
      accepts I v s && sidx_conflict seen id (lookup_ids (to_index_key I v) s)

  -- sidxCheckUnique: `true` is ErrDuplicateKey
  unfoldable pub sidx_check : Table → (ℕ → Bool) → ℕ → Fields C → Bool
  unfolding sidx_conflict lookup_ids accepts data_field to_index_key
  sidx_check [] seen id doc = false
  sidx_check ((field, s) ∷ m) seen id doc =
      (s.unique && claims seen id s (data_field field doc)) || sidx_check m seen id doc

  abbrev pub add_value : ℕ → Option V → SecondaryIndex V → SecondaryIndex V
  add_value id none s = s
  add_value id (some v) s = add I v id s

  unfoldable pub sidx_index_entry : ℕ → Fields C → Table → Table
  unfolding add data_field
  sidx_index_entry id doc [] = []
  sidx_index_entry id doc ((field, s) ∷ m) =
      (field, add_value id (data_field field doc) s) ∷ sidx_index_entry id doc m

  abbrev pub update_value : ℕ → Option V → SecondaryIndex V → SecondaryIndex V
  update_value id none s = remove_id I id s
  update_value id (some v) s = update_id I id v s

  unfoldable pub sidx_update_entry : ℕ → Fields C → Table → Table
  unfolding update_id remove_id data_field
  sidx_update_entry id doc [] = []
  sidx_update_entry id doc ((field, s) ∷ m) =
      (field, update_value id (data_field field doc) s) ∷ sidx_update_entry id doc m

  unfoldable pub sidx_remove_entry : ℕ → Table → Table
  unfolding remove_id
  sidx_remove_entry id [] = []
  sidx_remove_entry id ((field, s) ∷ m) = (field, remove_id I id s) ∷ sidx_remove_entry id m

  abbrev pub reverse_key : ℕ → Option (SecondaryIndex V) → Option String
  reverse_key id none = none
  reverse_key id (some s) = lookup id s.reverse

  -- the reverse map of the _key index, as preserveReservedLocked reads it
  unfoldable pub indexed_key : Table → ℕ → Option String
  unfolding lookup
  indexed_key m id = reverse_key id (lookup key_field m)

  abbrev pub has_duplicate : Option (SecondaryIndex V) → Bool
  has_duplicate none = false
  has_duplicate (some s) = is_some (first_duplicate max_key_conflict_ids s)

  -- keyConflict
  unfoldable pub key_conflict_in : Table → Bool
  unfolding lookup first_duplicate
  key_conflict_in m = has_duplicate (lookup key_field m)

  abbrev pub bucket_ids : String → Option (SecondaryIndex V) → Option (List ℕ)
  bucket_ids key none = none
  bucket_ids key (some s) = some (lookup_ids key s)

  -- indexLookupRaw
  unfoldable pub index_lookup_raw : String → String → Table → Option (List ℕ)
  unfolding lookup lookup_ids
  index_lookup_raw field key m = bucket_ids key (lookup field m)

  abbrev pub entries_of : List (ℕ × Entry V) → List (Entry V)
  entries_of [] = []
  entries_of ((off, e) ∷ es) = e ∷ entries_of es

  abbrev pub append_scan :
      Store.Result (List (ℕ × Entry V)) → Option (List (Entry V)) → Option (List (Entry V))
  append_scan (Store.err e) rest = none
  append_scan (Store.ok es) none = none
  append_scan (Store.ok es) (some rest) = some (entries_of es ++ rest)

  -- scanEntries over the segments, strictly
  unfoldable pub scan_entries : List Segment → Option (List (Entry V))
  unfolding scan_from_offset
  scan_entries [] = some []
  scan_entries (seg ∷ segs) = append_scan (scan_from_offset C 0 seg) (scan_entries segs)

  unfoldable pub register : String → Bool → Table → Option (List (Entry V)) → Option Table
  unfolding insert rebuild_index new_secondary_index
  register field unique m none = none
  register field unique m (some es) =
      some (insert field (rebuild_index I es (new_secondary_index field unique)) m)

  -- ensureIndex
  unfoldable pub ensure_index : String → Bool → List Segment → Table → Option Table
  unfolding lookup register scan_entries
  ensure_index field unique segs m =
      if is_some (lookup field m) then some m else register field unique m (scan_entries segs)

  -- DropIndex: `none` when there is no such index
  unfoldable pub drop_index : String → Table → Option Table
  unfolding lookup remove
  drop_index field m = if is_some (lookup field m) then some (remove field m) else none

  -- claimed[field][value], the ids that earlier operations of a batch staked
  abbrev pub Claims : Type 0
  Claims = Dict String (Dict String ℕ)

  abbrev pub by_value : Option (Dict String ℕ) → Dict String ℕ
  by_value none = []
  by_value (some m) = m

  abbrev pub taken_by_other : ℕ → Option ℕ → Bool
  taken_by_other id none = false
  taken_by_other id (some prev) = if prev == id then false else true

  -- `none` is ErrDuplicateKey
  unfoldable pub stake : String → String → ℕ → Claims → Option Claims
  unfolding lookup insert
  stake field key id m =
      let staked = by_value (lookup field m) in
      if taken_by_other id (lookup key staked)
      then none
      else some (insert field (insert key id staked) m)

  -- the body of txCheckUnique's inner loop
  unfoldable pub claim_value :
      (ℕ → Bool) → ℕ → String → SecondaryIndex V → Option V → Claims → Option Claims
  unfolding stake sidx_conflict lookup_ids accepts to_index_key
  claim_value seen id field s none m = some m
  claim_value seen id field s (some v) m =
      if s.unique && accepts I v s
      then (if sidx_conflict seen id (lookup_ids (to_index_key I v) s)
          then none
          else stake field (to_index_key I v) id m)
      else some m

  unfoldable pub claim_fields : (ℕ → Bool) → ℕ → Fields C → Table → Option Claims → Option Claims
  unfolding claim_value data_field
  claim_fields seen id doc t none = none
  claim_fields seen id doc [] (some m) = some m
  claim_fields seen id doc ((field, s) ∷ t) (some m) =
      claim_fields seen id doc t (claim_value seen id field s (data_field field doc) m)

  unfoldable pub claim_ops :
      (ℕ → Bool) → Table → List (ℕ × Fields C) → Option Claims → Option Claims
  unfolding claim_fields
  claim_ops seen t [] m = m
  claim_ops seen t ((id, doc) ∷ ops) m = claim_ops seen t ops (claim_fields seen id doc t m)

  -- txCheckUnique: `true` is ErrDuplicateKey
  unfoldable pub tx_check : Table → (ℕ → Bool) → List (ℕ × Fields C) → Bool
  unfolding claim_ops
  tx_check t seen ops = not (is_some (claim_ops seen t ops (some [])))

  -- the loop of rebuildings in rollbackBatchLocked, on what the scan of the segments yields
  unfoldable pub rebuild_tables : Option (List (Entry V)) → Table → Table × Bool
  unfolding rebuild_index
  rebuild_tables none [] = ([], false)
  rebuild_tables none ((field, s) ∷ t) = ((field, s) ∷ t, true)
  rebuild_tables (some es) [] = ([], false)
  rebuild_tables (some es) ((field, s) ∷ t) =
      let rest = rebuild_tables (some es) t in ((field, rebuild_index I es s) ∷ rest.0, rest.1)

  unfoldable pub rebuild_all : List Segment → Table → Table × Bool
  unfolding rebuild_tables scan_entries
  rebuild_all segs t = rebuild_tables (scan_entries segs) t

  -- The operations as the collection calls them.
  abbrev pub secondary : Secondary C
  secondary = record {
    S = Table;
    conflicts = sidx_check;
    index_entry = sidx_index_entry;
    update_entry = sidx_update_entry;
    remove_entry = sidx_remove_entry;
    key_of = indexed_key;
    key_conflict = key_conflict_in;
    holders = λ m key. index_lookup_raw key_field key m;
    ensure_key_index = ensure_index key_field true;
    batch_conflicts = tx_check;
    rebuild_all = rebuild_all;
  }
