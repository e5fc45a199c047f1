-- ===== src/SecondaryIndex/Rebuild.antt =====
-- engine/secondary_index.go: range lookups, the duplicated keys, and the reconstruction from the
-- entries of the segments. A map is read in the order of its list; Go's order is any.
use Prim.Native.Nat.{Ordering}
use Prim.Native.String.{compare as compare_strings}
use scriva.Prelude.{
  ℕ, String, Bool, true, not, ◌||◌, Option, none, some, List, [], ◌∷◌, ◌++◌, Dict, lookup, insert,
  length, take, drop, ltb, leb, ◌==◌, nat_eq, string_eq, if◌then◌else◌,
}
use scriva.Store.{Entry, Op, op_insert, op_update, op_delete, other}
use scriva.Query.{compare, is_less, is_greater, FilterOp, op_gt, op_gte, op_lt, op_lte}
use scriva.SecondaryIndex.{
  IndexKind, index_empty, index_numeric, index_string, index_mixed, kind_code, merge_kind, IdSet,
  KeySet, OrderedKey, SecondaryIndex, or_empty, ids_of, nth, search_index, IndexValues, val_kind,
  val_for_kind, to_index_key, accepts, order_less_key, remove_id, update_id,
}

-- dupsOf
unfoldable pub dups_of : Dict String IdSet → KeySet
unfolding insert
dups_of [] = []
dups_of ((k, ids) ∷ m) =
    let rest = dups_of m in if ltb 1 (length ids) then insert k tt rest else rest

-- the loop of firstDuplicate
unfoldable pub first_key : String → KeySet → String
first_key first [] = first
first_key first ((k, u) ∷ m) =
    first_key (if (first == "") || is_less (compare_strings k first) then k else first) m

-- sort.Slice on ids
unfoldable pub insert_sorted : ℕ → List ℕ → List ℕ
insert_sorted n [] = n ∷ []
insert_sorted n (m ∷ ms) = if leb n m then n ∷ m ∷ ms else m ∷ insert_sorted n ms

unfoldable pub sort_ids : List ℕ → List ℕ
unfolding insert_sorted
sort_ids [] = []
sort_ids (n ∷ ns) = insert_sorted n (sort_ids ns)

unfoldable pub some_duplicate :
    {V : Type 0} → ℕ → KeySet → SecondaryIndex V → Option (String × List ℕ)
unfolding lookup first_key sort_ids
some_duplicate max_ids [] s = none
some_duplicate max_ids (d ∷ ds) s =
    let first = first_key "" (d ∷ ds) in
    some (first, take max_ids (sort_ids (ids_of (or_empty (lookup first s.buckets)))))

-- firstDuplicate
unfoldable pub first_duplicate : {V : Type 0} → ℕ → SecondaryIndex V → Option (String × List ℕ)
unfolding some_duplicate
first_duplicate max_ids s = some_duplicate max_ids s.dups s

-- the ids of the buckets of a run of ordered keys
unfoldable pub ids_of_keys : {V : Type 0} → List (OrderedKey V) → Dict String IdSet → List ℕ
unfolding lookup
ids_of_keys [] m = []
ids_of_keys (e ∷ es) m = ids_of (or_empty (lookup e.key m)) ++ ids_of_keys es m

module _ {V : Type 0} (I : IndexValues V) where
  open I use {Q}

  -- a test of the i-th ordered value against the query's; past the end it holds
  abbrev pub tested : (Ordering → Bool) → V → Option (OrderedKey V) → Bool
  tested test qv none = true
  tested test qv (some e) = test (compare Q e.val qv)

  unfoldable pub first_at : (Ordering → Bool) → V → List (OrderedKey V) → ℕ
  unfolding search_index
  first_at test qv es = search_index (length es) (λ i. tested test qv (nth i es))

  -- `c >= 0`
  abbrev pub not_less : Ordering → Bool
  not_less o = not (is_less o)

  -- `switch op`: the bounds lo and hi, or `default`
  unfoldable pub range_bounds : FilterOp → V → List (OrderedKey V) → Option (ℕ × ℕ)
  unfolding first_at
  range_bounds op_gt qv es = some (first_at is_greater qv es, length es)
  range_bounds op_gte qv es = some (first_at not_less qv es, length es)
  range_bounds op_lt qv es = some (0, first_at not_less qv es)
  range_bounds op_lte qv es = some (0, first_at is_greater qv es)
  range_bounds _ qv es = none

  unfoldable pub range_ids : SecondaryIndex V → Option (ℕ × ℕ) → Option (List ℕ)
  unfolding ids_of_keys
  range_ids s none = none
  range_ids s (some (lo, hi)) = some (ids_of_keys (drop lo (take hi s.sorted)) s.buckets)

  unfoldable pub range_same : FilterOp → V → SecondaryIndex V → Option (List ℕ)
  unfolding val_kind range_bounds range_ids
  range_same op query_val s =
      let q = val_kind I query_val in
      if kind_code q.0 == kind_code s.kind then range_ids s (range_bounds op q.1 s.sorted) else none

  unfoldable pub range_of_kind : IndexKind → FilterOp → V → SecondaryIndex V → Option (List ℕ)
  unfolding range_same
  range_of_kind index_empty op query_val s = some []
  range_of_kind index_mixed op query_val s = none
  range_of_kind index_numeric op query_val s = range_same op query_val s
  range_of_kind index_string op query_val s = range_same op query_val s

  -- LookupRange: `none` is "not served"
  unfoldable pub lookup_range : FilterOp → V → SecondaryIndex V → Option (List ℕ)
  unfolding range_of_kind
  lookup_range op query_val s = range_of_kind s.kind op query_val s

  -- the last version of each record: `none` is a deleted one
  unfoldable pub latest_step :
      Op
      → Entry V
      → Dict ℕ (Option (Option (Dict String V)))
      → Dict ℕ (Option (Option (Dict String V)))
  unfolding insert
  latest_step op_insert e m = insert e.id (some e.fields) m
  latest_step op_update e m = insert e.id (some e.fields) m
  latest_step op_delete e m = insert e.id none m
  latest_step (other s) e m = m

  unfoldable pub latest_of :
      List (Entry V)
      → Dict ℕ (Option (Option (Dict String V)))
      → Dict ℕ (Option (Option (Dict String V)))
  unfolding latest_step
  latest_of [] m = m
  latest_of (e ∷ es) m = latest_of es (latest_step e.op e m)

  -- `data[field]`
  unfoldable pub field_of : String → Option (Dict String V) → Option V
  unfolding lookup
  field_of field none = none
  field_of field (some m) = lookup field m

  -- what rebuild gathers: the buckets, the reverse map and the kind
  pub record Fresh : Type 0 where
    pub fresh : Dict String IdSet
    pub fresh_rev : Dict ℕ String
    pub fresh_kind : IndexKind

  unfoldable pub gather_value : SecondaryIndex V → ℕ → Option V → Fresh → Fresh
  unfolding accepts to_index_key insert lookup merge_kind val_kind
  gather_value s id none f = f
  gather_value s id (some v) f =
      if accepts I v s
      then record {
        fresh =
            insert (to_index_key I v) (insert id tt (or_empty (lookup (to_index_key I v) f.fresh)))
              f.fresh;
        fresh_rev = insert id (to_index_key I v) f.fresh_rev;
        fresh_kind = merge_kind f.fresh_kind (val_kind I v).0;
      }
      else f

  unfoldable pub gather_record :
      SecondaryIndex V → ℕ → Option (Option (Dict String V)) → Fresh → Fresh
  unfolding gather_value field_of
  gather_record s id none f = f
  gather_record s id (some doc) f = gather_value s id (field_of s.field doc) f

  unfoldable pub gather :
      SecondaryIndex V → Dict ℕ (Option (Option (Dict String V))) → Fresh → Fresh
  unfolding gather_record
  gather s [] f = f
  gather s ((id, r) ∷ m) f = gather s m (gather_record s id r f)

  -- the keys of the buckets with their values, in order: sort.Slice by orderLessKey
  unfoldable pub insert_ordered : OrderedKey V → List (OrderedKey V) → List (OrderedKey V)
  unfolding order_less_key
  insert_ordered e [] = e ∷ []
  insert_ordered e (x ∷ xs) = if order_less_key I x e then x ∷ insert_ordered e xs else e ∷ x ∷ xs

  unfoldable pub sort_keys : IndexKind → Dict String IdSet → List (OrderedKey V)
  unfolding insert_ordered
  sort_keys kind [] = []
  sort_keys kind ((k, ids) ∷ m) =
      insert_ordered (record { key = k; val = val_for_kind I kind k }) (sort_keys kind m)

  unfoldable pub build_sorted : Dict String IdSet → IndexKind → List (OrderedKey V)
  unfolding sort_keys
  build_sorted m index_empty = []
  build_sorted m index_mixed = []
  build_sorted m index_numeric = sort_keys index_numeric m
  build_sorted m index_string = sort_keys index_string m

  -- rebuild on the visible entries of the segments, oldest first
  unfoldable pub rebuild_index : List (Entry V) → SecondaryIndex V → SecondaryIndex V
  unfolding gather latest_of dups_of build_sorted
  rebuild_index es s =
      let f =
        gather s (latest_of es [])
          (record { fresh = []; fresh_rev = []; fresh_kind = index_empty }) in
      record s {
        buckets = f.fresh;
        reverse = f.fresh_rev;
        dups = dups_of f.fresh;
        kind = f.fresh_kind;
        sorted = build_sorted f.fresh f.fresh_kind;
      }

  -- the callback of replay on a visible entry
  unfoldable pub replay_value : ℕ → Option V → SecondaryIndex V → SecondaryIndex V
  unfolding remove_id update_id
  replay_value id none s = remove_id I id s
  replay_value id (some v) s = update_id I id v s

  unfoldable pub replay_op : Op → Entry V → SecondaryIndex V → SecondaryIndex V
  unfolding replay_value field_of remove_id
  replay_op op_insert e s = replay_value e.id (field_of s.field e.fields) s
  replay_op op_update e s = replay_value e.id (field_of s.field e.fields) s
  replay_op op_delete e s = remove_id I e.id s
  replay_op (other x) e s = s

  unfoldable pub replay_entries : List (Entry V) → SecondaryIndex V → SecondaryIndex V
  unfolding replay_op
  replay_entries [] s = s
  replay_entries (e ∷ es) s = replay_entries es (replay_op e.op e s)
