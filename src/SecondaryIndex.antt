-- ===== src/SecondaryIndex.antt =====
-- engine/secondary_index.go: an inverted index on one field, its ordered view, and its reconstruction.
-- Each method runs under the index's lock, so it is one step. sort.Search is written out; the persisted
-- form (snapshot, write, Load) is not modelled.
pub mod Rebuild
pub mod Table
pub mod Uniqueness
pub mod Stakes
pub mod Claiming
pub mod Buckets
pub mod Consistency
pub mod Replaying
pub mod Rebuilding
pub mod KeyOrder
pub mod Searching
pub mod Duplicates
use Prim.Native.Nat.{Ordering}
use Prim.Native.String.{compare as compare_strings}
use scriva.Prelude.{
  ℕ, zero, suc, ◌+◌, ◌/◌, String, Bool, true, false, not, ◌&&◌, ◌||◌, Option, none, some, List, [],
  ◌∷◌, ◌++◌, Dict, lookup, insert, remove, length, take, drop, ltb, leb, ◌==◌, nat_eq, string_eq,
  if◌then◌else◌,
}
use scriva.Store.{Entry, Op, op_insert, op_update, op_delete, other}
use scriva.Collection.{key_field}
use scriva.Query.{
  Values, compare, is_less, is_greater, is_equal, FilterOp, op_eq, op_neq, op_gt, op_gte, op_lt,
  op_lte, op_contains, op_regex, op_other,
}

-- indexKind
pub data IndexKind : Type 0 where
  index_empty index_numeric index_string index_mixed : IndexKind

abbrev pub is_mixed : IndexKind → Bool
is_mixed index_empty = false
is_mixed index_numeric = false
is_mixed index_string = false
is_mixed index_mixed = true

abbrev pub kind_code : IndexKind → ℕ
kind_code index_empty = 0
kind_code index_numeric = 1
kind_code index_string = 2
kind_code index_mixed = 3

-- mergeKind
unfoldable pub merge_kind : IndexKind → IndexKind → IndexKind
merge_kind index_empty next = next
merge_kind index_numeric next = if kind_code next == 1 then index_numeric else index_mixed
merge_kind index_string next = if kind_code next == 2 then index_string else index_mixed
merge_kind index_mixed next = index_mixed

-- map[uint64]struct{} and map[string]struct{}
abbrev pub IdSet : Type 0
IdSet = Dict {0, 0} ℕ Unit

abbrev pub KeySet : Type 0
KeySet = Dict {0, 0} String Unit

pub record OrderedKey (V : Type 0) : Type 0 where
  pub key : String
  pub val : V

pub record SecondaryIndex (V : Type 0) : Type 0 where
  pub field : String
  pub unique : Bool
  pub buckets : Dict String IdSet
  pub reverse : Dict ℕ String
  pub dups : KeySet
  pub kind : IndexKind
  pub sorted : List (OrderedKey V)

unfoldable pub new_secondary_index : {V : Type 0} → String → Bool → SecondaryIndex V
new_secondary_index field unique = record {
  field = field;
  unique = unique;
  buckets = [];
  reverse = [];
  dups = [];
  kind = index_empty;
  sorted = [];
}

-- `s.buckets[key]`: a missing bucket reads as an empty one
abbrev pub or_empty : Option IdSet → IdSet
or_empty none = []
or_empty (some ids) = ids

abbrev pub is_nil : Option IdSet → Bool
is_nil none = true
is_nil (some ids) = false

-- the iteration of sort.Search on [i, j), with fuel for its rounds
abbrev pub narrow : ℕ → ℕ → (ℕ → Bool) → ℕ × ℕ
narrow i j f = let h = (i + j) / 2 in if f h then (i, h) else (suc h, j)

unfoldable pub search_in : ℕ → ℕ → ℕ → (ℕ → Bool) → ℕ
search_in zero i j f = i
search_in (suc fuel) i j f =
    let bounds = narrow i j f in
    let found = search_in fuel bounds.0 bounds.1 f in if ltb i j then found else i

-- sort.Search
unfoldable pub search_index : ℕ → (ℕ → Bool) → ℕ
unfolding search_in
search_index n f = search_in n 0 n f

abbrev pub nth {ℓ} : {A : Type ℓ} → ℕ → List A → Option A
nth n [] = none
nth zero (x ∷ xs) = some x
nth (suc n) (x ∷ xs) = nth n xs

abbrev pub ids_of : IdSet → List ℕ
ids_of [] = []
ids_of ((id, u) ∷ m) = id ∷ ids_of m

-- SecondaryIndex.Lookup
unfoldable pub lookup_ids : {V : Type 0} → String → SecondaryIndex V → List ℕ
unfolding lookup
lookup_ids key s = ids_of (or_empty (lookup key s.buckets))

-- noteLocked
unfoldable pub note_locked : {V : Type 0} → String → SecondaryIndex V → SecondaryIndex V
unfolding lookup insert remove
note_locked key s = record s {
  dups =
      if ltb 1 (length (or_empty (lookup key s.buckets)))
      then insert key tt s.dups
      else remove key s.dups;
}

-- What the index asks of a value beyond its comparison: the type switches on float64 and string, and
-- a number, by strconv.ParseFloat, or a string as a value.
pub record IndexValues (V : Type 0) : Type 1 where
  pub Q : Values V
  pub is_float : V → Bool
  pub is_string : V → Bool
  pub parse_float : String → V

module _ {V : Type 0} (I : IndexValues V) where
  open I use {Q, is_float, is_string, parse_float}
  open Q use {sprint, string_value}

  -- valKind
  unfoldable pub val_kind : V → IndexKind × V
  val_kind v =
      if is_float v
      then (index_numeric, v)
      else if is_string v
      then (index_string, v)
      else (index_string, string_value (sprint v))

  -- valForKind
  abbrev pub val_for_kind : IndexKind → String → V
  val_for_kind index_numeric key = parse_float key
  val_for_kind index_empty key = string_value key
  val_for_kind index_string key = string_value key
  val_for_kind index_mixed key = string_value key

  -- toIndexKey
  unfoldable pub to_index_key : V → String
  to_index_key v = sprint v

  unfoldable pub accepts : V → SecondaryIndex V → Bool
  accepts v s = if s.field == key_field then is_string v else true

  -- orderLessKey
  abbrev pub less_by : Ordering → String → String → Bool
  less_by Ordering.lt ka kb = true
  less_by Ordering.gt ka kb = false
  less_by Ordering.eq ka kb = is_less (compare_strings ka kb)

  unfoldable pub order_less_key : OrderedKey V → OrderedKey V → Bool
  order_less_key a b = less_by (compare Q a.val b.val) a.key b.key

  unfoldable pub not_before : OrderedKey V → Option (OrderedKey V) → Bool
  unfolding order_less_key
  not_before target none = true
  not_before target (some e) = not (order_less_key e target)

  -- searchSorted
  unfoldable pub search_sorted : OrderedKey V → SecondaryIndex V → ℕ
  unfolding search_index not_before
  search_sorted target s = search_index (length s.sorted) (λ i. not_before target (nth i s.sorted))

  abbrev pub key_at : String → Option (OrderedKey V) → Bool
  key_at key none = false
  key_at key (some e) = e.key == key

  abbrev pub insert_at : String → V → ℕ → SecondaryIndex V → SecondaryIndex V
  insert_at key val i s = if key_at key (nth i s.sorted) then s else record s {
    sorted = take i s.sorted ++ record { key = key; val = val } ∷ drop i s.sorted;
  }

  unfoldable pub ordered_insert : String → V → SecondaryIndex V → SecondaryIndex V
  unfolding search_sorted
  ordered_insert key val s =
      if is_mixed s.kind
      then s
      else insert_at key val (search_sorted (record { key = key; val = val }) s) s

  abbrev pub remove_at : String → ℕ → SecondaryIndex V → SecondaryIndex V
  remove_at key i s =
      if key_at key (nth i s.sorted)
      then record s { sorted = take i s.sorted ++ drop (suc i) s.sorted }
      else s

  unfoldable pub ordered_remove : String → SecondaryIndex V → SecondaryIndex V
  unfolding search_sorted
  ordered_remove key s =
      if is_mixed s.kind
      then s
      else remove_at key (search_sorted (record { key = key; val = val_for_kind s.kind key }) s) s

  unfoldable pub observe : V → SecondaryIndex V → SecondaryIndex V
  unfolding merge_kind val_kind
  observe v s =
      let kind = merge_kind s.kind (val_kind v).0 in
      record s { kind = kind; sorted = if is_mixed kind then [] else s.sorted }

  -- the id put into the bucket of its value: the common end of add and update
  unfoldable pub put_id : V → ℕ → SecondaryIndex V → SecondaryIndex V
  unfolding to_index_key lookup insert observe ordered_insert note_locked val_kind
  put_id v id s =
      let key = to_index_key v in
      let s1 = observe v (record s {
        buckets = insert key (insert id tt (or_empty (lookup key s.buckets))) s.buckets;
        reverse = insert id key s.reverse;
      }) in
      note_locked key
        (if is_nil (lookup key s.buckets) then ordered_insert key (val_kind v).1 s1 else s1)

  -- the id taken out of a bucket: the common start of remove and update
  unfoldable pub drop_id : String → ℕ → SecondaryIndex V → SecondaryIndex V
  unfolding lookup insert remove ordered_remove note_locked
  drop_id key id s =
      let bucket = remove id (or_empty (lookup key s.buckets)) in
      note_locked key (
        if length bucket == 0
        then ordered_remove key (record s { buckets = remove key s.buckets })
        else record s { buckets = insert key bucket s.buckets })

  unfoldable pub add : V → ℕ → SecondaryIndex V → SecondaryIndex V
  unfolding accepts put_id
  add v id s = if accepts v s then put_id v id s else s

  unfoldable pub remove_found : ℕ → Option String → SecondaryIndex V → SecondaryIndex V
  unfolding drop_id
  remove_found id none s = s
  remove_found id (some key) s =
      let s1 = drop_id key id s in record s1 { reverse = remove id s1.reverse }

  unfoldable pub remove_id : ℕ → SecondaryIndex V → SecondaryIndex V
  unfolding remove_found
  remove_id id s = remove_found id (lookup id s.reverse) s

  unfoldable pub leave_old : ℕ → Option String → SecondaryIndex V → SecondaryIndex V
  unfolding drop_id
  leave_old id none s = s
  leave_old id (some key) s = drop_id key id s

  unfoldable pub update_id : ℕ → V → SecondaryIndex V → SecondaryIndex V
  unfolding accepts remove_id put_id leave_old
  update_id id v s =
      if accepts v s then put_id v id (leave_old id (lookup id s.reverse) s) else remove_id id s
