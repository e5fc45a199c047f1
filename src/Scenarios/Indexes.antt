-- ===== src/Scenarios/Indexes.antt =====
-- Numbers as values, the unique index on a field, and two documents in it.
use scriva.Prelude.{
  zero, suc, ℕ, ◌≡◌, ◌<◌, refl, sym, ap, ◌∙◌, some-inj, Bool, true, false, not, ◌&&◌, ◌||◌, none,
  some, List, [], ◌∷◌, lookup, insert, inl, inr, ltb, ◌==◌, nat_eq, string_eq, arith,
}
use scriva.Store.{Entry, op_insert, op_delete, new_entry}
use scriva.Query.{Values, match_op, op_eq, op_neq, op_gt, op_gte, op_lt, op_lte}
use scriva.Query.Comparing.{IsLinear, below, match_op-compare}
use scriva.Collection.{Fields}
use scriva.SecondaryIndex.{
  lookup_ids, SecondaryIndex, new_secondary_index, IndexValues, to_index_key, accepts, nth,
  search_sorted, OrderedKey, update_id, KeySet,
}
use scriva.SecondaryIndex.Buckets.{has, bucket}
use scriva.SecondaryIndex.Consistency.{Consistent, new-Consistent, update_id-Consistent}
use scriva.SecondaryIndex.Rebuild.{rebuild_index, replay_entries, first_key}
use scriva.SecondaryIndex.Rebuilding.{rebuild_index-replay_entries}
use scriva.SecondaryIndex.Searching.{IsPlace, search_sorted-Splits}
use scriva.SecondaryIndex.KeyOrder.{precedes, IsWeak, IsSorted}
use scriva.SecondaryIndex.Duplicates.{AboveNone, first_key-Least, first_key-order}
use scriva.SecondaryIndex.Table.{
  Table, sidx_check, data_field, sidx_update_entry, sidx_remove_entry, sidx_index_entry,
  sidx_conflict, stake, claim_value, claim_fields, claim_ops, tx_check,
}
use scriva.SecondaryIndex.Claiming.{tx_check-passed}
use scriva.SecondaryIndex.Uniqueness.{sidx_check-passed, AllConsistent, IsNew, Table-Consistent}
use scriva.Scenarios.Toy.{toy, path_of}

-- a number prints as a text of its length
abbrev numbers : Values ℕ
numbers = record {
  F = ℕ;
  as_number = λ n. some n;
  less = ltb;
  same = λ a b. a == b;
  sprint = path_of;
  string_value = λ s. 0;
  decode = λ s. none;
  contains = λ s t. false;
  matches = λ s t. none;
}

numbers-IsLinear : IsLinear numbers
numbers-IsLinear = record {
  less-irrefl = λ a. ground arith;
  less-trans = λ a b c h k. ground arith;
  same_iff = λ a b. ground arith;
}

match_op-compare_example :
    (match_op numbers op_lt 3 4 ≡ below numbers 3 4)
    × (match_op numbers op_gt 3 4 ≡ below numbers 4 3)
    × (match_op numbers op_gte 3 4 ≡ not (below numbers 3 4))
    × (match_op numbers op_lte 3 4 ≡ not (below numbers 4 3))
    × (match_op numbers op_eq 3 4 ≡ (not (below numbers 3 4) && not (below numbers 4 3)))
    × (match_op numbers op_neq 3 4 ≡ (below numbers 3 4 || below numbers 4 3))
match_op-compare_example = match_op-compare numbers numbers-IsLinear 3 4

abbrev on_numbers : IndexValues ℕ
on_numbers = record {
  Q = numbers;
  is_float = λ n. true;
  is_string = λ n. false;
  parse_float = λ s. 0;
}

abbrev log : List (Entry ℕ)
log =
    new_entry op_insert 5 1 (some (("n", 2) ∷ []))
    ∷ new_entry op_insert 6 2 (some (("n", 2) ∷ []))
    ∷ new_entry op_delete 7 1 none
    ∷ []

rebuild_index-replay_entries_example :
    has 2 (bucket on_numbers "aa" (replay_entries on_numbers log (new_secondary_index "n" true)))
    ≡ has 2 (bucket on_numbers "aa" (rebuild_index on_numbers log (new_secondary_index "n" true)))
rebuild_index-replay_entries_example = rebuild_index-replay_entries on_numbers log "n" true "aa" 2

-- record 1 under the key of 2
abbrev one_indexed : SecondaryIndex ℕ
one_indexed = update_id on_numbers 1 2 (new_secondary_index "n" true)

one_indexed-Consistent : Consistent on_numbers one_indexed
one_indexed-Consistent =
    update_id-Consistent on_numbers 1 2 (new_secondary_index "n" true)
      (new-Consistent on_numbers "n" true)

abbrev table : Table toy on_numbers
table = ("n", one_indexed) ∷ []

table-Consistent : AllConsistent toy on_numbers table
table-Consistent = (one_indexed-Consistent, tt)

three_IsNew : IsNew toy on_numbers 3 table
unfolding update_id new_secondary_index lookup
three_IsNew = (refl, tt)

Table-Consistent_example :
    AllConsistent toy on_numbers (sidx_update_entry toy on_numbers 1 (some (("n", 3) ∷ [])) table)
    × AllConsistent toy on_numbers (sidx_remove_entry toy on_numbers 1 table)
    × AllConsistent toy on_numbers (sidx_index_entry toy on_numbers 3 (some (("n", 3) ∷ [])) table)
Table-Consistent_example =
    Table-Consistent toy on_numbers 1 3 (some (("n", 3) ∷ [])) table table-Consistent three_IsNew

-- record 1 has expired, so that record 2 may take its key
abbrev gone : ℕ → Bool
gone id = false

free : sidx_check toy on_numbers table gone 2 (some (("n", 2) ∷ [])) ≡ false
unfolding sidx_check update_id new_secondary_index accepts
free = refl

at_n : lookup "n" table ≡ some one_indexed
unfolding lookup
at_n = refl

unique_n : one_indexed.unique ≡ true
unfolding update_id new_secondary_index
unique_n = refl

two_at_n : data_field toy on_numbers "n" (some (("n", 2) ∷ [])) ≡ some 2
unfolding data_field
two_at_n = refl

accepted : accepts on_numbers 2 one_indexed ≡ true
unfolding update_id new_secondary_index accepts
accepted = refl

held_key : lookup 1 one_indexed.reverse ≡ some (to_index_key on_numbers 2)
unfolding update_id new_secondary_index to_index_key
held_key = refl

sidx_check-passed_example : gone 1 ≡ false
sidx_check-passed_example =
    sidx_check-passed toy on_numbers table gone 2 (some (("n", 2) ∷ [])) "n" one_indexed 2 1 free
      at_n unique_n two_at_n accepted one_indexed-Consistent held_key refl

-- an insert of record 3 and an update of it, around an insert of another key
abbrev batch : List (ℕ × Fields toy)
batch = (3, some (("n", 2) ∷ [])) ∷ (4, some (("n", 5) ∷ [])) ∷ (3, some (("n", 2) ∷ [])) ∷ []

batch-free : tx_check toy on_numbers table gone batch ≡ false
unfolding tx_check claim_ops claim_fields claim_value stake sidx_conflict lookup_ids data_field
    to_index_key accepts update_id new_secondary_index lookup insert
batch-free = refl

abbrev inserted_id : ℕ
inserted_id = 3

abbrev updated_id : ℕ
updated_id = 3

tx_check-passed_example : inserted_id ≡ updated_id
tx_check-passed_example =
    tx_check-passed toy on_numbers table gone batch "n" one_indexed inserted_id updated_id
      (some (("n", 2) ∷ [])) (some (("n", 2) ∷ [])) 2 2 batch-free at_n unique_n (inl refl) two_at_n
      accepted (inr (inr (inl refl))) two_at_n accepted refl

abbrev target : OrderedKey ℕ
target = record { key = "cc"; val = 2 }

numbers-IsWeak : IsWeak numbers
numbers-IsWeak f g h before = ground (arith, before)

-- two keys of the value 2, which their texts order, and one of a larger value with a smaller text
abbrev c_key : OrderedKey ℕ
c_key = record { key = "c"; val = 2 }

abbrev d_key : OrderedKey ℕ
d_key = record { key = "d"; val = 2 }

abbrev three_keys : SecondaryIndex ℕ
three_keys = record one_indexed { sorted = c_key ∷ d_key ∷ record { key = "a"; val = 5 } ∷ [] }

three_ascending :
    (i j : ℕ) (a b : OrderedKey ℕ)
    → i < j
    → nth i three_keys.sorted ≡ some a
    → nth j three_keys.sorted ≡ some b
    → precedes numbers a b ≡ true
three_ascending zero (suc zero) a b lt h k =
    ap (λ x. precedes numbers x b) (sym (some-inj h))
    ∙ ap (precedes numbers c_key) (sym (some-inj k))
three_ascending zero (suc (suc zero)) a b lt h k =
    ap (λ x. precedes numbers x b) (sym (some-inj h))
    ∙ ap (precedes numbers c_key) (sym (some-inj k))
three_ascending (suc zero) (suc (suc zero)) a b lt h k =
    ap (λ x. precedes numbers x b) (sym (some-inj h))
    ∙ ap (precedes numbers d_key) (sym (some-inj k))
three_ascending zero (suc (suc (suc j))) a b lt h k = let bad : ⊥ = cc k in elim bad [ ]
three_ascending (suc zero) (suc (suc (suc j))) a b lt h k = let bad : ⊥ = cc k in elim bad [ ]
three_ascending (suc (suc zero)) (suc (suc (suc j))) a b lt h k = let bad : ⊥ = cc k in elim bad [ ]
three_ascending (suc (suc (suc i))) j a b lt h k = let bad : ⊥ = cc h in elim bad [ ]
three_ascending i zero a b lt h k = let bad : ⊥ = omega (arith, lt) in elim bad [ ]
three_ascending (suc i) (suc zero) a b lt h k = let bad : ⊥ = omega (arith, lt) in elim bad [ ]
three_ascending (suc (suc i)) (suc (suc zero)) a b lt h k =
    let bad : ⊥ = omega (arith, lt) in elim bad [ ]

three_keys-IsSorted : IsSorted numbers true three_keys.sorted
three_keys-IsSorted = record { kind = λ i a at. refl; ascending = three_ascending }

search_sorted-Splits_example :
    IsPlace on_numbers numbers-IsLinear numbers-IsWeak true target three_keys
      (search_sorted on_numbers target three_keys)
search_sorted-Splits_example =
    search_sorted-Splits on_numbers numbers-IsLinear numbers-IsWeak true target three_keys refl
      three_keys-IsSorted

abbrev duplicated : KeySet
duplicated = ("b", tt) ∷ ("a", tt) ∷ []

first_key-Least_example :
    (lookup (first_key "" duplicated) duplicated ≡ some tt)
    × AboveNone (first_key "" duplicated) duplicated
first_key-Least_example = first_key-Least ("b", tt) (("a", tt) ∷ []) (λ h. cc h, (λ h. cc h, tt))

first_key-order_example :
    (first_key "" (("", tt) ∷ ("b", tt) ∷ []) ≡ "b")
    × (first_key "" (("b", tt) ∷ ("", tt) ∷ []) ≡ "")
first_key-order_example = first_key-order "b" (λ h. cc h)
