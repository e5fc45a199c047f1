-- ===== src/SecondaryIndex/Replaying.antt =====
-- engine/secondary_index.go: an index that follows the entries one by one and an index that is rebuilt
-- from them are the same.
use scriva.Prelude.{
  ℕ, ◌≡◌, refl, ap, ◌∙◌, String, Option, none, some, List, [], ◌∷◌, lookup, ◌==◌, nat_eq, string_eq,
  if◌then◌else◌, arith,
}
use scriva.Store.{Entry, Op, op_insert, op_update, op_delete, other}
use scriva.SecondaryIndex.{SecondaryIndex, IndexValues, to_index_key, accepts}
use scriva.SecondaryIndex.Consistency.{
  Consistent, remove_id-Consistent, update_id-Consistent, lookup-remove_id, lookup-update_id,
  remove_id-field, update_id-field,
}
use scriva.SecondaryIndex.Rebuild.{field_of, replay_value, replay_op, replay_entries}

module _ {V : Type 0} (I : IndexValues V) where
  -- the key that a document is indexed under, on the field and with the values of the index `s`
  abbrev pub value_key : SecondaryIndex V → Option V → Option String
  value_key s none = none
  value_key s (some v) = if accepts I v s then some (to_index_key I v) else none

  abbrev pub entry_key : SecondaryIndex V → Op → Entry V → Option String → Option String
  entry_key s op_insert e old = value_key s (field_of I s.field e.fields)
  entry_key s op_update e old = value_key s (field_of I s.field e.fields)
  entry_key s op_delete e old = none
  entry_key s (other x) e old = old

  -- the key of a record after the entries: the last entry of the record decides
  abbrev pub last_key : SecondaryIndex V → ℕ → List (Entry V) → Option String → Option String
  last_key s id [] old = old
  last_key s id (e ∷ es) old = last_key s id es (if e.id == id then entry_key s e.op e old else old)

  accepts-field :
      (v : V) (s t : SecondaryIndex V) → t.field ≡ s.field → accepts I v t ≡ accepts I v s
  unfolding accepts
  accepts-field v s t h = rw h refl

  replay_value-key :
      (id j : ℕ) (o : Option V) (s : SecondaryIndex V)
      → (lookup j (replay_value I id o s).reverse
          ≡ (if id == j then value_key s o else lookup j s.reverse))
        × ((replay_value I id o s).field ≡ s.field)
  unfolding replay_value
  replay_value-key id j none s = (lookup-remove_id I id j s, remove_id-field I id s)
  replay_value-key id j (some v) s = (lookup-update_id I id j v s, update_id-field I id v s)

  replay_op-key :
      (op : Op) (e : Entry V) (j : ℕ) (s : SecondaryIndex V)
      → (lookup j (replay_op I op e s).reverse
          ≡ (if e.id == j then entry_key s op e (lookup j s.reverse) else lookup j s.reverse))
        × ((replay_op I op e s).field ≡ s.field)
  unfolding replay_op
  replay_op-key op_insert e j s = replay_value-key e.id j (field_of I s.field e.fields) s
  replay_op-key op_update e j s = replay_value-key e.id j (field_of I s.field e.fields) s
  replay_op-key op_delete e j s = (lookup-remove_id I e.id j s, remove_id-field I e.id s)
  replay_op-key (other x) e j s = (ground arith, refl)

  -- the values of an index are read through its field alone
  value_key-field :
      (o : Option V) (s t : SecondaryIndex V) → t.field ≡ s.field → value_key t o ≡ value_key s o
  value_key-field none s t h = refl
  value_key-field (some v) s t h =
      ap (λ b. if b then some (to_index_key I v) else none) (accepts-field v s t h)

  entry_key-field :
      (op : Op) (e : Entry V) (old : Option String) (s t : SecondaryIndex V)
      → t.field ≡ s.field
      → entry_key t op e old ≡ entry_key s op e old
  entry_key-field op_insert e old s t h =
      value_key-field (field_of I t.field e.fields) s t h
      ∙ ap (λ f. value_key s (field_of I f e.fields)) h
  entry_key-field op_update e old s t h =
      value_key-field (field_of I t.field e.fields) s t h
      ∙ ap (λ f. value_key s (field_of I f e.fields)) h
  entry_key-field op_delete e old s t h = refl
  entry_key-field (other x) e old s t h = refl

  last_key-field :
      (id : ℕ) (es : List (Entry V)) (old : Option String) (s t : SecondaryIndex V)
      → t.field ≡ s.field
      → last_key t id es old ≡ last_key s id es old
  last_key-field id [] old s t h = refl
  last_key-field id (e ∷ es) old s t h =
      last_key-field id es _ s t h
      ∙ ap (λ o. last_key s id es (if e.id == id then o else old))
          (entry_key-field e.op e old s t h)

  pub lookup-replay_entries :
      (id : ℕ) (es : List (Entry V)) (s : SecondaryIndex V)
      → lookup id (replay_entries I es s).reverse ≡ last_key s id es (lookup id s.reverse)
  unfolding replay_entries
  lookup-replay_entries id [] s = refl
  lookup-replay_entries id (e ∷ es) s =
      let step = replay_op-key e.op e id s in
      lookup-replay_entries id es (replay_op I e.op e s)
      ∙ last_key-field id es _ s (replay_op I e.op e s) step.1
      ∙ ap (last_key s id es) step.0

  replay_value-Consistent :
      (id : ℕ) (o : Option V) (s : SecondaryIndex V)
      → Consistent I s
      → Consistent I (replay_value I id o s)
  unfolding replay_value
  replay_value-Consistent id none s c = remove_id-Consistent I id s c
  replay_value-Consistent id (some v) s c = update_id-Consistent I id v s c

  replay_op-Consistent :
      (op : Op) (e : Entry V) (s : SecondaryIndex V)
      → Consistent I s
      → Consistent I (replay_op I op e s)
  unfolding replay_op
  replay_op-Consistent op_insert e s c =
      replay_value-Consistent e.id (field_of I s.field e.fields) s c
  replay_op-Consistent op_update e s c =
      replay_value-Consistent e.id (field_of I s.field e.fields) s c
  replay_op-Consistent op_delete e s c = remove_id-Consistent I e.id s c
  replay_op-Consistent (other x) e s c = c

  -- An index that follows entries stays in agreement with itself.
  pub replay_entries-Consistent :
      (es : List (Entry V)) (s : SecondaryIndex V)
      → Consistent I s
      → Consistent I (replay_entries I es s)
  unfolding replay_entries
  replay_entries-Consistent [] s c = c
  replay_entries-Consistent (e ∷ es) s c =
      replay_entries-Consistent es (replay_op I e.op e s) (replay_op-Consistent e.op e s c)
