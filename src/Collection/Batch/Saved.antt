-- ===== src/Collection/Batch/Saved.antt =====
-- engine/collection.go: the index entries that a batch saves before it begins, and puts back.
use scriva.Prelude.{
  ℕ, ◌≡◌, ◌≢◌, inl, inr, refl, sym, ap, subst, ◌∙◌, true, Option, none, some, Bool-cases, List, [],
  ◌∷◌, All, Dict, lookup, insert, lookup-insert, lookup-remove, All-insert, beq_iff, arith, ◌==◌,
  nat_eq, string_eq, if◌then◌else◌, if_true, if_false, if_elim, is_some,
}
use scriva.Index
use scriva.Index.{Index, IndexEntry}
use scriva.Handles.{TxOp}
use scriva.Collection.Batch.{entry_or_zero, save_before, restore_index}

-- The map holds, of each of its ids, what the index has for it.
abbrev pub Saves : Index → Dict ℕ IndexEntry → Type 0
Saves idx = All (λ p. p.1 ≡ entry_or_zero (lookup p.0 idx.entries))

-- Every entry names the file of a segment.
abbrev pub Named : Index → Type 0
Named idx = (id : ℕ) (e : IndexEntry) → lookup id idx.entries ≡ some e → e.segment_path ≢ ""

restore_found :
    (id j : ℕ) (o : Option IndexEntry) (e : IndexEntry) (idx : Index)
    → e ≡ entry_or_zero o
    → ((f : IndexEntry) → o ≡ some f → f.segment_path ≢ "")
    → lookup j (if e.segment_path == "" then Index.delete id idx else Index.set id e idx).entries
      ≡ (if id == j then o else lookup j idx.entries)
unfolding Index.delete Index.set
restore_found id j none e idx h named =
    subst
      (λ (x : IndexEntry).
        lookup j (if x.segment_path == "" then Index.delete id idx else Index.set id x idx).entries
        ≡ (if id == j then none else lookup j idx.entries))
      (sym h) (lookup-remove id j idx.entries)
restore_found id j (some f) e idx h named =
    ap (λ (i : Index). lookup j i.entries)
      (if_false (e.segment_path == "") (Index.delete id idx) (Index.set id e idx)
        (elim (Bool-cases (e.segment_path == "")) [
          | inl bad ↦ absurd (
              named f refl (
                ap (λ (x : IndexEntry). x.segment_path) (sym h)
                ∙ (beq_iff e.segment_path "").0 bad))
          | inr fine ↦ fine
        ]))
    ∙ lookup-insert id j e idx.entries
    ∙ ap (λ (x : IndexEntry). if id == j then some x else lookup j idx.entries) h

-- Writing what was saved back gives each record the entry that it had, if the others still have it.
pub restore-lookup :
    (idx0 : Index) (before : Dict ℕ IndexEntry) (idx : Index)
    → Named idx0
    → Saves idx0 before
    → ((id : ℕ) → lookup id before ≡ none → lookup id idx.entries ≡ lookup id idx0.entries)
    → (id : ℕ) → lookup id (restore_index before idx).entries ≡ lookup id idx0.entries
unfolding restore_index lookup
restore-lookup idx0 [] idx named saved kept id = kept id refl
restore-lookup idx0 ((k, e) ∷ before) idx named saved kept id =
    let next = if e.segment_path == "" then Index.delete k idx else Index.set k e idx in
    restore-lookup idx0 before next named saved.1
      (λ j out.
        restore_found k j (lookup k idx0.entries) e idx saved.0 (named k)
        ∙ elim (Bool-cases (k == j)) [
          | inl same ↦
              if_true (k == j) _ _ same ∙ ap (λ i. lookup i idx0.entries) ((beq_iff k j).0 same)
          | inr differs ↦
              if_false (k == j) _ _ differs
              ∙ kept j (if_false (k == j) (some e) (lookup j before) differs ∙ out)
        ])
      id

pub save_before-Saves :
    {V : Type 0} (idx : Index) (ops : List (TxOp V)) (before : Dict ℕ IndexEntry)
    → Saves idx before
    → Saves idx (save_before idx ops before)
unfolding save_before Index.get
save_before-Saves idx [] before h = h
save_before-Saves idx (op ∷ ops) before h = save_before-Saves idx ops _ (
    if_elim (Saves idx) (is_some (lookup op.id before)) before _ (λ _. h)
      (λ _. All-insert (λ p. p.1 ≡ entry_or_zero (lookup p.0 idx.entries)) op.id _ before refl h))

-- every operation's id is in the map
abbrev pub Covers : {V : Type 0} → Dict ℕ IndexEntry → List (TxOp V) → Type 0
Covers before = All (λ op. is_some (lookup op.id before) ≡ true)

save_step :
    (id j : ℕ) (e : IndexEntry) (before : Dict ℕ IndexEntry)
    → is_some (lookup j before) ≡ true
    → is_some (lookup j (if is_some (lookup id before) then before else insert id e before)) ≡ true
save_step id j e before h = ground (arith, lookup-insert id j e before)

save_own :
    (id : ℕ) (e : IndexEntry) (before : Dict ℕ IndexEntry)
    → is_some (lookup id (if is_some (lookup id before) then before else insert id e before)) ≡ true
save_own id e before = ground (arith, lookup-insert id id e before, beq_iff id id)

save_before-kept :
    {V : Type 0} (idx : Index) (ops : List (TxOp V)) (before : Dict ℕ IndexEntry) (j : ℕ)
    → is_some (lookup j before) ≡ true
    → is_some (lookup j (save_before idx ops before)) ≡ true
unfolding save_before
save_before-kept idx [] before j h = h
save_before-kept idx (op ∷ ops) before j h =
    save_before-kept idx ops _ j (save_step op.id j _ before h)

pub save_before-Covers :
    {V : Type 0} (idx : Index) (ops : List (TxOp V)) (before : Dict ℕ IndexEntry)
    → Covers (save_before idx ops before) ops
unfolding save_before
save_before-Covers idx [] before = tt
save_before-Covers idx (op ∷ ops) before =
    (save_before-kept idx ops _ op.id (save_own op.id _ before), save_before-Covers idx ops _)
