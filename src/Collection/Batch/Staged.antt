-- ===== src/Collection/Batch/Staged.antt =====
-- engine/collection.go: the operations of a batch, and that keeping the reserved keys changes no id.
use scriva.Prelude.{
  ℕ, ◌≡◌, refl, sym, ap, ◌∙◌, ◌≤◌, false, none, is_some, List, [], ◌∷◌, All, Dict, lookup, ◌==◌,
  nat_eq, string_eq,
}
use scriva.Store.{omit_empty}
use scriva.Index.{Index, IndexEntry}
use scriva.Handles.{TxOp, TxOpKind, tx_insert, tx_update, tx_delete}
use scriva.Collection.{Env, Collection}
use scriva.Collection.Soundness.{preserve-written}
use scriva.Collection.Batch.{keep_reserved, keep_keys}
use scriva.Collection.Batch.Growing.{Apart}
use scriva.Collection.Batch.Saved.{Covers}

-- a document of an operation that is nil or not empty, and an id that was handed out
abbrev pub Fit : {V : Type 0} → ℕ → TxOp V → Type 0
Fit n op = (omit_empty op.fields ≡ op.fields) × (op.id ≤ n)

abbrev pub IsInsert : {V : Type 0} → TxOp V → Type 0
IsInsert op = op.kind ≡ tx_insert

-- The inserts are under ids that are neither in the index nor of an earlier operation.
abbrev pub NewIds : {V : Type 0} → Index → List (TxOp V) → Type 0
NewIds idx [] = Unit
NewIds idx (op ∷ ops) =
    (IsInsert op → lookup op.id idx.entries ≡ none)
    × All (λ later. IsInsert later → (op.id == later.id) ≡ false) ops
    × NewIds idx ops

pub NewIds-Apart :
    {V : Type 0} (id : ℕ) (i j : Index) (ops : List (TxOp V))
    → Apart id i j
    → All (λ later. IsInsert later → (id == later.id) ≡ false) ops
    → NewIds i ops
    → NewIds j ops
NewIds-Apart id i j [] apart out f = tt
NewIds-Apart id i j (op ∷ ops) apart out (f, g, h) =
    (λ ins. apart op.id (out.0 ins) ∙ f ins, g, NewIds-Apart id i j ops apart out.1 h)

module _ (E : Env) where
  open E use {C, X}
  open C use {V}

  keep_reserved-id :
      (k : TxOpKind) (op : TxOp V) (c : Collection E) → (keep_reserved E k op c).id ≡ op.id
  keep_reserved-id tx_insert op c = refl
  keep_reserved-id tx_update op c = refl
  keep_reserved-id tx_delete op c = refl

  pub keep_keys-Covers :
      (before : Dict ℕ IndexEntry) (ops : List (TxOp V)) (c : Collection E)
      → Covers before ops
      → Covers before (keep_keys E ops c)
  unfolding keep_keys
  keep_keys-Covers before [] c cov = tt
  keep_keys-Covers before (op ∷ ops) c cov = (
    ap (λ (id : ℕ). is_some (lookup id before)) (keep_reserved-id op.kind op c) ∙ cov.0,
    keep_keys-Covers before ops c cov.1,
  )

  keep_reserved-kind :
      (k : TxOpKind) (op : TxOp V) (c : Collection E) → (keep_reserved E k op c).kind ≡ op.kind
  keep_reserved-kind tx_insert op c = refl
  keep_reserved-kind tx_update op c = refl
  keep_reserved-kind tx_delete op c = refl

  keep_reserved-Fit :
      (k : TxOpKind) (op : TxOp V) (c : Collection E)
      → Fit c.id_seq op
      → Fit c.id_seq (keep_reserved E k op c)
  keep_reserved-Fit tx_insert op c f = f
  keep_reserved-Fit tx_update op c (w, old) = (preserve-written E op.id op.fields c w, old)
  keep_reserved-Fit tx_delete op c f = f

  keep_keys-apart :
      (i j : ℕ) (ops : List (TxOp V)) (c : Collection E)
      → j ≡ i
      → All (λ later. IsInsert later → (i == later.id) ≡ false) ops
      → All (λ later. IsInsert later → (j == later.id) ≡ false) (keep_keys E ops c)
  unfolding keep_keys
  keep_keys-apart i j [] c same h = tt
  keep_keys-apart i j (op ∷ ops) c same h = (
    λ ins.
        ap (λ (n : ℕ). j == n) (keep_reserved-id op.kind op c)
        ∙ ap (λ (n : ℕ). n == op.id) same
        ∙ h.0 (sym (keep_reserved-kind op.kind op c) ∙ ins),
    keep_keys-apart i j ops c same h.1,
  )

  pub keep_keys-NewIds :
      (idx : Index) (ops : List (TxOp V)) (c : Collection E)
      → NewIds idx ops
      → NewIds idx (keep_keys E ops c)
  unfolding keep_keys
  keep_keys-NewIds idx [] c f = tt
  keep_keys-NewIds idx (op ∷ ops) c (f, g, h) = (
    λ ins.
        ap (λ (n : ℕ). lookup n idx.entries) (keep_reserved-id op.kind op c)
        ∙ f (sym (keep_reserved-kind op.kind op c) ∙ ins),
    keep_keys-apart op.id _ ops c (keep_reserved-id op.kind op c) g,
    keep_keys-NewIds idx ops c h,
  )

  pub keep_keys-Fit :
      (ops : List (TxOp V)) (c : Collection E)
      → All (Fit c.id_seq) ops
      → All (Fit c.id_seq) (keep_keys E ops c)
  unfolding keep_keys
  keep_keys-Fit [] c f = tt
  keep_keys-Fit (op ∷ ops) c f = (keep_reserved-Fit op.kind op c f.0, keep_keys-Fit ops c f.1)
