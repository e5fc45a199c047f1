-- ===== src/Index/Replay.antt =====
-- What a replay of segments leaves in the index, against a description that looks at one id only.
use scriva.Prelude.{
  ℕ, ◌≡◌, refl, ap, ◌∙◌, String, Option, none, some, List, [], ◌∷◌, ◌++◌, Dict, lookup, insert,
  lookup-insert, lookup-remove, arith, ◌==◌, nat_eq, if◌then◌else◌,
}
use scriva.Store
use scriva.Store.{Bytes, Entry, Codec, Op, op_insert, op_update, op_delete, other}
use scriva.Segment.{Segment}
use scriva.Segment.Scanning.{Represents, scan-Represents}
use scriva.Index.{IndexEntry, place, apply_op, apply_one, apply_all, apply_entries, rebuild_from}

-- What one entry does to the record that has its id.
abbrev pub step : {V : Type 0} → Op → String → ℕ → Entry V → Option IndexEntry → Option IndexEntry
step op_insert path off e cur = some (place path off e cur)
step op_update path off e cur = some (place path off e cur)
step op_delete path off e cur = none
step (other s) path off e cur = cur

-- The last version of a record, reading the entries that bear its id and no others.
unfoldable pub latest :
    {V : Type 0} → ℕ → String → List (ℕ × Entry V) → Option IndexEntry → Option IndexEntry
latest id path [] cur = cur
latest id path ((off, e) ∷ es) cur =
    latest id path es (if e.id == id then step e.op path off e cur else cur)

insert-lookup_at :
    (f : Option IndexEntry → IndexEntry) (j id : ℕ) (m : Dict ℕ IndexEntry)
    → lookup id (insert j (f (lookup j m)) m)
      ≡ (if j == id then some (f (lookup id m)) else lookup id m)
insert-lookup_at f j id m =
    rw (lookup-insert j id (f (lookup j m)) m)
      (ground (arith, λ (e : j ≡ id). ap (λ (k : ℕ). f (lookup k m)) e))

apply_op-lookup :
    {V : Type 0} (id : ℕ) (op : Op) (path : String) (off : ℕ) (e : Entry V) (m : Dict ℕ IndexEntry)
    → lookup id (apply_op op path off e m)
      ≡ (if e.id == id then step op path off e (lookup id m) else lookup id m)
apply_op-lookup id op_insert path off e m = insert-lookup_at (place path off e) e.id id m
apply_op-lookup id op_update path off e m = insert-lookup_at (place path off e) e.id id m
apply_op-lookup id op_delete path off e m = lookup-remove e.id id m
apply_op-lookup id (other s) path off e m = ground arith

-- After a replay the index holds of each record its last version, and reading the entries of the
-- other records does not matter: a delete leaves nothing, and what follows a delete counts from 1.
pub lookup-apply_all :
    {V : Type 0} (id : ℕ) (path : String) (es : List (ℕ × Entry V)) (m : Dict ℕ IndexEntry)
    → lookup id (apply_all path es m) ≡ latest id path es (lookup id m)
unfolding apply_all latest apply_one
lookup-apply_all id path [] m = refl
lookup-apply_all id path ((off, e) ∷ es) m =
    lookup-apply_all id path es (apply_op e.op path off e m)
    ∙ ap (latest id path es) (apply_op-lookup id e.op path off e m)

-- A segment's path and the entries that stand in it.
abbrev pub History : Codec → Type 0
History C = List (String × List (ℕ × Entry C.V))

-- The index that a history leaves: the segments in order, each replayed behind the others.
unfoldable pub replay : (C : Codec) → History C → Dict ℕ IndexEntry → Dict ℕ IndexEntry
replay C [] m = m
replay C ((path, es) ∷ h) m = replay C h (apply_all path es m)

-- Each segment's file holds the lines of its part of the history.
abbrev pub Stores : (C : Codec) → List Segment → History C → Type 0
Stores C [] [] = Unit
Stores C [] (x ∷ h) = ⊥
Stores C (s ∷ ss) [] = ⊥
Stores C (s ∷ ss) ((path, es) ∷ h) = (path ≡ s.path) × Represents C 0 es s.content × Stores C ss h

module _ (C : Codec) where
  open C use {V}

  pub replay-append :
      (h g : History C) (m : Dict ℕ IndexEntry) → replay C (h ++ g) m ≡ replay C g (replay C h m)
  unfolding replay
  replay-append [] g m = refl
  replay-append ((path, es) ∷ h) g m = replay-append h g (apply_all path es m)

  pub apply_all-append :
      (path : String) (es fs : List (ℕ × Entry V)) (m : Dict ℕ IndexEntry)
      → apply_all path (es ++ fs) m ≡ apply_all path fs (apply_all path es m)
  unfolding apply_all
  apply_all-append path [] fs m = refl
  apply_all-append path ((off, e) ∷ es) fs m = apply_all-append path es fs (apply_one path off e m)

  pub Stores-append :
      (ss ts : List Segment) (h g : History C)
      → Stores C ss h
      → Stores C ts g
      → Stores C (ss ++ ts) (h ++ g)
  Stores-append [] ts [] g s t = t
  Stores-append [] ts (x ∷ h) g s t = absurd s
  Stores-append (a ∷ ss) ts [] g s t = absurd s
  Stores-append (a ∷ ss) ts ((path, es) ∷ h) g (at, r, s) t = (at, r, Stores-append ss ts h g s t)

  -- A rebuild from segments that store a history ends without an error, and in the index that the
  -- history leaves.
  pub rebuild_from-Stores :
      (ss : List Segment) (h : History C) (m : Dict ℕ IndexEntry)
      → Stores C ss h
      → rebuild_from C ss m ≡ Store.ok (replay C h m)
  unfolding rebuild_from replay apply_entries
  rebuild_from-Stores [] [] m s = refl
  rebuild_from-Stores [] (x ∷ h) m s = absurd s
  rebuild_from-Stores (a ∷ ss) [] m s = absurd s
  rebuild_from-Stores (a ∷ ss) ((path, es) ∷ h) m (at, r, s) =
      rw (scan-Represents C a es r, at) (rebuild_from-Stores ss h (apply_all a.path es m) s)
