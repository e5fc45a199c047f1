-- ===== src/Prelude/Maps.antt =====
-- Go's `map[K]V` as an association list; K is uint64 or string, compared through an `Eq` instance.
-- A map has no order in Go, so no theorem of the library speaks of the order of the entries.
use mathlib.Core.Path.{◌≡◌, refl, sym, subst, ◌∙◌}
use mathlib.Core.Logic.{◌↔◌, inl, inr}
use mathlib.Core.Bool.{Bool, true}
use mathlib.Core.Option.{Option, none, some}
use mathlib.Core.List.{List, [], ◌∷◌}
use Prim.Native.Nat.{ℕ, suc}
use Prim.Native.String.{String}
use text.Mathlib.Text.{◌==◌ as str_eq}
use text.Mathlib.TextEquality.{eq_iff}
use native.Mathlib.Omega.{arith}
use scriva.Prelude.Tests.{
  nat_beq, nat_beq_iff, if◌then◌else◌, if_elim, if_true, if_false, Bool-cases,
}
use scriva.Prelude.Lists.{length, All}

pub record Eq {ℓ} (A : Type ℓ) : Type ℓ where
  pub beq : A → A → Bool
  pub beq_iff : (x y : A) → (beq x y ≡ true) ↔ (x ≡ y)

-- uint64 keys and string keys
instance abbrev pub string_eq : Eq String
string_eq = record { beq_iff = eq_iff; beq = str_eq }

infix 50 ◌==◌
abbrev pub ◌==◌ {ℓ} : {K : Type ℓ} ⦃eq : Eq K⦄ → K → K → Bool
◌==◌ ⦃eq⦄ = eq.beq

instance abbrev pub nat_eq : Eq ℕ
nat_eq = record { beq_iff = nat_beq_iff; beq = nat_beq }

pub beq_refl {ℓ} : {A : Type ℓ} ⦃e : Eq A⦄ (a : A) → (a == a) ≡ true
beq_refl ⦃e⦄ a = (e.beq_iff a a).1 refl

pub beq_iff {ℓ} : {A : Type ℓ} ⦃e : Eq A⦄ (a b : A) → ((a == b) ≡ true) ↔ (a ≡ b)
beq_iff ⦃e⦄ a b = e.beq_iff a b

abbrev pub Dict {ℓ κ} : Type ℓ → Type κ → Type (ℓ ⊔ κ)
Dict K V = List (K × V)

module _ {ℓ κ} {K : Type ℓ} {V : Type κ} ⦃e : Eq K⦄ where
  -- m[k]
  unfoldable pub lookup : K → Dict K V → Option V
  lookup key [] = none
  lookup key ((i, found) ∷ rest) = if i == key then some found else lookup key rest

  -- delete(m, k)
  unfoldable pub remove : K → Dict K V → Dict K V
  remove k [] = []
  remove k ((j, w) ∷ m) = let rest = remove k m in if j == k then rest else (j, w) ∷ rest

  -- m[k] = v
  unfoldable pub insert : K → V → Dict K V → Dict K V
  insert key new [] = (key, new) ∷ []
  insert key new ((i, old) ∷ rest) =
      if i == key then (key, new) ∷ rest else (i, old) ∷ insert key new rest

  pub lookup-insert :
      (key sought : K) (new : V) (m : Dict K V)
      → lookup sought (insert key new m) ≡ (if key == sought then some new else lookup sought m)
  unfolding insert lookup
  lookup-insert key sought new [] = refl
  lookup-insert key sought new ((at, old) ∷ rest) = ground (
    arith,
    lookup-insert key sought new rest,
    e.beq_iff key sought,
    e.beq_iff at key,
    e.beq_iff at sought,
  )

  pub lookup-remove :
      (k j : K) (m : Dict K V) → lookup j (remove k m) ≡ (if k == j then none else lookup j m)
  unfolding lookup remove
  lookup-remove k j [] = ground arith
  lookup-remove k j ((i, w) ∷ m) =
      ground (arith, e.beq_iff k j, e.beq_iff i k, e.beq_iff i j, lookup-remove k j m)

  pub lookup-insert_self : (k : K) (v : V) (m : Dict K V) → lookup k (insert k v m) ≡ some v
  lookup-insert_self k v m = rw (lookup-insert, beq_refl k)

  -- No key stands twice.
  abbrev pub IsMap : Dict K V → Type κ
  IsMap [] = Unit
  IsMap ((j, v) ∷ m) = (lookup j m ≡ none) × IsMap m

  pub insert-IsMap : (k : K) (v : V) (m : Dict K V) → IsMap m → IsMap (insert k v m)
  unfolding insert lookup
  insert-IsMap k v [] h = (refl, tt)
  insert-IsMap k v ((j, w) ∷ m) h =
      ground (arith, insert-IsMap k v m h.1, lookup-insert k j v m, e.beq_iff j k, e.beq_iff k j)

  pub remove-IsMap : (k : K) (m : Dict K V) → IsMap m → IsMap (remove k m)
  unfolding remove
  remove-IsMap k [] h = tt
  remove-IsMap k ((j, w) ∷ m) h =
      ground (arith, remove-IsMap k m h.1, lookup-remove k j m, e.beq_iff j k, e.beq_iff k j)

  pub length-insert_new :
      (k : K) (v : V) (m : Dict K V) → lookup k m ≡ none → length (insert k v m) ≡ suc (length m)
  unfolding lookup insert
  length-insert_new k v [] h = refl
  length-insert_new k v ((j, w) ∷ m) h = ground (arith, length-insert_new k v m)

  pub length-insert_old :
      (k : K) (v w : V) (m : Dict K V) → lookup k m ≡ some w → length (insert k v m) ≡ length m
  unfolding lookup insert
  length-insert_old k v w [] h = ground arith
  length-insert_old k v w ((j, u) ∷ m) h = ground (arith, length-insert_old k v w m)

  pub All-insert {μ} :
      (P : K × V → Type μ) (k : K) (v : V) (m : Dict K V)
      → P (k, v)
      → All P m
      → All P (insert k v m)
  unfolding insert
  All-insert P k v [] p h = (p, tt)
  All-insert P k v ((j, w) ∷ m) p h =
      if_elim (All P) (j == k) _ _ (λ _. (p, h.1)) (λ _. (h.0, All-insert P k v m p h.1))

  pub All-remove {μ} : (P : K × V → Type μ) (k : K) (m : Dict K V) → All P m → All P (remove k m)
  unfolding remove
  All-remove P k [] h = tt
  All-remove P k ((j, w) ∷ m) h =
      if_elim (All P) (j == k) _ _ (λ _. All-remove P k m h.1) (λ _. (h.0, All-remove P k m h.1))

  pub All-lookup {μ} :
      (P : K × V → Type μ) (k : K) (v : V) (m : Dict K V) → lookup k m ≡ some v → All P m → P (k, v)
  unfolding lookup
  All-lookup P k v [] e h = ground arith
  All-lookup P k v ((j, w) ∷ m) e h = elim (Bool-cases (j == k)) [
    | inl same ↦
        let value : some w ≡ some v = sym (if_true _ _ _ same) ∙ e in
        subst (λ (u : V). P (k, u)) (cc value)
          (subst (λ (i : K). P (i, w)) ((beq_iff j k).0 same) h.0)
    | inr other ↦ All-lookup P k v m (sym (if_false _ _ _ other) ∙ e) h.1
  ]
