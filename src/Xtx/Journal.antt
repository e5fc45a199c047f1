-- ===== src/Xtx/Journal.antt =====
-- internal/xtxspec/journal.go and wire.go: the records of xtx.journal and their fold into one
-- decision for each transaction id. The proofs are in the module below.
pub mod Agreement
use scriva.Prelude.{
  ℕ, ◌≡◌, refl, String, Bool, true, false, ◌&&◌, Option, none, some, List, [], ◌∷◌, Dict, lookup,
  insert, ◌==◌, string_eq, ltb, bool_ne, if◌then◌else◌,
}

-- A participant of a commit record: collection name, run length and run digest.
pub record Part : Type 0 where
  pub c : String
  pub n : ℕ
  pub d : String

-- A journal line after the header. The fields `key`, `ts`, `why` and `crc` decide nothing here.
pub record Record : Type 0 where
  pub k : String
  pub tx : String
  pub parts : List Part
  pub pd : String
  pub o : String

pub data Decision : Type 0 where
  dec_none dec_commit dec_abort dec_retire_commit dec_retire_abort : Decision

pub data JournalError : Type 0 where
  journal_corrupt decision_conflict : JournalError

pub data Result {ℓ} (A : Type ℓ) : Type ℓ where
  err : JournalError → Result A
  ok : A → Result A

infixl 5 ◌>>=◌
abbrev pub ◌>>=◌ {κ ℓ} : {B : Type κ} {A : Type ℓ} → Result A → (A → Result B) → Result B
err e >>= next = err e
ok a >>= next = next a

pub >>=-eq-ok {κ ℓ} :
    {B : Type κ} {A : Type ℓ} (r : Result A) (next : A → Result B) {v : B}
    → (r >>= next) ≡ ok v
    → (a : A) × (r ≡ ok a) × (next a ≡ ok v)
>>=-eq-ok (err x) next done = cc
>>=-eq-ok (ok a) next done = (a, refl, done)

abbrev pub kind_commit : String
kind_commit = "commit"

abbrev pub kind_abort : String
kind_abort = "abort"

abbrev pub kind_retire : String
kind_retire = "retire"

-- The numbering of the Go constants, which `d > prev` compares.
abbrev pub rank : Decision → ℕ
rank dec_none = 0
rank dec_commit = 1
rank dec_abort = 2
rank dec_retire_commit = 3
rank dec_retire_abort = 4

-- `d == DecCommit || d == DecRetireCommit`
abbrev pub is_commit : Decision → Bool
is_commit dec_commit = true
is_commit dec_retire_commit = true
is_commit _ = false

-- the `switch` on a record's kind; `none` is its `default`
unfoldable pub decision_of : Record → Option Decision
decision_of r =
    if r.k == kind_commit
    then some dec_commit
    else if r.k == kind_abort
    then some dec_abort
    else if r.k == kind_retire && r.o == kind_commit
    then some dec_retire_commit
    else if r.k == kind_retire && r.o == kind_abort
    then some dec_retire_abort
    else none

-- what the loop does with the decision `d` of a record of `tx`
unfoldable pub record_decision :
    String → Decision → Option Decision → Dict String Decision → Result (Dict String Decision)
record_decision tx d none out = ok (insert tx d out)
record_decision tx d (some prev) out =
    if bool_ne (is_commit prev) (is_commit d)
    then err decision_conflict
    else ok (if ltb (rank prev) (rank d) then insert tx d out else out)

unfoldable pub decide :
    Option Decision → String → Dict String Decision → Result (Dict String Decision)
decide none tx out = err journal_corrupt
decide (some d) tx out = record_decision tx d (lookup tx out) out

unfoldable pub decisions_from : Dict String Decision → List Record → Result (Dict String Decision)
decisions_from out [] = ok out
decisions_from out (r ∷ rs) = decide (decision_of r) r.tx out >>= λ out'. decisions_from out' rs

unfoldable pub decisions : List Record → Result (Dict String Decision)
decisions rs = decisions_from [] rs

-- A map read as Go reads it: a missing key is the zero value.
unfoldable pub decision_at : String → Dict String Decision → Decision
decision_at tx ds = elim (lookup tx ds) [ none ↦ dec_none | some d ↦ d ]
