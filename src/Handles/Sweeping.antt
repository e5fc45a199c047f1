-- ===== src/Handles/Sweeping.antt =====
-- server/handle_owner.go: what a bind keeps, drops and bounds, and what a sweep does to the handles of
-- the other kind.
use scriva.Prelude.{
  ℕ, suc, ◌*◌, ◌≤◌, ◌<◌, max, ◌≡◌, ◌≢◌, refl, sym, ap, ◌∙◌, String, Bool, true, false, none, some,
  [], ◌∷◌, Dict, lookup, insert, lookup-insert, length, ltb, ◌==◌, beq_iff, string_eq,
  if◌then◌else◌, if_false, Bool-cases, inl, inr, arith,
}
use scriva.Handles.{
  begin, get_tx, is_found, owner_or_nobody, HandleOwners, sweep, swept, bind_in, bind, check,
  Server, is_tx, opened_tx,
}

pub lookup-sweep :
    (exists : String → Bool) (k : String) (m : Dict String String)
    → lookup k (sweep exists m) ≡ (if exists k then lookup k m else none)
unfolding lookup sweep
lookup-sweep exists k [] = ground arith
lookup-sweep exists k ((j, o) ∷ m) = ground (arith, lookup-sweep exists k m, beq_iff j k)

-- the number of entries whose handle is live
abbrev pub count_where : (String → Bool) → Dict String String → ℕ
count_where exists [] = 0
count_where exists ((k, o) ∷ m) = let n = count_where exists m in if exists k then suc n else n

length-sweep :
    (exists : String → Bool) (m : Dict String String)
    → length (sweep exists m) ≡ count_where exists m
unfolding sweep
length-sweep exists [] = refl
length-sweep exists ((k, o) ∷ m) = ground (arith, length-sweep exists m)

-- what an entry of the table after a bind was
pub lookup-bind-some :
    (id owner : String) (exists : String → Bool) (h : HandleOwners) (k o : String)
    → lookup k (bind id owner exists h).owner ≡ some o
    → lookup k (insert id owner h.owner) ≡ some o
unfolding bind bind_in
lookup-bind-some id owner exists h k o found =
    ground (arith, lookup-sweep exists k (insert id owner h.owner))

-- The entry of a live handle stands after a bind, and a live handle that is bound belongs to the one
-- that bound it.
pub lookup-bind_live :
    (id owner : String) (exists : String → Bool) (h : HandleOwners) (k : String)
    → exists k ≡ true
    → lookup k (bind id owner exists h).owner ≡ lookup k (insert id owner h.owner)
unfolding bind bind_in
lookup-bind_live id owner exists h k live =
    ground (arith, lookup-sweep exists k (insert id owner h.owner))

-- where the next sweep lies, for a threshold, the number of entries and the number of live handles
abbrev pub next_sweep : ℕ → ℕ → ℕ → ℕ
next_sweep before entries live = if ltb entries before then before else max 1024 (2 * live)

-- a table of the size that the next sweep allows
abbrev Fits : ℕ → HandleOwners → Type 0
Fits next h = (length h.owner < h.sweep_at) × (h.sweep_at ≡ next)

swept-Fits :
    (live : ℕ) (m : Dict String String) → length m ≡ live → Fits (max 1024 (2 * live)) (swept m)
swept-Fits live m h = (ground arith, ground arith)

bind_in-Fits :
    (exists : String → Bool) (before : ℕ) (m : Dict String String)
    → Fits (next_sweep before (length m) (count_where exists m)) (bind_in exists before m)
unfolding bind_in
bind_in-Fits exists before m = elim (Bool-cases (ltb (length m) before)) [
  | inl small ↦ rw (small, bind_in) (ground arith, refl)
  | inr full ↦
      rw (full, bind_in)
        (swept-Fits (count_where exists m) (sweep exists m) (length-sweep exists m))
]

-- After a bind the table of owners is smaller than its next sweep. That sweep lies where it lay when
-- the table with the new entry is smaller than it, and otherwise at twice the number of the live handles
-- of that table, or at 1024 when this is larger.
pub length-bind :
    (id owner : String) (exists : String → Bool) (h : HandleOwners)
    → (length (bind id owner exists h).owner < (bind id owner exists h).sweep_at)
      × ((bind id owner exists h).sweep_at
          ≡ next_sweep h.sweep_at
              (length (insert id owner h.owner))
              (count_where exists (insert id owner h.owner)))
unfolding bind bind_in
length-bind id owner exists h = bind_in-Fits exists h.sweep_at (insert id owner h.owner)

bind_in-gone :
    (exists : String → Bool) (n : ℕ) (m : Dict String String) (k : String)
    → n ≤ length m
    → exists k ≡ false
    → lookup k (bind_in exists n m).owner ≡ none
unfolding bind_in
bind_in-gone exists n m k full gone = ground (arith, lookup-sweep exists k m)

-- the handle that a begin adds is another one than `k`
is_tx-begin :
    {V : Type 0} (s : Server V) (id : String) (now : ℕ) (collection k : String)
    → lookup k s.tx_mgr.txs ≡ none
    → (id == k) ≡ false
    → is_tx (record s { tx_mgr = begin id now collection s.tx_mgr }) k ≡ false
unfolding begin get_tx
is_tx-begin s id now collection k foreign other =
    ap is_found (lookup-insert id k _ s.tx_mgr.txs ∙ if_false (id == k) _ _ other ∙ foreign)

-- A full table that a begin of one kind sweeps loses the owner of every handle of the other kind, which
-- that begin takes for gone: the credential that began such a handle no longer passes its check.
pub begin_tx-sweeps :
    {V : Type 0} (s : Server V) (id : String) (now : ℕ) (caller collection k owner : String)
    → s.owners.sweep_at ≤ length (insert id caller s.owners.owner)
    → lookup k s.tx_mgr.txs ≡ none
    → (id == k) ≡ false
    → owner ≢ ""
    → check owner k (opened_tx id now caller collection s).owners ≡ false
unfolding bind check begin get_tx bind_in
begin_tx-sweeps s id now caller collection k owner full foreign other someone =
    let lost =
      bind_in-gone (is_tx (record s { tx_mgr = begin id now collection s.tx_mgr }))
        s.owners.sweep_at (insert id caller s.owners.owner) k full
        (is_tx-begin s id now collection k foreign other) in
    elim (Bool-cases ("" == owner)) [
      | inl same ↦ let bad : ⊥ = someone (sym ((beq_iff "" owner).0 same)) in elim bad [ ]
      | inr differs ↦ ap (λ o. owner_or_nobody o == owner) lost ∙ differs
    ]
