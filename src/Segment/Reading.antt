-- ===== src/Segment/Reading.antt =====
-- ReadAt of engine/segment.go: one line, at an offset that the index gives.
use scriva.Prelude.{
  ℕ, suc, ◌≡◌, ◌⊎◌, inl, inr, ap, ◌∙◌, subst, List, [], ◌∷◌, ◌++◌, arith, length, drop, ◌+◌, ltb,
  if◌then◌else◌, if_false,
}
use scriva.Store
use scriva.Store.{Bytes, Entry, Codec, decode}
use scriva.Segment.{Segment, max_scan_token_size, lines, drop_cr}
use scriva.Segment.Lines.{lines-line, drop_cr-line}
use scriva.Segment.Scanning.{IsRecord, Represents}

-- The entry stands at this offset.
abbrev pub At : {V : Type 0} → ℕ → Entry V → List (ℕ × Entry V) → Type 0
At o e [] = ⊥
At o e ((p, f) ∷ es) = ((p ≡ o) × (f ≡ e)) ⊎ At o e es

pub At-append_left :
    {V : Type 0} (o : ℕ) (e : Entry V) (es fs : List (ℕ × Entry V)) → At o e es → At o e (es ++ fs)
At-append_left o e [] fs h = absurd h
At-append_left o e ((p, f) ∷ es) fs (inl h) = inl h
At-append_left o e ((p, f) ∷ es) fs (inr h) = inr (At-append_left o e es fs h)

drop-past : (xs ys : Bytes) (n : ℕ) → drop (length xs + n) (xs ++ ys) ≡ drop n ys
drop-past [] ys n = ap (λ (k : ℕ). drop k ys) (omega arith)
drop-past (x ∷ xs) ys n =
    ap (λ (k : ℕ). drop k (x ∷ xs ++ ys)) {x = suc (length xs) + n} {y = suc (length xs + n)}
      (omega arith)
    ∙ drop-past xs ys n

module _ (C : Codec) where
  open C use {V}

  abbrev pub read_line : List Bytes → Store.Result (Entry V)
  read_line [] = Store.err Store.bad_json
  read_line (raw ∷ ls) =
      if ltb max_scan_token_size (length raw + 1)
      then Store.err Store.bad_json
      else decode C (drop_cr raw)

  -- ReadAt; an empty read and a line beyond the buffer are errors of their own
  unfoldable pub read_at : ℕ → Segment → Store.Result (Entry V)
  unfolding lines drop_cr
  read_at offset s = read_line (lines (drop offset s.content))

  Represents-At :
      (off : ℕ) (es : List (ℕ × Entry V)) (b : Bytes) (o : ℕ) (e : Entry V)
      → Represents C off es b
      → At o e es
      → (k : ℕ) × (line : Bytes) × (rest : Bytes) × (o ≡ off + k)
        × IsRecord C line e
        × (drop k b ≡ line ++ 10 ∷ rest)
  Represents-At off [] b o e h there = absurd there
  Represents-At off ((p, f) ∷ es) b o e (line, rest, at, r, e', more) (inl (here, same)) =
      (0, line, rest, omega (arith, at, here), subst (IsRecord C line) same r, e')
  Represents-At off ((p, f) ∷ es) b o e (line, rest, at, r, e', more) (inr there) =
      let (k, l, q, far, r', cut) =
        Represents-At (off + (length line + 1)) es rest o e more there in
      (
        length line + suc k,
        l,
        q,
        omega (arith, far),
        r',
        ap (drop (length line + suc k)) e' ∙ drop-past line (10 ∷ rest) (suc k) ∙ cut,
      )

  -- A read at an offset where an entry stands returns that entry.
  pub read_at-Represents :
      (s : Segment) (es : List (ℕ × Entry V)) (o : ℕ) (e : Entry V)
      → Represents C 0 es s.content
      → At o e es
      → read_at o s ≡ Store.ok e
  unfolding read_at
  read_at-Represents s es o e h at =
      let (k, line, rest, far, r, cut) = Represents-At 0 es s.content o e h at in
      ap (λ (n : ℕ). read_line (lines (drop n s.content))) {x = o} {y = k} (omega (arith, far))
      ∙ ap (λ (b : Bytes). read_line (lines b)) cut
      ∙ ap read_line (lines-line line rest r.plain)
      ∙ if_false (ltb max_scan_token_size (length line + 1)) _ _ (ground (arith, r.fits))
      ∙ ap (decode C) (drop_cr-line line r.plain)
      ∙ r.decoded
