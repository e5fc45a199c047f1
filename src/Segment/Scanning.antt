-- ===== src/Segment/Scanning.antt =====
-- What the bytes of a segment stand for, and that a scan reads it back.
use mathlib.Core.List.{append_assoc}
use scriva.Prelude.{
  ℕ, suc, ◌≡◌, ◌≢◌, refl, sym, ap, ◌∙◌, subst, List, [], ◌∷◌, ◌++◌, arith, length, length-append,
  ◌+◌, ◌≤◌, nat_eq, inl, inr,
}
use scriva.Store
use scriva.Store.{Bytes, IsLine, Entry, Codec, decode, encode, omit_empty}
use scriva.Segment.{Segment, max_scan_token_size, scan_lines, scan_from_offset, located, lines}
use scriva.Segment.Lines.{lines-line, drop_cr-line}
use scriva.Segment.TornTail.{EndsLine}

-- A line of the file, without its line feed, and the entry that it decodes to.
pub record IsRecord (C : Codec) (line : Bytes) (e : Entry C.V) : Type 0 where
  pub decoded : decode C line ≡ Store.ok e
  pub plain : IsLine line
  pub nonempty : line ≢ []
  pub fits : length line + 1 ≤ max_scan_token_size

-- The bytes from offset `off` on are the lines of these entries, each at its offset.
abbrev pub Represents : (C : Codec) → ℕ → List (ℕ × Entry C.V) → Bytes → Type 0
Represents C off [] b = b ≡ []
Represents C off ((o, e) ∷ es) b =
    (line : Bytes) × (rest : Bytes) × (o ≡ off)
    × IsRecord C line e
    × (b ≡ line ++ 10 ∷ rest)
    × Represents C (off + (length line + 1)) es rest

module _ (C : Codec) where
  open C use {V}

  scan_lines-record :
      (off : ℕ) (line : Bytes) (e : Entry V) (ls : List Bytes)
      → IsRecord C line e
      → scan_lines C off (line ∷ ls)
        ≡ located C off (Store.ok e) (scan_lines C (off + (length line + 1)) ls)
  unfolding scan_lines
  scan_lines-record off [] e ls r = absurd (r.nonempty refl)
  scan_lines-record off (c ∷ l) e ls r =
      rw (drop_cr-line (c ∷ l) r.plain) (rw r.decoded (ground arith))

  scan_lines-Represents :
      (off : ℕ) (es : List (ℕ × Entry V)) (b : Bytes)
      → Represents C off es b
      → scan_lines C off (lines b) ≡ Store.ok es
  scan_lines-Represents off [] b h = rw h (unfold scan_lines lines in refl)
  scan_lines-Represents off ((o, e) ∷ es) b (line, rest, at, r, e', more) =
      ap (λ (t : Bytes). scan_lines C off (lines t)) e'
      ∙ ap (scan_lines C off) (lines-line line rest r.plain)
      ∙ scan_lines-record off line e (lines rest) r
      ∙ ap (located C off (Store.ok e))
          (scan_lines-Represents (off + (length line + 1)) es rest more)
      ∙ ap (λ (n : ℕ). Store.ok ((n, e) ∷ es)) (sym at)

  -- A scan of whole lines reads the entries that they stand for, at their offsets, in order.
  pub scan-Represents :
      (s : Segment) (es : List (ℕ × Entry V))
      → Represents C 0 es s.content
      → scan_from_offset C 0 s ≡ Store.ok es
  unfolding scan_from_offset
  scan-Represents s es h = scan_lines-Represents 0 es s.content h

  pub Represents-EndsLine :
      (off : ℕ) (es : List (ℕ × Entry V)) (b : Bytes) → Represents C off es b → EndsLine b
  Represents-EndsLine off [] b h = inl h
  Represents-EndsLine off ((o, e) ∷ es) b (line, rest, at, r, e', more) =
      elim (Represents-EndsLine (off + (length line + 1)) es rest more) [
        | inl nil ↦ inr (line, rw (← nil) e')
        | inr (g, f) ↦ inr (line ++ 10 ∷ g, e' ∙ rw f (sym (append_assoc line (10 ∷ g) (10 ∷ []))))
      ]

  -- One more line behind the others.
  pub Represents-snoc :
      (off : ℕ) (es : List (ℕ × Entry V)) (b line : Bytes) (e : Entry V)
      → Represents C off es b
      → IsRecord C line e
      → Represents C off (es ++ (off + length b, e) ∷ []) (b ++ (line ++ 10 ∷ []))
  Represents-snoc off [] b line e h r =
      let none_yet : length b ≡ 0 = ap length h in
      (line, [], omega arith, r, ap (λ (t : Bytes). t ++ (line ++ 10 ∷ [])) h, refl)
  Represents-snoc off ((o, f) ∷ es) b line e (l, rest, at, q, e', more) r =
      let n : length b ≡ length l + suc (length rest) =
        ap length e' ∙ length-append {0} l (10 ∷ rest) in
      (
        l,
        rest ++ (line ++ 10 ∷ []),
        at,
        q,
        ap (λ (t : Bytes). t ++ (line ++ 10 ∷ [])) e'
            ∙ append_assoc l (10 ∷ rest) (line ++ 10 ∷ []),
        subst
            (λ (k : ℕ).
              Represents C (off + (length l + 1)) (es ++ (k, e) ∷ []) (rest ++ (line ++ 10 ∷ [])))
            (omega arith) (Represents-snoc (off + (length l + 1)) es rest line e more r),
      )
