-- ===== src/Segment/TornTail.antt =====
-- Opening an active segment after a crash: recoverPartialLine keeps every whole line and drops the
-- torn one.
use scriva.Prelude.{
  ℕ, zero, suc, ◌≡◌, ◌≢◌, refl, sym, ap, subst, ◌∙◌, [], ◌∷◌, ◌++◌, All, arith, length,
  length-append, take, drop, take-length_append, ◌+◌, ◌-◌, ◌≤◌, ◌<◌, some, none, ◌⊎◌, inl, inr,
  String, Bool-cases, leb,
}
use mathlib.Core.List.{append-nil}
use scriva.Store.{Bytes, IsLine}
use scriva.Segment.{last_newline, recover_from, recover_partial_line, open_active_segment}

-- No line feed.
abbrev pub IsTorn : Bytes → Type 0
IsTorn = All (λ b. b ≢ 10)

-- Nothing, or lines each with its line feed.
abbrev pub EndsLine : Bytes → Type 0
EndsLine b = (b ≡ []) ⊎ ((g : Bytes) × (b ≡ g ++ 10 ∷ []))

last_newline-torn : (t : Bytes) → IsTorn t → last_newline t ≡ none
unfolding last_newline
last_newline-torn [] h = refl
last_newline-torn (b ∷ bs) h = ground (arith, last_newline-torn bs h.1, h.0)

IsTorn-drop : (n : ℕ) (t : Bytes) → IsTorn t → IsTorn (drop n t)
IsTorn-drop zero t h = h
IsTorn-drop (suc n) [] h = tt
IsTorn-drop (suc n) (b ∷ bs) h = IsTorn-drop n bs h.1

-- The last line feed of whole lines with a torn tail behind them.
last_newline-whole : (g t : Bytes) → IsTorn t → last_newline ((g ++ 10 ∷ []) ++ t) ≡ some (length g)
unfolding last_newline
last_newline-whole [] t h = ground (arith, last_newline-torn t h)
last_newline-whole (x ∷ g) t h = ground (arith, last_newline-whole g t h)

-- The same from an offset inside the whole lines, and from one past them.
last_newline-before :
    (offset : ℕ) (g t : Bytes)
    → IsTorn t
    → offset ≤ length g
    → last_newline (drop offset ((g ++ 10 ∷ []) ++ t)) ≡ some (length g - offset)
last_newline-before zero g t h le = last_newline-whole g t h ∙ ap some (omega arith)
last_newline-before (suc n) [] t h le = absurd (omega arith)
last_newline-before (suc n) (x ∷ g) t h le =
    last_newline-before n g t h (omega arith) ∙ ap some (omega arith)

last_newline-after :
    (offset : ℕ) (good t : Bytes)
    → IsTorn t
    → length good ≤ offset
    → last_newline (drop offset (good ++ t)) ≡ none
last_newline-after n [] t h le = last_newline-torn (drop n t) (IsTorn-drop n t h)
last_newline-after zero (x ∷ good) t h le = absurd (omega arith)
last_newline-after (suc n) (x ∷ good) t h le = last_newline-after n good t h (omega arith)

recover_from-whole :
    (fuel offset : ℕ) (g t : Bytes)
    → IsTorn t
    → offset < fuel
    → recover_from fuel offset ((g ++ 10 ∷ []) ++ t) ≡ length g + 1
unfolding recover_from
recover_from-whole zero offset g t h lt = absurd (omega arith)
recover_from-whole (suc fuel) offset g t h lt = elim (Bool-cases (leb offset (length g))) [
  | inl e ↦ ground (arith, last_newline-before offset g t h)
  | inr e ↦ ground (
    arith,
    last_newline-after offset (g ++ 10 ∷ []) t h,
    length-append {0} g (10 ∷ []),
    recover_from-whole fuel (offset - 512) g t h,
  )
]

recover_from-none : (fuel offset : ℕ) (t : Bytes) → IsTorn t → recover_from fuel offset t ≡ 0
unfolding recover_from
recover_from-none zero offset t h = refl
recover_from-none (suc fuel) offset t h = ground (
  arith,
  recover_from-none fuel (offset - 512) t h,
  last_newline-torn (drop offset t) (IsTorn-drop offset t h),
)

-- The two ways of a file that is not empty.
recover_clean :
    (file : Bytes) (k i : ℕ)
    → length file ≡ suc k
    → last_newline (drop k file) ≡ some i
    → recover_partial_line file ≡ (length file, file)
unfolding recover_partial_line
recover_clean file k i n e =
    let at : length file - 1 ≡ k = omega arith in
    ground (arith, ap (λ j. last_newline (drop j file)) at)

recover_cut :
    (file : Bytes) (k valid : ℕ)
    → length file ≡ suc k
    → last_newline (drop k file) ≡ none
    → recover_from (length file) (length file - 512) file ≡ valid
    → recover_partial_line file ≡ (valid, take valid file)
unfolding recover_partial_line
recover_cut file k valid n e v =
    let at : length file - 1 ≡ k = omega arith in
    ground (arith, ap (λ j. last_newline (drop j file)) at)

recover_whole :
    (g t : Bytes)
    → IsTorn t
    → recover_partial_line ((g ++ 10 ∷ []) ++ t) ≡ (length (g ++ 10 ∷ []), g ++ 10 ∷ [])
recover_whole g [] h =
    let n : length ((g ++ 10 ∷ []) ++ []) ≡ suc (length g) =
      omega (arith, length-append {0} (g ++ 10 ∷ []) [], length-append {0} g (10 ∷ [])) in
    recover_clean ((g ++ 10 ∷ []) ++ []) (length g) (length g - length g) n
      (last_newline-before (length g) g [] h (omega arith))
    ∙ rw append-nil
recover_whole g (b ∷ t) h =
    let good = g ++ 10 ∷ [] in
    let file = good ++ b ∷ t in
    let m : length good ≡ length g + 1 = length-append {0} g (10 ∷ []) in
    let n : length file ≡ suc (length g + 1 + length t) =
      omega (arith, length-append {0} good (b ∷ t)) in
    recover_cut file (length g + 1 + length t) (length good) n
      (last_newline-after (length g + 1 + length t) good (b ∷ t) h (omega arith))
      (recover_from-whole (length file) (length file - 512) g (b ∷ t) h (omega arith) ∙ sym m)
    ∙ rw (take-length_append good (b ∷ t))

recover_torn : (b : ℕ) (t : Bytes) → IsTorn (b ∷ t) → recover_partial_line (b ∷ t) ≡ (0, [])
recover_torn b t h =
    recover_cut (b ∷ t) (length t) 0 refl
      (last_newline-torn (drop (length t) (b ∷ t)) (IsTorn-drop (length t) (b ∷ t) h))
      (recover_from-none (suc (length t)) (suc (length t) - 512) (b ∷ t) h)

-- Whatever the torn tail of a crash, opening keeps exactly the whole lines, and its size is theirs.
pub recover_partial_line-whole :
    (good t : Bytes)
    → EndsLine good
    → IsTorn t
    → recover_partial_line (good ++ t) ≡ (length good, good)
recover_partial_line-whole good t (inr (g, e)) torn =
    subst (λ x. recover_partial_line (x ++ t) ≡ (length x, x)) (sym e) (recover_whole g t torn)
recover_partial_line-whole good [] (inl e) torn =
    subst (λ x. recover_partial_line (x ++ []) ≡ (length x, x)) (sym e)
      (unfold recover_partial_line in refl)
recover_partial_line-whole good (b ∷ t) (inl e) torn =
    subst (λ x. recover_partial_line (x ++ b ∷ t) ≡ (length x, x)) (sym e) (recover_torn b t torn)

IsTorn-take :
    (n : ℕ) (line : Bytes) → IsLine line → n ≤ length line → IsTorn (take n (line ++ 10 ∷ []))
IsTorn-take zero line h le = tt
IsTorn-take (suc n) [] h le = absurd (omega arith)
IsTorn-take (suc n) (b ∷ line) h le = (h.0.0, IsTorn-take n line h.1 (omega arith))

-- A crash that leaves any strict prefix of a line behind whole lines loses that line and nothing else:
-- the reopened segment has the old content and the old size.
pub open_active_segment-crash :
    (path : String) (good line : Bytes) (n : ℕ)
    → EndsLine good
    → IsLine line
    → n ≤ length line
    → ((open_active_segment path (good ++ take n (line ++ 10 ∷ []))).content ≡ good)
      × ((open_active_segment path (good ++ take n (line ++ 10 ∷ []))).size ≡ length good)
unfolding open_active_segment
open_active_segment-crash path good line n whole ok le =
    let e =
      recover_partial_line-whole good (take n (line ++ 10 ∷ [])) whole (IsTorn-take n line ok le) in
    (ap (λ (r : ℕ × Bytes). r.1) e, ap (λ (r : ℕ × Bytes). r.0) e)
