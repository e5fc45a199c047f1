-- ===== src/Segment/Lines.antt =====
-- The line splitting of the scanner, on text that the encoder wrote.
use scriva.Prelude.{◌≡◌, refl, ap, [], ◌∷◌, ◌++◌, arith, nat_eq}
use scriva.Store.{Bytes, IsLine}
use scriva.Segment.{lines, drop_cr}

pub lines-line : (l rest : Bytes) → IsLine l → lines (l ++ 10 ∷ rest) ≡ l ∷ lines rest
unfolding lines
lines-line [] rest h = refl
lines-line (b ∷ bs) rest h = ground (arith, lines-line bs rest h.1, h.0.0)

pub drop_cr-line : (l : Bytes) → IsLine l → drop_cr l ≡ l
unfolding drop_cr
drop_cr-line [] h = refl
drop_cr-line (c ∷ []) h = ground (arith, h.0.1)
drop_cr-line (c ∷ d ∷ r) h = ap (λ t. c ∷ t) (drop_cr-line (d ∷ r) h.1)
