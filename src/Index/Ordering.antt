-- ===== src/Index/Ordering.antt =====
-- sortSegments: segments that stand in order already keep it.
use scriva.Prelude.{
  ℕ, ◌≡◌, refl, ◌<◌, String, Bool, false, Option, some, List, [], ◌∷◌, ◌++◌, All, All-append, arith,
  nat_eq,
}
use scriva.Segment.{Segment}
use scriva.Index.{segment_less, insert_segment, sort_segments}

-- No segment of the list is less than one before it.
abbrev pub Ordered : (Segment → Segment → Bool) → List Segment → Type 0
Ordered less [] = Unit
Ordered less (s ∷ ss) = All (λ t. less t s ≡ false) ss × Ordered less ss

-- Sorting an ordered list changes nothing: the sort is stable.
pub sort_segments-Ordered :
    (less : Segment → Segment → Bool) (ss : List Segment)
    → Ordered less ss
    → sort_segments less ss ≡ ss
unfolding sort_segments insert_segment
sort_segments-Ordered less [] h = refl
sort_segments-Ordered less (s ∷ []) h = refl
sort_segments-Ordered less (s ∷ t ∷ ts) h =
    rw (sort_segments-Ordered less (t ∷ ts) h.1) (rw h.0.0 refl)

pub Ordered-snoc :
    (less : Segment → Segment → Bool) (ss : List Segment) (t : Segment)
    → Ordered less ss
    → All (λ s. less t s ≡ false) ss
    → Ordered less (ss ++ t ∷ [])
Ordered-snoc less [] t h l = (tt, tt)
Ordered-snoc less (s ∷ ss) t h l =
    (All-append (λ u. less u s ≡ false) ss (t ∷ []) h.0 (l.0, tt), Ordered-snoc less ss t h.1 l.1)

pub segment_less-num :
    (num : String → Option ℕ) (name_less : String → String → Bool) (a b : Segment) (i j : ℕ)
    → num a.path ≡ some i
    → num b.path ≡ some j
    → j < i
    → segment_less num name_less a b ≡ false
unfolding segment_less
segment_less-num num name_less a b i j ha hb l = rw (ha, segment_less) (rw hb (ground arith))
