-- ===== src/Collection/Recovery.antt =====
-- What is left of a collection after a crash: the segments, and the index rebuilt from them.
use scriva.Prelude.{
  ℕ, ◌≡◌, refl, sym, ap, subst, ◌∙◌, ◌≤◌, String, none, List, [], ◌∷◌, ◌++◌, All-map, length, take,
  if_elim,
}
use scriva.Store
use scriva.Store.{Entry, Bytes, IsLine}
use scriva.Segment.{Segment, open_active_segment}
use scriva.Segment.Scanning.{Represents, Represents-EndsLine}
use scriva.Segment.TornTail.{open_active_segment-crash}
use scriva.Index.{Index, rebuild, adopt, note_expiring}
use scriva.Index.Replay.{History, replay, Stores, Stores-append, rebuild_from-Stores}
use scriva.Index.Ordering.{Ordered, Ordered-snoc, sort_segments-Ordered, segment_less-num}
use scriva.Collection.{Env, Collection}
use scriva.Collection.Coherence.{IsSound, less}

note_expiring-entries : (idx : Index) → (note_expiring idx).entries ≡ idx.entries
unfolding note_expiring
note_expiring-entries idx =
    if_elim (λ (i : Index). i.entries ≡ idx.entries) idx.may_expire _ _ (λ _. refl) (λ _. refl)

open-path : (path : String) (b : Bytes) → (open_active_segment path b).path ≡ path
unfolding open_active_segment
open-path path b = refl

module _ (E : Env) where
  open E use {C}
  open C use {V}

  -- A rebuild from segments in order that store a history.
  rebuild-Stores :
      (ss : List Segment) (h : History C) (idx : Index)
      → Ordered (less E) ss
      → Stores C ss h
      → (after : Index) × (rebuild C (less E) ss idx ≡ Store.ok after)
        × (after.entries ≡ replay C h [])
  unfolding rebuild
  rebuild-Stores ss h idx o s = (
    note_expiring (record idx { entries = replay C h [] }),
    rw (sort_segments-Ordered (less E) ss o) (ap (adopt C idx) (rebuild_from-Stores C ss h [] s)),
    note_expiring-entries (record idx { entries = replay C h [] }),
  )

  -- A collection that is not fenced crashes while a line is written: any part of it, short of its
  -- line feed, may be in the file. Opening the active segment and rebuilding from the sealed
  -- segments and it succeeds, and gives the index that the collection had.
  pub reopen-IsSound :
      (c : Collection E) (line : Bytes) (n : ℕ) (idx : Index)
      → IsSound E c
      → c.fenced ≡ none
      → IsLine line
      → n ≤ length line
      → (after : Index) × (rebuild C
            (less E)
            (c.sealed
              ++ open_active_segment c.active.path (c.active.content ++ take n (line ++ 10 ∷ []))
                ∷ [])
            idx
          ≡ Store.ok after)
        × (after.entries ≡ c.index.entries)
  reopen-IsSound c line n idx s f plain le =
      let (h, es, k) = s f in
      let whole = Represents-EndsLine C 0 es c.active.content k.live in
      let file = c.active.content ++ take n (line ++ 10 ∷ []) in
      let seg = open_active_segment c.active.path file in
      let (content, _) =
        open_active_segment-crash c.active.path c.active.content line n whole plain le in
      let path = open-path c.active.path file in
      let (after, done, entries) =
        rebuild-Stores (c.sealed ++ seg ∷ []) (h ++ (c.active.path, es) ∷ []) idx
          (Ordered-snoc (less E) c.sealed seg k.ordered (
            All-map c.sealed
              (λ t (i, num, l).
                segment_less-num E.segment_num E.name_less seg t k.number i
                  (ap E.segment_num path ∙ k.numbered) num l)
              k.below))
          (Stores-append C c.sealed (seg ∷ []) h ((c.active.path, es) ∷ []) k.stored
            (sym path, subst (Represents C 0 es) (sym content) k.live, tt)) in
      (after, done, entries ∙ sym k.indexed)
