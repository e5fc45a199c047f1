-- ===== src/Collection/Rotating.antt =====
-- rotateSegment keeps the invariant.
use mathlib.Core.List.{append-nil}
use scriva.Prelude.{
  ℕ, suc, ◌≡◌, inl, refl, sym, ap, subst, ◌∙◌, String, Bool, true, false, Option, List, [], ◌∷◌,
  ◌++◌, All-append, All-map, arith, length, nat_eq, if_elim,
}
use scriva.Store
use scriva.Store.{Entry}
use scriva.Segment
use scriva.Segment.{Segment, seal, open_active_segment, recover_partial_line}
use scriva.Segment.Scanning.{Represents, Represents-EndsLine}
use scriva.Segment.TornTail.{EndsLine, recover_partial_line-whole}
use scriva.Index.{apply_all}
use scriva.Index.Replay.{History, replay, Stores-append, replay-append}
use scriva.Index.Ordering.{Ordered-snoc, segment_less-num}
use scriva.Collection.{
  Env, Collection, Rotation, RotateError, Cause, fence, is_fenced, rotate_cause, dir_failed,
  create_failed, seal_failed,
}
use scriva.Collection.Commit.{rotate_segment, rotate_create, rotate_persist}
use scriva.Collection.Outcomes.{fence-fenced}
use scriva.Collection.Coherence.{Coherent, IsSound, Numbered, less}

-- Opening a file of whole lines changes nothing in it.
pub open_active_segment-whole :
    (path : String) (b : Store.Bytes)
    → EndsLine b
    → open_active_segment path b ≡ record {
      path = path;
      size = length b;
      is_sealed = false;
      open_file = true;
      poisoned = false;
      content = b;
    }
unfolding open_active_segment
open_active_segment-whole path b h =
    ap
      (λ (r : ℕ × Store.Bytes). record {
        path = path;
        size = r.0;
        is_sealed = false;
        open_file = true;
        poisoned = false;
        content = r.1;
      })
      (ap recover_partial_line (sym (append-nil b)) ∙ recover_partial_line-whole b [] h tt)

seal-keeps :
    (synced closed : Bool) (s : Segment)
    → ((seal synced closed s).0.path ≡ s.path)
      × ((seal synced closed s).0.content ≡ s.content)
      × ((seal synced closed s).0.size ≡ s.size)
unfolding seal
seal-keeps synced closed s =
    let Keeps : Segment × Segment.Result (Unit {0}) → Type 0 =
      λ r. (r.0.path ≡ s.path) × (r.0.content ≡ s.content) × (r.0.size ≡ s.size) in
    if_elim Keeps s.is_sealed _ _ (λ _. (refl, refl, refl))
      (λ _.
        if_elim Keeps s.open_file _ _
          (λ _. if_elim Keeps synced _ _ (λ _. (refl, refl, refl)) (λ _. (refl, refl, refl)))
          (λ _. (refl, refl, refl)))

module _ (E : Env) where
  open E use {C, X, segment_path}
  open C use {V}

  fence-IsSound : (op : String) (cause : Cause) (c : Collection E) → IsSound E (fence E op cause c)
  fence-IsSound op cause c h = absurd (fence-fenced E op cause c h)

  -- The active segment, whole, joins the sealed ones, and an empty one takes its place.
  rotated-Coherent :
      (c : Collection E) (h : History C) (es : List (ℕ × Entry V)) (old : Segment)
      → Coherent E c h es
      → old.path ≡ c.active.path
      → old.content ≡ c.active.content
      → Coherent E
          (record c {
            seg_seq = suc c.seg_seq;
            sealed = c.sealed ++ old ∷ [];
            active = open_active_segment (segment_path (suc c.seg_seq)) [];
          })
          (h ++ (old.path, es) ∷ [])
          []
  rotated-Coherent c h es old k path content =
      rw (open_active_segment-whole (segment_path (suc c.seg_seq)) [] (inl refl)) (record {
        usable = refl;
        tidy = refl;
        stored =
            Stores-append C c.sealed (old ∷ []) h ((old.path, es) ∷ []) k.stored
              (refl, subst (Represents C 0 es) (sym content) k.live, tt);
        live = refl;
        indexed =
            k.indexed
            ∙ ap (λ (p : String). replay C (h ++ (p, es) ∷ []) []) (sym path)
            ∙ sym (
                replay-append C (h ++ (old.path, es) ∷ []) ((segment_path (suc c.seg_seq), []) ∷ [])
                  []
                ∙ unfold replay apply_all in refl);
        ids = k.ids;
        honest = k.honest;
        ordered = Ordered-snoc (less E) c.sealed old k.ordered (
            All-map c.sealed
              (λ s (i, n, l).
                segment_less-num E.segment_num E.name_less old s k.number i
                  (ap E.segment_num path ∙ k.numbered) n l)
              k.below);
        number = suc c.seg_seq;
        numbered = E.num-path (suc c.seg_seq);
        below =
            All-append (Numbered E (suc c.seg_seq)) c.sealed (old ∷ [])
              (All-map c.sealed (λ s (i, n, l). (i, n, omega (arith, k.handed_out))) k.below)
              ((k.number, ap E.segment_num path ∙ k.numbered, omega (arith, k.handed_out)), tt);
        handed_out = omega arith;
      })

  -- The same file, opened again as the active segment.
  reopened-Coherent :
      (c : Collection E) (h : History C) (es : List (ℕ × Entry V)) (old : Segment)
      → Coherent E c h es
      → old.path ≡ c.active.path
      → old.content ≡ c.active.content
      → Coherent E
          (record c { seg_seq = suc c.seg_seq; active = open_active_segment old.path old.content })
          h
          es
  reopened-Coherent c h es old k path content =
      rw
        (
          path,
          content,
          open_active_segment-whole c.active.path c.active.content
              (Represents-EndsLine C 0 es c.active.content k.live),
        )
        (record {
          usable = refl;
          tidy = refl;
          stored = k.stored;
          live = k.live;
          indexed = k.indexed;
          ids = k.ids;
          honest = k.honest;
          ordered = k.ordered;
          number = k.number;
          numbered = k.numbered;
          below = k.below;
          handed_out = omega (arith, k.handed_out);
        })

  rotate_persist-IsSound :
      (rot : Rotation) (r : Segment.Result (Unit {0})) (c : Collection E)
      → IsSound E c
      → IsSound E (rotate_persist E rot r c).0
  unfolding rotate_persist
  rotate_persist-IsSound rot r c s =
      if_elim (λ (p : Collection E × Option RotateError). IsSound E p.0) _ _ _ (λ _. s)
        (λ _. fence-IsSound "rotate" (rotate_cause dir_failed) c)

  rotate_create-IsSound :
      (rot : Rotation) (r : Segment.Result (Unit {0})) (old : Segment) (c : Collection E)
      → IsSound E c
      → old.path ≡ c.active.path
      → old.content ≡ c.active.content
      → IsSound E (rotate_create E rot old r c).0
  unfolding rotate_create
  rotate_create-IsSound rot r old c s path content =
      if_elim (λ (p : Collection E × Option RotateError). IsSound E p.0) rot.opened _ _
        (λ _. rotate_persist-IsSound rot r _ (λ f.
          let (h, es, k) = s f in
          (h ++ (old.path, es) ∷ [], [], rotated-Coherent c h es old k path content)))
        (λ _.
          if_elim (λ (p : Collection E × Option RotateError). IsSound E p.0) rot.reopened _ _
            (λ _ f. let (h, es, k) = s f in (h, es, reopened-Coherent c h es old k path content))
            (λ _. fence-IsSound "rotate" (rotate_cause create_failed) _))

  -- A rotation keeps the invariant, whatever the disk does on its way.
  pub rotate_segment-IsSound :
      (rot : Rotation) (c : Collection E) → IsSound E c → IsSound E (rotate_segment E rot c).0
  unfolding rotate_segment
  rotate_segment-IsSound rot c s =
      let (path, content, _) = seal-keeps rot.seal_synced rot.seal_closed c.active in
      if_elim (λ (p : Collection E × Option RotateError). IsSound E p.0) (is_fenced E c.fenced) _ _
        (λ _. s)
        (λ _.
          if_elim (λ (p : Collection E × Option RotateError). IsSound E p.0)
            (seal rot.seal_synced rot.seal_closed c.active).0.is_sealed _ _
            (λ _. rotate_create-IsSound rot _ _ c s path content)
            (λ _. fence-IsSound "seal" (rotate_cause seal_failed) c))
