-- ===== src/Collection/Coherence.antt =====
-- The invariant of a collection: its index is the replay of its segments.
use scriva.Prelude.{
  ℕ, ◌+◌, ◌≡◌, ◌⊎◌, inl, inr, refl, sym, ap, subst, ◌∙◌, ◌≤◌, ◌<◌, String, Bool, false, Option,
  none, some, List, [], ◌∷◌, ◌++◌, All, lookup, insert, arith, length, nat_eq,
}
use scriva.Store.{Entry, Op, omit_empty, op_insert, op_update}
use scriva.Segment
use scriva.Segment.{Segment, SegmentError, Write, append, segment_poisoned}
use scriva.Segment.Appending.{IsTidy, append-Represents, append-Appended}
use scriva.Segment.Scanning.{Represents}
use scriva.Index
use scriva.Index.{Index, IndexEntry, segment_less, rev_of, next_rev, apply_op, apply_one, apply_all}
use scriva.Index.Counting.{IsHonest}
use scriva.Index.Replay.{History, replay, replay-append, apply_all-append, Stores}
use scriva.Index.Ordering.{Ordered}
use scriva.Collection.{Env, Collection}

-- The order of sortSegments on this collection's file names.
abbrev pub less : Env → Segment → Segment → Bool
less E = segment_less E.segment_num E.name_less

-- The segment bears a number, and it is below the bound.
abbrev pub Numbered : (E : Env) → ℕ → Segment → Type 0
Numbered E bound s = (i : ℕ) × (E.segment_num s.path ≡ some i) × (i < bound)

-- The sealed segments store the history `h` and the active one the entries `es`, in segments numbered
-- upwards; the index is what a replay of them leaves, and its ids are ids that were handed out.
pub record Coherent (E : Env) (c : Collection E) (h : History E.C) (es : List (ℕ × Entry E.C.V))
    : Type 0 where
  pub usable : c.active.is_sealed ≡ false
  pub tidy : IsTidy c.active
  pub stored : Stores E.C c.sealed h
  pub live : Represents E.C 0 es c.active.content
  pub indexed : c.index.entries ≡ replay E.C (h ++ (c.active.path, es) ∷ []) []
  pub ids : All (λ p. p.0 ≤ c.id_seq) c.index.entries
  pub honest : IsHonest c.index
  pub ordered : Ordered (less E) c.sealed
  pub number : ℕ
  pub numbered : E.segment_num c.active.path ≡ some number
  pub below : All (Numbered E number) c.sealed
  pub handed_out : number ≤ c.seg_seq

-- What a collection keeps as long as no write left it with an unknown outcome.
abbrev pub IsSound : (E : Env) → Collection E → Type 0
IsSound E c =
    c.fenced ≡ none → (h : History E.C) × (es : List (ℕ × Entry E.C.V)) × Coherent E c h es

-- A revision above the record's is the one that a replay gives it.
next_rev-above : (cur : Option IndexEntry) (r : ℕ) → rev_of cur < r → next_rev cur r ≡ r
unfolding next_rev
next_rev-above cur r h = ground arith

-- The index entry of a write is the one that a replay of its line leaves.
pub set-apply_one :
    {V : Type 0} (path : String) (off sum : ℕ) (e : Entry V) (idx : Index)
    → (e.op ≡ op_insert) ⊎ (e.op ≡ op_update)
    → rev_of (lookup e.id idx.entries) < e.rev
    → (Index.set e.id
        (record {
          segment_path = path;
          offset = off;
          rev = e.rev;
          expires_at = e.expires_at;
          epoch = e.epoch;
        })
        idx).entries
      ≡ apply_one path off (record e { crc = some sum }) idx.entries
unfolding Index.set apply_one
set-apply_one path off sum e idx k h =
    ap
      (λ (r : ℕ).
        insert e.id
          (record {
            segment_path = path;
            offset = off;
            rev = r;
            expires_at = e.expires_at;
            epoch = e.epoch;
          })
          idx.entries)
      (sym (next_rev-above (lookup e.id idx.entries) e.rev h))
    ∙ elim k [
      | inl i ↦
          ap (λ (o : Op). apply_op o path off (record e { crc = some sum }) idx.entries) (sym i)
      | inr u ↦
          ap (λ (o : Op). apply_op o path off (record e { crc = some sum }) idx.entries) (sym u)
    ]

module _ (E : Env) where
  open E use {C, X}
  open C use {V}

  replay-last :
      (h : History C) (path : String) (es : List (ℕ × Entry V))
      → replay C (h ++ (path, es) ∷ []) [] ≡ apply_all path es (replay C h [])
  replay-last h path es = replay-append C h ((path, es) ∷ []) [] ∙ unfold replay in refl

  replay-snoc :
      (h : History C) (path : String) (es : List (ℕ × Entry V)) (off : ℕ) (e : Entry V)
      → replay C (h ++ (path, es ++ (off, e) ∷ []) ∷ []) []
        ≡ apply_one path off e (apply_all path es (replay C h []))
  replay-snoc h path es off e =
      replay-last h path (es ++ (off, e) ∷ [])
      ∙ apply_all-append C path es ((off, e) ∷ []) (replay C h [])
      ∙ unfold apply_all in refl

  -- One more line, and the index that follows it.
  pub Coherent-write :
      (c : Collection E) (h : History C) (es : List (ℕ × Entry V)) (io : Write) (e : Entry V)
      (seg : Segment) (off : ℕ)
      → Coherent E c h es
      → omit_empty e.fields ≡ e.fields
      → append C io e c.active ≡ (seg, Segment.ok off)
      → (idx : Index)
      → ((sum : ℕ)
          → idx.entries ≡ apply_one seg.path off (record e { crc = some sum }) c.index.entries)
      → All (λ p. p.0 ≤ c.id_seq) idx.entries
      → IsHonest idx
      → (fs : List (ℕ × Entry V)) × Coherent E (record c { active = seg; index = idx }) h fs
  Coherent-write c h es io e seg off k doc done idx follows ids honest =
      let (sum, live, tidy, _) =
        append-Represents C io e c.active es off doc k.tidy k.live
          (ap (λ (r : Segment × Segment.Result ℕ). r.1) done) in
      let (b, _, a) =
        append-Appended C io e c.active off (ap (λ (r : Segment × Segment.Result ℕ). r.1) done) in
      let grown : seg
          ≡ record c.active { size = c.active.size + length b; content = c.active.content ++ b } =
        sym (ap (λ (r : Segment × Segment.Result ℕ). r.0) done) ∙ a.result in
      let path : seg.path ≡ c.active.path = ap (λ (s : Segment). s.path) grown in
      (
        es ++ (off, record e { crc = some sum }) ∷ [],
        record {
          usable = ap (λ (s : Segment). s.is_sealed) grown ∙ k.usable;
          tidy = subst IsTidy (ap (λ (r : Segment × Segment.Result ℕ). r.0) done) tidy;
          stored = k.stored;
          live =
              subst
                (λ (s : Segment).
                  Represents C 0 (es ++ (off, record e { crc = some sum }) ∷ []) s.content)
                (ap (λ (r : Segment × Segment.Result ℕ). r.0) done) live;
          indexed =
              follows sum
              ∙ ap (λ (p : String). apply_one p off (record e { crc = some sum }) c.index.entries)
                  path
              ∙ ap (apply_one c.active.path off (record e { crc = some sum }))
                  (k.indexed ∙ replay-last h c.active.path es)
              ∙ sym (replay-snoc h c.active.path es off (record e { crc = some sum }))
              ∙ ap
                  (λ (p : String).
                    replay C (h ++ (p, es ++ (off, record e { crc = some sum }) ∷ []) ∷ []) [])
                  (sym path);
          ids = ids;
          honest = honest;
          ordered = k.ordered;
          number = k.number;
          numbered = ap E.segment_num path ∙ k.numbered;
          below = k.below;
          handed_out = k.handed_out;
        },
      )
