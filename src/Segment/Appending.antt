-- ===== src/Segment/Appending.antt =====
-- Append: what a success adds, and that a failure adds nothing or poisons the segment.
use scriva.Prelude.{
  ℕ, ◌≡◌, refl, ap, ◌∙◌, List, [], ◌∷◌, ◌++◌, arith, length, length-append, take,
  take-length_append, ◌+◌, ◌≤◌, nat_eq, true, false, ◌⊎◌, Bool-cases, if_true, if_false, some, inl,
  inr,
}
use scriva.Store
use scriva.Store.{Bytes, IsLine, Entry, Codec, decode, encode, omit_empty}
use scriva.Store.RoundTrip.{encode-Encoded, decode-line, verify-own}
use scriva.Segment.{
  Segment, Result, ok, err, Write, written, failed, max_scan_token_size, append, append_bytes,
  segment_poisoned, append_to_sealed, SegmentError,
}
use scriva.Segment.Scanning.{IsRecord, Represents, Represents-snoc}

-- A segment whose size is that of its file.
abbrev pub IsTidy : Segment → Type 0
IsTidy s = s.size ≡ length s.content

-- What a successful append did.
pub record Appended (s t : Segment) (b : Bytes) (offset : ℕ) : Type 0 where
  pub at_end : offset ≡ s.size
  pub fits : length b ≤ max_scan_token_size
  pub result : t ≡ record s { size = s.size + length b; content = s.content ++ b }

append_bytes-ok :
    (io : Write) (b : Bytes) (s : Segment) (offset : ℕ)
    → (append_bytes io (Store.ok b) s).1 ≡ ok offset
    → Appended s (append_bytes io (Store.ok b) s).0 b offset
unfolding append_bytes
append_bytes-ok written b s offset h = ground arith
append_bytes-ok (failed n cut) b s offset h = ground arith

append_bytes-Appended :
    (io : Write) (r : Store.Result Bytes) (s : Segment) (offset : ℕ)
    → (append_bytes io r s).1 ≡ ok offset
    → (b : Bytes) × (r ≡ Store.ok b) × Appended s (append_bytes io r s).0 b offset
append_bytes-Appended io (Store.ok b) s offset h = (b, refl, append_bytes-ok io b s offset h)
append_bytes-Appended io (Store.err e) s offset h = unfold append_bytes in cc

-- A failed append of a tidy segment leaves it as it was, unless the rollback failed too: then it is
-- poisoned, at its old size.
append_bytes-failed :
    (io : Write) (r : Store.Result Bytes) (s : Segment) (e : SegmentError)
    → IsTidy s
    → (append_bytes io r s).1 ≡ err e
    → ((append_bytes io r s).0 ≡ s)
      ⊎ (((append_bytes io r s).0.poisoned ≡ true)
          × ((append_bytes io r s).0.size ≡ s.size)
          × (e ≡ segment_poisoned))
unfolding append_bytes
append_bytes-failed io (Store.err x) s e tidy h = inl refl
append_bytes-failed written (Store.ok b) s e tidy h = ground arith
append_bytes-failed (failed n true) (Store.ok b) s e tidy h = ground (
  arith,
  ap (λ (k : ℕ). take k (s.content ++ take n b)) tidy,
  take-length_append s.content (take n b),
)
append_bytes-failed (failed n false) (Store.ok b) s e tidy h = ground arith

module _ (C : Codec) where
  open C use {V, marshal-IsLine}

  append-open :
      (io : Write) (e : Entry V) (s : Segment)
      → s.is_sealed ≡ false
      → append C io e s ≡ append_bytes io (encode C e) s
  unfolding append
  append-open io e s h = if_false s.is_sealed _ _ h

  append-sealed :
      (io : Write) (e : Entry V) (s : Segment)
      → s.is_sealed ≡ true
      → append C io e s ≡ (s, err append_to_sealed)
  unfolding append
  append-sealed io e s h = if_true s.is_sealed _ _ h

  pub append-Appended :
      (io : Write) (e : Entry V) (s : Segment) (offset : ℕ)
      → (append C io e s).1 ≡ ok offset
      → (b : Bytes) × (encode C e ≡ Store.ok b) × Appended s (append C io e s).0 b offset
  append-Appended io e s offset h = elim (Bool-cases s.is_sealed) [
    | inl shut ↦ absurd (cc (ap (λ (r : Segment × Result ℕ). r.1) (append-sealed io e s shut)))
    | inr usable ↦
        rw (append-open io e s usable)
          (append_bytes-Appended io (encode C e) s offset (rw (append-open io e s usable) at h))
  ]

  -- An append that fails adds nothing: a tidy segment is as it was before, or, when the truncation
  -- that should undo the write failed as well, it is poisoned, with its size unchanged, and the error
  -- says so.
  pub append-failed :
      (io : Write) (e : Entry V) (s : Segment) (x : SegmentError)
      → IsTidy s
      → (append C io e s).1 ≡ err x
      → ((append C io e s).0 ≡ s)
        ⊎ (((append C io e s).0.poisoned ≡ true)
            × ((append C io e s).0.size ≡ s.size)
            × (x ≡ segment_poisoned))
  append-failed io e s x tidy h = elim (Bool-cases s.is_sealed) [
    | inl shut ↦ inl (ap (λ (r : Segment × Result ℕ). r.0) (append-sealed io e s shut))
    | inr usable ↦
        rw (append-open io e s usable)
          (append_bytes-failed io (encode C e) s x tidy (rw (append-open io e s usable) at h))
  ]

  encode-IsRecord :
      (e : Entry V) (b : Bytes)
      → omit_empty e.fields ≡ e.fields
      → length b ≤ max_scan_token_size
      → encode C e ≡ Store.ok b
      → (line : Bytes) × (sum : ℕ) × (b ≡ line ++ 10 ∷ [])
        × IsRecord C line (record e { crc = some sum })
  encode-IsRecord e b doc fits made =
      let w = encode-Encoded C e b made in
      let plain = marshal-IsLine (record e { crc = some w.sum }) w.line w.marshalled in
      let n : length b ≡ length w.line + 1 =
        ap length w.ended ∙ length-append {0} w.line (10 ∷ []) in
      (
        w.line,
        w.sum,
        w.ended,
        record {
          decoded = decode-line C e b w ∙ verify-own C e b w doc;
          plain = plain.0;
          nonempty = plain.1;
          fits = omega arith;
        },
      )

  -- An append of a document puts its line behind the others: the file then stands for one more entry,
  -- at the offset that Append returns, which is the old size, and the new size is the file's.
  pub append-Represents :
      (io : Write) (e : Entry V) (s : Segment) (es : List (ℕ × Entry V)) (offset : ℕ)
      → omit_empty e.fields ≡ e.fields
      → IsTidy s
      → Represents C 0 es s.content
      → (append C io e s).1 ≡ ok offset
      → (sum : ℕ) × Represents C 0
          (es ++ (offset, record e { crc = some sum }) ∷ [])
          (append C io e s).0.content
        × IsTidy (append C io e s).0
        × (offset ≡ s.size)
  append-Represents io e s es offset doc tidy h done =
      let (b, made, a) = append-Appended io e s offset done in
      let (line, sum, ended, r) = encode-IsRecord e b doc a.fits made in
      let grown : (append C io e s).0.content ≡ s.content ++ b =
        ap (λ (t : Segment). t.content) a.result in
      let size : (append C io e s).0.size ≡ s.size + length b =
        ap (λ (t : Segment). t.size) a.result in
      let here : offset ≡ 0 + length s.content = omega (arith, a.at_end) in
      (
        sum,
        rw (grown, here, ended)
            (Represents-snoc C 0 es s.content line (record e { crc = some sum }) h r),
        rw grown (omega (arith, length-append {0} s.content b)),
        a.at_end,
      )
