-- ===== src/Index/Counting.antt =====
-- The fast count of index.go: `mayExpire` may be stale, but never in the direction that matters.
use scriva.Prelude.{
  ℕ, ◌≡◌, refl, Bool, true, false, List, [], ◌∷◌, Dict, insert, remove, length, All, arith, ◌==◌,
  nat_eq, Bool-cases, if◌then◌else◌, if_true, if_false, sym, ◌∙◌, inl, inr, subst,
}
use scriva.Store
use scriva.Store.{Codec}
use scriva.Segment.{Segment}
use scriva.Index.{
  IndexEntry, Index, expired, new_index, any_expiring, note_expiring, count_live, live_count, set,
  delete, rebuild, rebuild_from, adopt, sort_segments,
}

-- No entry has a deadline.
abbrev pub NeverExpires : Dict ℕ IndexEntry → Type 0
NeverExpires = All (λ p. p.1.expires_at ≡ 0)

-- The flag is set whenever an entry has a deadline.
pub record IsHonest (idx : Index) : Type 0 where
  pub unset : idx.may_expire ≡ false → NeverExpires idx.entries

count_live-never : (now : ℕ) (m : Dict ℕ IndexEntry) → NeverExpires m → count_live now m ≡ length m
unfolding count_live expired
count_live-never now [] h = refl
count_live-never now ((id, e) ∷ m) h = ground (arith, count_live-never now m h.1, h.0)

-- Under the invariant the count that skips the walk is the count of the walk: the records that have
-- not expired.
pub live_count_lem :
    (idx : Index) (now : ℕ) → IsHonest idx → live_count idx now ≡ count_live now idx.entries
unfolding live_count
live_count_lem idx now h = elim (Bool-cases idx.may_expire) [
  | inl e ↦ if_true idx.may_expire _ _ e
  | inr e ↦ if_false idx.may_expire _ _ e ∙ sym (count_live-never now idx.entries (h.unset e))
]

NeverExpires-insert :
    (id : ℕ) (e : IndexEntry) (m : Dict ℕ IndexEntry)
    → e.expires_at ≡ 0
    → NeverExpires m
    → NeverExpires (insert id e m)
unfolding insert
NeverExpires-insert id e [] z h = (z, tt)
NeverExpires-insert id e ((j, f) ∷ m) z h = ground (arith, NeverExpires-insert id e m z h.1)

NeverExpires-remove : (id : ℕ) (m : Dict ℕ IndexEntry) → NeverExpires m → NeverExpires (remove id m)
unfolding remove
NeverExpires-remove id [] h = tt
NeverExpires-remove id ((j, f) ∷ m) h = ground (arith, NeverExpires-remove id m h.1)

any_expiring-false : (m : Dict ℕ IndexEntry) → any_expiring m ≡ false → NeverExpires m
unfolding any_expiring
any_expiring-false [] h = tt
any_expiring-false ((j, f) ∷ m) h = ground (arith, any_expiring-false m)

set-off :
    (e : IndexEntry) (idx : Index)
    → (if e.expires_at == 0 then idx.may_expire else true) ≡ false
    → (e.expires_at ≡ 0) × (idx.may_expire ≡ false)
set-off e idx off = ground arith

pub set-IsHonest : (id : ℕ) (e : IndexEntry) (idx : Index) → IsHonest idx → IsHonest (set id e idx)
unfolding set
set-IsHonest id e idx h = record {
  unset = λ off.
      let (z, old) = set-off e idx off in NeverExpires-insert id e idx.entries z (h.unset old);
}

pub delete-IsHonest : (id : ℕ) (idx : Index) → IsHonest idx → IsHonest (delete id idx)
unfolding delete
delete-IsHonest id idx h = record {
  unset = λ off. NeverExpires-remove id idx.entries (h.unset off);
}

pub note_expiring-IsHonest : (idx : Index) → IsHonest (note_expiring idx)
unfolding note_expiring
note_expiring-IsHonest idx = elim (Bool-cases idx.may_expire) [
  | inl on ↦
      subst IsHonest (sym (if_true idx.may_expire _ _ on))
        (record { unset = λ off. absurd (cc (on, off)) })
  | inr off ↦
      subst IsHonest (sym (if_false idx.may_expire _ _ off))
        (record { unset = λ none_seen. any_expiring-false idx.entries none_seen })
]

-- The indexes that the operations can reach from a new one.
pub data Reached (C : Codec) : Index → Type 1 where
  fresh : Reached C new_index
  after_set : (id : ℕ) (e : IndexEntry) (idx : Index) → Reached C idx → Reached C (set id e idx)
  after_delete : (id : ℕ) (idx : Index) → Reached C idx → Reached C (delete id idx)
  after_rebuild :
      (less : Segment → Segment → Bool) (segs : List Segment) (idx after : Index)
      → rebuild C less segs idx ≡ Store.ok after
      → Reached C idx
      → Reached C after

module _ (C : Codec) where
  open C use {V}

  adopt-IsHonest :
      (idx after : Index) (r : Store.Result (Dict ℕ IndexEntry))
      → adopt C idx r ≡ Store.ok after
      → IsHonest after
  adopt-IsHonest idx after (Store.ok m) h =
      subst IsHonest (cc h) (note_expiring-IsHonest (record idx { entries = m }))
  adopt-IsHonest idx after (Store.err e) h = cc h

  rebuild-IsHonest :
      (less : Segment → Segment → Bool) (segs : List Segment) (idx after : Index)
      → rebuild C less segs idx ≡ Store.ok after
      → IsHonest after
  unfolding rebuild
  rebuild-IsHonest less segs idx after h =
      adopt-IsHonest idx after (rebuild_from C (sort_segments less segs) []) h

  Reached-IsHonest : (idx : Index) → Reached C idx → IsHonest idx
  unfolding new_index
  Reached-IsHonest _ fresh = record { unset = λ _. tt }
  Reached-IsHonest _ (after_set id e idx r) = set-IsHonest id e idx (Reached-IsHonest idx r)
  Reached-IsHonest _ (after_delete id idx r) = delete-IsHonest id idx (Reached-IsHonest idx r)
  Reached-IsHonest _ (after_rebuild less segs idx after h r) =
      rebuild-IsHonest less segs idx after h

  -- On every index that sets, deletes and rebuilds reach from a new one, the count that skips the walk
  -- when no deadline was ever seen is the count of the walk: the records that have not expired.
  pub live_count-Reached :
      (idx : Index) (now : ℕ) → Reached C idx → live_count idx now ≡ count_live now idx.entries
  live_count-Reached idx now r = live_count_lem idx now (Reached-IsHonest idx r)
