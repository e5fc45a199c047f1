-- ===== src/Index.antt =====
-- engine/index.go and the clock test of engine/ttl.go: the primary index, from record ids to the place
-- of the latest version, and its reconstruction from the segments. The proofs are in the modules
-- below. Coverage and the persisted form are not modelled.
pub mod Counting
pub mod Replay
pub mod Ordering
use scriva.Prelude.{
  ℕ, zero, suc, ◌+◌, String, Bool, true, false, not, ◌&&◌, Option, none, some, List, [], ◌∷◌, ◌++◌,
  Dict, lookup, insert, remove, length, max, ltb, leb, ◌==◌, nat_eq, string_eq, if◌then◌else◌,
}
use scriva.Store
use scriva.Store.{Entry, Codec, Op, op_insert, op_update, op_delete, other}
use scriva.Segment.{Segment, scan_from_offset}

pub record IndexEntry : Type 0 where
  pub segment_path : String
  pub offset : ℕ
  pub rev : ℕ
  pub expires_at : ℕ
  pub epoch : ℕ

pub record Index : Type 0 where
  pub entries : Dict ℕ IndexEntry
  pub may_expire : Bool

-- ttl.go: a zero deadline never expires
unfoldable pub expired : ℕ → ℕ → Bool
expired deadline now = not (deadline == 0) && leb deadline now

unfoldable pub new_index : Index
new_index = record { entries = []; may_expire = false }

unfoldable pub any_expiring : Dict ℕ IndexEntry → Bool
any_expiring [] = false
any_expiring ((id, e) ∷ m) = if e.expires_at == 0 then any_expiring m else true

-- noteExpiringLocked
unfoldable pub note_expiring : Index → Index
unfolding any_expiring
note_expiring idx =
    if idx.may_expire then idx else record idx { may_expire = any_expiring idx.entries }

unfoldable pub count_live : ℕ → Dict ℕ IndexEntry → ℕ
unfolding expired
count_live now [] = 0
count_live now ((id, e) ∷ m) =
    let n = count_live now m in if expired e.expires_at now then n else suc n

unfoldable pub live_count : Index → ℕ → ℕ
unfolding count_live
live_count idx now = if idx.may_expire then count_live now idx.entries else length idx.entries

unfoldable pub set : ℕ → IndexEntry → Index → Index
set id e idx = record {
  entries = insert id e idx.entries;
  may_expire = if e.expires_at == 0 then idx.may_expire else true;
}

unfoldable pub get : ℕ → Index → Option IndexEntry
get id idx = lookup id idx.entries

unfoldable pub delete : ℕ → Index → Index
delete id idx = record idx { entries = remove id idx.entries }

unfoldable pub len : Index → ℕ
len idx = length idx.entries

unfoldable pub count_epoch : ℕ → Dict ℕ IndexEntry → ℕ
count_epoch epoch [] = 0
count_epoch epoch ((id, e) ∷ m) =
    let n = count_epoch epoch m in if e.epoch == epoch then suc n else n

-- the number of records, and of those at the epoch
unfoldable pub count_at_epoch : ℕ → Index → ℕ × ℕ
unfolding count_epoch
count_at_epoch epoch idx = (length idx.entries, count_epoch epoch idx.entries)

-- `m[id].Rev`: a missing key reads as the zero entry
abbrev pub rev_of : Option IndexEntry → ℕ
rev_of none = 0
rev_of (some e) = e.rev

-- `rev := m[e.ID].Rev + 1; if e.Rev > rev { rev = e.Rev }`
unfoldable pub next_rev : Option IndexEntry → ℕ → ℕ
next_rev cur r = let rev = rev_of cur + 1 in if ltb rev r then r else rev

-- the entry that a replayed insert or update leaves
abbrev pub place : {V : Type 0} → String → ℕ → Entry V → Option IndexEntry → IndexEntry
place path off e cur = record {
  segment_path = path;
  offset = off;
  rev = next_rev cur e.rev;
  expires_at = e.expires_at;
  epoch = e.epoch;
}

-- `switch e.Op`
abbrev pub apply_op :
    {V : Type 0} → Op → String → ℕ → Entry V → Dict ℕ IndexEntry → Dict ℕ IndexEntry
apply_op op_insert path off e m = insert e.id (place path off e (lookup e.id m)) m
apply_op op_update path off e m = insert e.id (place path off e (lookup e.id m)) m
apply_op op_delete path off e m = remove e.id m
apply_op (other s) path off e m = m

unfoldable pub apply_one :
    {V : Type 0} → String → ℕ → Entry V → Dict ℕ IndexEntry → Dict ℕ IndexEntry
apply_one path off e m = apply_op e.op path off e m

-- the callback of applyEntries over the entries of a scan
unfoldable pub apply_all :
    {V : Type 0} → String → List (ℕ × Entry V) → Dict ℕ IndexEntry → Dict ℕ IndexEntry
unfolding apply_one
apply_all path [] m = m
apply_all path ((off, e) ∷ es) m = apply_all path es (apply_one path off e m)

-- the comparison of sortSegments, on what segmentNum reads from the names; `name_less` is `<` on paths
unfoldable pub segment_less :
    (String → Option ℕ) → (String → String → Bool) → Segment → Segment → Bool
segment_less num name_less a b = elim (num a.path) [
  | none ↦ elim (num b.path) [ none ↦ name_less a.path b.path | some _ ↦ false ]
  | some i ↦ elim (num b.path) [
    | none ↦ true
    | some j ↦ if i == j then name_less a.path b.path else ltb i j
  ]
]

-- sort.SliceStable: an element goes behind those that it is not less than
unfoldable pub insert_segment : (Segment → Segment → Bool) → Segment → List Segment → List Segment
insert_segment less s [] = s ∷ []
insert_segment less s (t ∷ ts) = if less t s then t ∷ insert_segment less s ts else s ∷ t ∷ ts

unfoldable pub sort_segments : (Segment → Segment → Bool) → List Segment → List Segment
unfolding insert_segment
sort_segments less [] = []
sort_segments less (s ∷ ss) = insert_segment less s (sort_segments less ss)

module _ (C : Codec) where
  open C use {V}

  -- applyEntries
  abbrev pub applied :
      String
      → Dict ℕ IndexEntry
      → Store.Result (List (ℕ × Entry V))
      → Store.Result (Dict ℕ IndexEntry)
  applied path m (Store.ok es) = Store.ok (apply_all path es m)
  applied path m (Store.err e) = Store.err e

  unfoldable pub apply_entries : Segment → ℕ → Dict ℕ IndexEntry → Store.Result (Dict ℕ IndexEntry)
  apply_entries seg from m = applied seg.path m (scan_from_offset C from seg)

  unfoldable pub rebuild_from : List Segment → Dict ℕ IndexEntry → Store.Result (Dict ℕ IndexEntry)
  unfolding apply_entries
  rebuild_from [] m = Store.ok m
  rebuild_from (s ∷ ss) m = Store.◌>>=◌ (apply_entries s 0 m) (λ m'. rebuild_from ss m')

  -- Rebuild; the entries are replaced only when the whole replay succeeded
  abbrev pub adopt : Index → Store.Result (Dict ℕ IndexEntry) → Store.Result Index
  adopt idx (Store.ok fresh) = Store.ok (note_expiring (record idx { entries = fresh }))
  adopt idx (Store.err e) = Store.err e

  unfoldable pub rebuild : (Segment → Segment → Bool) → List Segment → Index → Store.Result Index
  unfolding rebuild_from sort_segments
  rebuild less segs idx = adopt idx (rebuild_from (sort_segments less segs) [])

-- segmentsValid
unfoldable pub segments_valid : Dict String ℕ → Dict ℕ IndexEntry → Bool
segments_valid sizes [] = true
segments_valid sizes ((id, e) ∷ m) = elim (lookup e.segment_path sizes) [
  | none ↦ false
  | some size ↦ if leb size e.offset then false else segments_valid sizes m
]
