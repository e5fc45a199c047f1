-- ===== src/Segment.antt =====
-- engine/segment.go: one NDJSON file. The file's bytes stand in the record beside the fields of the
-- Go struct, and what the disk does on a call is an argument. Lines with a transaction stamp are not
-- modelled: `decodeSegmentLine` is `store.Decode` on the others.
pub mod Lines
pub mod Appending
pub mod TornTail
pub mod Scanning
pub mod Reading
use scriva.Prelude.{
  ℕ, zero, suc, ◌+◌, ◌-◌, String, Bool, true, false, Option, none, some, List, [], ◌∷◌, ◌++◌,
  length, take, drop, ltb, ◌==◌, nat_eq, if◌then◌else◌,
}
use scriva.Store
use scriva.Store.{Bytes, Entry, Codec, encode, decode}

-- maxScanTokenSize, 16 MiB
abbrev pub max_scan_token_size : ℕ
max_scan_token_size = 16777216

-- DefaultSegmentMaxSize, 4 MiB
abbrev pub default_segment_max_size : ℕ
default_segment_max_size = 4194304

-- `poisoned` is the cause's presence; `open_file` is `file != nil`.
pub record Segment : Type 0 where
  pub path : String
  pub size : ℕ
  pub is_sealed : Bool
  pub open_file : Bool
  pub poisoned : Bool
  pub content : Bytes

pub data SegmentError : Type 0 where
  append_to_sealed rollback_sealed record_too_large segment_poisoned write_failed : SegmentError
  sync_failed close_failed : SegmentError
  store_error : Store.StoreError → SegmentError

pub data Result {ℓ} (A : Type ℓ) : Type ℓ where
  ok : A → Result A
  err : SegmentError → Result A

-- What one write call does: all of it, or `n` bytes and then an error, after which the truncation
-- that rolls it back succeeds or fails.
pub data Write : Type 0 where
  written : Write
  failed : (n : ℕ) → (truncated : Bool) → Write

-- rollbackLocked
unfoldable pub rollback_locked : Bool → ℕ → Segment → Segment × Result (Unit {0})
rollback_locked truncated size s =
    if s.poisoned
    then (s, err segment_poisoned)
    else if truncated
    then (record s { size = size; content = take size s.content }, ok tt)
    else (record s { poisoned = true }, err segment_poisoned)

-- rollback
unfoldable pub rollback : Bool → ℕ → Segment → Segment × Result (Unit {0})
unfolding rollback_locked
rollback truncated size s =
    if s.is_sealed then (s, err rollback_sealed) else rollback_locked truncated size s

-- the error that Append returns after a failed write, with the rollback's result in hand
abbrev pub write_error : Result (Unit {0}) → SegmentError
write_error (ok _) = write_failed
write_error (err _) = segment_poisoned

unfoldable pub write : Write → Bytes → Segment → Segment × Result ℕ
unfolding rollback_locked
write written b s = (record s { size = s.size + length b; content = s.content ++ b }, ok s.size)
write (failed n truncated) b s =
    let (s', rolled) =
      rollback_locked truncated s.size (record s { content = s.content ++ take n b }) in
    (s', err (write_error rolled))

unfoldable pub append_bytes : Write → Store.Result Bytes → Segment → Segment × Result ℕ
unfolding write
append_bytes io (Store.err e) s = (s, err (store_error e))
append_bytes io (Store.ok b) s =
    if ltb max_scan_token_size (length b)
    then (s, err record_too_large)
    else if s.poisoned
    then (s, err segment_poisoned)
    else write io b s

-- Seal; the first test is whether fsync succeeded, the second whether close did
unfoldable pub seal : Bool → Bool → Segment → Segment × Result (Unit {0})
seal synced closed s =
    if s.is_sealed
    then (s, ok tt)
    else if s.open_file
    then (if synced
        then (
          record s { open_file = false; is_sealed = true },
          if closed then ok tt else err close_failed,
        )
        else (s, err sync_failed))
    else (record s { is_sealed = true }, ok tt)

-- Sync
unfoldable pub sync : Bool → Segment → Result (Unit {0})
sync synced s =
    if s.is_sealed
    then ok tt
    else if s.open_file
    then (if synced then ok tt else err sync_failed)
    else ok tt

-- The scan of a chunk from its end: the last line feed's index.
unfoldable pub last_newline : Bytes → Option ℕ
last_newline [] = none
last_newline (b ∷ bs) = elim (last_newline bs) [
  | some i ↦ some (suc i)
  | none ↦ if b == 10 then some 0 else none
]

-- The chunk loop of recoverPartialLine, from `offset`, on fuel; the result is the valid size.
unfoldable pub recover_from : ℕ → ℕ → Bytes → ℕ
recover_from zero offset file = 0
recover_from (suc fuel) offset file =
    let before = recover_from fuel (offset - 512) file in
    elim (last_newline (drop offset file)) [
      | some i ↦ offset + i + 1
      | none ↦ if offset == 0 then 0 else before
    ]

-- recoverPartialLine: the valid size, to which the file is truncated.
unfoldable pub recover_partial_line : Bytes → ℕ × Bytes
unfolding recover_from last_newline
recover_partial_line file =
    let size = length file in
    if size == 0 then (0, file) else elim (last_newline (drop (size - 1) file)) [
      | some _ ↦ (size, file)
      | none ↦ let valid = recover_from size (size - 512) file in (valid, take valid file)
    ]

-- openActiveSegment, on a file that holds `content`
unfoldable pub open_active_segment : String → Bytes → Segment
unfolding recover_partial_line
open_active_segment path content =
    let (valid, kept) = recover_partial_line content in
    record {
      path = path;
      size = valid;
      is_sealed = false;
      open_file = true;
      poisoned = false;
      content = kept;
    }

-- bufio.ScanLines: the lines of a file, the last one even without its line feed
unfoldable pub cons_head : ℕ → List Bytes → List Bytes
cons_head b [] = (b ∷ []) ∷ []
cons_head b (l ∷ ls) = (b ∷ l) ∷ ls

unfoldable pub lines : Bytes → List Bytes
unfolding cons_head
lines [] = []
lines (b ∷ bs) = let rest = lines bs in if b == 10 then [] ∷ rest else cons_head b rest

-- and without a carriage return at its end
unfoldable pub drop_cr : Bytes → Bytes
drop_cr [] = []
drop_cr (c ∷ []) = if c == 13 then [] else c ∷ []
drop_cr (c ∷ d ∷ r) = c ∷ drop_cr (d ∷ r)

module _ (C : Codec) where
  open C use {V}

  -- Append
  unfoldable pub append : Write → Entry V → Segment → Segment × Result ℕ
  unfolding append_bytes
  append io e s = if s.is_sealed then (s, err append_to_sealed) else append_bytes io (encode C e) s

  -- `yield` collects; what was collected is dropped when the scan ends in an error
  abbrev pub located :
      ℕ
      → Store.Result (Entry V)
      → Store.Result (List (ℕ × Entry V))
      → Store.Result (List (ℕ × Entry V))
  located off (Store.err e) rest = Store.err e
  located off (Store.ok e) (Store.err f) = Store.err f
  located off (Store.ok e) (Store.ok xs) = Store.ok ((off, e) ∷ xs)

  -- ScanStampedFromOffset over the lines, with the offset of the first one; a line that does not
  -- decode ends it with the error, and so does one beyond the scanner's buffer.
  unfoldable pub scan_lines : ℕ → List Bytes → Store.Result (List (ℕ × Entry V))
  unfolding drop_cr
  scan_lines off [] = Store.ok []
  scan_lines off (raw ∷ ls) =
      let line = drop_cr raw in
      let rest = scan_lines (off + (length line + 1)) ls in
      if ltb max_scan_token_size (length raw + 1)
      then Store.err Store.bad_json
      else if length line == 0
      then rest
      else located off (decode C line) rest

  unfoldable pub scan_from_offset : ℕ → Segment → Store.Result (List (ℕ × Entry V))
  unfolding scan_lines lines
  scan_from_offset from s = scan_lines from (lines (drop from s.content))
