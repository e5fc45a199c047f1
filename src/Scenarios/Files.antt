-- ===== src/Scenarios/Files.antt =====
-- One entry of the toy codec, its line, and a segment that holds it.
use scriva.Prelude.{
  ℕ, ◌≡◌, ◌≢◌, ◌⊎◌, inl, inr, refl, ap, true, false, none, some, [], ◌∷◌, ◌++◌, lookup, arith, take,
  string_eq, nat_eq,
}
use scriva.Store
use scriva.Store.{
  Bytes, Entry, op_insert, encode, decode, verify, checksum, checksum_input, fields_bytes,
  nonzero_bytes, little_endian, IsLine, omit_empty, Codec,
}
use scriva.Store.RoundTrip.{decode-encode, decode-encode_empty}
use scriva.Segment
use scriva.Segment.{
  Segment, Write, written, failed, append, append_bytes, write, rollback_locked, segment_poisoned,
  scan_from_offset, open_active_segment, max_scan_token_size,
}
use scriva.Segment.TornTail.{open_active_segment-crash}
use scriva.Segment.Scanning.{IsRecord, Represents}
use scriva.Segment.Appending.{IsTidy, append-failed, append-Represents}
use scriva.Segment.Reading.{read_at, read_at-Represents}
use scriva.Index
use scriva.Index.{IndexEntry, Index, new_index, live_count, count_live, apply_all, rebuild_from}
use scriva.Index.Counting.{fresh, after_set, live_count-Reached}
use scriva.Index.Replay.{latest, lookup-apply_all}
use scriva.Scenarios.Toy.{toy, packed}

abbrev pub entry : Entry ℕ
entry = record {
  id = 1;
  op = op_insert;
  ts = 5;
  rev = 1;
  fields = some (("n", 7) ∷ []);
  epoch = 0;
  expires_at = 0;
  crc = none;
}

abbrev pub summed : Entry ℕ
summed = record entry { crc = some 685 }

abbrev pub line : Bytes
line = packed 0 8 summed

encoded : encode toy entry ≡ Store.ok (line ++ 10 ∷ [])
unfolding encode checksum checksum_input fields_bytes nonzero_bytes little_endian
encoded = refl

decode-encode_example :
    (l : Bytes) × (sum : ℕ) × (line ++ 10 ∷ [] ≡ l ++ 10 ∷ [])
    × (decode toy l ≡ Store.ok (record entry { crc = some sum }))
decode-encode_example = decode-encode toy entry (line ++ 10 ∷ []) refl encoded

abbrev empty : Entry ℕ
empty = record entry { fields = some [] }

abbrev empty_line : Bytes
empty_line = packed 0 0 (record empty { crc = some 677 })

empty-encoded : encode toy empty ≡ Store.ok (empty_line ++ 10 ∷ [])
unfolding encode checksum checksum_input fields_bytes nonzero_bytes little_endian
empty-encoded = refl

abbrev sum_of : Store.Result ℕ → ℕ
sum_of (Store.ok n) = n
sum_of (Store.err e) = 0

empty-sum : checksum toy empty ≢ checksum toy (record empty { fields = none })
unfolding checksum checksum_input fields_bytes nonzero_bytes little_endian
empty-sum h = let sums : 677 ≡ 663 = ap sum_of h in omega (arith, sums)

decode-encode_empty_example :
    (l : Bytes) × (empty_line ++ 10 ∷ [] ≡ l ++ 10 ∷ [])
    × (decode toy l ≡ Store.err Store.corrupt_entry)
decode-encode_empty_example =
    decode-encode_empty toy empty (empty_line ++ 10 ∷ []) refl empty-sum empty-encoded

pub line-IsLine : IsLine line × (line ≢ [])
line-IsLine = toy.marshal-IsLine summed line refl

line-decodes : decode toy line ≡ Store.ok summed
unfolding decode verify checksum checksum_input fields_bytes nonzero_bytes little_endian
line-decodes = refl

line-IsRecord : IsRecord toy line summed
line-IsRecord = record {
  decoded = line-decodes;
  plain = line-IsLine.0;
  nonempty = line-IsLine.1;
  fits = omega arith;
}

abbrev pub empty_segment : Segment
empty_segment = record {
  path = "a";
  size = 0;
  is_sealed = false;
  open_file = true;
  poisoned = false;
  content = [];
}

abbrev segment : Segment
segment = record empty_segment { size = 9; content = line ++ 10 ∷ [] }

segment-Represents : Represents toy 0 ((0, summed) ∷ []) segment.content
segment-Represents = (line, [], refl, line-IsRecord, refl, refl)

appended : (append toy written entry empty_segment).1 ≡ Segment.ok 0
unfolding append append_bytes write encode checksum checksum_input fields_bytes nonzero_bytes
    little_endian
appended = refl

append-Represents_example :
    (sum : ℕ) × Represents toy 0
      ((0, record entry { crc = some sum }) ∷ [])
      (append toy written entry empty_segment).0.content
    × IsTidy (append toy written entry empty_segment).0
    × ◌≡◌ {A = ℕ} 0 0
append-Represents_example =
    append-Represents toy written entry empty_segment [] 0 refl refl refl appended

poisoned : (append toy (failed 3 false) entry empty_segment).1 ≡ Segment.err segment_poisoned
unfolding append append_bytes write rollback_locked encode checksum checksum_input fields_bytes
    nonzero_bytes little_endian
poisoned = refl

append-failed_example :
    ((append toy (failed 3 false) entry empty_segment).0 ≡ empty_segment)
    ⊎ (((append toy (failed 3 false) entry empty_segment).0.poisoned ≡ true)
        × ((append toy (failed 3 false) entry empty_segment).0.size ≡ 0)
        × (segment_poisoned ≡ segment_poisoned))
append-failed_example =
    append-failed toy (failed 3 false) entry empty_segment segment_poisoned refl poisoned

read_at-Represents_example : read_at toy 0 segment ≡ Store.ok summed
read_at-Represents_example =
    read_at-Represents toy segment ((0, summed) ∷ []) 0 summed segment-Represents (inl (refl, refl))

open_active_segment-crash_example :
    ((open_active_segment "a" (line ++ 10 ∷ [] ++ take 4 (line ++ 10 ∷ []))).content
      ≡ line ++ 10 ∷ [])
    × ((open_active_segment "a" (line ++ 10 ∷ [] ++ take 4 (line ++ 10 ∷ []))).size ≡ 9)
open_active_segment-crash_example =
    open_active_segment-crash "a" (line ++ 10 ∷ []) line 4 (inr (line, refl)) line-IsLine.0
      (omega arith)

abbrev located : IndexEntry
located = record { segment_path = "a"; offset = 0; rev = 1; expires_at = 9; epoch = 0 }

live_count-Reached_example :
    live_count (Index.set 1 located new_index) 9
    ≡ count_live 9 (Index.set 1 located new_index).entries
live_count-Reached_example =
    live_count-Reached toy (Index.set 1 located new_index) 9 (after_set 1 located new_index fresh)

lookup-apply_all_example :
    lookup 1 (apply_all "a" ((0, summed) ∷ []) [])
    ≡ latest 1 "a" ((0, summed) ∷ []) (lookup {K = ℕ} 1 [])
lookup-apply_all_example = lookup-apply_all 1 "a" ((0, summed) ∷ []) []
