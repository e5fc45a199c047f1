-- ===== src/Xtx/Coordinator/Validation.antt =====
-- engine/xtx_journal.go: transaction ids, digests, the tests of a record and the load of the journal's
-- whole lines.
use Prim.Native.Char.{code}
use Prim.Native.String.{String, [] as nil, ◌∷◌ as cons, len, slice, compare as compare_strings}
use Prim.Native.Nat.{Ordering}
use scriva.Prelude.{
  ℕ, suc, ◌==◌, string_eq, nat_eq, Bool, true, false, not, ◌&&◌, ◌||◌, Option, none, some, List, [],
  ◌∷◌, ◌++◌, length, leb, if◌then◌else◌, is_some, bool_ne,
}
use scriva.Store.{Bytes, Op, op_bytes, little_endian}
use scriva.Xtx.Journal.{Part, kind_commit, kind_abort, kind_retire}
use scriva.Xtx.Coordinator.{XtxRecord, XtxTable, no_parts, apply}

abbrev pub comes_before : String → String → Bool
comes_before c d = elim (compare_strings c d) [ Ordering.lt ↦ true | _ ↦ false ]

abbrev beq_bool : Bool → Bool → Bool
beq_bool a b = not (bool_ne a b)

abbrev pub is_digest : String → Option String → Bool
is_digest pd none = false
is_digest pd (some d) = d == pd

-- crypto/sha256 and encoding/hex: the hexadecimal SHA-256 of bytes, the decoding of hexadecimal
-- text, and the bytes of a string.
pub record Hash : Type 0 where
  pub sha256_hex : Bytes → String
  pub decode_hex : String → Option Bytes
  pub text : String → Bytes

pub record OpRef : Type 0 where
  pub id : ℕ
  pub op : Op
  pub rev : ℕ

-- isLowerHex
unfoldable pub is_lower_hex : String → Bool
is_lower_hex nil = true
is_lower_hex (cons c s) =
    let n = code c in ((leb 48 n && leb n 57) || (leb 97 n && leb n 102)) && is_lower_hex s

-- parseTxID: the epoch and the digits of the sequence number
unfoldable pub parse_tx_id : String → Option (String × String)
parse_tx_id tx =
    if not (len tx == 33) || not (slice tx 16 17 == "-")
    then none
    else if not (is_lower_hex (slice tx 0 16)) || not (is_lower_hex (slice tx 17 33))
    then none
    else some (slice tx 0 16, slice tx 17 33)

-- `e, _, err := parseTxID(tx); err != nil || e != epoch`, denied
unfoldable pub belongs : String → String → Bool
unfolding parse_tx_id
belongs epoch tx = elim (parse_tx_id tx) [ none ↦ false | some (e, digits) ↦ e == epoch ]

abbrev pub abort_reason : String → Bool
abort_reason why =
    why == "conflict" || why == "quota" || why == "io" || why == "recovery" || why == "client"

abbrev pub max_key_len : ℕ
max_key_len = 128

module _ (H : Hash) where
  open H use {sha256_hex, decode_hex, text}

  unfoldable pub digest_bytes : ℕ → List OpRef → Bytes
  digest_bytes i [] = []
  digest_bytes i (r ∷ rs) =
      little_endian 4 i
      ++ little_endian 8 r.id
      ++ op_bytes r.op
      ++ 0 ∷ []
      ++ little_endian 8 r.rev
      ++ digest_bytes (suc i) rs

  unfoldable pub part_digest : List OpRef → String
  part_digest ops = sha256_hex (digest_bytes 0 ops)

  -- the bytes of a well-formed digest
  unfoldable pub raw_digest : String → Option Bytes
  raw_digest d = elim (decode_hex d) [
    | none ↦ none
    | some b ↦ if length b == 32 then some b else none
  ]

  unfoldable pub parts_bytes : List Part → Option Bytes
  parts_bytes [] = some []
  parts_bytes (p ∷ ps) = elim (raw_digest p.d) [
    | none ↦ none
    | some d ↦ elim (parts_bytes ps) [
      | none ↦ none
      | some rest ↦ some (text p.c ++ 0 ∷ [] ++ little_endian 4 p.n ++ d ++ rest)
    ]
  ]

  unfoldable pub parts_digest : List Part → Option String
  parts_digest ps = elim (parts_bytes ps) [ none ↦ none | some b ↦ some (sha256_hex b) ]

  -- the loop of validateParts, behind the part named `prev` if there is one
  unfoldable pub ascending : Option String → List Part → Bool
  ascending prev [] = true
  ascending prev (p ∷ ps) =
      not (p.c == "")
      && not (p.n == 0)
      && elim prev [ none ↦ true | some c ↦ comes_before c p.c ]
      && is_some (raw_digest p.d)
      && ascending (some p.c) ps

  unfoldable pub validate_parts : List Part → Bool
  validate_parts ps = not (no_parts ps) && ascending none ps

  -- the tests of decodeXTxRecord on a commit record
  unfoldable pub check_commit : XtxRecord → Bool
  check_commit r =
      r.why == ""
      && r.o == ""
      && beq_bool (r.rl == 0) (r.rt == "")
      && beq_bool (r.rl == 0) (r.rd == "")
      && (r.rl == 0 || (leb (len r.rt) 64 && is_some (raw_digest r.rd)))
      && validate_parts r.parts
      && is_digest r.pd (parts_digest r.parts)

  -- the `switch` of decodeXTxRecord
  unfoldable pub check_kind : XtxRecord → Bool
  check_kind r =
      if r.k == kind_commit
      then check_commit r
      else if r.k == kind_abort
      then no_parts r.parts
        && r.pd == ""
        && r.o == ""
        && r.rl == 0
        && r.rt == ""
        && r.rd == ""
        && abort_reason r.why
      else if r.k == kind_retire
      then no_parts r.parts
        && r.pd == ""
        && r.why == ""
        && r.rl == 0
        && r.rt == ""
        && r.rd == ""
        && (r.o == kind_commit || r.o == kind_abort)
      else false

  -- the tests of decodeXTxRecord behind the checksum and the canonical form, for the journal's epoch
  unfoldable pub check_record : String → XtxRecord → Bool
  check_record epoch r = belongs epoch r.tx && leb (len r.key) max_key_len && check_kind r

  -- the loop of parseXTxJournal over the whole lines, each of them a record in canonical form
  unfoldable pub load : String → List XtxRecord → XtxTable → Option XtxTable
  load epoch [] t = some t
  load epoch (r ∷ rs) t =
      let (t', failed) = apply r t in
      let rest = load epoch rs t' in
      if check_record epoch r then elim failed [ none ↦ rest | some x ↦ none ] else none
