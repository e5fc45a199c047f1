-- ===== src/Store.antt =====
-- store/ndjson.go: the entries of a segment file and their line format. JSON and CRC32C stand
-- outside: `Codec` holds the functions of encoding/json and hash/crc32 that the code calls, with the
-- behaviour that it relies on. A byte is a number.
pub mod RoundTrip
use scriva.Prelude.{
  ℕ, ◌≡◌, ◌≢◌, ◌+◌, ◌/◌, ◌%◌, zero, suc, String, Bool, Option, none, some, List, [], ◌∷◌, ◌++◌,
  Dict, All, ◌==◌, nat_eq, if◌then◌else◌,
}

abbrev pub Bytes : Type 0
Bytes = List ℕ

-- `other` is any further string that a line may hold.
pub data Op : Type 0 where
  op_insert op_update op_delete : Op
  other : Bytes → Op

-- `none` is a nil map. Instants are Unix nanoseconds, not negative; 0 is "never".
pub record Entry (V : Type 0) : Type 0 where
  pub id : ℕ
  pub op : Op
  pub ts : ℕ
  pub rev : ℕ
  pub fields : Option (Dict String V)
  pub epoch : ℕ
  pub expires_at : ℕ
  pub crc : Option ℕ

-- What `json:"data,omitempty"` writes: an empty map is left out, and reads back as nil.
abbrev pub omit_empty {ℓ} : {A : Type ℓ} → Option (List A) → Option (List A)
omit_empty none = none
omit_empty (some []) = none
omit_empty (some (x ∷ xs)) = some (x ∷ xs)

abbrev pub written : {V : Type 0} → Entry V → Entry V
written e = record e { fields = omit_empty e.fields }

-- No byte of a line is a line feed or a carriage return.
abbrev pub IsLine : Bytes → Type 0
IsLine = All (λ b. (b ≢ 10) × (b ≢ 13))

pub record Codec : Type 1 where
  pub V : Type 0
  -- json.Marshal of a data map, and of an entry; `none` is an error
  pub marshal_fields : Dict String V → Option Bytes
  pub marshal : Entry V → Option Bytes
  pub unmarshal : Bytes → Option (Entry V)
  pub crc32c : Bytes → ℕ
  pub unmarshal-marshal :
      (e : Entry V) (b : Bytes) → marshal e ≡ some b → unmarshal b ≡ some (written e)
  pub marshal-IsLine : (e : Entry V) (b : Bytes) → marshal e ≡ some b → IsLine b × (b ≢ [])

-- binary.LittleEndian.PutUint64: `n` bytes, the low one first
unfoldable pub little_endian : ℕ → ℕ → Bytes
little_endian zero x = []
little_endian (suc n) x = (x % 256) ∷ little_endian n (x / 256)

abbrev pub op_bytes : Op → Bytes
op_bytes op_insert = b'i' ∷ b'n' ∷ b's' ∷ b'e' ∷ b'r' ∷ b't' ∷ []
op_bytes op_update = b'u' ∷ b'p' ∷ b'd' ∷ b'a' ∷ b't' ∷ b'e' ∷ []
op_bytes op_delete = b'd' ∷ b'e' ∷ b'l' ∷ b'e' ∷ b't' ∷ b'e' ∷ []
op_bytes (other s) = s

-- `if x != 0 { … h.Write(u64 of x) }`
unfoldable pub nonzero_bytes : ℕ → Bytes
nonzero_bytes x = if x == 0 then [] else little_endian 8 x

pub data StoreError : Type 0 where
  unsupported_value bad_json corrupt_entry : StoreError

pub data Result {ℓ} (A : Type ℓ) : Type ℓ where
  err : StoreError → Result A
  ok : A → Result A

infixl 5 ◌>>=◌
abbrev pub ◌>>=◌ {κ ℓ} : {B : Type κ} {A : Type ℓ} → Result A → (A → Result B) → Result B
err e >>= next = err e
ok a >>= next = next a

abbrev pub or_error {ℓ} : {A : Type ℓ} → StoreError → Option A → Result A
or_error e none = err e
or_error e (some a) = ok a

module _ (C : Codec) where
  open C use {V, marshal_fields, marshal, unmarshal, crc32c}

  unfoldable pub fields_bytes : Option (Dict String V) → Result Bytes
  fields_bytes none = ok []
  fields_bytes (some m) = or_error unsupported_value (marshal_fields m)

  -- the bytes that `checksum` feeds to the hash
  unfoldable pub checksum_input : Entry V → Result Bytes
  checksum_input e = fields_bytes e.fields >>= λ d. ok (
      little_endian 8 e.id
      ++ op_bytes e.op
      ++ nonzero_bytes e.rev
      ++ nonzero_bytes e.expires_at
      ++ nonzero_bytes e.epoch
      ++ d)

  unfoldable pub checksum : Entry V → Result ℕ
  checksum e = checksum_input e >>= λ b. ok (crc32c b)

  unfoldable pub encode : Entry V → Result Bytes
  encode e = checksum e >>= λ sum.
      or_error unsupported_value (marshal (record e { crc = some sum })) >>= λ b. ok (b ++ 10 ∷ [])

  unfoldable pub verify : Option ℕ → Entry V → Result (Entry V)
  verify none e = ok e
  verify (some want) e = checksum e >>= λ got. if got == want then ok e else err corrupt_entry

  unfoldable pub decode : Bytes → Result (Entry V)
  unfolding verify
  decode line = or_error bad_json (unmarshal line) >>= λ e. verify e.crc e

-- NewInsert, NewUpdate and NewDelete, with the clock's reading as an argument
unfoldable pub new_entry : {V : Type 0} → Op → ℕ → ℕ → Option (Dict String V) → Entry V
new_entry op ts id m = record {
  id = id;
  op = op;
  ts = ts;
  rev = 0;
  fields = m;
  epoch = 0;
  expires_at = 0;
  crc = none;
}

unfoldable pub new_insert : {V : Type 0} → ℕ → ℕ → Option (Dict String V) → Entry V
unfolding new_entry
new_insert ts id m = new_entry op_insert ts id m

unfoldable pub new_update : {V : Type 0} → ℕ → ℕ → Option (Dict String V) → Entry V
unfolding new_entry
new_update ts id m = new_entry op_update ts id m

unfoldable pub new_delete : {V : Type 0} → ℕ → ℕ → Entry V
unfolding new_entry
new_delete ts id = new_entry op_delete ts id none
