-- ===== src/Scenarios/Toy.antt =====
-- A codec for documents that are nil, empty, or one number under "n", and an environment without
-- secondary indexes. A line has eight bytes, each above the control characters.
use Prim.Native.String.{String, [] as nil, ◌∷◌ as cons}
use scriva.Prelude.{
  ℕ, zero, suc, ◌+◌, ◌-◌, ◌%◌, ◌≡◌, ◌≢◌, refl, sym, ap, ◌∙◌, false, Option, none, some, [], ◌∷◌,
  Dict, arith, beq_iff, ◌==◌, string_eq, if◌then◌else◌, if_true, if_false, Bool-cases, subst, inl,
  inr,
}
use scriva.Store.{
  Bytes, Entry, Op, op_insert, op_update, op_delete, other, Codec, IsLine, written, omit_empty,
}
use scriva.Collection.{Secondary, Env}

abbrev pub op_code : Op → Option ℕ
op_code op_insert = some 0
op_code op_update = some 1
op_code op_delete = some 2
op_code (other s) = none

abbrev pub op_of : ℕ → Op
op_of zero = op_insert
op_of (suc zero) = op_update
op_of (suc (suc n)) = op_delete

abbrev pub fields_code : Option (Dict String ℕ) → Option ℕ
fields_code none = some 0
fields_code (some []) = some 0
fields_code (some ((k, v) ∷ [])) = if k == "n" then some (suc v) else none
fields_code (some (p ∷ q ∷ m)) = none

abbrev pub fields_of : ℕ → Option (Dict String ℕ)
fields_of zero = none
fields_of (suc v) = some (("n", v) ∷ [])

abbrev pub crc_code : Option ℕ → ℕ
crc_code none = 0
crc_code (some n) = suc n

abbrev pub crc_of : ℕ → Option ℕ
crc_of zero = none
crc_of (suc n) = some n

abbrev pub packed : ℕ → ℕ → Entry ℕ → Bytes
packed o f e =
    (14 + o)
    ∷ (14 + e.id)
    ∷ (14 + e.ts)
    ∷ (14 + e.rev)
    ∷ (14 + f)
    ∷ (14 + e.epoch)
    ∷ (14 + e.expires_at)
    ∷ (14 + crc_code e.crc)
    ∷ []

abbrev pub pack : Option ℕ → Option ℕ → Entry ℕ → Option Bytes
pack none f e = none
pack (some o) none e = none
pack (some o) (some f) e = some (packed o f e)

abbrev pub unpack : Bytes → Option (Entry ℕ)
unpack (o ∷ i ∷ t ∷ r ∷ f ∷ p ∷ x ∷ c ∷ []) = some (record {
  id = i - 14;
  op = op_of (o - 14);
  ts = t - 14;
  rev = r - 14;
  fields = fields_of (f - 14);
  epoch = p - 14;
  expires_at = x - 14;
  crc = crc_of (c - 14);
})
unpack _ = none

abbrev pub total : Bytes → ℕ
total [] = 0
total (b ∷ bs) = b + total bs

op_of-code : (o : Op) (n : ℕ) → op_code o ≡ some n → op_of n ≡ o
op_of-code op_insert n h = ap op_of {x = n} {y = 0} (cc h)
op_of-code op_update n h = ap op_of {x = n} {y = 1} (cc h)
op_of-code op_delete n h = ap op_of {x = n} {y = 2} (cc h)
op_of-code (other s) n h = cc h

fields_of-code :
    (f : Option (Dict String ℕ)) (n : ℕ) → fields_code f ≡ some n → fields_of n ≡ omit_empty f
fields_of-code none n h = ap fields_of {x = n} {y = 0} (cc h)
fields_of-code (some []) n h = ap fields_of {x = n} {y = 0} (cc h)
fields_of-code (some ((k, v) ∷ [])) n h = elim (Bool-cases (k == "n")) [
  | inl e ↦
      let found : some (suc v) ≡ some n = sym (if_true _ _ _ e) ∙ h in
      let code : suc v ≡ n = cc found in
      subst (λ (j : ℕ). fields_of j ≡ some ((k, v) ∷ [])) code
        (ap (λ (t : String). some ((t, v) ∷ [])) (sym ((beq_iff k "n").0 e)))
  | inr e ↦ let found : none ≡ some n = sym (if_false _ _ _ e) ∙ h in cc found
]
fields_of-code (some (p ∷ q ∷ m)) n h = cc h

crc_of-code : (c : Option ℕ) → crc_of (crc_code c) ≡ c
crc_of-code none = refl
crc_of-code (some n) = refl

unshift : (n : ℕ) → 14 + n - 14 ≡ n
unshift n = omega arith

above : (n : ℕ) → (14 + n ≢ 10) × (14 + n ≢ 13)
above n = (λ h. omega (arith, h), λ h. omega (arith, h))

pub unpack-pack :
    (o f : Option ℕ) (e : Entry ℕ) (b : Bytes)
    → op_code e.op ≡ o
    → fields_code e.fields ≡ f
    → pack o f e ≡ some b
    → unpack b ≡ some (written e)
unpack-pack none f e b ho hf h = cc h
unpack-pack (some o) none e b ho hf h = cc h
unpack-pack (some o) (some f) e b ho hf h =
    let made : packed o f e ≡ b = cc h in
    subst (λ (x : Bytes). unpack x ≡ some (written e)) made
      (rw
        (
          unshift o,
          unshift e.id,
          unshift e.ts,
          unshift e.rev,
          unshift f,
          unshift e.epoch,
          unshift e.expires_at,
          unshift (crc_code e.crc),
          crc_of-code e.crc,
          op_of-code e.op o ho,
          fields_of-code e.fields f hf,
        )
        refl)

pub pack-IsLine :
    (o f : Option ℕ) (e : Entry ℕ) (b : Bytes) → pack o f e ≡ some b → IsLine b × (b ≢ [])
pack-IsLine none f e b h = cc h
pack-IsLine (some o) none e b h = cc h
pack-IsLine (some o) (some f) e b h =
    let made : packed o f e ≡ b = cc h in
    subst (λ (x : Bytes). IsLine x × (x ≢ [])) made
      (
        (
          above o,
          (
            above e.id,
            (
              above e.ts,
              (
                above e.rev,
                (above f, (above e.epoch, (above e.expires_at, (above (crc_code e.crc), tt)))),
              ),
            ),
          ),
        ),
        λ k. cc k,
      )

abbrev pub toy : Codec
toy = record {
  V = ℕ;
  marshal_fields = λ m. elim (fields_code (some m)) [ none ↦ none | some n ↦ some ((14 + n) ∷ []) ];
  marshal = λ e. pack (op_code e.op) (fields_code e.fields) e;
  unmarshal = unpack;
  crc32c = λ b. total b % 4294967296;
  unmarshal-marshal = λ e b h. unpack-pack (op_code e.op) (fields_code e.fields) e b refl refl h;
  marshal-IsLine = λ e b h. pack-IsLine (op_code e.op) (fields_code e.fields) e b h;
}

-- no secondary index
abbrev pub unindexed : Secondary toy
unindexed = record {
  S = Unit;
  conflicts = λ s seen id doc. false;
  index_entry = λ id doc s. s;
  update_entry = λ id doc s. s;
  remove_entry = λ id s. s;
  key_of = λ s id. none;
  key_conflict = λ s. false;
  holders = λ s key. none;
  ensure_key_index = λ segs s. some s;
  batch_conflicts = λ s seen ops. false;
  rebuild_all = λ segs s. (s, false);
}

abbrev pub path_of : ℕ → String
path_of zero = ""
path_of (suc n) = cons "a" (path_of n)

abbrev pub num_of : String → ℕ
num_of nil = zero
num_of (cons c s) = suc (num_of s)

pub num-path_of : (n : ℕ) → num_of (path_of n) ≡ n
num-path_of zero = refl
num-path_of (suc n) = ap suc (num-path_of n)

abbrev pub env : Env
env = record {
  C = toy;
  X = unindexed;
  segment_path = path_of;
  segment_num = λ s. some (num_of s);
  name_less = λ s t. false;
  string_value = λ s. 0;
  num-path = λ n. ap some (num-path_of n);
}
