-- ===== src/Store/RoundTrip.antt =====
-- Encode and Decode of store/ndjson.go are inverse on documents with a field, and on entries without
-- data; on an empty document they are not.
use scriva.Prelude.{
  ℕ, ◌≡◌, ◌≢◌, refl, sym, ap, ◌∙◌, Option, none, some, [], ◌∷◌, ◌++◌, ◌==◌, nat_eq, if◌then◌else◌,
  beq_refl, beq_iff, inl, inr, Bool-cases,
}
use scriva.Store.{
  Bytes, Entry, Codec, Result, ok, err, corrupt_entry, unsupported_value, or_error, written,
  omit_empty, checksum_input, checksum, encode, decode, verify, fields_bytes, ◌>>=◌,
}

pub >>=-eq-ok {κ ℓ} :
    {B : Type κ} {A : Type ℓ} (r : Result A) (next : A → Result B) {v : B}
    → (r >>= next) ≡ ok v
    → (a : A) × (r ≡ ok a) × (next a ≡ ok v)
>>=-eq-ok (err x) next done = cc
>>=-eq-ok (ok a) next done = (a, refl, done)

or_error-eq-ok {ℓ} :
    {A : Type ℓ} (o : Option A) {a : A} → or_error unsupported_value o ≡ ok a → o ≡ some a
or_error-eq-ok none h = cc
or_error-eq-ok (some a) h = cc

-- The parts of a line that `encode` wrote.
pub record Encoded (C : Codec) (e : Entry C.V) (b : Bytes) : Type 0 where
  pub sum : ℕ
  pub line : Bytes
  pub summed : checksum C e ≡ ok sum
  pub marshalled : C.marshal (record e { crc = some sum }) ≡ some line
  pub ended : b ≡ line ++ 10 ∷ []

module _ (C : Codec) where
  open C use {V, marshal, unmarshal, crc32c, unmarshal-marshal}

  pub encode-Encoded : (e : Entry V) (b : Bytes) → encode C e ≡ ok b → Encoded C e b
  unfolding encode
  encode-Encoded e b h =
      let (sum, summed, rest) =
        >>=-eq-ok (checksum C e)
          (λ s. or_error unsupported_value (marshal (record e { crc = some s })) >>= λ l.
            ok (l ++ 10 ∷ []))
          h in
      let (line, made, done) =
        >>=-eq-ok (or_error unsupported_value (marshal (record e { crc = some sum })))
          (λ l. ok (l ++ 10 ∷ [])) rest in
      record {
        sum = sum;
        line = line;
        summed = summed;
        marshalled = or_error-eq-ok _ made;
        ended = cc;
      }

  -- What reading the line of `e` gives, and what its checksum is then compared with.
  stored : Entry V → ℕ → Entry V
  stored e sum = written (record e { crc = some sum })

  pub decode-line :
      (e : Entry V) (b : Bytes) (w : Encoded C e b)
      → decode C w.line ≡ verify C (some w.sum) (written (record e { crc = some w.sum }))
  unfolding decode
  decode-line e b w = rw (unmarshal-marshal (record e { crc = some w.sum }) w.line w.marshalled)

  checksum-crc : (e : Entry V) (sum : ℕ) → checksum C (record e { crc = some sum }) ≡ checksum C e
  unfolding checksum checksum_input
  checksum-crc e sum = refl

  verify-sum :
      (sum got : ℕ) (e : Entry V)
      → checksum C e ≡ ok got
      → verify C (some sum) e ≡ (if got == sum then ok e else err corrupt_entry)
  unfolding verify
  verify-sum sum got e h = rw h

  pub verify-own :
      (e : Entry V) (b : Bytes) (w : Encoded C e b)
      → omit_empty e.fields ≡ e.fields
      → verify C (some w.sum) (written (record e { crc = some w.sum }))
        ≡ ok (record e { crc = some w.sum })
  verify-own e b w h = rw h (
      rw (verify-sum w.sum w.sum (record e { crc = some w.sum }) (checksum-crc e w.sum ∙ w.summed))
        (rw (beq_refl w.sum)))

  -- A document with a field, or none at all, survives: the line that Encode wrote for the entry
  -- decodes to the same entry, which carries its checksum.
  pub decode-encode :
      (e : Entry V) (b : Bytes)
      → omit_empty e.fields ≡ e.fields
      → encode C e ≡ ok b
      → (line : Bytes) × (sum : ℕ) × (b ≡ line ++ 10 ∷ [])
        × (decode C line ≡ ok (record e { crc = some sum }))
  decode-encode e b h made =
      let w = encode-Encoded e b made in
      (w.line, w.sum, w.ended, decode-line e b w ∙ verify-own e b w h)

  checksum-nil : (e : Entry V) → (got : ℕ) × (checksum C (record e { fields = none }) ≡ ok got)
  unfolding checksum checksum_input fields_bytes
  checksum-nil e = (_, refl)

  checksum-written_empty :
      (e : Entry V) (sum : ℕ)
      → e.fields ≡ some []
      → checksum C (written (record e { crc = some sum })) ≡ checksum C (record e { fields = none })
  unfolding checksum checksum_input fields_bytes
  checksum-written_empty e sum h = rw h

  verify-other :
      (e f : Entry V) (sum got : ℕ)
      → checksum C e ≡ ok sum
      → checksum C f ≡ ok got
      → checksum C e ≢ checksum C f
      → verify C (some sum) f ≡ err corrupt_entry
  verify-other e f sum got he hf differ = elim (Bool-cases (got == sum)) [
    | inl same ↦ absurd (differ (he ∙ (ap ok (sym ((beq_iff got sum).0 same))) ∙ sym hf))
    | inr other ↦ rw (verify-sum sum got f hf) (rw other)
  ]

  -- An empty document does not survive: Encode sums the bytes of `{}`, the line leaves the empty map
  -- out, and Decode refuses what it reads as corrupt, whenever the two sums differ.
  pub decode-encode_empty :
      (e : Entry V) (b : Bytes)
      → e.fields ≡ some []
      → checksum C e ≢ checksum C (record e { fields = none })
      → encode C e ≡ ok b
      → (line : Bytes) × (b ≡ line ++ 10 ∷ []) × (decode C line ≡ err corrupt_entry)
  decode-encode_empty e b h differ made =
      let w = encode-Encoded e b made in
      let (got, nil) = checksum-nil e in
      let seen = checksum-written_empty e w.sum h in
      (
        w.line,
        w.ended,
        decode-line e b w
            ∙ verify-other e (written (record e { crc = some w.sum })) w.sum got w.summed
                (seen ∙ nil) (rw seen differ),
      )
