-- ===== src/Metadata/VersionEdit/Taken.antt =====
-- src/metadata/version_edit.cc: what the readers of single values accept.
use modern_level_db.Prelude.{
  String, ℕ, ◌≤◌, ◌<◌, ◌^◌, ◌≡◌, ap, List, Option, none, some, Bool, true, false, length, arith,
  if◌then◌else◌, ◌⊎◌, inl, inr,
}
use modern_level_db.Prelude.Options.{>>=-eq-some}
use modern_level_db.Base.Error.{Result, ok, err}
use modern_level_db.Base.Coding.{u32, u64, consume_varint, consume_length_prefixed}
use modern_level_db.Base.Coding.VarintRoundTrip.{consume_varint_takes}
use modern_level_db.Base.Coding.Prefixed.{consume_length_prefixed_takes}
use modern_level_db.Format.InternalKey
use modern_level_db.Format.InternalKey.{InternalKey, max_sequence_number, parse_internal_key}
use modern_level_db.Metadata.VersionEdit.{is_valid_internal_key}
use modern_level_db.Metadata.VersionEdit.Decode.{
  value_of, or_malformed, read_number, read_file_number, read_sequence, read_level,
  read_internal_key,
}
use modern_level_db.Metadata.VersionEdit.Fields.{IsKey, IsFileNumber}

pub value_of-some {ℓ} : {A : Type ℓ} (r : Result A) {a : A} → value_of r ≡ some a → r ≡ ok a
value_of-some (ok a) h = cc
value_of-some (err e) h = cc

pub or_malformed-ok {ℓ} :
    {A : Type ℓ} (field : String) (o : Option A) {a : A} → or_malformed field o ≡ ok a → o ≡ some a
or_malformed-ok field none h = cc
or_malformed-ok field (some a) h = cc

pub some-pair {ℓ κ} :
    {A : Type ℓ} {B : Type κ} {a c : A} {b d : B}
    → ◌≡◌ {A = Option (A × B)} (some (a, b)) (some (c, d))
    → (c ≡ a) × (b ≡ d)
some-pair h = (cc, cc)

pub if-cases {ℓ} :
    {A : Type ℓ} (b : Bool) {t e r : A} → (if b then t else e) ≡ r → (t ≡ r) ⊎ (e ≡ r)
if-cases true h = inl h
if-cases false h = inr h

pub read_number_takes :
    (input rest : List ℕ) (n : ℕ)
    → read_number input ≡ some (n, rest)
    → (n < 2 ^ 64) × (length rest < length input)
unfolding read_number
read_number_takes input rest n h =
    let (small, shorter, _) = consume_varint_takes u64 input n rest (value_of-some _ h) in
    (small, shorter)

pub read_file_number_takes :
    (input rest : List ℕ) (n : ℕ)
    → read_file_number input ≡ some (n, rest)
    → IsFileNumber n × (length rest < length input)
unfolding read_file_number
read_file_number_takes input rest n h =
    let ((m, after), p, q) = >>=-eq-some (read_number input) _ h in
    let (small, shorter) = read_number_takes input after m p in
    ((ground arith, ground arith), ground arith)

pub read_sequence_takes :
    (input rest : List ℕ) (n : ℕ)
    → read_sequence input ≡ some (n, rest)
    → (n ≤ max_sequence_number) × (length rest < length input)
unfolding read_sequence
read_sequence_takes input rest n h =
    let ((m, after), p, q) = >>=-eq-some (read_number input) _ h in
    let (small, shorter) = read_number_takes input after m p in (ground arith, ground arith)

pub read_level_takes :
    (input rest : List ℕ) (n : ℕ)
    → read_level input ≡ some (n, rest)
    → (n < 7) × (length rest < length input)
unfolding read_level
read_level_takes input rest n h =
    let ((m, after), p, q) = >>=-eq-some (value_of (consume_varint u32 input)) _ h in
    let (small, shorter, _) = consume_varint_takes u32 input m after (value_of-some _ p) in
    (ground arith, ground arith)

pub decoded_key :
    (encoded : List ℕ) (key : InternalKey)
    → InternalKey.decode encoded ≡ ok key
    → (is_valid_internal_key key ≡ true) × (key.encoded ≡ encoded)
unfolding InternalKey.decode is_valid_internal_key
decoded_key encoded key h = ground arith

pub read_internal_key_takes :
    (input rest : List ℕ) (key : InternalKey)
    → read_internal_key input ≡ some (key, rest)
    → IsKey key × (length rest < length input)
unfolding read_internal_key
read_internal_key_takes input rest key h =
    let ((encoded, after), p, q) = >>=-eq-some (value_of (consume_length_prefixed input)) _ h in
    let (key', r, s) = >>=-eq-some (value_of (InternalKey.decode encoded)) _ q in
    let (small, shorter, _) =
      consume_length_prefixed_takes input encoded after (value_of-some _ p) in
    let (valid, e) = decoded_key encoded key' (value_of-some _ r) in
    let same : key' ≡ key = cc in
    let left : after ≡ rest = cc in
    let size = ap length e in
    let size' = ap (λ k. length (InternalKey.encoded k)) same in
    let size'' = ap length left in ((rw same at valid, omega arith), omega arith)

-- A decoded field is a valid field, applied, and no byte is read twice.
