-- ===== src/Metadata/VersionEdit/Decoded.antt =====
-- src/metadata/version_edit.cc: what `Decode` accepts, and that it ends.
use mathlib.Core.Path.{subst}
use modern_level_db.Prelude.{
  ℕ, zero, suc, ◌≤◌, ◌<◌, ◌≡◌, refl, ap, ◌∙◌, List, [], ◌∷◌, some, length, arith, ◌==◌, inl, inr,
}
use modern_level_db.Prelude.Options.{>>=-eq-some}
use modern_level_db.Base.Error.{Result, ok, err, Result-cases}
use modern_level_db.Base.Coding.{u32, consume_varint, consume_length_prefixed}
use modern_level_db.Base.Coding.VarintRoundTrip.{consume_varint_takes}
use modern_level_db.Base.Coding.Prefixed.{consume_length_prefixed_takes}
use modern_level_db.Metadata.VersionEdit.{VersionEdit, empty_edit}
use modern_level_db.Metadata.VersionEdit.Decode.{
  malformed, value_of, read_number, read_file_number, read_sequence, read_level, read_internal_key,
  decode_comparator_name, decode_log_number, decode_prev_log_number, decode_next_file_number,
  decode_last_sequence, decode_compact_pointer, decode_deleted_file, decode_new_file, decode_field,
  decode_fields, decode,
}
use modern_level_db.Metadata.VersionEdit.Fields.{
  Field, name_field, log_field, prev_field, next_field, sequence_field, pointer_field,
  deleted_field, file_field, apply, IsField, IsEncodable,
}
use modern_level_db.Metadata.VersionEdit.Reading.{decode_fields-step}
use modern_level_db.Metadata.VersionEdit.Invariant.{apply-IsEncodable, empty_edit-IsEncodable}
use modern_level_db.Metadata.VersionEdit.Taken.{
  value_of-some, or_malformed-ok, some-pair, if-cases, read_number_takes, read_file_number_takes,
  read_sequence_takes, read_level_takes, read_internal_key_takes,
}

abbrev Taken : VersionEdit → List ℕ → VersionEdit × List ℕ → Type 0
Taken edit input (edit', rest) =
    (f : Field) × IsField f × (edit' ≡ apply f edit) × (length rest ≤ length input)

module _ (edit edit' : VersionEdit) (input rest : List ℕ) where
  name-Taken :
      decode_comparator_name edit input ≡ some (edit', rest) → Taken edit input (edit', rest)
  unfolding decode_comparator_name
  name-Taken h =
      let ((name, after), p, q) = >>=-eq-some (value_of (consume_length_prefixed input)) _ h in
      let (small, shorter, _) =
        consume_length_prefixed_takes input name after (value_of-some _ p) in
      (name_field name, small, cc, ground arith)

  log-Taken : decode_log_number edit input ≡ some (edit', rest) → Taken edit input (edit', rest)
  unfolding decode_log_number
  log-Taken h =
      let ((n, after), p, q) = >>=-eq-some (read_number input) _ h in
      let (small, shorter) = read_number_takes input after n p in
      (log_field n, small, cc, ground arith)

  prev-Taken :
      decode_prev_log_number edit input ≡ some (edit', rest) → Taken edit input (edit', rest)
  unfolding decode_prev_log_number
  prev-Taken h =
      let ((n, after), p, q) = >>=-eq-some (read_number input) _ h in
      let (small, shorter) = read_number_takes input after n p in
      (prev_field n, small, cc, ground arith)

  next-Taken :
      decode_next_file_number edit input ≡ some (edit', rest) → Taken edit input (edit', rest)
  unfolding decode_next_file_number
  next-Taken h =
      let ((n, after), p, q) = >>=-eq-some (read_file_number input) _ h in
      let (valid, shorter) = read_file_number_takes input after n p in
      (next_field n, valid, cc, ground arith)

  sequence-Taken :
      decode_last_sequence edit input ≡ some (edit', rest) → Taken edit input (edit', rest)
  unfolding decode_last_sequence
  sequence-Taken h =
      let ((n, after), p, q) = >>=-eq-some (read_sequence input) _ h in
      let (valid, shorter) = read_sequence_takes input after n p in
      (sequence_field n, valid, cc, ground arith)

  pointer-Taken :
      decode_compact_pointer edit input ≡ some (edit', rest) → Taken edit input (edit', rest)
  unfolding decode_compact_pointer
  pointer-Taken h =
      let ((level, after), p, q) = >>=-eq-some (read_level input) _ h in
      let ((key, after'), r, s) = >>=-eq-some (read_internal_key after) _ q in
      let (valid, shorter) = read_level_takes input after level p in
      let (valid', shorter') = read_internal_key_takes after after' key r in
      (pointer_field (record { level = level; key = key }), (valid, valid'), cc, ground arith)

  deleted-Taken :
      decode_deleted_file edit input ≡ some (edit', rest) → Taken edit input (edit', rest)
  unfolding decode_deleted_file
  deleted-Taken h =
      let ((level, after), p, q) = >>=-eq-some (read_level input) _ h in
      let ((n, after'), r, s) = >>=-eq-some (read_file_number after) _ q in
      let (valid, shorter) = read_level_takes input after level p in
      let (valid', shorter') = read_file_number_takes after after' n r in
      (deleted_field (record { level = level; number = n }), (valid, valid'), cc, ground arith)

  file-Taken : decode_new_file edit input ≡ some (edit', rest) → Taken edit input (edit', rest)
  unfolding decode_new_file
  file-Taken h =
      let ((level, r1), p1, q1) = >>=-eq-some (read_level input) _ h in
      let ((n, r2), p2, q2) = >>=-eq-some (read_file_number r1) _ q1 in
      let ((size, r3), p3, q3) = >>=-eq-some (read_number r2) _ q2 in
      let ((smallest, r4), p4, q4) = >>=-eq-some (read_internal_key r3) _ q3 in
      let ((largest, r5), p5, q5) = >>=-eq-some (read_internal_key r4) _ q4 in
      let (v1, s1) = read_level_takes input r1 level p1 in
      let (v2, s2) = read_file_number_takes r1 r2 n p2 in
      let (v3, s3) = read_number_takes r2 r3 size p3 in
      let (v4, s4) = read_internal_key_takes r3 r4 smallest p4 in
      let (v5, s5) = read_internal_key_takes r4 r5 largest p5 in
      (
        file_field (record {
          level = level;
          file = record { number = n; file_size = size; smallest = smallest; largest = largest };
        }),
        (v1, v2, v3, v4, v5),
        (some-pair q5).0,
        omega (arith, ap length (some-pair q5).1),
      )

  field-Taken :
      (tag : ℕ) → decode_field edit tag input ≡ ok (edit', rest) → Taken edit input (edit', rest)
  unfolding decode_field
  field-Taken tag h = elim (if-cases (tag == 1) h) [
    | inl h ↦ name-Taken (or_malformed-ok "comparator name" _ h)
    | inr h ↦ elim (if-cases (tag == 2) h) [
      | inl h ↦ log-Taken (or_malformed-ok "log number" _ h)
      | inr h ↦ elim (if-cases (tag == 9) h) [
        | inl h ↦ prev-Taken (or_malformed-ok "previous log number" _ h)
        | inr h ↦ elim (if-cases (tag == 3) h) [
          | inl h ↦ next-Taken (or_malformed-ok "next file number" _ h)
          | inr h ↦ elim (if-cases (tag == 4) h) [
            | inl h ↦ sequence-Taken (or_malformed-ok "last sequence" _ h)
            | inr h ↦ elim (if-cases (tag == 5) h) [
              | inl h ↦ pointer-Taken (or_malformed-ok "compact pointer" _ h)
              | inr h ↦ elim (if-cases (tag == 6) h) [
                | inl h ↦ deleted-Taken (or_malformed-ok "deleted file" _ h)
                | inr h ↦ elim (if-cases (tag == 7) h) [
                  | inl h ↦ file-Taken (or_malformed-ok "new file" _ h)
                  | inr h ↦ absurd (cc)
                ]
              ]
            ]
          ]
        ]
      ]
    ]
  ]

decode_fields-split :
    (fuel byte : ℕ) (input : List ℕ) (edit edit' : VersionEdit)
    → decode_fields (suc fuel) edit (byte ∷ input) ≡ some (ok edit')
    → (a : ℕ × List ℕ) × (b : VersionEdit × List ℕ) × (consume_varint u32 (byte ∷ input) ≡ ok a)
      × (decode_field edit a.0 a.1 ≡ ok b)
      × (decode_fields fuel b.0 b.1 ≡ some (ok edit'))
unfolding decode_fields
decode_fields-split fuel byte input edit edit' h =
    elim (Result-cases (consume_varint u32 (byte ∷ input))) [
      | inr (e, p) ↦ absurd (ground arith)
      | inl (a, p) ↦ elim (Result-cases (decode_field edit a.0 a.1)) [
        | inr (e, q) ↦ absurd (ground arith)
        | inl (b, q) ↦ (a, b, p, q, ground arith)
      ]
    ]

decode_fields-valid :
    (fuel : ℕ) (edit edit' : VersionEdit) (input : List ℕ)
    → IsEncodable edit
    → decode_fields fuel edit input ≡ some (ok edit')
    → IsEncodable edit'
decode_fields-valid zero edit edit' input k h = unfold decode_fields in absurd (cc)
decode_fields-valid (suc fuel) edit edit' [] k h =
    let same : edit ≡ edit' = unfold decode_fields in cc in subst IsEncodable same k
decode_fields-valid (suc fuel) edit edit' (byte ∷ input) k h =
    let ((tag, after), (next, rest), p, q, r) = decode_fields-split fuel byte input edit edit' h in
    let (f, valid, e, _) = field-Taken edit next after rest tag q in
    decode_fields-valid fuel next edit' rest (rw e (apply-IsEncodable f edit valid k)) r

decode_fields-ends :
    (fuel : ℕ) (edit : VersionEdit) (input : List ℕ)
    → length input < fuel
    → (r : Result VersionEdit) × (decode_fields fuel edit input ≡ some r)
decode_fields-ends zero edit input room = absurd (omega arith)
decode_fields-ends (suc fuel) edit [] room = (ok edit, unfold decode_fields in refl)
decode_fields-ends (suc fuel) edit (byte ∷ input) room =
    elim (Result-cases (consume_varint u32 (byte ∷ input))) [
      | inr (e, p) ↦ (err (malformed "tag"), unfold decode_fields in ground (arith, p))
      | inl ((tag, after), p) ↦ elim (Result-cases (decode_field edit tag after)) [
        | inr (e, q) ↦ (err e, unfold decode_fields in ground (arith, p, q))
        | inl ((next, rest), q) ↦
            let (_, shorter, _) = consume_varint_takes u32 (byte ∷ input) tag after p in
            let (_, _, _, left) = field-Taken edit next after rest tag q in
            let (r, run) = decode_fields-ends fuel next rest (omega arith) in
            (r, decode_fields-step fuel byte tag input after rest edit next p q ∙ run)
      ]
    ]

-- `Decode` answers on every byte string: one round for each byte and one for the end are enough.
pub decode-ends : (encoded : List ℕ) → (r : Result VersionEdit) × (decode encoded ≡ some r)
unfolding decode
decode-ends encoded = decode_fields-ends _ empty_edit encoded (omega arith)

-- Whatever bytes `Decode` accepts, the edit it gives has valid fields that fit their types, and its
-- deleted files in order.
pub decode-IsEncodable :
    (encoded : List ℕ) (edit : VersionEdit) → decode encoded ≡ some (ok edit) → IsEncodable edit
unfolding decode
decode-IsEncodable encoded edit h =
    decode_fields-valid _ empty_edit edit encoded empty_edit-IsEncodable h
