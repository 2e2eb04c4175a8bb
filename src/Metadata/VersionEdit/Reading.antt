-- ===== src/Metadata/VersionEdit/Reading.antt =====
-- src/metadata/version_edit.cc: `Decode` on the bytes of fields, one field at a time.
use modern_level_db.Prelude.{
  ℕ, zero, suc, ◌≤◌, ◌<◌, ◌^◌, ◌≡◌, refl, sym, ap, ◌∙◌, List, [], ◌∷◌, ◌++◌, some, true, length,
  All, arith,
}
use modern_level_db.Base.Error.{ok}
use modern_level_db.Base.Coding.{u32, u64, encode_varint_trusted, consume_varint}
use modern_level_db.Base.Coding.VarintRoundTrip.{consume-encode_varint}
use modern_level_db.Base.Coding.Prefixed.{consume-encode_length_prefixed}
use modern_level_db.Format.InternalKey
use modern_level_db.Format.InternalKey.{InternalKey, max_sequence_number, parse_internal_key}
use modern_level_db.Metadata.VersionEdit.{VersionEdit, is_valid_internal_key}
use modern_level_db.Metadata.VersionEdit.Decode.{
  read_number, read_file_number, read_sequence, read_level, read_internal_key,
  decode_comparator_name, decode_log_number, decode_prev_log_number, decode_next_file_number,
  decode_last_sequence, decode_compact_pointer, decode_deleted_file, decode_new_file, decode_field,
  decode_fields,
}
use modern_level_db.Metadata.VersionEdit.Fields.{
  Field, name_field, log_field, prev_field, next_field, sequence_field, pointer_field,
  deleted_field, file_field, tag_of, body, all_bytes, apply, apply_all, IsKey, IsFileNumber,
  IsField, key_bytes,
}

module _ (rest : List ℕ) where
  read_number-encode :
      (n : ℕ) → n < 2 ^ 64 → read_number (encode_varint_trusted n ++ rest) ≡ some (n, rest)
  unfolding read_number
  read_number-encode n h = rw (consume-encode_varint u64 n rest h)

  read_file_number-encode :
      (n : ℕ) → IsFileNumber n → read_file_number (encode_varint_trusted n ++ rest) ≡ some (n, rest)
  unfolding read_file_number
  read_file_number-encode n (nonzero, h) = rw (read_number-encode n h) (ground arith)

  read_sequence-encode :
      (n : ℕ)
      → n ≤ max_sequence_number
      → read_sequence (encode_varint_trusted n ++ rest) ≡ some (n, rest)
  unfolding read_sequence
  read_sequence-encode n h = rw (read_number-encode n (omega arith)) (ground arith)

  read_level-encode :
      (n : ℕ) → n < 7 → read_level (encode_varint_trusted n ++ rest) ≡ some (n, rest)
  unfolding read_level
  read_level-encode n h = rw (consume-encode_varint u32 n rest (omega arith)) (ground arith)

  key-accepted :
      (key : InternalKey)
      → is_valid_internal_key key ≡ true
      → InternalKey.decode key.encoded ≡ ok key
  unfolding is_valid_internal_key InternalKey.decode
  key-accepted key h = ground arith

  read_internal_key-encode :
      (key : InternalKey) → IsKey key → read_internal_key (key_bytes key rest) ≡ some (key, rest)
  unfolding read_internal_key
  read_internal_key-encode key (valid, h) =
      rw (consume-encode_length_prefixed key.encoded rest h, key-accepted key valid)

decode_field-body :
    (f : Field) (edit : VersionEdit) (rest : List ℕ)
    → IsField f
    → decode_field edit (tag_of f) (body f rest) ≡ ok (apply f edit, rest)
unfolding decode_field decode_comparator_name decode_log_number decode_prev_log_number
    decode_next_file_number decode_last_sequence decode_compact_pointer decode_deleted_file
    decode_new_file
decode_field-body (name_field name) edit rest h = rw (consume-encode_length_prefixed name rest h)
decode_field-body (log_field n) edit rest h = rw (read_number-encode rest n h)
decode_field-body (prev_field n) edit rest h = rw (read_number-encode rest n h)
decode_field-body (next_field n) edit rest h = rw (read_file_number-encode rest n h)
decode_field-body (sequence_field n) edit rest h = rw (read_sequence-encode rest n h)
decode_field-body (pointer_field p) edit rest (hl, hk) =
    rw (read_level-encode _ p.level hl, read_internal_key-encode rest p.key hk)
decode_field-body (deleted_field d) edit rest (hl, hn) =
    rw (read_level-encode _ d.level hl, read_file_number-encode rest d.number hn)
decode_field-body (file_field e) edit rest (hl, hn, hs, hk, hm) = rw (
  read_level-encode _ e.level hl,
  read_file_number-encode _ e.file.number hn,
  read_number-encode _ e.file.file_size hs,
  read_internal_key-encode _ e.file.smallest hk,
  read_internal_key-encode rest e.file.largest hm,
)

pub small-tag : (f : Field) → encode_varint_trusted (tag_of f) ≡ tag_of f ∷ []
unfolding encode_varint_trusted
small-tag (name_field _) = refl
small-tag (log_field _) = refl
small-tag (prev_field _) = refl
small-tag (next_field _) = refl
small-tag (sequence_field _) = refl
small-tag (pointer_field _) = refl
small-tag (deleted_field _) = refl
small-tag (file_field _) = refl

pub tag-lt : (f : Field) → tag_of f < 128
tag-lt (name_field _) = omega arith
tag-lt (log_field _) = omega arith
tag-lt (prev_field _) = omega arith
tag-lt (next_field _) = omega arith
tag-lt (sequence_field _) = omega arith
tag-lt (pointer_field _) = omega arith
tag-lt (deleted_field _) = omega arith
tag-lt (file_field _) = omega arith

consume-tag :
    (f : Field) (rest : List ℕ) → consume_varint u32 (tag_of f ∷ rest) ≡ ok (tag_of f, rest)
consume-tag f rest =
    let small = tag-lt f in
    ap (λ l. consume_varint u32 (l ++ rest)) (sym (small-tag f))
    ∙ consume-encode_varint u32 (tag_of f) rest (omega arith)

pub decode_fields-step :
    (fuel byte tag : ℕ) (input after_tag rest : List ℕ) (edit edit' : VersionEdit)
    → consume_varint u32 (byte ∷ input) ≡ ok (tag, after_tag)
    → decode_field edit tag after_tag ≡ ok (edit', rest)
    → decode_fields (suc fuel) edit (byte ∷ input) ≡ decode_fields fuel edit' rest
unfolding decode_fields
decode_fields-step fuel byte tag input after_tag rest edit edit' h k = ground (arith, h, k)

-- The loop applies the fields in order, given a round for each and one for the end.
pub decode_fields-all_bytes :
    (fs : List Field) (fuel : ℕ) (edit : VersionEdit)
    → All IsField fs
    → length fs < fuel
    → decode_fields fuel edit (all_bytes fs []) ≡ some (ok (apply_all fs edit))
decode_fields-all_bytes fs zero edit h room = absurd (omega arith)
decode_fields-all_bytes [] (suc fuel) edit h room = unfold decode_fields in refl
decode_fields-all_bytes (f ∷ fs) (suc fuel) edit (hf, hs) room =
    let rest = all_bytes fs [] in
    decode_fields-step fuel (tag_of f) (tag_of f) (body f rest) (body f rest) rest edit
      (apply f edit) (consume-tag f (body f rest)) (decode_field-body f edit rest hf)
    ∙ decode_fields-all_bytes fs fuel (apply f edit) hs (omega arith)
