-- ===== src/Tests/Edits.antt =====
-- src/metadata/version_edit.cc on concrete inputs.
use modern_level_db.Prelude.{◌≡◌, refl, [], ◌∷◌, none, some, true, arith}
use modern_level_db.Base.Error.{Result, ok}
use modern_level_db.Format.InternalKey.{
  InternalKey, parse_internal_key, decode_internal_key_view, decode_internal_key_trailer,
  decode_internal_key_value_kind, is_valid_value_kind,
}
use modern_level_db.Base.Coding.{decode_fixed_trusted}
use modern_level_db.Metadata.VersionEdit.{
  VersionEdit, empty_edit, is_valid_internal_key, remove_file,
}
use modern_level_db.Metadata.VersionEdit.Encode.{encode}
use modern_level_db.Metadata.VersionEdit.Decode.{decode}
use modern_level_db.Metadata.VersionEdit.Fields.{Field, deleted_field, apply, IsEncodable}
use modern_level_db.Metadata.VersionEdit.RoundTrip.{decode-encode}
use modern_level_db.Metadata.VersionEdit.Mutators.{mutate, mutate-IsEncodable}
use modern_level_db.Metadata.VersionEdit.Invariant.{empty_edit-IsEncodable}
use modern_level_db.Metadata.VersionEdit.Decoded.{decode-ends, decode-IsEncodable}

abbrev key : InternalKey
key = record { encoded = 97 ∷ 1 ∷ 9 ∷ 0 ∷ 0 ∷ 0 ∷ 0 ∷ 0 ∷ 0 ∷ [] }

key-valid : is_valid_internal_key key ≡ true
unfolding is_valid_internal_key parse_internal_key decode_internal_key_view
    decode_internal_key_trailer decode_internal_key_value_kind is_valid_value_kind
    decode_fixed_trusted
key-valid = refl

abbrev edit : VersionEdit
edit = record {
  comparator_name = some (98 ∷ 119 ∷ []);
  log_number = some 3;
  prev_log_number = none;
  next_file_number = some 300;
  last_sequence = some 5;
  compact_pointers = record { level = 2; key = key } ∷ [];
  deleted_files = record { level = 1; number = 4 } ∷ record { level = 1; number = 9 } ∷ [];
  new_files =
      record {
        level = 0;
        file = record { number = 7; file_size = 2000; smallest = key; largest = key };
      }
      ∷ [];
}

edit-IsEncodable : IsEncodable edit
edit-IsEncodable = record { valid = ground (arith, key-valid); sorted = ((refl, tt), (tt, tt)) }

decode-encode_example : decode (encode edit) ≡ some (ok edit)
decode-encode_example = decode-encode edit edit-IsEncodable

decode-ends_example : (r : Result VersionEdit) × (decode (2 ∷ 3 ∷ 99 ∷ []) ≡ some r)
decode-ends_example = decode-ends (2 ∷ 3 ∷ 99 ∷ [])

edit-decoded : decode (encode edit) ≡ some (ok edit)
edit-decoded = decode-encode edit edit-IsEncodable

decode-IsEncodable_example : IsEncodable edit
decode-IsEncodable_example = decode-IsEncodable (encode edit) edit edit-decoded

abbrev removal : Field
removal = deleted_field (record { level = 6; number = 12 })

mutate-IsEncodable_example : IsEncodable (apply removal empty_edit)
mutate-IsEncodable_example =
    mutate-IsEncodable removal empty_edit (apply removal empty_edit) (omega arith)
      empty_edit-IsEncodable (unfold mutate remove_file in refl)
