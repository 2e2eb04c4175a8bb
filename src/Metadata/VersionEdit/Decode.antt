-- ===== src/Metadata/VersionEdit/Decode.antt =====
-- src/metadata/version_edit.cc: `VersionEdit::Decode`, fields in any order.
use Prim.Native.String
use modern_level_db.Prelude.{
  ℕ, zero, suc, List, [], ◌∷◌, ◌++◌, String, Option, none, some, ltb, leb, ◌==◌, if◌then◌else◌,
  length,
}
use modern_level_db.Prelude.Options.{◌>>=◌}
use modern_level_db.Base.Error
use modern_level_db.Base.Error.{Error, Result, ok, err}
use modern_level_db.Base.Coding.{u32, u64, consume_varint, consume_length_prefixed}
use modern_level_db.Format.InternalKey
use modern_level_db.Format.InternalKey.{InternalKey, max_sequence_number}
use modern_level_db.Metadata.VersionEdit.{VersionEdit, empty_edit, num_levels, insert_deleted}
use modern_level_db.Metadata.VersionEdit.Encode.{
  tag_comparator, tag_log_number, tag_next_file_number, tag_last_sequence, tag_compact_pointer,
  tag_deleted_file, tag_new_file, tag_prev_log_number,
}

abbrev pub malformed : String → Error
malformed field = Error.corruption (String.◌++◌ "malformed version edit " field)

abbrev pub value_of {ℓ} : {A : Type ℓ} → Result A → Option A
value_of (ok value) = some value
value_of (err _) = none

abbrev pub or_malformed {ℓ} : {A : Type ℓ} → String → Option A → Result A
or_malformed field none = err (malformed field)
or_malformed field (some value) = ok value

-- The readers give the value and what is left, or nothing where the source answers false.
unfoldable pub read_number : List ℕ → Option (ℕ × List ℕ)
read_number input = value_of (consume_varint u64 input)

unfoldable pub read_file_number : List ℕ → Option (ℕ × List ℕ)
unfolding read_number
read_file_number input = do
  (number, rest) ← read_number input
  if number == 0 then none else some (number, rest)

unfoldable pub read_sequence : List ℕ → Option (ℕ × List ℕ)
unfolding read_number
read_sequence input = do
  (number, rest) ← read_number input
  if ltb max_sequence_number number then none else some (number, rest)

unfoldable pub read_level : List ℕ → Option (ℕ × List ℕ)
read_level input = do
  (level, rest) ← value_of (consume_varint u32 input)
  if leb num_levels level then none else some (level, rest)

unfoldable pub read_internal_key : List ℕ → Option (InternalKey × List ℕ)
read_internal_key input = do
  (encoded, rest) ← value_of (consume_length_prefixed input)
  key ← value_of (InternalKey.decode encoded)
  some (key, rest)

unfoldable pub decode_comparator_name : VersionEdit → List ℕ → Option (VersionEdit × List ℕ)
decode_comparator_name edit input = do
  (name, rest) ← value_of (consume_length_prefixed input)
  some (record edit { comparator_name = some name }, rest)

unfoldable pub decode_log_number : VersionEdit → List ℕ → Option (VersionEdit × List ℕ)
decode_log_number edit input = do
  (number, rest) ← read_number input
  some (record edit { log_number = some number }, rest)

unfoldable pub decode_prev_log_number : VersionEdit → List ℕ → Option (VersionEdit × List ℕ)
decode_prev_log_number edit input = do
  (number, rest) ← read_number input
  some (record edit { prev_log_number = some number }, rest)

unfoldable pub decode_next_file_number : VersionEdit → List ℕ → Option (VersionEdit × List ℕ)
decode_next_file_number edit input = do
  (number, rest) ← read_file_number input
  some (record edit { next_file_number = some number }, rest)

unfoldable pub decode_last_sequence : VersionEdit → List ℕ → Option (VersionEdit × List ℕ)
decode_last_sequence edit input = do
  (number, rest) ← read_sequence input
  some (record edit { last_sequence = some number }, rest)

unfoldable pub decode_compact_pointer : VersionEdit → List ℕ → Option (VersionEdit × List ℕ)
decode_compact_pointer edit input = do
  (level, after_level) ← read_level input
  (key, rest) ← read_internal_key after_level
  some (
    record edit {
      compact_pointers = edit.compact_pointers ++ (record { level = level; key = key } ∷ []);
    },
    rest,
  )

unfoldable pub decode_deleted_file : VersionEdit → List ℕ → Option (VersionEdit × List ℕ)
decode_deleted_file edit input = do
  (level, after_level) ← read_level input
  (number, rest) ← read_file_number after_level
  some (
    record edit {
      deleted_files = insert_deleted (record { level = level; number = number }) edit.deleted_files;
    },
    rest,
  )

unfoldable pub decode_new_file : VersionEdit → List ℕ → Option (VersionEdit × List ℕ)
decode_new_file edit input = do
  (level, after_level) ← read_level input
  (number, after_number) ← read_file_number after_level
  (file_size, after_size) ← read_number after_number
  (smallest, after_smallest) ← read_internal_key after_size
  (largest, rest) ← read_internal_key after_smallest
  some (
    record edit {
      new_files =
          edit.new_files
          ++ (record {
            level = level;
            file = record {
              number = number;
              file_size = file_size;
              smallest = smallest;
              largest = largest;
            };
          }
              ∷ []);
    },
    rest,
  )

unfoldable pub decode_field : VersionEdit → ℕ → List ℕ → Result (VersionEdit × List ℕ)
decode_field edit tag input =
    if tag == tag_comparator
    then or_malformed "comparator name" (decode_comparator_name edit input)
    else if tag == tag_log_number
    then or_malformed "log number" (decode_log_number edit input)
    else if tag == tag_prev_log_number
    then or_malformed "previous log number" (decode_prev_log_number edit input)
    else if tag == tag_next_file_number
    then or_malformed "next file number" (decode_next_file_number edit input)
    else if tag == tag_last_sequence
    then or_malformed "last sequence" (decode_last_sequence edit input)
    else if tag == tag_compact_pointer
    then or_malformed "compact pointer" (decode_compact_pointer edit input)
    else if tag == tag_deleted_file
    then or_malformed "deleted file" (decode_deleted_file edit input)
    else if tag == tag_new_file
    then or_malformed "new file" (decode_new_file edit input)
    else err (Error.corruption "version edit has an unknown tag")

-- The loop over the fields; `none` is out of fuel.
unfoldable pub decode_fields : ℕ → VersionEdit → List ℕ → Option (Result VersionEdit)
decode_fields zero edit input = none
decode_fields (suc fuel) edit [] = some (ok edit)
decode_fields (suc fuel) edit (byte ∷ input) = elim (consume_varint u32 (byte ∷ input)) [
  | err _ ↦ some (err (malformed "tag"))
  | ok (tag, after_tag) ↦ elim (decode_field edit tag after_tag) [
    | err e ↦ some (err e)
    | ok (edit', rest) ↦ decode_fields fuel edit' rest
  ]
]

-- One round for each byte and one for the end.
unfoldable pub decode : List ℕ → Option (Result VersionEdit)
decode encoded = decode_fields (suc (length encoded)) empty_edit encoded
