-- ===== src/Metadata/VersionEdit/Encode.antt =====
-- src/metadata/version_edit.cc: `VersionEdit::Encode`, the fields in their canonical order.
use modern_level_db.Prelude.{ℕ, List, [], ◌∷◌, Option, none, some}
use modern_level_db.Base.Coding.{append_varint, append_length_prefixed}
use modern_level_db.Metadata.VersionEdit.{VersionEdit, CompactPointer, DeletedFile, NewFile}

abbrev pub tag_comparator : ℕ
tag_comparator = 1

abbrev pub tag_log_number : ℕ
tag_log_number = 2

abbrev pub tag_next_file_number : ℕ
tag_next_file_number = 3

abbrev pub tag_last_sequence : ℕ
tag_last_sequence = 4

abbrev pub tag_compact_pointer : ℕ
tag_compact_pointer = 5

abbrev pub tag_deleted_file : ℕ
tag_deleted_file = 6

abbrev pub tag_new_file : ℕ
tag_new_file = 7

abbrev pub tag_prev_log_number : ℕ
tag_prev_log_number = 9

abbrev pub append_tag : List ℕ → ℕ → List ℕ
append_tag output tag = append_varint output tag

unfoldable pub append_comparator_name : List ℕ → Option (List ℕ) → List ℕ
append_comparator_name output none = output
append_comparator_name output (some name) =
    append_length_prefixed (append_tag output tag_comparator) name

unfoldable pub append_number_field : List ℕ → ℕ → Option ℕ → List ℕ
append_number_field output tag none = output
append_number_field output tag (some number) = append_varint (append_tag output tag) number

unfoldable pub append_compact_pointer : List ℕ → CompactPointer → List ℕ
append_compact_pointer output pointer =
    append_length_prefixed (append_varint (append_tag output tag_compact_pointer) pointer.level)
      pointer.key.encoded

unfoldable pub append_deleted_file : List ℕ → DeletedFile → List ℕ
append_deleted_file output file =
    append_varint (append_varint (append_tag output tag_deleted_file) file.level) file.number

unfoldable pub append_new_file : List ℕ → NewFile → List ℕ
append_new_file output entry =
    let level = append_varint (append_tag output tag_new_file) entry.level in
    let numbers = append_varint (append_varint level entry.file.number) entry.file.file_size in
    append_length_prefixed (append_length_prefixed numbers entry.file.smallest.encoded)
      entry.file.largest.encoded

-- A loop that appends every element of a list.
unfoldable pub append_each {ℓ} : {A : Type ℓ} → (List ℕ → A → List ℕ) → List ℕ → List A → List ℕ
append_each append output [] = output
append_each append output (x ∷ xs) = append_each append (append output x) xs

unfoldable pub encode : VersionEdit → List ℕ
encode edit =
    let named = append_comparator_name [] edit.comparator_name in
    let logged = append_number_field named tag_log_number edit.log_number in
    let previous = append_number_field logged tag_prev_log_number edit.prev_log_number in
    let numbered = append_number_field previous tag_next_file_number edit.next_file_number in
    let sequenced = append_number_field numbered tag_last_sequence edit.last_sequence in
    let pointed = append_each append_compact_pointer sequenced edit.compact_pointers in
    let deleted = append_each append_deleted_file pointed edit.deleted_files in
    append_each append_new_file deleted edit.new_files
