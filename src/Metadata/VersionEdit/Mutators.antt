-- ===== src/Metadata/VersionEdit/Mutators.antt =====
-- src/metadata/version_edit.cc: every mutator that accepts keeps the edit encodable.
use modern_level_db.Prelude.{◌<◌, ◌^◌, ◌≡◌, refl, length, arith}
use modern_level_db.Base.Error.{Result, ok}
use modern_level_db.Metadata.VersionEdit.{
  VersionEdit, set_comparator_name, set_log_number, set_prev_log_number, set_next_file_number,
  set_last_sequence, add_compact_pointer, add_file, remove_file,
}
use modern_level_db.Metadata.VersionEdit.Invariant.{apply-IsEncodable}
use modern_level_db.Metadata.VersionEdit.Fields.{
  Field, name_field, log_field, prev_field, next_field, sequence_field, pointer_field,
  deleted_field, file_field, apply, IsField, IsEncodable,
}

-- The mutator of each kind of field.
unfoldable pub mutate : Field → VersionEdit → Result VersionEdit
mutate (name_field name) edit = ok (set_comparator_name edit name)
mutate (log_field n) edit = ok (set_log_number edit n)
mutate (prev_field n) edit = ok (set_prev_log_number edit n)
mutate (next_field n) edit = set_next_file_number edit n
mutate (sequence_field n) edit = set_last_sequence edit n
mutate (pointer_field p) edit = add_compact_pointer edit p.level p.key
mutate (deleted_field d) edit = remove_file edit d.level d.number
mutate (file_field f) edit = add_file edit f.level f.file

-- What the types of the arguments and the callers give: lengths of 32 bits, numbers of 64.
abbrev pub IsInRange : Field → Type 0
IsInRange (name_field name) = length name < 2 ^ 32
IsInRange (log_field n) = n < 2 ^ 64
IsInRange (prev_field n) = n < 2 ^ 64
IsInRange (next_field n) = n < 2 ^ 64
IsInRange (sequence_field n) = n < 2 ^ 64
IsInRange (pointer_field p) = length p.key.encoded < 2 ^ 32
IsInRange (deleted_field d) = d.number < 2 ^ 64
IsInRange (file_field f) =
    (f.file.number < 2 ^ 64)
    × (f.file.file_size < 2 ^ 64)
    × (length f.file.smallest.encoded < 2 ^ 32)
    × (length f.file.largest.encoded < 2 ^ 32)

mutate-accepts :
    (f : Field) (edit edit' : VersionEdit)
    → IsInRange f
    → mutate f edit ≡ ok edit'
    → IsField f × (edit' ≡ apply f edit)
unfolding mutate set_next_file_number set_last_sequence add_compact_pointer remove_file add_file
mutate-accepts (name_field name) edit edit' r h = (r, cc)
mutate-accepts (log_field n) edit edit' r h = (r, cc)
mutate-accepts (prev_field n) edit edit' r h = (r, cc)
mutate-accepts (next_field n) edit edit' r h = (ground arith, ground arith)
mutate-accepts (sequence_field n) edit edit' r h = (ground arith, ground arith)
mutate-accepts (pointer_field p) edit edit' r h = (ground arith, ground arith)
mutate-accepts (deleted_field d) edit edit' r h = (ground arith, ground arith)
mutate-accepts (file_field f) edit edit' r h = (ground arith, ground arith)

pub mutate_takes : (f : Field) (edit : VersionEdit) → IsField f → mutate f edit ≡ ok (apply f edit)
unfolding mutate set_next_file_number set_last_sequence add_compact_pointer remove_file add_file
mutate_takes (name_field name) edit h = refl
mutate_takes (log_field n) edit h = refl
mutate_takes (prev_field n) edit h = refl
mutate_takes (next_field n) edit h = ground arith
mutate_takes (sequence_field n) edit h = ground arith
mutate_takes (pointer_field p) edit h = ground arith
mutate_takes (deleted_field d) edit h = ground arith
mutate_takes (file_field f) edit h = ground arith

-- A mutator that accepts a field of the types of its arguments keeps the edit encodable: its fields
-- valid, its deleted files in order.
pub mutate-IsEncodable :
    (f : Field) (edit edit' : VersionEdit)
    → IsInRange f
    → IsEncodable edit
    → mutate f edit ≡ ok edit'
    → IsEncodable edit'
mutate-IsEncodable f edit edit' r k h =
    let (valid, e) = mutate-accepts f edit edit' r h in rw e (apply-IsEncodable f edit valid k)
