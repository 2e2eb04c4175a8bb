-- ===== src/Metadata/VersionEdit.antt =====
-- src/metadata/version_edit.h and src/metadata/version_edit.cc: one record of the MANIFEST, its
-- mutators and its tagged encoding. A name is its bytes. The seek budget of a file, which the record
-- neither encodes nor reads, is left out.
pub mod Taken
pub mod Mutators
pub mod Encode
pub mod Decode
pub mod Fields
pub mod Reading
pub mod Writing
pub mod RoundTrip
pub mod Invariant
pub mod Decoded
use modern_level_db.Prelude.{
  ℕ, List, [], ◌∷◌, ◌++◌, Option, none, some, Bool, true, false, ◌&&◌, ◌||◌, not, ltb, leb, ◌==◌,
  if◌then◌else◌,
}
use modern_level_db.Base.Error
use modern_level_db.Base.Error.{Result, ok, err}
use modern_level_db.Format.InternalKey.{InternalKey, max_sequence_number, parse_internal_key}

abbrev pub num_levels : ℕ
num_levels = 7

pub record FileMetadata : Type 0 where
  pub number : ℕ
  pub file_size : ℕ
  pub smallest : InternalKey
  pub largest : InternalKey

pub record CompactPointer : Type 0 where
  pub level : ℕ
  pub key : InternalKey

pub record DeletedFile : Type 0 where
  pub level : ℕ
  pub number : ℕ

pub record NewFile : Type 0 where
  pub level : ℕ
  pub file : FileMetadata

pub record VersionEdit : Type 0 where
  pub comparator_name : Option (List ℕ)
  pub log_number : Option ℕ
  pub prev_log_number : Option ℕ
  pub next_file_number : Option ℕ
  pub last_sequence : Option ℕ
  pub compact_pointers : List CompactPointer
  pub deleted_files : List DeletedFile
  pub new_files : List NewFile

abbrev pub empty_edit : VersionEdit
empty_edit = record {
  comparator_name = none;
  log_number = none;
  prev_log_number = none;
  next_file_number = none;
  last_sequence = none;
  compact_pointers = [];
  deleted_files = [];
  new_files = [];
}

-- The order of the set of deleted files: by level, then by number.
abbrev pub is_before : DeletedFile → DeletedFile → Bool
is_before a b = ltb a.level b.level || (a.level == b.level && ltb a.number b.number)

-- A `std::set` is its elements in order, each once.
unfoldable pub insert_deleted : DeletedFile → List DeletedFile → List DeletedFile
insert_deleted d [] = d ∷ []
insert_deleted d (x ∷ xs) =
    let rest = insert_deleted d xs in
    if is_before d x then d ∷ x ∷ xs else if is_before x d then x ∷ rest else x ∷ xs

unfoldable pub is_valid_internal_key : InternalKey → Bool
is_valid_internal_key key = elim (parse_internal_key key.encoded) [ ok _ ↦ true | err _ ↦ false ]

abbrev pub set_comparator_name : VersionEdit → List ℕ → VersionEdit
set_comparator_name edit name = record edit { comparator_name = some name }

abbrev pub set_log_number : VersionEdit → ℕ → VersionEdit
set_log_number edit number = record edit { log_number = some number }

abbrev pub set_prev_log_number : VersionEdit → ℕ → VersionEdit
set_prev_log_number edit number = record edit { prev_log_number = some number }

unfoldable pub set_next_file_number : VersionEdit → ℕ → Result VersionEdit
set_next_file_number edit number =
    if number == 0
    then err (Error.invalid_argument "next file number must be nonzero")
    else ok (record edit { next_file_number = some number })

unfoldable pub set_last_sequence : VersionEdit → ℕ → Result VersionEdit
set_last_sequence edit sequence =
    if ltb max_sequence_number sequence
    then err (Error.invalid_argument "last sequence exceeds 56 bits")
    else ok (record edit { last_sequence = some sequence })

unfoldable pub add_compact_pointer : VersionEdit → ℕ → InternalKey → Result VersionEdit
add_compact_pointer edit level key =
    if leb num_levels level
    then err (Error.invalid_argument "compact pointer level is out of range")
    else if not (is_valid_internal_key key)
    then err (Error.invalid_argument "compact pointer key is malformed")
    else ok (record edit {
      compact_pointers = edit.compact_pointers ++ (record { level = level; key = key } ∷ []);
    })

unfoldable pub add_file : VersionEdit → ℕ → FileMetadata → Result VersionEdit
add_file edit level file =
    if leb num_levels level
    then err (Error.invalid_argument "new file level is out of range")
    else if file.number == 0
    then err (Error.invalid_argument "new file number must be nonzero")
    else if not (is_valid_internal_key file.smallest) || not (is_valid_internal_key file.largest)
    then err (Error.invalid_argument "new file key is malformed")
    else ok
        (record edit { new_files = edit.new_files ++ (record { level = level; file = file } ∷ []) })

unfoldable pub remove_file : VersionEdit → ℕ → ℕ → Result VersionEdit
remove_file edit level number =
    if leb num_levels level
    then err (Error.invalid_argument "deleted file level is out of range")
    else if number == 0
    then err (Error.invalid_argument "deleted file number must be nonzero")
    else ok (record edit {
      deleted_files = insert_deleted (record { level = level; number = number }) edit.deleted_files;
    })
