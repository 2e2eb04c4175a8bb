-- ===== src/Metadata/VersionEdit/Fields.antt =====
-- src/metadata/version_edit.cc: an edit as the sequence of its fields, the bytes of a field, and what
-- a field does to an edit.
use modern_level_db.Prelude.{
  ℕ, ◌≤◌, ◌<◌, ◌^◌, ◌≡◌, ◌≢◌, refl, List, [], ◌∷◌, ◌++◌, Option, none, some, true, length, map, All,
  ap,
}
use modern_level_db.Base.Coding.{encode_varint_trusted, encode_length_prefixed_trusted}
use modern_level_db.Format.InternalKey.{InternalKey, max_sequence_number}
use modern_level_db.Metadata.VersionEdit.{
  VersionEdit, CompactPointer, DeletedFile, NewFile, is_before, insert_deleted,
  is_valid_internal_key,
}
use modern_level_db.Metadata.VersionEdit.Encode.{
  tag_comparator, tag_log_number, tag_next_file_number, tag_last_sequence, tag_compact_pointer,
  tag_deleted_file, tag_new_file, tag_prev_log_number,
}

pub data Field : Type 0 where
  name_field : List ℕ → Field
  log_field prev_field next_field sequence_field : ℕ → Field
  pointer_field : CompactPointer → Field
  deleted_field : DeletedFile → Field
  file_field : NewFile → Field

abbrev pub opt {ℓ} : {A : Type ℓ} → (A → Field) → Option A → List Field
opt f none = []
opt f (some a) = f a ∷ []

abbrev pub fields : VersionEdit → List Field
fields edit =
    opt name_field edit.comparator_name
    ++ (opt log_field edit.log_number
        ++ (opt prev_field edit.prev_log_number
            ++ (opt next_field edit.next_file_number
                ++ (opt sequence_field edit.last_sequence
                    ++ (map pointer_field edit.compact_pointers
                        ++ (map deleted_field edit.deleted_files
                            ++ map file_field edit.new_files))))))

abbrev pub tag_of : Field → ℕ
tag_of (name_field _) = tag_comparator
tag_of (log_field _) = tag_log_number
tag_of (prev_field _) = tag_prev_log_number
tag_of (next_field _) = tag_next_file_number
tag_of (sequence_field _) = tag_last_sequence
tag_of (pointer_field _) = tag_compact_pointer
tag_of (deleted_field _) = tag_deleted_file
tag_of (file_field _) = tag_new_file

abbrev pub key_bytes : InternalKey → List ℕ → List ℕ
key_bytes key rest = encode_length_prefixed_trusted key.encoded ++ rest

-- The bytes behind the tag, with what follows them.
abbrev pub body : Field → List ℕ → List ℕ
body (name_field name) rest = encode_length_prefixed_trusted name ++ rest
body (log_field n) rest = encode_varint_trusted n ++ rest
body (prev_field n) rest = encode_varint_trusted n ++ rest
body (next_field n) rest = encode_varint_trusted n ++ rest
body (sequence_field n) rest = encode_varint_trusted n ++ rest
body (pointer_field p) rest = encode_varint_trusted p.level ++ key_bytes p.key rest
body (deleted_field d) rest =
    encode_varint_trusted d.level ++ (encode_varint_trusted d.number ++ rest)
body (file_field e) rest =
    encode_varint_trusted e.level
    ++ (encode_varint_trusted e.file.number
        ++ (encode_varint_trusted e.file.file_size
            ++ key_bytes e.file.smallest (key_bytes e.file.largest rest)))

abbrev pub all_bytes : List Field → List ℕ → List ℕ
all_bytes [] rest = rest
all_bytes (f ∷ fs) rest = tag_of f ∷ body f (all_bytes fs rest)

abbrev pub apply : Field → VersionEdit → VersionEdit
apply (name_field name) edit = record edit { comparator_name = some name }
apply (log_field n) edit = record edit { log_number = some n }
apply (prev_field n) edit = record edit { prev_log_number = some n }
apply (next_field n) edit = record edit { next_file_number = some n }
apply (sequence_field n) edit = record edit { last_sequence = some n }
apply (pointer_field p) edit = record edit { compact_pointers = edit.compact_pointers ++ (p ∷ []) }
apply (deleted_field d) edit = record edit { deleted_files = insert_deleted d edit.deleted_files }
apply (file_field f) edit = record edit { new_files = edit.new_files ++ (f ∷ []) }

abbrev pub apply_all : List Field → VersionEdit → VersionEdit
apply_all [] edit = edit
apply_all (f ∷ fs) edit = apply_all fs (apply f edit)

abbrev pub IsKey : InternalKey → Type 0
IsKey key = (is_valid_internal_key key ≡ true) × (length key.encoded < 2 ^ 32)

abbrev pub IsFileNumber : ℕ → Type 0
IsFileNumber n = (n ≢ 0) × (n < 2 ^ 64)

-- What the mutators check, and that the lengths and numbers fit their types.
abbrev pub IsField : Field → Type 0
IsField (name_field name) = length name < 2 ^ 32
IsField (log_field n) = n < 2 ^ 64
IsField (prev_field n) = n < 2 ^ 64
IsField (next_field n) = IsFileNumber n
IsField (sequence_field n) = n ≤ max_sequence_number
IsField (pointer_field p) = (p.level < 7) × IsKey p.key
IsField (deleted_field d) = (d.level < 7) × IsFileNumber d.number
IsField (file_field e) =
    (e.level < 7)
    × IsFileNumber e.file.number
    × (e.file.file_size < 2 ^ 64)
    × IsKey e.file.smallest
    × IsKey e.file.largest

-- A set in order, each element once.
abbrev pub IsSorted : List DeletedFile → Type 0
IsSorted [] = Unit
IsSorted (x ∷ xs) = All (λ y. is_before x y ≡ true) xs × IsSorted xs

pub record IsEncodable (edit : VersionEdit) : Type 0 where
  pub valid : All IsField (fields edit)
  pub sorted : IsSorted edit.deleted_files

pub all_bytes-append :
    (xs ys : List Field) (rest : List ℕ)
    → all_bytes (xs ++ ys) rest ≡ all_bytes xs (all_bytes ys rest)
all_bytes-append [] ys rest = refl
all_bytes-append (x ∷ xs) ys rest = ap (λ l. tag_of x ∷ body x l) (all_bytes-append xs ys rest)
