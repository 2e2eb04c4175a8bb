-- ===== src/Format/LookupKey.antt =====
-- src/format/internal_key.h and src/format/internal_key.cc: the class `LookupKey`, a seek target in
-- the form that memtables use, with inline storage for short keys and moves that leave an empty key.
pub mod Storage
pub mod Views
use modern_level_db.Prelude.{
  ℕ, ◌+◌, ◌%◌, ◌^◌, List, ◌∷◌, ◌++◌, [], Option, none, some, ltb, if◌then◌else◌, length, take, drop,
  replicate, set,
}
use modern_level_db.Base.Error
use modern_level_db.Base.Error.{Result, ok, err}
use modern_level_db.Base.Bytes.{write_at, write_within}
use modern_level_db.Base.Coding.{varint_length, encode_varint_trusted, encode_fixed_trusted}
use modern_level_db.Format.InternalKey.{
  before_last, internal_key_trailer_size, max_sequence_number, seek_value_kind,
  pack_internal_key_trailer, encode_internal_key_trusted,
}

abbrev pub inline_capacity : ℕ
inline_capacity = 200

pub record LookupKey : Type 0 where
  pub inline_storage : List ℕ
  pub heap_storage : Option (List ℕ)
  pub encoded_size : ℕ
  pub internal_key_offset : ℕ

-- The constructor. What the new heap storage holds is unspecified: zeros here.
pub construct : ℕ → ℕ → LookupKey
construct encoded_size prefix_size = record {
  inline_storage = replicate inline_capacity 0;
  heap_storage = if ltb inline_capacity encoded_size then some (replicate encoded_size 0) else none;
  encoded_size = encoded_size;
  internal_key_offset = prefix_size;
}

unfoldable pub storage : LookupKey → List ℕ
storage key = elim key.heap_storage [ none ↦ key.inline_storage | some heap ↦ heap ]

-- Writes from the start of the storage that is in use; `none` is a write past its end.
pub write_storage : LookupKey → List ℕ → Option LookupKey
write_storage key bytes = elim key.heap_storage [
  | none ↦ elim (write_within key.inline_storage 0 bytes) [
    | none ↦ none
    | some written ↦ some (record key { inline_storage = written })
  ]
  | some heap ↦ elim (write_within heap 0 bytes) [
    | none ↦ none
    | some written ↦ some (record key { heap_storage = some written })
  ]
]

unfoldable pub create_trusted : List ℕ → ℕ → Option LookupKey
unfolding construct write_storage
create_trusted user_key sequence =
    let internal_key_size = length user_key + internal_key_trailer_size in
    let encoded_internal_key_size = internal_key_size % 2 ^ 32 in
    let prefix_size = varint_length encoded_internal_key_size in
    let encoded_size = prefix_size + internal_key_size in
    write_storage (construct encoded_size prefix_size) (
      encode_varint_trusted encoded_internal_key_size
      ++ encode_internal_key_trusted user_key sequence seek_value_kind)

-- `none` is a write past the end of the storage.
unfoldable pub create : List ℕ → ℕ → Option (Result LookupKey)
create user_key sequence =
    if ltb max_sequence_number sequence
    then some (err (Error.invalid_argument "lookup key sequence exceeds 56 bits"))
    else (elim (create_trusted user_key sequence) [ none ↦ none | some key ↦ some (ok key) ])

unfoldable pub memtable_key : LookupKey → List ℕ
unfolding storage
memtable_key key = take key.encoded_size (storage key)

unfoldable pub internal_key : LookupKey → List ℕ
unfolding memtable_key
internal_key key = drop key.internal_key_offset (memtable_key key)

unfoldable pub user_key : LookupKey → List ℕ
unfolding internal_key
user_key key = before_last internal_key_trailer_size (internal_key key)

initialize_canonical_empty : LookupKey → LookupKey
initialize_canonical_empty key = record key {
  encoded_size = 1 + internal_key_trailer_size;
  internal_key_offset = 1;
  inline_storage = write_at (set key.inline_storage 0 internal_key_trailer_size) 1 (
      encode_fixed_trusted internal_key_trailer_size (pack_internal_key_trailer 0 seek_value_kind));
}

reset_to_canonical_empty : LookupKey → LookupKey
unfolding initialize_canonical_empty
reset_to_canonical_empty key = initialize_canonical_empty (record key { heap_storage = none })

-- The move constructor: the new key, and the source after it.
unfoldable pub move_construct : LookupKey → LookupKey × LookupKey
unfolding reset_to_canonical_empty
move_construct source = (
  record {
    inline_storage = source.inline_storage;
    heap_storage = source.heap_storage;
    encoded_size = source.encoded_size;
    internal_key_offset = source.internal_key_offset;
  },
  reset_to_canonical_empty (record source { heap_storage = none }),
)

-- Move assignment from another object: the target and the source after it.
unfoldable pub move_assign : LookupKey → LookupKey → LookupKey × LookupKey
unfolding reset_to_canonical_empty
move_assign target source = (
  record target {
    inline_storage = source.inline_storage;
    heap_storage = source.heap_storage;
    encoded_size = source.encoded_size;
    internal_key_offset = source.internal_key_offset;
  },
  reset_to_canonical_empty (record source { heap_storage = none }),
)
