-- ===== src/Format/WriteBatch.antt =====
-- src/format/write_batch.h and src/format/write_batch.cc: the encoding of an atomic batch, its
-- writer `EncodedWriteBatch` and its reader `WriteBatchReader`. The theorems are in the modules below.
pub mod Contents
pub mod Writer
pub mod Validated
pub mod RoundTrip
use modern_level_db.Prelude.{
  ℕ, zero, suc, ◌+◌, ◌-◌, ◌%◌, ◌^◌, List, [], ◌∷◌, ◌++◌, Option, none, some, true, false, not, ltb,
  ◌==◌, if◌then◌else◌, length, take, drop, replicate,
}
use modern_level_db.Base.Error
use modern_level_db.Base.Error.{Result, ok, err, Status, ◌>>=◌, ◌>>◌}
use modern_level_db.Base.Bytes.{write_at, write_within}
use modern_level_db.Base.Coding.{
  encode_fixed_trusted, decode_fixed_trusted, varint_length, length32,
  encode_length_prefixed_trusted, consume_length_prefixed, consume_length_prefixed_trusted,
}
use modern_level_db.Format.InternalKey.{deletion, value, is_valid_value_kind}

abbrev pub write_batch_header_size : ℕ
write_batch_header_size = 12

abbrev pub count_offset : ℕ
count_offset = 8

pub record WriteBatchEntry : Type 0 where
  pub sequence : ℕ
  pub kind : ℕ
  pub key : List ℕ
  pub value : List ℕ

-- The key of a record, and the value of one that is a put; returns the rest of the view.
consume_fields : ℕ → List ℕ → Result (List ℕ)
consume_fields kind remaining = do
  (key, after_key) ← consume_length_prefixed remaining
  if kind == value
      then (do (_, after_value) ← consume_length_prefixed after_key; ok after_value)
      else ok after_key

unfoldable pub validate_batch_record : List ℕ → Result (List ℕ)
unfolding consume_fields is_valid_value_kind
validate_batch_record [] = err (Error.corruption "write batch count exceeds encoded records")
validate_batch_record (kind ∷ remaining) =
    if not (is_valid_value_kind kind)
    then err (Error.corruption "write batch has an unknown value kind")
    else consume_fields kind remaining

-- `count` records are left to validate.
unfoldable pub validate_batch_records : List ℕ → ℕ → Status
validate_batch_records [] zero = ok tt
validate_batch_records (byte ∷ remaining) zero =
    err (Error.corruption "write batch has trailing bytes")
validate_batch_records remaining (suc count) = elim (validate_batch_record remaining) [
  | err e ↦ err e
  | ok rest ↦ validate_batch_records rest count
]

pub record WriteBatchReader : Type 0 where
  pub remaining : List ℕ
  pub sequence : ℕ
  pub count : ℕ
  pub index : ℕ

-- The two fixed-width fields of the header.
abbrev pub stored_sequence : List ℕ → ℕ
stored_sequence encoded = decode_fixed_trusted (take 8 encoded)

abbrev pub stored_count : List ℕ → ℕ
stored_count encoded = decode_fixed_trusted (take 4 (drop count_offset encoded))

abbrev pub reader_over : List ℕ → WriteBatchReader
reader_over encoded = record {
  remaining = drop write_batch_header_size encoded;
  sequence = stored_sequence encoded;
  count = stored_count encoded;
  index = 0;
}

unfoldable pub open_reader : List ℕ → Result WriteBatchReader
open_reader encoded =
    if ltb (length encoded) write_batch_header_size
    then err (Error.corruption "write batch is shorter than its header")
    else (do
      validate_batch_records (drop write_batch_header_size encoded) (stored_count encoded)
      ok (reader_over encoded))

-- The value that a record of the kind carries; `none` is a read past the end.
consume_value : ℕ → List ℕ → Option (List ℕ × List ℕ)
consume_value kind input =
    if kind == value then consume_length_prefixed_trusted input else some ([], input)

consume_entry_fields : WriteBatchReader → ℕ → List ℕ → Option (WriteBatchEntry × WriteBatchReader)
unfolding consume_value
consume_entry_fields r kind remaining = elim (consume_length_prefixed_trusted remaining) [
  | none ↦ none
  | some (key, after_key) ↦ elim (consume_value kind after_key) [
    | none ↦ none
    | some (value, rest) ↦ some (
      record { sequence = (r.sequence + r.index) % 2 ^ 64; kind = kind; key = key; value = value },
      record r { remaining = rest; index = (r.index + 1) % 2 ^ 32 },
    )
  ]
]

-- `none` is a read past the end of the bytes, which the checks of `open_reader` exclude.
unfoldable pub consume_entry : WriteBatchReader → Option (WriteBatchEntry × WriteBatchReader)
unfolding consume_entry_fields
consume_entry r = elim r.remaining [
  | [] ↦ none
  | kind ∷ remaining ↦ consume_entry_fields r kind remaining
]

-- `while (index_ != count_)`, with the entries handed to the consumer in a list. `rounds` is fuel.
unfoldable pub for_each_loop : ℕ → WriteBatchReader → Option (List WriteBatchEntry)
for_each_loop zero r = if r.index == r.count then some [] else none
for_each_loop (suc rounds) r = elim (r.index == r.count) [
  | true ↦ some []
  | false ↦ elim (consume_entry r) [
    | none ↦ none
    | some (entry, r') ↦ elim (for_each_loop rounds r') [
      | none ↦ none
      | some entries ↦ some (entry ∷ entries)
    ]
  ]
]

-- One round for each record that is left.
unfoldable pub for_each_remaining : WriteBatchReader → Option (List WriteBatchEntry)
unfolding for_each_loop
for_each_remaining r = for_each_loop (r.count - r.index) r

-- The owned batch: its bytes.
pub record EncodedWriteBatch : Type 0 where
  pub encoded : List ℕ

abbrev pub empty_batch : EncodedWriteBatch
empty_batch = record { encoded = replicate write_batch_header_size 0 }

unfoldable pub batch_sequence : EncodedWriteBatch → ℕ
batch_sequence batch = stored_sequence batch.encoded

unfoldable pub batch_count : EncodedWriteBatch → ℕ
batch_count batch = stored_count batch.encoded

unfoldable pub set_sequence : EncodedWriteBatch → ℕ → EncodedWriteBatch
set_sequence batch sequence = record {
  encoded = write_at batch.encoded 0 (encode_fixed_trusted 8 sequence);
}

unfoldable pub set_count : EncodedWriteBatch → ℕ → EncodedWriteBatch
set_count batch count = record {
  encoded = write_at batch.encoded count_offset (encode_fixed_trusted 4 count);
}

unfoldable pub encoded_record_size : ℕ → List ℕ → List ℕ → ℕ
encoded_record_size kind key value_bytes =
    1
    + varint_length (length32 key)
    + length key
    + (if kind == value then varint_length (length32 value_bytes) + length value_bytes else 0)

unfoldable pub encode_trusted_batch_record : ℕ → List ℕ → List ℕ → List ℕ
encode_trusted_batch_record kind key value_bytes =
    kind
    ∷ (encode_length_prefixed_trusted key
        ++ (if kind == value then encode_length_prefixed_trusted value_bytes else []))

-- The string grows by the computed size, and the record is written into the new part; `none` is a
-- write past its end.
append_record : EncodedWriteBatch → ℕ → List ℕ → List ℕ → Option EncodedWriteBatch
unfolding set_count
append_record batch kind key value_bytes =
    let old = batch.encoded in
    let size = encoded_record_size kind key value_bytes in
    elim (write_within (old ++ replicate size 0) (length old)
      (encode_trusted_batch_record kind key value_bytes)) [
        | none ↦ none
        | some written ↦
            let grown : EncodedWriteBatch = record { encoded = written } in
            some (set_count grown ((batch_count grown + 1) % 2 ^ 32))
      ]

unfoldable pub put : EncodedWriteBatch → List ℕ → List ℕ → Option EncodedWriteBatch
unfolding append_record
put batch key value_bytes = append_record batch value key value_bytes

unfoldable pub delete : EncodedWriteBatch → List ℕ → Option EncodedWriteBatch
unfolding append_record
delete batch key = append_record batch deletion key []

unfoldable pub append_batch : EncodedWriteBatch → EncodedWriteBatch → EncodedWriteBatch
append_batch batch source =
    let source_count = batch_count source in
    let joined : EncodedWriteBatch = record {
      encoded = batch.encoded ++ drop write_batch_header_size source.encoded;
    } in
    if source_count == 0
    then batch
    else set_count joined ((batch_count joined + source_count) % 2 ^ 32)

-- Resized to the header, and filled with zeros.
unfoldable pub clear : EncodedWriteBatch → EncodedWriteBatch
clear batch = record { encoded = replicate write_batch_header_size 0 }
