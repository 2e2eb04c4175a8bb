-- ===== src/Format/WriteBatch/Contents.antt =====
-- src/format/write_batch.h: the operations that a batch stands for, and the bytes that hold them:
-- fixed64(first sequence) || fixed32(count) || ordered records.
use modern_level_db.Prelude.{
  ℕ, ◌+◌, ◌%◌, ◌^◌, ◌<◌, ◌≡◌, refl, sym, ap, ◌∙◌, List, ◌++◌, [], ◌∷◌, arith, length, drop, All,
  length-append, take-append, drop-append, append_assoc,
}
use modern_level_db.Base.Bytes.{write_at}
use modern_level_db.Base.Coding.{encode_fixed_trusted}
use modern_level_db.Base.Coding.Fixed.{length-encode_fixed_trusted, decode-encode_fixed_trusted}
use modern_level_db.Format.InternalKey.{deletion, value}
use modern_level_db.Format.WriteBatch.{
  WriteBatchEntry, EncodedWriteBatch, encode_trusted_batch_record, stored_sequence, stored_count,
}

pub data Operation : Type 0 where
  put_pair : List ℕ → List ℕ → Operation
  delete_key : List ℕ → Operation

abbrev pub record_bytes : Operation → List ℕ
record_bytes (put_pair key bytes) = encode_trusted_batch_record value key bytes
record_bytes (delete_key key) = encode_trusted_batch_record deletion key []

abbrev pub all_bytes : List Operation → List ℕ
all_bytes [] = []
all_bytes (op ∷ ops) = record_bytes op ++ all_bytes ops

-- The entries that a reader hands out, the `index`-th operation first.
abbrev pub entry : ℕ → ℕ → Operation → WriteBatchEntry
entry sequence index (put_pair key bytes) = record {
  sequence = (sequence + index) % 2 ^ 64;
  kind = value;
  key = key;
  value = bytes;
}
entry sequence index (delete_key key) = record {
  sequence = (sequence + index) % 2 ^ 64;
  kind = deletion;
  key = key;
  value = [];
}

abbrev pub entries : ℕ → ℕ → List Operation → List WriteBatchEntry
entries sequence index [] = []
entries sequence index (op ∷ ops) = entry sequence index op ∷ entries sequence (index + 1) ops

abbrev pub batch_bytes : ℕ → ℕ → List ℕ → List ℕ
batch_bytes sequence count records =
    encode_fixed_trusted 8 sequence ++ (encode_fixed_trusted 4 count ++ records)

-- Keys and values with lengths that a `uint32_t` holds.
abbrev pub Fits : Operation → Type 0
Fits (put_pair key bytes) = (length key < 2 ^ 32) × (length bytes < 2 ^ 32)
Fits (delete_key key) = length key < 2 ^ 32

-- The batch holds these operations from this sequence on: the header is theirs, the records are
-- theirs in order, and every length is one that the encoding can hold.
pub record Holds (batch : EncodedWriteBatch) (sequence : ℕ) (ops : List Operation) : Type 0 where
  pub bytes : batch.encoded ≡ batch_bytes sequence (length ops) (all_bytes ops)
  pub sequence_lt : sequence < 2 ^ 64
  pub count_lt : length ops < 2 ^ 32
  pub fits : All Fits ops

pub all_bytes-append :
    (xs ys : List Operation) → all_bytes (xs ++ ys) ≡ all_bytes xs ++ all_bytes ys
all_bytes-append [] ys = refl
all_bytes-append (op ∷ xs) ys =
    ap (λ l. record_bytes op ++ l) (all_bytes-append xs ys)
    ∙ sym (append_assoc (record_bytes op) (all_bytes xs) (all_bytes ys))

module _ (sequence count : ℕ) (records : List ℕ) where
  pub length-batch_bytes : length (batch_bytes sequence count records) ≡ 12 + length records
  length-batch_bytes = omega (
    arith,
    length-append (encode_fixed_trusted 8 sequence) (encode_fixed_trusted 4 count ++ records),
    length-append (encode_fixed_trusted 4 count) records,
    length-encode_fixed_trusted 8 sequence,
    length-encode_fixed_trusted 4 count,
  )

  pub stored_sequence-batch_bytes :
      sequence < 2 ^ 64 → stored_sequence (batch_bytes sequence count records) ≡ sequence
  stored_sequence-batch_bytes h =
      rw
        (take-append 8 (encode_fixed_trusted 8 sequence) _
          (sym (length-encode_fixed_trusted 8 sequence)))
        (decode-encode_fixed_trusted 8 sequence (omega arith))

  after_sequence :
      drop 8 (batch_bytes sequence count records) ≡ encode_fixed_trusted 4 count ++ records
  after_sequence = drop-append 8 _ _ (sym (length-encode_fixed_trusted 8 sequence))

  pub stored_count-batch_bytes :
      count < 2 ^ 32 → stored_count (batch_bytes sequence count records) ≡ count
  stored_count-batch_bytes h =
      rw
        (
          after_sequence,
          take-append 4 (encode_fixed_trusted 4 count) records
              (sym (length-encode_fixed_trusted 4 count)),
        )
        (decode-encode_fixed_trusted 4 count (omega arith))

  pub records-batch_bytes : drop 12 (batch_bytes sequence count records) ≡ records
  records-batch_bytes =
      rw
        (sym
          (append_assoc (encode_fixed_trusted 8 sequence) (encode_fixed_trusted 4 count) records))
        (drop-append 12 (encode_fixed_trusted 8 sequence ++ encode_fixed_trusted 4 count) records (
          omega (
            arith,
            length-append (encode_fixed_trusted 8 sequence) (encode_fixed_trusted 4 count),
            length-encode_fixed_trusted 8 sequence,
            length-encode_fixed_trusted 4 count,
          )))

  -- The header fields are written in place.
  pub write_sequence :
      (s : ℕ)
      → write_at (batch_bytes sequence count records) 0 (encode_fixed_trusted 8 s)
        ≡ batch_bytes s count records
  write_sequence s = rw (length-encode_fixed_trusted 8 s, after_sequence)

  pub write_count :
      (n : ℕ)
      → write_at (batch_bytes sequence count records) 8 (encode_fixed_trusted 4 n)
        ≡ batch_bytes sequence n records
  write_count n = rw (
    length-encode_fixed_trusted 4 n,
    records-batch_bytes,
    take-append 8 (encode_fixed_trusted 8 sequence) _
        (sym (length-encode_fixed_trusted 8 sequence)),
  )
