-- ===== src/Tests/Batches.antt =====
-- src/format/write_batch.cc on concrete inputs.
use modern_level_db.Prelude.{ℕ, ◌≡◌, refl, List, [], ◌∷◌, length, some, arith}
use modern_level_db.Base.Error.{ok}
use modern_level_db.Base.Coding.{
  decode_fixed_trusted, consume_length_prefixed, consume_varint, encode_length_prefixed_trusted,
  encode_varint_trusted, encode_fixed_trusted, varint_length,
}
use modern_level_db.Format.WriteBatch.{
  WriteBatchEntry, EncodedWriteBatch, empty_batch, put, delete, append_batch, open_reader,
  reader_over, for_each_remaining, stored_sequence, stored_count, validate_batch_record,
  validate_batch_records, encode_trusted_batch_record, encoded_record_size, set_count, batch_count,
}
use modern_level_db.Format.WriteBatch.Contents.{Operation, put_pair, delete_key, entries, Holds}
use modern_level_db.Format.WriteBatch.Writer.{Holds-put, Holds-append_batch}
use modern_level_db.Format.WriteBatch.RoundTrip.{for_each-Holds}
use modern_level_db.Format.WriteBatch.Validated.{IsNumbered, for_each_remaining-open_reader}

abbrev one_op : List Operation
one_op = put_pair (1 ∷ []) (2 ∷ 3 ∷ []) ∷ []

abbrev one_put : EncodedWriteBatch
one_put = record {
  encoded = 0 ∷ 0 ∷ 0 ∷ 0 ∷ 0 ∷ 0 ∷ 0 ∷ 0 ∷ 1 ∷ 0 ∷ 0 ∷ 0 ∷ 1 ∷ 1 ∷ 1 ∷ 2 ∷ 2 ∷ 3 ∷ [];
}

put-one_put : put empty_batch (1 ∷ []) (2 ∷ 3 ∷ []) ≡ some one_put
unfolding put encode_trusted_batch_record encode_length_prefixed_trusted encode_varint_trusted
    encode_fixed_trusted batch_count encoded_record_size varint_length decode_fixed_trusted
    set_count
put-one_put = refl

one_put-Holds : Holds one_put 0 one_op
unfolding encode_trusted_batch_record encode_length_prefixed_trusted encode_varint_trusted
    encode_fixed_trusted
one_put-Holds = record {
  bytes = refl;
  sequence_lt = omega arith;
  count_lt = omega arith;
  fits = ((omega arith, omega arith), tt);
}

abbrev both_ops : List Operation
both_ops = put_pair (1 ∷ []) (2 ∷ 3 ∷ []) ∷ delete_key (4 ∷ []) ∷ []

abbrev two_ops : EncodedWriteBatch
two_ops = record {
  encoded = 0 ∷ 0 ∷ 0 ∷ 0 ∷ 0 ∷ 0 ∷ 0 ∷ 0 ∷ 2 ∷ 0 ∷ 0 ∷ 0 ∷ 1 ∷ 1 ∷ 1 ∷ 2 ∷ 2 ∷ 3 ∷ 0 ∷ 1 ∷ 4 ∷ [];
}

delete-two_ops : delete one_put (4 ∷ []) ≡ some two_ops
unfolding delete encode_trusted_batch_record encode_length_prefixed_trusted encode_varint_trusted
    encode_fixed_trusted batch_count encoded_record_size varint_length decode_fixed_trusted
    set_count
delete-two_ops = refl

two_ops-Holds : Holds two_ops 0 both_ops
unfolding encode_trusted_batch_record encode_length_prefixed_trusted encode_varint_trusted
    encode_fixed_trusted
two_ops-Holds = record {
  bytes = refl;
  sequence_lt = omega arith;
  count_lt = omega arith;
  fits = ((omega arith, omega arith), (omega arith, tt));
}

Holds-put_example :
    (batch' : EncodedWriteBatch) × (put two_ops (5 ∷ []) [] ≡ some batch')
    × Holds batch' 0
        (put_pair (1 ∷ []) (2 ∷ 3 ∷ []) ∷ delete_key (4 ∷ []) ∷ put_pair (5 ∷ []) [] ∷ [])
Holds-put_example = Holds-put (5 ∷ []) [] two_ops-Holds (omega arith) (omega arith) (omega arith)

Holds-append_batch_example :
    Holds
      (append_batch one_put two_ops)
      0
      (put_pair (1 ∷ []) (2 ∷ 3 ∷ []) ∷ put_pair (1 ∷ []) (2 ∷ 3 ∷ []) ∷ delete_key (4 ∷ []) ∷ [])
Holds-append_batch_example = Holds-append_batch one_put-Holds two_ops-Holds (omega arith)

for_each-Holds_example :
    (open_reader two_ops.encoded ≡ ok (reader_over two_ops.encoded))
    × (for_each_remaining (reader_over two_ops.encoded) ≡ some (entries 0 0 both_ops))
for_each-Holds_example = for_each-Holds two_ops 0 both_ops two_ops-Holds

-- Sequence 7, one deletion of a key of one byte.
abbrev encoded_delete : List ℕ
encoded_delete = 7 ∷ 0 ∷ 0 ∷ 0 ∷ 0 ∷ 0 ∷ 0 ∷ 0 ∷ 1 ∷ 0 ∷ 0 ∷ 0 ∷ 0 ∷ 1 ∷ 65 ∷ []

encoded_delete-opens : open_reader encoded_delete ≡ ok (reader_over encoded_delete)
unfolding open_reader validate_batch_records decode_fixed_trusted validate_batch_record
    consume_length_prefixed consume_varint
encoded_delete-opens = refl

for_each_remaining-open_reader_example :
    (es : List WriteBatchEntry) × (for_each_remaining (reader_over encoded_delete) ≡ some es)
    × (length es ≡ stored_count encoded_delete)
    × IsNumbered (stored_sequence encoded_delete) es
for_each_remaining-open_reader_example =
    for_each_remaining-open_reader encoded_delete (reader_over encoded_delete)
      (
        omega arith,
        (
          omega arith,
          (
            omega arith,
            (
              omega arith,
              (
                omega arith,
                (
                  omega arith,
                  (
                    omega arith,
                    (
                      omega arith,
                      (
                        omega arith,
                        (
                          omega arith,
                          (
                            omega arith,
                            (omega arith, (omega arith, (omega arith, (omega arith, tt)))),
                          ),
                        ),
                      ),
                    ),
                  ),
                ),
              ),
            ),
          ),
        ),
      )
      encoded_delete-opens
