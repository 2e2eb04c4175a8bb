-- ===== src/Format/WriteBatch/RoundTrip.antt =====
-- src/format/write_batch.cc: what was written into a batch is what a reader hands out.
use modern_level_db.Prelude.{
  ℕ, ◌+◌, ◌-◌, ◌%◌, ◌^◌, ◌<◌, ◌≡◌, refl, ◌∙◌, List, ◌++◌, [], ◌∷◌, arith, length, some, false, ltb,
  append_assoc, le→ltb, All,
}
use modern_level_db.Base.Error.{ok}
use modern_level_db.Base.Coding.{consume_length_prefixed_trusted, encode_length_prefixed_trusted}
use modern_level_db.Base.Coding.Prefixed.{
  consume-encode_length_prefixed, consume_length_prefixed_trusted_lem,
}
use modern_level_db.Format.WriteBatch.{
  EncodedWriteBatch, validate_batch_record, validate_batch_records, reader_over, open_reader,
  consume_entry, for_each_loop, for_each_remaining, encode_trusted_batch_record,
}
use modern_level_db.Format.WriteBatch.Contents.{
  Operation, put_pair, delete_key, record_bytes, all_bytes, batch_bytes, entry, entries, Fits,
  Holds, length-batch_bytes, stored_sequence-batch_bytes, stored_count-batch_bytes,
  records-batch_bytes,
}
use modern_level_db.Format.WriteBatch.Validated.{for_each_loop_step, after_record}

trusted-encode :
    (bytes rest : List ℕ)
    → length bytes < 2 ^ 32
    → consume_length_prefixed_trusted (encode_length_prefixed_trusted bytes ++ rest)
      ≡ some (bytes, rest)
trusted-encode bytes rest h =
    consume_length_prefixed_trusted_lem _ bytes rest (consume-encode_length_prefixed bytes rest h)

validate-record_bytes :
    (op : Operation) (rest : List ℕ)
    → Fits op
    → validate_batch_record (record_bytes op ++ rest) ≡ ok rest
unfolding validate_batch_record encode_trusted_batch_record
validate-record_bytes (put_pair key bytes) rest (hk, hv) =
    let value_part = encode_length_prefixed_trusted bytes in
    rw (
      append_assoc (encode_length_prefixed_trusted key) value_part rest,
      consume-encode_length_prefixed key (value_part ++ rest) hk,
      consume-encode_length_prefixed bytes rest hv,
    )
validate-record_bytes (delete_key key) rest hk = rw (
  append_assoc (encode_length_prefixed_trusted key) [] rest,
  consume-encode_length_prefixed key rest hk,
)

consume_entry-record_bytes :
    (op : Operation) (rest : List ℕ) (sequence count index : ℕ)
    → Fits op
    → consume_entry (record {
      remaining = record_bytes op ++ rest;
      sequence = sequence;
      count = count;
      index = index;
    })
      ≡ some (
        entry sequence index op,
        record {
          remaining = rest;
          sequence = sequence;
          count = count;
          index = (index + 1) % 2 ^ 32;
        },
      )
unfolding consume_entry encode_trusted_batch_record
consume_entry-record_bytes (put_pair key bytes) rest sequence count index (hk, hv) =
    let value_part = encode_length_prefixed_trusted bytes in
    ground (
      arith,
      append_assoc (encode_length_prefixed_trusted key) value_part rest,
      trusted-encode key (value_part ++ rest) hk,
      trusted-encode bytes rest hv,
    )
consume_entry-record_bytes (delete_key key) rest sequence count index hk =
    ground
      (arith, append_assoc (encode_length_prefixed_trusted key) [] rest, trusted-encode key rest hk)

validate-all_bytes :
    (ops : List Operation)
    → All Fits ops
    → validate_batch_records (all_bytes ops) (length ops) ≡ ok tt
validate-all_bytes [] h = unfold validate_batch_records in refl
validate-all_bytes (op ∷ ops) (h, hs) =
    after_record (all_bytes (op ∷ ops)) (length ops)
    ∙ rw (validate-record_bytes op (all_bytes ops) h) (validate-all_bytes ops hs)

for_each-all_bytes :
    (ops : List Operation) (sequence count index : ℕ)
    → index + length ops ≡ count
    → count < 2 ^ 32
    → All Fits ops
    → for_each_loop
        (length ops)
        (record { remaining = all_bytes ops; sequence = sequence; count = count; index = index })
      ≡ some (entries sequence index ops)
for_each-all_bytes [] sequence count index n small h = unfold for_each_loop in ground arith
for_each-all_bytes (op ∷ ops) sequence count index n small (h, hs) =
    let next : (index + 1) % 2 ^ 32 ≡ index + 1 = omega arith in
    let rest = for_each-all_bytes ops sequence count (index + 1) (omega arith) small hs in
    for_each_loop_step (length ops) _ _ _ _ (ground arith)
      (consume_entry-record_bytes op (all_bytes ops) sequence count index h) (rw next rest)

-- A batch that holds a list of operations is accepted by `Open`, and iterating it gives the
-- operations in order, each numbered from the stored sequence.
pub for_each-Holds :
    (batch : EncodedWriteBatch) (sequence : ℕ) (ops : List Operation)
    → Holds batch sequence ops
    → (open_reader batch.encoded ≡ ok (reader_over batch.encoded))
      × (for_each_remaining (reader_over batch.encoded) ≡ some (entries sequence 0 ops))
for_each-Holds batch sequence ops held =
    let h = held.fits in
    let records = all_bytes ops in
    let count = length ops in
    let n = length-batch_bytes sequence count records in
    let s = stored_sequence-batch_bytes sequence count records held.sequence_lt in
    let c = stored_count-batch_bytes sequence count records held.count_lt in
    let d = records-batch_bytes sequence count records in
    let rounds : count - 0 ≡ count = omega arith in
    let long : ltb (length (batch_bytes sequence count records)) 12 ≡ false =
      le→ltb _ _ (omega arith) in
    rw held.bytes (
      unfold open_reader in ground (arith, d, c, validate-all_bytes ops h),
      unfold for_each_remaining in
          rw (s, c, d, rounds)
            (for_each-all_bytes ops sequence count 0 (omega arith) held.count_lt h),
    )
