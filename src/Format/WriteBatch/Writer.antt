-- ===== src/Format/WriteBatch/Writer.antt =====
-- src/format/write_batch.cc: the mutators of a batch keep the encoding of its operations.
use modern_level_db.Prelude.{
  ℕ, suc, ◌+◌, ◌%◌, ◌^◌, ◌<◌, ◌≡◌, refl, sym, ◌∙◌, List, ◌++◌, [], ◌∷◌, arith, length, drop,
  length-append, append_assoc, append-nil, replicate, length-replicate, some, All-append,
}
use modern_level_db.Base.Bytes.{write_within_end}
use modern_level_db.Base.Coding.{encode_fixed_trusted, encode_length_prefixed_trusted}
use modern_level_db.Base.Coding.Prefixed.{length-encode_length_prefixed_trusted}
use modern_level_db.Format.InternalKey.{deletion, value}
use modern_level_db.Format.WriteBatch.{
  EncodedWriteBatch, empty_batch, encode_trusted_batch_record, encoded_record_size, batch_count,
  batch_sequence, set_count, set_sequence, append_record, put, delete, append_batch, clear,
}
use modern_level_db.Format.WriteBatch.Contents.{
  Operation, put_pair, delete_key, record_bytes, all_bytes, batch_bytes, Fits, Holds,
  all_bytes-append, stored_sequence-batch_bytes, stored_count-batch_bytes, records-batch_bytes,
  write_sequence, write_count,
}

-- The room that is made for a record is what the record takes.
length-encode_trusted_batch_record :
    (op_kind : ℕ) (key bytes : List ℕ)
    → length (encode_trusted_batch_record op_kind key bytes) ≡ encoded_record_size op_kind key bytes
unfolding encode_trusted_batch_record encoded_record_size
length-encode_trusted_batch_record op_kind key bytes = ground (
  arith,
  length-append (encode_length_prefixed_trusted key) (encode_length_prefixed_trusted bytes),
  append-nil (encode_length_prefixed_trusted key),
  length-encode_length_prefixed_trusted key,
  length-encode_length_prefixed_trusted bytes,
)

-- A longer batch: the same header, one record more, and the count raised by `n`.
raise_count :
    (batch : EncodedWriteBatch) (sequence count n : ℕ) (records : List ℕ)
    → batch.encoded ≡ batch_bytes sequence count records
    → count + n < 2 ^ 32
    → (set_count batch ((batch_count batch + n) % 2 ^ 32)).encoded
      ≡ batch_bytes sequence (count + n) records
unfolding set_count batch_count
raise_count batch sequence count n records e h =
    let c = stored_count-batch_bytes sequence count records (omega arith) in
    let m : (count + n) % 2 ^ 32 ≡ count + n = omega arith in
    rw (e, c, m) (write_count sequence count records (count + n))

longer_records :
    (sequence count : ℕ) (records added bytes : List ℕ)
    → bytes ≡ batch_bytes sequence count records
    → bytes ++ added ≡ batch_bytes sequence count (records ++ added)
longer_records sequence count records added bytes e = rw e (simp append_assoc)

-- The batch that `AppendRecord` leaves.
grown : EncodedWriteBatch → List ℕ → EncodedWriteBatch
grown batch added =
    let longer : EncodedWriteBatch = record { encoded = batch.encoded ++ added } in
    set_count longer ((batch_count longer + 1) % 2 ^ 32)

append_record_lem :
    (batch : EncodedWriteBatch) (op_kind : ℕ) (key bytes : List ℕ)
    → append_record batch op_kind key bytes
      ≡ some (grown batch (encode_trusted_batch_record op_kind key bytes))
unfolding append_record grown
append_record_lem batch op_kind key bytes =
    let size = encoded_record_size op_kind key bytes in
    rw
      (
        append_record,
        write_within_end batch.encoded (replicate size 0)
            (encode_trusted_batch_record op_kind key bytes)
            (length-replicate size 0 ∙ sym (length-encode_trusted_batch_record op_kind key bytes)),
      )
      refl

Holds-grown :
    {batch : EncodedWriteBatch} {sequence : ℕ} {ops : List Operation} (op : Operation)
    → Holds batch sequence ops
    → length ops + 1 < 2 ^ 32
    → Fits op
    → Holds (grown batch (record_bytes op)) sequence (ops ++ op ∷ [])
unfolding grown
Holds-grown {batch} {sequence} {ops} op held room fit =
    let n : length (ops ++ op ∷ []) ≡ length ops + 1 = omega (arith, length-append ops (op ∷ [])) in
    record {
      bytes =
          raise_count _ sequence (length ops) 1 (all_bytes ops ++ record_bytes op)
            (longer_records sequence (length ops) (all_bytes ops) (record_bytes op) _ held.bytes)
            room
          ∙ rw (n, all_bytes-append, append-nil);
      sequence_lt = held.sequence_lt;
      count_lt = omega arith;
      fits = All-append Fits ops (op ∷ []) held.fits (fit, tt);
    }

pub Holds-empty : Holds empty_batch 0 []
Holds-empty = record {
  bytes = unfold encode_fixed_trusted in refl;
  sequence_lt = omega arith;
  count_lt = omega arith;
  fits = tt;
}

-- `Put` of a key and a value of less than 2^32 bytes writes inside the room that it makes, and adds
-- one put behind the operations that the batch holds, when the count stays below 2^32.
pub Holds-put :
    {batch : EncodedWriteBatch} {sequence : ℕ} {ops : List Operation} (key bytes : List ℕ)
    → Holds batch sequence ops
    → length ops + 1 < 2 ^ 32
    → length key < 2 ^ 32
    → length bytes < 2 ^ 32
    → (batch' : EncodedWriteBatch) × (put batch key bytes ≡ some batch')
      × Holds batch' sequence (ops ++ put_pair key bytes ∷ [])
unfolding put
Holds-put {batch} key bytes held room key_lt bytes_lt = (
  grown batch (encode_trusted_batch_record value key bytes),
  append_record_lem batch value key bytes,
  Holds-grown (put_pair key bytes) held room (key_lt, bytes_lt),
)

-- `Delete` of a key of less than 2^32 bytes writes inside the room that it makes, and adds one
-- deletion behind the operations that the batch holds, when the count stays below 2^32.
pub Holds-delete :
    {batch : EncodedWriteBatch} {sequence : ℕ} {ops : List Operation} (key : List ℕ)
    → Holds batch sequence ops
    → length ops + 1 < 2 ^ 32
    → length key < 2 ^ 32
    → (batch' : EncodedWriteBatch) × (delete batch key ≡ some batch')
      × Holds batch' sequence (ops ++ delete_key key ∷ [])
unfolding delete
Holds-delete {batch} key held room key_lt = (
  grown batch (encode_trusted_batch_record deletion key []),
  append_record_lem batch deletion key [],
  Holds-grown (delete_key key) held room key_lt,
)

-- `SetSequence` replaces the first sequence of a batch and keeps its operations.
pub Holds-set_sequence :
    {batch : EncodedWriteBatch} {sequence : ℕ} {ops : List Operation} (s : ℕ)
    → Holds batch sequence ops
    → s < 2 ^ 64
    → Holds (set_sequence batch s) s ops
unfolding set_sequence
Holds-set_sequence {batch} {sequence} {ops} s held h = record {
  bytes = rw held.bytes (write_sequence sequence (length ops) (all_bytes ops) s);
  sequence_lt = h;
  count_lt = held.count_lt;
  fits = held.fits;
}

-- The stored count and sequence are those of the operations that the batch holds.
pub Holds-accessors :
    {batch : EncodedWriteBatch} {sequence : ℕ} {ops : List Operation}
    → Holds batch sequence ops
    → (batch_count batch ≡ length ops) × (batch_sequence batch ≡ sequence)
unfolding batch_count batch_sequence
Holds-accessors {batch} {sequence} {ops} held = rw held.bytes (
  stored_count-batch_bytes sequence (length ops) (all_bytes ops) held.count_lt,
  stored_sequence-batch_bytes sequence (length ops) (all_bytes ops) held.sequence_lt,
)

append_batch_empty :
    (batch source : EncodedWriteBatch) → batch_count source ≡ 0 → append_batch batch source ≡ batch
unfolding append_batch
append_batch_empty batch source h = rw h

append_batch_more :
    (batch source : EncodedWriteBatch) (n : ℕ)
    → batch_count source ≡ suc n
    → let joined : EncodedWriteBatch = record {
      encoded = batch.encoded ++ drop 12 source.encoded;
    } in
      append_batch batch source ≡ set_count joined ((batch_count joined + suc n) % 2 ^ 32)
unfolding append_batch
append_batch_more batch source n h = rw h (ground arith)

-- `Append` puts the operations of the other batch behind those of this one and keeps the first
-- sequence, when both counts together stay below 2^32.
pub Holds-append_batch :
    {batch source : EncodedWriteBatch} {sequence s : ℕ} {ops more : List Operation}
    → Holds batch sequence ops
    → Holds source s more
    → length ops + length more < 2 ^ 32
    → Holds (append_batch batch source) sequence (ops ++ more)
Holds-append_batch {batch} {source} {sequence} {s} {ops} {more = []} held other room =
    rw (append_batch_empty batch source (Holds-accessors other).0, append-nil) held
Holds-append_batch {batch} {source} {sequence} {s} {ops} {more = op ∷ more} held other room =
    let all = op ∷ more in
    let joined : batch.encoded ++ drop 12 source.encoded
        ≡ batch_bytes sequence (length ops) (all_bytes ops ++ all_bytes all) =
      rw (other.bytes, records-batch_bytes s (length all) (all_bytes all))
        (longer_records sequence (length ops) (all_bytes ops) (all_bytes all) _ held.bytes) in
    rw (append_batch_more batch source (length more) (Holds-accessors other).0) record {
      bytes =
          raise_count _ sequence (length ops) (length all) _ joined room
          ∙ rw (length-append ops all, all_bytes-append ops all);
      sequence_lt = held.sequence_lt;
      count_lt = omega (arith, length-append ops all);
      fits = All-append Fits ops all held.fits other.fits;
    }

-- A cleared batch holds nothing and has sequence 0.
pub Holds-clear : (batch : EncodedWriteBatch) → Holds (clear batch) 0 []
unfolding clear
Holds-clear batch = Holds-empty
