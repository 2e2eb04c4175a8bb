-- ===== src/Format/WriteBatch/Validated.antt =====
-- src/format/write_batch.cc: a batch that `Open` accepted is iterated to its end without a read past
-- its bytes, although the iteration checks nothing.
use modern_level_db.Prelude.{
  ℕ, zero, suc, ◌+◌, ◌-◌, ◌%◌, ◌^◌, ◌<◌, ◌≤◌, ◌≡◌, refl, ap, ◌∙◌, List, [], ◌∷◌, arith, length,
  take, drop, some, false, ◌==◌, Bool-cases, inl, inr, ltb, length-take, length-drop, All-take,
  All-drop, if◌then◌else◌,
}
use modern_level_db.Base.Error.{ok, err, >>=-eq-ok, Result-cases, ◌>>=◌}
use modern_level_db.Base.Coding.{consume_length_prefixed}
use modern_level_db.Base.Coding.Prefixed.{consume_length_prefixed_trusted_lem}
use modern_level_db.Base.Coding.Fixed.{decode_fixed_trusted-lt}
use modern_level_db.Base.Bytes.{AreBytes, IsByte}
use modern_level_db.Format.InternalKey.{value}
use modern_level_db.Format.WriteBatch.{
  WriteBatchEntry, WriteBatchReader, consume_fields, validate_batch_record, validate_batch_records,
  stored_count, stored_sequence, reader_over, open_reader, consume_value, consume_entry_fields,
  consume_entry, for_each_loop, for_each_remaining,
}

-- The value of an accepted record is read without its checks.
consume_value_valid :
    (kind : ℕ) (input rest : List ℕ)
    → (if kind == value then (consume_length_prefixed input >>= λ p. ok p.1) else ok input)
      ≡ ok rest
    → (bytes : List ℕ) × (consume_value kind input ≡ some (bytes, rest))
consume_value_valid kind input rest h = elim (Bool-cases (kind == value)) [
  | inl is_put ↦
      let ((bytes, after), p, q) =
        >>=-eq-ok (consume_length_prefixed input) (λ p. ok p.1) (rw is_put at h) in
      let read = consume_length_prefixed_trusted_lem input bytes after p in
      (bytes, unfold consume_value in ground (arith, read))
  | inr is_delete ↦ ([], unfold consume_value in ground arith)
]

-- What is read of an accepted record: an entry with the next sequence, and the same rest.
consume_entry_fields_valid :
    (r : WriteBatchReader) (kind : ℕ) (remaining rest : List ℕ)
    → consume_fields kind remaining ≡ ok rest
    → (e : WriteBatchEntry) × (consume_entry_fields r kind remaining
        ≡ some (e, record r { remaining = rest; index = (r.index + 1) % 2 ^ 32 }))
      × (e.sequence ≡ (r.sequence + r.index) % 2 ^ 64)
unfolding consume_fields consume_entry_fields
consume_entry_fields_valid r kind remaining rest h =
    let ((key, after_key), p, q) = >>=-eq-ok (consume_length_prefixed remaining) _ h in
    let (bytes, v) = consume_value_valid kind after_key rest q in
    let read = consume_length_prefixed_trusted_lem remaining key after_key p in
    (
      record { sequence = (r.sequence + r.index) % 2 ^ 64; kind = kind; key = key; value = bytes },
      ground (arith, read, v),
      refl,
    )

consume_entry_valid :
    (input : List ℕ) (r : WriteBatchReader) (rest : List ℕ)
    → r.remaining ≡ input
    → validate_batch_record input ≡ ok rest
    → (e : WriteBatchEntry) × (consume_entry r
        ≡ some (e, record r { remaining = rest; index = (r.index + 1) % 2 ^ 32 }))
      × (e.sequence ≡ (r.sequence + r.index) % 2 ^ 64)
unfolding validate_batch_record
consume_entry_valid [] r rest eq h = cc
consume_entry_valid (kind ∷ remaining) r rest eq h =
    let fields : consume_fields kind remaining ≡ ok rest = ground arith in
    let (e, read, s) = consume_entry_fields_valid r kind remaining rest fields in
    (e, unfold consume_entry in ground (arith, eq, read), s)

-- The sequences of a list of entries go up by one from `start` on.
abbrev pub IsNumbered : ℕ → List WriteBatchEntry → Type 0
IsNumbered start [] = Unit
IsNumbered start (e ∷ es) = (e.sequence ≡ start % 2 ^ 64) × IsNumbered (start + 1) es

pub after_record :
    (l : List ℕ) (k : ℕ)
    → validate_batch_records l (suc k)
      ≡ (elim (validate_batch_record l) [ err e ↦ err e | ok rest ↦ validate_batch_records rest k ])
unfolding validate_batch_records
after_record [] k = refl
after_record (byte ∷ l) k = refl

validated_step :
    (l : List ℕ) (k : ℕ)
    → validate_batch_records l (suc k) ≡ ok tt
    → (rest : List ℕ) × (validate_batch_record l ≡ ok rest)
      × (validate_batch_records rest k ≡ ok tt)
validated_step l k h = elim (Result-cases (validate_batch_record l)) [
  | inl (rest, e) ↦ (rest, e, ground (arith, after_record l k))
  | inr (x, e) ↦ absurd (ground (arith, after_record l k))
]

pub for_each_loop_step :
    (k : ℕ) (r : WriteBatchReader) (e : WriteBatchEntry) (r' : WriteBatchReader)
    (es : List WriteBatchEntry)
    → (r.index == r.count) ≡ false
    → consume_entry r ≡ some (e, r')
    → for_each_loop k r' ≡ some es
    → for_each_loop (suc k) r ≡ some (e ∷ es)
unfolding for_each_loop
for_each_loop_step k r e r' es later read run = ground arith

-- `k` accepted records are read in `k` rounds, whatever stands in them.
for_each_loop_valid :
    (k : ℕ) (r : WriteBatchReader)
    → r.index + k ≡ r.count
    → r.count < 2 ^ 32
    → validate_batch_records r.remaining k ≡ ok tt
    → (es : List WriteBatchEntry) × (for_each_loop k r ≡ some es)
      × (length es ≡ k)
      × IsNumbered (r.sequence + r.index) es
for_each_loop_valid zero r n small h = ([], unfold for_each_loop in ground arith, refl, tt)
for_each_loop_valid (suc k) r n small h =
    let (rest, valid, more) = validated_step r.remaining k h in
    let (e, read, s) = consume_entry_valid r.remaining r rest refl valid in
    let r' : WriteBatchReader = record r { remaining = rest; index = (r.index + 1) % 2 ^ 32 } in
    let next : (r.index + 1) % 2 ^ 32 ≡ r.index + 1 = omega arith in
    let (es, run, size, numbered) = for_each_loop_valid k r' (omega arith) small more in
    let shift : r.sequence + (r.index + 1) % 2 ^ 32 ≡ r.sequence + r.index + 1 = omega arith in
    let later : (r.index == r.count) ≡ false = ground arith in
    (e ∷ es, for_each_loop_step k r e r' es later read run, ap suc size, (s, rw shift at numbered))

-- What an accepted batch is: a header, and as many valid records as its count says.
open_reader_parts :
    (encoded : List ℕ) (r : WriteBatchReader)
    → open_reader encoded ≡ ok r
    → (12 ≤ length encoded)
      × (validate_batch_records (drop 12 encoded) (stored_count encoded) ≡ ok tt)
      × (r ≡ reader_over encoded)
unfolding open_reader
open_reader_parts encoded r h = elim (Bool-cases (ltb (length encoded) 12)) [
  | inl short ↦ absurd (ground arith)
  | inr long ↦
      let (_, p, q) =
        >>=-eq-ok (validate_batch_records (drop 12 encoded) (stored_count encoded)) _
          (rw long at h) in
      (ground arith, p, ground arith)
]

stored_count-lt :
    (encoded : List ℕ) → AreBytes encoded → 12 ≤ length encoded → stored_count encoded < 2 ^ 32
stored_count-lt encoded bytes room =
    let field = take 4 (drop 8 encoded) in
    let size : length field ≡ 4 =
      omega (arith, length-take 4 (drop 8 encoded), length-drop 8 encoded) in
    let whole : AreBytes field =
      All-take IsByte 4 (drop 8 encoded) (All-drop IsByte 8 encoded bytes) in
    omega (arith, decode_fixed_trusted-lt field whole, ap (λ (t : ℕ). 256 ^ t) size)

-- For every byte string that `Open` accepts, the unchecked iteration never reads past the end: it
-- gives as many entries as the stored count says, with consecutive sequences modulo 2^64.
pub for_each_remaining-open_reader :
    (encoded : List ℕ) (r : WriteBatchReader)
    → AreBytes encoded
    → open_reader encoded ≡ ok r
    → (es : List WriteBatchEntry) × (for_each_remaining r ≡ some es)
      × (length es ≡ stored_count encoded)
      × IsNumbered (stored_sequence encoded) es
unfolding for_each_remaining
for_each_remaining-open_reader encoded r bytes h =
    let (room, valid, e) = open_reader_parts encoded r h in
    let small = stored_count-lt encoded bytes room in
    let all : stored_count encoded - 0 ≡ stored_count encoded = omega arith in
    let start : stored_sequence encoded + 0 ≡ stored_sequence encoded = omega arith in
    let (es, run, size, numbered) =
      for_each_loop_valid (stored_count encoded) (reader_over encoded) (omega arith) small valid in
    let rounds : for_each_remaining r ≡ for_each_loop (stored_count encoded) (reader_over encoded) =
      ap for_each_remaining e ∙ ap (λ n. for_each_loop n (reader_over encoded)) all in
    (es, rounds ∙ run, size, rw start at numbered)
