-- ===== src/Wal/Reader/Stream/Physical.antt =====
-- src/wal/wal_io.cc: `ReadPhysical` at a fragment of the log, behind its padding or at the start of a
-- block that is not read yet, and at the end of the log.
use modern_level_db.Prelude.{
  ℕ, ◌+◌, ◌-◌, ◌%◌, ◌≤◌, ◌<◌, ◌≡◌, ◌⊎◌, inl, inr, refl, sym, ap, ◌∙◌, List, [], ◌∷◌, ◌++◌, some,
  true, false, not, ltb, ◌==◌, length, drop, arith, append_assoc, length-append, length-drop,
  drop-append, drop-drop, longer_front, le→ltb,
}
use modern_level_db.Base.Error.{ok}
use modern_level_db.Base.Crc32c.{Crc, crc32c}
use modern_level_db.Format.WalFormat.{
  wal_block_size, maximum_wal_payload, is_fragment_type, encode_header, decode_wal_fragment,
  decoded, fragment,
}
use modern_level_db.Format.WalFormat.Decode.{decode-encode_header}
use modern_level_db.Format.WalFormat.Places.{length-encode_header}
use modern_level_db.Wal.Reader.{WalReader, physical_fragment, PhysicalFragment, decode_physical}
use modern_level_db.Wal.Reader.Stream.{SequentialFile, begin_block, fill_block, physical_in_block}
use modern_level_db.Wal.Reader.Stream.Filling.{IsSequential, IsFilled, fill_block_lem}
use modern_level_db.Wal.Reader.Stream.Position.{At, behind, in_block}

-- What a physical read leaves alone: the partial record.
pub record Keeps (reader reader' : WalReader) : Type 0 where
  pub scratch : reader'.scratch ≡ reader.scratch
  pub offset : reader'.partial_record_offset ≡ reader.partial_record_offset
  pub partial : reader'.in_fragmented_record ≡ reader.in_fragmented_record

module _ {S : Type 0} (ops : SequentialFile S) (unread : S → List ℕ)
    (laws : IsSequential ops unread) (log : List ℕ) where
  -- The reader after the next block was read.
  pub record Refilled (p : ℕ) (file : S) (reader : WalReader) (file' : S) (reader' : WalReader)
      : Type 0 where
    pub run :
        fill_block ops file reader ≡ some (ok (not (length reader'.block == 0)), file', reader')
    pub there : At unread log p file' reader'
    pub front : reader'.block_position ≡ 0
    pub keeps : Keeps reader reader'
    pub full_or_last : (length reader'.block ≡ wal_block_size) ⊎ (unread file' ≡ [])

  refilled-At :
      (p : ℕ) (file file' : S) (reader reader' : WalReader)
      → At unread log p file reader
      → reader.block_position ≡ length reader.block
      → reader.eof_seen ≡ false
      → IsFilled ops unread laws file (begin_block reader) file' reader'
      → At unread log p file' reader' × (reader'.block_position ≡ 0) × Keeps reader reader'
  unfolding begin_block
  refilled-At p file file' reader reader' here used unseen filled =
      let next = reader.block_start_offset + length reader.block in
      let start' : reader'.block_start_offset ≡ next =
        ap WalReader.block_start_offset filled.rest in
      let position' : reader'.block_position ≡ 0 = ap WalReader.block_position filled.rest in
      let left : unread file ≡ drop next log =
        sym (drop-append (length reader.block) reader.block (unread file) refl)
        ∙ ap (drop (length reader.block)) here.whole
        ∙ drop-drop (length reader.block) reader.block_start_offset log in
      let aligned : next % wal_block_size ≡ 0 = elim here.more [
        | inl (_, inl h) ↦ omega (arith, here.start)
        | inl (_, inr h) ↦ omega (arith, here.start)
        | inr (seen, _) ↦ absurd (cc)
      ] in
      (
        record {
          start = omega (arith, aligned, start');
          whole = filled.whole ∙ left ∙ ap (λ (k : ℕ). drop k log) (sym start');
          place = omega (arith, here.place);
          inside = omega arith;
          room = filled.room;
          more = elim filled.more [
            | inl (e, full) ↦ inl (e ∙ unseen, inr full)
            | inr over ↦ inr over
          ];
        },
        position',
        record {
          scratch = ap WalReader.scratch filled.rest;
          offset = ap WalReader.partial_record_offset filled.rest;
          partial = ap WalReader.in_fragmented_record filled.rest;
        },
      )

  pub refill :
      (p : ℕ) (file : S) (reader : WalReader)
      → At unread log p file reader
      → reader.block_position ≡ length reader.block
      → reader.eof_seen ≡ false
      → (file' : S) × (reader' : WalReader) × Refilled p file reader file' reader'
  refill p file reader here used unseen =
      let (file', reader', run, filled) = fill_block_lem ops unread laws file reader unseen in
      let (there, front, keeps) = refilled-At p file file' reader reader' here used unseen filled in
      (
        file',
        reader',
        record {
          run = run;
          there = there;
          front = front;
          keeps = keeps;
          full_or_last = elim filled.more [ inl (_, full) ↦ inl full | inr (_, over) ↦ inr over ];
        },
      )

  module _ (c : Crc) where
    -- A fragment at the position `p`, with what the log has behind it.
    pub record Stands (p type : ℕ) (header payload rest : List ℕ) : Type 0 where
      pub bytes : drop p log ≡ header ++ (payload ++ rest)
      pub header_lem : header ≡ encode_header c type payload (crc32c c (type ∷ []))
      pub fits : p % wal_block_size + 7 + length payload ≤ wal_block_size
      pub known : is_fragment_type type ≡ true

    module _ (p type : ℕ) (header payload rest : List ℕ)
        (stands : Stands p type header payload rest) where
      length-header : length header ≡ 7
      length-header =
          ap length stands.header_lem ∙ length-encode_header c type payload (crc32c c (type ∷ []))

      abbrev pub found : ℕ → PhysicalFragment
      found position = record {
        type = type;
        payload = payload;
        offset = p;
        block_position = position;
      }

      abbrev pub advanced : WalReader → WalReader
      advanced reader = record reader {
        block_position = reader.block_position + (7 + length payload);
      }

      pub some_left : 0 < length (drop p log)
      some_left =
          let size = ap length stands.bytes in
          omega (arith, length-append header (payload ++ rest), length-header)

      decoded_here :
          (file : S) (reader : WalReader)
          → At unread log p file reader
          → reader.block_position < length reader.block
          → (decode_wal_fragment c (drop reader.block_position reader.block) true
              ≡ decoded (record {
                kind = fragment;
                type = type;
                payload = payload;
                encoded_size = 7 + length payload;
              }))
            × (7 + length payload ≤ length (drop reader.block_position reader.block))
      decoded_here file reader here open_part =
          let bytes = header ++ payload in
          let size : length bytes ≡ 7 + length payload =
            omega (arith, length-append header payload, length-header) in
          let split : drop p log ≡ bytes ++ rest =
            stands.bytes ∙ sym (append_assoc header payload rest) in
          let fits : p % wal_block_size + length bytes ≤ wal_block_size =
            omega (arith, stands.fits) in
          let read = in_block unread log p file reader here bytes rest open_part split fits in
          let tail = drop (length bytes) (drop reader.block_position reader.block) in
          let same : drop reader.block_position reader.block ≡ header ++ (payload ++ tail) =
            longer_front (drop reader.block_position reader.block) (unread file) bytes rest
              (behind unread log p file reader here ∙ split) read
            ∙ append_assoc header payload tail in
          let room : length payload ≤ maximum_wal_payload = omega (arith, stands.fits) in
          let written : header ++ (payload ++ tail)
              ≡ encode_header c type payload (crc32c c (type ∷ [])) ++ (payload ++ tail) =
            ap (λ l. l ++ (payload ++ tail)) stands.header_lem in
          (
            ap (λ l. decode_wal_fragment c l true) (same ∙ written)
                ∙ decode-encode_header c type payload tail room true stands.known,
            omega arith,
          )

      pub read_in_block :
          (file : S) (reader : WalReader)
          → At unread log p file reader
          → reader.block_position < length reader.block
          → (physical_in_block ops c reader
              ≡ (some (physical_fragment (found reader.block_position)), advanced reader))
            × At unread log (p + (7 + length payload)) file (advanced reader)
      unfolding physical_in_block decode_physical
      read_in_block file reader here open_part =
          let (e, read) = decoded_here file reader here open_part in
          let size = length-drop reader.block_position reader.block in
          let enough : ltb (length reader.block - reader.block_position) 7 ≡ false =
            le→ltb _ _ (omega arith) in
          let offset = here.place in
          (
            ground (arith, enough, e, offset),
            record {
              start = here.start;
              whole = here.whole;
              place = omega (arith, here.place);
              inside = omega arith;
              room = here.room;
              more = here.more;
            },
          )
