-- ===== src/Wal/Reader/Stream/Records.antt =====
-- src/wal/wal_io.cc: `ReadNext` over the fragments of a record, from the file that holds them.
use modern_level_db.Prelude.{
  ℕ, zero, suc, ◌+◌, ◌%◌, ◌≡◌, ◌⊎◌, inl, inr, sym, ap, ◌∙◌, List, [], ◌∷◌, ◌++◌, none, some, false,
  length, drop, replicate, arith, append_assoc, length-append, drop-append, drop-drop,
  length-replicate,
}
use modern_level_db.Base.Error.{ok}
use modern_level_db.Base.Crc32c.{Crc, crc32c}
use modern_level_db.Format.WalFormat.{WalFragment, wal_block_size, select_fragment_type}
use modern_level_db.Format.WalFormat.Cursor.{Cursor, fragment_bytes}
use modern_level_db.Format.WalFormat.Places.{IsPlaced, length-encode_header}
use modern_level_db.Wal.Reader.{
  WalReader, WalReadEvent, logical_record, physical_fragment, PhysicalFragment, consume_fragment,
}
use modern_level_db.Wal.Reader.Assembly.{select-is_fragment_type}
use modern_level_db.Wal.Reader.Stream.{SequentialFile, read_physical, consume_physical, next_event}
use modern_level_db.Wal.Reader.Stream.Filling.{IsSequential}
use modern_level_db.Wal.Reader.Stream.Position.{At}
use modern_level_db.Wal.Reader.Stream.Physical.{Stands}
use modern_level_db.Wal.Reader.Stream.Arrival.{Arrived, read_padded}

-- The bytes that the writer appends for the fragments of a record.
abbrev pub record_bytes : List WalFragment → List ℕ
record_bytes [] = []
record_bytes (f ∷ fs) = fragment_bytes f ++ record_bytes fs

module _ {S : Type 0} (ops : SequentialFile S) (c : Crc) (physical fuel : ℕ) (file file' : S)
    (reader reader' reader'' : WalReader) (f : PhysicalFragment) where
  pub event-step :
      (e : WalReadEvent)
      → read_physical ops c physical file reader
        ≡ some (ok (some (physical_fragment f)), file', reader')
      → consume_fragment reader' f ≡ (some e, reader'')
      → next_event ops c physical (suc fuel) file reader ≡ some (ok (some e), file', reader'')
  unfolding next_event consume_physical
  event-step e r h = ground (arith, r, h)

  pub none-step :
      read_physical ops c physical file reader
        ≡ some (ok (some (physical_fragment f)), file', reader')
      → consume_fragment reader' f ≡ (none, reader'')
      → next_event ops c physical (suc fuel) file reader
        ≡ next_event ops c physical fuel file' reader''
  unfolding next_event consume_physical
  none-step r h = ground (arith, r, h)

module _ {S : Type 0} (ops : SequentialFile S) (unread : S → List ℕ)
    (laws : IsSequential ops unread) (log : List ℕ) (c : Crc) where
  -- A record was delivered whole, and the reader stands in front of `rest`.
  pub record Delivered (fuel : ℕ) (file : S) (reader : WalReader) (whole rest : List ℕ)
      (offset block_offset : ℕ) : Type 0 where
    pub file' : S
    pub reader' : WalReader
    pub place : ℕ
    pub run :
        next_event ops c 2 fuel file reader
        ≡ some (ok (some (logical_record whole offset)), file', reader')
    pub there : At unread log place file' reader'
    pub idle : reader'.in_fragmented_record ≡ false
    pub left : drop place log ≡ rest
    pub aligned : place % wal_block_size ≡ block_offset

  module _ (p : ℕ) (before after : Cursor) (f : WalFragment) (rest : List ℕ)
      (place : IsPlaced c before f after) (aligned : p % wal_block_size ≡ before.block_offset)
      (written : drop p log ≡ fragment_bytes f ++ rest) where
    abbrev pub start : ℕ
    start = p + f.padding_before

    abbrev pub type : ℕ
    type = select_fragment_type before.begin after.done

    split : drop start log ≡ f.header ++ (f.payload ++ rest)
    split =
        let padding = length-replicate f.padding_before zero in
        sym (drop-drop f.padding_before p log)
        ∙ ap (drop f.padding_before)
            (written ∙ append_assoc (replicate f.padding_before zero) (f.header ++ f.payload) rest)
        ∙ drop-append f.padding_before (replicate f.padding_before zero)
            ((f.header ++ f.payload) ++ rest) (sym padding)
        ∙ append_assoc f.header f.payload rest

    pub stands : Stands ops unread laws log c start type f.header f.payload rest
    stands = record {
      bytes = split;
      header_lem = place.header;
      fits = omega (arith, place.inside);
      known = select-is_fragment_type before.begin after.done;
    }

    pub behind_it : drop (start + (7 + length f.payload)) log ≡ rest
    behind_it =
        let n = 7 + length f.payload in
        let header =
          ap length place.header ∙ length-encode_header c type f.payload (crc32c c (type ∷ [])) in
        sym (drop-drop n start log)
        ∙ ap (drop n) (split ∙ sym (append_assoc f.header f.payload rest))
        ∙ drop-append n (f.header ++ f.payload) rest
            (omega (arith, header, length-append f.header f.payload))

    pub next_aligned : (start + (7 + length f.payload)) % wal_block_size ≡ after.block_offset
    next_aligned = omega (arith, place.offset)

    pub arrive :
        (file : S) (reader : WalReader)
        → At unread log p file reader
        → Arrived ops unread laws log c start type f.header f.payload rest stands 2 file reader
    arrive file reader here =
        let edge : (f.padding_before ≡ 0)
            ⊎ (p % wal_block_size + f.padding_before ≡ wal_block_size) =
          elim place.boundary [
            | inl none_needed ↦ inl none_needed
            | inr filled ↦ inr (omega (arith, aligned))
          ] in
        read_padded ops unread laws log c p f.padding_before type 0 f.header f.payload rest stands
          file reader edge place.padding_lt here
