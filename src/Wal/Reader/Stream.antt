-- ===== src/Wal/Reader/Stream.antt =====
-- src/wal/wal_io.h and src/wal/wal_io.cc: `WalReader` over its file: filling a block, the next physical
-- fragment, and the next event. The file is a parameter: `Read` into a buffer of a size.
pub mod Fragments
pub mod Rounds
pub mod Filling
pub mod Position
pub mod Terminal
pub mod Physical
pub mod Arrival
pub mod Records
pub mod Deliveries
use modern_level_db.Prelude.{
  ℕ, zero, suc, ◌+◌, ◌-◌, List, [], ◌∷◌, ◌++◌, Option, none, some, Bool, true, false, not, ltb, leb,
  ◌==◌, length,
}
use modern_level_db.Base.Error
use modern_level_db.Base.Error.{Error, Result, ok, err}
use modern_level_db.Base.Crc32c.{Crc}
use modern_level_db.Format.WalFormat.{wal_block_size, wal_header_size}
use modern_level_db.Wal.Reader.{
  WalReader, WalReadEvent, PhysicalRead, physical_fragment, physical_corruption, clear_partial,
  consume_corruption, consume_fragment, decode_physical,
}

pub record SequentialFile (S : Type 0) : Type 0 where
  pub read : S → ℕ → Result (List ℕ) × S

pub record WalStream (S : Type 0) : Type 0 where
  pub file : Option S
  pub reader : WalReader
  pub terminal_error : Option Error

abbrev pub new_reader : WalReader
new_reader = record {
  block = [];
  block_position = 0;
  block_start_offset = 0;
  scratch = [];
  partial_record_offset = 0;
  eof_seen = false;
  in_fragmented_record = false;
}

-- The constructor; `none` is a null pointer.
unfoldable pub open_stream : {S : Type 0} → Option S → WalStream S
open_stream none = record {
  file = none;
  reader = new_reader;
  terminal_error = some (Error.invalid_argument "WAL reader requires a file");
}
open_stream (some file) = record { file = some file; reader = new_reader; terminal_error = none }

unfoldable pub begin_block : WalReader → WalReader
begin_block reader = record reader {
  block_start_offset = reader.block_start_offset + length reader.block;
  block = [];
  block_position = 0;
}

unfoldable pub accept_block_chunk : WalReader → List ℕ → WalReader
accept_block_chunk reader [] = record reader { eof_seen = true }
accept_block_chunk reader (byte ∷ chunk) = record reader { block = reader.block ++ (byte ∷ chunk) }

module _ {S : Type 0} (ops : SequentialFile S) where
  unfoldable pub read_block_chunk : S → WalReader → Result (List ℕ) × S
  read_block_chunk file reader =
      let output_size = wal_block_size - length reader.block in
      let (read, file') = ops.read file output_size in
      elim read [
        | err e ↦ (err e, file')
        | ok chunk ↦ elim (ltb output_size (length chunk)) [
          | true ↦ (err (Error.io "sequential file returned an oversized WAL read"), file')
          | false ↦ (ok chunk, file')
        ]
      ]

  -- The loop of `FillBlock`; `none` is out of fuel.
  unfoldable pub fill_loop : ℕ → S → WalReader → Option (Result (Unit {0}) × S × WalReader)
  fill_loop zero file reader = none
  fill_loop (suc fuel) file reader = elim (ltb (length reader.block) wal_block_size) [
    | false ↦ some (ok tt, file, reader)
    | true ↦
        let (read, file') = read_block_chunk file reader in
        elim read [
          | err e ↦ some (err e, file', reader)
          | ok [] ↦ some (ok tt, file', accept_block_chunk reader [])
          | ok (byte ∷ chunk) ↦ fill_loop fuel file' (accept_block_chunk reader (byte ∷ chunk))
        ]
  ]

  -- A round for each byte of the block, and one for the end.
  unfoldable pub fill_block : S → WalReader → Option (Result Bool × S × WalReader)
  fill_block file reader = elim reader.eof_seen [
    | true ↦ some (ok false, file, reader)
    | false ↦ elim (fill_loop (wal_block_size + 1) file (begin_block reader)) [
      | none ↦ none
      | some (err e, file', reader') ↦ some (err e, file', reader')
      | some (ok _, file', reader') ↦ some (ok (not (length reader'.block == 0)), file', reader')
    ]
  ]

  -- The start of a round: a block that is used up is filled again.
  unfoldable pub filled_block : S → WalReader → Option (Result Bool × S × WalReader)
  filled_block file reader = elim (reader.block_position == length reader.block) [
    | true ↦ fill_block file reader
    | false ↦ some (ok true, file, reader)
  ]

  module _ (c : Crc) where
    -- The rest of a round, on a block with bytes left; no answer is another round.
    unfoldable pub physical_in_block : WalReader → Option PhysicalRead × WalReader
    physical_in_block reader =
        let remaining = length reader.block - reader.block_position in
        elim (ltb remaining wal_header_size) [
          | true ↦ (none, record reader { block_position = length reader.block })
          | false ↦ decode_physical c reader reader.block_position remaining
        ]

    unfoldable pub read_physical :
        ℕ → S → WalReader → Option (Result (Option PhysicalRead) × S × WalReader)
    read_physical zero file reader = none
    read_physical (suc fuel) file reader = elim (filled_block file reader) [
      | none ↦ none
      | some (err e, file', reader') ↦ some (err e, file', reader')
      | some (ok false, file', reader') ↦ some (ok none, file', reader')
      | some (ok true, file', reader') ↦
          let (decoded, reader'') = physical_in_block reader' in
          elim decoded [
            | some read ↦ some (ok (some read), file', reader'')
            | none ↦ read_physical fuel file' reader''
          ]
    ]

    -- What a physical read is to the reader: an event, or nothing yet.
    unfoldable pub consume_physical : WalReader → PhysicalRead → Option WalReadEvent × WalReader
    consume_physical reader (physical_fragment fragment) = consume_fragment reader fragment
    consume_physical reader (physical_corruption error dropped_bytes offset) =
        let (event, reader') = consume_corruption reader error dropped_bytes offset in
        (some event, reader')

    -- `ReadNext` behind its first test, over the file and the reader; `physical` is the fuel of each
    -- physical read.
    unfoldable pub next_event :
        ℕ → ℕ → S → WalReader → Option (Result (Option WalReadEvent) × S × WalReader)
    next_event physical zero file reader = none
    next_event physical (suc fuel) file reader = elim (read_physical physical file reader) [
      | none ↦ none
      | some (err e, file', reader') ↦ some (err e, file', reader')
      | some (ok none, file', reader') ↦ some (ok none, file', clear_partial reader')
      | some (ok (some read), file', reader') ↦
          let (consumed, reader'') = consume_physical reader' read in
          elim consumed [
            | some event ↦ some (ok (some event), file', reader'')
            | none ↦ next_event physical fuel file' reader''
          ]
    ]

    -- A failure of the file is kept and answered from then on.
    unfoldable pub read_next :
        ℕ → ℕ → WalStream S → Option (Result (Option WalReadEvent) × WalStream S)
    read_next physical fuel stream = elim stream.terminal_error [
      | some e ↦ some (err e, stream)
      | none ↦ elim stream.file [
        | none ↦ none
        | some file ↦ elim (next_event physical fuel file stream.reader) [
          | none ↦ none
          | some (err e, file', reader') ↦
              some (err e, record { file = some file'; reader = reader'; terminal_error = some e })
          | some (ok event, file', reader') ↦
              some (ok event, record { file = some file'; reader = reader'; terminal_error = none })
        ]
      ]
    ]
