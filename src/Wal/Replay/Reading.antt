-- ===== src/Wal/Replay/Reading.antt =====
-- src/wal/wal_io.cc: `ReadNext` over a whole log.
use modern_level_db.Prelude.{
  ℕ, zero, suc, ◌%◌, ◌≤◌, ◌<◌, ◌≡◌, ap, List, [], ◌∷◌, ◌++◌, Option, none, some, false, length,
  arith, length-append, length-drop, drop,
}
use modern_level_db.Base.Error.{ok}
use modern_level_db.Base.Crc32c.{Crc}
use modern_level_db.Format.WalFormat.{WalFragment, wal_block_size}
use modern_level_db.Format.WalFormat.Cursor.{Cursor, cursor_for}
use modern_level_db.Format.WalFormat.Blocks.{Placed}
use modern_level_db.Wal.Reader.Stream.Records.{record_bytes}
use modern_level_db.Wal.Writer.Alignment.{length-record_bytes}
use modern_level_db.Wal.Reader.{WalReader, WalReadEvent, logical_record, clear_partial}
use modern_level_db.Wal.Reader.Stream.{
  SequentialFile, WalStream, read_next, next_event, read_physical,
}
use modern_level_db.Wal.Reader.Stream.Filling.{IsSequential}
use modern_level_db.Wal.Reader.Stream.Position.{At}
use modern_level_db.Wal.Reader.Stream.Arrival.{read_end}
use modern_level_db.Wal.Reader.Stream.Deliveries.{next_event-Placed}

-- The bytes of a log from a block offset on: the fragments of its records, one record behind the
-- other.
pub data Log (c : Crc) : ℕ → List (List ℕ) → List ℕ → Type 0 where
  no_records : {block_offset : ℕ} → Log c block_offset [] []
  record_then :
      {block_offset : ℕ} {whole : List ℕ} {fs : List WalFragment} {last : Cursor}
      {records : List (List ℕ)} {bytes : List ℕ}
      → Placed c (cursor_for block_offset whole) fs last
      → Log c last.block_offset records bytes
      → Log c block_offset (whole ∷ records) (record_bytes fs ++ bytes)

-- The calls of `ReadNext` answer these records, one each and in order, and then the end.
pub data Replays {S : Type 0} (ops : SequentialFile S) (c : Crc) (fuel : ℕ)
    : WalStream S → List (List ℕ) → Type 0 where
  ended :
      {stream stream' : WalStream S}
      → read_next ops c 2 fuel stream ≡ some (ok none, stream')
      → Replays ops c fuel stream []
  replayed :
      {stream stream' : WalStream S} {whole : List ℕ} {offset : ℕ} {records : List (List ℕ)}
      → read_next ops c 2 fuel stream ≡ some (ok (some (logical_record whole offset)), stream')
      → Replays ops c fuel stream' records
      → Replays ops c fuel stream (whole ∷ records)

module _ {S : Type 0} (ops : SequentialFile S) (c : Crc) where
  abbrev pub streaming : S → WalReader → WalStream S
  streaming file reader = record { file = some file; reader = reader; terminal_error = none }

  read_next_lem :
      (physical fuel : ℕ) (file file' : S) (reader reader' : WalReader)
      (event : Option WalReadEvent)
      → next_event ops c physical fuel file reader ≡ some (ok event, file', reader')
      → read_next ops c physical fuel (streaming file reader)
        ≡ some (ok event, streaming file' reader')
  unfolding read_next
  read_next_lem physical fuel file file' reader reader' event h = ground (arith, h)

  ended_lem :
      (physical fuel : ℕ) (file file' : S) (reader reader' : WalReader)
      → read_physical ops c physical file reader ≡ some (ok none, file', reader')
      → next_event ops c physical (suc fuel) file reader
        ≡ some (ok none, file', clear_partial reader')
  unfolding next_event
  ended_lem physical fuel file file' reader reader' h = ground (arith, h)

  module _ (unread : S → List ℕ) (laws : IsSequential ops unread) (log : List ℕ) where
    -- From a place in the log where its next records start, they are answered one by one, and then the
    -- end.
    pub replay :
        {block_offset : ℕ} {records : List (List ℕ)} {bytes : List ℕ}
        → Log c block_offset records bytes
        → (p fuel : ℕ) (file : S) (reader : WalReader) → p % wal_block_size ≡ block_offset
        → drop p log ≡ bytes
        → length bytes < fuel
        → At unread log p file reader
        → reader.in_fragmented_record ≡ false
        → Replays ops c fuel (streaming file reader) records
    replay no_records p zero file reader aligned rest enough here idle = absurd (omega arith)
    replay no_records p (suc fuel) file reader aligned rest enough here idle =
        let size = ap length rest in
        let (file', reader', h) =
          read_end ops unread laws log c p 1 file reader (omega (arith, length-drop p log)) here in
        ended (
          read_next_lem 2 (suc fuel) file file' reader _ none
            (ended_lem 2 fuel file file' reader reader' h))
    replay (record_then {whole = whole} {fs = fs} {bytes = bytes} ps others) p fuel file reader
          aligned rest enough here idle =
        let sum = length-append (record_bytes fs) bytes in
        let few : length fs ≤ fuel = omega (arith, length-record_bytes ps) in
        let (offset, d) =
          next_event-Placed ops unread laws log c ps p fuel bytes file reader aligned rest few here
            idle in
        replayed
          (read_next_lem 2 fuel file d.file' reader d.reader' (some (logical_record whole offset))
            d.run)
          (replay others d.place fuel d.file' d.reader' d.aligned d.left (omega arith) d.there
            d.idle)
