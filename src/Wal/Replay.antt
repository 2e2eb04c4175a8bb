-- ===== src/Wal/Replay.antt =====
-- src/wal/wal_io.cc: `WalWriter` and `WalReader` together: a log that was written is read back.
pub mod Reading
use mathlib.Core.Path.{subst}
use modern_level_db.Prelude.{
  ℕ, zero, suc, ◌+◌, ◌%◌, ◌≤◌, ◌<◌, ◌≡◌, refl, sym, ap, ◌∙◌, List, [], ◌∷◌, ◌++◌, Option, none,
  some, false, length, replicate, arith, append_assoc, append-nil,
}
use modern_level_db.Base.Error.{Status, Error, Result, ok, err}
use modern_level_db.Base.Crc32c.{Crc}
use modern_level_db.Format.WalFormat.{wal_block_size}
use modern_level_db.Wal.Writer.{WritableFile, WalWriter, new_writer, add_record}
use modern_level_db.Wal.Writer.Appends.{IsAppending}
use modern_level_db.Wal.Writer.Adds.{
  IsAligned, new_writer-IsAligned, Added, added, add_failed, add_record_lem,
}
use modern_level_db.Wal.Writer.Alignment.{Added-IsAligned}
use modern_level_db.Wal.Reader.Stream.{SequentialFile, open_stream, new_reader}
use modern_level_db.Wal.Reader.Stream.Filling.{IsSequential}
use modern_level_db.Wal.Reader.Stream.Position.{At-new}
use modern_level_db.Wal.Reader.Stream.Records.{record_bytes}
use modern_level_db.Wal.Replay.Reading.{Log, no_records, record_then, Replays, replay}

-- A caller that adds records until one fails.
abbrev pub write_all :
    {S : Type 0}
    → WritableFile S
    → Crc
    → WalWriter S
    → List (List ℕ)
    → Option (Status × WalWriter S)
write_all ops c writer [] = some (ok tt, writer)
write_all ops c writer (whole ∷ records) = elim (add_record ops c writer whole) [
  | none ↦ none
  | some (err e, writer') ↦ some (err e, writer')
  | some (ok _, writer') ↦ write_all ops c writer' records
]

module _ {S : Type 0} (ops : WritableFile S) (contents : S → List ℕ)
    (laws : IsAppending ops contents) (c : Crc) where
  -- The padding of a reopened block, which goes in front of the first record.
  abbrev padding_due : WalWriter S → List (List ℕ) → List ℕ
  padding_due writer [] = []
  padding_due writer (whole ∷ records) = replicate writer.reopen_padding 0

  none_due :
      (writer : WalWriter S) (records : List (List ℕ))
      → writer.reopen_padding ≡ 0
      → contents writer.file ++ padding_due writer records ≡ contents writer.file
  none_due writer [] h = append-nil (contents writer.file)
  none_due writer (whole ∷ records) h =
      ap (λ (k : ℕ). contents writer.file ++ replicate k zero) h ∙ append-nil (contents writer.file)

  -- Behind what the file had, there is the log of the records.
  pub record Wrote (writer : WalWriter S) (records : List (List ℕ)) (writer' : WalWriter S)
      : Type 0 where
    pub bytes : List ℕ
    pub log : Log c writer.block_offset records bytes
    pub grown :
        contents writer'.file ≡ (contents writer.file ++ padding_due writer records) ++ bytes

  pub data WriteAnswers (writer : WalWriter S) (records : List (List ℕ)) : Type 0 where
    all_written :
        (writer' : WalWriter S)
        → write_all ops c writer records ≡ some (ok tt, writer')
        → Wrote writer records writer'
        → WriteAnswers writer records
    stopped :
        (e : Error) (writer' : WalWriter S)
        → write_all ops c writer records ≡ some (err e, writer')
        → WriteAnswers writer records

  first_written :
      (writer writer' : WalWriter S) (whole : List ℕ) (records : List (List ℕ))
      → add_record ops c writer whole ≡ some (ok tt, writer')
      → write_all ops c writer (whole ∷ records) ≡ write_all ops c writer' records
  first_written writer writer' whole records h = ground (arith, h)

  first_failed :
      (writer writer' : WalWriter S) (whole : List ℕ) (records : List (List ℕ)) (e : Error)
      → add_record ops c writer whole ≡ some (err e, writer')
      → write_all ops c writer (whole ∷ records) ≡ some (err e, writer')
  first_failed writer writer' whole records e h = ground (arith, h)

  Wrote-more :
      {writer next writer' : WalWriter S} {whole : List ℕ} {records : List (List ℕ)}
      → Added ops contents laws c writer whole next
      → Wrote next records writer'
      → Wrote writer (whole ∷ records) writer'
  Wrote-more {writer} {next} {writer'} {whole} {records} here later =
      let fs = here.fragments_of_it in
      let log = subst (λ (k : ℕ). Log c k records later.bytes) here.offset later.log in
      record {
        bytes = record_bytes fs ++ later.bytes;
        log = record_then here.in_blocks log;
        grown =
            later.grown
            ∙ ap (λ l. l ++ later.bytes) (none_due next records here.reopened ∙ here.grown)
            ∙ append_assoc (contents writer.file ++ replicate writer.reopen_padding zero)
                (record_bytes fs) later.bytes;
      }

  -- Adding records one after the other, by a writer whose block offset is the place of the next
  -- fragment, as that of a new or reopened file is, always answers: with an error, or with ok, and
  -- then the file has grown by the padding of a reopened block, in front of the first record, and
  -- by the log of exactly these records.
  pub write_all_lem :
      (writer : WalWriter S) (records : List (List ℕ))
      → IsAligned ops contents writer
      → WriteAnswers writer records
  write_all_lem writer [] aligned = all_written writer refl (record {
    bytes = [];
    log = no_records;
    grown = sym (append-nil (contents writer.file ++ []) ∙ append-nil (contents writer.file));
  })
  write_all_lem writer (whole ∷ records) aligned =
      elim (add_record_lem ops contents laws c writer whole aligned.below) [
        | add_failed e writer' h ↦ stopped e writer' (first_failed writer writer' whole records e h)
        | added next h here ↦
            elim (write_all_lem next records
              (Added-IsAligned ops contents laws c writer next whole aligned here)) [
                | stopped e writer' later ↦
                    stopped e writer' (first_written writer next whole records h ∙ later)
                | all_written writer' later wrote ↦
                    all_written writer' (first_written writer next whole records h ∙ later)
                      (Wrote-more here wrote)
              ]
      ]

  written-Log :
      (writer writer' : WalWriter S) (records : List (List ℕ))
      → IsAligned ops contents writer
      → write_all ops c writer records ≡ some (ok tt, writer')
      → Wrote writer records writer'
  written-Log writer writer' records aligned run = elim (write_all_lem writer records aligned) [
    | stopped e other h ↦ absurd (cc)
    | all_written other h wrote ↦
        let same : other ≡ writer' = cc in subst (λ w. Wrote writer records w) same wrote
  ]

-- Records added one after the other to a new log, every call answered ok, are what the calls of
-- `ReadNext` answer over a file that gives the bytes of the log in order, in reads of any size:
-- each record whole, in order, and then the end. The writable file appends what it answers ok to,
-- and the fuel is above the length of the log.
pub replay-write_all :
    {S R : Type 0} (files : WritableFile S) (contents : S → List ℕ)
    (appending : IsAppending files contents) (sources : SequentialFile R) (unread : R → List ℕ)
    (sequential : IsSequential sources unread) (c : Crc) (file : S) (writer : WalWriter S)
    (source : R) (records : List (List ℕ)) (fuel : ℕ)
    → contents file ≡ []
    → write_all files c (new_writer file 0) records ≡ some (ok tt, writer)
    → unread source ≡ contents writer.file
    → length (contents writer.file) < fuel
    → Replays sources c fuel (open_stream (some source)) records
unfolding new_writer open_stream
replay-write_all files contents appending sources unread sequential c file writer source records
      fuel empty run same enough =
    let start : IsAligned files contents (new_writer file 0) =
      subst (λ (k : ℕ). IsAligned files contents (new_writer file k)) (ap length empty)
        (new_writer-IsAligned files contents file) in
    let wrote =
      written-Log files contents appending c (new_writer file 0) writer records start run in
    let log = contents writer.file in
    let all : log ≡ wrote.bytes =
      wrote.grown
      ∙ ap (λ l. l ++ wrote.bytes)
          (none_due files contents appending c (new_writer file 0) records refl ∙ empty) in
    let size = ap length all in
    replay sources c unread sequential log wrote.log 0 fuel source new_reader refl all (omega arith)
      (At-new unread log source same) refl
