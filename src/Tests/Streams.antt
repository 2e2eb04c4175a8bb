-- ===== src/Tests/Streams.antt =====
-- src/wal/wal_io.cc on concrete inputs: files that are their bytes.
use modern_level_db.Prelude.{
  ℕ, ◌+◌, zero, suc, ◌<◌, ◌≡◌, refl, sym, ap, List, [], ◌∷◌, ◌++◌, none, some, length, take, drop,
  arith, length-take, take-append-drop,
}
use modern_level_db.Base.Error
use modern_level_db.Base.Error.{ok, err}
use modern_level_db.Wal.Writer.{
  WritableFile, WalWriter, new_writer, add_record, pad_reopened_block, write_fragments,
  write_fragment, unless_failed, append_unless_zero, append_unless_empty,
}
use modern_level_db.Format.WalFormat.{build_wal_fragment}
use modern_level_db.Format.WalFormat.Cursor.{next, take_padding, next_fragment}
use modern_level_db.Wal.Writer.Appends.{IsAppending}
use modern_level_db.Wal.Writer.Adds.{new_writer-IsAligned}
use modern_level_db.Wal.Reader.Stream.Terminal.{read_next-failed}
use modern_level_db.Wal.Reader.Stream.{
  SequentialFile, WalStream, open_stream, new_reader, read_next, next_event, read_physical,
  filled_block, fill_block, fill_loop, read_block_chunk, begin_block,
}
use modern_level_db.Wal.Reader.Stream.Filling.{IsSequential}
use modern_level_db.Wal.Replay.{write_all, write_all_lem, WriteAnswers, replay-write_all}
use modern_level_db.Wal.Replay.Reading.{Replays}
use modern_level_db.Tests.Logs.{counting}

abbrev appended : WritableFile (List ℕ)
appended = record {
  append = λ file bytes. (ok tt, file ++ bytes);
  flush = λ file. (ok tt, file);
  sync = λ file. (ok tt, file);
  close = λ file. (ok tt, file);
}

abbrev contents : List ℕ → List ℕ
contents file = file

appended-IsAppending : IsAppending appended contents
appended-IsAppending = record {
  append_lem = λ file file' bytes e. sym (ap (λ t. t.1) e);
  flush_lem = λ file file' e. sym (ap (λ t. t.1) e);
}

abbrev source : SequentialFile (List ℕ)
source = record { read = λ file size. (ok (take size file), drop size file) }

source-IsSequential : IsSequential source contents
source-IsSequential = record {
  read_lem = λ file size. record {
    chunk = take size file;
    next = drop size file;
    answer = refl;
    fits = omega (arith, length-take size file);
    order = take-append-drop size file;
    ended = λ none_read some_room. ended file size none_read some_room;
  };
}
  where
    ended : (file : List ℕ) (size : ℕ) → length (take size file) ≡ 0 → 0 < size → file ≡ []
    ended [] size none_read some_room = refl
    ended (b ∷ file) zero none_read some_room = absurd (omega arith)
    ended (b ∷ file) (suc size) none_read some_room = absurd (omega arith)

abbrev records : List (List ℕ)
records = (5 ∷ 6 ∷ []) ∷ [] ∷ (7 ∷ []) ∷ []

write_all_lem_example :
    WriteAnswers appended contents appended-IsAppending counting (new_writer (9 ∷ []) 1) records
write_all_lem_example =
    write_all_lem appended contents appended-IsAppending counting (new_writer (9 ∷ []) 1) records
      (new_writer-IsAligned appended contents (9 ∷ []))

abbrev written : WalWriter (List ℕ)
written = elim (write_all appended counting (new_writer [] 0) records) [
  | some (_, writer) ↦ writer
  | none ↦ new_writer [] 0
]

records-written : write_all appended counting (new_writer [] 0) records ≡ some (ok tt, written)
unfolding new_writer add_record pad_reopened_block write_fragments write_fragment unless_failed
    append_unless_zero append_unless_empty next take_padding next_fragment build_wal_fragment
records-written = refl

replay-write_all_example :
    Replays source counting (length written.file + 1) (open_stream (some written.file)) records
replay-write_all_example =
    replay-write_all appended contents appended-IsAppending source contents source-IsSequential
      counting [] written written.file records (length written.file + 1) refl records-written refl
      (omega arith)

abbrev broken : SequentialFile (List ℕ)
broken = record { read = λ file size. (err (Error.io "disk"), file) }

abbrev failed : WalStream (List ℕ)
failed = record { file = some []; reader = new_reader; terminal_error = some (Error.io "disk") }

first-failed :
    read_next broken counting 2 5 (open_stream (some [])) ≡ some (err (Error.io "disk"), failed)
unfolding read_next open_stream next_event read_physical filled_block fill_block fill_loop
    read_block_chunk begin_block
first-failed = refl

read_next-failed_example :
    read_next broken counting 9 4 failed ≡ some (err (Error.io "disk"), failed)
read_next-failed_example =
    read_next-failed broken counting 2 5 (open_stream (some [])) failed (Error.io "disk")
      first-failed 9 4
