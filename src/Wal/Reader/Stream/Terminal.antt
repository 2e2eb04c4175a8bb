-- ===== src/Wal/Reader/Stream/Terminal.antt =====
-- src/wal/wal_io.cc: a failure of the file ends the reader.
use modern_level_db.Prelude.{ℕ, ◌≡◌, some, arith}
use modern_level_db.Base.Error.{Error, err}
use modern_level_db.Base.Crc32c.{Crc}
use modern_level_db.Wal.Reader.Stream.{SequentialFile, WalStream, read_next}

module _ {S : Type 0} (ops : SequentialFile S) (c : Crc) where
  kept_error :
      (physical fuel : ℕ) (stream : WalStream S) (e : Error)
      → stream.terminal_error ≡ some e
      → read_next ops c physical fuel stream ≡ some (err e, stream)
  unfolding read_next
  kept_error physical fuel stream e h = rw h

  failed-terminal :
      (physical fuel : ℕ) (stream stream' : WalStream S) (e : Error)
      → read_next ops c physical fuel stream ≡ some (err e, stream')
      → stream'.terminal_error ≡ some e
  unfolding read_next
  failed-terminal physical fuel stream stream' e h = ground (arith, h)

  -- Once a call of `ReadNext` fails, every later call answers the same error and leaves the file
  -- and the reader as they are.
  pub read_next-failed :
      (physical fuel : ℕ) (stream stream' : WalStream S) (e : Error)
      → read_next ops c physical fuel stream ≡ some (err e, stream')
      → (physical' fuel' : ℕ) → read_next ops c physical' fuel' stream' ≡ some (err e, stream')
  read_next-failed physical fuel stream stream' e h physical' fuel' =
      kept_error physical' fuel' stream' e (failed-terminal physical fuel stream stream' e h)
