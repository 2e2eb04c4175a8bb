-- ===== src/Wal/Reader/Stream/Rounds.antt =====
-- src/wal/wal_io.cc: the rounds of `ReadPhysical`, case by case.
use modern_level_db.Prelude.{
  ℕ, suc, ◌-◌, ◌<◌, ◌≡◌, ◌∙◌, none, some, true, false, not, ◌==◌, length, arith,
}
use modern_level_db.Base.Error.{ok}
use modern_level_db.Base.Crc32c.{Crc}
use modern_level_db.Wal.Reader.{WalReader, PhysicalRead}
use modern_level_db.Wal.Reader.Stream.{
  SequentialFile, fill_block, filled_block, physical_in_block, read_physical,
}
use modern_level_db.Wal.Reader.Stream.{filled_block}
use modern_level_db.Wal.Reader.Stream.Physical.{Keeps}

pub not-zero : (n : ℕ) → 0 < n → not (n == 0) ≡ true
not-zero n h = ground arith

module _ {S : Type 0} (ops : SequentialFile S) where
  pub filled-open :
      (file : S) (reader : WalReader)
      → reader.block_position < length reader.block
      → filled_block ops file reader ≡ some (ok true, file, reader)
  unfolding filled_block
  filled-open file reader h = ground arith

  pub filled-used :
      (file : S) (reader : WalReader)
      → reader.block_position ≡ length reader.block
      → filled_block ops file reader ≡ fill_block ops file reader
  unfolding filled_block
  filled-used file reader h = ground arith

  pub fill-ended :
      (file : S) (reader : WalReader)
      → reader.eof_seen ≡ true
      → fill_block ops file reader ≡ some (ok false, file, reader)
  unfolding fill_block
  fill-ended file reader h = rw h

  module _ (c : Crc) (fuel : ℕ) (file file' : S) (reader reader' : WalReader) where
    pub read-step :
        (read : PhysicalRead) (reader'' : WalReader)
        → filled_block ops file reader ≡ some (ok true, file', reader')
        → physical_in_block ops c reader' ≡ (some read, reader'')
        → read_physical ops c (suc fuel) file reader ≡ some (ok (some read), file', reader'')
    unfolding read_physical
    read-step read reader'' f e = ground (arith, f, e)

    pub again-step :
        (reader'' : WalReader)
        → filled_block ops file reader ≡ some (ok true, file', reader')
        → physical_in_block ops c reader' ≡ (none, reader'')
        → read_physical ops c (suc fuel) file reader ≡ read_physical ops c fuel file' reader''
    unfolding read_physical
    again-step reader'' f e = ground (arith, f, e)

    pub end-step :
        filled_block ops file reader ≡ some (ok false, file', reader')
        → read_physical ops c (suc fuel) file reader ≡ some (ok none, file', reader')
    unfolding read_physical
    end-step f = ground (arith, f)

  -- Fewer bytes than a header are passed over.
  pub short-tail :
      (c : Crc) (reader : WalReader)
      → length reader.block - reader.block_position < 7
      → physical_in_block ops c reader
        ≡ (none, record reader { block_position = length reader.block })
  unfolding physical_in_block
  short-tail c reader h = ground arith

pub Keeps-trans :
    {reader reader' reader'' : WalReader}
    → Keeps reader reader'
    → Keeps reader' reader''
    → Keeps reader reader''
Keeps-trans {reader} {reader'} {reader''} a b = record {
  scratch = b.scratch ∙ a.scratch;
  offset = b.offset ∙ a.offset;
  partial = b.partial ∙ a.partial;
}
