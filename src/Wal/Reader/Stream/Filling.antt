-- ===== src/Wal/Reader/Stream/Filling.antt =====
-- src/wal/wal_io.cc: `FillBlock` over a file that reads its bytes in order takes the next block.
use modern_level_db.Prelude.{
  ℕ, zero, suc, ◌+◌, ◌-◌, ◌≤◌, ◌<◌, ◌≡◌, ◌⊎◌, inl, inr, refl, ap, ◌∙◌, List, [], ◌∷◌, ◌++◌, some,
  true, false, not, ltb, ◌==◌, length, arith, append_assoc, length-append, le→ltb, Bool-cases,
}
use modern_level_db.Base.Error.{ok}
use modern_level_db.Format.WalFormat.{wal_block_size}
use modern_level_db.Wal.Reader.{WalReader}
use modern_level_db.Wal.Reader.Stream.{
  SequentialFile, begin_block, accept_block_chunk, read_block_chunk, fill_loop, fill_block,
}

-- One read of a file that does not fail: a part of what is left, empty only at the end.
pub record IsRead {S : Type 0} (ops : SequentialFile S) (unread : S → List ℕ) (file : S) (size : ℕ)
    : Type 0 where
  pub chunk : List ℕ
  pub next : S
  pub answer : ops.read file size ≡ (ok chunk, next)
  pub fits : length chunk ≤ size
  pub order : chunk ++ unread next ≡ unread file
  pub ended : (length chunk ≡ 0) → (0 < size) → unread file ≡ []

-- The reads of a file whose unread bytes are `unread` give them in order.
pub record IsSequential {S : Type 0} (ops : SequentialFile S) (unread : S → List ℕ) : Type 0 where
  pub read_lem : (file : S) (size : ℕ) → IsRead ops unread file size

module _ {S : Type 0} (ops : SequentialFile S) (unread : S → List ℕ)
    (laws : IsSequential ops unread) where
  -- After a fill: the block has the bytes that were next, and is full unless the file ended.
  pub record IsFilled (file : S) (reader : WalReader) (file' : S) (reader' : WalReader)
      : Type 0 where
    pub whole : reader'.block ++ unread file' ≡ reader.block ++ unread file
    pub room : length reader'.block ≤ wal_block_size
    pub more :
        ((reader'.eof_seen ≡ reader.eof_seen) × (length reader'.block ≡ wal_block_size))
        ⊎ ((reader'.eof_seen ≡ true) × (unread file' ≡ []))
    pub rest : reader' ≡ record reader { block = reader'.block; eof_seen = reader'.eof_seen }

  read_block_chunk_lem :
      (file : S) (reader : WalReader)
      → read_block_chunk ops file reader ≡ (
        ok (IsRead.chunk (laws.read_lem file (wal_block_size - length reader.block))),
        IsRead.next (laws.read_lem file (wal_block_size - length reader.block)),
      )
  unfolding read_block_chunk
  read_block_chunk_lem file reader =
      let r = laws.read_lem file (wal_block_size - length reader.block) in
      let fits : ltb (wal_block_size - length reader.block) (length r.chunk) ≡ false =
        le→ltb _ _ r.fits in
      ground (arith, r.answer, fits)

  fill_loop-full :
      (fuel : ℕ) (file : S) (reader : WalReader)
      → wal_block_size ≤ length reader.block
      → fill_loop ops (suc fuel) file reader ≡ some (ok tt, file, reader)
  unfolding fill_loop
  fill_loop-full fuel file reader h = ground arith

  fill_loop-end :
      (fuel : ℕ) (file file' : S) (reader : WalReader)
      → length reader.block < wal_block_size
      → read_block_chunk ops file reader ≡ (ok [], file')
      → fill_loop ops (suc fuel) file reader ≡ some (ok tt, file', accept_block_chunk reader [])
  unfolding fill_loop
  fill_loop-end fuel file file' reader h e = ground (arith, e)

  fill_loop-more :
      (fuel : ℕ) (file file' : S) (reader : WalReader) (byte : ℕ) (chunk : List ℕ)
      → length reader.block < wal_block_size
      → read_block_chunk ops file reader ≡ (ok (byte ∷ chunk), file')
      → fill_loop ops (suc fuel) file reader
        ≡ fill_loop ops fuel file' (accept_block_chunk reader (byte ∷ chunk))
  unfolding fill_loop
  fill_loop-more fuel file file' reader byte chunk h e = ground (arith, e)

  abbrev Fills : ℕ → S → WalReader → Type 0
  Fills fuel file reader =
      (file' : S) × (reader' : WalReader) × (fill_loop ops fuel file reader
        ≡ some (ok tt, file', reader'))
      × IsFilled file reader file' reader'

  fill-step :
      (fuel : ℕ) (file next : S) (reader : WalReader) (chunk : List ℕ)
      → length reader.block < wal_block_size
      → wal_block_size < suc fuel + length reader.block
      → read_block_chunk ops file reader ≡ (ok chunk, next)
      → length chunk ≤ wal_block_size - length reader.block
      → chunk ++ unread next ≡ unread file
      → ((length chunk ≡ 0) → (0 < wal_block_size - length reader.block) → unread file ≡ [])
      → ((r : WalReader)
          → length r.block ≤ wal_block_size
          → wal_block_size < fuel + length r.block
          → Fills fuel next r)
      → Fills (suc fuel) file reader
  fill-step fuel file next reader [] short h e fits order ended ih =
      let over : unread file ≡ [] = ended (omega arith) (omega arith) in
      (
        next,
        accept_block_chunk reader [],
        fill_loop-end fuel file next reader short e,
        unfold accept_block_chunk in
            record {
              whole = ap (λ l. reader.block ++ l) order;
              room = omega arith;
              more = inr (refl, order ∙ over);
              rest = refl;
            },
      )
  fill-step fuel file next reader (byte ∷ chunk) short h e fits order ended ih =
      let longer = length-append reader.block (byte ∷ chunk) in
      let (file', reader', run, filled) =
        ih (record reader { block = reader.block ++ (byte ∷ chunk) }) (omega arith) (omega arith) in
      (
        file',
        reader',
        fill_loop-more fuel file next reader byte chunk short e
            ∙ (unfold accept_block_chunk in run),
        record {
          whole =
              filled.whole
              ∙ append_assoc reader.block (byte ∷ chunk) (unread next)
              ∙ ap (λ l. reader.block ++ l) order;
          room = filled.room;
          more = filled.more;
          rest = filled.rest;
        },
      )

  fill_loop_lem :
      (fuel : ℕ) (file : S) (reader : WalReader)
      → length reader.block ≤ wal_block_size
      → wal_block_size < fuel + length reader.block
      → Fills fuel file reader
  fill_loop_lem zero file reader room h = absurd (omega arith)
  fill_loop_lem (suc fuel) file reader room h =
      elim (Bool-cases (ltb (length reader.block) wal_block_size)) [
        | inr full ↦
            let size : wal_block_size ≤ length reader.block = ground arith in
            (
              file,
              reader,
              fill_loop-full fuel file reader size,
              record { whole = refl; room = room; more = inl (refl, omega arith); rest = refl },
            )
        | inl short ↦
            let r = laws.read_lem file (wal_block_size - length reader.block) in
            let small : length reader.block < wal_block_size = ground arith in
            fill-step fuel file r.next reader r.chunk small h (read_block_chunk_lem file reader)
              r.fits r.order r.ended (fill_loop_lem fuel r.next)
      ]

  fill_block-run :
      (file file' : S) (reader reader' : WalReader)
      → reader.eof_seen ≡ false
      → fill_loop ops (wal_block_size + 1) file (begin_block reader) ≡ some (ok tt, file', reader')
      → fill_block ops file reader ≡ some (ok (not (length reader'.block == 0)), file', reader')
  unfolding fill_block
  fill_block-run file file' reader reader' unseen e = ground (arith, e)

  -- A block that was used up is replaced by the next one, while the end was not seen.
  pub fill_block_lem :
      (file : S) (reader : WalReader)
      → reader.eof_seen ≡ false
      → (file' : S) × (reader' : WalReader) × (fill_block ops file reader
          ≡ some (ok (not (length reader'.block == 0)), file', reader'))
        × IsFilled file (begin_block reader) file' reader'
  fill_block_lem file reader unseen =
      let empty : length (WalReader.block (begin_block reader)) ≡ 0 = unfold begin_block in refl in
      let (file', reader', run, filled) =
        fill_loop_lem (wal_block_size + 1) file (begin_block reader) (omega arith) (omega arith) in
      (file', reader', fill_block-run file file' reader reader' unseen run, filled)
