-- ===== src/Wal/Writer.antt =====
-- src/wal/wal_io.h and src/wal/wal_io.cc: `WalWriter` over its file. The file is a parameter; the
-- fragmenter's block offset, which its cursors write, is a field of the writer.
pub mod Alignment
pub mod Appends
pub mod Adds
use modern_level_db.Prelude.{
  ℕ, zero, suc, ◌+◌, ◌-◌, ◌%◌, List, [], ◌∷◌, Option, none, some, Bool, true, false, not, ◌==◌,
  ◌||◌, if◌then◌else◌, length, replicate,
}
use modern_level_db.Base.Error.{Status, ok, err}
use modern_level_db.Base.Crc32c.{Crc}
use modern_level_db.Format.WalFormat.{WalFragment, wal_block_size}
use modern_level_db.Format.WalFormat.Cursor.{Cursor, cursor_for, next}

pub record WritableFile (S : Type 0) : Type 0 where
  pub append : S → List ℕ → Status × S
  pub flush : S → Status × S
  pub sync : S → Status × S
  pub close : S → Status × S

pub record WalWriter (S : Type 0) : Type 0 where
  pub file : S
  pub block_offset : ℕ
  pub reopen_padding : ℕ

-- A failed call ends its caller with the same error.
unfoldable pub unless_failed : {S : Type 0} → Status × S → (S → Status × S) → Status × S
unless_failed (err e, file) rest = (err e, file)
unless_failed (ok _, file) rest = rest file

unfoldable pub new_writer : {S : Type 0} → S → ℕ → WalWriter S
new_writer file initial_file_size =
    let block_offset = initial_file_size % wal_block_size in
    record {
      file = file;
      block_offset = 0;
      reopen_padding =
          if initial_file_size == 0 || block_offset == 0 then 0 else wal_block_size - block_offset;
    }

module _ {S : Type 0} (ops : WritableFile S) where
  unfoldable pub append_padding : S → ℕ → Status × S
  append_padding file size = ops.append file (replicate size 0)

  unfoldable pub pad_reopened_block : WalWriter S → Status × WalWriter S
  pad_reopened_block writer = elim (writer.reopen_padding == 0) [
    | true ↦ (ok tt, writer)
    | false ↦
        let (padding, file') = append_padding writer.file writer.reopen_padding in
        elim padding [
          | err e ↦ (err e, record writer { file = file' })
          | ok _ ↦ (ok tt, record writer { file = file'; reopen_padding = 0 })
        ]
  ]

  unfoldable pub append_unless_empty : S → List ℕ → Status × S
  append_unless_empty file [] = (ok tt, file)
  append_unless_empty file (byte ∷ bytes) = ops.append file (byte ∷ bytes)

  unfoldable pub append_unless_zero : S → ℕ → Status × S
  append_unless_zero file padding_before = elim (padding_before == 0) [
    | true ↦ (ok tt, file)
    | false ↦ append_padding file padding_before
  ]

  -- The body of the loop of `AddRecord`.
  unfoldable pub write_fragment : S → WalFragment → Status × S
  write_fragment file fragment =
      unless_failed (append_unless_zero file fragment.padding_before) (λ padded.
        unless_failed (ops.append padded fragment.header)
          (λ headed. append_unless_empty headed fragment.payload))

  module _ (c : Crc) where
    -- `while (fragments.Next(fragment))`, with the block offset that the cursor leaves; `none` is
    -- out of fuel.
    unfoldable pub write_fragments : ℕ → Cursor → S → Option (Status × S × ℕ)
    write_fragments zero cursor file = none
    write_fragments (suc fuel) cursor file = elim (next c cursor) [
      | none ↦ some (ok tt, file, cursor.block_offset)
      | some (fragment, cursor') ↦
          let (written, file') = write_fragment file fragment in
          elim written [
            | err e ↦ some (err e, file', cursor'.block_offset)
            | ok _ ↦ write_fragments fuel cursor' file'
          ]
    ]

    unfoldable pub add_record : WalWriter S → List ℕ → Option (Status × WalWriter S)
    add_record writer logical_record =
        let cursor = cursor_for writer.block_offset logical_record in
        let (reopened, padded) = pad_reopened_block writer in
        elim reopened [
          | err e ↦ some (err e, padded)
          | ok _ ↦ elim (write_fragments (length logical_record + 3) cursor padded.file) [
            | none ↦ none
            | some (err e, file', block_offset) ↦ some (
              err e,
              record {
                file = file';
                block_offset = block_offset;
                reopen_padding = padded.reopen_padding;
              },
            )
            | some (ok _, file', block_offset) ↦
                let (flushed, file'') = ops.flush file' in
                some (
                  flushed,
                  record {
                    file = file'';
                    block_offset = block_offset;
                    reopen_padding = padded.reopen_padding;
                  },
                )
          ]
        ]

  unfoldable pub sync : WalWriter S → Status × WalWriter S
  sync writer =
      let (status, file') = ops.sync writer.file in (status, record writer { file = file' })

  unfoldable pub close : WalWriter S → Status × WalWriter S
  close writer =
      let (status, file') = ops.close writer.file in (status, record writer { file = file' })
