-- ===== src/Wal/Writer/Adds.antt =====
-- src/wal/wal_io.cc: `AddRecord` puts the fragments of its record behind the file's contents.
use modern_level_db.Prelude.{
  ℕ, zero, ◌+◌, ◌%◌, ◌<◌, ◌≡◌, ◌⊎◌, inl, inr, refl, sym, ap, ◌∙◌, List, ◌++◌, some, ◌==◌, length,
  replicate, arith, append-nil, Bool-cases,
}
use modern_level_db.Base.Error.{Status, Error, ok, err}
use modern_level_db.Base.Crc32c.{Crc}
use modern_level_db.Format.WalFormat.{WalFragment, wal_block_size}
use modern_level_db.Format.WalFormat.Cursor.{Cursor, cursor_for}
use modern_level_db.Format.WalFormat.Blocks.{Placed, fragments-cursor_for}
use modern_level_db.Wal.Reader.Stream.Records.{record_bytes}
use modern_level_db.Wal.Writer.{
  WritableFile, WalWriter, new_writer, append_padding, pad_reopened_block, write_fragments,
  add_record,
}
use modern_level_db.Wal.Writer.Appends.{
  IsAppending, answered, refused, Grows, append_lem, wrote, failed_at, write_fragments_lem,
}

module _ {S : Type 0} (ops : WritableFile S) (contents : S → List ℕ) where
  -- The writer's block offset is where the next fragment goes, once a reopened block is padded.
  pub record IsAligned (writer : WalWriter S) : Type 0 where
    pub below : writer.block_offset < wal_block_size
    pub offset :
        writer.block_offset
        ≡ (length (contents writer.file) + writer.reopen_padding) % wal_block_size

  pub new_writer-IsAligned : (file : S) → IsAligned (new_writer file (length (contents file)))
  unfolding new_writer
  new_writer-IsAligned file = record { below = omega arith; offset = ground arith }

  module _ (laws : IsAppending ops contents) where
    pad_reopened_block_lem :
        (writer : WalWriter S)
        → ((file : S) × (pad_reopened_block ops writer
              ≡ (ok tt, record writer { file = file; reopen_padding = 0 }))
            × Grows ops contents laws writer.file (replicate writer.reopen_padding 0) file)
          ⊎ ((e : Error) × (writer' : WalWriter S) × (pad_reopened_block ops writer
                ≡ (err e, writer')))
    unfolding pad_reopened_block append_padding
    pad_reopened_block_lem writer = elim (Bool-cases (writer.reopen_padding == 0)) [
      | inl none_needed ↦
          let zero_left : writer.reopen_padding ≡ 0 = ground (arith, none_needed) in
          inl (
            writer.file,
            ground (arith, none_needed, zero_left),
            sym (append-nil (contents writer.file))
                ∙ ap (λ (k : ℕ). contents writer.file ++ replicate k zero) (sym zero_left),
          )
      | inr some_needed ↦
          elim (append_lem ops contents laws writer.file (replicate writer.reopen_padding 0)) [
            | answered s e grown ↦ inl (s, ground (arith, some_needed, e), grown)
            | refused e' s e ↦ inr (e', record writer { file = s }, ground (arith, some_needed, e))
          ]
    ]

    module _ (c : Crc) where
      -- The record's fragments, each in its block, are all that was added behind the padding.
      pub record Added (writer : WalWriter S) (whole : List ℕ) (writer' : WalWriter S)
          : Type 0 where
        pub fragments_of_it : List WalFragment
        pub last : Cursor
        pub in_blocks : Placed c (cursor_for writer.block_offset whole) fragments_of_it last
        pub grown :
            contents writer'.file
            ≡ (contents writer.file ++ replicate writer.reopen_padding 0)
              ++ record_bytes fragments_of_it
        pub offset : writer'.block_offset ≡ last.block_offset
        pub reopened : writer'.reopen_padding ≡ 0

      pub data AddAnswers (writer : WalWriter S) (whole : List ℕ) : Type 0 where
        added :
            (writer' : WalWriter S)
            → add_record ops c writer whole ≡ some (ok tt, writer')
            → Added writer whole writer'
            → AddAnswers writer whole
        add_failed :
            (e : Error) (writer' : WalWriter S)
            → add_record ops c writer whole ≡ some (err e, writer')
            → AddAnswers writer whole

      module _ (writer : WalWriter S) (whole : List ℕ) (file : S)
          (padded : pad_reopened_block ops writer
            ≡ (ok tt, record writer { file = file; reopen_padding = 0 })) where
        add-refused :
            (e : Error) (s : S) (at : ℕ)
            → write_fragments ops c (length whole + 3) (cursor_for writer.block_offset whole) file
              ≡ some (err e, s, at)
            → add_record ops c writer whole
              ≡ some (err e, record { file = s; block_offset = at; reopen_padding = 0 })
        unfolding add_record
        add-refused e s at h = ground (arith, padded, h)

        add-flushed :
            (status : Status) (s s' : S) (at : ℕ)
            → write_fragments ops c (length whole + 3) (cursor_for writer.block_offset whole) file
              ≡ some (ok tt, s, at)
            → ops.flush s ≡ (status, s')
            → add_record ops c writer whole
              ≡ some (status, record { file = s'; block_offset = at; reopen_padding = 0 })
        unfolding add_record
        add-flushed status s s' at h flushed = ground (arith, padded, h, flushed)

        add-behind :
            Grows ops contents laws writer.file (replicate writer.reopen_padding 0) file
            → writer.block_offset < wal_block_size
            → AddAnswers writer whole
        add-behind grown below =
            let (fs, last, run, ps, _, _) =
              fragments-cursor_for c writer.block_offset whole below in
            elim (write_fragments_lem ops contents laws c (length whole + 3)
              (cursor_for writer.block_offset whole) last fs file run) [
                | failed_at e s at h ↦ add_failed e _ (add-refused e s at h)
                | wrote s h more ↦
                    flush s last fs ps h (more ∙ ap (λ l. l ++ record_bytes fs) grown) (ops.flush s)
                      refl
              ]
          where
            flush :
                (s : S) (last : Cursor) (fs : List WalFragment)
                → Placed c (cursor_for writer.block_offset whole) fs last
                → write_fragments ops c
                    (length whole + 3)
                    (cursor_for writer.block_offset whole)
                    file
                  ≡ some (ok tt, s, last.block_offset)
                → contents s
                  ≡ (contents writer.file ++ replicate writer.reopen_padding 0) ++ record_bytes fs
                → (flushed : Status × S) → ops.flush s ≡ flushed
                → AddAnswers writer whole
            flush s last fs ps h all (err e, s') flushed =
                add_failed e _ (add-flushed (err e) s s' last.block_offset h flushed)
            flush s last fs ps h all (ok tt, s') flushed =
                added _ (add-flushed (ok tt) s s' last.block_offset h flushed) (record {
                  fragments_of_it = fs;
                  last = last;
                  in_blocks = ps;
                  grown = laws.flush_lem s s' flushed ∙ all;
                  offset = refl;
                  reopened = refl;
                })

      add-unpadded :
          (writer writer' : WalWriter S) (whole : List ℕ) (e : Error)
          → pad_reopened_block ops writer ≡ (err e, writer')
          → add_record ops c writer whole ≡ some (err e, writer')
      unfolding add_record
      add-unpadded writer writer' whole e h = ground (arith, h)

      -- `AddRecord` always answers. Answered ok, the file has grown by the padding of a reopened
      -- block and the record's fragments, each placed in its block, and by nothing else.
      pub add_record_lem :
          (writer : WalWriter S) (whole : List ℕ)
          → writer.block_offset < wal_block_size
          → AddAnswers writer whole
      add_record_lem writer whole below = elim (pad_reopened_block_lem writer) [
        | inl (file, padded, grown) ↦ add-behind writer whole file padded grown below
        | inr (e, writer', h) ↦ add_failed e writer' (add-unpadded writer writer' whole e h)
      ]
