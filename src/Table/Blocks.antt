-- ===== src/Table/Blocks.antt =====
-- src/table/block_builder.cc, src/table/table_builder.cc, src/table/block_format.cc and
-- src/table/block.cc together: a block that is built, stored, read back and searched.
use mathlib.Core.Path.{subst}
use modern_level_db.Prelude.{ℕ, ◌≤◌, ◌<◌, ◌^◌, ◌≡◌, sym, List, some, true, All, length, arith}
use modern_level_db.Base.Error.{ok}
use modern_level_db.Base.Crc32c.{Crc}
use modern_level_db.Base.Comparator.{Comparator}
use modern_level_db.Base.Comparator.Laws.{IsComparator}
use modern_level_db.Table.Compression.{ℤ, Snappy, Zstd}
use modern_level_db.Table.Compression.RoundTrip.{IsSnappy, IsZstd}
use modern_level_db.Table.TableBuilder.{write_block}
use modern_level_db.Table.BlockFormat.{BlockContents, decode_stored_vector}
use modern_level_db.Table.BlockFormat.Stored.{IsStreaming, decode-write_block}
use modern_level_db.Table.Block.{Block, create}
use modern_level_db.Table.Block.Items.{Entry}
use modern_level_db.Table.Block.Iterator.{
  BlockKeyFormat, Iterator, new_iterator, accepts_format, context_of, seek_to_first,
}
use modern_level_db.Table.Block.Iterator.Seek.{seek}
use modern_level_db.Table.Block.Iterator.Stepping.{AreAccepted}
use modern_level_db.Table.Block.Iterator.Iterating.{Iterates, seek_to_first-Holds}
use modern_level_db.Table.Block.Iterator.Sorted.{AreSorted, lower_bound}
use modern_level_db.Table.Block.Iterator.Reached.{made, seek-Reached}
use modern_level_db.Table.BlockBuilder.{new_builder, finish}
use modern_level_db.Table.BlockBuilder.Built.{add_all, AreSmall}
use modern_level_db.Table.BlockBuilder.Finished.{create-add_all}

module _ (c : Crc) (streaming : IsStreaming c) (snappy : Snappy) (zstd : Zstd) (s : IsSnappy snappy)
    (z : IsZstd zstd) (compression : ℕ) (level : ℤ) (comparator : Comparator)
    (laws : IsComparator comparator) (format : BlockKeyFormat) (interval : ℕ)
    (es : List Entry) where
  -- Under a streaming checksum, compressors that restore what they took, and a comparator that
  -- keeps its promises: sorted entries with keys and values of less than 2^32 bytes and key sizes
  -- that the format accepts, put into a new builder with a restart interval of at least one,
  -- finished to less than 2^32 bytes, stored with any compression type and level, decoded from an
  -- owned vector and opened, are what a new iterator visits in order by `SeekToFirst` and `Next`,
  -- up to the end, and `Seek` of a target of accepted size stands at the first entry that is not
  -- less than it, with the later entries in order behind it.
  pub seek-write_block :
      (target : List ℕ)
      → 1 ≤ interval
      → AreSmall es
      → AreSorted comparator es
      → All (λ entry. accepts_format format (length entry.key) ≡ true) es
      → accepts_format format (length target) ≡ true
      → length (finish (add_all (new_builder interval) es)) < 2 ^ 32
      → (contents : BlockContents) × (block : Block) × (first : Iterator) × (found : Iterator)
        × (decode_stored_vector c snappy zstd (
              write_block c snappy zstd
                (finish (add_all (new_builder interval) es))
                compression
                level)
            ≡ ok contents)
        × (create contents ≡ ok block)
        × (seek_to_first
              (context_of block comparator format)
              (new_iterator (context_of block comparator format))
            ≡ (ok tt, first))
        × Iterates (context_of block comparator format) first es
        × (seek
              (context_of block comparator format)
              target
              (new_iterator (context_of block comparator format))
            ≡ some (ok tt, found))
        × Iterates (context_of block comparator format) found (lower_bound comparator target es)
  seek-write_block target positive small sorted sizes size room =
      let raw = finish (add_all (new_builder interval) es) in
      let (contents, _, decoded, _, same, _) =
        decode-write_block c streaming snappy zstd s z raw compression level (omega arith) in
      let (items, block, opened, holds, e) =
        create-add_all interval es contents positive small room same in
      let context = context_of block comparator format in
      let accepted = subst (λ l. AreAccepted context l) (sym e) sizes in
      let sorted' = subst (λ l. AreSorted comparator l) (sym e) sorted in
      let (first, begun, _, all) =
        seek_to_first-Holds context items holds accepted (new_iterator context) in
      let (found, sought, later) =
        seek-Reached context items holds accepted laws sorted' target (new_iterator context) size
          made in
      (
        contents,
        block,
        first,
        found,
        decoded,
        opened,
        begun,
        subst (λ l. Iterates context first l) e all,
        sought,
        subst (λ l. Iterates context found (lower_bound comparator target l)) e later,
      )
