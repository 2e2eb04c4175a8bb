-- ===== src/Wal/Writer/Alignment.antt =====
-- src/wal/wal_io.cc: the writer's block offset stays the place of the next fragment in its block.
use modern_level_db.Prelude.{
  ℕ, zero, ◌+◌, ◌%◌, ◌≤◌, ◌<◌, ◌≡◌, ap, ◌∙◌, List, [], ◌∷◌, ◌++◌, length, replicate, arith,
  length-append, length-replicate,
}
use modern_level_db.Base.Crc32c.{Crc, crc32c}
use modern_level_db.Format.WalFormat.{WalFragment, wal_block_size, select_fragment_type}
use modern_level_db.Format.WalFormat.Cursor.{Cursor, fragment_bytes}
use modern_level_db.Format.WalFormat.Blocks.{Placed, finished, placed}
use modern_level_db.Format.WalFormat.Places.{IsPlaced, length-encode_header}
use modern_level_db.Wal.Reader.Stream.Records.{record_bytes}
use modern_level_db.Wal.Writer.{WritableFile, WalWriter}
use modern_level_db.Wal.Writer.Appends.{IsAppending}
use modern_level_db.Wal.Writer.Adds.{IsAligned, Added}

pub length-fragment_bytes :
    {c : Crc} {before after : Cursor} {f : WalFragment}
    → IsPlaced c before f after
    → length (fragment_bytes f) ≡ f.padding_before + 7 + length f.payload
length-fragment_bytes {c} {before} {after} {f} place =
    let type = select_fragment_type before.begin after.done in
    let header =
      ap length place.header ∙ length-encode_header c type f.payload (crc32c c (type ∷ [])) in
    omega (
      arith,
      header,
      length-replicate f.padding_before zero,
      length-append (replicate f.padding_before zero) (f.header ++ f.payload),
      length-append f.header f.payload,
    )

pub Placed-block_offset :
    {c : Crc} {cursor last : Cursor} {fs : List WalFragment}
    → Placed c cursor fs last
    → cursor.block_offset < wal_block_size
    → last.block_offset ≡ (cursor.block_offset + length (record_bytes fs)) % wal_block_size
Placed-block_offset (finished over) below = omega arith
Placed-block_offset (placed {before} {after} {last} {fragment = f} {rest = fs} running place ps)
      below =
    let next = Placed-block_offset ps (omega (arith, place.offset)) in
    omega (
      arith,
      place.offset,
      length-fragment_bytes place,
      length-append (fragment_bytes f) (record_bytes fs),
    )

pub length-record_bytes :
    {c : Crc} {cursor last : Cursor} {fs : List WalFragment}
    → Placed c cursor fs last
    → length fs ≤ length (record_bytes fs)
length-record_bytes (finished over) = omega arith
length-record_bytes (placed {before} {after} {last} {fragment = f} {rest = fs} running place ps) =
    let rest = length-record_bytes ps in
    omega (arith, length-fragment_bytes place, length-append (fragment_bytes f) (record_bytes fs))

-- A record that was added leaves the writer at the place of the next fragment.
pub Added-IsAligned :
    {S : Type 0} (ops : WritableFile S) (contents : S → List ℕ) (laws : IsAppending ops contents)
    (c : Crc) (writer writer' : WalWriter S) (whole : List ℕ)
    → IsAligned ops contents writer
    → Added ops contents laws c writer whole writer'
    → IsAligned ops contents writer'
Added-IsAligned ops contents laws c writer writer' whole aligned added =
    let fs = added.fragments_of_it in
    let last = Placed-block_offset added.in_blocks aligned.below in
    let size = ap length added.grown in
    let sum =
      length-append (contents writer.file ++ replicate writer.reopen_padding zero)
        (record_bytes fs) in
    let front = length-append (contents writer.file) (replicate writer.reopen_padding zero) in
    let padding = length-replicate writer.reopen_padding zero in
    let offset = added.offset in
    let reopened = added.reopened in
    let start = aligned.offset in record { below = omega arith; offset = omega arith }
