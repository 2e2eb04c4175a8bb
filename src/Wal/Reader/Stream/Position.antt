-- ===== src/Wal/Reader/Stream/Position.antt =====
-- src/wal/wal_io.cc: where the reader stands in its file, and one physical fragment read there.
use modern_level_db.Prelude.{
  ℕ, ◌+◌, ◌%◌, ◌≤◌, ◌<◌, ◌≡◌, ◌⊎◌, inl, inr, refl, sym, ap, ◌∙◌, List, [], ◌++◌, true, false,
  length, drop, arith, length-append, length-drop, drop-drop, drop_within,
}
use modern_level_db.Format.WalFormat.{wal_block_size}
use modern_level_db.Wal.Reader.{WalReader}
use modern_level_db.Wal.Reader.Stream.{new_reader}

module _ {S : Type 0} (unread : S → List ℕ) (log : List ℕ) where
  -- The reader stands at the position `p` of the log: its block is the part of the log that it read
  -- last, the file holds what follows, and only the last block is not full.
  pub record At (p : ℕ) (file : S) (reader : WalReader) : Type 0 where
    pub start : reader.block_start_offset % wal_block_size ≡ 0
    pub whole : reader.block ++ unread file ≡ drop reader.block_start_offset log
    pub place : reader.block_start_offset + reader.block_position ≡ p
    pub inside : reader.block_position ≤ length reader.block
    pub room : length reader.block ≤ wal_block_size
    pub more :
        ((reader.eof_seen ≡ false)
          × ((length reader.block ≡ 0) ⊎ (length reader.block ≡ wal_block_size)))
        ⊎ ((reader.eof_seen ≡ true) × (unread file ≡ []))

  pub At-new : (file : S) → unread file ≡ log → At 0 file new_reader
  At-new file h = record {
    start = omega arith;
    whole = h;
    place = omega arith;
    inside = omega arith;
    room = omega arith;
    more = inl (refl, inl refl);
  }

  module _ (p : ℕ) (file : S) (reader : WalReader) (at : At p file reader) where
    pub behind : drop reader.block_position reader.block ++ unread file ≡ drop p log
    behind =
        sym (drop_within reader.block_position reader.block (unread file) at.inside)
        ∙ ap (drop reader.block_position) at.whole
        ∙ drop-drop reader.block_position reader.block_start_offset log
        ∙ ap (λ (k : ℕ). drop k log) at.place

    -- The place does not depend on what the reader holds of a partial record.
    pub At-same :
        (other : WalReader)
        → other.block ≡ reader.block
        → other.block_position ≡ reader.block_position
        → other.block_start_offset ≡ reader.block_start_offset
        → other.eof_seen ≡ reader.eof_seen
        → At p file other
    At-same other b q s e = record {
      start = rw s at.start;
      whole = rw (b, s) at.whole;
      place = rw (s, q) at.place;
      inside = rw (b, q) at.inside;
      room = rw b at.room;
      more = rw (b, e) at.more;
    }

    -- With bytes left in the log, a block that is used up was not the last.
    pub not_ended :
        reader.block_position ≡ length reader.block
        → 0 < length (drop p log)
        → reader.eof_seen ≡ false
    not_ended used left = elim at.more [
      | inl (e, _) ↦ e
      | inr (_, over) ↦
          let size = ap length behind in
          let none_left = ap length over in
          absurd (
            omega (
              arith,
              length-append (drop reader.block_position reader.block) (unread file),
              length-drop reader.block_position reader.block,
            ))
    ]

    -- The bytes of a fragment that stands at the reader's place are all in the block.
    pub in_block :
        (bytes rest : List ℕ)
        → reader.block_position < length reader.block
        → drop p log ≡ bytes ++ rest
        → p % wal_block_size + length bytes ≤ wal_block_size
        → length bytes ≤ length (drop reader.block_position reader.block)
    in_block bytes rest open_part e fits =
        let size = length-drop reader.block_position reader.block in
        elim at.more [
          | inl (_, inl none_read) ↦ absurd (omega arith)
          | inl (_, inr full) ↦ omega (arith, at.start, at.place)
          | inr (_, over) ↦
              let known = ap length behind in
              let sum = ap length e in
              let none_left = ap length over in
              omega (
                arith,
                length-append (drop reader.block_position reader.block) (unread file),
                length-append bytes rest,
              )
        ]
