-- ===== src/Format/WalFormat/Cursor.antt =====
-- src/format/wal_format.cc: `WalFragmenter` and its cursor. The cursor writes the block offset of the
-- fragmenter that made it: here the offset goes through the cursor's state.
use modern_level_db.Prelude.{
  ℕ, zero, suc, ◌+◌, ◌-◌, ◌%◌, min, List, [], ◌∷◌, ◌++◌, Option, none, some, Bool, true, false, leb,
  ◌==◌, if◌then◌else◌, length, take, drop, get_or, replicate,
}
use modern_level_db.Base.Crc32c.{Crc}
use modern_level_db.Format.WalFormat.{
  WalFragment, wal_block_size, wal_header_size, type_full, select_fragment_type, type_crc,
  build_wal_fragment,
}

pub record Cursor : Type 0 where
  pub block_offset : ℕ
  pub remaining : List ℕ
  pub begin : Bool
  pub done : Bool

unfoldable pub initial_block_offset : ℕ → ℕ
initial_block_offset initial_file_size = initial_file_size % wal_block_size

-- `WalFragmenter::Fragment`, at the fragmenter's block offset.
abbrev pub cursor_for : ℕ → List ℕ → Cursor
cursor_for block_offset logical_record = record {
  block_offset = block_offset;
  remaining = logical_record;
  begin = true;
  done = false;
}

unfoldable pub take_padding : Cursor → ℕ × Cursor
take_padding cursor =
    let bytes_left_in_block = wal_block_size - cursor.block_offset in
    if leb wal_header_size bytes_left_in_block
    then (0, cursor)
    else (bytes_left_in_block, record cursor { block_offset = 0 })

unfoldable pub fragment_payload_size : Cursor → ℕ
fragment_payload_size cursor =
    let available = wal_block_size - cursor.block_offset - wal_header_size in
    min (length cursor.remaining) available

unfoldable pub advance : Cursor → ℕ → Bool → Cursor
advance cursor fragment_size end = record {
  block_offset = (cursor.block_offset + wal_header_size + fragment_size) % wal_block_size;
  remaining = drop fragment_size cursor.remaining;
  begin = false;
  done = end;
}

module _ (c : Crc) where
  -- `Next` on a cursor that is not done, after the padding.
  unfoldable pub next_fragment : ℕ → Cursor → WalFragment × Cursor
  unfolding fragment_payload_size advance
  next_fragment padding_before cursor =
      let fragment_size = fragment_payload_size cursor in
      let end = fragment_size == length cursor.remaining in
      let type = select_fragment_type cursor.begin end in
      let payload = take fragment_size cursor.remaining in
      let crc = get_or (type_crc c) (type - type_full) 0 in
      (build_wal_fragment c padding_before type payload crc, advance cursor fragment_size end)

  unfoldable pub next : Cursor → Option (WalFragment × Cursor)
  unfolding take_padding next_fragment
  next cursor =
      let (padding_before, padded) = take_padding cursor in
      if cursor.done then none else some (next_fragment padding_before padded)

  -- `while (fragments.Next(fragment))`, with the fragments in a list; `none` is out of fuel.
  unfoldable pub fragments : ℕ → Cursor → Option (List WalFragment × Cursor)
  fragments zero cursor = none
  fragments (suc fuel) cursor = elim (next cursor) [
    | none ↦ some ([], cursor)
    | some (fragment, cursor') ↦ elim (fragments fuel cursor') [
      | none ↦ none
      | some (rest, last) ↦ some (fragment ∷ rest, last)
    ]
  ]

-- The bytes that the writer appends for a fragment.
abbrev pub fragment_bytes : WalFragment → List ℕ
fragment_bytes fragment =
    replicate fragment.padding_before 0 ++ (fragment.header ++ fragment.payload)
