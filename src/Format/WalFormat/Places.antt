-- ===== src/Format/WalFormat/Places.antt =====
-- src/format/wal_format.cc: where a fragment stands in its block.
use mathlib.Core.Path.{subst}
use modern_level_db.Prelude.{
  ◌⊎◌, ℕ, ◌+◌, ◌-◌, ◌%◌, ◌<◌, ◌≤◌, ◌≡◌, refl, sym, ◌∙◌, min, List, [], ◌∷◌, ◌++◌, some, Bool, true,
  false, ◌==◌, if◌then◌else◌, length, get_or, length-take, length-drop, length-append,
  take-append-drop, arith,
}
use modern_level_db.Base.Coding.{encode_fixed_trusted}
use modern_level_db.Base.Coding.Fixed.{length-encode_fixed_trusted}
use modern_level_db.Base.Crc32c.{Crc, crc32c, mask_crc32c, extend_crc32c}
use modern_level_db.Format.WalFormat.{
  WalFragment, encode_header, build_wal_fragment, wal_block_size, select_fragment_type, type_crc,
  type_full,
}
use modern_level_db.Format.WalFormat.Cursor.{
  Cursor, take_padding, fragment_payload_size, next_fragment, next,
}

-- What one call of `Next` gives: a fragment that starts inside a block with room for its header,
-- does not cross the block's end, and carries the next bytes of the record under a header that says
-- whether the record begins and ends in it.
pub record IsPlaced (c : Crc) (before : Cursor) (fragment : WalFragment) (after : Cursor)
    : Type 0 where
  pub padding_lt : fragment.padding_before < 7
  pub boundary :
      (fragment.padding_before ≡ 0)
      ⊎ (before.block_offset + fragment.padding_before ≡ wal_block_size)
  pub inside :
      (before.block_offset + fragment.padding_before) % wal_block_size + 7 + length fragment.payload
      ≤ wal_block_size
  pub offset :
      after.block_offset
      ≡ (before.block_offset + fragment.padding_before + 7 + length fragment.payload)
        % wal_block_size
  pub header :
      fragment.header
      ≡ encode_header c
          (select_fragment_type before.begin after.done)
          fragment.payload
          (crc32c c (select_fragment_type before.begin after.done ∷ []))
  pub bytes : fragment.payload ++ after.remaining ≡ before.remaining
  pub ended : after.done ≡ (length after.remaining == 0)
  pub begun : after.begin ≡ false

pub length-encode_header :
    (c : Crc) (type : ℕ) (payload : List ℕ) (crc : ℕ)
    → length (encode_header c type payload crc) ≡ 7
unfolding encode_header
length-encode_header c type payload crc =
    let stored = mask_crc32c (extend_crc32c c crc payload) in
    omega
      (arith, length-append (encode_fixed_trusted 4 stored) _, length-encode_fixed_trusted 4 stored)

-- The precomputed checksum that the fragmenter picks is that of the type's byte.
picked_crc :
    (c : Crc) (begin end : Bool)
    → get_or (type_crc c) (select_fragment_type begin end - type_full) 0
      ≡ crc32c c (select_fragment_type begin end ∷ [])
unfolding select_fragment_type
picked_crc c true true = refl
picked_crc c true false = refl
picked_crc c false true = refl
picked_crc c false false = refl

-- The rounds that are left: one for each byte, and one for an empty fragment in front of them.
abbrev pub measure : Cursor → ℕ
measure cursor = length cursor.remaining + (if cursor.block_offset == 32761 then 1 else 0)

module _ (c : Crc) where
  next_fragment-IsPlaced :
      (padding : ℕ) (start cursor : Cursor)
      → padding < 7
      → (padding ≡ 0) ⊎ (start.block_offset + padding ≡ wal_block_size)
      → start.remaining ≡ cursor.remaining
      → cursor.block_offset + 7 ≤ wal_block_size
      → (start.block_offset + padding) % wal_block_size ≡ cursor.block_offset
      → start.begin ≡ cursor.begin
      → IsPlaced c start (next_fragment c padding cursor).0 (next_fragment c padding cursor).1
  unfolding next_fragment build_wal_fragment
  next_fragment-IsPlaced padding start cursor hp hbd hr room hs hb =
      let n = fragment_payload_size cursor in
      let size : n ≤ length cursor.remaining = unfold fragment_payload_size in omega arith in
      let fits : cursor.block_offset + 7 + n ≤ wal_block_size =
        unfold fragment_payload_size in omega arith in
      let taken = length-take n cursor.remaining in
      record {
        padding_lt = hp;
        boundary = hbd;
        inside = omega arith;
        offset = omega arith;
        header = rw (hb, picked_crc c cursor.begin (n == length cursor.remaining));
        bytes = take-append-drop n cursor.remaining ∙ sym hr;
        ended = ground (arith, length-drop n cursor.remaining);
        begun = refl;
      }

  take_padding_lem :
      (cursor : Cursor)
      → cursor.block_offset < wal_block_size
      → ((take_padding cursor).0 < 7)
        × (((take_padding cursor).0 ≡ 0)
            ⊎ (cursor.block_offset + (take_padding cursor).0 ≡ wal_block_size))
        × (cursor.remaining ≡ (take_padding cursor).1.remaining)
        × ((take_padding cursor).1.block_offset + 7 ≤ wal_block_size)
        × ((cursor.block_offset + (take_padding cursor).0) % wal_block_size
            ≡ (take_padding cursor).1.block_offset)
        × (cursor.begin ≡ (take_padding cursor).1.begin)
  unfolding take_padding
  take_padding_lem cursor h = ground arith

  pub next_step :
      (cursor : Cursor)
      → cursor.done ≡ false
      → next c cursor ≡ some (next_fragment c (take_padding cursor).0 (take_padding cursor).1)
  unfolding next
  next_step cursor h = rw h

  -- Whenever `Next` answers on a cursor inside its block, the fragment starts where a header fits,
  -- does not cross the end of the block, and carries the next bytes under the header of its type.
  pub next-IsPlaced :
      (cursor : Cursor) (fragment : WalFragment) (after : Cursor)
      → cursor.block_offset < wal_block_size
      → cursor.done ≡ false
      → next c cursor ≡ some (fragment, after)
      → IsPlaced c cursor fragment after
  next-IsPlaced cursor fragment after h hd e =
      let (p, edge, r, room, s, b) = take_padding_lem cursor h in
      let placed =
        next_fragment-IsPlaced (take_padding cursor).0 cursor (take_padding cursor).1 p edge r room
          s b in
      let same : next_fragment c (take_padding cursor).0 (take_padding cursor).1
          ≡ (fragment, after) =
        cc (next_step cursor hd) in
      subst (λ t. IsPlaced c cursor t.0 t.1) same placed

  fragment-shrinks :
      (padding : ℕ) (cursor : Cursor)
      → cursor.block_offset + 7 ≤ wal_block_size
      → (next_fragment c padding cursor).1.done ≡ false
      → measure (next_fragment c padding cursor).1 < measure cursor
  unfolding next_fragment
  fragment-shrinks padding cursor room more =
      let n = min (length cursor.remaining) (wal_block_size - cursor.block_offset - 7) in
      ground (arith, length-drop n cursor.remaining)

  padding-measure :
      (cursor : Cursor)
      → cursor.block_offset < wal_block_size
      → measure (take_padding cursor).1 ≤ measure cursor
  unfolding take_padding
  padding-measure cursor h = ground arith

  pub next-shrinks :
      (cursor : Cursor)
      → cursor.block_offset < wal_block_size
      → (next_fragment c (take_padding cursor).0 (take_padding cursor).1).1.done ≡ false
      → measure (next_fragment c (take_padding cursor).0 (take_padding cursor).1).1 < measure cursor
  next-shrinks cursor h more =
      let (_, _, _, room, _, _) = take_padding_lem cursor h in
      omega (
        arith,
        padding-measure cursor h,
        fragment-shrinks (take_padding cursor).0 (take_padding cursor).1 room more,
      )
