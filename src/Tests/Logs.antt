-- ===== src/Tests/Logs.antt =====
-- src/format/wal_format.cc and src/wal/wal_io.cc on concrete inputs, with a checksum that counts.
use modern_level_db.Prelude.{
  ◌+◌, ◌%◌, ◌^◌, ◌≡◌, refl, true, false, List, [], ◌∷◌, ◌++◌, length, some, arith,
}
use modern_level_db.Base.Crc32c.{Crc, crc32c}
use modern_level_db.Format.WalFormat.{
  WalFragment, is_fragment_type, decode_wal_fragment, decoded, fragment, encode_header,
  build_wal_fragment, select_fragment_type,
}
use modern_level_db.Format.WalFormat.Cursor.{
  Cursor, cursor_for, take_padding, next_fragment, next, fragments,
}
use modern_level_db.Format.WalFormat.Blocks.{
  Placed, finished, placed, payloads, fragments-cursor_for,
}
use modern_level_db.Format.WalFormat.Places.{IsPlaced, next-IsPlaced}
use modern_level_db.Format.WalFormat.Decode.{decode-encode_header}
use modern_level_db.Wal.Reader.{WalReader, logical_record, PhysicalFragment}
use modern_level_db.Wal.Reader.Assembly.{consume_all, consume_fragment-Placed}

abbrev pub counting : Crc
counting = record {
  extend = λ crc input. (crc + length input) % 2 ^ 32;
  extend_lt = λ crc input. omega arith;
}

decode-encode_header_example :
    decode_wal_fragment counting
      (encode_header counting 1 (5 ∷ 6 ∷ []) (crc32c counting (1 ∷ [])) ++ (5 ∷ 6 ∷ 9 ∷ []))
      true
    ≡ decoded (record { kind = fragment; type = 1; payload = 5 ∷ 6 ∷ []; encoded_size = 9 })
decode-encode_header_example =
    decode-encode_header counting 1 (5 ∷ 6 ∷ []) (9 ∷ []) (omega arith) true
      (unfold is_fragment_type in refl)

fragments-cursor_for_example :
    (fs : List WalFragment) × (last : Cursor) × (fragments counting 5
        (cursor_for 32760 (5 ∷ 6 ∷ []))
      ≡ some (fs, last))
    × Placed counting (cursor_for 32760 (5 ∷ 6 ∷ [])) fs last
    × (payloads fs ≡ 5 ∷ 6 ∷ [])
    × (last.done ≡ true)
fragments-cursor_for_example = fragments-cursor_for counting 32760 (5 ∷ 6 ∷ []) (omega arith)

abbrev start : Cursor
start = cursor_for 0 (5 ∷ 6 ∷ [])

abbrev whole : WalFragment
whole = (next_fragment counting 0 start).0

abbrev after : Cursor
after = (next_fragment counting 0 start).1

first-answer : next counting start ≡ some (whole, after)
unfolding next take_padding
first-answer = refl

next-IsPlaced_example : IsPlaced counting start whole after
next-IsPlaced_example = next-IsPlaced counting start whole after (omega arith) refl first-answer

after-done : after.done ≡ true
unfolding next_fragment
after-done = refl

whole-Placed : Placed counting start (whole ∷ []) after
whole-Placed =
    placed refl (next-IsPlaced counting start whole after (omega arith) refl first-answer)
      (finished after-done)

whole-decodes :
    decode_wal_fragment counting (whole.header ++ (whole.payload ++ [])) true
    ≡ decoded (record { kind = fragment; type = 1; payload = 5 ∷ 6 ∷ []; encoded_size = 9 })
unfolding next_fragment build_wal_fragment encode_header select_fragment_type crc32c
whole-decodes =
    decode-encode_header counting 1 (5 ∷ 6 ∷ []) [] (omega arith) true
      (unfold is_fragment_type in refl)

whole-size : 7 + length whole.payload ≡ 9
unfolding next_fragment build_wal_fragment
whole-size = refl

abbrev found : PhysicalFragment
found = record { type = 1; payload = 5 ∷ 6 ∷ []; offset = 100; block_position = 0 }

abbrev idle : WalReader
idle = record {
  block = [];
  block_position = 0;
  block_start_offset = 100;
  scratch = [];
  partial_record_offset = 0;
  eof_seen = false;
  in_fragmented_record = false;
}

consume_fragment-Placed_example :
    consume_all idle (found ∷ []) ≡ logical_record (5 ∷ 6 ∷ []) 100 ∷ []
consume_fragment-Placed_example =
    consume_fragment-Placed whole-Placed found [] idle (rw whole-size whole-decodes, tt) refl
