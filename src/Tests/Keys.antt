-- ===== src/Tests/Keys.antt =====
-- src/format/internal_key.cc on concrete inputs.
use Prim.Native.Nat.{Ordering}
use modern_level_db.Prelude.{
  ℕ, ◌≤◌, ◌≡◌, ◌≢◌, ◌↔◌, refl, true, List, [], ◌∷◌, ◌++◌, replicate, none, some, length, arith,
}
use modern_level_db.Base.Error.{ok}
use modern_level_db.Base.Coding.{
  encode_length_prefixed_trusted, encode_fixed_trusted, append_fixed, encode_varint_trusted,
  varint_length,
}
use modern_level_db.Base.Comparator.{bytewise_comparator}
use modern_level_db.Base.Comparator.Shorten.{bytewise_comparator-IsComparator}
use modern_level_db.Format.InternalKey
use modern_level_db.Format.InternalKey.{
  InternalKeyView, max_sequence_number, seek_value_kind, is_valid_value_kind,
  pack_internal_key_trailer, decode_internal_key_sequence, decode_internal_key_value_kind,
  parse_internal_key, encode_unchecked, encode_internal_key_trusted,
}
use modern_level_db.Format.InternalKey.Trailer.{pack-unpack_internal_key_trailer}
use modern_level_db.Format.InternalKey.RoundTrip.{parse_internal_key_iff, create_accessors}
use modern_level_db.Format.KeyComparator.{internal_compare, internal_key_comparator}
use modern_level_db.Format.KeyComparator.Order.{newer_first, seek_visible_iff}
use modern_level_db.Format.KeyComparator.Laws.{IsComparatorOnKeys}
use modern_level_db.Format.KeyComparator.Separator.{internal_key_comparator-IsComparatorOnKeys}
use modern_level_db.Format.LookupKey
use modern_level_db.Format.LookupKey.{
  memtable_key, internal_key, create_trusted, move_construct, inline_capacity,
}
use modern_level_db.Format.LookupKey.Views.{create_trusted_views, move_construct_views}

pack-unpack_internal_key_trailer_example :
    pack_internal_key_trailer
      (decode_internal_key_sequence 2305)
      (decode_internal_key_value_kind 2305)
    ≡ 2305
pack-unpack_internal_key_trailer_example = pack-unpack_internal_key_trailer 2305 (omega arith)

abbrev stored : List ℕ
stored = 97 ∷ 1 ∷ 9 ∷ 0 ∷ 0 ∷ 0 ∷ 0 ∷ 0 ∷ 0 ∷ []

abbrev stored_view : InternalKeyView
stored_view = record { user_key = 97 ∷ []; sequence = 9; kind = 1 }

parse_internal_key_iff_example : (parse_internal_key stored ≡ ok stored_view) ↔ (
    (9 ≤ max_sequence_number)
    × (is_valid_value_kind 1 ≡ true)
    × (stored ≡ encode_unchecked (97 ∷ []) 9 1))
parse_internal_key_iff_example = parse_internal_key_iff stored stored_view (
  omega arith,
  (
    omega arith,
    (
      omega arith,
      (omega arith, (omega arith, (omega arith, (omega arith, (omega arith, (omega arith, tt)))))),
    ),
  ),
)

abbrev stored_key : InternalKey.InternalKey
stored_key = record { encoded = stored }

created : InternalKey.create (97 ∷ []) 9 1 ≡ ok stored_key
unfolding InternalKey.create encode_unchecked append_fixed encode_fixed_trusted
    pack_internal_key_trailer
created = refl

create_accessors_example :
    (InternalKey.user_key stored_key ≡ 97 ∷ [])
    × (InternalKey.sequence stored_key ≡ 9)
    × (InternalKey.kind stored_key ≡ 1)
    × (InternalKey.decode stored ≡ ok stored_key)
create_accessors_example = create_accessors (97 ∷ []) 9 1 stored_key created

internal_key_comparator-IsComparatorOnKeys_example :
    IsComparatorOnKeys (internal_key_comparator bytewise_comparator)
internal_key_comparator-IsComparatorOnKeys_example =
    internal_key_comparator-IsComparatorOnKeys bytewise_comparator bytewise_comparator-IsComparator

-- Bytes that are too short for a trailer are not compared.
short_key_not_compared : internal_compare bytewise_comparator (97 ∷ []) stored ≡ none
unfolding internal_compare
short_key_not_compared = refl

valid : (k : ℕ) → k ≤ 1 → is_valid_value_kind k ≡ true
unfolding is_valid_value_kind
valid k h = ground arith

newer_first_example :
    internal_compare bytewise_comparator
      (encode_unchecked (97 ∷ []) 9 0)
      (encode_unchecked (97 ∷ []) 8 1)
    ≡ some Ordering.lt
newer_first_example =
    newer_first bytewise_comparator bytewise_comparator-IsComparator (97 ∷ []) 9 8 0 1 (omega arith)
      (omega arith) (valid 0 (omega arith)) (valid 1 (omega arith))

seek_visible_iff_example :
    ((order : Ordering) × (internal_compare bytewise_comparator
          (encode_unchecked (97 ∷ []) 9 seek_value_kind)
          (encode_unchecked (97 ∷ []) 8 0)
        ≡ some order)
      × (order ≢ Ordering.gt))
    ↔ (8 ≤ 9)
seek_visible_iff_example =
    seek_visible_iff bytewise_comparator bytewise_comparator-IsComparator (97 ∷ []) 9 8 0
      (omega arith) (omega arith) (valid 0 (omega arith))

-- With its trailer and its prefix, a key that takes heap storage.
abbrev long_key : List ℕ
long_key = replicate 192 97

create_trusted_views_example :
    (lookup : LookupKey.LookupKey) × (create_trusted long_key 9 ≡ some lookup)
    × (memtable_key lookup
        ≡ encode_length_prefixed_trusted (encode_unchecked long_key 9 seek_value_kind))
    × (internal_key lookup ≡ encode_unchecked long_key 9 seek_value_kind)
    × (LookupKey.user_key lookup ≡ long_key)
    × (length lookup.inline_storage ≡ inline_capacity)
    × ((lookup.heap_storage ≡ none) ↔ (length (memtable_key lookup) ≤ inline_capacity))
create_trusted_views_example = create_trusted_views long_key 9

-- The target of the key above as it stands in inline storage.
abbrev short : LookupKey.LookupKey
short = record {
  inline_storage = 9 ∷ (stored ++ replicate 190 0);
  heap_storage = none;
  encoded_size = 10;
  internal_key_offset = 1;
}

create-short : LookupKey.create (97 ∷ []) 9 ≡ some (ok short)
unfolding LookupKey.create create_trusted encode_internal_key_trusted encode_varint_trusted
    encode_fixed_trusted varint_length pack_internal_key_trailer
create-short = refl

move_construct_views_example :
    (memtable_key (move_construct short).0 ≡ memtable_key short)
    × (internal_key (move_construct short).0 ≡ internal_key short)
    × (memtable_key (move_construct short).1
        ≡ encode_length_prefixed_trusted (encode_unchecked [] 0 seek_value_kind))
    × (internal_key (move_construct short).1 ≡ encode_unchecked [] 0 seek_value_kind)
move_construct_views_example = move_construct_views short refl
