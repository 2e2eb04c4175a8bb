-- ===== src/Format/LookupKey/Views.antt =====
-- src/format/internal_key.cc: what the views of a `LookupKey` show, also after a move.
use modern_level_db.Prelude.{
  ℕ, ◌+◌, ◌%◌, ◌^◌, ◌≡◌, refl, sym, ap, ◌∙◌, List, ◌++◌, [], ◌∷◌, none, arith, length, take, drop,
  some, ◌↔◌, ◌≤◌, length-append, take-append, drop-append, set,
}
use modern_level_db.Base.Bytes.{write_at}
use modern_level_db.Base.Coding.{
  append_fixed, u32, varint_length, encode_varint_trusted, encode_fixed_trusted,
  encode_length_prefixed_trusted,
}
use modern_level_db.Base.Coding.Varint.{encode_varint_trusted_shape}
use modern_level_db.Base.Coding.Fixed.{length-encode_fixed_trusted}
use modern_level_db.Format.InternalKey.{
  before_last, seek_value_kind, encode_internal_key_trusted, encode_unchecked,
  pack_internal_key_trailer,
}
use modern_level_db.Format.InternalKey.RoundTrip.{
  encode_unchecked_lem, length-encode, before_last-encode,
}
use modern_level_db.Format.LookupKey.Storage.{Shows, write_storage-construct}
use modern_level_db.Format.LookupKey.{
  LookupKey, construct, write_storage, create_trusted, memtable_key, internal_key, user_key,
  move_construct, inline_capacity, reset_to_canonical_empty,
}

target_bytes : List ℕ → ℕ → List ℕ
target_bytes key sequence =
    encode_varint_trusted ((length key + 8) % 2 ^ 32)
    ++ encode_internal_key_trusted key sequence seek_value_kind

prefix_length :
    (key : List ℕ)
    → length (encode_varint_trusted ((length key + 8) % 2 ^ 32))
      ≡ varint_length ((length key + 8) % 2 ^ 32)
prefix_length key =
    let (_, n, _, _) = encode_varint_trusted_shape u32 ((length key + 8) % 2 ^ 32) (omega arith) in
    n

length-target_bytes :
    (key : List ℕ) (sequence : ℕ)
    → length (target_bytes key sequence)
      ≡ varint_length ((length key + 8) % 2 ^ 32) + (length key + 8)
unfolding target_bytes
length-target_bytes key sequence = omega (
  arith,
  length-append (encode_varint_trusted ((length key + 8) % 2 ^ 32))
      (encode_internal_key_trusted key sequence seek_value_kind),
  prefix_length key,
  ap length (encode_unchecked_lem key sequence seek_value_kind),
  length-encode key sequence seek_value_kind,
)

-- The target is the length-prefixed internal key.
target_bytes_lem :
    (key : List ℕ) (sequence : ℕ)
    → target_bytes key sequence
      ≡ encode_length_prefixed_trusted (encode_unchecked key sequence seek_value_kind)
unfolding encode_length_prefixed_trusted target_bytes
target_bytes_lem key sequence =
    rw (
      length-encode key sequence seek_value_kind,
      encode_unchecked_lem key sequence seek_value_kind,
    )

create_trusted-Shows :
    (key : List ℕ) (sequence : ℕ)
    → (lookup : LookupKey) × (create_trusted key sequence ≡ some lookup)
      × Shows lookup (target_bytes key sequence) (varint_length ((length key + 8) % 2 ^ 32))
unfolding create_trusted target_bytes
create_trusted-Shows key sequence =
    let prefix = varint_length ((length key + 8) % 2 ^ 32) in
    let (lookup, e, shows) = write_storage-construct prefix (target_bytes key sequence) in
    (
      lookup,
      ap (λ size. write_storage (construct size prefix) (target_bytes key sequence))
            (sym (length-target_bytes key sequence))
          ∙ e,
      shows,
    )

internal_key_lem :
    (key : LookupKey) → internal_key key ≡ drop key.internal_key_offset (memtable_key key)
unfolding internal_key
internal_key_lem key = refl

user_key_lem : (key : LookupKey) → user_key key ≡ before_last 8 (internal_key key)
unfolding user_key
user_key_lem key = refl

internal_key-Shows :
    {lookup : LookupKey} (key : List ℕ) (sequence : ℕ)
    → Shows lookup (target_bytes key sequence) (varint_length ((length key + 8) % 2 ^ 32))
    → internal_key lookup ≡ encode_unchecked key sequence seek_value_kind
unfolding target_bytes
internal_key-Shows {lookup} key sequence shows =
    internal_key_lem lookup
    ∙ rw (shows.shown, shows.offset) (drop-append _ _ _ (sym (prefix_length key)))
    ∙ sym (encode_unchecked_lem key sequence seek_value_kind)

-- Creating a lookup key writes inside its storage. The views of the new key are the length-prefixed
-- internal key, the internal key at the snapshot and the user key, its inline array keeps its 200
-- bytes, and it has no heap storage exactly when the prefixed key takes at most those.
pub create_trusted_views :
    (key : List ℕ) (sequence : ℕ)
    → (lookup : LookupKey) × (create_trusted key sequence ≡ some lookup)
      × (memtable_key lookup
          ≡ encode_length_prefixed_trusted (encode_unchecked key sequence seek_value_kind))
      × (internal_key lookup ≡ encode_unchecked key sequence seek_value_kind)
      × (user_key lookup ≡ key)
      × (length lookup.inline_storage ≡ inline_capacity)
      × ((lookup.heap_storage ≡ none) ↔ (length (memtable_key lookup) ≤ inline_capacity))
create_trusted_views key sequence =
    let (lookup, made, shows) = create_trusted-Shows key sequence in
    let shown = internal_key-Shows key sequence shows in
    (
      lookup,
      made,
      shows.shown ∙ target_bytes_lem key sequence,
      shown,
      user_key_lem lookup ∙ rw shown (before_last-encode key sequence seek_value_kind),
      shows.inline_length,
      rw shows.shown shows.inline_iff,
    )

canonical_storage :
    (inline trailer : List ℕ)
    → length trailer ≡ 8
    → length inline ≡ inline_capacity
    → take 9 (write_at (set inline 0 8) 1 trailer) ≡ 8 ∷ trailer
canonical_storage [] trailer h n = absurd (omega arith)
canonical_storage (x ∷ inline) trailer h n = ap (λ l. 8 ∷ l) (take-append 8 trailer _ (sym h))

empty_target :
    encode_length_prefixed_trusted (encode_unchecked [] 0 seek_value_kind)
    ≡ 8 ∷ encode_fixed_trusted 8 (pack_internal_key_trailer 0 seek_value_kind)
unfolding encode_length_prefixed_trusted encode_unchecked append_fixed encode_varint_trusted
    encode_fixed_trusted pack_internal_key_trailer
empty_target = refl

empty_internal_key :
    encode_fixed_trusted 8 (pack_internal_key_trailer 0 seek_value_kind)
    ≡ encode_unchecked [] 0 seek_value_kind
unfolding encode_unchecked append_fixed
empty_internal_key = refl

module _ (source : LookupKey) (n : length source.inline_storage ≡ inline_capacity) where
  memtable_key-reset :
      memtable_key (reset_to_canonical_empty (record source { heap_storage = none }))
      ≡ 8 ∷ encode_fixed_trusted 8 (pack_internal_key_trailer 0 seek_value_kind)
  unfolding memtable_key reset_to_canonical_empty
  memtable_key-reset =
      canonical_storage source.inline_storage _
        (length-encode_fixed_trusted 8 (pack_internal_key_trailer 0 seek_value_kind)) n

  offset-reset :
      (reset_to_canonical_empty (record source { heap_storage = none })).internal_key_offset ≡ 1
  unfolding reset_to_canonical_empty
  offset-reset = refl

  -- A moved lookup key has the views of its source, and the source is left as the key of the empty
  -- user key at sequence 0.
  pub move_construct_views :
      (memtable_key (move_construct source).0 ≡ memtable_key source)
      × (internal_key (move_construct source).0 ≡ internal_key source)
      × (memtable_key (move_construct source).1
          ≡ encode_length_prefixed_trusted (encode_unchecked [] 0 seek_value_kind))
      × (internal_key (move_construct source).1 ≡ encode_unchecked [] 0 seek_value_kind)
  unfolding move_construct
  move_construct_views = (
    refl,
    refl,
    memtable_key-reset ∙ sym empty_target,
    internal_key_lem _ ∙ rw (offset-reset, memtable_key-reset) empty_internal_key,
  )
