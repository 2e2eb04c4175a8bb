-- ===== src/Table/Block.antt =====
-- src/table/block.h and src/table/block.cc: an encoded block, the decoding of an entry, and the walk
-- that validates all entries. A pointer into the entries is what lies from it to their end.
pub mod Items
pub mod Decoding
pub mod Shape
pub mod Restarts
pub mod Validated
pub mod Iterator
pub mod Prev
use modern_level_db.Prelude.{
  ℕ, zero, suc, ◌+◌, ◌-◌, ◌*◌, ◌/◌, bit_and, bit_or, List, [], ◌∷◌, ◌++◌, Option, none, some, Bool,
  true, false, not, ◌||◌, ◌&&◌, ltb, leb, ◌==◌, if◌then◌else◌, length, take, drop,
}
use modern_level_db.Prelude.Options.{◌>>=◌}
use modern_level_db.Base.Error
use modern_level_db.Base.Error.{Result, Status, ok, err}
use modern_level_db.Base.Coding.{u32, fold_varint_payload, decode_fixed_trusted}
use modern_level_db.Format.InternalKey.{last}
use modern_level_db.Table.BlockFormat.{BlockContents, contents_data}

abbrev pub fixed32_size : ℕ
fixed32_size = 4

pub record Layout : Type 0 where
  pub contents : List ℕ
  pub entries_end : ℕ
  pub restart_count : ℕ

pub record Block : Type 0 where
  pub contents : BlockContents
  pub layout : Layout

pub record EntryHeader : Type 0 where
  pub shared : ℕ
  pub non_shared : ℕ
  pub value_size : ℕ
  pub payload : List ℕ

pub record DecodedEntry : Type 0 where
  pub shared : ℕ
  pub key_delta : List ℕ
  pub value : List ℕ
  pub header_size : ℕ

-- As many more rounds as the first number says; the index is that of the next byte.
unfoldable pub decode_varint32_loop : ℕ → ℕ → ℕ → List ℕ → Option (ℕ × List ℕ)
decode_varint32_loop zero index value input = none
decode_varint32_loop (suc rounds) index value [] = none
decode_varint32_loop (suc rounds) index value (byte ∷ input) =
    let value' = fold_varint_payload u32 value (bit_and byte 0x7f) (index * 7) in
    let more = decode_varint32_loop rounds (index + 1) value' input in
    if bit_and byte 0x80 == 0 then some (value', input) else more

unfoldable pub decode_varint32_fallback : List ℕ → Option (ℕ × List ℕ)
decode_varint32_fallback input = decode_varint32_loop 5 0 0 input

unfoldable pub decode_varint32 : List ℕ → Option (ℕ × List ℕ)
decode_varint32 [] = decode_varint32_fallback []
decode_varint32 (byte ∷ input) =
    if ltb byte 128 then some (byte, input) else decode_varint32_fallback (byte ∷ input)

-- The three lengths one after the other.
unfoldable pub decode_lengths : List ℕ → Option EntryHeader
decode_lengths input = do
  (shared, after_shared) ← decode_varint32 input
  (non_shared, after_non_shared) ← decode_varint32 after_shared
  (value_size, payload) ← decode_varint32 after_non_shared
  some (record {
    shared = shared;
    non_shared = non_shared;
    value_size = value_size;
    payload = payload;
  })

-- Three lengths below 128 are their bytes.
unfoldable pub decode_entry_header : List ℕ → Option EntryHeader
decode_entry_header (shared ∷ non_shared ∷ value_size ∷ payload) =
    if ltb (bit_or (bit_or shared non_shared) value_size) 128
    then some (record {
      shared = shared;
      non_shared = non_shared;
      value_size = value_size;
      payload = payload;
    })
    else decode_lengths (shared ∷ non_shared ∷ value_size ∷ payload)
decode_entry_header input = none

unfoldable pub has_entry_payload : EntryHeader → Bool
has_entry_payload header = leb (header.non_shared + header.value_size) (length header.payload)

-- From a pointer into the entries; the first test is that of three bytes.
unfoldable pub decode_entry : List ℕ → Option EntryHeader
unfolding decode_entry_header has_entry_payload
decode_entry input = do
  header ← decode_entry_header input
  if has_entry_payload header then some header else none

-- What lies between an offset and the end of the entries.
abbrev pub entries_from : Layout → ℕ → List ℕ
entries_from layout offset = drop offset (take layout.entries_end layout.contents)

unfoldable pub restart_point : Layout → ℕ → ℕ
restart_point layout index =
    decode_fixed_trusted
      (take fixed32_size (drop (layout.entries_end + fixed32_size * index) layout.contents))

unfoldable pub read_entry : Layout → ℕ → ℕ → Option DecodedEntry
read_entry layout offset previous_key_size = do
  header ← decode_entry (entries_from layout offset)
  if ltb previous_key_size header.shared
      then none
      else some (record {
        shared = header.shared;
        key_delta = take header.non_shared header.payload;
        value = take header.value_size (drop header.non_shared header.payload);
        header_size = length (entries_from layout offset) - length header.payload;
      })

abbrev pub reconstruct_key : List ℕ → DecodedEntry → List ℕ
reconstruct_key key entry = take entry.shared key ++ entry.key_delta

unfoldable pub validate_restart_entry : Layout → ℕ → ℕ → ℕ → Result ℕ
validate_restart_entry layout offset shared restart_index =
    let restart = restart_point layout restart_index in
    if not (ltb restart_index layout.restart_count)
    then ok restart_index
    else if ltb restart offset || (restart == offset && not (shared == 0))
    then err (Error.corruption "block restart points are invalid")
    else if restart == offset
    then ok (restart_index + 1)
    else ok restart_index

unfoldable pub read_restart_count : List ℕ → Result ℕ
read_restart_count bytes =
    let restart_count = decode_fixed_trusted (last fixed32_size bytes) in
    if ltb (length bytes) fixed32_size
    then err (Error.corruption "block is too short")
    else if ltb ((length bytes - fixed32_size) / fixed32_size) restart_count
    then err (Error.corruption "block restart count is invalid")
    else ok restart_count

unfoldable pub create : BlockContents → Result Block
create contents = elim (read_restart_count (contents_data contents)) [
  | err e ↦ err e
  | ok restart_count ↦ ok (record {
    contents = contents;
    layout = record {
      contents = contents_data contents;
      entries_end = length (contents_data contents) - fixed32_size * (restart_count + 1);
      restart_count = restart_count;
    };
  })
]

unfoldable pub empty : Block → Bool
empty block =
    block.layout.restart_count == 0
    || block.layout.entries_end == 0
    || leb block.layout.entries_end (restart_point block.layout 0)

-- A visitor that may fail, with the state of what it captures.
abbrev pub EntryVisitor {ℓ} : Type ℓ → Type ℓ
EntryVisitor V = List ℕ → List ℕ → V → Status × V

module _ {ℓ} {V : Type ℓ} (layout : Layout) (visitor : EntryVisitor V) where
  -- The test behind the loop.
  unfoldable pub matched_restarts : ℕ → Status
  matched_restarts restart_index =
      let matched = if layout.entries_end == 0 then 1 else restart_index in
      if matched == layout.restart_count
      then ok tt
      else err (Error.corruption "block restart points are invalid")

  -- The loop; `none` is out of fuel.
  unfoldable pub validate_loop : ℕ → ℕ → List ℕ → ℕ → V → Option (Status × V)
  validate_loop zero offset key restart_index v = none
  validate_loop (suc fuel) offset key restart_index v = elim (ltb offset layout.entries_end) [
    | false ↦ some (matched_restarts restart_index, v)
    | true ↦ elim (read_entry layout offset (length key)) [
      | none ↦ some (err (Error.corruption "block entry is malformed"), v)
      | some entry ↦ elim (validate_restart_entry layout offset entry.shared restart_index) [
        | err e ↦ some (err e, v)
        | ok restart_index' ↦
            let key' = reconstruct_key key entry in
            let (visited, v') = visitor key' entry.value v in
            elim visited [
              | err e ↦ some (err e, v')
              | ok _ ↦
                  validate_loop fuel
                    (offset + entry.header_size + length entry.key_delta + length entry.value) key'
                    restart_index' v'
            ]
      ]
    ]
  ]

-- Every entry takes bytes, so the loop has a round for each byte at most, and one for the end.
unfoldable pub validate_entries {ℓ} :
    {V : Type ℓ} → EntryVisitor V → Block → V → Option (Status × V)
validate_entries visitor block v =
    let layout = block.layout in
    if layout.restart_count == 0 || not (restart_point layout 0 == 0)
    then some (err (Error.corruption "block restart points are invalid"), v)
    else validate_loop layout visitor (suc layout.entries_end) 0 [] 0 v
