-- ===== src/Format/InternalKey.antt =====
-- src/format/internal_key.h and src/format/internal_key.cc: the keys of the stored history and
-- their trailers. `ValueKind` is an enumeration over `uint8_t`, to which any
-- byte is cast: a kind is a number.
pub mod Trailer
pub mod RoundTrip
use modern_level_db.Prelude.{
  ℕ, ◌+◌, ◌-◌, ◌*◌, ◌/◌, ◌%◌, ◌^◌, bit_and, bit_or, List, [], ◌∷◌, ◌++◌, Bool, true, false, ◌||◌,
  ◌&&◌, not, ltb, leb, ◌==◌, if◌then◌else◌, length, take, drop,
}
use modern_level_db.Base.Error
use modern_level_db.Base.Error.{Result, ok, err, Status, ◌>>=◌, ◌>>◌}
use modern_level_db.Base.Coding.{encode_fixed_trusted, decode_fixed_trusted, append_fixed64}

abbrev pub max_sequence_number : ℕ
max_sequence_number = 2 ^ 56 - 1

abbrev pub internal_key_trailer_size : ℕ
internal_key_trailer_size = 8

abbrev pub deletion : ℕ
deletion = 0

abbrev pub value : ℕ
value = 1

abbrev pub seek_value_kind : ℕ
seek_value_kind = value

unfoldable pub is_valid_value_kind : ℕ → Bool
is_valid_value_kind kind = kind == deletion || kind == value

unfoldable pub pack_internal_key_trailer : ℕ → ℕ → ℕ
pack_internal_key_trailer sequence kind = bit_or (sequence * 2 ^ 8 % 2 ^ 64) kind

unfoldable pub decode_internal_key_sequence : ℕ → ℕ
decode_internal_key_sequence trailer = trailer / 2 ^ 8

unfoldable pub decode_internal_key_value_kind : ℕ → ℕ
decode_internal_key_value_kind trailer = bit_and trailer 0xff

-- The last bytes of a view, and all before them.
abbrev pub last : ℕ → List ℕ → List ℕ
last n bytes = drop (length bytes - n) bytes

abbrev pub before_last : ℕ → List ℕ → List ℕ
before_last n bytes = take (length bytes - n) bytes

unfoldable pub decode_internal_key_trailer : List ℕ → ℕ
decode_internal_key_trailer encoded = decode_fixed_trusted (last internal_key_trailer_size encoded)

pub record InternalKeyView : Type 0 where
  pub user_key : List ℕ
  pub sequence : ℕ
  pub kind : ℕ

pub data InternalKeyDecodeIssue : Type 0 where
  none short_trailer unknown_kind : InternalKeyDecodeIssue

-- `decoded` keeps its value unless the key is complete.
unfoldable pub decode_internal_key_view :
    List ℕ → InternalKeyView → InternalKeyDecodeIssue × InternalKeyView
unfolding is_valid_value_kind
decode_internal_key_view encoded decoded =
    let trailer = decode_internal_key_trailer encoded in
    let kind = decode_internal_key_value_kind trailer in
    if ltb (length encoded) internal_key_trailer_size
    then (short_trailer, decoded)
    else if not (is_valid_value_kind kind)
    then (unknown_kind, decoded)
    else (
      none,
      record {
        user_key = before_last internal_key_trailer_size encoded;
        sequence = decode_internal_key_sequence trailer;
        kind = kind;
      },
    )

-- The value that the callers' `InternalKeyView` variable has before it is assigned.
abbrev pub blank_view : InternalKeyView
blank_view = record { user_key = []; sequence = 0; kind = 0 }

unfoldable pub try_decode_internal_key : List ℕ → InternalKeyView → Bool × InternalKeyView
unfolding decode_internal_key_view
try_decode_internal_key encoded decoded =
    let (issue, view) = decode_internal_key_view encoded decoded in
    (elim issue [ none ↦ true | short_trailer ↦ false | unknown_kind ↦ false ], view)

parsed : InternalKeyDecodeIssue × InternalKeyView → Result InternalKeyView
parsed (none, decoded) = ok decoded
parsed (short_trailer, decoded) = err (Error.corruption "internal key is shorter than its trailer")
parsed (unknown_kind, decoded) = err (Error.corruption "internal key has an unknown value kind")

unfoldable pub parse_internal_key : List ℕ → Result InternalKeyView
unfolding decode_internal_key_view parsed
parse_internal_key encoded = parsed (decode_internal_key_view encoded blank_view)

unfoldable pub validate_internal_key_input : ℕ → ℕ → Status
unfolding is_valid_value_kind
validate_internal_key_input sequence kind =
    if ltb max_sequence_number sequence
    then err (Error.invalid_argument "internal key sequence exceeds 56 bits")
    else if not (is_valid_value_kind kind)
    then err (Error.invalid_argument "internal key value kind is unsupported")
    else ok tt

unfoldable pub encode_unchecked : List ℕ → ℕ → ℕ → List ℕ
encode_unchecked user_key sequence kind =
    append_fixed64 ([] ++ user_key) (pack_internal_key_trailer sequence kind)

-- The bytes that `EncodeInternalKeyTrusted` writes into a large enough output.
unfoldable pub encode_internal_key_trusted : List ℕ → ℕ → ℕ → List ℕ
encode_internal_key_trusted user_key sequence kind =
    user_key
    ++ encode_fixed_trusted internal_key_trailer_size (pack_internal_key_trailer sequence kind)

-- The class `InternalKey`: it owns an encoded key.
pub record InternalKey : Type 0 where
  pub encoded : List ℕ

unfoldable pub create : List ℕ → ℕ → ℕ → Result InternalKey
unfolding validate_internal_key_input
create user_key sequence kind = do
  validate_internal_key_input sequence kind
  ok (record { encoded = encode_unchecked user_key sequence kind })

unfoldable pub decode : List ℕ → Result InternalKey
decode encoded = do _ ← parse_internal_key encoded; ok (record { encoded = encoded })

unfoldable pub user_key : InternalKey → List ℕ
user_key key = before_last internal_key_trailer_size key.encoded

unfoldable pub sequence : InternalKey → ℕ
sequence key = decode_internal_key_sequence (decode_internal_key_trailer key.encoded)

unfoldable pub kind : InternalKey → ℕ
kind key = decode_internal_key_value_kind (decode_internal_key_trailer key.encoded)
