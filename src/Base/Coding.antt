-- ===== src/Base/Coding.antt =====
-- src/base/coding.cc and src/base/coding_internal.h: fixed-width integers, varints and
-- length-prefixed values. A function that advances an input view returns the rest of it; on an
-- error the view stays as it was. The theorems are in the modules below.
pub mod Fixed
pub mod Varint
pub mod VarintRoundTrip
pub mod Prefixed
use mathlib.Core.Logic.{dite}
use mathlib.Core.WellFounded.{Acc}
use native.Mathlib.Decide.{dec_lt}
use modern_level_db.Prelude.{
  ℕ, zero, suc, ◌+◌, ◌-◌, ◌*◌, ◌/◌, ◌%◌, ◌^◌, ◌<◌, ◌≤◌, bit_and, bit_or, List, [], ◌∷◌, ◌++◌,
  String, Option, none, some, Bool, true, false, ltb, ◌==◌, if◌then◌else◌, length, take, drop,
  replicate, arith,
}
use modern_level_db.Prelude.Order.{lt_wf}
use modern_level_db.Base.Error
use modern_level_db.Base.Error.{Result, ok, err, ◌>>=◌, Status, ◌>>◌}
use modern_level_db.Base.Bytes.{write_at}

-- On a little-endian target the source copies the word's memory: its bytes, lowest first.
unfoldable pub encode_fixed_trusted : ℕ → ℕ → List ℕ
encode_fixed_trusted zero value = []
encode_fixed_trusted (suc size) value = (value % 256) ∷ encode_fixed_trusted size (value / 256)

unfoldable pub decode_fixed_trusted : List ℕ → ℕ
decode_fixed_trusted [] = 0
decode_fixed_trusted (byte ∷ bytes) = byte + 256 * decode_fixed_trusted bytes

-- The loops of the other targets: `size` bytes are left, from `index` on.
unfoldable pub encode_fixed_loop : ℕ → ℕ → ℕ → List ℕ
encode_fixed_loop zero index value = []
encode_fixed_loop (suc size) index value =
    bit_and (value / 2 ^ (index * 8)) 0xff ∷ encode_fixed_loop size (index + 1) value

unfoldable pub decode_fixed_loop : List ℕ → ℕ → ℕ → ℕ
decode_fixed_loop [] index value = value
decode_fixed_loop (byte ∷ bytes) index value =
    decode_fixed_loop bytes (index + 1) (bit_or value (byte * 2 ^ (index * 8)))

unfoldable pub append_fixed : ℕ → List ℕ → ℕ → List ℕ
append_fixed size output value = output ++ encode_fixed_trusted size value

unfoldable pub consume_fixed : ℕ → String → List ℕ → Result (ℕ × List ℕ)
consume_fixed size truncated_message input =
    if ltb (length input) size
    then err (Error.corruption truncated_message)
    else ok (decode_fixed_trusted (take size input), drop size input)

abbrev pub append_fixed32 : List ℕ → ℕ → List ℕ
append_fixed32 = append_fixed 4

abbrev pub append_fixed64 : List ℕ → ℕ → List ℕ
append_fixed64 = append_fixed 8

abbrev pub consume_fixed32 : List ℕ → Result (ℕ × List ℕ)
consume_fixed32 = consume_fixed 4 "truncated fixed32"

abbrev pub consume_fixed64 : List ℕ → Result (ℕ × List ℕ)
consume_fixed64 = consume_fixed 8 "truncated fixed64"

-- The unsigned types that the varint templates are used at.
pub data Width : Type 0 where
  u32 u64 : Width

abbrev pub value_bits : Width → ℕ
value_bits u32 = 32
value_bits u64 = 64

abbrev pub max_bytes : Width → ℕ
max_bytes w = (value_bits w + 7 - 1) / 7

pub group_shrinks : (value : ℕ) → 0x7f < value → value / 128 < value
group_shrinks value h = omega arith

varint_length_loop : (value : ℕ) → Acc ◌<◌ value → ℕ → ℕ
varint_length_loop value (Acc.intro _ smaller) size =
    dite (dec_lt 0x7f value)
      (λ more. varint_length_loop (value / 128) (smaller _ (group_shrinks value more)) (size + 1))
      (λ _. size)

unfoldable pub varint_length : ℕ → ℕ
unfolding varint_length_loop lt_wf dec_lt
varint_length value = varint_length_loop value (lt_wf.apply value) 1

encode_varint_loop : (value : ℕ) → Acc ◌<◌ value → List ℕ
encode_varint_loop value (Acc.intro _ smaller) =
    dite (dec_lt 0x7f value)
      (λ more.
        (bit_or (bit_and value 0x7f) 0x80)
        ∷ encode_varint_loop (value / 128) (smaller _ (group_shrinks value more)))
      (λ _. value ∷ [])

-- The bytes that the loop writes; the output view moves past them.
unfoldable pub encode_varint_trusted : ℕ → List ℕ
unfolding encode_varint_loop lt_wf dec_lt
encode_varint_trusted value = encode_varint_loop value (lt_wf.apply value)

-- The whole buffer after the call, and the view behind what was written; `none` is `false`.
unfoldable pub encode_varint : List ℕ → ℕ → Option (List ℕ × List ℕ)
encode_varint output value =
    if ltb (length output) (varint_length value)
    then none
    else some (
      write_at output 0 (encode_varint_trusted value),
      drop (length (encode_varint_trusted value)) output,
    )

-- The vector grows by the computed size, and the encoder writes into the new part.
unfoldable pub append_varint_with_size : List ℕ → ℕ → ℕ → List ℕ
append_varint_with_size output value encoded_size =
    write_at (output ++ replicate encoded_size 0) (length output) (encode_varint_trusted value)

unfoldable pub append_varint : List ℕ → ℕ → List ℕ
unfolding append_varint_with_size
append_varint output value = append_varint_with_size output value (varint_length value)

-- `value |= static_cast<UInt>(payload) << shift`
abbrev pub fold_varint_payload : Width → ℕ → ℕ → ℕ → ℕ
fold_varint_payload w value payload shift = bit_or value (payload * 2 ^ shift % 2 ^ value_bits w)

-- `rounds` bytes may still be read; `index` have been.
unfoldable pub consume_varint_loop : Width → ℕ → ℕ → ℕ → List ℕ → Result (ℕ × List ℕ)
consume_varint_loop w zero index value input = err (Error.corruption "invalid varint")
consume_varint_loop w (suc rounds) index value [] = err (Error.corruption "truncated varint")
consume_varint_loop w (suc rounds) index value (byte ∷ input) =
    let value' = fold_varint_payload w value (bit_and byte 0x7f) (index * 7) in
    let more = consume_varint_loop w rounds (index + 1) value' input in
    if bit_and byte 0x80 == 0
    then ok (value', input)
    else if index + 1 == max_bytes w
    then err (Error.corruption "varint overflow")
    else more

unfoldable pub consume_varint : Width → List ℕ → Result (ℕ × List ℕ)
unfolding consume_varint_loop
consume_varint w input = consume_varint_loop w (max_bytes w) 0 0 input

-- `none` is a read past the end of the bytes, which the callers exclude.
unfoldable pub consume_varint_trusted_loop : Width → ℕ → ℕ → List ℕ → Option (ℕ × List ℕ)
consume_varint_trusted_loop w shift value [] = none
consume_varint_trusted_loop w shift value (byte ∷ input) =
    let value' = fold_varint_payload w value (bit_and byte 0x7f) shift in
    let more = consume_varint_trusted_loop w (shift + 7) value' input in
    if bit_and byte 0x80 == 0 then some (value', input) else more

unfoldable pub consume_varint_trusted : Width → List ℕ → Option (ℕ × List ℕ)
unfolding consume_varint_trusted_loop
consume_varint_trusted w input = consume_varint_trusted_loop w 0 0 input

-- The length of a view as a `uint32_t`.
abbrev pub length32 : List ℕ → ℕ
length32 value = length value % 2 ^ 32

unfoldable pub encode_length_prefixed_trusted : List ℕ → List ℕ
encode_length_prefixed_trusted value = encode_varint_trusted (length32 value) ++ value

unfoldable pub append_length_prefixed : List ℕ → List ℕ → List ℕ
append_length_prefixed output value =
    write_at (output ++ replicate (varint_length (length32 value) + length value) 0) (length output)
      (encode_length_prefixed_trusted value)

unfoldable pub validate_length_prefixed_payload : List ℕ → ℕ → Status
validate_length_prefixed_payload remaining size =
    if ltb (length remaining) size
    then err (Error.corruption "truncated length-prefixed value")
    else ok tt

unfoldable pub consume_length_prefixed : List ℕ → Result (List ℕ × List ℕ)
unfolding validate_length_prefixed_payload
consume_length_prefixed input = do
  (size, remaining) ← consume_varint u32 input
  validate_length_prefixed_payload remaining size
  ok (take size remaining, drop size remaining)

unfoldable pub consume_length_prefixed_trusted : List ℕ → Option (List ℕ × List ℕ)
consume_length_prefixed_trusted input = elim (consume_varint_trusted u32 input) [
  | none ↦ none
  | some (size, rest) ↦
      if ltb (length rest) size then none else some (take size rest, drop size rest)
]
