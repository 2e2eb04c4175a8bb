-- ===== src/Base/Coding/Fixed.antt =====
-- src/base/coding.cc: the fixed-width integers, on both kinds of target.
use native.Mathlib.Nat.{div-div-eq-div-mul, mul_comm, pow-succ'}
use native.Mathlib.Numerals.{towards_suc}
use modern_level_db.Prelude.{
  ℕ, zero, suc, ◌+◌, ◌*◌, ◌/◌, ◌%◌, ◌^◌, ◌<◌, ◌≤◌, ◌≡◌, refl, sym, ap, ◌∙◌, List, [], ◌∷◌, ◌++◌,
  length, take-append, drop-append, length-append, String, arith, le→ltb, lt→ltb, ltb, false,
}
use modern_level_db.Prelude.Bits.{bit_or_above, mask_eight}
use modern_level_db.Base.Error
use modern_level_db.Base.Error.{ok, err}
use modern_level_db.Base.Bytes.{AreBytes}
use modern_level_db.Base.Coding.{
  encode_fixed_trusted, decode_fixed_trusted, encode_fixed_loop, decode_fixed_loop, append_fixed,
  consume_fixed,
}

pub length-encode_fixed_trusted : (size value : ℕ) → length (encode_fixed_trusted size value) ≡ size
unfolding encode_fixed_trusted
length-encode_fixed_trusted zero value = refl
length-encode_fixed_trusted (suc size) value =
    ap suc (length-encode_fixed_trusted size (value / 256))

pub encode_fixed_trusted-AreBytes : (size value : ℕ) → AreBytes (encode_fixed_trusted size value)
unfolding encode_fixed_trusted
encode_fixed_trusted-AreBytes zero value = tt
encode_fixed_trusted-AreBytes (suc size) value =
    (omega arith, encode_fixed_trusted-AreBytes size (value / 256))

-- A value that fits the word is what its little-endian bytes decode to.
pub decode-encode_fixed_trusted :
    (size value : ℕ)
    → value < 256 ^ size
    → decode_fixed_trusted (encode_fixed_trusted size value) ≡ value
unfolding encode_fixed_trusted decode_fixed_trusted
decode-encode_fixed_trusted zero value h = omega arith
decode-encode_fixed_trusted (suc size) value h =
    omega (arith, decode-encode_fixed_trusted size (value / 256) (omega arith))

-- Bytes are the encoding of the word that they decode to.
pub encode-decode_fixed_trusted :
    (bytes : List ℕ)
    → AreBytes bytes
    → encode_fixed_trusted (length bytes) (decode_fixed_trusted bytes) ≡ bytes
unfolding encode_fixed_trusted decode_fixed_trusted
encode-decode_fixed_trusted [] h = refl
encode-decode_fixed_trusted (byte ∷ bytes) (hb, hs) =
    let rest = decode_fixed_trusted bytes in
    let low : (byte + 256 * rest) % 256 ≡ byte = omega arith in
    let high : (byte + 256 * rest) / 256 ≡ rest = omega arith in
    rw (low, high, encode-decode_fixed_trusted bytes hs)

pub decode_fixed_trusted-lt :
    (bytes : List ℕ) → AreBytes bytes → decode_fixed_trusted bytes < 256 ^ length bytes
unfolding decode_fixed_trusted
decode_fixed_trusted-lt [] h = omega arith
decode_fixed_trusted-lt (byte ∷ bytes) (hb, hs) =
    rw (pow-succ' 256 (length bytes)) (omega (arith, decode_fixed_trusted-lt bytes hs))

eight_more : (s : ℕ) → 2 ^ (s + 8) ≡ 256 * 2 ^ s
eight_more s = simp towards_suc (omega arith)

byte_shift : (i : ℕ) → 2 ^ ((i + 1) * 8) ≡ 256 * 2 ^ (i * 8)
byte_shift i = let e : (i + 1) * 8 ≡ i * 8 + 8 = omega arith in rw e (eight_more (i * 8))

next_byte : (index value : ℕ) → value / 2 ^ (index * 8) / 256 ≡ value / 2 ^ ((index + 1) * 8)
next_byte index value = rw (div-div-eq-div-mul, byte_shift, mul_comm (2 ^ (index * 8)) 256)

encode_fixed_loop_from :
    (size index value : ℕ)
    → encode_fixed_loop size index value ≡ encode_fixed_trusted size (value / 2 ^ (index * 8))
unfolding encode_fixed_loop encode_fixed_trusted
encode_fixed_loop_from zero index value = refl
encode_fixed_loop_from (suc size) index value =
    rw (mask_eight, next_byte, encode_fixed_loop_from size (index + 1) value)

decode_fixed_loop_from :
    (bytes : List ℕ) (index value : ℕ)
    → value < 2 ^ (index * 8)
    → AreBytes bytes
    → decode_fixed_loop bytes index value ≡ value + 2 ^ (index * 8) * decode_fixed_trusted bytes
unfolding decode_fixed_loop decode_fixed_trusted
decode_fixed_loop_from [] index value h k = omega arith
decode_fixed_loop_from (byte ∷ bytes) index value h (hb, hs) =
    let unit = 2 ^ (index * 8) in
    let room : byte * unit ≤ 255 * unit = grind arith in
    let fits : value + byte * unit < 2 ^ ((index + 1) * 8) = rw (byte_shift index) (omega arith) in
    rw (bit_or_above (index * 8) value byte h) (
      decode_fixed_loop_from bytes (index + 1) (value + byte * unit) fits hs
      ∙ rw (byte_shift index) (omega arith))

-- The shifting encoder of the other targets writes the little-endian bytes of the word.
pub encode_fixed_loop_lem :
    (size value : ℕ) → encode_fixed_loop size 0 value ≡ encode_fixed_trusted size value
encode_fixed_loop_lem size value =
    let e : value / 1 ≡ value = omega arith in
    encode_fixed_loop_from size 0 value ∙ ap (encode_fixed_trusted size) e

-- On bytes, the shifting decoder of the other targets reads the little-endian word.
pub decode_fixed_loop_lem :
    (bytes : List ℕ) → AreBytes bytes → decode_fixed_loop bytes 0 0 ≡ decode_fixed_trusted bytes
decode_fixed_loop_lem bytes h = omega (arith, decode_fixed_loop_from bytes 0 0 (omega arith) h)

-- A fixed-width word that was appended is consumed again, and the bytes behind it are left.
pub consume-append_fixed :
    (size value : ℕ) (message : String) (rest : List ℕ)
    → value < 256 ^ size
    → consume_fixed size message (append_fixed size [] value ++ rest) ≡ ok (value, rest)
unfolding consume_fixed append_fixed
consume-append_fixed size value message rest h =
    let bytes = encode_fixed_trusted size value in
    let size_eq = length-encode_fixed_trusted size value in
    let enough : ltb (length (bytes ++ rest)) size ≡ false =
      le→ltb _ _ (omega (arith, length-append bytes rest)) in
    rw (
      enough,
      take-append size bytes rest (sym size_eq),
      drop-append size bytes rest (sym size_eq),
      decode-encode_fixed_trusted size value h,
    )

pub consume_fixed-short :
    (size : ℕ) (message : String) (input : List ℕ)
    → length input < size
    → consume_fixed size message input ≡ err (Error.corruption message)
unfolding consume_fixed
consume_fixed-short size message input h = rw (lt→ltb _ _ h)
