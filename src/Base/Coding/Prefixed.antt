-- ===== src/Base/Coding/Prefixed.antt =====
-- src/base/coding.cc: length-prefixed values.
use modern_level_db.Prelude.{
  ℕ, ◌+◌, ◌^◌, ◌<◌, ◌≤◌, ◌≡◌, refl, ap, ◌∙◌, List, ◌++◌, length, replicate, length-append,
  length-replicate, take, drop, take-append, drop-append, append_assoc, arith, some, le→ltb, ltb,
  false, length-drop, length-take,
}
use modern_level_db.Base.Error.{ok, >>=-eq-ok}
use modern_level_db.Base.Bytes.{write_at_end}
use modern_level_db.Base.Coding.{
  u32, encode_varint_trusted, consume_varint, varint_length, length32,
  encode_length_prefixed_trusted, append_length_prefixed, consume_length_prefixed,
  consume_length_prefixed_trusted,
}
use modern_level_db.Base.Coding.Varint.{encode_varint_trusted_shape}
use modern_level_db.Base.Coding.VarintRoundTrip.{
  consume-encode_varint, consume_varint_takes, consume_varint_trusted_lem,
}

-- Growing the output by the computed size and writing in place appends exactly the length-prefixed
-- encoding.
pub append_length_prefixed_lem :
    (output value : List ℕ)
    → append_length_prefixed output value ≡ output ++ encode_length_prefixed_trusted value
unfolding append_length_prefixed encode_length_prefixed_trusted
append_length_prefixed_lem output value =
    let (_, n, _, _) = encode_varint_trusted_shape u32 (length32 value) (omega arith) in
    let size = varint_length (length32 value) + length value in
    write_at_end output (replicate size 0) _ (
      length-replicate size 0
      ∙ omega (arith, length-append (encode_varint_trusted (length32 value)) value))

pub length-encode_length_prefixed_trusted :
    (value : List ℕ)
    → length (encode_length_prefixed_trusted value) ≡ varint_length (length32 value) + length value
unfolding encode_length_prefixed_trusted
length-encode_length_prefixed_trusted value =
    let (_, n, _, _) = encode_varint_trusted_shape u32 (length32 value) (omega arith) in
    omega (arith, length-append (encode_varint_trusted (length32 value)) value)

-- A value of less than 2^32 bytes is read back from its length-prefixed encoding, and the bytes
-- behind it are left.
pub consume-encode_length_prefixed :
    (value rest : List ℕ)
    → length value < 2 ^ 32
    → consume_length_prefixed (encode_length_prefixed_trusted value ++ rest) ≡ ok (value, rest)
unfolding consume_length_prefixed encode_length_prefixed_trusted
consume-encode_length_prefixed value rest h =
    let size : length32 value ≡ length value = omega arith in
    let room : ltb (length (value ++ rest)) (length value) ≡ false =
      le→ltb _ _ (omega (arith, length-append value rest)) in
    rw (
      append_assoc,
      size,
      consume-encode_varint u32 (length value) (value ++ rest) h,
      room,
      take-append (length value) value rest refl,
      drop-append (length value) value rest refl,
    )

-- What lies behind a decoded value: its prefix, and enough bytes for it.
consume_length_prefixed_parts :
    (input value rest : List ℕ)
    → consume_length_prefixed input ≡ ok (value, rest)
    → (size : ℕ) × (remaining : List ℕ) × (consume_varint u32 input ≡ ok (size, remaining))
      × (size ≤ length remaining)
      × (value ≡ take size remaining)
      × (rest ≡ drop size remaining)
unfolding consume_length_prefixed
consume_length_prefixed_parts input value rest e =
    let ((size, remaining), p, q) = >>=-eq-ok (consume_varint u32 input) _ e in
    (size, remaining, p, ground arith, ground arith, ground arith)

-- A length-prefixed value that is accepted is shorter than 2^32 and together with the rest is one
-- to five bytes shorter than the input.
pub consume_length_prefixed_takes :
    (input value rest : List ℕ)
    → consume_length_prefixed input ≡ ok (value, rest)
    → (length value < 2 ^ 32)
      × (length value + length rest < length input)
      × (length input ≤ length value + length rest + 5)
consume_length_prefixed_takes input value rest e =
    let (size, remaining, p, room, ev, er) = consume_length_prefixed_parts input value rest e in
    let (small, lo, hi) = consume_varint_takes u32 input size remaining p in
    let nv = ap length ev in
    let nr = ap length er in
    let whole : length value + length rest ≡ length remaining =
      omega (arith, length-take size remaining, length-drop size remaining) in
    (omega (arith, length-take size remaining), omega arith, omega arith)

-- On every input that the checked length-prefixed decoder accepts, the decoder without checks gives
-- the same value and the same rest.
pub consume_length_prefixed_trusted_lem :
    (input value rest : List ℕ)
    → consume_length_prefixed input ≡ ok (value, rest)
    → consume_length_prefixed_trusted input ≡ some (value, rest)
unfolding consume_length_prefixed_trusted
consume_length_prefixed_trusted_lem input value rest e =
    let (size, remaining, p, room, ev, er) = consume_length_prefixed_parts input value rest e in
    ground (arith, consume_varint_trusted_lem u32 input size remaining p)
