-- ===== src/Table/Block/Decoding.antt =====
-- src/table/block.cc: `DecodeEntry` on the bytes of an entry, with one-byte lengths or longer ones.
use modern_level_db.Prelude.{
  ℕ, zero, suc, ◌+◌, ◌*◌, ◌≤◌, ◌<◌, ◌^◌, ◌%◌, ◌≡◌, refl, ap, ◌∙◌, bit_and, bit_or, List, [], ◌∷◌,
  ◌++◌, some, true, ltb, leb, length, arith, append_assoc, length-append, Bool-cases, inl, inr,
}
use modern_level_db.Prelude.Bits.{bit_or_bounds, bit_or_nothing, mask_seven, top_bit}
use modern_level_db.Base.Error.{ok}
use modern_level_db.Base.Coding.{
  u32, fold_varint_payload, consume_varint, consume_varint_loop, encode_varint_trusted,
}
use modern_level_db.Base.Coding.Varint.{encode_varint_trusted_shape}
use modern_level_db.Base.Coding.VarintRoundTrip.{consume-encode_varint}
use modern_level_db.Table.Block.{
  decode_varint32_loop, decode_varint32_fallback, decode_varint32, decode_lengths,
  decode_entry_header, decode_entry, has_entry_payload,
}
use modern_level_db.Table.Block.Items.{Item, IsItem, header_bytes, item_bytes}

decode_varint32_loop_lem :
    (rounds index value : ℕ) (input : List ℕ) (v : ℕ) (rest : List ℕ)
    → consume_varint_loop u32 rounds index value input ≡ ok (v, rest)
    → decode_varint32_loop rounds index value input ≡ some (v, rest)
unfolding consume_varint_loop decode_varint32_loop
decode_varint32_loop_lem zero index value input v rest h = absurd (cc)
decode_varint32_loop_lem (suc rounds) index value [] v rest h = absurd (cc)
decode_varint32_loop_lem (suc rounds) index value (byte ∷ input) v rest h =
    let value' = fold_varint_payload u32 value (bit_and byte 0x7f) (index * 7) in
    ground (arith, decode_varint32_loop_lem rounds (index + 1) value' input v rest)

-- A byte below 128 is a varint, so the shortcut agrees.
small_byte :
    (byte : ℕ) (input : List ℕ)
    → byte < 128
    → decode_varint32_fallback (byte ∷ input) ≡ some (byte, input)
unfolding decode_varint32_fallback decode_varint32_loop
small_byte byte input h =
    let top = top_bit byte (omega arith) in
    let low = mask_seven byte in
    let folded : fold_varint_payload u32 0 (bit_and byte 0x7f) 0 ≡ byte =
      bit_or_nothing (bit_and byte 0x7f * 2 ^ 0 % 2 ^ 32) ∙ omega arith in
    let final : bit_and byte 0x80 ≡ 0 = omega arith in ground (arith, final, folded)

decode_varint32-fallback : (input : List ℕ) → decode_varint32 input ≡ decode_varint32_fallback input
unfolding decode_varint32
decode_varint32-fallback [] = refl
decode_varint32-fallback (byte ∷ input) = ground (arith, small_byte byte input)

decode-encode_varint32 :
    (value : ℕ) (rest : List ℕ)
    → value < 2 ^ 32
    → decode_varint32 (encode_varint_trusted value ++ rest) ≡ some (value, rest)
unfolding decode_varint32_fallback consume_varint
decode-encode_varint32 value rest h =
    decode_varint32-fallback (encode_varint_trusted value ++ rest)
    ∙ decode_varint32_loop_lem 5 0 0 (encode_varint_trusted value ++ rest) value rest
        (consume-encode_varint u32 value rest h)

decode_varint32-small :
    (byte : ℕ) (input : List ℕ) → byte < 128 → decode_varint32 (byte ∷ input) ≡ some (byte, input)
unfolding decode_varint32
decode_varint32-small byte input h = ground arith

-- Where all three bytes are below 128, reading them one by one gives the same.
decode_entry_header-lengths :
    (a b d : ℕ) (rest : List ℕ)
    → decode_entry_header (a ∷ b ∷ d ∷ rest) ≡ decode_lengths (a ∷ b ∷ d ∷ rest)
unfolding decode_entry_header decode_lengths
decode_entry_header-lengths a b d rest = elim (Bool-cases (ltb (bit_or (bit_or a b) d) 128)) [
  | inl small ↦
      let (p, q) = bit_or_bounds (bit_or a b) d in
      let (r, s) = bit_or_bounds a b in
      rw
        (
          small,
          decode_varint32-small a (b ∷ d ∷ rest) (ground (arith, small, p, r)),
          decode_varint32-small b (d ∷ rest) (ground (arith, small, p, s)),
          decode_varint32-small d rest (ground (arith, small, q)),
        )
        refl
  | inr big ↦ rw big refl
]

-- The lengths in front of any payload are read back.
decode_lengths-header_bytes :
    (item : Item) (previous payload : List ℕ)
    → IsItem previous item
    → decode_lengths (header_bytes item ++ payload)
      ≡ some (record {
        shared = item.shared;
        non_shared = length item.key_delta;
        value_size = length item.value;
        payload = payload;
      })
unfolding decode_lengths
decode_lengths-header_bytes item previous payload h =
    let a = encode_varint_trusted item.shared in
    let b = encode_varint_trusted (length item.key_delta) in
    let d = encode_varint_trusted (length item.value) in
    rw
      (
        append_assoc a (b ++ d) payload,
        append_assoc b d payload,
        decode-encode_varint32 item.shared (b ++ (d ++ payload)) h.shared_lt,
        decode-encode_varint32 (length item.key_delta) (d ++ payload) h.key_delta_lt,
        decode-encode_varint32 (length item.value) payload h.value_lt,
      )
      refl

pub length-header_bytes :
    (item : Item) (previous : List ℕ) → IsItem previous item → 3 ≤ length (header_bytes item)
length-header_bytes item previous h =
    let a = encode_varint_trusted item.shared in
    let b = encode_varint_trusted (length item.key_delta) in
    let d = encode_varint_trusted (length item.value) in
    let (_, e, p, _) = encode_varint_trusted_shape u32 item.shared h.shared_lt in
    let (_, f, q, _) = encode_varint_trusted_shape u32 (length item.key_delta) h.key_delta_lt in
    let (_, g, r, _) = encode_varint_trusted_shape u32 (length item.value) h.value_lt in
    omega (arith, length-append a (b ++ d), length-append b d)

decode_entry_header-long :
    (input : List ℕ) → 3 ≤ length input → decode_entry_header input ≡ decode_lengths input
decode_entry_header-long [] h = absurd (omega arith)
decode_entry_header-long (a ∷ []) h = absurd (omega arith)
decode_entry_header-long (a ∷ b ∷ []) h = absurd (omega arith)
decode_entry_header-long (a ∷ b ∷ d ∷ rest) h = decode_entry_header-lengths a b d rest

-- An entry is decoded from its bytes, whatever is behind them.
pub decode_entry-item_bytes :
    (item : Item) (previous rest : List ℕ)
    → IsItem previous item
    → decode_entry (item_bytes item ++ rest)
      ≡ some (record {
        shared = item.shared;
        non_shared = length item.key_delta;
        value_size = length item.value;
        payload = item.key_delta ++ (item.value ++ rest);
      })
unfolding decode_entry item_bytes has_entry_payload
decode_entry-item_bytes item previous rest h =
    let payload = item.key_delta ++ (item.value ++ rest) in
    let split : (header_bytes item ++ (item.key_delta ++ item.value)) ++ rest
        ≡ header_bytes item ++ payload =
      append_assoc (header_bytes item) (item.key_delta ++ item.value) rest
      ∙ ap (λ l. header_bytes item ++ l) (append_assoc item.key_delta item.value rest) in
    let long : 3 ≤ length (header_bytes item ++ payload) =
      omega
        (arith, length-append (header_bytes item) payload, length-header_bytes item previous h) in
    let read =
      decode_entry_header-long (header_bytes item ++ payload) long
      ∙ decode_lengths-header_bytes item previous payload h in
    let enough : leb (length item.key_delta + length item.value) (length payload) ≡ true =
      ground
        (arith, length-append item.key_delta (item.value ++ rest), length-append item.value rest) in
    rw (split, read) (ground (arith, enough))
