-- ===== src/Base/Coding/VarintRoundTrip.antt =====
-- src/base/coding.cc: `ConsumeVarint` on what the encoder writes and on any input, and the decoder
-- without checks.
use native.Mathlib.Nat.{div-add-mod}
use native.Mathlib.Numerals.{towards_suc}
use modern_level_db.Prelude.{
  ℕ, zero, suc, ◌+◌, ◌*◌, ◌/◌, ◌%◌, ◌^◌, ◌<◌, ◌≤◌, ◌≡◌, ap, ◌∙◌, bit_and, List, [], ◌∷◌, ◌++◌,
  length, arith, some, false, ltb, Bool-cases, inl, inr, ◌≢◌, ◌==◌,
}
use modern_level_db.Prelude.Bits.{top_bit, mask_seven, bit_or_above, bit_or-lt}
use modern_level_db.Base.Error.{ok}
use modern_level_db.Base.Coding.{
  Width, u32, u64, value_bits, max_bytes, encode_varint_trusted, consume_varint_loop,
  consume_varint, fold_varint_payload, consume_varint_trusted_loop, consume_varint_trusted,
}
use modern_level_db.Base.Coding.Varint.{groups, encode_varint_trusted_width}

-- A payload above the bits read so far, which fits the type, is added.
fold_fits :
    (w : Width) (value payload shift : ℕ)
    → value < 2 ^ shift
    → value + payload * 2 ^ shift < 2 ^ value_bits w
    → fold_varint_payload w value payload shift ≡ value + payload * 2 ^ shift
fold_fits u32 value payload shift h k =
    let e : payload * 2 ^ shift % 2 ^ 32 ≡ payload * 2 ^ shift = omega arith in
    rw e (bit_or_above shift value payload h)
fold_fits u64 value payload shift h k =
    let e : payload * 2 ^ shift % 2 ^ 64 ≡ payload * 2 ^ shift = omega arith in
    rw e (bit_or_above shift value payload h)

last_byte :
    (w : Width) (rounds index value byte : ℕ) (rest : List ℕ)
    → byte < 128
    → value < 2 ^ (index * 7)
    → value + byte * 2 ^ (index * 7) < 2 ^ value_bits w
    → consume_varint_loop w (suc rounds) index value (byte ∷ rest)
      ≡ ok (value + byte * 2 ^ (index * 7), rest)
unfolding consume_varint_loop
last_byte w rounds index value byte rest hb hv fits =
    let low : bit_and byte 0x7f ≡ byte = omega (arith, mask_seven byte) in
    let top : bit_and byte 0x80 ≡ 0 = omega (arith, top_bit byte (omega arith)) in
    rw (low, top, fold_fits w value byte (index * 7) hv fits)

inner_byte :
    (w : Width) (rounds index value group : ℕ) (rest : List ℕ)
    → group < 128
    → value < 2 ^ (index * 7)
    → value + group * 2 ^ (index * 7) < 2 ^ value_bits w
    → (index + 1 == max_bytes w) ≡ false
    → consume_varint_loop w (suc rounds) index value ((group + 128) ∷ rest)
      ≡ consume_varint_loop w rounds (index + 1) (value + group * 2 ^ (index * 7)) rest
unfolding consume_varint_loop
inner_byte w rounds index value group rest hg hv fits more =
    let low : bit_and (group + 128) 0x7f ≡ group = omega (arith, mask_seven (group + 128)) in
    let top : bit_and (group + 128) 0x80 ≡ 128 =
      omega (arith, top_bit (group + 128) (omega arith)) in
    rw (low, top, fold_fits w value group (index * 7) hv fits, more)

seven_more : (i : ℕ) → 2 ^ ((i + 1) * 7) ≡ 128 * 2 ^ (i * 7)
seven_more i =
    let e : (i + 1) * 7 ≡ i * 7 + 7 = omega arith in rw e (simp towards_suc (omega arith))

-- The lowest group of `v` and the rest, at the place of byte `i`.
split_group : (v i : ℕ) → v * 2 ^ (i * 7) ≡ v % 128 * 2 ^ (i * 7) + v / 128 * 2 ^ ((i + 1) * 7)
split_group v i = omega (
  arith,
  ap (λ (t : ℕ). t * 2 ^ (i * 7)) (div-add-mod v 128),
  ap (λ (t : ℕ). v / 128 * t) (seven_more i),
)

-- The last byte that the type allows holds the last group of any value of the type.
room_for_more :
    (w : Width) (index v : ℕ)
    → 0x7f < v
    → v * 2 ^ (index * 7) < 2 ^ value_bits w
    → (index + 1 == max_bytes w) ≡ false
room_for_more u32 index v h fits =
    let late : index ≢ 4 = λ e. omega (arith, ap (λ (t : ℕ). v * 2 ^ (t * 7)) e) in ground arith
room_for_more u64 index v h fits =
    let late : index ≢ 9 = λ e. omega (arith, ap (λ (t : ℕ). v * 2 ^ (t * 7)) e) in ground arith

-- The value with the lowest group of `v` read, and what is left of `v`.
group_read :
    (index value v : ℕ)
    → value < 2 ^ (index * 7)
    → (value + v % 128 * 2 ^ (index * 7) < 2 ^ ((index + 1) * 7))
      × (value + v % 128 * 2 ^ (index * 7) + v / 128 * 2 ^ ((index + 1) * 7)
          ≡ value + v * 2 ^ (index * 7))
group_read index value v h =
    let split = split_group v index in
    let next = seven_more index in
    let low : v % 128 < 128 = omega arith in
    let small : v % 128 * 2 ^ (index * 7) ≤ 127 * 2 ^ (index * 7) = grind arith in
    (omega arith, omega arith)

consume_varint_loop-groups :
    (k rounds : ℕ) (w : Width) (index value v : ℕ) (rest : List ℕ)
    → v < 128 ^ suc k
    → k ≤ rounds
    → value < 2 ^ (index * 7)
    → value + v * 2 ^ (index * 7) < 2 ^ value_bits w
    → consume_varint_loop w (suc rounds) index value (groups k v ++ rest)
      ≡ ok (value + v * 2 ^ (index * 7), rest)
unfolding groups
consume_varint_loop-groups zero rounds w index value v rest hv hk ha fits =
    last_byte w rounds index value v rest hv ha fits
consume_varint_loop-groups (suc k) zero w index value v rest hv hk ha fits = absurd (omega arith)
consume_varint_loop-groups (suc k) (suc rounds) w index value v rest hv hk ha fits =
    elim (Bool-cases (ltb 0x7f v)) [
      | inl more ↦
          let big : 0x7f < v = ground arith in
          let (below, total) = group_read index value v ha in
          rw more (
            inner_byte w (suc rounds) index value (v % 128) _ (omega arith) ha (omega arith)
              (room_for_more w index v big (omega arith))
            ∙ consume_varint_loop-groups k rounds w (index + 1) (value + v % 128 * 2 ^ (index * 7))
                (v / 128) rest (omega arith) (omega arith) below (omega arith)
            ∙ ap (λ (t : ℕ). ok (t, rest)) total)
      | inr done ↦ rw done (last_byte w (suc rounds) index value v rest (ground arith) ha fits)
    ]

-- Every value of a 32-bit or 64-bit width is read back from its varint, and the bytes behind it are
-- left.
pub consume-encode_varint :
    (w : Width) (value : ℕ) (rest : List ℕ)
    → value < 2 ^ value_bits w
    → consume_varint w (encode_varint_trusted value ++ rest) ≡ ok (value, rest)
unfolding consume_varint
consume-encode_varint u32 value rest h = rw (encode_varint_trusted_width u32 value h) (
    consume_varint_loop-groups 4 4 u32 0 0 value rest (omega arith) (omega arith) (omega arith)
      (omega arith)
    ∙ ap (λ (t : ℕ). ok (t, rest)) (omega arith))
consume-encode_varint u64 value rest h = rw (encode_varint_trusted_width u64 value h) (
    consume_varint_loop-groups 9 9 u64 0 0 value rest (omega arith) (omega arith) (omega arith)
      (omega arith)
    ∙ ap (λ (t : ℕ). ok (t, rest)) (omega arith))

fold-lt :
    (w : Width) (value payload shift : ℕ)
    → value < 2 ^ value_bits w
    → fold_varint_payload w value payload shift < 2 ^ value_bits w
fold-lt u32 value payload shift h = bit_or-lt 32 value _ h (omega arith)
fold-lt u64 value payload shift h = bit_or-lt 64 value _ h (omega arith)

consume_varint_loop_takes :
    (w : Width) (rounds index value : ℕ) (input : List ℕ) (v : ℕ) (rest : List ℕ)
    → value < 2 ^ value_bits w
    → consume_varint_loop w rounds index value input ≡ ok (v, rest)
    → (v < 2 ^ value_bits w) × (length rest < length input) × (length input ≤ length rest + rounds)
unfolding consume_varint_loop
consume_varint_loop_takes w zero index value input v rest h e = cc
consume_varint_loop_takes w (suc rounds) index value [] v rest h e = cc
consume_varint_loop_takes w (suc rounds) index value (byte ∷ input) v rest h e =
    let value' = fold_varint_payload w value (bit_and byte 0x7f) (index * 7) in
    let fits : value' < 2 ^ value_bits w = fold-lt w value (bit_and byte 0x7f) (index * 7) h in
    ground (arith, fits, consume_varint_loop_takes w rounds (index + 1) value' input v rest)

-- A varint that is accepted gives a value of its width and takes at least one and at most five or
-- ten bytes.
pub consume_varint_takes :
    (w : Width) (input : List ℕ) (v : ℕ) (rest : List ℕ)
    → consume_varint w input ≡ ok (v, rest)
    → (v < 2 ^ value_bits w)
      × (length rest < length input)
      × (length input ≤ length rest + max_bytes w)
unfolding consume_varint
consume_varint_takes u32 input v rest e =
    consume_varint_loop_takes u32 _ 0 0 input v rest (omega arith) e
consume_varint_takes u64 input v rest e =
    consume_varint_loop_takes u64 _ 0 0 input v rest (omega arith) e

trusted_loop_agrees :
    (w : Width) (rounds index value : ℕ) (input : List ℕ) (v : ℕ) (rest : List ℕ)
    → consume_varint_loop w rounds index value input ≡ ok (v, rest)
    → consume_varint_trusted_loop w (index * 7) value input ≡ some (v, rest)
unfolding consume_varint_loop consume_varint_trusted_loop
trusted_loop_agrees w zero index value input v rest e = cc
trusted_loop_agrees w (suc rounds) index value [] v rest e = cc
trusted_loop_agrees w (suc rounds) index value (byte ∷ input) v rest e =
    let value' = fold_varint_payload w value (bit_and byte 0x7f) (index * 7) in
    let step : (index + 1) * 7 ≡ index * 7 + 7 = omega arith in
    ground (arith, step, trusted_loop_agrees w rounds (index + 1) value' input v rest)

-- On every input that the checked varint decoder accepts, the decoder without checks gives the same
-- value and the same rest.
pub consume_varint_trusted_lem :
    (w : Width) (input : List ℕ) (v : ℕ) (rest : List ℕ)
    → consume_varint w input ≡ ok (v, rest)
    → consume_varint_trusted w input ≡ some (v, rest)
unfolding consume_varint consume_varint_trusted
consume_varint_trusted_lem w input v rest e = trusted_loop_agrees w _ 0 0 input v rest e
