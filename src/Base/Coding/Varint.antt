-- ===== src/Base/Coding/Varint.antt =====
-- src/base/coding_internal.h: the loops that measure and write a varint, and the appends over them.
use mathlib.Core.WellFounded.{Acc}
use modern_level_db.Prelude.{
  ℕ, zero, suc, ◌+◌, ◌/◌, ◌%◌, ◌^◌, ◌<◌, ◌≤◌, ◌≡◌, sym, ap, ◌∙◌, bit_and, bit_or, List, [], ◌∷◌,
  ◌++◌, length, replicate, length-replicate, arith, ltb, if◌then◌else◌,
}
use modern_level_db.Prelude.Bits.{mask_seven, set_top_bit}
use modern_level_db.Prelude.Order.{lt_wf}
use modern_level_db.Base.Bytes.{write_at_end, AreBytes}
use modern_level_db.Base.Coding.{
  Width, u32, u64, value_bits, max_bytes, varint_length_loop, varint_length, encode_varint_loop,
  encode_varint_trusted, append_varint,
}

-- The groups of seven bits of `value`, lowest first, for a value below 128 ^ (k + 1).
unfoldable pub groups : ℕ → ℕ → List ℕ
groups zero value = value ∷ []
groups (suc k) value =
    let rest = groups k (value / 128) in
    if ltb 0x7f value then (value % 128 + 128) ∷ rest else value ∷ []

inner_group : (value : ℕ) → bit_or (bit_and value 0x7f) 0x80 ≡ value % 128 + 128
inner_group value = rw mask_seven (set_top_bit _ (omega arith))

encode_varint_loop-groups :
    (k value : ℕ) (w : Acc ◌<◌ value)
    → value < 128 ^ suc k
    → encode_varint_loop value w ≡ groups k value
unfolding encode_varint_loop groups
encode_varint_loop-groups zero value (Acc.intro _ smaller) h = ground arith
encode_varint_loop-groups (suc k) value (Acc.intro _ smaller) h = grind (
  arith,
  inner_group value,
  λ (w : Acc ◌<◌ (value / 128)). encode_varint_loop-groups k (value / 128) w (omega arith),
)

pub encode_varint_trusted-groups :
    (k value : ℕ) → value < 128 ^ suc k → encode_varint_trusted value ≡ groups k value
unfolding encode_varint_trusted
encode_varint_trusted-groups k value h = encode_varint_loop-groups k value (lt_wf.apply value) h

loop_lengths :
    (k value acc : ℕ) (v w : Acc ◌<◌ value)
    → value < 128 ^ suc k
    → varint_length_loop value v (acc + 1) ≡ length (encode_varint_loop value w) + acc
unfolding varint_length_loop encode_varint_loop
loop_lengths zero value acc (Acc.intro _ sv) (Acc.intro _ sw) h = ground arith
loop_lengths (suc k) value acc (Acc.intro _ sv) (Acc.intro _ sw) h = grind (
  arith,
  λ (v w : Acc ◌<◌ (value / 128)). loop_lengths k (value / 128) (acc + 1) v w (omega arith),
)

-- The length that is computed beforehand is the number of bytes that the encoder writes.
pub length-encode_varint_trusted :
    (k value : ℕ) → value < 128 ^ suc k → length (encode_varint_trusted value) ≡ varint_length value
unfolding encode_varint_trusted varint_length
length-encode_varint_trusted k value h =
    omega (arith, loop_lengths k value 0 (lt_wf.apply value) (lt_wf.apply value) h)

length-groups : (k value : ℕ) → (1 ≤ length (groups k value)) × (length (groups k value) ≤ k + 1)
unfolding groups
length-groups zero value = omega arith
length-groups (suc k) value = ground (arith, length-groups k (value / 128))

groups-AreBytes : (k value : ℕ) → value < 128 ^ suc k → AreBytes (groups k value)
unfolding groups
groups-AreBytes zero value h = omega arith
groups-AreBytes (suc k) value h = ground (arith, groups-AreBytes k (value / 128) (omega arith))

-- The rounds that a value of the type needs, less one.
pub fits_groups : (w : Width) (value : ℕ) → value < 2 ^ value_bits w → value < 128 ^ max_bytes w
fits_groups u32 value h = omega arith
fits_groups u64 value h = omega arith

abbrev pub inner_rounds : Width → ℕ
inner_rounds u32 = 4
inner_rounds u64 = 9

pub encode_varint_trusted_width :
    (w : Width) (value : ℕ)
    → value < 2 ^ value_bits w
    → encode_varint_trusted value ≡ groups (inner_rounds w) value
encode_varint_trusted_width u32 value h = encode_varint_trusted-groups 4 value (omega arith)
encode_varint_trusted_width u64 value h = encode_varint_trusted-groups 9 value (omega arith)

-- The varint of a value of a width is bytes only, as many as `VarintLength` says: at least one, and
-- at most five or ten.
pub encode_varint_trusted_shape :
    (w : Width) (value : ℕ)
    → value < 2 ^ value_bits w
    → AreBytes (encode_varint_trusted value)
      × (length (encode_varint_trusted value) ≡ varint_length value)
      × (1 ≤ varint_length value)
      × (varint_length value ≤ max_bytes w)
encode_varint_trusted_shape u32 value h =
    let n : length (encode_varint_trusted value) ≡ varint_length value =
      length-encode_varint_trusted 4 value (omega arith) in
    let e : encode_varint_trusted value ≡ groups 4 value =
      encode_varint_trusted-groups 4 value (omega arith) in
    let l = ap length e in
    let (lo, hi) = length-groups 4 value in
    (rw e (groups-AreBytes 4 value (omega arith)), n, omega arith, omega arith)
encode_varint_trusted_shape u64 value h =
    let n : length (encode_varint_trusted value) ≡ varint_length value =
      length-encode_varint_trusted 9 value (omega arith) in
    let e : encode_varint_trusted value ≡ groups 9 value =
      encode_varint_trusted-groups 9 value (omega arith) in
    let l = ap length e in
    let (lo, hi) = length-groups 9 value in
    (rw e (groups-AreBytes 9 value (omega arith)), n, omega arith, omega arith)

-- Growing by the computed size and writing in place appends the encoding.
pub append_varint_lem :
    (w : Width) (output : List ℕ) (value : ℕ)
    → value < 2 ^ value_bits w
    → append_varint output value ≡ output ++ encode_varint_trusted value
unfolding append_varint
append_varint_lem w output value h =
    let (_, n, _, _) = encode_varint_trusted_shape w value h in
    let bytes = encode_varint_trusted value in
    write_at_end output (replicate (varint_length value) 0) bytes
      (length-replicate (varint_length value) 0 ∙ sym n)
