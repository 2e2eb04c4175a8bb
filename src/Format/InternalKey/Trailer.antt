-- ===== src/Format/InternalKey/Trailer.antt =====
-- src/format/internal_key.h: the 56-bit sequence and the 8-bit kind of a trailer.
use modern_level_db.Prelude.{ℕ, ◌+◌, ◌*◌, ◌%◌, ◌^◌, ◌<◌, ◌≤◌, ◌≡◌, ◌⊎◌, ◌∙◌, true, arith}
use modern_level_db.Prelude.Bits.{bit_or_below, mask_eight}
use modern_level_db.Format.InternalKey.{
  max_sequence_number, is_valid_value_kind, pack_internal_key_trailer, decode_internal_key_sequence,
  decode_internal_key_value_kind,
}

pub is_valid_value_kind_cases :
    (kind : ℕ) → is_valid_value_kind kind ≡ true → (kind ≡ 0) ⊎ (kind ≡ 1)
unfolding is_valid_value_kind
is_valid_value_kind_cases kind h = ground arith

-- The or of the shifted sequence and the kind is a sum.
pub pack_internal_key_trailer_lem :
    (sequence kind : ℕ)
    → sequence ≤ max_sequence_number
    → kind < 256
    → pack_internal_key_trailer sequence kind ≡ sequence * 256 + kind
unfolding pack_internal_key_trailer
pack_internal_key_trailer_lem sequence kind hs hk =
    let e : sequence * 2 ^ 8 % 2 ^ 64 ≡ sequence * 2 ^ 8 = omega arith in
    rw e (bit_or_below 8 kind sequence hk)

-- A packed trailer of a 56-bit sequence and an 8-bit kind fits 64 bits, and both parts are read
-- back.
pub unpack-pack_internal_key_trailer :
    (sequence kind : ℕ)
    → sequence ≤ max_sequence_number
    → kind < 256
    → (pack_internal_key_trailer sequence kind < 2 ^ 64)
      × (decode_internal_key_sequence (pack_internal_key_trailer sequence kind) ≡ sequence)
      × (decode_internal_key_value_kind (pack_internal_key_trailer sequence kind) ≡ kind)
unfolding decode_internal_key_sequence decode_internal_key_value_kind
unpack-pack_internal_key_trailer sequence kind hs hk =
    rw (pack_internal_key_trailer_lem sequence kind hs hk, mask_eight)
      (omega arith, omega arith, omega arith)

-- A 64-bit word is the trailer of its two parts.
pub pack-unpack_internal_key_trailer :
    (trailer : ℕ)
    → trailer < 2 ^ 64
    → pack_internal_key_trailer
        (decode_internal_key_sequence trailer)
        (decode_internal_key_value_kind trailer)
      ≡ trailer
unfolding decode_internal_key_sequence decode_internal_key_value_kind
pack-unpack_internal_key_trailer trailer h =
    rw mask_eight (pack_internal_key_trailer_lem _ _ (omega arith) (omega arith) ∙ omega arith)
