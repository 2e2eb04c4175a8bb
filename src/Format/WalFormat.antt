-- ===== src/Format/WalFormat.antt =====
-- src/format/wal_format.h and src/format/wal_format.cc: physical fragments of logical records. A
-- record type is an enumeration over `uint8_t`, to which any byte is cast: a number.
pub mod Places
pub mod Cursor
pub mod Decode
pub mod Blocks
use modern_level_db.Prelude.{
  ℕ, zero, suc, ◌+◌, ◌-◌, ◌*◌, ◌/◌, ◌%◌, ◌^◌, min, bit_and, bit_or, List, [], ◌∷◌, ◌++◌, Option,
  none, some, Bool, true, false, ◌&&◌, ◌||◌, not, ltb, ◌==◌, if◌then◌else◌, length, take, drop,
  get_or, replicate, String,
}
use modern_level_db.Base.Error
use modern_level_db.Base.Error.{Error}
use modern_level_db.Base.Coding.{encode_fixed_trusted, decode_fixed_loop}
use modern_level_db.Base.Crc32c.{Crc, crc32c, extend_crc32c, mask_crc32c, unmask_crc32c}

abbrev pub wal_block_size : ℕ
wal_block_size = 32 * 1024

abbrev pub wal_header_size : ℕ
wal_header_size = 7

abbrev pub maximum_wal_payload : ℕ
maximum_wal_payload = wal_block_size - wal_header_size

abbrev pub type_zero : ℕ
type_zero = 0

abbrev pub type_full : ℕ
type_full = 1

abbrev pub type_first : ℕ
type_first = 2

abbrev pub type_middle : ℕ
type_middle = 3

abbrev pub type_last : ℕ
type_last = 4

pub record WalFragment : Type 0 where
  pub padding_before : ℕ
  pub header : List ℕ
  pub payload : List ℕ

unfoldable pub is_fragment_type : ℕ → Bool
is_fragment_type type =
    type == type_full || type == type_first || type == type_middle || type == type_last

unfoldable pub select_fragment_type : Bool → Bool → ℕ
select_fragment_type begin end =
    if begin && end
    then type_full
    else if begin
    then type_first
    else if end
    then type_last
    else type_middle

pub data WalDecodeFailure : Type 0 where
  truncated_header truncated_payload payload_too_large checksum_mismatch unknown_type :
      WalDecodeFailure

pub data WalRecoveryAction : Type 0 where
  skip_physical_record drop_block : WalRecoveryAction

pub record WalDecodeError : Type 0 where
  pub error : Error
  pub failure : WalDecodeFailure
  pub recovery : WalRecoveryAction
  pub encoded_size : ℕ

pub data WalDecodeKind : Type 0 where
  fragment end_of_block : WalDecodeKind

pub record WalDecodeOutcome : Type 0 where
  pub kind : WalDecodeKind
  pub type : ℕ
  pub payload : List ℕ
  pub encoded_size : ℕ

-- `std::expected<T, WalDecodeError>`
pub data Decoded {ℓ} (A : Type ℓ) : Type ℓ where
  decoded : A → Decoded A
  failed : WalDecodeError → Decoded A

abbrev pub decode_failure {ℓ} :
    {A : Type ℓ} → WalDecodeFailure → WalRecoveryAction → String → ℕ → Decoded A
decode_failure failure recovery message encoded_size = failed (record {
  error = Error.corruption message;
  failure = failure;
  recovery = recovery;
  encoded_size = encoded_size;
})

unfoldable pub read_wal_payload_size : List ℕ → Decoded ℕ
read_wal_payload_size encoded =
    let payload_size = bit_or (get_or encoded 4 0) (get_or encoded 5 0 * 2 ^ 8) in
    if ltb (length encoded) wal_header_size
    then decode_failure truncated_header drop_block "WAL physical record has a truncated header" 0
    else if ltb maximum_wal_payload payload_size
    then decode_failure payload_too_large drop_block
        "WAL physical record payload exceeds block capacity" 0
    else if ltb (length encoded) (wal_header_size + payload_size)
    then decode_failure truncated_payload drop_block "WAL physical record has a truncated payload" 0
    else decoded payload_size

module _ (c : Crc) where
  unfoldable pub encode_header : ℕ → List ℕ → ℕ → List ℕ
  encode_header type payload type_crc =
      encode_fixed_trusted 4 (mask_crc32c (extend_crc32c c type_crc payload))
      ++ (bit_and (length payload) 0xff ∷ bit_and (length payload / 2 ^ 8) 0xff ∷ type ∷ [])

  -- The loop over the four stored bytes is that of the portable fixed-width decoder.
  unfoldable pub wal_checksum_matches : List ℕ → List ℕ → Bool
  wal_checksum_matches encoded payload =
      let expected = unmask_crc32c (decode_fixed_loop (take 4 encoded) 0 0) in
      let type_byte = get_or encoded 6 0 in
      let actual = extend_crc32c c (crc32c c (type_byte ∷ [])) payload in actual == expected

  unfoldable pub decode_payload : List ℕ → Bool → ℕ → Decoded WalDecodeOutcome
  decode_payload encoded verify_checksum payload_size =
      let encoded_size = wal_header_size + payload_size in
      let type = get_or encoded 6 0 in
      let payload = take payload_size (drop wal_header_size encoded) in
      if type == type_zero && payload_size == 0
      then decoded (record {
        kind = end_of_block;
        type = type_zero;
        payload = [];
        encoded_size = wal_header_size;
      })
      else if verify_checksum && not (wal_checksum_matches encoded payload)
      then decode_failure checksum_mismatch drop_block "WAL physical record checksum mismatch" 0
      else if not (is_fragment_type type)
      then decode_failure unknown_type skip_physical_record
          "WAL physical record has an unknown type" encoded_size
      else decoded
          (record { kind = fragment; type = type; payload = payload; encoded_size = encoded_size })

  unfoldable pub decode_wal_fragment : List ℕ → Bool → Decoded WalDecodeOutcome
  decode_wal_fragment encoded verify_checksum = elim (read_wal_payload_size encoded) [
    | failed e ↦ failed e
    | decoded payload_size ↦ decode_payload encoded verify_checksum payload_size
  ]

  -- The checksums of the four type bytes, from `Full` on, computed once by the fragmenter.
  abbrev pub type_crc : List ℕ
  type_crc =
      crc32c c (type_full ∷ [])
      ∷ crc32c c (type_first ∷ [])
      ∷ crc32c c (type_middle ∷ [])
      ∷ crc32c c (type_last ∷ [])
      ∷ []

  unfoldable pub build_wal_fragment : ℕ → ℕ → List ℕ → ℕ → WalFragment
  build_wal_fragment padding_before type payload crc = record {
    padding_before = padding_before;
    header = encode_header type payload crc;
    payload = payload;
  }
