-- ===== src/Wal/Reader.antt =====
-- src/wal/wal_io.h and src/wal/wal_io.cc: how `WalReader` puts physical fragments together to logical
-- records. The block of the reader is the bytes read into it; Stream fills it from a file.
pub mod Assembly
pub mod Stream
use modern_level_db.Prelude.{
  ℕ, ◌+◌, ◌-◌, List, [], ◌++◌, Option, none, some, Bool, true, false, ◌&&◌, ◌||◌, not, ◌==◌,
  if◌then◌else◌, length, drop, String,
}
use modern_level_db.Base.Error
use modern_level_db.Base.Error.{Error}
use modern_level_db.Base.Crc32c.{Crc}
use modern_level_db.Format.WalFormat.{
  type_zero, type_full, type_first, type_middle, WalDecodeError, WalDecodeFailure,
  truncated_payload, payload_too_large, WalRecoveryAction, skip_physical_record, drop_block,
  WalDecodeKind, WalDecodeOutcome, Decoded, decoded, failed, decode_wal_fragment,
}

pub data WalReadEvent : Type 0 where
  logical_record : List ℕ → ℕ → WalReadEvent
  corruption : Error → ℕ → ℕ → WalReadEvent

pub record PhysicalFragment : Type 0 where
  pub type : ℕ
  pub payload : List ℕ
  pub offset : ℕ
  pub block_position : ℕ

pub data PhysicalRead : Type 0 where
  physical_fragment : PhysicalFragment → PhysicalRead
  physical_corruption : Error → ℕ → ℕ → PhysicalRead

pub record WalReader : Type 0 where
  pub block : List ℕ
  pub block_position : ℕ
  pub block_start_offset : ℕ
  pub scratch : List ℕ
  pub partial_record_offset : ℕ
  pub eof_seen : Bool
  pub in_fragmented_record : Bool

is_empty : List ℕ → Bool
is_empty bytes = length bytes == 0

has_partial_payload : WalReader → Bool
unfolding is_empty
has_partial_payload reader = reader.in_fragmented_record && not (is_empty reader.scratch)

unfoldable pub clear_partial : WalReader → WalReader
clear_partial reader = record reader {
  scratch = [];
  in_fragmented_record = false;
  partial_record_offset = 0;
}

abandon_partial : WalReader → String → WalReadEvent × WalReader
unfolding clear_partial
abandon_partial reader reason = (
  corruption (Error.corruption reason) (length reader.scratch) reader.partial_record_offset,
  clear_partial reader,
)

unfoldable pub consume_corruption : WalReader → Error → ℕ → ℕ → WalReadEvent × WalReader
unfolding clear_partial
consume_corruption reader error dropped_bytes offset =
    if reader.in_fragmented_record
    then (
      corruption error (dropped_bytes + length reader.scratch) reader.partial_record_offset,
      clear_partial reader,
    )
    else (corruption error dropped_bytes offset, clear_partial reader)

interrupted : WalReadEvent × WalReader → Option WalReadEvent × WalReader
interrupted (event, reader) = (some event, reader)

unfoldable pub consume_zero : WalReader → Option WalReadEvent × WalReader
unfolding has_partial_payload abandon_partial interrupted
consume_zero reader =
    if has_partial_payload reader
    then interrupted (abandon_partial reader "WAL fragmented record ended at a zero marker")
    else (none, clear_partial reader)

-- An interrupting fragment is left unconsumed: the position goes back to it.
unfoldable pub consume_full : WalReader → PhysicalFragment → Option WalReadEvent × WalReader
unfolding has_partial_payload abandon_partial interrupted
consume_full reader fragment =
    if has_partial_payload reader
    then interrupted (
        abandon_partial (record reader { block_position = fragment.block_position })
          "WAL fragmented record was interrupted by a full record")
    else (some (logical_record fragment.payload fragment.offset), clear_partial reader)

unfoldable pub consume_first : WalReader → PhysicalFragment → Option WalReadEvent × WalReader
unfolding has_partial_payload abandon_partial interrupted
consume_first reader fragment =
    if has_partial_payload reader
    then interrupted (
        abandon_partial (record reader { block_position = fragment.block_position })
          "WAL fragmented record was interrupted by a first fragment")
    else (
      none,
      record reader {
        scratch = fragment.payload;
        partial_record_offset = fragment.offset;
        in_fragmented_record = true;
      },
    )

unfoldable pub consume_continuation : WalReader → PhysicalFragment → Option WalReadEvent × WalReader
consume_continuation reader fragment =
    let joined = reader.scratch ++ fragment.payload in
    if not reader.in_fragmented_record
    then (
      some (
          corruption (Error.corruption "WAL fragment has no starting fragment")
            (length fragment.payload) fragment.offset),
      reader,
    )
    else if fragment.type == type_middle
    then (none, record reader { scratch = joined })
    else (
      some (logical_record joined reader.partial_record_offset),
      record reader { scratch = joined; in_fragmented_record = false },
    )

-- The decoder gives no other types than these five.
unfoldable pub consume_fragment : WalReader → PhysicalFragment → Option WalReadEvent × WalReader
consume_fragment reader fragment =
    if fragment.type == type_zero
    then consume_zero reader
    else if fragment.type == type_full
    then consume_full reader fragment
    else if fragment.type == type_first
    then consume_first reader fragment
    else consume_continuation reader fragment

is_tail_failure : WalDecodeFailure → Bool
is_tail_failure truncated_payload = true
is_tail_failure payload_too_large = true
is_tail_failure _ = false

discarded_bytes : WalDecodeError → ℕ → ℕ
discarded_bytes failure remaining = elim failure.recovery [
  | skip_physical_record ↦ failure.encoded_size
  | drop_block ↦ remaining
]

unfoldable pub recover_physical_failure :
    WalReader → WalDecodeError → ℕ → ℕ → Option PhysicalRead × WalReader
unfolding is_tail_failure discarded_bytes
recover_physical_failure reader failure offset remaining =
    let discarded = discarded_bytes failure remaining in
    let moved : WalReader = record reader { block_position = reader.block_position + discarded } in
    if reader.eof_seen && is_tail_failure failure.failure
    then (none, moved)
    else (some (physical_corruption failure.error discarded offset), moved)

-- A zero marker discards the rest of its block.
unfoldable pub decode_physical : Crc → WalReader → ℕ → ℕ → Option PhysicalRead × WalReader
decode_physical c reader position remaining =
    let offset = reader.block_start_offset + position in
    elim (decode_wal_fragment c (drop position reader.block) true) [
      | failed e ↦ recover_physical_failure reader e offset remaining
      | decoded outcome ↦ (
        some (
            physical_fragment (record {
              type = outcome.type;
              payload = outcome.payload;
              offset = offset;
              block_position = position;
            })),
        record reader {
          block_position = elim outcome.kind [
            | WalDecodeKind.end_of_block ↦ length reader.block
            | WalDecodeKind.fragment ↦ position + outcome.encoded_size
          ];
        },
      )
    ]
