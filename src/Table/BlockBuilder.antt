-- ===== src/Table/BlockBuilder.antt =====
-- src/table/block_builder.h and src/table/block_builder.cc: a block of entries whose keys share their
-- fronts. The vectors are lists.
pub mod Adding
pub mod Built
pub mod Finished
pub mod Visited
use modern_level_db.Prelude.{
  ℕ, zero, suc, ◌+◌, ◌-◌, ◌*◌, ◌%◌, ◌^◌, List, [], ◌∷◌, ◌++◌, Bool, true, false, ◌==◌,
  if◌then◌else◌, length, take, drop,
}
use modern_level_db.Base.Bytes.{shared_prefix_length}
use modern_level_db.Base.Coding.{encode_varint_trusted, append_fixed32}

abbrev pub restart_size : ℕ
restart_size = 4

pub record BlockBuilder : Type 0 where
  pub restart_interval : ℕ
  pub entries_since_restart : ℕ
  pub buffer : List ℕ
  pub restarts : List ℕ
  pub last_key : List ℕ

abbrev pub new_builder : ℕ → BlockBuilder
new_builder restart_interval = record {
  restart_interval = restart_interval;
  entries_since_restart = 0;
  buffer = [];
  restarts = [];
  last_key = [];
}

unfoldable pub begin_restart : BlockBuilder → BlockBuilder
begin_restart builder = record builder {
  restarts = builder.restarts ++ (length builder.buffer % 2 ^ 32 ∷ []);
  entries_since_restart = 0;
}

unfoldable pub append_entry_header : BlockBuilder → ℕ → ℕ → ℕ → BlockBuilder
append_entry_header builder shared non_shared value_size = record builder {
  buffer =
      builder.buffer
      ++ (encode_varint_trusted (shared % 2 ^ 32)
          ++ (encode_varint_trusted (non_shared % 2 ^ 32)
              ++ encode_varint_trusted (value_size % 2 ^ 32)));
}

unfoldable pub append_entry_payload : BlockBuilder → List ℕ → List ℕ → BlockBuilder
append_entry_payload builder key_delta value = record builder {
  buffer = (builder.buffer ++ key_delta) ++ value;
}

unfoldable pub commit_entry_history : BlockBuilder → ℕ → List ℕ → BlockBuilder
commit_entry_history builder shared key_delta = record builder {
  last_key = take shared builder.last_key ++ key_delta;
  entries_since_restart = builder.entries_since_restart + 1;
}

unfoldable pub add : BlockBuilder → List ℕ → List ℕ → BlockBuilder
unfolding begin_restart append_entry_header append_entry_payload commit_entry_history
add builder key value =
    let restart = builder.entries_since_restart == builder.restart_interval in
    let shared = if restart then 0 else shared_prefix_length builder.last_key key in
    let non_shared = length key - shared in
    let begun = if restart then begin_restart builder else builder in
    let headed = append_entry_header begun shared non_shared (length value) in
    let key_delta = drop shared key in
    commit_entry_history (append_entry_payload headed key_delta value) shared key_delta

-- A loop of `AppendFixed32`.
unfoldable pub append_each_fixed32 : List ℕ → List ℕ → List ℕ
append_each_fixed32 output [] = output
append_each_fixed32 output (restart ∷ restarts) =
    append_each_fixed32 (append_fixed32 output restart) restarts

unfoldable pub append_restarts : BlockBuilder → BlockBuilder
unfolding append_each_fixed32
append_restarts builder = record builder {
  buffer = append_each_fixed32 (append_fixed32 builder.buffer 0) builder.restarts;
}

-- The buffer, which is the block.
unfoldable pub finish : BlockBuilder → List ℕ
unfolding append_restarts
finish builder =
    append_fixed32 (append_restarts builder).buffer ((length builder.restarts + 1) % 2 ^ 32)

unfoldable pub reset : BlockBuilder → BlockBuilder
reset builder = record builder {
  buffer = [];
  restarts = [];
  last_key = [];
  entries_since_restart = 0;
}

unfoldable pub current_size_estimate : BlockBuilder → ℕ
current_size_estimate builder =
    length builder.buffer + restart_size * (length builder.restarts + 1) + restart_size

unfoldable pub empty : BlockBuilder → Bool
empty builder = builder.entries_since_restart == 0
