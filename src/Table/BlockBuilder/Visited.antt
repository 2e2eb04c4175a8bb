-- ===== src/Table/BlockBuilder/Visited.antt =====
-- src/table/block_builder.cc and src/table/block.cc: a block that is built, opened and validated.
use modern_level_db.Prelude.{ℕ, ◌^◌, ◌≤◌, ◌<◌, ◌≡◌, ap, ◌∙◌, List, some, length, arith}
use modern_level_db.Base.Error.{ok}
use modern_level_db.Table.BlockFormat.{BlockContents, contents_data}
use modern_level_db.Table.Block.{Block, EntryVisitor, create, validate_entries}
use modern_level_db.Table.Block.Items.{Entry}
use modern_level_db.Table.Block.Validated.{visit_all, validate_entries-Holds}
use modern_level_db.Table.BlockBuilder.{BlockBuilder, new_builder, finish, current_size_estimate}
use modern_level_db.Table.BlockBuilder.Built.{add_all, AreSmall}
use modern_level_db.Table.BlockBuilder.Finished.{length-finish, create-add_all}

-- Entries with keys and values of less than 2^32 bytes, put into a new builder with a restart
-- interval of at least one and finished to less than 2^32 bytes, are opened as a block, and
-- `ValidateEntries`, with any visitor and with the fuel it is given, visits exactly these entries
-- in order, each with its whole key, up to the first visit that fails.
pub validate_entries-finish {ℓ} :
    {V : Type ℓ} (visitor : EntryVisitor V) (interval : ℕ) (es : List Entry)
    (contents : BlockContents) (v : V)
    → 1 ≤ interval
    → AreSmall es
    → length (finish (add_all (new_builder interval) es)) < 2 ^ 32
    → contents_data contents ≡ finish (add_all (new_builder interval) es)
    → (block : Block) × (create contents ≡ ok block)
      × (validate_entries visitor block v ≡ some (visit_all visitor es v))
validate_entries-finish visitor interval es contents v positive small room same =
    let (items, block, opened, holds, e) =
      create-add_all interval es contents positive small room same in
    (
      block,
      opened,
      validate_entries-Holds visitor block items v holds ∙ ap (λ l. some (visit_all visitor l v)) e,
    )

-- `CurrentSizeEstimate` is the size of the block that `Finish` returns, in every state of the
-- builder.
pub current_size_estimate-finish :
    (builder : BlockBuilder) → current_size_estimate builder ≡ length (finish builder)
unfolding current_size_estimate
current_size_estimate-finish builder = omega (arith, length-finish builder)
