-- ===== src/Tests/Blocks.antt =====
-- src/table/block_builder.cc and src/table/block.cc on concrete inputs: three entries with two to a
-- restart, and the block of their bytes.
use mathlib.Core.List.{reverse}
use modern_level_db.Prelude.{
  ℕ, zero, suc, ◌<◌, ◌≡◌, ◌^◌, refl, ap, List, [], ◌∷◌, ◌++◌, some, length, arith, true, false,
  get_or,
}
use modern_level_db.Base.Error.{ok}
use modern_level_db.Base.Comparator.{
  compare_common_prefix, compare_key_lengths, bytewise_compare, bytewise_comparator,
}
use modern_level_db.Base.Comparator.Shorten.{bytewise_comparator-IsComparator}
use modern_level_db.Base.Bytes.{shared_prefix_length}
use modern_level_db.Base.Coding.{
  append_fixed, encode_varint_trusted, encode_fixed_trusted, decode_fixed_trusted,
}
use modern_level_db.Table.BlockFormat.{BlockContents, owned, contents_data}
use modern_level_db.Table.Block.{Block, EntryVisitor, create, validate_entries, restart_point}
use modern_level_db.Table.Block.Items.{Item, Entry, item_bytes, entries, restart_array}
use modern_level_db.Table.Block.Shape.{Holds}
use modern_level_db.Table.Block.Validated.{visit_all}
use modern_level_db.Table.Block.Iterator.{
  Context, Iterator, arbitrary, new_iterator, context_of, next, seek_to_first, seek_to_last,
}
use modern_level_db.Table.Block.Iterator.Seek.{seek}
use modern_level_db.Table.Block.Iterator.Iterating.{Iterates}
use modern_level_db.Table.Block.Iterator.Sorted.{lower_bound, AreSorted}
use modern_level_db.Table.Block.Iterator.Reached.{
  Reached, made, moved, sought_first, IsRight, Reached-IsRight, seek-Reached,
}
use modern_level_db.Table.Block.Prev.Retraced.{Retraces, seek_to_last-Retraces}
use modern_level_db.Table.Compression.{pos}
use modern_level_db.Table.TableBuilder.{write_block}
use modern_level_db.Table.Blocks.{seek-write_block}
use modern_level_db.Table.BlockFormat.{decode_stored_vector}
use modern_level_db.Tests.Logs.{counting}
use modern_level_db.Tests.Tables.{
  counted, kept, counted-IsSnappy, kept-IsZstd, counting-IsStreaming,
}
use modern_level_db.Table.BlockBuilder.{
  BlockBuilder, new_builder, add, finish, current_size_estimate,
}
use modern_level_db.Table.BlockBuilder.Built.{add_all, AreSmall}
use modern_level_db.Table.BlockBuilder.Visited.{
  validate_entries-finish, current_size_estimate-finish,
}

abbrev three_entries : List Entry
three_entries =
    record { key = 97 ∷ 98 ∷ []; value = 1 ∷ [] }
    ∷ record { key = 97 ∷ 99 ∷ []; value = 2 ∷ 3 ∷ [] }
    ∷ record { key = 98 ∷ []; value = [] }
    ∷ []

abbrev built : BlockBuilder
built = add_all (new_builder 2) three_entries

abbrev block_bytes : List ℕ
block_bytes =
    0 ∷ 2 ∷ 1 ∷ 97 ∷ 98 ∷ 1 ∷ 1 ∷ 1 ∷ 2 ∷ 99 ∷ 2 ∷ 3 ∷ 0 ∷ 1 ∷ 0 ∷ 98 ∷ 0 ∷ 0 ∷ 0 ∷ 0 ∷ 12 ∷ 0 ∷ 0
    ∷ 0 ∷ 2 ∷ 0 ∷ 0 ∷ 0 ∷ []

finish-three : finish built ≡ block_bytes
unfolding finish add_all add append_fixed encode_varint_trusted encode_fixed_trusted
    shared_prefix_length
finish-three = refl

small : AreSmall three_entries
small = (omega arith, omega arith, (omega arith, omega arith, (omega arith, omega arith, tt)))

room : length (finish built) < 2 ^ 32
room = omega (arith, ap length finish-three)

-- A visitor that keeps the keys.
abbrev keep : EntryVisitor (List (List ℕ))
keep key value seen = (ok tt, seen ++ (key ∷ []))

validate_entries-finish_example :
    (block : Block) × (create (owned (finish built)) ≡ ok block)
    × (validate_entries keep block [] ≡ some (visit_all keep three_entries []))
unfolding finish contents_data
validate_entries-finish_example =
    validate_entries-finish keep 2 three_entries (owned (finish built)) [] (omega arith) small room
      refl

three-AreSorted : AreSorted bytewise_comparator three_entries
unfolding bytewise_compare compare_common_prefix compare_key_lengths
three-AreSorted = ((refl, (refl, tt)), ((refl, tt), (tt, tt)))

seek-write_block_example :
    (contents : BlockContents) × (block : Block) × (first : Iterator) × (found : Iterator)
    × (decode_stored_vector counting counted kept
          (write_block counting counted kept (finish built) 1 (pos 3))
        ≡ ok contents)
    × (create contents ≡ ok block)
    × (seek_to_first
          (context_of block bytewise_comparator arbitrary)
          (new_iterator (context_of block bytewise_comparator arbitrary))
        ≡ (ok tt, first))
    × Iterates (context_of block bytewise_comparator arbitrary) first three_entries
    × (seek
          (context_of block bytewise_comparator arbitrary)
          (97 ∷ 99 ∷ [])
          (new_iterator (context_of block bytewise_comparator arbitrary))
        ≡ some (ok tt, found))
    × Iterates
        (context_of block bytewise_comparator arbitrary)
        found
        (lower_bound bytewise_comparator (97 ∷ 99 ∷ []) three_entries)
unfolding finish
seek-write_block_example =
    seek-write_block counting counting-IsStreaming counted kept counted-IsSnappy kept-IsZstd 1
      (pos 3) bytewise_comparator bytewise_comparator-IsComparator arbitrary 2 three_entries
      (97 ∷ 99 ∷ []) (omega arith) small three-AreSorted (refl, (refl, (refl, tt))) refl room

current_size_estimate-finish_example : current_size_estimate built ≡ length (finish built)
current_size_estimate-finish_example = current_size_estimate-finish built

abbrev three_items : List Item
three_items =
    record { shared = 0; key_delta = 97 ∷ 98 ∷ []; value = 1 ∷ []; restart = true }
    ∷ record { shared = 1; key_delta = 99 ∷ []; value = 2 ∷ 3 ∷ []; restart = false }
    ∷ record { shared = 0; key_delta = 98 ∷ []; value = []; restart = true }
    ∷ []

abbrev three : Context
three = record {
  layout = record { contents = block_bytes; entries_end = 16; restart_count = 2 };
  comparator = bytewise_comparator;
  format = arbitrary;
}

three_points :
    (index : ℕ)
    → index < 2
    → restart_point three.layout index ≡ get_or (restart_array three_items) index 0
unfolding restart_point item_bytes decode_fixed_trusted encode_varint_trusted
three_points zero h = refl
three_points (suc zero) h = refl
three_points (suc (suc index)) h = absurd (omega arith)

three-Holds : Holds three.layout three_items
unfolding item_bytes encode_varint_trusted
three-Holds = record {
  behind = 0 ∷ 0 ∷ 0 ∷ 0 ∷ 12 ∷ 0 ∷ 0 ∷ 0 ∷ 2 ∷ 0 ∷ 0 ∷ 0 ∷ [];
  bytes = refl;
  size = refl;
  count = refl;
  points = three_points;
  items_lem = (
    record {
      shares = omega arith;
      shared_lt = omega arith;
      key_delta_lt = omega arith;
      value_lt = omega arith;
      whole = λ e. refl;
    },
    (
      record {
        shares = omega arith;
        shared_lt = omega arith;
        key_delta_lt = omega arith;
        value_lt = omega arith;
        whole = λ e. absurd cc;
      },
      (
        record {
          shares = omega arith;
          shared_lt = omega arith;
          key_delta_lt = omega arith;
          value_lt = omega arith;
          whole = λ e. refl;
        },
        tt,
      ),
    ),
  );
  begins = refl;
}

sorted : AreSorted bytewise_comparator (entries [] three_items)
unfolding bytewise_compare compare_common_prefix compare_key_lengths
sorted = ((refl, (refl, tt)), ((refl, tt), (tt, tt)))

-- At the second entry.
abbrev second : Iterator
second = (next three (seek_to_first three (new_iterator three)).1).1

second-Reached : Reached three second
second-Reached = moved _ (sought_first _ made)

-- From the second entry, behind the target, the search is among the restarts before it.
seek-Reached_example :
    (iterator : Iterator) × (seek three (97 ∷ 98 ∷ 0 ∷ []) second ≡ some (ok tt, iterator))
    × Iterates three iterator
        (lower_bound bytewise_comparator (97 ∷ 98 ∷ 0 ∷ []) (entries [] three_items))
seek-Reached_example =
    seek-Reached three three_items three-Holds (refl, (refl, (refl, tt)))
      bytewise_comparator-IsComparator sorted (97 ∷ 98 ∷ 0 ∷ []) second refl second-Reached

Reached-IsRight_example : IsRight three three_items second
Reached-IsRight_example =
    Reached-IsRight three three_items three-Holds (refl, (refl, (refl, tt)))
      bytewise_comparator-IsComparator sorted second second-Reached

seek_to_last-Retraces_example :
    (iterator : Iterator) × (seek_to_last three (new_iterator three) ≡ some (ok tt, iterator))
    × Retraces three iterator (reverse (entries [] three_items))
seek_to_last-Retraces_example =
    seek_to_last-Retraces three three_items three-Holds (refl, (refl, (refl, tt)))
      (new_iterator three)
