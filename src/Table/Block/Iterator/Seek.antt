-- ===== src/Table/Block/Iterator/Seek.antt =====
-- src/table/block.cc: `Seek`, its search among the restarts and its scan.
use Prim.Native.Nat.{Ordering}
use modern_level_db.Prelude.{
  ℕ, zero, suc, ◌+◌, ◌-◌, ◌/◌, List, Option, none, some, Bool, true, false, not, ◌||◌, ◌&&◌, ltb,
  leb, ◌==◌, if◌then◌else◌, length, take,
}
use modern_level_db.Base.Error.{Status, ok}
use modern_level_db.Table.Block.{entries_from, restart_point, decode_entry}
use modern_level_db.Table.Block.Iterator.{
  Context, Iterator, key, begin_positioning, current_status, accepts_key_size, valid, invalidate,
  corruption, bounded_restart, seek_to_restart_point, parse_next_entry,
}

abbrev pub is_less : Ordering → Bool
is_less Ordering.lt = true
is_less order = false

module _ (context : Context) where
  -- The key at a restart; `none` where the iterator is then corrupted.
  unfoldable pub restart_key : ℕ → Option (List ℕ)
  restart_key index =
      let offset = restart_point context.layout index in
      if not (bounded_restart context index) || leb context.layout.entries_end offset
      then none
      else elim (decode_entry (entries_from context.layout offset)) [
        | none ↦ none
        | some header ↦
            if not (header.shared == 0) || not (accepts_key_size context header.non_shared)
            then none
            else some (take header.non_shared header.payload)
      ]

  -- The binary search: the index, or the corrupted iterator; `none` is out of fuel.
  unfoldable pub find_restart : ℕ → List ℕ → ℕ → ℕ → Iterator → Option (Option ℕ × Iterator)
  find_restart zero target left right iterator = none
  find_restart (suc fuel) target left right iterator =
      let middle = left + (right - left + 1) / 2 in
      if not (ltb left right) then some (some left, iterator) else elim (restart_key middle) [
        | none ↦ let (_, iterator') = corruption context iterator in some (none, iterator')
        | some middle_key ↦ elim (context.comparator.compare middle_key target) [
          | Ordering.lt ↦ find_restart fuel target middle right iterator
          | _ ↦ find_restart fuel target left (middle - 1) iterator
        ]
      ]

  unfoldable pub restore_checkpoint : ℕ → Ordering → Iterator → Bool × Iterator
  restore_checkpoint index current_key_compare iterator =
      if not (index == iterator.restart_index && is_less current_key_compare)
      then seek_to_restart_point context index iterator
      else (true, iterator)

  -- The loop `while (ParseNextEntry() && Compare(key(), target) < 0)`; `none` is out of fuel.
  unfoldable pub scan_to_lower_bound : ℕ → List ℕ → Iterator → Option Iterator
  scan_to_lower_bound zero target iterator = none
  scan_to_lower_bound (suc fuel) target iterator =
      let (parsed, iterator') = parse_next_entry context iterator in
      let more = scan_to_lower_bound fuel target iterator' in
      if parsed && is_less (context.comparator.compare (key iterator') target)
      then more
      else some iterator'

  -- What `Seek` does behind the tests of its target, once the range of restarts is known. Every
  -- entry takes bytes and every round of the search halves the range, so the fuel is enough.
  unfoldable pub seek_between : List ℕ → ℕ → ℕ → Ordering → Iterator → Option (Status × Iterator)
  seek_between target left right current_key_compare iterator =
      elim (find_restart (suc context.layout.restart_count) target left right iterator) [
        | none ↦ none
        | some (none, corrupt) ↦ some (current_status corrupt, corrupt)
        | some (some restart, found) ↦
            let (restored, at_restart) = restore_checkpoint restart current_key_compare found in
            if not restored
            then some (current_status at_restart, at_restart)
            else elim (scan_to_lower_bound (suc context.layout.entries_end) target at_restart) [
              | none ↦ none
              | some last ↦ some (current_status last, last)
            ]
      ]

  -- What `Seek` does at an entry, by how its key compares with the target.
  unfoldable pub seek_by : List ℕ → Ordering → Iterator → Option (Status × Iterator)
  seek_by target Ordering.lt iterator =
      seek_between target iterator.restart_index (context.layout.restart_count - 1) Ordering.lt
        iterator
  seek_by target Ordering.gt iterator =
      seek_between target 0 iterator.restart_index Ordering.gt iterator
  seek_by target Ordering.eq iterator = some (ok tt, iterator)

  unfoldable pub seek : List ℕ → Iterator → Option (Status × Iterator)
  seek target iterator =
      let begun = begin_positioning iterator in
      if not (accepts_key_size context (length target))
      then (let (_, corrupt) = corruption context begun in some (current_status corrupt, corrupt))
      else if context.layout.restart_count == 0
      then some (ok tt, invalidate context begun)
      else if not (valid context begun)
      then seek_between target 0 (context.layout.restart_count - 1) Ordering.eq begun
      else seek_by target (context.comparator.compare (key begun) target) begun
