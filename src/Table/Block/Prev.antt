-- ===== src/Table/Block/Prev.antt =====
-- src/table/block.cc: `Prev` and the reverse cache, which keeps the entries that a scan from a restart
-- decodes, for the calls of `Prev` that follow. The cache that a scan fills is put back into the
-- iterator where the scan ends; nothing reads the member in between.
pub mod Offsets
pub mod Cached
pub mod Places
pub mod Replayed
pub mod Scanned
pub mod Answered
pub mod Retraced
use modern_level_db.Prelude.{
  ℕ, zero, suc, ◌+◌, ◌-◌, List, [], ◌∷◌, ◌++◌, Option, none, some, Bool, true, false, not, ◌||◌,
  ◌&&◌, ltb, leb, ◌==◌, if◌then◌else◌, length, take, drop, get_elem?, max,
}
use modern_level_db.Base.Error.{Status}
use modern_level_db.Table.Block.{restart_point}
use modern_level_db.Table.Block.Iterator.{
  Context, CachedEntry, ReverseCache, Iterator, key, current_status, invalidate, corruption,
  bounded_restart, seek_to_restart_point, parse_next_entry,
}

abbrev pub minimum_reverse_cache_payload_budget : ℕ
minimum_reverse_cache_payload_budget = 4096

-- `sizeof(Entry)` where a size and a pointer have eight bytes.
abbrev pub cached_entry_size : ℕ
cached_entry_size = 64

abbrev pub empty_cache : ReverseCache
empty_cache = record { entries = []; keys = []; position = 0; charged_bytes = 0 }

abbrev pub copied_size : Option (List ℕ) → List ℕ → ℕ
copied_size none key = length key
copied_size (some borrowed) key = 0

abbrev pub copied_key : Option (List ℕ) → List ℕ → List ℕ
copied_key none key = key
copied_key (some borrowed) key = []

-- The cache with the entry that the iterator stands at.
abbrev pub appended : ReverseCache → Iterator → ReverseCache
appended cache iterator = record {
  entries =
      cache.entries
      ++ (record {
        current = iterator.current;
        next = iterator.next;
        restart_index = iterator.restart_index;
        key_data = iterator.borrowed_key;
        key_offset = length cache.keys;
        key_size = length (key iterator);
        value = iterator.value;
      }
          ∷ []);
  keys = cache.keys ++ copied_key iterator.borrowed_key (key iterator);
  position = cache.position;
  charged_bytes =
      cache.charged_bytes + (cached_entry_size + copied_size iterator.borrowed_key (key iterator));
}

-- `none` where the budget is spent.
unfoldable pub append : ReverseCache → Iterator → ℕ → Option ReverseCache
append cache iterator budget =
    let key_bytes = copied_size iterator.borrowed_key (key iterator) in
    let remaining = budget - cache.charged_bytes in
    if ltb remaining cached_entry_size || ltb (remaining - cached_entry_size) key_bytes
    then none
    else some (appended cache iterator)

abbrev pub key_bytes_of : Option (List ℕ) → List ℕ → CachedEntry → List ℕ
key_bytes_of none keys entry = take entry.key_size (drop entry.key_offset keys)
key_bytes_of (some borrowed) keys entry = take entry.key_size borrowed

-- The entry at the position, which is always one of the cache.
unfoldable pub restore : ReverseCache → Iterator → Iterator
restore cache iterator = elim (get_elem? cache.entries cache.position) [
  | none ↦ iterator
  | some entry ↦ record iterator {
    current = entry.current;
    next = entry.next;
    restart_index = entry.restart_index;
    borrowed_key = some (key_bytes_of entry.key_data cache.keys entry);
    value = entry.value;
  }
]

unfoldable pub select_last : ReverseCache → Iterator → Iterator
select_last cache iterator =
    let cache' = record cache { position = length cache.entries - 1 } in
    record (restore cache' iterator) { reverse_cache = some cache'; reverse_cache_active = true }

unfoldable pub try_previous : ReverseCache → Iterator → Bool × Iterator
try_previous cache iterator =
    let cache' = record cache { position = cache.position - 1 } in
    if cache.position == 0
    then (false, iterator)
    else (true, record (restore cache' iterator) { reverse_cache = some cache' })

abbrev pub try_cached : Bool → Option ReverseCache → Iterator → Bool × Iterator
try_cached true (some cache) iterator = try_previous cache iterator
try_cached true none iterator = (false, iterator)
try_cached false cache iterator = (false, iterator)

module _ (context : Context) where
  -- What a round of the loop returns, if it does.
  unfoldable pub check_restart : ℕ → ℕ → Iterator → Option (Bool × Iterator)
  check_restart index original iterator =
      let here = record iterator { restart_index = index } in
      if not (bounded_restart context index)
      then some (corruption context here)
      else if ltb (restart_point context.layout index) original
      then some (true, here)
      else none

  -- The loop, with the restart index that it counts down.
  unfoldable pub find_previous_restart_from : ℕ → ℕ → Iterator → Bool × Iterator
  find_previous_restart_from zero original iterator = elim (check_restart zero original iterator) [
    | some result ↦ result
    | none ↦ (false, invalidate context (record iterator { restart_index = 0 }))
  ]
  find_previous_restart_from (suc index) original iterator =
      elim (check_restart (suc index) original iterator) [
        | some result ↦ result
        | none ↦ find_previous_restart_from index original iterator
      ]

  abbrev pub find_previous_restart : ℕ → Iterator → Bool × Iterator
  find_previous_restart original iterator =
      find_previous_restart_from iterator.restart_index original iterator

  -- The loop `while (next_ < original && ParseNextEntry())`; `none` is out of fuel.
  unfoldable pub scan_up_to : ℕ → ℕ → Iterator → Option Iterator
  scan_up_to zero original iterator = none
  scan_up_to (suc fuel) original iterator =
      let (parsed, iterator') = parse_next_entry context iterator in
      let more = scan_up_to fuel original iterator' in
      if not (ltb iterator.next original)
      then some iterator
      else if parsed
      then more
      else some iterator'

  -- The `do` loop, from an entry on; `none` is out of fuel.
  unfoldable pub replay : ℕ → ℕ → ℕ → ReverseCache → Iterator → Option Iterator
  replay zero original budget cache iterator = none
  replay (suc fuel) original budget cache iterator = elim (append cache iterator budget) [
    | none ↦
        scan_up_to (suc context.layout.entries_end) original
          (record iterator { reverse_cache = some empty_cache })
    | some cache' ↦
        let (parsed, iterator') = parse_next_entry context iterator in
        let more = replay fuel original budget cache' iterator' in
        if leb original iterator.next
        then some (select_last cache' iterator)
        else if parsed
        then more
        else some (record iterator' { reverse_cache = some cache' })
  ]

  -- Every entry takes bytes, so a loop has a round for each byte at most, and one for the end.
  unfoldable pub scan_to_previous_entry : ℕ → Iterator → Option Iterator
  scan_to_previous_entry original iterator =
      let (parsed, iterator') = parse_next_entry context iterator in
      let budget = max minimum_reverse_cache_payload_budget context.layout.entries_end in
      if not parsed || leb original iterator'.next
      then some iterator'
      else replay (suc context.layout.entries_end) original budget empty_cache iterator'

  -- `Prev` where the cache does not answer.
  unfoldable pub prev_uncached : Iterator → Option (Status × Iterator)
  prev_uncached iterator =
      let (found, at_index) =
        find_previous_restart iterator.current (record iterator { reverse_cache_active = false }) in
      let (sought, at_restart) = seek_to_restart_point context at_index.restart_index at_index in
      if not found
      then some (current_status at_index, at_index)
      else if not sought
      then some (current_status at_restart, at_restart)
      else elim (scan_to_previous_entry iterator.current at_restart) [
        | none ↦ none
        | some last ↦ some (current_status last, last)
      ]

  unfoldable pub prev : Iterator → Option (Status × Iterator)
  prev iterator =
      let (answered, iterator') =
        try_cached iterator.reverse_cache_active iterator.reverse_cache iterator in
      if answered then some (current_status iterator', iterator') else prev_uncached iterator
