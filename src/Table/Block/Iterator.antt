-- ===== src/Table/Block/Iterator.antt =====
-- src/table/block.h and src/table/block.cc: the iterator over the entries of a block. The members that
-- the constructor sets and nothing assigns later stand apart, as the context; a view of bytes is the
-- bytes, and a null view is `none`.
pub mod Seek
pub mod Standing
pub mod Stepping
pub mod Iterating
pub mod Sorted
pub mod Restarting
pub mod Scanning
pub mod Between
pub mod Seeking
pub mod Last
pub mod Reached
use Prim.Native.Nat.{Ordering}
use modern_level_db.Prelude.{
  ℕ, zero, suc, ◌+◌, ◌-◌, ◌*◌, ◌/◌, List, [], ◌∷◌, ◌++◌, Option, none, some, Bool, true, false, not,
  ◌||◌, ◌&&◌, ltb, leb, ◌==◌, if◌then◌else◌, length, take, drop,
}
use modern_level_db.Base.Error
use modern_level_db.Base.Error.{Status, ok, err}
use modern_level_db.Base.Comparator.{Comparator}
use modern_level_db.Format.InternalKey.{internal_key_trailer_size}
use modern_level_db.Table.Block.{
  Layout, Block, EntryHeader, entries_from, restart_point, decode_entry,
}

pub data BlockKeyFormat : Type 0 where
  arbitrary : BlockKeyFormat
  internal : BlockKeyFormat

pub record Context : Type 0 where
  pub layout : Layout
  pub comparator : Comparator
  pub format : BlockKeyFormat

abbrev pub context_of : Block → Comparator → BlockKeyFormat → Context
context_of block comparator format = record {
  layout = block.layout;
  comparator = comparator;
  format = format;
}

-- An entry of the reverse cache.
pub record CachedEntry : Type 0 where
  pub current : ℕ
  pub next : ℕ
  pub restart_index : ℕ
  pub key_data : Option (List ℕ)
  pub key_offset : ℕ
  pub key_size : ℕ
  pub value : List ℕ

pub record ReverseCache : Type 0 where
  pub entries : List CachedEntry
  pub keys : List ℕ
  pub position : ℕ
  pub charged_bytes : ℕ

pub record Iterator : Type 0 where
  pub current : ℕ
  pub next : ℕ
  pub restart_index : ℕ
  pub stored_key : List ℕ
  pub borrowed_key : Option (List ℕ)
  pub value : List ℕ
  pub reverse_cache : Option ReverseCache
  pub reverse_cache_active : Bool
  pub corrupted : Bool

abbrev pub new_iterator : Context → Iterator
new_iterator context = record {
  current = context.layout.entries_end;
  next = context.layout.entries_end;
  restart_index = context.layout.restart_count;
  stored_key = [];
  borrowed_key = none;
  value = [];
  reverse_cache = none;
  reverse_cache_active = false;
  corrupted = false;
}

abbrev pub key_from : Option (List ℕ) → List ℕ → List ℕ
key_from none stored = stored
key_from (some borrowed) stored = borrowed

abbrev pub key : Iterator → List ℕ
key iterator = key_from iterator.borrowed_key iterator.stored_key

abbrev pub begin_positioning : Iterator → Iterator
begin_positioning iterator = record iterator { corrupted = false; reverse_cache_active = false }

unfoldable pub current_status : Iterator → Status
current_status iterator =
    if iterator.corrupted then err (Error.corruption "bad entry in block") else ok tt

abbrev pub accepts_format : BlockKeyFormat → ℕ → Bool
accepts_format arbitrary size = true
accepts_format internal size = leb internal_key_trailer_size size

module _ (context : Context) where
  abbrev pub valid : Iterator → Bool
  valid iterator = ltb iterator.current context.layout.entries_end

  abbrev pub accepts_key_size : ℕ → Bool
  accepts_key_size size = accepts_format context.format size

  abbrev pub invalidate : Iterator → Iterator
  invalidate iterator = record iterator {
    current = context.layout.entries_end;
    next = context.layout.entries_end;
    restart_index = context.layout.restart_count;
    stored_key = [];
    borrowed_key = none;
    value = [];
    reverse_cache_active = false;
  }

  abbrev pub corruption : Iterator → Bool × Iterator
  corruption iterator = (false, record (invalidate iterator) { corrupted = true })

  -- Whether a restart point lies within the entries.
  abbrev pub bounded_restart : ℕ → Bool
  bounded_restart index = leb (restart_point context.layout index) context.layout.entries_end

  -- The loop, as many rounds as there are restarts behind the index.
  unfoldable pub advance_restart_loop : ℕ → Iterator → Bool × Iterator
  advance_restart_loop zero iterator = (true, iterator)
  advance_restart_loop (suc rounds) iterator =
      let restart = restart_point context.layout (iterator.restart_index + 1) in
      let more =
        advance_restart_loop rounds
          (record iterator { restart_index = iterator.restart_index + 1 }) in
      if not (bounded_restart (iterator.restart_index + 1))
      then corruption iterator
      else if leb iterator.current restart
      then (true, iterator)
      else more

  unfoldable pub advance_restart_index : Iterator → Bool × Iterator
  advance_restart_index iterator =
      advance_restart_loop (context.layout.restart_count - (iterator.restart_index + 1)) iterator

  -- The key of an entry that shares nothing is borrowed; another one is put together.
  abbrev pub commit_key : EntryHeader → Iterator → Iterator
  commit_key header iterator =
      let key_delta = take header.non_shared header.payload in
      if header.shared == 0
      then record iterator { borrowed_key = some key_delta }
      else record iterator {
        stored_key = take header.shared (key iterator) ++ key_delta;
        borrowed_key = none;
      }

  unfoldable pub commit_entry : EntryHeader → Iterator → Bool × Iterator
  commit_entry header iterator =
      let header_size =
        length (entries_from context.layout iterator.next) - length header.payload in
      advance_restart_index (record (commit_key header iterator) {
        current = iterator.next;
        value = take header.value_size (drop header.non_shared header.payload);
        next = iterator.next + header_size + header.non_shared + header.value_size;
      })

  unfoldable pub parse_next_entry : Iterator → Bool × Iterator
  parse_next_entry iterator =
      if leb context.layout.entries_end iterator.next
      then (false, invalidate iterator)
      else elim (decode_entry (entries_from context.layout iterator.next)) [
        | none ↦ corruption iterator
        | some header ↦
            if ltb (length (key iterator)) header.shared
              || not (accepts_key_size (header.shared + header.non_shared))
            then corruption iterator
            else commit_entry header iterator
      ]

  unfoldable pub seek_to_restart_point : ℕ → Iterator → Bool × Iterator
  seek_to_restart_point index iterator =
      if not (bounded_restart index) then corruption iterator else (
        true,
        record iterator {
          current = context.layout.entries_end;
          restart_index = index;
          next = restart_point context.layout index;
          stored_key = [];
          borrowed_key = none;
          value = [];
        },
      )

  unfoldable pub seek_to_first : Iterator → Status × Iterator
  seek_to_first iterator =
      let begun = begin_positioning iterator in
      if context.layout.restart_count == 0
      then (ok tt, invalidate begun)
      else let (sought, at_restart) = seek_to_restart_point 0 begun in
        let (_, parsed) = parse_next_entry at_restart in
        let last = if sought then parsed else at_restart in (current_status last, last)

  -- The loop `while (ParseNextEntry() && next_ < layout_.entries_end)`; `none` is out of fuel.
  unfoldable pub scan_to_last_entry : ℕ → Iterator → Option Iterator
  scan_to_last_entry zero iterator = none
  scan_to_last_entry (suc fuel) iterator =
      let (parsed, iterator') = parse_next_entry iterator in
      let more = scan_to_last_entry fuel iterator' in
      if parsed && ltb iterator'.next context.layout.entries_end then more else some iterator'

  -- Every entry takes bytes, so the loop has a round for each byte at most, and one for the end.
  unfoldable pub seek_to_last : Iterator → Option (Status × Iterator)
  seek_to_last iterator =
      let begun = begin_positioning iterator in
      if context.layout.restart_count == 0
      then some (ok tt, invalidate begun)
      else let (sought, at_restart) =
          seek_to_restart_point (context.layout.restart_count - 1) begun in
        if not sought
        then some (current_status at_restart, at_restart)
        else elim (scan_to_last_entry (suc context.layout.entries_end) at_restart) [
          | none ↦ none
          | some last ↦ some (current_status last, last)
        ]

  unfoldable pub next : Iterator → Status × Iterator
  next iterator =
      let (_, parsed) = parse_next_entry (record iterator { reverse_cache_active = false }) in
      (current_status parsed, parsed)
