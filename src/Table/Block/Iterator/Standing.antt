-- ===== src/Table/Block/Iterator/Standing.antt =====
-- src/table/block.cc: where an iterator stands among the items of its block, and how `ParseNextEntry`
-- moves it.
use modern_level_db.Prelude.{
  ℕ, zero, suc, ◌+◌, ◌-◌, ◌≤◌, ◌<◌, ◌≡◌, refl, sym, ap, ◌∙◌, List, [], ◌∷◌, ◌++◌, some, true, false,
  ltb, leb, ◌==◌, length, take, drop, arith, length-append, take-append, drop-append, Bool-cases,
  inl, inr,
}
use mathlib.Core.Path.{subst}
use modern_level_db.Table.Block.{Layout, EntryHeader, entries_from, restart_point, decode_entry}
use modern_level_db.Table.Block.Items.{
  Item, item_bytes, all_bytes, key_of, last_key, IsItem, all_bytes-append,
}
use modern_level_db.Table.Block.Decoding.{decode_entry-item_bytes}
use modern_level_db.Table.Block.Shape.{
  Holds, length-item_bytes, item_bytes-grows, size-split, item-IsItem, entries_from-offset,
}
use modern_level_db.Table.Block.Restarts.{restart_array-le}
use modern_level_db.Table.Block.Iterator.{
  Context, Iterator, key, accepts_key_size, invalidate, bounded_restart, advance_restart_loop,
  advance_restart_index, commit_key, commit_entry, parse_next_entry,
}

-- A key that the next item can take its front from.
abbrev pub Ready : List ℕ → List ℕ → List Item → Type 0
Ready k previous [] = Unit
Ready k previous (item ∷ items) =
    (item.shared ≤ length k) × (take item.shared k ≡ take item.shared previous)

-- The iterator is about to read the first of the items after.
pub record Pending (context : Context) (items before after : List Item) (iterator : Iterator)
    : Type 0 where
  pub split : items ≡ before ++ after
  pub next_lem : iterator.next ≡ length (all_bytes before)
  pub index_lt : iterator.restart_index < context.layout.restart_count
  pub whole : iterator.corrupted ≡ false
  pub inactive : iterator.reverse_cache_active ≡ false
  pub ready : Ready (key iterator) (last_key [] before) after

pub record Standing (context : Context) (items before : List Item) (item : Item) (after : List Item)
    (iterator : Iterator) : Type 0 where
  pub split : items ≡ before ++ (item ∷ after)
  pub current_lem : iterator.current ≡ length (all_bytes before)
  pub next_lem : iterator.next ≡ length (all_bytes (before ++ (item ∷ [])))
  pub index_lt : iterator.restart_index < context.layout.restart_count
  pub whole : iterator.corrupted ≡ false
  pub inactive : iterator.reverse_cache_active ≡ false
  pub key_lem : key iterator ≡ key_of (last_key [] before) item
  pub value_lem : iterator.value ≡ item.value

module _ (context : Context) (items : List Item) (holds : Holds context.layout items) where
  abbrev layout : Layout
  layout = context.layout

  pub bounded_restart-Holds :
      (index : ℕ) → index < layout.restart_count → bounded_restart context index ≡ true
  bounded_restart-Holds index h =
      let point = holds.points index h in
      let bound = restart_array-le items index in ground (arith, holds.size)

  advance_restart_loop_lem :
      (rounds : ℕ) (iterator : Iterator)
      → rounds + iterator.restart_index < layout.restart_count
      → (index : ℕ) × (index < layout.restart_count)
        × (advance_restart_loop context rounds iterator
            ≡ (true, record iterator { restart_index = index }))
  unfolding advance_restart_loop
  advance_restart_loop_lem zero iterator h = (iterator.restart_index, omega arith, refl)
  advance_restart_loop_lem (suc rounds) iterator h =
      let here = iterator.restart_index in
      let bounded = bounded_restart-Holds (here + 1) (omega arith) in
      elim (Bool-cases (leb iterator.current (restart_point layout (here + 1)))) [
        | inl stop ↦ (here, omega arith, rw (bounded, stop) refl)
        | inr go ↦
            let (index, p, e) =
              advance_restart_loop_lem rounds (record iterator { restart_index = here + 1 })
                (omega arith) in
            (index, p, rw (bounded, go) e)
      ]

  advance_restart_index_lem :
      (iterator : Iterator)
      → iterator.restart_index < layout.restart_count
      → (index : ℕ) × (index < layout.restart_count)
        × (advance_restart_index context iterator
            ≡ (true, record iterator { restart_index = index }))
  unfolding advance_restart_index
  advance_restart_index_lem iterator h =
      advance_restart_loop_lem (layout.restart_count - (iterator.restart_index + 1)) iterator
        (omega arith)

  -- At the end of the entries.
  pub parse_next_entry-end :
      (before : List Item) (iterator : Iterator)
      → Pending context items before [] iterator
      → parse_next_entry context iterator ≡ (false, invalidate context iterator)
  unfolding parse_next_entry
  parse_next_entry-end before iterator pending =
      let size = size-split layout before [] (subst (λ l. Holds layout l) pending.split holds) in
      let at_end : leb layout.entries_end iterator.next ≡ true = ground (arith, pending.next_lem) in
      rw at_end refl

  module _ (before : List Item) (item : Item) (after : List Item) (iterator : Iterator)
      (pending : Pending context items before (item ∷ after) iterator) where
    abbrev here : ℕ
    here = length (all_bytes before)

    abbrev previous : List ℕ
    previous = last_key [] before

    whole_block : Holds layout (before ++ (item ∷ after))
    whole_block = subst (λ l. Holds layout l) pending.split holds

    abbrev header : EntryHeader
    header = record {
      shared = item.shared;
      non_shared = length item.key_delta;
      value_size = length item.value;
      payload = item.key_delta ++ (item.value ++ all_bytes after);
    }

    is_item : IsItem previous item
    is_item = item-IsItem layout before item after whole_block

    read : entries_from layout here ≡ item_bytes item ++ all_bytes after
    read = entries_from-offset layout before (item ∷ after) whole_block

    decoded : decode_entry (entries_from layout iterator.next) ≡ some header
    decoded =
        ap (λ (k : ℕ). decode_entry (entries_from layout k)) pending.next_lem
        ∙ ap decode_entry read
        ∙ decode_entry-item_bytes item previous (all_bytes after) is_item

    more : leb layout.entries_end iterator.next ≡ false
    more =
        let size = size-split layout before (item ∷ after) whole_block in
        let grows = item_bytes-grows item previous is_item in
        ground (arith, pending.next_lem, length-append (item_bytes item) (all_bytes after))

    delta :
        take (length item.key_delta) (item.key_delta ++ (item.value ++ all_bytes after))
        ≡ item.key_delta
    delta = take-append (length item.key_delta) item.key_delta (item.value ++ all_bytes after) refl

    value :
        take
          (length item.value)
          (drop (length item.key_delta) (item.key_delta ++ (item.value ++ all_bytes after)))
        ≡ item.value
    value =
        ap (take (length item.value))
          (drop-append (length item.key_delta) item.key_delta (item.value ++ all_bytes after) refl)
        ∙ take-append (length item.value) item.value (all_bytes after) refl

    next_offset :
        iterator.next
          + (length (entries_from layout iterator.next) - length header.payload)
          + length item.key_delta
          + length item.value
        ≡ length (all_bytes (before ++ (item ∷ [])))
    next_offset = omega (
      arith,
      pending.next_lem,
      ap (λ (k : ℕ). length (entries_from layout k)) pending.next_lem,
      ap length read,
      length-item_bytes item previous is_item,
      length-append (item_bytes item) (all_bytes after),
      length-append item.key_delta (item.value ++ all_bytes after),
      length-append item.value (all_bytes after),
      ap length (all_bytes-append before (item ∷ [])),
      length-append (all_bytes before) (all_bytes (item ∷ [])),
      length-append (item_bytes item) [],
    )

    kept_restart_index : (commit_key context header iterator).restart_index ≡ iterator.restart_index
    kept_restart_index = elim (Bool-cases (item.shared == 0)) [
      | inl e ↦ rw e refl
      | inr e ↦ rw e refl
    ]

    kept_corrupted : (commit_key context header iterator).corrupted ≡ iterator.corrupted
    kept_corrupted = elim (Bool-cases (item.shared == 0)) [ inl e ↦ rw e refl | inr e ↦ rw e refl ]

    kept_active :
        (commit_key context header iterator).reverse_cache_active ≡ iterator.reverse_cache_active
    kept_active = elim (Bool-cases (item.shared == 0)) [ inl e ↦ rw e refl | inr e ↦ rw e refl ]

    committed_key : key (commit_key context header iterator) ≡ key_of previous item
    committed_key = elim (Bool-cases (item.shared == 0)) [
      | inl none_shared ↦
          let zeroth : item.shared ≡ 0 = ground arith in
          rw none_shared (delta ∙ ap (λ (k : ℕ). take k previous ++ item.key_delta) (sym zeroth))
      | inr some_shared ↦ rw some_shared (
          ap (λ l. take item.shared (key iterator) ++ l) delta
          ∙ ap (λ l. l ++ item.key_delta) pending.ready.1)
    ]

    -- The iterator comes to stand at the item.
    pub parse_next_entry-item :
        accepts_key_size context (item.shared + length item.key_delta) ≡ true
        → (iterator' : Iterator) × (parse_next_entry context iterator ≡ (true, iterator'))
          × Standing context items before item after iterator'
    unfolding parse_next_entry commit_entry
    parse_next_entry-item accepted =
        let committed = record (commit_key context header iterator) {
          current = iterator.next;
          value = take (length item.value) (drop (length item.key_delta) header.payload);
          next =
              iterator.next
              + (length (entries_from layout iterator.next) - length header.payload)
              + length item.key_delta
              + length item.value;
        } in
        let (index, bound, e) =
          advance_restart_index_lem committed
            (omega (arith, kept_restart_index, pending.index_lt)) in
        let fits : ltb (length (key iterator)) item.shared ≡ false =
          ground (arith, pending.ready.0) in
        (
          record committed { restart_index = index },
          rw (more, decoded, fits, accepted) e,
          record {
            split = pending.split;
            current_lem = pending.next_lem;
            next_lem = next_offset;
            index_lt = bound;
            whole = kept_corrupted ∙ pending.whole;
            inactive = kept_active ∙ pending.inactive;
            key_lem = committed_key;
            value_lem = value;
          },
        )
