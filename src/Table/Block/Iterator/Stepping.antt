-- ===== src/Table/Block/Iterator/Stepping.antt =====
-- src/table/block.cc: the next step of an iterator over a block that holds items.
use modern_level_db.Prelude.{
  ℕ, ◌+◌, ◌<◌, ◌≡◌, refl, sym, ap, ◌∙◌, List, [], ◌∷◌, ◌++◌, none, true, false, leb, length, take,
  arith, append_assoc, length-append, length-take, All, All-split, ◌⊎◌,
}
use mathlib.Core.Path.{subst}
use modern_level_db.Base.Error.{ok}
use modern_level_db.Table.Block.{restart_point}
use modern_level_db.Table.Block.Items.{
  Item, Entry, item_bytes, all_bytes, key_of, last_key, entries, Begins, last_key-append,
  entries-append,
}
use modern_level_db.Table.Block.Shape.{Holds, item_bytes-grows, size-split, item-IsItem}
use modern_level_db.Table.Block.Iterator.{
  Context, Iterator, key, valid, accepts_key_size, invalidate, current_status,
  seek_to_restart_point, parse_next_entry,
}
use modern_level_db.Table.Block.Iterator.Standing.{
  Ready, Pending, Standing, bounded_restart-Holds, parse_next_entry-end, parse_next_entry-item,
}

-- The iterator stands at an item.
pub record StandsIn (context : Context) (items : List Item) (iterator : Iterator) : Type 0 where
  pub before : List Item
  pub item : Item
  pub after : List Item
  pub standing : Standing context items before item after iterator

-- It is behind the last entry.
abbrev pub IsAtEnd : Context → Iterator → Type 0
IsAtEnd context iterator =
    (valid context iterator ≡ false) × (iterator.next ≡ context.layout.entries_end)

abbrev pub Located : Context → List Item → Iterator → Type 0
Located context items iterator = IsAtEnd context iterator ⊎ StandsIn context items iterator

-- The format of the iterator takes the size of each key.
abbrev pub AreAccepted : Context → List Entry → Type 0
AreAccepted context = All (λ entry. accepts_key_size context (length entry.key) ≡ true)

pub current_status-whole :
    (iterator : Iterator) → iterator.corrupted ≡ false → current_status iterator ≡ ok tt
unfolding current_status
current_status-whole iterator h = rw h refl

pub parse_next_entry-behind :
    (context : Context) (iterator : Iterator)
    → iterator.next ≡ context.layout.entries_end
    → parse_next_entry context iterator ≡ (false, invalidate context iterator)
unfolding parse_next_entry
parse_next_entry-behind context iterator h =
    let behind : leb context.layout.entries_end iterator.next ≡ true = ground (arith, h) in
    rw behind refl

abbrev pub IsClean : Iterator → Type 0
IsClean iterator = (iterator.corrupted ≡ false) × (iterator.reverse_cache_active ≡ false)

-- Where the iterator is after its next step: at the next item, or at the end.
abbrev pub Stepped : Context → List Item → List Item → List Item → Iterator → Type 0
Stepped context items before [] iterator =
    (parse_next_entry context iterator ≡ (false, invalidate context iterator))
Stepped context items before (item ∷ after) iterator =
    (iterator' : Iterator) × (parse_next_entry context iterator ≡ (true, iterator'))
    × Standing context items before item after iterator'

module _ (context : Context) (items : List Item) (holds : Holds context.layout items)
    (accepted : AreAccepted context (entries [] items)) where
  pub accepted_item :
      (before : List Item) (item : Item) (after : List Item)
      → items ≡ before ++ (item ∷ after)
      → accepts_key_size context (item.shared + length item.key_delta) ≡ true
  accepted_item before item after split =
      let previous = last_key [] before in
      let is =
        item-IsItem context.layout before item after
          (subst (λ l. Holds context.layout l) split holds) in
      let all =
        subst (λ l. AreAccepted context l)
          (ap (entries []) split ∙ entries-append [] before (item ∷ after)) accepted in
      let size : item.shared + length item.key_delta ≡ length (key_of previous item) = omega (
        arith,
        is.shares,
        length-append (take item.shared previous) item.key_delta,
        length-take item.shared previous,
      ) in
      ap (λ (k : ℕ). accepts_key_size context k) size
      ∙ (All-split (λ entry. accepts_key_size context (length entry.key) ≡ true) (entries [] before)
          (entries previous (item ∷ after)) all).1.0

  pub parse_next_entry-Pending :
      (before after : List Item) (iterator : Iterator)
      → Pending context items before after iterator
      → Stepped context items before after iterator
  parse_next_entry-Pending before [] iterator pending =
      parse_next_entry-end context items holds before iterator pending
  parse_next_entry-Pending before (item ∷ after) iterator pending =
      parse_next_entry-item context items holds before item after iterator pending
        (accepted_item before item after pending.split)

  Ready-next :
      (before after : List Item) (k : List ℕ)
      → items ≡ before ++ after
      → k ≡ last_key [] before
      → Ready k (last_key [] before) after
  Ready-next before [] k split same = tt
  Ready-next before (item ∷ after) k split same =
      let is =
        item-IsItem context.layout before item after
          (subst (λ l. Holds context.layout l) split holds) in
      (omega (arith, is.shares, ap length same), ap (take item.shared) same)

  -- From an item, the next one is ahead.
  pub Standing-Pending :
      (before : List Item) (item : Item) (after : List Item) (iterator : Iterator)
      → Standing context items before item after iterator
      → Pending context items (before ++ (item ∷ [])) after iterator
  Standing-Pending before item after iterator standing =
      let split = standing.split ∙ sym (append_assoc before (item ∷ []) after) in
      record {
        split = split;
        next_lem = standing.next_lem;
        index_lt = standing.index_lt;
        whole = standing.whole;
        inactive = standing.inactive;
        ready =
            Ready-next (before ++ (item ∷ [])) after (key iterator) split
              (standing.key_lem ∙ sym (last_key-append [] before (item ∷ [])));
      }

  pub Standing-valid :
      (before : List Item) (item : Item) (after : List Item) (iterator : Iterator)
      → Standing context items before item after iterator
      → valid context iterator ≡ true
  Standing-valid before item after iterator standing =
      let whole = subst (λ l. Holds context.layout l) standing.split holds in
      let size = size-split context.layout before (item ∷ after) whole in
      let grows =
        item_bytes-grows item (last_key [] before)
          (item-IsItem context.layout before item after whole) in
      ground (arith, standing.current_lem, length-append (item_bytes item) (all_bytes after))

  -- The hint of the reverse cache says nothing of the place.
  pub uncached :
      (before : List Item) (item : Item) (after : List Item) (iterator : Iterator)
      → Standing context items before item after iterator
      → Standing context items before item after (record iterator { reverse_cache_active = false })
  uncached before item after iterator standing = record {
    split = standing.split;
    current_lem = standing.current_lem;
    next_lem = standing.next_lem;
    index_lt = standing.index_lt;
    whole = standing.whole;
    inactive = refl;
    key_lem = standing.key_lem;
    value_lem = standing.value_lem;
  }

  pub invalid-invalidate :
      (iterator : Iterator) → valid context (invalidate context iterator) ≡ false
  invalid-invalidate iterator = ground arith

  -- At the restart point of items, the first of them is ahead.
  pub restarted-Pending :
      (before after : List Item) (index : ℕ) (iterator : Iterator)
      → items ≡ before ++ after
      → index < context.layout.restart_count
      → restart_point context.layout index ≡ length (all_bytes before)
      → Begins after
      → IsClean iterator
      → (iterator' : Iterator) × (seek_to_restart_point context index iterator ≡ (true, iterator'))
        × Pending context items before after iterator'
  unfolding seek_to_restart_point
  restarted-Pending before after index iterator split index_lt at_point begins clean =
      let bounded = bounded_restart-Holds context items holds index index_lt in
      let iterator' = record iterator {
        current = context.layout.entries_end;
        restart_index = index;
        next = restart_point context.layout index;
        stored_key = [];
        borrowed_key = none;
        value = [];
      } in
      (
        iterator',
        rw bounded refl,
        record {
          split = split;
          next_lem = at_point;
          index_lt = index_lt;
          whole = clean.0;
          inactive = clean.1;
          ready = full before after split begins;
        },
      )
    where
      full :
          (before after : List Item)
          → items ≡ before ++ after
          → Begins after
          → Ready [] (last_key [] before) after
      full before [] split begins = tt
      full before (item ∷ after) split begins =
          let is =
            item-IsItem context.layout before item after
              (subst (λ l. Holds context.layout l) split holds) in
          let none_shared = is.whole begins in
          (
            omega arith,
            ap (λ (k : ℕ). take k []) none_shared
                ∙ sym (ap (λ (k : ℕ). take k (last_key [] before)) none_shared),
          )
