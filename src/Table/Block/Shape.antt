-- ===== src/Table/Block/Shape.antt =====
-- src/table/block.h: a layout that holds given items, and what lies at their offsets.
use modern_level_db.Prelude.{
  ℕ, ◌+◌, ◌-◌, ◌≤◌, ◌<◌, ◌≡◌, refl, ap, ◌∙◌, List, [], ◌∷◌, ◌++◌, some, false, ltb, length, take,
  drop, get_or, arith, length-append, take-append, drop-append,
}
use modern_level_db.Table.Block.{Layout, entries_from, restart_point, read_entry}
use modern_level_db.Table.Block.Items.{
  Item, header_bytes, item_bytes, all_bytes, last_key, restart_array, IsItem, AreItems, Begins,
  all_bytes-append, AreItems-split,
}
use modern_level_db.Table.Block.Decoding.{decode_entry-item_bytes, length-header_bytes}

pub record Holds (layout : Layout) (items : List Item) : Type 0 where
  pub behind : List ℕ
  pub bytes : layout.contents ≡ all_bytes items ++ behind
  pub size : layout.entries_end ≡ length (all_bytes items)
  pub count : layout.restart_count ≡ length (restart_array items)
  pub points :
      (index : ℕ)
      → index < layout.restart_count
      → restart_point layout index ≡ get_or (restart_array items) index 0
  pub items_lem : AreItems [] items
  pub begins : Begins items

pub length-item_bytes :
    (item : Item) (previous : List ℕ)
    → IsItem previous item
    → length (item_bytes item)
      ≡ length (header_bytes item) + length item.key_delta + length item.value
unfolding item_bytes
length-item_bytes item previous h = omega (
  arith,
  length-append (header_bytes item) (item.key_delta ++ item.value),
  length-append item.key_delta item.value,
)

pub item_bytes-grows :
    (item : Item) (previous : List ℕ) → IsItem previous item → 3 ≤ length (item_bytes item)
item_bytes-grows item previous h =
    omega (arith, length-item_bytes item previous h, length-header_bytes item previous h)

module _ (layout : Layout) (before after : List Item) (holds : Holds layout (before ++ after)) where
  abbrev offset : ℕ
  offset = length (all_bytes before)

  pub entries_from-offset : entries_from layout offset ≡ all_bytes after
  entries_from-offset =
      let whole = all_bytes-append before after in
      ap (λ l. drop offset (take layout.entries_end l)) holds.bytes
      ∙ ap (λ l. drop offset l)
          (take-append layout.entries_end (all_bytes (before ++ after)) holds.behind holds.size
            ∙ whole)
      ∙ drop-append offset (all_bytes before) (all_bytes after) refl

  pub size-split : layout.entries_end ≡ offset + length (all_bytes after)
  size-split = omega (
    arith,
    holds.size,
    ap length (all_bytes-append before after),
    length-append (all_bytes before) (all_bytes after),
  )

module _ (layout : Layout) (before : List Item) (item : Item) (after : List Item)
    (holds : Holds layout (before ++ (item ∷ after))) where
  pub item-IsItem : IsItem (last_key [] before) item
  item-IsItem = (AreItems-split [] before (item ∷ after) holds.items_lem).1.0

  -- The entry of an item, behind any key that is long enough.
  pub read_entry-item :
      (key_size : ℕ)
      → item.shared ≤ key_size
      → read_entry layout (length (all_bytes before)) key_size
        ≡ some (record {
          shared = item.shared;
          key_delta = item.key_delta;
          value = item.value;
          header_size = length (header_bytes item);
        })
  unfolding read_entry
  read_entry-item key_size fits =
      let is = item-IsItem in
      let rest = all_bytes after in
      let from = entries_from-offset layout before (item ∷ after) holds in
      let read = decode_entry-item_bytes item (last_key [] before) rest is in
      let enough : ltb key_size item.shared ≡ false = ground arith in
      let delta = take-append (length item.key_delta) item.key_delta (item.value ++ rest) refl in
      let skipped = drop-append (length item.key_delta) item.key_delta (item.value ++ rest) refl in
      let value = take-append (length item.value) item.value rest refl in
      let header : length (item_bytes item ++ rest)
            - length (item.key_delta ++ (item.value ++ rest))
          ≡ length (header_bytes item) =
        omega (
          arith,
          length-item_bytes item (last_key [] before) is,
          length-append (item_bytes item) rest,
          length-append item.key_delta (item.value ++ rest),
          length-append item.value rest,
        ) in
      rw (from, read, enough, delta, skipped, value, header) refl
