-- ===== src/Table/Block/Validated.antt =====
-- src/table/block.cc: `ValidateEntries` over a layout that holds items visits each of them.
use modern_level_db.Prelude.{
  ℕ, zero, suc, ◌+◌, ◌≤◌, ◌<◌, ◌≡◌, ◌≢◌, refl, sym, ap, ◌∙◌, List, [], ◌∷◌, ◌++◌, some, length,
  drop, arith, append_assoc, length-append, length-drop,
}
use modern_level_db.Base.Error.{Error, Status, ok, err}
use modern_level_db.Table.Block.{
  Layout, Block, DecodedEntry, EntryVisitor, read_entry, reconstruct_key, validate_restart_entry,
  matched_restarts, validate_loop, validate_entries,
}
use modern_level_db.Table.Block.Items.{
  Item, Entry, header_bytes, item_bytes, all_bytes, key_of, last_key, entries, restarts,
  restart_array, all_bytes-append, last_key-append,
}
use modern_level_db.Table.Block.Shape.{
  Holds, length-item_bytes, item_bytes-grows, size-split, item-IsItem, read_entry-item,
}
use modern_level_db.Table.Block.Restarts.{
  bump, validate_restart_entry-item, rest-next, bump-bound, first_restart,
}
use mathlib.Core.Path.{subst}

-- The visits of entries in order, up to the first that fails.
abbrev pub visit_all {ℓ} : {V : Type ℓ} → EntryVisitor V → List Entry → V → Status × V
visit_all visitor [] v = (ok tt, v)
visit_all visitor (entry ∷ rest) v =
    let (visited, v') = visitor entry.key entry.value v in
    elim visited [ err e ↦ (err e, v') | ok _ ↦ visit_all visitor rest v' ]

module _ {ℓ} {V : Type ℓ} (layout : Layout) (visitor : EntryVisitor V) (fuel : ℕ) (offset : ℕ)
    (key : List ℕ) (index : ℕ) (v : V) where
  loop-end :
      layout.entries_end ≤ offset
      → validate_loop layout visitor (suc fuel) offset key index v
        ≡ some (matched_restarts layout visitor index, v)
  unfolding validate_loop
  loop-end h = ground arith

  module _ (more : offset < layout.entries_end) (entry : DecodedEntry) (index' : ℕ)
      (read : read_entry layout offset (length key) ≡ some entry)
      (matched : validate_restart_entry layout offset entry.shared index ≡ ok index') where
    loop-failed :
        (e : Error) (v' : V)
        → visitor (reconstruct_key key entry) entry.value v ≡ (err e, v')
        → validate_loop layout visitor (suc fuel) offset key index v ≡ some (err e, v')
    unfolding validate_loop
    loop-failed e v' visited = ground (arith, read, matched, visited)

    loop-visited :
        (v' : V)
        → visitor (reconstruct_key key entry) entry.value v ≡ (ok tt, v')
        → validate_loop layout visitor (suc fuel) offset key index v
          ≡ validate_loop layout visitor fuel
              (offset + entry.header_size + length entry.key_delta + length entry.value)
              (reconstruct_key key entry)
              index'
              v'
    unfolding validate_loop
    loop-visited v' visited = ground (arith, read, matched, visited)

    -- Both branches, for any account of the entries behind this one.
    loop-entry :
        (rest : List Entry)
        → ((v' : V)
            → validate_loop layout visitor fuel
                (offset + entry.header_size + length entry.key_delta + length entry.value)
                (reconstruct_key key entry)
                index'
                v'
              ≡ some (visit_all visitor rest v'))
        → validate_loop layout visitor (suc fuel) offset key index v
          ≡ some (
              visit_all visitor
                (record { key = reconstruct_key key entry; value = entry.value } ∷ rest)
                v)
    loop-entry rest later = go (visitor (reconstruct_key key entry) entry.value v) refl
      where
        go :
            (call : Status × V)
            → visitor (reconstruct_key key entry) entry.value v ≡ call
            → validate_loop layout visitor (suc fuel) offset key index v
              ≡ some (
                  visit_all visitor
                    (record { key = reconstruct_key key entry; value = entry.value } ∷ rest)
                    v)
        go (err e, v') visited = loop-failed e v' visited ∙ ground (arith, visited)
        go (ok tt, v') visited = loop-visited v' visited ∙ later v' ∙ ground (arith, visited)

module _ {ℓ} {V : Type ℓ} (layout : Layout) (visitor : EntryVisitor V) where
  matched_restarts-all :
      (items : List Item) (index : ℕ)
      → Holds layout items
      → items ≢ []
      → index ≡ layout.restart_count
      → matched_restarts layout visitor index ≡ ok tt
  unfolding matched_restarts
  matched_restarts-all [] index holds some_items all = absurd (some_items refl)
  matched_restarts-all (item ∷ items) index holds some_items all =
      let grows = item_bytes-grows item [] (item-IsItem layout [] item items holds) in
      let size = length-append (item_bytes item) (all_bytes items) in
      let nonzero : layout.entries_end ≢ 0 = λ e. absurd (omega (arith, holds.size)) in
      ground (arith, nonzero)

  -- From any entry on, with the key before it and the restarts that are still to be matched.
  validate_loop-items :
      (items before after : List Item) (fuel index : ℕ) (v : V)
      → items ≡ before ++ after
      → Holds layout items
      → items ≢ []
      → drop index (restart_array items) ≡ restarts (length (all_bytes before)) after
      → index ≤ layout.restart_count
      → length (all_bytes after) < fuel
      → validate_loop layout visitor fuel (length (all_bytes before)) (last_key [] before) index v
        ≡ some (visit_all visitor (entries (last_key [] before) after) v)
  validate_loop-items items before after zero index v split holds some_items rest bound enough =
      absurd (omega arith)
  validate_loop-items items before [] (suc fuel) index v split holds some_items rest bound enough =
      let size = size-split layout before [] (subst (λ l. Holds layout l) split holds) in
      let none_left = sym (length-drop index (restart_array items)) ∙ ap length rest in
      loop-end layout visitor fuel (length (all_bytes before)) (last_key [] before) index v
        (omega arith)
      ∙ ap (λ s. some (s, v))
          (matched_restarts-all items index holds some_items (omega (arith, holds.count)))
  validate_loop-items items before (item ∷ after) (suc fuel) index v split holds some_items rest
        bound enough =
      let whole = subst (λ l. Holds layout l) split holds in
      let array = ap restart_array split in
      let rest' : drop index (restart_array (before ++ (item ∷ after)))
          ≡ restarts (length (all_bytes before)) (item ∷ after) =
        ap (drop index) (sym array) ∙ rest in
      let is = item-IsItem layout before item after whole in
      let offset = length (all_bytes before) in
      let key = last_key [] before in
      let size = size-split layout before (item ∷ after) whole in
      let grows = item_bytes-grows item key is in
      let sum = length-append (item_bytes item) (all_bytes after) in
      let more : offset < layout.entries_end = omega arith in
      let read = read_entry-item layout before item after whole (length key) is.shares in
      let matched = validate_restart_entry-item layout before item after whole index rest' in
      let next = before ++ (item ∷ []) in
      let same : items ≡ next ++ after = split ∙ sym (append_assoc before (item ∷ []) after) in
      let further : offset + length (header_bytes item) + length item.key_delta + length item.value
          ≡ length (all_bytes next) =
        omega (
          arith,
          length-item_bytes item key is,
          ap length (all_bytes-append before (item ∷ [])),
          length-append (all_bytes before) (all_bytes (item ∷ [])),
          length-append (item_bytes item) [],
        ) in
      let longer : offset + length (item_bytes item) ≡ length (all_bytes next) =
        omega (arith, length-item_bytes item key is) in
      let key' : key_of key item ≡ last_key [] next = sym (last_key-append [] before (item ∷ [])) in
      let rest'' : drop (bump item.restart index) (restart_array items)
          ≡ restarts (length (all_bytes next)) after =
        ap (drop (bump item.restart index)) array
        ∙ rest-next layout before item after whole index rest'
        ∙ ap (λ (k : ℕ). restarts k after) longer in
      loop-entry layout visitor fuel offset key index v more _ (bump item.restart index) read
        matched (entries (key_of key item) after)
        (λ v'.
          ap
            (λ (k : ℕ).
              validate_loop layout visitor fuel k (key_of key item) (bump item.restart index) v')
            further
          ∙ ap
              (λ k.
                validate_loop layout visitor fuel (length (all_bytes next)) k
                  (bump item.restart index) v')
              key'
          ∙ validate_loop-items items next after fuel (bump item.restart index) v' same holds
              some_items rest'' (bump-bound layout before item after whole index rest' bound)
              (omega arith)
          ∙ ap (λ k. some (visit_all visitor (entries k after) v')) (sym key'))

  validate_loop-whole :
      (items : List Item) (v : V)
      → Holds layout items
      → validate_loop layout visitor (suc layout.entries_end) 0 [] 0 v
        ≡ some (visit_all visitor (entries [] items) v)
  unfolding matched_restarts
  validate_loop-whole [] v holds =
      let size = holds.size in
      let count = holds.count in
      loop-end layout visitor layout.entries_end 0 [] 0 v (omega arith)
      ∙ ap (λ s. some (s, v)) (ground (arith, size, count))
  validate_loop-whole (item ∷ items) v holds =
      validate_loop-items (item ∷ items) [] (item ∷ items) (suc layout.entries_end) 0 v refl holds
        (λ e. cc) refl (omega arith) (omega (arith, holds.size))

-- Over a block that holds items, for every visitor, the walk visits each entry once, in order, with
-- its whole key, up to the first visit that fails, and answers ok if none does.
pub validate_entries-Holds {ℓ} :
    {V : Type ℓ} (visitor : EntryVisitor V) (block : Block) (items : List Item) (v : V)
    → Holds block.layout items
    → validate_entries visitor block v ≡ some (visit_all visitor (entries [] items) v)
unfolding validate_entries
validate_entries-Holds visitor block items v holds =
    let (some_left, first) = first_restart block.layout items holds in
    ground (arith, some_left, first, validate_loop-whole block.layout visitor items v holds)
