-- ===== src/Table/Block/Iterator/Restarting.antt =====
-- src/table/block.cc: the keys at the restarts of a block that holds items, and the search among them.
use Prim.Native.Nat.{Ordering}
use modern_level_db.Prelude.{
  ℕ, zero, suc, ◌+◌, ◌-◌, ◌/◌, ◌≤◌, ◌<◌, ◌≡◌, ◌≢◌, ◌⊎◌, inl, inr, refl, sym, ap, ◌∙◌, List, [], ◌∷◌,
  ◌++◌, some, true, false, ltb, leb, ◌==◌, length, take, get_or, arith, length-append, take-append,
  Bool-cases,
}
use mathlib.Core.Path.{subst}
use modern_level_db.Table.Block.{restart_point, decode_entry, entries_from}
use modern_level_db.Table.Block.Items.{
  Item, item_bytes, all_bytes, key_of, last_key, entries, restarts, restart_array,
}
use modern_level_db.Table.Block.Decoding.{decode_entry-item_bytes}
use modern_level_db.Table.Block.Shape.{
  Holds, entries_from-offset, size-split, item_bytes-grows, item-IsItem,
}
use modern_level_db.Table.Block.Restarts.{restarts-true, restarts-false}
use modern_level_db.Table.Block.Iterator.{Context, Iterator, accepts_key_size}
use modern_level_db.Table.Block.Iterator.Seek.{restart_key, find_restart}
use modern_level_db.Table.Block.Iterator.Sorted.{less_or_not}
use modern_level_db.Table.Block.Iterator.Standing.{bounded_restart-Holds}
use modern_level_db.Table.Block.Iterator.Stepping.{AreAccepted, accepted_item}

-- A point among items that stand from an offset on is that of a restart.
pub record Split (offset : ℕ) (items : List Item) (point : ℕ) : Type 0 where
  pub before : List Item
  pub item : Item
  pub after : List Item
  pub split : items ≡ before ++ (item ∷ after)
  pub first : item.restart ≡ true
  pub point_lem : point ≡ offset + length (all_bytes before)

Split-later :
    (offset : ℕ) (x : Item) (items : List Item) (point : ℕ)
    → Split (offset + length (item_bytes x)) items point
    → Split offset (x ∷ items) point
Split-later offset x items point s = record {
  before = x ∷ s.before;
  item = s.item;
  after = s.after;
  split = ap (λ l. x ∷ l) s.split;
  first = s.first;
  point_lem = omega (arith, s.point_lem, length-append (item_bytes x) (all_bytes s.before));
}

restarts-Split :
    (offset : ℕ) (items : List Item) (index : ℕ)
    → index < length (restarts offset items)
    → Split offset items (get_or (restarts offset items) index 0)
restarts-Split offset [] index h = absurd (omega arith)
restarts-Split offset (x ∷ items) index h = elim (Bool-cases x.restart) [
  | inr e ↦
      let same = restarts-false offset x items e in
      subst (λ l. Split offset (x ∷ items) (get_or l index 0)) (sym same)
        (Split-later offset x items _ (
          restarts-Split (offset + length (item_bytes x)) items index
            (omega (arith, ap length same))))
  | inl e ↦
      let same = restarts-true offset x items e in
      subst (λ l. Split offset (x ∷ items) (get_or l index 0)) (sym same)
        (at_restart e index (omega (arith, ap length same))
          (λ index' h'. restarts-Split (offset + length (item_bytes x)) items index' h'))
]
  where
    at_restart :
        x.restart ≡ true
        → (index : ℕ) → index < suc (length (restarts (offset + length (item_bytes x)) items))
        → ((index' : ℕ)
            → index' < length (restarts (offset + length (item_bytes x)) items)
            → Split
                (offset + length (item_bytes x))
                items
                (get_or (restarts (offset + length (item_bytes x)) items) index' 0))
        → Split offset
            (x ∷ items)
            (get_or (offset ∷ restarts (offset + length (item_bytes x)) items) index 0)
    at_restart e zero h later = record {
      before = [];
      item = x;
      after = items;
      split = refl;
      first = e;
      point_lem = omega arith;
    }
    at_restart e (suc index) h later = Split-later offset x items _ (later index (omega arith))

module _ (context : Context) (items : List Item) (holds : Holds context.layout items)
    (accepted : AreAccepted context (entries [] items)) where
  -- A restart that is not the first is that of an item.
  pub restart-Split :
      (index : ℕ)
      → 1 ≤ index
      → index < context.layout.restart_count
      → Split 0 items (restart_point context.layout index)
  restart-Split index later h =
      subst (λ (k : ℕ). Split 0 items k) (sym (holds.points index h)) (go items holds.count)
    where
      go :
          (l : List Item)
          → context.layout.restart_count ≡ length (restart_array l)
          → Split 0 l (get_or (restart_array l) index 0)
      go [] e = absurd (omega arith)
      go (x ∷ l) e = restarts-Split 0 (x ∷ l) index (omega arith)

  -- Its key is that item's.
  restart_key-Split :
      (index : ℕ) (s : Split 0 items (restart_point context.layout index))
      → index < context.layout.restart_count
      → restart_key context index ≡ some (key_of (last_key [] s.before) s.item)
  unfolding restart_key
  restart_key-Split index s h =
      let layout = context.layout in
      let item = s.item in
      let previous = last_key [] s.before in
      let whole = subst (λ l. Holds layout l) s.split holds in
      let is = item-IsItem layout s.before item s.after whole in
      let zeroth = is.whole s.first in
      let rest = item.value ++ all_bytes s.after in
      let point : restart_point layout index ≡ length (all_bytes s.before) =
        omega (arith, s.point_lem) in
      let read : decode_entry (entries_from layout (restart_point layout index)) ≡ some _ =
        ap (λ (k : ℕ). decode_entry (entries_from layout k)) point
        ∙ ap decode_entry (entries_from-offset layout s.before (item ∷ s.after) whole)
        ∙ decode_entry-item_bytes item previous (all_bytes s.after) is in
      let size = size-split layout s.before (item ∷ s.after) whole in
      let grows = item_bytes-grows item previous is in
      let within : leb layout.entries_end (restart_point layout index) ≡ false =
        ground (arith, s.point_lem, length-append (item_bytes item) (all_bytes s.after)) in
      let bounded = bounded_restart-Holds context items holds index h in
      let none_shared : (item.shared == 0) ≡ true = ground (arith, zeroth) in
      let takes : accepts_key_size context (length item.key_delta) ≡ true =
        ap (λ (k : ℕ). accepts_key_size context k)
          (let e : length item.key_delta ≡ item.shared + length item.key_delta =
              omega (arith, zeroth) in
            e)
        ∙ accepted_item context items holds accepted s.before item s.after s.split in
      rw (bounded, within, read, none_shared, takes)
        (ap some (
          take-append (length item.key_delta) item.key_delta rest refl
          ∙ ap (λ (k : ℕ). take k previous ++ item.key_delta) (sym zeroth)))

  module _ (target : List ℕ) where
    -- A restart whose key is below the target.
    pub record IsBelow (index : ℕ) : Type 0 where
      pub place : Split 0 items (restart_point context.layout index)
      pub below :
          context.comparator.compare (key_of (last_key [] place.before) place.item) target
          ≡ Ordering.lt

    find_restart-stop :
        (fuel left right : ℕ) (iterator : Iterator)
        → ltb left right ≡ false
        → find_restart context (suc fuel) target left right iterator ≡ some (some left, iterator)
    unfolding find_restart
    find_restart-stop fuel left right iterator stop = rw stop refl

    module _ (fuel left right : ℕ) (iterator : Iterator) (middle_key : List ℕ)
        (range : ltb left right ≡ true)
        (keyed : restart_key context (left + (right - left + 1) / 2) ≡ some middle_key) where
      abbrev middle : ℕ
      middle = left + (right - left + 1) / 2

      find_restart-above :
          context.comparator.compare middle_key target ≡ Ordering.lt
          → find_restart context (suc fuel) target left right iterator
            ≡ find_restart context fuel target middle right iterator
      unfolding find_restart
      find_restart-above less = rw (range, keyed, less) refl

      find_restart-below :
          context.comparator.compare middle_key target ≢ Ordering.lt
          → find_restart context (suc fuel) target left right iterator
            ≡ find_restart context fuel target left (middle - 1) iterator
      unfolding find_restart
      find_restart-below other = go (context.comparator.compare middle_key target) refl
        where
          go :
              (order : Ordering)
              → context.comparator.compare middle_key target ≡ order
              → find_restart context (suc fuel) target left right iterator
                ≡ find_restart context fuel target left (middle - 1) iterator
          go Ordering.lt e = absurd (other e)
          go Ordering.eq e = rw (range, keyed, e) refl
          go Ordering.gt e = rw (range, keyed, e) refl

    -- The search ends at the left end of its range or at a restart below the target.
    pub find_restart-IsBelow :
        (fuel left right : ℕ) (iterator : Iterator)
        → right - left < fuel
        → left ≤ right
        → right < context.layout.restart_count
        → (index : ℕ) × (find_restart context fuel target left right iterator
            ≡ some (some index, iterator))
          × (left ≤ index)
          × (index ≤ right)
          × ((index ≡ left) ⊎ IsBelow index)
    find_restart-IsBelow zero left right iterator enough ordered bound = absurd (omega arith)
    find_restart-IsBelow (suc fuel) left right iterator enough ordered bound =
        elim (Bool-cases (ltb left right)) [
          | inr stop ↦ (
            left,
            find_restart-stop fuel left right iterator stop,
            omega arith,
            ordered,
            inl refl,
          )
          | inl go_on ↦
              let middle = left + (right - left + 1) / 2 in
              let range : left < right = ground (arith, go_on) in
              let inside : (left < middle) × (middle ≤ right) = (omega arith, omega arith) in
              let place = restart-Split middle (omega arith) (omega arith) in
              let keyed = restart_key-Split middle place (omega arith) in
              let middle_key = key_of (last_key [] place.before) place.item in
              elim (less_or_not (context.comparator.compare middle_key target)) [
                | inl less ↦
                    let (index, e, above, within, chosen) =
                      find_restart-IsBelow fuel middle right iterator (omega arith) (omega arith)
                        bound in
                    let here : IsBelow middle = record { place = place; below = less } in
                    (
                      index,
                      find_restart-above fuel left right iterator middle_key go_on keyed less ∙ e,
                      omega arith,
                      within,
                      inr (elim chosen [ inl same ↦ subst IsBelow (sym same) here | inr b ↦ b ]),
                    )
                | inr other ↦
                    let (index, e, above, within, chosen) =
                      find_restart-IsBelow fuel left (middle - 1) iterator (omega arith)
                        (omega arith) (omega arith) in
                    (
                      index,
                      find_restart-below fuel left right iterator middle_key go_on keyed other ∙ e,
                      above,
                      omega arith,
                      chosen,
                    )
              ]
        ]
