-- ===== src/Table/Block/Iterator/Between.antt =====
-- src/table/block.cc: what `Seek` does once the range of restarts is known, over a block that holds
-- sorted items.
use Prim.Native.Nat.{Ordering}
use modern_level_db.Prelude.{
  ℕ, suc, ◌≤◌, ◌<◌, ◌≡◌, ◌≢◌, ◌⊎◌, inl, inr, refl, ap, ◌∙◌, List, [], ◌∷◌, some, true, false, ◌==◌,
  ◌&&◌, length, arith, length-append, Bool-cases,
}
use mathlib.Core.Path.{subst}
use modern_level_db.Base.Error.{ok}
use modern_level_db.Base.Comparator.{Comparator}
use modern_level_db.Base.Comparator.Laws.{IsComparator}
use modern_level_db.Table.Block.{restart_point}
use modern_level_db.Table.Block.Items.{
  Item, item_bytes, all_bytes, key_of, last_key, entries, AreItems, AreItems-split,
}
use modern_level_db.Table.Block.Shape.{Holds, size-split, item_bytes-grows}
use modern_level_db.Table.Block.Restarts.{first_restart}
use modern_level_db.Table.Block.Iterator.{Context, Iterator, seek_to_restart_point}
use modern_level_db.Table.Block.Iterator.Seek.{
  is_less, restore_checkpoint, find_restart, scan_to_lower_bound, seek_between,
}
use modern_level_db.Table.Block.Iterator.Stepping.{
  AreAccepted, IsClean, current_status-whole, restarted-Pending,
}
use modern_level_db.Table.Block.Iterator.Sorted.{AreSorted}
use modern_level_db.Table.Block.Iterator.Restarting.{IsBelow, find_restart-IsBelow}
use modern_level_db.Table.Block.Iterator.Scanning.{
  Placed, Arrived, item-below, scan_to_lower_bound-Pending,
}

pub length-all_bytes :
    (previous : List ℕ) (items : List Item)
    → AreItems previous items
    → length items ≤ length (all_bytes items)
length-all_bytes previous [] h = omega arith
length-all_bytes previous (item ∷ items) (h, hs) = omega (
  arith,
  item_bytes-grows item previous h,
  length-all_bytes (key_of previous item) items hs,
  length-append (item_bytes item) (all_bytes items),
)

module _ (context : Context) (items : List Item) (holds : Holds context.layout items)
    (accepted : AreAccepted context (entries [] items)) (laws : IsComparator context.comparator)
    (sorted : AreSorted context.comparator (entries [] items)) (target : List ℕ) where
  abbrev c : Comparator
  c = context.comparator

  -- At the first restart, or at one that is below the target.
  sought-Placed :
      (index : ℕ) (iterator : Iterator)
      → index < context.layout.restart_count
      → (index ≡ 0) ⊎ IsBelow context items holds accepted target index
      → IsClean iterator
      → (iterator' : Iterator) × (seek_to_restart_point context index iterator ≡ (true, iterator'))
        × Placed context items target iterator'
  sought-Placed index iterator bound (inl zeroth) whole =
      let (_, point) = first_restart context.layout items holds in
      let at_start : restart_point context.layout index ≡ 0 =
        ap (restart_point context.layout) zeroth ∙ point in
      let (iterator', e, pending) =
        restarted-Pending context items holds accepted [] items index iterator refl bound at_start
          holds.begins whole in
      (iterator', e, record { before = []; after = items; pending = pending; below = tt })
  sought-Placed index iterator bound (inr b) whole =
      let s = b.place in
      let point : restart_point context.layout index ≡ length (all_bytes s.before) =
        omega (arith, s.point_lem) in
      let (iterator', e, pending) =
        restarted-Pending context items holds accepted s.before (s.item ∷ s.after) index iterator
          s.split bound point s.first whole in
      (
        iterator',
        e,
        record {
          before = s.before;
          after = s.item ∷ s.after;
          pending = pending;
          below =
              item-below context items holds accepted laws sorted target s.before s.item s.after
                s.split (λ e. cc);
        },
      )

  -- Where the search may start: at the first restart, or where the iterator is, below the target.
  abbrev pub MayStart : ℕ → Ordering → Iterator → Type 0
  MayStart left order iterator =
      ((left ≡ 0) × (is_less order ≡ false))
      ⊎ ((left ≡ iterator.restart_index)
          × (order ≡ Ordering.lt)
          × Placed context items target iterator)

  restore_checkpoint-sought :
      (index : ℕ) (order : Ordering) (iterator : Iterator)
      → (index == iterator.restart_index && is_less order) ≡ false
      → restore_checkpoint context index order iterator
        ≡ seek_to_restart_point context index iterator
  unfolding restore_checkpoint
  restore_checkpoint-sought index order iterator h = rw h refl

  restore_checkpoint-Placed :
      (left index : ℕ) (order : Ordering) (iterator : Iterator)
      → index < context.layout.restart_count
      → (index ≡ left) ⊎ IsBelow context items holds accepted target index
      → IsClean iterator
      → MayStart left order iterator
      → (iterator' : Iterator) × (restore_checkpoint context index order iterator
          ≡ (true, iterator'))
        × Placed context items target iterator'
  unfolding restore_checkpoint
  restore_checkpoint-Placed left index order iterator bound chosen whole (inl (zeroth, other)) =
      let (iterator', e, placed) =
        sought-Placed index iterator bound
          (elim chosen [ inl same ↦ inl (same ∙ zeroth) | inr b ↦ inr b ]) whole in
      let elsewhere : (index == iterator.restart_index && is_less order) ≡ false =
        elim (Bool-cases (index == iterator.restart_index)) [
          | inl h ↦ rw (h, other) refl
          | inr h ↦ rw h refl
        ] in
      (iterator', restore_checkpoint-sought index order iterator elsewhere ∙ e, placed)
  restore_checkpoint-Placed left index order iterator bound chosen whole
        (inr (same, less, placed)) =
      elim (Bool-cases (index == iterator.restart_index)) [
        | inl at_hand ↦ (iterator, rw (at_hand, less) refl, placed)
        | inr other ↦
            let moved : index ≢ left = λ e. absurd (ground (arith, other, e, same)) in
            let (iterator', e, placed') =
              sought-Placed index iterator bound
                (elim chosen [ inl e ↦ absurd (moved e) | inr b ↦ inr b ]) whole in
            let elsewhere : (index == iterator.restart_index && is_less order) ≡ false =
              rw other refl in
            (iterator', restore_checkpoint-sought index order iterator elsewhere ∙ e, placed')
      ]

  seek_between-steps :
      (left right index : ℕ) (order : Ordering) (iterator at_restart last : Iterator)
      → find_restart context (suc context.layout.restart_count) target left right iterator
        ≡ some (some index, iterator)
      → restore_checkpoint context index order iterator ≡ (true, at_restart)
      → scan_to_lower_bound context (suc context.layout.entries_end) target at_restart ≡ some last
      → last.corrupted ≡ false
      → seek_between context target left right order iterator ≡ some (ok tt, last)
  unfolding seek_between
  seek_between-steps left right index order iterator at_restart last found restored scanned whole =
      rw (seek_between, found, restored, scanned, current_status-whole last whole) refl

  pub seek_between-Arrived :
      (left right : ℕ) (order : Ordering) (iterator : Iterator)
      → left ≤ right
      → right < context.layout.restart_count
      → IsClean iterator
      → MayStart left order iterator
      → (iterator' : Iterator) × (seek_between context target left right order iterator
          ≡ some (ok tt, iterator'))
        × Arrived context items target iterator'
  seek_between-Arrived left right order iterator ordered bound whole start =
      let (index, found, above, within, chosen) =
        find_restart-IsBelow context items holds accepted target (suc context.layout.restart_count)
          left right iterator (omega arith) ordered bound in
      let (at_restart, restored, placed) =
        restore_checkpoint-Placed left index order iterator (omega arith) chosen whole start in
      let behind : length placed.after ≤ context.layout.entries_end =
        let whole_block = subst (λ l. Holds context.layout l) placed.pending.split holds in
        let size = size-split context.layout placed.before placed.after whole_block in
        let small =
          length-all_bytes (last_key [] placed.before) placed.after
            (AreItems-split [] placed.before placed.after whole_block.items_lem).1 in
        omega arith in
      let (last, scanned, arrived) =
        scan_to_lower_bound-Pending context items holds accepted laws sorted target
          (suc context.layout.entries_end) placed.before placed.after at_restart placed.pending
          placed.below (omega arith) in
      (
        last,
        seek_between-steps left right index order iterator at_restart last found restored scanned
            arrived.1,
        arrived,
      )
