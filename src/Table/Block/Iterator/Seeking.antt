-- ===== src/Table/Block/Iterator/Seeking.antt =====
-- src/table/block.cc: `Seek` over a block that holds sorted items.
use Prim.Native.Nat.{Ordering}
use modern_level_db.Prelude.{
  ℕ, zero, ◌-◌, ◌≡◌, inl, inr, refl, List, [], ◌∷◌, ◌++◌, some, true, false, ◌==◌, length, arith,
}
use modern_level_db.Base.Error.{ok}
use modern_level_db.Base.Comparator.{Comparator}
use modern_level_db.Base.Comparator.Laws.{IsComparator}
use modern_level_db.Table.Block.Items.{Item, key_of, last_key, entries}
use modern_level_db.Table.Block.Shape.{Holds}
use modern_level_db.Table.Block.Restarts.{first_restart}
use modern_level_db.Table.Block.Iterator.{Context, Iterator, accepts_key_size, begin_positioning}
use modern_level_db.Table.Block.Iterator.Seek.{seek_by, seek}
use modern_level_db.Table.Block.Iterator.Standing.{Standing}
use modern_level_db.Table.Block.Iterator.Stepping.{
  Located, AreAccepted, Standing-Pending, Standing-valid,
}
use modern_level_db.Table.Block.Iterator.Sorted.{AreSorted}
use modern_level_db.Table.Block.Iterator.Scanning.{
  Placed, Arrived, item-below, below-next, arrived-item,
}
use modern_level_db.Table.Block.Iterator.Between.{seek_between-Arrived}

module _ (context : Context) (items : List Item) (holds : Holds context.layout items)
    (accepted : AreAccepted context (entries [] items)) (laws : IsComparator context.comparator)
    (sorted : AreSorted context.comparator (entries [] items)) (target : List ℕ) where
  abbrev c : Comparator
  c = context.comparator

  -- From an item, by how its key compares with the target.
  seek-Standing :
      (before : List Item) (item : Item) (after : List Item) (iterator : Iterator)
      (order : Ordering)
      → Standing context items before item after iterator
      → c.compare (key_of (last_key [] before) item) target ≡ order
      → (iterator' : Iterator) × (seek_by context target order iterator ≡ some (ok tt, iterator'))
        × Arrived context items target iterator'
  unfolding seek_by
  seek-Standing before item after iterator Ordering.lt standing e =
      let pending =
        Standing-Pending context items holds accepted before item after iterator standing in
      let below =
        item-below context items holds accepted laws sorted target before item after standing.split
          (λ g. cc) in
      let placed : Placed context items target iterator = record {
        before = before ++ (item ∷ []);
        after = after;
        pending = pending;
        below = below-next context items holds accepted laws sorted target before item below e;
      } in
      seek_between-Arrived context items holds accepted laws sorted target iterator.restart_index
        (context.layout.restart_count - 1) Ordering.lt iterator (omega (arith, standing.index_lt))
        (omega (arith, standing.index_lt)) (standing.whole, standing.inactive)
        (inr (refl, refl, placed))
  seek-Standing before item after iterator Ordering.gt standing e =
      seek_between-Arrived context items holds accepted laws sorted target zero
        iterator.restart_index Ordering.gt iterator (omega arith) standing.index_lt
        (standing.whole, standing.inactive) (inl (refl, refl))
  seek-Standing before item after iterator Ordering.eq standing e =
      let below =
        item-below context items holds accepted laws sorted target before item after standing.split
          (λ g. cc) in
      (
        iterator,
        refl,
        arrived-item context items holds accepted laws sorted target before item after iterator
            standing below (λ g. cc),
      )

  begun-Located :
      (iterator : Iterator)
      → Located context items iterator
      → Located context items (begin_positioning iterator)
  begun-Located iterator (inl e) = inl e
  begun-Located iterator (inr s) =
      let standing = s.standing in
      inr (record {
        before = s.before;
        item = s.item;
        after = s.after;
        standing = record {
          split = standing.split;
          current_lem = standing.current_lem;
          next_lem = standing.next_lem;
          index_lt = standing.index_lt;
          whole = refl;
          inactive = refl;
          key_lem = standing.key_lem;
          value_lem = standing.value_lem;
        };
      })

  pub seek-Located :
      (iterator : Iterator)
      → accepts_key_size context (length target) ≡ true
      → Located context items iterator
      → (iterator' : Iterator) × (seek context target iterator ≡ some (ok tt, iterator'))
        × Arrived context items target iterator'
  unfolding seek
  seek-Located iterator takes located =
      let (some_left, _) = first_restart context.layout items holds in
      let nonzero : (context.layout.restart_count == 0) ≡ false = ground (arith, some_left) in
      let begun = begin_positioning iterator in go nonzero (begun-Located iterator located)
    where
      go :
          (context.layout.restart_count == 0) ≡ false
          → Located context items (begin_positioning iterator)
          → (iterator' : Iterator) × (seek context target iterator ≡ some (ok tt, iterator'))
            × Arrived context items target iterator'
      go nonzero (inl e) =
          let begun = begin_positioning iterator in
          let (last, sought, arrived) =
            seek_between-Arrived context items holds accepted laws sorted target zero
              (context.layout.restart_count - 1) Ordering.eq begun (omega arith)
              (ground (arith, nonzero)) (refl, refl) (inl (refl, refl)) in
          (last, rw (takes, nonzero, e.0) sought, arrived)
      go nonzero (inr s) =
          let begun = begin_positioning iterator in
          let at_item =
            Standing-valid context items holds accepted s.before s.item s.after begun s.standing in
          let (last, sought, arrived) =
            seek-Standing s.before s.item s.after begun
              (c.compare (key_of (last_key [] s.before) s.item) target) s.standing refl in
          let same = s.standing.key_lem in
          (last, rw (takes, nonzero, at_item, same) sought, arrived)
