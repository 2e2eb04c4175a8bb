-- ===== src/Table/Block/Iterator/Scanning.antt =====
-- src/table/block.cc: the last steps of `Seek`: `ScanToLowerBound` from the restart that was found, over
-- a block that holds sorted items.
use Prim.Native.Nat.{Ordering}
use modern_level_db.Prelude.{
  ℕ, zero, suc, ◌<◌, ◌≡◌, ◌≢◌, inl, inr, refl, sym, ap, ◌∙◌, List, [], ◌∷◌, ◌++◌, some, false,
  length, arith, All-append,
}
use mathlib.Core.Path.{subst}
use modern_level_db.Base.Comparator.{Comparator}
use modern_level_db.Base.Comparator.Laws.{IsComparator}
use modern_level_db.Table.Block.Items.{Item, key_of, last_key, entries, entries-append}
use modern_level_db.Table.Block.Shape.{Holds}
use modern_level_db.Table.Block.Iterator.{Context, Iterator, key, invalidate}
use modern_level_db.Table.Block.Iterator.Seek.{is_less, scan_to_lower_bound}
use modern_level_db.Table.Block.Iterator.Standing.{Pending, Standing}
use modern_level_db.Table.Block.Iterator.Iterating.{Iterates, Standing-Iterates}
use modern_level_db.Table.Block.Iterator.Stepping.{
  Located, AreAccepted, parse_next_entry-Pending, Standing-Pending, invalid-invalidate,
}
use modern_level_db.Table.Block.Iterator.Sorted.{
  lower_bound, AreBelow, AreSorted, less_or_not, is_less-other, lower_bound-append,
  lower_bound-kept, below_before,
}

-- It is about to read items, and those before them are below the target.
pub record Placed (context : Context) (items : List Item) (target : List ℕ) (iterator : Iterator)
    : Type 0 where
  pub before : List Item
  pub after : List Item
  pub pending : Pending context items before after iterator
  pub below : AreBelow context.comparator target (entries [] before)

-- It is at the first entry that is not below the target.
abbrev pub Arrived : Context → List Item → List ℕ → Iterator → Type 0
Arrived context items target iterator =
    Located context items iterator
    × (iterator.corrupted ≡ false)
    × Iterates context iterator (lower_bound context.comparator target (entries [] items))

module _ (context : Context) (items : List Item) (holds : Holds context.layout items)
    (accepted : AreAccepted context (entries [] items)) (laws : IsComparator context.comparator)
    (sorted : AreSorted context.comparator (entries [] items)) (target : List ℕ) where
  abbrev c : Comparator
  c = context.comparator

  -- What is below the target up to some item leaves the bound among the others.
  pub bound-split :
      (before after : List Item)
      → items ≡ before ++ after
      → AreBelow c target (entries [] before)
      → lower_bound c target (entries [] items)
        ≡ lower_bound c target (entries (last_key [] before) after)
  bound-split before after split below =
      ap (λ l. lower_bound c target (entries [] l)) split
      ∙ ap (lower_bound c target) (entries-append [] before after)
      ∙ lower_bound-append c target (entries [] before) (entries (last_key [] before) after) below

  pub item-below :
      (before : List Item) (item : Item) (after : List Item)
      → items ≡ before ++ (item ∷ after)
      → c.compare (key_of (last_key [] before) item) target ≢ Ordering.gt
      → AreBelow c target (entries [] before)
  item-below before item after split h =
      below_before c laws target (entries [] before) _
        (entries (key_of (last_key [] before) item) after)
        (subst (λ l. AreSorted c l)
          (ap (entries []) split ∙ entries-append [] before (item ∷ after)) sorted)
        h

  pub below-next :
      (before : List Item) (item : Item)
      → AreBelow c target (entries [] before)
      → c.compare (key_of (last_key [] before) item) target ≡ Ordering.lt
      → AreBelow c target (entries [] (before ++ (item ∷ [])))
  below-next before item below less =
      subst (λ l. AreBelow c target l) (sym (entries-append [] before (item ∷ [])))
        (All-append (λ entry. c.compare entry.key target ≡ Ordering.lt) (entries [] before)
          (entries (last_key [] before) (item ∷ [])) below (less, tt))

  -- The bound is at an item that is not below the target, behind such as are.
  pub arrived-item :
      (before : List Item) (item : Item) (after : List Item) (iterator : Iterator)
      → Standing context items before item after iterator
      → AreBelow c target (entries [] before)
      → c.compare (key_of (last_key [] before) item) target ≢ Ordering.lt
      → Arrived context items target iterator
  arrived-item before item after iterator standing below stops =
      let rest = entries (last_key [] before) (item ∷ after) in
      let kept : lower_bound c target rest ≡ rest =
        lower_bound-kept c target _ (entries (key_of (last_key [] before) item) after) stops in
      (
        inr (record { before = before; item = item; after = after; standing = standing }),
        standing.whole,
        subst (λ l. Iterates context iterator l)
            (sym (bound-split before (item ∷ after) standing.split below ∙ kept))
            (Standing-Iterates context items holds accepted before item after iterator standing),
      )

  pub scan_to_lower_bound-Pending :
      (fuel : ℕ) (before after : List Item) (iterator : Iterator)
      → Pending context items before after iterator
      → AreBelow c target (entries [] before)
      → length after < fuel
      → (iterator' : Iterator) × (scan_to_lower_bound context fuel target iterator ≡ some iterator')
        × Arrived context items target iterator'
  unfolding scan_to_lower_bound
  scan_to_lower_bound-Pending zero before after iterator pending below enough = absurd (omega arith)
  scan_to_lower_bound-Pending (suc fuel) before [] iterator pending below enough =
      let e = parse_next_entry-Pending context items holds accepted before [] iterator pending in
      let none_left = invalid-invalidate context items holds accepted iterator in
      (
        invalidate context iterator,
        rw e refl,
        (
          inl (none_left, refl),
          pending.whole,
          subst (λ l. Iterates context (invalidate context iterator) l)
              (sym (bound-split before [] pending.split below)) none_left,
        ),
      )
  scan_to_lower_bound-Pending (suc fuel) before (item ∷ after) iterator pending below enough =
      let (iterator', e, standing) =
        parse_next_entry-Pending context items holds accepted before (item ∷ after) iterator
          pending in
      let order = c.compare (key_of (last_key [] before) item) target in
      let same : is_less (c.compare (key iterator') target) ≡ is_less order =
        ap (λ k. is_less (c.compare k target)) standing.key_lem in
      elim (less_or_not order) [
        | inl less ↦
            let next =
              Standing-Pending context items holds accepted before item after iterator' standing in
            let (last, later, arrived) =
              scan_to_lower_bound-Pending fuel (before ++ (item ∷ [])) after iterator' next
                (below-next before item below less) (omega arith) in
            (last, rw (e, same, less) later, arrived)
        | inr other ↦
            let stops : is_less order ≡ false = is_less-other order other in
            (
              iterator',
              rw (e, same, stops) refl,
              arrived-item before item after iterator' standing below other,
            )
      ]
