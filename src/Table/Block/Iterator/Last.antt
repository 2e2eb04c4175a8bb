-- ===== src/Table/Block/Iterator/Last.antt =====
-- src/table/block.cc: `SeekToLast` over a block that holds items.
use modern_level_db.Prelude.{
  ℕ, zero, suc, ◌-◌, ◌<◌, ◌≡◌, ◌⊎◌, inl, inr, refl, sym, ap, ◌∙◌, List, [], ◌∷◌, ◌++◌, some, true,
  false, ltb, ◌==◌, length, arith, append_assoc, Bool-cases,
}
use mathlib.Core.Path.{subst}
use modern_level_db.Base.Error.{ok}
use modern_level_db.Table.Block.{restart_point}
use modern_level_db.Table.Block.Items.{
  Item, Entry, all_bytes, key_of, last_key, entries, entries-append, last_key-append,
  AreItems-split,
}
use modern_level_db.Table.Block.Shape.{Holds, size-split}
use modern_level_db.Table.Block.Restarts.{first_restart}
use modern_level_db.Table.Block.Iterator.{
  Context, Iterator, begin_positioning, invalidate, seek_to_restart_point, scan_to_last_entry,
  seek_to_last,
}
use modern_level_db.Table.Block.Iterator.Standing.{Pending, Standing}
use modern_level_db.Table.Block.Iterator.Iterating.{Iterates, Standing-Iterates}
use modern_level_db.Table.Block.Iterator.Stepping.{
  IsAtEnd, AreAccepted, current_status-whole, parse_next_entry-Pending, Standing-Pending,
  restarted-Pending, invalid-invalidate,
}
use modern_level_db.Table.Block.Iterator.Restarting.{restart-Split}
use modern_level_db.Table.Block.Iterator.Between.{length-all_bytes}

-- The last entry, if there is one.
abbrev pub last_of : List Entry → List Entry
last_of [] = []
last_of (entry ∷ []) = entry ∷ []
last_of (entry ∷ other ∷ rest) = last_of (other ∷ rest)

last_of-append :
    (xs : List Entry) (y : Entry) (ys : List Entry) → last_of (xs ++ (y ∷ ys)) ≡ last_of (y ∷ ys)
last_of-append [] y ys = refl
last_of-append (x ∷ []) y ys = refl
last_of-append (x ∷ z ∷ xs) y ys = last_of-append (z ∷ xs) y ys

pub last_of-nothing :
    (previous : List ℕ) (items : List Item) → last_of (entries previous items) ≡ [] → items ≡ []
last_of-nothing previous [] h = refl
last_of-nothing previous (x ∷ []) h = absurd cc
last_of-nothing previous (x ∷ y ∷ items) h =
    let nothing = last_of-nothing (key_of previous x) (y ∷ items) h in absurd cc

pub all_bytes-nothing : (items : List Item) → length items ≡ 0 → length (all_bytes items) ≡ 0
all_bytes-nothing [] h = refl
all_bytes-nothing (item ∷ items) h = absurd (omega arith)

-- The iterator stands at the last item, or behind none.
abbrev pub StandsLast : Context → List Item → List Entry → Iterator → Type 0
StandsLast context items es iterator =
    ((last_of es ≡ []) × IsAtEnd context iterator)
    ⊎ ((before : List Item) × (item : Item) × Standing context items before item [] iterator)

abbrev pub AtLast : Context → List Item → List Entry → Iterator → Type 0
AtLast context items es iterator =
    StandsLast context items es iterator
    × (iterator.corrupted ≡ false)
    × Iterates context iterator (last_of es)

module _ (context : Context) (items : List Item) (holds : Holds context.layout items)
    (accepted : AreAccepted context (entries [] items)) where
  stops :
      (before : List Item) (item : Item) (after : List Item) (iterator : Iterator)
      → Standing context items before item after iterator
      → ltb iterator.next context.layout.entries_end ≡ ltb 0 (length after)
  stops before item after iterator standing =
      let whole = subst (λ l. Holds context.layout l) standing.split holds in
      let same : before ++ (item ∷ after) ≡ (before ++ (item ∷ [])) ++ after =
        sym (append_assoc before (item ∷ []) after) in
      let size =
        size-split context.layout (before ++ (item ∷ [])) after
          (subst (λ l. Holds context.layout l) same whole) in
      let later = (AreItems-split [] before (item ∷ after) whole.items_lem).1.1 in
      let bytes = length-all_bytes (key_of (last_key [] before) item) after later in
      let nothing = all_bytes-nothing after in
      ground (arith, standing.next_lem, size, bytes, nothing)

  scan_to_last_entry-Pending :
      (fuel : ℕ) (before after : List Item) (iterator : Iterator)
      → Pending context items before after iterator
      → length after < fuel
      → (iterator' : Iterator) × (scan_to_last_entry context fuel iterator ≡ some iterator')
        × AtLast context items (entries (last_key [] before) after) iterator'
  unfolding scan_to_last_entry
  scan_to_last_entry-Pending zero before after iterator pending enough = absurd (omega arith)
  scan_to_last_entry-Pending (suc fuel) before [] iterator pending enough =
      let e = parse_next_entry-Pending context items holds accepted before [] iterator pending in
      let none_left = invalid-invalidate context items holds accepted iterator in
      (
        invalidate context iterator,
        rw e refl,
        (inl (refl, (none_left, refl)), pending.whole, none_left),
      )
  scan_to_last_entry-Pending (suc fuel) before (item ∷ []) iterator pending enough =
      let (iterator', e, standing) =
        parse_next_entry-Pending context items holds accepted before (item ∷ []) iterator pending in
      (
        iterator',
        rw (e, stops before item [] iterator' standing) refl,
        (
          inr (before, item, standing),
          standing.whole,
          Standing-Iterates context items holds accepted before item [] iterator' standing,
        ),
      )
  scan_to_last_entry-Pending (suc fuel) before (item ∷ y ∷ after) iterator pending enough =
      let (iterator', e, standing) =
        parse_next_entry-Pending context items holds accepted before (item ∷ y ∷ after) iterator
          pending in
      let more : ltb 0 (suc (length after)) ≡ true = ground arith in
      let next =
        Standing-Pending context items holds accepted before item (y ∷ after) iterator' standing in
      let (last, later, at) =
        scan_to_last_entry-Pending fuel (before ++ (item ∷ [])) (y ∷ after) iterator' next
          (omega arith) in
      (
        last,
        rw (e, stops before item (y ∷ after) iterator' standing ∙ more) later,
        subst (λ k. AtLast context items (entries k (y ∷ after)) last)
            (last_key-append [] before (item ∷ [])) at,
      )

  -- The last restart leaves the last entry among those behind it.
  sought-last :
      (iterator : Iterator)
      → (before after : List Item) × (iterator' : Iterator) × (seek_to_restart_point context
            (context.layout.restart_count - 1)
            (begin_positioning iterator)
          ≡ (true, iterator'))
        × Pending context items before after iterator'
        × (last_of (entries [] items) ≡ last_of (entries (last_key [] before) after))
  sought-last iterator =
      let (some_left, point) = first_restart context.layout items holds in
      let index = context.layout.restart_count - 1 in
      let begun = begin_positioning iterator in
      elim (Bool-cases (index == 0)) [
        | inl only ↦
            let zeroth : index ≡ 0 = ground (arith, only) in
            let (at_restart, e, pending) =
              restarted-Pending context items holds accepted [] items index begun refl (omega arith)
                (ap (restart_point context.layout) zeroth ∙ point) holds.begins (refl, refl) in
            ([], items, at_restart, e, pending, refl)
        | inr later ↦
            let s =
              restart-Split context items holds accepted index (ground (arith, later))
                (omega arith) in
            let (at_restart, e, pending) =
              restarted-Pending context items holds accepted s.before (s.item ∷ s.after) index begun
                s.split (omega arith) (omega (arith, s.point_lem)) s.first (refl, refl) in
            let same : last_of (entries [] items)
                ≡ last_of (entries (last_key [] s.before) (s.item ∷ s.after)) =
              ap (λ l. last_of (entries [] l)) s.split
              ∙ ap last_of (entries-append [] s.before (s.item ∷ s.after))
              ∙ last_of-append (entries [] s.before) _
                  (entries (key_of (last_key [] s.before) s.item) s.after) in
            (s.before, s.item ∷ s.after, at_restart, e, pending, same)
      ]

  seek_to_last-steps :
      (iterator at_restart last : Iterator)
      → 0 < context.layout.restart_count
      → seek_to_restart_point context
          (context.layout.restart_count - 1)
          (begin_positioning iterator)
        ≡ (true, at_restart)
      → scan_to_last_entry context (suc context.layout.entries_end) at_restart ≡ some last
      → last.corrupted ≡ false
      → seek_to_last context iterator ≡ some (ok tt, last)
  unfolding seek_to_last
  seek_to_last-steps iterator at_restart last some_left sought scanned whole =
      let nonzero : (context.layout.restart_count == 0) ≡ false = ground (arith, some_left) in
      rw (nonzero, sought, scanned, current_status-whole last whole) refl

  -- From any state, the iterator comes to the last item, or behind none.
  pub seek_to_last-Holds :
      (iterator : Iterator)
      → (iterator' : Iterator) × (seek_to_last context iterator ≡ some (ok tt, iterator'))
        × AtLast context items (entries [] items) iterator'
  seek_to_last-Holds iterator =
      let (some_left, _) = first_restart context.layout items holds in
      let (before, after, at_restart, sought, pending, same) = sought-last iterator in
      let whole_block = subst (λ l. Holds context.layout l) pending.split holds in
      let size = size-split context.layout before after whole_block in
      let small =
        length-all_bytes (last_key [] before) after
          (AreItems-split [] before after whole_block.items_lem).1 in
      let (last, scanned, (located, whole, iterates)) =
        scan_to_last_entry-Pending (suc context.layout.entries_end) before after at_restart pending
          (omega arith) in
      (
        last,
        seek_to_last-steps iterator at_restart last some_left sought scanned whole,
        (
          elim located [
            | inl (nothing, at_end) ↦ inl (same ∙ nothing, at_end)
            | inr standing ↦ inr standing
          ],
          whole,
          subst (λ l. Iterates context last l) (sym same) iterates,
        ),
      )
