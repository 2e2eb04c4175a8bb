-- ===== src/Table/Block/Iterator/Iterating.antt =====
-- src/table/block.cc: `SeekToFirst` and `Next` over a block that holds items.
use modern_level_db.Prelude.{
  ◌≡◌, refl, ap, ◌∙◌, List, [], ◌∷◌, ◌++◌, Bool, true, false, ◌==◌, if◌then◌else◌, arith, inl, inr,
}
use mathlib.Core.Path.{subst}
use modern_level_db.Base.Error.{ok}
use modern_level_db.Table.Block.Items.{Item, Entry, last_key, entries, last_key-append}
use modern_level_db.Table.Block.Shape.{Holds}
use modern_level_db.Table.Block.Restarts.{first_restart}
use modern_level_db.Table.Block.Iterator.{
  Context, Iterator, key, valid, invalidate, begin_positioning, current_status, parse_next_entry,
  seek_to_first, next,
}
use modern_level_db.Table.Block.Iterator.Standing.{Pending, Standing}
use modern_level_db.Table.Block.Iterator.Stepping.{
  Located, AreAccepted, current_status-whole, parse_next_entry-Pending, Standing-Pending,
  Standing-valid, uncached, invalid-invalidate, restarted-Pending,
}

-- An iterator stands at the first of the entries, and `Next` takes it through the others to the end.
abbrev pub Iterates : Context → Iterator → List Entry → Type 0
Iterates context iterator [] = valid context iterator ≡ false
Iterates context iterator (entry ∷ rest) =
    (valid context iterator ≡ true)
    × (key iterator ≡ entry.key)
    × (iterator.value ≡ entry.value)
    × ((iterator' : Iterator) × (next context iterator ≡ (ok tt, iterator'))
        × Iterates context iterator' rest)

module _ (context : Context) (items : List Item) (holds : Holds context.layout items)
    (accepted : AreAccepted context (entries [] items)) where
  next-parsed :
      (iterator : Iterator) (parsed : Bool) (iterator' : Iterator)
      → parse_next_entry context (record iterator { reverse_cache_active = false })
        ≡ (parsed, iterator')
      → iterator'.corrupted ≡ false
      → next context iterator ≡ (ok tt, iterator')
  unfolding next
  next-parsed iterator parsed iterator' e whole =
      ap (λ p. (current_status p.1, p.1)) e
      ∙ ap (λ s. (s, iterator')) (current_status-whole iterator' whole)

  -- From an item, the rest is iterated over.
  pub Standing-Iterates :
      (before : List Item) (item : Item) (after : List Item) (iterator : Iterator)
      → Standing context items before item after iterator
      → Iterates context iterator (entries (last_key [] before) (item ∷ after))
  Standing-Iterates before item [] iterator standing =
      let clean = record iterator { reverse_cache_active = false } in
      let pending =
        Standing-Pending context items holds accepted before item [] clean
          (uncached context items holds accepted before item [] iterator standing) in
      let e =
        parse_next_entry-Pending context items holds accepted (before ++ (item ∷ [])) [] clean
          pending in
      (
        Standing-valid context items holds accepted before item [] iterator standing,
        standing.key_lem,
        standing.value_lem,
        (
          invalidate context clean,
          next-parsed iterator false (invalidate context clean) e standing.whole,
          invalid-invalidate context items holds accepted clean,
        ),
      )
  Standing-Iterates before item (y ∷ after) iterator standing =
      let clean = record iterator { reverse_cache_active = false } in
      let pending =
        Standing-Pending context items holds accepted before item (y ∷ after) clean
          (uncached context items holds accepted before item (y ∷ after) iterator standing) in
      let (iterator', e, standing') =
        parse_next_entry-Pending context items holds accepted (before ++ (item ∷ [])) (y ∷ after)
          clean pending in
      let later = Standing-Iterates (before ++ (item ∷ [])) y after iterator' standing' in
      (
        Standing-valid context items holds accepted before item (y ∷ after) iterator standing,
        standing.key_lem,
        standing.value_lem,
        (
          iterator',
          next-parsed iterator true iterator' e standing'.whole,
          subst (λ k. Iterates context iterator' (entries k (y ∷ after)))
              (last_key-append [] before (item ∷ [])) later,
        ),
      )

  -- From the restart of items, its first item and the others are iterated over, if there is one.
  Pending-Iterates :
      (after : List Item) (iterator : Iterator)
      → Pending context items [] after iterator
      → (parsed : Bool) × (iterator' : Iterator) × (parse_next_entry context iterator
          ≡ (parsed, iterator'))
        × (iterator'.corrupted ≡ false)
        × Located context items iterator'
        × Iterates context iterator' (entries [] after)
  Pending-Iterates [] iterator pending = (
    false,
    invalidate context iterator,
    parse_next_entry-Pending context items holds accepted [] [] iterator pending,
    pending.whole,
    inl (invalid-invalidate context items holds accepted iterator, refl),
    invalid-invalidate context items holds accepted iterator,
  )
  Pending-Iterates (item ∷ after) iterator pending =
      let (iterator', e, standing) =
        parse_next_entry-Pending context items holds accepted [] (item ∷ after) iterator pending in
      (
        true,
        iterator',
        e,
        standing.whole,
        inr (record { before = []; item = item; after = after; standing = standing }),
        Standing-Iterates [] item after iterator' standing,
      )

  -- From any state, the iterator comes to the first item, and `Next` visits the others.
  pub seek_to_first-Holds :
      (iterator : Iterator)
      → (iterator' : Iterator) × (seek_to_first context iterator ≡ (ok tt, iterator'))
        × Located context items iterator'
        × Iterates context iterator' (entries [] items)
  unfolding seek_to_first
  seek_to_first-Holds iterator =
      let (some_left, point) = first_restart context.layout items holds in
      let (at_restart, e, pending) =
        restarted-Pending context items holds accepted [] items 0 (begin_positioning iterator) refl
          some_left point holds.begins (refl, refl) in
      let (parsed, iterator', p, whole, located, later) =
        Pending-Iterates items at_restart pending in
      let nonzero : (context.layout.restart_count == 0) ≡ false = ground (arith, some_left) in
      (
        iterator',
        rw nonzero (
            ap
              (λ q.
                let (_, parsed) = parse_next_entry context q.1 in
                let last = if q.0 then parsed else q.1 in (current_status last, last))
              e
            ∙ ap (λ q. (current_status q.1, q.1)) p
            ∙ ap (λ s. (s, iterator')) (current_status-whole iterator' whole)),
        located,
        later,
      )
