-- ===== src/Table/Block/Iterator/Reached.antt =====
-- src/table/block.cc: the states of an iterator that calls of it lead to, over a block that holds sorted
-- items.
use modern_level_db.Prelude.{
  ℕ, zero, suc, ◌≡◌, ◌⊎◌, inl, inr, refl, sym, ◌∙◌, List, [], ◌∷◌, Option, some, true, false,
  length, arith, Bool-cases, ◌++◌,
}
use mathlib.Core.Path.{subst}
use modern_level_db.Base.Error.{Status, ok}
use modern_level_db.Base.Comparator.Laws.{IsComparator}
use modern_level_db.Table.Block.Items.{Item, Entry, entries}
use modern_level_db.Table.Block.Shape.{Holds}
use modern_level_db.Table.Block.Iterator.{
  Context, Iterator, new_iterator, begin_positioning, corruption, current_status, valid,
  accepts_key_size, seek_to_first, seek_to_last, next,
}
use modern_level_db.Table.Block.Iterator.Seek.{seek}
use modern_level_db.Table.Block.Iterator.Standing.{Pending}
use modern_level_db.Table.Block.Iterator.Iterating.{Iterates, seek_to_first-Holds}
use modern_level_db.Table.Block.Iterator.Stepping.{
  IsAtEnd, Located, AreAccepted, parse_next_entry-behind, invalid-invalidate,
  parse_next_entry-Pending, Standing-Pending,
}
use modern_level_db.Table.Block.Iterator.Sorted.{lower_bound, AreSorted}
use modern_level_db.Table.Block.Iterator.Scanning.{Arrived}
use modern_level_db.Table.Block.Iterator.Last.{StandsLast, seek_to_last-Holds}
use modern_level_db.Table.Block.Prev.{prev}
use modern_level_db.Table.Block.Prev.Places.{IsAt, plain-IsAt}
use modern_level_db.Table.Block.Prev.Answered.{prev-IsAt, prev-first}
use modern_level_db.Table.Block.Iterator.Seeking.{seek-Located}

-- A new iterator, and one that a call leaves, whatever the call answers. `Prev` is called at an entry.
pub data Reached (context : Context) : Iterator → Type 0 where
  made : Reached context (new_iterator context)
  sought_first :
      (iterator : Iterator)
      → Reached context iterator
      → Reached context (seek_to_first context iterator).1
  sought_last :
      (iterator : Iterator) (status : Status) (iterator' : Iterator)
      → Reached context iterator
      → seek_to_last context iterator ≡ some (status, iterator')
      → Reached context iterator'
  sought :
      (target : List ℕ) (iterator : Iterator) (status : Status) (iterator' : Iterator)
      → Reached context iterator
      → seek context target iterator ≡ some (status, iterator')
      → Reached context iterator'
  retreated :
      (iterator : Iterator) (status : Status) (iterator' : Iterator)
      → Reached context iterator
      → valid context iterator ≡ true
      → prev context iterator ≡ some (status, iterator')
      → Reached context iterator'
  moved :
      (iterator : Iterator) → Reached context iterator → Reached context (next context iterator).1

-- An iterator that calls lead to is behind the last entry, or at an entry with its cache right.
abbrev pub IsRight : Context → List Item → Iterator → Type 0
IsRight context items iterator =
    IsAtEnd context iterator ⊎ ((index : ℕ) × IsAt context items index iterator)

module _ (context : Context) (items : List Item) (holds : Holds context.layout items)
    (accepted : AreAccepted context (entries [] items)) (laws : IsComparator context.comparator)
    (sorted : AreSorted context.comparator (entries [] items)) where
  Located-IsRight :
      (iterator : Iterator) → Located context items iterator → IsRight context items iterator
  Located-IsRight iterator (inl at_end) = inl at_end
  Located-IsRight iterator (inr s) = inr (
    length s.before,
    plain-IsAt context items holds accepted (length s.before) iterator (record {
      before = s.before;
      item = s.item;
      after = s.after;
      index_lem = refl;
      standing = s.standing;
    }),
  )

  -- Without the cache, it is located.
  right-Located :
      (iterator : Iterator)
      → IsRight context items iterator
      → Located context items (record iterator { reverse_cache_active = false })
  right-Located iterator (inl at_end) = inl at_end
  right-Located iterator (inr (index, at)) = inr (record {
    before = at.place.before;
    item = at.place.item;
    after = at.place.after;
    standing = at.place.standing;
  })

  last-IsRight :
      (es : List Entry) (iterator : Iterator)
      → StandsLast context items es iterator
      → IsRight context items iterator
  last-IsRight es iterator (inl (_, at_end)) = inl at_end
  last-IsRight es iterator (inr (before, item, standing)) =
      Located-IsRight iterator
        (inr (record { before = before; item = item; after = []; standing = standing }))

  next-Located :
      (iterator : Iterator)
      → Located context items (record iterator { reverse_cache_active = false })
      → Located context items (next context iterator).1
  unfolding next
  next-Located iterator (inl at_end) =
      let clean = record iterator { reverse_cache_active = false } in
      let e = parse_next_entry-behind context clean at_end.1 in
      subst (λ p. Located context items p.1) (sym e)
        (inl (invalid-invalidate context items holds accepted clean, refl))
  next-Located iterator (inr s) = go s.after (
      Standing-Pending context items holds accepted s.before s.item s.after
        (record iterator { reverse_cache_active = false }) s.standing)
    where
      go :
          (after : List Item)
          → Pending context items
              (s.before ++ (s.item ∷ []))
              after
              (record iterator { reverse_cache_active = false })
          → Located context items (next context iterator).1
      go [] pending =
          let clean = record iterator { reverse_cache_active = false } in
          let e =
            parse_next_entry-Pending context items holds accepted (s.before ++ (s.item ∷ [])) []
              clean pending in
          subst (λ p. Located context items p.1) (sym e)
            (inl (invalid-invalidate context items holds accepted clean, refl))
      go (y ∷ after) pending =
          let clean = record iterator { reverse_cache_active = false } in
          let (iterator', e, standing) =
            parse_next_entry-Pending context items holds accepted (s.before ++ (s.item ∷ []))
              (y ∷ after) clean pending in
          subst (λ p. Located context items p.1) (sym e)
            (inr (record {
              before = s.before ++ (s.item ∷ []);
              item = y;
              after = after;
              standing = standing;
            }))

  seek-rejected :
      (target : List ℕ) (iterator : Iterator)
      → accepts_key_size context (length target) ≡ false
      → (status : Status) × (iterator' : Iterator) × (seek context target iterator
          ≡ some (status, iterator'))
        × Located context items iterator'
  unfolding seek
  seek-rejected target iterator h =
      let corrupt = (corruption context (begin_positioning iterator)).1 in
      (
        current_status corrupt,
        corrupt,
        rw h refl,
        inl (invalid-invalidate context items holds accepted iterator, refl),
      )

  seek-IsRight :
      (target : List ℕ) (iterator : Iterator)
      → accepts_key_size context (length target) ≡ true
      → IsRight context items iterator
      → (iterator' : Iterator) × (seek context target iterator ≡ some (ok tt, iterator'))
        × Arrived context items target iterator'
  unfolding seek
  seek-IsRight target iterator takes right =
      seek-Located context items holds accepted laws sorted target
        (record iterator { reverse_cache_active = false }) takes (right-Located iterator right)

  same_state :
      {s t : Status} {x y : Iterator}
      → ◌≡◌ {A = Option (Status × Iterator)} (some (s, x)) (some (t, y))
      → x ≡ y
  same_state e = cc

  prev-IsRight :
      (iterator : Iterator)
      → IsRight context items iterator
      → valid context iterator ≡ true
      → (iterator' : Iterator) × (prev context iterator ≡ some (ok tt, iterator'))
        × IsRight context items iterator'
  prev-IsRight iterator (inl at_end) there = absurd (let e = sym there ∙ at_end.0 in cc)
  prev-IsRight iterator (inr (zero, at)) there =
      let (last, e, at_end) = prev-first context items holds accepted iterator at in
      (last, e, inl at_end)
  prev-IsRight iterator (inr (suc index, at)) there =
      let (last, e, at') = prev-IsAt context items holds accepted index iterator at in
      (last, e, inr (index, at'))

  -- Over a block that holds sorted items under a comparator that keeps its promises, with key sizes
  -- that the format accepts: every state of an iterator that calls lead to, whatever they answer,
  -- is behind the last entry or at an entry, with its key and its value those of that entry and its
  -- restart index one of the block, and a reverse cache in use has that entry at its position and
  -- those before it in the block in front.
  pub Reached-IsRight :
      (iterator : Iterator) → Reached context iterator → IsRight context items iterator
  Reached-IsRight iterator made = inl (ground arith, refl)
  Reached-IsRight iterator (sought_first from r) =
      let (last, e, located, _) = seek_to_first-Holds context items holds accepted from in
      subst (λ p. IsRight context items p.1) (sym e) (Located-IsRight last located)
  Reached-IsRight iterator (sought_last from status iterator' r h) =
      let (last, e, (stands, _, _)) = seek_to_last-Holds context items holds accepted from in
      subst (IsRight context items) (same_state (sym e ∙ h))
        (last-IsRight (entries [] items) last stands)
  Reached-IsRight iterator (sought target from status iterator' r h) =
      elim (Bool-cases (accepts_key_size context (length target))) [
        | inl takes ↦
            let (last, e, (located, _, _)) =
              seek-IsRight target from takes (Reached-IsRight from r) in
            subst (IsRight context items) (same_state (sym e ∙ h)) (Located-IsRight last located)
        | inr refuses ↦
            let (_, last, e, located) = seek-rejected target from refuses in
            subst (IsRight context items) (same_state (sym e ∙ h)) (Located-IsRight last located)
      ]
  Reached-IsRight iterator (retreated from status iterator' r there h) =
      let (last, e, right) = prev-IsRight from (Reached-IsRight from r) there in
      subst (IsRight context items) (same_state (sym e ∙ h)) right
  Reached-IsRight iterator (moved from r) =
      Located-IsRight (next context from).1
        (next-Located from (right-Located from (Reached-IsRight from r)))

  -- Over a block that holds sorted items under a comparator that keeps its promises, with key sizes
  -- that the format accepts: from every state of an iterator that calls of `SeekToFirst`,
  -- `SeekToLast`, `Seek`, `Next` and, at an entry, `Prev` lead to, whatever they answer, `Seek` of
  -- a target of accepted size answers ok and stands at the first entry that is not less than the
  -- target, and `Next` then visits the later entries in order, up to the end.
  pub seek-Reached :
      (target : List ℕ) (iterator : Iterator)
      → accepts_key_size context (length target) ≡ true
      → Reached context iterator
      → (iterator' : Iterator) × (seek context target iterator ≡ some (ok tt, iterator'))
        × Iterates context iterator' (lower_bound context.comparator target (entries [] items))
  seek-Reached target iterator takes reached =
      let (last, e, (_, _, iterates)) =
        seek-IsRight target iterator takes (Reached-IsRight iterator reached) in
      (last, e, iterates)
