-- ===== src/Table/Block/Prev/Retraced.antt =====
-- src/table/block.cc: `SeekToLast` and then `Prev`, through all the entries.
use mathlib.Core.List.{reverse}
use mathlib.Mathlib.Data.List.Basic.{reverse-concat'}
use modern_level_db.Prelude.{
  ℕ, zero, suc, ◌≡◌, refl, sym, ap, ◌∙◌, List, [], ◌∷◌, ◌++◌, some, true, false, length, arith,
  length-append, append_assoc, inl, inr,
}
use mathlib.Core.Path.{subst}
use modern_level_db.Base.Error.{ok}
use modern_level_db.Table.Block.Items.{Item, Entry, key_of, last_key, entries, entries-append}
use modern_level_db.Table.Block.Shape.{Holds}
use modern_level_db.Table.Block.Iterator.{Context, Iterator, key, valid, seek_to_last}
use modern_level_db.Table.Block.Iterator.Stepping.{AreAccepted, Standing-valid, uncached}
use modern_level_db.Table.Block.Iterator.Last.{last_of-nothing, StandsLast, seek_to_last-Holds}
use modern_level_db.Table.Block.Prev.{prev}
use modern_level_db.Table.Block.Prev.Offsets.{same_front}
use modern_level_db.Table.Block.Prev.Places.{IsAt}
use modern_level_db.Table.Block.Prev.Answered.{prev-IsAt, prev-first}

-- The iterator stands at the first of the entries, and `Prev` takes it through the others to before
-- the first entry of the block.
abbrev pub Retraces : Context → Iterator → List Entry → Type 0
Retraces context iterator [] = valid context iterator ≡ false
Retraces context iterator (entry ∷ rest) =
    (valid context iterator ≡ true)
    × (key iterator ≡ entry.key)
    × (iterator.value ≡ entry.value)
    × ((iterator' : Iterator) × (prev context iterator ≡ some (ok tt, iterator'))
        × Retraces context iterator' rest)

module _ (context : Context) (items : List Item) (holds : Holds context.layout items)
    (accepted : AreAccepted context (entries [] items)) where
  front_of :
      (before : List Item) (item : Item)
      → reverse (entries [] (before ++ (item ∷ [])))
        ≡ record { key = key_of (last_key [] before) item; value = item.value }
          ∷ reverse (entries [] before)
  front_of before item =
      ap reverse (entries-append [] before (item ∷ [])) ∙ reverse-concat' (entries [] before) _

  IsAt-Retraces :
      (index : ℕ) (iterator : Iterator) (at : IsAt context items index iterator)
      → Retraces context iterator (reverse (entries [] (at.place.before ++ (at.place.item ∷ []))))
  IsAt-Retraces zero iterator at =
      let s = at.place in
      let (last, e, gone) = prev-first context items holds accepted iterator at in
      let nothing : s.before ≡ [] =
        same_front s.before _ [] _ (refl {a = s.before ++ []}) s.index_lem in
      subst (Retraces context iterator) (sym (front_of s.before s.item)) (
        Standing-valid context items holds accepted s.before s.item s.after
            (record iterator { reverse_cache_active = false }) s.standing,
        s.standing.key_lem,
        s.standing.value_lem,
        (last, e, subst (λ l. Retraces context last (reverse (entries [] l))) (sym nothing) gone.0),
      )
  IsAt-Retraces (suc index) iterator at =
      let s = at.place in
      let (last, e, at') = prev-IsAt context items holds accepted index iterator at in
      let t = at'.place in
      let same : s.before ≡ t.before ++ (t.item ∷ []) =
        same_front s.before (s.item ∷ s.after) (t.before ++ (t.item ∷ [])) t.after
          (sym s.standing.split
            ∙ t.standing.split
            ∙ sym (append_assoc t.before (t.item ∷ []) t.after))
          (omega (arith, s.index_lem, t.index_lem, length-append t.before (t.item ∷ []))) in
      subst (Retraces context iterator) (sym (front_of s.before s.item)) (
        Standing-valid context items holds accepted s.before s.item s.after
            (record iterator { reverse_cache_active = false }) s.standing,
        s.standing.key_lem,
        s.standing.value_lem,
        (
          last,
          e,
          subst (λ l. Retraces context last (reverse (entries [] l))) (sym same)
              (IsAt-Retraces index last at'),
        ),
      )

  -- Over a block that holds items with key sizes that the format accepts, `SeekToLast`, from any
  -- state of the iterator, answers ok, and `Prev` then visits all the entries backwards, to before
  -- the first, whether the reverse cache answers or a scan from a restart does, within the budget
  -- of the cache or beyond it.
  pub seek_to_last-Retraces :
      (iterator : Iterator)
      → (iterator' : Iterator) × (seek_to_last context iterator ≡ some (ok tt, iterator'))
        × Retraces context iterator' (reverse (entries [] items))
  seek_to_last-Retraces iterator =
      let (last, e, (stands, _, _)) = seek_to_last-Holds context items holds accepted iterator in
      (last, e, go last stands)
    where
      go :
          (last : Iterator)
          → StandsLast context items (entries [] items) last
          → Retraces context last (reverse (entries [] items))
      go last (inl (nothing, at_end)) =
          subst (λ l. Retraces context last (reverse (entries [] l)))
            (sym (last_of-nothing [] items nothing)) at_end.0
      go last (inr (before, item, standing)) =
          let at : IsAt context items (length before) last = record {
            place = record {
              before = before;
              item = item;
              after = [];
              index_lem = refl;
              standing = uncached context items holds accepted before item [] last standing;
            };
            cached = λ active. absurd (let e = sym active ∙ standing.inactive in cc);
          } in
          subst (λ l. Retraces context last (reverse (entries [] l))) (sym standing.split)
            (IsAt-Retraces (length before) last at)
