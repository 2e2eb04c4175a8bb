-- ===== src/Table/Block/Prev/Answered.antt =====
-- src/table/block.cc: `Prev` from an entry leads to the one before it, whether the reverse cache answers
-- or not.
use modern_level_db.Prelude.{
  ℕ, suc, ◌+◌, ◌-◌, ◌<◌, ◌≡◌, refl, ap, ◌∙◌, List, [], some, true, false, ◌==◌, length, arith,
  Bool-cases, inl, inr,
}
use mathlib.Core.Path.{subst}
use modern_level_db.Base.Error.{ok}
use modern_level_db.Table.Block.Items.{Item, entries}
use modern_level_db.Table.Block.Shape.{Holds}
use modern_level_db.Table.Block.Iterator.{Context, ReverseCache, Iterator, invalidate}
use modern_level_db.Table.Block.Iterator.Stepping.{
  AreAccepted, IsAtEnd, current_status-whole, invalid-invalidate,
}
use modern_level_db.Table.Block.Iterator.Last.{all_bytes-nothing}
use modern_level_db.Table.Block.Prev.{
  find_previous_restart_from, restore, try_previous, try_cached, prev_uncached, prev,
}
use modern_level_db.Table.Block.Prev.Cached.{StandsAt, restore-StandsAt}
use modern_level_db.Table.Block.Prev.Places.{IsCached, IsAt}
use modern_level_db.Table.Block.Prev.Scanned.{
  find_previous_restart_from-first, prev_uncached-first, prev_uncached-IsAt,
}

module _ (context : Context) (items : List Item) (holds : Holds context.layout items)
    (accepted : AreAccepted context (entries [] items)) where
  -- By the cache: the entry that it keeps before the one at its position.
  try_previous-IsAt :
      (index : ℕ) (iterator : Iterator) (c : IsCached context items (suc index) iterator)
      → iterator.corrupted ≡ false
      → (c.cache.position == 0) ≡ false
      → (iterator' : Iterator) × (try_previous c.cache iterator ≡ (true, iterator'))
        × (iterator'.corrupted ≡ false)
        × IsAt context items index iterator'
  unfolding try_previous
  try_previous-IsAt index iterator c whole nonzero =
      let cache' = record c.cache { position = c.cache.position - 1 } in
      let positive : 0 < c.cache.position = ground (arith, nonzero) in
      let position_lt : cache'.position < length cache'.entries = omega (arith, c.position_lt) in
      let (s, kept, _) =
        restore-StandsAt context items c.start cache' iterator (some cache') c.snapshots position_lt
          whole in
      let e : c.start + cache'.position ≡ index = omega (arith, c.index_lem) in
      let iterator' = record (restore cache' iterator) { reverse_cache = some cache' } in
      (
        iterator',
        rw nonzero refl,
        kept,
        record {
          place =
              subst
                (λ (k : ℕ). StandsAt context items k (record (restore cache' iterator) {
                  reverse_cache = some cache';
                  reverse_cache_active = false;
                }))
                e s;
          cached = λ _. record {
            cache = cache';
            start = c.start;
            cache_lem = refl;
            snapshots = c.snapshots;
            position_lt = position_lt;
            index_lem = e;
          };
        },
      )

  prev-answered :
      (iterator iterator' : Iterator)
      → try_cached iterator.reverse_cache_active iterator.reverse_cache iterator ≡ (true, iterator')
      → iterator'.corrupted ≡ false
      → prev context iterator ≡ some (ok tt, iterator')
  unfolding prev
  prev-answered iterator iterator' e whole = rw (prev, e, current_status-whole iterator' whole) refl

  prev-unanswered :
      (iterator iterator' : Iterator)
      → try_cached iterator.reverse_cache_active iterator.reverse_cache iterator
        ≡ (false, iterator')
      → prev context iterator ≡ prev_uncached context iterator
  unfolding prev
  prev-unanswered iterator iterator' e = rw (prev, e) refl

  try_previous-start :
      (cache : ReverseCache) (iterator : Iterator)
      → (cache.position == 0) ≡ true
      → try_previous cache iterator ≡ (false, iterator)
  unfolding try_previous
  try_previous-start cache iterator h = rw h refl

  pub prev-IsAt :
      (index : ℕ) (iterator : Iterator)
      → IsAt context items (suc index) iterator
      → (iterator' : Iterator) × (prev context iterator ≡ some (ok tt, iterator'))
        × IsAt context items index iterator'
  prev-IsAt index iterator at = elim (Bool-cases iterator.reverse_cache_active) [
    | inr idle ↦
        let (last, e, at') =
          prev_uncached-IsAt context items holds accepted index iterator at.place in
        (
          last,
          prev-unanswered iterator iterator
                (ap (λ b. try_cached b iterator.reverse_cache iterator) idle)
              ∙ e,
          at',
        )
    | inl active ↦
        let c = at.cached active in
        let asked : try_cached iterator.reverse_cache_active iterator.reverse_cache iterator
            ≡ try_previous c.cache iterator =
          ap (λ b. try_cached b iterator.reverse_cache iterator) active
          ∙ ap (λ o. try_cached true o iterator) c.cache_lem in
        elim (Bool-cases (c.cache.position == 0)) [
          | inl start ↦
              let (last, e, at') =
                prev_uncached-IsAt context items holds accepted index iterator at.place in
              (
                last,
                prev-unanswered iterator iterator
                      (asked ∙ try_previous-start c.cache iterator start)
                    ∙ e,
                at',
              )
          | inr nonzero ↦
              let (last, e, kept, at') =
                try_previous-IsAt index iterator c at.place.standing.whole nonzero in
              (last, prev-answered iterator last (asked ∙ e) kept, at')
        ]
  ]

  unanswered :
      (iterator : Iterator)
      → IsAt context items 0 iterator
      → prev context iterator ≡ prev_uncached context iterator
  unanswered iterator at = elim (Bool-cases iterator.reverse_cache_active) [
    | inr idle ↦
        prev-unanswered iterator iterator
          (ap (λ b. try_cached b iterator.reverse_cache iterator) idle)
    | inl active ↦
        let c = at.cached active in
        prev-unanswered iterator iterator (
          ap (λ b. try_cached b iterator.reverse_cache iterator) active
          ∙ ap (λ o. try_cached true o iterator) c.cache_lem
          ∙ try_previous-start c.cache iterator (ground (arith, c.index_lem)))
  ]

  pub prev-first :
      (iterator : Iterator)
      → IsAt context items 0 iterator
      → (iterator' : Iterator) × (prev context iterator ≡ some (ok tt, iterator'))
        × IsAtEnd context iterator'
  prev-first iterator at =
      let clean = record iterator { reverse_cache_active = false } in
      let last = invalidate context clean in
      let at_start : iterator.current ≡ 0 =
        at.place.standing.current_lem ∙ all_bytes-nothing at.place.before at.place.index_lem in
      let (_, down) =
        find_previous_restart_from-first context items holds accepted iterator.restart_index clean
          at.place.standing.index_lt in
      let found : find_previous_restart_from context iterator.restart_index iterator.current clean
          ≡ (false, last) =
        ap (λ (k : ℕ). find_previous_restart_from context iterator.restart_index k clean) at_start
        ∙ down in
      (
        last,
        unanswered iterator at
            ∙ prev_uncached-first context items holds accepted iterator last found
                at.place.standing.whole,
        (invalid-invalidate context items holds accepted iterator, refl),
      )
