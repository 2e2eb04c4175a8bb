-- ===== src/Table/Block/Prev/Scanned.antt =====
-- src/table/block.cc: `Prev` where the cache does not answer, from the restart before the entry.
use modern_level_db.Prelude.{
  ℕ, zero, suc, ◌≤◌, ◌<◌, ◌≡◌, refl, sym, ap, ◌∙◌, List, [], ◌∷◌, ◌++◌, none, some, true, false,
  leb, ltb, ◌==◌, length, arith, Bool-cases, inl, inr,
}
use mathlib.Core.Path.{subst}
use modern_level_db.Base.Error.{ok}
use modern_level_db.Table.Block.{restart_point}
use modern_level_db.Table.Block.Items.{Item, all_bytes, entries, AreItems}
use modern_level_db.Table.Block.Shape.{Holds, size-split}
use modern_level_db.Table.Block.Restarts.{first_restart}
use modern_level_db.Table.Block.Iterator.{Context, Iterator, invalidate, seek_to_restart_point}
use modern_level_db.Table.Block.Iterator.Standing.{bounded_restart-Holds}
use modern_level_db.Table.Block.Iterator.Stepping.{
  AreAccepted, IsClean, current_status-whole, restarted-Pending,
}
use modern_level_db.Table.Block.Iterator.Restarting.{restart-Split}
use modern_level_db.Table.Block.Prev.{
  check_restart, find_previous_restart_from, scan_to_previous_entry, prev_uncached,
}
use modern_level_db.Table.Block.Prev.Offsets.{longer_front_bytes}
use modern_level_db.Table.Block.Prev.Cached.{StandsAt}
use modern_level_db.Table.Block.Prev.Replayed.{scan_to_previous_entry-IsAt}
use modern_level_db.Table.Block.Prev.Places.{PendingAt, IsAt}

module _ (context : Context) (items : List Item) (holds : Holds context.layout items)
    (accepted : AreAccepted context (entries [] items)) where
  check_restart-none :
      (index original : ℕ) (iterator : Iterator)
      → index < context.layout.restart_count
      → ltb (restart_point context.layout index) original ≡ false
      → check_restart context index original iterator ≡ none
  unfolding check_restart
  check_restart-none index original iterator bound later =
      rw (bounded_restart-Holds context items holds index bound, later) refl

  check_restart-some :
      (index original : ℕ) (iterator : Iterator)
      → index < context.layout.restart_count
      → ltb (restart_point context.layout index) original ≡ true
      → check_restart context index original iterator
        ≡ some (true, record iterator { restart_index = index })
  unfolding check_restart
  check_restart-some index original iterator bound earlier =
      rw (bounded_restart-Holds context items holds index bound, earlier) refl

  find_previous_restart_from-found :
      (index original : ℕ) (iterator : Iterator)
      → index < context.layout.restart_count
      → 0 < original
      → (j : ℕ) × (j < context.layout.restart_count)
        × (restart_point context.layout j < original)
        × (find_previous_restart_from context index original iterator
            ≡ (true, record iterator { restart_index = j }))
  unfolding find_previous_restart_from
  find_previous_restart_from-found zero original iterator bound positive =
      let (_, point) = first_restart context.layout items holds in
      let earlier : ltb (restart_point context.layout 0) original ≡ true =
        ground (arith, point, positive) in
      (
        0,
        bound,
        omega (arith, point),
        rw (find_previous_restart_from, check_restart-some 0 original iterator bound earlier) refl,
      )
  find_previous_restart_from-found (suc index) original iterator bound positive =
      elim (Bool-cases (ltb (restart_point context.layout (suc index)) original)) [
        | inl earlier ↦ (
          suc index,
          bound,
          ground (arith, earlier),
          rw
              (
                find_previous_restart_from,
                check_restart-some (suc index) original iterator bound earlier,
              )
              refl,
        )
        | inr later ↦
            let (j, p, q, e) =
              find_previous_restart_from-found index original iterator (omega arith) positive in
            (
              j,
              p,
              q,
              rw
                  (
                    find_previous_restart_from,
                    check_restart-none (suc index) original iterator bound later,
                  )
                  e,
            )
      ]

  pub find_previous_restart_from-first :
      (index : ℕ) (iterator : Iterator)
      → index < context.layout.restart_count
      → (j : ℕ) × (find_previous_restart_from context index 0 iterator
          ≡ (false, invalidate context (record iterator { restart_index = j })))
  unfolding find_previous_restart_from
  find_previous_restart_from-first zero iterator bound = (
    0,
    rw (find_previous_restart_from, check_restart-none 0 0 iterator bound (ground arith)) refl,
  )
  find_previous_restart_from-first (suc index) iterator bound =
      let (j, e) = find_previous_restart_from-first index iterator (omega arith) in
      (
        j,
        rw
            (
              find_previous_restart_from,
              check_restart-none (suc index) 0 iterator bound (ground arith),
            )
            e,
      )

  -- A restart before an offset leaves the items behind it to be read.
  sought-PendingAt :
      (index : ℕ) (iterator : Iterator)
      → index < context.layout.restart_count
      → IsClean iterator
      → (before : List Item) × (iterator' : Iterator) × (seek_to_restart_point context index
            iterator
          ≡ (true, iterator'))
        × PendingAt context items (length before) iterator'
        × (restart_point context.layout index ≡ length (all_bytes before))
        × (back : List Item) × (items ≡ before ++ back)
  sought-PendingAt index iterator bound clean = elim (Bool-cases (index == 0)) [
    | inl only ↦
        let (_, point) = first_restart context.layout items holds in
        let zeroth : index ≡ 0 = ground (arith, only) in
        let at_start : restart_point context.layout index ≡ 0 =
          ap (restart_point context.layout) zeroth ∙ point in
        let (at_restart, e, pending) =
          restarted-Pending context items holds accepted [] items index iterator refl bound at_start
            holds.begins clean in
        (
          [],
          at_restart,
          e,
          record { before = []; after = items; index_lem = refl; pending = pending },
          at_start,
          items,
          refl,
        )
    | inr later ↦
        let s = restart-Split context items holds accepted index (ground (arith, later)) bound in
        let point : restart_point context.layout index ≡ length (all_bytes s.before) =
          omega (arith, s.point_lem) in
        let (at_restart, e, pending) =
          restarted-Pending context items holds accepted s.before (s.item ∷ s.after) index iterator
            s.split bound point s.first clean in
        (
          s.before,
          at_restart,
          e,
          record {
            before = s.before;
            after = s.item ∷ s.after;
            index_lem = refl;
            pending = pending;
          },
          point,
          s.item ∷ s.after,
          s.split,
        )
  ]

  prev_uncached-steps :
      (iterator at_index at_restart last : Iterator)
      → find_previous_restart_from context iterator.restart_index iterator.current
          (record iterator { reverse_cache_active = false })
        ≡ (true, at_index)
      → seek_to_restart_point context at_index.restart_index at_index ≡ (true, at_restart)
      → scan_to_previous_entry context iterator.current at_restart ≡ some last
      → last.corrupted ≡ false
      → prev_uncached context iterator ≡ some (ok tt, last)
  unfolding prev_uncached
  prev_uncached-steps iterator at_index at_restart last found sought scanned whole =
      rw (prev_uncached, found, sought, scanned, current_status-whole last whole) refl

  pub prev_uncached-first :
      (iterator at_index : Iterator)
      → find_previous_restart_from context iterator.restart_index iterator.current
          (record iterator { reverse_cache_active = false })
        ≡ (false, at_index)
      → at_index.corrupted ≡ false
      → prev_uncached context iterator ≡ some (ok tt, at_index)
  unfolding prev_uncached
  prev_uncached-first iterator at_index found whole =
      rw (prev_uncached, found, current_status-whole at_index whole) refl

  -- By a scan.
  pub prev_uncached-IsAt :
      (index : ℕ) (iterator : Iterator)
      → StandsAt context items (suc index) (record iterator { reverse_cache_active = false })
      → (iterator' : Iterator) × (prev_uncached context iterator ≡ some (ok tt, iterator'))
        × IsAt context items index iterator'
  prev_uncached-IsAt index iterator s =
      let standing = s.standing in
      let clean = record iterator { reverse_cache_active = false } in
      let all = subst (λ l. AreItems [] l) standing.split holds.items_lem in
      let positive : 0 < iterator.current = omega (
        arith,
        standing.current_lem,
        s.index_lem,
        longer_front_bytes [] s.before (s.item ∷ s.after) [] (s.before ++ (s.item ∷ s.after)) all
            refl (omega arith),
      ) in
      let (j, bound, before_here, found) =
        find_previous_restart_from-found iterator.restart_index iterator.current clean
          standing.index_lt positive in
      let (base, at_restart, sought, pending, point, back, base_split) =
        sought-PendingAt j (record clean { restart_index = j }) bound (standing.whole, refl) in
      let all' = subst (λ l. AreItems [] l) base_split holds.items_lem in
      let behind : length base ≤ index = elim (Bool-cases (leb (length base) index)) [
        | inl h ↦ ground (arith, h)
        | inr h ↦ absurd (
            let far : suc index ≤ length base = ground (arith, h) in
            omega (
              arith,
              s.index_lem,
              standing.current_lem,
              point,
              longer_front_bytes [] base back s.before (s.item ∷ s.after) all'
                  (sym base_split ∙ standing.split) (omega (arith, s.index_lem)),
            ))
      ] in
      let size =
        size-split context.layout s.before (s.item ∷ s.after)
          (subst (λ l. Holds context.layout l) standing.split holds) in
      let fits : index < suc context.layout.entries_end = omega (
        arith,
        s.index_lem,
        longer_front_bytes [] s.before (s.item ∷ s.after) [] (s.before ++ (s.item ∷ s.after)) all
            refl (omega arith),
      ) in
      let (last, scanned, at) =
        scan_to_previous_entry-IsAt context items holds accepted s.before (s.item ∷ s.after) index
          standing.split s.index_lem (length base) at_restart pending behind fits in
      (
        last,
        prev_uncached-steps iterator _ at_restart last found sought
            (ap (λ (k : ℕ). scan_to_previous_entry context k at_restart) standing.current_lem
              ∙ scanned)
            at.place.standing.whole,
        at,
      )
