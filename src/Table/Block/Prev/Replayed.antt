-- ===== src/Table/Block/Prev/Replayed.antt =====
-- src/table/block.cc: the scans of `Prev`, from the restart before an entry to the one before it.
use modern_level_db.Prelude.{
  ℕ, zero, suc, ◌+◌, ◌-◌, ◌≤◌, ◌<◌, ◌≡◌, refl, sym, ap, ◌∙◌, List, [], ◌∷◌, ◌++◌, none, some, true,
  false, leb, ltb, ◌==◌, max, length, arith, length-append, append_assoc, Bool-cases, inl, inr,
}
use mathlib.Core.Path.{subst}
use modern_level_db.Table.Block.Items.{Item, all_bytes, entries, AreItems}
use modern_level_db.Table.Block.Shape.{Holds}
use modern_level_db.Table.Block.Iterator.{Context, ReverseCache, Iterator, parse_next_entry}
use modern_level_db.Table.Block.Iterator.Stepping.{AreAccepted}
use modern_level_db.Table.Block.Prev.{
  minimum_reverse_cache_payload_budget, empty_cache, appended, append, restore, select_last,
  scan_up_to, replay, scan_to_previous_entry,
}
use modern_level_db.Table.Block.Prev.Offsets.{longer_front_bytes}
use modern_level_db.Table.Block.Prev.Cached.{
  StandsAt, Snapshots, append-cases, append-Snapshots, restore-StandsAt,
}
use modern_level_db.Table.Block.Prev.Places.{
  PendingAt, IsAt, stands-PendingAt, parse_next_entry-PendingAt, recached, plain-IsAt,
}

module _ (context : Context) (items : List Item) (holds : Holds context.layout items)
    (accepted : AreAccepted context (entries [] items)) where
  -- Up to the item before which the items `front` stand.
  module _ (front back : List Item) (last : ℕ) (split : items ≡ front ++ back)
      (front_lem : length front ≡ suc last) where
    abbrev original : ℕ
    original = length (all_bytes front)

    reaches :
        (index : ℕ) (iterator : Iterator)
        → StandsAt context items index iterator
        → index ≤ last
        → leb original iterator.next ≡ (index == last)
    reaches index iterator s bound =
        let standing = s.standing in
        let here = s.before ++ (s.item ∷ []) in
        let same : items ≡ here ++ s.after =
          standing.split ∙ sym (append_assoc s.before (s.item ∷ []) s.after) in
        let size = length-append s.before (s.item ∷ []) in
        let all = subst (λ l. AreItems [] l) split holds.items_lem in
        let more =
          longer_front_bytes [] front back here s.after all (sym split ∙ same)
            (omega (arith, s.index_lem)) in
        let all' = subst (λ l. AreItems [] l) same holds.items_lem in
        elim (Bool-cases (index == last)) [
          | inl here_now ↦
              let e : index ≡ last = ground (arith, here_now) in
              let less =
                longer_front_bytes [] here s.after front back all' (sym same ∙ split)
                  (omega (arith, s.index_lem)) in
              ground (arith, standing.next_lem, less, here_now)
          | inr earlier ↦
              let e : index < last = ground (arith, earlier) in
              let strictly : length (all_bytes here) < original = omega (arith, s.index_lem) in
              ground (arith, standing.next_lem, strictly, earlier)
        ]

    last_lt : last < length items
    last_lt = omega (arith, ap length split, length-append front back)

    scan_up_to-StandsAt :
        (fuel index : ℕ) (iterator : Iterator)
        → StandsAt context items index iterator
        → index ≤ last
        → last - index < fuel
        → (iterator' : Iterator) × (scan_up_to context fuel original iterator ≡ some iterator')
          × StandsAt context items last iterator'
    unfolding scan_up_to
    scan_up_to-StandsAt zero index iterator s bound enough = absurd (omega arith)
    scan_up_to-StandsAt (suc fuel) index iterator s bound enough =
        let at = reaches index iterator s bound in
        elim (Bool-cases (index == last)) [
          | inl here_now ↦
              let e : index ≡ last = ground (arith, here_now) in
              let stop : ltb iterator.next original ≡ false = ground (arith, at, here_now) in
              (iterator, rw stop refl, subst (λ (k : ℕ). StandsAt context items k iterator) e s)
          | inr earlier ↦
              let e : index < last = ground (arith, earlier) in
              let go_on : ltb iterator.next original ≡ true = ground (arith, at, earlier) in
              let (iterator', parsed, s') =
                parse_next_entry-PendingAt context items holds accepted (suc index) iterator
                  (stands-PendingAt context items holds accepted index iterator s)
                  (omega (arith, last_lt)) in
              let (final, scanned, arrived) =
                scan_up_to-StandsAt fuel (suc index) iterator' s' (omega arith) (omega arith) in
              (final, rw (go_on, parsed) scanned, arrived)
        ]

    -- The cache is selected at its last entry.
    selected :
        (start : ℕ) (cache : ReverseCache) (iterator : Iterator)
        → Snapshots context items start cache.keys cache.entries
        → iterator.corrupted ≡ false
        → start + length cache.entries ≡ suc last
        → start ≤ last
        → IsAt context items last (select_last cache iterator)
    unfolding select_last
    selected start cache iterator snaps whole count bound =
        let cache' = record cache { position = length cache.entries - 1 } in
        let position_lt : cache'.position < length cache'.entries = omega arith in
        let (s, _, _) =
          restore-StandsAt context items start cache' iterator (some cache') snaps position_lt
            whole in
        let e : start + cache'.position ≡ last = omega arith in
        record {
          place =
              subst
                (λ (k : ℕ). StandsAt context items k (record (restore cache' iterator) {
                  reverse_cache = some cache';
                  reverse_cache_active = false;
                }))
                e s;
          cached = λ _. record {
            cache = cache';
            start = start;
            cache_lem = refl;
            snapshots = snaps;
            position_lt = position_lt;
            index_lem = e;
          };
        }

    module _ (fuel budget : ℕ) (cache : ReverseCache) (iterator : Iterator) where
      replay-spent :
          append cache iterator budget ≡ none
          → replay context (suc fuel) original budget cache iterator
            ≡ scan_up_to context
                (suc context.layout.entries_end)
                original
                (record iterator { reverse_cache = some empty_cache })
      unfolding replay
      replay-spent spent = rw (replay, spent) refl

      module _ (cache' : ReverseCache) (room : append cache iterator budget ≡ some cache') where
        replay-last :
            leb original iterator.next ≡ true
            → replay context (suc fuel) original budget cache iterator
              ≡ some (select_last cache' iterator)
        unfolding replay
        replay-last at = rw (replay, room, at) refl

        replay-more :
            (iterator' : Iterator)
            → leb original iterator.next ≡ false
            → parse_next_entry context iterator ≡ (true, iterator')
            → replay context (suc fuel) original budget cache iterator
              ≡ replay context fuel original budget cache' iterator'
        unfolding replay
        replay-more iterator' at parsed = rw (replay, room, at, parsed) refl

    replay-IsAt :
        (fuel index start budget : ℕ) (cache : ReverseCache) (iterator : Iterator)
        → StandsAt context items index iterator
        → index ≤ last
        → last - index < fuel
        → last < suc context.layout.entries_end
        → Snapshots context items start cache.keys cache.entries
        → start + length cache.entries ≡ index
        → (iterator' : Iterator) × (replay context fuel original budget cache iterator
            ≡ some iterator')
          × IsAt context items last iterator'
    replay-IsAt zero index start budget cache iterator s bound enough fits snaps count =
        absurd (omega arith)
    replay-IsAt (suc fuel) index start budget cache iterator s bound enough fits snaps count =
        elim (append-cases context items cache iterator budget) [
          | inl spent ↦
              let (final, scanned, arrived) =
                scan_up_to-StandsAt (suc context.layout.entries_end) index _
                  (recached context items holds accepted index iterator (some empty_cache) s) bound
                  (omega arith) in
              (
                final,
                replay-spent fuel budget cache iterator spent ∙ scanned,
                plain-IsAt context items holds accepted last final arrived,
              )
          | inr room ↦
              let cache' = appended cache iterator in
              let snaps' =
                append-Snapshots context items start index cache iterator s snaps count in
              let count' : start + length cache'.entries ≡ suc index =
                omega (arith, length-append cache.entries (_ ∷ [])) in
              let at = reaches index iterator s bound in
              elim (Bool-cases (index == last)) [
                | inl here_now ↦
                    let e : index ≡ last = ground (arith, here_now) in
                    (
                      select_last cache' iterator,
                      replay-last fuel budget cache iterator cache' room (at ∙ here_now),
                      selected start cache' iterator snaps' s.standing.whole (omega arith)
                          (omega arith),
                    )
                | inr earlier ↦
                    let e : index < last = ground (arith, earlier) in
                    let (iterator', parsed, s') =
                      parse_next_entry-PendingAt context items holds accepted (suc index) iterator
                        (stands-PendingAt context items holds accepted index iterator s)
                        (omega (arith, last_lt)) in
                    let (final, replayed, arrived) =
                      replay-IsAt fuel (suc index) start budget cache' iterator' s' (omega arith)
                        (omega arith) fits snaps' count' in
                    (
                      final,
                      replay-more fuel budget cache iterator cache' room iterator' (at ∙ earlier)
                            parsed
                          ∙ replayed,
                      arrived,
                    )
              ]
        ]

    pub scan_to_previous_entry-IsAt :
        (index : ℕ) (iterator : Iterator)
        → PendingAt context items index iterator
        → index ≤ last
        → last < suc context.layout.entries_end
        → (iterator' : Iterator) × (scan_to_previous_entry context original iterator
            ≡ some iterator')
          × IsAt context items last iterator'
    unfolding scan_to_previous_entry
    scan_to_previous_entry-IsAt index iterator p bound fits =
        let (iterator', parsed, s) =
          parse_next_entry-PendingAt context items holds accepted index iterator p
            (omega (arith, last_lt)) in
        let at = reaches index iterator' s bound in
        elim (Bool-cases (index == last)) [
          | inl here_now ↦
              let e : index ≡ last = ground (arith, here_now) in
              (
                iterator',
                rw (parsed, at, here_now) refl,
                plain-IsAt context items holds accepted last iterator'
                    (subst (λ (k : ℕ). StandsAt context items k iterator') e s),
              )
          | inr earlier ↦
              let budget = max minimum_reverse_cache_payload_budget context.layout.entries_end in
              let (final, replayed, arrived) =
                replay-IsAt (suc context.layout.entries_end) index index budget empty_cache
                  iterator' s bound (omega arith) fits tt (omega arith) in
              (final, rw (parsed, at, earlier) replayed, arrived)
        ]
