-- ===== src/Table/Block/Prev/Places.antt =====
-- src/table/block.cc: where an iterator is, by how many items stand before it, and its reverse cache.
use modern_level_db.Prelude.{
  ℕ, suc, ◌+◌, ◌<◌, ◌≡◌, sym, ap, ◌∙◌, List, [], ◌∷◌, ◌++◌, Option, some, true, false, length,
  arith, length-append,
}
use mathlib.Core.Path.{subst}
use modern_level_db.Table.Block.Items.{Item, entries}
use modern_level_db.Table.Block.Shape.{Holds}
use modern_level_db.Table.Block.Iterator.{Context, ReverseCache, Iterator, parse_next_entry}
use modern_level_db.Table.Block.Iterator.Standing.{Pending}
use modern_level_db.Table.Block.Iterator.Stepping.{
  AreAccepted, parse_next_entry-Pending, Standing-Pending,
}
use modern_level_db.Table.Block.Prev.Cached.{StandsAt, Snapshots}

-- The iterator is about to read the item that has so many before it.
pub record PendingAt (context : Context) (items : List Item) (index : ℕ) (iterator : Iterator)
    : Type 0 where
  pub before : List Item
  pub after : List Item
  pub index_lem : length before ≡ index
  pub pending : Pending context items before after iterator

-- The cache of an iterator holds the items up to the one that it stands at, from some item on.
pub record IsCached (context : Context) (items : List Item) (index : ℕ) (iterator : Iterator)
    : Type 0 where
  pub cache : ReverseCache
  pub start : ℕ
  pub cache_lem : iterator.reverse_cache ≡ some cache
  pub snapshots : Snapshots context items start cache.keys cache.entries
  pub position_lt : cache.position < length cache.entries
  pub index_lem : start + cache.position ≡ index

-- The iterator stands at an item, and its cache is right where it is in use.
pub record IsAt (context : Context) (items : List Item) (index : ℕ) (iterator : Iterator)
    : Type 0 where
  pub place : StandsAt context items index (record iterator { reverse_cache_active = false })
  pub cached : iterator.reverse_cache_active ≡ true → IsCached context items index iterator

module _ (context : Context) (items : List Item) (holds : Holds context.layout items)
    (accepted : AreAccepted context (entries [] items)) where
  pub stands-PendingAt :
      (index : ℕ) (iterator : Iterator)
      → StandsAt context items index iterator
      → PendingAt context items (suc index) iterator
  stands-PendingAt index iterator s = record {
    before = s.before ++ (s.item ∷ []);
    after = s.after;
    index_lem = omega (arith, length-append s.before (s.item ∷ []), s.index_lem);
    pending =
        Standing-Pending context items holds accepted s.before s.item s.after iterator s.standing;
  }

  pub parse_next_entry-PendingAt :
      (index : ℕ) (iterator : Iterator)
      → PendingAt context items index iterator
      → index < length items
      → (iterator' : Iterator) × (parse_next_entry context iterator ≡ (true, iterator'))
        × StandsAt context items index iterator'
  parse_next_entry-PendingAt index iterator p bound = go p.after p.pending
    where
      go :
          (after : List Item)
          → Pending context items p.before after iterator
          → (iterator' : Iterator) × (parse_next_entry context iterator ≡ (true, iterator'))
            × StandsAt context items index iterator'
      go [] pending =
          absurd (omega (arith, ap length pending.split, length-append p.before [], p.index_lem))
      go (item ∷ after) pending =
          let (iterator', e, standing) =
            parse_next_entry-Pending context items holds accepted p.before (item ∷ after) iterator
              pending in
          (
            iterator',
            e,
            record {
              before = p.before;
              item = item;
              after = after;
              index_lem = p.index_lem;
              standing = standing;
            },
          )

  -- What happens to the cache is nothing to the place.
  pub recached :
      (index : ℕ) (iterator : Iterator) (cache : Option ReverseCache)
      → StandsAt context items index iterator
      → StandsAt context items index (record iterator { reverse_cache = cache })
  recached index iterator cache s = record {
    before = s.before;
    item = s.item;
    after = s.after;
    index_lem = s.index_lem;
    standing = record {
      split = s.standing.split;
      current_lem = s.standing.current_lem;
      next_lem = s.standing.next_lem;
      index_lt = s.standing.index_lt;
      whole = s.standing.whole;
      inactive = s.standing.inactive;
      key_lem = s.standing.key_lem;
      value_lem = s.standing.value_lem;
    };
  }

  -- An entry that is not cached.
  pub plain-IsAt :
      (index : ℕ) (iterator : Iterator)
      → StandsAt context items index iterator
      → IsAt context items index iterator
  plain-IsAt index iterator s = record {
    place =
        subst (λ b. StandsAt context items index (record iterator { reverse_cache_active = b }))
          s.standing.inactive s;
    cached = λ active. absurd (let e = sym active ∙ s.standing.inactive in cc);
  }
