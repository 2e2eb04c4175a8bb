-- ===== src/Base/Comparator/Laws.antt =====
-- include/modern_leveldb/base/comparator.h: what the interface promises. The engine's clients of a
-- comparator take these laws, and the bytewise comparator is proved to have them.
use Prim.Native.Nat.{Ordering}
use modern_level_db.Prelude.{ℕ, List, ◌≡◌, ◌≢◌}
use modern_level_db.Base.Comparator.{Comparator}

abbrev pub reverse : Ordering → Ordering
reverse Ordering.lt = Ordering.gt
reverse Ordering.eq = Ordering.eq
reverse Ordering.gt = Ordering.lt

-- "A deterministic total ordering of logical keys", a separator "in [original start, limit)", and a
-- successor that is "not less than the original key".
pub record IsComparator (c : Comparator) : Type 0 where
  pub compare_self : (a : List ℕ) → c.compare a a ≡ Ordering.eq
  pub compare_flip : (a b : List ℕ) → c.compare b a ≡ reverse (c.compare a b)
  pub compare_trans :
      (a b d : List ℕ)
      → c.compare a b ≢ Ordering.gt
      → c.compare b d ≢ Ordering.gt
      → c.compare a d ≢ Ordering.gt
  pub separator :
      (start limit : List ℕ)
      → c.compare start limit ≡ Ordering.lt
      → (c.compare start (c.find_shortest_separator start limit) ≢ Ordering.gt)
        × (c.compare (c.find_shortest_separator start limit) limit ≡ Ordering.lt)
  pub successor : (key : List ℕ) → c.compare key (c.find_short_successor key) ≢ Ordering.gt
