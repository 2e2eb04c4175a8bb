-- ===== src/Format/KeyComparator/Laws.antt =====
-- src/format/internal_key.h: what `InternalKeyComparator` promises of the keys that have a trailer.
-- Shorter byte strings "are errors, not sortable keys".
use Prim.Native.Nat.{Ordering}
use modern_level_db.Prelude.{ℕ, ◌≤◌, ◌≡◌, ◌≢◌, List, some, length}
use modern_level_db.Base.Comparator.Laws.{reverse}
use modern_level_db.Format.InternalKey.{internal_key_trailer_size}
use modern_level_db.Format.KeyComparator.{InternalKeyComparator}

-- The sortable keys: those with a user key before a trailer.
abbrev pub HasTrailer : List ℕ → Type 0
HasTrailer key = internal_key_trailer_size ≤ length key

-- `a` does not come after `b`.
abbrev pub NotAbove : InternalKeyComparator → List ℕ → List ℕ → Type 0
NotAbove k a b = (order : Ordering) × (k.compare a b ≡ some order) × (order ≢ Ordering.gt)

-- What the interface of a comparator promises, of a class that is defined on the keys that have a
-- trailer: the comparison of two of them is defined and a total preorder, and separators and
-- successors are keys of this kind, in their range.
pub record IsComparatorOnKeys (k : InternalKeyComparator) : Type 0 where
  pub compare_defined :
      (a b : List ℕ)
      → HasTrailer a
      → HasTrailer b
      → (order : Ordering) × (k.compare a b ≡ some order) × (k.compare b a ≡ some (reverse order))
  pub compare_self : (a : List ℕ) → HasTrailer a → k.compare a a ≡ some Ordering.eq
  pub compare_trans :
      (a b d : List ℕ)
      → HasTrailer a
      → HasTrailer b
      → HasTrailer d
      → NotAbove k a b
      → NotAbove k b d
      → NotAbove k a d
  pub separator :
      (start limit : List ℕ)
      → HasTrailer start
      → HasTrailer limit
      → k.compare start limit ≡ some Ordering.lt
      → (key : List ℕ) × (k.find_shortest_separator start limit ≡ some key)
        × HasTrailer key
        × NotAbove k start key
        × (k.compare key limit ≡ some Ordering.lt)
  pub successor :
      (key : List ℕ)
      → HasTrailer key
      → HasTrailer (k.find_short_successor key) × NotAbove k key (k.find_short_successor key)
