-- ===== src/Base/Comparator.antt =====
-- include/modern_leveldb/base/comparator.h and src/base/comparator.cc: the comparator interface and
-- the bytewise comparator. The sign of the `int` that `Compare` returns is an `Ordering`.
pub mod Laws
pub mod Bytewise
pub mod Shorten
use Prim.Native.Nat.{Ordering, compare}
use modern_level_db.Prelude.{
  ℕ, suc, ◌+◌, ◌<◌, ◌≤◌, List, [], ◌∷◌, ◌++◌, String, Option, none, some, ltb, leb, ◌==◌, ◌&&◌,
  if◌then◌else◌, length, min, get_or, take, set, not, arith,
}
use modern_level_db.Base.Bytes.{shared_prefix_length}

-- `FindShortestSeparator` and `FindShortSuccessor` change their first argument: here they return it.
pub record Comparator : Type 0 where
  pub compare : List ℕ → List ℕ → Ordering
  pub name : String
  pub find_shortest_separator : List ℕ → List ℕ → List ℕ
  pub find_short_successor : List ℕ → List ℕ

-- `memcmp` over the bytes that both have.
unfoldable pub compare_common_prefix : List ℕ → List ℕ → Ordering
compare_common_prefix (x ∷ left) (y ∷ right) =
    let rest = compare_common_prefix left right in
    elim (Prim.Native.Nat.compare x y) [
      | Ordering.eq ↦ rest
      | Ordering.lt ↦ Ordering.lt
      | Ordering.gt ↦ Ordering.gt
    ]
compare_common_prefix left right = Ordering.eq

unfoldable pub compare_key_lengths : ℕ → ℕ → Ordering
compare_key_lengths left right =
    if ltb left right then Ordering.lt else if ltb right left then Ordering.gt else Ordering.eq

unfoldable pub bytewise_compare : List ℕ → List ℕ → Ordering
unfolding compare_common_prefix compare_key_lengths
bytewise_compare left right = elim (compare_common_prefix left right) [
  | Ordering.eq ↦ compare_key_lengths (length left) (length right)
  | order ↦ order
]

unfoldable pub separator_successor : ℕ → ℕ → Option ℕ
separator_successor start limit =
    if ltb start 0xff && ltb (start + 1) limit then some (start + 1) else none

-- The index and the value of the byte to write.
unfoldable pub find_byte_successor : List ℕ → Option (ℕ × ℕ)
find_byte_successor [] = none
find_byte_successor (value ∷ key) =
    let later = find_byte_successor key in
    if not (value == 0xff)
    then some (0, value + 1)
    else elim later [ none ↦ none | some (index, byte) ↦ some (suc index, byte) ]

-- `key[index] = successor; key.resize(index + 1)`
unfoldable pub commit_short_key : List ℕ → ℕ → ℕ → List ℕ
commit_short_key key index successor = take (index + 1) (set key index successor)

unfoldable pub bytewise_find_shortest_separator : List ℕ → List ℕ → List ℕ
unfolding separator_successor commit_short_key shared_prefix_length
bytewise_find_shortest_separator start limit =
    let minimum_size = min (length start) (length limit) in
    let difference = shared_prefix_length start limit in
    if leb minimum_size difference
    then start
    else elim (separator_successor (get_or start difference 0) (get_or limit difference 0)) [
      | none ↦ start
      | some successor ↦ commit_short_key start difference successor
    ]

unfoldable pub bytewise_find_short_successor : List ℕ → List ℕ
unfolding find_byte_successor commit_short_key
bytewise_find_short_successor key = elim (find_byte_successor key) [
  | none ↦ key
  | some (index, byte) ↦ commit_short_key key index byte
]

abbrev pub bytewise_comparator : Comparator
bytewise_comparator = record {
  compare = bytewise_compare;
  name = "leveldb.BytewiseComparator";
  find_shortest_separator = bytewise_find_shortest_separator;
  find_short_successor = bytewise_find_short_successor;
}
