-- ===== src/Base/Comparator/Shorten.antt =====
-- src/base/comparator.cc: the separators and successors of the bytewise comparator.
use Prim.Native.Nat.{Ordering}
use modern_level_db.Prelude.{
  ℕ, ◌<◌, ◌⊎◌, inl, inr, Bool-cases, ◌==◌, List, [], ◌∷◌, ◌≡◌, ◌≢◌, arith,
}
use modern_level_db.Base.Comparator.{
  bytewise_find_shortest_separator, bytewise_find_short_successor, bytewise_comparator,
}
use modern_level_db.Base.Comparator.Laws.{IsComparator}
use modern_level_db.Base.Comparator.Bytewise.{
  lexicographic, bytewise_compare-lexicographic, lexicographic_self, lexicographic_flip,
  lexicographic_trans,
}

-- Where two keys start with the same byte, so does the separator.
separator_step :
    (x : ℕ) (start limit : List ℕ)
    → bytewise_find_shortest_separator (x ∷ start) (x ∷ limit)
      ≡ x ∷ bytewise_find_shortest_separator start limit
unfolding bytewise_find_shortest_separator
separator_step x start limit = ground arith

separator_first :
    (x y : ℕ) (start limit : List ℕ)
    → x < y
    → (lexicographic (x ∷ start) (bytewise_find_shortest_separator (x ∷ start) (y ∷ limit))
        ≢ Ordering.gt)
      × (lexicographic (bytewise_find_shortest_separator (x ∷ start) (y ∷ limit)) (y ∷ limit)
          ≡ Ordering.lt)
unfolding bytewise_find_shortest_separator lexicographic
separator_first x y start limit h = (ground (arith, lexicographic_self start), ground arith)

separator_same :
    (x : ℕ) (start limit : List ℕ)
    → (lexicographic start (bytewise_find_shortest_separator start limit) ≢ Ordering.gt)
    → (lexicographic (bytewise_find_shortest_separator start limit) limit ≡ Ordering.lt)
    → (lexicographic (x ∷ start) (bytewise_find_shortest_separator (x ∷ start) (x ∷ limit))
        ≢ Ordering.gt)
      × (lexicographic (bytewise_find_shortest_separator (x ∷ start) (x ∷ limit)) (x ∷ limit)
          ≡ Ordering.lt)
unfolding lexicographic
separator_same x start limit h k = rw separator_step (ground arith, ground arith)

compare_cases : (x y : ℕ) → (x < y) ⊎ (y ≡ x) ⊎ (y < x)
compare_cases x y = omega arith

-- The separator of two keys in order lies between them.
lexicographic-separator :
    (start limit : List ℕ)
    → lexicographic start limit ≡ Ordering.lt
    → (lexicographic start (bytewise_find_shortest_separator start limit) ≢ Ordering.gt)
      × (lexicographic (bytewise_find_shortest_separator start limit) limit ≡ Ordering.lt)
lexicographic-separator [] [] h = unfold lexicographic in cc
lexicographic-separator [] (y ∷ limit) h =
    unfold lexicographic bytewise_find_shortest_separator in (ground arith, ground arith)
lexicographic-separator (x ∷ start) [] h = unfold lexicographic in cc
lexicographic-separator (x ∷ start) (y ∷ limit) h = elim (compare_cases x y) [
  | inl below ↦ separator_first x y start limit below
  | inr (inl same) ↦
      let less : lexicographic start limit ≡ Ordering.lt = unfold lexicographic in ground arith in
      let (lo, hi) = lexicographic-separator start limit less in
      rw same (separator_same x start limit lo hi)
  | inr (inr above) ↦ absurd (unfold lexicographic in ground arith)
]

successor_step :
    (key : List ℕ)
    → bytewise_find_short_successor (0xff ∷ key) ≡ 0xff ∷ bytewise_find_short_successor key
unfolding bytewise_find_short_successor
successor_step key = ground arith

same_head : (x : ℕ) (a b : List ℕ) → lexicographic (x ∷ a) (x ∷ b) ≡ lexicographic a b
unfolding lexicographic
same_head x a b = ground arith

lexicographic-successor :
    (key : List ℕ) → lexicographic key (bytewise_find_short_successor key) ≢ Ordering.gt
lexicographic-successor [] = unfold lexicographic bytewise_find_short_successor in ground arith
lexicographic-successor (x ∷ key) = elim (Bool-cases (x == 0xff)) [
  | inl last ↦
      let e : x ≡ 0xff = ground arith in
      rw (e, successor_step, same_head) (lexicographic-successor key)
  | inr other ↦ unfold lexicographic bytewise_find_short_successor in ground arith
]

-- The bytewise comparator keeps the promises of the interface: a total preorder, separators in
-- their half-open range, successors not below the key.
pub bytewise_comparator-IsComparator : IsComparator bytewise_comparator
bytewise_comparator-IsComparator = record {
  compare_self = λ a. rw bytewise_compare-lexicographic (lexicographic_self a);
  compare_flip = λ a b. simp bytewise_compare-lexicographic (lexicographic_flip a b);
  compare_trans = λ a b d. simp bytewise_compare-lexicographic (lexicographic_trans a b d);
  separator = λ a b. simp bytewise_compare-lexicographic (lexicographic-separator a b);
  successor = λ a. simp bytewise_compare-lexicographic (lexicographic-successor a);
}
