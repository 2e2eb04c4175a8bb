-- ===== src/Base/Comparator/Bytewise.antt =====
-- src/base/comparator.cc: `Compare` of the bytewise comparator is the lexicographic order.
use Prim.Native.Nat.{Ordering, compare}
use modern_level_db.Prelude.{ℕ, List, [], ◌∷◌, ◌≡◌, ◌≢◌, refl, arith}
use modern_level_db.Base.Comparator.{bytewise_compare}
use modern_level_db.Base.Comparator.Laws.{reverse}

abbrev first_of_two : Ordering → Ordering → Ordering
first_of_two Ordering.lt rest = Ordering.lt
first_of_two Ordering.eq rest = rest
first_of_two Ordering.gt rest = Ordering.gt

-- The first difference decides; a proper prefix comes first.
unfoldable pub lexicographic : List ℕ → List ℕ → Ordering
lexicographic [] [] = Ordering.eq
lexicographic [] (y ∷ right) = Ordering.lt
lexicographic (x ∷ left) [] = Ordering.gt
lexicographic (x ∷ left) (y ∷ right) =
    let rest = lexicographic left right in first_of_two (compare x y) rest

-- Comparing the common part and then the lengths is the lexicographic order of the bytes.
pub bytewise_compare-lexicographic :
    (left right : List ℕ) → bytewise_compare left right ≡ lexicographic left right
unfolding bytewise_compare lexicographic
bytewise_compare-lexicographic [] [] = ground arith
bytewise_compare-lexicographic [] (y ∷ right) = ground arith
bytewise_compare-lexicographic (x ∷ left) [] = ground arith
bytewise_compare-lexicographic (x ∷ left) (y ∷ right) =
    ground (arith, bytewise_compare-lexicographic left right)

pub lexicographic_self : (a : List ℕ) → lexicographic a a ≡ Ordering.eq
unfolding lexicographic
lexicographic_self [] = refl
lexicographic_self (x ∷ a) = ground (arith, lexicographic_self a)

pub lexicographic_flip : (a b : List ℕ) → lexicographic b a ≡ reverse (lexicographic a b)
unfolding lexicographic
lexicographic_flip [] [] = refl
lexicographic_flip [] (y ∷ b) = refl
lexicographic_flip (x ∷ a) [] = refl
lexicographic_flip (x ∷ a) (y ∷ b) = ground (arith, lexicographic_flip a b)

pub lexicographic_trans :
    (a b d : List ℕ)
    → lexicographic a b ≢ Ordering.gt
    → lexicographic b d ≢ Ordering.gt
    → lexicographic a d ≢ Ordering.gt
unfolding lexicographic
lexicographic_trans [] b [] h k = λ e. cc
lexicographic_trans [] b (z ∷ d) h k = λ e. cc
lexicographic_trans (x ∷ a) [] d h k = absurd (h refl)
lexicographic_trans (x ∷ a) (y ∷ b) [] h k = absurd (k refl)
lexicographic_trans (x ∷ a) (y ∷ b) (z ∷ d) h k = ground (arith, lexicographic_trans a b d)

-- Keys that compare equal are the same bytes.
pub lexicographic-eq : (a b : List ℕ) → lexicographic a b ≡ Ordering.eq → a ≡ b
unfolding lexicographic
lexicographic-eq [] [] h = refl
lexicographic-eq [] (y ∷ b) h = cc
lexicographic-eq (x ∷ a) [] h = cc
lexicographic-eq (x ∷ a) (y ∷ b) h = ground (arith, lexicographic-eq a b)
