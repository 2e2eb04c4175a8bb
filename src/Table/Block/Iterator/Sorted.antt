-- ===== src/Table/Block/Iterator/Sorted.antt =====
-- include/modern_leveldb/base/comparator.h: entries in the order of a comparator, and the first of them
-- whose key is not less than a target.
use Prim.Native.Nat.{Ordering}
use modern_level_db.Prelude.{
  ℕ, ◌≡◌, ◌≢◌, ◌⊎◌, inl, inr, refl, ap, ◌∙◌, List, [], ◌∷◌, ◌++◌, false, All, All-split,
}
use modern_level_db.Base.Comparator.{Comparator}
use modern_level_db.Base.Comparator.Laws.{IsComparator, reverse}
use modern_level_db.Table.Block.Items.{Entry}
use modern_level_db.Table.Block.Iterator.Seek.{is_less}

abbrev pub lower_bound : Comparator → List ℕ → List Entry → List Entry
lower_bound c target [] = []
lower_bound c target (entry ∷ rest) =
    let later = lower_bound c target rest in
    elim (c.compare entry.key target) [ Ordering.lt ↦ later | _ ↦ entry ∷ rest ]

pub less_or_not : (order : Ordering) → (order ≡ Ordering.lt) ⊎ (order ≢ Ordering.lt)
less_or_not Ordering.lt = inl refl
less_or_not Ordering.eq = inr (λ e. cc)
less_or_not Ordering.gt = inr (λ e. cc)

pub is_less-other : (order : Ordering) → order ≢ Ordering.lt → is_less order ≡ false
is_less-other Ordering.lt h = absurd (h refl)
is_less-other Ordering.eq h = refl
is_less-other Ordering.gt h = refl

abbrev pub AreBelow : Comparator → List ℕ → List Entry → Type 0
AreBelow c target = All (λ entry. c.compare entry.key target ≡ Ordering.lt)

-- Every key is less than those behind it.
abbrev pub AreSorted : Comparator → List Entry → Type 0
AreSorted c [] = Unit
AreSorted c (entry ∷ rest) =
    All (λ other. c.compare entry.key other.key ≡ Ordering.lt) rest × AreSorted c rest

module _ (c : Comparator) where
  pub lower_bound-append :
      (target : List ℕ) (xs ys : List Entry)
      → AreBelow c target xs
      → lower_bound c target (xs ++ ys) ≡ lower_bound c target ys
  lower_bound-append target [] ys h = refl
  lower_bound-append target (x ∷ xs) ys (h, hs) = rw h (lower_bound-append target xs ys hs)

  pub lower_bound-kept :
      (target : List ℕ) (entry : Entry) (rest : List Entry)
      → c.compare entry.key target ≢ Ordering.lt
      → lower_bound c target (entry ∷ rest) ≡ entry ∷ rest
  lower_bound-kept target entry rest h = go (c.compare entry.key target) refl
    where
      go :
          (order : Ordering)
          → c.compare entry.key target ≡ order
          → lower_bound c target (entry ∷ rest) ≡ entry ∷ rest
      go Ordering.lt e = absurd (h e)
      go Ordering.eq e = rw (lower_bound, e) refl
      go Ordering.gt e = rw (lower_bound, e) refl

  module _ (laws : IsComparator c) where
    compare_lt_trans :
        (a b d : List ℕ)
        → c.compare a b ≡ Ordering.lt
        → c.compare b d ≢ Ordering.gt
        → c.compare a d ≡ Ordering.lt
    compare_lt_trans a b d p q = go (c.compare a d) refl
      where
        go : (order : Ordering) → c.compare a d ≡ order → c.compare a d ≡ Ordering.lt
        go Ordering.lt e = e
        go Ordering.gt e = absurd (laws.compare_trans a b d (λ g. cc) q e)
        go Ordering.eq e =
            let back = laws.compare_flip a d ∙ ap reverse e in
            let flipped = laws.compare_flip a b ∙ ap reverse p in
            absurd (laws.compare_trans b d a q (λ g. cc) flipped)

    -- What stands before a key that is not above the target is below it.
    pub below_before :
        (target : List ℕ) (xs : List Entry) (entry : Entry) (ys : List Entry)
        → AreSorted c (xs ++ (entry ∷ ys))
        → c.compare entry.key target ≢ Ordering.gt
        → AreBelow c target xs
    below_before target [] entry ys sorted h = tt
    below_before target (x ∷ xs) entry ys (first, sorted) h = (
      compare_lt_trans x.key entry.key target
          (All-split (λ other. c.compare x.key other.key ≡ Ordering.lt) xs (entry ∷ ys) first).1.0
          h,
      below_before target xs entry ys sorted h,
    )
