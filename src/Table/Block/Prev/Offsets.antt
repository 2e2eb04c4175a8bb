-- ===== src/Table/Block/Prev/Offsets.antt =====
-- src/table/block.cc: the places of items in a block, by how many stand before them and by their offsets.
use modern_level_db.Prelude.{
  ℕ, ◌+◌, ◌-◌, ◌≤◌, ◌≡◌, refl, sym, ap, ◌∙◌, List, ◌++◌, length, take, drop, arith, length-append,
  length-drop, longer_front, take-append, drop-append,
}
use mathlib.Core.Path.{subst}
use modern_level_db.Table.Block.Items.{
  Item, all_bytes, last_key, AreItems, AreItems-split, all_bytes-append,
}
use modern_level_db.Table.Block.Iterator.Between.{length-all_bytes}

pub same_front {ℓ} :
    {A : Type ℓ}
    → (xs ys xs' ys' : List A) → xs ++ ys ≡ xs' ++ ys'
    → length xs ≡ length xs'
    → xs ≡ xs'
same_front xs ys xs' ys' e h =
    sym (take-append (length xs) xs ys refl)
    ∙ ap (take (length xs)) e
    ∙ take-append (length xs) xs' ys' h

pub same_back {ℓ} :
    {A : Type ℓ}
    → (xs ys xs' ys' : List A) → xs ++ ys ≡ xs' ++ ys'
    → length xs ≡ length xs'
    → ys ≡ ys'
same_back xs ys xs' ys' e h =
    sym (drop-append (length xs) xs ys refl)
    ∙ ap (drop (length xs)) e
    ∙ drop-append (length xs) xs' ys' h

-- A front that is longer has more bytes.
pub longer_front_bytes :
    (previous : List ℕ) (xs ys xs' ys' : List Item)
    → AreItems previous (xs ++ ys)
    → xs ++ ys ≡ xs' ++ ys'
    → length xs' ≤ length xs
    → length (all_bytes xs') + (length xs - length xs') ≤ length (all_bytes xs)
longer_front_bytes previous xs ys xs' ys' items e h =
    let d = drop (length xs') xs in
    let front = longer_front xs ys xs' ys' e h in
    let of_front = (AreItems-split previous xs ys items).0 in
    let of_d =
      (AreItems-split previous xs' d (subst (λ l. AreItems previous l) front of_front)).1 in
    omega (
      arith,
      length-all_bytes (last_key previous xs') d of_d,
      ap length (ap all_bytes front ∙ all_bytes-append xs' d),
      length-append (all_bytes xs') (all_bytes d),
      length-drop (length xs') xs,
    )
