-- ===== src/Table/Block/Restarts.antt =====
-- src/table/block.cc: the restart array against the items of a layout.
use modern_level_db.Prelude.{
  ℕ, zero, suc, ◌+◌, ◌-◌, ◌≤◌, ◌<◌, ◌≡◌, refl, sym, ap, ◌∙◌, List, [], ◌∷◌, ◌++◌, Bool, true, false,
  ltb, length, drop, get_or, arith, length-append, length-drop, drop-drop, Bool-cases, inl, inr,
}
use modern_level_db.Base.Error.{ok}
use modern_level_db.Table.Block.{Layout, restart_point, validate_restart_entry}
use modern_level_db.Table.Block.Items.{
  Item, item_bytes, all_bytes, last_key, restarts, restart_at, restart_array,
}
use modern_level_db.Table.Block.Shape.{Holds, item_bytes-grows, item-IsItem}

pub get_or-drop : (index : ℕ) (xs : List ℕ) → get_or xs index 0 ≡ get_or (drop index xs) 0 0
get_or-drop zero [] = refl
get_or-drop zero (x ∷ xs) = refl
get_or-drop (suc index) [] = refl
get_or-drop (suc index) (x ∷ xs) = get_or-drop index xs

module _ (offset : ℕ) (item : Item) (items : List Item) where
  abbrev later : List ℕ
  later = restarts (offset + length (item_bytes item)) items

  pub restarts-true : item.restart ≡ true → restarts offset (item ∷ items) ≡ offset ∷ later
  restarts-true e = ap (λ b. restart_at b offset ++ later) e

  pub restarts-false : item.restart ≡ false → restarts offset (item ∷ items) ≡ later
  restarts-false e = ap (λ b. restart_at b offset ++ later) e

pub restarts-bound :
    (offset : ℕ) (items : List Item)
    → 0 < length (restarts offset items)
    → offset ≤ get_or (restarts offset items) 0 0
restarts-bound offset [] h = absurd (omega arith)
restarts-bound offset (item ∷ items) h = elim (Bool-cases item.restart) [
  | inl e ↦ let first = ap (λ l. get_or l 0 0) (restarts-true offset item items e) in omega arith
  | inr e ↦
      let same = restarts-false offset item items e in
      let next =
        restarts-bound (offset + length (item_bytes item)) items (omega (arith, ap length same)) in
      omega (arith, ap (λ l. get_or l 0 0) same)
]

-- No restart is behind the items.
restarts-le :
    (offset : ℕ) (items : List Item) (index : ℕ)
    → get_or (restarts offset items) index 0 ≤ offset + length (all_bytes items)
restarts-le offset [] index = omega arith
restarts-le offset (item ∷ items) zero =
    let sum = length-append (item_bytes item) (all_bytes items) in
    let behind = restarts-le (offset + length (item_bytes item)) items zero in
    elim (Bool-cases item.restart) [
      | inl e ↦ omega (arith, ap (λ l. get_or l zero 0) (restarts-true offset item items e))
      | inr e ↦ omega (arith, ap (λ l. get_or l zero 0) (restarts-false offset item items e))
    ]
restarts-le offset (item ∷ items) (suc index) =
    let sum = length-append (item_bytes item) (all_bytes items) in
    let behind = restarts-le (offset + length (item_bytes item)) items index in
    let behind' = restarts-le (offset + length (item_bytes item)) items (suc index) in
    elim (Bool-cases item.restart) [
      | inl e ↦ omega (arith, ap (λ l. get_or l (suc index) 0) (restarts-true offset item items e))
      | inr e ↦ omega (arith, ap (λ l. get_or l (suc index) 0) (restarts-false offset item items e))
    ]

pub restart_array-le :
    (items : List Item) (index : ℕ)
    → get_or (restart_array items) index 0 ≤ length (all_bytes items)
restart_array-le [] zero = omega arith
restart_array-le [] (suc index) = omega arith
restart_array-le (item ∷ items) index = omega (arith, restarts-le 0 (item ∷ items) index)

abbrev pub bump : Bool → ℕ → ℕ
bump true index = index + 1
bump false index = index

module _ (layout : Layout) (before : List Item) (item : Item) (after : List Item)
    (holds : Holds layout (before ++ (item ∷ after))) (index : ℕ)
    (rest : drop index (restart_array (before ++ (item ∷ after)))
      ≡ restarts (length (all_bytes before)) (item ∷ after)) where
  abbrev array : List ℕ
  array = restart_array (before ++ (item ∷ after))

  abbrev here : ℕ
  here = length (all_bytes before)

  next_point :
      index < layout.restart_count
      → restart_point layout index ≡ get_or (restarts here (item ∷ after)) 0 0
  next_point h = holds.points index h ∙ get_or-drop index array ∙ ap (λ l. get_or l 0 0) rest

  left : length array - index ≡ length (restarts here (item ∷ after))
  left = sym (length-drop index array) ∙ ap length rest

  -- At a restart its point is matched; elsewhere the next one is further on.
  pub validate_restart_entry-item :
      validate_restart_entry layout here item.shared index ≡ ok (bump item.restart index)
  unfolding validate_restart_entry
  validate_restart_entry-item = elim (Bool-cases item.restart) [
    | inl e ↦
        let first = restarts-true here item after e in
        let some_left : index < layout.restart_count =
          omega (arith, holds.count, left, ap length first) in
        let point = next_point some_left ∙ ap (λ l. get_or l 0 0) first in
        let full = (item-IsItem layout before item after holds).whole e in
        ground (arith, some_left, point, full, e)
    | inr e ↦
        let same = restarts-false here item after e in
        elim (Bool-cases (ltb index layout.restart_count)) [
          | inr none_left ↦ ground (arith, none_left, e)
          | inl more ↦
              let some_left : index < layout.restart_count = ground (arith, more) in
              let point = next_point some_left ∙ ap (λ l. get_or l 0 0) same in
              let enough : 0 < length (later here item after) =
                omega (arith, holds.count, left, ap length same) in
              let far = restarts-bound (here + length (item_bytes item)) after enough in
              let grows =
                item_bytes-grows item (last_key [] before)
                  (item-IsItem layout before item after holds) in
              ground (arith, point, far, grows, e)
        ]
  ]

  pub rest-next :
      drop (bump item.restart index) array ≡ restarts (here + length (item_bytes item)) after
  rest-next = elim (Bool-cases item.restart) [
    | inl e ↦
        ap (λ b. drop (bump b index) array) e
        ∙ sym (drop-drop 1 index array)
        ∙ ap (drop 1) (rest ∙ restarts-true here item after e)
    | inr e ↦ ap (λ b. drop (bump b index) array) e ∙ rest ∙ restarts-false here item after e
  ]

  pub bump-bound : index ≤ layout.restart_count → bump item.restart index ≤ layout.restart_count
  bump-bound h = elim (Bool-cases item.restart) [
    | inl e ↦
        let first = restarts-true here item after e in
        omega (arith, holds.count, left, ap length first, ap (λ b. bump b index) e)
    | inr e ↦ omega (arith, ap (λ b. bump b index) e)
  ]

-- A block starts with a restart, at its first byte.
pub first_restart :
    (layout : Layout) (items : List Item)
    → Holds layout items
    → (0 < layout.restart_count) × (restart_point layout 0 ≡ 0)
first_restart layout [] holds =
    let some_left : 0 < layout.restart_count = omega (arith, holds.count) in
    (some_left, holds.points 0 some_left)
first_restart layout (item ∷ items) holds =
    let first = restarts-true 0 item items holds.begins in
    let some_left : 0 < layout.restart_count = omega (arith, holds.count, ap length first) in
    (some_left, holds.points 0 some_left ∙ ap (λ l. get_or l 0 0) first)
