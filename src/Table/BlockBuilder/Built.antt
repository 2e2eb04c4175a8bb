-- ===== src/Table/BlockBuilder/Built.antt =====
-- src/table/block_builder.cc: a builder against the items that were added to it.
use mathlib.Core.Path.{subst}
use modern_level_db.Prelude.{
  ℕ, ◌+◌, ◌^◌, ◌≤◌, ◌<◌, ◌≡◌, refl, sym, ap, ◌∙◌, List, [], ◌∷◌, ◌++◌, Bool, true, false, length,
  arith, append_assoc, append-nil, length-append,
}
use modern_level_db.Table.Block.Items.{
  Item, Entry, item_bytes, all_bytes, key_of, last_key, entries, restarts, restart_at,
  restart_array, IsItem, AreItems, Begins, all_bytes-append, last_key-append, entries-append,
  AreItems-append, restarts-append,
}
use modern_level_db.Table.BlockBuilder.{BlockBuilder, new_builder, add}
use modern_level_db.Table.BlockBuilder.Adding.{
  restarting, item_for, add-buffer, add-last_key, add-restarts, item_for-IsItem, item_for-key,
}

-- The state of a builder after items.
pub record IsBuilt (builder : BlockBuilder) (items : List Item) : Type 0 where
  pub buffer_lem : builder.buffer ≡ all_bytes items
  pub key_lem : builder.last_key ≡ last_key [] items
  pub points : 0 ∷ builder.restarts ≡ restart_array items
  pub items_lem : AreItems [] items
  pub begins : Begins items
  pub fresh : items ≡ [] → restarting builder ≡ false

abbrev is_first : List Item → Bool
is_first [] = true
is_first (item ∷ items) = false

pub new_builder-IsBuilt : (interval : ℕ) → 1 ≤ interval → IsBuilt (new_builder interval) []
new_builder-IsBuilt interval h = record {
  buffer_lem = refl;
  key_lem = refl;
  points = refl;
  items_lem = tt;
  begins = tt;
  fresh = λ _. ground arith;
}

module _ (builder : BlockBuilder) (key value : List ℕ) (key_lt : length key < 2 ^ 32)
    (value_lt : length value < 2 ^ 32) (room : length builder.buffer < 2 ^ 32) where
  abbrev pub item : List Item → Item
  item items = item_for builder (is_first items) key value

  first_key :
      (items : List Item) → IsBuilt builder items → is_first items ≡ true → builder.last_key ≡ []
  first_key [] built e = built.key_lem
  first_key (x ∷ items) built e = absurd cc

  Begins-more : (items : List Item) → Begins items → Begins (items ++ (item items ∷ []))
  Begins-more [] h = refl
  Begins-more (x ∷ items) h = h

  array-more :
      (items : List Item)
      → IsBuilt builder items
      → 0 ∷ (add builder key value).restarts ≡ restart_array (items ++ (item items ∷ []))
  array-more [] built =
      let none_yet = built.fresh refl in
      ap (λ l. 0 ∷ l) (add-restarts builder true key value key_lt value_lt room)
      ∙ ap (λ b. 0 ∷ (builder.restarts ++ restart_at b (length builder.buffer))) none_yet
      ∙ ap (λ l. l ++ []) built.points
  array-more (x ∷ l) built =
      let from_zero : length (all_bytes (x ∷ l)) ≡ 0 + length (all_bytes (x ∷ l)) = omega arith in
      let more = restarts-append 0 (x ∷ l) (item (x ∷ l) ∷ []) in
      ap (λ k. 0 ∷ k) (add-restarts builder false key value key_lt value_lt room)
      ∙ ap (λ k. k ++ restart_at (restarting builder) (length builder.buffer)) built.points
      ∙ ap (λ (k : ℕ). restarts 0 (x ∷ l) ++ restart_at (restarting builder) k)
          (ap length built.buffer_lem ∙ from_zero)
      ∙ ap (λ k. restarts 0 (x ∷ l) ++ k)
          (sym (append-nil (restart_at (restarting builder) (0 + length (all_bytes (x ∷ l))))))
      ∙ sym more

  module _ (items : List Item) (built : IsBuilt builder items) where
    key_of-item : key_of (last_key [] items) (item items) ≡ key
    key_of-item =
        ap (λ previous. key_of previous (item items)) (sym built.key_lem)
        ∙ item_for-key builder (is_first items) key value key_lt value_lt

    -- Adding an entry keeps the account of the state.
    pub add-IsBuilt : IsBuilt (add builder key value) (items ++ (item items ∷ []))
    add-IsBuilt = record {
      buffer_lem =
          add-buffer builder (is_first items) key value key_lt value_lt
          ∙ ap (λ l. l ++ item_bytes (item items)) built.buffer_lem
          ∙ sym (
              all_bytes-append items (item items ∷ [])
              ∙ ap (λ l. all_bytes items ++ l) (append-nil (item_bytes (item items))));
      key_lem =
          add-last_key builder (is_first items) key value key_lt value_lt
          ∙ sym (last_key-append [] items (item items ∷ []) ∙ key_of-item);
      points = array-more items built;
      items_lem = AreItems-append [] items (item items ∷ []) built.items_lem (
        subst (λ previous. IsItem previous (item items)) built.key_lem
            (item_for-IsItem builder (is_first items) key value key_lt value_lt
              (first_key items built)),
        tt,
      );
      begins = Begins-more items built.begins;
      fresh = λ e. absurd (omega (arith, length-append items (item items ∷ []), ap length e));
    }

    pub entries-add :
        entries [] (items ++ (item items ∷ []))
        ≡ entries [] items ++ (record { key = key; value = value } ∷ [])
    entries-add =
        entries-append [] items (item items ∷ [])
        ∙ ap (λ k. entries [] items ++ (record { key = k; value = value } ∷ [])) key_of-item

unfoldable pub add_all : BlockBuilder → List Entry → BlockBuilder
add_all builder [] = builder
add_all builder (entry ∷ rest) = add_all (add builder entry.key entry.value) rest

-- Keys and values whose lengths have four bytes.
abbrev pub AreSmall : List Entry → Type 0
AreSmall [] = Unit
AreSmall (entry ∷ rest) =
    (length entry.key < 2 ^ 32) × (length entry.value < 2 ^ 32) × AreSmall rest

add_all-grows :
    (builder : BlockBuilder) (es : List Entry)
    → AreSmall es
    → length builder.buffer ≤ length (add_all builder es).buffer
unfolding add_all
add_all-grows builder [] small = omega arith
add_all-grows builder (entry ∷ rest) (k, v, small) =
    let later = add_all-grows (add builder entry.key entry.value) rest small in
    let here = ap length (add-buffer builder false entry.key entry.value k v) in
    omega (
      arith,
      length-append builder.buffer (item_bytes (item_for builder false entry.key entry.value)),
    )

-- The items of a builder after entries are those of the entries.
pub add_all-IsBuilt :
    (builder : BlockBuilder) (items : List Item) (es : List Entry)
    → IsBuilt builder items
    → AreSmall es
    → length (add_all builder es).buffer < 2 ^ 32
    → (more : List Item) × IsBuilt (add_all builder es) more
      × (entries [] more ≡ entries [] items ++ es)
unfolding add_all
add_all-IsBuilt builder items [] built small room =
    (items, built, sym (append-nil (entries [] items)))
add_all-IsBuilt builder items (entry ∷ rest) built (k, v, small) room =
    let grows = add_all-grows (add builder entry.key entry.value) rest small in
    let here = ap length (add-buffer builder false entry.key entry.value k v) in
    let room' : length builder.buffer < 2 ^ 32 = omega (
      arith,
      length-append builder.buffer (item_bytes (item_for builder false entry.key entry.value)),
    ) in
    let new = item builder entry.key entry.value k v room' items in
    let built' = add-IsBuilt builder entry.key entry.value k v room' items built in
    let (more, h, e) =
      add_all-IsBuilt (add builder entry.key entry.value) (items ++ (new ∷ [])) rest built' small
        room in
    (
      more,
      h,
      e
          ∙ ap (λ l. l ++ rest) (entries-add builder entry.key entry.value k v room' items built)
          ∙ append_assoc (entries [] items) (entry ∷ []) rest,
    )
