-- ===== src/Table/BlockBuilder/Adding.antt =====
-- src/table/block_builder.cc: what `Add` adds to the builder, as an item.
use modern_level_db.Prelude.{
  ℕ, ◌-◌, ◌%◌, ◌^◌, ◌≤◌, ◌<◌, ◌≡◌, refl, sym, ap, ◌∙◌, List, [], ◌∷◌, ◌++◌, Bool, true, ◌==◌,
  length, take, drop, arith, append_assoc, append-nil, length-drop, take-append-drop, if◌then◌else◌,
  Bool-cases, inl, inr,
}
use modern_level_db.Base.Bytes.{shared_prefix_length}
use modern_level_db.Table.Block.Items.{Item, header_bytes, item_bytes, key_of, restart_at, IsItem}
use modern_level_db.Table.BlockBuilder.{
  BlockBuilder, begin_restart, append_entry_header, append_entry_payload, commit_entry_history, add,
}

pub shared_prefix_length_lem :
    (left right : List ℕ)
    → (shared_prefix_length left right ≤ length left)
      × (shared_prefix_length left right ≤ length right)
      × (take (shared_prefix_length left right) left ≡ take (shared_prefix_length left right) right)
unfolding shared_prefix_length
shared_prefix_length_lem [] right = (omega arith, omega arith, refl)
shared_prefix_length_lem (x ∷ left) [] = (omega arith, omega arith, refl)
shared_prefix_length_lem (x ∷ left) (y ∷ right) =
    let (p, q, e) = shared_prefix_length_lem left right in
    elim (Bool-cases (x == y)) [
      | inl same ↦
          let first : x ≡ y = ground (arith, same) in
          (
            ground (arith, same),
            ground (arith, same),
            rw same (
                ap (λ l. x ∷ l) e
                ∙ ap (λ b. b ∷ take (shared_prefix_length left right) right) first),
          )
      | inr other ↦ (ground (arith, other), ground (arith, other), rw other refl)
    ]

-- What is shared with the last key: nothing at a restart.
abbrev pub restarting : BlockBuilder → Bool
restarting builder = builder.entries_since_restart == builder.restart_interval

abbrev pub shared_of : BlockBuilder → List ℕ → ℕ
shared_of builder key = if restarting builder then 0 else shared_prefix_length builder.last_key key

shared_of_lem :
    (builder : BlockBuilder) (key : List ℕ)
    → (shared_of builder key ≤ length builder.last_key)
      × (shared_of builder key ≤ length key)
      × (take (shared_of builder key) builder.last_key ++ drop (shared_of builder key) key ≡ key)
shared_of_lem builder key =
    let n = shared_prefix_length builder.last_key key in
    let (p, q, e) = shared_prefix_length_lem builder.last_key key in
    elim (Bool-cases (restarting builder)) [
      | inl r ↦ rw r (omega arith, omega arith, refl)
      | inr r ↦ rw r (p, q, ap (λ l. l ++ drop n key) e ∙ take-append-drop n key)
    ]

abbrev pub item_for : BlockBuilder → Bool → List ℕ → List ℕ → Item
item_for builder first key value = record {
  shared = shared_of builder key;
  key_delta = drop (shared_of builder key) key;
  value = value;
  restart = if first then true else restarting builder;
}

module _ (builder : BlockBuilder) (first : Bool) (key value : List ℕ) (key_lt : length key < 2 ^ 32)
    (value_lt : length value < 2 ^ 32) where
  abbrev n : ℕ
  n = shared_of builder key

  begun-buffer :
      (if restarting builder then begin_restart builder else builder).buffer ≡ builder.buffer
  unfolding begin_restart
  begun-buffer = elim (Bool-cases (restarting builder)) [ inl r ↦ rw r refl | inr r ↦ rw r refl ]

  begun-last_key :
      (if restarting builder then begin_restart builder else builder).last_key ≡ builder.last_key
  unfolding begin_restart
  begun-last_key = elim (Bool-cases (restarting builder)) [ inl r ↦ rw r refl | inr r ↦ rw r refl ]

  pub add-buffer :
      (add builder key value).buffer
      ≡ builder.buffer ++ item_bytes (item_for builder first key value)
  unfolding add append_entry_header append_entry_payload commit_entry_history item_bytes
  add-buffer =
      let (p, q, _) = shared_of_lem builder key in
      let delta = drop n key in
      let size : length key - n ≡ length delta = sym (length-drop n key) in
      let e1 : n % 2 ^ 32 ≡ n = omega arith in
      let e2 : (length key - n) % 2 ^ 32 ≡ length delta = omega (arith, size) in
      let e3 : length value % 2 ^ 32 ≡ length value = omega arith in
      let header = header_bytes (item_for builder first key value) in
      rw (begun-buffer, e1, e2, e3)
        (append_assoc (builder.buffer ++ header) delta value
          ∙ append_assoc builder.buffer header (delta ++ value))

  pub add-last_key : (add builder key value).last_key ≡ key
  unfolding add append_entry_header append_entry_payload commit_entry_history
  add-last_key =
      let (_, _, e) = shared_of_lem builder key in
      ap (λ l. take n l ++ drop n key) begun-last_key ∙ e

  pub add-restarts :
      length builder.buffer < 2 ^ 32
      → (add builder key value).restarts
        ≡ builder.restarts ++ restart_at (restarting builder) (length builder.buffer)
  unfolding add begin_restart append_entry_header append_entry_payload commit_entry_history
  add-restarts h =
      let e : length builder.buffer % 2 ^ 32 ≡ length builder.buffer = omega arith in
      elim (Bool-cases (restarting builder)) [
        | inl r ↦ rw (r, e) refl
        | inr r ↦ rw r (sym (append-nil builder.restarts))
      ]

  pub add-restart_interval : (add builder key value).restart_interval ≡ builder.restart_interval
  unfolding add begin_restart append_entry_header append_entry_payload commit_entry_history
  add-restart_interval = elim (Bool-cases (restarting builder)) [
    | inl r ↦ rw r refl
    | inr r ↦ rw r refl
  ]

  pub item_for-IsItem :
      (first ≡ true → builder.last_key ≡ [])
      → IsItem builder.last_key (item_for builder first key value)
  item_for-IsItem nothing =
      let (p, q, _) = shared_of_lem builder key in
      let size = length-drop n key in
      record {
        shares = p;
        shared_lt = omega arith;
        key_delta_lt = omega arith;
        value_lt = value_lt;
        whole = λ flagged. elim (Bool-cases first) [
          | inl e ↦ omega (arith, ap length (nothing e))
          | inr e ↦
              let r : restarting builder ≡ true =
                ap (λ b. if b then true else restarting builder) (sym e) ∙ flagged in
              rw r refl
        ];
      }

  pub item_for-key : key_of builder.last_key (item_for builder first key value) ≡ key
  item_for-key = let (_, _, e) = shared_of_lem builder key in e
