-- ===== src/Table/Block/Prev/Cached.antt =====
-- src/table/block.cc: what the entries of the reverse cache stand for, by how many items stand before
-- them in the block.
use modern_level_db.Prelude.{
  ℕ, zero, suc, ◌+◌, ◌-◌, ◌<◌, ◌≡◌, refl, sym, ap, ◌∙◌, List, [], ◌∷◌, ◌++◌, Option, none, some,
  false, ltb, ◌||◌, length, take, drop, get_elem?, arith, append_assoc, append-nil, take-append,
  drop-append, take_all, Bool-cases, inl, inr, ◌⊎◌,
}
use mathlib.Core.Path.{subst}
use modern_level_db.Table.Block.Items.{Item, all_bytes, key_of, last_key}
use modern_level_db.Table.Block.Iterator.{
  Context, CachedEntry, ReverseCache, Iterator, key, key_from,
}
use modern_level_db.Table.Block.Iterator.Standing.{Standing}
use modern_level_db.Table.Block.Prev.{
  appended, append, key_bytes_of, restore, cached_entry_size, copied_size, copied_key,
}

-- The iterator stands at the item that has so many before it.
pub record StandsAt (context : Context) (items : List Item) (index : ℕ) (iterator : Iterator)
    : Type 0 where
  pub before : List Item
  pub item : Item
  pub after : List Item
  pub index_lem : length before ≡ index
  pub standing : Standing context items before item after iterator

pub record IsSnapshot (context : Context) (items : List Item) (index : ℕ) (keys : List ℕ)
    (entry : CachedEntry) : Type 0 where
  pub before : List Item
  pub item : Item
  pub after : List Item
  pub index_lem : length before ≡ index
  pub split : items ≡ before ++ (item ∷ after)
  pub current_lem : entry.current ≡ length (all_bytes before)
  pub next_lem : entry.next ≡ length (all_bytes (before ++ (item ∷ [])))
  pub index_lt : entry.restart_index < context.layout.restart_count
  pub value_lem : entry.value ≡ item.value
  pub key_lem :
      (more : List ℕ)
      → key_bytes_of entry.key_data (keys ++ more) entry ≡ key_of (last_key [] before) item

-- The entries of a cache are those of the items from an index on.
abbrev pub Snapshots : Context → List Item → ℕ → List ℕ → List CachedEntry → Type 0
Snapshots context items start keys [] = Unit
Snapshots context items start keys (entry ∷ rest) =
    IsSnapshot context items start keys entry × Snapshots context items (suc start) keys rest

module _ (context : Context) (items : List Item) where
  IsSnapshot-kept :
      (index : ℕ) (keys more : List ℕ) (entry : CachedEntry)
      → IsSnapshot context items index keys entry
      → IsSnapshot context items index (keys ++ more) entry
  IsSnapshot-kept index keys more entry s = record {
    before = s.before;
    item = s.item;
    after = s.after;
    index_lem = s.index_lem;
    split = s.split;
    current_lem = s.current_lem;
    next_lem = s.next_lem;
    index_lt = s.index_lt;
    value_lem = s.value_lem;
    key_lem = λ others.
        ap (λ l. key_bytes_of entry.key_data l entry) (append_assoc keys more others)
        ∙ s.key_lem (more ++ others);
  }

  Snapshots-append :
      (start : ℕ) (keys more : List ℕ) (es : List CachedEntry) (entry : CachedEntry)
      → Snapshots context items start keys es
      → IsSnapshot context items (start + length es) (keys ++ more) entry
      → Snapshots context items start (keys ++ more) (es ++ (entry ∷ []))
  Snapshots-append start keys more [] entry h last =
      let e : start + 0 ≡ start = omega arith in
      (subst (λ (k : ℕ). IsSnapshot context items k (keys ++ more) entry) e last, tt)
  Snapshots-append start keys more (x ∷ es) entry (h, hs) last =
      let e : start + suc (length es) ≡ suc start + length es = omega arith in
      (
        IsSnapshot-kept start keys more x h,
        Snapshots-append (suc start) keys more es entry hs
            (subst (λ (k : ℕ). IsSnapshot context items k (keys ++ more) entry) e last),
      )

  Snapshots-at :
      (start : ℕ) (keys : List ℕ) (es : List CachedEntry) (position : ℕ)
      → Snapshots context items start keys es
      → position < length es
      → (entry : CachedEntry) × (get_elem? es position ≡ some entry)
        × IsSnapshot context items (start + position) keys entry
  Snapshots-at start keys [] position h bound = absurd (omega arith)
  Snapshots-at start keys (x ∷ es) zero (h, hs) bound =
      let e : start ≡ start + 0 = omega arith in
      (x, refl, subst (λ (k : ℕ). IsSnapshot context items k keys x) e h)
  Snapshots-at start keys (x ∷ es) (suc position) (h, hs) bound =
      let (entry, found, s) = Snapshots-at (suc start) keys es position hs (omega arith) in
      let e : suc start + position ≡ start + suc position = omega arith in
      (entry, found, subst (λ (k : ℕ). IsSnapshot context items k keys entry) e s)

  -- The key that an entry keeps, of its own bytes or among the copied ones.
  kept_key :
      (borrowed : Option (List ℕ)) (k keys more : List ℕ) (entry : CachedEntry)
      → entry.key_data ≡ borrowed
      → entry.key_offset ≡ length keys
      → entry.key_size ≡ length k
      → key_from borrowed k ≡ k
      → key_bytes_of entry.key_data ((keys ++ copied_key borrowed k) ++ more) entry ≡ k
  kept_key none k keys more entry d o s same =
      ap (λ b. key_bytes_of b ((keys ++ k) ++ more) entry) d
      ∙ ap (λ l. take entry.key_size (drop entry.key_offset l)) (append_assoc keys k more)
      ∙ ap (take entry.key_size) (drop-append entry.key_offset keys (k ++ more) o)
      ∙ take-append entry.key_size k more s
  kept_key (some borrowed) k keys more entry d o s same =
      ap (λ b. key_bytes_of b ((keys ++ []) ++ more) entry) d
      ∙ ap (take entry.key_size) same
      ∙ take_all entry.key_size k (omega arith)

  pub append-cases :
      (cache : ReverseCache) (iterator : Iterator) (budget : ℕ)
      → (append cache iterator budget ≡ none)
        ⊎ (append cache iterator budget ≡ some (appended cache iterator))
  unfolding append
  append-cases cache iterator budget =
      let key_bytes = copied_size iterator.borrowed_key (key iterator) in
      let remaining = budget - cache.charged_bytes in
      elim (Bool-cases
        (ltb remaining cached_entry_size || ltb (remaining - cached_entry_size) key_bytes)) [
          | inl spent ↦ inl (rw spent refl)
          | inr room ↦ inr (rw room refl)
        ]

  borrowed-key :
      (borrowed : Option (List ℕ)) (stored : List ℕ)
      → key_from borrowed (key_from borrowed stored) ≡ key_from borrowed stored
  borrowed-key none stored = refl
  borrowed-key (some bytes) stored = refl

  -- The entry that is added stands for the item that the iterator stands at.
  pub append-Snapshots :
      (start index : ℕ) (cache : ReverseCache) (iterator : Iterator)
      → StandsAt context items index iterator
      → Snapshots context items start cache.keys cache.entries
      → start + length cache.entries ≡ index
      → Snapshots context items start
          (appended cache iterator).keys
          (appended cache iterator).entries
  append-Snapshots start index cache iterator s snaps count =
      let standing = s.standing in
      Snapshots-append start cache.keys (copied_key iterator.borrowed_key (key iterator))
        cache.entries _ snaps
        (record {
          before = s.before;
          item = s.item;
          after = s.after;
          index_lem = s.index_lem ∙ sym count;
          split = standing.split;
          current_lem = standing.current_lem;
          next_lem = standing.next_lem;
          index_lt = standing.index_lt;
          value_lem = standing.value_lem;
          key_lem = λ more.
              kept_key iterator.borrowed_key (key iterator) cache.keys more _ refl refl refl
                (borrowed-key iterator.borrowed_key iterator.stored_key)
              ∙ standing.key_lem;
        })

  abbrev restored : ReverseCache → CachedEntry → Iterator → Iterator
  restored cache entry iterator = record iterator {
    current = entry.current;
    next = entry.next;
    restart_index = entry.restart_index;
    borrowed_key = some (key_bytes_of entry.key_data cache.keys entry);
    value = entry.value;
  }

  restore-found :
      (cache : ReverseCache) (entry : CachedEntry) (iterator : Iterator)
      → get_elem? cache.entries cache.position ≡ some entry
      → restore cache iterator ≡ restored cache entry iterator
  unfolding restore
  restore-found cache entry iterator found = rw (restore, found) refl

  -- What is restored stands there too, whatever becomes of the cache.
  pub restore-StandsAt :
      (start : ℕ) (cache : ReverseCache) (iterator : Iterator) (replaced : Option ReverseCache)
      → Snapshots context items start cache.keys cache.entries
      → cache.position < length cache.entries
      → iterator.corrupted ≡ false
      → (StandsAt context items (start + cache.position) (record (restore cache iterator) {
        reverse_cache = replaced;
        reverse_cache_active = false;
      }))
        × ((restore cache iterator).corrupted ≡ false)
        × ((restore cache iterator).reverse_cache_active ≡ iterator.reverse_cache_active)
  restore-StandsAt start cache iterator replaced snaps bound whole =
      let (entry, found, s) =
        Snapshots-at start cache.keys cache.entries cache.position snaps bound in
      let Claim : Iterator → Type 0 = λ it.
        (StandsAt context items (start + cache.position)
          (record it { reverse_cache = replaced; reverse_cache_active = false }))
        × (it.corrupted ≡ false)
        × (it.reverse_cache_active ≡ iterator.reverse_cache_active) in
      subst Claim (sym (restore-found cache entry iterator found)) (
        record {
          before = s.before;
          item = s.item;
          after = s.after;
          index_lem = s.index_lem;
          standing = record {
            split = s.split;
            current_lem = s.current_lem;
            next_lem = s.next_lem;
            index_lt = s.index_lt;
            whole = whole;
            inactive = refl;
            key_lem =
                ap (λ l. key_bytes_of entry.key_data l entry) (sym (append-nil cache.keys))
                ∙ s.key_lem [];
            value_lem = s.value_lem;
          };
        },
        whole,
        refl,
      )
