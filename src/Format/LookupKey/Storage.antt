-- ===== src/Format/LookupKey/Storage.antt =====
-- src/format/internal_key.cc: the inline and the heap storage of a `LookupKey`.
use modern_level_db.Prelude.{
  ℕ, ◌+◌, ◌≡◌, refl, ◌∙◌, List, none, arith, length, take, ltb, Bool-cases, inl, inr, false,
  replicate, length-replicate, some, ◌↔◌, ◌≤◌, take-append,
}
use modern_level_db.Base.Bytes.{write_at, write_within-room, length-write_at}
use modern_level_db.Format.LookupKey.{
  LookupKey, construct, write_storage, memtable_key, inline_capacity,
}

-- Bytes written at the start of a buffer are what a view of their size shows.
take-write_at :
    (n : ℕ) (buffer bytes : List ℕ) → n ≡ length bytes → take n (write_at buffer 0 bytes) ≡ bytes
take-write_at n buffer bytes h = take-append n bytes _ h

-- The views, the arrays and the storage of a lookup key that holds `bytes`.
pub record Shows (lookup : LookupKey) (bytes : List ℕ) (prefix : ℕ) : Type 0 where
  pub shown : memtable_key lookup ≡ bytes
  pub offset : lookup.internal_key_offset ≡ prefix
  pub inline_length : length lookup.inline_storage ≡ inline_capacity
  pub inline_iff : (lookup.heap_storage ≡ none) ↔ (length bytes ≤ inline_capacity)

inline_key : List ℕ → ℕ → LookupKey
inline_key bytes prefix = record {
  inline_storage = write_at (replicate inline_capacity 0) 0 bytes;
  heap_storage = none;
  encoded_size = length bytes;
  internal_key_offset = prefix;
}

heap_key : List ℕ → ℕ → LookupKey
heap_key bytes prefix = record {
  inline_storage = replicate inline_capacity 0;
  heap_storage = some (write_at (replicate (length bytes) 0) 0 bytes);
  encoded_size = length bytes;
  internal_key_offset = prefix;
}

inline_room :
    (bytes : List ℕ)
    → ltb inline_capacity (length bytes) ≡ false
    → 0 + length bytes ≤ length (replicate {A = ℕ} inline_capacity 0)
inline_room bytes h = let n = length-replicate {A = ℕ} inline_capacity 0 in ground arith

-- A new lookup key has room for as many bytes as it was made for.
pub write_storage-construct :
    (prefix : ℕ) (bytes : List ℕ)
    → (lookup : LookupKey) × (write_storage (construct (length bytes) prefix) bytes ≡ some lookup)
      × Shows lookup bytes prefix
unfolding write_storage construct inline_key heap_key memtable_key
write_storage-construct prefix bytes = elim (Bool-cases (ltb inline_capacity (length bytes))) [
  | inl long ↦ (
    heap_key bytes prefix,
    rw
        (
          long,
          write_storage,
          write_within-room (replicate (length bytes) 0) 0 bytes
              (omega (arith, length-replicate {A = ℕ} (length bytes) 0)),
        )
        refl,
    record {
      shown = take-write_at (length bytes) _ bytes refl;
      offset = refl;
      inline_length = length-replicate {A = ℕ} inline_capacity 0;
      inline_iff = ground arith;
    },
  )
  | inr short ↦ (
    inline_key bytes prefix,
    rw
        (
          short,
          write_storage,
          write_within-room (replicate inline_capacity 0) 0 bytes (inline_room bytes short),
          construct,
          short,
        )
        refl,
    record {
      shown = take-write_at (length bytes) _ bytes refl;
      offset = refl;
      inline_length =
          length-write_at (replicate inline_capacity 0) 0 bytes (inline_room bytes short)
          ∙ length-replicate {A = ℕ} inline_capacity 0;
      inline_iff = ground arith;
    },
  )
]
