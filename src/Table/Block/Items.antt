-- ===== src/Table/Block/Items.antt =====
-- src/table/block.h: what the entries of a block are, apart from how they are read. An item says what
-- is stored for an entry: how much of the key before it is shared, the rest of its key, its value, and
-- whether it stands at a restart.
use modern_level_db.Prelude.{
  ℕ, ◌+◌, ◌≤◌, ◌<◌, ◌^◌, ◌≡◌, refl, sym, ap, ◌∙◌, List, [], ◌∷◌, ◌++◌, Bool, true, false, length,
  take, arith, append_assoc, length-append,
}
use modern_level_db.Base.Coding.{encode_varint_trusted}

pub record Item : Type 0 where
  pub shared : ℕ
  pub key_delta : List ℕ
  pub value : List ℕ
  pub restart : Bool

pub record Entry : Type 0 where
  pub key : List ℕ
  pub value : List ℕ

abbrev pub header_bytes : Item → List ℕ
header_bytes item =
    encode_varint_trusted item.shared
    ++ (encode_varint_trusted (length item.key_delta) ++ encode_varint_trusted (length item.value))

unfoldable pub item_bytes : Item → List ℕ
item_bytes item = header_bytes item ++ (item.key_delta ++ item.value)

abbrev pub all_bytes : List Item → List ℕ
all_bytes [] = []
all_bytes (item ∷ items) = item_bytes item ++ all_bytes items

abbrev pub key_of : List ℕ → Item → List ℕ
key_of previous item = take item.shared previous ++ item.key_delta

abbrev pub last_key : List ℕ → List Item → List ℕ
last_key previous [] = previous
last_key previous (item ∷ items) = last_key (key_of previous item) items

abbrev pub entries : List ℕ → List Item → List Entry
entries previous [] = []
entries previous (item ∷ items) =
    record { key = key_of previous item; value = item.value } ∷ entries (key_of previous item) items

abbrev pub restart_at : Bool → ℕ → List ℕ
restart_at true offset = offset ∷ []
restart_at false offset = []

-- The offsets of the restarts among items that stand from an offset on.
abbrev pub restarts : ℕ → List Item → List ℕ
restarts offset [] = []
restarts offset (item ∷ items) =
    restart_at item.restart offset ++ restarts (offset + length (item_bytes item)) items

pub record IsItem (previous : List ℕ) (item : Item) : Type 0 where
  pub shares : item.shared ≤ length previous
  pub shared_lt : item.shared < 2 ^ 32
  pub key_delta_lt : length item.key_delta < 2 ^ 32
  pub value_lt : length item.value < 2 ^ 32
  pub whole : item.restart ≡ true → item.shared ≡ 0

abbrev pub AreItems : List ℕ → List Item → Type 0
AreItems previous [] = Unit
AreItems previous (item ∷ items) = IsItem previous item × AreItems (key_of previous item) items

-- The first entry is a restart.
abbrev pub Begins : List Item → Type 0
Begins [] = Unit
Begins (item ∷ items) = item.restart ≡ true

-- The restart array of a block, which always has one.
abbrev pub restart_array : List Item → List ℕ
restart_array [] = 0 ∷ []
restart_array (item ∷ items) = restarts 0 (item ∷ items)

pub all_bytes-append : (xs ys : List Item) → all_bytes (xs ++ ys) ≡ all_bytes xs ++ all_bytes ys
all_bytes-append [] ys = refl
all_bytes-append (x ∷ xs) ys =
    ap (λ l. item_bytes x ++ l) (all_bytes-append xs ys)
    ∙ sym (append_assoc (item_bytes x) (all_bytes xs) (all_bytes ys))

pub last_key-append :
    (previous : List ℕ) (xs ys : List Item)
    → last_key previous (xs ++ ys) ≡ last_key (last_key previous xs) ys
last_key-append previous [] ys = refl
last_key-append previous (x ∷ xs) ys = last_key-append (key_of previous x) xs ys

pub entries-append :
    (previous : List ℕ) (xs ys : List Item)
    → entries previous (xs ++ ys) ≡ entries previous xs ++ entries (last_key previous xs) ys
entries-append previous [] ys = refl
entries-append previous (x ∷ xs) ys =
    ap (λ l. record { key = key_of previous x; value = x.value } ∷ l)
      (entries-append (key_of previous x) xs ys)

pub AreItems-append :
    (previous : List ℕ) (xs ys : List Item)
    → AreItems previous xs
    → AreItems (last_key previous xs) ys
    → AreItems previous (xs ++ ys)
AreItems-append previous [] ys h k = k
AreItems-append previous (x ∷ xs) ys (h, hs) k = (h, AreItems-append (key_of previous x) xs ys hs k)

pub AreItems-split :
    (previous : List ℕ) (xs ys : List Item)
    → AreItems previous (xs ++ ys)
    → AreItems previous xs × AreItems (last_key previous xs) ys
AreItems-split previous [] ys h = (tt, h)
AreItems-split previous (x ∷ xs) ys (h, hs) =
    let (p, q) = AreItems-split (key_of previous x) xs ys hs in ((h, p), q)

pub restarts-append :
    (offset : ℕ) (xs ys : List Item)
    → restarts offset (xs ++ ys)
      ≡ restarts offset xs ++ restarts (offset + length (all_bytes xs)) ys
restarts-append offset [] ys =
    let e : offset ≡ offset + 0 = omega arith in ap (λ (k : ℕ). restarts k ys) e
restarts-append offset (x ∷ xs) ys =
    let next = offset + length (item_bytes x) in
    let e : next + length (all_bytes xs) ≡ offset + length (all_bytes (x ∷ xs)) =
      omega (arith, length-append (item_bytes x) (all_bytes xs)) in
    ap (λ l. restart_at x.restart offset ++ l)
      (restarts-append next xs ys ∙ ap (λ (k : ℕ). restarts next xs ++ restarts k ys) e)
    ∙ sym (
        append_assoc (restart_at x.restart offset) (restarts next xs)
          (restarts (offset + length (all_bytes (x ∷ xs))) ys))
