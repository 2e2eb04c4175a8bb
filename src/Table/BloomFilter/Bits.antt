-- ===== src/Table/BloomFilter/Bits.antt =====
-- src/table/bloom_filter.cc: the bits of a filter. A bit that was set stays set.
use modern_level_db.Prelude.{
  ℕ, zero, suc, ◌+◌, ◌*◌, ◌/◌, ◌%◌, ◌^◌, ◌<◌, ◌≡◌, refl, sym, ap, ◌∙◌, bit_and, List, [], ◌∷◌, ◌++◌,
  true, length, get_or, arith,
}
use native.Mathlib.Nat.{mod-lt}
use modern_level_db.Prelude.Bits.{bit_or-keeps, bit_or-sets, bit_and_nothing}
use modern_level_db.Table.BloomFilter.{
  or_into, set_bloom_bit, bloom_bit_is_set, set_probes, match_probes,
}

length-or_into :
    (filter : List ℕ) (index mask : ℕ) → length (or_into filter index mask) ≡ length filter
unfolding or_into
length-or_into [] index mask = refl
length-or_into (byte ∷ filter) zero mask = refl
length-or_into (byte ∷ filter) (suc index) mask = ap suc (length-or_into filter index mask)

or_into-keeps :
    (filter : List ℕ) (index i mask j : ℕ)
    → 0 < bit_and (get_or filter i 0) (2 ^ j)
    → 0 < bit_and (get_or (or_into filter index mask) i 0) (2 ^ j)
unfolding or_into
or_into-keeps [] index i mask j h = h
or_into-keeps (byte ∷ filter) zero zero mask j h = bit_or-keeps j byte mask h
or_into-keeps (byte ∷ filter) zero (suc i) mask j h = h
or_into-keeps (byte ∷ filter) (suc index) zero mask j h = h
or_into-keeps (byte ∷ filter) (suc index) (suc i) mask j h = or_into-keeps filter index i mask j h

or_into-sets :
    (filter : List ℕ) (index j : ℕ)
    → index < length filter
    → 0 < bit_and (get_or (or_into filter index (2 ^ j)) index 0) (2 ^ j)
unfolding or_into
or_into-sets [] index j h = absurd (omega arith)
or_into-sets (byte ∷ filter) zero j h = bit_or-sets j byte
or_into-sets (byte ∷ filter) (suc index) j h = or_into-sets filter index j (omega arith)

pub append-keeps :
    (filter behind : List ℕ) (i j : ℕ)
    → 0 < bit_and (get_or filter i 0) (2 ^ j)
    → 0 < bit_and (get_or (filter ++ behind) i 0) (2 ^ j)
append-keeps [] behind i j h = absurd (omega (arith, bit_and_nothing (2 ^ j)))
append-keeps (byte ∷ filter) behind zero j h = h
append-keeps (byte ∷ filter) behind (suc i) j h = append-keeps filter behind i j h

abbrev pub IsMarked : List ℕ → ℕ → Type 0
IsMarked filter position = 0 < bit_and (get_or filter (position / 8) 0) (2 ^ (position % 8))

-- The positions of all probes of a hash.
abbrev pub AllMarked : ℕ → ℕ → ℕ → ℕ → List ℕ → Type 0
AllMarked zero hash delta bits filter = Unit
AllMarked (suc probes) hash delta bits filter =
    IsMarked filter (hash % bits) × AllMarked probes ((hash + delta) % 2 ^ 32) delta bits filter

pub AllMarked-mono :
    (probes hash delta bits : ℕ) (filter other : List ℕ)
    → ((position : ℕ) → IsMarked filter position → IsMarked other position)
    → AllMarked probes hash delta bits filter
    → AllMarked probes hash delta bits other
AllMarked-mono zero hash delta bits filter other f h = tt
AllMarked-mono (suc probes) hash delta bits filter other f (h, rest) = (
  f (hash % bits) h,
  AllMarked-mono probes ((hash + delta) % 2 ^ 32) delta bits filter other f rest,
)

pub set_probes-keeps :
    (probes hash delta bits : ℕ) (filter : List ℕ) (position : ℕ)
    → IsMarked filter position
    → IsMarked (set_probes probes hash delta bits filter) position
unfolding set_probes set_bloom_bit
set_probes-keeps zero hash delta bits filter position h = h
set_probes-keeps (suc probes) hash delta bits filter position h =
    set_probes-keeps probes ((hash + delta) % 2 ^ 32) delta bits
      (set_bloom_bit filter (hash % bits)) position
      (or_into-keeps filter (hash % bits / 8) (position / 8) (2 ^ (hash % bits % 8)) (position % 8)
        h)

pub length-set_probes :
    (probes hash delta bits : ℕ) (filter : List ℕ)
    → length (set_probes probes hash delta bits filter) ≡ length filter
unfolding set_probes set_bloom_bit
length-set_probes zero hash delta bits filter = refl
length-set_probes (suc probes) hash delta bits filter =
    length-set_probes probes ((hash + delta) % 2 ^ 32) delta bits
      (set_bloom_bit filter (hash % bits))
    ∙ length-or_into filter (hash % bits / 8) (2 ^ (hash % bits % 8))

pub set_probes-AllMarked :
    (probes hash delta bits : ℕ) (filter : List ℕ)
    → bits ≡ length filter * 8
    → 0 < bits
    → AllMarked probes hash delta bits (set_probes probes hash delta bits filter)
unfolding set_probes set_bloom_bit
set_probes-AllMarked zero hash delta bits filter size some_bits = tt
set_probes-AllMarked (suc probes) hash delta bits filter size some_bits =
    let position = hash % bits in
    let marked = set_bloom_bit filter position in
    let below : position < bits = mod-lt hash some_bits in
    let here = or_into-sets filter (position / 8) (position % 8) (omega arith) in
    let same = length-or_into filter (position / 8) (2 ^ (position % 8)) in
    (
      set_probes-keeps probes ((hash + delta) % 2 ^ 32) delta bits marked position here,
      set_probes-AllMarked probes ((hash + delta) % 2 ^ 32) delta bits marked
          (size ∙ ap (λ (n : ℕ). n * 8) (sym same)) some_bits,
    )

pub match_probes-AllMarked :
    (probes hash delta bits : ℕ) (filter : List ℕ)
    → AllMarked probes hash delta bits filter
    → match_probes probes hash delta bits filter ≡ true
unfolding match_probes bloom_bit_is_set
match_probes-AllMarked zero hash delta bits filter h = refl
match_probes-AllMarked (suc probes) hash delta bits filter (h, rest) =
    let later = match_probes-AllMarked probes ((hash + delta) % 2 ^ 32) delta bits filter rest in
    ground (arith, later)
