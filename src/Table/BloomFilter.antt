-- ===== src/Table/BloomFilter.antt =====
-- src/table/bloom_filter.h and src/table/bloom_filter.cc: `BloomFilterPolicy`.
pub mod Bits
pub mod Matching
use modern_level_db.Prelude.{
  ℕ, zero, suc, ◌+◌, ◌-◌, ◌*◌, ◌/◌, ◌%◌, ◌^◌, min, max, bit_and, bit_or, List, [], ◌∷◌, ◌++◌, Bool,
  true, false, ◌&&◌, not, ltb, ◌==◌, if◌then◌else◌, length, get_or, replicate,
}
use modern_level_db.Base.Hash.{hash32}

abbrev pub hash_seed : ℕ
hash_seed = 0xbc9f1d34

abbrev pub maximum_probes : ℕ
maximum_probes = 30

abbrev pub minimum_bits : ℕ
minimum_bits = 64

abbrev pub maximum_bits : ℕ
maximum_bits = 2 ^ 64 - 1

unfoldable pub bloom_hash : List ℕ → ℕ
bloom_hash key = hash32 key hash_seed

abbrev pub bit_mask : ℕ → ℕ
bit_mask position = 2 ^ (position % 8)

-- A rotation of a 32-bit word to the right.
unfoldable pub bloom_hash_delta : ℕ → ℕ
bloom_hash_delta hash = bit_or (hash / 2 ^ 17) (hash * 2 ^ 15 % 2 ^ 32)

-- An or into the byte at an index; nothing where there is no such byte.
unfoldable pub or_into : List ℕ → ℕ → ℕ → List ℕ
or_into [] index mask = []
or_into (byte ∷ filter) zero mask = bit_or byte mask ∷ filter
or_into (byte ∷ filter) (suc index) mask = byte ∷ or_into filter index mask

unfoldable pub set_bloom_bit : List ℕ → ℕ → List ℕ
set_bloom_bit filter position = or_into filter (position / 8) (bit_mask position)

unfoldable pub bloom_bit_is_set : List ℕ → ℕ → Bool
bloom_bit_is_set filter position =
    not (bit_and (get_or filter (position / 8) 0) (bit_mask position) == 0)

pub record BloomFilterPolicy : Type 0 where
  pub bits_per_key : ℕ
  pub probes : ℕ

unfoldable pub new_policy : ℕ → BloomFilterPolicy
new_policy bits_per_key = record {
  bits_per_key = bits_per_key;
  probes = min (max (bits_per_key * 69 / 100) 1) maximum_probes;
}

unfoldable pub filter_bits : BloomFilterPolicy → ℕ → ℕ
filter_bits policy count =
    if not (policy.bits_per_key == 0) && ltb (maximum_bits / policy.bits_per_key) count
    then maximum_bits
    else max minimum_bits (count * policy.bits_per_key)

unfoldable pub filter_size : BloomFilterPolicy → ℕ → ℕ
filter_size policy key_count = (filter_bits policy key_count - 1) / 8 + 2

-- The probes of one key, as many as the first number says.
unfoldable pub set_probes : ℕ → ℕ → ℕ → ℕ → List ℕ → List ℕ
set_probes zero hash delta bits filter = filter
set_probes (suc probes) hash delta bits filter =
    set_probes probes ((hash + delta) % 2 ^ 32) delta bits (set_bloom_bit filter (hash % bits))

unfoldable pub add_keys : ℕ → ℕ → List (List ℕ) → List ℕ → List ℕ
add_keys probes bits [] filter = filter
add_keys probes bits (key ∷ keys) filter =
    let hash = bloom_hash key in
    add_keys probes bits keys (set_probes probes hash (bloom_hash_delta hash) bits filter)

unfoldable pub create_filter : BloomFilterPolicy → List (List ℕ) → List ℕ → List ℕ
create_filter policy keys output =
    let bytes = filter_size policy (length keys) - 1 in
    output
    ++ (add_keys policy.probes (bytes * 8) keys (replicate bytes 0) ++ (policy.probes % 2 ^ 8 ∷ []))

unfoldable pub match_probes : ℕ → ℕ → ℕ → ℕ → List ℕ → Bool
match_probes zero hash delta bits filter = true
match_probes (suc probes) hash delta bits filter =
    let rest = match_probes probes ((hash + delta) % 2 ^ 32) delta bits filter in
    if bloom_bit_is_set filter (hash % bits) then rest else false

unfoldable pub key_may_match : List ℕ → List ℕ → Bool
key_may_match key filter =
    let bits = (length filter - 1) * 8 in
    let probes = get_or filter (length filter - 1) 0 in
    let hash = bloom_hash key in
    if ltb (length filter) 2
    then false
    else if ltb maximum_probes probes
    then true
    else match_probes probes hash (bloom_hash_delta hash) bits filter
