-- ===== src/Table/BloomFilter/Matching.antt =====
-- src/table/bloom_filter.cc: a filter matches every key that it was made for.
use modern_level_db.Prelude.{
  ℕ, zero, ◌+◌, ◌-◌, ◌*◌, ◌/◌, ◌%◌, ◌^◌, ◌<◌, ◌≡◌, refl, sym, ap, ◌∙◌, List, [], ◌∷◌, ◌++◌, true,
  false, ltb, length, drop, get_or, replicate, arith, length-append, length-replicate, drop-append,
}
use modern_level_db.Table.BloomFilter.{
  BloomFilterPolicy, new_policy, filter_bits, filter_size, bloom_hash, bloom_hash_delta, set_probes,
  add_keys, create_filter, match_probes, key_may_match,
}
use modern_level_db.Table.BloomFilter.Bits.{
  IsMarked, AllMarked, AllMarked-mono, append-keeps, set_probes-keeps, length-set_probes,
  set_probes-AllMarked, match_probes-AllMarked,
}

add_keys-keeps :
    (probes bits : ℕ) (keys : List (List ℕ)) (filter : List ℕ) (position : ℕ)
    → IsMarked filter position
    → IsMarked (add_keys probes bits keys filter) position
unfolding add_keys
add_keys-keeps probes bits [] filter position h = h
add_keys-keeps probes bits (key ∷ keys) filter position h =
    let hash = bloom_hash key in
    let delta = bloom_hash_delta hash in
    add_keys-keeps probes bits keys (set_probes probes hash delta bits filter) position
      (set_probes-keeps probes hash delta bits filter position h)

length-add_keys :
    (probes bits : ℕ) (keys : List (List ℕ)) (filter : List ℕ)
    → length (add_keys probes bits keys filter) ≡ length filter
unfolding add_keys
length-add_keys probes bits [] filter = refl
length-add_keys probes bits (key ∷ keys) filter =
    let hash = bloom_hash key in
    let delta = bloom_hash_delta hash in
    length-add_keys probes bits keys (set_probes probes hash delta bits filter)
    ∙ length-set_probes probes hash delta bits filter

-- The probes of every key of the list are marked.
add_keys-AllMarked :
    (probes bits : ℕ) (before : List (List ℕ)) (key : List ℕ) (after : List (List ℕ))
    (filter : List ℕ)
    → bits ≡ length filter * 8
    → 0 < bits
    → AllMarked probes
        (bloom_hash key)
        (bloom_hash_delta (bloom_hash key))
        bits
        (add_keys probes bits (before ++ (key ∷ after)) filter)
unfolding add_keys
add_keys-AllMarked probes bits [] key after filter size some_bits =
    let hash = bloom_hash key in
    let delta = bloom_hash_delta hash in
    let marked = set_probes probes hash delta bits filter in
    AllMarked-mono probes hash delta bits marked (add_keys probes bits after marked)
      (λ position h. add_keys-keeps probes bits after marked position h)
      (set_probes-AllMarked probes hash delta bits filter size some_bits)
add_keys-AllMarked probes bits (first ∷ before) key after filter size some_bits =
    let hash = bloom_hash first in
    let delta = bloom_hash_delta hash in
    let same = length-set_probes probes hash delta bits filter in
    add_keys-AllMarked probes bits before key after (set_probes probes hash delta bits filter)
      (size ∙ ap (λ (n : ℕ). n * 8) (sym same)) some_bits

last_byte : (filter : List ℕ) (byte : ℕ) → get_or (filter ++ (byte ∷ [])) (length filter) 0 ≡ byte
last_byte [] byte = refl
last_byte (x ∷ filter) byte = last_byte filter byte

key_may_match_lem :
    (key filter : List ℕ) (probes : ℕ)
    → 0 < length filter
    → match_probes probes
        (bloom_hash key)
        (bloom_hash_delta (bloom_hash key))
        (length filter * 8)
        (filter ++ (probes ∷ []))
      ≡ true
    → key_may_match key (filter ++ (probes ∷ [])) ≡ true
unfolding key_may_match
key_may_match_lem key filter probes some_bytes h =
    let size : length (filter ++ (probes ∷ [])) - 1 ≡ length filter =
      omega (arith, length-append filter (probes ∷ [])) in
    let long : ltb (length (filter ++ (probes ∷ []))) 2 ≡ false =
      ground (arith, length-append filter (probes ∷ [])) in
    let stored = last_byte filter probes in rw (long, size, stored) (ground (arith, h))

policy-matches :
    (policy : BloomFilterPolicy) (before : List (List ℕ)) (key : List ℕ) (after : List (List ℕ))
    (output : List ℕ)
    → policy.probes < 256
    → key_may_match key
        (drop (length output) (create_filter policy (before ++ (key ∷ after)) output))
      ≡ true
unfolding create_filter filter_size
policy-matches policy before key after output small =
    let keys = before ++ (key ∷ after) in
    let bytes = (filter_bits policy (length keys) - 1) / 8 + 2 - 1 in
    let blank = replicate bytes zero in
    let filter = add_keys policy.probes (bytes * 8) keys blank in
    let blank_size = length-replicate bytes zero in
    let size : length filter ≡ bytes =
      length-add_keys policy.probes (bytes * 8) keys blank ∙ blank_size in
    let hash = bloom_hash key in
    let delta = bloom_hash_delta hash in
    let marked =
      add_keys-AllMarked policy.probes (bytes * 8) before key after blank (omega arith)
        (omega arith) in
    let stored =
      AllMarked-mono policy.probes hash delta (bytes * 8) filter (filter ++ (policy.probes ∷ []))
        (λ position h. append-keeps filter (policy.probes ∷ []) (position / 8) (position % 8) h)
        marked in
    let matched =
      match_probes-AllMarked policy.probes hash delta (bytes * 8) (filter ++ (policy.probes ∷ []))
        stored in
    let byte : policy.probes % 2 ^ 8 ≡ policy.probes = omega arith in
    ap (key_may_match key) (
      drop-append (length output) output (filter ++ (policy.probes % 2 ^ 8 ∷ [])) refl
      ∙ ap (λ (n : ℕ). filter ++ (n ∷ [])) byte)
    ∙ key_may_match_lem key filter policy.probes (omega arith) (
        ap
          (λ (n : ℕ).
            match_probes policy.probes hash delta (n * 8) (filter ++ (policy.probes ∷ [])))
          size
        ∙ matched)

-- A filter that `CreateFilter` appends for a list of keys, with any number of bits for each key and
-- behind any output, matches every key of the list: it never rules out a key that is there.
pub key_may_match-create_filter :
    (bits_per_key : ℕ) (before : List (List ℕ)) (key : List ℕ) (after : List (List ℕ))
    (output : List ℕ)
    → key_may_match key (
        drop
          (length output)
          (create_filter (new_policy bits_per_key) (before ++ (key ∷ after)) output))
      ≡ true
unfolding new_policy
key_may_match-create_filter bits_per_key before key after output =
    policy-matches (new_policy bits_per_key) before key after output (omega arith)
