-- ===== src/Tests/Hashes.antt =====
-- src/base/hash.cc against vectors of tests/unit/base/hash_test.cc: lengths 12, 11 and 3.
use modern_level_db.Prelude.{◌≡◌, refl, List, [], ◌∷◌, take, ℕ}
use modern_level_db.Base.Coding.{decode_fixed_trusted}
use modern_level_db.Base.Hash.{
  hash32, mix_hash_word, mix_hash_words, decode_hash_tail, mix_hash_tail, fold_hash_tail,
  finish_hash,
}

abbrev binary_input : List ℕ
binary_input =
    0xff ∷ 0x00 ∷ 0x80 ∷ 0x7f ∷ 0x01 ∷ 0xfe ∷ 0x02 ∷ 0x81 ∷ 0x03 ∷ 0xfd ∷ 0x04 ∷ 0x82 ∷ []

two_words_and_one : hash32 binary_input 0xbc9f1d34 ≡ 0x361fc11b
unfolding hash32 mix_hash_word mix_hash_words finish_hash fold_hash_tail decode_fixed_trusted
two_words_and_one = refl

two_words_and_tail : hash32 (take 11 binary_input) 0x12345678 ≡ 0x33673668
unfolding hash32 mix_hash_word mix_hash_words finish_hash fold_hash_tail decode_fixed_trusted
    decode_hash_tail mix_hash_tail
two_words_and_tail = refl

only_tail : hash32 (take 3 binary_input) 0 ≡ 0x399e4691
unfolding hash32 mix_hash_word mix_hash_words finish_hash fold_hash_tail decode_fixed_trusted
    decode_hash_tail mix_hash_tail
only_tail = refl
