-- ===== src/Base/Crc32c.antt =====
-- src/base/crc32c.cc. The checksum itself is the crc32c package's `Extend`, a parameter here.
use modern_level_db.Prelude.{ℕ, ◌+◌, ◌-◌, ◌*◌, ◌/◌, ◌%◌, ◌^◌, ◌<◌, List, [], ◌∷◌, ◌≡◌, arith}

abbrev pub mask_delta : ℕ
mask_delta = 0xa282ead8

-- `std::rotr(crc, 15)` and `std::rotl(crc, 15)` on 32 bits.
abbrev pub rotate_right : ℕ → ℕ
rotate_right crc = crc / 2 ^ 15 + crc % 2 ^ 15 * 2 ^ 17

abbrev pub rotate_left : ℕ → ℕ
rotate_left crc = crc / 2 ^ 17 + crc % 2 ^ 17 * 2 ^ 15

unfoldable pub mask_crc32c : ℕ → ℕ
mask_crc32c crc = (rotate_right crc + mask_delta) % 2 ^ 32

unfoldable pub unmask_crc32c : ℕ → ℕ
unmask_crc32c masked_crc = rotate_left ((masked_crc + 2 ^ 32 - mask_delta) % 2 ^ 32)

-- Unmasking a masked 32-bit checksum gives the checksum.
pub unmask-mask_crc32c : (crc : ℕ) → crc < 2 ^ 32 → unmask_crc32c (mask_crc32c crc) ≡ crc
unfolding mask_crc32c unmask_crc32c
unmask-mask_crc32c crc h = omega arith

pub mask-unmask_crc32c :
    (masked : ℕ) → masked < 2 ^ 32 → mask_crc32c (unmask_crc32c masked) ≡ masked
unfolding mask_crc32c unmask_crc32c
mask-unmask_crc32c masked h = omega arith

pub mask_crc32c-lt : (crc : ℕ) → mask_crc32c crc < 2 ^ 32
unfolding mask_crc32c
mask_crc32c-lt crc = omega arith

-- `Extend(crc, data, size)` of the package, and what its type says.
pub record Crc : Type 0 where
  pub extend : ℕ → List ℕ → ℕ
  pub extend_lt : (crc : ℕ) (input : List ℕ) → extend crc input < 2 ^ 32

unfoldable pub extend_crc32c : Crc → ℕ → List ℕ → ℕ
extend_crc32c c crc [] = crc
extend_crc32c c crc (byte ∷ input) = c.extend crc (byte ∷ input)

unfoldable pub crc32c : Crc → List ℕ → ℕ
unfolding extend_crc32c
crc32c c input = extend_crc32c c 0 input

pub extend_crc32c-lt :
    (c : Crc) (crc : ℕ) (input : List ℕ) → crc < 2 ^ 32 → extend_crc32c c crc input < 2 ^ 32
unfolding extend_crc32c
extend_crc32c-lt c crc [] h = h
extend_crc32c-lt c crc (byte ∷ input) h = c.extend_lt crc (byte ∷ input)

pub crc32c-lt : (c : Crc) (input : List ℕ) → crc32c c input < 2 ^ 32
unfolding crc32c
crc32c-lt c input = extend_crc32c-lt c 0 input (omega arith)
