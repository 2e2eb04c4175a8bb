-- ===== src/Prelude/Bits.antt =====
-- The bit operations of the codecs as arithmetic: an or of separate bits is a sum, a mask of low bits
-- is a remainder.
use Prim.Native.Nat.{ℕ, zero, suc, ◌+◌, ◌*◌, ◌/◌, ◌%◌, ◌^◌, ◌≤◌, ◌<◌, min, max}
use Prim.Native.Nat.{bit_and, bit_or, digits, bitwise, bit_or-bitwise, bit_and-bitwise}
use mathlib.Core.Path.{◌≡◌, refl, sym, ap, ◌∙◌}
use native.Mathlib.Omega.{arith}

module _ (unit : ℕ → ℕ) (op : ℕ → ℕ → ℕ) where
  no_digits : (fuel b : ℕ) → digits unit op fuel 0 b ≡ unit b
  no_digits zero b = refl
  no_digits (suc fuel) b = refl

  same_digits :
      (a b fuel other : ℕ)
      → a ≤ fuel
      → a ≤ other
      → digits unit op fuel a b ≡ digits unit op other a b
  same_digits zero b fuel other h k = no_digits fuel b ∙ sym (no_digits other b)
  same_digits (suc a) b zero other h k = absurd (omega arith)
  same_digits (suc a) b (suc fuel) zero h k = absurd (omega arith)
  same_digits (suc a) b (suc fuel) (suc other) h k =
      ap (λ (t : ℕ). t * 2 + op (suc a % 2) (b % 2))
        (same_digits (suc a / 2) (b / 2) fuel other (omega arith) (omega arith))

  halves :
      (a b : ℕ)
      → 0 < a
      → bitwise unit op a b ≡ bitwise unit op (a / 2) (b / 2) * 2 + op (a % 2) (b % 2)
  halves zero b h = absurd (omega arith)
  halves (suc a) b h =
      ap (λ (t : ℕ). t * 2 + op (suc a % 2) (b % 2))
        (same_digits (suc a / 2) (b / 2) a (suc a / 2) (omega arith) (omega arith))

bit_or_halves : (a b : ℕ) → bit_or a b ≡ bit_or (a / 2) (b / 2) * 2 + max (a % 2) (b % 2)
bit_or_halves zero b = rw (bit_or-bitwise 0 b, bit_or-bitwise 0 (b / 2)) (omega arith)
bit_or_halves (suc a) b =
    rw (bit_or-bitwise (suc a) b, bit_or-bitwise (suc a / 2) (b / 2))
      (halves _ max (suc a) b (omega arith))

bit_and_halves : (a b : ℕ) → bit_and a b ≡ bit_and (a / 2) (b / 2) * 2 + min (a % 2) (b % 2)
bit_and_halves zero b = rw (bit_and-bitwise 0 b, bit_and-bitwise 0 (b / 2)) (omega arith)
bit_and_halves (suc a) b =
    rw (bit_and-bitwise (suc a) b, bit_and-bitwise (suc a / 2) (b / 2))
      (halves _ min (suc a) b (omega arith))

pub bit_or_nothing : (b : ℕ) → bit_or 0 b ≡ b
bit_or_nothing b = bit_or-bitwise 0 b

bit_or_on_top : (bound a : ℕ) → a ≤ bound → bit_or a 0 ≡ a
bit_or_on_top zero a h = let none : a ≡ 0 = omega arith in rw none (bit_or_nothing 0)
bit_or_on_top (suc bound) a h =
    omega (arith, bit_or_halves a 0, bit_or_on_top bound (a / 2) (omega arith))

bit_and_none : (bound a : ℕ) → a ≤ bound → bit_and a 0 ≡ 0
bit_and_none zero a h = let none : a ≡ 0 = omega arith in rw none (bit_and-bitwise 0 0)
bit_and_none (suc bound) a h =
    omega (arith, bit_and_halves a 0, bit_and_none bound (a / 2) (omega arith))

-- A number shifted by one place more.
shifted : (s b : ℕ) → b * 2 ^ suc s ≡ b * 2 ^ s * 2
shifted s b = let e : 2 ^ suc s ≡ 2 * 2 ^ s = omega arith in omega (arith, ap (λ (t : ℕ). b * t) e)

half : (n : ℕ) → n * 2 / 2 ≡ n
half n = omega arith

-- Or with bits that all stand above those of the other number is a sum.
pub bit_or_above : (s a b : ℕ) → a < 2 ^ s → bit_or a (b * 2 ^ s) ≡ a + b * 2 ^ s
bit_or_above zero a b h =
    let none : a ≡ 0 = omega arith in rw none (omega (arith, bit_or_nothing (b * 2 ^ 0)))
bit_or_above (suc s) a b h =
    let low = bit_or_above s (a / 2) b (omega arith) in
    let e = bit_or_halves a (b * 2 ^ s * 2) in rw shifted (omega (arith, rw half at e, low))

pub bit_or_below : (s a b : ℕ) → a < 2 ^ s → bit_or (b * 2 ^ s) a ≡ b * 2 ^ s + a
bit_or_below zero a b h =
    let none : a ≡ 0 = omega arith in
    rw none (omega (arith, bit_or_on_top (b * 2 ^ 0) (b * 2 ^ 0) (omega arith)))
bit_or_below (suc s) a b h =
    let low = bit_or_below s (a / 2) b (omega arith) in
    let e = bit_or_halves (b * 2 ^ s * 2) a in rw shifted (omega (arith, rw half at e, low))

-- An or has no more bits than its two numbers.
pub bit_or-lt : (n a b : ℕ) → a < 2 ^ n → b < 2 ^ n → bit_or a b < 2 ^ n
bit_or-lt zero a b h k = let left : a ≡ 0 = omega arith in rw left (omega (arith, bit_or_nothing b))
bit_or-lt (suc n) a b h k =
    omega (arith, bit_or_halves a b, bit_or-lt n (a / 2) (b / 2) (omega arith) (omega arith))

lowest : (a : ℕ) → bit_and a 1 ≡ a % 2
lowest a = omega (arith, bit_and_halves a 1, bit_and_none (a / 2) (a / 2) (omega arith))

low_three : (a : ℕ) → bit_and a 0x07 ≡ a % 8
low_three a = omega (arith, bit_and_halves a 7, bit_and_halves (a / 2) 3, lowest (a / 2 / 2))

low_six : (a : ℕ) → bit_and a 0x3f ≡ a % 64
low_six a = omega (
  arith,
  bit_and_halves a 63,
  bit_and_halves (a / 2) 31,
  bit_and_halves (a / 2 / 2) 15,
  low_three (a / 2 / 2 / 2),
)

-- The masks of a varint's payload and of a byte.
pub mask_seven : (a : ℕ) → bit_and a 0x7f ≡ a % 128
mask_seven a = omega (arith, bit_and_halves a 0x7f, low_six (a / 2))

pub mask_eight : (a : ℕ) → bit_and a 0xff ≡ a % 256
mask_eight a = omega (arith, bit_and_halves a 0xff, mask_seven (a / 2))

abbrev eighth : ℕ → ℕ
eighth a = a / 2 / 2 / 2

third_bit : (a m : ℕ) → bit_and a (m * 8) ≡ bit_and (eighth a) m * 8
third_bit a m =
    let e = bit_and_halves a (m * 8) in
    let f = bit_and_halves (a / 2) (m * 8 / 2) in
    let g = bit_and_halves (a / 2 / 2) (m * 8 / 2 / 2) in
    let m' : m * 8 / 2 / 2 / 2 ≡ m = omega arith in omega (arith, e, f, rw m' at g)

-- The continuation bit of a byte, read and set.
pub top_bit : (b : ℕ) → b < 256 → bit_and b 0x80 ≡ b / 128 * 128
top_bit b h =
    let high : eighth (eighth b) / 2 ≡ b / 128 = omega arith in
    let last = bit_and_halves (eighth (eighth b)) 2 in
    omega
      (arith, third_bit b 16, third_bit (eighth b) 2, last, lowest (eighth (eighth b) / 2), high)

pub set_top_bit : (b : ℕ) → b < 128 → bit_or b 0x80 ≡ b + 128
set_top_bit b h = bit_or_above 7 b 1 h

-- A mask with one bit, in an or.
one_bit : (j b : ℕ) → bit_and b (2 ^ suc j) ≡ bit_and (b / 2) (2 ^ j) * 2
one_bit j b =
    let half : 2 ^ suc j / 2 ≡ 2 ^ j = omega arith in
    omega (arith, bit_and_halves b (2 ^ suc j), ap (bit_and (b / 2)) half)

lowest_bit : (b : ℕ) → bit_and b 1 ≡ b % 2
lowest_bit b = omega (arith, bit_and_halves b 1, bit_and_none (b / 2) (b / 2) (omega arith))

or_halved : (a b : ℕ) → bit_or a b / 2 ≡ bit_or (a / 2) (b / 2)
or_halved a b = omega (arith, bit_or_halves a b)

or_parity : (a b : ℕ) → bit_or a b % 2 ≡ max (a % 2) (b % 2)
or_parity a b = omega (arith, bit_or_halves a b)

pub bit_or-keeps : (j b m : ℕ) → 0 < bit_and b (2 ^ j) → 0 < bit_and (bit_or b m) (2 ^ j)
bit_or-keeps zero b m h = omega (arith, lowest_bit b, lowest_bit (bit_or b m), or_parity b m)
bit_or-keeps (suc j) b m h =
    let rest = bit_or-keeps j (b / 2) (m / 2) (omega (arith, one_bit j b)) in
    omega (arith, one_bit j (bit_or b m), ap (λ (t : ℕ). bit_and t (2 ^ j)) (or_halved b m))

pub bit_or-sets : (j b : ℕ) → 0 < bit_and (bit_or b (2 ^ j)) (2 ^ j)
bit_or-sets zero b = omega (arith, lowest_bit (bit_or b 1), or_parity b 1)
bit_or-sets (suc j) b =
    let half : 2 ^ suc j / 2 ≡ 2 ^ j = omega arith in
    let rest = bit_or-sets j (b / 2) in
    omega (
      arith,
      one_bit j (bit_or b (2 ^ suc j)),
      ap (λ (t : ℕ). bit_and t (2 ^ j)) (or_halved b (2 ^ suc j) ∙ ap (bit_or (b / 2)) half),
    )

pub bit_and_nothing : (b : ℕ) → bit_and 0 b ≡ 0
bit_and_nothing b = bit_and-bitwise 0 b

-- An or is at least both numbers.
bit_or_grows : (bound a b : ℕ) → a ≤ bound → (a ≤ bit_or a b) × (b ≤ bit_or a b)
bit_or_grows zero a b h =
    let none : a ≡ 0 = omega arith in
    let same = ap (λ (t : ℕ). bit_or t b) none ∙ bit_or_nothing b in (omega arith, omega arith)
bit_or_grows (suc bound) a b h =
    let (p, q) = bit_or_grows bound (a / 2) (b / 2) (omega arith) in
    (omega (arith, bit_or_halves a b), omega (arith, bit_or_halves a b))

pub bit_or_bounds : (a b : ℕ) → (a ≤ bit_or a b) × (b ≤ bit_or a b)
bit_or_bounds a b = bit_or_grows a a b (omega arith)
