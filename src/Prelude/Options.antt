-- ===== src/Prelude/Options.antt =====
-- Chains of optional values for `do` blocks.
use mathlib.Core.Path.{◌≡◌, refl}
use mathlib.Core.Option.{Option, none, some}

infixl 5 ◌>>=◌
abbrev pub ◌>>=◌ {ℓ κ} : {A : Type ℓ} {B : Type κ} → Option A → (A → Option B) → Option B
none >>= next = none
some value >>= next = next value

-- The value behind a chain that has one.
pub >>=-eq-some {ℓ κ} :
    {A : Type ℓ} {B : Type κ} (first : Option A) (next : A → Option B) {last : B}
    → (first >>= next) ≡ some last
    → (middle : A) × (first ≡ some middle) × (next middle ≡ some last)
>>=-eq-some none next h = cc
>>=-eq-some (some value) next h = (value, refl, h)
