-- ===== src/Base/Error.antt =====
-- include/modern_leveldb/base/result.h: `Error` and `Result`. The source location of an error is
-- left out. `Result<T>` is `std::expected<T, Error>`, and a `Status` is a result with no value.
use modern_level_db.Prelude.{String, ◌≡◌, ◌⊎◌, inl, inr, refl}
use modern_level_db.Base.ErrorCode.{ErrorCode}

pub record Error : Type 0 where
  pub code : ErrorCode
  pub message : String

abbrev pub corruption : String → Error
corruption message = record { code = ErrorCode.corruption; message = message }

abbrev pub invalid_argument : String → Error
invalid_argument message = record { code = ErrorCode.invalid_argument; message = message }

abbrev pub io : String → Error
io message = record { code = ErrorCode.io; message = message }

pub data Result {ℓ} (A : Type ℓ) : Type ℓ where
  ok : A → Result A
  err : Error → Result A

abbrev pub Status : Type 0
Status = Result (Unit {0})

-- A step that runs on the value of the one before, or passes its error on.
infixl 5 ◌>>=◌ ◌>>◌
abbrev pub ◌>>=◌ {ℓ κ} : {A : Type ℓ} {B : Type κ} → Result A → (A → Result B) → Result B
err failure >>= next = err failure
ok value >>= next = next value

abbrev pub ◌>>◌ {κ} : {B : Type κ} → Status → Result B → Result B
first >> next = first >>= λ _. next

-- A chain that succeeded has a value in the middle.
pub >>=-eq-ok {ℓ κ} :
    {A : Type ℓ} {B : Type κ} (first : Result A) (next : A → Result B) {last : B}
    → (first >>= next) ≡ ok last
    → (middle : A) × (first ≡ ok middle) × (next middle ≡ ok last)
>>=-eq-ok (err failure) next h = cc
>>=-eq-ok (ok value) next h = (value, refl, h)

-- Either outcome of a result, with the equation.
pub Result-cases {ℓ} :
    {A : Type ℓ} (r : Result A) → ((a : A) × (r ≡ ok a)) ⊎ ((e : Error) × (r ≡ err e))
Result-cases (err failure) = inr (failure, refl)
Result-cases (ok value) = inl (value, refl)
