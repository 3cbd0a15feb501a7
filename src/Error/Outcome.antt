-- ===== src/Error/Outcome.antt =====
-- `Result`, `Status` and the macros that pass a failure on to the caller.
use gamegine.Error.Value.{Error}

-- `std::expected<A, Error>`
pub data Result {ℓ} (A : Type ℓ) : Type ℓ where
  value : A → Result A
  unexpected : Error → Result A

-- `GAMEGINE_ERROR_TRY_ASSIGN`: what follows it runs on the value, and a failure is returned.
infixl 5 ◌>>=◌ ◌>>◌
abbrev pub ◌>>=◌ {ℓ κ} : {A : Type ℓ} {B : Type κ} → Result A → (A → Result B) → Result B
Result.value a >>= rest = rest a
Result.unexpected e >>= rest = Result.unexpected e

-- `GAMEGINE_ERROR_TRY`: any value is discarded.
abbrev pub ◌>>◌ {ℓ κ} : {A : Type ℓ} {B : Type κ} → Result A → Result B → Result B
m >> rest = m >>= λ _. rest

abbrev pub Status : Type 0
Status = Result (Unit {0})
