-- ===== src/Common/Throws.antt =====
-- Results of code that may throw. A thrown value is named by its JavaScript class.
use mathlib.Core.Option.{Option, none, some}

pub data Exception : Type 0 where
  syntax_error range_error type_error reference_error plain_error : Exception

pub data Result {ℓ} (A : Type ℓ) : Type ℓ where
  ok : A → Result A
  throw : Exception → Result A

infixl 5 ◌>>=◌
abbrev pub ◌>>=◌ {ℓ κ} : {A : Type ℓ} {B : Type κ} → Result A → (A → Result B) → Result B
ok a >>= f = f a
throw e >>= f = throw e

-- A value that must be there, and what the code throws where it is not.
abbrev pub or_throw {ℓ} : {A : Type ℓ} → Exception → Option A → Result A
or_throw e none = throw e
or_throw e (some a) = ok a
