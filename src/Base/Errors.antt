-- ===== src/Base/Errors.antt =====
-- Java methods that may throw: a result, with a constructor for each exception that matters.
use mathlib.Core.Option.{Option, none, some}

pub data Exception : Type 0 where
  null_pointer index_out_of_bounds number_format illegal_argument io_exception : Exception

pub data Result {ℓ} (A : Type ℓ) : Type ℓ where
  ok : A → Result A
  throw : Exception → Result A

infixl 5 ◌>>=◌ ◌>>◌
abbrev pub ◌>>=◌ {ℓ κ} : {A : Type ℓ} {B : Type κ} → Result A → (A → Result B) → Result B
ok a >>= f = f a
throw e >>= f = throw e

abbrev pub ◌>>◌ {ℓ κ} : {A : Type ℓ} {B : Type κ} → Result A → Result B → Result B
m >> k = m >>= λ _. k

-- A dereference of what may be null.
abbrev pub deref {ℓ} : {A : Type ℓ} → Option A → Result A
deref none = throw null_pointer
deref (some a) = ok a

-- A method that changes the object's state as far as it comes, and then throws or returns.
abbrev pub Effect {ℓ κ} : Type ℓ → Type κ → Type (ℓ ⊔ κ)
Effect S A = Result A × S

-- Go on with a value, or end with the exception, in the state reached.
abbrev pub proceed {ℓ κ ι} :
    {S : Type ℓ} {A : Type κ} {B : Type ι} → Result A → S → (A → Effect S B) → Effect S B
proceed (ok a) s f = f a
proceed (throw e) s f = (throw e, s)
