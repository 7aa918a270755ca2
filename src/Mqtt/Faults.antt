-- ===== src/Mqtt/Faults.antt =====
-- What the client throws: the entries of `ERROR`, and the errors of the language itself.
use distributed_storage_with.Base.{◌≡◌, refl}

pub data Fault : Type 0 where
  malformed_unicode malformed_utf invalid_state invalid_type invalid_argument : Fault
  unsupported_operation invalid_stored_data unsupported too_many_messages : Fault
  type_error invalid_qos unknown_property missing_callback invalid_parameter : Fault

pub data Result {ℓ} (A : Type ℓ) : Type ℓ where
  ok : A → Result A
  throw : Fault → Result A

infixl 5 ◌>>=◌ ◌>>◌
abbrev pub ◌>>=◌ {ℓ κ} : {A : Type ℓ} {B : Type κ} → Result A → (A → Result B) → Result B
ok a >>= f = f a
throw e >>= f = throw e

abbrev pub ◌>>◌ {ℓ κ} : {A : Type ℓ} {B : Type κ} → Result A → Result B → Result B
m >> k = m >>= λ _. k

-- What both outcomes have, the choice between them has.
pub result_keeps {ℓ κ ξ} :
    {A : Type ℓ} {B : Type κ} (P : B → Type ξ) (r : Result A) (x : Fault → B) (f : A → B)
    → ((e : Fault) → r ≡ throw e → P (x e))
    → ((a : A) → r ≡ ok a → P (f a))
    → P (elim r [ throw e ↦ x e | ok a ↦ f a ])
result_keeps P (throw e) x f thrown returned = thrown e refl
result_keeps P (ok a) x f thrown returned = returned a refl
