-- ===== src/Mqtt/Client/Identifiers.antt =====
-- The identifiers that `_requires_ack` gives: the loop ends, and what it gives is free.
use distributed_storage_with.Base.{
  ℕ, zero, suc, ◌+◌, ◌≤◌, ◌<◌, ◌≡◌, refl, true, false, [], ◌∷◌, some, inl, inr, if◌then◌else◌, leb,
  length, Dict, contains_key, Bool-cases, arith,
}
use distributed_storage_with.Mqtt.Wire.{Number, num, nan, null, WireMessage}
use distributed_storage_with.Mqtt.Client.{number_eq, number_Eq}
use distributed_storage_with.Mqtt.Client.Sending.{free_identifier}

abbrev at_least : ℕ → Number → ℕ
at_least id (num n) = if leb id n then 1 else 0
at_least id _ = 0

-- How many entries stand at identifiers that the loop may still come to
count_from : ℕ → Dict Number WireMessage → ℕ
count_from id [] = 0
count_from id ((key, _) ∷ messages) = at_least id key + count_from id messages

at_least_small : (id : ℕ) (key : Number) → at_least id key ≤ 1
at_least_small id (num n) = ground arith
at_least_small id nan = omega arith
at_least_small id null = omega arith

at_least_drops : (id : ℕ) (key : Number) → at_least (id + 1) key ≤ at_least id key
at_least_drops id (num n) = ground arith
at_least_drops id nan = omega arith
at_least_drops id null = omega arith

count_from_bounded :
    (id : ℕ) (messages : Dict Number WireMessage) → count_from id messages ≤ length messages
unfolding count_from
count_from_bounded id [] = omega arith
count_from_bounded id ((key, m) ∷ messages) =
    omega (arith, at_least_small id key, count_from_bounded id messages)

count_from_falls :
    (id : ℕ) (messages : Dict Number WireMessage)
    → count_from (id + 1) messages ≤ count_from id messages
unfolding count_from
count_from_falls id [] = omega arith
count_from_falls id ((key, m) ∷ messages) =
    omega (arith, at_least_drops id key, count_from_falls id messages)

at_least_taken :
    (id : ℕ) (key : Number)
    → number_eq key (num id) ≡ true
    → at_least (id + 1) key < at_least id key
at_least_taken id (num n) e = ground arith
at_least_taken id nan e = ground arith
at_least_taken id null e = ground arith

-- An identifier that is taken is an entry less to come.
count_from_taken :
    (id : ℕ) (messages : Dict Number WireMessage)
    → contains_key (num id) messages ≡ true
    → count_from (id + 1) messages < count_from id messages
unfolding count_from contains_key
count_from_taken id [] taken = ground arith
count_from_taken id ((key, m) ∷ messages) taken = elim (Bool-cases (number_eq key (num id))) [
  | inl same ↦ omega (arith, at_least_taken id key same, count_from_falls id messages)
  | inr other ↦
      omega (arith, at_least_drops id key, count_from_taken id messages (rw other at taken))
]

free_from :
    (fuel id : ℕ) (messages : Dict Number WireMessage)
    → count_from id messages < fuel
    → (k : ℕ) × (free_identifier fuel id messages ≡ some k)
      × (contains_key (num k) messages ≡ false)
      × (id ≤ k)
      × (k < id + fuel)
unfolding free_identifier
free_from zero id messages enough = absurd (omega arith)
free_from (suc fuel) id messages enough = elim (Bool-cases (contains_key (num id) messages)) [
  | inl taken ↦
      let (k, found, free, low, high) =
        free_from fuel (id + 1) messages (omega (arith, count_from_taken id messages taken)) in
      (k, rw taken found, free, omega arith, omega arith)
  | inr free ↦ (id, rw free refl, free, omega arith, omega arith)
]

-- With one round more than there are unacknowledged messages, the loop of _requires_ack ends, at an
-- identifier that no such message has, which is not below the one it began with and at most as far
-- above it as there are messages.
pub free_identifier_ends :
    (id : ℕ) (messages : Dict Number WireMessage)
    → (k : ℕ) × (free_identifier (length messages + 1) id messages ≡ some k)
      × (contains_key (num k) messages ≡ false)
      × (id ≤ k)
      × (k ≤ id + length messages)
free_identifier_ends id messages =
    let (k, found, free, low, high) =
      free_from (length messages + 1) id messages (omega (arith, count_from_bounded id messages)) in
    (k, found, free, low, omega arith)
