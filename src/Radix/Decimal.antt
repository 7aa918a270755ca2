-- ===== src/Radix/Decimal.antt =====
-- Numbers that are printed in decimal, and what their digits come to.
use distributed_storage_with.Base.{
  ℕ, zero, suc, ◌+◌, ◌-◌, ◌*◌, ◌/◌, ◌%◌, ◌≤◌, ◌<◌, ◌≡◌, ap, ◌∙◌, [], ◌∷◌, arith, ltb, Bool-cases,
  inl, inr, Text, All,
}
use distributed_storage_with.Radix.{natural_to_string, digits, digit_char}

-- The characters of a printed decimal number.
abbrev pub IsDigit : ℕ → Type 0
IsDigit c = (48 ≤ c) × (c ≤ 57)

digit_char-IsDigit : (d : ℕ) → d < 10 → IsDigit (digit_char d)
unfolding digit_char
digit_char-IsDigit d h = ground arith

digits-All_IsDigit :
    (fuel n : ℕ) (s : Text) → n < fuel → All IsDigit s → All IsDigit (digits fuel 10 n s)
unfolding digits
digits-All_IsDigit zero n s lt h = absurd (omega arith)
digits-All_IsDigit (suc fuel) n s lt h = elim (Bool-cases (ltb n 10)) [
  | inl small ↦ rw small (digit_char-IsDigit n (ground arith), h)
  | inr large ↦ rw large (
      digits-All_IsDigit fuel (n / 10) (digit_char (n % 10) ∷ s) (ground arith)
        (digit_char-IsDigit (n % 10) (omega arith), h))
]

pub natural_to_string-All_IsDigit : (n : ℕ) → All IsDigit (natural_to_string 10 n)
unfolding natural_to_string
natural_to_string-All_IsDigit n = digits-All_IsDigit (suc n) n [] (omega arith) tt

-- The value of decimal digits behind a number that was read.
unfoldable pub decimal_value : ℕ → Text → ℕ
decimal_value n [] = n
decimal_value n (c ∷ s) = decimal_value (n * 10 + (c - 48)) s

decimal_once :
    (n d : ℕ) (s : Text)
    → d < 10
    → decimal_value n (digit_char d ∷ s) ≡ decimal_value (n * 10 + d) s
unfolding decimal_value digit_char
decimal_once n d s h = ap (λ k. decimal_value k s) (ground arith)

decimal_value-digits :
    (fuel n : ℕ) (s : Text) → n < fuel → decimal_value 0 (digits fuel 10 n s) ≡ decimal_value n s
unfolding digits
decimal_value-digits zero n s h = absurd (omega arith)
decimal_value-digits (suc fuel) n s h = elim (Bool-cases (ltb n 10)) [
  | inl small ↦
      rw small (decimal_once 0 n s (ground arith) ∙ ap (λ k. decimal_value k s) (omega arith))
  | inr large ↦ rw large (
      decimal_value-digits fuel (n / 10) (digit_char (n % 10) ∷ s) (ground arith)
      ∙ decimal_once (n / 10) (n % 10) s (omega arith)
      ∙ ap (λ k. decimal_value k s) (omega arith))
]

-- A printed number has its value.
pub decimal_value-natural_to_string : (n : ℕ) → decimal_value 0 (natural_to_string 10 n) ≡ n
unfolding natural_to_string decimal_value
decimal_value-natural_to_string n = decimal_value-digits (suc n) n [] (omega arith)
