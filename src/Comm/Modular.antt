-- ===== src/Comm/Modular.antt =====
-- CommModule.fastModExp: the power of a number modulo another, by squaring.
use native.Mathlib.Nat.{pow-zero, pow-suc, mod-eq_of_lt, add-zero, add-suc, mul-zero, mul-suc}
use native.Mathlib.Nat.{div-add-mod, mul-add-mod_self_left}
use distributed_storage_with.Base.{
  ℕ, zero, suc, ◌+◌, ◌-◌, ◌*◌, ◌/◌, ◌%◌, ◌^◌, ◌<◌, ◌≡◌, ◌≢◌, sym, ap, ◌∙◌, false, Option, none,
  some, if◌then◌else◌, leb, nat_eq, arith, Bool-cases, inl, inr,
}

-- The `while` loop and the return after it; `none` means that the fuel ran out.
mod_exp_loop : ℕ → ℕ → ℕ → ℕ → ℕ → Option ℕ
mod_exp_loop zero g y x p = none
mod_exp_loop (suc fuel) g y x p =
    let even = mod_exp_loop fuel (g * g % p) y (x / 2) p in
    let odd = mod_exp_loop fuel (g * g % p) (g * y % p) ((x - 1) / 2) p in
    if leb x 1 then some (g * y % p) else if nat_eq (x % 2) 0 then even else odd

-- The exponent is a secret, so it is not negative.
unfoldable pub fast_mod_exp : ℕ → ℕ → ℕ → Option ℕ
unfolding mod_exp_loop
fast_mod_exp g x p = if nat_eq x 0 then some 1 else mod_exp_loop (suc x) g 1 x p

-- A factor may be reduced before a product is.
mul_mod : (a b p : ℕ) → a % p * b % p ≡ a * b % p
mul_mod a b p =
    let split : a * b ≡ p * (a / p * b) + a % p * b =
      ap (λ t. t * b) (sym (div-add-mod a p)) ∙ regroup p (a / p) (a % p) b in
    sym (ap (λ t. t % p) split ∙ mul-add-mod_self_left p (a / p * b) (a % p * b))
  where
    regroup : (p q r b : ℕ) → (p * q + r) * b ≡ p * (q * b) + r * b
    regroup p q r b = omega arith

mul_mod_right : (a b p : ℕ) → a * (b % p) % p ≡ a * b % p
mul_mod_right a b p = ap (λ t. t % p) (comm a (b % p)) ∙ mul_mod b a p ∙ ap (λ t. t % p) (comm b a)
  where
    comm : (a b : ℕ) → a * b ≡ b * a
    comm a b = omega arith

-- So may the base of a power.
pow_mod : (a k y p : ℕ) → (a % p) ^ k * y % p ≡ a ^ k * y % p
pow_mod a zero y p = rw (pow-zero, pow-zero)
pow_mod a (suc k) y p =
    rw (pow-suc, pow-suc)
      (ap (λ t. t % p) (first ((a % p) ^ k) (a % p) y)
        ∙ pow_mod a k (a % p * y) p
        ∙ ap (λ t. t % p) (second (a ^ k) (a % p) y)
        ∙ mul_mod a (a ^ k * y) p
        ∙ ap (λ t. t % p) (third (a ^ k) a y))
  where
    first : (u r y : ℕ) → u * r * y ≡ u * (r * y)
    first u r y = omega arith

    second : (u r y : ℕ) → u * (r * y) ≡ r * (u * y)
    second u r y = omega arith

    third : (u r y : ℕ) → r * (u * y) ≡ u * r * y
    third u r y = omega arith

pow_add : (g a b : ℕ) → g ^ (a + b) ≡ g ^ a * g ^ b
pow_add g a zero = rw (add-zero, pow-zero) (omega arith)
pow_add g a (suc b) =
    rw (add-suc, pow-suc, pow-suc) (ap (λ t. t * g) (pow_add g a b) ∙ regroup (g ^ a) (g ^ b) g)
  where
    regroup : (u v g : ℕ) → u * v * g ≡ u * (v * g)
    regroup u v g = omega arith

pow_square : (g k : ℕ) → (g * g) ^ k ≡ g ^ (k + k)
pow_square g zero = rw (pow-zero, pow-zero)
pow_square g (suc k) =
    rw (pow-suc, pow_square g k, pow_add g k k, pow_add g (suc k) (suc k), pow-suc)
      (regroup (g ^ k) g)
  where
    regroup : (u g : ℕ) → u * u * (g * g) ≡ u * g * (u * g)
    regroup u g = omega arith

pow_pow : (g a b : ℕ) → (g ^ a) ^ b ≡ g ^ (a * b)
pow_pow g a zero = rw (pow-zero, mul-zero, pow-zero)
pow_pow g a (suc b) = rw (pow-suc, mul-suc, pow_pow g a b, pow_add g (a * b) a)

even_half : (x : ℕ) → x % 2 ≡ 0 → x / 2 + x / 2 ≡ x
even_half x h = omega arith

odd_half : (x : ℕ) → x % 2 ≢ 0 → suc ((x - 1) / 2 + (x - 1) / 2) ≡ x
odd_half x h = omega arith

-- One round of the loop keeps the power.
even_round : (g y x p : ℕ) → x % 2 ≡ 0 → (g * g % p) ^ (x / 2) * y % p ≡ g ^ x * y % p
even_round g y x p h =
    pow_mod (g * g) (x / 2) y p
    ∙ ap (λ t. t * y % p) (pow_square g (x / 2) ∙ ap (λ t. g ^ t) (even_half x h))

odd_round :
    (g y x p : ℕ) → x % 2 ≢ 0 → (g * g % p) ^ ((x - 1) / 2) * (g * y % p) % p ≡ g ^ x * y % p
odd_round g y x p h =
    let k = (x - 1) / 2 in
    pow_mod (g * g) k (g * y % p) p
    ∙ mul_mod_right ((g * g) ^ k) (g * y) p
    ∙ ap (λ t. t * (g * y) % p) (pow_square g k)
    ∙ ap (λ t. t % p) (regroup (g ^ (k + k)) g y)
    ∙ ap (λ t. t * y % p) (sym (pow-suc g (k + k)))
    ∙ ap (λ t. g ^ t * y % p) (odd_half x h)
  where
    regroup : (u g y : ℕ) → u * (g * y) ≡ u * g * y
    regroup u g y = omega arith

mul_one : (u : ℕ) → u * 1 ≡ u
mul_one u = omega arith

pow_one : (g : ℕ) → g ^ 1 ≡ g
pow_one g = pow-suc g 0 ∙ rw pow-zero (omega arith)

last_round : (g y x p : ℕ) → x ≡ 1 → g * y % p ≡ g ^ x * y % p
last_round g y x p h = rw (h, pow_one)

loop_lem : (fuel g y x p : ℕ) → 0 < x → x < fuel → mod_exp_loop fuel g y x p ≡ some (g ^ x * y % p)
unfolding mod_exp_loop
loop_lem zero g y x p pos h = absurd (omega arith)
loop_lem (suc fuel) g y x p pos h = elim (Bool-cases (leb x 1)) [
  | inl last ↦ rw last (ap some (last_round g y x p (ground arith)))
  | inr more ↦ rw more (elim (Bool-cases (nat_eq (x % 2) 0)) [
    | inl even ↦ rw even (
        loop_lem fuel (g * g % p) y (x / 2) p (ground arith) (ground arith)
        ∙ ap some (even_round g y x p (ground arith)))
    | inr odd ↦ rw odd (
        loop_lem fuel (g * g % p) (g * y % p) ((x - 1) / 2) p (ground arith) (ground arith)
        ∙ ap some (odd_round g y x p (ground arith)))
  ])
]

-- For every base and exponent, and every modulus above 1, the loop ends and the result is the power
-- modulo the modulus.
pub fast_mod_exp_lem : (g x p : ℕ) → 1 < p → fast_mod_exp g x p ≡ some (g ^ x % p)
unfolding fast_mod_exp
fast_mod_exp_lem g zero p h = ap some (sym (rw pow-zero (mod-eq_of_lt h)))
fast_mod_exp_lem g (suc x) p h =
    let positive : nat_eq (suc x) 0 ≡ false = ground arith in
    rw positive (
      loop_lem (suc (suc x)) g 1 (suc x) p (omega arith) (omega arith)
      ∙ ap some (ap (λ t. t % p) (mul_one (g ^ suc x))))

-- Two parties that exchange powers of one base come to one number, whatever their exponents.
pub fast_mod_exp_comm :
    (g x y p : ℕ) → 1 < p → fast_mod_exp (g ^ x % p) y p ≡ fast_mod_exp (g ^ y % p) x p
fast_mod_exp_comm g x y p h =
    fast_mod_exp_lem (g ^ x % p) y p h
    ∙ ap some (powers g x y p ∙ ap (λ t. g ^ t % p) (comm x y) ∙ sym (powers g y x p))
    ∙ sym (fast_mod_exp_lem (g ^ y % p) x p h)
  where
    comm : (x y : ℕ) → x * y ≡ y * x
    comm x y = omega arith

    powers : (g x y p : ℕ) → (g ^ x % p) ^ y % p ≡ g ^ (x * y) % p
    powers g x y p =
        ap (λ t. t % p) (sym (mul_one ((g ^ x % p) ^ y)))
        ∙ pow_mod (g ^ x) y 1 p
        ∙ ap (λ t. t % p) (mul_one ((g ^ x) ^ y) ∙ pow_pow g x y)
