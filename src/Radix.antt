-- ===== src/Radix.antt =====
-- `java.math.BigInteger` as the ring code uses it: `toString(16)`, `String.valueOf(int)` and
-- `new BigInteger("0" + s, 16)`.
pub mod Decimal
use native.Mathlib.Nat.{le_trans, mod-lt}
use distributed_storage_with.Base.{
  nat_eq, illegal_argument, ℕ, zero, suc, ◌+◌, ◌-◌, ◌*◌, ◌/◌, ◌%◌, ◌≤◌, ◌<◌, ◌≡◌, refl, ◌∙◌, ap,
  ◌&&◌, [], ◌∷◌, ◌≢◌, arith, ltb, leb, if◌then◌else◌, Bool-cases, inl, inr, ℤ, pos, negsuc, Text,
  number_format, Result, ok, throw, ◌>>=◌, All,
}

-- Character.forDigit
unfoldable pub digit_char : ℕ → ℕ
digit_char d = if ltb d 10 then 48 + d else 87 + d

-- Character.digit(c, 16) on ASCII
digit_value : ℕ → Result ℕ
digit_value c =
    if leb 48 c && leb c 57
    then ok (c - 48)
    else if leb 97 c && leb c 102
    then ok (c - 87)
    else if leb 65 c && leb c 70
    then ok (c - 55)
    else throw number_format

-- The digits of a number in front of those that are there, the lowest first.
digits : ℕ → ℕ → ℕ → Text → Text
digits zero base n acc = acc
digits (suc fuel) base n acc =
    let rest = digits fuel base (n / base) (digit_char (n % base) ∷ acc) in
    if ltb n base then digit_char n ∷ acc else rest

unfoldable pub natural_to_string : ℕ → ℕ → Text
unfolding digits digit_char
natural_to_string base n = digits (suc n) base n []

-- toString(16)
unfoldable pub to_string16 : ℤ → Text
unfolding natural_to_string
to_string16 (pos n) = natural_to_string 16 n
to_string16 (negsuc n) = b'-' ∷ natural_to_string 16 (suc n)

parse_digits : ℕ → Text → Result ℕ
parse_digits acc [] = ok acc
parse_digits acc (c ∷ s) = digit_value c >>= λ d. parse_digits (acc * 16 + d) s

-- new BigInteger("0" + s, 16). Behind the zero a sign is an illegal embedded sign character, and
-- no text is empty, so only the digits count.
unfoldable pub parse16 : Text → Result ℕ
unfolding parse_digits digit_value
parse16 s = parse_digits 0 (b'0' ∷ s)

parse_decimal : ℕ → Text → Result ℕ
parse_decimal acc [] = ok acc
parse_decimal acc (c ∷ s) =
    let rest = parse_decimal (acc * 10 + (c - 48)) s in
    if leb 48 c && leb c 57 then rest else throw number_format

int_range : ℕ → Result ℕ → Result ℕ
int_range limit (ok n) = if leb n limit then ok n else throw number_format
int_range limit (throw e) = throw e

negative_port : Result ℕ → Result ℕ
negative_port (ok zero) = ok 0
negative_port (ok (suc n)) = throw illegal_argument
negative_port (throw e) = throw e

unsigned : ℕ → Text → Result ℕ
unfolding parse_decimal int_range
unsigned limit [] = throw number_format
unsigned limit (c ∷ s) = int_range limit (parse_decimal 0 (c ∷ s))

-- Integer.parseInt, for a number that is then the port of a socket: the socket refuses a negative
-- port.
unfoldable pub parse_port : Text → Result ℕ
unfolding unsigned negative_port
parse_port [] = throw number_format
parse_port (c ∷ s) =
    if nat_eq c b'+'
    then unsigned 2147483647 s
    else if nat_eq c b'-'
    then negative_port (unsigned 2147483648 s)
    else unsigned 2147483647 (c ∷ s)

count_of : Result ℕ → Result ℕ
count_of (ok n) = ok 0
count_of (throw e) = throw e

-- Integer.parseInt, for a number of rounds: a negative one is as good as none.
unfoldable pub parse_count : Text → Result ℕ
unfolding unsigned count_of
parse_count [] = throw number_format
parse_count (c ∷ s) =
    if nat_eq c b'+'
    then unsigned 2147483647 s
    else if nat_eq c b'-'
    then count_of (unsigned 2147483648 s)
    else unsigned 2147483647 (c ∷ s)

digit_value-digit_char : (d : ℕ) → d < 16 → digit_value (digit_char d) ≡ ok d
unfolding digit_value digit_char
digit_value-digit_char d h = ground arith

parse_digits_once :
    (acc d : ℕ) (s : Text)
    → d < 16
    → parse_digits acc (digit_char d ∷ s) ≡ parse_digits (acc * 16 + d) s
unfolding parse_digits
parse_digits_once acc d s h = rw (digit_value-digit_char d h)

parse_digits-digits :
    (fuel n : ℕ) (s : Text) → n < fuel → parse_digits 0 (digits fuel 16 n s) ≡ parse_digits n s
unfolding digits
parse_digits-digits zero n s h = absurd (omega arith)
parse_digits-digits (suc fuel) n s h = elim (Bool-cases (ltb n 16)) [
  | inl small ↦
      rw small (parse_digits_once 0 n s (ground arith) ∙ ap (λ k. parse_digits k s) (omega arith))
  | inr large ↦ rw large (
      parse_digits-digits fuel (n / 16) (digit_char (n % 16) ∷ s) (ground arith)
      ∙ parse_digits_once (n / 16) (n % 16) s (omega arith)
      ∙ ap (λ k. parse_digits k s) (omega arith))
]

-- What `toString(16)` prints of a natural number, the parser reads back.
pub parse16-to_string16 : (n : ℕ) → parse16 (to_string16 (pos n)) ≡ ok n
unfolding parse16 to_string16 natural_to_string
parse16-to_string16 n =
    parse_digits-digits (suc n) n [] (omega arith) ∙ (unfold parse_digits in refl)

-- A negative number is not read back: behind the leading zero its sign is refused.
pub parse16-negative : (n : ℕ) → parse16 (to_string16 (negsuc n)) ≡ throw number_format
unfolding parse16 to_string16
parse16-negative n = refl

-- The numbers of one and of two hexadecimal digits
pub natural_to_string16_one : (n : ℕ) → n < 16 → natural_to_string 16 n ≡ digit_char n ∷ []
unfolding natural_to_string
natural_to_string16_one n h = ground arith

pub natural_to_string16_two :
    (n : ℕ)
    → 16 ≤ n
    → n < 256
    → natural_to_string 16 n ≡ digit_char (n / 16) ∷ digit_char (n % 16) ∷ []
unfolding natural_to_string
natural_to_string16_two zero low high = absurd (omega arith)
natural_to_string16_two (suc n) low high = ground arith

digit_char-ne-colon : (d : ℕ) → d < 16 → digit_char d ≢ b':'
unfolding digit_char
digit_char-ne-colon d h = ground arith

-- No digit is the colon that separates the two ends of a range.
digits-All :
    (fuel n base : ℕ) (s : Text)
    → 0 < base
    → base ≤ 16
    → All (λ c. c ≢ b':') s
    → All (λ c. c ≢ b':') (digits fuel base n s)
unfolding digits
digits-All zero n base s b l h = h
digits-All (suc fuel) n base s b l h = elim (Bool-cases (ltb n base)) [
  | inl small ↦ rw small (digit_char-ne-colon n (ground arith), h)
  | inr large ↦
      let digit : n % base < 16 = le_trans (mod-lt n b) l in
      rw large (
        digits-All fuel (n / base) base (digit_char (n % base) ∷ s) b l
          (digit_char-ne-colon (n % base) digit, h))
]

pub natural_to_string-All :
    (base n : ℕ) → 0 < base → base ≤ 16 → All (λ c. c ≢ b':') (natural_to_string base n)
unfolding natural_to_string
natural_to_string-All base n b l = digits-All (suc n) n base [] b l tt

digits-cons :
    (fuel base n c : ℕ) (s : Text) → (d : ℕ) × (t : Text) × (digits fuel base n (c ∷ s) ≡ d ∷ t)
unfolding digits
digits-cons zero base n c s = (c, s, refl)
digits-cons (suc fuel) base n c s = elim (Bool-cases (ltb n base)) [
  | inl small ↦ (digit_char n, c ∷ s, rw small)
  | inr large ↦ rw large (digits-cons fuel base (n / base) (digit_char (n % base)) (c ∷ s))
]

-- A printed number is not the empty text.
pub natural_to_string-cons :
    (base n : ℕ) → (d : ℕ) × (t : Text) × (natural_to_string base n ≡ d ∷ t)
unfolding natural_to_string digits
natural_to_string-cons base n = elim (Bool-cases (ltb n base)) [
  | inl small ↦ (digit_char n, [], rw small)
  | inr large ↦ rw large (digits-cons n base (n / base) (digit_char (n % base)) [])
]
