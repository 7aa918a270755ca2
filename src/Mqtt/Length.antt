-- ===== src/Mqtt/Length.antt =====
-- The remaining length of an MQTT packet: encodeMBI, and the loop of decodeMessage that reads it.
use distributed_storage_with.Base.{
  ℕ, zero, suc, ◌+◌, ◌*◌, ◌/◌, ◌%◌, ◌^◌, ◌<◌, ◌≡◌, ap, ◌∙◌, Bool-cases, inl, inr, List, [], ◌∷◌,
  ◌++◌, if◌then◌else◌, ltb, nat_eq, arith, false, true,
}

-- The loop of encodeMBI, with the number of bytes that it may still write: four at first.
encode_mbi_from : ℕ → ℕ → List ℕ
encode_mbi_from zero number = []
encode_mbi_from (suc left) number =
    let rest = encode_mbi_from left (number / 128) in
    if ltb 0 (number / 128) then (number % 128 + 128) ∷ rest else number % 128 ∷ []

unfoldable pub encode_mbi : ℕ → List ℕ
unfolding encode_mbi_from
encode_mbi number = encode_mbi_from 4 number

-- The loop reads a byte behind the end as `undefined`, which has no bits. The result is `remLength`
-- and the bytes from `pos` on.
read_mbi_from : ℕ → ℕ → List ℕ → ℕ × List ℕ
read_mbi_from multiplier rem_length [] = (rem_length, [])
read_mbi_from multiplier rem_length (digit ∷ input) =
    let sum = rem_length + digit % 128 * multiplier in
    let rest = read_mbi_from (multiplier * 128) sum input in
    if nat_eq (digit / 128 % 2) 0 then (sum, input) else rest

unfoldable pub read_mbi : List ℕ → ℕ × List ℕ
unfolding read_mbi_from
read_mbi input = read_mbi_from 1 0 input

-- The numbers that fit into so many bytes.
abbrev limit : ℕ → ℕ
limit zero = 1
limit (suc n) = 128 * limit n

last_byte : (n : ℕ) → ltb 0 (n / 128) ≡ false → n % 128 % 128 ≡ n
last_byte n h = ground arith

marked_value : (n : ℕ) → (n % 128 + 128) % 128 ≡ n % 128
marked_value n = omega arith

marked_bit : (n : ℕ) → nat_eq ((n % 128 + 128) / 128 % 2) 0 ≡ false
marked_bit n = ground arith

plain_bit : (n : ℕ) → nat_eq (n % 128 / 128 % 2) 0 ≡ true
plain_bit n = ground arith

regroup : (n m s : ℕ) → s + n % 128 * m + n / 128 * (m * 128) ≡ s + n * m
regroup n m s = ring (n % 128) (n / 128) m s ∙ ap (λ k. s + k * m) (omega arith)
  where
    ring : (r q m s : ℕ) → s + r * m + q * (m * 128) ≡ s + (128 * q + r) * m
    ring r q m s = omega arith

no_more : (n left : ℕ) → n < limit (suc left) → n / 128 < limit left
no_more n left h = omega arith

bytes_left : (n left : ℕ) → n < limit (suc left) → ltb 0 (n / 128) ≡ true → 0 < left
bytes_left n zero h more = absurd (ground (arith, h, more))
bytes_left n (suc left) h more = omega arith

read_mbi_from-encode_mbi_from :
    (left n m s : ℕ) (rest : List ℕ)
    → n < limit left
    → 0 < left
    → read_mbi_from m s (encode_mbi_from left n ++ rest) ≡ (s + n * m, rest)
unfolding read_mbi_from encode_mbi_from
read_mbi_from-encode_mbi_from zero n m s rest h positive = absurd (omega arith)
read_mbi_from-encode_mbi_from (suc left) n m s rest h positive =
    elim (Bool-cases (ltb 0 (n / 128))) [
      | inl more ↦ rw more (
          rw (marked_bit n) (
            rw (marked_value n) (
              read_mbi_from-encode_mbi_from left (n / 128) (m * 128) (s + n % 128 * m) rest
                (no_more n left h) (bytes_left n left h more)
              ∙ ap (λ k. (k, rest)) (regroup n m s))))
      | inr done ↦ rw done (rw (plain_bit n) (ap (λ k. (s + k * m, rest)) (last_byte n done)))
    ]

-- A length below 2 ^ 28 is read back as it was written, and what follows it is left.
pub read_mbi-encode_mbi :
    (number : ℕ) (rest : List ℕ)
    → number < 2 ^ 28
    → read_mbi (encode_mbi number ++ rest) ≡ (number, rest)
unfolding read_mbi encode_mbi
read_mbi-encode_mbi number rest h =
    read_mbi_from-encode_mbi_from 4 number 1 0 rest (omega arith) (omega arith)
    ∙ ap (λ k. (k, rest)) (omega arith)
