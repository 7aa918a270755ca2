-- ===== src/Mqtt/Utf8.antt =====
-- UTF8Length, stringToUTF8 and parseUTF8. A string is the list of its UTF-16 code units.
pub mod RoundTrip
use distributed_storage_with.Base.{
  ℕ, zero, suc, ◌+◌, ◌-◌, ◌*◌, ◌/◌, ◌%◌, Bool, true, false, ◌&&◌, List, [], ◌∷◌, ◌++◌, Option, none,
  some, if◌then◌else◌, ltb, leb, length, Text,
}
use distributed_storage_with.Mqtt.Faults.{
  Result, ok, throw, malformed_unicode, malformed_utf, type_error, ◌>>=◌,
}

-- The lead of a surrogate pair
abbrev pub is_lead : ℕ → Bool
is_lead c = leb 0xD800 c && leb c 0xDBFF

unit_length : ℕ → ℕ
unit_length c = if ltb 0x7FF c then 3 else if ltb 0x7F c then 2 else 1

-- A lead counts four bytes, and the unit after it, whatever it is, none.
unfoldable pub utf8_length : Text → ℕ
unfolding unit_length
utf8_length [] = 0
utf8_length (c ∷ []) = if is_lead c then 4 else unit_length c
utf8_length (c ∷ d ∷ s) =
    let pair = 4 + utf8_length s in
    let one = unit_length c + utf8_length (d ∷ s) in if is_lead c then pair else one

-- ((charCode - 0xD800) << 10) + (lowCharCode - 0xDC00) + 0x10000
pair_code : ℕ → ℕ → ℕ
pair_code c d = (c - 0xD800) * 1024 + d + 0x2400

-- The bytes of one code; `x & 0x3F | 0x80` is x % 64 + 128, and so on.
code_bytes : ℕ → List ℕ
code_bytes c =
    if leb c 0x7F
    then c ∷ []
    else if leb c 0x7FF
    then (c / 64 % 32 + 0xC0) ∷ (c % 64 + 0x80) ∷ []
    else if leb c 0xFFFF
    then (c / 4096 % 16 + 0xE0) ∷ (c / 64 % 64 + 0x80) ∷ (c % 64 + 0x80) ∷ []
    else (c / 262144 % 8 + 0xF0)
      ∷ (c / 4096 % 64 + 0x80)
      ∷ (c / 64 % 64 + 0x80)
      ∷ (c % 64 + 0x80)
      ∷ []

abbrev prepend : List ℕ → Result (List ℕ) → Result (List ℕ)
prepend bytes rest = rest >>= λ bs. ok (bytes ++ bs)

-- The bytes that stringToUTF8 writes; `charCodeAt` behind the end is not a number.
unfoldable pub string_to_utf8 : Text → Result (List ℕ)
unfolding code_bytes pair_code
string_to_utf8 [] = ok []
string_to_utf8 (c ∷ []) = if is_lead c then throw malformed_unicode else ok (code_bytes c)
string_to_utf8 (c ∷ d ∷ s) =
    let pair = prepend (code_bytes (pair_code c d)) (string_to_utf8 s) in
    let one = prepend (code_bytes c) (string_to_utf8 (d ∷ s)) in if is_lead c then pair else one

-- input[pos] and input[pos++]; `none` is `undefined`.
first : List ℕ → Option ℕ
first [] = none
first (b ∷ bs) = some b

after : List ℕ → List ℕ
after [] = []
after (b ∷ bs) = bs

-- input[pos++] - 128, which must not be negative; `none` is NaN, which is not.
continuation : Option ℕ → Result (Option ℕ)
continuation none = ok none
continuation (some b) = if ltb b 128 then throw malformed_utf else ok (some (b - 128))

-- String.fromCharCode, for a code that may be above 0xFFFF.
units_of : ℕ → Text
units_of u =
    if ltb 0xFFFF u
    then (0xD800 + (u - 0x10000) / 1024) ∷ (0xDC00 + (u - 0x10000) % 1024) ∷ []
    else u ∷ []

-- A sum with NaN is NaN, of which fromCharCode makes the unit 0. A lead byte below 0xC0 makes the
-- code negative, and fromCharCode takes it modulo 0x10000.
two_bytes : ℕ → Option ℕ → Text
two_bytes b1 (some b2) = ((64 * b1 + b2 + 0x10000 - 64 * 0xC0) % 0x10000) ∷ []
two_bytes b1 _ = 0 ∷ []

three_bytes : ℕ → Option ℕ → Option ℕ → Text
three_bytes b1 (some b2) (some b3) = units_of (4096 * (b1 - 0xE0) + 64 * b2 + b3)
three_bytes b1 _ _ = 0 ∷ []

four_bytes : ℕ → Option ℕ → Option ℕ → Option ℕ → Text
four_bytes b1 (some b2) (some b3) (some b4) =
    units_of (262144 * (b1 - 0xF0) + 4096 * b2 + 64 * b3 + b4)
four_bytes b1 _ _ _ = 0 ∷ []

-- What one round of the loop appends, the bytes that it takes, and the input that is left.
abbrev Round : Type 0
Round = Text × ℕ × List ℕ

read_four : ℕ → Option ℕ → Option ℕ → List ℕ → Result Round
read_four b1 b2 b3 input = continuation (first input) >>= λ b4.
    if ltb b1 0xF8 then ok (four_bytes b1 b2 b3 b4, 4, after input) else throw malformed_utf

read_three : ℕ → Option ℕ → List ℕ → Result Round
read_three b1 b2 input = continuation (first input) >>= λ b3.
    if ltb b1 0xF0
    then ok (three_bytes b1 b2 b3, 3, after input)
    else read_four b1 b2 b3 (after input)

read_two : ℕ → List ℕ → Result Round
read_two b1 input = continuation (first input) >>= λ b2.
    if ltb b1 0xE0 then ok (two_bytes b1 b2, 2, after input) else read_three b1 b2 (after input)

-- The first byte may be `undefined`, which ends in an exception too.
read_round : List ℕ → Result Round
unfolding read_two read_three read_four two_bytes three_bytes four_bytes units_of continuation first
    after
read_round [] = throw type_error
read_round (b1 ∷ input) = if ltb b1 128 then ok (b1 ∷ [], 1, input) else read_two b1 input

-- The loop, with as much fuel as there are bytes to take; every round takes one at least.
pub parse_from : ℕ → ℕ → List ℕ → Result Text
parse_from zero left input = ok []
parse_from (suc fuel) left input = elim (ltb 0 left) [
  | false ↦ ok []
  | true ↦ read_round input >>= λ r. parse_from fuel (left - r.1) r.2 >>= λ s. ok (r.0 ++ s)
]

-- parseUTF8(input, offset, length), for the input from `offset` on
unfoldable pub parse_utf8 : List ℕ → ℕ → Result Text
unfolding parse_from read_round
parse_utf8 input count = parse_from count count input
