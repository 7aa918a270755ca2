-- ===== src/Mqtt/Utf8/RoundTrip.antt =====
-- What stringToUTF8 writes, parseUTF8 reads back.
use distributed_storage_with.Base.{
  ℕ, zero, suc, ◌+◌, ◌-◌, ◌*◌, ◌/◌, ◌%◌, ◌≤◌, ◌<◌, ◌≡◌, refl, sym, ap, ◌∙◌, true, false, List, [],
  ◌∷◌, ◌++◌, leb, length, length-append, arith, Text, Bool-cases, inl, inr, lt→ltb,
}
use mathlib.Core.List.{append_assoc, append-nil}
use distributed_storage_with.Mqtt.Faults.{ok, ◌>>=◌}
use distributed_storage_with.Mqtt.Utf8.{
  is_lead, unit_length, utf8_length, pair_code, code_bytes, string_to_utf8, units_of, read_round,
  parse_from, parse_utf8, read_two, read_three, read_four, two_bytes, three_bytes, four_bytes,
  first, after, continuation,
}

-- A string in which every lead has its trail after it. A trail may stand alone.
pub data IsUtf16 : Text → Type 0 where
  empty : IsUtf16 []
  single : (c : ℕ) (s : Text) → c < 0x10000 → is_lead c ≡ false → IsUtf16 s → IsUtf16 (c ∷ s)
  pair :
      (c d : ℕ) (s : Text)
      → 0xD800 ≤ c
      → c ≤ 0xDBFF
      → 0xDC00 ≤ d
      → d ≤ 0xDFFF
      → IsUtf16 s
      → IsUtf16 (c ∷ d ∷ s)

abbrev Reads : ℕ → List ℕ → Type 0
Reads c rest = read_round (code_bytes c ++ rest) ≡ ok (units_of c, length (code_bytes c), rest)

read_one : (c : ℕ) (rest : List ℕ) → c ≤ 0x7F → Reads c rest
unfolding read_round code_bytes units_of
read_one c rest h = ground arith

two_value :
    (c : ℕ) → c ≤ 0x7FF → (64 * (c / 64 % 32 + 0xC0) + c % 64 + 0x10000 - 64 * 0xC0) % 0x10000 ≡ c
two_value c h = omega arith

read_two_lem : (c : ℕ) (rest : List ℕ) → 0x7F < c → c ≤ 0x7FF → Reads c rest
unfolding read_round code_bytes units_of read_two two_bytes continuation first after
read_two_lem c rest low high = ground (arith, two_value c)

three_value : (c : ℕ) → c ≤ 0xFFFF → 4096 * (c / 4096 % 16) + 64 * (c / 64 % 64) + c % 64 ≡ c
three_value c h = omega arith

read_three_lem : (c : ℕ) (rest : List ℕ) → 0x7FF < c → c ≤ 0xFFFF → Reads c rest
unfolding read_round code_bytes units_of read_two read_three three_bytes continuation first after
read_three_lem c rest low high = ground (arith, three_value c)

four_value :
    (c : ℕ)
    → c < 0x200000
    → 262144 * (c / 262144 % 8) + 4096 * (c / 4096 % 64) + 64 * (c / 64 % 64) + c % 64 ≡ c
four_value c h = omega arith

read_four_lem : (c : ℕ) (rest : List ℕ) → 0xFFFF < c → c < 0x200000 → Reads c rest
unfolding read_round code_bytes units_of read_two read_three read_four four_bytes continuation first
    after
read_four_lem c rest low high = ground (arith, four_value c)

read_code : (c : ℕ) (rest : List ℕ) → c < 0x200000 → Reads c rest
read_code c rest h = elim (Bool-cases (leb c 0x7F)) [
  | inl one ↦ read_one c rest (ground arith)
  | inr more ↦ elim (Bool-cases (leb c 0x7FF)) [
    | inl two ↦ read_two_lem c rest (ground arith) (ground arith)
    | inr more' ↦ elim (Bool-cases (leb c 0xFFFF)) [
      | inl three ↦ read_three_lem c rest (ground arith) (ground arith)
      | inr four ↦ read_four_lem c rest (ground arith) h
    ]
  ]
]

length-code_bytes : (c : ℕ) → c < 0x10000 → length (code_bytes c) ≡ unit_length c
unfolding code_bytes unit_length
length-code_bytes c h = ground arith

length_pos : (c : ℕ) → 0 < length (code_bytes c)
unfolding code_bytes
length_pos c = ground arith

-- The parts of what a well-formed string comes to, one unit or pair at a time.
utf8_length-single :
    (c : ℕ) (s : Text) → is_lead c ≡ false → utf8_length (c ∷ s) ≡ unit_length c + utf8_length s
unfolding utf8_length
utf8_length-single c [] h = rw h (omega arith)
utf8_length-single c (d ∷ s) h = rw h

string_to_utf8-single :
    (c : ℕ) (s : Text) (bytes : List ℕ)
    → is_lead c ≡ false
    → string_to_utf8 s ≡ ok bytes
    → string_to_utf8 (c ∷ s) ≡ ok (code_bytes c ++ bytes)
unfolding string_to_utf8
string_to_utf8-single c [] bytes h e =
    rw h (ap ok (sym (append-nil (code_bytes c))) ∙ ap (λ r. r >>= λ bs. ok (code_bytes c ++ bs)) e)
string_to_utf8-single c (d ∷ s) bytes h e = rw h (rw e)

lead_test : (c : ℕ) → 0xD800 ≤ c → c ≤ 0xDBFF → is_lead c ≡ true
lead_test c low high = ground arith

pair_code_range :
    (c d : ℕ)
    → 0xD800 ≤ c
    → c ≤ 0xDBFF
    → 0xDC00 ≤ d
    → d ≤ 0xDFFF
    → (0xFFFF < pair_code c d) × (pair_code c d < 0x110000)
unfolding pair_code
pair_code_range c d a b e f = omega arith

units_of-pair_code :
    (c d : ℕ)
    → 0xD800 ≤ c
    → c ≤ 0xDBFF
    → 0xDC00 ≤ d
    → d ≤ 0xDFFF
    → units_of (pair_code c d) ≡ c ∷ d ∷ []
unfolding pair_code units_of
units_of-pair_code c d a b e f = ground arith

units_of-single : (c : ℕ) → c < 0x10000 → units_of c ≡ c ∷ []
unfolding units_of
units_of-single c h = ground arith

length_four : (c : ℕ) → 0xFFFF < c → length (code_bytes c) ≡ 4
unfolding code_bytes
length_four c h = ground arith

-- What stringToUTF8 writes of a string: as many bytes as UTF8Length counts, and parseUTF8 reads the
-- string from them, whatever follows.
pub record Written (s : Text) : Type 0 where
  pub bytes : List ℕ
  pub written : string_to_utf8 s ≡ ok bytes
  pub counted : length bytes ≡ utf8_length s
  pub read_back :
      (rest : List ℕ) (fuel : ℕ)
      → length bytes ≤ fuel
      → parse_from fuel (length bytes) (bytes ++ rest) ≡ ok s

parse_from-suc :
    (fuel left : ℕ) (input : List ℕ)
    → 0 < left
    → parse_from (suc fuel) left input
      ≡ (read_round input >>= λ r. parse_from fuel (left - r.1) r.2 >>= λ s. ok (r.0 ++ s))
unfolding parse_from read_round
parse_from-suc fuel left input h = rw (lt→ltb 0 left h, parse_from)

parse_step :
    (c : ℕ) (s : Text) (bytes rest : List ℕ) (fuel : ℕ)
    → c < 0x200000
    → ((f : ℕ) → length bytes ≤ f → parse_from f (length bytes) (bytes ++ rest) ≡ ok s)
    → length (code_bytes c ++ bytes) ≤ fuel
    → parse_from fuel (length (code_bytes c ++ bytes)) ((code_bytes c ++ bytes) ++ rest)
      ≡ ok (units_of c ++ s)
parse_step c s bytes rest zero small ih h =
    absurd (omega (arith, length-append (code_bytes c) bytes, length_pos c))
parse_step c s bytes rest (suc fuel) small ih h =
    let n = length (code_bytes c ++ bytes) in
    let positive : 0 < n = omega (arith, length-append (code_bytes c) bytes, length_pos c) in
    let left : n - length (code_bytes c) ≡ length bytes =
      omega (arith, length-append (code_bytes c) bytes) in
    rw (parse_from-suc fuel n ((code_bytes c ++ bytes) ++ rest) positive) (
      rw (append_assoc (code_bytes c) bytes rest) (
        rw (read_code c (bytes ++ rest) small) (
          rw left
            (rw (ih fuel (omega (arith, length-append (code_bytes c) bytes, length_pos c)))))))

parse_none : (fuel : ℕ) (input : List ℕ) → parse_from fuel 0 input ≡ ok []
unfolding parse_from
parse_none zero input = refl
parse_none (suc fuel) input = refl

pub written_lem : {s : Text} → IsUtf16 s → Written s
unfolding utf8_length string_to_utf8
written_lem empty = record {
  bytes = [];
  written = refl;
  counted = refl;
  read_back = λ rest fuel h. parse_none fuel rest;
}
written_lem (single c s small unit rest) =
    let w = written_lem rest in
    record {
      bytes = code_bytes c ++ w.bytes;
      written = string_to_utf8-single c s w.bytes unit w.written;
      counted =
          length-append (code_bytes c) w.bytes
          ∙ (rw (length-code_bytes c small, w.counted) (sym (utf8_length-single c s unit)));
      read_back = λ rest fuel h.
          parse_step c s w.bytes rest fuel (omega arith) (λ f. w.read_back rest f) h
          ∙ ap (λ u. ok (u ++ s)) (units_of-single c small);
    }
written_lem (pair c d s a b e f rest) =
    let w = written_lem rest in
    let code = pair_code c d in
    let (big, small) = pair_code_range c d a b e f in
    record {
      bytes = code_bytes code ++ w.bytes;
      written = rw (lead_test c a b) (rw w.written);
      counted =
          length-append (code_bytes code) w.bytes
          ∙ rw (lead_test c a b) (rw (length_four code big, w.counted));
      read_back = λ rest fuel h.
          parse_step code s w.bytes rest fuel (omega arith) (λ f. w.read_back rest f) h
          ∙ ap (λ u. ok (u ++ s)) (units_of-pair_code c d a b e f);
    }

pub Written-parse_utf8 :
    {s : Text} (w : Written s) (rest : List ℕ) → parse_utf8 (w.bytes ++ rest) (utf8_length s) ≡ ok s
unfolding parse_utf8
Written-parse_utf8 w rest =
    ap (λ n. parse_from n n (w.bytes ++ rest)) (sym w.counted)
    ∙ w.read_back rest (length w.bytes) (omega arith)

-- Every well-formed string is written, in as many bytes as UTF8Length counts, and parseUTF8 reads the
-- string back from these bytes, whatever follows them.
pub parse_utf8-string_to_utf8 :
    (s : Text) (rest : List ℕ)
    → IsUtf16 s
    → (bytes : List ℕ) × (string_to_utf8 s ≡ ok bytes)
      × (length bytes ≡ utf8_length s)
      × (parse_utf8 (bytes ++ rest) (utf8_length s) ≡ ok s)
parse_utf8-string_to_utf8 s rest h =
    let w = written_lem h in (w.bytes, w.written, w.counted, Written-parse_utf8 w rest)
