-- ===== src/Stomp/Headers.antt =====
-- The headers of a frame: a line of its text is read as the header that it was written for.
use distributed_storage_with.Base.{
  ℕ, ◌+◌, ◌-◌, ◌*◌, ◌≡◌, refl, sym, ap, ◌∙◌, true, false, Bool-cases, inl, inr, List, [], ◌∷◌, ◌++◌,
  none, some, arith, nat_eq, ◌&&◌, ◌||◌, if◌then◌else◌, Text, All, pos, Dict, lookup, insert,
  contains_key, text_eq, text_Eq, equals_refl, subst,
}
use mathlib.Core.List.{append_assoc, append-nil, reverse, reverse_aux, reverse-reverse}
use distributed_storage_with.Radix.{natural_to_string, natural_to_string-cons}
use distributed_storage_with.Radix.Decimal.{
  IsDigit, natural_to_string-All_IsDigit, decimal_value, decimal_value-natural_to_string,
}
use distributed_storage_with.Stomp.Frame.{header_lines}
use distributed_storage_with.Stomp.Parse.{
  is_space, trim_left, trim, split_header, has_colon, header_of, headers_of, parse_int, digit_in,
  digits_from, unsigned, signed, positive,
}
use distributed_storage_with.Stomp.Lines.{Lacks, nat_eq-false}

-- A name or a value that the parser does not trim.
abbrev pub IsTrimmed : Text → Type 0
IsTrimmed s = trim s ≡ s

split_header-append :
    (name value : Text) → Lacks b':' name → split_header (name ++ b':' ∷ value) ≡ (name, value)
unfolding split_header
split_header-append [] value h = refl
split_header-append (c ∷ name) value h =
    rw (nat_eq-false c b':' h.0, split_header-append name value h.1)

has_colon-append : (name value : Text) → has_colon (name ++ b':' ∷ value) ≡ true
has_colon-append [] value = refl
has_colon-append (c ∷ name) value = rw (has_colon-append name value) (ground arith)

header_of-append :
    (name value : Text)
    → Lacks b':' name
    → IsTrimmed name
    → IsTrimmed value
    → header_of (name ++ b':' ∷ value) ≡ (name, value)
unfolding header_of
header_of-append name value h trimmed trimmed' =
    rw (has_colon-append name value, split_header-append name value h, trimmed, trimmed')

insert_new :
    (name value : Text) (d : Dict Text Text)
    → contains_key name d ≡ false
    → insert name value d ≡ d ++ (name, value) ∷ []
unfolding insert contains_key
insert_new name value [] h = refl
insert_new name value ((j, w) ∷ d) h = elim (Bool-cases (text_eq j name)) [
  | inl same ↦ absurd (ground arith)
  | inr other ↦ ground (arith, insert_new name value d)
]

-- Headers that are read back: no name stands twice.
abbrev pub AreHeaders : Dict Text Text → Type 0
AreHeaders = All (λ h. Lacks b':' h.0 × IsTrimmed h.0 × IsTrimmed h.1)

trim_left_plain : (c : ℕ) (s : Text) → is_space c ≡ false → trim_left (c ∷ s) ≡ c ∷ s
unfolding trim_left
trim_left_plain c s h = rw h

digit_no_space : (c : ℕ) → IsDigit c → is_space c ≡ false
digit_no_space c h = ground arith

plain_trim_left : (s : Text) → All (λ c. is_space c ≡ false) s → trim_left s ≡ s
unfolding trim_left
plain_trim_left [] h = refl
plain_trim_left (c ∷ s) h = trim_left_plain c s h.0

reverse_aux-All {ℓ} :
    {A : Type 0} (P : A → Type ℓ) (l acc : List A) → All P l → All P acc → All P (reverse_aux l acc)
reverse_aux-All P [] acc h k = k
reverse_aux-All P (a ∷ l) acc h k = reverse_aux-All P l (a ∷ acc) h.1 (h.0, k)

-- What has no spaces is trimmed.
pub plain-IsTrimmed : (s : Text) → All (λ c. is_space c ≡ false) s → IsTrimmed s
unfolding trim
plain-IsTrimmed s h =
    ap (λ l. reverse (trim_left (reverse l))) (plain_trim_left s h)
    ∙ ap reverse (plain_trim_left (reverse s) (reverse_aux-All (λ c. is_space c ≡ false) s [] h tt))
    ∙ reverse-reverse s

digits_no_space : (s : Text) → All IsDigit s → All (λ c. is_space c ≡ false) s
digits_no_space [] h = tt
digits_no_space (c ∷ s) h = (digit_no_space c h.0, digits_no_space s h.1)

digit_in_ten : (c : ℕ) → IsDigit c → digit_in 10 c ≡ some (c - 48)
digit_in_ten c h = ground arith

digits_from-digits :
    (n : ℕ) (s : Text) → All IsDigit s → digits_from 10 (some n) s ≡ some (decimal_value n s)
unfolding digits_from decimal_value
digits_from-digits n [] h = refl
digits_from-digits n (c ∷ s) h =
    rw (digits_from, digit_in_ten c h.0) (digits_from-digits (n * 10 + (c - 48)) s h.1)

digits_from_start :
    (c : ℕ) (s : Text)
    → All IsDigit (c ∷ s)
    → digits_from 10 none (c ∷ s) ≡ some (decimal_value 0 (c ∷ s))
unfolding digits_from decimal_value
digits_from_start c s h =
    rw (digits_from, digit_in_ten c h.0) (digits_from-digits (0 * 10 + (c - 48)) s h.1)

unsigned_digits :
    (c : ℕ) (s : Text) → All IsDigit (c ∷ s) → unsigned (c ∷ s) ≡ some (decimal_value 0 (c ∷ s))
unsigned_digits c [] h = digits_from_start c [] h
unsigned_digits c (d ∷ s) h =
    let decimal : (nat_eq c b'0' && (nat_eq d b'x' || nat_eq d b'X')) ≡ false = ground arith in
    ap (λ b. if b then digits_from 16 none s else digits_from 10 none (c ∷ d ∷ s)) decimal
    ∙ digits_from_start c (d ∷ s) h

parse_int_digits :
    (c : ℕ) (s : Text)
    → All IsDigit (c ∷ s)
    → parse_int (c ∷ s) ≡ some (pos (decimal_value 0 (c ∷ s)))
unfolding parse_int
parse_int_digits c s h =
    ap signed (trim_left_plain c s (digit_no_space c h.0))
    ∙ rw
        (
          nat_eq-false c b'-' (λ e. absurd (omega (arith, h.0))),
          nat_eq-false c b'+' (λ e. absurd (omega (arith, h.0))),
        )
        (ap positive (unsigned_digits c s h))

parse_int_printed :
    (n c : ℕ) (s : Text)
    → natural_to_string 10 n ≡ c ∷ s
    → parse_int (natural_to_string 10 n) ≡ some (pos n)
parse_int_printed n c s e =
    ap parse_int e
    ∙ parse_int_digits c s (subst (All IsDigit) e (natural_to_string-All_IsDigit n))
    ∙ ap (λ l. some (pos (decimal_value 0 l))) (sym e)
    ∙ ap (λ k. some (pos k)) (decimal_value-natural_to_string n)

-- The length that is written is the one that is read.
pub parse_int-natural_to_string : (n : ℕ) → parse_int (natural_to_string 10 n) ≡ some (pos n)
parse_int-natural_to_string n =
    let (c, s, e) = natural_to_string-cons 10 n in parse_int_printed n c s e

pub natural_to_string-IsTrimmed : (n : ℕ) → IsTrimmed (natural_to_string 10 n)
natural_to_string-IsTrimmed n =
    plain-IsTrimmed (natural_to_string 10 n)
      (digits_no_space (natural_to_string 10 n) (natural_to_string-All_IsDigit n))

-- No name stands twice, nor in those before.
abbrev pub AreNew : Dict Text Text → Dict Text Text → Type 0
AreNew before [] = Unit
AreNew before ((name, value) ∷ hs) =
    (contains_key name before ≡ false) × AreNew (before ++ (name, value) ∷ []) hs

-- The headers are read back, in their order.
pub headers_of-header_lines :
    (hs before : Dict Text Text)
    → AreHeaders hs
    → AreNew before hs
    → headers_of (header_lines hs) before ≡ before ++ hs
unfolding headers_of
headers_of-header_lines [] before h new = sym (append-nil before)
headers_of-header_lines ((name, value) ∷ hs) before h new =
    ap (λ (r : Text × Text). headers_of (header_lines hs) (insert r.0 r.1 before))
      (header_of-append name value h.0.0 h.0.1 h.0.2)
    ∙ ap (headers_of (header_lines hs)) (insert_new name value before new.0)
    ∙ headers_of-header_lines hs (before ++ (name, value) ∷ []) h.1 new.1
    ∙ append_assoc before ((name, value) ∷ []) hs

-- What is looked up in headers behind others.
pub lookup-append :
    (name value : Text) (d : Dict Text Text)
    → contains_key name d ≡ false
    → lookup name (d ++ (name, value) ∷ []) ≡ some value
unfolding lookup contains_key
lookup-append name value [] h = rw (equals_refl name)
lookup-append name value ((j, w) ∷ d) h = elim (Bool-cases (text_eq j name)) [
  | inl same ↦ absurd (ground arith)
  | inr other ↦ ground (arith, lookup-append name value d)
]
