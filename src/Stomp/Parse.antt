-- ===== src/Stomp/Parse.antt =====
-- Frame.unmarshall: the frames in a text that was received.
use distributed_storage_with.Base.{
  ℕ, zero, suc, ◌+◌, ◌-◌, ◌*◌, Bool, false, ◌&&◌, ◌||◌, ℤ, pos, negsuc, List, [], ◌∷◌, Option, none,
  some, if◌then◌else◌, leb, nat_eq, take, drop, Text, text_Eq, codes, Dict, lookup, insert,
}
use mathlib.Core.List.{reverse}
use distributed_storage_with.Stomp.Frame.{Frame, line_feed, null_byte}

-- String.substring, which puts its ends in order; an end that is NaN or negative is 0.
abbrev pub substring : ℕ → ℕ → Text → Text
substring a b s = if leb a b then take (b - a) (drop a s) else take (a - b) (drop b s)

-- The characters that `\s` matches
abbrev pub is_space : ℕ → Bool
is_space c =
    leb 9 c && leb c 13
    || nat_eq c 32
    || nat_eq c 0xA0
    || nat_eq c 0x1680
    || leb 0x2000 c && leb c 0x200A
    || nat_eq c 0x2028
    || nat_eq c 0x2029
    || nat_eq c 0x202F
    || nat_eq c 0x205F
    || nat_eq c 0x3000
    || nat_eq c 0xFEFF

unfoldable pub trim_left : Text → Text
trim_left [] = []
trim_left (c ∷ s) = let rest = trim_left s in if is_space c then rest else c ∷ s

-- trim
unfoldable pub trim : Text → Text
unfolding trim_left
trim s = reverse (trim_left (reverse (trim_left s)))

abbrev pub one_later : Option ℕ → Option ℕ
one_later none = none
one_later (some n) = some (n + 1)

-- Where two line feeds stand, if they do
unfoldable pub find_divider : Text → Option ℕ
find_divider [] = none
find_divider (c ∷ []) = none
find_divider (c ∷ d ∷ s) =
    let later = one_later (find_divider (d ∷ s)) in
    if nat_eq c line_feed && nat_eq d line_feed then some 0 else later

abbrev pub add_to_first : ℕ → List Text → List Text
add_to_first c [] = (c ∷ []) ∷ []
add_to_first c (x ∷ xs) = (c ∷ x) ∷ xs

-- String.split at a character
unfoldable pub split_at : ℕ → Text → List Text
split_at separator [] = [] ∷ []
split_at separator (c ∷ s) =
    let rest = split_at separator s in if nat_eq c separator then [] ∷ rest else add_to_first c rest

-- A header: what stands before the first colon and behind it; without a colon the name is empty.
unfoldable pub split_header : Text → Text × Text
split_header [] = ([], [])
split_header (c ∷ s) =
    let (name, value) = split_header s in if nat_eq c b':' then ([], s) else (c ∷ name, value)

abbrev pub has_colon : Text → Bool
has_colon [] = false
has_colon (c ∷ s) = nat_eq c b':' || has_colon s

unfoldable pub header_of : Text → Text × Text
unfolding split_header trim
header_of line =
    if has_colon line
    then (let (name, value) = split_header line in (trim name, trim value))
    else ([], trim line)

unfoldable pub headers_of : List Text → Dict Text Text → Dict Text Text
unfolding header_of
headers_of [] headers = headers
headers_of (line ∷ lines) headers =
    let (name, value) = header_of line in headers_of lines (insert name value headers)

-- parseInt, which is NaN if no digit comes first
abbrev pub digit_in : ℕ → ℕ → Option ℕ
digit_in base c =
    if leb 48 c && leb c 57
    then some (c - 48)
    else if nat_eq base 16 && (leb 97 c && leb c 102)
    then some (c - 87)
    else if nat_eq base 16 && (leb 65 c && leb c 70)
    then some (c - 55)
    else none

unfoldable pub digits_from : ℕ → Option ℕ → Text → Option ℕ
digits_from base read [] = read
digits_from base read (c ∷ s) = elim (digit_in base c) [
  | none ↦ read
  | some d ↦ digits_from base (some ((elim read [ none ↦ 0 | some n ↦ n ]) * base + d)) s
]

abbrev pub unsigned : Text → Option ℕ
unsigned (z ∷ x ∷ s) =
    if nat_eq z b'0' && (nat_eq x b'x' || nat_eq x b'X')
    then digits_from 16 none s
    else digits_from 10 none (z ∷ x ∷ s)
unsigned s = digits_from 10 none s

abbrev pub negated : Option ℕ → Option ℤ
negated none = none
negated (some zero) = some (pos 0)
negated (some (suc n)) = some (negsuc n)

abbrev pub positive : Option ℕ → Option ℤ
positive none = none
positive (some n) = some (pos n)

abbrev pub signed : Text → Option ℤ
signed [] = none
signed (c ∷ s) =
    if nat_eq c b'-'
    then negated (unsigned s)
    else if nat_eq c b'+'
    then positive (unsigned s)
    else positive (unsigned (c ∷ s))

unfoldable pub parse_int : Text → Option ℤ
unfolding trim_left digits_from
parse_int s = signed (trim_left s)

-- start + len, as an end of a substring
abbrev pub end_of : ℕ → Option ℤ → ℕ
end_of start none = 0
end_of start (some (pos n)) = start + n
end_of start (some (negsuc n)) = start - (n + 1)

-- The loop over the characters up to a NULL
unfoldable pub until_null : Text → Text
until_null [] = []
until_null (c ∷ s) = let rest = until_null s in if nat_eq c null_byte then [] else c ∷ rest

abbrev pub body_at : ℕ → Option Text → Text → Text
body_at start none text = until_null (drop start text)
body_at start (some []) text = until_null (drop start text)
body_at start (some size) text = substring start (end_of start (parse_int size)) text

abbrev pub frame_of : List Text → ℕ → Text → Frame
frame_of [] start text = record { command = []; headers = []; body = until_null (drop start text) }
frame_of (command ∷ lines) start text =
    let headers = headers_of lines [] in
    record {
      command = command;
      headers = headers;
      body = body_at start (lookup (codes "content-length") headers) text;
    }

-- Frame._unmarshallSingle; without an empty line there is no header text, and the body begins behind
-- the first character.
unfoldable pub unmarshall_single : Text → Frame
unfolding find_divider split_at headers_of parse_int until_null
unmarshall_single text = elim (find_divider text) [
  | none ↦ frame_of (split_at line_feed []) 1 text
  | some divider ↦ frame_of (split_at line_feed (take divider text)) (divider + 2) text
]

-- The text is split at each NULL with the line feeds behind it; `after_null` tells that such a place was
-- just passed.
unfoldable pub split_frames : Bool → Text → List Text
split_frames after_null [] = [] ∷ []
split_frames after_null (c ∷ s) =
    let ends = nat_eq c null_byte in
    let skipped = after_null && nat_eq c line_feed in
    let rest = split_frames (ends || skipped) s in
    if ends then [] ∷ rest else if skipped then rest else add_to_first c rest

unfoldable pub unmarshall_all : List Text → List Frame
unfolding unmarshall_single
unmarshall_all [] = []
unmarshall_all ([] ∷ rest) = unmarshall_all rest
unmarshall_all ((c ∷ s) ∷ rest) = unmarshall_single (c ∷ s) ∷ unmarshall_all rest

-- Frame.unmarshall
unfoldable pub unmarshall : Text → List Frame
unfolding split_frames unmarshall_all
unmarshall text = unmarshall_all (split_frames false text)
