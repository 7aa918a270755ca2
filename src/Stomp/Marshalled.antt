-- ===== src/Stomp/Marshalled.antt =====
-- The text that Frame.marshall makes of a frame: its lines, its headers and its body.
use distributed_storage_with.Base.{
  ℕ, suc, ◌+◌, ◌-◌, ◌≡◌, refl, sym, ◌≢◌, subst, ap, ◌∙◌, true, false, List, [], ◌∷◌, ◌++◌, some,
  arith, leb, if◌then◌else◌, length, take, drop, Text, All, pos, codes, Dict, lookup, contains_key,
  lookup_absent, text_Eq,
}
use mathlib.Core.List.{append_assoc, append-nil}
use distributed_storage_with.Radix.{natural_to_string, natural_to_string-cons}
use distributed_storage_with.Radix.Decimal.{IsDigit, natural_to_string-All_IsDigit}
use distributed_storage_with.Stomp.Frame.{
  Frame, line_feed, null_byte, join, header_lines, length_line, to_string,
}
use distributed_storage_with.Stomp.Parse.{body_at, end_of, substring, parse_int, trim, until_null}
use distributed_storage_with.Stomp.Lines.{Lacks, IsLine, take-length, join-append}
use distributed_storage_with.Stomp.Headers.{
  AreHeaders, IsTrimmed, AreNew, lookup-append, parse_int-natural_to_string,
  natural_to_string-IsTrimmed,
}

abbrev pub content_length : Text
content_length = codes "content-length"

-- The header that toString adds for a body that is not empty.
abbrev pub length_header : Text → Dict Text Text
length_header [] = []
length_header (c ∷ s) = (content_length, natural_to_string 10 (length (c ∷ s))) ∷ []

-- What comes of a frame: the length of its body is one more header.
abbrev pub received : Frame → Frame
received f = record f { headers = f.headers ++ length_header f.body }

-- A frame that the wire can carry: a command; headers on one line each, whose names have no colon and
-- stand once, with no space at the ends of names and values, and no content-length among them; and
-- no NULL.
pub record IsPlain (f : Frame) : Type 0 where
  pub command_line : IsLine f.command
  pub one_line : All (λ h. Lacks line_feed h.0 × Lacks line_feed h.1) f.headers
  pub readable : AreHeaders f.headers
  pub distinct : AreNew [] f.headers
  pub no_length : contains_key content_length f.headers ≡ false
  pub no_null : Lacks null_byte (to_string f)

header_lines-append :
    (hs ks : Dict Text Text) → header_lines (hs ++ ks) ≡ header_lines hs ++ header_lines ks
header_lines-append [] ks = refl
header_lines-append ((n, v) ∷ hs) ks = ap (λ l. (n ++ b':' ∷ v) ∷ l) (header_lines-append hs ks)

length_line-lines : (body : Text) → length_line body ≡ header_lines (length_header body)
length_line-lines [] = refl
length_line-lines (c ∷ s) = refl

abbrev pub lines_of : Frame → Text
lines_of f = join line_feed (f.command ∷ header_lines (f.headers ++ length_header f.body))

pub to_string-lines : (f : Frame) → to_string f ≡ lines_of f ++ line_feed ∷ line_feed ∷ f.body
unfolding to_string
to_string-lines f =
    let end = (line_feed ∷ f.body) ∷ [] in
    ap (λ l. join line_feed (f.command ∷ (header_lines f.headers ++ (l ++ end))))
      (length_line-lines f.body)
    ∙ ap (λ l. join line_feed (f.command ∷ l))
        (sym (append_assoc (header_lines f.headers) (header_lines (length_header f.body)) end))
    ∙ ap (λ l. join line_feed (f.command ∷ (l ++ end)))
        (sym (header_lines-append f.headers (length_header f.body)))
    ∙ join-append line_feed f.command (header_lines (f.headers ++ length_header f.body))
        (line_feed ∷ f.body)

drop_past : (s t : Text) (a b : ℕ) → drop (length s + 2) (s ++ a ∷ b ∷ t) ≡ t
drop_past [] t a b = refl
drop_past (c ∷ s) t a b =
    let e : suc (length s) + 2 ≡ suc (length s + 2) = omega arith in
    ap (λ n. drop n ((c ∷ s) ++ a ∷ b ∷ t)) e ∙ drop_past s t a b

take_all : (s : Text) → take (length s) s ≡ s
take_all s = ap (take (length s)) (sym (append-nil s)) ∙ take-length s []

AreNew-append :
    (before hs : Dict Text Text) (name value : Text)
    → AreNew before hs
    → contains_key name (before ++ hs) ≡ false
    → AreNew before (hs ++ (name, value) ∷ [])
AreNew-append before [] name value h new =
    (subst (λ l. contains_key name l ≡ false) (append-nil before) new, tt)
AreNew-append before ((n, v) ∷ hs) name value h new = (
  h.0,
  AreNew-append (before ++ (n, v) ∷ []) hs name value h.1
      (subst (λ l. contains_key name l ≡ false) (sym (append_assoc before ((n, v) ∷ []) hs)) new),
)

pub All-append {ℓ} :
    {A : Type 0} (P : A → Type ℓ) (xs ys : List A) → All P xs → All P ys → All P (xs ++ ys)
All-append P [] ys h k = k
All-append P (x ∷ xs) ys h k = (h.0, All-append P xs ys h.1 k)

substring_from :
    (start n : ℕ) (text : Text) → substring start (start + n) text ≡ take n (drop start text)
substring_from start n text =
    let forward : leb start (start + n) ≡ true = ground arith in
    let width : start + n - start ≡ n = omega arith in
    ap
      (λ b.
        if b
        then take (start + n - start) (drop start text)
        else take (start - (start + n)) (drop (start + n) text))
      forward
    ∙ ap (λ k. take k (drop start text)) width

body_sized :
    (start n : ℕ) (size text : Text) (d : ℕ) (t : Text)
    → size ≡ d ∷ t
    → parse_int size ≡ some (pos n)
    → body_at start (some size) text ≡ take n (drop start text)
body_sized start n size text d t e p =
    ap (λ l. body_at start (some l) text) e
    ∙ ap (λ l. substring start (end_of start (parse_int l)) text) (sym e)
    ∙ ap (λ z. substring start (end_of start z) text) p
    ∙ substring_from start n text

-- The body behind the blank line, with the length that was written, or none if it is empty.
pub body_of :
    (body : Text) (hs : Dict Text Text) (lines : Text)
    → contains_key content_length hs ≡ false
    → body_at
        (length lines + 2)
        (lookup content_length (hs ++ length_header body))
        (lines ++ line_feed ∷ line_feed ∷ body)
      ≡ body
unfolding until_null
body_of [] hs lines h =
    ap
      (λ l.
        body_at (length lines + 2) (lookup content_length l) (lines ++ line_feed ∷ line_feed ∷ []))
      (append-nil hs)
    ∙ ap (λ o. body_at (length lines + 2) o (lines ++ line_feed ∷ line_feed ∷ []))
        (lookup_absent content_length hs h)
    ∙ ap until_null (drop_past lines [] line_feed line_feed)
body_of (c ∷ s) hs lines h =
    let size = natural_to_string 10 (length (c ∷ s)) in
    let text = lines ++ line_feed ∷ line_feed ∷ c ∷ s in
    let start = length lines + 2 in
    let (d, t, e) = natural_to_string-cons 10 (length (c ∷ s)) in
    ap (λ o. body_at start o text) (lookup-append content_length size hs h)
    ∙ body_sized start (length (c ∷ s)) size text d t e
        (parse_int-natural_to_string (length (c ∷ s)))
    ∙ ap (take (length (c ∷ s))) (drop_past lines (c ∷ s) line_feed line_feed)
    ∙ take_all (c ∷ s)

pub added_new :
    (body : Text) (hs : Dict Text Text)
    → AreNew [] hs
    → contains_key content_length hs ≡ false
    → AreNew [] (hs ++ length_header body)
added_new [] hs h new = subst (AreNew []) (sym (append-nil hs)) h
added_new (c ∷ s) hs h new =
    AreNew-append [] hs content_length (natural_to_string 10 (length (c ∷ s))) h new

digits_lack : (s : Text) → All IsDigit s → Lacks line_feed s
digits_lack [] h = tt
digits_lack (c ∷ s) h = ((λ e. absurd (omega (arith, h.0))), digits_lack s h.1)

digits_one_line : (n : ℕ) → Lacks line_feed (natural_to_string 10 n)
digits_one_line n = digits_lack (natural_to_string 10 n) (natural_to_string-All_IsDigit n)

content_length-IsTrimmed : IsTrimmed content_length
unfolding trim
content_length-IsTrimmed = refl

pub length_readable : (body : Text) → AreHeaders (length_header body)
length_readable [] = tt
length_readable (c ∷ s) =
    ((omega arith, content_length-IsTrimmed, natural_to_string-IsTrimmed (length (c ∷ s))), tt)

pub length_one_line :
    (body : Text) → All (λ h. Lacks line_feed h.0 × Lacks line_feed h.1) (length_header body)
length_one_line [] = tt
length_one_line (c ∷ s) = ((omega arith, digits_one_line (length (c ∷ s))), tt)

header-IsLine :
    (name value : Text)
    → Lacks line_feed name
    → Lacks line_feed value
    → IsLine (name ++ b':' ∷ value)
header-IsLine [] value h k = (omega arith, k)
header-IsLine (c ∷ name) value h k =
    (h.0, All-append (λ d. d ≢ line_feed) name (b':' ∷ value) h.1 (omega arith, k))

pub header_lines-All :
    (hs : Dict Text Text)
    → All (λ h. Lacks line_feed h.0 × Lacks line_feed h.1) hs
    → All IsLine (header_lines hs)
header_lines-All [] h = tt
header_lines-All ((name, value) ∷ hs) h =
    (header-IsLine name value h.0.0 h.0.1, header_lines-All hs h.1)
