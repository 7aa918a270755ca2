-- ===== src/Stomp/Lines.antt =====
-- The text of a frame and its lines: where the parser finds the blank line, the lines before it, and
-- the end of the frame.
use distributed_storage_with.Base.{
  ℕ, zero, suc, ◌+◌, ◌≡◌, ◌≢◌, refl, sym, ap, ◌∙◌, Bool, true, false, List, [], ◌∷◌, ◌++◌, Option,
  some, arith, nat_eq, length, length-append, take, drop, Text, All,
}
use mathlib.Core.List.{append_assoc}
use distributed_storage_with.Stomp.Frame.{line_feed, null_byte, join}
use distributed_storage_with.Stomp.Parse.{find_divider, one_later, split_at, split_frames}

-- A text without a character.
abbrev pub Lacks : ℕ → Text → Type 0
Lacks d = All (λ c. c ≢ d)

-- A line of a frame, which is not blank.
abbrev pub IsLine : Text → Type 0
IsLine [] = ⊥
IsLine (c ∷ s) = Lacks line_feed (c ∷ s)

pub nat_eq-false : (a b : ℕ) → a ≢ b → nat_eq a b ≡ false
nat_eq-false a b h = ground arith

pub take-length : (s t : Text) → take (length s) (s ++ t) ≡ s
take-length [] t = refl
take-length (c ∷ s) t = ap (λ l. c ∷ l) (take-length s t)

pub drop-length : (s t : Text) → drop (length s) (s ++ t) ≡ t
drop-length [] t = refl
drop-length (c ∷ s) t = drop-length s t

pub join-append :
    (d : ℕ) (x : Text) (xs : List Text) (y : Text)
    → join d (x ∷ (xs ++ y ∷ [])) ≡ join d (x ∷ xs) ++ d ∷ y
join-append d x [] y = refl
join-append d x (z ∷ zs) y =
    ap (λ l. x ++ d ∷ l) (join-append d z zs y) ∙ sym (append_assoc x (d ∷ join d (z ∷ zs)) (d ∷ y))

abbrev later_by : ℕ → Option ℕ → Option ℕ
later_by zero o = o
later_by (suc n) o = one_later (later_by n o)

later_by-some : (n m : ℕ) → later_by n (some m) ≡ some (n + m)
later_by-some zero m = ap some (omega arith)
later_by-some (suc n) m = ap one_later (later_by-some n m) ∙ ap some (omega arith)

divider_past :
    (c d : ℕ) (s : Text)
    → c ≢ line_feed
    → find_divider (c ∷ d ∷ s) ≡ one_later (find_divider (d ∷ s))
unfolding find_divider
divider_past c d s h = rw (nat_eq-false c line_feed h)

-- The search passes a line, up to its end.
divider_past_line :
    (x t : Text)
    → Lacks line_feed x
    → find_divider (x ++ line_feed ∷ t) ≡ later_by (length x) (find_divider (line_feed ∷ t))
divider_past_line [] t h = refl
divider_past_line (c ∷ []) t h = divider_past c line_feed t h.0
divider_past_line (c ∷ d ∷ x) t h =
    divider_past c d (x ++ line_feed ∷ t) h.0 ∙ ap one_later (divider_past_line (d ∷ x) t h.1)

divider_past_end :
    (y s : Text)
    → IsLine y
    → find_divider (line_feed ∷ (y ++ s)) ≡ one_later (find_divider (y ++ s))
unfolding find_divider
divider_past_end [] s h = absurd h
divider_past_end (c ∷ y) s h = rw (nat_eq-false c line_feed h.0)

pub line-Lacks : (y : Text) → IsLine y → Lacks line_feed y
line-Lacks [] h = tt
line-Lacks (c ∷ y) h = h

-- What begins with a line.
pub join_begins :
    (y : Text) (ys : List Text) (s : Text) → (t : Text) × (join line_feed (y ∷ ys) ++ s ≡ y ++ t)
join_begins y [] s = (s, refl)
join_begins y (z ∷ zs) s = (
  (line_feed ∷ join line_feed (z ∷ zs)) ++ s,
  append_assoc y (line_feed ∷ join line_feed (z ∷ zs)) s,
)

divider_between :
    (y : Text) (ys : List Text) (s : Text)
    → IsLine y
    → find_divider (line_feed ∷ (join line_feed (y ∷ ys) ++ s))
      ≡ one_later (find_divider (join line_feed (y ∷ ys) ++ s))
divider_between y ys s h =
    let (t, e) = join_begins y ys s in
    ap (λ l. find_divider (line_feed ∷ l)) e
    ∙ divider_past_end y t h
    ∙ ap (λ l. one_later (find_divider l)) (sym e)

join_later :
    (x : Text) (o : Option ℕ) (n : ℕ)
    → o ≡ some n
    → later_by (length x) (one_later o) ≡ some (length x + suc n)
join_later x o n e =
    ap (λ p. later_by (length x) (one_later p)) e
    ∙ later_by-some (length x) (n + 1)
    ∙ ap some (omega arith)

-- The first blank line is the one behind the lines.
pub find_divider-join :
    (x : Text) (xs : List Text) (body : Text)
    → All IsLine (x ∷ xs)
    → find_divider (join line_feed (x ∷ xs) ++ (line_feed ∷ line_feed ∷ body))
      ≡ some (length (join line_feed (x ∷ xs)))
unfolding find_divider
find_divider-join x [] body h =
    divider_past_line x (line_feed ∷ body) (line-Lacks x h.0)
    ∙ later_by-some (length x) 0
    ∙ ap some (omega arith)
find_divider-join x (y ∷ ys) body h =
    let rest = join line_feed (y ∷ ys) in
    let end = line_feed ∷ line_feed ∷ body in
    ap find_divider (append_assoc x (line_feed ∷ rest) end)
    ∙ divider_past_line x (rest ++ end) (line-Lacks x h.0)
    ∙ ap (later_by (length x)) (divider_between y ys end h.1.0)
    ∙ join_later x (find_divider (rest ++ end)) (length rest) (find_divider-join y ys body h.1)
    ∙ ap some (sym (length-append x (line_feed ∷ rest)))

split_one : (x : Text) → Lacks line_feed x → split_at line_feed x ≡ x ∷ []
unfolding split_at
split_one [] h = refl
split_one (c ∷ x) h = rw (nat_eq-false c line_feed h.0, split_one x h.1)

split_line :
    (x t : Text)
    → Lacks line_feed x
    → split_at line_feed (x ++ line_feed ∷ t) ≡ x ∷ split_at line_feed t
unfolding split_at
split_line [] t h = refl
split_line (c ∷ x) t h = rw (nat_eq-false c line_feed h.0, split_line x t h.1)

-- The lines are read back.
pub split_at-join :
    (x : Text) (xs : List Text)
    → All (Lacks line_feed) (x ∷ xs)
    → split_at line_feed (join line_feed (x ∷ xs)) ≡ x ∷ xs
split_at-join x [] h = split_one x h.0
split_at-join x (y ∷ ys) h =
    split_line x (join line_feed (y ∷ ys)) h.0 ∙ ap (λ l. x ∷ l) (split_at-join y ys h.1)

split_past :
    (s rest : Text)
    → Lacks null_byte s
    → split_frames false (s ++ null_byte ∷ rest) ≡ s ∷ split_frames true rest
unfolding split_frames
split_past [] rest h = refl
split_past (c ∷ s) rest h = rw (nat_eq-false c null_byte h.0, split_past s rest h.1)

-- A frame ends at its NULL, whether the text before ended at one or not.
pub split_frames-append :
    (after : Bool) (c : ℕ) (s rest : Text)
    → c ≢ line_feed
    → Lacks null_byte (c ∷ s)
    → split_frames after ((c ∷ s) ++ null_byte ∷ rest) ≡ (c ∷ s) ∷ split_frames true rest
unfolding split_frames
split_frames-append false c s rest line h = split_past (c ∷ s) rest h
split_frames-append true c s rest line h =
    rw (nat_eq-false c null_byte h.0, nat_eq-false c line_feed line, split_past s rest h.1)
