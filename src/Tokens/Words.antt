-- ===== src/Tokens/Words.antt =====
-- A line of words with one space between any two: its tokens are the words.
use distributed_storage_with.Base.{
  ◌≡◌, refl, sym, ap, ◌∙◌, true, false, List, [], ◌∷◌, ◌++◌, Text, All,
}
use mathlib.Core.List.{append_assoc, append-nil}
use distributed_storage_with.Tokens.{
  is_white, space_pieces, put_kept, drop_trailing, keep_unsplit, split_spaces,
}

-- A token: not empty, and without spaces.
abbrev pub IsWord : Text → Type 0
IsWord [] = ⊥
IsWord (c ∷ s) = All (λ d. is_white d ≡ false) (c ∷ s)

-- Words, with one space between two.
unfoldable pub unwords : Text → List Text → Text
unwords v [] = v
unwords v (w ∷ ws) = v ++ b' ' ∷ unwords w ws

pieces_past :
    (acc s rest : Text)
    → All (λ d. is_white d ≡ false) s
    → space_pieces false acc (s ++ rest) ≡ space_pieces false (acc ++ s) rest
unfolding space_pieces
pieces_past acc [] rest h = ap (λ l. space_pieces false l rest) (sym (append-nil acc))
pieces_past acc (c ∷ s) rest h =
    ap
      (λ b. elim b [
        | true ↦ acc ∷ space_pieces true [] (s ++ rest)
        | false ↦ space_pieces false (acc ++ c ∷ []) (s ++ rest)
      ])
      h.0
    ∙ pieces_past (acc ++ c ∷ []) s rest h.1
    ∙ ap (λ l. space_pieces false l rest) (append_assoc acc (c ∷ []) s)

pieces_begin :
    (w rest : Text) → IsWord w → space_pieces true [] (w ++ rest) ≡ space_pieces false w rest
unfolding space_pieces
pieces_begin [] rest h = absurd h
pieces_begin (c ∷ s) rest h =
    ap
      (λ b. elim b [
        | true ↦ space_pieces true [] (s ++ rest)
        | false ↦ space_pieces false (c ∷ []) (s ++ rest)
      ])
      h.0
    ∙ pieces_past (c ∷ []) s rest h.1

pieces_unwords :
    (v : Text) (ws : List Text) → All IsWord (v ∷ ws) → space_pieces true [] (unwords v ws) ≡ v ∷ ws
unfolding unwords space_pieces
pieces_unwords v [] h = ap (space_pieces true []) (sym (append-nil v)) ∙ pieces_begin v [] h.0
pieces_unwords v (w ∷ ws) h =
    pieces_begin v (b' ' ∷ unwords w ws) h.0 ∙ ap (λ l. v ∷ l) (pieces_unwords w ws h.1)

-- Before the first word nothing is skipped.
pieces_start :
    (w rest : Text)
    → IsWord w
    → space_pieces false [] (w ++ rest) ≡ space_pieces true [] (w ++ rest)
pieces_start [] rest h = absurd h
pieces_start (c ∷ s) rest h = pieces_past [] (c ∷ s) rest h ∙ sym (pieces_begin (c ∷ s) rest h)

line_begins : (v : Text) (ws : List Text) → (rest : Text) × (unwords v ws ≡ v ++ rest)
unfolding unwords
line_begins v [] = ([], sym (append-nil v))
line_begins v (w ∷ ws) = (b' ' ∷ unwords w ws, refl)

put_kept_word : (p : Text) (ps : List Text) → IsWord p → put_kept p ps ≡ p ∷ ps
unfolding put_kept
put_kept_word [] ps h = absurd h
put_kept_word (c ∷ s) [] h = refl
put_kept_word (c ∷ s) (q ∷ qs) h = refl

drop_trailing_words : (ws : List Text) → All IsWord ws → drop_trailing ws ≡ ws
unfolding drop_trailing
drop_trailing_words [] h = refl
drop_trailing_words (w ∷ ws) h =
    ap (put_kept w) (drop_trailing_words ws h.1) ∙ put_kept_word w ws h.0

keep_words : (ws : List Text) → All IsWord ws → keep_unsplit ws ≡ ws
unfolding keep_unsplit
keep_words [] h = refl
keep_words (w ∷ []) h = refl
keep_words (w ∷ v ∷ ws) h = drop_trailing_words (w ∷ v ∷ ws) h

-- The tokens of a line of words are the words.
pub split_spaces-unwords :
    (v : Text) (ws : List Text) → All IsWord (v ∷ ws) → split_spaces (unwords v ws) ≡ v ∷ ws
unfolding split_spaces
split_spaces-unwords v ws h =
    let (rest, e) = line_begins v ws in
    ap (λ l. keep_unsplit (space_pieces false [] l)) e
    ∙ ap keep_unsplit (pieces_start v rest h.0)
    ∙ ap (λ l. keep_unsplit (space_pieces true [] l)) (sym e)
    ∙ ap keep_unsplit (pieces_unwords v ws h)
    ∙ keep_words (v ∷ ws) h

unwords-append : (a w : Text) (ws : List Text) → unwords (a ++ w) ws ≡ a ++ unwords w ws
unfolding unwords
unwords-append a w [] = refl
unwords-append a w (v ∷ ws) = append_assoc a w (b' ' ∷ unwords v ws)

-- Two words that are one.
pub unwords_joined :
    (v w : Text) (ws : List Text) → unwords ((v ++ b' ' ∷ []) ++ w) ws ≡ unwords v (w ∷ ws)
unfolding unwords
unwords_joined v w ws =
    unwords-append (v ++ b' ' ∷ []) w ws ∙ append_assoc v (b' ' ∷ []) (unwords w ws)
