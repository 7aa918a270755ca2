-- ===== src/Tokens.antt =====
-- The lines of a console and their tokens, which the configuration service and the client's shell share.
pub mod Words
use distributed_storage_with.Base.{ℕ, Bool, true, false, List, [], ◌∷◌, ◌++◌, Text, codes, contains}

-- \s: tab, line feed, vertical tab, form feed, carriage return, space
abbrev pub is_white : ℕ → Bool
is_white c =
    contains (c ∷ []) (codes "\t" ∷ codes "\n" ∷ (11 ∷ []) ∷ (12 ∷ []) ∷ (13 ∷ []) ∷ codes " " ∷ [])

-- All pieces between runs of spaces; `skipping` tells that a run goes on.
unfoldable pub space_pieces : Bool → Text → Text → List Text
space_pieces skipping piece [] = piece ∷ []
space_pieces skipping piece (c ∷ s) = elim (is_white c) [
  | true ↦ elim skipping [ true ↦ space_pieces true [] s | false ↦ piece ∷ space_pieces true [] s ]
  | false ↦ space_pieces false (piece ++ c ∷ []) s
]

unfoldable pub put_kept : Text → List Text → List Text
put_kept [] [] = []
put_kept p ps = p ∷ ps

unfoldable pub drop_trailing : List Text → List Text
unfolding put_kept
drop_trailing [] = []
drop_trailing (p ∷ ps) = put_kept p (drop_trailing ps)

unfoldable pub keep_unsplit : List Text → List Text
unfolding drop_trailing
keep_unsplit [] = []
keep_unsplit (p ∷ []) = p ∷ []
keep_unsplit (p ∷ q ∷ ps) = drop_trailing (p ∷ q ∷ ps)

-- cmdLine.split("\\s+"): trailing empty pieces are dropped, unless nothing was split.
unfoldable pub split_spaces : Text → List Text
unfolding space_pieces keep_unsplit
split_spaces line = keep_unsplit (space_pieces false [] line)

-- The names of the log levels.
abbrev pub levels : List Text
levels =
    codes "ALL"
    ∷ codes "DEBUG"
    ∷ codes "INFO"
    ∷ codes "WARN"
    ∷ codes "ERROR"
    ∷ codes "FATAL"
    ∷ codes "OFF"
    ∷ []
