-- ===== src/Stomp/Frame.antt =====
-- Frame: its text, and the text that goes onto the wire.
use distributed_storage_with.Base.{
  ℕ, List, [], ◌∷◌, ◌++◌, Option, none, some, length, Text, codes, Dict,
}
use distributed_storage_with.Radix.{natural_to_string}

-- Headers have texts as names and values. They stand in the order in which `for … in` visits them, which
-- is that of their insertion, since no name is a number.
pub record Frame : Type 0 where
  pub command : Text
  pub headers : Dict Text Text
  pub body : Text

-- new Frame(command, headers, body), where headers and body may be missing
unfoldable pub new_frame : Text → Option (Dict Text Text) → Option Text → Frame
new_frame command headers body = record {
  command = command;
  headers = elim headers [ none ↦ [] | some hs ↦ hs ];
  body = elim body [ none ↦ [] | some s ↦ s ];
}

-- Byte.LF and Byte.NULL
abbrev pub line_feed : ℕ
line_feed = 0x0A

abbrev pub null_byte : ℕ
null_byte = 0x00

-- Array.join
abbrev pub join : ℕ → List Text → Text
join separator [] = []
join separator (x ∷ []) = x
join separator (x ∷ y ∷ rest) = x ++ (separator ∷ join separator (y ∷ rest))

abbrev pub header_lines : List (Text × Text) → List Text
header_lines [] = []
header_lines ((name, value) ∷ rest) = (name ++ (b':' ∷ value)) ∷ header_lines rest

-- The length counts UTF-16 code units, not bytes. An empty body has none.
abbrev pub length_line : Text → List Text
length_line [] = []
length_line body = (codes "content-length:" ++ natural_to_string 10 (length body)) ∷ []

-- Frame.toString
unfoldable pub to_string : Frame → Text
to_string f =
    join line_feed
      (f.command ∷ (header_lines f.headers ++ (length_line f.body ++ (line_feed ∷ f.body) ∷ [])))

-- Frame.marshall
unfoldable pub marshall : Text → Option (Dict Text Text) → Option Text → Text
unfolding new_frame to_string
marshall command headers body = to_string (new_frame command headers body) ++ null_byte ∷ []
