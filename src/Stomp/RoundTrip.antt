-- ===== src/Stomp/RoundTrip.antt =====
-- Frame.unmarshall after Frame.marshall: what is received of the frames that were sent.
use distributed_storage_with.Base.{
  ◌+◌, ◌≡◌, refl, sym, ◌≢◌, subst, ap, ◌∙◌, Bool, true, false, List, [], ◌∷◌, ◌++◌, map, none, some,
  length, take, Text, All, lookup, text_Eq,
}
use mathlib.Core.List.{append_assoc}
use distributed_storage_with.Stomp.Frame.{
  Frame, line_feed, null_byte, header_lines, to_string, marshall, new_frame,
}
use distributed_storage_with.Stomp.Parse.{
  split_at, headers_of, frame_of, body_at, unmarshall_single, unmarshall_all, unmarshall,
  split_frames,
}
use distributed_storage_with.Stomp.Lines.{
  Lacks, IsLine, take-length, find_divider-join, split_at-join, split_frames-append, join_begins,
  line-Lacks,
}
use distributed_storage_with.Stomp.Headers.{AreHeaders, AreNew, headers_of-header_lines}
use distributed_storage_with.Stomp.Marshalled.{
  content_length, length_header, received, IsPlain, lines_of, to_string-lines, All-append, body_of,
  added_new, length_readable, length_one_line, header_lines-All,
}

lines_lack : (xs : List Text) → All IsLine xs → All (Lacks line_feed) xs
lines_lack [] h = tt
lines_lack (x ∷ xs) h = (line-Lacks x h.0, lines_lack xs h.1)

-- A text that does not begin with a line feed.
abbrev Begins : Text → Type 0
Begins [] = ⊥
Begins (c ∷ s) = c ≢ line_feed

line-Begins : (x t : Text) → IsLine x → Begins (x ++ t)
line-Begins [] t h = absurd h
line-Begins (c ∷ x) t h = h.0

split_first :
    (after : Bool) (t rest : Text)
    → Begins t
    → Lacks null_byte t
    → split_frames after (t ++ null_byte ∷ rest) ≡ t ∷ split_frames true rest
split_first after [] rest b h = absurd b
split_first after (c ∷ s) rest b h = split_frames-append after c s rest b h

unmarshall_first :
    (t : Text) (rest : List Text)
    → Begins t
    → unmarshall_all (t ∷ rest) ≡ unmarshall_single t ∷ unmarshall_all rest
unfolding unmarshall_all
unmarshall_first [] rest b = absurd b
unmarshall_first (c ∷ s) rest b = refl

module _ (f : Frame) (plain : IsPlain f) where
  all_headers : AreHeaders (f.headers ++ length_header f.body)
  all_headers =
      All-append _ f.headers (length_header f.body) plain.readable (length_readable f.body)

  all_new : AreNew [] (f.headers ++ length_header f.body)
  all_new = added_new f.body f.headers plain.distinct plain.no_length

  header_lines_read :
      headers_of (header_lines (f.headers ++ length_header f.body)) []
      ≡ f.headers ++ length_header f.body
  header_lines_read =
      headers_of-header_lines (f.headers ++ length_header f.body) [] all_headers all_new

  all_lines : All IsLine (f.command ∷ header_lines (f.headers ++ length_header f.body))
  all_lines = (
    plain.command_line,
    header_lines-All (f.headers ++ length_header f.body)
        (All-append _ f.headers (length_header f.body) plain.one_line (length_one_line f.body)),
  )

  body_read :
      body_at
        (length (lines_of f) + 2)
        (lookup content_length (f.headers ++ length_header f.body))
        (lines_of f ++ line_feed ∷ line_feed ∷ f.body)
      ≡ f.body
  body_read = body_of f.body f.headers (lines_of f) plain.no_length

  unmarshall_single-to_string : unmarshall_single (to_string f) ≡ received f
  unfolding unmarshall_single
  unmarshall_single-to_string =
      let lines = header_lines (f.headers ++ length_header f.body) in
      let end = line_feed ∷ line_feed ∷ f.body in
      let text = lines_of f ++ end in
      let start = length (lines_of f) + 2 in
      ap unmarshall_single (to_string-lines f)
      ∙ ap
          (λ o. elim o [
            | none ↦ frame_of (split_at line_feed []) 1 text
            | some divider ↦ frame_of (split_at line_feed (take divider text)) (divider + 2) text
          ])
          (find_divider-join f.command lines f.body all_lines)
      ∙ ap (λ l. frame_of (split_at line_feed l) start text) (take-length (lines_of f) end)
      ∙ ap (λ l. frame_of l start text)
          (split_at-join f.command lines (lines_lack (f.command ∷ lines) all_lines))
      ∙ ap
          (λ hs. record {
            command = f.command;
            headers = hs;
            body = body_at start (lookup content_length hs) text;
          })
          header_lines_read
      ∙ ap
          (λ b. record {
            command = f.command;
            headers = f.headers ++ length_header f.body;
            body = b;
          })
          body_read

  to_string-Begins : Begins (to_string f)
  to_string-Begins =
      let lines = header_lines (f.headers ++ length_header f.body) in
      let (t, e) = join_begins f.command lines (line_feed ∷ line_feed ∷ f.body) in
      subst Begins (sym (to_string-lines f ∙ e)) (line-Begins f.command t plain.command_line)

-- Several frames, one behind the other.
pub wire : List Frame → Text
unfolding marshall
wire [] = []
wire (f ∷ fs) = marshall f.command (some f.headers) (some f.body) ++ wire fs

unmarshall_wire :
    (after : Bool) (fs : List Frame)
    → All IsPlain fs
    → unmarshall_all (split_frames after (wire fs)) ≡ map received fs
unfolding wire unmarshall_all split_frames marshall new_frame
unmarshall_wire after [] h = refl
unmarshall_wire after (f ∷ fs) h =
    ap (λ l. unmarshall_all (split_frames after l))
      (append_assoc (to_string f) (null_byte ∷ []) (wire fs))
    ∙ ap unmarshall_all
        (split_first after (to_string f) (wire fs) (to_string-Begins f h.0) h.0.no_null)
    ∙ unmarshall_first (to_string f) (split_frames true (wire fs)) (to_string-Begins f h.0)
    ∙ ap (λ g. g ∷ unmarshall_all (split_frames true (wire fs))) (unmarshall_single-to_string f h.0)
    ∙ ap (λ l. received f ∷ l) (unmarshall_wire true fs h.1)

-- What is marshalled frame by frame and sent in one text, is received as the same frames in the same
-- order, with their commands, headers and bodies, and one more header for the length of a body that
-- is not empty.
pub unmarshall-wire : (fs : List Frame) → All IsPlain fs → unmarshall (wire fs) ≡ map received fs
unfolding unmarshall
unmarshall-wire fs h = unmarshall_wire false fs h
