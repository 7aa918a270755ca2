-- ===== src/Stomp/Pieces.antt =====
-- _transmit sends the whole text of a frame, in pieces that are not too long.
use distributed_storage_with.Base.{
  ℕ, zero, suc, ◌+◌, ◌≤◌, ◌<◌, ◌≡◌, refl, ap, ◌∙◌, List, [], ◌∷◌, ◌++◌, Option, some, inl, inr, ltb,
  ltb→lt, length, take, drop, Text, Dict, All, Bool-cases, append-take-drop, length-take-le,
  length-drop, arith,
}
use mathlib.Core.List.{append-nil}
use distributed_storage_with.Mqtt.Faults.{ok}
use distributed_storage_with.Mqtt.Client.{open_state}
use distributed_storage_with.Stomp.Frame.{marshall}
use distributed_storage_with.Stomp.Client.{
  StompClient, max_frame_size, with_piece, pieces, emit_all, send_pieces, transmit,
}

abbrev pub joined : List Text → Text
joined [] = []
joined (x ∷ xs) = x ++ joined xs

-- What the loop has sent when it ends: the whole text, in pieces up to the limit
abbrev pub Cut : ℕ → Text → List Text → Type 0
Cut limit out texts = (joined texts ≡ out) × All (λ (t : Text). length t ≤ limit) texts

pieces-Cut :
    (limit fuel : ℕ) (out : Text)
    → 0 < limit
    → length out < fuel
    → (texts : List Text) × (pieces limit fuel out ≡ some texts) × Cut limit out texts
unfolding pieces
pieces-Cut limit zero out positive enough = absurd (omega arith)
pieces-Cut limit (suc fuel) out positive enough = elim (Bool-cases (ltb limit (length out))) [
  | inl long ↦
      let more = ltb→lt limit (length out) long in
      let shorter = length-drop limit out in
      let (texts, returns, (whole, short)) =
        pieces-Cut limit fuel (drop limit out) positive (omega (arith, more, shorter)) in
      (
        take limit out ∷ texts,
        rw long (ap (with_piece (take limit out)) returns),
        (
          ap (λ rest. take limit out ++ rest) whole ∙ append-take-drop limit out,
          (length-take-le limit out, short),
        ),
      )
  | inr last ↦ (out ∷ [], rw last refl, (append-nil out, (ground arith, tt)))
]

-- Over an open socket _transmit returns, and what it has sent is the text of the frame, with the byte
-- that ends it, cut into pieces of which none is longer than MAX_FRAME_SIZE.
pub transmit-Cut :
    (command : Text) (headers : Option (Dict Text Text)) (body : Option Text) (c : StompClient)
    → c.socket ≡ open_state
    → (texts : List Text) × (transmit command headers body c ≡ (ok tt, emit_all texts c))
      × Cut max_frame_size (marshall command headers body) texts
unfolding transmit
transmit-Cut command headers body c is_open =
    let out = marshall command headers body in
    let positive : 0 < max_frame_size = unfold max_frame_size in omega arith in
    let (texts, returns, cut) =
      pieces-Cut max_frame_size (length out + 1) out positive (omega arith) in
    (
      texts,
      ap (λ r. send_pieces r c.socket c) returns
          ∙ ap (λ state. send_pieces (some texts) state c) is_open,
      cut,
    )
