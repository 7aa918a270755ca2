-- ===== src/Mqtt/Client/ExactlyOnce.antt =====
-- Quality of service 2: a message that is sent and released any number of times arrives once.
use distributed_storage_with.Base.{
  ℕ, zero, suc, ◌≡◌, refl, ap, ◌∙◌, true, List, [], ◌∷◌, ◌++◌, Option, none, some, ◌==◌, Dict,
  lookup, remove, lookup-remove, replicate,
}
use distributed_storage_with.Mqtt.Message.{Message}
use distributed_storage_with.Mqtt.Wire.{Number, num, WireMessage}
use distributed_storage_with.Mqtt.Client.{ClientImpl, done, number_Eq}
use distributed_storage_with.Mqtt.Client.Persistence.{lookup-insert_same}
use distributed_storage_with.Mqtt.Client.Receiver.{
  Content, Delivery, exactly_once, release, message_with, Inbox, hand_over, accept, accept_all,
  arrivals, inbox, live,
}
use distributed_storage_with.Mqtt.Client.Refinement.{receive_all, receive_all-Comes}

accept_all-append :
    (ds es : List Delivery) (box : Inbox)
    → accept_all (ds ++ es) box ≡ accept_all es (accept_all ds box)
accept_all-append [] es box = refl
accept_all-append (d ∷ ds) es box = accept_all-append ds es (accept d box)

module _ (m : Content) (id : ℕ) where
  -- The message is held, and nothing has been handed over.
  abbrev Holds : Inbox → Inbox → Type 0
  Holds box box' =
      (lookup (num id) box'.held ≡ some (some (message_with 2 m))) × (box'.taken ≡ box.taken)

  offered-Holds :
      (n : ℕ) (box : Inbox) → Holds box (accept_all (replicate (suc n) (exactly_once m id)) box)
  offered-Holds zero box = (lookup-insert_same (num id) (some (message_with 2 m)) box.held, refl)
  offered-Holds (suc n) box = offered-Holds n (accept (exactly_once m id) box)

  lookup-remove_same :
      (d : Dict Number (Option Message)) → lookup (num id) (remove (num id) d) ≡ none
  lookup-remove_same d =
      let same : (num id == num id) ≡ true = (number_Eq.equals_iff (num id) (num id)).1 refl in
      lookup-remove (num id) (num id) d ∙ (rw same refl)

  -- Nothing is held at the identifier, so further releases do nothing.
  released_again :
      (k : ℕ) (box : Inbox)
      → lookup (num id) box.held ≡ none
      → accept_all (replicate k (release id)) box ≡ box
  released_again zero box free = refl
  released_again (suc k) box free =
      ap (λ o. accept_all (replicate k (release id)) (hand_over o id box)) free
      ∙ released_again k box free

  released_once :
      (k : ℕ) (box box' : Inbox)
      → Holds box box'
      → (accept_all (replicate (suc k) (release id)) box').taken
        ≡ box.taken ++ some (message_with 2 m) ∷ []
  released_once k box box' (holds, same) =
      let message = some (message_with 2 m) in
      ap (λ o. (accept_all (replicate k (release id)) (hand_over o id box')).taken) holds
      ∙ ap (λ (b : Inbox). b.taken)
          (released_again k (hand_over (some message) id box') (lookup-remove_same box'.held))
      ∙ ap (λ taken. taken ++ message ∷ []) same

  -- A message of quality 2 that comes in once or more often, as after a lost PUBREC, and is then released
  -- once or more often, as after a lost PUBCOMP, reaches the application of a connected client that
  -- listens exactly once, and no packet makes the client throw.
  pub receive_all-exactly_once :
      (order : Dict Number WireMessage → List (Number × WireMessage)) (n k : ℕ) (c : ClientImpl)
      → (c' : ClientImpl) × (receive_all order
            (replicate (suc n) (exactly_once m id) ++ replicate (suc k) (release id))
            (live c)
          ≡ done (live c'))
        × (arrivals c'.log ≡ arrivals c.log ++ some (message_with 2 m) ∷ [])
  receive_all-exactly_once order n k c =
      let offers = replicate (suc n) (exactly_once m id) in
      let releases = replicate (suc k) (release id) in
      let (c', returns, box) = receive_all-Comes order (offers ++ releases) (live c) in
      (
        c',
        returns,
        ap (λ (b : Inbox). b.taken) (box ∙ accept_all-append offers releases (inbox c))
            ∙ released_once k (inbox c) (accept_all offers (inbox c)) (offered-Holds n (inbox c)),
      )
