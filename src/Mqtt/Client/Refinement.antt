-- ===== src/Mqtt/Client/Refinement.antt =====
-- The receiving side keeps the contract of the qualities of service.
use distributed_storage_with.Base.{
  ℕ, ◌≡◌, refl, sym, subst, ap, ◌∙◌, false, List, [], ◌∷◌, ◌++◌, Option, some, Dict, lookup, insert,
  remove, option_keeps,
}
use mathlib.Core.List.{append-nil}
use distributed_storage_with.Mqtt.Faults.{ok}
use distributed_storage_with.Mqtt.Message.{Message}
use distributed_storage_with.Mqtt.Wire.{
  puback, pubrec, pubrel, pubcomp, Number, num, WireMessage, new_wire_message, reply_message,
}
use distributed_storage_with.Mqtt.Wire.Encode.{encode, write_body, flags, rem_length}
use distributed_storage_with.Mqtt.Length.{encode_mbi}
use distributed_storage_with.Mqtt.Client.{
  ClientImpl, Event, sent, arrived, Effect, done, then_do, emit, local_key, storage_key,
  received_prefix, number_Eq,
}
use distributed_storage_with.Mqtt.Client.Storing.{store, hex_of}
use distributed_storage_with.Mqtt.Client.Sending.{schedule_message}
use distributed_storage_with.Mqtt.Client.Welcome.{forget}
use distributed_storage_with.Mqtt.Client.Receiving.{
  receive_message, receive_quality, receive_publish, released, on_pubrel, on_packet,
}
use distributed_storage_with.Mqtt.Client.Receiver.{
  Content, Delivery, at_most_once, at_least_once, exactly_once, release, message_with, publish_with,
  packet_of, Inbox, hand_over, accept, accept_all, payloads, arrivals, inbox, live, after_sending,
  schedule_message-live, reply_bytes, insert-payloads, remove-payloads, payload_of, lookup-payloads,
  arrivals-append,
}

puback_bytes : (id : ℕ) → encode (reply_message puback (some (num id))) ≡ ok (reply_bytes 0x40 id)
unfolding encode write_body flags rem_length reply_message new_wire_message reply_bytes encode_mbi
puback_bytes id = refl

pubrec_bytes : (id : ℕ) → encode (reply_message pubrec (some (num id))) ≡ ok (reply_bytes 0x50 id)
unfolding encode write_body flags rem_length reply_message new_wire_message reply_bytes encode_mbi
pubrec_bytes id = refl

pubcomp_bytes : (id : ℕ) → encode (reply_message pubcomp (some (num id))) ≡ ok (reply_bytes 0x70 id)
unfolding encode write_body flags rem_length reply_message new_wire_message reply_bytes encode_mbi
pubcomp_bytes id = refl

arrivals-sent :
    (log : List Event) (bytes : List ℕ) → arrivals (log ++ sent bytes ∷ []) ≡ arrivals log
arrivals-sent log bytes = arrivals-append log (sent bytes ∷ []) ∙ append-nil (arrivals log)

abbrev box_of : Dict Number (Option Message) → List (Option Message) → Inbox
box_of held taken = record { held = held; taken = taken }

-- What a delivery to a live client comes to: it returns, the client is live, and the inbox is `box`.
abbrev pub Comes : Inbox → Effect (Unit {0}) → Type 0
Comes box r = (c' : ClientImpl) × (r ≡ done (live c')) × (inbox c' ≡ box)

-- A packet that the client sends leaves the inbox as it is.
answered :
    (box : Inbox) (m : WireMessage) (bytes : List ℕ) (c : ClientImpl)
    → encode m ≡ ok bytes
    → inbox c ≡ box
    → Comes box (schedule_message m (live c))
answered box m bytes c encoded e = (
  after_sending bytes c,
  schedule_message-live m bytes c encoded,
  ap (box_of (payloads c.received_messages)) (arrivals-sent c.log bytes) ∙ e,
)

arrived_lem :
    (message : Option Message) (c : ClientImpl)
    → inbox (emit (arrived message) c)
      ≡ record (inbox c) { taken = (inbox c).taken ++ message ∷ [] }
arrived_lem message c =
    ap (box_of (payloads c.received_messages)) (arrivals-append c.log (arrived message ∷ []))

at_least_once_refines :
    (message : Message) (id : ℕ) (c : ClientImpl)
    → Comes
        (record (inbox c) { taken = (inbox c).taken ++ some message ∷ [] })
        (receive_quality 1 (publish_with message (some (num id))) (live c))
unfolding receive_quality receive_message new_wire_message
at_least_once_refines message id c =
    let reply = reply_message puback (some (num id)) in
    let (c', returns, same) =
      answered (inbox c) reply (reply_bytes 0x40 id) c (puback_bytes id) refl in
    (
      emit (arrived (some message)) c',
      ap
          (λ (r : Effect (Unit {0})).
            then_do r λ c''. done (receive_message (publish_with message (some (num id))) c''))
          returns,
      arrived_lem (some message) c'
          ∙ ap (λ (box : Inbox). record box { taken = box.taken ++ some message ∷ [] }) same,
    )

exactly_once_refines :
    (m : Content) (id : ℕ) (c : ClientImpl)
    → Comes
        (accept (exactly_once m id) (inbox c))
        (receive_quality 2 (publish_with (message_with 2 m) (some (num id))) (live c))
unfolding receive_quality store hex_of new_wire_message local_key storage_key
exactly_once_refines m id c =
    let w = publish_with (message_with 2 m) (some (num id)) in
    let c' : ClientImpl = record c { received_messages = insert (num id) w c.received_messages } in
    answered (accept (exactly_once m id) (inbox c)) (reply_message pubrec (some (num id)))
      (reply_bytes 0x50 id) (store false w c').1 (pubrec_bytes id)
      (ap (λ held. box_of held (arrivals c.log)) (insert-payloads (num id) w c.received_messages))

released_refines :
    (id : ℕ) (c : ClientImpl)
    → (c' : ClientImpl) × (released (reply_message pubrel (some (num id))) (live c) ≡ live c')
      × (inbox c' ≡ accept (release id) (inbox c))
unfolding released receive_message forget local_key storage_key payload_of reply_message
    new_wire_message
released_refines id c =
    let here = lookup-payloads (num id) c.received_messages in
    let forgotten = forget received_prefix (some (num id)) c in
    option_keeps
      (λ r. (c' : ClientImpl) × (r ≡ live c') × (inbox c' ≡ accept (release id) (inbox c)))
      (lookup (num id) c.received_messages) _ _
      (λ missing. (
        forgotten,
        refl,
        sym (ap (λ o. hand_over o id (inbox c)) (here ∙ (ap payload_of missing ∙ refl))),
      ))
      λ m found. (
        record (emit (arrived m.payload_message) forgotten) {
          received_messages = remove (num id) c.received_messages;
        },
        refl,
        ap (λ held. box_of held (arrivals (c.log ++ arrived m.payload_message ∷ [])))
              (remove-payloads (num id) c.received_messages)
            ∙ ap (box_of (remove (num id) (payloads c.received_messages)))
                (arrivals-append c.log (arrived m.payload_message ∷ []))
            ∙ sym (ap (λ o. hand_over o id (inbox c)) (here ∙ ap payload_of found)),
      )

-- The entries of `_sentMessages` as `for … in` visits them
module _ (order : Dict Number WireMessage → List (Number × WireMessage)) where
  -- Packets that come in one after the other, until one throws
  abbrev pub receive_all : List Delivery → ClientImpl → Effect (Unit {0})
  receive_all [] c = done c
  receive_all (d ∷ ds) c =
      then_do (on_packet order (packet_of d).type (packet_of d) c) (receive_all ds)

  on_packet-Comes :
      (d : Delivery) (c : ClientImpl)
      → Comes (accept d (inbox c)) (on_packet order (packet_of d).type (packet_of d) (live c))
  unfolding on_packet receive_publish receive_quality receive_message on_pubrel reply_message
      new_wire_message
  on_packet-Comes (at_most_once m) c =
      (emit (arrived (some (message_with 0 m))) c, refl, arrived_lem (some (message_with 0 m)) c)
  on_packet-Comes (at_least_once m id) c = at_least_once_refines (message_with 1 m) id c
  on_packet-Comes (exactly_once m id) c = exactly_once_refines m id c
  on_packet-Comes (release id) c =
      let (c', here, box) = released_refines id c in
      let reply = reply_message pubcomp (some (num id)) in
      subst (λ x. Comes (accept (release id) (inbox c)) (schedule_message reply x)) (sym here)
        (answered (accept (release id) (inbox c)) reply (reply_bytes 0x70 id) c' (pubcomp_bytes id)
          box)

  -- A client that is connected and whose application listens takes any sequence of deliveries without an
  -- exception, goes on being so, and has handed over and holds back what the contract says: messages of
  -- quality 0 and 1 are handed over each time they come, one of quality 2 is held at its identifier, in
  -- place of one that is held there, and is handed over, and held no longer, at the release.
  pub receive_all-Comes :
      (ds : List Delivery) (c : ClientImpl)
      → Comes (accept_all ds (inbox c)) (receive_all ds (live c))
  receive_all-Comes [] c = (c, refl, refl)
  receive_all-Comes (d ∷ ds) c =
      let (c1, returns, box) = on_packet-Comes d c in
      let (c2, returns', box') = receive_all-Comes ds c1 in
      (c2, ap (λ r. then_do r (receive_all ds)) returns ∙ returns', box' ∙ ap (accept_all ds) box)
