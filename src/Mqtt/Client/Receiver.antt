-- ===== src/Mqtt/Client/Receiver.antt =====
-- The receiving side of the client against its contract: what the qualities of service promise.
use distributed_storage_with.Base.{
  ℕ, ◌≡◌, refl, ap, Bool, true, false, List, [], ◌∷◌, ◌++◌, Option, none, some, inl, inr, Text,
  Dict, lookup, insert, remove, ◌==◌, Bool-cases,
}
use distributed_storage_with.Mqtt.Faults.{ok}
use distributed_storage_with.Mqtt.Message.{Message, octets}
use distributed_storage_with.Mqtt.Wire.{
  publish, pubrel, Number, num, WireMessage, new_wire_message, reply_message,
}
use distributed_storage_with.Mqtt.Wire.Encode.{encode, write_uint16}
use distributed_storage_with.Mqtt.Client.{
  ClientImpl, open_state, Event, opened, closed, sent, delivered, arrived, connection_lost,
  connect_failed, connect_succeeded, acknowledged, timer_set, timer_cancelled, done, number_Eq,
}
use distributed_storage_with.Mqtt.Client.Sending.{
  reset_option, send_bytes, sent_one, next_sent, socket_send, process, process_queue,
  schedule_message,
}

-- A message that the broker publishes, with each of the qualities of service, and the release of an
-- identifier
pub record Content : Type 0 where
  pub payload : List ℕ
  pub name : Text
  pub retained : Bool
  pub duplicate : Bool

pub data Delivery : Type 0 where
  at_most_once : Content → Delivery
  at_least_once exactly_once : Content → ℕ → Delivery
  release : ℕ → Delivery

abbrev pub message_with : ℕ → Content → Message
message_with qos m = record {
  payload = octets m.payload;
  destination_name = some m.name;
  qos = qos;
  retained = m.retained;
  duplicate = m.duplicate;
}

-- The packet that decodeMessage makes of it
abbrev pub publish_with : Message → Option Number → WireMessage
publish_with message id = record (new_wire_message publish) {
  message_identifier = id;
  payload_message = some message;
}

abbrev pub packet_of : Delivery → WireMessage
packet_of (at_most_once m) = publish_with (message_with 0 m) none
packet_of (at_least_once m id) = publish_with (message_with 1 m) (some (num id))
packet_of (exactly_once m id) = publish_with (message_with 2 m) (some (num id))
packet_of (release id) = reply_message pubrel (some (num id))

-- The contract: what is held until its release, and what the application has got, in order
pub record Inbox : Type 0 where
  pub held : Dict Number (Option Message)
  pub taken : List (Option Message)

abbrev pub hand_over : Option (Option Message) → ℕ → Inbox → Inbox
hand_over none id box = box
hand_over (some message) id box = record {
  held = remove (num id) box.held;
  taken = box.taken ++ message ∷ [];
}

abbrev pub accept : Delivery → Inbox → Inbox
accept (at_most_once m) box = record box { taken = box.taken ++ some (message_with 0 m) ∷ [] }
accept (at_least_once m id) box = record box { taken = box.taken ++ some (message_with 1 m) ∷ [] }
accept (exactly_once m id) box = record box {
  held = insert (num id) (some (message_with 2 m)) box.held;
}
accept (release id) box = hand_over (lookup (num id) box.held) id box

abbrev pub accept_all : List Delivery → Inbox → Inbox
accept_all [] box = box
accept_all (d ∷ ds) box = accept_all ds (accept d box)

-- What a client comes to, in the contract's terms
abbrev pub payloads : Dict Number WireMessage → Dict Number (Option Message)
payloads [] = []
payloads ((id, m) ∷ messages) = (id, m.payload_message) ∷ payloads messages

abbrev pub arrivals : List Event → List (Option Message)
arrivals [] = []
arrivals (arrived message ∷ log) = message ∷ arrivals log
arrivals (_ ∷ log) = arrivals log

abbrev pub inbox : ClientImpl → Inbox
inbox c = record { held = payloads c.received_messages; taken = arrivals c.log }

-- A client that is connected over an open socket, has nothing left to send, and whose application
-- listens
abbrev pub live : ClientImpl → ClientImpl
live c = record c {
  connected = true;
  socket = some open_state;
  msg_queue = [];
  notify_msg_sent = false;
  on_message_arrived = true;
}

abbrev pub after_sending : List ℕ → ClientImpl → ClientImpl
after_sending bytes c = record c {
  log = c.log ++ sent bytes ∷ [];
  send_pinger = reset_option c.send_pinger;
}

pub schedule_message-live :
    (m : WireMessage) (bytes : List ℕ) (c : ClientImpl)
    → encode m ≡ ok bytes
    → schedule_message m (live c) ≡ done (live (after_sending bytes c))
unfolding schedule_message process_queue process socket_send send_bytes
schedule_message-live m bytes c encoded =
    ap (λ r. next_sent (sent_one (send_bytes r open_state (live c))) true [] (process [])) encoded

unfoldable pub reply_bytes : ℕ → ℕ → List ℕ
reply_bytes first id = first ∷ 2 ∷ write_uint16 id

pub insert-payloads :
    (id : Number) (m : WireMessage) (messages : Dict Number WireMessage)
    → payloads (insert id m messages) ≡ insert id m.payload_message (payloads messages)
unfolding insert
insert-payloads id m [] = refl
insert-payloads id m ((j, x) ∷ messages) = elim (Bool-cases (j == id)) [
  | inl same ↦ rw same refl
  | inr other ↦
      rw other (ap (λ rest. (j, x.payload_message) ∷ rest) (insert-payloads id m messages))
]

pub remove-payloads :
    (id : Number) (messages : Dict Number WireMessage)
    → payloads (remove id messages) ≡ remove id (payloads messages)
unfolding remove
remove-payloads id [] = refl
remove-payloads id ((j, x) ∷ messages) = elim (Bool-cases (j == id)) [
  | inl same ↦ rw same (remove-payloads id messages)
  | inr other ↦ rw other (ap (λ rest. (j, x.payload_message) ∷ rest) (remove-payloads id messages))
]

unfoldable pub payload_of : Option WireMessage → Option (Option Message)
payload_of none = none
payload_of (some m) = some m.payload_message

pub lookup-payloads :
    (id : Number) (messages : Dict Number WireMessage)
    → lookup id (payloads messages) ≡ payload_of (lookup id messages)
unfolding lookup payload_of
lookup-payloads id [] = refl
lookup-payloads id ((j, x) ∷ messages) = elim (Bool-cases (j == id)) [
  | inl same ↦ rw same refl
  | inr other ↦ rw other (lookup-payloads id messages)
]

pub arrivals-append :
    (log more : List Event) → arrivals (log ++ more) ≡ arrivals log ++ arrivals more
arrivals-append [] more = refl
arrivals-append (arrived message ∷ log) more =
    ap (λ rest. message ∷ rest) (arrivals-append log more)
arrivals-append (opened url ∷ log) more = arrivals-append log more
arrivals-append (closed ∷ log) more = arrivals-append log more
arrivals-append (sent bytes ∷ log) more = arrivals-append log more
arrivals-append (delivered message ∷ log) more = arrivals-append log more
arrivals-append (connection_lost code ∷ log) more = arrivals-append log more
arrivals-append (connect_failed code ∷ log) more = arrivals-append log more
arrivals-append (connect_succeeded ∷ log) more = arrivals-append log more
arrivals-append (acknowledged ∷ log) more = arrivals-append log more
arrivals-append (timer_set ∷ log) more = arrivals-append log more
arrivals-append (timer_cancelled ∷ log) more = arrivals-append log more
