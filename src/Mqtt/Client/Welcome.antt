-- ===== src/Mqtt/Client/Welcome.antt =====
-- The socket opens, and the broker accepts or refuses the connection (CONNACK).
use distributed_storage_with.Base.{
  ℕ, zero, Bool, true, false, ◌&&◌, List, [], ◌∷◌, Option, none, some, if◌then◌else◌, leb, length,
  Text, text_Eq, Dict, lookup, remove,
}
use distributed_storage_with.Mqtt.Faults.{throw, type_error}
use distributed_storage_with.Mqtt.Wire.{
  connect, pubrel, Number, WireMessage, is_publish, new_wire_message, reply_message,
}
use distributed_storage_with.Mqtt.Client.{
  ClientImpl, ConnectOptions, open_state, connect_succeeded, Effect, done, then_do, call, number_Eq,
  storage_key, sent_prefix, received_prefix,
}
use distributed_storage_with.Mqtt.Client.Sending.{
  socket_send, process_queue, schedule_message, disconnected, connack_returncode_code,
}

unfoldable pub connect_message : ConnectOptions → Text → WireMessage
unfolding new_wire_message
connect_message options client_id = record (new_wire_message connect) {
  client_id = client_id;
  user_name = options.user_name;
  password = options.password;
  will_message = options.will_message;
  clean_session = options.clean_session;
  keep_alive_interval = options.keep_alive_interval;
}

-- _on_socket_open; the socket is open now.
unfoldable pub on_socket_open : ClientImpl → Effect (Unit {0})
unfolding connect_message
on_socket_open c = elim c.connect_options [
  | none ↦ (throw type_error, c)
  | some options ↦
      socket_send (connect_message options c.client_id) (record c { socket = some open_state })
]

-- obj[id], for an identifier that may be missing
abbrev pub find : Option Number → Dict Number WireMessage → Option WireMessage
find none messages = none
find (some id) messages = lookup id messages

abbrev pub delete : Option Number → Dict Number WireMessage → Dict Number WireMessage
delete none messages = messages
delete (some id) messages = remove id messages

-- localStorage.removeItem(prefix + this._localKey + id)
unfoldable pub forget : Text → Option Number → ClientImpl → ClientImpl
forget prefix id c = record c { local_storage = remove (storage_key prefix id c) c.local_storage }

unfoldable pub forget_all : Text → List (Number × WireMessage) → ClientImpl → ClientImpl
unfolding forget
forget_all prefix [] c = c
forget_all prefix ((_, m) ∷ rest) c = forget_all prefix rest (forget prefix m.message_identifier c)

-- With a clean session the messages of earlier connections are dropped.
unfoldable pub clean : ClientImpl → ClientImpl
unfolding forget_all
clean c =
    let c1 = forget_all sent_prefix c.sent_messages c in
    let c2 : ClientImpl = record c1 { sent_messages = [] } in
    let c3 = forget_all received_prefix c2.received_messages c2 in
    record c3 { received_messages = [] }

-- Array.sort by the difference of the sequence numbers; a difference with `undefined` is NaN, which
-- counts as 0.
unfoldable pub not_after : Option ℕ → Option ℕ → Bool
not_after (some a) (some b) = leb a b
not_after _ _ = true

unfoldable pub insert_sequenced : WireMessage → List WireMessage → List WireMessage
unfolding not_after
insert_sequenced m [] = m ∷ []
insert_sequenced m (x ∷ xs) =
    let rest = insert_sequenced m xs in
    if not_after m.sequence x.sequence then m ∷ x ∷ xs else x ∷ rest

unfoldable pub sort_sequenced : List WireMessage → List WireMessage
unfolding insert_sequenced
sort_sequenced [] = []
sort_sequenced (m ∷ ms) = insert_sequenced m (sort_sequenced ms)

abbrev pub messages_of : List (Number × WireMessage) → List WireMessage
messages_of [] = []
messages_of ((_, m) ∷ rest) = m ∷ messages_of rest

-- A message is sent again, or its release, if the broker has acknowledged that it received it.
unfoldable pub resent : WireMessage → WireMessage
unfolding reply_message
resent m =
    if is_publish m.type && m.pub_rec_received then reply_message pubrel m.message_identifier else m

unfoldable pub resend : List WireMessage → ClientImpl → Effect (Unit {0})
unfolding resent
resend [] c = done c
resend (m ∷ ms) c = then_do (schedule_message (resent m) c) (resend ms)

-- The client is connected, and looks for no other host.
abbrev pub accepted : ConnectOptions → ClientImpl → ClientImpl
accepted options c = record c {
  connected = true;
  host_index = elim options.hosts [ none ↦ c.host_index | some hosts ↦ length hosts ];
}

abbrev pub is_zero : Option ℕ → Bool
is_zero (some zero) = true
is_zero _ = false

-- The entries of `_sentMessages` as `for … in` visits them is a parameter: `order`.
module _ (order : Dict Number WireMessage → List (Number × WireMessage)) where
  unfoldable pub welcome : ConnectOptions → ClientImpl → Effect (Unit {0})
  unfolding resend sort_sequenced
  welcome options c =
      let c' = accepted options c in
      then_do (resend (sort_sequenced (messages_of (order c'.sent_messages))) c')
        λ c''. process_queue (call options.on_success connect_succeeded c'')

  unfoldable pub on_connack : WireMessage → ClientImpl → Effect (Unit {0})
  unfolding clean welcome
  on_connack m c = elim c.connect_options [
    | none ↦ (throw type_error, c)
    | some options ↦
        let c1 : ClientImpl = record c { connect_timeout = false } in
        let c2 = if options.clean_session then clean c1 else c1 in
        if is_zero m.return_code
        then welcome options c2
        else disconnected connack_returncode_code c2
  ]
