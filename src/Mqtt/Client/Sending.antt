-- ===== src/Mqtt/Client/Sending.antt =====
-- How packets get onto the socket: the queue, the identifiers, the connection and its loss.
use distributed_storage_with.Base.{
  ℕ, zero, suc, ◌+◌, Bool, true, false, not, ◌&&◌, List, [], ◌∷◌, ◌++◌, Option, none, some,
  if◌then◌else◌, ltb, length, Text, codes, Dict, insert, contains_key,
}
use mathlib.Core.List.{reverse}
use distributed_storage_with.Radix.{natural_to_string}
use distributed_storage_with.Mqtt.Faults.{Result, ok, throw, type_error, too_many_messages}
use distributed_storage_with.Mqtt.Wire.{Number, num, WireMessage, is_publish}
use distributed_storage_with.Mqtt.Wire.Encode.{encode}
use distributed_storage_with.Mqtt.Client.{
  ClientImpl, ConnectOptions, Pinger, ReadyState, connecting, open_state, closed_state, opened,
  closed, sent, connection_lost, connect_failed, Effect, done, emit, call, number_Eq, reset_pinger,
  cancel_pinger, new_pinger,
}
use distributed_storage_with.Mqtt.Client.Storing.{store, put_message}

-- The codes of `ERROR` that a lost connection is reported with
pub ok_code : ℕ
ok_code = 0

abbrev pub connect_timeout_code : ℕ
connect_timeout_code = 1

abbrev pub ping_timeout_code : ℕ
ping_timeout_code = 4

abbrev pub internal_error_code : ℕ
internal_error_code = 5

abbrev pub connack_returncode_code : ℕ
connack_returncode_code = 6

abbrev pub socket_error_code : ℕ
socket_error_code = 7

abbrev pub socket_close_code : ℕ
socket_close_code = 8

abbrev pub invalid_mqtt_message_type_code : ℕ
invalid_mqtt_message_type_code = 16

unfoldable pub socket_url : Bool → Text → ℕ → Text
socket_url ssl host port =
    (if ssl then codes "wss://" else codes "ws://")
    ++ (host ++ (b':' ∷ natural_to_string 10 port ++ codes "/mqtt"))

-- _doConnect(host, port), with the options that `connect` has set; the socket is made without fault.
unfoldable pub do_connect : Text → ℕ → ConnectOptions → ClientImpl → ClientImpl
unfolding new_pinger
do_connect host port options c = emit (opened (socket_url options.use_ssl host port)) (record c {
  connected = false;
  socket = some connecting;
  send_pinger = some (new_pinger options.keep_alive_interval);
  receive_pinger = some (new_pinger options.keep_alive_interval);
  connect_timeout = true;
})

abbrev pub is_open : Option ReadyState → Bool
is_open (some open_state) = true
is_open _ = false

-- The socket's callbacks are taken off it, and it is closed if it is open.
unfoldable pub drop_socket : ClientImpl → ClientImpl
drop_socket c = call (is_open c.socket) closed (record c { socket = none })

abbrev pub nth_text : List Text → ℕ → Text
nth_text [] n = codes "undefined"
nth_text (x ∷ xs) zero = x
nth_text (x ∷ xs) (suc n) = nth_text xs n

abbrev pub nth_port : List ℕ → ℕ → ℕ
nth_port [] n = 0
nth_port (x ∷ xs) zero = x
nth_port (x ∷ xs) (suc n) = nth_port xs n

-- The connection is given up, and the application is told.
unfoldable pub report : ℕ → ConnectOptions → ClientImpl → ClientImpl
report code options c =
    if c.connected
    then call c.on_connection_lost (connection_lost code) (record c { connected = false })
    else call options.on_failure (connect_failed code) c

-- The next host is tried, if there is one.
unfoldable pub next_host : ℕ → ConnectOptions → ClientImpl → ClientImpl
unfolding report do_connect
next_host code options c = elim options.hosts [
  | none ↦ report code options c
  | some hosts ↦
      if ltb (c.host_index + 1) (length hosts)
      then do_connect (nth_text hosts (c.host_index + 1))
          (nth_port options.ports (c.host_index + 1)) options
          (record c { host_index = c.host_index + 1 })
      else report code options c
]

abbrev pub cancelled : Option Pinger → Option Pinger
cancelled none = none
cancelled (some p) = some (cancel_pinger p)

unfoldable pub cleared : ClientImpl → ClientImpl
cleared c = record c {
  send_pinger = cancelled c.send_pinger;
  receive_pinger = cancelled c.receive_pinger;
  connect_timeout = false;
  msg_queue = [];
  notify_msg_sent = false;
}

-- _disconnected(errorCode); before the first `connect` there is no pinger to cancel.
unfoldable pub disconnected : ℕ → ClientImpl → Effect (Unit {0})
unfolding cleared drop_socket next_host
disconnected code c = elim c.connect_options [
  | none ↦ (throw type_error, c)
  | some options ↦ done (next_host code options (drop_socket (cleared c)))
]

abbrev pub reset_option : Option Pinger → Option Pinger
reset_option none = none
reset_option (some p) = some (reset_pinger p)

-- socket.send(bytes), which throws before the socket is open and does nothing after it was closed;
-- then the send pinger is reset.
unfoldable pub send_bytes : Result (List ℕ) → ReadyState → ClientImpl → Effect (Unit {0})
send_bytes (throw e) state c = (throw e, c)
send_bytes (ok bytes) connecting c = (throw type_error, c)
send_bytes (ok bytes) open_state c =
    done (emit (sent bytes) (record c { send_pinger = reset_option c.send_pinger }))
send_bytes (ok bytes) closed_state c = done (record c { send_pinger = reset_option c.send_pinger })

-- _socket_send(wireMessage)
unfoldable pub socket_send : WireMessage → ClientImpl → Effect (Unit {0})
unfolding send_bytes reset_pinger
socket_send m c = elim c.socket [
  | none ↦ (throw type_error, c)
  | some state ↦ send_bytes (encode m) state c
]

abbrev pub disconnect_done : Effect (Unit {0}) → Effect Bool
disconnect_done (throw e, c) = (throw e, c)
disconnect_done (ok _, c) = (ok true, record c { notify_msg_sent = false })

-- Whether the client has given up its queue, after a packet was sent: `_disconnected` does so.
abbrev pub sent_one : Effect (Unit {0}) → Effect Bool
sent_one (throw e, c) = (throw e, c)
sent_one (ok _, c) =
    if c.notify_msg_sent then disconnect_done (disconnected ok_code c) else (ok false, c)

-- The array that the loop takes messages from is the client's queue, in reverse, until `_disconnected`
-- gives the client a new one. An exception ends the loop and leaves the array as it is.
abbrev pub next_sent :
    Effect Bool
    → Bool
    → List WireMessage
    → (Bool → ClientImpl → Effect (Unit {0}))
    → Effect (Unit {0})
next_sent (ok gone, c) own rest continue = continue (own && not gone) c
next_sent (throw e, c) true rest continue = (throw e, record c { msg_queue = reverse rest })
next_sent (throw e, c) false rest continue = (throw e, c)

unfoldable pub process : List WireMessage → Bool → ClientImpl → Effect (Unit {0})
unfolding socket_send disconnected
process [] own c = done c
process (m ∷ rest) own c = next_sent (sent_one (socket_send m c)) own rest (process rest)

-- _process_queue()
unfoldable pub process_queue : ClientImpl → Effect (Unit {0})
unfolding process
process_queue c = process c.msg_queue true (record c { msg_queue = [] })

-- _schedule_message(message)
unfoldable pub schedule_message : WireMessage → ClientImpl → Effect (Unit {0})
unfolding process_queue
schedule_message m c =
    let c' : ClientImpl = record c { msg_queue = c.msg_queue ++ m ∷ [] } in
    if c.connected then process_queue c' else done c'

-- The `while` loop of _requires_ack; `none` means that the fuel ran out.
unfoldable pub free_identifier : ℕ → ℕ → Dict Number WireMessage → Option ℕ
free_identifier zero id messages = none
free_identifier (suc fuel) id messages =
    let next = free_identifier fuel (id + 1) messages in
    if contains_key (num id) messages then next else some id

-- maxMessageIdentifier
pub max_message_identifier : ℕ
max_message_identifier = 65536

-- What is stored is in `_sentMessages`, too, as the same object, so a sequence number shows there.
abbrev pub keep_sent : Result WireMessage × ClientImpl → Result WireMessage × ClientImpl
keep_sent (throw e, c) = (throw e, c)
keep_sent (ok m, c) =
    (ok m, record c { sent_messages = put_message m.message_identifier m c.sent_messages })

-- A message of type PUBLISH is stored.
unfoldable pub stored_sent : WireMessage → ClientImpl → Result WireMessage × ClientImpl
unfolding store
stored_sent m c = if is_publish m.type then keep_sent (store true m c) else (ok m, c)

unfoldable pub given_identifier :
    Option ℕ → WireMessage → ClientImpl → Result WireMessage × ClientImpl
unfolding stored_sent
given_identifier none m c = (throw type_error, c)
given_identifier (some id) m c =
    let m' : WireMessage = record m { message_identifier = some (num id) } in
    stored_sent m'
      (record c { message_identifier = id; sent_messages = insert (num id) m' c.sent_messages })

-- _requires_ack(wireMessage), which gives the message an identifier that no other unacknowledged
-- message has. The last statement compares with `this.maxMessagIdentifier`, which does not exist, and
-- does nothing.
unfoldable pub requires_ack : WireMessage → ClientImpl → Result WireMessage × ClientImpl
unfolding given_identifier free_identifier max_message_identifier
requires_ack m c =
    let count = length c.sent_messages in
    if ltb max_message_identifier count
    then (throw too_many_messages, c)
    else given_identifier (free_identifier (count + 1) c.message_identifier c.sent_messages) m c
