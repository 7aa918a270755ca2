-- ===== src/Mqtt/Client/Requests.antt =====
-- What the application asks of the client: connect, subscribe, unsubscribe, send and disconnect.
use distributed_storage_with.Base.{
  ℕ, Bool, true, false, List, [], ◌∷◌, Option, none, some, if◌then◌else◌, ltb, Text,
}
use distributed_storage_with.Mqtt.Faults.{Result, ok, throw, invalid_state}
use distributed_storage_with.Mqtt.Message.{Message}
use distributed_storage_with.Mqtt.Wire.{
  MessageType, publish, subscribe, unsubscribe, disconnect, WireMessage, new_wire_message,
}
use distributed_storage_with.Mqtt.Client.{
  ClientImpl, ConnectOptions, delivered, timer_set, Effect, done, emit, call,
}
use distributed_storage_with.Mqtt.Client.Sending.{
  do_connect, nth_text, nth_port, requires_ack, schedule_message,
}

-- The options of `subscribe` and `unsubscribe`; a timeout of 0 is none.
pub record RequestOptions : Type 0 where
  pub qos : Option ℕ
  pub timeout : ℕ
  pub on_success : Bool

unfoldable pub start_connect : ConnectOptions → ClientImpl → ClientImpl
unfolding do_connect
start_connect options c = elim options.hosts [
  | none ↦ do_connect c.host c.port options (record c { connect_options = some options })
  | some hosts ↦
      do_connect (nth_text hosts 0) (nth_port options.ports 0) options
        (record c { connect_options = some options; host_index = 0 })
]

-- ClientImpl.connect
unfoldable pub connect_client : ConnectOptions → ClientImpl → Effect (Unit {0})
unfolding start_connect
connect_client options c =
    if c.connected
    then (throw invalid_state, c)
    else elim c.socket [ some _ ↦ (throw invalid_state, c) | none ↦ done (start_connect options c) ]

abbrev pub schedule_known : Result WireMessage × ClientImpl → Effect (Unit {0})
schedule_known (throw e, c) = (throw e, c)
schedule_known (ok m, c) = schedule_message m c

-- The timer of a request
abbrev pub with_timer : Bool → ClientImpl → ClientImpl
with_timer wanted c = call wanted timer_set c

abbrev pub or_zero : Option ℕ → ℕ
or_zero none = 0
or_zero (some q) = q

unfoldable pub request : MessageType → Text → List ℕ → RequestOptions → WireMessage
unfolding new_wire_message
request type filter qos options = record (new_wire_message type) {
  topics = filter ∷ [];
  requested_qos = qos;
  callback = options.on_success;
  time_out = ltb 0 options.timeout;
}

-- ClientImpl.subscribe
unfoldable pub subscribe_client : Text → RequestOptions → ClientImpl → Effect (Unit {0})
unfolding request
subscribe_client filter options c =
    if c.connected
    then schedule_known (
        requires_ack (request subscribe filter (or_zero options.qos ∷ []) options)
          (with_timer (ltb 0 options.timeout) c))
    else (throw invalid_state, c)

-- ClientImpl.unsubscribe
unfoldable pub unsubscribe_client : Text → RequestOptions → ClientImpl → Effect (Unit {0})
unfolding request
unsubscribe_client filter options c =
    if c.connected
    then schedule_known (
        requires_ack (request unsubscribe filter [] options) (with_timer (ltb 0 options.timeout) c))
    else (throw invalid_state, c)

-- A message of quality 0 is reported as delivered before it is sent, and what that call returns takes
-- the place of the function that waits in `_notify_msg_sent`.
unfoldable pub delivered_at_once : Message → ClientImpl → ClientImpl
delivered_at_once message c =
    if c.on_message_delivered
    then record (emit (delivered (some message)) c) { notify_msg_sent = false }
    else c

unfoldable pub publish_message : Message → WireMessage
unfolding new_wire_message
publish_message message = record (new_wire_message publish) { payload_message = some message }

-- ClientImpl.send
unfoldable pub send_client : Message → ClientImpl → Effect (Unit {0})
unfolding publish_message delivered_at_once
send_client message c =
    if c.connected
    then (if ltb 0 message.qos
        then schedule_known (requires_ack (publish_message message) c)
        else schedule_message (publish_message message) (delivered_at_once message c))
    else (throw invalid_state, c)

-- ClientImpl.disconnect
unfoldable pub disconnect_client : ClientImpl → Effect (Unit {0})
disconnect_client c = elim c.socket [
  | none ↦ (throw invalid_state, c)
  | some _ ↦ schedule_message (new_wire_message disconnect) (record c { notify_msg_sent = true })
]
