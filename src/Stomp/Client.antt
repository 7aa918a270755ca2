-- ===== src/Stomp/Client.antt =====
-- Client: subscriptions, and the frames that are sent.
use distributed_storage_with.Base.{
  ℕ, zero, suc, ◌+◌, Bool, false, List, [], ◌∷◌, ◌++◌, map, Option, none, some, if◌then◌else◌, ltb,
  length, take, drop, Text, text_Eq, codes, Dict, lookup, insert, remove,
}
use distributed_storage_with.Radix.{natural_to_string}
use distributed_storage_with.Mqtt.Faults.{Result, ok, throw, type_error}
use distributed_storage_with.Mqtt.Client.{ReadyState, connecting, open_state, closed_state}
use distributed_storage_with.Stomp.Frame.{Frame, marshall}

-- What the client does outside itself
pub data StompEvent : Type 0 where
  wrote : Text → StompEvent
  shut : StompEvent
  welcomed received receipt failed : Frame → StompEvent
  lost : StompEvent
  finished : StompEvent

-- A subscription has a callback or not, and the other functions of the application are there or not;
-- `on_close` tells whether the socket has its callback. The timers of the heartbeat are kept by their
-- interval, which may be NaN. The names that `connect` is given stand here, too.
pub record StompClient : Type 0 where
  pub socket : ReadyState
  pub counter : ℕ
  pub connected : Bool
  pub outgoing : ℕ
  pub incoming : ℕ
  pub subscriptions : Dict Text Bool
  pub login : Option Text
  pub passcode : Option Text
  pub vhost : Option Text
  pub connect_callback : Bool
  pub error_callback : Bool
  pub on_receipt : Bool
  pub on_close : Bool
  pub pinger : Option (Option ℕ)
  pub ponger : Option (Option ℕ)
  pub server_activity : ℕ
  pub events : List StompEvent

-- new Client(ws)
unfoldable pub new_stomp_client : ReadyState → StompClient
new_stomp_client socket = record {
  socket = socket;
  counter = 0;
  connected = false;
  outgoing = 10000;
  incoming = 10000;
  subscriptions = [];
  login = none;
  passcode = none;
  vhost = none;
  connect_callback = false;
  error_callback = false;
  on_receipt = false;
  on_close = false;
  pinger = none;
  ponger = none;
  server_activity = 0;
  events = [];
}

abbrev pub Reply {ℓ} : Type ℓ → Type ℓ
Reply A = Result A × StompClient

-- MAX_FRAME_SIZE
unfoldable pub max_frame_size : ℕ
max_frame_size = 16384

-- The loop of _transmit: what is sent, piece by piece; `none` means that the fuel ran out.
abbrev pub with_piece : Text → Option (List Text) → Option (List Text)
with_piece piece none = none
with_piece piece (some rest) = some (piece ∷ rest)

unfoldable pub pieces : ℕ → ℕ → Text → Option (List Text)
pieces limit zero out = none
pieces limit (suc fuel) out =
    let rest = pieces limit fuel (drop limit out) in
    if ltb limit (length out) then with_piece (take limit out) rest else some (out ∷ [])

abbrev pub emit_all : List Text → StompClient → StompClient
emit_all texts c = record c { events = c.events ++ map wrote texts }

-- ws.send throws before the socket is open, and does nothing after it was closed.
abbrev pub send_pieces : Option (List Text) → ReadyState → StompClient → Reply (Unit {0})
send_pieces none state c = (throw type_error, c)
send_pieces (some texts) connecting c = (throw type_error, c)
send_pieces (some texts) open_state c = (ok tt, emit_all texts c)
send_pieces (some texts) closed_state c = (ok tt, c)

-- _transmit(command, headers, body)
unfoldable pub transmit :
    Text → Option (Dict Text Text) → Option Text → StompClient → Reply (Unit {0})
unfolding pieces max_frame_size
transmit command headers body c =
    let out = marshall command headers body in
    send_pieces (pieces max_frame_size (length out + 1) out) c.socket c

abbrev pub or_empty : Option (Dict Text Text) → Dict Text Text
or_empty none = []
or_empty (some headers) = headers

-- send(destination, headers, body), begin, commit, abort, ack and nack
unfoldable pub send_frame :
    Text → Option (Dict Text Text) → Option Text → StompClient → Reply (Unit {0})
send_frame destination headers body c =
    transmit (codes "SEND") (some (insert (codes "destination") destination (or_empty headers)))
      body c

abbrev pub in_transaction : Text → Text → StompClient → Reply (Unit {0})
in_transaction command transaction c =
    transmit command (some ((codes "transaction", transaction) ∷ [])) none c

unfoldable pub begin_transaction : Text → StompClient → Reply (Unit {0})
begin_transaction transaction c = in_transaction (codes "BEGIN") transaction c

unfoldable pub commit_transaction : Text → StompClient → Reply (Unit {0})
commit_transaction transaction c = in_transaction (codes "COMMIT") transaction c

unfoldable pub abort_transaction : Text → StompClient → Reply (Unit {0})
abort_transaction transaction c = in_transaction (codes "ABORT") transaction c

abbrev pub answer_headers : Text → Text → Option (Dict Text Text) → Dict Text Text
answer_headers message_id subscription headers =
    insert (codes "subscription") subscription
      (insert (codes "message-id") message_id (or_empty headers))

unfoldable pub ack_message : Text → Text → Option (Dict Text Text) → StompClient → Reply (Unit {0})
ack_message message_id subscription headers c =
    transmit (codes "ACK") (some (answer_headers message_id subscription headers)) none c

unfoldable pub nack_message : Text → Text → Option (Dict Text Text) → StompClient → Reply (Unit {0})
nack_message message_id subscription headers c =
    transmit (codes "NACK") (some (answer_headers message_id subscription headers)) none c

-- The identifier of a subscription: the one that its headers have, if it is not empty, or a new one
abbrev pub own_id : Option Text → Option Text
own_id none = none
own_id (some []) = none
own_id (some id) = some id

abbrev pub identified_headers : Dict Text Text → StompClient → Text × (Dict Text Text × StompClient)
identified_headers headers c = elim (own_id (lookup (codes "id") headers)) [
  | some id ↦ (id, (headers, c))
  | none ↦
      let id = codes "sub-" ++ natural_to_string 10 c.counter in
      (id, (insert (codes "id") id headers, record c { counter = c.counter + 1 }))
]

abbrev pub answer_id : Text → Reply (Unit {0}) → Reply Text
answer_id id (ok _, c) = (ok id, c)
answer_id id (throw e, c) = (throw e, c)

-- subscribe(destination, callback, headers), where `callback` tells whether it is a function
unfoldable pub subscribe_frame : Text → Bool → Option (Dict Text Text) → StompClient → Reply Text
subscribe_frame destination callback headers c =
    let (id, (hs, c')) = identified_headers (or_empty headers) c in
    answer_id id (
      transmit (codes "SUBSCRIBE") (some (insert (codes "destination") destination hs)) none
        (record c' { subscriptions = insert id callback c'.subscriptions }))

-- unsubscribe(id)
unfoldable pub unsubscribe_frame : Text → StompClient → Reply (Unit {0})
unsubscribe_frame id c =
    transmit (codes "UNSUBSCRIBE") (some ((codes "id", id) ∷ [])) none
      (record c { subscriptions = remove id c.subscriptions })

-- _cleanUp
unfoldable pub clean_up : StompClient → StompClient
clean_up c = record c {
  socket = closed_state;
  connected = false;
  pinger = none;
  ponger = none;
  events = c.events ++ shut ∷ [];
}

abbrev pub after_goodbye : Bool → Reply (Unit {0}) → Reply (Unit {0})
after_goodbye callback (throw e, c) = (throw e, c)
after_goodbye callback (ok _, c) =
    let c' = clean_up (record c { on_close = false }) in
    (ok tt, record c' { events = c'.events ++ (if callback then finished ∷ [] else []) })

-- disconnect(disconnectCallback)
unfoldable pub disconnect_frame : Bool → StompClient → Reply (Unit {0})
disconnect_frame callback c = after_goodbye callback (transmit (codes "DISCONNECT") none none c)
