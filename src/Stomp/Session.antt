-- ===== src/Stomp/Session.antt =====
-- What the socket and the timers do to the client: connect, the frames that come in, and heartbeats.
use distributed_storage_with.Base.{
  ℕ, zero, ◌+◌, ◌*◌, Bool, true, false, ◌||◌, ℤ, pos, negsuc, List, [], ◌∷◌, ◌++◌, Option, none,
  some, if◌then◌else◌, ltb, nat_eq, Text, ◌==◌, text_Eq, codes, Dict, lookup, insert,
}
use distributed_storage_with.Radix.{natural_to_string}
use distributed_storage_with.Mqtt.Faults.{ok, throw, type_error}
use distributed_storage_with.Mqtt.Client.{open_state}
use distributed_storage_with.Stomp.Frame.{Frame, line_feed}
use distributed_storage_with.Stomp.Parse.{split_at, parse_int, unmarshall}
use distributed_storage_with.Stomp.Client.{
  StompClient, StompEvent, welcomed, received, receipt, failed, lost, Reply, send_pieces, transmit,
  clean_up,
}

-- connect(login, passcode, connectCallback, errorCallback, vhost); the socket gets its callbacks.
unfoldable pub connect_stomp :
    Option Text → Option Text → Bool → Bool → Option Text → StompClient → StompClient
connect_stomp login passcode connect_callback error_callback vhost c = record c {
  login = login;
  passcode = passcode;
  vhost = vhost;
  connect_callback = connect_callback;
  error_callback = error_callback;
  on_close = true;
}

abbrev pub tell : Bool → StompEvent → StompClient → StompClient
tell true event c = record c { events = c.events ++ event ∷ [] }
tell false event c = c

-- A header for a text that is there and not empty
abbrev pub with_header : Text → Option Text → Dict Text Text → Dict Text Text
with_header name none headers = headers
with_header name (some []) headers = headers
with_header name (some value) headers = insert name value headers

unfoldable pub connect_headers : StompClient → Dict Text Text
connect_headers c =
    let beats = natural_to_string 10 c.outgoing ++ (b',' ∷ natural_to_string 10 c.incoming) in
    with_header (codes "passcode") c.passcode (
      with_header (codes "login") c.login (
        with_header (codes "host") c.vhost
          ((codes "accept-version", codes "1.1,1.0") ∷ (codes "heart-beat", beats) ∷ [])))

-- ws.onopen
unfoldable pub on_open_stomp : StompClient → Reply (Unit {0})
unfolding connect_headers
on_open_stomp c =
    let c' : StompClient = record c { socket = open_state } in
    transmit (codes "CONNECT") (some (connect_headers c')) none c'

-- ws.onclose
unfoldable pub on_close_stomp : StompClient → StompClient
on_close_stomp c = tell c.error_callback lost c

abbrev pub has_heartbeat : Option Text → Bool
has_heartbeat none = false
has_heartbeat (some version) = version == codes "1.1" || version == codes "1.2"

-- Math.max, where NaN stays NaN
abbrev pub longest : ℕ → Option ℤ → Option ℕ
longest n none = none
longest n (some (pos m)) = if ltb n m then some m else some n
longest n (some (negsuc m)) = some n

abbrev pub is_none_or_zero : Option ℤ → Bool
is_none_or_zero (some (pos zero)) = true
is_none_or_zero _ = false

-- The interval of a timer, if neither side gives 0
abbrev pub interval_of : ℕ → Option ℤ → Option (Option ℕ) → Option (Option ℕ)
interval_of own theirs before =
    if nat_eq own 0 || is_none_or_zero theirs then before else some (longest own theirs)

abbrev pub first_number : List Text → Option ℤ
first_number [] = none
first_number (x ∷ xs) = parse_int x

abbrev pub second_number : List Text → Option ℤ
second_number [] = none
second_number (x ∷ xs) = first_number xs

-- _setupHeartbeat(headers); a missing header throws.
unfoldable pub setup_heartbeat : Dict Text Text → StompClient → Reply (Unit {0})
setup_heartbeat headers c =
    if has_heartbeat (lookup (codes "version") headers)
    then elim (lookup (codes "heart-beat") headers) [
      | none ↦ (throw type_error, c)
      | some beats ↦
          let numbers = split_at b',' beats in
          (
            ok tt,
            record c {
              pinger = interval_of c.outgoing (second_number numbers) c.pinger;
              ponger = interval_of c.incoming (first_number numbers) c.ponger;
            },
          )
    ]
    else (ok tt, c)

abbrev pub then_tell : Reply (Unit {0}) → StompEvent → Reply (Unit {0})
then_tell (throw e, c) event = (throw e, c)
then_tell (ok _, c) event = (ok tt, tell c.connect_callback event c)

-- The callback of a subscription; a header that is missing names none.
abbrev pub subscribed : Option Text → Dict Text Bool → Bool
subscribed none subscriptions = false
subscribed (some id) subscriptions = elim (lookup id subscriptions) [
  | none ↦ false
  | some callback ↦ callback
]

-- The `switch` of ws.onmessage
unfoldable pub on_frame : Frame → StompClient → Reply (Unit {0})
unfolding setup_heartbeat
on_frame f c =
    if f.command == codes "CONNECTED"
    then then_tell (setup_heartbeat f.headers (record c { connected = true })) (welcomed f)
    else if f.command == codes "MESSAGE"
    then (
      ok tt,
      tell (subscribed (lookup (codes "subscription") f.headers) c.subscriptions) (received f) c,
    )
    else if f.command == codes "RECEIPT"
    then (ok tt, tell c.on_receipt (receipt f) c)
    else if f.command == codes "ERROR"
    then (ok tt, tell c.error_callback (failed f) c)
    else (ok tt, c)

abbrev pub next_frame : Reply (Unit {0}) → (StompClient → Reply (Unit {0})) → Reply (Unit {0})
next_frame (throw e, c) continue = (throw e, c)
next_frame (ok _, c) continue = continue c

unfoldable pub on_frames : List Frame → StompClient → Reply (Unit {0})
unfolding on_frame
on_frames [] c = (ok tt, c)
on_frames (f ∷ frames) c = next_frame (on_frame f c) (on_frames frames)

-- ws.onmessage at the time `now`. The bytes of an ArrayBuffer become characters one by one, so the data
-- are numbers either way.
unfoldable pub on_message_stomp : ℕ → List ℕ → StompClient → Reply (Unit {0})
unfolding on_frames
on_message_stomp now received_text c =
    let c' : StompClient = record c { server_activity = now } in
    if received_text == line_feed ∷ [] then (ok tt, c') else on_frames (unmarshall received_text) c'

-- The timers of the heartbeat: one sends, the other looks how long ago the server was heard.
unfoldable pub on_pinger : StompClient → Reply (Unit {0})
on_pinger c = send_pieces (some ((line_feed ∷ []) ∷ [])) c.socket c

unfoldable pub on_ponger : ℕ → ℕ → StompClient → StompClient
on_ponger ttl now c = if ltb (c.server_activity + ttl * 2) now then clean_up c else c
