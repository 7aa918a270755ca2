-- ===== src/Mqtt/Client/Calls.antt =====
-- What the application calls, and what the socket and the timers call, keeps a sound state.
use distributed_storage_with.Base.{
  ℕ, refl, Bool, true, false, ◌||◌, List, [], ◌∷◌, ◌++◌, some, ltb, Text, text_Eq, Dict, lookup,
  if_keeps, option_keeps,
}
use distributed_storage_with.Mqtt.Faults.{Result, ok, throw}
use distributed_storage_with.Mqtt.Message.{Message}
use distributed_storage_with.Mqtt.Wire.{
  WireMessage, subscribe, unsubscribe, disconnect, new_wire_message,
}
use distributed_storage_with.Mqtt.Client.{
  ClientImpl, ConnectOptions, ReadyState, open_state, Pinger, StoredMessage, timer_set, sent_prefix,
  received_prefix, local_key,
}
use distributed_storage_with.Mqtt.Client.Storing.{
  restored_message, restore_stored, restore, restore_keys, new_client_impl, starts_with,
}
use distributed_storage_with.Mqtt.Client.Sending.{
  nth_text, nth_port, requires_ack, ping_timeout_code,
}
use distributed_storage_with.Mqtt.Client.Requests.{
  RequestOptions, start_connect, connect_client, schedule_known, with_timer, request, or_zero,
  subscribe_client, unsubscribe_client, publish_message, delivered_at_once, send_client,
  disconnect_client,
}
use distributed_storage_with.Mqtt.Client.Welcome.{connect_message, on_socket_open}
use distributed_storage_with.Mqtt.Client.Timers.{ping, send_ping, on_send_ping, on_receive_ping}
use distributed_storage_with.Mqtt.Client.Sound.{
  put_message-Filed, Sound, SoundAfter, then_do-Sound, call-Sound, do_connect-Sound,
  disconnected-Sound, socket_send-Sound, schedule_message-Sound, present,
}
use distributed_storage_with.Mqtt.Client.Handling.{requires_ack-Sound}

start_connect-Sound :
    (options : ConnectOptions) (c : ClientImpl) → Sound c → Sound (start_connect options c)
unfolding start_connect
start_connect-Sound options c v =
    option_keeps Sound options.hosts _ _
      (λ alone.
        do_connect-Sound c.host c.port options (record c { connect_options = some options })
          v.sent_filed v.received_filed (present refl))
      λ hosts several.
        do_connect-Sound (nth_text hosts 0) (nth_port options.ports 0) options
          (record c { connect_options = some options; host_index = 0 }) v.sent_filed
          v.received_filed (present refl)

pub connect_client-Sound :
    (options : ConnectOptions) (c : ClientImpl) → Sound c → Sound (connect_client options c).1
unfolding connect_client
connect_client-Sound options c v =
    if_keeps SoundAfter c.connected _ _ (λ on. v)
      λ off.
        option_keeps SoundAfter c.socket _ _ (λ gone. start_connect-Sound options c v) λ state is. v

schedule_known-Sound :
    (r : Result WireMessage × ClientImpl) → Sound r.1 → Sound (schedule_known r).1
schedule_known-Sound (ok m, c) v = schedule_message-Sound m c v
schedule_known-Sound (throw e, c) v = v

acknowledged-Sound :
    (m : WireMessage) (c : ClientImpl) → Sound c → Sound (schedule_known (requires_ack m c)).1
acknowledged-Sound m c v = schedule_known-Sound (requires_ack m c) (requires_ack-Sound m c v)

requested-Sound :
    (m : WireMessage) (timed : Bool) (c : ClientImpl)
    → Sound c
    → Sound (schedule_known (requires_ack m (with_timer timed c))).1
requested-Sound m timed c v =
    acknowledged-Sound m (with_timer timed c) (call-Sound timed timer_set c v)

pub subscribe_client-Sound :
    (filter : Text) (options : RequestOptions) (c : ClientImpl)
    → Sound c
    → Sound (subscribe_client filter options c).1
unfolding subscribe_client
subscribe_client-Sound filter options c v =
    if_keeps SoundAfter c.connected _ _
      (λ on.
        requested-Sound (request subscribe filter (or_zero options.qos ∷ []) options)
          (ltb 0 options.timeout) c v)
      λ off. v

pub unsubscribe_client-Sound :
    (filter : Text) (options : RequestOptions) (c : ClientImpl)
    → Sound c
    → Sound (unsubscribe_client filter options c).1
unfolding unsubscribe_client
unsubscribe_client-Sound filter options c v =
    if_keeps SoundAfter c.connected _ _
      (λ on. requested-Sound (request unsubscribe filter [] options) (ltb 0 options.timeout) c v)
      λ off. v

delivered_at_once-Sound :
    (message : Message) (c : ClientImpl) → Sound c → Sound (delivered_at_once message c)
unfolding delivered_at_once
delivered_at_once-Sound message c v =
    if_keeps Sound c.on_message_delivered _ _ (λ wanted. v) λ unwanted. v

pub send_client-Sound :
    (message : Message) (c : ClientImpl) → Sound c → Sound (send_client message c).1
unfolding send_client
send_client-Sound message c v =
    if_keeps SoundAfter c.connected _ _
      (λ on.
        if_keeps SoundAfter (ltb 0 message.qos) _ _
          (λ some_quality. acknowledged-Sound (publish_message message) c v)
          λ none_quality.
            schedule_message-Sound (publish_message message) (delivered_at_once message c)
              (delivered_at_once-Sound message c v))
      λ off. v

pub disconnect_client-Sound : (c : ClientImpl) → Sound c → Sound (disconnect_client c).1
unfolding disconnect_client
disconnect_client-Sound c v =
    option_keeps SoundAfter c.socket _ _ (λ gone. v)
      λ state is.
        schedule_message-Sound (new_wire_message disconnect) (record c { notify_msg_sent = true }) v

pub on_socket_open-Sound : (c : ClientImpl) → Sound c → Sound (on_socket_open c).1
unfolding on_socket_open
on_socket_open-Sound c v =
    option_keeps SoundAfter c.connect_options _ _ (λ unknown. v)
      λ options known.
        socket_send-Sound (connect_message options c.client_id)
          (record c { socket = some open_state })
          (record {
            sent_filed = v.sent_filed;
            received_filed = v.received_filed;
            has_socket = λ on. present refl;
            has_options = λ there. present known;
          })

send_ping-Sound : (state : ReadyState) (c : ClientImpl) → Sound c → Sound (send_ping state c).1
unfolding send_ping
send_ping-Sound ReadyState.connecting c v = v
send_ping-Sound ReadyState.open_state c v = v
send_ping-Sound ReadyState.closed_state c v = v

ping-Sound :
    (p : Pinger) (update : Pinger → ClientImpl → ClientImpl) (c : ClientImpl)
    → ((p' : Pinger) (c' : ClientImpl) → Sound c' → Sound (update p' c'))
    → Sound c
    → Sound (ping p update c).1
unfolding ping
ping-Sound p update c keeps v =
    let c' = update (record p { is_reset = false }) c in
    let v' = keeps (record p { is_reset = false }) c v in
    if_keeps SoundAfter p.is_reset _ _
      (λ set.
        option_keeps SoundAfter c'.socket _ _ (λ gone. v')
          λ state is.
            then_do-Sound (send_ping state c') _ (send_ping-Sound state c' v')
              λ c'' v''. keeps (record p { is_reset = false; running = true }) c'' v'')
      λ not_set. disconnected-Sound ping_timeout_code c v

pub on_send_ping-Sound : (c : ClientImpl) → Sound c → Sound (on_send_ping c).1
unfolding on_send_ping
on_send_ping-Sound c v =
    option_keeps SoundAfter c.send_pinger _ _ (λ no_pinger. v)
      λ p is. ping-Sound p (λ p' c'. record c' { send_pinger = some p' }) c (λ p' c' v'. v') v

pub on_receive_ping-Sound : (c : ClientImpl) → Sound c → Sound (on_receive_ping c).1
unfolding on_receive_ping
on_receive_ping-Sound c v =
    option_keeps SoundAfter c.receive_pinger _ _ (λ no_pinger. v)
      λ p is. ping-Sound p (λ p' c'. record c' { receive_pinger = some p' }) c (λ p' c' v'. v') v

restore_stored-Sound :
    (key : Text) (stored : StoredMessage) (c : ClientImpl)
    → Sound c
    → Sound (restore_stored key stored c)
unfolding restore_stored restored_message
restore_stored-Sound key stored c v =
    let id = stored.message_identifier in
    let m = restored_message stored in
    if_keeps Sound (starts_with (sent_prefix ++ local_key c) key) _ _
      (λ sent. record {
        sent_filed = put_message-Filed id m c.sent_messages refl v.sent_filed;
        received_filed = v.received_filed;
        has_socket = v.has_socket;
        has_options = v.has_options;
      })
      λ not_sent.
        if_keeps Sound (starts_with (received_prefix ++ local_key c) key) _ _
          (λ received. record {
            sent_filed = v.sent_filed;
            received_filed = put_message-Filed id m c.received_messages refl v.received_filed;
            has_socket = v.has_socket;
            has_options = v.has_options;
          })
          λ neither. v

restore-Sound : (key : Text) (c : ClientImpl) → Sound c → Sound (restore key c).1
unfolding restore
restore-Sound key c v =
    option_keeps SoundAfter (lookup key c.local_storage) _ _ (λ missing. v)
      λ stored found.
        option_keeps SoundAfter stored.destination_name _ _ (λ nameless. v)
          λ name named. restore_stored-Sound key stored c v

restore_keys-Sound :
    (entries : List (Text × StoredMessage)) (c : ClientImpl)
    → Sound c
    → Sound (restore_keys entries c).1
unfolding restore_keys
restore_keys-Sound [] c v = v
restore_keys-Sound ((key, stored) ∷ rest) c v =
    then_do-Sound _ (restore_keys rest)
      (if_keeps SoundAfter
        (starts_with (sent_prefix ++ local_key c) key
          || starts_with (received_prefix ++ local_key c) key)
        _ _ (λ own. restore-Sound key c v) λ other. v)
      (restore_keys-Sound rest)

pub new_client_impl-Sound :
    (host : Text) (port : ℕ) (client_id : Text) (local_storage : Dict Text StoredMessage)
    → Sound (new_client_impl host port client_id local_storage).1
unfolding new_client_impl
new_client_impl-Sound host port client_id local_storage =
    restore_keys-Sound local_storage _ (record {
      sent_filed = tt;
      received_filed = tt;
      has_socket = λ on. absurd (cc);
      has_options = λ there. absurd (there refl);
    })
