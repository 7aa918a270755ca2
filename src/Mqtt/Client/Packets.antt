-- ===== src/Mqtt/Client/Packets.antt =====
-- Each packet that the broker sends keeps a sound state.
use distributed_storage_with.Base.{
  ℕ, ◌≡◌, refl, sym, subst, ◌∙◌, ◌≢◌, Bool, true, false, List, [], ◌∷◌, none, Text, Dict,
  if◌then◌else◌, if_keeps, option_keeps,
}
use distributed_storage_with.Mqtt.Faults.{result_keeps}
use distributed_storage_with.Mqtt.Wire.{
  MessageType, connect, connack, publish, puback, pubrec, pubrel, pubcomp, subscribe, suback,
  unsubscribe, unsuback, pingreq, pingresp, disconnect, unnamed, Number, WireMessage, reply_message,
}
use distributed_storage_with.Mqtt.Wire.Decode.{decode_message}
use distributed_storage_with.Mqtt.Client.{
  ClientImpl, ConnectOptions, arrived, acknowledged, timer_cancelled, connect_succeeded, call,
  sent_prefix, received_prefix, number_Eq,
}
use distributed_storage_with.Mqtt.Client.Storing.{store, put_message}
use distributed_storage_with.Mqtt.Client.Sending.{
  keep_sent, reset_option, internal_error_code, connack_returncode_code,
  invalid_mqtt_message_type_code,
}
use distributed_storage_with.Mqtt.Client.Welcome.{
  find, forget, forget_all, clean, accepted, welcome, is_zero, on_connack, sort_sequenced,
  messages_of,
}
use distributed_storage_with.Mqtt.Client.Receiving.{
  receive_message, receive_publish, on_puback, on_pubrec, released, on_pubrel, on_pubcomp,
  on_suback, on_packet, on_socket_message,
}
use distributed_storage_with.Mqtt.Client.Sound.{
  put_message-Filed, Sound, SoundAfter, then_do-Sound, call-Sound, disconnected-Sound,
  process_queue-Sound, schedule_message-Sound,
}
use distributed_storage_with.Mqtt.Client.Handling.{
  deleted_sent, deleted_received, client-Sound, store-Sound, keep_sent-Sound, clean-Sound,
  resend-Sound, receive_quality-Sound, find-Filed, then_answer-Sound,
}

receive_publish-Sound : (m : WireMessage) (c : ClientImpl) → Sound c → Sound (receive_publish m c).1
unfolding receive_publish
receive_publish-Sound m c v =
    option_keeps SoundAfter m.payload_message _ _ (λ missing. v)
      λ message is. receive_quality-Sound message.qos m c v

on_puback-Sound : (m : WireMessage) (c : ClientImpl) → Sound c → Sound (on_puback m c).1
unfolding on_puback forget
on_puback-Sound m c v =
    option_keeps SoundAfter (find m.message_identifier c.sent_messages) _ _ (λ missing. v)
      λ sent_message found.
        call-Sound c.on_message_delivered _ _ (deleted_sent m.message_identifier c v)

on_pubrec-Sound : (m : WireMessage) (c : ClientImpl) → Sound c → Sound (on_pubrec m c).1
unfolding on_pubrec
on_pubrec-Sound m c v =
    option_keeps SoundAfter (find m.message_identifier c.sent_messages) _ _ (λ missing. v)
      λ sent_message found.
        let id = m.message_identifier in
        let marked : WireMessage = record sent_message { pub_rec_received = true } in
        let own = find-Filed id sent_message c.sent_messages v.sent_filed found in
        let c' : ClientImpl = record c { sent_messages = put_message id marked c.sent_messages } in
        let v' : Sound c' = record {
          sent_filed = put_message-Filed id marked c.sent_messages own v.sent_filed;
          received_filed = v.received_filed;
          has_socket = v.has_socket;
          has_options = v.has_options;
        } in
        then_answer-Sound (keep_sent (store true marked c')) _
          (client-Sound marked.message_identifier (keep_sent (store true marked c')) (
            keep_sent-Sound marked.message_identifier (store true marked c')
              (store-Sound true marked c' v')))
          (schedule_message-Sound (reply_message pubrel id))

released-Sound : (m : WireMessage) (c : ClientImpl) → Sound c → Sound (released m c)
unfolding released receive_message forget
released-Sound m c v =
    option_keeps Sound (find m.message_identifier c.received_messages) _ _ (λ missing. v)
      λ received found.
        let c1 = forget received_prefix m.message_identifier c in
        deleted_received m.message_identifier (receive_message received c1)
          (call-Sound c.on_message_arrived (arrived received.payload_message) c1 v)

on_pubrel-Sound : (m : WireMessage) (c : ClientImpl) → Sound c → Sound (on_pubrel m c).1
unfolding on_pubrel
on_pubrel-Sound m c v =
    schedule_message-Sound (reply_message pubcomp m.message_identifier) (released m c)
      (released-Sound m c v)

on_pubcomp-Sound : (m : WireMessage) (c : ClientImpl) → Sound c → Sound (on_pubcomp m c).1
unfolding on_pubcomp forget
on_pubcomp-Sound m c v =
    let gone = deleted_sent m.message_identifier c v in
    if_keeps SoundAfter c.on_message_delivered _ _
      (λ wanted.
        option_keeps SoundAfter (find m.message_identifier c.sent_messages) _ _ (λ missing. gone)
          λ sent_message found. gone)
      λ unwanted. gone

on_suback-Sound : (m : WireMessage) (c : ClientImpl) → Sound c → Sound (on_suback m c).1
unfolding on_suback
on_suback-Sound m c v =
    option_keeps SoundAfter (find m.message_identifier c.sent_messages) _ _ (λ missing. v)
      λ sent_message found.
        let c1 = call sent_message.time_out timer_cancelled c in
        let c2 = call sent_message.callback acknowledged c1 in
        deleted_sent m.message_identifier c2 (
          call-Sound sent_message.callback acknowledged c1
            (call-Sound sent_message.time_out timer_cancelled c v))

forget_all_socket :
    (prefix : Text) (entries : List (Number × WireMessage)) (c : ClientImpl)
    → (forget_all prefix entries c).socket ≡ c.socket
unfolding forget_all forget
forget_all_socket prefix [] c = refl
forget_all_socket prefix ((id, m) ∷ rest) c =
    forget_all_socket prefix rest (forget prefix m.message_identifier c)

clean_socket :
    (asked : Bool) (c : ClientImpl) → c.socket ≢ none → (if asked then clean c else c).socket ≢ none
unfolding clean
clean_socket false c there = there
clean_socket true c there =
    let c1 = forget_all sent_prefix c.sent_messages c in
    let c2 : ClientImpl = record c1 { sent_messages = [] } in
    let kept =
      forget_all_socket received_prefix c2.received_messages c2
      ∙ forget_all_socket sent_prefix c.sent_messages c in
    subst (λ socket. socket ≢ none) (sym kept) there

-- The entries of `_sentMessages` as `for … in` visits them
module _ (order : Dict Number WireMessage → List (Number × WireMessage)) where
  welcome-Sound :
      (options : ConnectOptions) (c : ClientImpl)
      → Sound c
      → c.socket ≢ none
      → Sound (welcome order options c).1
  unfolding welcome
  welcome-Sound options c v there =
      let c' = accepted options c in
      let v' : Sound c' = record {
        sent_filed = v.sent_filed;
        received_filed = v.received_filed;
        has_socket = λ on. there;
        has_options = v.has_options;
      } in
      then_do-Sound _ _ (resend-Sound (sort_sequenced (messages_of (order c'.sent_messages))) c' v')
        λ c'' v''.
          process_queue-Sound (call options.on_success connect_succeeded c'')
            (call-Sound options.on_success connect_succeeded c'' v'')

  clean_if_asked : (b : Bool) (c : ClientImpl) → Sound c → Sound (if b then clean c else c)
  clean_if_asked b c v = if_keeps Sound b _ _ (λ asked. clean-Sound c v) λ other. v

  on_connack-Sound :
      (m : WireMessage) (c : ClientImpl)
      → Sound c
      → c.socket ≢ none
      → Sound (on_connack order m c).1
  unfolding on_connack
  on_connack-Sound m c v there =
      option_keeps SoundAfter c.connect_options _ _ (λ unknown. v)
        λ options known.
          let c1 : ClientImpl = record c { connect_timeout = false } in
          let c2 = if options.clean_session then clean c1 else c1 in
          let v2 = clean_if_asked options.clean_session c1 v in
          if_keeps SoundAfter (is_zero m.return_code) _ _
            (λ accepted. welcome-Sound options c2 v2 (clean_socket options.clean_session c1 there))
            λ refused. disconnected-Sound connack_returncode_code c2 v2

  on_packet-Sound :
      (type : MessageType) (m : WireMessage) (c : ClientImpl)
      → Sound c
      → c.socket ≢ none
      → Sound (on_packet order type m c).1
  unfolding on_packet
  on_packet-Sound connack m c v there = on_connack-Sound m c v there
  on_packet-Sound publish m c v there = receive_publish-Sound m c v
  on_packet-Sound puback m c v there = on_puback-Sound m c v
  on_packet-Sound pubrec m c v there = on_pubrec-Sound m c v
  on_packet-Sound pubrel m c v there = on_pubrel-Sound m c v
  on_packet-Sound pubcomp m c v there = on_pubcomp-Sound m c v
  on_packet-Sound suback m c v there = on_suback-Sound m c v
  on_packet-Sound unsuback m c v there = on_suback-Sound m c v
  on_packet-Sound pingresp m c v there = v
  on_packet-Sound connect m c v there = disconnected-Sound invalid_mqtt_message_type_code c v
  on_packet-Sound subscribe m c v there = disconnected-Sound invalid_mqtt_message_type_code c v
  on_packet-Sound unsubscribe m c v there = disconnected-Sound invalid_mqtt_message_type_code c v
  on_packet-Sound pingreq m c v there = disconnected-Sound invalid_mqtt_message_type_code c v
  on_packet-Sound disconnect m c v there = disconnected-Sound invalid_mqtt_message_type_code c v
  on_packet-Sound (unnamed n) m c v there = disconnected-Sound invalid_mqtt_message_type_code c v

  pub on_socket_message-Sound :
      (bytes : List ℕ) (c : ClientImpl)
      → Sound c
      → c.socket ≢ none
      → Sound (on_socket_message order bytes c).1
  unfolding on_socket_message
  on_socket_message-Sound bytes c v there =
      let c' : ClientImpl = record c { receive_pinger = reset_option c.receive_pinger } in
      result_keeps SoundAfter (decode_message bytes) _ _
        (λ e thrown. disconnected-Sound internal_error_code c' v)
        λ m decoded. on_packet-Sound m.type m c' v there
