-- ===== src/Mqtt/Client/Receiving.antt =====
-- _on_socket_message: what each packet does to the client.
use distributed_storage_with.Base.{
  ℕ, zero, suc, true, false, List, none, some, if◌then◌else◌, text_Eq, Dict,
}
use distributed_storage_with.Mqtt.Faults.{Result, ok, throw, type_error, invalid_qos}
use distributed_storage_with.Mqtt.Wire.{
  MessageType, connack, publish, puback, pubrec, pubrel, pubcomp, suback, unsuback, pingresp,
  Number, WireMessage, reply_message,
}
use distributed_storage_with.Mqtt.Wire.Decode.{decode_message}
use distributed_storage_with.Mqtt.Client.{
  ClientImpl, delivered, arrived, acknowledged, timer_cancelled, Effect, done, then_do, emit, call,
  number_Eq, sent_prefix, received_prefix,
}
use distributed_storage_with.Mqtt.Client.Storing.{store, put_message}
use distributed_storage_with.Mqtt.Client.Sending.{
  keep_sent, reset_option, schedule_message, disconnected, internal_error_code,
  invalid_mqtt_message_type_code,
}
use distributed_storage_with.Mqtt.Client.Welcome.{find, delete, forget, on_connack}

-- _receiveMessage
unfoldable pub receive_message : WireMessage → ClientImpl → ClientImpl
receive_message m c = call c.on_message_arrived (arrived m.payload_message) c

abbrev pub then_answer :
    Result WireMessage × ClientImpl → (ClientImpl → Effect (Unit {0})) → Effect (Unit {0})
then_answer (throw e, c) f = (throw e, c)
then_answer (ok m, c) f = f c

-- The qualities 0, 1, 2, and the one that is none
unfoldable pub receive_quality : ℕ → WireMessage → ClientImpl → Effect (Unit {0})
unfolding receive_message reply_message
receive_quality zero m c = done (receive_message m c)
receive_quality (suc zero) m c =
    then_do (schedule_message (reply_message puback m.message_identifier) c)
      λ c'. done (receive_message m c')
receive_quality (suc (suc zero)) m c =
    then_answer
      (store false m
        (record c { received_messages = put_message m.message_identifier m c.received_messages }))
      (schedule_message (reply_message pubrec m.message_identifier))
receive_quality (suc (suc (suc _))) m c = (throw invalid_qos, c)

-- _receivePublish
unfoldable pub receive_publish : WireMessage → ClientImpl → Effect (Unit {0})
unfolding receive_quality
receive_publish m c = elim m.payload_message [
  | none ↦ (throw type_error, c)
  | some message ↦ receive_quality message.qos m c
]

unfoldable pub on_puback : WireMessage → ClientImpl → Effect (Unit {0})
unfolding forget
on_puback m c = elim (find m.message_identifier c.sent_messages) [
  | none ↦ done c
  | some sent_message ↦
      let c1 : ClientImpl = record c {
        sent_messages = delete m.message_identifier c.sent_messages;
      } in
      done (
        call c.on_message_delivered (delivered sent_message.payload_message)
          (forget sent_prefix m.message_identifier c1))
]

-- The message in `_sentMessages` is marked; `store` may throw afterwards.
unfoldable pub on_pubrec : WireMessage → ClientImpl → Effect (Unit {0})
unfolding reply_message
on_pubrec m c = elim (find m.message_identifier c.sent_messages) [
  | none ↦ done c
  | some sent_message ↦
      let marked : WireMessage = record sent_message { pub_rec_received = true } in
      then_answer
        (keep_sent (
          store true marked
            (record c { sent_messages = put_message m.message_identifier marked c.sent_messages })))
        (schedule_message (reply_message pubrel m.message_identifier))
]

-- A message that waits for its release goes to the application.
unfoldable pub released : WireMessage → ClientImpl → ClientImpl
unfolding forget receive_message
released m c =
    let c1 = forget received_prefix m.message_identifier c in
    elim (find m.message_identifier c.received_messages) [
      | none ↦ c1
      | some received ↦
          let c' = receive_message received c1 in
          record c' { received_messages = delete m.message_identifier c'.received_messages }
    ]

unfoldable pub on_pubrel : WireMessage → ClientImpl → Effect (Unit {0})
unfolding released reply_message
on_pubrel m c = schedule_message (reply_message pubcomp m.message_identifier) (released m c)

-- A message that is not there has no payload to report.
unfoldable pub on_pubcomp : WireMessage → ClientImpl → Effect (Unit {0})
unfolding forget
on_pubcomp m c =
    let c1 =
      forget sent_prefix m.message_identifier
        (record c { sent_messages = delete m.message_identifier c.sent_messages }) in
    if c.on_message_delivered
    then elim (find m.message_identifier c.sent_messages) [
      | none ↦ (throw type_error, c1)
      | some sent_message ↦ done (emit (delivered sent_message.payload_message) c1)
    ]
    else done c1

-- SUBACK and UNSUBACK
unfoldable pub on_suback : WireMessage → ClientImpl → Effect (Unit {0})
on_suback m c = elim (find m.message_identifier c.sent_messages) [
  | none ↦ done c
  | some sent_message ↦
      let c1 =
        call sent_message.callback acknowledged (call sent_message.time_out timer_cancelled c) in
      done (record c1 { sent_messages = delete m.message_identifier c1.sent_messages })
]

-- The entries of `_sentMessages` as `for … in` visits them is a parameter: `order`.
module _ (order : Dict Number WireMessage → List (Number × WireMessage)) where
  -- The `switch` of _on_socket_message
  unfoldable pub on_packet : MessageType → WireMessage → ClientImpl → Effect (Unit {0})
  unfolding receive_publish on_puback on_pubrec on_pubrel on_pubcomp on_suback
  on_packet connack m c = on_connack order m c
  on_packet publish m c = receive_publish m c
  on_packet puback m c = on_puback m c
  on_packet pubrec m c = on_pubrec m c
  on_packet pubrel m c = on_pubrel m c
  on_packet pubcomp m c = on_pubcomp m c
  on_packet suback m c = on_suback m c
  on_packet unsuback m c = on_suback m c
  on_packet pingresp m c = done (record c { send_pinger = reset_option c.send_pinger })
  on_packet _ m c = disconnected invalid_mqtt_message_type_code c

  -- _on_socket_message
  unfoldable pub on_socket_message : List ℕ → ClientImpl → Effect (Unit {0})
  unfolding on_packet
  on_socket_message bytes c =
      let c' : ClientImpl = record c { receive_pinger = reset_option c.receive_pinger } in
      elim (decode_message bytes) [
        | throw e ↦ disconnected internal_error_code c'
        | ok m ↦ on_packet m.type m c'
      ]
