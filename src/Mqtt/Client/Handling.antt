-- ===== src/Mqtt/Client/Handling.antt =====
-- What the application asks and what the broker sends keep a sound state.
use distributed_storage_with.Base.{
  ℕ, zero, suc, ◌+◌, ◌≡◌, refl, Bool, true, false, List, [], ◌∷◌, Option, none, some, ltb, length,
  Text, Dict, insert, if_keeps,
}
use distributed_storage_with.Mqtt.Faults.{Result, ok, throw}
use distributed_storage_with.Mqtt.Message.{Message}
use distributed_storage_with.Mqtt.Wire
use distributed_storage_with.Mqtt.Wire.{
  MessageType, Number, num, WireMessage, is_publish, reply_message, new_wire_message,
}
use distributed_storage_with.Mqtt.Client.{
  ClientImpl, arrived, Effect, sent_prefix, received_prefix, number_Eq,
}
use distributed_storage_with.Mqtt.Client.Storing.{
  store, store_hex, store_publish, write_stored, hex_of, count_sequence, put_message,
}
use distributed_storage_with.Mqtt.Client.Sending.{
  keep_sent, stored_sent, given_identifier, requires_ack, free_identifier, schedule_message,
  max_message_identifier,
}
use distributed_storage_with.Mqtt.Client.Welcome.{
  find, delete, forget, forget_all, clean, resend, resent,
}
use distributed_storage_with.Mqtt.Client.Receiving.{receive_message, receive_quality, then_answer}
use distributed_storage_with.Mqtt.Client.Sound.{
  Filed, insert-Filed, remove-Filed, lookup-Filed, put_message-Filed, Sound, SoundAfter,
  then_do-Sound, call-Sound, schedule_message-Sound,
}

-- The message that is given back has the identifier, and the client is sound.
abbrev pub SoundWith : Option Number → Result WireMessage × ClientImpl → Type 0
SoundWith id (ok m, c) = (m.message_identifier ≡ id) × Sound c
SoundWith id (throw e, c) = Sound c

write_stored-Sound :
    (for_sent : Bool) (hex : Text) (message : Message) (m : WireMessage) (c : ClientImpl)
    → Sound c
    → SoundWith m.message_identifier (write_stored for_sent hex message (m, c))
write_stored-Sound for_sent hex message m c v = (refl, v)

count_sequence-Sound :
    (n : Option ℕ) (hex : Text) (message : Message) (m : WireMessage) (c : ClientImpl)
    → Sound c
    → SoundWith m.message_identifier (write_stored true hex message (count_sequence n m c))
count_sequence-Sound none hex message m c v = (refl, v)
count_sequence-Sound (some n) hex message m c v = (refl, v)

store_hex-Sound :
    (hex : Result Text) (for_sent : Bool) (message : Message) (m : WireMessage) (c : ClientImpl)
    → Sound c
    → SoundWith m.message_identifier (store_hex hex for_sent message m c)
store_hex-Sound (throw e) for_sent message m c v = v
store_hex-Sound (ok hex) false message m c v = write_stored-Sound false hex message m c v
store_hex-Sound (ok hex) true message m c v = count_sequence-Sound m.sequence hex message m c v

store_publish-Sound :
    (for_sent : Bool) (m : WireMessage) (message : Option Message) (c : ClientImpl)
    → Sound c
    → SoundWith m.message_identifier (store_publish for_sent m message c)
store_publish-Sound for_sent m none c v = v
store_publish-Sound for_sent m (some message) c v =
    store_hex-Sound (hex_of message) for_sent message m c v

pub store-Sound :
    (for_sent : Bool) (m : WireMessage) (c : ClientImpl)
    → Sound c
    → SoundWith m.message_identifier (store for_sent m c)
unfolding store
store-Sound for_sent m c v =
    if_keeps (SoundWith m.message_identifier) (is_publish m.type) _ _
      (λ is. store_publish-Sound for_sent m m.payload_message c v) λ other. v

pub keep_sent-Sound :
    (id : Option Number) (r : Result WireMessage × ClientImpl)
    → SoundWith id r
    → SoundWith id (keep_sent r)
keep_sent-Sound id (throw e, c) v = v
keep_sent-Sound id (ok m, c) (own, v) = (
  own,
  record {
    sent_filed = put_message-Filed m.message_identifier m c.sent_messages refl v.sent_filed;
    received_filed = v.received_filed;
    has_socket = v.has_socket;
    has_options = v.has_options;
  },
)

pub client-Sound :
    (id : Option Number) (r : Result WireMessage × ClientImpl) → SoundWith id r → Sound r.1
client-Sound id (ok m, c) (own, v) = v
client-Sound id (throw e, c) v = v

stored_sent-Sound : (m : WireMessage) (c : ClientImpl) → Sound c → Sound (stored_sent m c).1
unfolding stored_sent
stored_sent-Sound m c v =
    if_keeps SoundAfter (is_publish m.type) _ _
      (λ is.
        client-Sound m.message_identifier (keep_sent (store true m c))
          (keep_sent-Sound m.message_identifier (store true m c) (store-Sound true m c v)))
      λ other. v

given_identifier-Sound :
    (id : Option ℕ) (m : WireMessage) (c : ClientImpl) → Sound c → Sound (given_identifier id m c).1
unfolding given_identifier
given_identifier-Sound none m c v = v
given_identifier-Sound (some id) m c v =
    let m' : WireMessage = record m { message_identifier = some (num id) } in
    stored_sent-Sound m'
      (record c { message_identifier = id; sent_messages = insert (num id) m' c.sent_messages })
      (record {
        sent_filed = insert-Filed (num id) m' c.sent_messages refl v.sent_filed;
        received_filed = v.received_filed;
        has_socket = v.has_socket;
        has_options = v.has_options;
      })

pub requires_ack-Sound : (m : WireMessage) (c : ClientImpl) → Sound c → Sound (requires_ack m c).1
unfolding requires_ack
requires_ack-Sound m c v =
    if_keeps SoundAfter (ltb max_message_identifier (length c.sent_messages)) _ _ (λ full. v)
      λ room.
        given_identifier-Sound
          (free_identifier (length c.sent_messages + 1) c.message_identifier c.sent_messages) m c v

-- Packets
pub forget_all-Sound :
    (prefix : Text) (entries : List (Number × WireMessage)) (c : ClientImpl)
    → Sound c
    → Sound (forget_all prefix entries c)
unfolding forget_all forget
forget_all-Sound prefix [] c v = v
forget_all-Sound prefix ((id, m) ∷ rest) c v =
    forget_all-Sound prefix rest (forget prefix m.message_identifier c) v

without_sent : (c : ClientImpl) → Sound c → Sound (record c { sent_messages = [] })
without_sent c v = record {
  sent_filed = tt;
  received_filed = v.received_filed;
  has_socket = v.has_socket;
  has_options = v.has_options;
}

without_received : (c : ClientImpl) → Sound c → Sound (record c { received_messages = [] })
without_received c v = record {
  sent_filed = v.sent_filed;
  received_filed = tt;
  has_socket = v.has_socket;
  has_options = v.has_options;
}

pub clean-Sound : (c : ClientImpl) → Sound c → Sound (clean c)
unfolding clean
clean-Sound c v =
    let c1 = forget_all sent_prefix c.sent_messages c in
    let c2 : ClientImpl = record c1 { sent_messages = [] } in
    let v2 = without_sent c1 (forget_all-Sound sent_prefix c.sent_messages c v) in
    without_received (forget_all received_prefix c2.received_messages c2)
      (forget_all-Sound received_prefix c2.received_messages c2 v2)

pub resend-Sound :
    (messages : List WireMessage) (c : ClientImpl) → Sound c → Sound (resend messages c).1
unfolding resend
resend-Sound [] c v = v
resend-Sound (m ∷ messages) c v =
    then_do-Sound (schedule_message (resent m) c) (resend messages)
      (schedule_message-Sound (resent m) c v) (resend-Sound messages)

pub delete-Filed :
    (id : Option Number) (messages : Dict Number WireMessage)
    → Filed messages
    → Filed (delete id messages)
delete-Filed none messages filed = filed
delete-Filed (some id) messages filed = remove-Filed id messages filed

pub find-Filed :
    (id : Option Number) (m : WireMessage) (messages : Dict Number WireMessage)
    → Filed messages
    → find id messages ≡ some m
    → m.message_identifier ≡ id
find-Filed none m messages filed found = absurd (cc)
find-Filed (some id) m messages filed found = lookup-Filed id m messages filed found

pub deleted_sent :
    (id : Option Number) (c : ClientImpl)
    → Sound c
    → Sound (record c { sent_messages = delete id c.sent_messages })
deleted_sent id c v = record {
  sent_filed = delete-Filed id c.sent_messages v.sent_filed;
  received_filed = v.received_filed;
  has_socket = v.has_socket;
  has_options = v.has_options;
}

pub deleted_received :
    (id : Option Number) (c : ClientImpl)
    → Sound c
    → Sound (record c { received_messages = delete id c.received_messages })
deleted_received id c v = record {
  sent_filed = v.sent_filed;
  received_filed = delete-Filed id c.received_messages v.received_filed;
  has_socket = v.has_socket;
  has_options = v.has_options;
}

pub then_answer-Sound :
    (r : Result WireMessage × ClientImpl) (f : ClientImpl → Effect (Unit {0}))
    → Sound r.1
    → ((c : ClientImpl) → Sound c → Sound (f c).1)
    → Sound (then_answer r f).1
then_answer-Sound (throw e, c) f v keeps = v
then_answer-Sound (ok m, c) f v keeps = keeps c v

pub receive_quality-Sound :
    (qos : ℕ) (m : WireMessage) (c : ClientImpl) → Sound c → Sound (receive_quality qos m c).1
unfolding receive_quality receive_message
receive_quality-Sound zero m c v = call-Sound c.on_message_arrived (arrived m.payload_message) c v
receive_quality-Sound (suc zero) m c v =
    then_do-Sound _ _ (schedule_message-Sound (reply_message Wire.puback m.message_identifier) c v)
      λ c' v'. call-Sound c'.on_message_arrived (arrived m.payload_message) c' v'
receive_quality-Sound (suc (suc zero)) m c v =
    let c' : ClientImpl = record c {
      received_messages = put_message m.message_identifier m c.received_messages;
    } in
    then_answer-Sound (store false m c') _
      (client-Sound m.message_identifier (store false m c') (
        store-Sound false m c' (record {
          sent_filed = v.sent_filed;
          received_filed =
              put_message-Filed m.message_identifier m c.received_messages refl v.received_filed;
          has_socket = v.has_socket;
          has_options = v.has_options;
        })))
      (schedule_message-Sound (reply_message Wire.pubrec m.message_identifier))
receive_quality-Sound (suc (suc (suc n))) m c v = v
