-- ===== src/Mqtt/Client/Storing.antt =====
-- store and restore: messages in localStorage, their payload in hexadecimal.
use distributed_storage_with.Base.{
  ℕ, ◌+◌, ◌-◌, ◌*◌, Bool, true, false, ◌&&◌, ◌||◌, List, [], ◌∷◌, ◌++◌, Option, none, some,
  if◌then◌else◌, leb, nat_eq, Text, text_Eq, Dict, lookup, insert,
}
use distributed_storage_with.Radix.{natural_to_string}
use distributed_storage_with.Mqtt.Faults.{
  Result, ok, throw, invalid_stored_data, invalid_argument, type_error,
}
use distributed_storage_with.Mqtt.Message.{Message, text, octets, buffer, string_bytes}
use distributed_storage_with.Mqtt.Wire.{
  publish, Number, num, null, WireMessage, is_publish, new_wire_message,
}
use distributed_storage_with.Mqtt.Client.{
  ClientImpl, StoredMessage, Effect, done, then_do, local_key, storage_key, sent_prefix,
  received_prefix, number_Eq,
}

-- The loop over messageBytes
unfoldable pub to_hex : List ℕ → Text
to_hex [] = []
to_hex (b ∷ bytes) =
    if leb b 0xF
    then b'0' ∷ natural_to_string 16 b ++ to_hex bytes
    else natural_to_string 16 b ++ to_hex bytes

-- An ArrayBuffer has no `length`, so the loop does not run.
unfoldable pub hex_of : Message → Result Text
unfolding to_hex
hex_of m = elim m.payload [
  | text s ↦ elim (string_bytes s) [ ok bytes ↦ ok (to_hex bytes) | throw e ↦ throw e ]
  | octets bytes ↦ ok (to_hex bytes)
  | buffer bytes ↦ ok []
]

-- The sequence number, for the prefix "Sent:", and the client that has counted it
abbrev pub count_sequence : Option ℕ → WireMessage → ClientImpl → WireMessage × ClientImpl
count_sequence (some n) m c = (m, c)
count_sequence none m c =
    (record m { sequence = some (c.sequence + 1) }, record c { sequence = c.sequence + 1 })

abbrev pub numbered : Bool → WireMessage → ClientImpl → WireMessage × ClientImpl
numbered false m c = (m, c)
numbered true m c = count_sequence m.sequence m c

abbrev pub prefix_of : Bool → Text
prefix_of true = sent_prefix
prefix_of false = received_prefix

unfoldable pub json_number : Option Number → Option Number
json_number none = none
json_number (some (num n)) = some (num n)
json_number (some _) = some null

unfoldable pub stored_of : Bool → Text → Message → WireMessage → StoredMessage
unfolding json_number
stored_of for_sent hex message m = record {
  message_identifier = json_number m.message_identifier;
  pub_rec_received = m.pub_rec_received;
  payload_hex = hex;
  qos = message.qos;
  destination_name = message.destination_name;
  duplicate = message.duplicate;
  retained = message.retained;
  sequence = if for_sent then m.sequence else none;
}

abbrev pub write_stored :
    Bool → Text → Message → WireMessage × ClientImpl → Result WireMessage × ClientImpl
write_stored for_sent hex message (m, c) =
    let key = storage_key (prefix_of for_sent) m.message_identifier c in
    (
      ok m,
      record c { local_storage = insert key (stored_of for_sent hex message m) c.local_storage },
    )

abbrev pub store_hex :
    Result Text → Bool → Message → WireMessage → ClientImpl → Result WireMessage × ClientImpl
store_hex (throw e) for_sent message m c = (throw e, c)
store_hex (ok hex) for_sent message m c = write_stored for_sent hex message (numbered for_sent m c)

abbrev pub store_publish :
    Bool → WireMessage → Option Message → ClientImpl → Result WireMessage × ClientImpl
store_publish for_sent m none c = (throw type_error, c)
store_publish for_sent m (some message) c = store_hex (hex_of message) for_sent message m c

-- store(prefix, wireMessage), where the prefix is "Sent:" or "Received:". The message may get a
-- sequence number, so it is given back.
unfoldable pub store : Bool → WireMessage → ClientImpl → Result WireMessage × ClientImpl
unfolding hex_of stored_of
store for_sent m c =
    if is_publish m.type
    then store_publish for_sent m m.payload_message c
    else (throw invalid_stored_data, c)

-- parseInt of two characters, base 16; a text that begins with no digit gives NaN, and a byte 0.
unfoldable pub hex_digit : ℕ → Option ℕ
hex_digit c =
    if leb 48 c && leb c 57
    then some (c - 48)
    else if leb 97 c && leb c 102
    then some (c - 87)
    else if leb 65 c && leb c 70
    then some (c - 55)
    else none

unfoldable pub parse_pair : ℕ → ℕ → ℕ
parse_pair a b = elim (hex_digit a) [
  | none ↦ 0
  | some x ↦ elim (hex_digit b) [ none ↦ x | some y ↦ x * 16 + y ]
]

-- The loop of `restore`
unfoldable pub from_hex : Text → List ℕ
unfolding parse_pair hex_digit
from_hex [] = []
from_hex (a ∷ []) = []
from_hex (a ∷ b ∷ rest) = parse_pair a b ∷ from_hex rest

abbrev pub starts_with : Text → Text → Bool
starts_with [] s = true
starts_with (p ∷ ps) [] = false
starts_with (p ∷ ps) (c ∷ s) = nat_eq p c && starts_with ps s

unfoldable pub restored_message : StoredMessage → WireMessage
unfolding from_hex new_wire_message
restored_message stored = record (new_wire_message publish) {
  message_identifier = stored.message_identifier;
  pub_rec_received = stored.pub_rec_received;
  sequence = stored.sequence;
  payload_message = some (record {
    payload = octets (from_hex stored.payload_hex);
    destination_name = stored.destination_name;
    qos = stored.qos;
    retained = stored.retained;
    duplicate = stored.duplicate;
  });
}

-- obj[id] = message; an identifier is always stored.
abbrev pub put_message :
    Option Number → WireMessage → Dict Number WireMessage → Dict Number WireMessage
put_message none m messages = messages
put_message (some id) m messages = insert id m messages

unfoldable pub restore_stored : Text → StoredMessage → ClientImpl → ClientImpl
unfolding restored_message
restore_stored key stored c =
    let m = restored_message stored in
    if starts_with (sent_prefix ++ local_key c) key
    then record c { sent_messages = put_message stored.message_identifier m c.sent_messages }
    else if starts_with (received_prefix ++ local_key c) key
    then record c {
      received_messages = put_message stored.message_identifier m c.received_messages;
    }
    else c

-- restore(key), for a key of localStorage; without a name the setter of the message throws.
unfoldable pub restore : Text → ClientImpl → Effect (Unit {0})
unfolding restore_stored
restore key c = elim (lookup key c.local_storage) [
  | none ↦ (throw type_error, c)
  | some stored ↦ elim stored.destination_name [
    | none ↦ (throw invalid_argument, c)
    | some name ↦ done (restore_stored key stored c)
  ]
]

-- The loop of the constructor, over the keys of localStorage. A key is restored if it begins like the
-- keys of this client.
unfoldable pub restore_keys : List (Text × StoredMessage) → ClientImpl → Effect (Unit {0})
unfolding restore
restore_keys [] c = done c
restore_keys ((key, _) ∷ rest) c =
    then_do
      (if starts_with (sent_prefix ++ local_key c) key
          || starts_with (received_prefix ++ local_key c) key
        then restore key c
        else done c)
      (restore_keys rest)

-- new ClientImpl(host, port, clientId), in a browser that has WebSocket, localStorage and ArrayBuffer;
-- `connected` and the pingers come from the prototype.
unfoldable pub new_client_impl : Text → ℕ → Text → Dict Text StoredMessage → Effect (Unit {0})
unfolding restore_keys
new_client_impl host port client_id local_storage = restore_keys local_storage (record {
  host = host;
  port = port;
  client_id = client_id;
  socket = none;
  connected = false;
  connect_options = none;
  host_index = 0;
  on_connection_lost = false;
  on_message_delivered = false;
  on_message_arrived = false;
  msg_queue = [];
  sent_messages = [];
  received_messages = [];
  notify_msg_sent = false;
  message_identifier = 1;
  sequence = 0;
  send_pinger = none;
  receive_pinger = none;
  connect_timeout = false;
  local_storage = local_storage;
  log = [];
})
