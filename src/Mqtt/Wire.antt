-- ===== src/Mqtt/Wire.antt =====
-- WireMessage: MQTT packets as the client encodes and decodes them.
pub mod Encode
pub mod Decode
pub mod RoundTrip
use distributed_storage_with.Base.{
  ℕ, ◌+◌, ◌*◌, ◌/◌, ◌%◌, ◌≡◌, Bool, true, false, List, [], ◌∷◌, ◌++◌, Option, none, some, Text,
}
use distributed_storage_with.Mqtt.Message.{Message}

-- MESSAGE_TYPE, and the type numbers that have no name there
pub data MessageType : Type 0 where
  connect connack publish puback pubrec pubrel pubcomp : MessageType
  subscribe suback unsubscribe unsuback pingreq pingresp disconnect : MessageType
  unnamed : ℕ → MessageType

abbrev pub type_number : MessageType → ℕ
type_number connect = 1
type_number connack = 2
type_number publish = 3
type_number puback = 4
type_number pubrec = 5
type_number pubrel = 6
type_number pubcomp = 7
type_number subscribe = 8
type_number suback = 9
type_number unsubscribe = 10
type_number unsuback = 11
type_number pingreq = 12
type_number pingresp = 13
type_number disconnect = 14
type_number (unnamed n) = n

-- A message identifier: reading behind the end of a packet gives NaN, of which JSON makes null.
pub data Number : Type 0 where
  num : ℕ → Number
  nan : Number
  null : Number

-- The properties that a packet can have; `none` and `[]` stand for `undefined`. Those from `user_name`
-- to `keep_alive_interval` are for CONNECT. `callback` tells whether there is a function to call when
-- the packet is acknowledged, and `time_out` whether there is a timer.
pub record WireMessage : Type 0 where
  pub type : MessageType
  pub message_identifier : Option Number
  pub payload_message : Option Message
  pub topics : List Text
  pub requested_qos : List ℕ
  pub client_id : Text
  pub user_name : Option Text
  pub password : Option Text
  pub will_message : Option Message
  pub clean_session : Bool
  pub keep_alive_interval : ℕ
  pub return_code : Option ℕ
  pub granted_qos : List ℕ
  pub pub_rec_received : Bool
  pub sequence : Option ℕ
  pub callback : Bool
  pub time_out : Bool

abbrev pub is_publish : MessageType → Bool
is_publish publish = true
is_publish _ = false

-- new WireMessage(type)
unfoldable pub new_wire_message : MessageType → WireMessage
new_wire_message type = record {
  type = type;
  message_identifier = none;
  payload_message = none;
  topics = [];
  requested_qos = [];
  client_id = [];
  user_name = none;
  password = none;
  will_message = none;
  clean_session = false;
  keep_alive_interval = 0;
  return_code = none;
  granted_qos = [];
  pub_rec_received = false;
  sequence = none;
  callback = false;
  time_out = false;
}

-- new WireMessage(type, {messageIdentifier: id})
unfoldable pub reply_message : MessageType → Option Number → WireMessage
unfolding new_wire_message
reply_message type id = record (new_wire_message type) { message_identifier = id }
