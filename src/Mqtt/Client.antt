-- ===== src/Mqtt/Client.antt =====
-- ClientImpl: the state of a client, and what it does to the world around it.
pub mod Storing
pub mod Sending
pub mod Requests
pub mod Welcome
pub mod Receiving
pub mod Timers
pub mod Trace
pub mod LastEntries
pub mod Identifiers
pub mod Sound
pub mod Handling
pub mod Packets
pub mod Calls
pub mod Steps
pub mod Closing
pub mod Receiver
pub mod Refinement
pub mod ExactlyOnce
pub mod Persistence
use distributed_storage_with.Base.{
  ℕ, ◌+◌, ◌*◌, ◌≡◌, Bool, true, false, ◌&&◌, List, [], ◌∷◌, ◌++◌, Option, none, some, if◌then◌else◌,
  ltb, nat_eq, nat_eq_iff, Text, codes, Eq, Dict, lookup, ◌↔◌, arith,
}
use distributed_storage_with.Radix.{natural_to_string}
use distributed_storage_with.Mqtt.Faults.{Fault, Result, ok, throw}
use distributed_storage_with.Mqtt.Message.{Message}
use distributed_storage_with.Mqtt.Wire.{Number, num, nan, null, WireMessage}

abbrev pub number_eq : Number → Number → Bool
number_eq (num a) (num b) = nat_eq a b
number_eq nan nan = true
number_eq null null = true
number_eq _ _ = false

pub number_eq_iff : (a b : Number) → (number_eq a b ≡ true) ↔ (a ≡ b)
number_eq_iff (num a) (num b) = ground (arith, nat_eq_iff a b)
number_eq_iff (num a) nan = ground arith
number_eq_iff (num a) null = ground arith
number_eq_iff nan (num b) = ground arith
number_eq_iff nan nan = ground arith
number_eq_iff nan null = ground arith
number_eq_iff null (num b) = ground arith
number_eq_iff null nan = ground arith
number_eq_iff null null = ground arith

-- The key of an object, which is the text of a number: NaN is a key like others.
instance abbrev pub number_Eq : Eq Number
number_Eq = record { equals = number_eq; equals_iff = number_eq_iff }

-- The options of `connect`. The functions among them are there or not; `hosts` comes with `ports`.
pub record ConnectOptions : Type 0 where
  pub timeout : Option ℕ
  pub user_name : Option Text
  pub password : Option Text
  pub will_message : Option Message
  pub keep_alive_interval : ℕ
  pub clean_session : Bool
  pub use_ssl : Bool
  pub on_success : Bool
  pub on_failure : Bool
  pub hosts : Option (List Text)
  pub ports : List ℕ

-- The readyState of a WebSocket: CONNECTING, OPEN, and CLOSING or CLOSED
pub data ReadyState : Type 0 where
  connecting open_state closed_state : ReadyState

-- `running` tells whether the pinger's timer runs.
pub record Pinger : Type 0 where
  pub interval : ℕ
  pub is_reset : Bool
  pub running : Bool

-- What `store` writes, as JSON gives it back.
pub record StoredMessage : Type 0 where
  pub message_identifier : Option Number
  pub pub_rec_received : Bool
  pub payload_hex : Text
  pub qos : ℕ
  pub destination_name : Option Text
  pub duplicate : Bool
  pub retained : Bool
  pub sequence : Option ℕ

-- What the client does outside itself: it opens and closes sockets, sends packets, and calls the
-- functions of the application.
pub data Event : Type 0 where
  opened : Text → Event
  closed : Event
  sent : List ℕ → Event
  delivered : Option Message → Event
  arrived : Option Message → Event
  connection_lost : ℕ → Event
  connect_failed : ℕ → Event
  connect_succeeded : Event
  acknowledged : Event
  timer_set timer_cancelled : Event

-- `_notify_msg_sent` is indexed by messages, and the text of every object is the same: it holds one
-- function at most, that of `disconnect`. The `on_` fields tell whether the application has set these
-- functions; they return nothing, and do not call the client.
pub record ClientImpl : Type 0 where
  pub host : Text
  pub port : ℕ
  pub client_id : Text
  pub socket : Option ReadyState
  pub connected : Bool
  pub connect_options : Option ConnectOptions
  pub host_index : ℕ
  pub on_connection_lost : Bool
  pub on_message_delivered : Bool
  pub on_message_arrived : Bool
  pub msg_queue : List WireMessage
  pub sent_messages : Dict Number WireMessage
  pub received_messages : Dict Number WireMessage
  pub notify_msg_sent : Bool
  pub message_identifier : ℕ
  pub sequence : ℕ
  pub send_pinger : Option Pinger
  pub receive_pinger : Option Pinger
  pub connect_timeout : Bool
  pub local_storage : Dict Text StoredMessage
  pub log : List Event

abbrev pub Effect {ℓ} : Type ℓ → Type ℓ
Effect A = Result A × ClientImpl

abbrev pub done : ClientImpl → Effect (Unit {0})
done c = (ok tt, c)

-- The next statement, if the one before did not throw
abbrev pub then_do : Effect (Unit {0}) → (ClientImpl → Effect (Unit {0})) → Effect (Unit {0})
then_do (ok _, c) f = f c
then_do (throw e, c) f = (throw e, c)

abbrev pub emit : Event → ClientImpl → ClientImpl
emit event c = record c { log = c.log ++ event ∷ [] }

-- A function of the application, if there is one
abbrev pub call : Bool → Event → ClientImpl → ClientImpl
call true event c = emit event c
call false event c = c

-- _localKey
unfoldable pub local_key : ClientImpl → Text
local_key c = c.host ++ (b':' ∷ natural_to_string 10 c.port ++ (b':' ∷ c.client_id ++ b':' ∷ []))

-- The text of a number in a key
unfoldable pub number_text : Number → Text
number_text (num n) = natural_to_string 10 n
number_text nan = codes "NaN"
number_text null = codes "null"

abbrev pub identifier_text : Option Number → Text
identifier_text none = codes "undefined"
identifier_text (some id) = number_text id

abbrev pub sent_prefix : Text
sent_prefix = codes "Sent:"

abbrev pub received_prefix : Text
received_prefix = codes "Received:"

-- The key of a message in localStorage
unfoldable pub storage_key : Text → Option Number → ClientImpl → Text
unfolding local_key number_text
storage_key prefix id c = prefix ++ (local_key c ++ identifier_text id)

-- Pinger.reset and Pinger.cancel
unfoldable pub reset_pinger : Pinger → Pinger
reset_pinger p = record p { is_reset = true; running = ltb 0 p.interval }

unfoldable pub cancel_pinger : Pinger → Pinger
cancel_pinger p = record p { running = false }

-- new Pinger(client, window, keepAliveInterval)
unfoldable pub new_pinger : ℕ → Pinger
new_pinger keep_alive_interval = record {
  interval = keep_alive_interval * 1000;
  is_reset = false;
  running = false;
}
