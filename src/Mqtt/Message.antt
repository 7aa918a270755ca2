-- ===== src/Mqtt/Message.antt =====
-- Messaging.Message: a payload with a destination, a quality of service and two flags.
use distributed_storage_with.Base.{
  ℕ, zero, suc, Bool, true, false, ◌||◌, List, [], ◌∷◌, ◌++◌, Option, none, some, if◌then◌else◌,
  nat_eq, length, take, replicate, Text,
}
use distributed_storage_with.Mqtt.Faults.{Result, ok, throw, invalid_argument, ◌>>=◌}
use distributed_storage_with.Mqtt.Utf8.{utf8_length, string_to_utf8, parse_utf8}

-- The values that a script hands to the constructor and the setters. The typed arrays other than
-- Uint8Array are left out.
pub data Value : Type 0 where
  undefined null : Value
  boolean : Bool → Value
  number : ℕ → Value
  string : Text → Value
  uint8_array : List ℕ → Value
  array_buffer : List ℕ → Value
  object function : Value

pub data Payload : Type 0 where
  text : Text → Payload
  octets : List ℕ → Payload
  buffer : List ℕ → Payload

pub record Message : Type 0 where
  pub payload : Payload
  pub destination_name : Option Text
  pub qos : ℕ
  pub retained : Bool
  pub duplicate : Bool

abbrev message_of : Payload → Message
message_of payload = record {
  payload = payload;
  destination_name = none;
  qos = 0;
  retained = false;
  duplicate = false;
}

-- new Message(newPayload)
unfoldable pub new_message : Value → Result Message
new_message (string s) = ok (message_of (text s))
new_message (uint8_array bytes) = ok (message_of (octets bytes))
new_message (array_buffer bytes) = ok (message_of (buffer bytes))
new_message _ = throw invalid_argument

-- What is left of the bytes in a buffer of zeroes that has room for so many.
abbrev pub fit : ℕ → List ℕ → List ℕ
fit count bytes = take count (bytes ++ replicate count 0)

-- The bytes of a string in a buffer of UTF8Length(string) bytes.
unfoldable pub string_bytes : Text → Result (List ℕ)
string_bytes s = string_to_utf8 s >>= λ bytes. ok (fit (utf8_length s) bytes)

-- message.payloadString; an ArrayBuffer has no `length`, and the loop that compares with it ends at once.
unfoldable pub payload_string : Message → Result Text
payload_string m = elim m.payload [
  | text s ↦ ok s
  | octets bytes ↦ parse_utf8 bytes (length bytes)
  | buffer bytes ↦ ok []
]

-- message.payloadBytes, as the bytes that it holds
unfoldable pub payload_bytes : Message → Result (List ℕ)
unfolding string_bytes
payload_bytes m = elim m.payload [
  | text s ↦ string_bytes s
  | octets bytes ↦ ok bytes
  | buffer bytes ↦ ok bytes
]

unfoldable pub set_destination_name : Value → Message → Result Message
set_destination_name (string name) m = ok (record m { destination_name = some name })
set_destination_name _ m = throw invalid_argument

unfoldable pub set_qos : Value → Message → Result Message
set_qos (number q) m =
    if nat_eq q 0 || nat_eq q 1 || nat_eq q 2
    then ok (record m { qos = q })
    else throw invalid_argument
set_qos _ m = throw invalid_argument

unfoldable pub set_retained : Value → Message → Result Message
set_retained (boolean b) m = ok (record m { retained = b })
set_retained _ m = throw invalid_argument

-- The setter does not look at the type: what counts is the truth of the value.
abbrev pub truthy : Value → Bool
truthy undefined = false
truthy null = false
truthy (boolean b) = b
truthy (number zero) = false
truthy (number (suc _)) = true
truthy (string []) = false
truthy (string (_ ∷ _)) = true
truthy _ = true

unfoldable pub set_duplicate : Value → Message → Message
set_duplicate v m = record m { duplicate = truthy v }
