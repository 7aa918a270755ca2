-- ===== src/Mqtt/Wire/Encode.antt =====
-- WireMessage.encode, and what it writes numbers and strings with.
use distributed_storage_with.Base.{
  ℕ, ◌+◌, ◌*◌, ◌/◌, ◌%◌, Bool, true, false, List, [], ◌∷◌, ◌++◌, Option, none, some, length, Text,
}
use distributed_storage_with.Mqtt.Faults.{Result, ok, throw, type_error, ◌>>=◌}
use distributed_storage_with.Mqtt.Length.{encode_mbi}
use distributed_storage_with.Mqtt.Utf8.{utf8_length}
use distributed_storage_with.Mqtt.Message.{
  Message, text, octets, buffer, fit, string_bytes, payload_bytes,
}
use distributed_storage_with.Mqtt.Wire.{
  connect, publish, subscribe, unsubscribe, type_number, Number, num, WireMessage,
}

-- writeUint16; a byte of the buffer keeps a number modulo 256, and NaN becomes 0.
abbrev pub write_uint16 : ℕ → List ℕ
write_uint16 n = (n / 256 % 256) ∷ (n % 256) ∷ []

abbrev pub write_number : Number → List ℕ
write_number (num n) = write_uint16 n
write_number _ = 0 ∷ 0 ∷ []

-- writeString(s, UTF8Length(s), buffer, offset)
unfoldable pub write_string : Text → Result (List ℕ)
unfolding string_bytes
write_string s = string_bytes s >>= λ bytes. ok (write_uint16 (utf8_length s) ++ bytes)

-- A property that may be missing
abbrev pub optional {ℓ} : {A : Type ℓ} → (A → Result (List ℕ)) → Option A → Result (List ℕ)
optional write none = ok []
optional write (some a) = write a

abbrev pub optional_length {ℓ} : {A : Type ℓ} → (A → ℕ) → Option A → ℕ
optional_length count none = 0
optional_length count (some a) = count a

infixr 20 ◌then_write◌
abbrev pub ◌then_write◌ : Result (List ℕ) → Result (List ℕ) → Result (List ℕ)
a then_write b = a >>= λ bytes. b >>= λ more. ok (bytes ++ more)

unfoldable pub string_length : Text → ℕ
string_length s = utf8_length s + 2

-- The name of a message's destination; where none was set, UTF8Length reads a property of `undefined`.
abbrev pub name_of : Message → Result Text
name_of m = elim m.destination_name [ none ↦ throw type_error | some name ↦ ok name ]

-- The payload of a will: if it is not a Uint8Array, the array that is made in its place is made from
-- another variable, which is undefined, and is empty. A string's `payloadBytes` are a Uint8Array.
will_bytes : Message → Result (List ℕ)
will_bytes m = elim m.payload [
  | text s ↦ string_bytes s
  | octets bytes ↦ ok bytes
  | buffer bytes ↦ ok []
]

write_will : Message → Result (List ℕ)
unfolding will_bytes write_string
write_will m = name_of m >>= λ name.
    write_string name then_write will_bytes m >>= λ bytes. ok (write_uint16 (length bytes) ++ bytes)

-- The topics of SUBSCRIBE, each with its quality of service, and of UNSUBSCRIBE
write_subscriptions : List Text → List ℕ → Result (List ℕ)
write_subscriptions [] qos = ok []
write_subscriptions (topic ∷ topics) [] =
    write_string topic then_write ok (0 ∷ []) then_write write_subscriptions topics []
write_subscriptions (topic ∷ topics) (q ∷ qos) =
    write_string topic then_write ok ((q % 256) ∷ []) then_write write_subscriptions topics qos

write_topics : List Text → Result (List ℕ)
write_topics [] = ok []
write_topics (topic ∷ topics) = write_string topic then_write write_topics topics

abbrev pub bit : Bool → ℕ → ℕ
bit true n = n
bit false n = 0

abbrev present {ℓ} : {A : Type ℓ} → Option A → Bool
present none = false
present (some _) = true

-- The flags of a will: its presence, its quality of service and whether it is retained
will_flags : Option Message → ℕ
will_flags none = 0
will_flags (some will) = 0x04 + will.qos * 8 + bit will.retained 0x20

-- The bits are distinct, so `|` adds them.
connect_flags : WireMessage → ℕ
unfolding will_flags
connect_flags m =
    bit m.clean_session 0x02
    + will_flags m.will_message
    + bit (present m.user_name) 0x80
    + bit (present m.password) 0x40

-- MqttProtoIdentifier
proto_identifier : List ℕ
proto_identifier = 0x00 ∷ 0x06 ∷ 0x4d ∷ 0x51 ∷ 0x49 ∷ 0x73 ∷ 0x64 ∷ 0x70 ∷ 0x03 ∷ []

abbrev pub write_identifier : Option Number → List ℕ
write_identifier none = []
write_identifier (some id) = write_number id

write_connect : WireMessage → Result (List ℕ)
unfolding connect_flags proto_identifier write_will write_string
write_connect m =
    ok (proto_identifier ++ (connect_flags m ∷ write_uint16 m.keep_alive_interval))
    then_write ok (write_identifier m.message_identifier)
    then_write write_string m.client_id
    then_write optional write_will m.will_message
    then_write optional write_string m.user_name
    then_write optional write_string m.password

-- The first byte of a PUBLISH, apart from its type
unfoldable pub publish_flags : Message → ℕ
publish_flags m = bit m.duplicate 0x08 + m.qos * 2 + bit m.retained 0x01

unfoldable pub write_publish : Message → Option Number → Result (List ℕ)
unfolding write_string
write_publish m id =
    (name_of m >>= write_string) then_write ok (write_identifier id) then_write payload_bytes m

-- What follows the length in the buffer
unfoldable pub write_body : WireMessage → Result (List ℕ)
unfolding write_connect write_publish write_subscriptions write_topics
write_body m = elim m.type [
  | connect ↦ write_connect m
  | publish ↦ elim m.payload_message [
    | none ↦ throw type_error
    | some message ↦ write_publish message m.message_identifier
  ]
  | subscribe ↦
      ok (write_identifier m.message_identifier)
      then_write write_subscriptions m.topics m.requested_qos
  | unsubscribe ↦ ok (write_identifier m.message_identifier) then_write write_topics m.topics
  | _ ↦ ok (write_identifier m.message_identifier)
]

unfoldable pub flags : WireMessage → ℕ
unfolding publish_flags
flags m = elim m.type [
  | publish ↦ optional_length publish_flags m.payload_message
  | subscribe ↦ 0x02
  | unsubscribe ↦ 0x02
  | _ ↦ 0
]

topics_length : List Text → ℕ
unfolding string_length
topics_length [] = 0
topics_length (topic ∷ topics) = string_length topic + topics_length topics

will_length : Message → ℕ
unfolding string_length will_bytes
will_length m =
    optional_length string_length m.destination_name
    + (elim (will_bytes m) [ ok bytes ↦ length bytes | throw e ↦ 0 ] + 2)

unfoldable pub publish_length : Message → ℕ
unfolding string_length
publish_length m =
    optional_length string_length m.destination_name
    + (elim (payload_bytes m) [ ok bytes ↦ length bytes | throw e ↦ 0 ])

-- remLength; a step of it that throws does so when the body is written, too.
unfoldable pub rem_length : WireMessage → ℕ
unfolding string_length topics_length will_length publish_length proto_identifier
rem_length m = optional_length (λ _. 2) m.message_identifier + elim m.type [
  | connect ↦
      length proto_identifier
      + 3
      + string_length m.client_id
      + optional_length will_length m.will_message
      + optional_length string_length m.user_name
      + optional_length string_length m.password
  | subscribe ↦ topics_length m.topics + length m.requested_qos
  | unsubscribe ↦ topics_length m.topics
  | publish ↦ optional_length publish_length m.payload_message
  | _ ↦ 0
]

-- The buffer has room for remLength bytes after the header, and what is written behind its end is lost.
unfoldable pub encode : WireMessage → Result (List ℕ)
unfolding write_body flags rem_length
encode m = write_body m >>= λ body. ok (
    (type_number m.type % 16 * 16 + flags m) ∷ encode_mbi (rem_length m) ++ fit (rem_length m) body)
