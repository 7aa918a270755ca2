-- ===== src/Mqtt/Wire/Decode.antt =====
-- decodeMessage: a packet from the bytes that the socket received.
use distributed_storage_with.Base.{
  drop, ℕ, zero, suc, ◌+◌, ◌*◌, ◌/◌, ◌%◌, List, [], ◌∷◌, Option, none, some, if◌then◌else◌, nat_eq,
  ltb, Text,
}
use distributed_storage_with.Mqtt.Faults.{Result, ok, throw, invalid_argument, ◌>>=◌}
use distributed_storage_with.Mqtt.Length.{read_mbi}
use distributed_storage_with.Mqtt.Utf8.{parse_utf8}
use distributed_storage_with.Mqtt.Message.{Message, octets}
use distributed_storage_with.Mqtt.Wire.{
  MessageType, connect, connack, publish, puback, pubrec, pubrel, pubcomp, subscribe, suback,
  unsubscribe, unsuback, pingreq, pingresp, disconnect, unnamed, Number, num, nan, WireMessage,
  new_wire_message, reply_message,
}

abbrev pub head? : List ℕ → Option ℕ
head? [] = none
head? (x ∷ xs) = some x

-- readUint16, which is NaN if a byte is missing
abbrev pub read_uint16 : List ℕ → Number
read_uint16 (a ∷ b ∷ rest) = num (256 * a + b)
read_uint16 _ = nan

-- first >> 4
type_at : List MessageType → ℕ → ℕ → MessageType
type_at [] n code = unnamed code
type_at (t ∷ ts) zero code = t
type_at (t ∷ ts) (suc n) code = type_at ts n code

unfoldable pub type_of : ℕ → MessageType
unfolding type_at
type_of code =
    type_at
      (unnamed 0
        ∷ connect
        ∷ connack
        ∷ publish
        ∷ puback
        ∷ pubrec
        ∷ pubrel
        ∷ pubcomp
        ∷ subscribe
        ∷ suback
        ∷ unsubscribe
        ∷ unsuback
        ∷ pingreq
        ∷ pingresp
        ∷ disconnect
        ∷ [])
      code code

-- The message of a PUBLISH
unfoldable pub received_message : ℕ → Text → List ℕ → Message
received_message info name payload = record {
  payload = octets payload;
  destination_name = some name;
  qos = info / 2 % 4;
  retained = nat_eq (info % 2) 1;
  duplicate = nat_eq (info / 8 % 2) 1;
}

unfoldable pub publish_of : ℕ → Text → Option Number → List ℕ → WireMessage
unfolding new_wire_message received_message
publish_of info name id payload = record (new_wire_message publish) {
  message_identifier = id;
  payload_message = some (received_message info name payload);
}

-- `message.qos = qos`, which throws for a quality that there is not
unfoldable pub with_quality : ℕ → WireMessage → Result WireMessage
with_quality info m = if ltb (info / 2 % 4) 3 then ok m else throw invalid_argument

-- A length that is NaN makes the name empty and every later position NaN; `subarray` reads that as 0.
unfoldable pub decode_publish : ℕ → List ℕ → List ℕ → Result WireMessage
unfolding publish_of with_quality
decode_publish info input rest = elim (read_uint16 rest) [
  | num count ↦ parse_utf8 (drop 2 rest) count >>= λ name.
      let body = drop count (drop 2 rest) in
      with_quality info (
        if ltb 0 (info / 2 % 4)
        then publish_of info name (some (read_uint16 body)) (drop 2 body)
        else publish_of info name none body)
  | _ ↦
      with_quality info (publish_of info [] (if ltb 0 (info / 2 % 4) then some nan else none) input)
]

-- The `switch`, for the input from `pos` on
unfoldable pub decode_type : MessageType → ℕ → List ℕ → List ℕ → Result WireMessage
unfolding decode_publish reply_message
decode_type connack info input rest =
    ok (record (new_wire_message connack) { return_code = head? (drop 1 rest) })
decode_type publish info input rest = decode_publish info input rest
decode_type puback info input rest = ok (reply_message puback (some (read_uint16 rest)))
decode_type pubrec info input rest = ok (reply_message pubrec (some (read_uint16 rest)))
decode_type pubrel info input rest = ok (reply_message pubrel (some (read_uint16 rest)))
decode_type pubcomp info input rest = ok (reply_message pubcomp (some (read_uint16 rest)))
decode_type unsuback info input rest = ok (reply_message unsuback (some (read_uint16 rest)))
decode_type suback info input rest =
    ok (record (reply_message suback (some (read_uint16 rest))) { granted_qos = drop 2 rest })
decode_type type info input rest = ok (new_wire_message type)

-- input[0] of an empty packet is `undefined`, whose bits are 0.
unfoldable pub decode_message : List ℕ → Result WireMessage
unfolding decode_type type_of
decode_message [] = ok (new_wire_message (unnamed 0))
decode_message (first ∷ input) =
    decode_type (type_of (first / 16)) (first % 16) (first ∷ input) (read_mbi input).1
