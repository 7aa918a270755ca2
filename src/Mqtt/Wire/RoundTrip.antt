-- ===== src/Mqtt/Wire/RoundTrip.antt =====
-- The packets that the client encodes and that a decoder with its own rules reads back.
use distributed_storage_with.Base.{
  drop, ℕ, ◌+◌, ◌*◌, ◌/◌, ◌%◌, ◌^◌, ◌≤◌, ◌<◌, ◌≡◌, refl, sym, ap, ◌∙◌, Bool, true, false, List, [],
  ◌∷◌, ◌++◌, Option, none, some, if◌then◌else◌, nat_eq, ltb, length, length-append, take, replicate,
  arith, Text,
}
use distributed_storage_with.Mqtt.Faults.{ok}
use distributed_storage_with.Mqtt.Length.{encode_mbi, read_mbi-encode_mbi}
use distributed_storage_with.Mqtt.Utf8.{utf8_length, string_to_utf8, parse_utf8}
use distributed_storage_with.Mqtt.Utf8.RoundTrip.{IsUtf16, written_lem, Written-parse_utf8}
use distributed_storage_with.Mqtt.Message.{Message, octets, fit, string_bytes, payload_bytes}
use distributed_storage_with.Mqtt.Wire.{
  publish, Number, num, nan, null, WireMessage, new_wire_message,
}
use distributed_storage_with.Mqtt.Wire.Encode.{
  write_uint16, write_identifier, name_of, write_string, write_publish, bit, publish_flags,
  publish_length, string_length, flags, rem_length, write_body, encode,
}
use distributed_storage_with.Mqtt.Wire.Decode.{
  read_uint16, type_of, received_message, publish_of, with_quality, decode_publish, decode_type,
  decode_message,
}

take_all : (xs ys : List ℕ) → take (length xs) (xs ++ ys) ≡ xs
take_all [] ys = refl
take_all (x ∷ xs) ys = ap (λ zs. x ∷ zs) (take_all xs ys)

pub fit_exact : (n : ℕ) (xs : List ℕ) → length xs ≡ n → fit n xs ≡ xs
fit_exact n xs h = ap (λ k. take k (xs ++ replicate n 0)) (sym h) ∙ take_all xs (replicate n 0)

drop_all : (xs ys : List ℕ) → drop (length xs) (xs ++ ys) ≡ ys
drop_all [] ys = refl
drop_all (x ∷ xs) ys = drop_all xs ys

read_uint16-write_uint16 :
    (n : ℕ) (rest : List ℕ) → n < 0x10000 → read_uint16 (write_uint16 n ++ rest) ≡ num n
read_uint16-write_uint16 n rest h = ap num (omega arith)

-- A PUBLISH has an identifier just if its quality of service is above 0.
pub data Identified : ℕ → Option Number → Type 0 where
  unidentified : Identified 0 none
  identified : (q i : ℕ) → 0 < q → i < 0x10000 → Identified q (some (num i))

flags_qos : (q : ℕ) (d r : Bool) → q ≤ 2 → (bit d 8 + q * 2 + bit r 1) / 2 % 4 ≡ q
flags_qos q true true h = omega arith
flags_qos q true false h = omega arith
flags_qos q false true h = omega arith
flags_qos q false false h = omega arith

flags_retained : (q : ℕ) (d r : Bool) → q ≤ 2 → nat_eq ((bit d 8 + q * 2 + bit r 1) % 2) 1 ≡ r
flags_retained q true true h = ground arith
flags_retained q true false h = ground arith
flags_retained q false true h = ground arith
flags_retained q false false h = ground arith

flags_duplicate : (q : ℕ) (d r : Bool) → q ≤ 2 → nat_eq ((bit d 8 + q * 2 + bit r 1) / 8 % 2) 1 ≡ d
flags_duplicate q true true h = ground arith
flags_duplicate q true false h = ground arith
flags_duplicate q false true h = ground arith
flags_duplicate q false false h = ground arith

flags_small : (q : ℕ) (d r : Bool) → q ≤ 2 → bit d 8 + q * 2 + bit r 1 < 16
flags_small q true true h = omega arith
flags_small q true false h = omega arith
flags_small q false true h = omega arith
flags_small q false false h = omega arith

-- The packet of the message
abbrev pub packet : Message → Option Number → WireMessage
packet message id = record (new_wire_message publish) {
  message_identifier = id;
  payload_message = some message;
}

-- The message as its receiver has it
abbrev pub delivered : Message → List ℕ → Message
delivered m payload = record m { payload = octets payload }

module _ (m : Message) (name : Text) (payload : List ℕ) where
  received_lem :
      m.qos ≤ 2
      → m.destination_name ≡ some name
      → received_message (publish_flags m) name payload ≡ delivered m payload
  unfolding received_message publish_flags
  received_lem small named =
      let from = sym named in
      λ i. record {
        payload = octets payload;
        destination_name = from i;
        qos = flags_qos m.qos m.duplicate m.retained small i;
        retained = flags_retained m.qos m.duplicate m.retained small i;
        duplicate = flags_duplicate m.qos m.duplicate m.retained small i;
      }

  body_of : List ℕ → Option Number → List ℕ
  body_of bytes id = (write_uint16 (utf8_length name) ++ bytes) ++ (write_identifier id ++ payload)

  name_of_lem : m.destination_name ≡ some name → name_of m ≡ ok name
  name_of_lem named = rw named

  write_string_lem :
      (bytes : List ℕ)
      → string_to_utf8 name ≡ ok bytes
      → length bytes ≡ utf8_length name
      → write_string name ≡ ok (write_uint16 (utf8_length name) ++ bytes)
  unfolding write_string string_bytes
  write_string_lem bytes writes counts = rw writes (rw (fit_exact (utf8_length name) bytes counts))

  write_body_lem :
      (bytes : List ℕ) (id : Option Number)
      → string_to_utf8 name ≡ ok bytes
      → length bytes ≡ utf8_length name
      → m.destination_name ≡ some name
      → payload_bytes m ≡ ok payload
      → write_body (packet m id) ≡ ok (body_of bytes id)
  unfolding write_body write_publish body_of new_wire_message
  write_body_lem bytes id writes counts named pays =
      rw (name_of_lem named) (rw (write_string_lem bytes writes counts) (rw pays))

  -- What stands behind the name is read as it was written.
  tail_lem :
      (q x : ℕ) (id : Option Number)
      → Identified q id
      → x ≡ q
      → (if ltb 0 x
          then publish_of
              (publish_flags m)
              name
              (some (read_uint16 (write_identifier id ++ payload)))
              (drop 2 (write_identifier id ++ payload))
          else publish_of (publish_flags m) name none (write_identifier id ++ payload))
        ≡ publish_of (publish_flags m) name id payload
  tail_lem q x none unidentified e = rw e
  tail_lem q x (some id) (identified q' i positive small) e =
      let test : ltb 0 x ≡ true = ground arith in
      rw test (
        ap (λ n. publish_of (publish_flags m) name (some n) payload)
          (read_uint16-write_uint16 i payload small))

  behind_name :
      (bytes tail : List ℕ)
      → length bytes ≡ utf8_length name
      → drop (utf8_length name) (bytes ++ tail) ≡ tail
  behind_name bytes tail counts =
      ap (λ n. drop n (bytes ++ tail)) (sym counts) ∙ drop_all bytes tail

  flags_lem : m.qos ≤ 2 → (publish_flags m / 2 % 4 ≡ m.qos) × (publish_flags m < 16)
  unfolding publish_flags
  flags_lem small =
      (flags_qos m.qos m.duplicate m.retained small, flags_small m.qos m.duplicate m.retained small)

  with_quality_lem : (w : WireMessage) → m.qos ≤ 2 → with_quality (publish_flags m) w ≡ ok w
  unfolding with_quality
  with_quality_lem w small =
      let quality = (flags_lem small).0 in
      let test : ltb (publish_flags m / 2 % 4) 3 ≡ true = ground arith in rw test refl

  publish_length_lem :
      m.destination_name ≡ some name
      → payload_bytes m ≡ ok payload
      → publish_length m ≡ utf8_length name + 2 + length payload
  unfolding publish_length string_length
  publish_length_lem named pays = rw pays (rw named)

  decode_publish_lem :
      (bytes : List ℕ) (id : Option Number) (input : List ℕ)
      → length bytes ≡ utf8_length name
      → ((rest : List ℕ) → parse_utf8 (bytes ++ rest) (utf8_length name) ≡ ok name)
      → utf8_length name < 0x10000
      → m.qos ≤ 2
      → m.destination_name ≡ some name
      → Identified m.qos id
      → decode_publish (publish_flags m) input (body_of bytes id)
        ≡ ok (packet (delivered m payload) id)
  unfolding decode_publish publish_of body_of
  decode_publish_lem bytes id input counts reads short small named has_id =
      let tail = write_identifier id ++ payload in
      let count : 256 * (utf8_length name / 256 % 256) + utf8_length name % 256 ≡ utf8_length name =
        omega arith in
      rw count (
        rw (reads tail) (
          rw (behind_name bytes tail counts) (
            ap (with_quality (publish_flags m)) (
              tail_lem m.qos (publish_flags m / 2 % 4) id has_id (flags_lem small).0
              ∙ ap (λ message. packet message id) (received_lem small named))
            ∙ with_quality_lem _ small)))

  length-body_of :
      (bytes : List ℕ) (id : Option Number)
      → length bytes ≡ utf8_length name
      → m.destination_name ≡ some name
      → payload_bytes m ≡ ok payload
      → length (body_of bytes id) ≡ rem_length (packet m id)
  unfolding body_of rem_length new_wire_message
  length-body_of bytes none counts named pays =
      omega (arith, length-append bytes payload, publish_length_lem named pays)
  length-body_of bytes (some (num n)) counts named pays =
      omega (arith, length-append bytes (write_uint16 n ++ payload), publish_length_lem named pays)
  length-body_of bytes (some nan) counts named pays =
      omega (arith, length-append bytes (0 ∷ 0 ∷ payload), publish_length_lem named pays)
  length-body_of bytes (some null) counts named pays =
      omega (arith, length-append bytes (0 ∷ 0 ∷ payload), publish_length_lem named pays)

-- A PUBLISH with a well-formed name of fewer than 65536 bytes, a payload that has bytes, a quality of
-- service up to 2 and an identifier just if that is not 0, which is shorter than 2 ^ 28 bytes, is
-- encoded, and decodeMessage gives the packet back, its payload as bytes.
pub decode_message-encode :
    (m : Message) (name : Text) (payload : List ℕ) (id : Option Number)
    → m.destination_name ≡ some name
    → IsUtf16 name
    → utf8_length name < 0x10000
    → payload_bytes m ≡ ok payload
    → m.qos ≤ 2
    → Identified m.qos id
    → rem_length (packet m id) < 2 ^ 28
    → (bytes : List ℕ) × (encode (packet m id) ≡ ok bytes)
      × (decode_message bytes ≡ ok (packet (delivered m payload) id))
unfolding encode decode_message flags new_wire_message decode_type type_of
decode_message-encode m name payload id named well short pays small has_id fits =
    let w = written_lem well in
    let body = body_of m name payload w.bytes id in
    let sized = length-body_of m name payload w.bytes id w.counted named pays in
    let (qos, low) = flags_lem m name payload small in
    let first : (48 + publish_flags m) / 16 ≡ 3 = omega (arith, low) in
    let flags : (48 + publish_flags m) % 16 ≡ publish_flags m = omega (arith, low) in
    (
      (48 + publish_flags m) ∷ encode_mbi (rem_length (packet m id)) ++ body,
      rw (write_body_lem m name payload w.bytes id w.written w.counted named pays)
          (rw (fit_exact (rem_length (packet m id)) body sized)),
      rw (read_mbi-encode_mbi (rem_length (packet m id)) body fits) (
          rw first (
            rw flags (
              decode_publish_lem m name payload w.bytes id _ w.counted (Written-parse_utf8 w) short
                small named has_id))),
    )
