-- ===== src/Checks/MqttChecks.antt =====
-- The packets of the MQTT client at concrete inputs.
use distributed_storage_with.Base.{
  ℕ, ◌≡◌, refl, true, false, List, ◌++◌, [], ◌∷◌, some, length, arith, pos, lookup, codes,
}
use distributed_storage_with.Mqtt.Faults.{ok}
use distributed_storage_with.Mqtt.Length.{encode_mbi}
use distributed_storage_with.Mqtt.Utf8.{utf8_length, string_to_utf8, parse_utf8}
use distributed_storage_with.Mqtt.Utf8.RoundTrip.{
  IsUtf16, empty, single, pair, parse_utf8-string_to_utf8,
}
use distributed_storage_with.Mqtt.Message.{Message, octets, payload_bytes}
use distributed_storage_with.Mqtt.Wire.{num, new_wire_message}
use distributed_storage_with.Mqtt.Wire.Encode.{encode, rem_length, publish_length, string_length}
use distributed_storage_with.Mqtt.Wire.Decode.{decode_message}
use distributed_storage_with.Mqtt.Wire.RoundTrip.{
  packet, delivered, identified, decode_message-encode,
}
use distributed_storage_with.Mqtt.Interface.{
  whole, not_a_number, is_below_zero, number, string, array, scalar, holds, Settings, setting,
  validate, check_each, check_connect,
}
use distributed_storage_with.Mqtt.Interface.Hosts.{HostsPaired, check_connect-Paired}

encode_mbi_321 : encode_mbi 321 ≡ 193 ∷ 2 ∷ []
unfolding encode_mbi
encode_mbi_321 = refl

-- An e with an accent, and a character beyond the basic plane
abbrev smile : List ℕ
smile = 0xE9 ∷ 0xD83D ∷ 0xDE00 ∷ []

smile-IsUtf16 : IsUtf16 smile
smile-IsUtf16 =
    single 0xE9 _ (omega arith) refl
      (pair 0xD83D 0xDE00 [] (omega arith) (omega arith) (omega arith) (omega arith) empty)

parse_utf8-string_to_utf8_example :
    (bytes : List ℕ) × (string_to_utf8 smile ≡ ok bytes)
    × (length bytes ≡ utf8_length smile)
    × (parse_utf8 (bytes ++ 7 ∷ []) (utf8_length smile) ≡ ok smile)
parse_utf8-string_to_utf8_example = parse_utf8-string_to_utf8 smile (7 ∷ []) smile-IsUtf16

abbrev reading : Message
reading = record {
  payload = octets (21 ∷ 5 ∷ []);
  destination_name = some smile;
  qos = 1;
  retained = true;
  duplicate = false;
}

smile_length : utf8_length smile ≡ 6
unfolding utf8_length
smile_length = refl

rem_length-reading : rem_length (packet reading (some (num 7))) ≡ 12
unfolding rem_length publish_length string_length utf8_length new_wire_message payload_bytes
rem_length-reading = refl

decode_message-encode_example :
    (bytes : List ℕ) × (encode (packet reading (some (num 7))) ≡ ok bytes)
    × (decode_message bytes ≡ ok (packet (delivered reading (21 ∷ 5 ∷ [])) (some (num 7))))
decode_message-encode_example =
    decode_message-encode reading smile (21 ∷ 5 ∷ []) (some (num 7)) refl smile-IsUtf16
      (omega (arith, smile_length)) (unfold payload_bytes in refl) (omega arith)
      (identified 1 7 (omega arith) (omega arith)) (omega (arith, rem_length-reading))

-- The second port is NaN, which passes.
abbrev two_hosts : Settings
two_hosts =
    (codes "hosts", array (string (codes "a") ∷ string (codes "b") ∷ []))
    ∷ (codes "ports", array (number (whole (pos 80)) ∷ number not_a_number ∷ []))
    ∷ (codes "keepAliveInterval", scalar (number (whole (pos 5))))
    ∷ []

check_connect-two_hosts : check_connect two_hosts ≡ ok tt
unfolding check_connect validate check_each is_below_zero lookup
check_connect-two_hosts = refl

hosts_given : holds (setting (codes "hosts") two_hosts) ≡ true
unfolding lookup
hosts_given = refl

check_connect-Paired_example :
    HostsPaired (setting (codes "hosts") two_hosts) (setting (codes "ports") two_hosts)
check_connect-Paired_example = check_connect-Paired two_hosts check_connect-two_hosts hosts_given
