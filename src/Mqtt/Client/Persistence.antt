-- ===== src/Mqtt/Client/Persistence.antt =====
-- What `store` writes to localStorage, `restore` reads back.
use distributed_storage_with.Base.{
  ℕ, ◌+◌, ◌*◌, ◌/◌, ◌%◌, ◌<◌, ◌≤◌, ◌≡◌, ◌≢◌, refl, ap, ◌∙◌, Bool, true, List, [], ◌∷◌, ◌++◌, Option,
  none, some, leb, Text, Dict, nat_eq_iff, text_Eq, Eq, ◌==◌, lookup, insert, lookup-insert, All,
  if_keeps, arith,
}
use distributed_storage_with.Radix.{
  natural_to_string, digit_char, natural_to_string16_one, natural_to_string16_two,
}
use distributed_storage_with.Mqtt.Client.Storing.{
  to_hex, from_hex, parse_pair, hex_digit, hex_of, stored_of, json_number, write_stored,
  starts_with, store, restored_message, put_message, restore_stored, restore,
}
use distributed_storage_with.Mqtt.Faults.{Result, ok}
use distributed_storage_with.Mqtt.Message.{Message, octets}
use distributed_storage_with.Mqtt.Wire.{publish, Number, num, WireMessage, new_wire_message}
use distributed_storage_with.Mqtt.Client.{
  ClientImpl, Effect, StoredMessage, local_key, identifier_text, sent_prefix, storage_key,
  number_Eq,
}
use distributed_storage_with.Mqtt.Client.Sound.{present}

hex_digit-digit_char : (d : ℕ) → d < 16 → hex_digit (digit_char d) ≡ some d
unfolding hex_digit digit_char
hex_digit-digit_char d small = ground arith

parse_pair-digits :
    (a b : ℕ) → a < 16 → b < 16 → parse_pair (digit_char a) (digit_char b) ≡ a * 16 + b
unfolding parse_pair
parse_pair-digits a b small small' =
    ground (arith, hex_digit-digit_char a small, hex_digit-digit_char b small')

from_hex-digits :
    (a b : ℕ) (rest : Text)
    → a < 16
    → b < 16
    → from_hex (digit_char a ∷ digit_char b ∷ rest) ≡ (a * 16 + b) ∷ from_hex rest
unfolding from_hex
from_hex-digits a b rest small small' =
    ap (λ n. n ∷ from_hex rest) (parse_pair-digits a b small small')

one_digit :
    (b : ℕ) (rest : Text)
    → b < 16
    → from_hex (b'0' ∷ natural_to_string 16 b ++ rest) ≡ b ∷ from_hex rest
unfolding digit_char
one_digit b rest small =
    let zero_first = from_hex-digits 0 b rest (omega arith) small in
    let value : 0 * 16 + b ≡ b = omega arith in
    rw (natural_to_string16_one b small) (rw value at zero_first)

two_digits :
    (b : ℕ) (rest : Text)
    → 16 ≤ b
    → b < 256
    → from_hex (natural_to_string 16 b ++ rest) ≡ b ∷ from_hex rest
two_digits b rest large small =
    let value : b / 16 * 16 + b % 16 ≡ b = omega arith in
    let both = from_hex-digits (b / 16) (b % 16) rest (omega arith) (omega arith) in
    rw (natural_to_string16_two b large small) (rw value at both)

-- The hexadecimal text of bytes is read back as the bytes.
pub from_hex-to_hex : (bytes : List ℕ) → All (λ b. b < 256) bytes → from_hex (to_hex bytes) ≡ bytes
unfolding to_hex
from_hex-to_hex [] small = unfold from_hex in refl
from_hex-to_hex (b ∷ bytes) (small, smaller) =
    let others = from_hex-to_hex bytes smaller in
    if_keeps (λ s. from_hex s ≡ b ∷ bytes) (leb b 0xF) _ _
      (λ one. one_digit b (to_hex bytes) (ground arith) ∙ ap (λ xs. b ∷ xs) others)
      λ two. two_digits b (to_hex bytes) (ground arith) small ∙ ap (λ xs. b ∷ xs) others

starts_with-append : (p s : Text) → starts_with p (p ++ s) ≡ true
starts_with-append [] s = refl
starts_with-append (x ∷ p) s = ground (arith, nat_eq_iff x x, starts_with-append p s)

own_key :
    (id : Option Number) (c : ClientImpl)
    → starts_with (sent_prefix ++ local_key c) (storage_key sent_prefix id c) ≡ true
unfolding storage_key
own_key id c = starts_with-append (sent_prefix ++ local_key c) (identifier_text id)

pub lookup-insert_same {ℓ κ} :
    {K : Type ℓ} {V : Type κ} ⦃e : Eq K⦄ (k : K) (v : V) (d : Dict K V)
    → lookup k (insert k v d) ≡ some v
lookup-insert_same ⦃e⦄ k v d =
    let same : (k == k) ≡ true = (e.equals_iff k k).1 refl in lookup-insert k k v d ∙ (rw same refl)

restore_found :
    (key : Text) (stored : StoredMessage) (name : Text) (c : ClientImpl)
    → lookup key c.local_storage ≡ some (record stored { destination_name = some name })
    → starts_with (sent_prefix ++ local_key c) key ≡ true
    → restore key c ≡ (
      ok tt,
      record c {
        sent_messages =
            put_message stored.message_identifier
              (restored_message (record stored { destination_name = some name }))
              c.sent_messages;
      },
    )
unfolding restore restore_stored
restore_found key stored name c found own = rw (restore, found) (rw own refl)

-- A message that was sent as bytes
abbrev pub waiting : Message → ℕ → Bool → Option ℕ → WireMessage
waiting message id released sequence = record (new_wire_message publish) {
  message_identifier = some (num id);
  payload_message = some message;
  pub_rec_received = released;
  sequence = sequence;
}

abbrev pub binary : List ℕ → Text → ℕ → Bool → Bool → Message
binary bytes name qos retained duplicate = record {
  payload = octets bytes;
  destination_name = some name;
  qos = qos;
  retained = retained;
  duplicate = duplicate;
}

restored-stored :
    (bytes : List ℕ) (name : Text) (qos : ℕ) (retained duplicate : Bool) (id : ℕ) (released : Bool)
    (n : Option ℕ)
    → All (λ b. b < 256) bytes
    → restored_message (
        stored_of true
          (to_hex bytes)
          (binary bytes name qos retained duplicate)
          (waiting (binary bytes name qos retained duplicate) id released n))
      ≡ waiting (binary bytes name qos retained duplicate) id released n
unfolding restored_message stored_of new_wire_message json_number
restored-stored bytes name qos retained duplicate id released n small =
    rw (from_hex-to_hex bytes small) refl

module _ (bytes : List ℕ) (name : Text) (qos : ℕ) (retained duplicate : Bool) (id : ℕ)
    (released : Bool) where
  abbrev pub Restores : ClientImpl → Dict Number WireMessage → WireMessage → Type 0
  Restores c d m =
      lookup (num id)
        (restore (storage_key sent_prefix (some (num id)) c)
          (record c { sent_messages = d })).1.sent_messages
      ≡ some m

  written-Restores :
      All (λ b. b < 256) bytes
      → (n : ℕ) (c : ClientImpl) (d : Dict Number WireMessage)
      → Restores
          (write_stored true
            (to_hex bytes)
            (binary bytes name qos retained duplicate)
            (waiting (binary bytes name qos retained duplicate) id released (some n), c)).1
          d
          (waiting (binary bytes name qos retained duplicate) id released (some n))
  unfolding local_key storage_key stored_of json_number
  written-Restores small n c d =
      let message = binary bytes name qos retained duplicate in
      let m = waiting message id released (some n) in
      let stored = stored_of true (to_hex bytes) message m in
      let key = storage_key sent_prefix (some (num id)) c in
      let c' : ClientImpl = record c {
        local_storage = insert key stored c.local_storage;
        sent_messages = d;
      } in
      let found = lookup-insert_same key stored c.local_storage in
      let back = restored-stored bytes name qos retained duplicate id released (some n) small in
      ap (λ (r : Effect (Unit {0})). lookup (num id) r.1.sent_messages)
        (restore_found key stored name c' found (own_key (some (num id)) c'))
      ∙ lookup-insert_same (num id) (restored_message stored) d
      ∙ ap some back

  abbrev pub stored_waiting : Option ℕ → ClientImpl → Result WireMessage × ClientImpl
  stored_waiting n c =
      store true (waiting (binary bytes name qos retained duplicate) id released n) c

  -- A message with bytes as payload that waits for the broker can be stored, whether it has a sequence
  -- number or gets one now. A client with that local storage, whatever other messages it has, then
  -- restores it at its identifier as it was, with its payload, its sequence number, and the mark of
  -- whether the broker has received it.
  pub restore-store :
      All (λ b. b < 256) bytes
      → (n : Option ℕ) (c : ClientImpl) (d : Dict Number WireMessage)
      → (m : WireMessage) × ((stored_waiting n c).0 ≡ ok m)
        × (m.payload_message ≡ some (binary bytes name qos retained duplicate))
        × (m.message_identifier ≡ some (num id))
        × (m.pub_rec_received ≡ released)
        × (m.sequence ≢ none)
        × Restores (stored_waiting n c).1 d m
  unfolding store hex_of new_wire_message
  restore-store small (some n) c d =
      let m = waiting (binary bytes name qos retained duplicate) id released (some n) in
      (m, refl, refl, refl, refl, present refl, written-Restores small n c d)
  restore-store small none c d =
      let m =
        waiting (binary bytes name qos retained duplicate) id released (some (c.sequence + 1)) in
      let c' : ClientImpl = record c { sequence = c.sequence + 1 } in
      (m, refl, refl, refl, refl, present refl, written-Restores small (c.sequence + 1) c' d)
