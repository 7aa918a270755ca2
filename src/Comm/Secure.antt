-- ===== src/Comm/Secure.antt =====
-- CommModule.sendMsg, sendAdminMsg and receiveMsg: a message is serialized, encrypted and sent beside
-- the HMAC of what was encrypted.
use distributed_storage_with.Base.{
  ℕ, ◌≡◌, ◌≢◌, refl, ◌∙◌, Bool, true, false, not, Option, none, some, take, ◌^◌, ◌%◌, text_eq,
  text_eq_iff, arith,
}
use distributed_storage_with.Messages.{KvMessage}
use distributed_storage_with.Comm.KeyExchange.{
  Bytes, generator, group_prime, agreed_key, agreed_key_comm, agreed_key_lem,
}

-- Java serialization, the DES cipher and HMAC-SHA256, of which the program uses that each reading
-- undoes the writing. `none` stands for an exception.
pub record Crypto : Type 0 where
  pub serialize : KvMessage → Bytes
  pub deserialize : Bytes → Option KvMessage
  pub encrypt : Bytes → Bytes → Bytes
  pub decrypt : Bytes → Bytes → Option Bytes
  pub hmac : Bytes → Bytes → Bytes
  pub sha256 : ℕ → Bytes
  pub deserialize-serialize : (m : KvMessage) → deserialize (serialize m) ≡ some m
  pub decrypt-encrypt : (key plain : Bytes) → decrypt key (encrypt key plain) ≡ some plain

-- HMessage
pub record HMessage : Type 0 where
  pub message : Bytes
  pub hmac : Bytes

-- What receiveMsg returns, null where an exception was caught, and whether it logged that the HMACs do
-- not match.
pub record Received : Type 0 where
  pub message : Option KvMessage
  pub logged : Bool

module _ (c : Crypto) where
  -- The message that sendMsg or sendAdminMsg writes.
  unfoldable pub send : Bytes → KvMessage → HMessage
  send key m =
      let encrypted = c.encrypt key (c.serialize m) in
      record { message = encrypted; hmac = c.hmac encrypted key }

  -- Arrays.equals(hMsg.getHmac(), calculateHMAC(encodedKvMessage, this.key))
  unfoldable pub authentic : Bytes → HMessage → Bool
  authentic key h = text_eq h.hmac (c.hmac h.message key)

  abbrev decoded : Option Bytes → Option KvMessage
  decoded none = none
  decoded (some serialized) = c.deserialize serialized

  -- receiveMsg for the object that was read; null, if none could be read. The exception that a null
  -- object causes comes before the test of the HMAC.
  unfoldable pub receive : Bytes → Option HMessage → Received
  unfolding authentic
  receive key none = record { message = none; logged = false }
  receive key (some h) = record {
    message = decoded (c.decrypt key h.message);
    logged = not (authentic key h);
  }

  -- What one end sends, the other end receives as it was, with nothing logged, if both have one key.
  pub receive-send :
      (key : Bytes) (m : KvMessage)
      → receive key (some (send key m)) ≡ record { message = some m; logged = false }
  unfolding receive send
  receive-send key m =
      let mac = c.hmac (c.encrypt key (c.serialize m)) key in
      let same : text_eq mac mac ≡ true = (text_eq_iff mac mac).1 refl in
      rw (c.decrypt-encrypt key (c.serialize m)) (rw (c.deserialize-serialize m) (rw same))

  -- Two ends that have exchanged their public values, whatever their secrets: each receives what the
  -- other sends.
  pub session :
      (x y : ℕ) (m : KvMessage)
      → (key other : Bytes) × (agreed_key c.sha256 x y ≡ some key)
        × (agreed_key c.sha256 y x ≡ some other)
        × (receive other (some (send key m)) ≡ record { message = some m; logged = false })
  session x y m =
      let key = take 8 (c.sha256 ((generator ^ y % group_prime) ^ x % group_prime)) in
      let own = agreed_key_lem c.sha256 x y in
      (key, key, own, agreed_key_comm c.sha256 y x ∙ own, receive-send key m)

  -- If the HMAC of a message that was sent is replaced by another, the message is received all the
  -- same, with one key at both ends; only the log tells the difference.
  pub receive_forged :
      (key forged : Bytes) (m : KvMessage)
      → forged ≢ (send key m).hmac
      → receive key (some (record { message = (send key m).message; hmac = forged }))
        ≡ record { message = some m; logged = true }
  unfolding receive send
  receive_forged key forged m h =
      let mac = c.hmac (c.encrypt key (c.serialize m)) key in
      let differs : text_eq forged mac ≡ false = ground (arith, text_eq_iff forged mac) in
      rw (c.decrypt-encrypt key (c.serialize m)) (rw (c.deserialize-serialize m) (rw differs))
