-- ===== src/Client.antt =====
-- KVStore: a client, which finds the server in charge of a key and retries with newer metadata.
pub mod Rounds
pub mod Retries
use distributed_storage_with.Base.{
  ℕ, zero, suc, ◌+◌, ◌≡◌, Bool, true, false, ◌&&◌, List, [], ◌∷◌, Option, none, some, if◌then◌else◌,
  nat_eq, text_eq, pos, Text, codes, HashOrder, Result, ok, throw, null_pointer, io_exception,
  ◌>>=◌, deref, Effect, proceed,
}
use distributed_storage_with.Radix.{parse_port}
use distributed_storage_with.Ring.Range.{split_colon, piece}
use distributed_storage_with.Ring.Metadata.{Metadata, addr_port, find_server}
use distributed_storage_with.Messages.{StatusType, KvMsg, get, put, server_not_responsible}
use distributed_storage_with.Network.{Network}

-- The client's communication module: none, one with an open connection, or one that was closed,
-- which throws when it sends.
pub data ClientComm : Type 0 where
  null_comm : ClientComm
  open_comm : Text → ℕ → ClientComm
  closed_comm : ClientComm

-- `has_socket` tells whether `clientSocket` is not null.
pub record Client : Type 0 where
  pub address : Text
  pub port : ℕ
  pub has_socket : Bool
  pub comm : ClientComm
  pub metadata : Option Metadata

abbrev full_range : Text
full_range = codes "00000000000000000000000000000000:ffffffffffffffffffffffffffffffff"

-- new KVStore(address, port)
unfoldable pub new_client : Text → ℕ → Client
new_client address port = record {
  address = address;
  port = port;
  has_socket = false;
  comm = null_comm;
  metadata = some ((addr_port address port, full_range) ∷ []);
}

-- KVStore.disconnect
unfoldable pub disconnect : Client → Client
disconnect c = if c.has_socket then record c { has_socket = false; comm = closed_comm } else c

-- A reply with the status SERVER_NOT_RESPONSIBLE
unfoldable pub is_not_responsible : Option StatusType → Bool
is_not_responsible (some server_not_responsible) = true
is_not_responsible _ = false

module _ (hash : Text → ℕ) (order : HashOrder) (network : Network) where
  open network use {World, connect, exchange}

  abbrev pub Both : Type 0
  Both = Client × World

  abbrev connected : Result (Unit {0}) → Client → World → Effect Both (Unit {0})
  connected (ok _) c w =
      (ok tt, (record c { has_socket = true; comm = open_comm c.address c.port }, w))
  connected (throw e) c w = (throw e, (c, w))

  -- KVStore.connect
  unfoldable pub client_connect : Both → Effect Both (Unit {0})
  client_connect (c, w) = let (r, w') = connect c.address c.port w in connected r c w'

  -- The server is another one than that of the connection; an exception of `connect` is caught.
  unfoldable pub reconnect : Text → ℕ → Both → Both
  unfolding client_connect disconnect
  reconnect address port (c, w) =
      if text_eq address c.address && nat_eq port c.port
      then (c, w)
      else (client_connect (record (disconnect c) { address = address; port = port }, w)).1

  unfoldable pub connect_found : Option (Text × Text) → Both → Effect Both (Unit {0})
  unfolding reconnect
  connect_found none both = (ok tt, both)
  connect_found (some (addr, range)) both = proceed (piece 0 (split_colon addr)) both λ address.
      proceed (piece 1 (split_colon addr) >>= parse_port) both
        λ port. (ok tt, reconnect address port both)

  -- A port in the metadata is not negative.
  unfoldable pub connect_corr_server : Text → Both → Effect Both (Unit {0})
  unfolding connect_found
  connect_corr_server key both = proceed (deref both.0.metadata) both λ metadata.
      proceed (find_server (pos (hash key)) (order.order metadata)) both
        λ found. connect_found found both

  -- sendMsg and receiveMsg; the status of a reply that is null is asked for at once.
  unfoldable pub ask : KvMsg → Both → Effect Both KvMsg
  ask msg (c, w) = elim c.comm [
    | null_comm ↦ (throw null_pointer, (c, w))
    | closed_comm ↦ (throw io_exception, (c, w))
    | open_comm host port ↦
        (let (reply, w') = exchange host port msg w in (reply >>= deref, (c, w')))
  ]

  abbrev then_ask : Effect Both (Unit {0}) → KvMsg → Effect Both KvMsg
  then_ask (r, both) msg = proceed r both (λ _. ask msg both)

  -- One request to the server that the metadata names.
  unfoldable pub request_round : Text → KvMsg → Both → Effect Both KvMsg
  unfolding connect_corr_server ask
  request_round key msg both = then_ask (connect_corr_server key both) msg

  -- The `while` loop; `none` means that the fuel ran out.
  unfoldable pub retry : ℕ → Text → KvMsg → Effect Both KvMsg → Option (Effect Both KvMsg)
  unfolding request_round is_not_responsible
  retry zero key msg e = none
  retry (suc fuel) key msg (throw x, both) = some (throw x, both)
  retry (suc fuel) key msg (ok reply, (c, w)) =
      let again =
        retry fuel key msg (request_round key msg (record c { metadata = reply.metadata }, w)) in
      if is_not_responsible reply.status then again else some (ok reply, (c, w))

  abbrev pub client_message : StatusType → Text → Option Text → KvMsg
  client_message status key value = record {
    status = some status;
    key = some key;
    value = value;
    metadata = none;
  }

  -- KVStore.put
  unfoldable pub client_put : ℕ → Text → Option Text → Both → Option (Effect Both KvMsg)
  unfolding retry
  client_put fuel key value both =
      let msg = client_message put key value in retry fuel key msg (request_round key msg both)

  -- KVStore.get
  unfoldable pub client_get : ℕ → Text → Both → Option (Effect Both KvMsg)
  unfolding retry
  client_get fuel key both =
      let msg = client_message get key (some []) in retry fuel key msg (request_round key msg both)
