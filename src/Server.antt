-- ===== src/Server.antt =====
-- KVServer: the state of a storage server and its methods.
pub mod Transfer
use distributed_storage_with.Base.{
  ℕ, zero, suc, ◌≡◌, Bool, true, false, not, ◌&&◌, ◌||◌, List, [], ◌∷◌, ◌++◌, Option, none, some,
  if◌then◌else◌, pos, Text, codes, Dict, lookup, HashOrder, Result, ok, throw, null_pointer, ◌>>=◌,
  deref, Effect, proceed, text_Eq,
}
use distributed_storage_with.Radix.{parse_port}
use distributed_storage_with.Ring.Range.{parse_range, in_range, split_colon, piece}
use distributed_storage_with.Ring.Metadata.{Metadata, addr_port}
use distributed_storage_with.Messages.{KvMsg, put}
use distributed_storage_with.Network.{Network}
use distributed_storage_with.Storage.{
  JsonSimple, Storage, get_kv_object, in_storage, fetch, store, flush_data, clear_kv_storage,
}

-- The publisher's session with the message broker: none, since the broker could not be reached when
-- the publisher was made; one that delivers; or one whose sending fails.
pub data Broker : Type 0 where
  no_session delivering failing : Broker

pub data ServerSocket : Type 0 where
  null_socket open_socket closed_socket : ServerSocket

module _ (json : JsonSimple) where
  pub record Server : Type 0 where
    pub hostname : Text
    pub port : ℕ
    pub storage : Storage json
    pub stopped : Bool
    pub write_lock : Bool
    pub running : Bool
    pub metadata : Option Metadata
    pub data_to_flush : List Text
    pub broker : Broker
    pub published : List Text  -- what the topic "Changes" has been sent, the latest last
    pub server_socket : ServerSocket

  -- new KVServer(port, …, name), with the storage file as it is found; `main` then calls `setStop`
  unfoldable pub new_server : ℕ → Storage json → Server
  new_server port storage = record {
    hostname = codes "127.0.0.1";
    port = port;
    storage = storage;
    stopped = false;
    write_lock = false;
    running = false;
    metadata = none;
    data_to_flush = [];
    broker = no_session;
    published = [];
    server_socket = null_socket;
  }

  unfoldable pub init_kv_server : Metadata → Server → Server
  init_kv_server metadata s = record s { metadata = some metadata }

  unfoldable pub set_start : Server → Server
  set_start s = record s { stopped = false }

  unfoldable pub set_stop : Server → Server
  set_stop s = record s { stopped = true }

  unfoldable pub lock_write : Server → Server
  lock_write s = record s { write_lock = true }

  unfoldable pub un_lock_write : Server → Server
  un_lock_write s = record s { write_lock = false }

  -- KVServer.update
  unfoldable pub update_metadata : Metadata → Server → Server
  update_metadata metadata s = record s { metadata = some metadata }

  -- `serverSocket.close()` throws if `run` has not made a socket.
  unfoldable pub close : Server → Effect Server (Unit {0})
  close s = elim s.server_socket [
    | null_socket ↦ (throw null_pointer, record s { running = false })
    | open_socket ↦ (ok tt, record s { running = false; server_socket = closed_socket })
    | closed_socket ↦ (ok tt, record s { running = false })
  ]

  -- KVServer.shutDown. The loop of `run` ends with it, and what `run` does after its loop, which clears
  -- the storage and ends the process, is not part of it.
  unfoldable pub shut_down : Server → Effect Server (Unit {0})
  unfolding close
  shut_down s = close s

  unfoldable pub clear_storage : Server → Server
  clear_storage s = record s { storage = clear_kv_storage json s.storage }

  -- KVServer.inStorage
  unfoldable pub holds_key : Text → Server → Bool × Server
  holds_key key s =
      let (found, storage') = in_storage json none key s.storage in
      (found, record s { storage = storage' })

  unfoldable pub get_kv : Text → Server → Option Text × Server
  get_kv key s =
      let (value, storage') = fetch json key s.storage in (value, record s { storage = storage' })

  abbrev shown : Option Text → Text
  shown none = codes "null"
  shown (some value) = value

  -- The text that `putKV` publishes; a null value is shown as "null".
  unfoldable pub change_text : Text → Option Text → Bool → Bool → Text
  change_text key value in_storage delete =
      (if in_storage && delete
        then codes "Delete"
        else if in_storage && not delete
        then codes "Update"
        else codes "Put")
      ++ codes " --> "
      ++ key
      ++ b':' ∷ shown value

  -- Publisher.pub; a JMSException is caught, a missing session is not.
  unfoldable pub pub_change : Text → Server → Effect Server (Unit {0})
  pub_change text s = elim s.broker [
    | no_session ↦ (throw null_pointer, s)
    | delivering ↦ (ok tt, record s { published = s.published ++ text ∷ [] })
    | failing ↦ (ok tt, s)
  ]

  abbrev put_storage : Text → Option Text → Server → Effect Server (Unit {0})
  put_storage key value s =
      let (r, storage') = store json key value s.storage in (r, record s { storage = storage' })

  unfoldable pub put_kv : Text → Option Text → Bool → Bool → Server → Effect Server (Unit {0})
  unfolding pub_change
  put_kv key value in_storage delete s =
      let (r, s') = pub_change (change_text key value in_storage delete) s in
      proceed r s' (λ _. put_storage key value s')

  abbrev flushed : Effect (Storage json) (Unit {0}) → Server → Effect Server (Unit {0})
  flushed (ok _, storage') s = (ok tt, record s { storage = storage'; data_to_flush = [] })
  flushed (throw e, storage') s = (throw e, record s { storage = storage' })

  -- KVServer.flushData; an exception leaves the list of keys as it is.
  unfoldable pub flush_pending : Server → Effect Server (Unit {0})
  flush_pending s = flushed (flush_data json s.data_to_flush s.storage) s

  module _ (hash : Text → ℕ) where
    -- KVServer.inRange; a server without metadata, or without an entry in it, throws.
    unfoldable pub is_responsible : Text → Server → Result Bool
    is_responsible key s = do
      metadata ← deref s.metadata
      range ← deref (lookup (addr_port s.hostname s.port) metadata)
      (start, end) ← parse_range range
      ok (in_range start end (pos (hash key)))
