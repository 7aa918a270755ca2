-- ===== src/Server/Transfer.antt =====
-- KVServer.moveData: the pairs of a range are sent to another server and then deleted here.
pub mod Laws
pub mod Deletion
use distributed_storage_with.Base.{
  ℕ, ◌≡◌, Bool, true, false, List, [], ◌∷◌, ◌++◌, Option, none, some, if◌then◌else◌, pos, Text,
  Dict, HashOrder, Result, ok, throw, ◌>>=◌, ◌>>◌, deref, Effect, proceed,
}
use distributed_storage_with.Radix.{parse_port}
use distributed_storage_with.Ring.Range.{parse_range, in_range, split_colon, piece}
use distributed_storage_with.Messages.{KvMsg, put}
use distributed_storage_with.Network.{Network}
use distributed_storage_with.Storage.{JsonSimple, get_kv_object}
use distributed_storage_with.Server.{Server, lock_write, un_lock_write, flush_pending}

-- sendMsg(PUT, keyStr, value, null)
abbrev pub put_message : Text → Text → KvMsg
put_message key value = record {
  status = some put;
  key = some key;
  value = some value;
  metadata = none;
}

-- The next statement, if the one before did not throw.
abbrev pub then_next :
    {S : Type 0} → Effect S (Unit {0}) → (S → Effect S (Unit {0})) → Effect S (Unit {0})
then_next (r, s) f = proceed r s (λ _. f s)

module _ (json : JsonSimple) (hash : Text → ℕ) (order : HashOrder) (network : Network) where
  open network use {World, connect, exchange}

  abbrev pub Both : Type 0
  Both = Server json × World

  -- A reply that is null throws; one with another status than PUT_SUCCESS is only reported.
  unfoldable pub send_pair : Text → ℕ → Text → Text → Both → Effect Both (Unit {0})
  send_pair host port key value (s, w) =
      let (reply, w') = exchange host port (put_message key value) w in
      ((reply >>= deref) >> ok tt, (record s { data_to_flush = s.data_to_flush ++ key ∷ [] }, w'))

  -- The body of the loop, for one pair of the key-value object.
  unfoldable pub move_pair : Text → Text → ℕ → Text → Text → Both → Effect Both (Unit {0})
  unfolding send_pair
  move_pair range host port key value both = proceed (parse_range range) both λ ends.
      if in_range ends.0 ends.1 (pos (hash key))
      then send_pair host port key value both
      else (ok tt, both)

  unfoldable pub move_pairs : Text → Text → ℕ → List (Text × Text) → Both → Effect Both (Unit {0})
  unfolding move_pair
  move_pairs range host port [] both = (ok tt, both)
  move_pairs range host port ((key, value) ∷ pairs) both =
      then_next (move_pair range host port key value both) (move_pairs range host port pairs)

  abbrev pub on_server :
      (Server json → Effect (Server json) (Unit {0})) → Both → Effect Both (Unit {0})
  on_server f (s, w) = let (r, s') = f s in (r, (s', w))

  -- What follows the connection: the loop, the deletion, and the release of the lock.
  unfoldable pub move_connected : Text → Text → ℕ → Dict Text Text → Both → Effect Both (Unit {0})
  unfolding move_pairs
  move_connected range host port object both =
      then_next (move_pairs range host port (order.order object) both) λ both'.
        then_next (on_server (flush_pending json) both')
          λ both''. (ok tt, (un_lock_write json both''.0, both''.1))

  unfoldable pub move_data : Text → Text → Both → Effect Both (Unit {0})
  unfolding move_connected
  move_data range send_to (s, w) =
      let s1 = lock_write json s in
      let (object, storage') = get_kv_object json s1.storage in
      let s2 : Server json = record s1 { storage = storage' } in
      proceed (piece 0 (split_colon send_to)) (s2, w)
        λ host.
          proceed (piece 1 (split_colon send_to) >>= parse_port) (s2, w)
            λ port.
              let (connected, w') = connect host port w in
              proceed connected (s2, w') λ _. move_connected range host port object (s2, w')
