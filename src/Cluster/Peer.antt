-- ===== src/Cluster/Peer.antt =====
-- A server that sends its pairs (KVServer.moveData) to a server that runs CommModule.serve.
use distributed_storage_with.Base.{
  ℕ, ◌≡◌, refl, ap, ◌∙◌, true, [], Option, none, some, arith, Text, HashOrder, ok, throw, Effect,
  ◌>>=◌,
}
use distributed_storage_with.Radix.{parse_port}
use distributed_storage_with.Ring.Range.{parse_range, split_colon, piece}
use distributed_storage_with.Messages.{KvMsg, server_stopped}
use distributed_storage_with.Network.{Network}
use distributed_storage_with.Storage.{JsonSimple}
use distributed_storage_with.Storage.Laws.{view}
use distributed_storage_with.Server.{Server}
use distributed_storage_with.Server.Transfer.{put_message, move_data}
use distributed_storage_with.Server.Transfer.Deletion.{Answers, is_moved, move_data_deletes}
use distributed_storage_with.Comm.Serve.{serve, answer}
use distributed_storage_with.Comm.Serve.Refusals.{serve_stopped}

module _ (json : JsonSimple) (hash : Text → ℕ) where
  abbrev replied : Effect (Server json) KvMsg → Effect (Server json) (Option KvMsg)
  replied (ok m, s) = (ok (some m), s)
  replied (throw _, s) = (ok none, s)

  -- The one other machine is a server, which is reached at every address; when its `serve` throws, it
  -- closes the connection, and the reply reads as null.
  abbrev pub one_server : Network
  one_server = record {
    World = Server json;
    connect = λ host port s. (ok tt, s);
    exchange = λ host port m s. replied (serve json hash m s);
    exchange_admin = λ host port m s. (ok none, s);
  }

  -- A stopped server answers, and stays as it is.
  abbrev pub stopped_answers :
      (receiver : Server json) (host : Text) (port : ℕ)
      → receiver.stopped ≡ true
      → Answers one_server host port
  stopped_answers receiver host port stopped = record {
    IsAlive = λ s. s ≡ receiver;
    connects = λ s same. (refl, same);
    replies = λ key value s same.
        let e =
          serve_stopped json hash (put_message key value) key s refl
            (ap (λ (x : Server json). x.stopped) same ∙ stopped) in
        (
          answer server_stopped key none,
          ap (λ r. (replied r).0) e,
          ap (λ r. (replied r).1) e ∙ same,
        );
  }

  -- If the receiver is stopped, moveData still ends without an exception; afterwards a key of the
  -- range is not in the sender's storage, and the receiver is what it was. The range and the
  -- receiver's address can be read, and the sender's disk works.
  pub move_data_loses :
      (order : HashOrder) (range host : Text) (port start end : ℕ) (send_to : Text)
      (sender receiver : Server json) (key : Text)
      → parse_range range ≡ ok (start, end)
      → piece 0 (split_colon send_to) ≡ ok host
      → (piece 1 (split_colon send_to) >>= parse_port) ≡ ok port
      → sender.storage.plan ≡ []
      → receiver.stopped ≡ true
      → is_moved hash start end key ≡ true
      → let r = move_data json hash order one_server range send_to (sender, receiver) in
        (r.0 ≡ ok tt) × (view json r.1.0.storage key ≡ none) × (r.1.1 ≡ receiver)
  move_data_loses order range host port start end send_to sender receiver key parsed to_host to_port
        plan stopped inside =
      let moved =
        move_data_deletes json hash order one_server range host port start end parsed
          (stopped_answers receiver host port stopped) send_to sender receiver to_host to_port plan
          refl in
      (moved.returned, moved.contents_after key ∙ ground (arith, inside), moved.alive_after)
