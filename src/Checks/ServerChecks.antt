-- ===== src/Checks/ServerChecks.antt =====
-- Servers that are moved from, and the messages of the configuration service, at concrete inputs.
use distributed_storage_with.Base.{
  ◌≡◌, refl, true, none, codes, ok, throw, ◌>>=◌, index_out_of_bounds,
}
use distributed_storage_with.Radix.{parse16, parse_port}
use distributed_storage_with.Ring.Range.{parse_range, in_range, piece, split_colon}
use distributed_storage_with.Network.{Network}
use distributed_storage_with.Storage.Laws.{view}
use distributed_storage_with.Server.{Server}
use distributed_storage_with.Server.Transfer.{move_data}
use distributed_storage_with.Server.Transfer.Deletion.{Moved, is_moved, move_data_deletes}
use distributed_storage_with.Comm.Admin.{admin_serve}
use distributed_storage_with.Comm.Admin.Laws.{move_message, admin_serve_failed_move}
use distributed_storage_with.Cluster.Peer.{one_server, stopped_answers, move_data_loses}
use distributed_storage_with.Checks.Fixtures.{
  plain_json, plain_order, digest, two_pairs, empty_storage, alone, host,
}

abbrev stopped_peer : Server plain_json
stopped_peer = record (alone empty_storage) { stopped = true }

abbrev network : Network
network = one_server plain_json digest

-- The range from 90 to 98, in which the key "a" lies.
range_read : parse_range (codes "5a:62") ≡ ok (90, 98)
unfolding parse_range parse16
range_read = refl

host_read : piece 0 (split_colon (codes "127.0.0.1:50001")) ≡ ok host
unfolding piece split_colon
host_read = refl

port_read : (piece 1 (split_colon (codes "127.0.0.1:50001")) >>= parse_port) ≡ ok 50001
unfolding piece split_colon parse_port
port_read = refl

move_data_loses_example :
    let r =
      move_data plain_json digest plain_order network
        (codes "5a:62")
        (codes "127.0.0.1:50001")
        (alone two_pairs, stopped_peer) in
    (r.0 ≡ ok tt) × (view plain_json r.1.0.storage (codes "a") ≡ none) × (r.1.1 ≡ stopped_peer)
unfolding is_moved in_range
move_data_loses_example =
    move_data_loses plain_json digest plain_order (codes "5a:62") host 50001 90 98
      (codes "127.0.0.1:50001") (alone two_pairs) stopped_peer (codes "a") range_read host_read
      port_read refl refl refl

move_data_deletes_example :
    Moved plain_json digest plain_order network
      (codes "5a:62")
      host
      50001
      90
      98
      range_read
      (stopped_answers plain_json digest stopped_peer host 50001 refl)
      (alone two_pairs)
      (move_data plain_json digest plain_order network
        (codes "5a:62")
        (codes "127.0.0.1:50001")
        (alone two_pairs, stopped_peer))
move_data_deletes_example =
    move_data_deletes plain_json digest plain_order network (codes "5a:62") host 50001 90 98
      range_read (stopped_answers plain_json digest stopped_peer host 50001 refl)
      (codes "127.0.0.1:50001") (alone two_pairs) stopped_peer host_read port_read refl refl

-- A receiver without a port makes the move fail.
bad_move :
    (move_data plain_json digest plain_order network
      (codes "5a:62")
      (codes "127.0.0.1")
      (alone two_pairs, stopped_peer)).0
    ≡ throw index_out_of_bounds
unfolding move_data piece split_colon
bad_move = refl

admin_serve_failed_move_example :
    (admin_serve plain_json digest plain_order network
      (move_message plain_json digest plain_order network (codes "5a:62") (codes "127.0.0.1"))
      (alone two_pairs, stopped_peer)).1.0.write_lock
    ≡ true
unfolding admin_serve move_data piece split_colon
admin_serve_failed_move_example =
    admin_serve_failed_move plain_json digest plain_order network (codes "5a:62")
      (codes "127.0.0.1") (alone two_pairs, stopped_peer) refl
