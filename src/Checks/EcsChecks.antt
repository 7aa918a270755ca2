-- ===== src/Checks/EcsChecks.antt =====
-- The configuration service at concrete inputs.
use distributed_storage_with.Base.{
  ℕ, ◌≡◌, refl, false, [], ◌∷◌, Option, none, some, Text, codes, text_Eq, Dict, lookup, insert, ok,
  throw, null_pointer,
}
use distributed_storage_with.Radix.{natural_to_string, parse16, parse_port, to_string16}
use distributed_storage_with.Ring.Range.{parse_range, in_range, split_colon, piece, format_range}
use distributed_storage_with.Ring.Metadata.{
  addr_port, node_addr, find_server, calc_metadata, hash_list, hash_map, assign_ranges,
  assign_range, range_start, sort, insert_sorted, last,
}
use distributed_storage_with.Messages.{
  StatusType, start, start_success, init_server, init_server_success, update, update_success,
}
use distributed_storage_with.Network.{Network}
use distributed_storage_with.Server.{Server, set_start, set_stop}
use distributed_storage_with.Comm.Admin.{admin_answer}
use distributed_storage_with.Tokens.{split_spaces, space_pieces}
use distributed_storage_with.Ecs.{
  EcsWorld, EcsClient, start_servers, stop_servers, get_node_by_key, await_nodes, await_rounds,
  ask_server, reply_status,
}
use distributed_storage_with.Ecs.Adding.{
  add_node, add_picked, pick, join_ring, init_and_start, move_to_new, request_move, host_and_port,
}
use distributed_storage_with.Ecs.Known.{ConservesBoth, known}
use distributed_storage_with.Ecs.Commands.{handle_command, run_tokens, dispatch, add_node_command}
use distributed_storage_with.Ecs.Commands.Conservation.{handle_command-Conserves}
use distributed_storage_with.Cluster.Service.{machines_env, Commanded, start_stop_lem}
use distributed_storage_with.Checks.Fixtures.{
  plain_json, plain_order, digest, node_1, node_2, node_3, alone, empty_storage, two_pairs,
}

split_spaces_two : split_spaces (codes " addNodes  2 ") ≡ [] ∷ codes "addNodes" ∷ codes "2" ∷ []
unfolding split_spaces space_pieces
split_spaces_two = refl

split_spaces_blank : split_spaces (codes "  ") ≡ []
unfolding split_spaces space_pieces
split_spaces_blank = refl

-- A network that counts the requests, and answers each as it should.
abbrev success_of : Option StatusType → Option StatusType
success_of (some start) = some start_success
success_of (some init_server) = some init_server_success
success_of (some update) = some update_success
success_of _ = none

abbrev answering : Network
answering = record {
  World = ℕ;
  connect = λ host port n. (ok tt, n);
  exchange = λ host port msg n. (ok none, n);
  exchange_admin = λ host port msg n. (ok (some (admin_answer (success_of msg.status))), n);
}

abbrev answering_env : EcsWorld
answering_env = record {
  network = answering;
  send_admin = λ host port msg n. (ok tt, n);
  launch = λ node n. n;
  random = λ bound n. (0, n);
  children = λ n. (ok 1, n);
  rounds = λ timeout n. 2;
}

abbrev two_known : EcsClient
two_known = record {
  stopped = false;
  idle_servers = node_2 ∷ node_3 ∷ [];
  active_servers = node_1 ∷ [];
  metadata = [];
}

handle_command-Conserves_example :
    ConservesBoth answering_env two_known
      (handle_command answering_env digest plain_order (some (codes "addNode")) (two_known, 0))
handle_command-Conserves_example =
    handle_command-Conserves answering_env digest plain_order (some (codes "addNode")) two_known 0

abbrev two_machines : Dict Text (Server plain_json)
two_machines =
    (codes "127.0.0.1:50000", alone two_pairs) ∷ (codes "127.0.0.1:50001", alone empty_storage) ∷ []

abbrev one_active : EcsClient
one_active = record two_known { active_servers = node_2 ∷ [] }

start_stop_lem_example :
    let env =
      machines_env plain_json digest plain_order answering
        (λ node m. m)
        (λ n m. (0, m))
        (λ m. (ok 1, m))
        (λ timeout m. 2) in
    Commanded plain_json digest plain_order answering
      (λ node m. m)
      (λ n m. (0, m))
      (λ m. (ok 1, m))
      (λ timeout m. 2)
      (set_start plain_json)
      one_active
      two_machines
      (start_servers env (one_active, (two_machines, 0)))
    × Commanded plain_json digest plain_order answering
        (λ node m. m)
        (λ n m. (0, m))
        (λ m. (ok 1, m))
        (λ timeout m. 2)
        (set_stop plain_json)
        one_active
        two_machines
        (stop_servers env (one_active, (two_machines, 0)))
unfolding lookup addr_port node_addr natural_to_string
start_stop_lem_example =
    start_stop_lem plain_json digest plain_order answering (λ node m. m) (λ n m. (0, m))
      (λ m. (ok 1, m)) (λ timeout m. 2) one_active two_machines 0 ((alone empty_storage, refl), tt)

-- A network that answers nothing: every reply reads as null.
abbrev silent : Network
silent = record {
  World = ℕ;
  connect = λ host port n. (ok tt, n);
  exchange = λ host port msg n. (ok none, n);
  exchange_admin = λ host port msg n. (ok none, n);
}

abbrev silent_env : EcsWorld
silent_env = record {
  network = silent;
  send_admin = λ host port msg n. (ok tt, n);
  launch = λ node n. n;
  random = λ bound n. (0, n);
  children = λ n. (ok 1, n);
  rounds = λ timeout n. 2;
}

abbrev ring_of_one : EcsClient
ring_of_one = record two_known { metadata = (codes "127.0.0.1:50000", codes "3e9:3e8") ∷ [] }

-- The successor does not answer: the command throws, and the server that was picked is neither idle
-- nor active.
add_node_loses :
    let r =
      handle_command silent_env digest plain_order (some (codes "addNode")) (ring_of_one, 0) in
    (r.0 ≡ throw null_pointer) × (known r.1.0 ≡ node_3 ∷ node_1 ∷ [])
unfolding handle_command run_tokens dispatch add_node_command add_node add_picked pick join_ring
    get_node_by_key find_server parse_range in_range parse16 node_addr addr_port natural_to_string
    await_nodes await_rounds init_and_start move_to_new request_move ask_server reply_status
    host_and_port split_colon piece parse_port calc_metadata hash_list hash_map assign_ranges
    assign_range range_start sort insert_sorted last format_range to_string16 lookup insert
    split_spaces space_pieces
add_node_loses = (refl, refl)
