-- ===== src/Checks/ClientChecks.antt =====
-- A client that retries against the two servers of a ring, at concrete inputs.
use distributed_storage_with.Base.{
  ◌≡◌, refl, sym, subst, arith, true, false, List, [], ◌∷◌, none, some, Text, text_Eq, text_eq,
  text_eq_iff, codes, Dict, lookup, insert, ok, Bool-cases, inl, inr,
}
use distributed_storage_with.Radix.{parse_port, parse16, natural_to_string, to_string16}
use distributed_storage_with.Ring.Range.{split_colon, piece, parse_range, in_range, format_range}
use distributed_storage_with.Ring.Metadata.{
  EcsNode, Metadata, calc_metadata, find_server, hash_map, hash_list, node_addr, addr_port, sort,
  last, assign_ranges, assign_range, range_start,
}
use distributed_storage_with.Ring.Coverage.{IsRing}
use distributed_storage_with.Messages.{KvMsg, get_success}
use distributed_storage_with.Storage.{is_delete}
use distributed_storage_with.Network.{Network}
use distributed_storage_with.Server.{Server}
use distributed_storage_with.Comm.Serve.{answer, size_violated, utf8_length}
use distributed_storage_with.Client.{Both, Client, open_comm, client_put, client_get}
use distributed_storage_with.Client.Rounds.{ReadsAs}
use distributed_storage_with.Cluster.Service.{machines_network}
use distributed_storage_with.Cluster.Serving.{Member, HasMembers}
use distributed_storage_with.Cluster.Outcomes.{
  Informed, PutTaken, GetTaken, client_put_lem, client_get_lem,
}
use distributed_storage_with.Cluster.RoundTrip.{client_get-client_put}
use distributed_storage_with.Checks.Fixtures.{
  digest, plain_order, plain_json, alone, two_pairs, empty_storage, node_1, node_2, host,
}

abbrev two_nodes : List EcsNode
two_nodes = node_1 ∷ node_2 ∷ []

abbrev first_addr : Text
first_addr = codes "127.0.0.1:50000"

abbrev second_addr : Text
second_addr = codes "127.0.0.1:50001"

two_nodes-IsRing : IsRing digest two_nodes
unfolding hash_list node_addr addr_port natural_to_string
two_nodes-IsRing = record {
  some_node = λ e. absurd cc;
  distinct = ((omega arith, tt), (tt, tt));
  positive = (omega arith, (omega arith, tt));
}

abbrev ring_metadata : Metadata
ring_metadata = (first_addr, codes "28f:282") ∷ (second_addr, codes "281:28e") ∷ []

two_nodes-metadata : calc_metadata digest two_nodes ≡ ring_metadata
unfolding calc_metadata hash_map hash_list node_addr natural_to_string sort last assign_ranges
    assign_range range_start format_range lookup insert to_string16
two_nodes-metadata = refl

first_addr-ReadsAs : ReadsAs first_addr host 50000
unfolding split_colon piece parse_port
first_addr-ReadsAs = record { host_read = refl; port_read = refl }

second_addr-ReadsAs : ReadsAs second_addr host 50001
unfolding split_colon piece parse_port
second_addr-ReadsAs = record { host_read = refl; port_read = refl }

-- The two servers of the ring; the first one has two pairs.
abbrev first_server : Server plain_json
first_server = record (alone two_pairs) { metadata = some (calc_metadata digest two_nodes) }

abbrev second_server : Server plain_json
second_server = record (alone empty_storage) {
  port = 50001;
  metadata = some (calc_metadata digest two_nodes);
}

abbrev machines : Dict Text (Server plain_json)
machines = (first_addr, first_server) ∷ (second_addr, second_server) ∷ []

abbrev IsThere : Text → Type 0
IsThere addr =
    (s : Server plain_json) × (lookup addr machines ≡ some s)
    × Member plain_json (calc_metadata digest two_nodes) addr s

first_there : IsThere first_addr
unfolding lookup addr_port natural_to_string
first_there = (
  first_server,
  refl,
  record {
    named = refl;
    reads = first_addr-ReadsAs;
    informed = refl;
    started = refl;
    unlocked = refl;
    healthy = refl;
    connected = refl;
  },
)

second_there : IsThere second_addr
unfolding lookup addr_port natural_to_string
second_there = (
  second_server,
  refl,
  record {
    named = refl;
    reads = second_addr-ReadsAs;
    informed = refl;
    started = refl;
    unlocked = refl;
    healthy = refl;
    connected = refl;
  },
)

not_listed :
    (addr range : Text)
    → text_eq first_addr addr ≡ false
    → text_eq second_addr addr ≡ false
    → lookup addr ring_metadata ≡ some range
    → ⊥
unfolding lookup
not_listed addr range first second h =
    let gone : lookup addr ring_metadata ≡ none = rw first (rw second refl) in absurd cc

machines-HasMembers : HasMembers plain_json (calc_metadata digest two_nodes) machines
machines-HasMembers addr range entry = elim (Bool-cases (text_eq first_addr addr)) [
  | inl first ↦ subst IsThere ((text_eq_iff first_addr addr).0 first) first_there
  | inr not_first ↦ elim (Bool-cases (text_eq second_addr addr)) [
    | inl second ↦ subst IsThere ((text_eq_iff second_addr addr).0 second) second_there
    | inr not_second ↦ absurd (
        not_listed addr range not_first not_second
          (subst (λ (m : Metadata). lookup addr m ≡ some range) two_nodes-metadata entry))
  ]
]

-- What the servers would see of other machines, which they do not ask here.
abbrev network : Network
network = record {
  World = Unit {0};
  connect = λ host port w. (ok tt, w);
  exchange = λ host port m w. (ok none, w);
  exchange_admin = λ host port m w. (ok none, w);
}

-- A client that knows the second server only, and is connected to it.
abbrev stale : Client
stale = record {
  address = host;
  port = 50001;
  has_socket = true;
  comm = open_comm host 50001;
  metadata = some ((second_addr, codes "0:ffff") ∷ []);
}

stale-Informed :
    Informed plain_json digest plain_order network
      (calc_metadata digest two_nodes)
      (codes "a")
      stale
unfolding find_server parse_range in_range parse16 split_colon piece lookup addr_port
    natural_to_string
stale-Informed = record {
  host = host;
  port = 50001;
  routed = record {
    known = (second_addr, codes "0:ffff") ∷ [];
    addr = second_addr;
    range = codes "0:ffff";
    knows = refl;
    found = refl;
    reads = second_addr-ReadsAs;
    open_to = refl;
  };
  listed = (
    codes "281:28e",
    subst (λ (m : Metadata). lookup (addr_port host 50001) m ≡ some (codes "281:28e"))
        (sym two_nodes-metadata) refl,
  );
}

size_a : size_violated (codes "a") (some (codes "3")) ≡ false
unfolding size_violated utf8_length
size_a = refl

client_put_lem_example :
    PutTaken plain_json digest plain_order network machines (codes "a") (some (codes "3")) (
      client_put digest plain_order
        (machines_network plain_json digest plain_order network)
        2
        (codes "a")
        (some (codes "3"))
        (stale, (machines, tt)))
client_put_lem_example =
    client_put_lem plain_json digest plain_order network two_nodes machines two_nodes-IsRing
      machines-HasMembers (codes "a") (some (codes "3")) stale tt 0 size_a stale-Informed

abbrev Pair : Type 0
Pair = Both digest plain_order (machines_network plain_json digest plain_order network)

kept_3 : is_delete (some (codes "3")) ≡ false
unfolding is_delete
kept_3 = refl

client_get-client_put_example :
    let net = machines_network plain_json digest plain_order network in
    (reply : KvMsg) × (between : Pair) × (later : Pair) × (client_put digest plain_order net 2
        (codes "a")
        (some (codes "3"))
        (stale, (machines, tt))
      ≡ some (ok reply, between))
    × (client_get digest plain_order net 1 (codes "a") between
        ≡ some (ok (answer get_success (codes "a") (some (codes "3"))), later))
client_get-client_put_example =
    client_get-client_put plain_json digest plain_order network two_nodes machines (codes "a")
      (codes "3") stale tt 0 0 two_nodes-IsRing machines-HasMembers size_a kept_3 stale-Informed

client_get_lem_example : GetTaken plain_json digest plain_order network machines (codes "a") (
    client_get digest plain_order
      (machines_network plain_json digest plain_order network)
      2
      (codes "a")
      (stale, (machines, tt)))
client_get_lem_example =
    client_get_lem plain_json digest plain_order network two_nodes machines two_nodes-IsRing
      machines-HasMembers (codes "a") stale tt 0 stale-Informed
