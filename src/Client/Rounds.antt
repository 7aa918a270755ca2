-- ===== src/Client/Rounds.antt =====
-- One request of a client (KVStore.connectCorrServer, sendMsg, receiveMsg) in a cluster whose servers
-- hold the metadata of one ring.
use distributed_storage_with.Base.{
  ℕ, ◌≡◌, refl, sym, ◌∙◌, true, false, ◌&&◌, some, nat_eq, nat_eq_iff, text_eq, text_eq_iff, pos,
  Text, text_Eq, lookup, HashOrder, ok, ◌>>=◌, arith, Bool-cases, inl, inr,
}
use distributed_storage_with.Radix.{parse_port}
use distributed_storage_with.Ring.Range.{split_colon, piece}
use distributed_storage_with.Ring.Metadata.{Metadata, find_server}
use distributed_storage_with.Ring.Assignment.{Accepts}
use distributed_storage_with.Messages.{KvMsg}
use distributed_storage_with.Network.{Network}
use distributed_storage_with.Client.{
  Client, open_comm, is_not_responsible, reconnect, connect_found, connect_corr_server, ask,
  request_round, disconnect, client_connect,
}

-- The address is that of a host and a port.
pub record ReadsAs (addr host : Text) (port : ℕ) : Type 0 where
  pub host_read : piece 0 (split_colon addr) ≡ ok host
  pub port_read : (piece 1 (split_colon addr) >>= parse_port) ≡ ok port

-- The client has a connection to the address that it holds, and its search for the key, through
-- whatever metadata it holds, ends at an address of that host and port.
pub record Routed (hash : Text → ℕ) (order : HashOrder) (key : Text) (c : Client) (host : Text)
    (port : ℕ) : Type 0 where
  pub known : Metadata
  pub addr : Text
  pub range : Text
  pub knows : c.metadata ≡ some known
  pub found : find_server (pos (hash key)) (order.order known) ≡ ok (some (addr, range))
  pub reads : ReadsAs addr host port
  pub open_to : c.comm ≡ open_comm c.address c.port

metadata-disconnect : (c : Client) → (disconnect c).metadata ≡ c.metadata
unfolding disconnect
metadata-disconnect c = elim (Bool-cases c.has_socket) [ inl has ↦ rw has | inr lacks ↦ rw lacks ]

module _ (hash : Text → ℕ) (order : HashOrder) (network : Network) where
  open network use {World, connect, exchange}

  -- Servers that can be reached and that reply to a message; one that is not responsible sends the
  -- metadata, and one whose range in the metadata accepts the hash is responsible.
  pub record Cluster (metadata : Metadata) (h : ℕ) (msg : KvMsg) : Type 1 where
    pub IsUp : World → Type 0
    pub IsServer : Text → ℕ → Type 0
    pub connects :
        (host : Text) (port : ℕ) (w : World)
        → IsServer host port
        → IsUp w
        → ((connect host port w).0 ≡ ok tt) × IsUp (connect host port w).1
    pub replies :
        (host : Text) (port : ℕ) (w : World)
        → IsServer host port
        → IsUp w
        → (reply : KvMsg) × ((exchange host port msg w).0 ≡ ok (some reply))
          × (is_not_responsible reply.status ≡ true
              → (reply.metadata ≡ some metadata) × IsUp (exchange host port msg w).1)
    pub listed :
        (addr range : Text)
        → lookup addr metadata ≡ some range
        → (host : Text) × (port : ℕ) × ReadsAs addr host port × IsServer host port
    pub in_charge :
        (addr range host : Text) (port : ℕ) (w : World) (reply : KvMsg)
        → lookup addr metadata ≡ some range
        → Accepts range h
        → ReadsAs addr host port
        → IsUp w
        → (exchange host port msg w).0 ≡ ok (some reply)
        → is_not_responsible reply.status ≡ false

  module _ (metadata : Metadata) (h : ℕ) (msg : KvMsg) (cluster : Cluster metadata h msg) where
    -- The client's connection is to the address that it holds.
    record IsConnected (c : Client) (w : World) : Type 0 where
      up : cluster.IsUp w
      open_to : c.comm ≡ open_comm c.address c.port

    record Reconnected (host : Text) (port : ℕ) (c : Client) (w : World) : Type 0 where
      c' : Client
      w' : World
      ends : reconnect hash order network host port (c, w) ≡ (c', w')
      connected : IsConnected c' w'
      at_host : c'.address ≡ host
      at_port : c'.port ≡ port
      same_metadata : c'.metadata ≡ c.metadata

    reconnect_lem :
        (host : Text) (port : ℕ) (c : Client) (w : World)
        → cluster.IsServer host port
        → IsConnected c w
        → Reconnected host port c w
    unfolding reconnect client_connect disconnect
    reconnect_lem host port c w server connected =
        elim (Bool-cases (text_eq host c.address && nat_eq port c.port)) [
          | inl same ↦
              let same_host : text_eq host c.address ≡ true = ground (arith, same) in
              let same_port : nat_eq port c.port ≡ true = ground (arith, same) in
              record {
                c' = c;
                w' = w;
                ends = rw same;
                connected = connected;
                at_host = sym ((text_eq_iff host c.address).0 same_host);
                at_port = sym ((nat_eq_iff port c.port).0 same_port);
                same_metadata = refl;
              }
          | inr other ↦
              let (made, up') = cluster.connects host port w server connected.up in
              record {
                c' = record (disconnect c) {
                  address = host;
                  port = port;
                  has_socket = true;
                  comm = open_comm host port;
                };
                w' = (connect host port w).1;
                ends = rw other (rw made);
                connected = record { up = up'; open_to = refl };
                at_host = refl;
                at_port = refl;
                same_metadata = metadata-disconnect c;
              }
        ]

    connect_corr_server_lem :
        (key host : Text) (port : ℕ) (c : Client) (w : World)
        (r : Routed hash order key c host port)
        → connect_corr_server hash order network key (c, w)
          ≡ (ok tt, reconnect hash order network host port (c, w))
    unfolding connect_corr_server connect_found
    connect_corr_server_lem key host port c w r =
        simp (r.knows, r.found, r.reads.host_read, r.reads.port_read)

    ask_lem :
        (host : Text) (port : ℕ) (c : Client) (w : World) (reply : KvMsg)
        → c.comm ≡ open_comm host port
        → (exchange host port msg w).0 ≡ ok (some reply)
        → ask hash order network msg (c, w) ≡ (ok reply, (c, (exchange host port msg w).1))
    unfolding ask
    ask_lem host port c w reply open_there answered = simp (open_there, answered)

    -- What one request to a server that the client's metadata names comes to.
    pub record RoundDone (host : Text) (port : ℕ) (key : Text) (c : Client) (w : World)
        : Type 0 where
      pub c' : Client
      pub before : World
      pub reply : KvMsg
      pub ends :
          request_round hash order network key msg (c, w)
          ≡ (ok reply, (c', (exchange host port msg before).1))
      pub routed : Routed hash order key c' host port
      pub was_up : cluster.IsUp before
      pub answered : (exchange host port msg before).0 ≡ ok (some reply)
      pub refusal :
          is_not_responsible reply.status ≡ true
          → (reply.metadata ≡ some metadata) × cluster.IsUp (exchange host port msg before).1

    pub request_round_lem :
        (key host : Text) (port : ℕ) (c : Client) (w : World)
        → Routed hash order key c host port
        → cluster.IsServer host port
        → cluster.IsUp w
        → RoundDone host port key c w
    unfolding request_round
    request_round_lem key host port c w routed server up =
        let r = reconnect_lem host port c w server (record { up = up; open_to = routed.open_to }) in
        let (reply, answered, refusal) = cluster.replies host port r.w' server r.connected.up in
        let open_there : r.c'.comm ≡ open_comm host port =
          r.connected.open_to ∙ (λ i. open_comm (r.at_host i) (r.at_port i)) in
        record {
          c' = r.c';
          before = r.w';
          reply = reply;
          ends =
              rw (connect_corr_server_lem key host port c w routed)
                (rw r.ends (ask_lem host port r.c' r.w' reply open_there answered));
          routed = record {
            known = routed.known;
            addr = routed.addr;
            range = routed.range;
            knows = r.same_metadata ∙ routed.knows;
            found = routed.found;
            reads = routed.reads;
            open_to = r.connected.open_to;
          };
          was_up = r.connected.up;
          answered = answered;
          refusal = refusal;
        }
