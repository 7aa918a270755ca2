-- ===== src/Client/Retries.antt =====
-- How often a client retries in a cluster whose servers hold the metadata of one ring.
use distributed_storage_with.Base.{
  ℕ, suc, ◌≡◌, ap, ◌∙◌, false, Option, some, pos, Text, text_Eq, HashOrder, ok, Effect, Bool-cases,
  inl, inr,
}
use distributed_storage_with.Ring.Metadata.{Metadata, find_server}
use distributed_storage_with.Ring.Routing.{Routes}
use distributed_storage_with.Messages.{KvMsg}
use distributed_storage_with.Network.{Network}
use distributed_storage_with.Client.{Client, is_not_responsible, Both, request_round, retry}
use distributed_storage_with.Client.Rounds.{Routed, Cluster, RoundDone, request_round_lem}

module _ (hash : Text → ℕ) (order : HashOrder) (network : Network) (metadata : Metadata) (h : ℕ)
    (msg : KvMsg) (cluster : Cluster hash order network metadata h msg) where
  open network use {World, connect, exchange}

  -- The result of the loop: the reply is that of a server of the cluster, which takes the request, and
  -- to which the client's metadata leads from then on.
  pub record Answered (host : Text) (port : ℕ) (key : Text)
      (e : Option (Effect (Both hash order network) KvMsg)) : Type 0 where
    pub reply : KvMsg
    pub client : Client
    pub before : World
    pub returned : e ≡ some (ok reply, (client, (exchange host port msg before).1))
    pub routed : Routed hash order key client host port
    pub server : cluster.IsServer host port
    pub was_up : cluster.IsUp before
    pub answered : (exchange host port msg before).0 ≡ ok (some reply)
    pub responsible : is_not_responsible reply.status ≡ false

  -- A server that takes the request at once is the one that answers.
  round_taken :
      (key host : Text) (port : ℕ) (c : Client) (w : World) (fuel : ℕ)
      (first : RoundDone hash order network metadata h msg cluster host port key c w)
      → cluster.IsServer host port
      → is_not_responsible first.reply.status ≡ false
      → Answered host port key (
          retry hash order network
            (suc fuel)
            key
            msg
            (request_round hash order network key msg (c, w)))
  unfolding retry
  round_taken key host port c w fuel first server taken = record {
    reply = first.reply;
    client = first.c';
    before = first.before;
    returned = rw first.ends (rw taken);
    routed = first.routed;
    server = server;
    was_up = first.was_up;
    answered = first.answered;
    responsible = taken;
  }

  -- If the server to which the client's metadata leads takes every such request, it is the one that
  -- answers.
  pub retry_taken :
      (key host : Text) (port : ℕ) (c : Client) (w : World) (fuel : ℕ)
      → Routed hash order key c host port
      → cluster.IsServer host port
      → cluster.IsUp w
      → ((w' : World) (reply : KvMsg)
          → cluster.IsUp w'
          → (exchange host port msg w').0 ≡ ok (some reply)
          → is_not_responsible reply.status ≡ false)
      → Answered host port key (
          retry hash order network
            (suc fuel)
            key
            msg
            (request_round hash order network key msg (c, w)))
  retry_taken key host port c w fuel routed server up takes =
      let first =
        request_round_lem hash order network metadata h msg cluster key host port c w routed server
          up in
      round_taken key host port c w fuel first server
        (takes first.before first.reply first.was_up first.answered)

  -- A request is answered by a server that takes it, after at most one retry. The client may hold
  -- other metadata than the cluster's, as long as its search there ends at a server of the cluster.
  pub retry_lem :
      (order_routes : Routes order metadata h) (key host : Text) (port : ℕ) (c : Client) (w : World)
      (fuel : ℕ)
      → hash key ≡ h
      → Routed hash order key c host port
      → cluster.IsServer host port
      → cluster.IsUp w
      → (name : Text) × (number : ℕ) × Answered name number key (
          retry hash order network
            (suc (suc fuel))
            key
            msg
            (request_round hash order network key msg (c, w)))
  unfolding retry
  retry_lem routes key host port c w fuel same routed server up =
      let first =
        request_round_lem hash order network metadata h msg cluster key host port c w routed server
          up in
      elim (Bool-cases (is_not_responsible first.reply.status)) [
        | inr taken ↦ (host, port, round_taken key host port c w (suc fuel) first server taken)
        | inl refused ↦
            let (newer, up') = first.refusal refused in
            let (host', port', reads', server') =
              cluster.listed routes.addr routes.range routes.entry in
            let c'' : Client = record first.c' { metadata = first.reply.metadata } in
            let w' = (exchange host port msg first.before).1 in
            let second =
              retry_taken key host' port' c'' w' fuel
                (record {
                  known = metadata;
                  addr = routes.addr;
                  range = routes.range;
                  knows = newer;
                  found = ap (λ h. find_server (pos h) (order.order metadata)) same ∙ routes.found;
                  reads = reads';
                  open_to = first.routed.open_to;
                })
                server' up'
                (λ w'' reply up'' answered.
                  cluster.in_charge routes.addr routes.range host' port' w'' reply routes.entry
                    routes.accepts reads' up'' answered) in
            (
              host',
              port',
              record {
                reply = second.reply;
                client = second.client;
                before = second.before;
                returned = rw first.ends (rw refused second.returned);
                routed = second.routed;
                server = second.server;
                was_up = second.was_up;
                answered = second.answered;
                responsible = second.responsible;
              },
            )
      ]
