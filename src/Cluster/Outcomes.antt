-- ===== src/Cluster/Outcomes.antt =====
-- What KVStore.put and KVStore.get come to against the servers of a ring, which run
-- CommModule.serve.
use distributed_storage_with.Base.{
  ℕ, suc, ◌≡◌, refl, ap, sym, ◌∙◌, Bool, true, false, List, [], Option, none, some, Text, text_eq,
  text_Eq, inl, inr, Dict, lookup, HashOrder, ok, Effect, if◌then◌else◌,
}
use distributed_storage_with.Ring.Metadata.{EcsNode, Metadata, addr_port, calc_metadata}
use distributed_storage_with.Ring.Assignment.{Readable}
use distributed_storage_with.Ring.Coverage.{IsRing, calc_metadata-Readable}
use distributed_storage_with.Ring.Routing.{calc_metadata-Routes}
use distributed_storage_with.Messages.{StatusType, KvMsg, get, put}
use distributed_storage_with.Network.{Network}
use distributed_storage_with.Storage.{JsonSimple, is_delete}
use distributed_storage_with.Server.{Server, is_responsible}
use distributed_storage_with.Comm.Serve.{serve, answer, got, size_violated}
use distributed_storage_with.Comm.Serve.Puts.{contents, PutDone, put_status, held}
use distributed_storage_with.Comm.Serve.Replies.{serve_put_lem, serve_get_lem}
use distributed_storage_with.Comm.Serve.Refusals.{request}
use distributed_storage_with.Client.{
  Client, Both, is_not_responsible, client_put, client_get, retry, request_round,
}
use distributed_storage_with.Client.Rounds.{Routed}
use distributed_storage_with.Client.Retries.{retry_lem}
use distributed_storage_with.Cluster.Service.{Machines, machines_network}
use distributed_storage_with.Cluster.Serving.{HasMembers, IsTaken, Member-IsServing}
use distributed_storage_with.Cluster.Requests.{cluster, Taken, Answered-Taken}

put_status-taken : (held delete : Bool) → is_not_responsible (some (put_status held delete)) ≡ false
unfolding is_not_responsible
put_status-taken true true = refl
put_status-taken true false = refl
put_status-taken false true = refl
put_status-taken false false = refl

got-taken : (key : Text) (o : Option Text) → is_not_responsible (got key o).status ≡ false
unfolding is_not_responsible
got-taken key none = refl
got-taken key (some value) = refl

module _ (json : JsonSimple) (hash : Text → ℕ) (order : HashOrder) (network : Network) where
  abbrev pub Outcome : Type 0
  Outcome = Option (Effect (Both hash order (machines_network json hash order network)) KvMsg)

  -- One server of those that are responsible for the key has taken the put: the reply tells what it
  -- did, the put has had its effect on it, and every other server is what it was.
  pub record PutTaken (servers : Dict Text (Server json)) (key : Text) (value : Option Text)
      (e : Outcome) : Type 0 where
    pub client : Client
    pub after : Machines json hash order network
    pub addr : Text
    pub server : Server json
    pub server' : Server json
    pub at_addr : lookup addr servers ≡ some server
    pub responsible : is_responsible json hash key server ≡ ok true
    pub returned :
        e
        ≡ some (
          ok (answer (put_status (held (contents json server key)) (is_delete value)) key value),
          (client, after),
        )
    pub done : PutDone json key value server server'
    pub changed :
        (a : Text) → lookup a after.0 ≡ (if text_eq addr a then some server' else lookup a servers)

  -- One server of those that are responsible for the key has answered the get with what the key holds
  -- there; it holds what it held, and every other server is what it was.
  pub record GetTaken (servers : Dict Text (Server json)) (key : Text) (e : Outcome) : Type 0 where
    pub client : Client
    pub after : Machines json hash order network
    pub addr : Text
    pub server : Server json
    pub server' : Server json
    pub at_addr : lookup addr servers ≡ some server
    pub responsible : is_responsible json hash key server ≡ ok true
    pub returned : e ≡ some (ok (got key (contents json server key)), (client, after))
    pub kept : (j : Text) → contents json server' j ≡ contents json server j
    pub changed :
        (a : Text) → lookup a after.0 ≡ (if text_eq addr a then some server' else lookup a servers)

  -- What a client needs to know: its search, through whatever metadata it holds, ends at an address
  -- under which the ring has a server, and its connection is to the address that it holds.
  pub record Informed (metadata : Metadata) (key : Text) (c : Client) : Type 0 where
    pub host : Text
    pub port : ℕ
    pub routed : Routed hash order key c host port
    pub listed : (q : Text) × (lookup (addr_port host port) metadata ≡ some q)

  module _ (nodes : List EcsNode) (servers : Dict Text (Server json)) (ring : IsRing hash nodes)
      (members : HasMembers json (calc_metadata hash nodes) servers) where
    abbrev pub metadata : Metadata
    metadata = calc_metadata hash nodes

    abbrev pub readable : Readable metadata
    readable = calc_metadata-Readable hash nodes ring

    -- What the loop comes to, when it is entered with a request.
    abbrev pub requested :
        ℕ → StatusType → Text → Option Text → Client → Machines json hash order network → Outcome
    requested fuel status key value c m =
        retry hash order (machines_network json hash order network) fuel key
          (request status key value)
          (request_round hash order (machines_network json hash order network) key
            (request status key value) (c, m))

    pub requested-Taken :
        (status : StatusType) (key : Text) (value : Option Text) (c : Client) (w : network.World)
        (fuel : ℕ)
        (t : IsTaken json hash order network metadata servers readable members status key value)
        → Informed metadata key c
        → (host : Text) × (port : ℕ) × Taken json hash order network metadata servers readable
            members status key value t host port
            (requested (suc (suc fuel)) status key value c (servers, w))
    requested-Taken status key value c w fuel t i =
        let (host, port, answered) =
          retry_lem hash order (machines_network json hash order network) metadata (hash key)
            (request status key value)
            (cluster json hash order network metadata servers readable members status key value t)
            (calc_metadata-Routes hash order nodes (hash key) ring) key i.host i.port c (servers, w)
            fuel refl i.routed i.listed (λ a. refl) in
        (
          host,
          port,
          Answered-Taken json hash order network metadata servers readable members status key value
              t host port _ answered,
        )

    pub put-IsTaken :
        (key : Text) (value : Option Text)
        → size_violated key value ≡ false
        → IsTaken json hash order network metadata servers readable members put key value
    put-IsTaken key value fits = record {
      admitted = inr (refl, fits);
      taken = λ s serving unlocked.
          let (replied, done) = serve_put_lem json hash key value s serving unlocked fits in
          (
            answer (put_status (held (contents json s key)) (is_delete value)) key value,
            replied,
            put_status-taken (held (contents json s key)) (is_delete value),
          );
    }

    pub get-IsTaken :
        (key : Text) (value : Option Text)
        → IsTaken json hash order network metadata servers readable members get key value
    get-IsTaken key value = record {
      admitted = inl refl;
      taken = λ s serving unlocked. (
        got key (contents json s key),
        (serve_get_lem json hash key value s serving).0,
        got-taken key (contents json s key),
      );
    }

    -- A ring's servers hold its metadata, each under its address, are started, are not locked for
    -- writing, and have a disk and a publisher that work. Then a client's put of a key of an accepted
    -- size returns after at most one retry, and it is taken: a server that is responsible for the key
    -- holds the value afterwards, or nothing if the value is a request to delete, and every other pair
    -- as before; it has published the change, except for the deletion of a key that it did not hold, the
    -- reply tells what was done, and every other server is what it was. The metadata of the client may
    -- be older than the ring's, as long as the client's search there ends at a server of the ring; its
    -- connection is to the address that it holds.
    pub client_put_lem :
        (key : Text) (value : Option Text) (c : Client) (w : network.World) (fuel : ℕ)
        → size_violated key value ≡ false
        → Informed metadata key c
        → PutTaken servers key value (
            client_put hash order
              (machines_network json hash order network)
              (suc (suc fuel))
              key
              value
              (c, (servers, w)))
    unfolding client_put
    client_put_lem key value c w fuel fits i =
        let (host, port, t) =
          requested-Taken put key value c w fuel (put-IsTaken key value fits) i in
        let serves =
          Member-IsServing json hash order network metadata servers readable members
            (addr_port host port) key t.server t.member t.responsible in
        let (replied, done) =
          serve_put_lem json hash key value t.server serves t.member.unlocked fits in
        record {
          client = t.client;
          after = t.after;
          addr = addr_port host port;
          server = t.server;
          server' = (serve json hash (request put key value) t.server).1;
          at_addr = t.at_addr;
          responsible = t.responsible;
          returned = t.returned ∙ ap (λ r. some (r, (t.client, t.after))) (sym t.replied ∙ replied);
          done = done;
          changed = t.changed;
        }

    -- In such a ring, and for such a client, a get returns after at most one retry what a server that
    -- is responsible for the key holds of it, or GET_ERROR if that is nothing; that server holds what
    -- it held, and every other server is what it was.
    pub client_get_lem :
        (key : Text) (c : Client) (w : network.World) (fuel : ℕ)
        → Informed metadata key c
        → GetTaken servers key (
            client_get hash order
              (machines_network json hash order network)
              (suc (suc fuel))
              key
              (c, (servers, w)))
    unfolding client_get
    client_get_lem key c w fuel i =
        let (host, port, t) =
          requested-Taken get key (some []) c w fuel (get-IsTaken key (some [])) i in
        let serves =
          Member-IsServing json hash order network metadata servers readable members
            (addr_port host port) key t.server t.member t.responsible in
        let (replied, kept) = serve_get_lem json hash key (some []) t.server serves in
        record {
          client = t.client;
          after = t.after;
          addr = addr_port host port;
          server = t.server;
          server' = (serve json hash (request get key (some [])) t.server).1;
          at_addr = t.at_addr;
          responsible = t.responsible;
          returned = t.returned ∙ ap (λ r. some (r, (t.client, t.after))) (sym t.replied ∙ replied);
          kept = kept;
          changed = t.changed;
        }
