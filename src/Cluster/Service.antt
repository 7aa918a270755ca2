-- ===== src/Cluster/Service.antt =====
-- The configuration service (ECSClient.start, stop) and the servers that answer it
-- (CommModule.adminServe), and clients (CommModule.serve).
use distributed_storage_with.Base.{
  ℕ, ◌≡◌, refl, ap, sym, ◌∙◌, Bool, true, false, List, [], ◌∷◌, map, Option, none, some,
  if◌then◌else◌, Text, text_Eq, Dict, lookup, insert, All, HashOrder, ok, throw, io_exception,
  Effect, proceed, ◌>>=◌, deref,
}
use distributed_storage_with.Ring.Metadata.{EcsNode, addr_port, node_addr}
use distributed_storage_with.Messages.{
  StatusType, KvMsg, KvAdminMsg, start, start_success, stop, stop_success,
}
use distributed_storage_with.Network.{Network}
use distributed_storage_with.Storage.{JsonSimple}
use distributed_storage_with.Server.{Server, set_start, set_stop}
use distributed_storage_with.Comm.Serve.{serve}
use distributed_storage_with.Comm.Admin.{admin_serve, admin_answer}
use distributed_storage_with.Cluster.Changes.{
  changed, change, change_all, changed_at, IsReached, lookup-change_all, change-All_IsReached,
}
use distributed_storage_with.Ecs.{
  EcsWorld, EcsClient, EcsBoth, plain_request, is_start_success, is_stop_success, ask_server,
  reply_status, command_all, start_servers, stop_servers,
}

module _ (json : JsonSimple) (hash : Text → ℕ) (order : HashOrder) (network : Network) where
  -- The servers under their addresses, and what they see of other machines.
  abbrev pub Machines : Type 0
  Machines = Dict Text (Server json) × network.World

  abbrev pub reach : Option (Server json) → Machines → Effect Machines (Unit {0})
  reach none m = (throw io_exception, m)
  reach (some server) m = (ok tt, m)

  -- When adminServe throws, the connection is closed, and the reply reads as null.
  abbrev replied_by :
      Text
      → Effect (Server json × network.World) (Option KvAdminMsg)
      → Dict Text (Server json)
      → Effect Machines (Option KvAdminMsg)
  replied_by addr (ok reply, (server, w)) servers = (ok reply, (insert addr server servers, w))
  replied_by addr (throw e, (server, w)) servers = (ok none, (insert addr server servers, w))

  abbrev served :
      Option (Server json) → Text → KvAdminMsg → Machines → Effect Machines (Option KvAdminMsg)
  served none addr msg m = (throw io_exception, m)
  served (some server) addr msg (servers, w) =
      replied_by addr (admin_serve json hash order network msg (server, w)) servers

  abbrev pub served_client :
      Text
      → Effect (Server json) KvMsg
      → Dict Text (Server json)
      → network.World
      → Effect Machines (Option KvMsg)
  served_client addr (ok reply, server) servers w =
      (ok (some reply), (insert addr server servers, w))
  served_client addr (throw e, server) servers w = (ok none, (insert addr server servers, w))

  abbrev pub serving :
      Option (Server json) → Text → KvMsg → Machines → Effect Machines (Option KvMsg)
  serving none addr msg m = (throw io_exception, m)
  serving (some server) addr msg (servers, w) =
      served_client addr (serve json hash msg server) servers w

  abbrev pub machines_network : Network
  machines_network = record {
    World = Machines;
    connect = λ host port m. reach (lookup (addr_port host port) m.0) m;
    exchange =
        λ host port msg m. serving (lookup (addr_port host port) m.0) (addr_port host port) msg m;
    exchange_admin =
        λ host port msg m. served (lookup (addr_port host port) m.0) (addr_port host port) msg m;
  }

  module _ (launch : EcsNode → Machines → Machines) (random : ℕ → Machines → ℕ × Machines)
      (children : Machines → Effect Machines ℕ) (rounds : ℕ → Machines → ℕ) where
    abbrev pub machines_env : EcsWorld
    machines_env = record {
      network = machines_network;
      send_admin = λ host port msg m.
          let (reply, m') = served (lookup (addr_port host port) m.0) (addr_port host port) msg m in
          (reply >>= λ _. ok tt, m');
      launch = launch;
      random = random;
      children = children;
      rounds = rounds;
    }

    abbrev pub addresses : List EcsNode → List Text
    addresses = map node_addr

    -- A request that every server obeys.
    record Obeyed (f : Server json → Server json) (status success : StatusType) : Type 0 where
      obeyed :
          (server : Server json) (w : network.World)
          → admin_serve json hash order network (plain_request status) (server, w)
            ≡ (ok (some (admin_answer (some success))), (f server, w))
      idempotent : (server : Server json) → f (f server) ≡ f server

    ask_server_lem :
        (f : Server json → Server json) (status success : StatusType) (o : Obeyed f status success)
        (node : EcsNode) (servers : Dict Text (Server json)) (w : network.World)
        → IsReached servers (node_addr node)
        → ask_server machines_env node.host node.port (plain_request status) (servers, w)
          ≡ (ok (some success), (change f (node_addr node) servers, w))
    unfolding ask_server reply_status node_addr
    ask_server_lem f status success o node servers w (server, there) =
        let addr = node_addr node in
        let msg = plain_request status in
        ap
          (λ x.
            proceed (reach x (servers, w)).0 (reach x (servers, w)).1
              λ _. reply_status machines_env node.host node.port msg (reach x (servers, w)).1)
          there
        ∙ ap
            (λ x.
              let (reply, m) = served x addr msg (servers, w) in
              (reply >>= deref >>= λ r. ok r.status, m))
            there
        ∙ ap
            (λ e.
              let (reply, m) = replied_by addr e servers in
              (reply >>= deref >>= λ r. ok r.status, m))
            (o.obeyed server w)
        ∙ ap (λ x. (ok (some success), (changed f addr x servers, w))) (sym there)

    command_all_lem :
        (f : Server json → Server json) (status success : StatusType)
        (is_success : Option StatusType → Bool) (o : Obeyed f status success) (nodes : List EcsNode)
        (servers : Dict Text (Server json)) (w : network.World)
        → is_success (some success) ≡ true
        → All (IsReached servers) (addresses nodes)
        → command_all machines_env status is_success nodes (servers, w)
          ≡ (ok true, (change_all f (addresses nodes) servers, w))
    unfolding command_all change_all
    command_all_lem f status success is_success o [] servers w e h = refl
    command_all_lem f status success is_success o (node ∷ nodes) servers w e h =
        let servers' = change f (node_addr node) servers in
        ap
          (λ r. proceed r.0 r.1 λ answer.
            let (later, m) = command_all machines_env status is_success nodes r.1 in
            (later >>= λ b. ok (if is_success answer then b else false), m))
          (ask_server_lem f status success o node servers w h.0)
        ∙ ap (λ r. (r.0 >>= λ b. ok (if is_success (some success) then b else false), r.1))
            (command_all_lem f status success is_success o nodes servers' w e
              (change-All_IsReached f (node_addr node) servers (addresses nodes) h.1))
        ∙ ap (λ b. (ok (if b then true else false), (change_all f (addresses nodes) servers', w))) e

    start-Obeyed : Obeyed (set_start json) start start_success
    unfolding admin_serve set_start
    start-Obeyed = record { obeyed = λ server w. refl; idempotent = λ server. refl }

    stop-Obeyed : Obeyed (set_stop json) stop stop_success
    unfolding admin_serve set_stop
    stop-Obeyed = record { obeyed = λ server w. refl; idempotent = λ server. refl }

    -- The call returns true, the service is as before, and of the servers those under the active
    -- addresses have become what `f` makes of them.
    abbrev pub Commanded :
        (Server json → Server json)
        → EcsClient
        → Dict Text (Server json)
        → Effect (EcsBoth machines_env) Bool
        → Type 0
    Commanded f s servers r =
        (r.0 ≡ ok true)
        × (r.1.0 ≡ s)
        × ((a : Text) → lookup a r.1.1.0 ≡ changed_at f (addresses s.active_servers) a servers)

    -- If every active server is reached, `start` and `stop` return true, the service stays as it is, and
    -- afterwards exactly the servers under the active addresses are started, or stopped, by `setStart`
    -- or `setStop`, every other one being what it was.
    pub start_stop_lem :
        (s : EcsClient) (servers : Dict Text (Server json)) (w : network.World)
        → All (IsReached servers) (addresses s.active_servers)
        → Commanded (set_start json) s servers (start_servers machines_env (s, (servers, w)))
          × Commanded (set_stop json) s servers (stop_servers machines_env (s, (servers, w)))
    unfolding start_servers stop_servers
    start_stop_lem s servers w h =
        let started =
          command_all_lem (set_start json) start start_success is_start_success start-Obeyed
            s.active_servers servers w refl h in
        let halted =
          command_all_lem (set_stop json) stop stop_success is_stop_success stop-Obeyed
            s.active_servers servers w refl h in
        (
          (
            ap (λ r. r.0) started,
            refl,
            λ a.
                ap (λ r. lookup a r.1.0) started
                ∙ lookup-change_all (set_start json) (addresses s.active_servers) a servers
                    start-Obeyed.idempotent,
          ),
          (
            ap (λ r. r.0) halted,
            refl,
            λ a.
                ap (λ r. lookup a r.1.0) halted
                ∙ lookup-change_all (set_stop json) (addresses s.active_servers) a servers
                    stop-Obeyed.idempotent,
          ),
        )
