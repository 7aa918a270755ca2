-- ===== src/Ecs.antt =====
-- The configuration service (src/app_kvECS/ECSClient.java): the servers that it knows, and how it
-- starts, stops and shuts them down.
pub mod Shutting
pub mod Adding
pub mod Removing
pub mod Commands
pub mod Known
pub mod Conservation
use distributed_storage_with.Base.{
  ℕ, zero, suc, Bool, true, false, List, [], ◌∷◌, ◌++◌, Option, none, some, if◌then◌else◌, nat_eq,
  sub_ℕ, Text, text_Eq, text_eq, HashOrder, Result, ok, throw, ◌>>=◌, deref, Effect, proceed,
}
use distributed_storage_with.Ring.Metadata.{EcsNode, Metadata, find_server}
use distributed_storage_with.Messages.{
  StatusType, KvAdminMsg, start, start_success, stop, stop_success, shutdown, shutdown_success,
  update, update_success,
}
use distributed_storage_with.Network.{Network}

-- What the service uses of the rest of the world.
pub record EcsWorld : Type 1 where
  pub network : Network
  -- sendAdminMsg on a connection, with no reply awaited
  pub send_admin : Text → ℕ → KvAdminMsg → network.World → Effect network.World (Unit {0})
  -- Runtime.exec of the script that starts a server; a failure is only printed
  pub launch : EcsNode → network.World → network.World
  -- new Random().nextInt(n), for a positive n
  pub random : ℕ → network.World → ℕ × network.World
  -- zk.getChildren("/keeper", true).size()
  pub children : network.World → Effect network.World ℕ
  -- how often the loop of awaitNodes looks before the time is over
  pub rounds : ℕ → network.World → ℕ

-- The fields of ECSClient that its commands change.
pub record EcsClient : Type 0 where
  pub stopped : Bool
  pub idle_servers : List EcsNode
  pub active_servers : List EcsNode
  pub metadata : Metadata

-- sendAdminMsg(server, status, metadata, range)
abbrev pub admin_request : Option Text → StatusType → Option Metadata → Option Text → KvAdminMsg
admin_request server status metadata range = record {
  new_kv_server = server;
  status = some status;
  metadata = metadata;
  range = range;
}

abbrev pub plain_request : StatusType → KvAdminMsg
plain_request status = admin_request none status none none

abbrev pub is_start_success : Option StatusType → Bool
is_start_success (some start_success) = true
is_start_success _ = false

abbrev pub is_stop_success : Option StatusType → Bool
is_stop_success (some stop_success) = true
is_stop_success _ = false

abbrev pub is_shutdown_success : Option StatusType → Bool
is_shutdown_success (some shutdown_success) = true
is_shutdown_success _ = false

abbrev pub is_update_success : Option StatusType → Bool
is_update_success (some update_success) = true
is_update_success _ = false

-- ECSClient.getNodeByKey: the address and the range of a server, or null. Two is taken off the hash.
unfoldable pub get_node_by_key :
    (Text → ℕ) → HashOrder → Metadata → Text → Result (Option (Text × Text))
get_node_by_key hash order metadata key = find_server (sub_ℕ (hash key) 2) (order.order metadata)

module _ (env : EcsWorld) where
  open env use {network, send_admin, children, rounds}
  open network use {World, connect, exchange_admin}

  abbrev pub EcsBoth : Type 0
  EcsBoth = EcsClient × World

  -- A message on a connection that is there, and the status of the reply; a reply that is null is
  -- dereferenced.
  unfoldable pub reply_status : Text → ℕ → KvAdminMsg → World → Effect World (Option StatusType)
  reply_status host port msg w =
      let (reply, w') = exchange_admin host port msg w in (reply >>= deref >>= λ m. ok m.status, w')

  -- The same with the connection.
  unfoldable pub ask_server : Text → ℕ → KvAdminMsg → World → Effect World (Option StatusType)
  unfolding reply_status
  ask_server host port msg w =
      let (connected, w') = connect host port w in
      proceed connected w' λ _. reply_status host port msg w'

  -- The loop of start and of stop, from a server on.
  unfoldable pub command_all :
      StatusType → (Option StatusType → Bool) → List EcsNode → World → Effect World Bool
  unfolding ask_server
  command_all status is_success [] w = (ok true, w)
  command_all status is_success (node ∷ nodes) w =
      let (reply, w') = ask_server node.host node.port (plain_request status) w in
      proceed reply w' λ answer.
        let (later, w'') = command_all status is_success nodes w' in
        (later >>= λ success. ok (if is_success answer then success else false), w'')

  abbrev pub with_client {ℓ} : {A : Type ℓ} → EcsClient → Effect World A → Effect EcsBoth A
  with_client s (r, w) = (r, (s, w))

  unfoldable pub start_servers : EcsBoth → Effect EcsBoth Bool
  unfolding command_all
  start_servers (s, w) = with_client s (command_all start is_start_success s.active_servers w)

  unfoldable pub stop_servers : EcsBoth → Effect EcsBoth Bool
  unfolding command_all
  stop_servers (s, w) = with_client s (command_all stop is_stop_success s.active_servers w)

  -- The loop, and the last look, after which the result is false.
  unfoldable pub await_rounds : ℕ → ℕ → World → Effect World Bool
  await_rounds zero count w = let (found, w') = children w in (found >>= λ n. ok false, w')
  await_rounds (suc k) count w =
      let (found, w') = children w in
      proceed found w'
        λ n. let later = await_rounds k count w' in if nat_eq n count then (ok true, w') else later

  unfoldable pub await_nodes : ℕ → ℕ → World → Effect World Bool
  unfolding await_rounds
  await_nodes count timeout w = await_rounds (rounds timeout w) count w

  -- An exception of awaitNodes is caught where it is called.
  abbrev pub or_false : Effect World Bool → Bool × World
  or_false (ok b, w) = (b, w)
  or_false (throw e, w) = (false, w)

  abbrev pub await_or_false : ℕ → ℕ → EcsBoth → Effect EcsBoth Bool
  await_or_false count timeout (s, w) =
      let (b, w') = or_false (await_nodes count timeout w) in (ok b, (s, w'))
