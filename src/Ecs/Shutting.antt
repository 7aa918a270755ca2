-- ===== src/Ecs/Shutting.antt =====
-- ECSClient.shutdown and shutdown_server: active servers become idle.
use distributed_storage_with.Base.{
  Bool, false, List, [], ◌∷◌, ◌++◌, length, if◌then◌else◌, Text, text_eq, ok, Effect, proceed,
}
use distributed_storage_with.Ring.Metadata.{EcsNode}
use distributed_storage_with.Messages.{shutdown}
use distributed_storage_with.Ecs.{
  EcsWorld, EcsBoth, plain_request, is_shutdown_success, ask_server, await_or_false,
}

module _ (env : EcsWorld) where
  open env use {network, send_admin}
  open network use {World, connect}

  -- The reply to SHUTDOWN is not awaited.
  unfoldable pub send_shutdown : EcsNode → World → Effect World (Unit {0})
  send_shutdown node w =
      let (connected, w') = connect node.host node.port w in
      proceed connected w' λ _. send_admin node.host node.port (plain_request shutdown) w'

  -- The loop: the first server of those that are active, until there is none.
  unfoldable pub shutdown_nodes : List EcsNode → EcsBoth env → Effect (EcsBoth env) (Unit {0})
  unfolding send_shutdown
  shutdown_nodes [] both = (ok tt, both)
  shutdown_nodes (node ∷ nodes) (s, w) =
      let (sent, w') = send_shutdown node w in
      proceed sent (s, w')
        λ _.
          shutdown_nodes nodes
            (record s { idle_servers = s.idle_servers ++ node ∷ []; active_servers = nodes }, w')

  unfoldable pub shutdown_servers : EcsBoth env → Effect (EcsBoth env) Bool
  unfolding shutdown_nodes
  shutdown_servers (s, w) =
      let (done, both) = shutdown_nodes s.active_servers (s, w) in
      proceed done both λ _. await_or_false env 0 10000 both

  -- A server that agreed: it becomes idle.
  abbrev pub after_shutdown :
      List EcsNode → EcsNode → List EcsNode → EcsBoth env → Effect (EcsBoth env) Bool
  after_shutdown before node later (s, w) =
      await_or_false env (length (before ++ later)) 20000 (
        record s { idle_servers = s.idle_servers ++ node ∷ []; active_servers = before ++ later },
        w,
      )

  -- The loop of shutdown_server, which has passed `before`; a server that does not agree is passed.
  unfoldable pub shutdown_from :
      Text → List EcsNode → List EcsNode → EcsBoth env → Effect (EcsBoth env) Bool
  shutdown_from name before [] both = (ok false, both)
  shutdown_from name before (node ∷ nodes) (s, w) =
      let (reply, w') = ask_server env node.host node.port (plain_request shutdown) w in
      let passed = shutdown_from name (before ++ node ∷ []) nodes (s, w) in
      if text_eq node.name name
      then (proceed reply (s, w')
          λ answer.
            let refused = shutdown_from name (before ++ node ∷ []) nodes (s, w') in
            if is_shutdown_success answer
            then after_shutdown before node nodes (s, w')
            else refused)
      else passed

  unfoldable pub shutdown_server : Text → EcsBoth env → Effect (EcsBoth env) Bool
  unfolding shutdown_from
  shutdown_server name (s, w) = shutdown_from name [] s.active_servers (s, w)
