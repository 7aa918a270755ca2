-- ===== src/Ecs/Removing.antt =====
-- ECSClient.removeNode: an active server hands its range to its successor and is shut down.
use distributed_storage_with.Base.{
  ℕ, Bool, true, false, List, [], ◌∷◌, ◌++◌, none, some, if◌then◌else◌, Text, text_eq, HashOrder,
  Result, ok, ◌>>=◌, deref, Effect, proceed,
}
use distributed_storage_with.Ring.Metadata.{EcsNode, Metadata, addr_port, node_addr, calc_metadata}
use distributed_storage_with.Messages.{StatusType, update}
use distributed_storage_with.Ecs.{
  EcsWorld, EcsClient, EcsBoth, admin_request, get_node_by_key, ask_server, reply_status,
}
use distributed_storage_with.Ecs.Adding.{host_and_port, range_of, update_all}
use distributed_storage_with.Ecs.Shutting.{shutdown_server}

module _ (env : EcsWorld) (hash : Text → ℕ) (order : HashOrder) where
  open env use {network}
  open network use {World, connect}

  -- What follows MOVE_DATA in the same block.
  unfoldable pub update_and_shut : Text → EcsBoth env → Effect (EcsBoth env) Bool
  update_and_shut name (s, w) =
      let (success, w') = update_all env hash order s.metadata s.active_servers w in
      shutdown_server env name (s, w')

  -- The second block: MOVE_DATA, to the node that is removed.
  unfoldable pub hand_over_range :
      EcsNode → Text → ℕ → Text → EcsBoth env → Effect (EcsBoth env) Bool
  unfolding update_and_shut
  hand_over_range node succ_host succ_port range (s, w) =
      let (connected, w1) = connect node.host node.port w in
      proceed connected (s, w1)
        λ _.
          let (reply, w2) =
            reply_status env node.host node.port
              (admin_request (some (addr_port succ_host succ_port)) StatusType.move_data none
                (some range))
              w1 in
          proceed reply (s, w2) λ _. update_and_shut node.name (s, w2)

  -- Whatever is thrown in the two blocks is caught.
  unfoldable pub leave_ring : EcsNode → Text → ℕ → Text → EcsBoth env → Effect (EcsBoth env) Bool
  unfolding hand_over_range
  leave_ring node succ_host succ_port range (s, w) =
      let (updated, w') =
        ask_server env succ_host succ_port (admin_request none update (some s.metadata) none) w in
      (ok true, (hand_over_range node succ_host succ_port range (s, w')).1)

  -- getNodeByKey, succhost and succport
  abbrev pub successor : Metadata → EcsNode → Result (Text × ℕ)
  successor metadata node =
      get_node_by_key hash order metadata (node_addr node) >>= deref >>= λ info.
      host_and_port info.0

  -- The body for the node that was found; `others` are the active servers without it. The successor
  -- is looked up in the metadata of the others; if it is null the next line throws.
  unfoldable pub remove_found : EcsNode → List EcsNode → EcsBoth env → Effect (EcsBoth env) Bool
  unfolding leave_ring
  remove_found node others (s, w) =
      proceed (range_of env hash order (get_node_by_key hash order s.metadata (node_addr node)))
        (s, w)
        λ range.
          let s' : EcsClient = record s { metadata = calc_metadata hash others } in
          proceed (successor s'.metadata node) (s', w)
            λ succ. leave_ring node succ.0 succ.1 range (s', w)

  unfoldable pub remove_from :
      Text → List EcsNode → List EcsNode → EcsBoth env → Effect (EcsBoth env) Bool
  unfolding remove_found
  remove_from name before [] both = (ok false, both)
  remove_from name before (node ∷ nodes) both =
      let passed = remove_from name (before ++ node ∷ []) nodes both in
      if text_eq node.name name then remove_found node (before ++ nodes) both else passed

  unfoldable pub remove_node : Text → EcsBoth env → Effect (EcsBoth env) Bool
  unfolding remove_from
  remove_node name (s, w) = remove_from name [] s.active_servers (s, w)
