-- ===== src/Ecs/Adding.antt =====
-- ECSClient.addNode: an idle server is launched and becomes active.
use distributed_storage_with.Base.{
  ℕ, zero, suc, ◌+◌, Bool, true, false, List, [], ◌∷◌, ◌++◌, length, ltb, Option, none, some,
  if◌then◌else◌, Text, HashOrder, Result, ok, throw, illegal_argument, index_out_of_bounds,
  io_exception, ◌>>=◌, deref, Effect, proceed,
}
use distributed_storage_with.Radix.{parse_port}
use distributed_storage_with.Ring.Range.{split_colon, piece}
use distributed_storage_with.Ring.Metadata.{EcsNode, Metadata, node_addr, calc_metadata}
use distributed_storage_with.Messages.{StatusType, init_server, start, update}
use distributed_storage_with.Ecs.{
  EcsWorld, EcsClient, EcsBoth, admin_request, plain_request, is_update_success, get_node_by_key,
  ask_server, reply_status, await_nodes, or_false,
}

-- list.get(i), and the list without it
unfoldable pub pick : ℕ → List EcsNode → Result (EcsNode × List EcsNode)
pick i [] = throw index_out_of_bounds
pick zero (node ∷ nodes) = ok (node, nodes)
pick (suc i) (node ∷ nodes) = pick i nodes >>= λ r. ok (r.0, node ∷ r.1)

-- succ[0].split(":")[0], and Integer.parseInt(succ[0].split(":")[1])
unfoldable pub host_and_port : Text → Result (Text × ℕ)
host_and_port addr = do
  host ← piece 0 (split_colon addr)
  port ← piece 1 (split_colon addr) >>= parse_port
  ok (host, port)

module _ (env : EcsWorld) (hash : Text → ℕ) (order : HashOrder) where
  open env use {network, launch, random}
  open network use {World, connect, exchange_admin}

  -- UpdateAllNodesMeta: whatever is thrown for a server is caught, and the next one is asked.
  unfoldable pub update_all : Metadata → List EcsNode → World → Bool × World
  update_all metadata [] w = (true, w)
  update_all metadata (node ∷ nodes) w =
      let (reply, w') =
        ask_server env node.host node.port (admin_request none update (some metadata) none) w in
      let (success, w'') = update_all metadata nodes w' in
      (
        elim reply [
          | ok answer ↦ if is_update_success answer then success else false
          | throw e ↦ false
        ],
        w'',
      )

  -- INIT_SERVER and START on one connection; everything thrown is caught, and the replies are only
  -- printed.
  unfoldable pub init_and_start : Metadata → EcsNode → World → World
  init_and_start metadata node w =
      let (connected, w1) = connect node.host node.port w in
      let (first, w2) =
        reply_status env node.host node.port
          (admin_request none init_server (some metadata) (some node.name)) w1 in
      let (second, w3) = reply_status env node.host node.port (plain_request start) w2 in
      elim connected [ throw e ↦ w1 | ok _ ↦ elim first [ throw e ↦ w2 | ok _ ↦ w3 ] ]

  -- newNode[1], where newNode may be null
  abbrev pub range_of : Result (Option (Text × Text)) → Result Text
  range_of found = found >>= deref >>= λ info. ok info.1

  -- The request to the successor, on a connection.
  unfoldable pub request_move : Metadata → EcsNode → Text → ℕ → World → Effect World (Unit {0})
  request_move metadata node host port w =
      proceed (range_of (get_node_by_key hash order metadata (node_addr node))) w λ range.
        let (reply, w') =
          reply_status env host port
            (admin_request (some (node_addr node)) StatusType.move_data none (some range)) w in
        (reply >>= λ _. ok tt, w')

  unfoldable pub move_to_new :
      Metadata → EcsNode → Option (Text × Text) → World → Effect World (Unit {0})
  unfolding request_move
  move_to_new metadata node succ w = proceed (deref succ >>= λ info. host_and_port info.0) w λ addr.
      let (connected, w') = connect addr.0 addr.1 w in
      proceed connected w' λ _. request_move metadata node addr.0 addr.1 w'

  -- catch (IOException e)
  abbrev pub caught_io : Effect World (Unit {0}) → Effect World (Unit {0})
  caught_io (throw io_exception, w) = (ok tt, w)
  caught_io r = r

  -- activeServers.add(node), UpdateAllNodesMeta()
  unfoldable pub activate : EcsNode → EcsBoth env → Effect (EcsBoth env) EcsNode
  unfolding update_all
  activate node (s, w) =
      let active = s.active_servers ++ node ∷ [] in
      let (success, w') = update_all s.metadata active w in
      (ok node, (record s { active_servers = active }, w'))

  -- From the search for the successor on; `node` is no longer idle. The successor is null if no server
  -- is active.
  unfoldable pub join_ring : EcsNode → EcsBoth env → Effect (EcsBoth env) EcsNode
  unfolding activate init_and_start move_to_new
  join_ring node (s, w) =
      let metadata = calc_metadata hash (s.active_servers ++ node ∷ []) in
      let s' : EcsClient = record s { metadata = metadata } in
      let w1 = init_and_start metadata node w in
      if ltb 0 (length s.active_servers)
      then (proceed (get_node_by_key hash order s.metadata (node_addr node)) (s, w)
          λ succ.
            let (moved, w2) = caught_io (move_to_new metadata node succ w1) in
            proceed moved (s', w2) λ _. activate node (s', w2))
      else activate node (s', w1)

  -- nextInt(0) throws. Whether the server checked in is only printed.
  unfoldable pub add_picked :
      Result (EcsNode × List EcsNode) → EcsBoth env → Effect (EcsBoth env) EcsNode
  unfolding join_ring
  add_picked picked (s, w) =
      proceed picked (s, w)
        λ r.
          let (checked_in, w') =
            or_false env (await_nodes env (length s.active_servers + 1) 10000 (launch r.0 w)) in
          join_ring r.0 (record s { idle_servers = r.1 }, w')

  unfoldable pub add_node : EcsBoth env → Effect (EcsBoth env) EcsNode
  unfolding add_picked pick
  add_node (s, w) =
      let (r, w') = random (length s.idle_servers) w in
      if ltb 0 (length s.idle_servers)
      then add_picked (pick r s.idle_servers) (s, w')
      else (throw illegal_argument, (s, w))
