-- ===== src/Ecs/Conservation.antt =====
-- What becomes of the servers that the configuration service knows: a command moves them between the
-- idle and the active ones.
use distributed_storage_with.Base.{
  ℕ, zero, suc, ◌≡◌, refl, sym, subst, ◌∙◌, if_keeps, List, [], ◌∷◌, ◌++◌, length, ltb, none, some,
  Text, text_eq, HashOrder, Result, ok, throw, ◌>>=◌, arith,
}
use mathlib.Core.List.{Perm, append_assoc, append-nil, perm_middle}
use mathlib.Core.List.Perm
use distributed_storage_with.Ring.Metadata.{EcsNode, addr_port, node_addr, calc_metadata}
use distributed_storage_with.Messages.{StatusType, shutdown}
use distributed_storage_with.Ecs.{
  EcsWorld, EcsClient, plain_request, admin_request, reply_status, get_node_by_key,
  is_shutdown_success, ask_server, start_servers, stop_servers,
}
use distributed_storage_with.Ecs.Shutting.{
  shutdown_nodes, shutdown_servers, shutdown_from, shutdown_server, send_shutdown,
}
use distributed_storage_with.Ecs.Adding.{
  pick, activate, join_ring, init_and_start, move_to_new, caught_io, range_of, add_picked, add_node,
}
use distributed_storage_with.Ecs.Removing.{
  successor, update_and_shut, hand_over_range, leave_ring, remove_found, remove_from, remove_node,
}
use distributed_storage_with.Ecs.Known.{
  known, ConservesBoth, KeepsKnown, proceed-KeepsKnown, proceed_pending, after-KeepsKnown,
}

-- The picked one, and the others.
abbrev IsPicked : List EcsNode → Result (EcsNode × List EcsNode) → Type 0
IsPicked nodes (ok (node, rest)) = Perm nodes (node ∷ rest)
IsPicked nodes (throw e) = Unit

pick_past :
    (n : EcsNode) (nodes : List EcsNode) (r : Result (EcsNode × List EcsNode))
    → IsPicked nodes r
    → IsPicked (n ∷ nodes) (r >>= λ q. ok (q.0, n ∷ q.1))
pick_past n nodes (ok (node, rest)) p = Perm.trans (Perm.cons n p) (Perm.swap node n rest)
pick_past n nodes (throw e) p = tt

pick-IsPicked : (i : ℕ) (nodes : List EcsNode) → IsPicked nodes (pick i nodes)
unfolding pick
pick-IsPicked i [] = tt
pick-IsPicked zero (n ∷ nodes) = Perm.refl (n ∷ nodes)
pick-IsPicked (suc i) (n ∷ nodes) = pick_past n nodes (pick i nodes) (pick-IsPicked i nodes)

module _ (env : EcsWorld) (hash : Text → ℕ) (order : HashOrder) where
  pub start_servers-KeepsKnown :
      (s : EcsClient) (w : env.network.World) → KeepsKnown env s (start_servers env (s, w))
  unfolding start_servers
  start_servers-KeepsKnown s w = Perm.refl (known s)

  pub stop_servers-KeepsKnown :
      (s : EcsClient) (w : env.network.World) → KeepsKnown env s (stop_servers env (s, w))
  unfolding stop_servers
  stop_servers-KeepsKnown s w = Perm.refl (known s)

  become_idle :
      (before nodes : List EcsNode) (node : EcsNode) (s : EcsClient)
      → s.active_servers ≡ before ++ node ∷ nodes
      → Perm (known s) ((s.idle_servers ++ node ∷ []) ++ (before ++ nodes))
  become_idle before nodes node s e =
      subst (λ l. Perm (s.idle_servers ++ l) ((s.idle_servers ++ node ∷ []) ++ (before ++ nodes)))
        (sym e) (rw append_assoc (Perm.append_left s.idle_servers (perm_middle before nodes)))

  shutdown_nodes-KeepsKnown :
      (nodes : List EcsNode) (s : EcsClient) (w : env.network.World)
      → s.active_servers ≡ nodes
      → KeepsKnown env s (shutdown_nodes env nodes (s, w))
  unfolding shutdown_nodes
  shutdown_nodes-KeepsKnown [] s w e = Perm.refl (known s)
  shutdown_nodes-KeepsKnown (node ∷ nodes) s w e =
      let s' : EcsClient = record s {
        idle_servers = s.idle_servers ++ node ∷ [];
        active_servers = nodes;
      } in
      let (sent, w') = send_shutdown env node w in
      proceed-KeepsKnown env s s w' sent _ (Perm.refl (known s)) λ a eq.
        Perm.trans (become_idle [] nodes node s e) (shutdown_nodes-KeepsKnown nodes s' w' refl)

  pub shutdown_servers-KeepsKnown :
      (s : EcsClient) (w : env.network.World) → KeepsKnown env s (shutdown_servers env (s, w))
  unfolding shutdown_servers
  shutdown_servers-KeepsKnown s w =
      after-KeepsKnown env s (shutdown_nodes env s.active_servers (s, w)) _
        (shutdown_nodes-KeepsKnown s.active_servers s w refl) λ a p. p

  shutdown_from-KeepsKnown :
      (name : Text) (before nodes : List EcsNode) (s : EcsClient) (w : env.network.World)
      → s.active_servers ≡ before ++ nodes
      → KeepsKnown env s (shutdown_from env name before nodes (s, w))
  unfolding shutdown_from
  shutdown_from-KeepsKnown name before [] s w e = Perm.refl (known s)
  shutdown_from-KeepsKnown name before (node ∷ nodes) s w e =
      let (reply, w') = ask_server env node.host node.port (plain_request shutdown) w in
      let e' : s.active_servers ≡ (before ++ node ∷ []) ++ nodes =
        e ∙ sym (append_assoc before (node ∷ []) nodes) in
      if_keeps (KeepsKnown env s) (text_eq node.name name) _ _
        (λ found. proceed-KeepsKnown env s s w' reply _ (Perm.refl (known s)) λ answer eq.
          if_keeps (KeepsKnown env s) (is_shutdown_success answer) _ _
            (λ agreed. become_idle before nodes node s e)
            λ refused. shutdown_from-KeepsKnown name (before ++ node ∷ []) nodes s w' e')
        λ other. shutdown_from-KeepsKnown name (before ++ node ∷ []) nodes s w e'

  activate-Conserves :
      (node : EcsNode) (s t : EcsClient) (w : env.network.World)
      → Perm (known s) (node ∷ known t)
      → ConservesBoth env s (activate env hash order node (t, w))
  unfolding activate
  activate-Conserves node s t w p = Perm.trans p (
      subst (λ l. Perm (node ∷ known t) l)
        (append_assoc t.idle_servers t.active_servers (node ∷ []))
        (Perm.symm (
          subst (λ l. Perm (known t ++ node ∷ []) (node ∷ l)) (append-nil (known t))
            (perm_middle (known t) []))))

  join_ring-Conserves :
      (node : EcsNode) (s t : EcsClient) (w : env.network.World)
      → Perm (known s) (node ∷ known t)
      → ConservesBoth env s (join_ring env hash order node (t, w))
  unfolding join_ring
  join_ring-Conserves node s t w p =
      let metadata = calc_metadata hash (t.active_servers ++ node ∷ []) in
      let t' : EcsClient = record t { metadata = metadata } in
      let w1 = init_and_start env hash order metadata node w in
      if_keeps (ConservesBoth env s) (ltb 0 (length t.active_servers)) _ _
        (λ others.
          proceed_pending env node s t w (get_node_by_key hash order t.metadata (node_addr node)) _
            p
            λ succ eq.
              let (moved, w2) =
                caught_io env hash order (move_to_new env hash order metadata node succ w1) in
              proceed_pending env node s t' w2 moved _ p λ a eq'. activate-Conserves node s t' w2 p)
        λ first. activate-Conserves node s t' w1 p

  add_picked-Conserves :
      (picked : Result (EcsNode × List EcsNode)) (s : EcsClient) (w : env.network.World)
      → IsPicked s.idle_servers picked
      → ConservesBoth env s (add_picked env hash order picked (s, w))
  unfolding add_picked
  add_picked-Conserves (throw e) s w p = ([], omega arith, Perm.refl (known s))
  add_picked-Conserves (ok (node, rest)) s w p =
      join_ring-Conserves node s (record s { idle_servers = rest }) _
        (Perm.append_right s.active_servers p)

  pub add_node-Conserves :
      (s : EcsClient) (w : env.network.World) → ConservesBoth env s (add_node env hash order (s, w))
  unfolding add_node
  add_node-Conserves s w =
      let (r, w') = env.random (length s.idle_servers) w in
      if_keeps (ConservesBoth env s) (ltb 0 (length s.idle_servers)) _ _
        (λ some_idle.
          add_picked-Conserves (pick r s.idle_servers) s w' (pick-IsPicked r s.idle_servers))
        λ none_idle. ([], omega arith, Perm.refl (known s))

  hand_over_range-KeepsKnown :
      (node : EcsNode) (host : Text) (port : ℕ) (range : Text) (s : EcsClient)
      (w : env.network.World)
      → KeepsKnown env s (hand_over_range env hash order node host port range (s, w))
  unfolding hand_over_range update_and_shut shutdown_server
  hand_over_range-KeepsKnown node host port range s w =
      let (connected, w1) = env.network.connect node.host node.port w in
      let (reply, w2) =
        reply_status env node.host node.port
          (admin_request (some (addr_port host port)) StatusType.move_data none (some range)) w1 in
      proceed-KeepsKnown env s s w1 connected _ (Perm.refl (known s)) λ a eq.
        proceed-KeepsKnown env s s w2 reply _ (Perm.refl (known s))
          λ b eq'. shutdown_from-KeepsKnown node.name [] s.active_servers s _ refl

  remove_found-KeepsKnown :
      (node : EcsNode) (others : List EcsNode) (s : EcsClient) (w : env.network.World)
      → KeepsKnown env s (remove_found env hash order node others (s, w))
  unfolding remove_found leave_ring
  remove_found-KeepsKnown node others s w =
      let s' : EcsClient = record s { metadata = calc_metadata hash others } in
      proceed-KeepsKnown env s s w
        (range_of env hash order (get_node_by_key hash order s.metadata (node_addr node))) _
        (Perm.refl (known s))
        λ range eq.
          proceed-KeepsKnown env s s' w (successor env hash order s'.metadata node) _
            (Perm.refl (known s))
            λ succ eq'. hand_over_range-KeepsKnown node succ.0 succ.1 range s' _

  remove_from-KeepsKnown :
      (name : Text) (before nodes : List EcsNode) (s : EcsClient) (w : env.network.World)
      → KeepsKnown env s (remove_from env hash order name before nodes (s, w))
  unfolding remove_from
  remove_from-KeepsKnown name before [] s w = Perm.refl (known s)
  remove_from-KeepsKnown name before (node ∷ nodes) s w =
      if_keeps (KeepsKnown env s) (text_eq node.name name) _ _
        (λ found. remove_found-KeepsKnown node (before ++ nodes) s w)
        λ other. remove_from-KeepsKnown name (before ++ node ∷ []) nodes s w

  pub remove_node-KeepsKnown :
      (name : Text) (s : EcsClient) (w : env.network.World)
      → KeepsKnown env s (remove_node env hash order name (s, w))
  unfolding remove_node
  remove_node-KeepsKnown name s w = remove_from-KeepsKnown name [] s.active_servers s w
