-- ===== src/Ecs/Commands/Conservation.antt =====
-- No line of the console makes the configuration service forget its servers.
use distributed_storage_with.Base.{
  ℕ, zero, suc, if_keeps, List, [], ◌∷◌, ◌++◌, length, Option, none, some, ltb, nat_eq, Text,
  text_eq, codes, HashOrder, Result, ok, throw, Effect, proceed, arith,
}
use mathlib.Core.List.{Perm}
use mathlib.Core.List.Perm
use distributed_storage_with.Radix.{parse_count}
use distributed_storage_with.Ring.Metadata.{EcsNode, node_addr}
use distributed_storage_with.Tokens.{split_spaces}
use distributed_storage_with.Ecs.{EcsWorld, EcsClient, EcsBoth, start_servers, stop_servers}
use distributed_storage_with.Ecs.Adding.{add_node}
use distributed_storage_with.Ecs.Removing.{remove_node}
use distributed_storage_with.Ecs.Shutting.{shutdown_servers}
use distributed_storage_with.Ecs.Known.{known, ConservesBoth, KeepsKnown, KeepsKnown-Conserves}
use distributed_storage_with.Ecs.Conservation.{
  start_servers-KeepsKnown, stop_servers-KeepsKnown, shutdown_servers-KeepsKnown,
  add_node-Conserves, remove_node-KeepsKnown,
}
use distributed_storage_with.Ecs.Commands.{
  Replied, then_says, add_rounds, add_nodes_command, add_node_command, remove_node_command,
  dispatch, run_tokens, handle_command,
}

module _ (env : EcsWorld) (hash : Text → ℕ) (order : HashOrder) where
  abbrev Fine : EcsClient → Replied env hash order → Type 0
  Fine s r = ConservesBoth env s r

  same : (s : EcsClient) → Perm (known s) (known s)
  same s = Perm.refl (known s)

  proceed_same {ℓ} :
      {A : Type ℓ} (s : EcsClient) (w : env.network.World) (r : Result A)
      (f : A → Replied env hash order)
      → ((a : A) → Fine s (f a))
      → Fine s (proceed r (s, w) f)
  proceed_same s w (ok a) f later = later a
  proceed_same s w (throw e) f later = ([], omega arith, same s)

  then_says-Conserves {ℓ} :
      {A : Type ℓ} (s : EcsClient) (e : Effect (EcsBoth env) A) (f : A → Option Text)
      → ConservesBoth env s e
      → Fine s (then_says env hash order e f)
  then_says-Conserves s (ok a, (t, w)) f p = p
  then_says-Conserves s (throw x, (t, w)) f p = p

  added_then :
      (s t : EcsClient) (e : Effect (EcsBoth env) EcsNode)
      (f : EcsNode → EcsBoth env → Replied env hash order)
      → Perm (known s) (known t)
      → ConservesBoth env t e
      → ((node : EcsNode) (u : EcsClient) (w : env.network.World)
          → Perm (known s) (known u)
          → Fine s (f node (u, w)))
      → Fine s (proceed e.0 e.1 λ node. f node e.1)
  added_then s t (ok node, (u, w)) f p c later = later node u w (Perm.trans p c)
  added_then s t (throw x, (u, w)) f p (lost, few, c) later = (lost, few, Perm.trans p c)

  add_rounds-Conserves :
      (n : ℕ) (addrs : Text) (s t : EcsClient) (w : env.network.World)
      → Perm (known s) (known t)
      → Fine s (add_rounds env hash order n addrs (t, w))
  unfolding add_rounds
  add_rounds-Conserves zero addrs s t w p = p
  add_rounds-Conserves (suc n) addrs s t w p =
      added_then s t (add_node env hash order (t, w))
        (λ node.
          add_rounds env hash order n
            (addrs ++ codes " " ++ node_addr node ++ codes ":" ++ node.name))
        p (add_node-Conserves env hash order t w) λ node u w' q. add_rounds-Conserves n _ s u w' q

  add_nodes_command-Conserves :
      (args : List Text) (s : EcsClient) (w : env.network.World)
      → Fine s (add_nodes_command env hash order args (s, w))
  unfolding add_nodes_command
  add_nodes_command-Conserves [] s w = same s
  add_nodes_command-Conserves (count ∷ []) s w =
      if_keeps (Fine s) (nat_eq (length s.idle_servers) 0) _ _ (λ none_idle. same s)
        λ some_idle. proceed_same s w (parse_count count) _ λ n.
          if_keeps (Fine s) (ltb (length s.idle_servers) n) _ _ (λ few. same s)
            λ enough. add_rounds-Conserves n [] s s w (same s)
  add_nodes_command-Conserves (count ∷ more ∷ rest) s w = same s

  add_node_command-Conserves :
      (args : List Text) (s : EcsClient) (w : env.network.World)
      → Fine s (add_node_command env hash order args (s, w))
  unfolding add_node_command
  add_node_command-Conserves [] s w =
      if_keeps (Fine s) (nat_eq (length s.idle_servers) 0) _ _ (λ none_idle. same s)
        λ some_idle.
          then_says-Conserves s (add_node env hash order (s, w)) _
            (add_node-Conserves env hash order s w)
  add_node_command-Conserves (arg ∷ args) s w = same s

  remove_node_command-Conserves :
      (args : List Text) (s : EcsClient) (w : env.network.World)
      → Fine s (remove_node_command env hash order args (s, w))
  unfolding remove_node_command
  remove_node_command-Conserves [] s w = same s
  remove_node_command-Conserves (name ∷ []) s w =
      if_keeps (Fine s) (nat_eq (length s.active_servers) 0) _ _ (λ none_active. same s)
        λ some_active.
          if_keeps (Fine s) (nat_eq (length s.active_servers) 1) _ _ (λ one_active. same s)
            λ more_active. then_says-Conserves s (remove_node env hash order name (s, w)) _ (
              KeepsKnown-Conserves env s (remove_node env hash order name (s, w))
                (remove_node-KeepsKnown env hash order name s w))
  remove_node_command-Conserves (name ∷ more ∷ rest) s w = same s

  says_kept {ℓ} :
      {A : Type ℓ} (s : EcsClient) (e : Effect (EcsBoth env) A) (f : A → Option Text)
      → KeepsKnown env s e
      → Fine s (then_says env hash order e f)
  says_kept s e f p = then_says-Conserves s e f (KeepsKnown-Conserves env s e p)

  dispatch-Conserves :
      (word : Text) (args : List Text) (s : EcsClient) (w : env.network.World)
      → Fine s (dispatch env hash order word args (s, w))
  unfolding dispatch
  dispatch-Conserves word args s w =
      if_keeps (Fine s) (text_eq word (codes "quit")) _ _ (λ quit. same s)
        λ n1.
          if_keeps (Fine s) (text_eq word (codes "start")) _ _
            (λ started.
              says_kept s (start_servers env (s, w)) _
                (start_servers-KeepsKnown env hash order s w))
            λ n2.
              if_keeps (Fine s) (text_eq word (codes "stop")) _ _
                (λ stopped.
                  says_kept s (stop_servers env (s, w)) _
                    (stop_servers-KeepsKnown env hash order s w))
                λ n3.
                  if_keeps (Fine s) (text_eq word (codes "shutDown")) _ _
                    (λ shut.
                      says_kept s (shutdown_servers env (s, w)) _
                        (shutdown_servers-KeepsKnown env hash order s w))
                    λ n4.
                      if_keeps (Fine s) (text_eq word (codes "addNodes")) _ _
                        (λ add_nodes. add_nodes_command-Conserves args s w)
                        λ n5.
                          if_keeps (Fine s) (text_eq word (codes "addNode")) _ _
                            (λ add_one. add_node_command-Conserves args s w)
                            λ n6.
                              if_keeps (Fine s) (text_eq word (codes "removeNode")) _ _
                                (λ removed. remove_node_command-Conserves args s w)
                                λ n7.
                                  if_keeps (Fine s) (text_eq word (codes "logLevel")) _ _
                                    (λ level. same s)
                                    λ n8.
                                      if_keeps (Fine s) (text_eq word (codes "help")) _ _
                                        (λ help. same s) λ n9. same s

  tokens-Conserves :
      (tokens : List Text) (s : EcsClient) (w : env.network.World)
      → Fine s (run_tokens env hash order tokens (s, w))
  unfolding run_tokens
  tokens-Conserves [] s w = ([], omega arith, same s)
  tokens-Conserves (word ∷ args) s w = dispatch-Conserves word args s w

  -- Whatever line is entered, and whatever the servers, the network and ZooKeeper answer: if
  -- handleCommand returns, the idle and active servers together are those of before, none lost and
  -- none doubled; if it throws, at most one of them is lost.
  pub handle_command-Conserves :
      (line : Option Text) (s : EcsClient) (w : env.network.World)
      → ConservesBoth env s (handle_command env hash order line (s, w))
  unfolding handle_command
  handle_command-Conserves none s w = ([], omega arith, same s)
  handle_command-Conserves (some line) s w = tokens-Conserves (split_spaces line) s w
