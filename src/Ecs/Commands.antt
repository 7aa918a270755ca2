-- ===== src/Ecs/Commands.antt =====
-- ECSClient.handleCommand: a line of the console, and the reply to it.
pub mod Conservation
use distributed_storage_with.Base.{
  ℕ, zero, suc, Bool, true, false, List, [], ◌∷◌, ◌++◌, length, Option, none, some, if◌then◌else◌,
  ltb, nat_eq, Text, text_eq, codes, contains, HashOrder, Result, ok, throw, null_pointer,
  index_out_of_bounds, ◌>>=◌, Effect, proceed,
}
use distributed_storage_with.Radix.{natural_to_string, parse_count}
use distributed_storage_with.Ring.Range.{piece}
use distributed_storage_with.Tokens.{split_spaces, levels}
use distributed_storage_with.Ring.Metadata.{EcsNode, node_addr}
use distributed_storage_with.Ecs.{EcsWorld, EcsClient, EcsBoth, start_servers, stop_servers}
use distributed_storage_with.Ecs.Shutting.{shutdown_servers}
use distributed_storage_with.Ecs.Adding.{add_node}
use distributed_storage_with.Ecs.Removing.{remove_node}

abbrev prompt : Text
prompt = codes "ECSClient> "

abbrev wrong_number : Text
wrong_number = codes "Invalid number of parameters!"

-- The level itself is the logger's.
log_level : List Text → Text
log_level (level ∷ []) =
    if contains level levels
    then prompt ++ codes "Log level changed to level " ++ level
    else codes "No valid log level!"
log_level _ = wrong_number

added_node : EcsNode → Text
unfolding node_addr
added_node node = codes "Added node " ++ node.name ++ codes " at " ++ node_addr node

module _ (env : EcsWorld) (hash : Text → ℕ) (order : HashOrder) where
  -- A reply; `none` is null.
  abbrev pub Replied : Type 0
  Replied = Effect (EcsBoth env) (Option Text)

  abbrev says : Text → EcsBoth env → Replied
  says reply both = (ok (some reply), both)

  abbrev pub then_says {ℓ} : {A : Type ℓ} → Effect (EcsBoth env) A → (A → Option Text) → Replied
  then_says (r, both) f = (r >>= λ a. ok (f a), both)

  -- "All activated servers " or "Not all activated servers "
  abbrev all_or_not : Text → Bool → Option Text
  all_or_not word true = some (codes "All activated servers " ++ word)
  all_or_not word false = some (codes "Not all activated servers " ++ word)

  -- `addrs` is the text that the loop has built.
  unfoldable pub add_rounds : ℕ → Text → EcsBoth env → Replied
  add_rounds zero addrs both = says addrs both
  add_rounds (suc n) addrs both =
      let (added, both') = add_node env hash order both in
      proceed added both'
        λ node. add_rounds n (addrs ++ codes " " ++ node_addr node ++ codes ":" ++ node.name) both'

  unfoldable pub add_nodes_command : List Text → EcsBoth env → Replied
  unfolding add_rounds
  add_nodes_command (count ∷ []) (s, w) =
      if nat_eq (length s.idle_servers) 0
      then says (codes "No servers available!") (s, w)
      else proceed (parse_count count) (s, w)
          λ n.
            if ltb (length s.idle_servers) n
            then says
                (codes "Not enough servers available! "
                  ++ natural_to_string 10 (length s.idle_servers)
                  ++ codes " servers available.")
                (s, w)
            else add_rounds n [] (s, w)
  add_nodes_command _ both = says wrong_number both

  unfoldable pub add_node_command : List Text → EcsBoth env → Replied
  unfolding added_node
  add_node_command [] (s, w) =
      if nat_eq (length s.idle_servers) 0
      then says (codes "No servers available!") (s, w)
      else then_says (add_node env hash order (s, w)) λ node. some (added_node node)
  add_node_command _ both = says wrong_number both

  unfoldable pub remove_node_command : List Text → EcsBoth env → Replied
  remove_node_command (name ∷ []) (s, w) =
      if nat_eq (length s.active_servers) 0
      then says (codes "No servers running!") (s, w)
      else if nat_eq (length s.active_servers) 1
      then says (codes "Only one server running, run 'shutDown' to close the last node") (s, w)
      else then_says (remove_node env hash order name (s, w)) λ success. some (codes "start")
  remove_node_command _ both = says wrong_number both

  -- The first of the tests on tokens[0] that holds.
  unfoldable pub dispatch : Text → List Text → EcsBoth env → Replied
  unfolding add_nodes_command add_node_command remove_node_command log_level
  dispatch word args (s, w) =
      if text_eq word (codes "quit")
      then says (codes "Application exit") (record s { stopped = true }, w)
      else if text_eq word (codes "start")
      then then_says (start_servers env (s, w)) (all_or_not (codes "started"))
      else if text_eq word (codes "stop")
      then then_says (stop_servers env (s, w)) (all_or_not (codes "stopped"))
      else if text_eq word (codes "shutDown")
      then then_says (shutdown_servers env (s, w)) (all_or_not (codes "shut down"))
      else if text_eq word (codes "addNodes")
      then add_nodes_command args (s, w)
      else if text_eq word (codes "addNode")
      then add_node_command args (s, w)
      else if text_eq word (codes "removeNode")
      then remove_node_command args (s, w)
      else if text_eq word (codes "logLevel")
      then says (log_level args) (s, w)
      else if text_eq word (codes "help")
      then (ok none, (s, w))
      else says (codes "Unknown command") (s, w)

  -- A line of spaces only has no tokens[0].
  unfoldable pub run_tokens : List Text → EcsBoth env → Replied
  unfolding dispatch
  run_tokens [] both = (throw index_out_of_bounds, both)
  run_tokens (word ∷ args) both = dispatch word args both

  -- The line is null at the end of the input.
  unfoldable pub handle_command : Option Text → EcsBoth env → Replied
  unfolding run_tokens
  handle_command none both = (throw null_pointer, both)
  handle_command (some line) both = run_tokens (split_spaces line) both
