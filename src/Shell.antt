-- ===== src/Shell.antt =====
-- The command line of a client (src/app_kvClient/KVClient.java).
pub mod Puts
use distributed_storage_with.Base.{
  ℕ, Bool, true, false, List, [], ◌∷◌, ◌++◌, Option, none, some, if◌then◌else◌, Text, text_eq,
  codes, contains, HashOrder, Result, ok, throw, Exception, null_pointer, index_out_of_bounds,
  number_format, io_exception, ◌>>=◌, deref, Effect, proceed,
}
use distributed_storage_with.Radix.{parse_port}
use distributed_storage_with.Tokens.{split_spaces, levels}
use distributed_storage_with.Messages.{
  StatusType, KvMsg, put_error, put_update, delete_error, server_stopped, server_write_lock,
}
use distributed_storage_with.Network.{Network}
use distributed_storage_with.Client.{
  Client, new_client, disconnect, client_connect, client_put, client_get,
}

-- The fields of KVClient; `subscriber` is the flag `running` of the last subscriber.
pub record Shell : Type 0 where
  pub running : Bool
  pub stopped : Bool
  pub store : Option Client
  pub subscribed : Bool
  pub subscriber : Option Bool
  pub server_address : Text
  pub server_port : ℕ

abbrev pub put_report : Option StatusType → Text
put_report (some put_error) = codes "PUT ERROR"
put_report (some put_update) = codes "PUT UPDATE"
put_report (some server_stopped) = codes "SERVER_STOPPED"
put_report (some server_write_lock) = codes "SERVER_WRITE_LOCK"
put_report _ = codes "PUT SUCCESS"

abbrev pub delete_report : Option StatusType → Text
delete_report (some delete_error) = codes "DELETE ERROR"
delete_report (some server_stopped) = codes "SERVER_STOPPED"
delete_report (some server_write_lock) = codes "SERVER_WRITE_LOCK"
delete_report _ = codes "DELETE SUCCESS"

abbrev value_report : Option Text → Text
value_report none = codes "GET ERROR - no corresponding value"
value_report (some value) = value

abbrev pub get_report : Option StatusType → Option Text → Text
get_report (some server_stopped) value = codes "SERVER_STOPPED"
get_report _ value = value_report value

-- The loop over the tokens of a value.
unfoldable pub join_tokens : Text → List Text → Text
join_tokens value [] = value
join_tokens value (token ∷ tokens) = join_tokens (value ++ codes " " ++ token) tokens

abbrev wrong_count : Text
wrong_count = codes "Invalid number of parameters!"

abbrev pub not_connected : Text
not_connected = codes "ERROR: Not connected to server"

-- The level itself is the logger's.
level_report : List Text → Text
level_report (level ∷ []) =
    if contains level levels
    then codes "KVClient> Log level changed to level " ++ level
    else codes "No valid log level!"
level_report _ = wrong_count

-- `unknown_host` tells of a host that cannot be connected to whether its name is unknown.
module _ (hash : Text → ℕ) (order : HashOrder) (network : Network)
    (unknown_host : Text → Bool) where
  open network use {World}

  abbrev pub ShellBoth : Type 0
  ShellBoth = Shell × World

  -- `none` as the text is null; `none` as the whole means that the fuel of put or get ran out.
  abbrev pub Answer : Type 0
  Answer = Effect ShellBoth (Option Text)

  abbrev pub tells : Text → ShellBoth → Answer
  tells reply both = (ok (some reply), both)

  abbrev reported : Shell → (KvMsg → Text) → Effect (Client × World) KvMsg → Answer
  reported s report (r, (c, w)) =
      (r >>= λ m. ok (some (report m)), (record s { store = some c }, w))

  abbrev pub with_store :
      (Client × World → Option (Effect (Client × World) KvMsg))
      → (KvMsg → Text)
      → ShellBoth
      → Option Answer
  with_store f report (s, w) = elim s.store [
    | none ↦ some (throw null_pointer, (s, w))
    | some c ↦ elim (f (c, w)) [ none ↦ none | some e ↦ some (reported s report e) ]
  ]

  unfoldable pub put_value : ℕ → Text → Text → ShellBoth → Option Answer
  put_value fuel key value =
      with_store (client_put hash order network fuel key (some value)) λ m. put_report m.status

  unfoldable pub delete_key : ℕ → Text → ShellBoth → Option Answer
  delete_key fuel key =
      with_store (client_put hash order network fuel key none) λ m. delete_report m.status

  -- "put": a key alone, or with the value null, is deleted.
  unfoldable pub put_command : ℕ → List Text → ShellBoth → Option Answer
  unfolding put_value delete_key join_tokens
  put_command fuel [] both = some (tells wrong_count both)
  put_command fuel (key ∷ []) both = delete_key fuel key both
  put_command fuel (key ∷ value ∷ []) both =
      if text_eq value (codes "null")
      then delete_key fuel key both
      else put_value fuel key value both
  put_command fuel (key ∷ value ∷ token ∷ tokens) both =
      put_value fuel key (join_tokens value (token ∷ tokens)) both

  unfoldable pub get_command : ℕ → List Text → ShellBoth → Option Answer
  get_command fuel (key ∷ []) both =
      with_store (client_get hash order network fuel key) (λ m. get_report m.status m.value) both
  get_command fuel _ both = some (tells wrong_count both)

  abbrev no_address : Text
  no_address = codes "No valid address. Port must be a number!"

  abbrev connect_report : Text → Text → Result (Unit {0}) → ShellBoth → Answer
  connect_report host port (ok _) both =
      tells (codes "Connected to server " ++ host ++ codes " at port " ++ port) both
  connect_report host port (throw number_format) both = tells no_address both
  connect_report host port (throw io_exception) both =
      tells
        (if unknown_host host
          then codes "Unknown Host!"
          else codes "Could not establish connection!")
        both
  connect_report host port (throw e) both = (throw e, both)

  -- newConnection, store.connect
  unfoldable pub new_connection : Text → Text → ℕ → ShellBoth → Answer
  new_connection host token port (s, w) =
      let (r, (c, w')) = client_connect hash order network (new_client host port, w) in
      connect_report host token r
        (record s { server_port = port; store = some c; running = true }, w')

  unfoldable pub connect_command : List Text → ShellBoth → Answer
  unfolding new_connection
  connect_command (host ∷ port ∷ []) (s, w) =
      let s' : Shell = record s { server_address = host } in
      elim (parse_port port) [
        | ok n ↦ new_connection host port n (s', w)
        | throw e ↦ connect_report host port (throw e) (s', w)
      ]
  connect_command _ both = tells wrong_count both

  -- store.disconnect()
  abbrev store_closed : Shell → Result Shell
  store_closed s = deref s.store >>= λ c. ok (record s { store = some (disconnect c) })

  quit_command : ShellBoth → Answer
  quit_command (s, w) =
      let s' : Shell = record s { stopped = true } in
      if s.running
      then (proceed (store_closed s') (s', w) λ s''. tells (codes "Application exit") (s'', w))
      else tells (codes "Application exit") (s', w)

  disconnect_command : ShellBoth → Answer
  disconnect_command (s, w) =
      if s.running
      then (proceed (store_closed s) (s, w)
          λ s'. tells (codes "Disconnected from server") (record s' { running = false }, w))
      else tells not_connected (s, w)

  subscribe_command : ShellBoth → Answer
  subscribe_command (s, w) =
      if s.subscribed
      then tells (codes "already subscribed") (s, w)
      else tells (codes "subscribed") (record s { subscribed = true; subscriber = some true }, w)

  unsubscribe_command : ShellBoth → Answer
  unsubscribe_command (s, w) =
      if s.subscribed
      then tells (codes "unsubscribed")
          (record s { subscribed = false; subscriber = some false }, w)
      else tells (codes "not subscribed") (s, w)

  abbrev if_running :
      (List Text → ShellBoth → Option Answer) → List Text → ShellBoth → Option Answer
  if_running f args (s, w) = if s.running then f args (s, w) else some (tells not_connected (s, w))

  -- The first of the tests on tokens[0] that holds.
  unfoldable pub obey : ℕ → Text → List Text → ShellBoth → Option Answer
  unfolding put_command get_command connect_command quit_command disconnect_command
      subscribe_command unsubscribe_command level_report
  obey fuel word args both =
      if text_eq word (codes "quit")
      then some (quit_command both)
      else if text_eq word (codes "connect")
      then some (connect_command args both)
      else if text_eq word (codes "disconnect")
      then some (disconnect_command both)
      else if text_eq word (codes "subscribe")
      then some (subscribe_command both)
      else if text_eq word (codes "unsubscribe")
      then some (unsubscribe_command both)
      else if text_eq word (codes "put")
      then if_running (put_command fuel) args both
      else if text_eq word (codes "get")
      then if_running (get_command fuel) args both
      else if text_eq word (codes "logLevel")
      then some (tells (level_report args) both)
      else if text_eq word (codes "help")
      then some (ok none, both)
      else some (tells (codes "Unknown command") both)

  -- A line of spaces only has no tokens[0].
  unfoldable pub obey_tokens : ℕ → List Text → ShellBoth → Option Answer
  unfolding obey
  obey_tokens fuel [] both = some (throw index_out_of_bounds, both)
  obey_tokens fuel (word ∷ args) both = obey fuel word args both

  -- The line is null at the end of the input.
  unfoldable pub obey_line : ℕ → Option Text → ShellBoth → Option Answer
  unfolding obey_tokens
  obey_line fuel none both = some (throw null_pointer, both)
  obey_line fuel (some line) both = obey_tokens fuel (split_spaces line) both
