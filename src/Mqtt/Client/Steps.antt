-- ===== src/Mqtt/Client/Steps.antt =====
-- The client as a transition system: what the application, the socket and the timers do to it, in any
-- order.
use distributed_storage_with.Base.{ℕ, ◌≡◌, refl, ◌≢◌, Bool, true, List, none, some, Text, Dict}
use distributed_storage_with.Mqtt.Message.{Message}
use distributed_storage_with.Mqtt.Wire.{Number, WireMessage}
use distributed_storage_with.Mqtt.Client.{
  ClientImpl, ConnectOptions, connecting, open_state, closed_state, StoredMessage,
}
use distributed_storage_with.Mqtt.Client.Storing.{new_client_impl}
use distributed_storage_with.Mqtt.Client.Requests.{
  RequestOptions, connect_client, subscribe_client, unsubscribe_client, send_client,
  disconnect_client,
}
use distributed_storage_with.Mqtt.Client.Welcome.{on_socket_open}
use distributed_storage_with.Mqtt.Client.Receiving.{on_socket_message}
use distributed_storage_with.Mqtt.Client.Timers.{
  on_socket_error, on_socket_close, on_connect_timeout, on_send_ping, on_receive_ping,
}
use distributed_storage_with.Mqtt.Client.Sound.{Sound, disconnected-Sound, present}
use distributed_storage_with.Mqtt.Client.Calls.{
  connect_client-Sound, subscribe_client-Sound, unsubscribe_client-Sound, send_client-Sound,
  disconnect_client-Sound, on_socket_open-Sound, on_send_ping-Sound, on_receive_ping-Sound,
  new_client_impl-Sound,
}
use distributed_storage_with.Mqtt.Client.Packets.{on_socket_message-Sound}

-- The application may call what it wants, whether the call throws or not, and set its functions. A
-- socket opens once, receives while it is open, and may fail or close at any time; a timer may run out
-- only while it runs.
pub data Step (order : Dict Number WireMessage → List (Number × WireMessage))
    : ClientImpl → ClientImpl → Type 0 where
  connects : (options : ConnectOptions) (c : ClientImpl) → Step order c (connect_client options c).1
  subscribes :
      (filter : Text) (options : RequestOptions) (c : ClientImpl)
      → Step order c (subscribe_client filter options c).1
  unsubscribes :
      (filter : Text) (options : RequestOptions) (c : ClientImpl)
      → Step order c (unsubscribe_client filter options c).1
  sends : (message : Message) (c : ClientImpl) → Step order c (send_client message c).1
  disconnects : (c : ClientImpl) → Step order c (disconnect_client c).1
  sets :
      (lost delivered arrived : Bool) (c : ClientImpl)
      → Step order c (record c {
        on_connection_lost = lost;
        on_message_delivered = delivered;
        on_message_arrived = arrived;
      })
  opens : (c : ClientImpl) → c.socket ≡ some connecting → Step order c (on_socket_open c).1
  receives :
      (bytes : List ℕ) (c : ClientImpl)
      → c.socket ≡ some open_state
      → Step order c (on_socket_message order bytes c).1
  fails : (c : ClientImpl) → c.socket ≢ none → Step order c (on_socket_error c).1
  closing :
      (c : ClientImpl)
      → c.socket ≡ some open_state
      → Step order c (record c { socket = some closed_state })
  closes : (c : ClientImpl) → c.socket ≢ none → Step order c (on_socket_close c).1
  times_out : (c : ClientImpl) → c.connect_timeout ≡ true → Step order c (on_connect_timeout c).1
  pings_for_sending : (c : ClientImpl) → Step order c (on_send_ping c).1
  pings_for_receiving : (c : ClientImpl) → Step order c (on_receive_ping c).1

-- What may come of a new client
pub data Reachable (order : Dict Number WireMessage → List (Number × WireMessage))
    : ClientImpl → Type 0 where
  starts :
      (host : Text) (port : ℕ) (client_id : Text) (local_storage : Dict Text StoredMessage)
      → Reachable order (new_client_impl host port client_id local_storage).1
  goes_on : (c c' : ClientImpl) → Reachable order c → Step order c c' → Reachable order c'

module _ (order : Dict Number WireMessage → List (Number × WireMessage)) where
  Step-Sound : (c c' : ClientImpl) → Step order c c' → Sound c → Sound c'
  unfolding on_socket_error on_socket_close on_connect_timeout
  Step-Sound c c' (Step.connects options _) v = connect_client-Sound options c v
  Step-Sound c c' (Step.subscribes filter options _) v = subscribe_client-Sound filter options c v
  Step-Sound c c' (Step.unsubscribes filter options _) v =
      unsubscribe_client-Sound filter options c v
  Step-Sound c c' (Step.sends message _) v = send_client-Sound message c v
  Step-Sound c c' (Step.disconnects _) v = disconnect_client-Sound c v
  Step-Sound c c' (Step.sets lost delivered arrived _) v = v
  Step-Sound c c' (Step.opens _ is) v = on_socket_open-Sound c v
  Step-Sound c c' (Step.receives bytes _ is) v =
      on_socket_message-Sound order bytes c v (present is)
  Step-Sound c c' (Step.fails _ there) v = disconnected-Sound _ c v
  Step-Sound c c' (Step.closing _ is) v = record {
    sent_filed = v.sent_filed;
    received_filed = v.received_filed;
    has_socket = λ on. present refl;
    has_options = λ there. v.has_options (present is);
  }
  Step-Sound c c' (Step.closes _ there) v = disconnected-Sound _ c v
  Step-Sound c c' (Step.times_out _ runs) v = disconnected-Sound _ c v
  Step-Sound c c' (Step.pings_for_sending _) v = on_send_ping-Sound c v
  Step-Sound c c' (Step.pings_for_receiving _) v = on_receive_ping-Sound c v

  -- However a new client, with whatever was in the local storage, is used and whatever its socket does:
  -- each message that waits for an acknowledgement or a release stands at its own identifier, a client
  -- that is connected has a socket, and one that has a socket has the options of its connection.
  pub Reachable-Sound : (c : ClientImpl) → Reachable order c → Sound c
  Reachable-Sound c (Reachable.starts host port client_id local_storage) =
      new_client_impl-Sound host port client_id local_storage
  Reachable-Sound c (Reachable.goes_on b _ before step) =
      Step-Sound b c step (Reachable-Sound b before)
