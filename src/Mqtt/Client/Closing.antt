-- ===== src/Mqtt/Client/Closing.antt =====
-- What a lost connection leaves of the client.
use distributed_storage_with.Base.{
  ℕ, ◌+◌, ◌≡◌, refl, ◌≢◌, Bool, true, false, List, [], none, ltb, length, Dict, if_keeps,
  option_keeps,
}
use distributed_storage_with.Mqtt.Faults.{ok}
use distributed_storage_with.Mqtt.Wire.{Number, WireMessage}
use distributed_storage_with.Mqtt.Client.{
  ClientImpl, ConnectOptions, Event, closed, connection_lost, connect_failed, Effect, call,
}
use distributed_storage_with.Mqtt.Client.Sending.{
  is_open, do_connect, drop_socket, report, next_host, cleared, disconnected, socket_close_code,
}
use distributed_storage_with.Mqtt.Client.Timers.{on_socket_close}
use distributed_storage_with.Mqtt.Client.Steps.{Reachable, Reachable-Sound}

-- No packet waits to be sent, and what waits for the broker is kept.
abbrev pub GivenUp : ClientImpl → ClientImpl → Type 0
GivenUp c c' =
    (c'.msg_queue ≡ [])
    × (c'.notify_msg_sent ≡ false)
    × (c'.sent_messages ≡ c.sent_messages)
    × (c'.received_messages ≡ c.received_messages)
    × (c'.local_storage ≡ c.local_storage)

-- The call returns, and no connection is left.
abbrev pub Offline : ClientImpl → Effect (Unit {0}) → Type 0
Offline c r = (r.0 ≡ ok tt) × (r.1.connected ≡ false) × GivenUp c r.1

call-GivenUp :
    (c : ClientImpl) (wanted : Bool) (event : Event) (c' : ClientImpl)
    → c'.connected ≡ false
    → GivenUp c c'
    → ((call wanted event c').connected ≡ false) × GivenUp c (call wanted event c')
call-GivenUp c true event c' off given = (off, given)
call-GivenUp c false event c' off given = (off, given)

drop_socket-GivenUp : (c : ClientImpl) → GivenUp c (drop_socket (cleared c))
unfolding drop_socket cleared
drop_socket-GivenUp c = called (is_open c.socket)
  where
    called : (wanted : Bool) → GivenUp c (call wanted closed (record (cleared c) { socket = none }))
    called true = (refl, refl, refl, refl, refl)
    called false = (refl, refl, refl, refl, refl)

module _ (c : ClientImpl) (code : ℕ) (options : ConnectOptions) where
  abbrev Ends : ClientImpl → Type 0
  Ends c' = (c'.connected ≡ false) × GivenUp c c'

  report-Ends : (c' : ClientImpl) → GivenUp c c' → Ends (report code options c')
  unfolding report
  report-Ends c' given =
      if_keeps Ends c'.connected _ _
        (λ on.
          call-GivenUp c c'.on_connection_lost (connection_lost code)
            (record c' { connected = false }) refl given)
        λ off. call-GivenUp c options.on_failure (connect_failed code) c' off given

  next_host-Ends : (c' : ClientImpl) → GivenUp c c' → Ends (next_host code options c')
  unfolding next_host do_connect
  next_host-Ends c' given =
      option_keeps Ends options.hosts _ _ (λ alone. report-Ends c' given)
        λ hosts several.
          if_keeps Ends (ltb (c'.host_index + 1) (length hosts)) _ _ (λ more. (refl, given))
            λ last. report-Ends c' given

disconnected-Offline :
    (code : ℕ) (c : ClientImpl) → c.connect_options ≢ none → Offline c (disconnected code c)
unfolding disconnected
disconnected-Offline code c known =
    option_keeps (Offline c) c.connect_options _ _ (λ unknown. absurd (known unknown))
      λ options is.
        let (off, given) =
          next_host-Ends c code options (drop_socket (cleared c)) (drop_socket-GivenUp c) in
        (refl, off, given)

-- Whatever happened before, when the socket of a client closes, the client takes notice without an
-- exception: it is not connected any more and has no packet to send, and the messages that wait for the
-- broker, and what is stored of them, are those of before.
pub on_socket_close-Offline :
    (order : Dict Number WireMessage → List (Number × WireMessage)) (c : ClientImpl)
    → Reachable order c
    → c.socket ≢ none
    → Offline c (on_socket_close c)
unfolding on_socket_close
on_socket_close-Offline order c before there =
    disconnected-Offline socket_close_code c ((Reachable-Sound order c before).has_options there)
