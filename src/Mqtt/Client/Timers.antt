-- ===== src/Mqtt/Client/Timers.antt =====
-- The socket fails or closes, and the timers of the client run out.
use distributed_storage_with.Base.{true, false, [], ◌∷◌, none, some, if◌then◌else◌, text_Eq}
use distributed_storage_with.Mqtt.Faults.{throw, type_error}
use distributed_storage_with.Mqtt.Client.{
  ClientImpl, Pinger, ReadyState, open_state, sent, Effect, done, then_do, emit, number_Eq,
}
use distributed_storage_with.Mqtt.Client.Sending.{
  disconnected, connect_timeout_code, ping_timeout_code, socket_error_code, socket_close_code,
}

-- _on_socket_error and _on_socket_close
unfoldable pub on_socket_error : ClientImpl → Effect (Unit {0})
on_socket_error c = disconnected socket_error_code c

unfoldable pub on_socket_close : ClientImpl → Effect (Unit {0})
on_socket_close c = disconnected socket_close_code c

-- The connect timer runs out.
unfoldable pub on_connect_timeout : ClientImpl → Effect (Unit {0})
on_connect_timeout c = disconnected connect_timeout_code c

-- socket.send(pingReq)
unfoldable pub send_ping : ReadyState → ClientImpl → Effect (Unit {0})
send_ping open_state c = done (emit (sent (0xC0 ∷ 0 ∷ [])) c)
send_ping ReadyState.connecting c = (throw type_error, c)
send_ping ReadyState.closed_state c = done c

-- Pinger.doPing, for a pinger that `update` puts back: its timer has run out.
unfoldable pub ping : Pinger → (Pinger → ClientImpl → ClientImpl) → ClientImpl → Effect (Unit {0})
unfolding send_ping
ping p update c =
    if p.is_reset
    then (let c' = update (record p { is_reset = false }) c in
        elim c'.socket [
          | none ↦ (throw type_error, c')
          | some state ↦
              then_do (send_ping state c')
                λ c''. done (update (record p { is_reset = false; running = true }) c'')
        ])
    else disconnected ping_timeout_code c

unfoldable pub on_send_ping : ClientImpl → Effect (Unit {0})
unfolding ping
on_send_ping c = elim c.send_pinger [
  | none ↦ done c
  | some p ↦ ping p (λ p' c'. record c' { send_pinger = some p' }) c
]

unfoldable pub on_receive_ping : ClientImpl → Effect (Unit {0})
unfolding ping
on_receive_ping c = elim c.receive_pinger [
  | none ↦ done c
  | some p ↦ ping p (λ p' c'. record c' { receive_pinger = some p' }) c
]
