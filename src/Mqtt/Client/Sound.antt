-- ===== src/Mqtt/Client/Sound.antt =====
-- A sound state of the client, and the parts of its operations that keep it so.
use distributed_storage_with.Base.{
  ℕ, ◌+◌, Text, ◌≡◌, refl, sym, subst, ◌≢◌, Bool, true, false, List, [], ◌∷◌, ◌++◌, Option, none,
  some, inl, inr, ltb, length, Dict, lookup, insert, remove, Bool-cases, if_keeps, option_keeps,
  arith,
}
use distributed_storage_with.Mqtt.Faults.{Result, ok, throw}
use distributed_storage_with.Mqtt.Wire.{Number, WireMessage}
use distributed_storage_with.Mqtt.Client.{
  ClientImpl, ConnectOptions, ReadyState, connecting, open_state, closed_state, Event, closed,
  Effect, then_do, call, number_eq, number_eq_iff, number_Eq,
}
use distributed_storage_with.Mqtt.Client.Storing.{put_message}
use distributed_storage_with.Mqtt.Client.Sending.{
  nth_text, nth_port, is_open, drop_socket, report, next_host, cleared, disconnected, send_bytes,
  socket_send, disconnect_done, sent_one, next_sent, process, process_queue, schedule_message,
  ok_code, do_connect,
}

-- Each message stands at its own identifier.
abbrev pub Filed : Dict Number WireMessage → Type 0
Filed [] = Unit
Filed ((id, m) ∷ messages) = (m.message_identifier ≡ some id) × Filed messages

pub insert-Filed :
    (id : Number) (m : WireMessage) (messages : Dict Number WireMessage)
    → m.message_identifier ≡ some id
    → Filed messages
    → Filed (insert id m messages)
unfolding insert
insert-Filed id m [] own filed = (own, tt)
insert-Filed id m ((j, x) ∷ messages) own filed = elim (Bool-cases (number_eq j id)) [
  | inl same ↦ rw same (own, filed.1)
  | inr other ↦ rw other (filed.0, insert-Filed id m messages own filed.1)
]

pub remove-Filed :
    (id : Number) (messages : Dict Number WireMessage) → Filed messages → Filed (remove id messages)
unfolding remove
remove-Filed id [] filed = tt
remove-Filed id ((j, x) ∷ messages) filed = elim (Bool-cases (number_eq j id)) [
  | inl same ↦ rw same (remove-Filed id messages filed.1)
  | inr other ↦ rw other (filed.0, remove-Filed id messages filed.1)
]

pub lookup-Filed :
    (id : Number) (m : WireMessage) (messages : Dict Number WireMessage)
    → Filed messages
    → lookup id messages ≡ some m
    → m.message_identifier ≡ some id
unfolding lookup
lookup-Filed id m [] filed found = absurd (cc)
lookup-Filed id m ((j, x) ∷ messages) filed found =
    ground (arith, number_eq_iff j id, lookup-Filed id m messages filed.1)

pub put_message-Filed :
    (id : Option Number) (m : WireMessage) (messages : Dict Number WireMessage)
    → m.message_identifier ≡ id
    → Filed messages
    → Filed (put_message id m messages)
put_message-Filed none m messages own filed = filed
put_message-Filed (some id) m messages own filed = insert-Filed id m messages own filed

-- Messages stand at their identifiers; a client that is connected has a socket, and one that has a
-- socket knows the options that it was connected with.
pub record Inv (sent_messages received_messages : Dict Number WireMessage) (connected : Bool)
    (socket : Option ReadyState) (options : Option ConnectOptions) : Type 0 where
  pub sent_filed : Filed sent_messages
  pub received_filed : Filed received_messages
  pub has_socket : connected ≡ true → socket ≢ none
  pub has_options : socket ≢ none → options ≢ none

abbrev pub Sound : ClientImpl → Type 0
Sound c = Inv c.sent_messages c.received_messages c.connected c.socket c.connect_options

abbrev pub SoundAfter {ℓ} : {A : Type ℓ} → Effect A → Type 0
SoundAfter r = Sound r.1

pub then_do-Sound :
    (r : Effect (Unit {0})) (f : ClientImpl → Effect (Unit {0}))
    → Sound r.1
    → ((c : ClientImpl) → Sound c → Sound (f c).1)
    → Sound (then_do r f).1
then_do-Sound (ok _, c) f v keeps = keeps c v
then_do-Sound (throw e, c) f v keeps = v

pub call-Sound :
    (wanted : Bool) (event : Event) (c : ClientImpl) → Sound c → Sound (call wanted event c)
call-Sound true event c v = v
call-Sound false event c v = v

-- Without a socket and a connection there is nothing that can be at odds.
offline-Inv :
    (sent received : Dict Number WireMessage) (on : Bool) (socket : Option ReadyState)
    (options : Option ConnectOptions)
    → Filed sent
    → Filed received
    → on ≡ false
    → socket ≡ none
    → Inv sent received on socket options
offline-Inv sent received on socket options filed filed' off gone = record {
  sent_filed = filed;
  received_filed = filed';
  has_socket = λ h. absurd (cc);
  has_options = λ h. absurd (h gone);
}

report-Sound :
    (code : ℕ) (options : ConnectOptions) (c : ClientImpl)
    → Filed c.sent_messages
    → Filed c.received_messages
    → c.socket ≡ none
    → Sound (report code options c)
unfolding report
report-Sound code options c sent received gone =
    if_keeps Sound c.connected _ _
      (λ on. call-Sound c.on_connection_lost _ _ (offline-Inv _ _ _ _ _ sent received refl gone))
      (λ off. call-Sound options.on_failure _ _ (offline-Inv _ _ _ _ _ sent received off gone))

pub do_connect-Sound :
    (host : Text) (port : ℕ) (options : ConnectOptions) (c : ClientImpl)
    → Filed c.sent_messages
    → Filed c.received_messages
    → c.connect_options ≢ none
    → Sound (do_connect host port options c)
unfolding do_connect
do_connect-Sound host port options c sent received known = record {
  sent_filed = sent;
  received_filed = received;
  has_socket = λ h. absurd (cc);
  has_options = λ h. known;
}

next_host-Sound :
    (code : ℕ) (options : ConnectOptions) (c : ClientImpl)
    → Filed c.sent_messages
    → Filed c.received_messages
    → c.socket ≡ none
    → c.connect_options ≢ none
    → Sound (next_host code options c)
unfolding next_host
next_host-Sound code options c sent received gone known =
    option_keeps Sound options.hosts _ _ (λ alone. report-Sound code options c sent received gone)
      λ hosts several.
        if_keeps Sound (ltb (c.host_index + 1) (length hosts)) _ _
          (λ more.
            do_connect-Sound (nth_text hosts (c.host_index + 1))
              (nth_port options.ports (c.host_index + 1)) options
              (record c { host_index = c.host_index + 1 }) sent received known)
          (λ last. report-Sound code options c sent received gone)

pub present {ℓ} : {A : Type ℓ} {o : Option A} {a : A} → o ≡ some a → o ≢ none
present known gone = absurd (cc)

abbrev Dropped : ClientImpl → ClientImpl → Type 0
Dropped c c' =
    (c'.sent_messages ≡ c.sent_messages)
    × (c'.received_messages ≡ c.received_messages)
    × (c'.connect_options ≡ c.connect_options)
    × (c'.socket ≡ none)

drop_socket-Dropped : (c : ClientImpl) → Dropped c (drop_socket c)
unfolding drop_socket
drop_socket-Dropped c = called (is_open c.socket)
  where
    called : (wanted : Bool) → Dropped c (call wanted closed (record c { socket = none }))
    called true = (refl, refl, refl, refl)
    called false = (refl, refl, refl, refl)

pub disconnected-Sound : (code : ℕ) (c : ClientImpl) → Sound c → Sound (disconnected code c).1
unfolding disconnected cleared
disconnected-Sound code c v =
    option_keeps SoundAfter c.connect_options _ _ (λ unknown. v)
      λ options known.
        let (sent, received, kept, gone) = drop_socket-Dropped (cleared c) in
        next_host-Sound code options (drop_socket (cleared c)) (subst Filed (sym sent) v.sent_filed)
          (subst Filed (sym received) v.received_filed) gone
          (subst (λ o. o ≢ none) (sym kept) (present known))

send_bytes-Sound :
    (bytes : Result (List ℕ)) (state : ReadyState) (c : ClientImpl)
    → Sound c
    → Sound (send_bytes bytes state c).1
unfolding send_bytes
send_bytes-Sound (throw e) state c v = v
send_bytes-Sound (ok bytes) connecting c v = v
send_bytes-Sound (ok bytes) open_state c v = v
send_bytes-Sound (ok bytes) closed_state c v = v

pub socket_send-Sound : (m : WireMessage) (c : ClientImpl) → Sound c → Sound (socket_send m c).1
unfolding socket_send
socket_send-Sound m c v =
    option_keeps SoundAfter c.socket _ _ (λ gone. v) λ state is. send_bytes-Sound _ state c v

after_disconnect : (r : Effect (Unit {0})) → Sound r.1 → Sound (disconnect_done r).1
after_disconnect (ok _, c) v = v
after_disconnect (throw e, c) v = v

sent_one-Sound : (r : Effect (Unit {0})) → Sound r.1 → Sound (sent_one r).1
sent_one-Sound (throw e, c) v = v
sent_one-Sound (ok _, c) v =
    if_keeps SoundAfter c.notify_msg_sent _ _
      (λ waits. after_disconnect _ (disconnected-Sound ok_code c v)) λ none_waits. v

next_sent-Sound :
    (r : Effect Bool) (own : Bool) (rest : List WireMessage)
    (f : Bool → ClientImpl → Effect (Unit {0}))
    → Sound r.1
    → ((b : Bool) (c : ClientImpl) → Sound c → Sound (f b c).1)
    → Sound (next_sent r own rest f).1
next_sent-Sound (ok gone, c) own rest f v keeps = keeps _ c v
next_sent-Sound (throw e, c) true rest f v keeps = v
next_sent-Sound (throw e, c) false rest f v keeps = v

process-Sound :
    (queue : List WireMessage) (own : Bool) (c : ClientImpl)
    → Sound c
    → Sound (process queue own c).1
unfolding process
process-Sound [] own c v = v
process-Sound (m ∷ rest) own c v =
    next_sent-Sound (sent_one (socket_send m c)) own rest _
      (sent_one-Sound _ (socket_send-Sound m c v)) (process-Sound rest)

pub process_queue-Sound : (c : ClientImpl) → Sound c → Sound (process_queue c).1
unfolding process_queue
process_queue-Sound c v = process-Sound c.msg_queue true (record c { msg_queue = [] }) v

pub schedule_message-Sound :
    (m : WireMessage) (c : ClientImpl) → Sound c → Sound (schedule_message m c).1
unfolding schedule_message
schedule_message-Sound m c v =
    if_keeps SoundAfter c.connected _ _
      (λ on. process_queue-Sound (record c { msg_queue = c.msg_queue ++ m ∷ [] }) v) λ off. v
