-- ===== src/Checks/BrowserChecks.antt =====
-- The MQTT client as a state machine at concrete inputs.
use distributed_storage_with.Base.{
  ℕ, ◌+◌, ◌≤◌, ◌≡◌, ◌≢◌, refl, true, false, List, [], ◌∷◌, ◌++◌, none, some, length, replicate,
  codes, Dict, contains_key, arith,
}
use distributed_storage_with.Mqtt.Faults.{ok}
use distributed_storage_with.Mqtt.Wire.{publish, Number, num, WireMessage, new_wire_message}
use distributed_storage_with.Mqtt.Client.{ClientImpl, ConnectOptions, done, number_Eq}
use distributed_storage_with.Mqtt.Client.Storing.{new_client_impl, restore_keys}
use distributed_storage_with.Mqtt.Client.Sending.{free_identifier, do_connect}
use distributed_storage_with.Mqtt.Client.Requests.{connect_client, start_connect}
use distributed_storage_with.Mqtt.Client.Timers.{on_socket_close}
use distributed_storage_with.Mqtt.Client.Identifiers.{free_identifier_ends}
use distributed_storage_with.Mqtt.Client.Sound.{Sound, present}
use distributed_storage_with.Mqtt.Client.Steps.{Step, Reachable, Reachable-Sound}
use distributed_storage_with.Mqtt.Client.Closing.{Offline, on_socket_close-Offline}
use distributed_storage_with.Mqtt.Client.Persistence.{
  Restores, stored_waiting, binary, restore-store,
}
use distributed_storage_with.Mqtt.Client.Receiver.{
  Content, at_most_once, at_least_once, exactly_once, release, message_with, accept_all, arrivals,
  inbox, live,
}
use distributed_storage_with.Mqtt.Client.Refinement.{Comes, receive_all, receive_all-Comes}
use distributed_storage_with.Mqtt.Client.ExactlyOnce.{receive_all-exactly_once}
use distributed_storage_with.Mqtt.Client.Trace.{
  Argument, given, undefined, max_trace_entries, start_trace,
}
use distributed_storage_with.Mqtt.Client.LastEntries.{
  newest, traces, all_entries, start_trace-newest,
}

abbrev two_waiting : Dict Number WireMessage
two_waiting = (num 1, new_wire_message publish) ∷ (num 2, new_wire_message publish) ∷ []

free_identifier_2 : free_identifier 3 1 two_waiting ≡ some 3
unfolding free_identifier contains_key
free_identifier_2 = refl

free_identifier_ends_example :
    (k : ℕ) × (free_identifier (length two_waiting + 1) 1 two_waiting ≡ some k)
    × (contains_key (num k) two_waiting ≡ false)
    × (1 ≤ k)
    × (k ≤ 1 + length two_waiting)
free_identifier_ends_example = free_identifier_ends 1 two_waiting

abbrev plain : Dict Number WireMessage → List (Number × WireMessage)
plain entries = entries

abbrev fresh : ClientImpl
fresh = (new_client_impl (codes "h") 80 (codes "me") []).1

abbrev options : ConnectOptions
options = record {
  timeout = none;
  user_name = none;
  password = none;
  will_message = none;
  keep_alive_interval = 60;
  clean_session = true;
  use_ssl = false;
  on_success = true;
  on_failure = true;
  hosts = none;
  ports = [];
}

abbrev dialling : ClientImpl
dialling = (connect_client options fresh).1

dialling-Reachable : Reachable plain dialling
dialling-Reachable =
    Reachable.goes_on fresh dialling (Reachable.starts (codes "h") 80 (codes "me") [])
      (Step.connects options fresh)

Reachable-Sound_example : Sound dialling
Reachable-Sound_example = Reachable-Sound plain dialling dialling-Reachable

dialling_socket : dialling.socket ≢ none
unfolding new_client_impl restore_keys connect_client start_connect do_connect
dialling_socket = present refl

on_socket_close-Offline_example : Offline dialling (on_socket_close dialling)
on_socket_close-Offline_example =
    on_socket_close-Offline plain dialling dialling-Reachable dialling_socket

restore-store_example :
    (m : WireMessage) × ((stored_waiting
        (21 ∷ 5 ∷ [])
        (codes "a")
        1
        false
        false
        7
        false
        none
        fresh).0
      ≡ ok m)
    × (m.payload_message ≡ some (binary (21 ∷ 5 ∷ []) (codes "a") 1 false false))
    × (m.message_identifier ≡ some (num 7))
    × (m.pub_rec_received ≡ false)
    × (m.sequence ≢ none)
    × Restores
        (21 ∷ 5 ∷ [])
        (codes "a")
        1
        false
        false
        7
        false
        (stored_waiting (21 ∷ 5 ∷ []) (codes "a") 1 false false 7 false none fresh).1
        []
        m
restore-store_example =
    restore-store (21 ∷ 5 ∷ []) (codes "a") 1 false false 7 false (omega arith, (omega arith, tt))
      none fresh []

abbrev content : Content
content = record { payload = 21 ∷ []; name = codes "a"; retained = false; duplicate = false }

receive_all-Comes_example :
    Comes
      (accept_all (at_least_once content 3 ∷ at_most_once content ∷ release 4 ∷ []) (inbox fresh))
      (receive_all plain
        (at_least_once content 3 ∷ at_most_once content ∷ release 4 ∷ [])
        (live fresh))
receive_all-Comes_example =
    receive_all-Comes plain (at_least_once content 3 ∷ at_most_once content ∷ release 4 ∷ []) fresh

receive_all-exactly_once_example :
    (c' : ClientImpl) × (receive_all plain
        (replicate 3 (exactly_once content 9) ++ replicate 2 (release 9))
        (live fresh)
      ≡ done (live c'))
    × (arrivals c'.log ≡ arrivals fresh.log ++ some (message_with 2 content) ∷ [])
receive_all-exactly_once_example = receive_all-exactly_once content 9 plain 2 1 fresh

abbrev started : List (Argument ℕ)
started = given 1 ∷ given 2 ∷ []

abbrev traced : List (List (Argument ℕ))
traced = (given 3 ∷ undefined ∷ []) ∷ (given 4 ∷ []) ∷ []

start_trace-newest_example :
    (traces traced (start_trace started none)
      ≡ some (newest max_trace_entries (all_entries (started ∷ traced))))
    × (length (newest max_trace_entries (all_entries (started ∷ traced))) ≤ max_trace_entries)
start_trace-newest_example = start_trace-newest started traced
