-- ===== src/Amq/Polling.antt =====
-- The polls of amq.js, and the messages that they bring.
pub mod Frames
pub mod Delivery
use distributed_storage_with.Base.{
  ℕ, ◌*◌, Bool, true, false, List, [], ◌∷◌, ◌++◌, Option, none, some, if◌then◌else◌, nat_eq, Text,
  text_Eq, text_eq, codes, lookup, ◌&&◌,
}
use distributed_storage_with.Radix.{natural_to_string}
use distributed_storage_with.Amq.{
  Amq, AmqEvent, AmqFault, type_error, callback_threw, Step, ResponseNode, Request, OnSuccess,
  call_poll_handler, call_init_handler, call_poll_error_handler, ajax, set_timeout, connect_status,
  session_initialized, handled, wrote_log, LogLine, no_handler, ajax_error, poll_error,
  connection_dropped, poll_exception, adapter_init, add_event, add_client_id,
}

-- now.getTime() and Math.random(), as they are printed.
pub record Stamp : Type 0 where
  pub time : Text
  pub random : Text

-- The fields of the options that init reads; a number that is not given is `none`.
pub record AmqOptions : Type 0 where
  pub connect_status_handler : Option (Bool → Bool)
  pub uri : Option Text
  pub poll_delay : Option ℕ
  pub timeout : Option ℕ
  pub logging : Bool
  pub session_initialized_callback : Option Bool
  pub client_id : Option Text

abbrev or_default {ℓ} : {A : Type ℓ} → Option A → A → A
or_default none d = d
or_default (some a) d = a

-- options.uri || '/amq'
abbrev uri_or_default : Option Text → Text
uri_or_default (some (c ∷ cs)) = c ∷ cs
uri_or_default _ = codes "/amq"

abbrev call_outcome : Bool → Option AmqFault
call_outcome returned = if returned then none else some callback_threw

-- getAttribute('id'), as the name of a property
abbrev property_name : Option Text → Text
property_name none = codes "null"
property_name (some id) = id

module _ {Message : Type 0} where
  -- The next statement, if the one before did not throw.
  abbrev pub next_do : Step Message → (Amq Message → Step Message) → Step Message
  next_do (none, s) f = f s
  next_do (some e, s) f = (some e, s)

  -- timeout = 0.001 seconds until the session is there
  unfoldable pub poll_request : Stamp → Amq Message → Request
  poll_request stamp s = record {
    is_post = false;
    uri = s.uri;
    headers = none;
    content = add_client_id s.client_id (
        codes "timeout="
        ++ natural_to_string 10 (if s.session_is_initialized then s.timeout * 1000 else 1)
        ++ codes "&d="
        ++ stamp.time
        ++ codes "&r="
        ++ stamp.random);
    success = if s.session_is_initialized then call_poll_handler else call_init_handler;
    error = call_poll_error_handler;
  }

  unfoldable pub send_poll : Stamp → Amq Message → Amq Message
  unfolding poll_request add_event
  send_poll stamp s = add_event (ajax (poll_request stamp s)) s

  unfoldable pub init : AmqOptions → Stamp → Amq Message → Amq Message
  unfolding send_poll add_event
  init options stamp s = send_poll stamp (
      add_event adapter_init (record s {
        connect_status_handler =
            some (or_default options.connect_status_handler (λ connected. true));
        uri = some (uri_or_default options.uri);
        poll_delay = or_default options.poll_delay 0;
        timeout = or_default options.timeout 25;
        logging = options.logging;
        session_initialized_callback = options.session_initialized_callback;
        client_id = options.client_id;
      }))

  call_status_handler : Option (Bool → Bool) → Bool → Amq Message → Step Message
  unfolding add_event
  call_status_handler none connected s = (some type_error, s)
  call_status_handler (some f) connected s =
      (call_outcome (f connected), add_event (connect_status connected) s)

  -- connectStatusHandler(connected)
  pub status_changed : Bool → Amq Message → Step Message
  unfolding call_status_handler
  status_changed connected s = call_status_handler s.connect_status_handler connected s

  -- The inner loop, with the handler that was found.
  unfoldable pub handle_children :
      Text → (Message → Bool) → List Message → Amq Message → Step Message
  unfolding add_event
  handle_children id handler [] s = (none, s)
  handle_children id handler (m ∷ ms) s =
      next_do (call_outcome (handler m), add_event (handled id m) s) (handle_children id handler ms)

  -- handler(…) of null
  abbrev call_missing : List Message → Amq Message → Step Message
  call_missing [] s = (none, s)
  call_missing (m ∷ ms) s = (some type_error, s)

  -- A handler that is not there, or was removed: a call of it is a TypeError.
  unfoldable pub handle_missing : Text → List Message → Amq Message → Step Message
  unfolding add_event
  handle_missing id children s =
      if s.logging then (none, add_event (wrote_log (no_handler id)) s) else call_missing children s

  handle_found : Option (Option (Message → Bool)) → Text → List Message → Amq Message → Step Message
  unfolding handle_children handle_missing
  handle_found (some (some handler)) id children s = handle_children id handler children s
  handle_found _ id children s = handle_missing id children s

  unfoldable pub handle_response : ResponseNode Message → Amq Message → Step Message
  unfolding handle_found
  handle_response node s =
      let id = property_name node.id in
      if nat_eq node.node_type 1
      then handle_found (lookup id s.message_handlers) id node.child_nodes s
      else (none, s)

  unfoldable pub handle_responses : List (ResponseNode Message) → Amq Message → Step Message
  unfolding handle_response
  handle_responses [] s = (none, s)
  handle_responses (node ∷ nodes) s = next_do (handle_response node s) (handle_responses nodes)

  -- The elements named "ajax-response" of the document, each as its child nodes.
  unfoldable pub message_handler : List (List (ResponseNode Message)) → Amq Message → Step Message
  unfolding handle_responses status_changed
  message_handler (nodes ∷ []) s = next_do (status_changed true s) (handle_responses nodes)
  message_handler _ s = (none, s)

  unfoldable pub error_handler : ℕ → Text → Amq Message → Step Message
  unfolding status_changed add_event
  error_handler http status s =
      next_do (status_changed false s)
        λ s'. (none, if s'.logging then add_event (wrote_log (ajax_error http status)) s' else s')

  -- Either way the next poll comes after pollErrorDelay.
  unfoldable pub poll_error_handler : ℕ → Text → Amq Message → Step Message
  unfolding status_changed add_event
  poll_error_handler http status s = next_do (status_changed false s) λ s'.
      let line =
        if text_eq status (codes "error") && nat_eq http 0
        then connection_dropped
        else poll_error http status in
      let s'' = if s'.logging then add_event (wrote_log line) s' else s' in
      (none, add_event (set_timeout s''.poll_error_delay) s'')

  -- catch, and finally
  abbrev finally_poll : Step Message → Step Message
  finally_poll (none, s) = (none, add_event (set_timeout s.poll_delay) s)
  finally_poll (some e, s) =
      let s' = if s.logging then add_event (wrote_log poll_exception) s else s in
      (some e, add_event (set_timeout s'.poll_delay) s')

  unfoldable pub poll_handler : List (List (ResponseNode Message)) → Amq Message → Step Message
  unfolding message_handler add_event
  poll_handler response s = finally_poll (message_handler response s)

  abbrev call_initialized : Option Bool → Amq Message → Step Message
  call_initialized none s = (none, s)
  call_initialized (some returned) s = (call_outcome returned, add_event session_initialized s)

  unfoldable pub init_handler : List (List (ResponseNode Message)) → Amq Message → Step Message
  unfolding poll_handler add_event
  init_handler response s =
      next_do
        (call_initialized s.session_initialized_callback
          (record s { session_is_initialized = true }))
        (poll_handler response)
