-- ===== src/Amq.antt =====
-- The client of the AJAX servlet (webapps-demo/demo/js/amq.js of the broker): messages are posted to
-- the servlet one request at a time, and received by long polling (Amq/Polling).
pub mod Polling
pub mod Splitting
pub mod Batches
pub mod Stalled
use distributed_storage_with.Base.{
  ℕ, zero, suc, ◌*◌, Bool, true, false, List, [], ◌∷◌, ◌++◌, Option, none, some, if◌then◌else◌, ltb,
  nat_eq, length, Text, text_Eq, codes, Dict, lookup, insert, ◌&&◌, not,
}
use distributed_storage_with.Radix.{natural_to_string}

-- { destination, message, messageType }
pub record Jms : Type 0 where
  pub destination : Text
  pub message : Text
  pub message_type : Text

-- { message, headers }; the headers are null, or hold a selector only
pub record Queued : Type 0 where
  pub message : Jms
  pub headers : Option Text

-- The functions that a request is given.
pub data OnSuccess : Type 0 where
  call_poll_handler call_init_handler call_end_batch : OnSuccess

pub data OnError : Type 0 where
  call_error_handler call_poll_error_handler : OnError

pub record Request : Type 0 where
  pub is_post : Bool
  pub uri : Option Text
  pub headers : Option Text
  pub content : Text
  pub success : OnSuccess
  pub error : OnError

-- What is given to adapter.log
pub data LogLine : Type 0 where
  no_handler : Text → LogLine
  ajax_error poll_error : ℕ → Text → LogLine
  connection_dropped poll_exception : LogLine

-- A `<response>` element, or what else is a child of the `<ajax-response>`. A `Message` is a child
-- node of it.
pub record ResponseNode (Message : Type 0) : Type 0 where
  pub node_type : ℕ
  pub id : Option Text
  pub child_nodes : List Message

-- What the client does outside itself. `set_timeout` is for `sendPoll`.
pub data AmqEvent (Message : Type 0) : Type 0 where
  adapter_init : AmqEvent Message
  ajax : Request → AmqEvent Message
  set_timeout : ℕ → AmqEvent Message
  connect_status : Bool → AmqEvent Message
  session_initialized : AmqEvent Message
  handled : Text → Message → AmqEvent Message
  wrote_log : LogLine → AmqEvent Message

pub data AmqFault : Type 0 where
  type_error callback_threw : AmqFault

-- The variables of the closure. A callback is a test of its argument: whether it returns, or throws.
-- `timeout` is in seconds; `uri` and the status callback are undefined before `init`.
pub record Amq (Message : Type 0) : Type 0 where
  pub connect_status_handler : Option (Bool → Bool)
  pub uri : Option Text
  pub timeout : ℕ
  pub session_is_initialized : Bool
  pub session_initialized_callback : Option Bool
  pub poll_delay : ℕ
  pub logging : Bool
  pub poll_error_delay : ℕ
  pub message_handlers : Dict Text (Option (Message → Bool))
  pub batch_in_progress : Bool
  pub message_queue : List Queued
  pub client_id : Option Text
  pub events : List (AmqEvent Message)

unfoldable pub new_amq : (Message : Type 0) → Amq Message
new_amq Message = record {
  connect_status_handler = none;
  uri = none;
  timeout = 0;
  session_is_initialized = false;
  session_initialized_callback = none;
  poll_delay = 0;
  logging = false;
  poll_error_delay = 5000;
  message_handlers = [];
  batch_in_progress = false;
  message_queue = [];
  client_id = none;
  events = [];
}

-- `none` when the function returned
abbrev pub Step : Type 0 → Type 0
Step Message = Option AmqFault × Amq Message

-- '&' and the parameters of a message that is not the first
unfoldable pub build_param : ℕ → Jms → Text
build_param i m =
    codes "&d"
    ++ natural_to_string 10 i
    ++ codes "="
    ++ m.destination
    ++ codes "&m"
    ++ natural_to_string 10 i
    ++ codes "="
    ++ m.message
    ++ codes "&t"
    ++ natural_to_string 10 i
    ++ codes "="
    ++ m.message_type

unfoldable pub build_more : ℕ → List Jms → Text
unfolding build_param
build_more i [] = []
build_more i (m ∷ ms) = build_param i m ++ build_more (suc i) ms

unfoldable pub build_params : List Jms → Text
unfolding build_more
build_params [] = []
build_params (m ∷ ms) =
    codes "destination="
    ++ m.destination
    ++ codes "&message="
    ++ m.message
    ++ codes "&type="
    ++ m.message_type
    ++ build_more 1 ms

abbrev add_text_id : Text → Text → Text
add_text_id [] content = content
add_text_id id [] = codes "clientId=" ++ id
add_text_id id content = content ++ codes "&" ++ codes "clientId=" ++ id

-- A clientId that is null or empty is not added.
unfoldable pub add_client_id : Option Text → Text → Text
add_client_id none content = content
add_client_id (some id) content = add_text_id id content

-- options && options.selector ? … : null
abbrev selector_headers : Option Text → Option Text
selector_headers (some (c ∷ cs)) = some (c ∷ cs)
selector_headers _ = none

module _ {Message : Type 0} where
  unfoldable pub add_event : AmqEvent Message → Amq Message → Amq Message
  add_event e s = record s { events = s.events ++ e ∷ [] }

  unfoldable pub start_batch : Amq Message → Amq Message
  start_batch s = record s { batch_in_progress = true }

  abbrev pub post_request : Option Text → List Jms → Amq Message → Request
  post_request headers messages s = record {
    is_post = true;
    uri = s.uri;
    headers = headers;
    content = add_client_id s.client_id (build_params messages);
    success = call_end_batch;
    error = call_error_handler;
  }

  -- startBatch(), and the request
  unfoldable pub post : Option Text → List Jms → Amq Message → Amq Message
  unfolding add_event start_batch
  post headers messages s =
      let s1 = start_batch s in add_event (ajax (post_request headers messages s1)) s1

  unfoldable pub send_jms_message : Text → Text → Text → Option Text → Amq Message → Amq Message
  unfolding post
  send_jms_message destination text message_type headers s =
      let m : Jms = record {
        destination = destination;
        message = text;
        message_type = message_type;
      } in
      if s.batch_in_progress
      then record s {
        message_queue = s.message_queue ++ record { message = m; headers = headers } ∷ [];
      }
      else post headers (m ∷ []) s

  unfoldable pub send_message : Text → Text → Amq Message → Amq Message
  unfolding send_jms_message
  send_message destination text s = send_jms_message destination text (codes "send") none s

  unfoldable pub add_listener :
      Text → Text → (Message → Bool) → Option Text → Amq Message → Amq Message
  unfolding send_jms_message
  add_listener id destination handler selector s =
      send_jms_message destination id (codes "listen") (selector_headers selector)
        (record s { message_handlers = insert id (some handler) s.message_handlers })

  unfoldable pub remove_listener : Text → Text → Amq Message → Amq Message
  unfolding send_jms_message
  remove_listener id destination s =
      send_jms_message destination id (codes "unlisten") none
        (record s { message_handlers = insert id none s.message_handlers })

-- What endBatch makes of the queue: messagesToSend, messagesToQueue, outgoingHeaders
pub record Batch : Type 0 where
  pub to_send : List Jms
  pub to_queue : List Queued
  pub outgoing_headers : Option Text

abbrev none_yet : List Jms → Bool
none_yet [] = true
none_yet (m ∷ ms) = false

abbrev send_now : Queued → Batch → Batch
send_now q b = record b { to_send = b.to_send ++ q.message ∷ [] }

abbrev send_later : Queued → Batch → Batch
send_later q b = record b { to_queue = b.to_queue ++ q ∷ [] }

sort_by_headers : Option Text → Option Text → Queued → Batch → Batch
sort_by_headers (some h) outgoing q b =
    if none_yet b.to_send
    then record (send_now q b) { outgoing_headers = some h }
    else send_later q b
sort_by_headers none none q b = send_now q b
sort_by_headers none (some h) q b = send_later q b

-- The body of the loop.
unfoldable pub sort_message : Queued → Batch → Batch
unfolding sort_by_headers
sort_message q b = sort_by_headers q.headers b.outgoing_headers q b

unfoldable pub sort_messages : List Queued → Batch → Batch
unfolding sort_message
sort_messages [] b = b
sort_messages (q ∷ qs) b = sort_messages qs (sort_message q b)

abbrev pub no_batch : Batch
no_batch = record { to_send = []; to_queue = []; outgoing_headers = none }

module _ {Message : Type 0} where
  -- The branches for the queue: whether it is empty.
  send_queued : List Queued → Amq Message → Amq Message
  unfolding sort_messages post
  send_queued queue s =
      if ltb 0 (length queue)
      then (let b = sort_messages queue no_batch in
          post b.outgoing_headers b.to_send (record s { message_queue = b.to_queue }))
      else record s { batch_in_progress = false }

  unfoldable pub end_batch : Amq Message → Amq Message
  unfolding send_queued
  end_batch s = send_queued s.message_queue s
