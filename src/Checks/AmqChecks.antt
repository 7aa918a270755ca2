-- ===== src/Checks/AmqChecks.antt =====
-- The client of the AJAX servlet at concrete inputs.
use distributed_storage_with.Base.{
  ◌≡◌, refl, Bool, true, false, List, [], ◌∷◌, ◌++◌, none, some, Text, codes, text_Eq, lookup,
}
use distributed_storage_with.Radix.{natural_to_string}
use distributed_storage_with.Amq.{
  Amq, Jms, ResponseNode, connect_status, set_timeout, build_params, build_more, build_param,
}
use distributed_storage_with.Amq.Batches.{Drained, drain}
use distributed_storage_with.Amq.Stalled.{
  AmqInput, asked_to_send, unlistened, on_inputs, requests_of, failed_post_stalls,
}
use distributed_storage_with.Amq.Polling.Frames.{posted}
use distributed_storage_with.Amq.Polling.{error_handler, poll_handler}
use distributed_storage_with.Amq.Polling.Delivery.{poll_handler_lem, deliveries}

abbrev jms : Text → Text → Text → Jms
jms destination message message_type = record {
  destination = destination;
  message = message;
  message_type = message_type;
}

build_params_two :
    build_params (
      jms (codes "topic://A") (codes "x") (codes "send")
      ∷ jms (codes "topic://B") (codes "y") (codes "listen")
      ∷ [])
    ≡ codes "destination=topic://A&message=x&type=send&d1=topic://B&m1=y&t1=listen"
unfolding build_params build_more build_param natural_to_string
build_params_two = refl

abbrev always : Text → Bool
always m = true

-- A client that awaits the response to a request, with three messages behind it; the second has a
-- selector.
abbrev waiting : Amq Text
waiting = record {
  connect_status_handler = some (λ connected. true);
  uri = some (codes "/amq");
  timeout = 25;
  session_is_initialized = true;
  session_initialized_callback = none;
  poll_delay = 0;
  logging = false;
  poll_error_delay = 5000;
  message_handlers = (codes "a", some always) ∷ [];
  batch_in_progress = true;
  message_queue =
      record { message = jms (codes "topic://A") (codes "x") (codes "send"); headers = none }
      ∷ record {
        message = jms (codes "topic://A") (codes "a") (codes "listen");
        headers = some (codes "price > 3");
      }
      ∷ record { message = jms (codes "topic://A") (codes "y") (codes "send"); headers = none }
      ∷ [];
  client_id = none;
  events = [];
}

drain_example : Drained waiting
drain_example = drain waiting

failed_post_stalls_example :
    let is : List (AmqInput Text) =
      asked_to_send (codes "topic://A") (codes "z")
      ∷ unlistened (codes "a") (codes "topic://A")
      ∷ [] in
    let t = on_inputs is (error_handler 500 (codes "error") waiting).1 in
    (posted t.events ≡ posted waiting.events)
    × (t.batch_in_progress ≡ true)
    × (t.message_queue ≡ waiting.message_queue ++ requests_of is)
failed_post_stalls_example =
    failed_post_stalls 500 (codes "error")
      (asked_to_send (codes "topic://A") (codes "z")
        ∷ unlistened (codes "a") (codes "topic://A")
        ∷ [])
      waiting refl

-- A response with a message for the handler `a`, and white space between its elements.
abbrev response_nodes : List (ResponseNode Text)
response_nodes =
    record { node_type = 1; id = some (codes "a"); child_nodes = codes "m" ∷ codes "n" ∷ [] }
    ∷ record { node_type = 3; id = none; child_nodes = [] }
    ∷ []

poll_handler_lem_example : poll_handler (response_nodes ∷ []) waiting ≡ (
  none,
  record waiting {
    events =
        waiting.events
        ++ (connect_status true
            ∷ (deliveries waiting.logging waiting.message_handlers response_nodes
                ++ set_timeout waiting.poll_delay ∷ []));
  },
)
unfolding lookup
poll_handler_lem_example =
    poll_handler_lem response_nodes (λ connected. true) waiting refl refl
      (λ element. (refl, (refl, tt)), (λ element. refl, tt))
