-- ===== src/Amq/Polling/Delivery.antt =====
-- The messages of a response to a poll, and the handlers that get them.
use distributed_storage_with.Base.{
  ◌≡◌, refl, sym, ◌∙◌, ap, Bool, true, false, Bool-cases, inl, inr, List, [], ◌∷◌, ◌++◌, map,
  Option, none, some, if◌then◌else◌, Text, text_Eq, Dict, lookup, nat_eq, All,
}
use mathlib.Core.List.{append_assoc, append-nil}
use distributed_storage_with.Amq.{
  Amq, AmqEvent, set_timeout, connect_status, handled, wrote_log, no_handler, ResponseNode,
  add_event,
}
use distributed_storage_with.Amq.Polling.{
  next_do, status_changed, call_status_handler, handle_children, handle_missing, handle_found,
  handle_response, handle_responses, message_handler, poll_handler, property_name, call_outcome,
  finally_poll, call_missing,
}

module _ {Message : Type 0} where
  -- A handler that returns for every message; or none, where that is noticed or there is no message.
  abbrev CanTake : Bool → Option (Option (Message → Bool)) → List Message → Type 0
  CanTake logging (some (some handler)) ms = All (λ m. handler m ≡ true) ms
  CanTake true _ ms = Unit
  CanTake false _ ms = ms ≡ []

  abbrev pub Deliverable : Amq Message → ResponseNode Message → Type 0
  Deliverable s node =
      nat_eq node.node_type 1 ≡ true
      → CanTake s.logging (lookup (property_name node.id) s.message_handlers) node.child_nodes

  abbrev deliveries_to :
      Bool → Option (Option (Message → Bool)) → Text → List Message → List (AmqEvent Message)
  deliveries_to logging (some (some handler)) id ms = map (handled id) ms
  deliveries_to logging _ id ms = if logging then wrote_log (no_handler id) ∷ [] else []

  abbrev deliveries_of :
      Bool → Dict Text (Option (Message → Bool)) → ResponseNode Message → List (AmqEvent Message)
  deliveries_of logging handlers node =
      let id = property_name node.id in
      if nat_eq node.node_type 1
      then deliveries_to logging (lookup id handlers) id node.child_nodes
      else []

  -- The children of each element go to the handler under its id, in their order.
  abbrev pub deliveries :
      Bool
      → Dict Text (Option (Message → Bool))
      → List (ResponseNode Message)
      → List (AmqEvent Message)
  deliveries logging handlers [] = []
  deliveries logging handlers (node ∷ nodes) =
      deliveries_of logging handlers node ++ deliveries logging handlers nodes

  abbrev happened : List (AmqEvent Message) → Amq Message → Amq Message
  happened es s = record s { events = s.events ++ es }

  happened_twice :
      (es fs : List (AmqEvent Message)) (s : Amq Message)
      → happened fs (happened es s) ≡ happened (es ++ fs) s
  happened_twice es fs s = ap (λ l. record s { events = l }) (append_assoc s.events es fs)

  happened_nothing : (s : Amq Message) → s ≡ happened [] s
  happened_nothing s = ap (λ l. record s { events = l }) (sym (append-nil s.events))

  handle_children_lem :
      (id : Text) (handler : Message → Bool) (ms : List Message) (s : Amq Message)
      → All (λ m. handler m ≡ true) ms
      → handle_children id handler ms s ≡ (none, happened (map (handled id) ms) s)
  unfolding handle_children add_event
  handle_children_lem id handler [] s returns = ap (λ t. (none, t)) (happened_nothing s)
  handle_children_lem id handler (m ∷ ms) s returns =
      ap (λ b. next_do (call_outcome b, add_event (handled id m) s) (handle_children id handler ms))
        returns.0
      ∙ handle_children_lem id handler ms (happened (handled id m ∷ []) s) returns.1
      ∙ ap (λ t. (none, t)) (happened_twice (handled id m ∷ []) (map (handled id) ms) s)

  logged_lem :
      (id : Text) (ms : List Message) (s : Amq Message)
      → s.logging ≡ true
      → handle_missing id ms s ≡ (none, happened (wrote_log (no_handler id) ∷ []) s)
  unfolding handle_missing add_event
  logged_lem id ms s e =
      ap (λ b. if b then (none, happened (wrote_log (no_handler id) ∷ []) s) else call_missing ms s)
        e

  silent_lem :
      (id : Text) (ms : List Message) (s : Amq Message)
      → s.logging ≡ false
      → ms ≡ []
      → handle_missing id ms s ≡ (none, happened [] s)
  unfolding handle_missing add_event
  silent_lem id ms s e h =
      ap (λ b. if b then (none, happened (wrote_log (no_handler id) ∷ []) s) else call_missing ms s)
        e
      ∙ ap (λ (l : List Message). call_missing l s) h
      ∙ ap (λ t. (none, t)) (happened_nothing s)

  handle_found_lem :
      (b : Bool) (o : Option (Option (Message → Bool))) (id : Text) (ms : List Message)
      (s : Amq Message)
      → s.logging ≡ b
      → CanTake b o ms
      → handle_found o id ms s ≡ (none, happened (deliveries_to b o id ms) s)
  unfolding handle_found
  handle_found_lem b (some (some handler)) id ms s e returns =
      handle_children_lem id handler ms s returns
  handle_found_lem true none id ms s e h = logged_lem id ms s e
  handle_found_lem true (some none) id ms s e h = logged_lem id ms s e
  handle_found_lem false none id ms s e h = silent_lem id ms s e h
  handle_found_lem false (some none) id ms s e h = silent_lem id ms s e h

  handle_response_lem :
      (node : ResponseNode Message) (s : Amq Message)
      → Deliverable s node
      → handle_response node s
        ≡ (none, happened (deliveries_of s.logging s.message_handlers node) s)
  unfolding handle_response
  handle_response_lem node s h = elim (Bool-cases (nat_eq node.node_type 1)) [
    | inl element ↦ rw element (
        handle_found_lem s.logging (lookup (property_name node.id) s.message_handlers)
          (property_name node.id) node.child_nodes s refl (h element))
    | inr other ↦ rw other (ap (λ t. (none, t)) (happened_nothing s))
  ]

  handle_responses_lem :
      (nodes : List (ResponseNode Message)) (s : Amq Message)
      → All (Deliverable s) nodes
      → handle_responses nodes s
        ≡ (none, happened (deliveries s.logging s.message_handlers nodes) s)
  unfolding handle_responses
  handle_responses_lem [] s h = ap (λ t. (none, t)) (happened_nothing s)
  handle_responses_lem (node ∷ nodes) s h =
      let es = deliveries_of s.logging s.message_handlers node in
      ap (λ r. next_do r (handle_responses nodes)) (handle_response_lem node s h.0)
      ∙ handle_responses_lem nodes (happened es s) h.1
      ∙ ap (λ t. (none, t)) (happened_twice es (deliveries s.logging s.message_handlers nodes) s)

  status_changed_lem :
      (f : Bool → Bool) (b : Bool) (s : Amq Message)
      → s.connect_status_handler ≡ some f
      → f b ≡ true
      → status_changed b s ≡ (none, happened (connect_status b ∷ []) s)
  unfolding status_changed call_status_handler add_event
  status_changed_lem f b s e returns =
      ap (λ o. call_status_handler o b s) e
      ∙ ap (λ r. (call_outcome r, happened (connect_status b ∷ []) s)) returns

  -- A response to a poll: the connection is reported, each message goes to the handler for the id of
  -- its element, once and in order, and then the next poll is set, after the delay chosen. The
  -- document holds one ajax-response, and every handler returns; a message without a handler is
  -- wrote_log, and where nothing is logged there is none.
  pub poll_handler_lem :
      (nodes : List (ResponseNode Message)) (f : Bool → Bool) (s : Amq Message)
      → s.connect_status_handler ≡ some f
      → f true ≡ true
      → All (Deliverable s) nodes
      → poll_handler (nodes ∷ []) s ≡ (
        none,
        record s {
          events =
              s.events
              ++ (connect_status true
                  ∷ (deliveries s.logging s.message_handlers nodes
                      ++ set_timeout s.poll_delay ∷ []));
        },
      )
  unfolding poll_handler message_handler add_event
  poll_handler_lem nodes f s e returns h =
      let es = deliveries s.logging s.message_handlers nodes in
      ap (λ r. finally_poll (next_do r (handle_responses nodes)))
        (status_changed_lem f true s e returns)
      ∙ ap finally_poll (handle_responses_lem nodes (happened (connect_status true ∷ []) s) h)
      ∙ ap (λ l. (none, record s { events = l }))
          (append_assoc (s.events ++ connect_status true ∷ []) es (set_timeout s.poll_delay ∷ [])
            ∙ append_assoc s.events (connect_status true ∷ [])
                (es ++ set_timeout s.poll_delay ∷ []))
