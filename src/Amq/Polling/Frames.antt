-- ===== src/Amq/Polling/Frames.antt =====
-- What amq.js's polling leaves alone: the messages that wait, and the requests that post them.
use distributed_storage_with.Base.{
  ℕ, ◌≡◌, refl, ◌∙◌, ap, Bool, true, false, List, [], ◌∷◌, ◌++◌, Option, none, some, if◌then◌else◌,
  Bool-cases, if_keeps, inl, inr, Text, text_Eq, lookup, nat_eq,
}
use mathlib.Core.List.{append-nil}
use distributed_storage_with.Amq.{
  Amq, AmqEvent, adapter_init, ajax, set_timeout, connect_status, session_initialized, handled,
  wrote_log, LogLine, no_handler, ajax_error, poll_exception, Request, Step, ResponseNode,
  add_event,
}
use distributed_storage_with.Amq.Polling.{
  Stamp, next_do, send_poll, poll_request, status_changed, call_status_handler, property_name,
  handle_children, handle_missing, handle_found, handle_response, handle_responses, message_handler,
  error_handler, poll_error_handler, poll_handler, init_handler, finally_poll, call_initialized,
  call_outcome,
}

abbrev pub if_post : Request → List Request → List Request
if_post r rest = if r.is_post then r ∷ rest else rest

module _ {Message : Type 0} where
  -- The requests that were posted.
  pub posted : List (AmqEvent Message) → List Request
  posted [] = []
  posted (ajax r ∷ es) = if_post r (posted es)
  posted (_ ∷ es) = posted es

  -- Nothing is posted, and nothing becomes of the queue.
  pub record Keeps (s t : Amq Message) : Type 0 where
    pub posted_same : posted t.events ≡ posted s.events
    pub batch_same : t.batch_in_progress ≡ s.batch_in_progress
    pub queue_same : t.message_queue ≡ s.message_queue

  pub Keeps-refl : (s : Amq Message) → Keeps s s
  Keeps-refl s = record { posted_same = refl; batch_same = refl; queue_same = refl }

  pub Keeps-trans : (s t u : Amq Message) → Keeps s t → Keeps t u → Keeps s u
  Keeps-trans s t u k l = record {
    posted_same = l.posted_same ∙ k.posted_same;
    batch_same = l.batch_same ∙ k.batch_same;
    queue_same = l.queue_same ∙ k.queue_same;
  }

  -- An event that is no POST.
  abbrev pub IsQuiet : AmqEvent Message → Type 0
  IsQuiet (ajax r) = r.is_post ≡ false
  IsQuiet _ = Unit

  posted_quiet : (e : AmqEvent Message) → IsQuiet e → posted (e ∷ []) ≡ []
  unfolding posted
  posted_quiet (ajax r) q = ap (λ b. if b then r ∷ [] else []) q
  posted_quiet adapter_init q = refl
  posted_quiet (set_timeout n) q = refl
  posted_quiet (connect_status b) q = refl
  posted_quiet session_initialized q = refl
  posted_quiet (handled id m) q = refl
  posted_quiet (wrote_log l) q = refl

  pub posted-append : (es fs : List (AmqEvent Message)) → posted (es ++ fs) ≡ posted es ++ posted fs
  unfolding posted
  posted-append [] fs = refl
  posted-append (ajax r ∷ es) fs = elim (Bool-cases r.is_post) [
    | inl post ↦ rw (post, posted-append es fs)
    | inr get ↦ rw (get, posted-append es fs)
  ]
  posted-append (adapter_init ∷ es) fs = posted-append es fs
  posted-append (set_timeout n ∷ es) fs = posted-append es fs
  posted-append (connect_status b ∷ es) fs = posted-append es fs
  posted-append (session_initialized ∷ es) fs = posted-append es fs
  posted-append (handled id m ∷ es) fs = posted-append es fs
  posted-append (wrote_log l ∷ es) fs = posted-append es fs

  pub add_event-Keeps :
      (e : AmqEvent Message) (s : Amq Message) → IsQuiet e → Keeps s (add_event e s)
  unfolding add_event
  add_event-Keeps e s q = record {
    posted_same =
        posted-append s.events (e ∷ [])
        ∙ ap (λ rs. posted s.events ++ rs) (posted_quiet e q)
        ∙ append-nil (posted s.events);
    batch_same = refl;
    queue_same = refl;
  }

  pub next_do-Keeps :
      (s : Amq Message) (r : Step Message) (f : Amq Message → Step Message)
      → Keeps s r.1
      → ((t : Amq Message) → Keeps t (f t).1)
      → Keeps s (next_do r f).1
  next_do-Keeps s (none, t) f k l = Keeps-trans s t (f t).1 k (l t)
  next_do-Keeps s (some e, t) f k l = k

  call_status-Keeps :
      (o : Option (Bool → Bool)) (b : Bool) (s : Amq Message)
      → Keeps s (call_status_handler o b s).1
  unfolding call_status_handler
  call_status-Keeps none b s = Keeps-refl s
  call_status-Keeps (some f) b s = add_event-Keeps (connect_status b) s tt

  status_changed-Keeps : (b : Bool) (s : Amq Message) → Keeps s (status_changed b s).1
  unfolding status_changed
  status_changed-Keeps b s = call_status-Keeps s.connect_status_handler b s

  handle_children-Keeps :
      (id : Text) (handler : Message → Bool) (ms : List Message) (s : Amq Message)
      → Keeps s (handle_children id handler ms s).1
  unfolding handle_children
  handle_children-Keeps id handler [] s = Keeps-refl s
  handle_children-Keeps id handler (m ∷ ms) s =
      next_do-Keeps s (call_outcome (handler m), add_event (handled id m) s)
        (handle_children id handler ms) (add_event-Keeps (handled id m) s tt)
        λ t. handle_children-Keeps id handler ms t

  call_missing-Keeps :
      (id : Text) (ms : List Message) (s : Amq Message) → Keeps s (handle_missing id ms s).1
  unfolding handle_missing
  call_missing-Keeps id [] s =
      if_keeps (λ (r : Step Message). Keeps s r.1) s.logging _ _
        (λ logged. add_event-Keeps (wrote_log (no_handler id)) s tt) λ quiet. Keeps-refl s
  call_missing-Keeps id (m ∷ ms) s =
      if_keeps (λ (r : Step Message). Keeps s r.1) s.logging _ _
        (λ logged. add_event-Keeps (wrote_log (no_handler id)) s tt) λ quiet. Keeps-refl s

  handle_found-Keeps :
      (o : Option (Option (Message → Bool))) (id : Text) (ms : List Message) (s : Amq Message)
      → Keeps s (handle_found o id ms s).1
  unfolding handle_found
  handle_found-Keeps none id ms s = call_missing-Keeps id ms s
  handle_found-Keeps (some none) id ms s = call_missing-Keeps id ms s
  handle_found-Keeps (some (some handler)) id ms s = handle_children-Keeps id handler ms s

  handle_response-Keeps :
      (node : ResponseNode Message) (s : Amq Message) → Keeps s (handle_response node s).1
  unfolding handle_response
  handle_response-Keeps node s =
      let id = property_name node.id in
      if_keeps (λ (r : Step Message). Keeps s r.1) (nat_eq node.node_type 1) _ _
        (λ element. handle_found-Keeps (lookup id s.message_handlers) id node.child_nodes s)
        λ other. Keeps-refl s

  handle_responses-Keeps :
      (nodes : List (ResponseNode Message)) (s : Amq Message) → Keeps s (handle_responses nodes s).1
  unfolding handle_responses
  handle_responses-Keeps [] s = Keeps-refl s
  handle_responses-Keeps (node ∷ nodes) s =
      next_do-Keeps s (handle_response node s) (handle_responses nodes)
        (handle_response-Keeps node s) λ t. handle_responses-Keeps nodes t

  message_handler-Keeps :
      (response : List (List (ResponseNode Message))) (s : Amq Message)
      → Keeps s (message_handler response s).1
  unfolding message_handler
  message_handler-Keeps [] s = Keeps-refl s
  message_handler-Keeps (nodes ∷ []) s =
      next_do-Keeps s (status_changed true s) (handle_responses nodes) (status_changed-Keeps true s)
        λ t. handle_responses-Keeps nodes t
  message_handler-Keeps (nodes ∷ more ∷ rest) s = Keeps-refl s

  log-Keeps :
      (line : LogLine) (s : Amq Message)
      → Keeps s (if s.logging then add_event (wrote_log line) s else s)
  log-Keeps line s =
      if_keeps (Keeps s) s.logging _ _ (λ logged. add_event-Keeps (wrote_log line) s tt)
        λ quiet. Keeps-refl s

  -- A line of the wrote_log, or none, and the next poll.
  log_then_poll-Keeps :
      (s t : Amq Message) (delay : ℕ) → Keeps s t → Keeps s (add_event (set_timeout delay) t)
  log_then_poll-Keeps s t delay k =
      Keeps-trans s t (add_event (set_timeout delay) t) k (add_event-Keeps (set_timeout delay) t tt)

  pub error_handler-Keeps :
      (http : ℕ) (status : Text) (s : Amq Message) → Keeps s (error_handler http status s).1
  unfolding error_handler
  error_handler-Keeps http status s =
      next_do-Keeps s (status_changed false s) _ (status_changed-Keeps false s)
        λ t. log-Keeps (ajax_error http status) t

  pub poll_error_handler-Keeps :
      (http : ℕ) (status : Text) (s : Amq Message) → Keeps s (poll_error_handler http status s).1
  unfolding poll_error_handler
  poll_error_handler-Keeps http status s =
      next_do-Keeps s (status_changed false s) _ (status_changed-Keeps false s)
        λ t. log_then_poll-Keeps t _ _ (log-Keeps _ t)

  finally_poll-Keeps :
      (s : Amq Message) (r : Step Message) → Keeps s r.1 → Keeps s (finally_poll r).1
  finally_poll-Keeps s (none, t) k = log_then_poll-Keeps s t t.poll_delay k
  finally_poll-Keeps s (some e, t) k =
      log_then_poll-Keeps s _ _ (Keeps-trans s t _ k (log-Keeps poll_exception t))

  pub poll_handler-Keeps :
      (response : List (List (ResponseNode Message))) (s : Amq Message)
      → Keeps s (poll_handler response s).1
  unfolding poll_handler
  poll_handler-Keeps response s =
      finally_poll-Keeps s (message_handler response s) (message_handler-Keeps response s)

  initialized-Keeps : (o : Option Bool) (s : Amq Message) → Keeps s (call_initialized o s).1
  initialized-Keeps none s = Keeps-refl s
  initialized-Keeps (some b) s = add_event-Keeps session_initialized s tt

  pub init_handler-Keeps :
      (response : List (List (ResponseNode Message))) (s : Amq Message)
      → Keeps s (init_handler response s).1
  unfolding init_handler
  init_handler-Keeps response s =
      let s' : Amq Message = record s { session_is_initialized = true } in
      next_do-Keeps s (call_initialized s.session_initialized_callback s') (poll_handler response)
        (Keeps-trans s s' _ (record { posted_same = refl; batch_same = refl; queue_same = refl })
          (initialized-Keeps s.session_initialized_callback s'))
        λ t. poll_handler-Keeps response t

  pub send_poll-Keeps : (stamp : Stamp) (s : Amq Message) → Keeps s (send_poll stamp s)
  unfolding send_poll poll_request
  send_poll-Keeps stamp s = add_event-Keeps (ajax (poll_request stamp s)) s refl
