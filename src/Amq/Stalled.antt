-- ===== src/Amq/Stalled.antt =====
-- What is left of amq.js's sending when a request fails: errorHandler does not end the batch.
use distributed_storage_with.Base.{
  ℕ, ◌≡◌, refl, sym, ◌∙◌, ap, Bool, true, List, [], ◌∷◌, ◌++◌, Option, none, some, if_keeps, Text,
  text_Eq, codes, insert,
}
use mathlib.Core.List.{append_assoc, append-nil}
use distributed_storage_with.Amq.{
  Amq, adapter_init, Queued, ResponseNode, send_jms_message, send_message, add_listener,
  remove_listener, selector_headers,
}
use distributed_storage_with.Amq.Polling.{
  Stamp, AmqOptions, send_poll, init, error_handler, poll_error_handler, poll_handler, init_handler,
}
use distributed_storage_with.Amq.Polling.Frames.{
  Keeps, Keeps-trans, posted, add_event-Keeps, error_handler-Keeps, poll_error_handler-Keeps,
  poll_handler-Keeps, init_handler-Keeps, send_poll-Keeps,
}

-- What may happen while no response to a request of endBatch or sendJmsMessage is awaited.
pub data AmqInput (Message : Type 0) : Type 0 where
  asked_to_send : Text → Text → AmqInput Message
  listened : Text → Text → (Message → Bool) → Option Text → AmqInput Message
  unlistened : Text → Text → AmqInput Message
  timer_fired : Stamp → AmqInput Message
  polled session_began : List (List (ResponseNode Message)) → AmqInput Message
  poll_failed : ℕ → Text → AmqInput Message
  restarted : AmqOptions → Stamp → AmqInput Message

abbrev asked : Text → Text → Text → Option Text → List Queued
asked destination text message_type headers =
    record {
      message = record { destination = destination; message = text; message_type = message_type };
      headers = headers;
    }
    ∷ []

module _ {Message : Type 0} where
  -- What is thrown ends the call, not the client.
  unfoldable pub on_input : AmqInput Message → Amq Message → Amq Message
  unfolding send_message add_listener remove_listener send_poll poll_handler init_handler
      poll_error_handler init
  on_input (asked_to_send destination text) s = send_message destination text s
  on_input (listened id destination handler selector) s =
      add_listener id destination handler selector s
  on_input (unlistened id destination) s = remove_listener id destination s
  on_input (timer_fired stamp) s = send_poll stamp s
  on_input (polled response) s = (poll_handler response s).1
  on_input (session_began response) s = (init_handler response s).1
  on_input (poll_failed http status) s = (poll_error_handler http status s).1
  on_input (restarted options stamp) s = init options stamp s

  unfoldable pub on_inputs : List (AmqInput Message) → Amq Message → Amq Message
  unfolding on_input
  on_inputs [] s = s
  on_inputs (i ∷ is) s = on_inputs is (on_input i s)

  -- The message that an input asks to send.
  abbrev request_of : AmqInput Message → List Queued
  request_of (asked_to_send destination text) = asked destination text (codes "send") none
  request_of (listened id destination handler selector) =
      asked destination id (codes "listen") (selector_headers selector)
  request_of (unlistened id destination) = asked destination id (codes "unlisten") none
  request_of _ = []

  abbrev pub requests_of : List (AmqInput Message) → List Queued
  requests_of [] = []
  requests_of (i ∷ is) = request_of i ++ requests_of is

  -- A batch that is not over, in which the messages wait.
  record Waits (s t : Amq Message) (queued : List Queued) : Type 0 where
    posted_same : posted t.events ≡ posted s.events
    batch_open : t.batch_in_progress ≡ true
    queue_longer : t.message_queue ≡ s.message_queue ++ queued

  Keeps-Waits : (s t : Amq Message) → s.batch_in_progress ≡ true → Keeps s t → Waits s t []
  Keeps-Waits s t open_batch k = record {
    posted_same = k.posted_same;
    batch_open = k.batch_same ∙ open_batch;
    queue_longer = k.queue_same ∙ sym (append-nil s.message_queue);
  }

  send-Waits :
      (destination text message_type : Text) (headers : Option Text) (s : Amq Message)
      → s.batch_in_progress ≡ true
      → Waits s
          (send_jms_message destination text message_type headers s)
          (asked destination text message_type headers)
  unfolding send_jms_message
  send-Waits destination text message_type headers s open_batch =
      if_keeps (λ t. Waits s t (asked destination text message_type headers)) s.batch_in_progress _
        _ (λ _. record { posted_same = refl; batch_open = open_batch; queue_longer = refl })
        λ closed. absurd (cc)

  -- The handlers of the messages do not matter.
  Waits-from :
      (s s' t : Amq Message) (queued : List Queued)
      → s'.events ≡ s.events
      → s'.message_queue ≡ s.message_queue
      → Waits s' t queued
      → Waits s t queued
  Waits-from s s' t queued e q w = record {
    posted_same = w.posted_same ∙ ap posted e;
    batch_open = w.batch_open;
    queue_longer = w.queue_longer ∙ ap (λ queue. queue ++ queued) q;
  }

  restart-Waits :
      (options : AmqOptions) (stamp : Stamp) (s : Amq Message)
      → s.batch_in_progress ≡ true
      → Waits s (init options stamp s) []
  unfolding init
  restart-Waits options stamp s h = Keeps-Waits s _ h (
      Keeps-trans s _ _
        (Keeps-trans s _ _ (record { posted_same = refl; batch_same = refl; queue_same = refl })
          (add_event-Keeps adapter_init _ tt))
        (send_poll-Keeps stamp _))

  on_input-Waits :
      (i : AmqInput Message) (s : Amq Message)
      → s.batch_in_progress ≡ true
      → Waits s (on_input i s) (request_of i)
  unfolding on_input send_message add_listener remove_listener init
  on_input-Waits (asked_to_send destination text) s h =
      send-Waits destination text (codes "send") none s h
  on_input-Waits (listened id destination handler selector) s h =
      let s' : Amq Message = record s {
        message_handlers = insert id (some handler) s.message_handlers;
      } in
      Waits-from s s' _ _ refl refl
        (send-Waits destination id (codes "listen") (selector_headers selector) s' h)
  on_input-Waits (unlistened id destination) s h =
      let s' : Amq Message = record s { message_handlers = insert id none s.message_handlers } in
      Waits-from s s' _ _ refl refl (send-Waits destination id (codes "unlisten") none s' h)
  on_input-Waits (timer_fired stamp) s h = Keeps-Waits s _ h (send_poll-Keeps stamp s)
  on_input-Waits (polled response) s h = Keeps-Waits s _ h (poll_handler-Keeps response s)
  on_input-Waits (session_began response) s h = Keeps-Waits s _ h (init_handler-Keeps response s)
  on_input-Waits (poll_failed http status) s h =
      Keeps-Waits s _ h (poll_error_handler-Keeps http status s)
  on_input-Waits (restarted options stamp) s h = restart-Waits options stamp s h

  on_inputs-Waits :
      (is : List (AmqInput Message)) (s : Amq Message)
      → s.batch_in_progress ≡ true
      → Waits s (on_inputs is s) (requests_of is)
  unfolding on_inputs
  on_inputs-Waits [] s h =
      Keeps-Waits s s h (record { posted_same = refl; batch_same = refl; queue_same = refl })
  on_inputs-Waits (i ∷ is) s h =
      let first = on_input-Waits i s h in
      let later = on_inputs-Waits is (on_input i s) first.batch_open in
      record {
        posted_same = later.posted_same ∙ first.posted_same;
        batch_open = later.batch_open;
        queue_longer =
            later.queue_longer
            ∙ ap (λ queue. queue ++ requests_of is) first.queue_longer
            ∙ append_assoc s.message_queue (request_of i) (requests_of is);
      }

  -- Once the request of a batch has failed, no further one is posted, whatever the application asks
  -- for, whatever the polls bring, and if it calls `init` again: the batch stays open, and what is to
  -- be sent is added to the queue. Only a call of `endBatch` by the application could end this.
  pub failed_post_stalls :
      (http : ℕ) (status : Text) (is : List (AmqInput Message)) (s : Amq Message)
      → s.batch_in_progress ≡ true
      → let t = on_inputs is (error_handler http status s).1 in
        (posted t.events ≡ posted s.events)
        × (t.batch_in_progress ≡ true)
        × (t.message_queue ≡ s.message_queue ++ requests_of is)
  failed_post_stalls http status is s h =
      let k = error_handler-Keeps http status s in
      let w = on_inputs-Waits is (error_handler http status s).1 (k.batch_same ∙ h) in
      (
        w.posted_same ∙ k.posted_same,
        w.batch_open,
        w.queue_longer ∙ ap (λ queue. queue ++ requests_of is) k.queue_same,
      )
