-- ===== src/Amq/Batches.antt =====
-- The queue of amq.js when every request succeeds: each response makes endBatch send the next one.
use distributed_storage_with.Base.{
  ℕ, zero, suc, ◌≡◌, refl, sym, ◌∙◌, ap, false, List, [], ◌∷◌, ◌++◌, map, Option, subst, Text,
  arith, ◌≤◌, length, All, if◌then◌else◌, lt→ltb,
}
use mathlib.Core.List.{Perm, append_assoc, append-nil}
use mathlib.Core.List.Perm
use distributed_storage_with.Amq.{
  Amq, Jms, Queued, AmqEvent, ajax, post_request, post, add_event, start_batch, end_batch,
  send_queued, sort_messages, no_batch,
}
use distributed_storage_with.Amq.Splitting.{
  split_queue, sort_messages-split_queue, split_queue-perm, split_queue_shorter,
  split_queue-IsBatch, queued_messages, IsBatch,
}

-- The headers and the messages of a request.
abbrev pub Posted : Type 0
Posted = Option Text × List Jms

abbrev pub all_messages : List Posted → List Jms
all_messages [] = []
all_messages (b ∷ bs) = b.1 ++ all_messages bs

module _ {Message : Type 0} where
  -- As many responses, one after the other.
  pub responses : ℕ → Amq Message → Amq Message
  responses zero s = s
  responses (suc n) s = responses n (end_batch s)

  abbrev pub posts : Amq Message → List Posted → List (AmqEvent Message)
  posts s = map (λ b. ajax (post_request b.0 b.1 s))

  -- The requests that follow until the queue is sent: the first response and theirs bring the client
  -- to rest, every message of the queue is in one of them, and none mixes headers.
  pub record Drained (s : Amq Message) : Type 0 where
    pub batches : List Posted
    pub rest : responses (suc (length batches)) s ≡ record s {
      message_queue = [];
      batch_in_progress = false;
      events = s.events ++ posts s batches;
    }
    pub all_sent : Perm (all_messages batches) (queued_messages s.message_queue)
    pub separate : All (λ b. IsBatch b.0 b.1) batches

  -- The state in which the response to the next request is awaited.
  abbrev next_batch : Queued → List Queued → Amq Message → Amq Message
  next_batch q qs s =
      let b = split_queue (q ∷ qs) in
      post b.outgoing_headers b.to_send (record s { message_queue = b.to_queue })

  send_sorted : List Queued → Amq Message → Amq Message
  unfolding post
  send_sorted queue s =
      let b = sort_messages queue no_batch in
      post b.outgoing_headers b.to_send (record s { message_queue = b.to_queue })

  send_queued_more :
      (q : Queued) (qs : List Queued) (s : Amq Message)
      → send_queued (q ∷ qs) s ≡ send_sorted (q ∷ qs) s
  unfolding send_queued send_sorted
  send_queued_more q qs s =
      ap (λ more. if more then send_sorted (q ∷ qs) s else record s { batch_in_progress = false })
        (lt→ltb 0 (suc (length qs)) (omega arith))

  end_batch_next :
      (q : Queued) (qs : List Queued) (s : Amq Message)
      → s.message_queue ≡ q ∷ qs
      → end_batch s ≡ next_batch q qs s
  unfolding end_batch send_sorted
  end_batch_next q qs s e =
      ap (λ queue. send_queued queue s) e
      ∙ send_queued_more q qs s
      ∙ ap (λ b. post b.outgoing_headers b.to_send (record s { message_queue = b.to_queue }))
          (sort_messages-split_queue (q ∷ qs))

  end_batch_empty :
      (s : Amq Message)
      → s.message_queue ≡ []
      → end_batch s ≡ record s { message_queue = []; batch_in_progress = false }
  unfolding end_batch send_queued
  end_batch_empty s e =
      ap (λ queue. send_queued queue s) e
      ∙ ap (λ queue. record s { message_queue = queue; batch_in_progress = false }) e

  Drained-next :
      (q : Queued) (qs : List Queued) (s : Amq Message)
      → s.message_queue ≡ q ∷ qs
      → Drained (next_batch q qs s)
      → Drained s
  unfolding post add_event start_batch responses
  Drained-next q qs s e d =
      let b = split_queue (q ∷ qs) in
      record {
        batches = (b.outgoing_headers, b.to_send) ∷ d.batches;
        rest =
            ap (responses (suc (length d.batches))) (end_batch_next q qs s e)
            ∙ d.rest
            ∙ ap (λ es. record s { message_queue = []; batch_in_progress = false; events = es })
                (append_assoc s.events _ (posts s d.batches));
        all_sent =
            subst (λ queue. Perm (b.to_send ++ all_messages d.batches) (queued_messages queue))
              (sym e)
              (Perm.trans (Perm.append_left b.to_send d.all_sent) (split_queue-perm (q ∷ qs)));
        separate = (split_queue-IsBatch q qs, d.separate);
      }

  Drained-now : (s : Amq Message) → s.message_queue ≡ [] → Drained s
  unfolding responses
  Drained-now s e = record {
    batches = [];
    rest =
        end_batch_empty s e
        ∙ ap (λ es. record s { message_queue = []; batch_in_progress = false; events = es })
            (sym (append-nil s.events));
    all_sent = subst (λ queue. Perm [] (queued_messages queue)) (sym e) Perm.nil;
    separate = tt;
  }

  drain_queue :
      (n : ℕ) (queue : List Queued) (s : Amq Message)
      → s.message_queue ≡ queue
      → length queue ≤ n
      → Drained s
  unfolding post
  drain_queue n [] s e h = Drained-now s e
  drain_queue zero (q ∷ qs) s e h = absurd (omega arith)
  drain_queue (suc n) (q ∷ qs) s e h = Drained-next q qs s e (
      drain_queue n (split_queue (q ∷ qs)).to_queue (next_batch q qs s) refl
        (omega (arith, split_queue_shorter q qs)))

  -- However long the queue is, its messages are all sent, each once, if the requests succeed: after as
  -- many responses as there are requests, and one more for the request that is under way, the queue is
  -- empty and no request is awaited. No request mixes messages with headers with others.
  pub drain : (s : Amq Message) → Drained s
  drain s = drain_queue (length s.message_queue) s.message_queue s refl (omega arith)
