-- ===== src/Amq/Splitting.antt =====
-- endBatch's loop over the queue: which messages go together into the next request.
use distributed_storage_with.Base.{
  ◌≡◌, refl, ◌∙◌, ap, List, [], ◌∷◌, ◌++◌, map, Option, none, some, Text, arith, ◌≤◌, length,
}
use mathlib.Core.List.{Perm, append-nil, append_assoc, perm_middle}
use mathlib.Core.List.Perm
use distributed_storage_with.Amq.{
  Jms, Queued, Batch, sort_message, sort_by_headers, sort_messages, no_batch,
}

abbrev if_plain {ℓ} : {A : Type ℓ} → Option Text → A → A → A
if_plain none x y = x
if_plain (some h) x y = y

-- The messages without headers, and the queue without them.
pub plain_messages : List Queued → List Jms
plain_messages [] = []
plain_messages (q ∷ qs) = let rest = plain_messages qs in if_plain q.headers (q.message ∷ rest) rest

pub with_headers : List Queued → List Queued
with_headers [] = []
with_headers (q ∷ qs) = let rest = with_headers qs in if_plain q.headers rest (q ∷ rest)

abbrev split_at_head : Option Text → Queued → List Queued → Batch
split_at_head (some h) q qs = record {
  to_send = q.message ∷ [];
  to_queue = qs;
  outgoing_headers = some h;
}
split_at_head none q qs = record {
  to_send = q.message ∷ plain_messages qs;
  to_queue = with_headers qs;
  outgoing_headers = none;
}

-- The first message alone if it has headers; else every message that has none.
abbrev pub split_queue : List Queued → Batch
split_queue [] = no_batch
split_queue (q ∷ qs) = split_at_head q.headers q qs

later_step :
    (o : Option Text) (h : Text) (q : Queued) (m : Jms) (ms : List Jms) (later : List Queued)
    → sort_by_headers o
        (some h)
        q
        (record { to_send = m ∷ ms; to_queue = later; outgoing_headers = some h })
      ≡ record { to_send = m ∷ ms; to_queue = later ++ q ∷ []; outgoing_headers = some h }
unfolding sort_by_headers
later_step none h q m ms later = refl
later_step (some g) h q m ms later = refl

-- Behind a message with headers, all others wait.
sort_behind_headers :
    (qs : List Queued) (h : Text) (m : Jms) (ms : List Jms) (later : List Queued)
    → sort_messages qs (record { to_send = m ∷ ms; to_queue = later; outgoing_headers = some h })
      ≡ record { to_send = m ∷ ms; to_queue = later ++ qs; outgoing_headers = some h }
unfolding sort_messages sort_message
sort_behind_headers [] h m ms later = rw append-nil
sort_behind_headers (q ∷ qs) h m ms later =
    rw (later_step q.headers h q m ms later, sort_behind_headers qs h m ms (later ++ q ∷ []))
      (rw append_assoc)

abbrev mixed : List Jms → List Queued → Batch
mixed ms later = record { to_send = ms; to_queue = later; outgoing_headers = none }

mixed_step :
    (o : Option Text) (q : Queued) (m : Jms) (ms : List Jms) (later : List Queued)
    → sort_by_headers o none q (mixed (m ∷ ms) later)
      ≡ if_plain o (mixed (m ∷ ms ++ q.message ∷ []) later) (mixed (m ∷ ms) (later ++ q ∷ []))
unfolding sort_by_headers
mixed_step none q m ms later = refl
mixed_step (some g) q m ms later = refl

sort_behind_either :
    (o : Option Text) (q : Queued) (qs : List Queued) (m : Jms) (ms : List Jms)
    (later : List Queued)
    → ((ms' : List Jms) (later' : List Queued)
        → sort_messages qs (mixed (m ∷ ms') later')
          ≡ mixed (m ∷ ms' ++ plain_messages qs) (later' ++ with_headers qs))
    → sort_messages qs (sort_by_headers o none q (mixed (m ∷ ms) later))
      ≡ mixed
          (m ∷ ms ++ if_plain o (q.message ∷ plain_messages qs) (plain_messages qs))
          (later ++ if_plain o (with_headers qs) (q ∷ with_headers qs))
sort_behind_either none q qs m ms later rest =
    ap (sort_messages qs) (mixed_step none q m ms later)
    ∙ rest (ms ++ q.message ∷ []) later
    ∙ (rw append_assoc)
sort_behind_either (some h) q qs m ms later rest =
    ap (sort_messages qs) (mixed_step (some h) q m ms later)
    ∙ rest ms (later ++ q ∷ [])
    ∙ (rw append_assoc)

-- Behind a message without headers, those that have none go along.
sort_behind_plain :
    (qs : List Queued) (m : Jms) (ms : List Jms) (later : List Queued)
    → sort_messages qs (mixed (m ∷ ms) later)
      ≡ mixed (m ∷ ms ++ plain_messages qs) (later ++ with_headers qs)
unfolding sort_messages sort_message plain_messages with_headers
sort_behind_plain [] m ms later = rw (append-nil, append-nil)
sort_behind_plain (q ∷ qs) m ms later =
    sort_behind_either q.headers q qs m ms later λ ms' later'. sort_behind_plain qs m ms' later'

split_lem :
    (o : Option Text) (q : Queued) (qs : List Queued)
    → sort_messages qs (sort_by_headers o none q no_batch) ≡ split_at_head o q qs
unfolding sort_by_headers
split_lem none q qs = sort_behind_plain qs q.message [] []
split_lem (some h) q qs = sort_behind_headers qs h q.message [] []

-- The loop takes the first message alone if it has headers, and else all that have none; the others
-- stay queued, in their order.
pub sort_messages-split_queue : (qs : List Queued) → sort_messages qs no_batch ≡ split_queue qs
unfolding sort_messages sort_message
sort_messages-split_queue [] = refl
sort_messages-split_queue (q ∷ qs) = split_lem q.headers q qs

abbrev pub queued_messages : List Queued → List Jms
queued_messages = map (λ q. q.message)

plain_perm :
    (o : Option Text) (q : Queued) (ms rest : List Jms) (later : List Queued)
    → Perm (ms ++ queued_messages later) rest
    → Perm
        (if_plain o (q.message ∷ ms) ms ++ queued_messages (if_plain o later (q ∷ later)))
        (q.message ∷ rest)
plain_perm none q ms rest later p = Perm.cons q.message p
plain_perm (some h) q ms rest later p =
    Perm.trans (perm_middle ms (queued_messages later)) (Perm.cons q.message p)

with_headers_perm :
    (qs : List Queued)
    → Perm (plain_messages qs ++ queued_messages (with_headers qs)) (queued_messages qs)
unfolding plain_messages with_headers
with_headers_perm [] = Perm.nil
with_headers_perm (q ∷ qs) =
    plain_perm q.headers q (plain_messages qs) (queued_messages qs) (with_headers qs)
      (with_headers_perm qs)

split_perm :
    (o : Option Text) (q : Queued) (qs : List Queued)
    → Perm
        ((split_at_head o q qs).to_send ++ queued_messages (split_at_head o q qs).to_queue)
        (q.message ∷ queued_messages qs)
split_perm none q qs = Perm.cons q.message (with_headers_perm qs)
split_perm (some h) q qs = Perm.refl _

-- No message is lost or doubled.
pub split_queue-perm :
    (qs : List Queued)
    → Perm
        ((split_queue qs).to_send ++ queued_messages (split_queue qs).to_queue)
        (queued_messages qs)
split_queue-perm [] = Perm.nil
split_queue-perm (q ∷ qs) = split_perm q.headers q qs

with_headers_shorter : (qs : List Queued) → length (with_headers qs) ≤ length qs
unfolding with_headers
with_headers_shorter [] = omega arith
with_headers_shorter (q ∷ qs) = ground (arith, with_headers_shorter qs)

split_shorter :
    (o : Option Text) (q : Queued) (qs : List Queued)
    → length (split_at_head o q qs).to_queue ≤ length qs
split_shorter none q qs = with_headers_shorter qs
split_shorter (some h) q qs = omega arith

pub split_queue_shorter :
    (q : Queued) (qs : List Queued) → length (split_queue (q ∷ qs)).to_queue ≤ length qs
split_queue_shorter q qs = split_shorter q.headers q qs

-- A request carries a message, and with headers only one.
abbrev pub IsBatch : Option Text → List Jms → Type 0
IsBatch o [] = ⊥
IsBatch none (m ∷ ms) = Unit
IsBatch (some h) (m ∷ ms) = ms ≡ []

split_IsBatch :
    (o : Option Text) (q : Queued) (qs : List Queued)
    → IsBatch (split_at_head o q qs).outgoing_headers (split_at_head o q qs).to_send
split_IsBatch none q qs = tt
split_IsBatch (some h) q qs = refl

pub split_queue-IsBatch :
    (q : Queued) (qs : List Queued)
    → IsBatch (split_queue (q ∷ qs)).outgoing_headers (split_queue (q ∷ qs)).to_send
split_queue-IsBatch q qs = split_IsBatch q.headers q qs
