-- ===== src/Server/Transfer/Deletion.antt =====
-- KVServer.moveData deletes the pairs of the range, whatever the replies of the receiver say.
use mathlib.Core.List.{append-nil, append_assoc}
use distributed_storage_with.Base.{
  contains, ℕ, ◌≡◌, refl, sym, ap, ◌∙◌, Bool, true, false, ◌||◌, List, [], ◌∷◌, ◌++◌, Memᴰ, none,
  some, if◌then◌else◌, arith, pos, Text, text_eq, text_eq_iff, Dict, lookup, HashOrder, mem-lookup,
  ok, ◌>>=◌, Effect, Bool-cases, Option-cases, inl, inr, text_Eq,
}
use distributed_storage_with.Radix.{parse_port}
use distributed_storage_with.Ring.Range.{parse_range, in_range, split_colon, piece}
use distributed_storage_with.Messages.{KvMsg}
use distributed_storage_with.Network.{Network}
use distributed_storage_with.Storage.{JsonSimple, Storage, get_kv_object, flush_data}
use distributed_storage_with.Storage.Laws.{view, flush_data_lem, plan-get_kv_object}
use distributed_storage_with.Storage.Reading.{view-get_kv_object}
use distributed_storage_with.Server.{Server, lock_write, un_lock_write, flush_pending}
use distributed_storage_with.Server.Transfer.{
  put_message, send_pair, move_pair, move_pairs, move_connected, move_data, Both,
}

-- A machine that takes connections and answers every put, with whatever status.
pub record Answers (network : Network) (host : Text) (port : ℕ) : Type 1 where
  pub IsAlive : network.World → Type 0
  pub connects :
      (w : network.World)
      → IsAlive w
      → ((network.connect host port w).0 ≡ ok tt) × IsAlive (network.connect host port w).1
  pub replies :
      (key value : Text) (w : network.World)
      → IsAlive w
      → (reply : KvMsg) × ((network.exchange host port (put_message key value) w).0
          ≡ ok (some reply))
        × IsAlive (network.exchange host port (put_message key value) w).1

contains-append :
    (key : Text) (xs ys : List Text)
    → contains key (xs ++ ys) ≡ (contains key xs || contains key ys)
contains-append key [] ys = refl
contains-append key (x ∷ xs) ys = ground (arith, contains-append key xs ys)

module _ (hash : Text → ℕ) (start end : ℕ) where
  abbrev pub is_moved : Text → Bool
  is_moved key = in_range start end (pos (hash key))

  -- The keys that the loop picks.
  picked : List (Text × Text) → List Text
  picked [] = []
  picked ((key, value) ∷ pairs) = if is_moved key then key ∷ picked pairs else picked pairs

  contains-picked :
      (key value : Text) (pairs : List (Text × Text))
      → Memᴰ (key, value) pairs
      → is_moved key ≡ true
      → contains key (picked pairs) ≡ true
  unfolding picked
  contains-picked key value [] m h = elim m [ ]
  contains-picked key value ((k, v) ∷ pairs) (Memᴰ.head same) h =
      let e : key ≡ k = ap (λ (x : Text × Text). x.0) same in
      ground (arith, text_eq_iff k key, ap (λ k. in_range start end (pos (hash k))) e)
  contains-picked key value ((k, v) ∷ pairs) (Memᴰ.tail m) h =
      ground (arith, contains-picked key value pairs m h)

  not-contains-picked :
      (key : Text) (pairs : List (Text × Text))
      → is_moved key ≡ false
      → contains key (picked pairs) ≡ false
  unfolding picked
  not-contains-picked key [] h = refl
  not-contains-picked key ((k, v) ∷ pairs) h = elim (Bool-cases (text_eq k key)) [
    | inl same ↦
        rw (ap (λ k. in_range start end (pos (hash k))) ((text_eq_iff k key).0 same) ∙ h)
          (not-contains-picked key pairs h)
    | inr other ↦ ground (arith, not-contains-picked key pairs h)
  ]

module _ (json : JsonSimple) (hash : Text → ℕ) (order : HashOrder) (network : Network)
    (range host : Text) (port : ℕ) (start end : ℕ) (parsed : parse_range range ≡ ok (start, end))
    (peer : Answers network host port) where
  open network use {World, connect, exchange}

  abbrev awaiting :
      Server json → List Text → World → Effect (Both json hash order network) (Unit {0})
  awaiting s keys w = (ok tt, (record s { data_to_flush = keys }, w))

  -- The loop ends, and has put the picked keys behind those that were waiting to be flushed.
  record PairsMoved (pairs : List (Text × Text)) (s : Server json) (w : World) : Type 0 where
    world : World
    alive : peer.IsAlive world
    ends :
        move_pairs json hash order network range host port pairs (s, w)
        ≡ awaiting s (s.data_to_flush ++ picked hash start end pairs) world

  move_pairs_lem :
      (pairs : List (Text × Text)) (s : Server json) (w : World)
      → peer.IsAlive w
      → PairsMoved pairs s w
  unfolding move_pairs move_pair send_pair picked
  move_pairs_lem [] s w alive = record {
    world = w;
    alive = alive;
    ends = ap (λ ks. awaiting s ks w) (sym (append-nil s.data_to_flush));
  }
  move_pairs_lem ((key, value) ∷ pairs) s w alive =
      elim (Bool-cases (is_moved hash start end key)) [
        | inl moved ↦
            let (reply, answered, alive') = peer.replies key value w alive in
            let s' : Server json = record s { data_to_flush = s.data_to_flush ++ key ∷ [] } in
            let rest =
              move_pairs_lem pairs s' (exchange host port (put_message key value) w).1 alive' in
            record {
              world = rest.world;
              alive = rest.alive;
              ends = rw parsed (
                  rw moved (
                    rw answered (
                      rest.ends
                      ∙ ap (λ ks. awaiting s ks rest.world)
                          (append_assoc s.data_to_flush (key ∷ [])
                            (picked hash start end pairs)))));
            }
        | inr kept ↦
            let rest = move_pairs_lem pairs s w alive in
            record { world = rest.world; alive = rest.alive; ends = rw parsed (rw kept rest.ends) }
      ]

  -- The keys that are gone after the move.
  abbrev pub gone : Server json → Text → Bool
  gone s key = contains key s.data_to_flush || is_moved hash start end key

  -- What the server is after the move.
  pub record Moved (s : Server json) (e : Effect (Both json hash order network) (Unit {0}))
      : Type 0 where
    pub returned : e.0 ≡ ok tt
    pub alive_after : peer.IsAlive e.1.1
    pub unlocked : e.1.0.write_lock ≡ false
    pub flushed_all : e.1.0.data_to_flush ≡ []
    pub contents_after :
        (key : Text)
        → view json e.1.0.storage key ≡ (if gone s key then none else view json s.storage key)

  flushed_view :
      (s : Server json) (pairs : List (Text × Text)) (key : Text)
      → s.storage.plan ≡ []
      → ((value : Text) → view json s.storage key ≡ some value → Memᴰ (key, value) pairs)
      → view json (flush_data json (s.data_to_flush ++ picked hash start end pairs) s.storage).1 key
        ≡ (if gone s key then none else view json s.storage key)
  flushed_view s pairs key plan listed =
      let keys = s.data_to_flush ++ picked hash start end pairs in
      (flush_data_lem json keys s.storage plan).2 key
      ∙ rw (contains-append key s.data_to_flush (picked hash start end pairs))
          (elim (Bool-cases (is_moved hash start end key)) [
            | inr kept ↦ rw (not-contains-picked hash start end key pairs kept, kept)
            | inl moved ↦ elim (Option-cases (view json s.storage key)) [
              | inl absent ↦ ground (arith)
              | inr (value, held) ↦
                  rw (
                    contains-picked hash start end key value pairs (listed value held) moved,
                    moved,
                  )
            ]
          ])

  move_connected_lem :
      (object : Dict Text Text) (s : Server json) (w : World)
      → s.storage.plan ≡ []
      → ((key : Text) → lookup key object ≡ view json s.storage key)
      → peer.IsAlive w
      → Moved s (move_connected json hash order network range host port object (s, w))
  unfolding move_connected flush_pending un_lock_write
  move_connected_lem object s w plan same alive =
      let pairs = order.order object in
      let moved = move_pairs_lem pairs s w alive in
      let keys = s.data_to_flush ++ picked hash start end pairs in
      let (returned, plan', _) = flush_data_lem json keys s.storage plan in
      rw moved.ends (
        rw (pair_eta (flush_data json keys s.storage) returned) (record {
          returned = refl;
          alive_after = moved.alive;
          unlocked = refl;
          flushed_all = refl;
          contents_after = λ key. flushed_view s pairs key plan (λ value held.
              order.visits object (key, value) (mem-lookup key value object (same key ∙ held)));
        }))
    where
      pair_eta : {S : Type 0} (e : Effect S (Unit {0})) → e.0 ≡ ok tt → e ≡ (ok tt, e.1)
      pair_eta e h = λ i. (h i, e.1)

  view_object :
      (storage : Storage json) (key : Text)
      → lookup key (get_kv_object json storage).0 ≡ view json storage key
  unfolding view
  view_object storage key = refl

  -- A moveData to a machine that can be reached and answers every put ends without an exception,
  -- whatever the answers say: no key of the range, and no key that was waiting to be flushed, is in
  -- the storage any more, every other key holds what it held, and the server is not locked. The
  -- range and the address can be read, and the server's own disk works.
  pub move_data_deletes :
      (send_to : Text) (s : Server json) (w : World)
      → piece 0 (split_colon send_to) ≡ ok host
      → (piece 1 (split_colon send_to) >>= parse_port) ≡ ok port
      → s.storage.plan ≡ []
      → peer.IsAlive w
      → Moved s (move_data json hash order network range send_to (s, w))
  unfolding move_data lock_write
  move_data_deletes send_to s w to_host to_port plan alive =
      let (object, storage') = get_kv_object json s.storage in
      let s2 : Server json = record s { write_lock = true; storage = storage' } in
      let (connected, alive') = peer.connects w alive in
      let same : (key : Text) → lookup key object ≡ view json s2.storage key =
        λ key. view_object s.storage key ∙ sym (view-get_kv_object json s.storage key plan) in
      let moved =
        move_connected_lem object s2 (connect host port w).1
          (plan-get_kv_object json s.storage plan) same alive' in
      rw to_host (
        rw to_port (
          rw connected (record {
            returned = moved.returned;
            alive_after = moved.alive_after;
            unlocked = moved.unlocked;
            flushed_all = moved.flushed_all;
            contents_after = λ key.
                moved.contents_after key
                ∙ ap (λ o. if gone s key then none else o)
                    (view-get_kv_object json s.storage key plan);
          })))
