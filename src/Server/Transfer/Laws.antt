-- ===== src/Server/Transfer/Laws.antt =====
-- What KVServer.moveData does to the server that runs it.
use distributed_storage_with.Base.{
  ℕ, ◌≡◌, refl, ◌∙◌, Bool, true, List, [], ◌∷◌, arith, Text, Dict, HashOrder, Result, ok, throw,
  Exception, ◌>>=◌, Effect, proceed, text_Eq,
}
use distributed_storage_with.Radix.{parse_port}
use distributed_storage_with.Ring.Range.{split_colon, piece}
use distributed_storage_with.Network.{Network}
use distributed_storage_with.Storage.{JsonSimple, get_kv_object}
use distributed_storage_with.Server.{Server, lock_write, un_lock_write, flush_pending}
use distributed_storage_with.Server.Transfer.{
  then_next, send_pair, move_pair, move_pairs, move_connected, move_data, on_server, Both,
}

module _ (json : JsonSimple) (hash : Text → ℕ) (order : HashOrder) (network : Network) where
  open network use {World, connect, exchange}

  -- Nothing that precedes the last statement releases the lock.
  send_pair_locked :
      (host : Text) (port : ℕ) (key value : Text) (both : Both json hash order network)
      → (send_pair json hash order network host port key value both).1.0.write_lock
        ≡ both.0.write_lock
  unfolding send_pair
  send_pair_locked host port key value both = refl

  move_pair_locked :
      (range host : Text) (port : ℕ) (key value : Text) (both : Both json hash order network)
      → (move_pair json hash order network range host port key value both).1.0.write_lock
        ≡ both.0.write_lock
  unfolding move_pair
  move_pair_locked range host port key value both =
      ground (arith, send_pair_locked host port key value both)

  then_next_locked :
      (e : Effect (Both json hash order network) (Unit {0}))
      (f : Both json hash order network → Effect (Both json hash order network) (Unit {0}))
      (b : Bool)
      → e.1.0.write_lock ≡ b
      → ((both : Both json hash order network)
          → both.0.write_lock ≡ b
          → (f both).1.0.write_lock ≡ b)
      → (then_next e f).1.0.write_lock ≡ b
  then_next_locked (ok _, both) f b h k = k both h
  then_next_locked (throw _, both) f b h k = h

  move_pairs_locked :
      (range host : Text) (port : ℕ) (pairs : List (Text × Text))
      (both : Both json hash order network) (b : Bool)
      → both.0.write_lock ≡ b
      → (move_pairs json hash order network range host port pairs both).1.0.write_lock ≡ b
  unfolding move_pairs
  move_pairs_locked range host port [] both b h = h
  move_pairs_locked range host port ((key, value) ∷ pairs) both b h =
      then_next_locked (move_pair json hash order network range host port key value both)
        (move_pairs json hash order network range host port pairs) b
        (move_pair_locked range host port key value both ∙ h)
        (λ both' h'. move_pairs_locked range host port pairs both' b h')

  flush_pending_locked : (s : Server json) → (flush_pending json s).1.write_lock ≡ s.write_lock
  unfolding flush_pending
  flush_pending_locked s = ground arith

  move_connected_throws :
      (range host : Text) (port : ℕ) (object : Dict Text Text) (both : Both json hash order network)
      (x : Exception)
      → both.0.write_lock ≡ true
      → (move_connected json hash order network range host port object both).0 ≡ throw x
      → (move_connected json hash order network range host port object both).1.0.write_lock ≡ true
  unfolding move_connected
  move_connected_throws range host port object both x locked h =
      after_pairs (move_pairs json hash order network range host port (order.order object) both)
        (move_pairs_locked range host port (order.order object) both true locked) h
    where
      release : Both json hash order network → Effect (Both json hash order network) (Unit {0})
      release both = (ok tt, (un_lock_write json both.0, both.1))

      after_flush :
          (e : Effect (Both json hash order network) (Unit {0}))
          → e.1.0.write_lock ≡ true
          → (then_next e release).0 ≡ throw x
          → (then_next e release).1.0.write_lock ≡ true
      after_flush (ok _, both) l h = absurd (cc)
      after_flush (throw _, both) l h = l

      after_pairs :
          (e : Effect (Both json hash order network) (Unit {0}))
          → e.1.0.write_lock ≡ true
          → (then_next e
              (λ b. then_next (on_server json hash order network (flush_pending json) b) release)).0
            ≡ throw x
          → (then_next e (λ b.
              then_next
                (on_server json hash order network (flush_pending json) b)
                release)).1.0.write_lock
            ≡ true
      after_pairs (ok _, both) l h =
          after_flush (on_server json hash order network (flush_pending json) both)
            (flush_pending_locked both.0 ∙ l) h
      after_pairs (throw _, both) l h = l

  proceed_throws :
      {A : Type 0} (r : Result A) (both : Both json hash order network)
      (f : A → Effect (Both json hash order network) (Unit {0})) (x : Exception)
      → both.0.write_lock ≡ true
      → ((a : A) → (f a).0 ≡ throw x → (f a).1.0.write_lock ≡ true)
      → (proceed r both f).0 ≡ throw x
      → (proceed r both f).1.0.write_lock ≡ true
  proceed_throws (ok a) both f x l k h = k a h
  proceed_throws (throw e) both f x l k h = l

  -- A moveData that ends with an exception, whichever, leaves its server locked for writing.
  pub move_data_throws :
      (range send_to : Text) (both : Both json hash order network) (x : Exception)
      → (move_data json hash order network range send_to both).0 ≡ throw x
      → (move_data json hash order network range send_to both).1.0.write_lock ≡ true
  unfolding move_data lock_write
  move_data_throws range send_to both x h =
      let (object, storage') = get_kv_object json both.0.storage in
      let s2 : Server json = record both.0 { write_lock = true; storage = storage' } in
      proceed_throws (piece 0 (split_colon send_to)) (s2, both.1) _ x refl
        (λ host.
          proceed_throws (piece 1 (split_colon send_to) >>= parse_port) (s2, both.1) _ x refl
            λ port.
              proceed_throws (connect host port both.1).0 (s2, (connect host port both.1).1) _ x
                refl
                λ done.
                  move_connected_throws range host port object (s2, (connect host port both.1).1) x
                    refl)
        h
