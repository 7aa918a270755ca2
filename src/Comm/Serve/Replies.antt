-- ===== src/Comm/Serve/Replies.antt =====
-- What a client sees of a server, and what the server's map from keys to values becomes.
use distributed_storage_with.Base.{
  equals_refl, sym, ◌≤◌, ◌<◌, ℕ, ◌≡◌, refl, ap, ◌∙◌, true, false, ◌||◌, [], ◌++◌, Option, none,
  some, if◌then◌else◌, ltb, arith, Text, text_eq, text_Eq, ok,
}
use distributed_storage_with.Messages.{get, get_success, put, put_success}
use distributed_storage_with.Storage.{JsonSimple, is_delete}
use distributed_storage_with.Storage.Laws.{view, stored, fetch-view, in_storage-view}
use distributed_storage_with.Server.{Server, is_responsible, get_kv, holds_key}
use distributed_storage_with.Comm.Serve.{
  utf8_length, got, serve, serve_get, serve_put, serve_stored, answer, size_violated,
}
use distributed_storage_with.Storage.Reading.{view-get_kv_object, state-in_storage, state-fetch}
use distributed_storage_with.Storage.Laws.{plan-get_kv_object}
use distributed_storage_with.Comm.Serve.Puts.{
  contents, IsServing, held, put_status, changes, PutDone, serve_stored_lem,
}
use distributed_storage_with.Comm.Serve.Refusals.{request}

key_length_fits : (n : ℕ) → 1 ≤ n → n ≤ 20 → (ltb n 1 || ltb 20 n || ltb 122880 n) ≡ false
key_length_fits n low high = ground arith

size_fits :
    (key : Text) (value : Option Text)
    → 1 ≤ utf8_length key
    → utf8_length key ≤ 20
    → size_violated key value ≡ false
unfolding size_violated
size_fits key value low high = key_length_fits (utf8_length key) low high

module _ (json : JsonSimple) (hash : Text → ℕ) where
  plan-holds_key :
      (key : Text) (s : Server json)
      → s.storage.plan ≡ []
      → (holds_key json key s).1.storage.plan ≡ []
  unfolding holds_key
  plan-holds_key key s h =
      rw (state-in_storage json key s.storage) (plan-get_kv_object json s.storage h)

  contents-holds_key :
      (key j : Text) (s : Server json)
      → s.storage.plan ≡ []
      → contents json (holds_key json key s).1 j ≡ contents json s j
  unfolding holds_key
  contents-holds_key key j s h =
      rw (state-in_storage json key s.storage) (view-get_kv_object json s.storage j h)

  found-holds_key :
      (key : Text) (s : Server json)
      → s.storage.plan ≡ []
      → held (contents json (holds_key json key s).1 key) ≡ (holds_key json key s).0
  unfolding holds_key
  found-holds_key key s h =
      rw
        (
          state-in_storage json key s.storage,
          view-get_kv_object json s.storage key h,
          in_storage-view json key s.storage,
        )
        (held_elim (view json s.storage key))
    where
      held_elim : (o : Option Text) → held o ≡ elim o [ none ↦ false | some _ ↦ true ]
      held_elim none = refl
      held_elim (some v) = refl

  -- Looking up the key before a put changes nothing that the put's effect is told by.
  PutDone-holds_key :
      (key : Text) (value : Option Text) (s s' : Server json)
      → s.storage.plan ≡ []
      → PutDone json key value (holds_key json key s).1 s'
      → PutDone json key value s s'
  PutDone-holds_key key value s s' plan done = record {
    contents_after = λ j.
        done.contents_after j
        ∙ ap (λ o. if text_eq key j then stored json value else o)
            (contents-holds_key key j s plan);
    healthy_after = done.healthy_after;
    rest = unfold holds_key in done.rest;
    published_after =
        done.published_after
        ∙ ap
            (λ o.
              (holds_key json key s).1.published
              ++ changes json (held o) (is_delete value) key value)
            (contents-holds_key key key s plan)
        ∙ (unfold holds_key in refl);
  }

  serve_put_accepted :
      (key : Text) (value : Option Text) (s : Server json)
      → IsServing json hash key s
      → s.write_lock ≡ false
      → size_violated key value ≡ false
      → serve json hash (request put key value) s
        ≡ serve_stored json hash
            (holds_key json key s).0
            (is_delete value)
            key
            value
            (holds_key json key s).1
  unfolding serve serve_put
  serve_put_accepted key value s serving unlocked fits =
      simp (serving.started, unlocked, fits, serving.responsible)

  broker-holds_key : (key : Text) (s : Server json) → (holds_key json key s).1.broker ≡ s.broker
  unfolding holds_key
  broker-holds_key key s = refl

  -- A put leaves the server able to serve.
  pub PutDone-IsServing :
      (key : Text) (value : Option Text) (s s' : Server json)
      → IsServing json hash key s
      → PutDone json key value s s'
      → IsServing json hash key s'
  unfolding is_responsible
  PutDone-IsServing key value s s' serving done = record {
    started = ap (λ (x : Server json). x.stopped) done.rest ∙ serving.started;
    healthy = done.healthy_after;
    connected = ap (λ (x : Server json). x.broker) done.rest ∙ serving.connected;
    responsible = ap (is_responsible json hash key) done.rest ∙ serving.responsible;
  }

  -- A started server that is responsible for the key, is not locked and accepts the key's size takes
  -- every put, while its disk and its publisher work: the reply tells whether the pair was stored,
  -- updated, deleted or not there to delete; then the key holds the value, or nothing if the value is
  -- a request to delete, every other key holds what it held, and the change is published, except for
  -- the deletion of a key that is not there; nothing else of the server changes.
  pub serve_put_lem :
      (key : Text) (value : Option Text) (s : Server json)
      → IsServing json hash key s
      → s.write_lock ≡ false
      → size_violated key value ≡ false
      → let r = serve json hash (request put key value) s in
        (r.0 ≡ ok (answer (put_status (held (contents json s key)) (is_delete value)) key value))
        × PutDone json key value s r.1
  serve_put_lem key value s serving unlocked fits =
      let s1 = (holds_key json key s).1 in
      let found = found-holds_key key s serving.healthy in
      let same = ap held (contents-holds_key key key s serving.healthy) in
      let (replied, done) =
        serve_stored_lem json hash (holds_key json key s).0 (is_delete value) key value s1
          (plan-holds_key key s serving.healthy) (broker-holds_key key s ∙ serving.connected) found
          refl in
      rw (serve_put_accepted key value s serving unlocked fits) (
        replied
            ∙ ap (λ b. ok (answer (put_status b (is_delete value)) key value)) (sym found ∙ same),
        PutDone-holds_key key value s _ serving.healthy done,
      )

  serve_get_accepted :
      (key : Text) (value : Option Text) (s : Server json)
      → IsServing json hash key s
      → serve json hash (request get key value) s
        ≡ (ok (got key (get_kv json key s).0), (get_kv json key s).1)
  unfolding serve serve_get
  serve_get_accepted key value s serving = simp (serving.started, serving.responsible)

  contents-get_kv :
      (key j : Text) (s : Server json)
      → s.storage.plan ≡ []
      → contents json (get_kv json key s).1 j ≡ contents json s j
  unfolding get_kv
  contents-get_kv key j s h =
      rw (state-fetch json key s.storage) (view-get_kv_object json s.storage j h)

  value-get_kv : (key : Text) (s : Server json) → (get_kv json key s).0 ≡ contents json s key
  unfolding get_kv
  value-get_kv key s = fetch-view json key s.storage

  -- A started server that is responsible for the key answers a get with the value that the key
  -- holds, or with GET_ERROR if there is none, locked for writing or not; every key keeps what it
  -- holds. Its disk and its publisher work.
  pub serve_get_lem :
      (key : Text) (value : Option Text) (s : Server json)
      → IsServing json hash key s
      → let r = serve json hash (request get key value) s in
        (r.0 ≡ ok (got key (contents json s key)))
        × ((j : Text) → contents json r.1 j ≡ contents json s j)
  serve_get_lem key value s serving =
      rw (serve_get_accepted key value s serving) (
        ap (λ o. ok (got key o)) (value-get_kv key s),
        λ j. contents-get_kv key j s serving.healthy,
      )

  -- On a started server that is responsible for the key, is not locked and accepts the key's size,
  -- while its disk and its publisher work, a get that follows a put returns the value that was put,
  -- if the value is not a request to delete.
  pub serve_get-serve_put :
      (key value : Text) (asked : Option Text) (s : Server json)
      → IsServing json hash key s
      → s.write_lock ≡ false
      → size_violated key (some value) ≡ false
      → is_delete (some value) ≡ false
      → (serve json hash
          (request get key asked)
          (serve json hash (request put key (some value)) s).1).0
        ≡ ok (answer get_success key (some value))
  serve_get-serve_put key value asked s serving unlocked fits keeps =
      let (replied, done) = serve_put_lem key (some value) s serving unlocked fits in
      let s' = (serve json hash (request put key (some value)) s).1 in
      let after : contents json s' key ≡ some value =
        done.contents_after key ∙ rw (equals_refl key) (rw keeps) in
      (serve_get_lem key asked s' (PutDone-IsServing key (some value) s s' serving done)).0
      ∙ ap (λ o. ok (got key o)) after

  -- A value of more than 122880 bytes is stored, since the length that the server checks is that of
  -- the key: a started server that is responsible for the key and is not locked, with a disk and a
  -- publisher that work, answers a put of such a value with PUT_SUCCESS and holds the value, if the
  -- key has 1 to 20 bytes and is not in the storage yet, and the value is not a request to delete.
  pub serve_put_oversized :
      (key value : Text) (s : Server json)
      → IsServing json hash key s
      → s.write_lock ≡ false
      → (1 ≤ utf8_length key) × (utf8_length key ≤ 20)
      → 122880 < utf8_length value
      → is_delete (some value) ≡ false
      → contents json s key ≡ none
      → let r = serve json hash (request put key (some value)) s in
        (r.0 ≡ ok (answer put_success key (some value))) × (contents json r.1 key ≡ some value)
  serve_put_oversized key value s serving unlocked (low, high) long keeps absent =
      let (replied, done) =
        serve_put_lem key (some value) s serving unlocked (size_fits key (some value) low high) in
      (replied ∙ rw (absent, keeps), done.contents_after key ∙ rw (equals_refl key) (rw keeps))
