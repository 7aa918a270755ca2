-- ===== src/Comm/Serve/Puts.antt =====
-- What one put or delete does to a server and to its map from keys to values.
use mathlib.Core.List.{append-nil}
use distributed_storage_with.Base.{
  text_eq_iff, sym, ℕ, ◌≡◌, refl, Bool, true, false, List, [], ◌∷◌, ◌++◌, Option, none, some,
  if◌then◌else◌, arith, Text, text_eq, ◌==◌, text_Eq, Bool-cases, inl, inr, ok, Effect,
}
use distributed_storage_with.Messages.{
  StatusType, KvMsg, put_success, put_update, delete_success, delete_error,
}
use distributed_storage_with.Storage.{JsonSimple, is_delete, store}
use distributed_storage_with.Storage.Laws.{view, stored, store_lem}
use distributed_storage_with.Server.{Server, delivering, is_responsible, put_kv, change_text}
use distributed_storage_with.Comm.Serve.{serve_stored, then_answer, answer}

abbrev pub held : Option Text → Bool
held none = false
held (some _) = true

abbrev pub put_status : Bool → Bool → StatusType
put_status true true = delete_success
put_status true false = put_update
put_status false true = delete_error
put_status false false = put_success

module _ (json : JsonSimple) where
  abbrev pub contents : Server json → Text → Option Text
  contents s key = view json s.storage key

  abbrev pub changes : Bool → Bool → Text → Option Text → List Text
  changes false true key value = []
  changes held delete key value = change_text json key value held delete ∷ []

  -- The map after a put.
  abbrev pub put_contents : Text → Option Text → (Text → Option Text) → Text → Option Text
  put_contents key value m j = if key == j then stored json value else m j

  -- What a put does to a server, apart from its storage: one more publication, or none.
  pub record PutDone (key : Text) (value : Option Text) (s s' : Server json) : Type 0 where
    pub contents_after : (j : Text) → contents s' j ≡ put_contents key value (contents s) j
    pub healthy_after : s'.storage.plan ≡ []
    pub rest : s' ≡ record s { storage = s'.storage; published = s'.published }
    pub published_after :
        s'.published ≡ s.published ++ changes (held (contents s key)) (is_delete value) key value

  put_kv_lem :
      (key : Text) (value : Option Text) (found delete : Bool) (s : Server json)
      → s.storage.plan ≡ []
      → s.broker ≡ delivering
      → ((put_kv json key value found delete s).0 ≡ ok tt)
        × ((put_kv json key value found delete s).1 ≡ record s {
          storage = (store json key value s.storage).1;
          published = s.published ++ change_text json key value found delete ∷ [];
        })
  unfolding put_kv
  put_kv_lem key value found delete s plan broker =
      rw broker ((store_lem json key value s.storage plan).0, refl)

  put_kv-PutDone :
      (key : Text) (value : Option Text) (found delete : Bool) (s : Server json)
      → s.storage.plan ≡ []
      → s.broker ≡ delivering
      → changes (held (contents s key)) (is_delete value) key value
        ≡ change_text json key value found delete ∷ []
      → PutDone key value s (put_kv json key value found delete s).1
  put_kv-PutDone key value found delete s plan broker e =
      let (returns, after) = put_kv_lem key value found delete s plan broker in
      let (stores, plan', views) = store_lem json key value s.storage plan in
      rw after (record {
        contents_after = views;
        healthy_after = plan';
        rest = refl;
        published_after = rw e;
      })

  contents_kept :
      (key j : Text) (value : Option Text) (m : Text → Option Text)
      → held (m key) ≡ false
      → is_delete value ≡ true
      → m j ≡ put_contents key value m j
  contents_kept key j value m absent deletes = elim (Bool-cases (text_eq key j)) [
    | inl same ↦ rw (same, deletes, ← (text_eq_iff key j).0 same) (ground (arith))
    | inr other ↦ rw other
  ]

  nothing-PutDone :
      (key : Text) (value : Option Text) (s : Server json)
      → s.storage.plan ≡ []
      → held (contents s key) ≡ false
      → is_delete value ≡ true
      → PutDone key value s s
  nothing-PutDone key value s plan absent deletes = record {
    contents_after = λ j. contents_kept key j value (contents s) absent deletes;
    healthy_after = plan;
    rest = refl;
    published_after = rw (absent, deletes) (sym (append-nil s.published));
  }

module _ (json : JsonSimple) (hash : Text → ℕ) where
  -- What serving needs: the server is started, its disk is written without faults, its publisher has
  -- a session, and the key lies in its range.
  pub record IsServing (key : Text) (s : Server json) : Type 0 where
    pub started : s.stopped ≡ false
    pub healthy : s.storage.plan ≡ []
    pub connected : s.broker ≡ delivering
    pub responsible : is_responsible json hash key s ≡ ok true

  answered :
      (e : Effect (Server json) (Unit {0})) (reply : KvMsg)
      → e.0 ≡ ok tt
      → then_answer json hash e reply ≡ (ok reply, e.1)
  answered e reply h = rw h

  pub serve_stored_lem :
      (found delete : Bool) (key : Text) (value : Option Text) (s : Server json)
      → s.storage.plan ≡ []
      → s.broker ≡ delivering
      → held (contents json s key) ≡ found
      → is_delete value ≡ delete
      → ((serve_stored json hash found delete key value s).0
          ≡ ok (answer (put_status found delete) key value))
        × PutDone json key value s (serve_stored json hash found delete key value s).1
  unfolding serve_stored
  serve_stored_lem true true key value s plan broker h d =
      rw
        (answered (put_kv json key value true true s) (answer delete_success key value)
          (put_kv_lem json key value true true s plan broker).0)
        (refl, put_kv-PutDone json key value true true s plan broker (rw (h, d)))
  serve_stored_lem true false key value s plan broker h d =
      rw
        (answered (put_kv json key value true false s) (answer put_update key value)
          (put_kv_lem json key value true false s plan broker).0)
        (refl, put_kv-PutDone json key value true false s plan broker (rw (h, d)))
  serve_stored_lem false true key value s plan broker h d =
      (refl, nothing-PutDone json key value s plan h d)
  serve_stored_lem false false key value s plan broker h d =
      rw
        (answered (put_kv json key value false false s) (answer put_success key value)
          (put_kv_lem json key value false false s plan broker).0)
        (refl, put_kv-PutDone json key value false false s plan broker (rw (h, d)))
