-- ===== src/Comm/Serve/Refusals.antt =====
-- The requests that a server refuses, and how it stays as it is.
use distributed_storage_with.Base.{
  ℕ, ◌≡◌, ◌⊎◌, true, false, Option, none, some, Text, text_Eq, inl, inr, ok,
}
use distributed_storage_with.Messages.{StatusType, KvMsg, get, put, server_stopped}
use distributed_storage_with.Storage.{JsonSimple}
use distributed_storage_with.Server.{Server, is_responsible}
use distributed_storage_with.Comm.Serve.{
  serve, serve_get, serve_put, answer, not_responsible, size_violated,
}

abbrev pub request : StatusType → Text → Option Text → KvMsg
request status key value = record {
  status = some status;
  key = some key;
  value = value;
  metadata = none;
}

module _ (json : JsonSimple) (hash : Text → ℕ) where
  -- A stopped server answers every message that has a key with SERVER_STOPPED, and does nothing.
  pub serve_stopped :
      (msg : KvMsg) (key : Text) (s : Server json)
      → msg.key ≡ some key
      → s.stopped ≡ true
      → serve json hash msg s ≡ (ok (answer server_stopped key none), s)
  unfolding serve
  serve_stopped msg key s k stopped = rw k (rw stopped)

  -- A started server that is not responsible for the key answers a get with its metadata, and does
  -- nothing; so it does for a put, if it is not locked for writing and the key has an accepted
  -- size.
  pub serve-not_responsible :
      (status : StatusType) (key : Text) (value : Option Text) (s : Server json)
      → (status ≡ get)
        ⊎ ((status ≡ put) × (s.write_lock ≡ false) × (size_violated key value ≡ false))
      → s.stopped ≡ false
      → is_responsible json hash key s ≡ ok false
      → serve json hash (request status key value) s ≡ (ok (not_responsible json hash key s), s)
  unfolding serve serve_put serve_get
  serve-not_responsible status key value s (inl e) started other = simp (e, started, other)
  serve-not_responsible status key value s (inr (e, unlocked, fits)) started other =
      simp (e, started, unlocked, fits, other)
