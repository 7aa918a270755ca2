-- ===== src/Comm/Admin.antt =====
-- CommModule.adminServe: the answer to a message of the configuration service.
pub mod Laws
use distributed_storage_with.Base.{
  ℕ, ◌≡◌, Bool, true, false, List, [], ◌∷◌, Option, none, some, Text, HashOrder, Result, ok, throw,
  Effect, proceed,
}
use distributed_storage_with.Ring.Metadata.{Metadata}
use distributed_storage_with.Messages.{
  StatusType, KvAdminMsg, init_server, init_server_success, init_server_failed, start,
  start_success, stop, stop_success, shutdown, shutdown_success, lock, lock_success, unlock,
  unlock_success, move_data_success, move_data_failed, update, update_success, update_failed, flush,
  flush_success, flush_failed,
}
use distributed_storage_with.Network.{Network}
use distributed_storage_with.Storage.{JsonSimple}
use distributed_storage_with.Server.{
  Server, init_kv_server, set_start, set_stop, shut_down, lock_write, un_lock_write,
  update_metadata, flush_pending,
}
use distributed_storage_with.Server.Transfer.{move_data}

-- new KVAdminMsg(null, outStatus, null, null)
abbrev pub admin_answer : Option StatusType → KvAdminMsg
admin_answer status = record {
  new_kv_server = none;
  status = status;
  metadata = none;
  range = none;
}

module _ (json : JsonSimple) (hash : Text → ℕ) (order : HashOrder) (network : Network) where
  open network use {World}

  abbrev pub Both : Type 0
  Both = Server json × World

  abbrev pub Reply : Type 0
  Reply = Effect Both (Option KvAdminMsg)

  abbrev replies : StatusType → Both → Reply
  replies status both = (ok (some (admin_answer (some status))), both)

  with_metadata :
      Option Metadata
      → StatusType
      → StatusType
      → (Metadata → Server json → Server json)
      → Both
      → Reply
  with_metadata none failed success f both = replies failed both
  with_metadata (some metadata) failed success f (s, w) = replies success (f metadata s, w)

  -- An exception is caught, and what was done before it stays done.
  caught : StatusType → StatusType → Effect Both (Unit {0}) → Reply
  caught failed success (ok _, both) = replies success both
  caught failed success (throw _, both) = replies failed both

  serve_shutdown : Both → Reply
  serve_shutdown (s, w) =
      let (r, s') = shut_down json s in proceed r (s', w) (λ _. replies shutdown_success (s', w))

  serve_move : Option Text → Option Text → Both → Reply
  unfolding caught
  serve_move (some range) (some send_to) both =
      caught move_data_failed move_data_success
        (move_data json hash order network range send_to both)
  serve_move _ _ both = replies move_data_failed both

  serve_flush : Both → Reply
  unfolding caught
  serve_flush (s, w) =
      let (r, s') = flush_pending json s in caught flush_failed flush_success (r, (s', w))

  -- The `switch`; the last clause is `default`.
  admin_status : StatusType → KvAdminMsg → Both → Reply
  unfolding with_metadata serve_shutdown serve_move serve_flush
  admin_status init_server msg both =
      with_metadata msg.metadata init_server_failed init_server_success (init_kv_server json) both
  admin_status start msg (s, w) = replies start_success (set_start json s, w)
  admin_status stop msg (s, w) = replies stop_success (set_stop json s, w)
  admin_status shutdown msg both = serve_shutdown both
  admin_status lock msg (s, w) = replies lock_success (lock_write json s, w)
  admin_status unlock msg (s, w) = replies unlock_success (un_lock_write json s, w)
  admin_status StatusType.move_data msg both = serve_move msg.range msg.new_kv_server both
  admin_status update msg both =
      with_metadata msg.metadata update_failed update_success (update_metadata json) both
  admin_status flush msg both = serve_flush both
  admin_status _ msg both = (ok (some (admin_answer none)), both)

  admin_message : Option StatusType → KvAdminMsg → Both → Reply
  unfolding admin_status
  admin_message none msg both = (ok none, both)
  admin_message (some status) msg both = admin_status status msg both

  unfoldable pub admin_serve : KvAdminMsg → Both → Reply
  unfolding admin_message
  admin_serve msg both = admin_message msg.status msg both
