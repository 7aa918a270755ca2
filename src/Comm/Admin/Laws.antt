-- ===== src/Comm/Admin/Laws.antt =====
-- What the messages of the configuration service may change.
use distributed_storage_with.Base.{
  ℕ, ◌≡◌, refl, true, none, some, Text, HashOrder, ok, throw, Effect, Exception,
}
use distributed_storage_with.Messages.{StatusType, KvAdminMsg, move_data_failed}
use distributed_storage_with.Network.{Network}
use distributed_storage_with.Storage.{JsonSimple}
use distributed_storage_with.Server.Transfer.{move_data}
use distributed_storage_with.Server.Transfer.Laws.{move_data_throws}
use distributed_storage_with.Comm.Admin.{Both, admin_answer, admin_serve, caught}

module _ (json : JsonSimple) (hash : Text → ℕ) (order : HashOrder) (network : Network) where
  abbrev pub move_message : Text → Text → KvAdminMsg
  move_message range send_to = record {
    new_kv_server = some send_to;
    status = some StatusType.move_data;
    metadata = none;
    range = some range;
  }

  caught_failed :
      (e : Effect (Both json hash order network) (Unit {0}))
      → ((x : Exception) → e.0 ≡ throw x → e.1.0.write_lock ≡ true)
      → (caught json hash order network move_data_failed StatusType.move_data_success e).0
        ≡ ok (some (admin_answer (some move_data_failed)))
      → (caught json hash order network move_data_failed StatusType.move_data_success
          e).1.0.write_lock
        ≡ true
  unfolding caught
  caught_failed (ok _, both) k h = absurd (cc)
  caught_failed (throw x, both) k h = k x refl

  -- A MOVE_DATA that names a range and a receiver, and is answered by MOVE_DATA_FAILED, leaves the
  -- server locked for writing.
  pub admin_serve_failed_move :
      (range send_to : Text) (both : Both json hash order network)
      → let r = admin_serve json hash order network (move_message range send_to) both in
        r.0 ≡ ok (some (admin_answer (some move_data_failed))) → r.1.0.write_lock ≡ true
  unfolding admin_serve
  admin_serve_failed_move range send_to both h =
      caught_failed (move_data json hash order network range send_to both)
        (λ x e. move_data_throws json hash order network range send_to both x e) h
