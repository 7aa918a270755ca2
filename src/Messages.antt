-- ===== src/Messages.antt =====
-- The messages between clients, servers and the configuration service (shared/messages).
use distributed_storage_with.Base.{Text, Option, Bool, true, false}
use distributed_storage_with.Ring.Metadata.{Metadata}

pub data StatusType : Type 0 where
  get get_error get_success : StatusType
  put put_success put_update put_error : StatusType
  delete_success delete_error : StatusType
  server_stopped server_write_lock server_not_responsible : StatusType
  init_server init_server_success init_server_failed : StatusType
  start start_success : StatusType
  stop stop_success : StatusType
  shutdown shutdown_success : StatusType
  lock lock_success : StatusType
  unlock unlock_success : StatusType
  move_data move_data_success move_data_failed : StatusType
  update update_success update_failed : StatusType
  flush flush_success flush_failed : StatusType

-- `none` stands for null in every field.
pub record KvMsg : Type 0 where
  pub status : Option StatusType
  pub key : Option Text
  pub value : Option Text
  pub metadata : Option Metadata

pub record KvAdminMsg : Type 0 where
  pub new_kv_server : Option Text
  pub status : Option StatusType
  pub metadata : Option Metadata
  pub range : Option Text

-- Either class implements KVMessage, and `isAdminMessage` tells them apart.
pub data KvMessage : Type 0 where
  client : KvMsg → KvMessage
  admin : KvAdminMsg → KvMessage

unfoldable pub is_admin_message : KvMessage → Bool
is_admin_message (client m) = false
is_admin_message (admin m) = true
