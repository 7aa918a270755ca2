-- ===== src/Network.antt =====
-- What a program sees of the machines that it connects to, through a socket and a CommModule: the
-- rest of the world is a state, a connection may fail, and a request brings a reply or none.
use distributed_storage_with.Base.{ℕ, Text, Option, Effect}
use distributed_storage_with.Messages.{KvMsg, KvAdminMsg}

pub record Network : Type 1 where
  pub World : Type 0
  -- new Socket(host, port) and new CommModule(socket, null)
  pub connect : Text → ℕ → World → Effect World (Unit {0})
  -- sendMsg and receiveMsg on such a connection; `none` is the null of a reply that was not read
  pub exchange : Text → ℕ → KvMsg → World → Effect World (Option KvMsg)
  -- sendAdminMsg and receiveMsg
  pub exchange_admin : Text → ℕ → KvAdminMsg → World → Effect World (Option KvAdminMsg)
