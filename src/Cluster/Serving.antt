-- ===== src/Cluster/Serving.antt =====
-- Servers that hold the metadata of one ring, as what a client's retries stand on
-- (Client/Rounds): each of them runs CommModule.serve.
use distributed_storage_with.Base.{
  ℕ, ◌≡◌, ◌⊎◌, ap, sym, ◌∙◌, Bool, true, false, [], Option, some, Text, text_eq, text_Eq,
  text_eq_iff, Bool-cases, inl, inr, pos, Dict, lookup, insert, lookup-insert, HashOrder, Result,
  ok,
}
use distributed_storage_with.Ring.Range.{parse_range, in_range}
use distributed_storage_with.Ring.Metadata.{Metadata, addr_port}
use distributed_storage_with.Ring.Assignment.{Readable}
use distributed_storage_with.Messages.{StatusType, KvMsg, get, put}
use distributed_storage_with.Network.{Network}
use distributed_storage_with.Storage.{JsonSimple}
use distributed_storage_with.Server.{Server, delivering, is_responsible}
use distributed_storage_with.Comm.Serve.{serve, not_responsible, size_violated}
use distributed_storage_with.Comm.Serve.Puts.{IsServing}
use distributed_storage_with.Comm.Serve.Refusals.{request, serve-not_responsible}
use distributed_storage_with.Client.{is_not_responsible}
use distributed_storage_with.Client.Rounds.{ReadsAs}
use distributed_storage_with.Cluster.Service.{Machines, machines_network, serving, served_client}

-- A server of the ring, under its address: it holds the ring's metadata, is started and not locked
-- for writing, and its disk and its publisher work.
pub record Member (json : JsonSimple) (metadata : Metadata) (addr : Text) (s : Server json)
    : Type 0 where
  pub named : addr_port s.hostname s.port ≡ addr
  pub reads : ReadsAs addr s.hostname s.port
  pub informed : s.metadata ≡ some metadata
  pub started : s.stopped ≡ false
  pub unlocked : s.write_lock ≡ false
  pub healthy : s.storage.plan ≡ []
  pub connected : s.broker ≡ delivering

-- Under every address of the metadata there is such a server.
abbrev pub HasMembers :
    (json : JsonSimple) (metadata : Metadata) (servers : Dict Text (Server json)) → Type 0
HasMembers json metadata servers =
    (addr range : Text)
    → lookup addr metadata ≡ some range
    → (s : Server json) × (lookup addr servers ≡ some s) × Member json metadata addr s

module _ (json : JsonSimple) (hash : Text → ℕ) where
  -- Whether a member is responsible for a key is whether its range in the metadata accepts the hash.
  pub is_responsible-in_range :
      (metadata : Metadata) (addr range key : Text) (start end : ℕ) (s : Server json)
      → Member json metadata addr s
      → lookup addr metadata ≡ some range
      → parse_range range ≡ ok (start, end)
      → is_responsible json hash key s ≡ ok (in_range start end (pos (hash key)))
  unfolding is_responsible
  is_responsible-in_range metadata addr range key start end s member entry parsed =
      simp (member.informed, member.named, entry, parsed)

  module _ (order : HashOrder) (network : Network) (metadata : Metadata)
      (servers : Dict Text (Server json)) (readable : Readable metadata)
      (members : HasMembers json metadata servers) where
    -- The machines are those given.
    abbrev pub AreThere : Machines json hash order network → Type 0
    AreThere m = (a : Text) → lookup a m.0 ≡ lookup a servers

    abbrev pub IsListed : Text → ℕ → Type 0
    IsListed host port = (range : Text) × (lookup (addr_port host port) metadata ≡ some range)

    decided : (b : Bool) (r : Result Bool) → r ≡ ok b → (r ≡ ok true) ⊎ (r ≡ ok false)
    decided true r h = inl h
    decided false r h = inr h

    pub responsible_or_not :
        (addr range key : Text) (s : Server json)
        → Member json metadata addr s
        → lookup addr metadata ≡ some range
        → (is_responsible json hash key s ≡ ok true) ⊎ (is_responsible json hash key s ≡ ok false)
    responsible_or_not addr range key s member entry =
        let (start, end, parsed) = readable addr range entry in
        decided (in_range start end (pos (hash key))) _
          (is_responsible-in_range metadata addr range key start end s member entry parsed)

    -- A request for a key whose refusal a server states, and that a server in charge takes.
    pub record IsTaken (status : StatusType) (key : Text) (value : Option Text) : Type 0 where
      pub admitted : (status ≡ get) ⊎ ((status ≡ put) × (size_violated key value ≡ false))
      pub taken :
          (s : Server json)
          → IsServing json hash key s
          → s.write_lock ≡ false
          → (reply : KvMsg) × ((serve json hash (request status key value) s).0 ≡ ok reply)
            × (is_not_responsible reply.status ≡ false)

    pub Member-IsServing :
        (addr key : Text) (s : Server json)
        → Member json metadata addr s
        → is_responsible json hash key s ≡ ok true
        → IsServing json hash key s
    Member-IsServing addr key s member responsible = record {
      started = member.started;
      healthy = member.healthy;
      connected = member.connected;
      responsible = responsible;
    }

    module _ (status : StatusType) (key : Text) (value : Option Text)
        (request_taken : IsTaken status key value) where
      abbrev message : KvMsg
      message = request status key value

      open (machines_network json hash order network) use {exchange}

      -- A machine at the address answers with its `serve`, and is then what `serve` leaves.
      exchange-serve :
          (host : Text) (port : ℕ) (s : Server json) (m : Machines json hash order network)
          → AreThere m
          → lookup (addr_port host port) servers ≡ some s
          → exchange host port message m
            ≡ served_client json hash order network
                (addr_port host port)
                (serve json hash message s)
                m.0
                m.1
      exchange-serve host port s m there found =
          ap (λ o. serving json hash order network o (addr_port host port) message m)
            (there (addr_port host port) ∙ found)

      pub exchange_taken :
          (host : Text) (port : ℕ) (s : Server json) (m : Machines json hash order network)
          → AreThere m
          → lookup (addr_port host port) servers ≡ some s
          → Member json metadata (addr_port host port) s
          → is_responsible json hash key s ≡ ok true
          → (reply : KvMsg) × ((serve json hash message s).0 ≡ ok reply)
            × (is_not_responsible reply.status ≡ false)
            × (exchange host port message m ≡ (
              ok (some reply),
              (insert (addr_port host port) (serve json hash message s).1 m.0, m.1),
            ))
      exchange_taken host port s m there found member responsible =
          let (reply, replied, accepted) =
            request_taken.taken s (Member-IsServing (addr_port host port) key s member responsible)
              member.unlocked in
          (
            reply,
            replied,
            accepted,
            exchange-serve host port s m there found
                ∙ ap
                    (λ r.
                      served_client json hash order network (addr_port host port)
                        (r, (serve json hash message s).1) m.0 m.1)
                    replied,
          )

      pub exchange_refused :
          (host : Text) (port : ℕ) (s : Server json) (m : Machines json hash order network)
          → AreThere m
          → lookup (addr_port host port) servers ≡ some s
          → Member json metadata (addr_port host port) s
          → is_responsible json hash key s ≡ ok false
          → exchange host port message m ≡ (
            ok (some (not_responsible json hash key s)),
            (insert (addr_port host port) s m.0, m.1),
          )
      exchange_refused host port s m there found member other =
          exchange-serve host port s m there found
          ∙ ap (λ e. served_client json hash order network (addr_port host port) e m.0 m.1)
              (serve-not_responsible json hash status key value s admitted' member.started other)
        where
          admitted' :
              (status ≡ get)
              ⊎ ((status ≡ put) × (s.write_lock ≡ false) × (size_violated key value ≡ false))
          admitted' = elim request_taken.admitted [
            | inl e ↦ inl e
            | inr (e, fits) ↦ inr (e, member.unlocked, fits)
          ]

      -- Writing back the machine that was there changes nothing.
      pub insert-AreThere :
          (addr : Text) (s : Server json) (m : Machines json hash order network)
          → AreThere m
          → lookup addr servers ≡ some s
          → AreThere (insert addr s m.0, m.1)
      insert-AreThere addr s m there found a =
          lookup-insert addr a s m.0 ∙ elim (Bool-cases (text_eq addr a)) [
            | inl same ↦
                rw same (sym found ∙ ap (λ x. lookup x servers) ((text_eq_iff addr a).0 same))
            | inr other ↦ rw other (there a)
          ]
