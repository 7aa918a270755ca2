-- ===== src/Cluster/Requests.antt =====
-- A client (KVStore) and servers that hold the metadata of one ring and run CommModule.serve: what
-- the client's requests come to.
use distributed_storage_with.Base.{
  ℕ, ◌≡◌, ap, sym, subst, ◌∙◌, Bool, true, false, [], Option, some, Text, text_eq, text_Eq, inl,
  inr, Dict, lookup, insert, lookup-insert, HashOrder, Result, ok, Effect, if◌then◌else◌,
}
use distributed_storage_with.Ring.Metadata.{Metadata, addr_port}
use distributed_storage_with.Ring.Assignment.{Accepts, Readable}
use distributed_storage_with.Messages.{StatusType, KvMsg}
use distributed_storage_with.Network.{Network}
use distributed_storage_with.Storage.{JsonSimple}
use distributed_storage_with.Server.{Server, is_responsible}
use distributed_storage_with.Comm.Serve.{serve, not_responsible}
use distributed_storage_with.Comm.Serve.Refusals.{request}
use distributed_storage_with.Client.{Client, Both, is_not_responsible}
use distributed_storage_with.Client.Rounds.{ReadsAs, Routed, Cluster}
use distributed_storage_with.Client.Retries.{Answered}
use distributed_storage_with.Cluster.Service.{Machines, machines_network, reach}
use distributed_storage_with.Cluster.Serving.{
  Member, HasMembers, is_responsible-in_range, AreThere, IsListed, responsible_or_not, IsTaken,
  exchange_taken, exchange_refused, insert-AreThere,
}

abbrev text_or_empty : Result Text → Text
text_or_empty (ok s) = s
text_or_empty _ = []

abbrev number_or_zero : Result ℕ → ℕ
number_or_zero (ok n) = n
number_or_zero _ = 0

-- A host and a port that an address is read as are the only ones.
reads_once :
    (addr host name : Text) (port number : ℕ)
    → ReadsAs addr host port
    → ReadsAs addr name number
    → addr_port host port ≡ addr_port name number
reads_once addr host name port number r q =
    let hosts : host ≡ name = ap text_or_empty (sym r.host_read ∙ q.host_read) in
    let ports : port ≡ number = ap number_or_zero (sym r.port_read ∙ q.port_read) in
    λ i. addr_port (hosts i) (ports i)

abbrev pub refuses : Result (Option KvMsg) → Bool
refuses (ok (some m)) = is_not_responsible m.status
refuses _ = false

module _ (json : JsonSimple) (hash : Text → ℕ) (order : HashOrder) (network : Network)
    (metadata : Metadata) (servers : Dict Text (Server json)) (readable : Readable metadata)
    (members : HasMembers json metadata servers) (status : StatusType) (key : Text)
    (value : Option Text)
    (request_taken : IsTaken json hash order network metadata servers readable members status key
      value) where
  open (machines_network json hash order network) use {connect, exchange}

  abbrev pub IsThere : Machines json hash order network → Type 0
  IsThere = AreThere json hash order network metadata servers readable members

  abbrev pub IsOne : Text → ℕ → Type 0
  IsOne = IsListed json hash order network metadata servers readable members

  pub connects :
      (host : Text) (port : ℕ) (m : Machines json hash order network)
      → IsOne host port
      → IsThere m
      → ((connect host port m).0 ≡ ok tt) × IsThere (connect host port m).1
  connects host port m (range, entry) up =
      let (s, found, member) = members (addr_port host port) range entry in
      let there = up (addr_port host port) ∙ found in
      (
        ap (λ o. (reach json hash order network o m).0) there,
        subst (λ o. IsThere (reach json hash order network o m).1) (sym there) up,
      )

  pub replies :
      (host : Text) (port : ℕ) (m : Machines json hash order network)
      → IsOne host port
      → IsThere m
      → (reply : KvMsg) × ((exchange host port (request status key value) m).0 ≡ ok (some reply))
        × (is_not_responsible reply.status ≡ true
            → (reply.metadata ≡ some metadata)
              × IsThere (exchange host port (request status key value) m).1)
  replies host port m (range, entry) up =
      let addr = addr_port host port in
      let (s, found, member) = members addr range entry in
      elim (responsible_or_not json hash order network metadata servers readable members addr range
        key s member entry) [
          | inl responsible ↦
              let (reply, replied, accepted, e) =
                exchange_taken json hash order network metadata servers readable members status key
                  value request_taken host port s m up found member responsible in
              (reply, ap (λ r. r.0) e, λ refused. absurd cc)
          | inr other ↦
              let e =
                exchange_refused json hash order network metadata servers readable members status
                  key value request_taken host port s m up found member other in
              (
                not_responsible json hash key s,
                ap (λ r. r.0) e,
                λ refused. (
                  member.informed,
                  subst IsThere (sym (ap (λ r. r.1) e)) (
                      insert-AreThere json hash order network metadata servers readable members
                        status key value request_taken addr s m up found),
                ),
              )
        ]

  pub listed :
      (addr range : Text)
      → lookup addr metadata ≡ some range
      → (host : Text) × (port : ℕ) × ReadsAs addr host port × IsOne host port
  listed addr range entry =
      let (s, found, member) = members addr range entry in
      (s.hostname, s.port, member.reads, (range, ap (λ a. lookup a metadata) member.named ∙ entry))

  pub in_charge :
      (addr range host : Text) (port : ℕ) (m : Machines json hash order network) (reply : KvMsg)
      → lookup addr metadata ≡ some range
      → Accepts range (hash key)
      → ReadsAs addr host port
      → IsThere m
      → (exchange host port (request status key value) m).0 ≡ ok (some reply)
      → is_not_responsible reply.status ≡ false
  in_charge addr range host port m reply entry accepts reads up answered =
      let (s, found, member) = members addr range entry in
      let same : addr ≡ addr_port host port =
        sym member.named ∙ reads_once addr s.hostname host s.port port member.reads reads in
      let responsible =
        is_responsible-in_range json hash metadata addr range key accepts.start accepts.end s member
          entry accepts.parsed
        ∙ ap ok accepts.inside in
      let (reply', replied, accepted, e) =
        exchange_taken json hash order network metadata servers readable members status key value
          request_taken host port s m up (subst (λ a. lookup a servers ≡ some s) same found)
          (subst (λ a. Member json metadata a s) same member) responsible in
      ap refuses (sym answered ∙ ap (λ r. r.0) e) ∙ accepted

  -- The servers are a cluster for the client's request.
  abbrev pub cluster :
      Cluster hash order
        (machines_network json hash order network)
        metadata
        (hash key)
        (request status key value)
  cluster = record {
    IsUp = IsThere;
    IsServer = IsOne;
    connects = connects;
    replies = replies;
    listed = listed;
    in_charge = in_charge;
  }

  -- The server at the host and the port has served the request, which it is responsible for: its
  -- reply is what the client returns, it is what `serve` leaves, and every other server is what it was.
  pub record Taken (host : Text) (port : ℕ)
      (e : Option (Effect (Both hash order (machines_network json hash order network)) KvMsg))
      : Type 0 where
    pub reply : KvMsg
    pub client : Client
    pub after : Machines json hash order network
    pub server : Server json
    pub at_addr : lookup (addr_port host port) servers ≡ some server
    pub listed_at : IsOne host port
    pub member : Member json metadata (addr_port host port) server
    pub responsible : is_responsible json hash key server ≡ ok true
    pub replied : (serve json hash (request status key value) server).0 ≡ ok reply
    pub routed : Routed hash order key client host port
    pub returned : e ≡ some (ok reply, (client, after))
    pub changed :
        (a : Text)
        → lookup a after.0 ≡ (
            if text_eq (addr_port host port) a
            then some (serve json hash (request status key value) server).1
            else lookup a servers)

  abbrev reply_or : KvMsg → Result (Option KvMsg) → KvMsg
  reply_or m (ok (some reply)) = reply
  reply_or m _ = m

  pub Answered-Taken :
      (host : Text) (port : ℕ)
      (e : Option (Effect (Both hash order (machines_network json hash order network)) KvMsg))
      → Answered hash order
          (machines_network json hash order network)
          metadata
          (hash key)
          (request status key value)
          cluster
          host
          port
          key
          e
      → Taken host port e
  unfolding is_not_responsible
  Answered-Taken host port e a =
      let addr = addr_port host port in
      let (range, entry) = a.server in
      let (s, found, member) = members addr range entry in
      let s' = (serve json hash (request status key value) s).1 in
      elim (responsible_or_not json hash order network metadata servers readable members addr range
        key s member entry) [
          | inr other ↦
              let refused =
                exchange_refused json hash order network metadata servers readable members status
                  key value request_taken host port s a.before a.was_up found member other in
              let impossible : true ≡ false =
                ap refuses (sym (ap (λ r. r.0) refused) ∙ a.answered) ∙ a.responsible in
              absurd cc
          | inl responsible ↦
              let (reply, replied, accepted, served) =
                exchange_taken json hash order network metadata servers readable members status key
                  value request_taken host port s a.before a.was_up found member responsible in
              let same : a.reply ≡ reply =
                ap (reply_or a.reply) (sym a.answered ∙ ap (λ r. r.0) served) in
              record {
                reply = reply;
                client = a.client;
                after = (insert addr s' a.before.0, a.before.1);
                server = s;
                at_addr = found;
                listed_at = a.server;
                member = member;
                responsible = responsible;
                replied = replied;
                routed = a.routed;
                returned = a.returned ∙ (λ i. some (ok (same i), (a.client, (served i).1)));
                changed = λ x.
                    lookup-insert addr x s' a.before.0
                    ∙ ap (λ o. if text_eq addr x then some s' else o) (a.was_up x);
              }
        ]
