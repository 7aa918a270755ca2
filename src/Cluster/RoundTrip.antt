-- ===== src/Cluster/RoundTrip.antt =====
-- A get of KVStore after a put, against the servers of a ring, which run CommModule.serve.
use mathlib.Core.Option.{some-injective}
use distributed_storage_with.Base.{
  ℕ, suc, ◌≡◌, refl, ap, sym, subst, ◌∙◌, true, false, List, [], Option, some, Text, text_eq,
  text_eq_iff, text_Eq, inl, inr, Bool-cases, equals_refl, Dict, lookup, HashOrder, ok,
  if◌then◌else◌,
}
use distributed_storage_with.Ring.Metadata.{EcsNode, Metadata, addr_port, calc_metadata}
use distributed_storage_with.Ring.Assignment.{Readable}
use distributed_storage_with.Ring.Coverage.{IsRing, calc_metadata-Readable}
use distributed_storage_with.Messages.{KvMsg, get, get_success, put}
use distributed_storage_with.Network.{Network}
use distributed_storage_with.Storage.{JsonSimple, is_delete}
use distributed_storage_with.Server.{Server, is_responsible}
use distributed_storage_with.Comm.Serve.{serve, answer, got, size_violated}
use distributed_storage_with.Comm.Serve.Puts.{contents, PutDone}
use distributed_storage_with.Comm.Serve.Replies.{serve_put_lem, serve_get_lem, PutDone-IsServing}
use distributed_storage_with.Comm.Serve.Refusals.{request}
use distributed_storage_with.Client.{Client, Both, is_not_responsible, client_put, client_get}
use distributed_storage_with.Client.Rounds.{ReadsAs}
use distributed_storage_with.Client.Retries.{retry_taken}
use distributed_storage_with.Cluster.Service.{Machines, machines_network}
use distributed_storage_with.Cluster.Serving.{
  HasMembers, IsTaken, Member, Member-IsServing, exchange_taken, AreThere,
}
use distributed_storage_with.Cluster.Requests.{cluster, refuses, Answered-Taken}
use distributed_storage_with.Cluster.Outcomes.{Informed, requested-Taken, put-IsTaken, get-IsTaken}

module _ (json : JsonSimple) (metadata : Metadata) where
  -- A put leaves a server of the ring what it is for the ring.
  PutDone-Member :
      (addr key : Text) (value : Option Text) (s s' : Server json)
      → PutDone json key value s s'
      → Member json metadata addr s
      → Member json metadata addr s'
  PutDone-Member addr key value s s' done member = record {
    named = ap (λ (x : Server json). addr_port x.hostname x.port) done.rest ∙ member.named;
    reads =
        subst (λ (x : Server json). ReadsAs addr x.hostname x.port) (sym done.rest) member.reads;
    informed = ap (λ (x : Server json). x.metadata) done.rest ∙ member.informed;
    started = ap (λ (x : Server json). x.stopped) done.rest ∙ member.started;
    unlocked = ap (λ (x : Server json). x.write_lock) done.rest ∙ member.unlocked;
    healthy = done.healthy_after;
    connected = ap (λ (x : Server json). x.broker) done.rest ∙ member.connected;
  }

  -- So do the servers when one of them has become another server of the ring.
  changed-HasMembers :
      (addr : Text) (s' : Server json) (servers after : Dict Text (Server json))
      → Member json metadata addr s'
      → ((a : Text) → lookup a after ≡ (if text_eq addr a then some s' else lookup a servers))
      → HasMembers json metadata servers
      → HasMembers json metadata after
  changed-HasMembers addr s' servers after member changed members a range entry =
      elim (Bool-cases (text_eq addr a)) [
        | inl same ↦ (
          s',
          changed a ∙ rw same refl,
          subst (λ x. Member json metadata x s') ((text_eq_iff addr a).0 same) member,
        )
        | inr other ↦
            let (s, found, kept) = members a range entry in (s, changed a ∙ rw other found, kept)
      ]

module _ (json : JsonSimple) (hash : Text → ℕ) (order : HashOrder) (network : Network)
    (metadata : Metadata) (servers : Dict Text (Server json)) (readable : Readable metadata)
    (members : HasMembers json metadata servers) where
  -- A server that is responsible for a key does not refuse a request that it takes.
  not_refused :
      (key : Text) (value : Option Text)
      (t : IsTaken json hash order network metadata servers readable members get key value)
      (host : Text) (port : ℕ) (s : Server json) (m : Machines json hash order network)
      (reply : KvMsg)
      → lookup (addr_port host port) servers ≡ some s
      → Member json metadata (addr_port host port) s
      → is_responsible json hash key s ≡ ok true
      → AreThere json hash order network metadata servers readable members m
      → ((machines_network json hash order network).exchange host port (request get key value) m).0
        ≡ ok (some reply)
      → is_not_responsible reply.status ≡ false
  not_refused key value t host port s m reply found member responsible there answered =
      let (reply', replied, accepted, served) =
        exchange_taken json hash order network metadata servers readable members get key value t
          host port s m there found member responsible in
      ap refuses (sym answered ∙ ap (λ r. r.0) served) ∙ accepted

-- In a ring whose servers hold its metadata, each under its address, are started, are not locked for
-- writing, and have a disk and a publisher that work, a client puts a value that is not a request to
-- delete, under a key of an accepted size, and then gets the key. Both calls return, the put after at
-- most one retry, the get after none, and the get returns the value that was put. The metadata of the
-- client may be older than the ring's before the put, as long as the client's search there ends at a
-- server of the ring; its connection is to the address that it holds.
pub client_get-client_put :
    (json : JsonSimple) (hash : Text → ℕ) (order : HashOrder) (network : Network)
    (nodes : List EcsNode) (servers : Dict Text (Server json)) (key value : Text) (c : Client)
    (w : network.World) (fuel again : ℕ)
    → IsRing hash nodes
    → HasMembers json (calc_metadata hash nodes) servers
    → size_violated key (some value) ≡ false
    → is_delete (some value) ≡ false
    → Informed json hash order network (calc_metadata hash nodes) key c
    → let machines = machines_network json hash order network in
      (reply : KvMsg) × (between : Both hash order machines) × (later : Both hash order machines)
      × (client_put hash order machines (suc (suc fuel)) key (some value) (c, (servers, w))
          ≡ some (ok reply, between))
      × (client_get hash order machines (suc again) key between
          ≡ some (ok (answer get_success key (some value)), later))
unfolding client_put client_get
client_get-client_put json hash order network nodes servers key value c w fuel again ring members
      fits keeps i =
    let metadata = calc_metadata hash nodes in
    let readable = calc_metadata-Readable hash nodes ring in
    let (host, port, t) =
      requested-Taken json hash order network nodes servers ring members put key (some value) c w
        fuel (put-IsTaken json hash order network nodes servers ring members key (some value) fits)
        i in
    let addr = addr_port host port in
    let s' = (serve json hash (request put key (some value)) t.server).1 in
    let serves =
      Member-IsServing json hash order network metadata servers readable members addr key t.server
        t.member t.responsible in
    let done =
      (serve_put_lem json hash key (some value) t.server serves t.member.unlocked fits).1 in
    let member' = PutDone-Member json metadata addr key (some value) t.server s' done t.member in
    let serves' = PutDone-IsServing json hash key (some value) t.server s' serves done in
    let members' =
      changed-HasMembers json metadata addr s' servers t.after.0 member' t.changed members in
    let found' : lookup addr t.after.0 ≡ some s' = t.changed addr ∙ rw (equals_refl addr) refl in
    let get_taken =
      get-IsTaken json hash order network nodes t.after.0 ring members' key (some []) in
    let got_it =
      Answered-Taken json hash order network metadata t.after.0 readable members' get key (some [])
        get_taken host port _
        (retry_taken hash order (machines_network json hash order network) metadata (hash key)
          (request get key (some []))
          (cluster json hash order network metadata t.after.0 readable members' get key (some [])
            get_taken)
          key host port t.client t.after again t.routed t.listed_at (λ a. refl)
          (λ m reply there answered.
            not_refused json hash order network metadata t.after.0 readable members' key (some [])
              get_taken host port s' m reply found' member' serves'.responsible there answered)) in
    let same : got_it.server ≡ s' = some-injective _ _ (sym got_it.at_addr ∙ found') in
    let held : contents json s' key ≡ some value =
      done.contents_after key ∙ rw (equals_refl key) (rw keeps) in
    let replied : (serve json hash (request get key (some [])) got_it.server).0
        ≡ ok (answer get_success key (some value)) =
      ap (λ x. (serve json hash (request get key (some [])) x).0) same
      ∙ (serve_get_lem json hash key (some []) s' serves').0
      ∙ ap (λ o. ok (got key o)) held in
    (
      t.reply,
      (t.client, t.after),
      (got_it.client, got_it.after),
      t.returned,
      got_it.returned
          ∙ ap (λ r. some (r, (got_it.client, got_it.after))) (sym got_it.replied ∙ replied),
    )
