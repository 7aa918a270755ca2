-- ===== src/Ring/Routing.antt =====
-- The search for a server through the metadata (KVStore.connectCorrServer, ECSClient.getNodeByKey)
-- against the metadata that ECSClient.calc_metadata builds.
use distributed_storage_with.Base.{
  ℕ, ◌≡◌, refl, ap, subst, true, false, List, [], ◌∷◌, Memᴰ, some, arith, Bool-cases, inl, inr, pos,
  Text, Dict, lookup, lookup-mem, mem-lookup, HashOrder, ok, text_Eq,
}
use distributed_storage_with.Ring.Range.{parse_range, in_range}
use distributed_storage_with.Ring.Metadata.{EcsNode, find_server, calc_metadata}
use distributed_storage_with.Ring.Assignment.{Accepts}
use distributed_storage_with.Ring.Coverage.{
  IsRing, calc_metadata-Covers, calc_metadata-KeysOnce, calc_metadata-Readable,
}

-- The search ends with an entry of the list, whose range accepts the hash.
record Finds (entries : List (Text × Text)) (h : ℕ) : Type 0 where
  addr : Text
  range : Text
  found : find_server (pos h) entries ≡ ok (some (addr, range))
  visited : Memᴰ (addr, range) entries
  accepts : Accepts range h

Accepts-false :
    (range : Text) (h start end : ℕ)
    → parse_range range ≡ ok (start, end)
    → in_range start end (pos h) ≡ false
    → Accepts range h
    → ⊥
Accepts-false range h start end parsed outside a = ground (arith, a.parsed, a.inside)

-- An entry whose range does not accept the hash is passed over.
Finds-later :
    (entries : List (Text × Text)) (h : ℕ) (b q : Text) (start end : ℕ)
    → parse_range q ≡ ok (start, end)
    → in_range start end (pos h) ≡ false
    → Finds entries h
    → Finds ((b, q) ∷ entries) h
unfolding find_server
Finds-later entries h b q start end parsed outside later = record {
  addr = later.addr;
  range = later.range;
  found = rw parsed (rw outside later.found);
  visited = Memᴰ.tail later.visited;
  accepts = later.accepts;
}

Finds-here :
    (entries : List (Text × Text)) (h : ℕ) (b q : Text) (start end : ℕ)
    → parse_range q ≡ ok (start, end)
    → in_range start end (pos h) ≡ true
    → Finds ((b, q) ∷ entries) h
unfolding find_server
Finds-here entries h b q start end parsed inside = record {
  addr = b;
  range = q;
  found = rw parsed (rw inside);
  visited = Memᴰ.head refl;
  accepts = record { start = start; end = end; parsed = parsed; inside = inside };
}

find_server-Finds :
    (entries : List (Text × Text)) (h : ℕ) (a r : Text)
    → ((b q : Text)
        → Memᴰ (b, q) entries
        → (start : ℕ) × (end : ℕ) × (parse_range q ≡ ok (start, end)))
    → Memᴰ (a, r) entries
    → Accepts r h
    → Finds entries h
find_server-Finds [] h a r readable m accepts = elim m [ ]
find_server-Finds ((b, q) ∷ entries) h a r readable (Memᴰ.head same) accepts =
    let (start, end, parsed) = readable b q (Memᴰ.head refl) in
    elim (Bool-cases (in_range start end (pos h))) [
      | inl inside ↦ Finds-here entries h b q start end parsed inside
      | inr outside ↦ absurd (
          Accepts-false q h start end parsed outside
            (subst (λ x. Accepts x h) (ap (λ (x : Text × Text). x.1) same) accepts))
    ]
find_server-Finds ((b, q) ∷ entries) h a r readable (Memᴰ.tail m) accepts =
    let (start, end, parsed) = readable b q (Memᴰ.head refl) in
    elim (Bool-cases (in_range start end (pos h))) [
      | inl inside ↦ Finds-here entries h b q start end parsed inside
      | inr outside ↦
          Finds-later entries h b q start end parsed outside
            (find_server-Finds entries h a r (λ b' q' m'. readable b' q' (Memᴰ.tail m')) m accepts)
    ]

-- What a client's search comes to: an entry of the metadata, under its address, that accepts the
-- hash.
pub record Routes (order : HashOrder) (metadata : Dict Text Text) (h : ℕ) : Type 0 where
  pub addr : Text
  pub range : Text
  pub found : find_server (pos h) (order.order metadata) ≡ ok (some (addr, range))
  pub entry : lookup addr metadata ≡ some range
  pub accepts : Accepts range h

-- In whatever order the entries are visited, the search through the metadata of a ring ends with a
-- server for every hash; the entry of that server in the metadata is the range found, and the range
-- accepts the hash.
pub calc_metadata-Routes :
    (hash : Text → ℕ) (order : HashOrder) (nodes : List EcsNode) (h : ℕ)
    → IsRing hash nodes
    → Routes order (calc_metadata hash nodes) h
calc_metadata-Routes hash order nodes h ring =
    let metadata = calc_metadata hash nodes in
    let once = calc_metadata-KeysOnce hash nodes in
    let covers = calc_metadata-Covers hash nodes h ring in
    let finds =
      find_server-Finds (order.order metadata) h covers.addr covers.range
        (λ b q m.
          calc_metadata-Readable hash nodes ring b q
            (lookup-mem b q metadata once (order.only metadata (b, q) m)))
        (order.visits metadata (covers.addr, covers.range)
          (mem-lookup covers.addr covers.range metadata covers.entry))
        covers.accepts in
    record {
      addr = finds.addr;
      range = finds.range;
      found = finds.found;
      entry =
          lookup-mem finds.addr finds.range metadata once
            (order.only metadata (finds.addr, finds.range) finds.visited);
      accepts = finds.accepts;
    }
