-- ===== src/Ring/Coverage.antt =====
-- Every hash has a server: the metadata that ECSClient.calc_metadata builds leaves no gap.
use distributed_storage_with.Base.{
  ℕ, ◌+◌, ◌-◌, ◌≤◌, ◌<◌, ◌≡◌, ◌≢◌, ◌⊎◌, refl, subst, true, false, List, [], ◌∷◌, arith, ltb, leb,
  Bool-cases, inl, inr, pos, Text, Dict, lookup, KeysOnce, All, nat_Eq, text_Eq,
}
use distributed_storage_with.Ring.Range.{in_range}
use distributed_storage_with.Ring.Metadata.{
  EcsNode, Metadata, node_addr, sort, last, range_start, assign_range, assign_ranges, hash_map,
  hash_list, calc_metadata,
}
use distributed_storage_with.Ring.Sorting.{
  Distinct, Increasing, sort-All, sort-Increasing, sort-cons,
}
use distributed_storage_with.Ring.Addresses.{IsHashed, IsPresent, hash_list-All, hash_map-IsHashed}
use distributed_storage_with.Ring.Assignment.{
  Covers, Readable, assign_ranges-Covers, assign_ranges-KeysOnce, assign_ranges-Readable,
}

pub last-ge : (p : ℕ) (ps : List ℕ) → Increasing (p ∷ ps) → p ≤ last (p ∷ ps)
unfolding last
last-ge p [] inc = omega arith
last-ge p (q ∷ ps) inc = omega (arith, last-ge q ps inc.1)

-- The ranges of the two kinds of servers: the first of the ring wraps around it.
pub in_later_range :
    (predecessor p h : ℕ) → predecessor < h → h ≤ p → in_range (predecessor - 1) p (pos h) ≡ true
unfolding in_range
in_later_range predecessor p h below within = ground arith

pub in_first_range :
    (predecessor p h : ℕ)
    → p ≤ predecessor
    → (h ≤ p) ⊎ (predecessor < h)
    → in_range (predecessor + 1) p (pos h) ≡ true
unfolding in_range
in_first_range predecessor p h le outside = ground arith

pub later_start :
    (predecessor : ℕ) → 0 < predecessor → range_start false predecessor ≡ pos (predecessor - 1)
unfolding range_start
later_start predecessor h = ground arith

pub first_start : (predecessor : ℕ) → range_start true predecessor ≡ pos (predecessor + 1)
unfolding range_start
first_start predecessor = refl

first_or_later : (p h end : ℕ) → ((h ≤ p) ⊎ (end < h)) ⊎ ((p < h) × (h ≤ end))
first_or_later p h end = elim (Bool-cases (leb h p)) [
  | inl low ↦ inl (inl (ground arith))
  | inr high ↦ elim (Bool-cases (ltb end h)) [
    | inl above ↦ inl (inr (ground arith))
    | inr within ↦ inr (ground arith, ground arith)
  ]
]

module _ (hash : Text → ℕ) (addrs : Dict ℕ Text) (hashed : IsHashed hash addrs) where
  -- A hash above the position before the list and not above its last position has a server in it.
  assign_later-Covers :
      (predecessor p : ℕ) (ps : List ℕ) (metadata : Metadata) (h : ℕ)
      → All (λ q. 0 < q) (predecessor ∷ p ∷ ps)
      → predecessor < h
      → h ≤ last (p ∷ ps)
      → Increasing (p ∷ ps)
      → All (IsPresent hash addrs) (p ∷ ps)
      → Covers (assign_ranges addrs false predecessor (p ∷ ps) metadata) h
  unfolding assign_ranges last
  assign_later-Covers predecessor p [] metadata h positive below within inc present =
      (assign_ranges-Covers hash addrs hashed false predecessor p [] metadata (predecessor - 1) h
        present.0 tt (later_start predecessor positive.0)
        (in_later_range predecessor p h below within)).0
  assign_later-Covers predecessor p (q ∷ ps) metadata h positive below within inc present =
      elim (Bool-cases (leb h p)) [
        | inl here ↦
            (assign_ranges-Covers hash addrs hashed false predecessor p (q ∷ ps) metadata
              (predecessor - 1) h present.0 inc.0 (later_start predecessor positive.0)
              (in_later_range predecessor p h below (ground arith))).0
        | inr later ↦
            assign_later-Covers p q ps (assign_range addrs false predecessor p metadata) h
              positive.1 (ground arith) within inc.1 present.1
      ]

  assign_rest-Covers :
      (p : ℕ) (ps : List ℕ) (metadata : Metadata) (h : ℕ)
      → All (λ q. 0 < q) (p ∷ ps)
      → p < h
      → h ≤ last (p ∷ ps)
      → Increasing (p ∷ ps)
      → All (IsPresent hash addrs) (p ∷ ps)
      → Covers (assign_ranges addrs true (last (p ∷ ps)) (p ∷ ps) metadata) h
  unfolding assign_ranges last
  assign_rest-Covers p [] metadata h positive above within inc present = absurd (omega arith)
  assign_rest-Covers p (q ∷ ps) metadata h positive above within inc present =
      assign_later-Covers p q ps (assign_range addrs true (last (q ∷ ps)) p metadata) h positive
        above within inc.1 present.1

  -- The ring as a whole.
  pub assign_whole-Covers :
      (p : ℕ) (ps : List ℕ) (metadata : Metadata) (h : ℕ)
      → All (λ q. 0 < q) (p ∷ ps)
      → Increasing (p ∷ ps)
      → All (IsPresent hash addrs) (p ∷ ps)
      → Covers (assign_ranges addrs true (last (p ∷ ps)) (p ∷ ps) metadata) h
  assign_whole-Covers p ps metadata h positive inc present =
      elim (first_or_later p h (last (p ∷ ps))) [
        | inl outside ↦
            (assign_ranges-Covers hash addrs hashed true (last (p ∷ ps)) p ps metadata
              (last (p ∷ ps) + 1) h present.0 inc.0 (first_start (last (p ∷ ps)))
              (in_first_range (last (p ∷ ps)) p h (last-ge p ps inc) outside)).0
        | inr (above, within) ↦ assign_rest-Covers p ps metadata h positive above within inc present
      ]

-- The servers of a ring: at least one, at distinct positions, none of them 0.
pub record IsRing (hash : Text → ℕ) (nodes : List EcsNode) : Type 0 where
  pub some_node : nodes ≢ []
  pub distinct : Distinct (hash_list hash nodes)
  pub positive : All (λ p. 0 < p) (hash_list hash nodes)

module _ (hash : Text → ℕ) where
  pub positions_cons :
      (node : EcsNode) (nodes : List EcsNode)
      → (p : ℕ) × (ps : List ℕ) × (sort (hash_list hash (node ∷ nodes)) ≡ p ∷ ps)
  unfolding hash_list
  positions_cons node nodes = sort-cons (hash (node_addr node)) (hash_list hash nodes)

  pub no_addresses : IsHashed hash []
  unfolding lookup
  no_addresses p a e = absurd (cc)

  calc_cons :
      (node : EcsNode) (nodes : List EcsNode) (h : ℕ)
      → IsRing hash (node ∷ nodes)
      → Covers (calc_metadata hash (node ∷ nodes)) h
  unfolding calc_metadata
  calc_cons node nodes h ring =
      let all = node ∷ nodes in
      let addrs = hash_map hash all [] in
      let (p, ps, sorted) = positions_cons node nodes in
      rw sorted (
        assign_whole-Covers hash addrs (hash_map-IsHashed hash all [] no_addresses) p ps [] h
          (subst (All (λ q. 0 < q)) sorted
            (sort-All (λ q. 0 < q) (hash_list hash all) ring.positive))
          (subst Increasing sorted (sort-Increasing (hash_list hash all) ring.distinct))
          (subst (All (IsPresent hash addrs)) sorted
            (sort-All (IsPresent hash addrs) (hash_list hash all) (hash_list-All hash all []))))

  -- Whatever the hash, some server of the ring has a range that accepts it.
  pub calc_metadata-Covers :
      (nodes : List EcsNode) (h : ℕ) → IsRing hash nodes → Covers (calc_metadata hash nodes) h
  calc_metadata-Covers [] h ring = absurd (ring.some_node refl)
  calc_metadata-Covers (node ∷ nodes) h ring = calc_cons node nodes h ring

  pub calc_metadata-KeysOnce : (nodes : List EcsNode) → KeysOnce (calc_metadata hash nodes)
  unfolding calc_metadata
  calc_metadata-KeysOnce nodes =
      let positions = sort (hash_list hash nodes) in
      assign_ranges-KeysOnce hash (hash_map hash nodes [])
        (hash_map-IsHashed hash nodes [] no_addresses) true (last positions) positions [] tt

  pub calc_metadata-Readable :
      (nodes : List EcsNode) → IsRing hash nodes → Readable (calc_metadata hash nodes)
  unfolding calc_metadata
  calc_metadata-Readable nodes ring =
      let positions = sort (hash_list hash nodes) in
      assign_ranges-Readable hash (hash_map hash nodes [])
        (hash_map-IsHashed hash nodes [] no_addresses) true (last positions) positions [] (inl refl)
        (sort-All (λ q. 0 < q) (hash_list hash nodes) ring.positive)
        (unfold lookup in λ a r e. absurd (cc))
