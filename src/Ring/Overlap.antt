-- ===== src/Ring/Overlap.antt =====
-- Where the ranges of ECSClient.calc_metadata overlap. The range of a server that is not the first
-- begins at its predecessor's position minus one, so the predecessor's position has two servers.
use distributed_storage_with.Base.{
  ℕ, zero, suc, take, ◌++◌, ◌+◌, ◌-◌, ◌≤◌, ◌<◌, ◌≡◌, subst, Bool, true, false, List, [], ◌∷◌, arith,
  inl, pos, Text, Dict, All, nat_Eq, text_Eq,
}
use distributed_storage_with.Ring.Range.{in_range}
use distributed_storage_with.Ring.Metadata.{
  EcsNode, Metadata, sort, last, assign_range, assign_ranges, hash_map, hash_list, calc_metadata,
}
use distributed_storage_with.Ring.Sorting.{Increasing, All-map, sort-All, sort-Increasing}
use distributed_storage_with.Ring.Addresses.{IsHashed, IsPresent, hash_list-All, hash_map-IsHashed}
use distributed_storage_with.Ring.Assignment.{Covers, assign_ranges-Covers}
use distributed_storage_with.Ring.Coverage.{
  IsRing, last-ge, in_later_range, in_first_range, later_start, first_start, no_addresses,
}

-- The entry of the server at position `q` accepts the hash.
pub record AcceptsAt (hash : Text → ℕ) (metadata : Metadata) (q h : ℕ) : Type 0 where
  pub covers : Covers metadata h
  pub at : hash covers.addr ≡ q

-- How the position before the list lies to the first of the list.
abbrev Precedes : Bool → ℕ → ℕ → Type 0
Precedes true predecessor p = p ≤ predecessor
Precedes false predecessor p = (0 < predecessor) × (predecessor < p)

-- The predecessor's position lies in the range of a server that is not the first of the ring.
in_overlap : (p q : ℕ) → p < q → in_range (p - 1) q (pos p) ≡ true
unfolding in_range
in_overlap p q h = ground arith

All-le-last : (xs : List ℕ) → Increasing xs → All (λ r. r ≤ last xs) xs
unfolding last
All-le-last [] inc = tt
All-le-last (x ∷ []) inc = (omega arith, tt)
All-le-last (x ∷ y ∷ xs) inc = (omega (arith, last-ge y xs inc.1), All-le-last (y ∷ xs) inc.1)

adjacent_lt : (xs ys : List ℕ) (p q : ℕ) → Increasing (xs ++ p ∷ q ∷ ys) → p < q
adjacent_lt [] ys p q inc = inc.0.0
adjacent_lt (x ∷ xs) ys p q inc = adjacent_lt xs ys p q inc.1

All-take : (P : ℕ → Type 0) (n : ℕ) (xs : List ℕ) → All P xs → All P (take n xs)
All-take P zero xs h = tt
All-take P (suc n) [] h = tt
All-take P (suc n) (x ∷ xs) h = (h.0, All-take P n xs h.1)

module _ (hash : Text → ℕ) (addrs : Dict ℕ Text) (hashed : IsHashed hash addrs) where
  assign_own :
      (first : Bool) (predecessor p : ℕ) (ps : List ℕ) (metadata : Metadata)
      → Precedes first predecessor p
      → IsPresent hash addrs p
      → All (λ q. p < q) ps
      → AcceptsAt hash (assign_ranges addrs first predecessor (p ∷ ps) metadata) p p
  assign_own true predecessor p ps metadata precedes present above =
      let (c, at) =
        assign_ranges-Covers hash addrs hashed true predecessor p ps metadata (predecessor + 1) p
          present above (first_start predecessor)
          (in_first_range predecessor p p precedes (inl (omega arith))) in
      record { covers = c; at = at }
  assign_own false predecessor p ps metadata (positive, below) present above =
      let (c, at) =
        assign_ranges-Covers hash addrs hashed false predecessor p ps metadata (predecessor - 1) p
          present above (later_start predecessor positive)
          (in_later_range predecessor p p below (omega arith)) in
      record { covers = c; at = at }

  assign_next :
      (first : Bool) (predecessor p q : ℕ) (ps : List ℕ) (metadata : Metadata)
      → 0 < p
      → p < q
      → IsPresent hash addrs q
      → All (λ r. q < r) ps
      → AcceptsAt hash (assign_ranges addrs first predecessor (p ∷ q ∷ ps) metadata) q p
  unfolding assign_ranges
  assign_next first predecessor p q ps metadata positive below present above =
      let (c, at) =
        assign_ranges-Covers hash addrs hashed false p q ps
          (assign_range addrs first predecessor p metadata) (p - 1) p present above
          (later_start p positive) (in_overlap p q below) in
      record { covers = c; at = at }

  assign_ranges_overlap :
      (xs : List ℕ) (first : Bool) (predecessor p q : ℕ) (ys : List ℕ) (metadata : Metadata)
      → Increasing (xs ++ p ∷ q ∷ ys)
      → All (λ r. 0 < r) (xs ++ p ∷ q ∷ ys)
      → All (IsPresent hash addrs) (xs ++ p ∷ q ∷ ys)
      → All (Precedes first predecessor) (take 1 (xs ++ p ∷ q ∷ ys))
      → let metadata' = assign_ranges addrs first predecessor (xs ++ p ∷ q ∷ ys) metadata in
        AcceptsAt hash metadata' p p × AcceptsAt hash metadata' q p
  unfolding assign_ranges
  assign_ranges_overlap [] first predecessor p q ys metadata inc positive present precedes = (
    assign_own first predecessor p (q ∷ ys) metadata precedes.0 present.0 inc.0,
    assign_next first predecessor p q ys metadata positive.0 inc.0.0 present.1.0 inc.1.0,
  )
  assign_ranges_overlap (x ∷ xs) first predecessor p q ys metadata inc positive present precedes =
      let rest = xs ++ p ∷ q ∷ ys in
      assign_ranges_overlap xs false x p q ys (assign_range addrs first predecessor x metadata)
        inc.1 positive.1 present.1
        (All-take (λ r. (0 < x) × (x < r)) 1 rest (All-map rest (λ r lt. (positive.0, lt)) inc.0))

-- In every ring, the position of a server that has a successor in the sorted list lies in the range
-- of that server and also in the range of its successor, which is another server.
pub calc_metadata_overlap :
    (hash : Text → ℕ) (nodes : List EcsNode) (xs ys : List ℕ) (p q : ℕ)
    → IsRing hash nodes
    → sort (hash_list hash nodes) ≡ xs ++ p ∷ q ∷ ys
    → (p < q)
      × AcceptsAt hash (calc_metadata hash nodes) p p
      × AcceptsAt hash (calc_metadata hash nodes) q p
unfolding calc_metadata
calc_metadata_overlap hash nodes xs ys p q ring sorted =
    let addrs = hash_map hash nodes [] in
    let inc = subst Increasing sorted (sort-Increasing (hash_list hash nodes) ring.distinct) in
    let positive =
      subst (All (λ r. 0 < r)) sorted
        (sort-All (λ r. 0 < r) (hash_list hash nodes) ring.positive) in
    let present =
      subst (All (IsPresent hash addrs)) sorted
        (sort-All (IsPresent hash addrs) (hash_list hash nodes) (hash_list-All hash nodes [])) in
    let (own, next) =
      assign_ranges_overlap hash addrs (hash_map-IsHashed hash nodes [] (no_addresses hash)) xs true
        (last (xs ++ p ∷ q ∷ ys)) p q ys [] inc positive present
        (All-take (λ r. r ≤ last (xs ++ p ∷ q ∷ ys)) 1 (xs ++ p ∷ q ∷ ys)
          (All-le-last (xs ++ p ∷ q ∷ ys) inc)) in
    rw sorted (adjacent_lt xs ys p q inc, own, next)
