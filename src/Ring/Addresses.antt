-- ===== src/Ring/Addresses.antt =====
-- The map from positions to addresses that ECSClient.calc_metadata builds (serverHashMap).
use distributed_storage_with.Base.{
  ℕ, ◌≡◌, List, [], ◌∷◌, some, arith, Bool-cases, inl, inr, Text, Dict, lookup, insert,
  lookup-insert, All, nat_Eq, text_Eq, equals_refl,
}
use distributed_storage_with.Ring.Metadata.{EcsNode, node_addr, hash_map, hash_list}

module _ (hash : Text → ℕ) where
  -- Each position of the map is that of its address.
  abbrev pub IsHashed : Dict ℕ Text → Type 0
  IsHashed addrs = (p : ℕ) (a : Text) → lookup p addrs ≡ some a → hash a ≡ p

  abbrev pub IsPresent : Dict ℕ Text → ℕ → Type 0
  IsPresent addrs p = (a : Text) × (lookup p addrs ≡ some a)

  pub hash_map-IsHashed :
      (nodes : List EcsNode) (addrs : Dict ℕ Text)
      → IsHashed addrs
      → IsHashed (hash_map hash nodes addrs)
  unfolding hash_map
  hash_map-IsHashed [] addrs h = h
  hash_map-IsHashed (node ∷ nodes) addrs h =
      hash_map-IsHashed nodes (insert (hash (node_addr node)) (node_addr node) addrs) λ p a found.
        ground (
          arith,
          lookup-insert (hash (node_addr node)) p (node_addr node) addrs,
          h p a,
          nat_Eq.equals_iff (hash (node_addr node)) p,
        )

  insert-IsPresent :
      (q : ℕ) (a : Text) (addrs : Dict ℕ Text) (p : ℕ)
      → IsPresent addrs p
      → IsPresent (insert q a addrs) p
  insert-IsPresent q a addrs p (b, h) = elim (Bool-cases (nat_Eq.equals q p)) [
    | inl same ↦ (a, rw lookup-insert (rw same))
    | inr other ↦ (b, rw lookup-insert (rw other h))
  ]

  hash_map-IsPresent :
      (nodes : List EcsNode) (addrs : Dict ℕ Text) (p : ℕ)
      → IsPresent addrs p
      → IsPresent (hash_map hash nodes addrs) p
  unfolding hash_map
  hash_map-IsPresent [] addrs p h = h
  hash_map-IsPresent (node ∷ nodes) addrs p h =
      hash_map-IsPresent nodes (insert (hash (node_addr node)) (node_addr node) addrs) p
        (insert-IsPresent (hash (node_addr node)) (node_addr node) addrs p h)

  pub hash_list-All :
      (nodes : List EcsNode) (addrs : Dict ℕ Text)
      → All (IsPresent (hash_map hash nodes addrs)) (hash_list hash nodes)
  unfolding hash_map hash_list
  hash_list-All [] addrs = tt
  hash_list-All (node ∷ nodes) addrs =
      let p = hash (node_addr node) in
      let addrs' = insert p (node_addr node) addrs in
      (
        hash_map-IsPresent nodes addrs' p (node_addr node, rw lookup-insert (rw (equals_refl p))),
        hash_list-All nodes addrs',
      )
