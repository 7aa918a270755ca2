-- ===== src/Ring/Metadata.antt =====
-- ECSClient.calc_metadata: the metadata of a list of servers, and the search for the server that is
-- responsible for a hash (KVStore.connectCorrServer, ECSClient.getNodeByKey).
use distributed_storage_with.Base.{
  ℕ, ◌+◌, Bool, true, false, List, [], ◌∷◌, ◌++◌, leb, if◌then◌else◌, ℤ, pos, sub_ℕ, Text, Option,
  none, some, Dict, lookup, insert, Result, ok, ◌>>=◌, nat_Eq, text_Eq,
}
use distributed_storage_with.Radix.{natural_to_string}
use distributed_storage_with.Ring.Range.{format_range, parse_range, in_range}

-- ECSNode; its `range` is null wherever a node is made. A port is not negative: a Java socket
-- refuses one that is.
pub record EcsNode : Type 0 where
  pub name : Text
  pub host : Text
  pub port : ℕ

-- The map from "host:port" to the range "start:end".
abbrev pub Metadata : Type 0
Metadata = Dict Text Text

-- host + ":" + String.valueOf(port)
unfoldable pub addr_port : Text → ℕ → Text
addr_port host port = host ++ b':' ∷ natural_to_string 10 port

unfoldable pub node_addr : EcsNode → Text
unfolding addr_port
node_addr node = addr_port node.host node.port

-- Collections.sort
unfoldable pub insert_sorted : ℕ → List ℕ → List ℕ
insert_sorted h [] = h ∷ []
insert_sorted h (x ∷ xs) = let rest = insert_sorted h xs in if leb h x then h ∷ x ∷ xs else x ∷ rest

unfoldable pub sort : List ℕ → List ℕ
unfolding insert_sorted
sort [] = []
sort (x ∷ xs) = insert_sorted x (sort xs)

-- list.get(list.size() - 1); not reached for an empty list
unfoldable pub last : List ℕ → ℕ
last [] = 0
last (x ∷ []) = x
last (x ∷ y ∷ xs) = last (y ∷ xs)

-- The exact predecessor position, plus one for the first server of the ring, minus one for others.
unfoldable pub range_start : Bool → ℕ → ℤ
range_start first predecessor = if first then pos (predecessor + 1) else sub_ℕ predecessor 1

-- The body of the loop of step 3. Every position has an address in the map, so a null address does
-- not arise.
unfoldable pub assign_range : Dict ℕ Text → Bool → ℕ → ℕ → Metadata → Metadata
unfolding range_start
assign_range addrs first predecessor server_pos metadata = elim (lookup server_pos addrs) [
  | none ↦ metadata
  | some addr ↦ insert addr (format_range (range_start first predecessor) server_pos) metadata
]

-- The loop of step 3; `predecessor` is the position of the server before, or for the first that of
-- the last.
unfoldable pub assign_ranges : Dict ℕ Text → Bool → ℕ → List ℕ → Metadata → Metadata
unfolding assign_range
assign_ranges addrs first predecessor [] metadata = metadata
assign_ranges addrs first predecessor (server_pos ∷ rest) metadata =
    assign_ranges addrs false server_pos rest
      (assign_range addrs first predecessor server_pos metadata)

-- The search through the entries of the metadata, in the order in which they come.
unfoldable pub find_server : ℤ → List (Text × Text) → Result (Option (Text × Text))
find_server key_hash [] = ok none
find_server key_hash ((addr, range) ∷ rest) = do
  (start, end) ← parse_range range
  let later = find_server key_hash rest
  if in_range start end key_hash then ok (some (addr, range)) else later

-- `hash` is the MD5 digest of a text, read as a natural number (computeHash, getKeyHash).
module _ (hash : Text → ℕ) where
  -- serverHashMap
  unfoldable pub hash_map : List EcsNode → Dict ℕ Text → Dict ℕ Text
  hash_map [] addrs = addrs
  hash_map (node ∷ nodes) addrs =
      hash_map nodes (insert (hash (node_addr node)) (node_addr node) addrs)

  -- serverHashList, before it is sorted
  unfoldable pub hash_list : List EcsNode → List ℕ
  hash_list [] = []
  hash_list (node ∷ nodes) = hash (node_addr node) ∷ hash_list nodes

  unfoldable pub calc_metadata : List EcsNode → Metadata
  unfolding assign_ranges sort
  calc_metadata nodes =
      let positions = sort (hash_list nodes) in
      assign_ranges (hash_map nodes []) true (last positions) positions []
