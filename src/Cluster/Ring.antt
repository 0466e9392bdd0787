-- ===== src/Cluster/Ring.antt =====
-- cluster/partition_map.go: the consistent-hash ring.
use veltrix_db.Base.{
  ℕ, zero, suc, ◌+◌, ◌/◌, ◌%◌, Bool, true, false, not, ◌||◌, Option, none, some, List, [], ◌∷◌,
  ◌++◌, map, ltb, leb, ◌==◌, if◌then◌else◌, length, get_elem?, filter_if, any_if, bytes_eq,
}
use veltrix_db.Cluster.Types.{HashRing}
use veltrix_db.Cluster.Hash.{hash_value, vnode_name}

-- m[hash] = id
unfoldable pub put_owner : ℕ → List ℕ → List (ℕ × List ℕ) → List (ℕ × List ℕ)
put_owner h id [] = (h, id) ∷ []
put_owner h id ((k, v) ∷ m) =
    let rest = put_owner h id m in if k == h then (h, id) ∷ m else (k, v) ∷ rest

-- m[hash], "" for a missing key
unfoldable pub owner : List (ℕ × List ℕ) → ℕ → List ℕ
owner [] h = []
owner ((k, v) ∷ m) h = let rest = owner m h in if k == h then v else rest

-- sort.Slice of the keys
unfoldable pub insert_key : ℕ → List ℕ → List ℕ
insert_key k [] = k ∷ []
insert_key k (x ∷ xs) = let rest = insert_key k xs in if leb k x then k ∷ x ∷ xs else x ∷ rest

unfoldable pub sort_keys : List ℕ → List ℕ
unfolding insert_key
sort_keys [] = []
sort_keys (k ∷ ks) = insert_key k (sort_keys ks)

-- the loop of AddNode over `n` virtual nodes from number `i` on, over the map and the keys
unfoldable pub add_vnodes : List ℕ → ℕ → ℕ → List (ℕ × List ℕ) × List ℕ → List (ℕ × List ℕ) × List ℕ
unfolding put_owner
add_vnodes id zero i m = m
add_vnodes id (suc n) i (m, keys) =
    let h = hash_value (vnode_name id i) in
    add_vnodes id n (i + 1) (put_owner h id m, keys ++ h ∷ [])

-- ConsistentHashRing.AddNode
unfoldable pub add_to_ring : HashRing → List ℕ → HashRing
unfolding add_vnodes sort_keys
add_to_ring r id =
    let m = add_vnodes id r.replicas 0 (r.virtual_nodes, r.sorted_keys) in
    record r { virtual_nodes = m.0; sorted_keys = sort_keys m.1 }

-- ConsistentHashRing.RemoveNode
unfoldable pub remove_from_ring : HashRing → List ℕ → HashRing
unfolding sort_keys
remove_from_ring r id =
    let m = filter_if (λ (e : ℕ × List ℕ). not (bytes_eq e.1 id)) r.virtual_nodes in
    record r { virtual_nodes = m; sorted_keys = sort_keys (map (λ (e : ℕ × List ℕ). e.0) m) }

-- sort.Search, on fuel
unfoldable pub search_from : ℕ → (ℕ → Bool) → ℕ → ℕ → ℕ
search_from zero p i j = i
search_from (suc fuel) p i j =
    let h = (i + j) / 2 in
    elim (ltb i j) [
      | false ↦ i
      | true ↦ elim (p h) [ true ↦ search_from fuel p i h | false ↦ search_from fuel p (h + 1) j ]
    ]

-- the key at an index is not below the hash
unfoldable pub at_least : List ℕ → ℕ → ℕ → Bool
at_least keys h i = elim (get_elem? keys i) [ none ↦ true | some k ↦ leb h k ]

-- the search of GetNode and GetNodeWithReplicas, which wraps round
unfoldable pub search_key : List ℕ → ℕ → ℕ
unfolding search_from at_least
search_key keys h =
    let idx = search_from (length keys) (at_least keys h) 0 (length keys) in
    if idx == length keys then 0 else idx

-- chr.virtualNodes[chr.sortedKeys[idx]], the index being within the keys
unfoldable pub owner_at : HashRing → ℕ → List ℕ
unfolding owner
owner_at r idx = elim (get_elem? r.sorted_keys idx) [ none ↦ [] | some k ↦ owner r.virtual_nodes k ]

-- GetNode, none for an empty ring
unfoldable pub get_node : HashRing → ℕ → Option (List ℕ)
unfolding search_key owner_at
get_node r h =
    if length r.sorted_keys == 0 then none else some (owner_at r (search_key r.sorted_keys h))

-- the loop of GetNodeWithReplicas, for `n` more keys from number `i` after the index
unfoldable pub walk_ring : HashRing → ℕ → ℕ → ℕ → ℕ → List (List ℕ) → List (List ℕ)
unfolding owner_at
walk_ring r idx count zero i out = out
walk_ring r idx count (suc n) i out =
    let id = owner_at r ((idx + i) % length r.sorted_keys) in
    walk_ring r idx count n (i + 1)
      (if not (ltb (length out) count) || any_if (bytes_eq id) out then out else out ++ id ∷ [])

-- GetNodeWithReplicas
unfoldable pub get_node_with_replicas : HashRing → ℕ → ℕ → Option (List (List ℕ))
unfolding search_key walk_ring
get_node_with_replicas r h count =
    if length r.sorted_keys == 0
    then none
    else some (walk_ring r (search_key r.sorted_keys h) count (length r.sorted_keys) 0 [])
