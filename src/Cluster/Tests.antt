-- ===== src/Cluster/Tests.antt =====
-- Instances of the theorems on the partition map.
use veltrix_db.Base.{ℕ, ◌≡◌, ◌⊎◌, refl, none, some, List, [], ◌∷◌, arith}
use veltrix_db.Cluster.Types.{NodeState, active, failed, Member, HashRing, PartitionMap}
use veltrix_db.Cluster.Hash.{fnv64a, routing_key}
use veltrix_db.Cluster.Ring.{owner, owner_at, search_key, get_node}
use veltrix_db.Cluster.Placement.{get_node_for_key, pick_replicas, rebalance}
use veltrix_db.Cluster.Search.{successor, get_node-successor}
use veltrix_db.Cluster.Turns.{Change, add, remove}
use veltrix_db.Cluster.Replicas.{AreReplicas, pick_replicas-AreReplicas}
use veltrix_db.Cluster.Balance.{Rebalanced, rebalance-Rebalanced}
use veltrix_db.Cluster.Colocated.{vector_key, text_key, index_key, get_node_for_key-colocated}

-- FNV-1a of the empty text and of "a".
hash_a : fnv64a 14_695_981_039_346_656_037 (97 ∷ []) ≡ 12_638_187_200_555_641_996
unfolding fnv64a
hash_a = refl

-- A ring of two nodes "a" and "b" with two virtual nodes each.
abbrev small_ring : HashRing
small_ring = record {
  virtual_nodes = (10, 97 ∷ []) ∷ (20, 98 ∷ []) ∷ (30, 97 ∷ []) ∷ (40, 98 ∷ []) ∷ [];
  sorted_keys = 10 ∷ 20 ∷ 30 ∷ 40 ∷ [];
  replicas = 2;
}

get_node-successor_example :
    ((small_ring.sorted_keys ≡ []) × (get_node small_ring 31 ≡ none))
    ⊎ ((k : ℕ) × (successor 31 small_ring.sorted_keys ≡ some k)
        × (get_node small_ring 31 ≡ some (owner small_ring.virtual_nodes k)))
get_node-successor_example = get_node-successor small_ring 31 (omega arith)

-- Past the last key the search begins again.
wraps : get_node small_ring 41 ≡ some (97 ∷ [])
unfolding get_node owner_at search_key
wraps = refl

abbrev member : ℕ → ℕ → NodeState → Member
member id rack st = record {
  id = id ∷ [];
  address = [];
  port = 0;
  gossip_addr = [];
  rack = rack ∷ [];
  state = st;
  last_heartbeat = 0;
  version = 0;
}

-- Two racks, and a node that has failed.
abbrev four_nodes : List Member
four_nodes = member 97 1 active ∷ member 98 1 active ∷ member 99 2 active ∷ member 100 2 failed ∷ []

abbrev small_map : PartitionMap
small_map = record {
  version = 5;
  timestamp = 0;
  nodes = four_nodes;
  partitions = [];
  ring = record { virtual_nodes = []; sorted_keys = []; replicas = 2 };
  replication_factor = 2;
  epoch = 3;
  configured_partitions = 8;
  events = [];
}

pick_replicas-AreReplicas_example : AreReplicas four_nodes 2 (pick_replicas four_nodes 0 2)
pick_replicas-AreReplicas_example = pick_replicas-AreReplicas four_nodes 0 2 (omega arith)

-- The second replica is in the other rack.
other_rack : pick_replicas four_nodes 0 2 ≡ (97 ∷ []) ∷ (99 ∷ []) ∷ []
unfolding pick_replicas
other_rack = refl

rebalance-Rebalanced_example : Rebalanced small_map 8 7 (rebalance 1 8 small_map)
rebalance-Rebalanced_example = rebalance-Rebalanced 1 8 7 small_map (omega arith) (omega arith)

abbrev few_changes : List (ℕ × Change)
few_changes = (1, remove (97 ∷ [])) ∷ (2, add (97 ∷ []) [] 80) ∷ (3, add (98 ∷ []) [] 80) ∷ []

-- The key "k" in the namespace "n", and its entry for the value "v" of the rule "r".
get_node_for_key-colocated_example :
    (get_node_for_key small_map (vector_key (110 ∷ []) (107 ∷ []))
      ≡ get_node_for_key small_map (107 ∷ []))
    × (get_node_for_key small_map (text_key (110 ∷ []) (107 ∷ []))
        ≡ get_node_for_key small_map (107 ∷ []))
    × (get_node_for_key small_map (index_key (114 ∷ []) (118 ∷ []) (107 ∷ []))
        ≡ get_node_for_key small_map (107 ∷ []))
get_node_for_key-colocated_example =
    get_node_for_key-colocated small_map (110 ∷ []) (114 ∷ []) (118 ∷ []) (107 ∷ []) (refl, tt)
      (refl, tt) (refl, tt) (omega arith) (unfold routing_key in refl)
