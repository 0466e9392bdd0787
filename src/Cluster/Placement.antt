-- ===== src/Cluster/Placement.antt =====
-- cluster/partition_map.go: the choice of replicas, and Rebalance.
use veltrix_db.Base.{
  ℕ, zero, suc, ◌+◌, ◌-◌, ◌*◌, ◌/◌, ◌%◌, ◌^◌, Bool, true, false, not, ◌&&◌, ◌||◌, Option, none,
  some, List, [], ◌∷◌, ◌++◌, ltb, ◌==◌, if◌then◌else◌, length, get_elem?, drop, filter_if, any_if,
  bytes_eq, add64,
}
use veltrix_db.Cluster.Types.{
  NodeState, active, suspect, failed, recovering, draining, Member, PartitionInfo, HashRing,
  PartitionMap, ClusterError, no_nodes, no_active_nodes, partition_not_found, ring_empty,
}
use veltrix_db.Cluster.Hash.{hash_key}
use veltrix_db.Cluster.Ring.{get_node, get_node_with_replicas}

-- a result, or the reason why there is none
pub data ClusterResult (A : Type 0) : Type 0 where
  done : A → ClusterResult A
  fails : ClusterError → ClusterResult A

-- The order in which `pickReplicas` looks at the nodes: `n` of them from number `off` after `start`.
unfoldable pub walk_order : List Member → ℕ → ℕ → ℕ → List Member
walk_order nodes start zero off = []
walk_order nodes start (suc n) off = elim (get_elem? nodes ((start + off) % length nodes)) [
  | none ↦ []
  | some c ↦ c ∷ walk_order nodes start n (off + 1)
]

-- The replicas chosen so far, and their racks.
pub record Picks : Type 0 where
  pub ids : List (List ℕ)
  pub racks : List (List ℕ)

-- One candidate of a pass, the first pass being the one that looks at racks.
unfoldable pub pick_one : Bool → ℕ → Picks → Member → Picks
pick_one first rf p c =
    if not (ltb (length p.ids) rf)
      || any_if (bytes_eq c.id) p.ids
      || (first && ltb 0 (length p.ids) && any_if (bytes_eq c.rack) p.racks)
    then p
    else record { ids = p.ids ++ c.id ∷ []; racks = p.racks ++ c.rack ∷ [] }

unfoldable pub pick_pass : Bool → ℕ → Picks → List Member → Picks
unfolding pick_one
pick_pass first rf p [] = p
pick_pass first rf p (c ∷ cs) = pick_pass first rf (pick_one first rf p c) cs

-- pickReplicas
unfoldable pub pick_replicas : List Member → ℕ → ℕ → List (List ℕ)
unfolding walk_order pick_pass
pick_replicas nodes start rf =
    let rf' = if ltb (length nodes) rf then length nodes else rf in
    let order = walk_order nodes start (length nodes) 0 in
    (pick_pass false rf' (pick_pass true rf' (record { ids = []; racks = [] }) order) order).ids

unfoldable pub find_member : List Member → List ℕ → Option Member
find_member [] id = none
find_member (n ∷ ns) id = let rest = find_member ns id in if bytes_eq n.id id then some n else rest

-- The members of a list of ids that the map knows.
unfoldable pub known_members : List Member → List (List ℕ) → List Member
unfolding find_member
known_members nodes [] = []
known_members nodes (id ∷ ids) = elim (find_member nodes id) [
  | none ↦ known_members nodes ids
  | some n ↦ n ∷ known_members nodes ids
]

-- replicasOnRing
unfoldable pub replicas_on_ring :
    HashRing → List Member → ℕ → List ℕ → ClusterResult (List (List ℕ))
unfolding known_members pick_replicas
replicas_on_ring ring nodes rf key =
    elim (get_node_with_replicas ring (hash_key key) (length nodes)) [
      | none ↦ fails ring_empty
      | some order ↦
          let known = known_members nodes order in
          if length known == 0 then fails no_nodes else done (pick_replicas known 0 rf)
    ]

-- GetNodeForKey and GetReplicasForKey
unfoldable pub get_node_for_key : PartitionMap → List ℕ → ClusterResult (List ℕ)
get_node_for_key pm key = elim (get_node pm.ring (hash_key key)) [
  | none ↦ fails ring_empty
  | some id ↦ done id
]

unfoldable pub get_replicas_for_key : PartitionMap → List ℕ → ClusterResult (List (List ℕ))
unfolding replicas_on_ring
get_replicas_for_key pm key = replicas_on_ring pm.ring pm.nodes pm.replication_factor key

unfoldable pub is_active : NodeState → Bool
is_active active = true
is_active suspect = false
is_active failed = false
is_active recovering = false
is_active draining = false

-- the order of ids, of Go's strings
unfoldable pub text_lt : List ℕ → List ℕ → Bool
text_lt [] [] = false
text_lt [] (b ∷ bs) = true
text_lt (a ∷ as') [] = false
text_lt (a ∷ as') (b ∷ bs) = ltb a b || (a == b && text_lt as' bs)

-- sort.Slice of the nodes by id
unfoldable pub insert_member : Member → List Member → List Member
unfolding text_lt
insert_member n [] = n ∷ []
insert_member n (m ∷ ms) =
    let rest = insert_member n ms in if text_lt m.id n.id then m ∷ rest else n ∷ m ∷ ms

unfoldable pub sort_members : List Member → List Member
unfolding insert_member
sort_members [] = []
sort_members (n ∷ ns) = insert_member n (sort_members ns)

-- The nodes that partitions are given to.
unfoldable pub node_list : List Member → List Member
unfolding sort_members is_active
node_list nodes = sort_members (filter_if (λ (n : Member). is_active n.state) nodes)

abbrev pub max_uint64 : ℕ
max_uint64 = 2 ^ 64 - 1

-- The first of the replicas, and the others.
unfoldable pub head_or_none : List (List ℕ) → List ℕ
head_or_none [] = []
head_or_none (r ∷ rs) = r

-- One partition, at a time.
unfoldable pub assign_partition : ℕ → PartitionMap → List Member → ℕ → ℕ → PartitionInfo
unfolding pick_replicas head_or_none
assign_partition now pm nodes count i =
    let replicas = pick_replicas nodes (i % length nodes) pm.replication_factor in
    record {
      partition_id = i;
      range_start = i * (max_uint64 / count) % 2 ^ 64;
      range_end = (i + 1) * (max_uint64 / count) % 2 ^ 64;
      primary_node = head_or_none replicas;
      replica_nodes = drop 1 replicas;
      version = pm.version;
      last_modified = now;
    }

-- the loop of Rebalance, `n` partitions from `i` on
unfoldable pub assign_partitions : ℕ → PartitionMap → List Member → ℕ → ℕ → ℕ → List PartitionInfo
unfolding assign_partition
assign_partitions now pm nodes count zero i = []
assign_partitions now pm nodes count (suc n) i =
    assign_partition now pm nodes count i ∷ assign_partitions now pm nodes count n (i + 1)

-- Rebalance, with a replication factor that is not 0: it would index no replica
unfoldable pub rebalance : ℕ → ℕ → PartitionMap → ClusterResult PartitionMap
unfolding node_list assign_partitions
rebalance now count pm =
    let nodes = node_list pm.nodes in
    if length pm.nodes == 0
    then fails no_nodes
    else if length nodes == 0
    then fails no_active_nodes
    else done (record pm {
      partitions = assign_partitions now pm nodes count count 0;
      version = add64 pm.version 1;
      timestamp = now;
      configured_partitions = count;
    })

unfoldable pub find_partition : List PartitionInfo → ℕ → ClusterResult PartitionInfo
find_partition [] id = fails partition_not_found
find_partition (p ∷ ps) id =
    let rest = find_partition ps id in if p.partition_id == id then done p else rest

-- GetPartition
unfoldable pub get_partition : PartitionMap → ℕ → ClusterResult PartitionInfo
unfolding find_partition
get_partition pm id = find_partition pm.partitions id
