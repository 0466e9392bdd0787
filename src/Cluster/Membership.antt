-- ===== src/Cluster/Membership.antt =====
-- cluster/partition_map.go and epoch.go: the changes of the members, fenced by epochs.
use veltrix_db.Base.{
  ℕ, Bool, true, false, not, Option, none, some, List, [], ◌∷◌, ◌++◌, map, ltb, if◌then◌else◌,
  filter_if, bytes_eq, add64,
}
use veltrix_db.Cluster.Types.{
  NodeState, active, suspect, failed, recovering, draining, Member, PartitionMap, EventType, added,
  removed, state_changed, ClusterError, node_exists, node_not_found, stale_epoch,
}
use veltrix_db.Cluster.Ring.{add_to_ring, remove_from_ring}
use veltrix_db.Cluster.Placement.{find_member}

-- NewPartitionMap, with NewConsistentHashRing
unfoldable pub new_partition_map : ℕ → ℕ → ℕ → ℕ → PartitionMap
new_partition_map now vnodes rf count = record {
  version = 0;
  timestamp = now;
  nodes = [];
  partitions = [];
  ring = record { virtual_nodes = []; sorted_keys = []; replicas = vnodes };
  replication_factor = rf;
  epoch = 0;
  configured_partitions = count;
  events = [];
}

-- notifyMembershipLocked
abbrev pub notify : List ℕ → EventType → NodeState → PartitionMap → PartitionMap
notify id typ st pm = record pm {
  events = pm.events ++ record { node_id = id; typ = typ; new_state = st } ∷ [];
}

-- addNodeLocked, at a time: the error, none for success, and the map
unfoldable pub add_node :
    ℕ → List ℕ → List ℕ → ℕ → PartitionMap → Option ClusterError × PartitionMap
unfolding add_to_ring
add_node now id address port pm = elim (find_member pm.nodes id) [
  | some n ↦ (some node_exists, pm)
  | none ↦ (
    none,
    notify id added active (record pm {
      nodes =
          pm.nodes
          ++ record {
            id = id;
            address = address;
            port = port;
            gossip_addr = [];
            rack = [];
            state = active;
            last_heartbeat = now;
            version = pm.version;
          }
            ∷ [];
      ring = add_to_ring pm.ring id;
      version = add64 pm.version 1;
      epoch = add64 pm.epoch 1;
      timestamp = now;
    }),
  )
]

-- removeNodeLocked; the event carries no new state, which Go reads as the first one
unfoldable pub remove_node : ℕ → List ℕ → PartitionMap → Option ClusterError × PartitionMap
unfolding remove_from_ring
remove_node now id pm = elim (find_member pm.nodes id) [
  | none ↦ (some node_not_found, pm)
  | some n ↦ (
    none,
    notify id removed active (record pm {
      nodes = filter_if (λ (m : Member). not (bytes_eq m.id id)) pm.nodes;
      ring = remove_from_ring pm.ring id;
      version = add64 pm.version 1;
      epoch = add64 pm.epoch 1;
      timestamp = now;
    }),
  )
]

-- the member with an id, changed
unfoldable pub update_member : (Member → Member) → List ℕ → List Member → List Member
update_member f id ns = map (λ (n : Member). if bytes_eq n.id id then f n else n) ns

-- SetNodeGossipAddr and SetNodeRack
unfoldable pub set_node_gossip_addr :
    List ℕ → List ℕ → PartitionMap → Option ClusterError × PartitionMap
unfolding update_member
set_node_gossip_addr id addr pm = elim (find_member pm.nodes id) [
  | none ↦ (some node_not_found, pm)
  | some n ↦ (
    none,
    record pm {
      nodes = update_member (λ (m : Member). record m { gossip_addr = addr }) id pm.nodes;
    },
  )
]

unfoldable pub set_node_rack : List ℕ → List ℕ → PartitionMap → Option ClusterError × PartitionMap
unfolding update_member
set_node_rack id rack pm = elim (find_member pm.nodes id) [
  | none ↦ (some node_not_found, pm)
  | some n ↦ (
    none,
    record pm { nodes = update_member (λ (m : Member). record m { rack = rack }) id pm.nodes },
  )
]

unfoldable pub same_state : NodeState → NodeState → Bool
same_state active active = true
same_state suspect suspect = true
same_state failed failed = true
same_state recovering recovering = true
same_state draining draining = true
same_state _ _ = false

-- UpdateNodeState
unfoldable pub update_node_state :
    ℕ → List ℕ → NodeState → PartitionMap → Option ClusterError × PartitionMap
unfolding update_member same_state
update_node_state now id st pm = elim (find_member pm.nodes id) [
  | none ↦ (some node_not_found, pm)
  | some n ↦
      let pm' : PartitionMap = record pm {
        nodes = update_member (λ (m : Member). record m { state = st }) id pm.nodes;
      } in
      if same_state n.state st then (none, pm') else (
        none,
        notify id state_changed st (record pm' { version = add64 pm.version 1; timestamp = now }),
      )
]

-- UpdateNodeHeartbeat
unfoldable pub update_node_heartbeat :
    ℕ → List ℕ → PartitionMap → Option ClusterError × PartitionMap
unfolding update_member same_state
update_node_heartbeat now id pm = elim (find_member pm.nodes id) [
  | none ↦ (some node_not_found, pm)
  | some n ↦
      let beat = λ (m : Member). record m { last_heartbeat = now } in
      if same_state n.state suspect
      then (
        none,
        record pm {
          nodes = update_member (λ (m : Member). record (beat m) { state = active }) id pm.nodes;
          version = add64 pm.version 1;
          timestamp = now;
        },
      )
      else (none, record pm { nodes = update_member beat id pm.nodes })
]

-- ValidateEpoch
unfoldable pub validate_epoch : ℕ → PartitionMap → Option ClusterError
validate_epoch observed pm = if ltb observed pm.epoch then some stale_epoch else none

-- AdvanceEpochTo
unfoldable pub advance_epoch_to : ℕ → PartitionMap → PartitionMap
advance_epoch_to e pm = if ltb pm.epoch e then record pm { epoch = e } else pm

-- AddNodeWithEpoch and RemoveNodeWithEpoch
unfoldable pub add_node_with_epoch :
    ℕ → List ℕ → List ℕ → ℕ → ℕ → PartitionMap → Option ClusterError × PartitionMap
unfolding add_node
add_node_with_epoch now id address port observed pm =
    if ltb observed pm.epoch then (some stale_epoch, pm) else add_node now id address port pm

unfoldable pub remove_node_with_epoch :
    ℕ → List ℕ → ℕ → PartitionMap → Option ClusterError × PartitionMap
unfolding remove_node
remove_node_with_epoch now id observed pm =
    if ltb observed pm.epoch then (some stale_epoch, pm) else remove_node now id pm
