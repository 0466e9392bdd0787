-- ===== src/Cluster/Types.antt =====
-- cluster/partition_map.go: what the partition map keeps. Texts are their bytes, and a map from texts or
-- numbers is a list with one element for each key, in no order that the code relies on.
use veltrix_db.Base.{ℕ, List}

-- NodeState
pub data NodeState : Type 0 where
  active suspect failed recovering draining : NodeState

-- Node of a cluster, less its repair counter
pub record Member : Type 0 where
  pub id : List ℕ
  pub address : List ℕ
  pub port : ℕ
  pub gossip_addr : List ℕ
  pub rack : List ℕ
  pub state : NodeState
  pub last_heartbeat : ℕ
  pub version : ℕ

-- PartitionInfo
pub record PartitionInfo : Type 0 where
  pub partition_id : ℕ
  pub range_start : ℕ
  pub range_end : ℕ
  pub primary_node : List ℕ
  pub replica_nodes : List (List ℕ)
  pub version : ℕ
  pub last_modified : ℕ

-- ConsistentHashRing
pub record HashRing : Type 0 where
  pub virtual_nodes : List (ℕ × List ℕ)
  pub sorted_keys : List ℕ
  pub replicas : ℕ

pub data EventType : Type 0 where
  added removed state_changed : EventType

-- MembershipEvent
pub record MembershipEvent : Type 0 where
  pub node_id : List ℕ
  pub typ : EventType
  pub new_state : NodeState

-- PartitionMap, less its lock and metrics; `events` lists what was sent to the subscribers
pub record PartitionMap : Type 0 where
  pub version : ℕ
  pub timestamp : ℕ
  pub nodes : List Member
  pub partitions : List PartitionInfo
  pub ring : HashRing
  pub replication_factor : ℕ
  pub epoch : ℕ
  pub configured_partitions : ℕ
  pub events : List MembershipEvent

pub data ClusterError : Type 0 where
  node_exists node_not_found no_nodes no_active_nodes partition_not_found ring_empty stale_epoch :
      ClusterError
