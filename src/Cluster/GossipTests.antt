-- ===== src/Cluster/GossipTests.antt =====
-- An instance of the theorem on the merge of a digest.
use veltrix_db.Base.{ℕ, ◌≡◌, refl, some, List, [], ◌∷◌}
use veltrix_db.Cluster.Types.{active, Member}
use veltrix_db.Cluster.Membership.{update_node_state}
use veltrix_db.Cluster.Gossip.{DigestEntry, Digest, Gossip, merge_digest}
use veltrix_db.Cluster.Merged.{texts_of, Merged, merge_digest-Merged}

abbrev node : ℕ → List ℕ → Member
node id rack = record {
  id = id ∷ [];
  address = [];
  port = 0;
  gossip_addr = [];
  rack = rack;
  state = active;
  last_heartbeat = 1;
  version = 0;
}

-- "a" knows "b", and "c" with its rack.
abbrev of_a : Gossip
of_a = record {
  node_id = 97 ∷ [];
  failure_detector = record {
    local_node_id = 97 ∷ [];
    node_heartbeats = [];
    suspected_nodes = [];
    failed_nodes = [];
    config = record {
      suspect_threshold = 30;
      failure_threshold = 80;
      max_recovery_retries = 3;
      recovery_confirmations = 2;
    };
    partition_map = record {
      version = 0;
      timestamp = 0;
      nodes = node 97 [] ∷ node 98 [] ∷ node 99 (1 ∷ []) ∷ [];
      partitions = [];
      ring = record { virtual_nodes = []; sorted_keys = []; replicas = 1 };
      replication_factor = 1;
      epoch = 3;
      configured_partitions = 4;
      events = [];
    };
    recovery_queue = [];
    recovery_ok = [];
    recovery_retries = [];
  };
  heartbeat = 5;
  seen_counters = [];
}

abbrev entry : List ℕ → DigestEntry
entry rack = record {
  state = active;
  heartbeat = 7;
  gossip_addr = [];
  address = [];
  port = 0;
  rack = rack;
}

-- "b" tells its own rack, and another one for "c".
abbrev of_b : ℕ → Digest
of_b epoch = record {
  sender_id = 98 ∷ [];
  epoch = epoch;
  map_version = 0;
  timestamp = 0;
  nodes = (98 ∷ [], entry (2 ∷ [])) ∷ (99 ∷ [], entry (2 ∷ [])) ∷ [];
}

merge_digest-Merged_example : Merged (of_b 2) of_a (merge_digest 10 (of_b 2) of_a)
merge_digest-Merged_example = merge_digest-Merged 10 (of_b 2) of_a refl

-- In its own epoch "b" is believed of itself, and not of "c".
b_is_believed :
    texts_of (merge_digest 10 (of_b 3) of_a).failure_detector (98 ∷ []) ≡ some ([], 2 ∷ [])
unfolding merge_digest update_node_state
b_is_believed = refl

c_keeps_its_rack :
    texts_of (merge_digest 10 (of_b 3) of_a).failure_detector (99 ∷ []) ≡ some ([], 1 ∷ [])
unfolding merge_digest update_node_state
c_keeps_its_rack = refl
