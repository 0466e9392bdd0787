-- ===== src/Cluster/DetectorTests.antt =====
-- Instances of the theorems on the failure detector.
use veltrix_db.Base.{ℕ, ◌+◌, ◌≤◌, ◌≡◌, refl, Bool, true, List, [], ◌∷◌, ltb}
use veltrix_db.Cluster.Types.{NodeState, active, suspect, failed, recovering, Member, PartitionMap}
use veltrix_db.Cluster.Placement.{find_member}
use veltrix_db.Cluster.Membership.{update_node_state}
use veltrix_db.Cluster.Detector.{
  DetectorConfig, Detector, check_node_health, check_node, record_heartbeat, last_beat,
}
use veltrix_db.Cluster.Recovery.{confirm, confirmations, is_recovering, activate}
use veltrix_db.Cluster.Found.{changed}
use veltrix_db.Cluster.Judged.{judged, check_node_health-judged}
use veltrix_db.Cluster.Noted.{is_in}
use veltrix_db.Cluster.Demotes.{Event, heard, checked, recovered}
use veltrix_db.Cluster.Confirmed.{Answer, confirm_all, streak, confirm-streak}

abbrev node : ℕ → NodeState → ℕ → Member
node id st beat = record {
  id = id ∷ [];
  address = [];
  port = 0;
  gossip_addr = [];
  rack = [];
  state = st;
  last_heartbeat = beat;
  version = 0;
}

-- "a" is the local node; "b" was heard of at 100 and "c" at 190.
abbrev three_nodes : PartitionMap
three_nodes = record {
  version = 0;
  timestamp = 0;
  nodes = node 97 active 0 ∷ node 98 active 100 ∷ node 99 suspect 190 ∷ [];
  partitions = [];
  ring = record { virtual_nodes = []; sorted_keys = []; replicas = 1 };
  replication_factor = 1;
  epoch = 0;
  configured_partitions = 4;
  events = [];
}

-- A node is suspect after 30, and has failed after 80.
abbrev thirty_eighty : DetectorConfig
thirty_eighty = record {
  suspect_threshold = 30;
  failure_threshold = 80;
  max_recovery_retries = 3;
  recovery_confirmations = 0;
}

abbrev watching : Detector
watching = record {
  local_node_id = 97 ∷ [];
  node_heartbeats = [];
  suspected_nodes = [];
  failed_nodes = [];
  config = thirty_eighty;
  partition_map = three_nodes;
  recovery_queue = [];
  recovery_ok = [];
  recovery_retries = [];
}

check_node_health-judged_example :
    find_member (check_node_health 200 watching).partition_map.nodes (98 ∷ [])
    ≡ changed (judged 200 watching) (find_member three_nodes.nodes (98 ∷ []))
check_node_health-judged_example =
    check_node_health-judged 200 watching (98 ∷ []) (refl, (refl, (refl, tt)))

-- At 200 "b" has failed, and is recovering at its next heartbeat.
b_fails : is_in (check_node_health 200 watching) (98 ∷ []) failed ≡ true
unfolding check_node_health update_node_state
b_fails = refl

b_recovers :
    is_in (record_heartbeat 210 (98 ∷ []) (check_node_health 200 watching)) (98 ∷ []) recovering
    ≡ true
unfolding check_node_health record_heartbeat update_node_state
b_recovers = refl

abbrev answers : List ℕ → ℕ → Bool
answers address port = true

abbrev coming : List (ℕ × Event)
coming = (200, checked (98 ∷ [])) ∷ (205, recovered) ∷ (210, heard (98 ∷ [])) ∷ []

-- "b" is looked at, found to be recovering, and fails before it is made active: it is active.
abbrev back : Detector
back = record watching {
  partition_map = record three_nodes { nodes = node 98 recovering 100 ∷ [] };
}

looked_at : is_recovering (98 ∷ []) back ≡ true
unfolding is_recovering
looked_at = refl

failed_since : is_in (check_node 200 (98 ∷ []) back) (98 ∷ []) failed ≡ true
unfolding check_node update_node_state
failed_since = refl

active_still :
    is_in (activate 201 (98 ∷ []) (check_node 200 (98 ∷ []) back)).1 (98 ∷ []) active ≡ true
unfolding check_node activate update_node_state
active_still = refl

abbrev good : ℕ → Answer
good now = record { ok = true; now = now; target = node 98 recovering 190 }

-- Two good answers in a row confirm "b".
confirm-streak_example :
    (confirmations (confirm_all (good 200 ∷ []) watching)
      ≤ streak (98 ∷ []) (good 205 ∷ good 200 ∷ []))
    × (ltb 205 (
          last_beat (confirm_all (good 200 ∷ []) watching) (node 98 recovering 190)
          + (confirm_all (good 200 ∷ []) watching).config.suspect_threshold)
        ≡ true)
unfolding confirm
confirm-streak_example = confirm-streak (good 200 ∷ []) (good 205) watching refl refl
