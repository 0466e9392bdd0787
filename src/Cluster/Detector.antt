-- ===== src/Cluster/Detector.antt =====
-- cluster/failure_detection.go: the heartbeats, the health check and the recovery of failed nodes. Times
-- are nanoseconds that keep within 63 bits; a set is a list of its members, repeated or not; the metrics
-- are left out.
use veltrix_db.Base.{
  ℕ, ◌+◌, Bool, not, ◌&&◌, ◌||◌, none, some, List, [], ◌∷◌, ◌++◌, map, ltb, ◌==◌, if◌then◌else◌,
  length, any_if, filter_if, bytes_eq,
}
use veltrix_db.Cluster.Types.{NodeState, active, suspect, failed, recovering, Member, PartitionMap}
use veltrix_db.Cluster.Placement.{find_member}
use veltrix_db.Cluster.Membership.{same_state, update_node_state}

-- FailureDetectorConfig, less the intervals of the two loops
pub record DetectorConfig : Type 0 where
  pub suspect_threshold : ℕ
  pub failure_threshold : ℕ
  pub max_recovery_retries : ℕ
  pub recovery_confirmations : ℕ

-- FailureDetector, with the retries that the recovery worker keeps
pub record Detector : Type 0 where
  pub local_node_id : List ℕ
  pub node_heartbeats : List (List ℕ × ℕ)
  pub suspected_nodes : List (List ℕ)
  pub failed_nodes : List (List ℕ)
  pub config : DetectorConfig
  pub partition_map : PartitionMap
  pub recovery_queue : List (List ℕ)
  pub recovery_ok : List (List ℕ × ℕ)
  pub recovery_retries : List (List ℕ × ℕ)

-- a map from ids to numbers: m[id], 0 for a missing key; m[id] = v; delete(m, id)
abbrev pub number_of : List ℕ → List (List ℕ × ℕ) → ℕ
number_of id [] = 0
number_of id ((k, v) ∷ m) = let rest = number_of id m in if bytes_eq k id then v else rest

abbrev pub drop_number : List ℕ → List (List ℕ × ℕ) → List (List ℕ × ℕ)
drop_number id m = filter_if (λ (e : List ℕ × ℕ). not (bytes_eq e.0 id)) m

abbrev pub put_number : List ℕ → ℕ → List (List ℕ × ℕ) → List (List ℕ × ℕ)
put_number id v m = (id, v) ∷ drop_number id m

-- a set of ids: s[id] and delete(s, id)
abbrev pub has_id : List ℕ → List (List ℕ) → Bool
has_id id s = any_if (bytes_eq id) s

abbrev pub drop_id : List ℕ → List (List ℕ) → List (List ℕ)
drop_id id s = filter_if (λ (i : List ℕ). not (bytes_eq id i)) s

-- NewFailureDetector
unfoldable pub new_failure_detector : PartitionMap → DetectorConfig → Detector
new_failure_detector pm config = record {
  local_node_id = [];
  node_heartbeats = [];
  suspected_nodes = [];
  failed_nodes = [];
  config = config;
  partition_map = pm;
  recovery_queue = [];
  recovery_ok = [];
  recovery_retries = [];
}

-- SetLocalNode
unfoldable pub set_local_node : ℕ → List ℕ → Detector → Detector
set_local_node now id fd = record fd {
  local_node_id = id;
  node_heartbeats = put_number id now fd.node_heartbeats;
}

-- the calls of UpdateNodeState, which look at no error
unfoldable pub set_state : ℕ → List ℕ → NodeState → Detector → Detector
set_state now id st fd = record fd {
  partition_map = (update_node_state now id st fd.partition_map).1;
}

-- the two halves of RecordHeartbeat
unfoldable pub clear_suspect : ℕ → List ℕ → Detector → Detector
unfolding set_state
clear_suspect now id fd =
    if has_id id fd.suspected_nodes
    then set_state now id active (record fd { suspected_nodes = drop_id id fd.suspected_nodes })
    else fd

unfoldable pub clear_failed : ℕ → List ℕ → Detector → Detector
unfolding set_state
clear_failed now id fd =
    if has_id id fd.failed_nodes
    then set_state now id recovering (record fd { failed_nodes = drop_id id fd.failed_nodes })
    else fd

-- RecordHeartbeat
unfoldable pub record_heartbeat : ℕ → List ℕ → Detector → Detector
unfolding clear_suspect clear_failed
record_heartbeat now id fd =
    clear_failed now id
      (clear_suspect now id (record fd { node_heartbeats = put_number id now fd.node_heartbeats }))

-- the last heartbeat of a node: the detector's own, else the map's
abbrev pub last_beat : Detector → Member → ℕ
last_beat fd n =
    if number_of n.id fd.node_heartbeats == 0
    then n.last_heartbeat
    else number_of n.id fd.node_heartbeats

-- a send to the recovery queue, which is lost when 100 wait
abbrev pub offer : List ℕ → List (List ℕ) → List (List ℕ)
offer id q = if ltb (length q) 100 then q ++ id ∷ [] else q

unfoldable pub mark_failed : ℕ → List ℕ → Detector → Detector
unfolding set_state
mark_failed now id fd = set_state now id failed (record fd {
  failed_nodes = id ∷ fd.failed_nodes;
  suspected_nodes = drop_id id fd.suspected_nodes;
  recovery_queue = offer id fd.recovery_queue;
})

unfoldable pub mark_suspect : ℕ → List ℕ → Detector → Detector
unfolding set_state
mark_suspect now id fd =
    set_state now id suspect (record fd { suspected_nodes = id ∷ fd.suspected_nodes })

unfoldable pub mark_active : ℕ → List ℕ → Detector → Detector
unfolding set_state
mark_active now id fd =
    set_state now id active (record fd { suspected_nodes = drop_id id fd.suspected_nodes })

-- the branches of the body of checkNodeHealth's loop, for a node that is not the local one
unfoldable pub check_member : ℕ → List ℕ → Member → Detector → Detector
unfolding mark_failed mark_suspect mark_active same_state
check_member now id n fd =
    if ltb (last_beat fd n + fd.config.failure_threshold) now
    then (if same_state n.state failed then fd else mark_failed now id fd)
    else if ltb (last_beat fd n + fd.config.suspect_threshold) now
    then (if same_state n.state suspect || same_state n.state failed
        then fd
        else mark_suspect now id fd)
    else if same_state n.state suspect && ltb now (last_beat fd n + fd.config.suspect_threshold)
    then mark_active now id fd
    else fd

-- the body of the loop, for a node of the map
unfoldable pub check_node : ℕ → List ℕ → Detector → Detector
unfolding check_member find_member
check_node now id fd = elim (find_member fd.partition_map.nodes id) [
  | none ↦ fd
  | some n ↦ if bytes_eq id fd.local_node_id then fd else check_member now id n fd
]

unfoldable pub check_nodes : ℕ → List (List ℕ) → Detector → Detector
unfolding check_node
check_nodes now [] fd = fd
check_nodes now (id ∷ ids) fd = check_nodes now ids (check_node now id fd)

-- checkNodeHealth
unfoldable pub check_node_health : ℕ → Detector → Detector
unfolding check_nodes
check_node_health now fd = check_nodes now (map (λ (n : Member). n.id) fd.partition_map.nodes) fd
