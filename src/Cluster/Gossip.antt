-- ===== src/Cluster/Gossip.antt =====
-- cluster/gossip.go: a digest and its merge. The failure detector is there, and has the one partition map.
use veltrix_db.Base.{
  ℕ, Bool, true, false, not, ◌&&◌, ◌||◌, none, some, List, [], ◌∷◌, map, ltb, ◌==◌, if◌then◌else◌,
  length, bytes_eq,
}
use veltrix_db.Cluster.Types.{NodeState, Member, PartitionMap}
use veltrix_db.Cluster.Placement.{find_member}
use veltrix_db.Cluster.Membership.{update_member, advance_epoch_to}
use veltrix_db.Cluster.Detector.{Detector, number_of, put_number, record_heartbeat}

-- DigestEntry; the state is sent as its name, and not read
pub record DigestEntry : Type 0 where
  pub state : NodeState
  pub heartbeat : ℕ
  pub gossip_addr : List ℕ
  pub address : List ℕ
  pub port : ℕ
  pub rack : List ℕ

-- GossipDigest
pub record Digest : Type 0 where
  pub sender_id : List ℕ
  pub epoch : ℕ
  pub map_version : ℕ
  pub timestamp : ℕ
  pub nodes : List (List ℕ × DigestEntry)

-- GossipProtocol, less its transport
pub record Gossip : Type 0 where
  pub node_id : List ℕ
  pub failure_detector : Detector
  pub heartbeat : ℕ
  pub seen_counters : List (List ℕ × ℕ)

-- buildDigest
unfoldable pub build_digest : ℕ → Gossip → Digest
build_digest now g =
    let pm = g.failure_detector.partition_map in
    record {
      sender_id = g.node_id;
      epoch = pm.epoch;
      map_version = pm.version;
      timestamp = now;
      nodes =
          map
            (λ (n : Member). (
              n.id,
              record {
                state = n.state;
                heartbeat =
                    if bytes_eq n.id g.node_id then g.heartbeat else number_of n.id g.seen_counters;
                gossip_addr = n.gossip_addr;
                address = n.address;
                port = n.port;
                rack = n.rack;
              },
            ))
            pm.nodes;
    }

-- Pass 1 of mergeDigest: the counters, and the ids whose counters have advanced.
unfoldable pub advance_counters :
    List ℕ → List (List ℕ × DigestEntry) → List (List ℕ × ℕ) → List (List ℕ × ℕ) × List (List ℕ)
advance_counters own [] seen = (seen, [])
advance_counters own ((id, e) ∷ es) seen =
    let moved = advance_counters own es (put_number id e.heartbeat seen) in
    let rest = advance_counters own es seen in
    if bytes_eq id own || not (ltb (number_of id seen) e.heartbeat)
    then rest
    else (moved.0, id ∷ moved.1)

-- A text that a digest says of a node: its own word counts, another's only fills a blank.
unfoldable pub adopt_text : Bool → List ℕ → List ℕ → List ℕ
adopt_text own_word said known =
    if length said == 0 || not (own_word || length known == 0) then known else said

unfoldable pub adopt_entry : Bool → DigestEntry → Member → Member
unfolding adopt_text
adopt_entry own_word e n = record n {
  gossip_addr = adopt_text own_word e.gossip_addr n.gossip_addr;
  rack = adopt_text own_word e.rack n.rack;
}

-- Pass 2: the addresses and racks, unless the epoch is stale.
unfoldable pub adopt_entries :
    List ℕ → List ℕ → Bool → List (List ℕ × DigestEntry) → List Member → List Member
unfolding adopt_entry update_member
adopt_entries own sender stale [] ns = ns
adopt_entries own sender stale ((id, e) ∷ es) ns = adopt_entries own sender stale es (
    if stale || bytes_eq id own
    then ns
    else update_member (adopt_entry (bytes_eq id sender) e) id ns)

unfoldable pub is_known : List Member → List ℕ → Bool
unfolding find_member
is_known ns id = elim (find_member ns id) [ none ↦ false | some n ↦ true ]

-- The heartbeats of pass 3, but the sender's.
unfoldable pub beat_all : ℕ → List ℕ → List Member → List (List ℕ) → Detector → Detector
unfolding record_heartbeat is_known
beat_all now sender known [] fd = fd
beat_all now sender known (id ∷ ids) fd =
    beat_all now sender known ids
      (if not (bytes_eq id sender) && is_known known id then record_heartbeat now id fd else fd)

-- The partition map after the passes 1 and 2.
unfoldable pub adopt_digest : Digest → Gossip → PartitionMap
unfolding advance_epoch_to adopt_entries
adopt_digest remote g =
    let pm = g.failure_detector.partition_map in
    record (advance_epoch_to remote.epoch pm) {
      nodes =
          adopt_entries g.node_id remote.sender_id (ltb remote.epoch pm.epoch) remote.nodes
            pm.nodes;
    }

-- mergeDigest
unfoldable pub merge_digest : ℕ → Digest → Gossip → Gossip
unfolding advance_counters adopt_digest beat_all
merge_digest now remote g =
    let pm = adopt_digest remote g in
    let (seen, advanced) = advance_counters g.node_id remote.nodes g.seen_counters in
    let fd = record g.failure_detector { partition_map = pm } in
    let fd' =
      if is_known pm.nodes remote.sender_id then record_heartbeat now remote.sender_id fd else fd in
    if bytes_eq remote.sender_id g.node_id then g else record g {
      seen_counters = seen;
      failure_detector = beat_all now remote.sender_id pm.nodes advanced fd';
    }
