-- ===== src/Cluster/Demotes.antt =====
-- cluster/failure_detection.go: a node that has failed comes back through recovery only.
use veltrix_db.Base.{ℕ, ◌≡◌, Bool, bytes_eq, true, false, ◌||◌, List, [], ◌∷◌}
use veltrix_db.Cluster.Types.{failed, recovering, Member}
use veltrix_db.Cluster.Detector.{Detector, check_node, record_heartbeat}
use veltrix_db.Cluster.Recovery.{trigger_rebalance, recover_next, confirm, activate}
use veltrix_db.Cluster.Noted.{is_in, IsNoted}

-- What the detector and the worker do in one go; the two may take turns between these.
pub data Event : Type 0 where
  heard checked activated : List ℕ → Event
  recovered rebalanced : Event
  confirmed : Bool → Member → Event

abbrev pub handle : (List ℕ → ℕ → Bool) → ℕ → Event → Detector → Detector
handle ping now (heard id) fd = record_heartbeat now id fd
handle ping now (checked id) fd = check_node now id fd
handle ping now (activated id) fd = (activate now id fd).1
handle ping now recovered fd = recover_next ping now fd
handle ping now rebalanced fd = trigger_rebalance now fd
handle ping now (confirmed ok t) fd = (confirm ok now t fd).1

-- Events at their times.
abbrev pub handle_all : (List ℕ → ℕ → Bool) → List (ℕ × Event) → Detector → Detector
handle_all ping [] fd = fd
handle_all ping ((now, e) ∷ es) fd = handle_all ping es (handle ping now e fd)

-- An event is the last part of the promotion of a node.
abbrev pub is_promotion_of : Event → List ℕ → Bool
is_promotion_of (activated i) id = bytes_eq i id
is_promotion_of _ id = false

-- What an event keeps.
abbrev Leads : Event → Detector → Detector → Type 0
Leads e before after =
    IsNoted after
    × ((id : List ℕ)
        → is_in before id failed ≡ true
        → (is_promotion_of e id || (is_in after id failed || is_in after id recovering)) ≡ true)
