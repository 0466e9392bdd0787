-- ===== src/Cluster.antt =====
-- cluster/: the partition map, the consistent-hash ring, the failure detector and gossip.
pub mod Types
pub mod Hash
pub mod Ring
pub mod Placement
pub mod Membership
pub mod Search
pub mod RingKeys
pub mod Points
pub mod Routed
pub mod Turns
pub mod Runs
pub mod Picks
pub mod Replicas
pub mod Balance
pub mod Colocated
pub mod Detector
pub mod Recovery
pub mod Found
pub mod Gossip
pub mod Judged
pub mod Noted
pub mod Beats
pub mod Demotes
pub mod Confirmed
pub mod Merged
mod Tests
mod DetectorTests
mod GossipTests
