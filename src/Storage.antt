-- ===== src/Storage.antt =====
-- storage/: the storage engine.
pub mod Int64
pub mod Clock
pub mod ClockOrder
pub mod WalRecord
pub mod WalFields
pub mod WalRoundTrip
pub mod WalReplay
pub mod WalTorn
pub mod Marker
pub mod MarkerBytes
pub mod Applied
pub mod DeadRanges
pub mod AppliedCut
pub mod AppliedNewest
pub mod AppliedOpen
pub mod AppliedWrites
mod Tests
mod AppliedTests
