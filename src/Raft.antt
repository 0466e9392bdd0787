-- ===== src/Raft.antt =====
-- consensus/: the Raft node.
pub mod Types
pub mod Store
pub mod Log
pub mod Config
pub mod Role
pub mod Effective
pub mod Vote
pub mod Append
pub mod Replicate
pub mod Replies
pub mod Restart
pub mod Commit
pub mod Membership
pub mod VoteState
pub mod Binding
pub mod Ballot
pub mod Campaign
pub mod Grants
pub mod Events
pub mod OneVote
pub mod Contiguous
pub mod Batches
pub mod Durable
pub mod Pipeline
pub mod Merge
pub mod MergeLaws
pub mod Accepted
pub mod Backoff
pub mod MatchIndex
pub mod Receiver
pub mod Advance
pub mod Majority
pub mod Changes
pub mod Applier
pub mod Applies
pub mod AppliedRuns
pub mod AppliedOnce
pub mod ReadIndex
pub mod ReadFence
mod Samples
mod Tests
mod LeaderTests
mod ApplierTests
pub mod Records
pub mod RecordLaws
pub mod Disk
