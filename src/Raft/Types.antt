-- ===== src/Raft/Types.antt =====
-- consensus/raft.go, pipeline.go and membership.go: what the node keeps and what it exchanges.
-- A server id is a text, "" for none; a time is a number of nanoseconds.
use veltrix_db.Base.{ℕ, String, List, Bool}

-- RaftRole
pub data Role : Type 0 where
  follower candidate leader : Role

-- EntryType
pub data EntryType : Type 0 where
  entry_normal entry_config : EntryType
  entry_other : ℕ → EntryType

-- LogEntry; a command is its bytes
pub record LogEntry : Type 0 where
  pub term : ℕ
  pub index : ℕ
  pub typ : EntryType
  pub command : List ℕ

-- Configuration; the map of addresses is an association list
pub record Configuration : Type 0 where
  pub servers : List String
  pub learners : List String
  pub addrs : List (String × String)

-- raftMeta
pub record RaftMeta : Type 0 where
  pub current_term : ℕ
  pub voted_for : String

pub record RequestVoteArgs : Type 0 where
  pub term : ℕ
  pub candidate_id : String
  pub last_log_index : ℕ
  pub last_log_term : ℕ
  pub pre_vote : Bool

pub record RequestVoteReply : Type 0 where
  pub term : ℕ
  pub vote_granted : Bool

pub record AppendEntriesArgs : Type 0 where
  pub term : ℕ
  pub leader_id : String
  pub prev_log_index : ℕ
  pub prev_log_term : ℕ
  pub entries : List LogEntry
  pub leader_commit : ℕ
  pub want_match : Bool

pub record AppendEntriesReply : Type 0 where
  pub term : ℕ
  pub success : Bool
  pub conflict_index : ℕ
  pub conflict_term : ℕ
  pub has_match : Bool
  pub match_index : ℕ
  pub caps : ℕ

-- aeWaiter; `respond` is the number of the request that waits
pub record AeWaiter : Type 0 where
  pub term : ℕ
  pub target : ℕ
  pub target_term : ℕ
  pub respond : ℕ

-- peerRepl, less its channels. A replicator that is stopped has left the list of the node.
pub record PeerRepl : Type 0 where
  pub peer : String
  pub term : ℕ
  pub kicked : Bool
  pub inflight : ℕ
  pub probing : Bool
  pub epoch : ℕ
  pub hb_due : Bool
  pub snapshotting : Bool
  pub snap_retry_at : ℕ

-- learnerRound
pub record LearnerRound : Type 0 where
  pub learner : String
  pub target : ℕ
  pub start : ℕ

-- A channel on which `Submit` waits for the entry at an index, and what is sent on it.
pub record CommitWaiter : Type 0 where
  pub index : ℕ
  pub channel : ℕ

pub data Outcome : Type 0 where
  applied not_leader persist_failed : Outcome
