-- ===== src/Raft/Log.antt =====
-- consensus/raft.go: `RaftNode` and the helpers that read its log.
use veltrix_db.Base.{
  ℕ, ◌+◌, ◌-◌, String, Bool, ◌||◌, Option, none, some, List, [], ◌∷◌, ltb, leb, ◌==◌, if◌then◌else◌,
  get_elem?, drop,
}
use veltrix_db.Raft.Types.{
  Role, LogEntry, Configuration, AeWaiter, PeerRepl, LearnerRound, CommitWaiter, Outcome,
}
use veltrix_db.Raft.Store.{LogStore}

-- RaftNode, less its goroutines, locks, channels, metrics and the state of a snapshot transfer.
-- `started` says that the constructor has ended, `caps` is what `localCaps` returns, and `outbox`
-- lists what was sent on the channels of `Submit`. A map from servers to numbers is a function.
pub record Node : Type 0 where
  pub id : String
  pub current_term : ℕ
  pub voted_for : String
  pub entries : List LogEntry
  pub store : LogStore
  pub durable_index : ℕ
  pub persist_failed : Bool
  pub ae_waiters : List AeWaiter
  pub pipeline : Bool
  pub sync_pending : Bool
  pub apply_pending : Bool
  pub repl : List PeerRepl
  pub pipeline_window : ℕ
  pub started : Bool
  pub stopped : Bool
  pub caps : ℕ
  pub last_included_index : ℕ
  pub last_included_term : ℕ
  pub config : Configuration
  pub config_index : ℕ
  pub base_config : Configuration
  pub base_config_index : ℕ
  pub peers : List String
  pub voter_peers : List String
  pub removed : Bool
  pub voter : Bool
  pub leader_contact : Option ℕ
  pub last_ack : List (String × ℕ)
  pub peer_caps : String → Option ℕ
  pub learner_rounds : List LearnerRound
  pub commit_index : ℕ
  pub last_applied : ℕ
  pub term_start_index : ℕ
  pub leader_ready : Bool
  pub next_index : String → ℕ
  pub match_index : String → ℕ
  pub role : Role
  pub leader_id : String
  pub election_generation : ℕ
  pub waiters : List CommitWaiter
  pub outbox : List (ℕ × Outcome)

-- the term and the index of the last entry, over the snapshot's
unfoldable pub last_index_over : ℕ → List LogEntry → ℕ
last_index_over head [] = head
last_index_over head (e ∷ es) = last_index_over e.index es

unfoldable pub last_term_over : ℕ → List LogEntry → ℕ
last_term_over head [] = head
last_term_over head (e ∷ es) = last_term_over e.term es

unfoldable pub first_index_over : ℕ → List LogEntry → ℕ
first_index_over head [] = head + 1
first_index_over head (e ∷ es) = e.index

-- logFirstIndex
unfoldable pub log_first_index : Node → ℕ
unfolding first_index_over
log_first_index n = first_index_over n.last_included_index n.entries

-- lastLogIndex
unfoldable pub last_log_index : Node → ℕ
unfolding last_index_over
last_log_index n = last_index_over n.last_included_index n.entries

-- lastLogTerm
unfoldable pub last_log_term : Node → ℕ
unfolding last_term_over
last_log_term n = last_term_over n.last_included_term n.entries

-- `log[idx-firstIdx]`, guarded as `entryAt` and `logTerm` guard it. An entry that is missing though
-- the guard passes, which a log with a gap would show, panics in Go.
unfoldable pub find_entry : List LogEntry → ℕ → ℕ → Option LogEntry
find_entry [] last idx = none
find_entry (e ∷ es) last idx =
    if ltb idx e.index || ltb last idx then none else get_elem? (e ∷ es) (idx - e.index)

-- entryAt
unfoldable pub entry_at : Node → ℕ → Option LogEntry
unfolding find_entry last_log_index
entry_at n idx = find_entry n.entries (last_log_index n) idx

-- logTerm
unfoldable pub log_term : Node → ℕ → ℕ
unfolding entry_at
log_term n idx =
    if idx == 0
    then 0
    else if idx == n.last_included_index
    then n.last_included_term
    else elim (entry_at n idx) [ none ↦ 0 | some e ↦ e.term ]

-- the entries from an index on, with the last index of the log
unfoldable pub from_entries : List LogEntry → ℕ → ℕ → List LogEntry
from_entries [] last idx = []
from_entries (e ∷ es) last idx = if ltb last idx then [] else drop (idx - e.index) (e ∷ es)

-- entriesFrom
unfoldable pub entries_from : Node → ℕ → List LogEntry
unfolding from_entries last_log_index
entries_from n idx = from_entries n.entries (last_log_index n) idx

-- logUpToDate
unfoldable pub log_up_to_date : Node → ℕ → ℕ → Bool
unfolding last_log_term last_log_index
log_up_to_date n last_term last_idx =
    if last_term == last_log_term n
    then leb (last_log_index n) last_idx
    else ltb (last_log_term n) last_term
