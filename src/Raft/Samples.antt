-- ===== src/Raft/Samples.antt =====
-- A follower of three servers, and the same node as a leader, for the tests.
use veltrix_db.Base.{
  String, ℕ, true, false, Option, none, List, [], ◌∷◌, arith, if◌then◌else◌, str_eq,
}
use veltrix_db.Raft.Types.{
  follower, leader, entry_normal, LogEntry, Configuration, AppendEntriesArgs, RequestVoteArgs,
}
use veltrix_db.Raft.Store.{LogStore, written}
use veltrix_db.Raft.Log.{Node}
use veltrix_db.Raft.Contiguous.{IsLog}

abbrev pub three : Configuration
three = record { servers = "a" ∷ "b" ∷ "c" ∷ []; learners = []; addrs = [] }

abbrev pub entry : ℕ → ℕ → LogEntry
entry term index = record { term = term; index = index; typ = entry_normal; command = index ∷ [] }

abbrev pub two_entries : List LogEntry
two_entries = entry 1 1 ∷ entry 1 2 ∷ []

abbrev pub no_config : List ℕ → Option Configuration
no_config bytes = none

abbrev pub fresh_store : LogStore
fresh_store = record {
  file = two_entries;
  pend = [];
  synced = two_entries;
  dirty = false;
  failed = false;
  closed = false;
  saved = record { current_term = 1; voted_for = "" };
  has_meta = true;
  disk_meta = record { current_term = 1; voted_for = "" };
  meta_writes = written ∷ written ∷ written ∷ written ∷ [];
}

abbrev pub a_follower : Node
a_follower = record {
  id = "b";
  current_term = 1;
  voted_for = "";
  entries = two_entries;
  store = fresh_store;
  durable_index = 2;
  persist_failed = false;
  ae_waiters = [];
  pipeline = false;
  sync_pending = false;
  apply_pending = false;
  repl = [];
  pipeline_window = 1;
  started = true;
  stopped = false;
  caps = 0;
  last_included_index = 0;
  last_included_term = 0;
  config = three;
  config_index = 0;
  base_config = three;
  base_config_index = 0;
  peers = "a" ∷ "c" ∷ [];
  voter_peers = "a" ∷ "c" ∷ [];
  removed = false;
  voter = true;
  leader_contact = none;
  last_ack = [];
  peer_caps = λ p. none;
  learner_rounds = [];
  commit_index = 0;
  last_applied = 0;
  term_start_index = 0;
  leader_ready = false;
  next_index = λ s. 0;
  match_index = λ s. 0;
  role = follower;
  leader_id = "";
  election_generation = 0;
  waiters = [];
  outbox = [];
}

-- A request whose last entry conflicts with the log at index 2, and extends it.
abbrev pub request : AppendEntriesArgs
request = record {
  term = 2;
  leader_id = "a";
  prev_log_index = 1;
  prev_log_term = 1;
  entries = entry 2 2 ∷ entry 2 3 ∷ [];
  leader_commit = 2;
  want_match = true;
}

-- The follower as the leader of its term, with one follower that matches.
abbrev pub a_leader : Node
a_leader = record a_follower {
  role = leader;
  leader_id = "b";
  match_index = λ s. if str_eq s "a" then 2 else 0;
}

pub follower-IsLog : IsLog a_follower
follower-IsLog = record { contiguous = omega arith; fits = omega arith }

abbrev pub vote_for : String → ℕ → RequestVoteArgs
vote_for candidate term = record {
  term = term;
  candidate_id = candidate;
  last_log_index = 2;
  last_log_term = 1;
  pre_vote = false;
}
