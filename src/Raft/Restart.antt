-- ===== src/Raft/Restart.antt =====
-- consensus/raft.go `loadState` and raft_storage.go `openLogStore`: a node that starts again from its
-- files. The queue and what only memory held are lost.
use veltrix_db.Base.{
  ℕ, ◌+◌, ◌-◌, Bool, true, false, ◌&&◌, ◌||◌, Option, none, some, List, [], ◌∷◌, ltb, leb,
  if◌then◌else◌, drop,
}
use veltrix_db.Raft.Types.{follower, LogEntry}
use veltrix_db.Raft.Store.{LogStore, save_meta, Replacement, rewrite, replay}
use veltrix_db.Raft.Log.{Node, last_log_index, last_log_term}
use veltrix_db.Raft.Role.{is_none}

-- openLogStore: the meta file is read, and the records of the log file are replayed. What is in the file
-- counts as durable, as in `loadState`.
abbrev pub reopen : LogStore → LogStore
reopen s = record s {
  pend = [];
  synced = s.file;
  dirty = false;
  failed = false;
  closed = false;
  saved = s.disk_meta;
  has_meta = true;
}

-- The replayed entries that the snapshot does not cover.
unfoldable pub uncovered : ℕ → List LogEntry → List LogEntry
uncovered head [] = []
uncovered head (e ∷ es) =
    if ltb 0 head && leb e.index head then drop (head - e.index + 1) (e ∷ es) else e ∷ es

-- The replayed log covers entries of the snapshot, so the file is rewritten.
unfoldable pub has_covered : ℕ → List LogEntry → Bool
has_covered head [] = false
has_covered head (e ∷ es) = ltb 0 head && leb e.index head

-- The first entry does not follow the snapshot.
unfoldable pub has_hole : ℕ → List LogEntry → Bool
has_hole head [] = false
has_hole head (e ∷ es) = ltb (head + 1) e.index

-- The term is raised to that of the last entry, if the meta file says less.
unfoldable pub repair_term : Node → Option Node
repair_term n =
    if ltb n.current_term (last_log_term n)
    then (let n' : Node = record n { current_term = last_log_term n; voted_for = "" } in
        let r = save_meta n.store (record { current_term = last_log_term n; voted_for = "" }) in
        if is_none r.0 then some (record n' { store = r.1 }) else none)
    else some n

-- The end of `loadState`: the file is rewritten if it must be, with the outcome `how`.
unfoldable pub rewrite_loaded : Replacement → Bool → Node → Option Node
rewrite_loaded how needed n =
    let r = rewrite how n.store n.entries in
    if needed
    then (if is_none r.0
        then some (record n { store = r.1; durable_index = last_log_index n })
        else none)
    else some (record n { durable_index = last_log_index n })

-- What `replay` reads from the log file: the entries, and the last index before a gap.
abbrev pub replayed : Node → List LogEntry × ℕ
replayed n = replay ([], 0) n.store.file

-- Term, vote and log as they were read, less the entries that the snapshot covers, in a node as
-- `NewRaftNodeWithOptions` makes it, whose state machine recorded no applied index.
abbrev pub reloaded : Node → Node
reloaded n = record n {
  current_term = n.store.disk_meta.current_term;
  voted_for = n.store.disk_meta.voted_for;
  entries = uncovered n.last_included_index (replayed n).0;
  store = reopen n.store;
  role = follower;
  ae_waiters = [];
  waiters = [];
  persist_failed = false;
  sync_pending = false;
  apply_pending = false;
  repl = [];
  leader_contact = none;
  last_ack = [];
  peer_caps = λ p. none;
  learner_rounds = [];
  commit_index = n.last_included_index;
  last_applied = n.last_included_index;
  term_start_index = 0;
  leader_ready = false;
  next_index = λ p. 0;
  match_index = λ p. 0;
  leader_id = "";
}

-- loadState over the reopened store; none where the node refuses to start
unfoldable pub load_state : Replacement → Node → Option Node
load_state how n =
    let m = reloaded n in
    if ltb m.last_included_index (replayed n).1 || has_hole m.last_included_index m.entries
    then none
    else elim (repair_term m) [
      | none ↦ none
      | some m' ↦
          rewrite_loaded how
            (ltb 0 (replayed n).1 || has_covered m.last_included_index (replayed n).0) m'
    ]
