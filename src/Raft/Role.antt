-- ===== src/Raft/Role.antt =====
-- consensus/raft.go and pipeline.go: changes of role and term, and the notifications they send.
use veltrix_db.Base.{
  ℕ, String, Bool, true, false, not, ◌&&◌, ◌||◌, Option, none, some, List, [], ◌∷◌, ◌++◌, map, ltb,
  ◌==◌, if◌then◌else◌, any_if, filter_if, add64, str_eq,
}
use veltrix_db.Raft.Types.{
  Role, follower, candidate, leader, entry_normal, LogEntry, PeerRepl, Outcome, not_leader,
}
use veltrix_db.Raft.Store.{StoreError, save_meta, enqueue}
use veltrix_db.Raft.Config.{member_of}
use veltrix_db.Raft.Log.{Node, last_log_index}

abbrev pub is_leader : Role → Bool
is_leader leader = true
is_leader _ = false

abbrev pub is_candidate : Role → Bool
is_candidate candidate = true
is_candidate _ = false

abbrev pub is_none {ℓ} : {A : Type ℓ} → Option A → Bool
is_none none = true
is_none (some a) = false

-- kickSyncerLocked
abbrev pub kick_syncer : Node → Node
kick_syncer n = record n { sync_pending = true }

-- notifyApplier
abbrev pub notify_applier : Node → Node
notify_applier n = record n { apply_pending = n.apply_pending || not n.stopped }

-- resetElectionTimer
abbrev pub reset_election_timer : Node → Node
reset_election_timer n = record n { election_generation = add64 n.election_generation 1 }

-- noteLeaderContactLocked, at the time `now`
abbrev pub note_leader_contact : ℕ → Node → Node
note_leader_contact now n = record n { leader_contact = some now }

-- persistMetaLocked
unfoldable pub persist_meta : Node → Option StoreError × Node
persist_meta n =
    let r = save_meta n.store (record { current_term = n.current_term; voted_for = n.voted_for }) in
    (r.0, record n { store = r.1 })

-- failWaitersLocked
unfoldable pub fail_waiters : Outcome → Node → Node
fail_waiters o n = record n {
  waiters = [];
  outbox = n.outbox ++ map (λ w. (w.channel, o)) n.waiters;
}

abbrev pub new_replicator : Node → String → PeerRepl
new_replicator n p = record {
  peer = p;
  term = n.current_term;
  kicked = true;
  inflight = 0;
  probing = true;
  epoch = 0;
  hb_due = false;
  snapshotting = false;
  snap_retry_at = 0;
}

-- The replicators that `syncReplicatorsLocked` starts, after Stop none.
unfoldable pub start_replicators : Node → List String → List PeerRepl → List PeerRepl
start_replicators n [] repl = repl
start_replicators n (p ∷ ps) repl = start_replicators n ps (
    if any_if (λ r. str_eq r.peer p) repl || n.stopped
    then repl
    else repl ++ new_replicator n p ∷ [])

-- syncReplicatorsLocked; the replicators that leave the list are stopped
unfoldable pub replicators : Node → List PeerRepl
replicators n =
    if is_leader n.role
    then start_replicators n n.peers
        (filter_if (λ r. member_of n.peers r.peer && r.term == n.current_term) n.repl)
    else []

unfoldable pub sync_replicators : Node → Node
sync_replicators n = record n { repl = if n.started then replicators n else n.repl }

-- becomeFollower
unfoldable pub become_follower : Node → ℕ → Node
become_follower n term =
    let n' : Node = record n {
      leader_id = if ltb n.current_term term then "" else n.leader_id;
      current_term = term;
      voted_for = "";
      role = follower;
    } in
    (persist_meta (kick_syncer (sync_replicators (fail_waiters not_leader n')))).1

-- The common start of the handlers: a later term is adopted, and it must be durable before anything
-- is answered in it.
unfoldable pub adopt_term : Node → ℕ → Bool × Node
adopt_term n term =
    if ltb n.current_term term
    then (let r = persist_meta (become_follower n term) in (is_none r.0, r.1))
    else (true, n)

-- stepDownLocked
unfoldable pub step_down : Node → Node
step_down n =
    sync_replicators (fail_waiters not_leader (record n { role = follower; leader_id = "" }))

abbrev pub no_op : Node → LogEntry
no_op n = record {
  term = n.current_term;
  index = add64 (last_log_index n) 1;
  typ = entry_normal;
  command = [];
}

-- becomeLeader; a queue that refuses the no-op is only logged
unfoldable pub become_leader : Node → Node
become_leader n =
    let next = add64 (last_log_index n) 1 in
    let noop = no_op n in
    let n' : Node = record n {
      role = leader;
      leader_id = n.id;
      next_index = λ p. if member_of n.peers p then next else n.next_index p;
      match_index = λ p. if member_of n.peers p then 0 else n.match_index p;
      last_ack = [];
      learner_rounds = [];
      entries = n.entries ++ noop ∷ [];
      term_start_index = noop.index;
      leader_ready = false;
      store = (enqueue n.store (noop ∷ [])).1;
    } in
    sync_replicators (kick_syncer n')
