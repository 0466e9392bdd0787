-- ===== src/Raft/ReadIndex.antt =====
-- consensus/read_index.go: the fence of a linearizable read, as the steps between which the node's
-- lock is released. Timeouts are events: `expired` says that the deadline passed first.
use veltrix_db.Base.{
  ℕ, ◌+◌, String, Bool, true, false, not, ◌&&◌, ◌||◌, Option, none, some, List, [], ◌∷◌, map, ltb,
  leb, ◌==◌, if◌then◌else◌,
}
use veltrix_db.Raft.Types.{AppendEntriesArgs, AppendEntriesReply}
use veltrix_db.Raft.Log.{Node, last_log_index, log_term}
use veltrix_db.Raft.Config.{contains, member_of, remove_id, quorum_size}
use veltrix_db.Raft.Role.{is_leader, become_follower}

pub data ReadError : Type 0 where
  read_not_leader leadership_unconfirmed read_timeout : ReadError

pub data ReadResult {ℓ} (A : Type ℓ) : Type ℓ where
  read_ok : A → ReadResult A
  read_err : ReadError → ReadResult A

-- What `ReadIndex` keeps of the node when it lets go of the lock.
pub record ReadRound : Type 0 where
  pub term : ℕ
  pub read_idx : ℕ
  pub peers : List String
  pub quorum : ℕ
  pub self_votes : ℕ
  pub args : AppendEntriesArgs

-- the first part of ReadIndex, under the lock
unfoldable pub begin_read : Node → ReadResult ReadRound
begin_read n =
    if not (is_leader n.role)
    then read_err read_not_leader
    else if n.commit_index == 0 || not (log_term n n.commit_index == n.current_term)
    then read_err leadership_unconfirmed
    else read_ok (record {
      term = n.current_term;
      read_idx = n.commit_index;
      peers = n.voter_peers;
      quorum = quorum_size n.config;
      self_votes = if contains n.config n.id then 1 else 0;
      args = record {
        term = n.current_term;
        leader_id = n.id;
        prev_log_index = last_log_index n;
        prev_log_term = log_term n (last_log_index n);
        entries = [];
        leader_commit = n.commit_index;
        want_match = true;
      };
    })

-- The leader alone is the quorum.
unfoldable pub is_alone : ReadRound → Bool
is_alone r = leb r.quorum 1 && r.self_votes == 1

-- the goroutine of one peer, with its reply, none for an error: it acknowledges, or not
unfoldable pub on_read_reply : ReadRound → Option AppendEntriesReply → Node → Bool × Node
on_read_reply r none n = (false, n)
on_read_reply r (some reply) n =
    if ltb r.term reply.term
    then (false, if ltb n.current_term reply.term then become_follower n reply.term else n)
    else (true, n)

-- The goroutines of the round end in an order, each once; those that end after the deadline are left out.
unfoldable pub arrived : List String → List String → List String
arrived peers [] = []
arrived peers (p ∷ ps) = elim (member_of peers p) [
  | true ↦ p ∷ arrived (remove_id peers p) ps
  | false ↦ arrived peers ps
]

abbrev pub replies_of :
    (String → Option AppendEntriesReply) → List String → List (String × Option AppendEntriesReply)
replies_of answers ps = map (λ (p : String). (p, answers p)) ps

-- The replies of the round that came before the end of the wait.
unfoldable pub on_read_replies :
    ReadRound → List (String × Option AppendEntriesReply) → ℕ × Node → ℕ × Node
unfolding on_read_reply
on_read_replies r [] st = st
on_read_replies r ((peer, reply) ∷ later) st =
    let a = on_read_reply r reply st.1 in
    on_read_replies r later (if a.0 then st.0 + 1 else st.0, a.1)

-- the end of the round: the quorum, and the check that the node still leads the term
unfoldable pub end_read : ReadRound → ℕ × Node → ReadResult ℕ × Node
end_read r st =
    if ltb st.0 r.quorum
    then (read_err read_timeout, st.1)
    else if is_leader st.1.role && st.1.current_term == r.term
    then (read_ok r.read_idx, st.1)
    else (read_err read_not_leader, st.1)

-- waitAppliedUntil, whose node has changed to `n` when it looks last
unfoldable pub wait_applied : ℕ → Node → ReadResult ℕ
wait_applied idx n = if leb idx n.last_applied then read_ok idx else read_err read_timeout

-- ReadIndex up to the wait for the applier: what each peer that is asked answers, and the order in which
-- the answers come before the deadline
unfoldable pub read_index :
    (String → Option AppendEntriesReply) → List String → Node → ReadResult ℕ × Node
unfolding begin_read is_alone arrived on_read_replies end_read
read_index answers order n = elim (begin_read n) [
  | read_err e ↦ (read_err e, n)
  | read_ok r ↦
      if is_alone r
      then (read_ok r.read_idx, n)
      else end_read r
          (on_read_replies r (replies_of answers (arrived r.peers order)) (r.self_votes, n))
]

-- WaitLeaderApplied, up to the wait: the index to wait for, none if there is nothing to wait for
unfoldable pub wait_leader_applied : Node → Option ℕ
wait_leader_applied n =
    if n.leader_ready || not (is_leader n.role) then none else some n.term_start_index
