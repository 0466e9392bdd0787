-- ===== src/Raft/Vote.antt =====
-- consensus/raft.go: elections.
use veltrix_db.Base.{
  ℕ, ◌+◌, ◌-◌, ◌*◌, Bool, true, false, not, ◌&&◌, ◌||◌, Option, none, some, ltb, leb, ◌==◌,
  if◌then◌else◌, add64, str_eq,
}
use veltrix_db.Raft.Types.{candidate, RequestVoteArgs, RequestVoteReply}
use veltrix_db.Raft.Config.{contains, quorum_size}
use veltrix_db.Raft.Log.{Node, last_log_index, last_log_term, log_up_to_date}
use veltrix_db.Raft.Role.{
  is_leader, is_candidate, is_none, kick_syncer, reset_election_timer, persist_meta,
  become_follower, become_leader, adopt_term,
}

-- 400 ms
abbrev pub election_timeout_min : ℕ
election_timeout_min = 400 * 1_000_000

-- A leader was heard from within the shortest election timeout.
unfoldable pub heard_recently : ℕ → Node → Bool
heard_recently now n = elim n.leader_contact [
  | none ↦ false
  | some t ↦ ltb (now - t) election_timeout_min
]

unfoldable pub grants_pre_vote : ℕ → Node → RequestVoteArgs → Bool
grants_pre_vote now n args = not (
    leb args.term n.current_term
    || is_leader n.role
    || heard_recently now n
    || not (log_up_to_date n args.last_log_term args.last_log_index))

abbrev pub deny : ℕ → RequestVoteReply
deny t = record { term = t; vote_granted = false }

abbrev pub grant : ℕ → RequestVoteReply
grant t = record { term = t; vote_granted = true }

-- The end of `HandleRequestVote`: the vote must be on disk before it is granted.
unfoldable pub decide_vote : Node → RequestVoteArgs → RequestVoteReply × Node
decide_vote n args =
    if (str_eq n.voted_for "" || str_eq n.voted_for args.candidate_id)
      && log_up_to_date n args.last_log_term args.last_log_index
    then (let r = persist_meta (record n { voted_for = args.candidate_id }) in
        if is_none r.0
        then (grant n.current_term, reset_election_timer r.1)
        else (deny n.current_term, record (r.1) { voted_for = n.voted_for }))
    else (deny n.current_term, n)

-- HandleRequestVote, at the time `now`
unfoldable pub handle_request_vote : ℕ → Node → RequestVoteArgs → RequestVoteReply × Node
handle_request_vote now n args =
    if not (contains n.config args.candidate_id)
    then (deny n.current_term, n)
    else if args.pre_vote
    then (if grants_pre_vote now n args then grant args.term else deny n.current_term, n)
    else if ltb args.term n.current_term
    then (deny n.current_term, n)
    else (let r = adopt_term n args.term in
        if r.0 then decide_vote r.1 args else (deny n.current_term, r.1))

abbrev pub may_campaign : Node → Bool
may_campaign n = not (n.removed || not (contains n.config n.id) || is_leader n.role)

abbrev pub vote_request : Node → ℕ → Bool → RequestVoteArgs
vote_request n term pre_vote = record {
  term = term;
  candidate_id = n.id;
  last_log_index = last_log_index n;
  last_log_term = last_log_term n;
  pre_vote = pre_vote;
}

-- preVote, before the requests are sent: the request, and whether this node's own vote is enough
unfoldable pub begin_pre_vote : Node → Option (RequestVoteArgs × Bool)
begin_pre_vote n =
    if may_campaign n
    then some (vote_request n (add64 n.current_term 1) true, leb (quorum_size n.config) 1)
    else none

-- preVote, one answer: the votes so far, and the node
unfoldable pub on_pre_vote_reply : Node → ℕ → ℕ → RequestVoteReply → ℕ × Node
on_pre_vote_reply n my_term granted reply =
    if reply.vote_granted
    then (granted + 1, n)
    else if ltb my_term reply.term && ltb n.current_term reply.term
    then (granted, become_follower n reply.term)
    else (granted, n)

-- preVote, its end: the round was won with `needed` votes, and the election is still wanted
unfoldable pub end_pre_vote : ℕ → Node → ℕ → ℕ → ℕ → Bool
end_pre_vote now n my_term needed granted =
    leb needed granted
    && n.current_term == my_term
    && not (is_leader n.role)
    && not (heard_recently now n)

-- startElection after a pre-vote that was won: the request to send to the voters, if any
unfoldable pub campaign : Node → Option RequestVoteArgs × Node
campaign n =
    if may_campaign n
    then (let r =
          persist_meta (record n { current_term = add64 n.current_term 1; voted_for = n.id }) in
        if is_none r.0
        then (let n' =
              reset_election_timer
                (kick_syncer (record (r.1) { role = candidate; leader_id = "" })) in
            if leb (quorum_size n'.config) 1
            then (none, become_leader n')
            else (some (vote_request n' n'.current_term false), n'))
        else (none, reset_election_timer r.1))
    else (none, n)

-- startElection, one answer to a request sent in `term`: the votes so far, and the node
unfoldable pub on_vote_reply : Node → ℕ → ℕ → ℕ → RequestVoteReply → ℕ × Node
on_vote_reply n term needed votes reply =
    if ltb n.current_term reply.term
    then (votes, become_follower n reply.term)
    else if reply.vote_granted && n.current_term == term && is_candidate n.role
    then (votes + 1, if leb needed (votes + 1) then become_leader n else n)
    else (votes, n)
