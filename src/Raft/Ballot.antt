-- ===== src/Raft/Ballot.antt =====
-- Each handler of raft.go and pipeline.go keeps the node bound by the votes that it gave.
use veltrix_db.Base.{
  ℕ, ◌<◌, String, ◌≡◌, ◌≢◌, ◌⊎◌, inl, inr, refl, sym, ◌&&◌, ◌||◌, subst, true, none, arith, ltb,
  str_eq, str_eq_iff, Bool-cases, Option-cases,
}
use veltrix_db.Raft.Types.{RequestVoteArgs, RequestVoteReply}
use veltrix_db.Raft.Log.{Node, log_up_to_date}
use veltrix_db.Raft.Role.{
  reset_election_timer, persist_meta, become_follower, adopt_term, sync_replicators, fail_waiters,
}
use veltrix_db.Raft.Vote.{
  decide_vote, handle_request_vote, on_pre_vote_reply, on_vote_reply, deny, grant,
}
use veltrix_db.Raft.VoteState.{VoteState, vote_state, become_leader-vote_state}
use veltrix_db.Raft.Binding.{
  MetaOk, Bound, NotSaved, with_term, persist_failed, persist-Persists, raise-MetaOk, raise-Bound,
  persist-MetaOk, persist-Bound, choose-MetaOk, choose-Bound, revert-MetaOk, revert-Bound,
}

-- A step that keeps the meta file sound and every binding vote.
pub record Safe (v w : VoteState) : Type 0 where
  pub ok : MetaOk v → MetaOk w
  pub bound : (t : ℕ) (c : String) → c ≢ "" → MetaOk v → Bound t c v → Bound t c w

pub Safe-refl : (v : VoteState) → Safe v v
Safe-refl v = record { ok = λ o. o; bound = λ t c ne o b. b }

pub Safe-trans : {u v w : VoteState} → Safe u v → Safe v w → Safe u w
Safe-trans p q = record {
  ok = λ o. q.ok (p.ok o);
  bound = λ t c ne o b. q.bound t c ne (p.ok o) (p.bound t c ne o b);
}

pub Safe-eq : {v w : VoteState} → w ≡ v → Safe v w
Safe-eq {v} e = subst (Safe v) (sym e) (Safe-refl v)

pub raise-Safe : (v : VoteState) (t : ℕ) (c : String) → v.term < t → Safe v (with_term v t c)
raise-Safe v t c h = record { ok = raise-MetaOk t c h; bound = λ s d ne o b. raise-Bound t c h b }

pub persist-Safe : (n : Node) → Safe (vote_state n) (vote_state (persist_meta n).1)
persist-Safe n = record {
  ok = persist-MetaOk _ (persist-Persists n);
  bound = λ s d ne o b. persist-Bound _ (persist-Persists n) b;
}

become_follower-Safe :
    (n : Node) (t : ℕ) → n.current_term < t → Safe (vote_state n) (vote_state (become_follower n t))
unfolding become_follower sync_replicators fail_waiters
become_follower-Safe n t h = Safe-trans (raise-Safe (vote_state n) t "" h) (persist-Safe _)

pub adopt_term-Safe : (n : Node) (t : ℕ) → Safe (vote_state n) (vote_state (adopt_term n t).1)
unfolding adopt_term
adopt_term-Safe n t = elim (Bool-cases (ltb n.current_term t)) [
  | inl e ↦
      rw (e, adopt_term)
        (Safe-trans (become_follower-Safe n t (ground arith)) (persist-Safe (become_follower n t)))
  | inr e ↦ rw (e, adopt_term) (Safe-refl _)
]

-- The write of a vote for `c`, and what the handler makes of its outcome.
abbrev pub chosen : Node → String → Node
chosen n c = (persist_meta (record n { voted_for = c })).1

-- The candidate may have the vote: there is none yet or it is the candidate's, and its log is no
-- older.
abbrev pub Eligible : Node → RequestVoteArgs → Type 0
Eligible n args =
    ((n.voted_for ≡ "") ⊎ (n.voted_for ≡ args.candidate_id))
    × (log_up_to_date n args.last_log_term args.last_log_index ≡ true)

abbrev pub DecidesVote : Node → RequestVoteArgs → RequestVoteReply × Node → Type 0
DecidesVote n args r =
    (r ≡ (deny n.current_term, n))
    ⊎ ((Eligible n args
          × ((persist_meta (record n { voted_for = args.candidate_id })).0 ≡ none)
          × (r ≡ (grant n.current_term, reset_election_timer (chosen n args.candidate_id))))
        ⊎ (Eligible n args
            × NotSaved (with_term (vote_state n) n.current_term args.candidate_id)
                (vote_state (chosen n args.candidate_id))
            × (r ≡ (
              deny n.current_term,
              record (chosen n args.candidate_id) { voted_for = n.voted_for },
            ))))

test-Eligible :
    (n : Node) (args : RequestVoteArgs)
    → ((str_eq n.voted_for "" || str_eq n.voted_for args.candidate_id)
        && log_up_to_date n args.last_log_term args.last_log_index)
      ≡ true
    → Eligible n args
test-Eligible n args h =
    ground (arith, str_eq_iff n.voted_for "", str_eq_iff n.voted_for args.candidate_id)

pub decide_vote_cases :
    (n : Node) (args : RequestVoteArgs) → DecidesVote n args (decide_vote n args)
unfolding decide_vote
decide_vote_cases n args =
    elim (Bool-cases (
      (str_eq n.voted_for "" || str_eq n.voted_for args.candidate_id)
      && log_up_to_date n args.last_log_term args.last_log_index)) [
        | inr e ↦ rw (e, decide_vote) (inl refl)
        | inl e ↦
            elim (Option-cases (persist_meta (record n { voted_for = args.candidate_id })).0) [
              | inl s ↦ rw (e, s, decide_vote) (inr (inl (test-Eligible n args e, refl, refl)))
              | inr (x, s) ↦
                  rw (e, s, decide_vote)
                    (inr (inr (test-Eligible n args e, persist_failed _ x s, refl)))
            ]
      ]

-- The node with the vote for `c` in memory, before the write.
pub choose-Safe :
    (n : Node) (c : String)
    → (n.voted_for ≡ "") ⊎ (n.voted_for ≡ c)
    → Safe (vote_state n) (with_term (vote_state n) n.current_term c)
choose-Safe n c (inl e) = record {
  ok = choose-MetaOk c e;
  bound = λ s d ne o b. choose-Bound c ne e b;
}
choose-Safe n c (inr e) = Safe-eq (cc (e))

chosen-Safe :
    (n : Node) (c : String)
    → (n.voted_for ≡ "") ⊎ (n.voted_for ≡ c)
    → Safe (vote_state n) (vote_state (chosen n c))
chosen-Safe n c h = Safe-trans (choose-Safe n c h) (persist-Safe (record n { voted_for = c }))

revert-Safe :
    (n : Node) (c : String)
    → (n.voted_for ≡ "") ⊎ (n.voted_for ≡ c)
    → NotSaved (with_term (vote_state n) n.current_term c) (vote_state (chosen n c))
    → Safe (vote_state n) (vote_state (record (chosen n c) { voted_for = n.voted_for }))
unfolding persist_meta
revert-Safe n c (inl e) p = record {
  ok = λ o. revert-MetaOk c (vote_state (chosen n c)) p e o;
  bound = λ s d ne o b. revert-Bound c (vote_state (chosen n c)) ne p e o b;
}
revert-Safe n c (inr e) p = Safe-trans (chosen-Safe n c (inr e)) (Safe-eq (cc (e)))

decide_vote-Safe :
    (n : Node) (args : RequestVoteArgs) → Safe (vote_state n) (vote_state (decide_vote n args).1)
decide_vote-Safe n args = elim (decide_vote_cases n args) [
  | inl e ↦ rw e (Safe-refl _)
  | inr (inl (el, s, e)) ↦ rw e (chosen-Safe n args.candidate_id el.0)
  | inr (inr (el, s, e)) ↦ rw e (revert-Safe n args.candidate_id el.0 s)
]

pub handle_request_vote-Safe :
    (now : ℕ) (n : Node) (args : RequestVoteArgs)
    → Safe (vote_state n) (vote_state (handle_request_vote now n args).1)
unfolding handle_request_vote
handle_request_vote-Safe now n args = ground (
  arith,
  Safe-refl (vote_state n),
  adopt_term-Safe n args.term,
  decide_vote-Safe (adopt_term n args.term).1 args,
  Safe-trans (adopt_term-Safe n args.term) (decide_vote-Safe (adopt_term n args.term).1 args),
)

pub on_pre_vote_reply-Safe :
    (n : Node) (my_term granted : ℕ) (reply : RequestVoteReply)
    → Safe (vote_state n) (vote_state (on_pre_vote_reply n my_term granted reply).1)
unfolding on_pre_vote_reply
on_pre_vote_reply-Safe n my_term granted reply =
    ground (arith, Safe-refl (vote_state n), become_follower-Safe n reply.term)

pub on_vote_reply-Safe :
    (n : Node) (term needed votes : ℕ) (reply : RequestVoteReply)
    → Safe (vote_state n) (vote_state (on_vote_reply n term needed votes reply).1)
unfolding on_vote_reply
on_vote_reply-Safe n term needed votes reply = ground (
  arith,
  Safe-refl (vote_state n),
  become_follower-Safe n reply.term,
  Safe-eq (become_leader-vote_state n),
)
