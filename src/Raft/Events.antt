-- ===== src/Raft/Events.antt =====
-- raft.go, pipeline.go: what happens to a node, as a sequence of events, and the votes that it gives.
use veltrix_db.Base.{
  ℕ, ◌+◌, ◌<◌, ◌^◌, String, ◌≢◌, not, ◌&&◌, Option, none, some, List, [], ◌∷◌, if◌then◌else◌, add64,
}
use veltrix_db.Raft.Types.{RequestVoteArgs, RequestVoteReply, AppendEntriesArgs, Configuration}
use veltrix_db.Raft.Store.{Replacement}
use veltrix_db.Raft.Log.{Node}
use veltrix_db.Raft.Role.{is_none, persist_meta}
use veltrix_db.Raft.Vote.{
  handle_request_vote, on_pre_vote_reply, campaign, on_vote_reply, may_campaign,
}
use veltrix_db.Raft.Append.{handle_append_entries}
use veltrix_db.Raft.Restart.{load_state}
use veltrix_db.Raft.Campaign.{next_term}

-- What happens to a node, with its time where the handler reads the clock. A crash loses all but the
-- files; `restart b` loads them, `b` being the outcome of the rewrite that this may need. A node that
-- refuses to start is as it was before, and gives no vote until it has started.
pub data Event : Type 0 where
  requested_vote : ℕ → RequestVoteArgs → Event
  requested_append : ℕ → ℕ → AppendEntriesArgs → Event
  answered_pre_vote : ℕ → ℕ → RequestVoteReply → Event
  answered_vote : ℕ → ℕ → ℕ → RequestVoteReply → Event
  election : Event
  restart : Replacement → Event

-- The vote that an event gives: the one granted by the reply, or the node's own, which counts once it
-- is durable.
unfoldable pub cast_vote : Node → Event → Option (ℕ × String)
cast_vote n (requested_vote now args) =
    let r = (handle_request_vote now n args).0 in
    if r.vote_granted && not args.pre_vote then some (r.term, args.candidate_id) else none
cast_vote n election =
    if may_campaign n && is_none (persist_meta (next_term n)).0
    then some (add64 n.current_term 1, n.id)
    else none
cast_vote n _ = none

-- The term does not overflow, and no candidate has the empty id.
abbrev pub IsAllowed : Node → Event → Type 0
IsAllowed n (requested_vote now args) = args.candidate_id ≢ ""
IsAllowed n election = (n.current_term + 1 < 2 ^ 64) × (n.id ≢ "")
IsAllowed n _ = Unit

module _ (decode : List ℕ → Option Configuration) where
  unfoldable pub step : Node → Event → Node
  step n (requested_vote now args) = (handle_request_vote now n args).1
  step n (requested_append now request args) = (handle_append_entries decode now n request args).1
  step n (answered_pre_vote my_term granted reply) = (on_pre_vote_reply n my_term granted reply).1
  step n (answered_vote term needed votes reply) = (on_vote_reply n term needed votes reply).1
  step n election = (campaign n).1
  step n (restart b) = elim (load_state b n) [ none ↦ n | some m ↦ m ]

  abbrev pub AreAllowed : Node → List Event → Type 0
  AreAllowed n [] = Unit
  AreAllowed n (e ∷ es) = IsAllowed n e × AreAllowed (step n e) es

  -- The votes of a run, in order.
  unfoldable pub votes : Node → List Event → List (ℕ × String)
  votes n [] = []
  votes n (e ∷ es) =
      let later = votes (step n e) es in elim (cast_vote n e) [ none ↦ later | some v ↦ v ∷ later ]
