-- ===== src/Raft/OneVote.antt =====
-- raft.go: across requests, elections, replication and crashes, a node votes for one candidate a term.
use veltrix_db.Base.{
  ℕ, ◌+◌, ◌<◌, ◌^◌, String, ◌≡◌, ◌≢◌, inl, inr, refl, sym, subst, ◌∙◌, Bool, true, false, not, ◌&&◌,
  Option, none, some, List, [], ◌∷◌, arith, Option-cases, All, if◌then◌else◌, add64, ◌⊎◌,
  ℕ_discrete, and-true,
}
use veltrix_db.Raft.Types.{RequestVoteArgs, Configuration}
use mathlib.Core.Bool.{false≢true}
use veltrix_db.Raft.Log.{Node}
use veltrix_db.Raft.Role.{is_none, persist_meta, adopt_term}
use veltrix_db.Raft.Vote.{handle_request_vote, decide_vote, campaign, may_campaign}
use veltrix_db.Raft.Restart.{load_state}
use veltrix_db.Raft.Events.{
  Event, requested_vote, requested_append, answered_pre_vote, answered_vote, election, restart,
  cast_vote, IsAllowed, step, AreAllowed, votes,
}
use veltrix_db.Raft.VoteState.{VoteState, vote_state}
use veltrix_db.Raft.Binding.{MetaOk, Bound, Binds, persist_ok, Saved-Binds}
use veltrix_db.Raft.Ballot.{
  Safe, Safe-refl, adopt_term-Safe, decide_vote_cases, choose-Safe, handle_request_vote-Safe,
  on_pre_vote_reply-Safe, on_vote_reply-Safe,
}
use veltrix_db.Raft.Campaign.{
  next_term, campaign_cases, next_term-Safe, campaign-Safe, handle_append_entries-Safe,
  load_state-Safe,
}

module _ (decode : List ℕ → Option Configuration) where
  step-Safe :
      (n : Node) (e : Event) → IsAllowed n e → Safe (vote_state n) (vote_state (step decode n e))
  unfolding step
  step-Safe n (requested_vote now args) h = handle_request_vote-Safe now n args
  step-Safe n (requested_append now request args) h =
      handle_append_entries-Safe decode now n request args
  step-Safe n (answered_pre_vote my_term granted reply) h =
      on_pre_vote_reply-Safe n my_term granted reply
  step-Safe n (answered_vote term needed got reply) h = on_vote_reply-Safe n term needed got reply
  step-Safe n election h = campaign-Safe n h.0
  step-Safe n (restart b) h = elim (Option-cases (load_state b n)) [
    | inl e ↦ rw (e, step) (Safe-refl _)
    | inr (m, e) ↦ rw (e, step) (load_state-Safe b n m e)
  ]

decide_vote-Binds :
    (n : Node) (args : RequestVoteArgs)
    → args.candidate_id ≢ ""
    → MetaOk (vote_state n)
    → (decide_vote n args).0.vote_granted ≡ true
    → Binds (decide_vote n args).0.term args.candidate_id (vote_state (decide_vote n args).1)
unfolding persist_meta
decide_vote-Binds n args ne o g = elim (decide_vote_cases n args) [
  | inl e ↦ absurd (false≢true (rw e at g))
  | inr (inl (el, s, e)) ↦ rw e (
      Saved-Binds _ ne refl refl (persist_ok (record n { voted_for = args.candidate_id }) s)
        ((choose-Safe n args.candidate_id el.0).ok o))
  | inr (inr (el, s, e)) ↦ absurd (false≢true (rw e at g))
]

-- A vote that is granted is durable, and binds the node.
handle_request_vote-Binds :
    (now : ℕ) (n : Node) (args : RequestVoteArgs)
    → args.candidate_id ≢ ""
    → args.pre_vote ≡ false
    → MetaOk (vote_state n)
    → (handle_request_vote now n args).0.vote_granted ≡ true
    → Binds
        (handle_request_vote now n args).0.term
        args.candidate_id
        (vote_state (handle_request_vote now n args).1)
unfolding handle_request_vote
handle_request_vote-Binds now n args ne p o g = ground (
  arith,
  decide_vote-Binds (adopt_term n args.term).1 args ne ((adopt_term-Safe n args.term).ok o),
)

campaign-Binds :
    (n : Node)
    → n.current_term + 1 < 2 ^ 64
    → n.id ≢ ""
    → MetaOk (vote_state n)
    → may_campaign n ≡ true
    → (persist_meta (next_term n)).0 ≡ none
    → Binds (add64 n.current_term 1) n.id (vote_state (campaign n).1)
unfolding persist_meta
campaign-Binds n h ne o m s =
    let b : Binds (add64 n.current_term 1) n.id (vote_state (persist_meta (next_term n)).1) =
      Saved-Binds _ ne refl refl (persist_ok (next_term n) s) ((next_term-Safe n h).ok o) in
    elim (campaign_cases n) [
      | inl (f, e) ↦ absurd (false≢true (sym f ∙ m))
      | inr (inl (e, r)) ↦ subst (Binds (add64 n.current_term 1) n.id) (sym e) b
      | inr (inr (e, r)) ↦ subst (Binds (add64 n.current_term 1) n.id) (sym e) b
    ]

if_some :
    (b : Bool) (x v : ℕ × String) → (if b then some x else none) ≡ some v → (b ≡ true) × (x ≡ v)
if_some b x v h = ground arith

-- A vote that an event gives binds the node after it.
cast_vote-Binds :
    (decode : List ℕ → Option Configuration) (n : Node) (e : Event) (v : ℕ × String)
    → IsAllowed n e
    → MetaOk (vote_state n)
    → cast_vote n e ≡ some v
    → (v.1 ≢ "") × Binds v.0 v.1 (vote_state (step decode n e))
unfolding cast_vote step
cast_vote-Binds decode n (requested_vote now args) v a o h =
    let r = (handle_request_vote now n args).0 in
    let (test, e) = if_some (r.vote_granted && not args.pre_vote) _ v h in
    let (granted, real) = and-true r.vote_granted (not args.pre_vote) test in
    rw (← e) (a, handle_request_vote-Binds now n args a (ground arith) o granted)
cast_vote-Binds decode n election v a o h =
    let (test, e) = if_some (may_campaign n && is_none (persist_meta (next_term n)).0) _ v h in
    let (may, durable) = and-true (may_campaign n) (is_none (persist_meta (next_term n)).0) test in
    rw (← e) (a.1, campaign-Binds n a.0 a.1 o may (ground arith))
cast_vote-Binds decode n _ v a o h = cc

-- Every vote of the list for term `t` goes to `c`.
abbrev pub AgreesOn : ℕ → String → List (ℕ × String) → Type 0
AgreesOn t c = All (λ v. (v.0 ≢ t) ⊎ (v.1 ≡ c))

-- No two votes of the list are for one term and for different candidates.
abbrev pub VotesOnce : List (ℕ × String) → Type 0
VotesOnce [] = Unit
VotesOnce (v ∷ vs) = AgreesOn v.0 v.1 vs × VotesOnce vs

same_vote :
    {v : VoteState} {t : ℕ} {c : String} (s : ℕ) (d : String)
    → Bound t c v
    → Binds s d v
    → (s ≢ t) ⊎ (d ≡ c)
same_vote {t} s d b n = elim (ℕ_discrete s t) [ no ne ↦ inl ne | yes e ↦ inr (ground arith) ]

module _ (decode : List ℕ → Option Configuration) where
  Bound-agrees :
      (t : ℕ) (c : String) (n : Node) (es : List Event)
      → c ≢ ""
      → MetaOk (vote_state n)
      → Bound t c (vote_state n)
      → AreAllowed decode n es
      → AgreesOn t c (votes decode n es)
  unfolding votes
  Bound-agrees t c n [] ne o b a = tt
  Bound-agrees t c n (e ∷ es) ne o b a =
      let s = step-Safe decode n e a.0 in
      let b' = s.bound t c ne o b in
      let ih = Bound-agrees t c (step decode n e) es ne (s.ok o) b' a.1 in
      elim (Option-cases (cast_vote n e)) [
        | inl z ↦ rw (z, votes) ih
        | inr (v, z) ↦
            rw (z, votes) (same_vote v.0 v.1 b' (cast_vote-Binds decode n e v a.0 o z).1, ih)
      ]

  -- Across any sequence of requests, elections, replies and crashes in which no term overflows and no
  -- candidate has the empty id, a node whose meta file is sound never votes for two candidates in one
  -- term.
  pub run-VotesOnce :
      (n : Node) (es : List Event)
      → MetaOk (vote_state n)
      → AreAllowed decode n es
      → VotesOnce (votes decode n es)
  unfolding votes
  run-VotesOnce n [] o a = tt
  run-VotesOnce n (e ∷ es) o a =
      let s = step-Safe decode n e a.0 in
      let ih = run-VotesOnce (step decode n e) es (s.ok o) a.1 in
      elim (Option-cases (cast_vote n e)) [
        | inl z ↦ rw (z, votes) ih
        | inr (v, z) ↦
            let (ne, b) = cast_vote-Binds decode n e v a.0 o z in
            rw (z, votes) (Bound-agrees v.0 v.1 (step decode n e) es ne (s.ok o) b.2 a.1, ih)
      ]
