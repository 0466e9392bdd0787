-- ===== src/Raft/Campaign.antt =====
-- Campaigns, AppendEntries and restarts keep a node bound by the votes that it gave.
use veltrix_db.Base.{
  ℕ, ◌+◌, ◌<◌, ◌^◌, ◌≡◌, ◌≢◌, ◌⊎◌, inl, inr, refl, Bool, true, false, Option, none, some, ◌||◌,
  arith, ltb, leb, Bool-cases, Option-cases, add64, add64-eq-add, List,
}
use veltrix_db.Raft.Types.{RequestVoteArgs, AppendEntriesArgs, Configuration, candidate}
use veltrix_db.Raft.Store.{Replacement, replaced, not_replaced, not_reopened, rewrite}
use veltrix_db.Raft.Log.{Node, last_log_term}
use veltrix_db.Raft.Config.{quorum_size}
use veltrix_db.Raft.Role.{kick_syncer, reset_election_timer, persist_meta, adopt_term}
use veltrix_db.Raft.Vote.{campaign, may_campaign}
use veltrix_db.Raft.Append.{
  append_entries, handle_append_entries, take_decided_waiters, follow, append_over_snapshot,
}
use veltrix_db.Raft.Restart.{load_state, repair_term, rewrite_loaded, reloaded, replayed, has_hole}
use veltrix_db.Raft.VoteState.{
  VoteState, vote_state, become_leader-vote_state, append_over_snapshot-vote_state,
}
use veltrix_db.Raft.Ballot.{
  Safe, Safe-refl, Safe-trans, Safe-eq, raise-Safe, persist-Safe, adopt_term-Safe,
}

-- The node of a campaign, before its term and its own vote are written.
abbrev pub next_term : Node → Node
next_term n = record n { current_term = add64 n.current_term 1; voted_for = n.id }

-- A campaign does nothing, or it raises the term with the node's own vote and writes both; after that
-- only a write that succeeded starts the election.
abbrev pub Campaigns : Node → Option RequestVoteArgs × Node → Type 0
Campaigns n r =
    ((may_campaign n ≡ false) × (r ≡ (none, n)))
    ⊎ (((vote_state r.1 ≡ vote_state (persist_meta (next_term n)).1) × (r.0 ≡ none))
        ⊎ ((vote_state r.1 ≡ vote_state (persist_meta (next_term n)).1)
            × ((persist_meta (next_term n)).0 ≡ none)))

pub campaign_cases : (n : Node) → Campaigns n (campaign n)
unfolding campaign
campaign_cases n =
    let p = persist_meta (next_term n) in
    let n' : Node =
      reset_election_timer (kick_syncer (record (p.1) { role = candidate; leader_id = "" })) in
    elim (Bool-cases (may_campaign n)) [
      | inr e ↦ rw (e, campaign) (inl (refl, refl))
      | inl e ↦ elim (Option-cases p.0) [
        | inr (x, s) ↦ rw (e, s, campaign) (inr (inl (refl, refl)))
        | inl s ↦ elim (Bool-cases (leb (quorum_size n'.config) 1)) [
          | inl q ↦ rw (e, s, q, campaign) (inr (inr (become_leader-vote_state n', refl)))
          | inr q ↦ rw (e, s, q, campaign) (inr (inr (refl, refl)))
        ]
      ]
    ]

pub next_term-Safe :
    (n : Node) → n.current_term + 1 < 2 ^ 64 → Safe (vote_state n) (vote_state (next_term n))
next_term-Safe n h =
    raise-Safe (vote_state n) (add64 n.current_term 1) n.id
      (omega (arith, add64-eq-add n.current_term 1 h))

written-Safe :
    (n : Node)
    → n.current_term + 1 < 2 ^ 64
    → Safe (vote_state n) (vote_state (persist_meta (next_term n)).1)
written-Safe n h = Safe-trans (next_term-Safe n h) (persist-Safe (next_term n))

pub campaign-Safe :
    (n : Node) → n.current_term + 1 < 2 ^ 64 → Safe (vote_state n) (vote_state (campaign n).1)
campaign-Safe n h = elim (campaign_cases n) [
  | inl (f, e) ↦ rw e (Safe-refl _)
  | inr (inl (e, r)) ↦ Safe-trans (written-Safe n h) (Safe-eq e)
  | inr (inr (e, r)) ↦ Safe-trans (written-Safe n h) (Safe-eq e)
]

module _ (decode : List ℕ → Option Configuration) where
  append_entries-Safe :
      (now : ℕ) (n : Node) (args : AppendEntriesArgs)
      → Safe (vote_state n) (vote_state (append_entries decode now n args).2)
  unfolding append_entries follow
  append_entries-Safe now n args =
      let a = adopt_term n args.term in
      let f = follow now a.1 args.leader_id in
      let s : Safe (vote_state n) (vote_state (append_over_snapshot decode f args).2) =
        Safe-trans (adopt_term-Safe n args.term)
          (Safe-eq (append_over_snapshot-vote_state decode f args)) in
      elim (Bool-cases (n.stopped || ltb args.term n.current_term)) [
        | inl e ↦ rw (e, append_entries) (Safe-refl _)
        | inr e ↦ elim (Bool-cases a.0) [
          | inl t ↦ rw (e, t, append_entries) s
          | inr t ↦ rw (e, t, append_entries) (adopt_term-Safe n args.term)
        ]
      ]

  pub handle_append_entries-Safe :
      (now : ℕ) (n : Node) (request : ℕ) (args : AppendEntriesArgs)
      → Safe (vote_state n) (vote_state (handle_append_entries decode now n request args).1)
  unfolding handle_append_entries take_decided_waiters
  handle_append_entries-Safe now n request args =
      elim (Option-cases (append_entries decode now n args).1) [
        | inl e ↦ rw (e, handle_append_entries) (append_entries-Safe now n args)
        | inr (w, e) ↦ rw (e, handle_append_entries) (append_entries-Safe now n args)
      ]

rewrite_meta :
    (b : Replacement) (n : Node)
    → vote_state (record n { store = (rewrite b n.store n.entries).1 }) ≡ vote_state n
unfolding rewrite
rewrite_meta replaced n = ground arith
rewrite_meta not_replaced n = ground arith
rewrite_meta not_reopened n = ground arith

rewrite_loaded-vote_state :
    (b : Replacement) (needed : Bool) (n m : Node)
    → rewrite_loaded b needed n ≡ some m
    → vote_state m ≡ vote_state n
unfolding rewrite_loaded
rewrite_loaded-vote_state b true n m h = ground (arith, rewrite_meta b n)
rewrite_loaded-vote_state b false n m h = ground arith

-- What the meta file holds becomes the memory of the node.
abbrev from_disk : VoteState → VoteState
from_disk v = record {
  term = v.disk.current_term;
  vote = v.disk.voted_for;
  saved = v.disk;
  disk = v.disk;
}

reopen-Safe : (v : VoteState) → Safe v (from_disk v)
reopen-Safe v = record { ok = λ o. ground arith; bound = λ t c ne o b. ground arith }

repair-Safe : (n m : Node) → repair_term n ≡ some m → Safe (vote_state n) (vote_state m)
unfolding repair_term persist_meta
repair-Safe n m h =
    let raised : Node = record n { current_term = last_log_term n; voted_for = "" } in
    elim (Bool-cases (ltb n.current_term (last_log_term n))) [
      | inr e ↦ Safe-eq (ground arith)
      | inl e ↦
          let s : Safe (vote_state n) (vote_state (persist_meta raised).1) =
            Safe-trans (raise-Safe (vote_state n) (last_log_term n) "" (ground arith))
              (persist-Safe raised) in
          Safe-trans s (Safe-eq (ground arith))
    ]

none_ne_some : (m : Node) → none ≢ some m
none_ne_some m e = cc

pub load_state-Safe :
    (b : Replacement) (n m : Node) → load_state b n ≡ some m → Safe (vote_state n) (vote_state m)
unfolding load_state
load_state-Safe b n m h =
    elim (Bool-cases (
      ltb n.last_included_index (replayed n).1
      || has_hole n.last_included_index (reloaded n).entries)) [
        | inl e ↦ absurd (none_ne_some m (rw (e, load_state) at h))
        | inr e ↦ elim (Option-cases (repair_term (reloaded n))) [
          | inl r ↦ absurd (none_ne_some m (rw (e, r, load_state) at h))
          | inr (m', r) ↦ Safe-trans (reopen-Safe (vote_state n)) (
              Safe-trans (repair-Safe (reloaded n) m' r)
                (Safe-eq (rewrite_loaded-vote_state b _ m' m (rw (e, r, load_state) at h))))
        ]
      ]
