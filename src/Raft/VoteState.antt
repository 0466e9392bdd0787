-- ===== src/Raft/VoteState.antt =====
-- What decides a node's votes, in memory and on disk, and that no log operation touches it.
use veltrix_db.Base.{
  ℕ, String, ◌≡◌, inl, inr, refl, Option, List, [], ◌∷◌, arith, add64, length, take, drop, ◌++◌,
  ◌-◌, ◌∙◌, Bool-cases, Option-cases,
}
use veltrix_db.Raft.Types.{LogEntry, Configuration, RaftMeta, AppendEntriesArgs}
use veltrix_db.Raft.Store.{LogStore, enqueue}
use veltrix_db.Raft.Log.{Node, log_first_index}
use veltrix_db.Raft.Role.{is_none, no_op, become_leader, sync_replicators}
use veltrix_db.Raft.Effective.{set_config, latest_config, refresh_config_from_log}
use veltrix_db.Raft.Append.{
  append_from, store_entries, append_at, append_over_snapshot, advance_commit_to, truncate_from,
}

pub record VoteState : Type 0 where
  pub term : ℕ
  pub vote : String
  pub saved : RaftMeta
  pub disk : RaftMeta

abbrev pub store_state : Node → LogStore → VoteState
store_state n s = record {
  term = n.current_term;
  vote = n.voted_for;
  saved = s.saved;
  disk = s.disk_meta;
}

abbrev pub vote_state : Node → VoteState
vote_state n = store_state n n.store

enqueue-vote_state :
    (n : Node) (es : List LogEntry) → store_state n (enqueue n.store es).1 ≡ vote_state n
unfolding enqueue
enqueue-vote_state n [] = refl
enqueue-vote_state n (e ∷ es) = ground arith

sync-vote_state : (n : Node) → vote_state (sync_replicators n) ≡ vote_state n
unfolding sync_replicators
sync-vote_state n = refl

set_config-vote_state :
    (n : Node) (c : Configuration) (i : ℕ) → vote_state (set_config n c i) ≡ vote_state n
unfolding set_config sync_replicators
set_config-vote_state n c i = refl

truncate-vote_state : (n : Node) (i : ℕ) → vote_state (truncate_from n i) ≡ vote_state n
unfolding truncate_from
truncate-vote_state n i = ground arith

advance-vote_state : (n : Node) (c t : ℕ) → vote_state (advance_commit_to n c t) ≡ vote_state n
unfolding advance_commit_to
advance-vote_state n c t = ground arith

module _ (decode : List ℕ → Option Configuration) where
  pub refresh-vote_state : (n : Node) → vote_state (refresh_config_from_log decode n) ≡ vote_state n
  unfolding refresh_config_from_log
  refresh-vote_state n = elim (Option-cases (latest_config decode n.entries)) [
    | inl e ↦ rw (e, refresh_config_from_log) (set_config-vote_state n _ _)
    | inr (r, e) ↦ rw (e, refresh_config_from_log) (set_config-vote_state n _ _)
  ]

  append_from-vote_state :
      (n : Node) (i : ℕ) (es : List LogEntry)
      → vote_state (append_from decode n i es).1 ≡ vote_state n
  unfolding append_from
  append_from-vote_state n i es =
      let cut = truncate_from n i in
      let r = enqueue n.store es in
      let n' : Node = record cut { entries = cut.entries ++ es; store = r.1 } in
      let kept : Node = record n' { entries = take (i - log_first_index n') n'.entries } in
      let same : vote_state n' ≡ vote_state n =
        cc (truncate-vote_state n i, enqueue-vote_state n es) in
      elim (Bool-cases (is_none r.0)) [
        | inl e ↦ rw (e, append_from) (refresh-vote_state n' ∙ same)
        | inr e ↦ rw (e, append_from) (refresh-vote_state kept ∙ same)
      ]

  pub store_entries-vote_state :
      (n : Node) (i : ℕ) (es : List LogEntry)
      → vote_state (store_entries decode n i es).1 ≡ vote_state n
  unfolding store_entries
  store_entries-vote_state n i [] = refl
  store_entries-vote_state n i (e ∷ es) =
      ground (arith, store_entries-vote_state n (add64 i 1) es, append_from-vote_state n i (e ∷ es))

  append_at-vote_state :
      (n : Node) (args : AppendEntriesArgs) (p t : ℕ) (es : List LogEntry)
      → vote_state (append_at decode n args p t es).2 ≡ vote_state n
  unfolding append_at
  append_at-vote_state n args p t es = ground (
    arith,
    store_entries-vote_state n (add64 p 1) es,
    advance-vote_state (store_entries decode n (add64 p 1) es).1 args.leader_commit
        (add64 p (length es)),
  )

  pub append_over_snapshot-vote_state :
      (n : Node) (args : AppendEntriesArgs)
      → vote_state (append_over_snapshot decode n args).2 ≡ vote_state n
  unfolding append_over_snapshot
  append_over_snapshot-vote_state n args = ground (
    arith,
    append_at-vote_state n args n.last_included_index n.last_included_term
        (drop (n.last_included_index - args.prev_log_index) args.entries),
    append_at-vote_state n args args.prev_log_index args.prev_log_term args.entries,
  )

pub become_leader-vote_state : (n : Node) → vote_state (become_leader n) ≡ vote_state n
unfolding become_leader sync_replicators
become_leader-vote_state n = cc (enqueue-vote_state n (no_op n ∷ []))
