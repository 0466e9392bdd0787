-- ===== src/Raft/Append.antt =====
-- consensus/pipeline.go: AppendEntries on the receiver, acknowledged when it is durable.
use veltrix_db.Base.{
  ℕ, zero, suc, ◌-◌, String, Bool, true, false, not, ◌&&◌, ◌||◌, Option, none, some, List, [], ◌∷◌,
  ◌++◌, ltb, leb, ◌==◌, if◌then◌else◌, length, take, drop, add64,
}
use veltrix_db.Raft.Types.{
  follower, LogEntry, Configuration, AppendEntriesArgs, AppendEntriesReply, AeWaiter,
}
use veltrix_db.Raft.Store.{enqueue}
use veltrix_db.Raft.Log.{Node, last_log_index, log_first_index, log_term}
use veltrix_db.Raft.Role.{
  is_none, kick_syncer, notify_applier, reset_election_timer, note_leader_contact, adopt_term,
}
use veltrix_db.Raft.Effective.{refresh_config_from_log}

abbrev pub reject : Node → ℕ → ℕ → ℕ → AppendEntriesReply
reject n term conflict_index conflict_term = record {
  term = term;
  success = false;
  conflict_index = conflict_index;
  conflict_term = conflict_term;
  has_match = false;
  match_index = 0;
  caps = n.caps;
}

abbrev pub acknowledge : Node → ℕ → AppendEntriesReply
acknowledge n match = record {
  term = n.current_term;
  success = true;
  conflict_index = 0;
  conflict_term = 0;
  has_match = true;
  match_index = match;
  caps = n.caps;
}

-- The first index of the run of entries of term `t` that ends at the index given.
unfoldable pub first_of_term : Node → ℕ → ℕ → ℕ → ℕ
first_of_term n first t zero = zero
first_of_term n first t (suc i) =
    let rest = first_of_term n first t i in
    if ltb first (suc i) && log_term n i == t then rest else suc i

-- The truncation before a conflicting entry is replaced.
unfoldable pub truncate_from : Node → ℕ → Node
truncate_from n local_idx =
    if leb local_idx (last_log_index n)
    then (record n {
      entries = take (local_idx - log_first_index n) n.entries;
      durable_index = if leb local_idx n.durable_index then local_idx - 1 else n.durable_index;
    })
    else n

-- The leader's contact, as `appendEntriesLocked` and `acceptLeaderLocked` record it.
unfoldable pub follow : ℕ → Node → String → Node
follow now n leader =
    note_leader_contact now
      (reset_election_timer (record n { role = follower; leader_id = leader }))

-- The commit index after a request that was verified through `target`.
unfoldable pub advance_commit_to : Node → ℕ → ℕ → Node
advance_commit_to n leader_commit target =
    let new_commit = if ltb target leader_commit then target else leader_commit in
    if ltb n.commit_index leader_commit && ltb n.commit_index new_commit
    then notify_applier (record n { commit_index = new_commit })
    else n

abbrev is_empty : List LogEntry → Bool
is_empty [] = true
is_empty (e ∷ es) = false

-- The reply to a request whose entries are in the log through `target`, or the waiter to park.
unfoldable pub answer_append :
    Node → Bool → List LogEntry → ℕ → AppendEntriesReply × Option AeWaiter
answer_append n want_match ents target =
    if is_empty ents && want_match
    then (acknowledge n (if ltb n.durable_index target then n.durable_index else target), none)
    else if leb target n.durable_index
    then (acknowledge n target, none)
    else (
      record (acknowledge n 0) { has_match = false },
      some (record {
        term = n.current_term;
        target = target;
        target_term = log_term n target;
        respond = 0;
      }),
    )

-- takeDecidedWaitersLocked, one parked reply: the answer, or none while it waits
unfoldable pub decide_waiter : Node → AeWaiter → Option AppendEntriesReply
decide_waiter n w =
    let lost = reject n n.current_term (add64 (last_log_index n) 1) 0 in
    if n.store.failed || n.stopped || not (n.current_term == w.term)
    then some lost
    else if leb w.target n.last_included_index
    then some (acknowledge n w.target)
    else if not (log_term n w.target == w.target_term)
    then some lost
    else if leb w.target n.durable_index
    then some (acknowledge n w.target)
    else none

abbrev push_answer :
    AeWaiter
    → Option AppendEntriesReply
    → List (ℕ × AppendEntriesReply) × List AeWaiter
    → List (ℕ × AppendEntriesReply) × List AeWaiter
push_answer w none (out, kept) = (out, w ∷ kept)
push_answer w (some r) (out, kept) = ((w.respond, r) ∷ out, kept)

unfoldable pub decide_waiters : Node → List AeWaiter → List (ℕ × AppendEntriesReply) × List AeWaiter
decide_waiters n [] = ([], [])
decide_waiters n (w ∷ ws) = push_answer w (decide_waiter n w) (decide_waiters n ws)

-- takeDecidedWaitersLocked
unfoldable pub take_decided_waiters : Node → List (ℕ × AppendEntriesReply) × Node
take_decided_waiters n =
    let r = decide_waiters n n.ae_waiters in (r.0, record n { ae_waiters = r.1 })

module _ (decode : List ℕ → Option Configuration) where
  -- The new entries from the first one that the log lacks: appended, queued, and taken back if the
  -- queue refuses them.
  unfoldable pub append_from : Node → ℕ → List LogEntry → Bool × Node
  append_from n local_idx ents =
      let cut = truncate_from n local_idx in
      let r = enqueue n.store ents in
      let n' : Node = record cut { entries = cut.entries ++ ents; store = r.1 } in
      if is_none r.0 then (true, kick_syncer (refresh_config_from_log decode n')) else (
        false,
        refresh_config_from_log decode
            (record n' { entries = take (local_idx - log_first_index n') n'.entries }),
      )

  -- The loop over the entries of a request; false if they were not queued.
  unfoldable pub store_entries : Node → ℕ → List LogEntry → Bool × Node
  store_entries n local_idx [] = (true, n)
  store_entries n local_idx (e ∷ es) =
      let rest = store_entries n (add64 local_idx 1) es in
      if leb local_idx (last_log_index n) && log_term n local_idx == e.term
      then rest
      else append_from n local_idx (e ∷ es)

  -- The consistency check at `prev`, the entries, and the reply.
  unfoldable pub append_at :
      Node → AppendEntriesArgs → ℕ → ℕ → List LogEntry → AppendEntriesReply × Option AeWaiter × Node
  append_at n args prev prev_term ents =
      if ltb 0 prev && ltb (last_log_index n) prev
      then (reject n n.current_term (add64 (last_log_index n) 1) 0, none, n)
      else if ltb 0 prev && not (log_term n prev == prev_term)
      then (let t = log_term n prev in
          (reject n n.current_term (first_of_term n (log_first_index n) t prev) t, none, n))
      else (let r = store_entries n (add64 prev 1) ents in
          let target = add64 prev (length ents) in
          let n' = advance_commit_to r.1 args.leader_commit target in
          let a = answer_append n' args.want_match ents target in
          if r.0 then (a.0, a.1, n') else (reject n n.current_term 0 0, none, r.1))

  -- Entries that the snapshot covers are dropped, and the snapshot is the head of the log.
  unfoldable pub append_over_snapshot :
      Node → AppendEntriesArgs → AppendEntriesReply × Option AeWaiter × Node
  append_over_snapshot n args =
      if ltb args.prev_log_index n.last_included_index
      then (let covered = n.last_included_index - args.prev_log_index in
          if leb (length args.entries) covered
          then (acknowledge n (add64 args.prev_log_index (length args.entries)), none, n)
          else append_at n args n.last_included_index n.last_included_term
              (drop covered args.entries))
      else append_at n args args.prev_log_index args.prev_log_term args.entries

  -- appendEntriesLocked, at the time `now`
  unfoldable pub append_entries :
      ℕ → Node → AppendEntriesArgs → AppendEntriesReply × Option AeWaiter × Node
  append_entries now n args =
      if n.stopped || ltb args.term n.current_term
      then (reject n n.current_term 0 0, none, n)
      else (let r = adopt_term n args.term in
          if r.0
          then append_over_snapshot (follow now r.1 args.leader_id) args
          else (reject n n.current_term 0 0, none, r.1))

  -- HandleAppendEntriesAsync for the request number `request`: the replies that are sent
  unfoldable pub handle_append_entries :
      ℕ → Node → ℕ → AppendEntriesArgs → List (ℕ × AppendEntriesReply) × Node
  handle_append_entries now n request args =
      let (reply, w, n') = append_entries now n args in
      elim w [
        | none ↦ let r = take_decided_waiters n' in ((request, reply) ∷ r.0, r.1)
        | some w' ↦
            take_decided_waiters
              (record n' { ae_waiters = n'.ae_waiters ++ record w' { respond = request } ∷ [] })
      ]
