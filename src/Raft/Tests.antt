-- ===== src/Raft/Tests.antt =====
-- A follower of three servers, runs of it, and instances of the theorems about the Raft node.
use mathlib.Core.Bool.{false≢true}
use veltrix_db.Base.{
  ◌≤◌, ◌<◌, String, ◌≡◌, ◌≢◌, ◌⊎◌, inl, inr, refl, sym, ◌∙◌, true, false, List, [], ◌∷◌, arith,
  add64, ◌||◌, not, str_eq, str_eq_iff,
}
use veltrix_db.Raft.Store.{save_meta, enqueue, replay}
use veltrix_db.Raft.Log.{last_log_index, log_term, log_first_index, log_up_to_date}
use veltrix_db.Raft.Role.{adopt_term, become_follower, persist_meta, fail_waiters, sync_replicators}
use veltrix_db.Raft.Vote.{handle_request_vote, decide_vote}
use veltrix_db.Raft.Restart.{
  load_state, repair_term, rewrite_loaded, uncovered, has_covered, has_hole,
}
use veltrix_db.Raft.Effective.{refresh_config_from_log, latest_config, set_config}
use veltrix_db.Raft.Samples.{
  three, entry, no_config, a_follower, request, vote_for, a_leader, follower-IsLog,
}
use veltrix_db.Raft.Membership.{promoted}
use veltrix_db.Raft.Append.{
  handle_append_entries, store_entries, append_entries, follow, append_over_snapshot, append_at,
  append_from, truncate_from, advance_commit_to, answer_append, take_decided_waiters,
  decide_waiters, decide_waiter,
}
use veltrix_db.Raft.Store.{replaced}
use veltrix_db.Raft.Events.{Event, requested_vote, restart, votes, step, cast_vote}
use veltrix_db.Raft.OneVote.{VotesOnce, run-VotesOnce}
use veltrix_db.Raft.Merge.{merge}
use veltrix_db.Raft.MergeLaws.{store_entries-merge}
use veltrix_db.Raft.Disk.{on_disk, on_disk-store_entries}
use veltrix_db.Raft.Commit.{maybe_advance_commit, commit_scan}
use veltrix_db.Raft.Advance.{HasQuorum, maybe_advance_commit-HasQuorum}
use veltrix_db.Raft.Majority.{quorum_overlap, promote}
use veltrix_db.Raft.Config.{contains}

-- A vote for a, a crash, and a request of c in the same term.
abbrev history : List Event
history =
    requested_vote 0 (vote_for "a" 2) ∷ restart replaced ∷ requested_vote 0 (vote_for "c" 2) ∷ []

not_empty : (s : String) → str_eq s "" ≡ false → s ≢ ""
not_empty s h e = false≢true (sym h ∙ (str_eq_iff s "").1 e)

run-VotesOnce_example : VotesOnce (votes no_config a_follower history)
run-VotesOnce_example =
    run-VotesOnce no_config a_follower history
      (record {
        disk_le = omega arith;
        saved_le = omega arith;
        saved_disk = inr (inl refl);
        saved_vote = inr (inl refl);
      })
      (not_empty "a" refl, (tt, (not_empty "c" refl, tt)))

-- The vote of term 2 is a's, before the crash and after it.
votes-history : votes no_config a_follower history ≡ (2, "a") ∷ []
unfolding votes step cast_vote handle_request_vote adopt_term become_follower decide_vote
    persist_meta save_meta fail_waiters sync_replicators log_up_to_date load_state repair_term
    rewrite_loaded uncovered has_covered has_hole replay
votes-history = refl

appended_log :
    (handle_append_entries no_config 0 a_follower 7 request).1.entries
    ≡ entry 1 1 ∷ entry 2 2 ∷ entry 2 3 ∷ []
unfolding handle_append_entries append_entries adopt_term become_follower persist_meta save_meta
    fail_waiters sync_replicators follow append_over_snapshot append_at store_entries append_from
    truncate_from enqueue refresh_config_from_log latest_config set_config last_log_index log_term
    log_first_index add64 advance_commit_to answer_append take_decided_waiters decide_waiters
    decide_waiter
appended_log = refl

store_entries-merge_example :
    (store_entries no_config a_follower 2 request.entries).1.entries
    ≡ entry 1 1 ∷ merge (entry 1 2 ∷ []) request.entries
store_entries-merge_example =
    store_entries-merge no_config a_follower 1 request.entries follower-IsLog (refl, refl)
      (omega arith) (omega arith)

on_disk-store_entries_example :
    let m = (store_entries no_config a_follower 2 request.entries).1 in on_disk m.store ≡ m.entries
unfolding replay
on_disk-store_entries_example =
    on_disk-store_entries no_config a_follower 1 request.entries follower-IsLog (refl, refl)
      (omega arith) (omega arith) (omega arith) refl

commits_two : (maybe_advance_commit a_leader).commit_index ≡ 2
unfolding maybe_advance_commit commit_scan last_log_index log_term
commits_two = refl

maybe_advance_commit-HasQuorum_example :
    let c = (maybe_advance_commit a_leader).commit_index in
    ((c ≡ 0) ⊎ ((0 < c) × (c ≤ last_log_index a_leader) × HasQuorum a_leader c))
    × ((1 ≤ c) ⊎ ((last_log_index a_leader < 1) ⊎ (¬ HasQuorum a_leader 1)))
maybe_advance_commit-HasQuorum_example = maybe_advance_commit-HasQuorum a_leader 1

quorum_overlap_example :
    (s : String) × (contains three s ≡ true)
    × (str_eq s "a" || str_eq s "b" ≡ true)
    × (not (str_eq s "a") ≡ true)
quorum_overlap_example =
    quorum_overlap {old = three} (λ s. str_eq s "a" || str_eq s "b") (λ s. not (str_eq s "a"))
      (promote "d") (omega arith) (unfold promoted in omega arith)
