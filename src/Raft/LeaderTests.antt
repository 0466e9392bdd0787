-- ===== src/Raft/LeaderTests.antt =====
-- Instances of the theorems on replication, on accepted requests and on the bytes of the log file.
use veltrix_db.Base.{
  List, ℕ, ◌+◌, ◌≤◌, ◌<◌, ◌^◌, ◌≡◌, ◌⊎◌, String, refl, ap, true, false, Option, none, some, [], ◌∷◌,
  ◌++◌, arith, length, take, add64,
}
use veltrix_db.Raft.Contiguous.{IsLog}
use veltrix_db.Raft.Types.{Configuration, LogEntry, AeWaiter, PeerRepl, AppendEntriesReply}
use veltrix_db.Raft.Log.{Node, last_log_index, log_term, entries_from}
use veltrix_db.Raft.Store.{replay, enqueue}
use veltrix_db.Raft.Append.{append_at, append_entries, append_over_snapshot, follow, reject}
use veltrix_db.Raft.Role.{adopt_term, sync_replicators, replicators, start_replicators}
use veltrix_db.Raft.Membership.{
  ChangeResult, add_member, remove_member, begin_add, finish_add, begin_remove, finish_remove,
  wait_quorum, with_learner, add_known, addr_of, set_addr, begin_change, reachable_quorum,
  reachable, last_ack_of, propose_config, without_member, delete_addr,
}
use veltrix_db.Raft.Effective.{set_config}
use veltrix_db.Raft.Vote.{handle_request_vote}
use veltrix_db.Raft.Grants.{Rests, handle_request_vote-Granted}
use veltrix_db.Raft.Commit.{
  SubmitRequest, appended, flush_batch, append_batch, append_entry, kick_replicators,
}
use veltrix_db.Raft.Disk.{on_disk}
use veltrix_db.Raft.Batches.{Took, Refused, flush_batch-on_disk}
use veltrix_db.Raft.Replicate.{AeSend, fill_window, batch_of}
use veltrix_db.Raft.Replies.{on_append_reply}
use veltrix_db.Raft.Pipeline.{Covers, fill_window-Covers}
use veltrix_db.Raft.Accepted.{Holds, append_at-Holds}
use veltrix_db.Raft.Backoff.{on_append_reply-backs_off}
use veltrix_db.Raft.MatchIndex.{Confirms, on_append_reply-Confirms}
use veltrix_db.Raft.Records.{encode_record, encode_records, replay_file}
use veltrix_db.Raft.RecordLaws.{Fits, replay_file-encode_records}
use veltrix_db.Raft.Samples.{
  entry, two_entries, no_config, a_follower, a_leader, request, vote_for, follower-IsLog,
}

leader-IsLog : IsLog a_leader
leader-IsLog = record { contiguous = omega arith; fits = omega arith }

fill_window-Covers_example :
    let f = fill_window 3 a_leader 0 2 1 0 in
    Covers a_leader 1 f.sends f.next
    × (f.inflight ≡ 0 + length f.sends)
    × ((f.next ≡ last_log_index a_leader + 1) ⊎ (2 ≤ f.inflight))
fill_window-Covers_example =
    fill_window-Covers 2 a_leader 0 2 1 0 leader-IsLog (omega arith)
      (unfold last_log_index in omega arith) (omega arith)

-- Both entries go in one request.
one_request : length (fill_window 3 a_leader 0 2 1 0).sends ≡ 1
unfolding fill_window batch_of last_log_index entries_from add64 log_term
one_request = refl

append_at-Holds_example :
    let a = append_at no_config a_follower request 1 1 request.entries in
    ((a.0.success ≡ false) × (a.2 ≡ a_follower))
    ⊎ ((a.0.success ≡ true)
        × ((request.prev_log_index ≡ 0) ⊎ (log_term a_follower 1 ≡ 1))
        × Holds a_follower a.2 1 request.entries)
append_at-Holds_example =
    append_at-Holds no_config a_follower request 1 1 request.entries follower-IsLog (refl, refl)
      (omega arith) (omega arith)

-- The replicator of a, and a request that the follower's log is too short for.
abbrev to_a : PeerRepl
to_a = record {
  peer = "a";
  term = 1;
  kicked = false;
  inflight = 1;
  probing = true;
  epoch = 4;
  hb_due = false;
  snapshotting = false;
  snap_retry_at = 0;
}

abbrev too_far : AeSend
too_far = record {
  args = record request { term = 1; prev_log_index = 7; entries = entry 1 8 ∷ [] };
  entries = true;
  epoch = 4;
  snap_hb = false;
}

rejection :
    append_entries no_config 0 a_follower too_far.args
    ≡ (reject a_follower 1 3 0, none, follow 0 a_follower "a")
unfolding append_entries adopt_term append_over_snapshot append_at follow last_log_index add64
rejection = refl

on_append_reply-backs_off_example :
    let m =
      on_append_reply 0 true to_a too_far
        (some (append_entries no_config 0 a_follower too_far.args).0)
        a_leader in
    (1 ≤ m.next_index "a") × ((m.next_index "a" ≤ 7) ⊎ (m.next_index "a" ≡ 1))
on_append_reply-backs_off_example =
    on_append_reply-backs_off no_config 0 0 a_leader a_follower to_a too_far follower-IsLog
      (ap (λ (r : AppendEntriesReply × Option AeWaiter × Node). r.0.success) rejection)
      (omega (arith, ap (λ (r : AppendEntriesReply × Option AeWaiter × Node). r.0.term) rejection))
      refl refl refl refl

abbrev matched : AppendEntriesReply
matched = record (reject a_follower 1 0 0) { success = true; has_match = true; match_index = 8 }

on_append_reply-Confirms_example :
    let lost = on_append_reply 5 true to_a too_far none a_leader in
    let m = on_append_reply 5 true to_a too_far (some matched) a_leader in
    (lost.match_index "a" ≡ 2)
    × ((m.match_index "a" ≡ 2)
        ⊎ ((to_a.peer ≡ to_a.peer)
            × (2 < m.match_index "a")
            × Confirms a_leader true too_far matched (m.match_index "a")))
on_append_reply-Confirms_example = on_append_reply-Confirms 5 true to_a too_far matched a_leader "a"

entry-Fits : (t i : ℕ) → t < 2 ^ 64 → i < 2 ^ 64 → Fits (entry t i)
entry-Fits t i h k = record {
  term_fits = h;
  index_fits = k;
  typ_fits = tt;
  command_fits = omega arith;
}

replay_file-encode_records_example :
    let torn = take 20 (encode_record (entry 1 3)) in
    replay_file (encode_records two_entries ++ torn) ≡ (replay ([], 0) two_entries, torn)
replay_file-encode_records_example =
    replay_file-encode_records two_entries (entry 1 3) 20
      (entry-Fits 1 1 (omega arith) (omega arith), (entry-Fits 1 2 (omega arith) (omega arith), tt))
      (entry-Fits 1 3 (omega arith) (omega arith)) (unfold encode_record in omega arith)

handle_request_vote-Granted_example :
    Rests 0 a_follower (vote_for "a" 2) (handle_request_vote 0 a_follower (vote_for "a" 2))
handle_request_vote-Granted_example = handle_request_vote-Granted 0 a_follower (vote_for "a" 2)

abbrev two_requests : List SubmitRequest
two_requests =
    record { channel = 1; command = 5 ∷ [] } ∷ record { channel = 2; command = 6 ∷ [] } ∷ []

flush_batch-on_disk_example :
    let r = flush_batch a_leader two_requests in
    (on_disk r.1.store ≡ r.1.entries)
    × (Took a_leader two_requests r ⊎ Refused a_leader two_requests r)
unfolding replay
flush_batch-on_disk_example =
    flush_batch-on_disk a_leader two_requests leader-IsLog (omega arith) refl refl

batch_indices : (flush_batch a_leader two_requests).0 ≡ appended 3 ∷ appended 4 ∷ []
unfolding flush_batch append_batch append_entry enqueue add64 last_log_index
batch_indices = refl

abbrev short_encoding : Configuration → Option (List ℕ)
short_encoding c = some (0 ∷ [])

-- The leader once a peer has answered, at a later turn of the wait.
abbrev in_touch_again : Node
in_touch_again = record a_leader { last_ack = ("c", 0) ∷ [] }

abbrev next_turn : List (ℕ × Node)
next_turn = (1, in_touch_again) ∷ []

learners_of : Option (ChangeResult (Option LogEntry) × Node) → List String
learners_of none = []
learners_of (some r) = r.1.config.learners

-- A concurrent call has made "d" a learner by the turn that finds the quorum: it is a learner twice.
learner_twice :
    learners_of (
      add_member short_encoding 0 a_leader "d" "d:1" [] 9 (
        (1, record in_touch_again { config = record a_leader.config { learners = "d" ∷ [] } })
        ∷ []))
    ≡ "d" ∷ "d" ∷ []
unfolding learners_of add_member begin_add finish_add wait_quorum begin_change reachable_quorum
    reachable last_ack_of propose_config append_entry enqueue set_config sync_replicators
    kick_replicators with_learner add_known add64 last_log_index replicators start_replicators
    addr_of set_addr
learner_twice = refl

voters_of : Option (ChangeResult LogEntry × Node) → List String
voters_of none = []
voters_of (some r) = r.1.config.servers

-- A voter that answered lately is removed, and two are left.
removed_a : voters_of (remove_member short_encoding 0 in_touch_again "a" 9 []) ≡ "b" ∷ "c" ∷ []
unfolding voters_of remove_member begin_remove finish_remove wait_quorum begin_change
    reachable_quorum reachable last_ack_of propose_config append_entry enqueue set_config
    sync_replicators kick_replicators without_member delete_addr add64 last_log_index replicators
    start_replicators
removed_a = refl
