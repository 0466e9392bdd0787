-- ===== src/Raft/Backoff.antt =====
-- pipeline.go: `onAppendReply` backs off from a rejected request by the hint of `appendEntriesLocked`.
use veltrix_db.Base.{
  ℕ, String, zero, suc, ◌+◌, ◌-◌, ◌≤◌, ◌<◌, ◌≡◌, ◌⊎◌, inl, inr, refl, Bool, true, false, Option,
  some, List, arith, length, drop, ltb, add64, Bool-cases, str_eq_iff,
}
use veltrix_db.Raft.Types.{LogEntry, Configuration, AppendEntriesArgs, PeerRepl}
use veltrix_db.Raft.Log.{Node, last_log_index, log_term, log_first_index}
use veltrix_db.Raft.Role.{
  is_leader, adopt_term, become_follower, persist_meta, fail_waiters, sync_replicators,
}
use veltrix_db.Raft.Append.{
  append_at, append_over_snapshot, append_entries, first_of_term, answer_append, follow,
  store_entries, advance_commit_to,
}
use veltrix_db.Raft.Contiguous.{IsLog, last_log_index_lem}
use veltrix_db.Raft.Replicate.{AeSend}
use veltrix_db.Raft.Replies.{
  on_append_reply, on_reply, on_reject, end_inflight, wake_after, note_reply,
}

first_of_term-le : (n : Node) (first t i : ℕ) → first_of_term n first t i ≤ i
unfolding first_of_term
first_of_term-le n first t zero = omega arith
first_of_term-le n first t (suc i) = ground (arith, first_of_term-le n first t i)

add64-le : (a b : ℕ) → add64 a b ≤ a + b
unfolding add64
add64-le a b = omega arith

answer_success :
    (n : Node) (want : Bool) (es : List LogEntry) (t : ℕ)
    → (answer_append n want es t).0.success ≡ true
unfolding answer_append
answer_success n want es t = ground arith

adopt_entries : (n : Node) (t : ℕ) → (adopt_term n t).1.entries ≡ n.entries
unfolding adopt_term become_follower persist_meta fail_waiters sync_replicators
adopt_entries n t = elim (Bool-cases (ltb n.current_term t)) [
  | inl e ↦ rw e refl
  | inr e ↦ rw e refl
]

adopt_head : (n : Node) (t : ℕ) → (adopt_term n t).1.last_included_index ≡ n.last_included_index
unfolding adopt_term become_follower persist_meta fail_waiters sync_replicators
adopt_head n t = elim (Bool-cases (ltb n.current_term t)) [ inl e ↦ rw e refl | inr e ↦ rw e refl ]

follow-IsLog :
    (now : ℕ) (n : Node) (t : ℕ) (leader : String)
    → IsLog n
    → IsLog (follow now (adopt_term n t).1 leader)
unfolding follow
follow-IsLog now n t leader w = record {
  contiguous = rw (adopt_head n t, adopt_entries n t) w.contiguous;
  fits = rw (adopt_head n t, adopt_entries n t) w.fits;
}

log_term-head :
    (n : Node) → 0 < n.last_included_index → log_term n n.last_included_index ≡ n.last_included_term
unfolding log_term
log_term-head n h = ground arith

module _ (decode : List ℕ → Option Configuration) where
  -- The hint of a rejection is not above the index that was checked.
  append_at-hint :
      (n : Node) (args : AppendEntriesArgs) (prev t : ℕ) (es : List LogEntry)
      → (append_at decode n args prev t es).0.success ≡ false
      → (append_at decode n args prev t es).0.conflict_index ≤ prev
  unfolding append_at
  append_at-hint n args prev t es s =
      let target = add64 prev (length es) in
      let n' =
        advance_commit_to (store_entries decode n (add64 prev 1) es).1 args.leader_commit target in
      ground (
        arith,
        first_of_term-le n (log_first_index n) (log_term n prev) prev,
        add64-le (last_log_index n) 1,
        answer_success n' args.want_match es target,
      )

  -- At the head of the log no request is rejected but for the store.
  append_at-head :
      (n : Node) (args : AppendEntriesArgs) (es : List LogEntry)
      → IsLog n
      → 0 < n.last_included_index
      → (append_at decode n args n.last_included_index n.last_included_term es).0.success ≡ false
      → (append_at decode n args n.last_included_index n.last_included_term es).0.conflict_index ≡ 0
  unfolding append_at
  append_at-head n args es w h s =
      let prev = n.last_included_index in
      let target = add64 prev (length es) in
      let n' =
        advance_commit_to (store_entries decode n (add64 prev 1) es).1 args.leader_commit target in
      ground (
        arith,
        log_term-head n h,
        last_log_index_lem n w,
        answer_success n' args.want_match es target,
      )

  append_over_snapshot-hint :
      (n : Node) (args : AppendEntriesArgs)
      → IsLog n
      → (append_over_snapshot decode n args).0.success ≡ false
      → (append_over_snapshot decode n args).0.conflict_index ≤ args.prev_log_index
  unfolding append_over_snapshot
  append_over_snapshot-hint n args w s =
      let covered = drop (n.last_included_index - args.prev_log_index) args.entries in
      ground (
        arith,
        append_at-hint n args args.prev_log_index args.prev_log_term args.entries,
        append_at-head n args covered w,
      )

  append_entries-hint :
      (now : ℕ) (n : Node) (args : AppendEntriesArgs)
      → IsLog n
      → (append_entries decode now n args).0.success ≡ false
      → (append_entries decode now n args).0.conflict_index ≤ args.prev_log_index
  unfolding append_entries
  append_entries-hint now n args w s =
      let r = (adopt_term n args.term).1 in
      ground (
        arith,
        append_over_snapshot-hint (follow now r args.leader_id) args
            (follow-IsLog now n args.term args.leader_id w),
      )

  -- When a leader of the term of a request, which is no keep-alive, gets the reply, of a term that is
  -- not later, by which a receiver with a well-formed log rejects it at once, and the replicator was
  -- not reset since, then the next index is at most the index that the request was checked at, or 1,
  -- and never below 1.
  pub on_append_reply-backs_off :
      (now at : ℕ) (n f : Node) (pr : PeerRepl) (s : AeSend)
      → IsLog f
      → (append_entries decode at f s.args).0.success ≡ false
      → (append_entries decode at f s.args).0.term ≤ n.current_term
      → is_leader n.role ≡ true
      → n.current_term ≡ s.args.term
      → s.epoch ≡ pr.epoch
      → s.snap_hb ≡ false
      → let m = on_append_reply now true pr s (some (append_entries decode at f s.args).0) n in
        (1 ≤ m.next_index pr.peer)
        × ((m.next_index pr.peer ≤ s.args.prev_log_index) ⊎ (m.next_index pr.peer ≡ 1))
  unfolding on_append_reply on_reply on_reject end_inflight wake_after note_reply
  on_append_reply-backs_off now at n f pr s w rejected older leads same epoch beat =
      let hint = append_entries-hint at f s.args w rejected in
      ground (arith, hint, rejected, older, leads, same, epoch, beat, str_eq_iff pr.peer pr.peer)
