-- ===== src/Raft/MatchIndex.antt =====
-- pipeline.go `onAppendReply`: when a leader counts a copy on a follower.
use veltrix_db.Base.{
  ℕ, ◌≤◌, ◌<◌, String, ◌≡◌, ◌⊎◌, inl, inr, refl, sym, ap, ◌∙◌, Bool, true, not, ◌&&◌, ◌||◌, Option,
  none, some, arith, ltb, ◌==◌, Bool-cases, Option-cases, str_eq_iff,
}
use veltrix_db.Raft.Types.{AppendEntriesReply, PeerRepl}
use veltrix_db.Raft.Log.{Node, last_log_index}
use veltrix_db.Raft.Role.{is_leader, become_follower, persist_meta, fail_waiters, sync_replicators}
use veltrix_db.Raft.Commit.{maybe_advance_commit, commit_scan}
use veltrix_db.Raft.Replicate.{AeSend, set_match}
use veltrix_db.Raft.Replies.{
  on_append_reply, on_lost, on_reply, note_reply, on_reject, end_inflight, wake_after, on_success,
  match_of,
}

-- A follower that is still served has confirmed index `k` to a leader, in the leader's own term.
pub record Confirms (n : Node) (live : Bool) (s : AeSend) (r : AppendEntriesReply) (k : ℕ)
    : Type 0 where
  pub served : live ≡ true
  pub accepted : r.success ≡ true
  pub no_later : r.term ≤ n.current_term
  pub leads : is_leader n.role ≡ true
  pub own_term : n.current_term ≡ s.args.term
  pub through : k ≡ match_of s r

maybe_advance_commit_match : (n : Node) → (maybe_advance_commit n).match_index ≡ n.match_index
unfolding maybe_advance_commit
maybe_advance_commit_match n = elim (Option-cases (commit_scan n (last_log_index n))) [
  | inl e ↦ rw (e, maybe_advance_commit) refl
  | inr (i, e) ↦ rw (e, maybe_advance_commit) refl
]

become_follower_match : (n : Node) (t : ℕ) → (become_follower n t).match_index ≡ n.match_index
unfolding become_follower persist_meta fail_waiters sync_replicators
become_follower_match n t = refl

on_success_match :
    (pr : PeerRepl) (s : AeSend) (r : AppendEntriesReply) (n : Node) (q : String)
    → ((on_success pr s r n).match_index q ≡ n.match_index q)
      ⊎ ((q ≡ pr.peer)
          × (n.match_index q < match_of s r)
          × ((on_success pr s r n).match_index q ≡ match_of s r))
unfolding on_success
on_success_match pr s r n q =
    let match = match_of s r in
    let m = set_match pr.peer match n in
    ground (arith, maybe_advance_commit_match m, str_eq_iff q pr.peer)

on_reject_match :
    (pr : PeerRepl) (s : AeSend) (r : AppendEntriesReply) (n : Node)
    → (on_reject pr s r n).match_index ≡ n.match_index
unfolding on_reject
on_reject_match pr s r n = ground arith

on_lost_match :
    (live : Bool) (pr : PeerRepl) (s : AeSend) (n : Node)
    → (on_lost live pr s n).match_index ≡ n.match_index
unfolding on_lost
on_lost_match live pr s n = ground arith

-- What a reply does to the match of a server.
abbrev pub Match : Node → Bool → PeerRepl → AeSend → AppendEntriesReply → String → Node → Type 0
Match n live pr s r q m =
    (m.match_index q ≡ n.match_index q)
    ⊎ ((q ≡ pr.peer) × (n.match_index q < m.match_index q) × Confirms n live s r (m.match_index q))

note_reply_match :
    (now : ℕ) (pr : PeerRepl) (r : AppendEntriesReply) (n : Node)
    → (note_reply now pr r n).match_index ≡ n.match_index
unfolding note_reply
note_reply_match now pr r n = ground arith

on_reply-Match :
    (now : ℕ) (live : Bool) (pr : PeerRepl) (s : AeSend) (r : AppendEntriesReply) (n : Node)
    (q : String)
    → r.term ≤ n.current_term
    → Match n live pr s r q (on_reply now live pr s r n)
unfolding on_reply
on_reply-Match now live pr s r n q h =
    let n' = note_reply now pr r n in
    let t =
      s.snap_hb || not live || not (is_leader n.role) || not (n.current_term == s.args.term) in
    let base = note_reply_match now pr r n in
    elim (Bool-cases t) [
      | inl quiet ↦ rw quiet (inl (ap (λ f. f q) base))
      | inr heard ↦ elim (Bool-cases r.success) [
        | inr refused ↦
            let v : on_reply now live pr s r n ≡ on_reject pr s r n' =
              ground (arith, heard, refused) in
            rw v (inl (ap (λ f. f q) (on_reject_match pr s r n' ∙ base)))
        | inl took ↦
            let v : on_reply now live pr s r n ≡ on_success pr s r n' =
              ground (arith, heard, took) in
            elim (on_success_match pr s r n' q) [
              | inl same ↦ rw v (inl (same ∙ ap (λ f. f q) base))
              | inr (p, lt, e) ↦ rw v (
                  inr (
                    p,
                    rw (e, sym (ap (λ f. f q) base)) lt,
                    record {
                      served = ground arith;
                      accepted = took;
                      no_later = h;
                      leads = ground arith;
                      own_term = ground arith;
                      through = e;
                    },
                  ))
            ]
      ]
    ]

end_inflight_same :
    (live : Bool) (pr : PeerRepl) (s : AeSend) (n : Node)
    → let m = end_inflight live pr s n in
      (m.current_term ≡ n.current_term) × (m.role ≡ n.role) × (m.match_index ≡ n.match_index)
unfolding end_inflight
end_inflight_same live pr s n = elim (Bool-cases (s.entries && live)) [
  | inl e ↦ rw e (refl, refl, refl)
  | inr e ↦ rw e (refl, refl, refl)
]

wake_match :
    (live : Bool) (pr : PeerRepl) (r : Option AppendEntriesReply) (n m : Node)
    → (wake_after live pr r n m).match_index ≡ m.match_index
unfolding wake_after
wake_match live pr r n m = ground arith

-- The match of any server stays when a reply or its loss arrives, unless the server is the one that
-- replies, confirms a later index to a leader in the leader's term, and that becomes its match.
pub on_append_reply-Confirms :
    (now : ℕ) (live : Bool) (pr : PeerRepl) (s : AeSend) (r : AppendEntriesReply) (n : Node)
    (q : String)
    → let lost = on_append_reply now live pr s none n in
      let m = on_append_reply now live pr s (some r) n in
      (lost.match_index q ≡ n.match_index q)
      × ((m.match_index q ≡ n.match_index q)
          ⊎ ((q ≡ pr.peer)
              × (n.match_index q < m.match_index q)
              × Confirms n live s r (m.match_index q)))
unfolding on_append_reply
on_append_reply-Confirms now live pr s r n q =
    let n' = end_inflight live pr s n in
    let (t, l, base) = end_inflight_same live pr s n in
    let woken = λ (m : Node). ap (λ f. f q) (wake_match live pr (some r) n m) in
    (
      ap (λ f. f q)
          (wake_match live pr none n (on_lost live pr s n') ∙ on_lost_match live pr s n' ∙ base),
      elim (Bool-cases (ltb n.current_term r.term)) [
        | inl later ↦ rw later (
            inl (
              woken (become_follower n' r.term)
              ∙ ap (λ f. f q) (become_follower_match n' r.term ∙ base)))
        | inr seen ↦
            let m = on_reply now live pr s r n' in
            elim (on_reply-Match now live pr s r n' q (ground (arith, t))) [
              | inl same ↦ rw seen (inl (woken m ∙ same ∙ ap (λ f. f q) base))
              | inr (p, lt, c) ↦ rw seen (
                  inr (
                    p,
                    rw (woken m, sym (ap (λ f. f q) base)) lt,
                    record {
                      served = c.served;
                      accepted = c.accepted;
                      no_later = ground (arith, t, c.no_later);
                      leads = ap is_leader (sym l) ∙ c.leads;
                      own_term = sym t ∙ c.own_term;
                      through = woken m ∙ c.through;
                    },
                  ))
            ]
      ],
    )
