-- ===== src/Raft/Replies.antt =====
-- consensus/pipeline.go: what a leader makes of the replies to its requests.
use veltrix_db.Base.{
  ℕ, ◌-◌, String, Bool, true, false, not, ◌&&◌, ◌||◌, Option, none, some, ◌∷◌, ltb, leb, ◌==◌,
  if◌then◌else◌, length, add64, str_eq,
}
use veltrix_db.Raft.Types.{PeerRepl, AppendEntriesReply}
use veltrix_db.Raft.Log.{Node, last_log_index}
use veltrix_db.Raft.Role.{is_leader, become_follower}
use veltrix_db.Raft.Commit.{maybe_advance_commit}
use veltrix_db.Raft.Replicate.{AeSend, update_repl, wake, set_next, set_match}

-- The match that a successful reply gives; a follower without WantMatch reports none.
abbrev pub match_of : AeSend → AppendEntriesReply → ℕ
match_of s reply =
    if reply.has_match
    then reply.match_index
    else add64 s.args.prev_log_index (length s.args.entries)

-- noteAckLocked
abbrev pub note_ack : ℕ → String → Node → Node
note_ack now p n = record n { last_ack = (p, now) ∷ n.last_ack }

-- A request or its reply is lost.
unfoldable pub on_lost : Bool → PeerRepl → AeSend → Node → Node
on_lost live pr s n =
    let first = add64 s.args.prev_log_index 1 in
    if s.entries && live && s.epoch == pr.epoch
    then (let n' =
          update_repl (λ r. record r { epoch = add64 pr.epoch 1; probing = true }) pr.peer n in
        if ltb first (n.next_index pr.peer) then set_next pr.peer first n' else n')
    else n

-- A successful reply of this term.
unfoldable pub on_success : PeerRepl → AeSend → AppendEntriesReply → Node → Node
on_success pr s reply n =
    let match = match_of s reply in
    let m =
      if ltb (n.match_index pr.peer) match
      then maybe_advance_commit (set_match pr.peer match n)
      else n in
    let m' = if leb (m.next_index pr.peer) match then set_next pr.peer (add64 match 1) m else m in
    if s.entries && s.epoch == pr.epoch
    then update_repl (λ r. record r { probing = false }) pr.peer m'
    else m'

-- A rejection of this term.
unfoldable pub on_reject : PeerRepl → AeSend → AppendEntriesReply → Node → Node
on_reject pr s reply n =
    let next = if ltb 0 reply.conflict_index then reply.conflict_index else s.args.prev_log_index in
    if s.epoch == pr.epoch
    then set_next pr.peer (if ltb next 1 then 1 else next)
        (update_repl (λ r. record r { epoch = add64 pr.epoch 1; probing = true }) pr.peer n)
    else n

-- What any reply of the term leaves: the contact and the capabilities of the peer.
unfoldable pub note_reply : ℕ → PeerRepl → AppendEntriesReply → Node → Node
note_reply now pr reply n =
    let acked =
      if is_leader n.role && reply.term == n.current_term then note_ack now pr.peer n else n in
    record acked { peer_caps = λ q. if str_eq q pr.peer then some reply.caps else n.peer_caps q }

-- A reply of the leader's term or of an older one, `live` saying that the replicator is not stopped.
unfoldable pub on_reply : ℕ → Bool → PeerRepl → AeSend → AppendEntriesReply → Node → Node
on_reply now live pr s reply n =
    let n' = note_reply now pr reply n in
    if s.snap_hb || not live || not (is_leader n.role) || not (n.current_term == s.args.term)
    then n'
    else if reply.success
    then on_success pr s reply n'
    else on_reject pr s reply n'

-- The request is no longer in flight.
unfoldable pub end_inflight : Bool → PeerRepl → AeSend → Node → Node
end_inflight live pr s n =
    if s.entries && live
    then update_repl (λ r. record r { inflight = pr.inflight - 1 }) pr.peer n
    else n

-- The replicator looks for more to send, unless it waits for the leader's own fsync.
unfoldable pub wake_after : Bool → PeerRepl → Option AppendEntriesReply → Node → Node → Node
wake_after live pr reply n m =
    let again : Bool =
      n.pipeline
      || elim reply [ none ↦ true | some r ↦ not r.success ]
      || leb (last_log_index n) n.durable_index in
    if again && live then wake pr.peer m else m

-- onAppendReply, at the time `now`, of the replicator `pr`, with none for an error. A replicator that
-- is stopped changes no more, so nothing reads what is written to it.
unfoldable pub on_append_reply :
    ℕ → Bool → PeerRepl → AeSend → Option AppendEntriesReply → Node → Node
on_append_reply now live pr s reply n =
    let n' = end_inflight live pr s n in
    wake_after live pr reply n (elim reply [
      | none ↦ on_lost live pr s n'
      | some r ↦
          if ltb n.current_term r.term
          then become_follower n' r.term
          else on_reply now live pr s r n'
    ])
