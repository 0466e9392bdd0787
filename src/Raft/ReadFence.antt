-- ===== src/Raft/ReadFence.antt =====
-- read_index.go `ReadIndex`: what a read that passes the fence may rely on.
use veltrix_db.Base.{
  ℕ, ◌+◌, ◌≤◌, ◌<◌, ◌≡◌, ◌⊎◌, inl, inr, refl, sym, ap, ◌∙◌, String, Bool, true, false, Option, none,
  some, List, [], ◌∷◌, arith, ltb, leb, if◌then◌else◌, count_if, any_if, filter_if, str_eq,
  str_eq_iff, not, ◌||◌, ◌&&◌, Bool-cases, ltb→lt,
}
use veltrix_db.Raft.Types.{AppendEntriesReply}
use veltrix_db.Raft.Log.{Node, log_term}
use veltrix_db.Raft.Config.{contains, member_of, remove_id, quorum_size}
use veltrix_db.Raft.Effective.{others}
use veltrix_db.Raft.Role.{is_leader, become_follower, persist_meta, fail_waiters, sync_replicators}
use veltrix_db.Raft.ReadIndex.{
  ReadRound, ReadError, ReadResult, read_ok, read_err, begin_read, is_alone, arrived, replies_of,
  on_read_reply, on_read_replies, end_read, read_index,
}

-- A reply whose term is not above the leader's, and one whose term is.
abbrev pub acks : ℕ → String × Option AppendEntriesReply → Bool
acks term (p, none) = false
acks term (p, some reply) = leb reply.term term

abbrev pub deposes : ℕ → String × Option AppendEntriesReply → Bool
deposes term (p, none) = false
deposes term (p, some reply) = ltb term reply.term

become_follower_term : (n : Node) (term : ℕ) → (become_follower n term).current_term ≡ term
unfolding become_follower persist_meta fail_waiters sync_replicators
become_follower_term n term = refl

on_read_reply_lem :
    (r : ReadRound) (p : String) (reply : Option AppendEntriesReply) (n : Node)
    → ((on_read_reply r reply n).0 ≡ acks r.term (p, reply))
      × (n.current_term ≤ (on_read_reply r reply n).1.current_term)
      × ((deposes r.term (p, reply) ≡ false) ⊎ (r.term < (on_read_reply r reply n).1.current_term))
unfolding on_read_reply
on_read_reply_lem r p none n = (refl, omega arith, inl refl)
on_read_reply_lem r p (some reply) n = elim (Bool-cases (ltb r.term reply.term)) [
  | inl late ↦ elim (Bool-cases (ltb n.current_term reply.term)) [
    | inl later ↦
        let t = become_follower_term n reply.term in
        rw (late, later)
          (
            ground arith,
            omega (arith, t, ltb→lt _ _ later),
            inr (omega (arith, t, ltb→lt _ _ late)),
          )
    | inr same ↦ rw (late, same) (ground arith, omega arith, inr (ground arith))
  ]
  | inr not_late ↦ rw not_late (ground arith, omega arith, inl refl)
]

-- A round counts the replies that acknowledge, and a reply of a later term moves the node past the term.
on_read_replies_lem :
    (r : ReadRound) (replies : List (String × Option AppendEntriesReply)) (k : ℕ) (n : Node)
    → ((on_read_replies r replies (k, n)).0 ≡ k + count_if (acks r.term) replies)
      × (n.current_term ≤ (on_read_replies r replies (k, n)).1.current_term)
      × ((any_if (deposes r.term) replies ≡ false)
          ⊎ (r.term < (on_read_replies r replies (k, n)).1.current_term))
unfolding on_read_replies
on_read_replies_lem r [] k n = (omega arith, omega arith, inl refl)
on_read_replies_lem r ((p, reply) ∷ later) k n =
    let (ack, up, first) = on_read_reply_lem r p reply n in
    let (count, up', rest) =
      on_read_replies_lem r later (if (on_read_reply r reply n).0 then k + 1 else k)
        (on_read_reply r reply n).1 in
    (ground (arith, count, ack), omega (arith, up, up'), deposed first _ rest up')
  where
    deposed :
        (deposes r.term (p, reply) ≡ false) ⊎ (r.term < (on_read_reply r reply n).1.current_term)
        → (t : ℕ) → (any_if (deposes r.term) later ≡ false) ⊎ (r.term < t)
        → (on_read_reply r reply n).1.current_term ≤ t
        → (any_if (deposes r.term) ((p, reply) ∷ later) ≡ false) ⊎ (r.term < t)
    deposed (inl none_here) t (inl none_later) h = inl (rw (none_here, none_later) refl)
    deposed (inl none_here) t (inr moved) h = inr moved
    deposed (inr moved) t rest h = inr (omega arith)

-- The peers that may vote are the other voters of the configuration.
abbrev pub HasVoterPeers : Node → Type 0
HasVoterPeers n = n.voter_peers ≡ others n n.config.servers

-- Where a read that may go on stands: the leader of a term has committed an entry of that term, and it
-- is alone, or a quorum of the voters of its configuration are the leader itself or answer in time in no later term,
-- no voter whose answer came is in a later one, and it still leads the term.
pub record Fenced (answers : String → Option AppendEntriesReply) (order : List String) (n : Node)
    (idx : ℕ) (m : Node) : Type 0 where
  pub leads : is_leader n.role ≡ true
  pub fence : idx ≡ n.commit_index
  pub started : 0 < idx
  pub own_term : log_term n idx ≡ n.current_term
  pub confirmed :
      (quorum_size n.config ≤ 1) × (contains n.config n.id ≡ true) × (m ≡ n)
      ⊎ (quorum_size n.config
          ≤ count_if
              (λ s. str_eq s n.id || (member_of order s && acks n.current_term (s, answers s)))
              n.config.servers)
        × (any_if (deposes n.current_term) (replies_of answers (arrived n.voter_peers order))
            ≡ false)
        × (is_leader m.role ≡ true)
        × (m.current_term ≡ n.current_term)

begin_read_lem :
    (n : Node) (r : ReadRound)
    → begin_read n ≡ read_ok r
    → (is_leader n.role ≡ true)
      × (r.read_idx ≡ n.commit_index)
      × (0 < n.commit_index)
      × (log_term n n.commit_index ≡ n.current_term)
      × (r.term ≡ n.current_term)
      × (r.peers ≡ n.voter_peers)
      × (r.quorum ≡ quorum_size n.config)
      × (r.self_votes ≡ (if contains n.config n.id then 1 else 0))
unfolding begin_read
begin_read_lem n r q = ground (arith, q)

end_read_lem :
    (r : ReadRound) (k : ℕ) (m : Node) (idx : ℕ)
    → (end_read r (k, m)).0 ≡ read_ok idx
    → (r.quorum ≤ k)
      × (is_leader m.role ≡ true)
      × (m.current_term ≡ r.term)
      × (idx ≡ r.read_idx)
      × ((end_read r (k, m)).1 ≡ m)
unfolding end_read
end_read_lem r k m idx q = ground (arith, q)

-- Each peer of a round answers once at most.
count-remove :
    (q : String → Bool) (ps : List String) (p : String)
    → count_if q (remove_id ps p) ≤ count_if q ps
count-remove q [] p = omega arith
count-remove q (s ∷ ps) p = ground (arith, count-remove q ps p)

count-member :
    (q : String → Bool) (ps : List String) (p : String)
    → member_of ps p ≡ true
    → (if q p then 1 else 0) + count_if q (remove_id ps p) ≤ count_if q ps
count-member q [] p h = absurd cc
count-member q (s ∷ ps) p h = elim (Bool-cases (str_eq s p)) [
  | inl same ↦
      let e : q s ≡ q p = ap q ((str_eq_iff s p).0 same) in
      rw (same, e) (omega (arith, count-remove q ps p))
  | inr other ↦ let rest = count-member q ps p (rw other at h) in rw other (ground (arith, rest))
]

-- A vote that came in time.
abbrev in_time : (String → Bool) → List String → String → Bool
in_time q order s = member_of order s && q s

count-later :
    (q : String → Bool) (p : String) (order ps : List String)
    → count_if (in_time q order) ps ≤ count_if (in_time q (p ∷ order)) ps
count-later q p order [] = omega arith
count-later q p order (s ∷ ps) = ground (arith, count-later q p order ps)

count-arrived :
    (q : String → Bool) (peers order : List String)
    → count_if q (arrived peers order) ≤ count_if (in_time q order) peers
unfolding arrived
count-arrived q peers [] = omega arith
count-arrived q peers (p ∷ ps) = elim (Bool-cases (member_of peers p)) [
  | inl asked ↦
      let rest = count-arrived q (remove_id peers p) ps in
      let more = count-later q p ps (remove_id peers p) in
      let once = count-member (in_time q (p ∷ ps)) peers p asked in
      let came : in_time q (p ∷ ps) p ≡ q p = rw ((str_eq_iff p p).1 refl) refl in
      rw (arrived, asked)
        (omega (arith, rest, more, once, ap {B = ℕ} (λ b. if b then 1 else 0) came))
  | inr not_asked ↦
      let rest = count-arrived q peers ps in
      let more = count-later q p ps peers in rw (arrived, not_asked) (omega (arith, rest, more))
]

-- A leader that votes, and the others that answer, are voters.
count-others :
    (q : String → Bool) (id : String) (ss : List String)
    → (if member_of ss id then 1 else 0) + count_if q (filter_if (λ s. not (str_eq s id)) ss)
      ≤ count_if (λ s. str_eq s id || q s) ss
count-others q id [] = omega arith
count-others q id (s ∷ ss) = elim (Bool-cases (str_eq s id)) [
  | inl self ↦ rw self (ground (arith, count-others q id ss))
  | inr other ↦ rw other (ground (arith, count-others q id ss))
]

count-replies :
    (f : String × Option AppendEntriesReply → Bool) (answers : String → Option AppendEntriesReply)
    (ps : List String)
    → count_if f (replies_of answers ps) ≡ count_if (λ p. f (p, answers p)) ps
count-replies f answers [] = refl
count-replies f answers (p ∷ ps) =
    ap (λ k. (if f (p, answers p) then 1 else 0) + k) (count-replies f answers ps)

-- The votes that a round counts are those of voters.
votes_are_voters :
    (answers : String → Option AppendEntriesReply) (order : List String) (n : Node) (t : ℕ)
    → HasVoterPeers n
    → (if contains n.config n.id then 1 else 0)
        + count_if (acks t) (replies_of answers (arrived n.voter_peers order))
      ≤ count_if
          (λ s. str_eq s n.id || (member_of order s && acks t (s, answers s)))
          n.config.servers
votes_are_voters answers order n t p =
    let q : String → Bool = λ s. acks t (s, answers s) in
    omega (
      arith,
      count-replies (acks t) answers (arrived n.voter_peers order),
      count-arrived q n.voter_peers order,
      ap (count_if (in_time q order)) p,
      count-others (in_time q order) n.id n.config.servers,
    )

read_round-Fenced :
    (answers : String → Option AppendEntriesReply) (order : List String) (n : Node) (r : ReadRound)
    (idx : ℕ)
    → HasVoterPeers n
    → begin_read n ≡ read_ok r
    → is_alone r ≡ false
    → let e =
        end_read r
          (on_read_replies r (replies_of answers (arrived r.peers order)) (r.self_votes, n)) in
      e.0 ≡ read_ok idx → Fenced answers order n idx e.1
read_round-Fenced answers order n r idx p q a h =
    let (leads, fence, some_committed, own, term, peers, quorum, self) = begin_read_lem n r q in
    let replies = replies_of answers (arrived r.peers order) in
    let asked = ap (λ ps. replies_of answers (arrived ps order)) peers in
    let (count, up, safe) = on_read_replies_lem r replies r.self_votes n in
    let out = on_read_replies r replies (r.self_votes, n) in
    let (enough, still, same_term, idx', m) = end_read_lem r out.0 out.1 idx h in
    let undeposed : any_if (deposes r.term) replies ≡ false = elim safe [
      | inl none_deposes ↦ none_deposes
      | inr moved ↦ absurd (omega (arith, moved, same_term))
    ] in
    let at : idx ≡ n.commit_index = idx' ∙ fence in
    record {
      leads = leads;
      fence = at;
      started = omega (arith, at, some_committed);
      own_term = ap (log_term n) at ∙ own;
      confirmed = rw m (
          inr (
            omega (
              arith,
              quorum,
              self,
              enough,
              count,
              ap (λ t. count_if (acks t) replies) term,
              ap (count_if (acks n.current_term)) asked,
              votes_are_voters answers order n n.current_term p,
            ),
            ap (any_if (deposes n.current_term)) (sym asked)
                ∙ ap (λ t. any_if (deposes t) replies) (sym term)
                ∙ undeposed,
            still,
            same_term ∙ term,
          ));
    }

alone_quorum : (r : ReadRound) → is_alone r ≡ true → (r.quorum ≤ 1) × (r.self_votes ≡ 1)
unfolding is_alone
alone_quorum r h = ground (arith, h)

ReadResult-cases :
    {A : Type 0} (r : ReadResult A)
    → ((e : ReadError) × (r ≡ read_err e)) ⊎ ((a : A) × (r ≡ read_ok a))
ReadResult-cases (read_ok a) = inr (a, refl)
ReadResult-cases (read_err e) = inl (e, refl)

-- The branches of `read_index`.
module _ (answers : String → Option AppendEntriesReply) (order : List String) (n : Node) where
  refused_read :
      (e : ReadError) → begin_read n ≡ read_err e → read_index answers order n ≡ (read_err e, n)
  unfolding read_index
  refused_read e q = rw (q, read_index) refl

  alone_read :
      (r : ReadRound)
      → begin_read n ≡ read_ok r
      → is_alone r ≡ true
      → read_index answers order n ≡ (read_ok r.read_idx, n)
  unfolding read_index
  alone_read r q a = rw (q, read_index) (rw a refl)

  round_read :
      (r : ReadRound)
      → begin_read n ≡ read_ok r
      → is_alone r ≡ false
      → read_index answers order n
        ≡ end_read r
            (on_read_replies r (replies_of answers (arrived r.peers order)) (r.self_votes, n))
  unfolding read_index
  round_read r q a = rw (q, read_index) (rw a refl)

-- A read that `ReadIndex` lets go on, at an index, was asked of a leader; the index is its commit index,
-- not 0, of an entry of its own term; and it is alone in its quorum, or a quorum of the voters of its
-- configuration are itself or answer in time in no later term, no answer of a voter that came is of a later term,
-- and it leads that term still at the end; if the peers that it asks are the other voters.
pub read_index-Fenced :
    (answers : String → Option AppendEntriesReply) (order : List String) (n : Node) (idx : ℕ)
    → HasVoterPeers n
    → (read_index answers order n).0 ≡ read_ok idx
    → Fenced answers order n idx (read_index answers order n).1
read_index-Fenced answers order n idx p h = elim (ReadResult-cases (begin_read n)) [
  | inl (e, q) ↦ let no_index = ap (λ x. x.0) (refused_read answers order n e q) in cc
  | inr (r, q) ↦ elim (Bool-cases (is_alone r)) [
    | inr a ↦
        let v = round_read answers order n r q a in
        rw v (read_round-Fenced answers order n r idx p q a (rw v at h))
    | inl a ↦
        let v = alone_read answers order n r q a in
        let (leads, fence, some_committed, own, term, peers, quorum, self) = begin_read_lem n r q in
        let (few, one) = alone_quorum r a in
        let same : read_ok r.read_idx ≡ read_ok idx = rw v at h in
        let at : idx ≡ n.commit_index = ground (arith, same, fence) in
        rw v (record {
          leads = leads;
          fence = at;
          started = omega (arith, at, some_committed);
          own_term = ap (log_term n) at ∙ own;
          confirmed = inl (omega (arith, few, quorum), ground (arith, self, one), refl);
        })
  ]
]
