-- ===== src/Raft/Grants.antt =====
-- raft.go `HandleRequestVote`: what a granted vote rests on.
use veltrix_db.Base.{
  ℕ, zero, suc, ◌≤◌, ◌<◌, ◌≡◌, ◌⊎◌, inl, inr, refl, sym, ap, subst, ◌∙◌, Bool, true, false, not,
  ◌&&◌, ◌||◌, List, [], ◌∷◌, none, leb, if◌then◌else◌, str_eq, arith, ltb, ltb→lt, leb→le, ==_iff,
  Bool-cases, str_eq_iff,
}
use veltrix_db.Raft.Types.{RequestVoteArgs, RequestVoteReply, RaftMeta, follower, not_leader}
use veltrix_db.Raft.Store.{
  LogStore, MetaWrite, written, lost, renamed_unsynced, save_meta, same_meta, write_meta,
}
use veltrix_db.Raft.Config.{contains}
use veltrix_db.Raft.Log.{Node, log_up_to_date}
use veltrix_db.Raft.Role.{
  is_leader, adopt_term, become_follower, persist_meta, fail_waiters, sync_replicators, kick_syncer,
}
use veltrix_db.Raft.Vote.{
  handle_request_vote, decide_vote, heard_recently, grants_pre_vote, deny, grant,
}

-- A vote in an election: the candidate is a voter with a log that is up to date, and the term and the
-- vote are those of the node and of what its store has saved.
pub record Granted (n m : Node) (args : RequestVoteArgs) : Type 0 where
  pub voter : contains n.config args.candidate_id ≡ true
  pub not_old : n.current_term ≤ args.term
  pub free : (n.current_term < args.term) ⊎ (n.voted_for ≡ "") ⊎ (n.voted_for ≡ args.candidate_id)
  pub up_to_date : log_up_to_date n args.last_log_term args.last_log_index ≡ true
  pub term : m.current_term ≡ args.term
  pub vote : m.voted_for ≡ args.candidate_id
  pub saved_term : m.store.saved.current_term ≡ args.term
  pub saved_vote : m.store.saved.voted_for ≡ args.candidate_id

-- A vote in a pre-vote: the term would be new, the log is up to date, and no leader is in touch.
pub record PreGranted (now : ℕ) (n : Node) (args : RequestVoteArgs) : Type 0 where
  pub voter : contains n.config args.candidate_id ≡ true
  pub later : n.current_term < args.term
  pub up_to_date : log_up_to_date n args.last_log_term args.last_log_index ≡ true
  pub not_leader : is_leader n.role ≡ false
  pub no_contact : heard_recently now n ≡ false

-- The next `k` writes of the meta file work.
abbrev pub all_written : ℕ → List MetaWrite → Bool
all_written zero ms = true
all_written (suc k) (written ∷ ms) = all_written k ms
all_written (suc k) _ = false

-- A refusal of a request of this kind: the candidate is no voter, or its log or its term is old, or the
-- vote of the term is another's, or a leader is in touch with a pre-vote, or the disk may not work.
pub data Reason (now : ℕ) (n : Node) (args : RequestVoteArgs) : Type 0 where
  no_voter : contains n.config args.candidate_id ≡ false → Reason now n args
  old_term : args.term < n.current_term → Reason now n args
  old_log : log_up_to_date n args.last_log_term args.last_log_index ≡ false → Reason now n args
  other_vote :
      args.pre_vote ≡ false
      → args.term ≡ n.current_term
      → str_eq n.voted_for "" ≡ false
      → str_eq n.voted_for args.candidate_id ≡ false
      → Reason now n args
  no_new_term : args.pre_vote ≡ true → args.term ≤ n.current_term → Reason now n args
  in_touch :
      args.pre_vote ≡ true → (is_leader n.role || heard_recently now n) ≡ true → Reason now n args
  disk :
      args.pre_vote ≡ false
      → (n.store.closed || not (all_written 3 n.store.meta_writes)) ≡ true
      → Reason now n args

persist_saved :
    (n : Node)
    → (persist_meta n).0 ≡ none
    → let m = (persist_meta n).1 in
      (m.store.saved.current_term ≡ n.current_term) × (m.store.saved.voted_for ≡ n.voted_for)
unfolding persist_meta save_meta
persist_saved n h = ground (
  arith,
  str_eq_iff n.store.saved.voted_for n.voted_for,
  ==_iff n.store.saved.current_term n.current_term,
)

persist_keeps :
    (n : Node)
    → let m = (persist_meta n).1 in (m.current_term ≡ n.current_term) × (m.voted_for ≡ n.voted_for)
unfolding persist_meta
persist_keeps n = (refl, refl)

adopt_up_to_date :
    (n : Node) (t a b : ℕ) → log_up_to_date (adopt_term n t).1 a b ≡ log_up_to_date n a b
unfolding adopt_term become_follower persist_meta fail_waiters sync_replicators log_up_to_date
adopt_up_to_date n t a b = elim (Bool-cases (ltb n.current_term t)) [
  | inl e ↦ rw e refl
  | inr e ↦ rw e refl
]

adopt_current : (n : Node) (t : ℕ) → n.current_term ≤ t → (adopt_term n t).1.current_term ≡ t
unfolding adopt_term become_follower persist_meta sync_replicators fail_waiters
adopt_current n t h = elim (Bool-cases (ltb n.current_term t)) [
  | inl e ↦ rw e refl
  | inr e ↦ rw e (ground arith)
]

decide_vote_granted :
    (n : Node) (args : RequestVoteArgs)
    → let r = decide_vote n args in
      (r.0.vote_granted ≡ false)
      ⊎ ((log_up_to_date n args.last_log_term args.last_log_index ≡ true)
          × (r.1.current_term ≡ n.current_term)
          × (r.1.voted_for ≡ args.candidate_id)
          × (r.1.store.saved.current_term ≡ n.current_term)
          × (r.1.store.saved.voted_for ≡ args.candidate_id)
          × ((n.voted_for ≡ "") ⊎ (n.voted_for ≡ args.candidate_id)))
unfolding decide_vote
decide_vote_granted n args =
    let m : Node = record n { voted_for = args.candidate_id } in
    ground (
      arith,
      persist_saved m,
      persist_keeps m,
      str_eq_iff n.voted_for "",
      str_eq_iff n.voted_for args.candidate_id,
    )

-- A refusal has a reason, and leaves the vote of the term as it was: the term is later, or both stay.
pub record Denied (now : ℕ) (n m : Node) (args : RequestVoteArgs) : Type 0 where
  pub reason : Reason now n args
  pub keeps :
      (n.current_term < m.current_term)
      ⊎ ((m.current_term ≡ n.current_term) × (m.voted_for ≡ n.voted_for))

all_written_less :
    (k : ℕ) (ms : List MetaWrite) → all_written (suc k) ms ≡ true → all_written k ms ≡ true
all_written_less zero ms h = refl
all_written_less (suc k) [] h = absurd cc
all_written_less (suc k) (written ∷ ms) h = all_written_less k ms h
all_written_less (suc k) (lost ∷ ms) h = absurd cc
all_written_less (suc k) (renamed_unsynced ∷ ms) h = absurd cc

-- The meta file is open and `k` writes of it work.
record Works (k : ℕ) (s : LogStore) : Type 0 where
  open_yet : s.closed ≡ false
  work : all_written k s.meta_writes ≡ true

write-Works :
    (k : ℕ) (s : LogStore) (m : RaftMeta) (ms : List MetaWrite)
    → s.closed ≡ false
    → all_written (suc k) ms ≡ true
    → ((write_meta s m ms).0 ≡ none) × Works k (write_meta s m ms).1
unfolding write_meta
write-Works k s m [] c h = absurd cc
write-Works k s m (written ∷ ms) c h = (refl, record { open_yet = c; work = h })
write-Works k s m (lost ∷ ms) c h = absurd cc
write-Works k s m (renamed_unsynced ∷ ms) c h = absurd cc

if_true {ℓ} : {A : Type ℓ} (b : Bool) (x y : A) → b ≡ true → (if b then x else y) ≡ x
if_true b x y h = rw h refl

if_false {ℓ} : {A : Type ℓ} (b : Bool) (x y : A) → b ≡ false → (if b then x else y) ≡ y
if_false b x y h = rw h refl

save-Works :
    (k : ℕ) (s : LogStore) (m : RaftMeta)
    → Works (suc k) s
    → ((save_meta s m).0 ≡ none) × Works k (save_meta s m).1
unfolding save_meta
save-Works k s m w = elim (Bool-cases (s.has_meta && same_meta s.saved m)) [
  | inl same ↦
      let v : save_meta s m ≡ (none, s) = if_false _ _ _ w.open_yet ∙ if_true _ _ _ same in
      subst (λ r. (r.0 ≡ none) × Works k r.1) (sym v)
        (refl, record { open_yet = w.open_yet; work = all_written_less k s.meta_writes w.work })
  | inr other ↦
      let v : save_meta s m ≡ write_meta s m s.meta_writes =
        if_false _ _ _ w.open_yet ∙ if_false _ _ _ other in
      subst (λ r. (r.0 ≡ none) × Works k r.1) (sym v)
        (write-Works k s m s.meta_writes w.open_yet w.work)
]

persist-Works :
    (k : ℕ) (n : Node)
    → Works (suc k) n.store
    → ((persist_meta n).0 ≡ none) × Works k (persist_meta n).1.store
unfolding persist_meta
persist-Works k n w =
    save-Works k n.store (record { current_term = n.current_term; voted_for = n.voted_for }) w

follower-Works : (n : Node) (t : ℕ) → Works 3 n.store → Works 2 (become_follower n t).store
unfolding become_follower fail_waiters sync_replicators
follower-Works n t w =
    let n' : Node = record n {
      leader_id = if ltb n.current_term t then "" else n.leader_id;
      current_term = t;
      voted_for = "";
      role = follower;
    } in
    (persist-Works 2 (kick_syncer (sync_replicators (fail_waiters not_leader n'))) w).1

adopt-Works :
    (n : Node) (t : ℕ)
    → Works 3 n.store
    → ((adopt_term n t).0 ≡ true) × Works 1 (adopt_term n t).1.store
unfolding adopt_term
adopt-Works n t w = elim (Bool-cases (ltb n.current_term t)) [
  | inl e ↦
      let (saved, work) = persist-Works 1 (become_follower n t) (follower-Works n t w) in
      rw (adopt_term, e) (rw saved refl, work)
  | inr e ↦
      rw (adopt_term, e)
        (
          refl,
          record {
            open_yet = w.open_yet;
            work =
                all_written_less 1 n.store.meta_writes
                  (all_written_less 2 n.store.meta_writes w.work);
          },
        )
]

decide-Works :
    (n : Node) (args : RequestVoteArgs)
    → Works 1 n.store
    → log_up_to_date n args.last_log_term args.last_log_index ≡ true
    → (str_eq n.voted_for "" || str_eq n.voted_for args.candidate_id) ≡ true
    → (decide_vote n args).0.vote_granted ≡ true
unfolding decide_vote
decide-Works n args w up free =
    let (saved, work) = persist-Works 0 (record n { voted_for = args.candidate_id }) w in
    rw (decide_vote, free, up) (rw saved refl)

adopt_keeps :
    (n : Node) (t : ℕ)
    → (n.current_term < (adopt_term n t).1.current_term) ⊎ ((adopt_term n t).1 ≡ n)
unfolding adopt_term become_follower persist_meta sync_replicators fail_waiters
adopt_keeps n t = elim (Bool-cases (ltb n.current_term t)) [
  | inl e ↦ inl (rw e (ltb→lt n.current_term t e))
  | inr e ↦ inr (rw e refl)
]

decide_keeps :
    (n : Node) (args : RequestVoteArgs)
    → (decide_vote n args).0.vote_granted ≡ false
    → ((decide_vote n args).1.current_term ≡ n.current_term)
      × ((decide_vote n args).1.voted_for ≡ n.voted_for)
unfolding decide_vote
decide_keeps n args h =
    ground (arith, h, persist_keeps (record n { voted_for = args.candidate_id }))

pre_vote_old :
    (a b c d : Bool) → a ≡ false → (b || c) ≡ false → not (a || b || c || not d) ≡ false → d ≡ false
pre_vote_old a b c d h k g = ground arith

or_right : (a b : Bool) → b ≡ true → (a || b) ≡ true
or_right a b h = ground arith

Works-or_not :
    (n : Node)
    → Works 3 n.store ⊎ ((n.store.closed || not (all_written 3 n.store.meta_writes)) ≡ true)
Works-or_not n = elim (Bool-cases n.store.closed) [
  | inl c ↦ inr (ap (λ b. b || not (all_written 3 n.store.meta_writes)) c)
  | inr c ↦ elim (Bool-cases (all_written 3 n.store.meta_writes)) [
    | inl a ↦ inl (record { open_yet = c; work = a })
    | inr a ↦ inr (or_right _ _ (ap not a))
  ]
]

adopt_voted :
    (n : Node) (t : ℕ)
    → ((ltb n.current_term t ≡ true) × ((adopt_term n t).1.voted_for ≡ ""))
      ⊎ ((ltb n.current_term t ≡ false) × ((adopt_term n t).1 ≡ n))
unfolding adopt_term become_follower persist_meta sync_replicators fail_waiters
adopt_voted n t = elim (Bool-cases (ltb n.current_term t)) [
  | inl e ↦ inl (e, rw e refl)
  | inr e ↦ inr (e, rw e refl)
]

not_either : (a b : Bool) → (a || b) ≡ false → (a ≡ false) × (b ≡ false)
not_either a b h = ground arith

same_term : (a b : ℕ) → a ≤ b → ltb a b ≡ false → b ≡ a
same_term a b l h = ground (arith, h)

vote-Reason :
    (now : ℕ) (n : Node) (args : RequestVoteArgs)
    → args.pre_vote ≡ false
    → n.current_term ≤ args.term
    → (decide_vote (adopt_term n args.term).1 args).0.vote_granted ≡ false
    → Reason now n args
vote-Reason now n args p le h =
    let m = (adopt_term n args.term).1 in
    let up = adopt_up_to_date n args.term args.last_log_term args.last_log_index in
    elim (Bool-cases (log_up_to_date n args.last_log_term args.last_log_index)) [
      | inr old ↦ old_log old
      | inl current ↦
          elim (Bool-cases (str_eq m.voted_for "" || str_eq m.voted_for args.candidate_id)) [
            | inl free ↦ elim (Works-or_not n) [
              | inr fails ↦ disk p fails
              | inl works ↦
                  let w = (adopt-Works n args.term works).1 in
                  absurd (
                    let no : true ≡ false = sym (decide-Works m args w (up ∙ current) free) ∙ h in
                    cc)
            ]
            | inr taken ↦
                let (voted, other) = not_either _ _ taken in
                elim (adopt_voted n args.term) [
                  | inl (later, cleared) ↦
                      let yes = (str_eq_iff m.voted_for "").1 cleared in
                      absurd (let no : true ≡ false = sym yes ∙ voted in cc)
                  | inr (same, kept) ↦
                      other_vote p (same_term n.current_term args.term le same)
                        (ap (λ (x : Node). str_eq x.voted_for "") (sym kept) ∙ voted)
                        (ap (λ (x : Node). str_eq x.voted_for args.candidate_id) (sym kept) ∙ other)
                ]
          ]
    ]

-- A vote request in an election, of a voter whose term is not old, that is refused.
refused_vote :
    (now : ℕ) (n : Node) (args : RequestVoteArgs)
    → args.pre_vote ≡ false
    → n.current_term ≤ args.term
    → (decide_vote (adopt_term n args.term).1 args).0.vote_granted ≡ false
    → Denied now n (decide_vote (adopt_term n args.term).1 args).1 args
refused_vote now n args p le h =
    let m = (adopt_term n args.term).1 in
    let (term, vote) = decide_keeps m args h in
    record {
      reason = vote-Reason now n args p le h;
      keeps = elim (adopt_keeps n args.term) [
        | inl later ↦ inl (omega (arith, later, term))
        | inr same ↦ inr (
          term ∙ ap (λ (x : Node). x.current_term) same,
          vote ∙ ap (λ (x : Node). x.voted_for) same,
        )
      ];
    }

-- A term that cannot be saved is adopted, and no vote is granted in it.
unsaved_term :
    (now : ℕ) (n : Node) (args : RequestVoteArgs)
    → args.pre_vote ≡ false
    → (adopt_term n args.term).0 ≡ false
    → Denied now n (adopt_term n args.term).1 args
unsaved_term now n args p h = record {
  reason = elim (Works-or_not n) [
    | inr fails ↦ disk p fails
    | inl works ↦ absurd (let no : true ≡ false = sym (adopt-Works n args.term works).0 ∙ h in cc)
  ];
  keeps = elim (adopt_keeps n args.term) [
    | inl later ↦ inl later
    | inr same ↦ inr (ap (λ (x : Node). x.current_term) same, ap (λ (x : Node). x.voted_for) same)
  ];
}

still-Denied :
    (now : ℕ) (n : Node) (args : RequestVoteArgs) → Reason now n args → Denied now n n args
still-Denied now n args r = record { reason = r; keeps = inr (refl, refl) }

pre_vote-Reason :
    (now : ℕ) (n : Node) (args : RequestVoteArgs)
    → args.pre_vote ≡ true
    → grants_pre_vote now n args ≡ false
    → Reason now n args
unfolding grants_pre_vote
pre_vote-Reason now n args p g = elim (Bool-cases (leb args.term n.current_term)) [
  | inl l ↦ no_new_term p (leb→le args.term n.current_term l)
  | inr l ↦ elim (Bool-cases (is_leader n.role || heard_recently now n)) [
    | inl t ↦ in_touch p t
    | inr t ↦ old_log (pre_vote_old _ _ _ _ l t g)
  ]
]

granted_pre_vote :
    (now : ℕ) (n : Node) (args : RequestVoteArgs)
    → contains n.config args.candidate_id ≡ true
    → grants_pre_vote now n args ≡ true
    → PreGranted now n args
unfolding grants_pre_vote
granted_pre_vote now n args voter g = record {
  voter = voter;
  later = ground (arith, g);
  up_to_date = ground (arith, g);
  not_leader = ground (arith, g);
  no_contact = ground (arith, g);
}

not_older : (a b : ℕ) → ltb b a ≡ false → a ≤ b
not_older a b h = ground (arith, h)

Granted-vote :
    (n : Node) (args : RequestVoteArgs)
    → contains n.config args.candidate_id ≡ true
    → n.current_term ≤ args.term
    → (decide_vote (adopt_term n args.term).1 args).0.vote_granted ≡ true
    → Granted n (decide_vote (adopt_term n args.term).1 args).1 args
Granted-vote n args voter le g =
    let m = (adopt_term n args.term).1 in
    let term = adopt_current n args.term le in
    elim (decide_vote_granted m args) [
      | inl none_granted ↦ absurd (let not_so : true ≡ false = sym g ∙ none_granted in cc)
      | inr (up, current, vote, saved, saved_vote, free) ↦ record {
        voter = voter;
        not_old = le;
        free = elim (adopt_voted n args.term) [
          | inl (later, cleared) ↦ inl (ltb→lt n.current_term args.term later)
          | inr (same, kept) ↦
              let is_free = ap (λ (x : Node). x.voted_for) (sym kept) in
              elim free [
                | inl nobody ↦ inr (inl (is_free ∙ nobody))
                | inr this ↦ inr (inr (is_free ∙ this))
              ]
        ];
        up_to_date = sym (adopt_up_to_date n args.term args.last_log_term args.last_log_index) ∙ up;
        term = current ∙ term;
        vote = vote;
        saved_term = saved ∙ term;
        saved_vote = saved_vote;
      }
    ]

-- What every answer rests on.
abbrev pub Rests : ℕ → Node → RequestVoteArgs → RequestVoteReply × Node → Type 0
Rests now n args r =
    ((r.0.vote_granted ≡ false) × Denied now n r.1 args)
    ⊎ ((args.pre_vote ≡ true) × (r.1 ≡ n) × PreGranted now n args)
    ⊎ ((args.pre_vote ≡ false) × Granted n r.1 args)

election-Rests :
    (now : ℕ) (n : Node) (args : RequestVoteArgs)
    → contains n.config args.candidate_id ≡ true
    → args.pre_vote ≡ false
    → n.current_term ≤ args.term
    → Rests now n args (
        let r = adopt_term n args.term in
        if r.0 then decide_vote r.1 args else (deny n.current_term, r.1))
election-Rests now n args voter p le =
    let m = (adopt_term n args.term).1 in
    elim (Bool-cases (adopt_term n args.term).0) [
      | inr lost_term ↦ rw lost_term (inl (refl, unsaved_term now n args p lost_term))
      | inl saved ↦ rw saved (elim (Bool-cases (decide_vote m args).0.vote_granted) [
        | inr denied ↦ inl (denied, refused_vote now n args p le denied)
        | inl granted ↦ inr (inr (p, Granted-vote n args voter le granted))
      ])
    ]

-- A request is refused, for a reason: the candidate is no voter, its term or its log is old, another
-- candidate has the vote of the term, a leader is in touch with a pre-vote or its term is not new, the meta
-- file is closed or one of its next three writes may fail; then the term has gone up, or the term and the
-- vote stay. Or it is a pre-vote, which is granted only to a voter that is up to date, for a later term
-- and while no leader is in touch, and changes nothing. Or the vote is granted to a voter that is up to
-- date, in a term that is not old and in which no other candidate has the vote, and the term and the vote
-- are saved before the answer.
pub handle_request_vote-Granted :
    (now : ℕ) (n : Node) (args : RequestVoteArgs)
    → Rests now n args (handle_request_vote now n args)
unfolding handle_request_vote
handle_request_vote-Granted now n args = elim (Bool-cases (contains n.config args.candidate_id)) [
  | inr unknown ↦
      let v : handle_request_vote now n args ≡ (deny n.current_term, n) =
        if_true _ _ _ (ap not unknown) in
      subst (Rests now n args) (sym v) (inl (refl, still-Denied now n args (no_voter unknown)))
  | inl voter ↦ elim (Bool-cases args.pre_vote) [
    | inl p ↦
        let v : handle_request_vote now n args
            ≡ (if grants_pre_vote now n args then grant args.term else deny n.current_term, n) =
          if_false _ _ _ (ap not voter) ∙ if_true _ _ _ p in
        subst (Rests now n args) (sym v) (elim (Bool-cases (grants_pre_vote now n args)) [
          | inl g ↦ rw g (inr (inl (p, refl, granted_pre_vote now n args voter g)))
          | inr g ↦ rw g (inl (refl, still-Denied now n args (pre_vote-Reason now n args p g)))
        ])
    | inr p ↦ elim (Bool-cases (ltb args.term n.current_term)) [
      | inl old ↦
          let v : handle_request_vote now n args ≡ (deny n.current_term, n) =
            if_false _ _ _ (ap not voter) ∙ if_false _ _ _ p ∙ if_true _ _ _ old in
          let why : Reason now n args = old_term (ltb→lt args.term n.current_term old) in
          subst (Rests now n args) (sym v) (inl (refl, still-Denied now n args why))
      | inr fresh ↦
          let v : handle_request_vote now n args ≡ (
              let r = adopt_term n args.term in
              if r.0 then decide_vote r.1 args else (deny n.current_term, r.1)) =
            if_false _ _ _ (ap not voter) ∙ if_false _ _ _ p ∙ if_false _ _ _ fresh in
          subst (Rests now n args) (sym v)
            (election-Rests now n args voter p (not_older n.current_term args.term fresh))
    ]
  ]
]
