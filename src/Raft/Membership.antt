-- ===== src/Raft/Membership.antt =====
-- consensus/membership.go: changes of the cluster, through the log, by its leader. The waits for a quorum
-- are turns between which the node changes; those for a commit or a promotion are not modelled. gob's encoder is the parameter `encode`.
use veltrix_db.Base.{
  ℕ, ◌+◌, ◌-◌, ◌*◌, String, Bool, true, false, not, ◌&&◌, ◌||◌, Option, none, some, List, [], ◌∷◌,
  ◌++◌, ltb, leb, ◌==◌, if◌then◌else◌, length, take, count_if, filter_if, str_eq,
}
use veltrix_db.Raft.Types.{entry_config, LogEntry, Configuration, CommitWaiter, LearnerRound}
use veltrix_db.Raft.Store.{enqueue}
use veltrix_db.Raft.Config.{contains, is_learner, is_member, remove_id, quorum_size}
use veltrix_db.Raft.Log.{Node, last_log_index}
use veltrix_db.Raft.Role.{is_leader, is_none, kick_syncer, step_down}
use veltrix_db.Raft.Effective.{set_config}
use veltrix_db.Raft.Commit.{append_entry, kick_replicators_on_append}

pub data ChangeError : Type 0 where
  err_not_leader err_change_in_progress err_member_exists err_member_not_found : ChangeError
  err_no_quorum err_last_voter err_config_too_large err_persist err_encode err_empty_id :
      ChangeError

pub data ChangeResult (A : Type 0) : Type 0 where
  changed : A → ChangeResult A
  refused : ChangeError → ChangeResult A

-- quorumContactWindow and promoteRoundMax, in nanoseconds
abbrev pub quorum_contact_window : ℕ
quorum_contact_window = 2 * (800 * 1_000_000)

abbrev pub promote_round_max : ℕ
promote_round_max = 1_000_000_000

-- maxConfigBytes
abbrev pub max_config_bytes : ℕ
max_config_bytes = 4092 - 72 - 64

-- A lookup in the map of addresses, "" where it has none.
unfoldable pub addr_of : List (String × String) → String → String
addr_of [] id = ""
addr_of ((k, v) ∷ m) id = if str_eq k id then v else addr_of m id

unfoldable pub set_addr : List (String × String) → String → String → List (String × String)
set_addr [] id a = (id, a) ∷ []
set_addr ((k, v) ∷ m) id a = if str_eq k id then (k, a) ∷ m else (k, v) ∷ set_addr m id a

unfoldable pub delete_addr : List (String × String) → String → List (String × String)
delete_addr m id = filter_if (λ (e : String × String). not (str_eq e.0 id)) m

-- reachableQuorumLocked at the time `now`: a voter counts that answered within the window
unfoldable pub last_ack_of : List (String × ℕ) → String → Option ℕ
last_ack_of [] id = none
last_ack_of ((k, t) ∷ m) id = if str_eq k id then some t else last_ack_of m id

unfoldable pub reachable : ℕ → Node → String → Bool
reachable now n s = str_eq s n.id || elim (last_ack_of n.last_ack s) [
  | none ↦ false
  | some t ↦ leb (now - t) quorum_contact_window
]

unfoldable pub reachable_quorum : ℕ → Node → Configuration → Bool
reachable_quorum now n c = leb (quorum_size c) (count_if (reachable now n) c.servers)

-- beginChangeLocked
unfoldable pub begin_change : Node → Option ChangeError
begin_change n =
    if not (is_leader n.role)
    then some err_not_leader
    else if ltb n.commit_index n.config_index
    then some err_change_in_progress
    else none

-- The addresses of members that the configuration lacks.
unfoldable pub add_known : Configuration → List (String × String) → Configuration
add_known c [] = c
add_known c ((m, a) ∷ known) =
    let c' : Configuration =
      if is_member c m && str_eq (addr_of c.addrs m) "" && not (str_eq a "")
      then record c { addrs = set_addr c.addrs m a }
      else c in
    add_known c' known

-- The configuration of `AddMember`: the server joins as a learner.
unfoldable pub with_learner :
    Configuration → String → String → List (String × String) → Configuration
with_learner c id addr known =
    let c' = add_known (record c { learners = c.learners ++ id ∷ [] }) known in
    if str_eq addr "" then c' else record c' { addrs = set_addr c'.addrs id addr }

-- The configuration of `RemoveMember`.
unfoldable pub without_member : Configuration → String → Configuration
without_member c id = record {
  servers = remove_id c.servers id;
  learners = remove_id c.learners id;
  addrs = delete_addr c.addrs id;
}

-- The configuration of a promotion: a learner becomes a voter.
unfoldable pub promoted : Configuration → String → Configuration
promoted c id = record c { servers = c.servers ++ id ∷ []; learners = remove_id c.learners id }

-- onConfigCommitted
unfoldable pub on_config_committed : Node → Node
on_config_committed n =
    if contains n.config n.id
    then n
    else (let n' : Node = if is_member n.config n.id then n else record n { removed = true } in
        if is_leader n.role then step_down n' else n')

-- leaderContactGrace, twice the longest election timeout
abbrev pub leader_contact_grace : ℕ
leader_contact_grace = 2 * (800 * 1_000_000)

-- waitQuorumLocked at its first look, at the time `now`, and at the later turns: it lets go of the lock in
-- between, so each turn has its time and the node as it is then. Whether the quorum was reachable, and the
-- node; none while it waits.
unfoldable pub wait_quorum :
    (Node → Configuration) → ℕ → ℕ → Node → List (ℕ × Node) → Option (Bool × Node)
unfolding reachable_quorum
wait_quorum cfg deadline now n [] =
    if reachable_quorum now n (cfg n)
    then some (true, n)
    else if ltb deadline now || not (is_leader n.role)
    then some (false, n)
    else none
wait_quorum cfg deadline now n ((now', n') ∷ later) =
    let rest = wait_quorum cfg deadline now' n' later in
    if reachable_quorum now n (cfg n)
    then some (true, n)
    else if ltb deadline now || not (is_leader n.role)
    then some (false, n)
    else rest

module _ (encode : Configuration → Option (List ℕ)) where
  -- proposeConfigLocked, with the channel of the waiter: the entry, and the node
  unfoldable pub propose_config : Node → Configuration → ℕ → ChangeResult LogEntry × Node
  propose_config n next channel = elim (encode next) [
    | none ↦ (refused err_encode, n)
    | some cmd ↦
        if ltb max_config_bytes (length cmd)
        then (refused err_config_too_large, n)
        else (let (e, n') = append_entry n entry_config cmd channel in
            let r = enqueue n'.store (e ∷ []) in
            if is_none r.0
            then (
              changed e,
              kick_replicators_on_append
                  (kick_syncer (set_config (record n' { store = r.1 }) next e.index)),
            )
            else (
              refused err_persist,
              record n' {
                entries = take (length n.entries) n'.entries;
                store = r.1;
                waiters = filter_if (λ (w : CommitWaiter). not (w.index == e.index)) n'.waiters;
              },
            ))
  ]

  -- The first part of AddMember, under the lock: its end, or none where it goes on to wait for a quorum;
  -- `changed none` is a learner that waits for its promotion.
  unfoldable pub begin_add : Node → String → String → Option (ChangeResult (Option LogEntry))
  begin_add n id addr =
      let cur = addr_of n.config.addrs id in
      if str_eq id "" then some (refused err_empty_id) else elim (begin_change n) [
        | some e ↦ some (refused e)
        | none ↦
            if contains n.config id
            then some (refused err_member_exists)
            else if is_learner n.config id
            then (if not (str_eq addr "") && not (str_eq cur "") && not (str_eq cur addr)
                then some (refused err_member_exists)
                else some (changed none))
            else none
      ]

  -- The last part, on the node as it is after the wait, up to the wait for the commit.
  unfoldable pub finish_add :
      Node → String → String → List (String × String) → ℕ → ChangeResult (Option LogEntry) × Node
  finish_add n id addr known channel =
      let p = propose_config n (with_learner n.config id addr known) channel in
      elim (begin_change n) [
        | some e ↦ (refused e, n)
        | none ↦ (elim p.0 [ refused e ↦ refused e | changed e ↦ changed (some e) ], p.1)
      ]

  -- AddMember from the time `now`, with the node as it is at the turns of the wait; none while it waits.
  unfoldable pub add_member :
      ℕ
      → Node
      → String
      → String
      → List (String × String)
      → ℕ
      → List (ℕ × Node)
      → Option (ChangeResult (Option LogEntry) × Node)
  add_member now n id addr known channel later = elim (begin_add n id addr) [
    | some r ↦ some (r, n)
    | none ↦ elim (wait_quorum (λ (m : Node). m.config) (now + leader_contact_grace) now n later) [
      | none ↦ none
      | some (ok, m) ↦
          some (if ok then finish_add m id addr known channel else (refused err_no_quorum, m))
    ]
  ]

  -- The parts of RemoveMember; only the removal of a voter waits.
  unfoldable pub begin_remove : Node → String → Option ChangeError
  begin_remove n id = elim (begin_change n) [
    | some e ↦ some e
    | none ↦
        if not (is_member n.config id)
        then some err_member_not_found
        else if contains n.config id && length n.config.servers == 1
        then some err_last_voter
        else none
  ]

  unfoldable pub finish_remove : Node → String → ℕ → ChangeResult LogEntry × Node
  finish_remove n id channel =
      let p = propose_config n (without_member n.config id) channel in
      elim (begin_change n) [
        | some e ↦ (refused e, n)
        | none ↦ if not (is_member n.config id) then (refused err_member_not_found, n) else p
      ]

  unfoldable pub remove_member :
      ℕ → Node → String → ℕ → List (ℕ × Node) → Option (ChangeResult LogEntry × Node)
  remove_member now n id channel later = elim (begin_remove n id) [
    | some e ↦ some (refused e, n)
    | none ↦ elim (contains n.config id) [
      | false ↦ some (finish_remove n id channel)
      | true ↦
          elim (wait_quorum (λ (m : Node). without_member m.config id) (now + leader_contact_grace)
            now n later) [
              | none ↦ none
              | some (ok, m) ↦
                  some (if ok then finish_remove m id channel else (refused err_no_quorum, m))
            ]
    ]
  ]

  -- A fresh round of a learner, from the leader's tail at the time `now`.
  abbrev pub new_round : ℕ → Node → String → LearnerRound
  new_round now n id = record { learner = id; target = last_log_index n; start = now }

  abbrev find_round : List LearnerRound → String → Option LearnerRound
  find_round [] id = none
  find_round (r ∷ rs) id = if str_eq r.learner id then some r else find_round rs id

  abbrev put_round : LearnerRound → List LearnerRound → List LearnerRound
  put_round r rs = filter_if (λ (x : LearnerRound). not (str_eq x.learner r.learner)) rs ++ r ∷ []

  abbrev drop_round : String → Node → Node
  drop_round id n = record n {
    learner_rounds = filter_if (λ (x : LearnerRound). not (str_eq x.learner id)) n.learner_rounds;
  }

  -- The loop of `maybePromoteLearnersLocked` over the learners; it ends at the first promotion.
  unfoldable pub promote_first : ℕ → Node → List String → ℕ → Node
  promote_first now n [] channel = n
  promote_first now n (id ∷ ids) channel =
      let skip = promote_first now n ids channel in
      let fresh =
        promote_first now
          (record n { learner_rounds = put_round (new_round now n id) n.learner_rounds }) ids
          channel in
      let p = propose_config n (promoted n.config id) channel in
      if str_eq id n.id then skip else elim (find_round n.learner_rounds id) [
        | none ↦ fresh
        | some r ↦
            if ltb (n.match_index id) r.target
            then skip
            else if ltb promote_round_max (now - r.start)
                || not (reachable_quorum now n (promoted n.config id))
            then fresh
            else elim p.0 [ refused e ↦ p.1 | changed e ↦ drop_round id p.1 ]
      ]

  -- maybePromoteLearnersLocked
  unfoldable pub maybe_promote_learners : ℕ → Node → ℕ → Node
  maybe_promote_learners now n channel =
      let pruned : Node = record n {
        learner_rounds =
            filter_if (λ (x : LearnerRound). is_learner n.config x.learner) n.learner_rounds;
      } in
      if not (is_leader n.role) then n else elim n.config.learners [
        | [] ↦ record n { learner_rounds = [] }
        | id ∷ ids ↦
            if ltb n.commit_index n.config_index
            then pruned
            else promote_first now pruned (id ∷ ids) channel
      ]
