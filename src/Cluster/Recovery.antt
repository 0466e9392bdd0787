-- ===== src/Cluster/Recovery.antt =====
-- cluster/failure_detection.go: the recovery worker. A probe is a parameter, the answer of `ping`.
use veltrix_db.Base.{
  ℕ, ◌+◌, Bool, true, false, not, ◌&&◌, ◌||◌, none, some, List, [], ◌∷◌, ltb, ◌==◌, if◌then◌else◌,
  length, filter_if,
}
use veltrix_db.Cluster.Types.{active, recovering, Member}
use veltrix_db.Cluster.Placement.{done, fails, find_member, is_active, rebalance}
use veltrix_db.Cluster.Membership.{same_state}
use veltrix_db.Cluster.Detector.{
  Detector, set_state, number_of, put_number, drop_number, last_beat, offer,
}

-- triggerRebalance
unfoldable pub trigger_rebalance : ℕ → Detector → Detector
trigger_rebalance now fd =
    let pm = fd.partition_map in
    if ltb 0 (length (filter_if (λ (n : Member). is_active n.state) pm.nodes))
    then elim (rebalance now pm.configured_partitions pm) [
      | fails e ↦ fd
      | done pm' ↦ record fd { partition_map = pm' }
    ]
    else fd

-- attemptNodeRecovery
unfoldable pub attempt_node_recovery : (List ℕ → ℕ → Bool) → ℕ → List ℕ → Detector → Bool × Detector
unfolding set_state find_member trigger_rebalance
attempt_node_recovery ping now id fd = elim (find_member fd.partition_map.nodes id) [
  | none ↦ (false, fd)
  | some n ↦
      if ping n.address n.port
      then (true, trigger_rebalance now (set_state now id recovering fd))
      else (false, fd)
]

-- The worker's turn for the id it has taken from the queue.
unfoldable pub recover_id : (List ℕ → ℕ → Bool) → ℕ → List ℕ → Detector → Detector
unfolding attempt_node_recovery
recover_id ping now id fd =
    let retries = number_of id fd.recovery_retries in
    let forget =
      λ (d : Detector). record d { recovery_retries = drop_number id d.recovery_retries } in
    if not (ltb retries fd.config.max_recovery_retries)
    then forget fd
    else let (ok, fd') = attempt_node_recovery ping now id fd in
      if ok then forget fd' else record fd' {
        recovery_retries = put_number id (retries + 1) fd'.recovery_retries;
        recovery_queue = offer id fd'.recovery_queue;
      }

-- The worker's turn for what waits in the queue.
unfoldable pub recover_from : (List ℕ → ℕ → Bool) → ℕ → List (List ℕ) → Detector → Detector
unfolding recover_id
recover_from ping now [] fd = fd
recover_from ping now (id ∷ ids) fd = recover_id ping now id (record fd { recovery_queue = ids })

unfoldable pub recover_next : (List ℕ → ℕ → Bool) → ℕ → Detector → Detector
unfolding recover_from
recover_next ping now fd = recover_from ping now fd.recovery_queue fd

-- the confirmations a node needs
abbrev pub confirmations : Detector → ℕ
confirmations fd =
    if fd.config.recovery_confirmations == 0 then 2 else fd.config.recovery_confirmations

-- The first part of a target's turn, under the detector's lock: whether it has been confirmed.
unfoldable pub confirm : Bool → ℕ → Member → Detector → Bool × Detector
confirm ok now t fd =
    let count = number_of t.id fd.recovery_ok + 1 in
    let forgot = record fd { recovery_ok = drop_number t.id fd.recovery_ok } in
    let counted = record fd { recovery_ok = put_number t.id count fd.recovery_ok } in
    let fresh = ltb now (last_beat fd t + fd.config.suspect_threshold) in
    if not ok
    then (false, forgot)
    else if ltb count (confirmations fd) || not fresh
    then (false, counted)
    else (true, forgot)

-- The second part, under the lock of the map for reading: the state is looked at again, since the node may
-- have failed in between.
unfoldable pub is_recovering : List ℕ → Detector → Bool
unfolding find_member same_state
is_recovering id fd = elim (find_member fd.partition_map.nodes id) [
  | none ↦ false
  | some n ↦ same_state n.state recovering
]

-- The third part, after that lock is let go: the node is active, if it is still there, whatever its state
-- has become.
unfoldable pub activate : ℕ → List ℕ → Detector → Bool × Detector
unfolding set_state find_member
activate now id fd = elim (find_member fd.partition_map.nodes id) [
  | none ↦ (false, fd)
  | some n ↦ (true, set_state now id active fd)
]

-- A target's turn when nothing comes between its three parts.
unfoldable pub promote_target : (List ℕ → ℕ → Bool) → ℕ → Member → Bool × Detector → Bool × Detector
unfolding confirm is_recovering activate
promote_target ping now t (promoted, fd) =
    let (ready, fd') = confirm (ping t.address t.port) now t fd in
    let (moved, fd'') = activate now t.id fd' in
    if ready && is_recovering t.id fd' then (promoted || moved, fd'') else (promoted, fd')

unfoldable pub promote_targets :
    (List ℕ → ℕ → Bool) → ℕ → List Member → Bool × Detector → Bool × Detector
unfolding promote_target
promote_targets ping now [] s = s
promote_targets ping now (t ∷ ts) s = promote_targets ping now ts (promote_target ping now t s)

-- promoteRecoveredNodes
unfoldable pub promote_recovered_nodes : (List ℕ → ℕ → Bool) → ℕ → Detector → Detector
unfolding promote_targets trigger_rebalance same_state
promote_recovered_nodes ping now fd =
    let targets =
      filter_if (λ (n : Member). same_state n.state recovering) fd.partition_map.nodes in
    let (promoted, fd') = promote_targets ping now targets (false, fd) in
    if length targets == 0
    then record fd { recovery_ok = [] }
    else if promoted
    then trigger_rebalance now fd'
    else fd'
