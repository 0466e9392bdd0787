-- ===== src/Raft/Applier.antt =====
-- consensus/raft.go and applied.go: the goroutine that applies committed entries to the state machine.
-- The state machine is an argument. Its errors are only logged, so its operations return the new state.
use veltrix_db.Base.{
  ℕ, zero, suc, ◌+◌, ◌-◌, Bool, true, false, not, ◌&&◌, ◌||◌, Option, none, some, List, [], ◌∷◌,
  ◌++◌, map, ltb, leb, ◌==◌, if◌then◌else◌, length, filter_if, add64,
}
use veltrix_db.Raft.Types.{
  EntryType, entry_normal, entry_config, entry_other, LogEntry, CommitWaiter, applied,
}
use veltrix_db.Raft.Log.{Node, entry_at, log_term}
use veltrix_db.Raft.Role.{is_leader}
use veltrix_db.Raft.Membership.{on_config_committed}

-- StateMachine with its optional extensions BatchStateMachine and AppliedIndexStateMachine
pub record StateMachine (S : Type 0) : Type 0 where
  pub apply : S → List ℕ → S
  pub apply_batch : Option (S → List (List ℕ) → S)
  pub records_applied : Bool

-- AppliedIndexState
pub record AppliedIndexState : Type 0 where
  pub index : ℕ
  pub term : ℕ
  pub restoring : Bool

-- What the applier works on: the node, the state machine, the state that it recorded last, and the
-- two statistics of batches.
pub record Applier (S : Type 0) : Type 0 where
  pub node : Node
  pub machine : S
  pub recorded : Option AppliedIndexState
  pub batch_apply_calls : ℕ
  pub max_apply_batch : ℕ

unfoldable pub is_normal : EntryType → Bool
is_normal entry_normal = true
is_normal entry_config = false
is_normal (entry_other k) = false

unfoldable pub is_config : EntryType → Bool
is_config entry_normal = false
is_config entry_config = true
is_config (entry_other k) = false

-- batchable
unfoldable pub batchable : LogEntry → Bool
unfolding is_normal
batchable e = is_normal e.typ && ltb 0 (length e.command)

-- finishApplied
unfoldable pub finish_applied : Node → LogEntry → Node
unfolding is_config
finish_applied n e =
    let waits = λ (w : CommitWaiter). w.index == e.index in
    let m : Node = record n {
      last_applied = e.index;
      leader_ready = n.leader_ready || is_leader n.role && leb n.term_start_index e.index;
      outbox =
          n.outbox ++ map (λ (w : CommitWaiter). (w.channel, applied)) (filter_if waits n.waiters);
      waiters = filter_if (λ w. not (waits w)) n.waiters;
    } in
    if is_config e.typ then on_config_committed m else m

unfoldable pub finish_all : Node → List LogEntry → Node
finish_all n [] = n
finish_all n (e ∷ es) = finish_all (finish_applied n e) es

-- The longest run of batchable entries at the front, and the entries after it.
unfoldable pub leading_batch : List LogEntry → List LogEntry × List LogEntry
unfolding batchable
leading_batch [] = ([], [])
leading_batch (e ∷ es) =
    let r = leading_batch es in if batchable e then (e ∷ r.0, r.1) else ([], e ∷ es)

-- The committed entries from an index on, as many as `k`, up to the first one that the log lacks.
unfoldable pub gather : Node → ℕ → ℕ → List LogEntry
gather n zero idx = []
gather n (suc k) idx = elim (entry_at n idx) [ none ↦ [] | some e ↦ e ∷ gather n k (add64 idx 1) ]

-- the command of an entry, as `applySingle` hands it to the state machine
unfoldable pub apply_command : {S : Type 0} → StateMachine S → S → LogEntry → S
unfolding batchable
apply_command sm s e = if batchable e then sm.apply s e.command else s

module _ {S : Type 0} (sm : StateMachine S) where
  -- applySingle
  unfoldable pub apply_single : Applier S → LogEntry → Applier S
  unfolding apply_command finish_applied
  apply_single a e = record a {
    machine = apply_command sm a.machine e;
    node = finish_applied a.node e;
  }

  -- applyBatchRun
  unfoldable pub apply_batch_run : (S → List (List ℕ) → S) → Applier S → List LogEntry → Applier S
  unfolding finish_all
  apply_batch_run batch a run = record a {
    machine = batch a.machine (map (λ (e : LogEntry). e.command) run);
    node = finish_all a.node run;
    batch_apply_calls =
        if ltb 1 (length run) then add64 a.batch_apply_calls 1 else a.batch_apply_calls;
    max_apply_batch = if ltb a.max_apply_batch (length run) then length run else a.max_apply_batch;
  }

  -- applyEntries, on fuel: one round for each batch or single entry
  unfoldable pub apply_entries : ℕ → Applier S → List LogEntry → Applier S
  unfolding batchable leading_batch apply_single apply_batch_run
  apply_entries fuel a [] = a
  apply_entries zero a (e ∷ es) = a
  apply_entries (suc fuel) a (e ∷ es) = elim sm.apply_batch [
    | none ↦ apply_entries fuel (apply_single a e) es
    | some batch ↦ elim (batchable e) [
      | false ↦ apply_entries fuel (apply_single a e) es
      | true ↦
          apply_entries fuel (apply_batch_run batch a (e ∷ (leading_batch es).0))
            (leading_batch es).1
    ]
  ]

  -- recordApplied, with the outcome of `SetAppliedIndex`; the last entry of the run is `e`
  unfoldable pub record_applied : Bool → Applier S → LogEntry → Applier S
  record_applied stored a e =
      if sm.records_applied && stored
      then record a {
        recorded = some (record { index = e.index; term = e.term; restoring = false });
      }
      else a

  unfoldable pub record_last : Bool → Applier S → LogEntry → List LogEntry → Applier S
  unfolding record_applied
  record_last stored a e [] = record_applied stored a e
  record_last stored a e (x ∷ es) = record_last stored a x es

  -- what `applyOneRun` does with the entries that it gathered
  unfoldable pub apply_run : Bool → Applier S → List LogEntry → Bool × Applier S
  unfolding apply_entries record_last
  apply_run stored a [] = (false, a)
  apply_run stored a (e ∷ es) =
      (true, record_last stored (apply_entries (length (e ∷ es)) a (e ∷ es)) e es)

  -- applyOneRun
  unfoldable pub apply_one_run : Bool → Applier S → Bool × Applier S
  unfolding gather apply_run
  apply_one_run stored a =
      let start = add64 a.node.last_applied 1 in
      if ltb a.node.commit_index start
      then (false, a)
      else apply_run stored a (gather a.node (a.node.commit_index - start + 1) start)

  -- applyCommitted, on fuel, with no other event of the node between two runs; none if it runs out
  unfoldable pub apply_committed : ℕ → Applier S → Option (Applier S)
  unfolding apply_one_run
  apply_committed zero a = none
  apply_committed (suc fuel) a =
      let r = apply_one_run true a in
      elim r.0 [ true ↦ apply_committed fuel r.1 | false ↦ some r.1 ]

-- trustApplied, of what the state machine recorded, none for nothing
unfoldable pub trust_applied : Node → Option AppliedIndexState → Bool
trust_applied n none = false
trust_applied n (some a) =
    not a.restoring && (log_term n a.index == 0 || log_term n a.index == a.term)
