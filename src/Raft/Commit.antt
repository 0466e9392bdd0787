-- ===== src/Raft/Commit.antt =====
-- consensus/raft.go and pipeline.go: the leader's appends, durability and the commit index.
use veltrix_db.Base.{
  ℕ, zero, suc, ◌+◌, ◌-◌, String, Bool, true, false, not, ◌&&◌, ◌||◌, Option, none, some, List, [],
  ◌∷◌, ◌++◌, map, ltb, leb, ◌==◌, if◌then◌else◌, length, take, count_if, filter_if, any_if, add64,
  str_eq,
}
use veltrix_db.Raft.Types.{
  EntryType, entry_normal, LogEntry, Configuration, PeerRepl, CommitWaiter, persist_failed,
  AppendEntriesReply,
}
use veltrix_db.Raft.Store.{store_closed, enqueue, flush, Replacement, rewrite}
use veltrix_db.Raft.Config.{quorum_size}
use veltrix_db.Raft.Log.{Node, last_log_index, last_log_term, log_first_index, log_term}
use veltrix_db.Raft.Role.{is_leader, is_none, kick_syncer, notify_applier}
use veltrix_db.Raft.Effective.{refresh_config_from_log}
use veltrix_db.Raft.Append.{take_decided_waiters}

-- A server of the configuration counts for an index: the leader itself once its copy is durable, a
-- follower once it is known to match.
abbrev pub counts_for : Node → ℕ → String → Bool
counts_for n i s = if str_eq s n.id then leb i n.durable_index else leb i (n.match_index s)

-- The copies that count for an index.
abbrev pub copies : Node → ℕ → ℕ
copies n i = count_if (counts_for n i) n.config.servers

-- The index can be committed: an entry of the current term that a quorum holds.
abbrev pub committable : Node → ℕ → Bool
committable n i = log_term n i == n.current_term && leb (quorum_size n.config) (copies n i)

-- The loop of `maybeAdvanceCommit`, from an index down to the commit index.
unfoldable pub commit_scan : Node → ℕ → Option ℕ
commit_scan n zero = none
commit_scan n (suc i) =
    let rest = commit_scan n i in
    if leb (suc i) n.commit_index
    then none
    else if committable n (suc i)
    then some (suc i)
    else rest

-- maybeAdvanceCommit
unfoldable pub maybe_advance_commit : Node → Node
maybe_advance_commit n = elim (commit_scan n (last_log_index n)) [
  | none ↦ n
  | some i ↦ notify_applier (record n { commit_index = i })
]

-- markDurableLocked
unfoldable pub mark_durable : Node → ℕ → ℕ → Node
mark_durable n idx term =
    if leb idx n.durable_index || not (log_term n idx == term)
    then n
    else (let n' : Node = record n { durable_index = idx } in
        if is_leader n.role then maybe_advance_commit n' else n')

-- rewriteLogLocked with the outcome of the replacement of the file
unfoldable pub rewrite_log : Replacement → Node → Node
rewrite_log how n =
    let r = rewrite how n.store n.entries in
    let last = last_log_index n in
    if is_none r.0
    then (let n' : Node = record n { store = r.1; durable_index = last } in
        kick_syncer (if is_leader n.role then maybe_advance_commit n' else n'))
    else kick_syncer (record n {
      store = r.1;
      durable_index = if ltb last n.durable_index then last else n.durable_index;
    })

-- kickReplicatorsLocked
unfoldable pub kick_replicators : Node → Node
kick_replicators n = record n { repl = map (λ (r : PeerRepl). record r { kicked = true }) n.repl }

-- kickReplicatorsOnAppendLocked
abbrev pub kick_replicators_on_append : Node → Node
kick_replicators_on_append n = if n.pipeline then kick_replicators n else n

-- appendEntryLocked, with the channel on which the submitter waits
unfoldable pub append_entry : Node → EntryType → List ℕ → ℕ → LogEntry × Node
append_entry n typ command channel =
    let e : LogEntry = record {
      term = n.current_term;
      index = add64 (last_log_index n) 1;
      typ = typ;
      command = command;
    } in
    (
      e,
      record n {
        entries = n.entries ++ e ∷ [];
        waiters = n.waiters ++ record { index = e.index; channel = channel } ∷ [];
      },
    )

-- A command of `Submit` with its channel, and what the flusher tells the submitter.
pub record SubmitRequest : Type 0 where
  pub channel : ℕ
  pub command : List ℕ

pub data Ready : Type 0 where
  appended : ℕ → Ready
  refused_not_leader refused_persist : Ready

-- The loop of `flushBatch`: the entries that the batch becomes, and the node with them.
unfoldable pub append_batch : Node → List SubmitRequest → List LogEntry × Node
append_batch n [] = ([], n)
append_batch n (r ∷ rs) =
    let (e, n') = append_entry n entry_normal r.command r.channel in
    let (es, n'') = append_batch n' rs in (e ∷ es, n'')

-- flushBatch
unfoldable pub flush_batch : Node → List SubmitRequest → List Ready × Node
flush_batch n batch =
    if is_leader n.role
    then (let (es, n') = append_batch n batch in
        let r = enqueue n'.store es in
        if is_none r.0
        then (
          map (λ (e : LogEntry). appended e.index) es,
          kick_replicators_on_append (kick_syncer (record n' { store = r.1 })),
        )
        else (
          map (λ (e : LogEntry). refused_persist) es,
          record n' {
            entries = take (length n.entries) n'.entries;
            store = r.1;
            waiters =
                filter_if
                  (λ (w : CommitWaiter). not (any_if (λ (e : LogEntry). e.index == w.index) es))
                  n'.waiters;
          },
        ))
    else (map (λ (r : SubmitRequest). refused_not_leader) batch, n)

-- What a leader whose store failed tells the submitters above its durable index.
abbrev fail_undurable : Node → Node
fail_undurable n = record n {
  waiters = filter_if (λ (w : CommitWaiter). leb w.index n.durable_index) n.waiters;
  outbox =
      n.outbox
      ++ map (λ (w : CommitWaiter). (w.channel, persist_failed))
          (filter_if (λ (w : CommitWaiter). ltb n.durable_index w.index) n.waiters);
}

module _ (decode : List ℕ → Option Configuration) where
  -- onPersistFailureLocked
  unfoldable pub on_persist_failure : Node → Node
  on_persist_failure n =
      let n' : Node = record n { persist_failed = true } in
      if is_leader n.role
      then fail_undurable n'
      else if ltb n.durable_index (last_log_index n)
          && leb (log_first_index n) (n.durable_index + 1)
      then refresh_config_from_log decode
          (record n' { entries = take (n.durable_index + 1 - log_first_index n) n.entries })
      else n'

  -- syncOnce as one step: the tail that it captured, and the outcomes of the write and the fsync.
  -- Appends that come between the capture and the fsync are not modelled.
  unfoldable pub sync_once : Bool → Bool → Node → List (ℕ × AppendEntriesReply) × Node
  sync_once write_ok sync_ok n =
      let r = flush write_ok sync_ok n.store in
      let n' : Node = record n { sync_pending = false; store = r.1 } in
      take_decided_waiters (elim r.0 [
        | none ↦
            let m = mark_durable n' (last_log_index n) (last_log_term n) in
            if not m.pipeline && is_leader m.role then kick_replicators m else m
        | some store_closed ↦ n'
        | some _ ↦ on_persist_failure n'
      ])
