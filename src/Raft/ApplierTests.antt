-- ===== src/Raft/ApplierTests.antt =====
-- Instances of the theorems on the applier and on linearizable reads.
use veltrix_db.Base.{
  if◌then◌else◌, str_eq, ℕ, ◌≡◌, refl, ap, true, false, Option, none, some, String, List, [], ◌∷◌,
  ◌++◌, sym, ◌∙◌, add64, arith,
}
use mathlib.Core.List.{append_assoc, append-nil}
use veltrix_db.Raft.Types.{AppendEntriesReply}
use veltrix_db.Raft.Log.{Node, log_term, entry_at, last_log_index, find_entry}
use veltrix_db.Raft.Membership.{on_config_committed}
use veltrix_db.Raft.Applier.{StateMachine, Applier, apply_entries, apply_one_run, apply_committed}
use veltrix_db.Raft.Applies.{fold_commands, BatchIsFold, Run, apply_entries-Run}
use veltrix_db.Raft.AppliedOnce.{IsApplied, apply_one_run-IsApplied, apply_committed-CaughtUp}
use veltrix_db.Raft.ReadIndex.{read_ok, read_err, read_timeout, read_index}
use veltrix_db.Raft.ReadFence.{Fenced, read_index-Fenced}
use veltrix_db.Raft.Samples.{entry, two_entries, a_leader}

-- A state machine that lists the commands it has applied, and takes a batch at once.
abbrev lister : StateMachine (List (List ℕ))
lister = record {
  apply = λ s c. s ++ c ∷ [];
  apply_batch = some (λ s cs. s ++ cs);
  records_applied = true;
}

append-fold_commands : (s cs : List (List ℕ)) → s ++ cs ≡ fold_commands lister s cs
append-fold_commands s [] = append-nil s
append-fold_commands s (c ∷ cs) =
    sym (append_assoc s (c ∷ []) cs) ∙ append-fold_commands (s ++ c ∷ []) cs

abbrev batch_or_apply :
    Option (List (List ℕ) → List (List ℕ) → List (List ℕ))
    → List (List ℕ)
    → List (List ℕ)
    → List (List ℕ)
batch_or_apply none s cs = fold_commands lister s cs
batch_or_apply (some batch) s cs = batch s cs

lister-BatchIsFold : BatchIsFold lister
lister-BatchIsFold batch q s cs =
    sym (ap (λ o. batch_or_apply o s cs) q) ∙ append-fold_commands s cs

-- Two commands and the entry of a new leader, all committed, none applied.
abbrev committed : Node
committed = record a_leader {
  entries = two_entries ++ record (entry 1 3) { command = [] } ∷ [];
  commit_index = 3;
  last_applied = 0;
}

abbrev at_start : Applier (List (List ℕ))
at_start = record {
  node = committed;
  machine = [];
  recorded = none;
  batch_apply_calls = 0;
  max_apply_batch = 0;
}

at_start-IsApplied : IsApplied lister [] at_start
at_start-IsApplied = record {
  behind = record {
    log = record { contiguous = omega arith; fits = omega arith };
    started = omega arith;
    committed = omega arith;
    present = omega arith;
  };
  machine = refl;
  recorded = omega arith;
}

apply_entries-Run_example :
    Run lister at_start committed.entries (apply_entries lister 3 at_start committed.entries)
apply_entries-Run_example =
    apply_entries-Run lister lister-BatchIsFold 3 at_start committed.entries (omega arith)

apply_one_run-IsApplied_example : IsApplied lister [] (apply_one_run lister true at_start).1
apply_one_run-IsApplied_example =
    apply_one_run-IsApplied lister lister-BatchIsFold true [] at_start at_start-IsApplied

apply_committed-CaughtUp_example :
    (b : Applier (List (List ℕ))) × (apply_committed lister 2 at_start ≡ some b)
    × IsApplied lister [] b
    × (b.node.last_applied ≡ 3)
apply_committed-CaughtUp_example =
    apply_committed-CaughtUp lister lister-BatchIsFold 0 [] at_start at_start-IsApplied

-- The two commands are one batch, and the state machine is told the last index.
one_batch :
    let a = (apply_one_run lister true at_start).1 in
    (a.machine ≡ (1 ∷ []) ∷ (2 ∷ []) ∷ []) × (a.batch_apply_calls ≡ 1) × (a.node.last_applied ≡ 3)
unfolding apply_one_run add64 entry_at last_log_index find_entry on_config_committed
one_batch = (refl, refl, refl)

-- A reply of one follower of two, and one that gave no reply.
abbrev ack : AppendEntriesReply
ack = record {
  term = 1;
  success = false;
  conflict_index = 0;
  conflict_term = 0;
  has_match = false;
  match_index = 0;
  caps = 0;
}

abbrev heard : String → Option AppendEntriesReply
heard p = if str_eq p "a" then some ack else none

heard_enough : (read_index heard ("a" ∷ "c" ∷ []) committed).0 ≡ read_ok 3
unfolding read_index log_term entry_at last_log_index
heard_enough = refl

read_index-Fenced_example :
    Fenced heard ("a" ∷ "c" ∷ []) committed 3 (read_index heard ("a" ∷ "c" ∷ []) committed).1
read_index-Fenced_example = read_index-Fenced heard ("a" ∷ "c" ∷ []) committed 3 refl heard_enough

-- One server of three is no quorum.
heard_none : (read_index heard [] committed).0 ≡ read_err read_timeout
unfolding read_index log_term entry_at last_log_index
heard_none = refl
