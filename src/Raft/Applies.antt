-- ===== src/Raft/Applies.antt =====
-- raft.go `applyOneRun`, `applyEntries`: each committed entry is applied once, in the order of the log.
use veltrix_db.Base.{
  ℕ, zero, suc, ◌+◌, ◌≤◌, ◌≡◌, refl, sym, ap, ◌∙◌, true, false, none, some, List, [], ◌∷◌, ◌++◌,
  map, arith, length, ◌⊎◌, inl, inr, not, ◌&&◌, ◌||◌, ◌==◌, leb, filter_if, Bool-cases,
  Option-cases,
}
use veltrix_db.Raft.Types.{LogEntry, CommitWaiter, applied}
use veltrix_db.Raft.Log.{Node}
use veltrix_db.Raft.Role.{is_leader, step_down, fail_waiters, sync_replicators}
use veltrix_db.Raft.Membership.{on_config_committed}
use veltrix_db.Raft.Contiguous.{IsContiguous}
use veltrix_db.Raft.Applier.{
  StateMachine, Applier, batchable, leading_batch, finish_applied, finish_all, apply_command,
  apply_single, apply_batch_run, apply_entries, is_config,
}

-- The state machine, entry by entry.
abbrev pub apply_all : {S : Type 0} → StateMachine S → S → List LogEntry → S
apply_all sm s [] = s
apply_all sm s (e ∷ es) = apply_all sm (apply_command sm s e) es

abbrev pub fold_commands : {S : Type 0} → StateMachine S → S → List (List ℕ) → S
fold_commands sm s [] = s
fold_commands sm s (c ∷ cs) = fold_commands sm (sm.apply s c) cs

-- What BatchStateMachine asks of ApplyBatch: the effect of one Apply after the other.
abbrev pub BatchIsFold : {S : Type 0} → StateMachine S → Type 0
BatchIsFold {S} sm =
    (batch : S → List (List ℕ) → S)
    → sm.apply_batch ≡ some batch
    → (s : S) (cs : List (List ℕ)) → batch s cs ≡ fold_commands sm s cs

-- What finishing an entry leaves as it was, and where it leaves the applied index.
pub record Finished (n m : Node) (last : ℕ) : Type 0 where
  pub applied_to : m.last_applied ≡ last
  pub entries : m.entries ≡ n.entries
  pub head : m.last_included_index ≡ n.last_included_index
  pub commit : m.commit_index ≡ n.commit_index

on_config_committed-Finished : (n : Node) → Finished n (on_config_committed n) n.last_applied
unfolding on_config_committed step_down sync_replicators fail_waiters
on_config_committed-Finished n = ground arith

finish_applied-Finished : (n : Node) (e : LogEntry) → Finished n (finish_applied n e) e.index
unfolding finish_applied
finish_applied-Finished n e = elim (Bool-cases (is_config e.typ)) [
  | inl c ↦
      let m : Node = record n {
        last_applied = e.index;
        leader_ready = n.leader_ready || is_leader n.role && leb n.term_start_index e.index;
        outbox =
            n.outbox
            ++ map (λ (w : CommitWaiter). (w.channel, applied))
                (filter_if (λ (w : CommitWaiter). w.index == e.index) n.waiters);
        waiters = filter_if (λ (w : CommitWaiter). not (w.index == e.index)) n.waiters;
      } in
      let f = on_config_committed-Finished m in
      rw c (record {
        applied_to = f.applied_to;
        entries = f.entries;
        head = f.head;
        commit = f.commit;
      })
  | inr c ↦ rw c (record { applied_to = refl; entries = refl; head = refl; commit = refl })
]

pub finish_all-Finished :
    (n : Node) (es : List LogEntry)
    → IsContiguous n.last_applied es
    → Finished n (finish_all n es) (n.last_applied + length es)
unfolding finish_all
finish_all-Finished n [] c = ground arith
finish_all-Finished n (e ∷ es) c =
    let f = finish_applied-Finished n e in
    let at : (finish_applied n e).last_applied ≡ n.last_applied + 1 = f.applied_to ∙ c.0 in
    let g = finish_all-Finished (finish_applied n e) es (rw at c.1) in
    record {
      applied_to = omega (arith, g.applied_to, at);
      entries = g.entries ∙ f.entries;
      head = g.head ∙ f.head;
      commit = g.commit ∙ f.commit;
    }

finish_all-append :
    (n : Node) (es fs : List LogEntry) → finish_all n (es ++ fs) ≡ finish_all (finish_all n es) fs
unfolding finish_all
finish_all-append n [] fs = refl
finish_all-append n (e ∷ es) fs = finish_all-append (finish_applied n e) es fs

leading_batch-append : (es : List LogEntry) → (leading_batch es).0 ++ (leading_batch es).1 ≡ es
unfolding leading_batch
leading_batch-append [] = refl
leading_batch-append (e ∷ es) = ground (arith, leading_batch-append es)

length-leading_batch : (es : List LogEntry) → length (leading_batch es).1 ≤ length es
unfolding leading_batch
length-leading_batch [] = omega arith
length-leading_batch (e ∷ es) = ground (arith, length-leading_batch es)

module _ {S : Type 0} (sm : StateMachine S) where
  pub apply_all-append :
      (s : S) (es fs : List LogEntry)
      → apply_all sm s (es ++ fs) ≡ apply_all sm (apply_all sm s es) fs
  apply_all-append s [] fs = refl
  apply_all-append s (e ∷ es) fs = apply_all-append (apply_command sm s e) es fs

  apply_command-batchable :
      (s : S) (e : LogEntry) → batchable e ≡ true → apply_command sm s e ≡ sm.apply s e.command
  unfolding apply_command
  apply_command-batchable s e b = rw b refl

  apply_all-leading_batch :
      (s : S) (es : List LogEntry)
      → fold_commands sm s (map (λ (e : LogEntry). e.command) (leading_batch es).0)
        ≡ apply_all sm s (leading_batch es).0
  unfolding leading_batch apply_command
  apply_all-leading_batch s [] = refl
  apply_all-leading_batch s (e ∷ es) = elim (Bool-cases (batchable e)) [
    | inl b ↦ rw b (
        apply_all-leading_batch (sm.apply s e.command) es
        ∙ ap (λ t. apply_all sm t (leading_batch es).0) (sym (apply_command-batchable s e b)))
    | inr b ↦ rw b refl
  ]

  -- What a run of entries comes to.
  pub record Run (a : Applier S) (es : List LogEntry) (b : Applier S) : Type 0 where
    pub machine : b.machine ≡ apply_all sm a.machine es
    pub node : b.node ≡ finish_all a.node es
    pub recorded : b.recorded ≡ a.recorded

  -- The rounds of the loop: a single entry, and a batch.
  apply_entries-single :
      (fuel : ℕ) (a : Applier S) (e : LogEntry) (es : List LogEntry)
      → (sm.apply_batch ≡ none) ⊎ (batchable e ≡ false)
      → apply_entries sm (suc fuel) a (e ∷ es) ≡ apply_entries sm fuel (apply_single sm a e) es
  unfolding apply_entries
  apply_entries-single fuel a e es h = ground (arith, h)

  apply_entries-batch :
      (fuel : ℕ) (a : Applier S) (e : LogEntry) (es : List LogEntry) (batch : S → List (List ℕ) → S)
      → sm.apply_batch ≡ some batch
      → batchable e ≡ true
      → apply_entries sm (suc fuel) a (e ∷ es)
        ≡ apply_entries sm fuel
            (apply_batch_run sm batch a (e ∷ (leading_batch es).0))
            (leading_batch es).1
  unfolding apply_entries
  apply_entries-batch fuel a e es batch q b = ground (arith, q, b)

  -- A run of entries, cut into batches or not, has the effect on the node and on the state machine of
  -- applying and finishing one entry after the other; provided that ApplyBatch has the effect of Apply for
  -- each command in turn, and that the rounds allowed are as many as the entries.
  pub apply_entries-Run :
      BatchIsFold sm
      → (fuel : ℕ) (a : Applier S) (es : List LogEntry) → length es ≤ fuel
      → Run a es (apply_entries sm fuel a es)
  unfolding apply_entries finish_all
  apply_entries-Run fold zero a [] h = record { machine = refl; node = refl; recorded = refl }
  apply_entries-Run fold (suc fuel) a [] h = record { machine = refl; node = refl; recorded = refl }
  apply_entries-Run fold zero a (e ∷ es) h = absurd (omega arith)
  apply_entries-Run fold (suc fuel) a (e ∷ es) h =
      let one = apply_entries-Run fold fuel (apply_single sm a e) es (omega arith) in
      elim (Option-cases sm.apply_batch) [
        | inl q ↦ single (apply_entries-single fuel a e es (inl q)) one
        | inr (batch, q) ↦ elim (Bool-cases (batchable e)) [
          | inr b ↦ single (apply_entries-single fuel a e es (inr b)) one
          | inl b ↦
              let a' = apply_batch_run sm batch a (e ∷ (leading_batch es).0) in
              let rest =
                apply_entries-Run fold fuel a' (leading_batch es).1
                  (omega (arith, length-leading_batch es)) in
              batched batch (fold batch q) b (apply_entries-batch fuel a e es batch q b) rest
        ]
      ]
    where
      single : {b c : Applier S} → b ≡ c → Run (apply_single sm a e) es c → Run a (e ∷ es) b
      single p r = record {
        machine = ap (λ x. x.machine) p ∙ r.machine;
        node = ap (λ x. x.node) p ∙ r.node;
        recorded = ap (λ x. x.recorded) p ∙ r.recorded;
      }

      batched :
          (batch : S → List (List ℕ) → S)
          → ((s : S) (cs : List (List ℕ)) → batch s cs ≡ fold_commands sm s cs)
          → batchable e ≡ true
          → {b c : Applier S} → b ≡ c
          → Run (apply_batch_run sm batch a (e ∷ (leading_batch es).0)) (leading_batch es).1 c
          → Run a (e ∷ es) b
      batched batch f t p r = record {
        machine =
            ap (λ x. x.machine) p
            ∙ r.machine
            ∙ ap (λ s. apply_all sm s (leading_batch es).1)
                (f a.machine (map (λ (x : LogEntry). x.command) (e ∷ (leading_batch es).0))
                  ∙ first t)
            ∙ sym (apply_all-append a.machine (e ∷ (leading_batch es).0) (leading_batch es).1)
            ∙ ap (λ l. apply_all sm a.machine (e ∷ l)) (leading_batch-append es);
        node =
            ap (λ x. x.node) p
            ∙ r.node
            ∙ sym (finish_all-append a.node (e ∷ (leading_batch es).0) (leading_batch es).1)
            ∙ ap (λ l. finish_all a.node (e ∷ l)) (leading_batch-append es);
        recorded = ap (λ x. x.recorded) p ∙ r.recorded;
      }
        where
          first :
              batchable e ≡ true
              → fold_commands sm a.machine
                  (map (λ (x : LogEntry). x.command) (e ∷ (leading_batch es).0))
                ≡ apply_all sm a.machine (e ∷ (leading_batch es).0)
          first t =
              apply_all-leading_batch (sm.apply a.machine e.command) es
              ∙ ap (λ s. apply_all sm s (leading_batch es).0)
                  (sym (apply_command-batchable a.machine e t))
