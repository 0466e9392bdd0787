-- ===== src/Raft/AppliedRuns.antt =====
-- raft.go `applyOneRun`, `applyCommitted`: the applier reaches the commit index, and the state machine
-- holds what the log makes of the state of the snapshot.
use veltrix_db.Base.{
  ℕ, zero, suc, ◌+◌, ◌-◌, ◌≤◌, ◌<◌, ◌≡◌, ◌⊎◌, inl, inr, refl, sym, ap, subst, ◌∙◌, Bool, true, ◌&&◌,
  Option, none, some, List, [], ◌∷◌, arith, length, take, drop, get_elem?, add64, add64-eq-add,
  Bool-cases, length-take, length-drop,
}
use veltrix_db.Raft.Types.{LogEntry}
use veltrix_db.Raft.Log.{Node, entry_at, last_log_index, last_index_over}
use veltrix_db.Raft.Contiguous.{
  IsContiguous, IsLog, take-IsContiguous, last_log_index_lem, last_index_over_lem, find_entry_lem,
}
use veltrix_db.Raft.Applier.{
  StateMachine, Applier, AppliedIndexState, gather, apply_entries, record_last, apply_run,
}
use veltrix_db.Raft.Applies.{apply_all, BatchIsFold, finish_all-Finished, apply_entries-Run}

drop-cons :
    {A : Type 0} (i : ℕ) (xs : List A)
    → i < length xs
    → (x : A) × (get_elem? xs i ≡ some x) × (drop i xs ≡ x ∷ drop (suc i) xs)
drop-cons i [] h = elim h [ ]
drop-cons zero (x ∷ xs) h = (x, refl, refl)
drop-cons (suc i) (x ∷ xs) h = drop-cons i xs (omega arith)

drop-IsContiguous :
    (k h : ℕ) (es : List LogEntry)
    → k ≤ length es
    → IsContiguous h es
    → IsContiguous (h + k) (drop k es)
drop-IsContiguous zero h es l c = rw (add_zero h) c
  where
    add_zero : (a : ℕ) → a + 0 ≡ a
    add_zero a = omega arith
drop-IsContiguous (suc k) h [] l c = tt
drop-IsContiguous (suc k) h (e ∷ es) l c =
    rw (shift h k) (drop-IsContiguous k (h + 1) es (omega arith) c.1)
  where
    shift : (a b : ℕ) → a + suc b ≡ a + 1 + b
    shift a b = omega arith

gather-cons :
    (n : Node) (k idx : ℕ) (e : LogEntry)
    → entry_at n idx ≡ some e
    → gather n (suc k) idx ≡ e ∷ gather n k (add64 idx 1)
unfolding gather
gather-cons n k idx e q = ground (arith, q)

-- The committed entries of a log are all found.
gather-take :
    (n : Node) (w : IsLog n) (k i : ℕ)
    → i + k ≤ length n.entries
    → gather n k (n.last_included_index + 1 + i) ≡ take k (drop i n.entries)
unfolding gather entry_at
gather-take n w zero i h = refl
gather-take n w (suc k) i h =
    let (e, at, from) = drop-cons i n.entries (omega arith) in
    let found : entry_at n (n.last_included_index + 1 + i) ≡ some e =
      find_entry_lem n.last_included_index n.entries (last_log_index n) i w.contiguous
        (last_log_index_lem n w) (omega arith)
      ∙ at in
    let step : add64 (n.last_included_index + 1 + i) 1 ≡ n.last_included_index + 1 + suc i =
      add64-eq-add (n.last_included_index + 1 + i) 1 (omega (arith, w.fits)) ∙ omega arith in
    rw from (
      gather-cons n k (n.last_included_index + 1 + i) e found
      ∙ ap (λ l. e ∷ l) (rw step (gather-take n w k (suc i) (omega arith))))

abbrev pub recorded_index : Option AppliedIndexState → ℕ
recorded_index none = 0
recorded_index (some r) = r.index

-- The entries that are committed and not applied.
abbrev pub pending : Node → List LogEntry
pending n =
    take (n.commit_index - n.last_applied) (drop (n.last_applied - n.last_included_index) n.entries)

-- The node has applied no less than its snapshot and no more than it has committed, in its log.
pub record IsBehind (n : Node) : Type 0 where
  pub log : IsLog n
  pub started : n.last_included_index ≤ n.last_applied
  pub committed : n.last_applied ≤ n.commit_index
  pub present : n.commit_index ≤ n.last_included_index + length n.entries

module _ (n : Node) (w : IsBehind n) where
  pub start-at : add64 n.last_applied 1 ≡ n.last_applied + 1
  start-at = add64-eq-add n.last_applied 1 (omega (arith, w.log.fits, w.committed, w.present))

  pub gather-pending :
      n.last_applied < n.commit_index
      → gather n (n.commit_index - add64 n.last_applied 1 + 1) (add64 n.last_applied 1) ≡ pending n
  gather-pending h =
      let i = n.last_applied - n.last_included_index in
      let k = n.commit_index - n.last_applied in
      let count : n.commit_index - add64 n.last_applied 1 + 1 ≡ k = omega (arith, start-at) in
      let at : add64 n.last_applied 1 ≡ n.last_included_index + 1 + i =
        omega (arith, start-at, w.started) in
      rw (count, at) (gather-take n w.log k i (omega (arith, w.started, w.committed, w.present)))

  length-pending : length (pending n) ≡ n.commit_index - n.last_applied
  length-pending = omega (
    arith,
    length-take (n.commit_index - n.last_applied)
        (drop (n.last_applied - n.last_included_index) n.entries),
    length-drop (n.last_applied - n.last_included_index) n.entries,
    w.started,
    w.committed,
    w.present,
  )

  pending-IsContiguous : IsContiguous n.last_applied (pending n)
  pending-IsContiguous =
      let i = n.last_applied - n.last_included_index in
      let at : n.last_included_index + i ≡ n.last_applied = omega (arith, w.started) in
      take-IsContiguous (n.commit_index - n.last_applied) n.last_applied (drop i n.entries) (
        subst (λ h. IsContiguous h (drop i n.entries)) at
          (drop-IsContiguous i n.last_included_index n.entries
            (omega (arith, w.started, w.committed, w.present)) w.log.contiguous))

module _ {S : Type 0} (sm : StateMachine S) (fold : BatchIsFold sm) where
  record_last_keeps :
      (ok : Bool) (a : Applier S) (e : LogEntry) (es : List LogEntry)
      → ((record_last sm ok a e es).node ≡ a.node)
        × ((record_last sm ok a e es).machine ≡ a.machine)
  unfolding record_last
  record_last_keeps ok a e [] = ground arith
  record_last_keeps ok a e (x ∷ es) = record_last_keeps ok a x es

  -- What is recorded is the last entry of the run, or what was recorded before.
  record_last_recorded :
      (ok : Bool) (a : Applier S) (e : LogEntry) (es : List LogEntry)
      → ((record_last sm ok a e es).recorded ≡ a.recorded)
        ⊎ (recorded_index (record_last sm ok a e es).recorded ≡ last_index_over e.index es)
  unfolding record_last last_index_over
  record_last_recorded ok a e [] = elim (Bool-cases (sm.records_applied && ok)) [
    | inl q ↦ inr (ground (arith, q))
    | inr q ↦ inl (ground (arith, q))
  ]
  record_last_recorded ok a e (x ∷ es) = record_last_recorded ok a x es

  -- What a run does to the node and to the state machine.
  pub record Ran (a : Applier S) (b : Applier S) : Type 0 where
    pub caught_up : b.node.last_applied ≡ a.node.commit_index
    pub machine : b.machine ≡ apply_all sm a.machine (pending a.node)
    pub entries : b.node.entries ≡ a.node.entries
    pub head : b.node.last_included_index ≡ a.node.last_included_index
    pub commit : b.node.commit_index ≡ a.node.commit_index
    pub recorded : (b.recorded ≡ a.recorded) ⊎ (recorded_index b.recorded ≡ a.node.commit_index)

  pub apply_run-Ran :
      (ok : Bool) (a : Applier S) (es : List LogEntry)
      → IsBehind a.node
      → es ≡ pending a.node
      → a.node.last_applied < a.node.commit_index
      → ((apply_run sm ok a es).0 ≡ true) × Ran a (apply_run sm ok a es).1
  unfolding apply_run last_index_over
  apply_run-Ran ok a [] w q h = absurd (omega (arith, ap length q, length-pending a.node w))
  apply_run-Ran ok a (e ∷ es) w q h =
      let r = apply_entries-Run sm fold (length (e ∷ es)) a (e ∷ es) (omega arith) in
      let b = apply_entries sm (length (e ∷ es)) a (e ∷ es) in
      let k = record_last_keeps ok b e es in
      let f =
        finish_all-Finished a.node (e ∷ es) (
          subst (λ l. IsContiguous a.node.last_applied l) (sym q)
            (pending-IsContiguous a.node w)) in
      let node = k.0 ∙ r.node in
      let c =
        subst (λ l. IsContiguous a.node.last_applied l) (sym q) (pending-IsContiguous a.node w) in
      let last : last_index_over e.index es ≡ a.node.commit_index = omega (
        arith,
        last_index_over_lem a.node.last_applied (e ∷ es) c,
        ap length q,
        length-pending a.node w,
        w.committed,
      ) in
      (
        refl,
        record {
          caught_up =
              ap (λ n. n.last_applied) node
              ∙ f.applied_to
              ∙ omega (arith, ap length q, length-pending a.node w, w.committed);
          machine = k.1 ∙ r.machine ∙ ap (apply_all sm a.machine) q;
          entries = ap (λ n. n.entries) node ∙ f.entries;
          head = ap (λ n. n.last_included_index) node ∙ f.head;
          commit = ap (λ n. n.commit_index) node ∙ f.commit;
          recorded = elim (record_last_recorded ok b e es) [
            | inl same ↦ inl (same ∙ r.recorded)
            | inr new ↦ inr (new ∙ last)
          ];
        },
      )
