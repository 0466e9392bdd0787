-- ===== src/Raft/AppliedOnce.antt =====
-- raft.go `applyOneRun` and `applyCommitted`: a pass ends, and no entry is skipped or applied twice.
use veltrix_db.Base.{
  ℕ, zero, suc, ◌+◌, ◌-◌, ◌≤◌, ◌<◌, ◌≡◌, ◌⊎◌, inl, inr, refl, sym, ap, ◌∙◌, Bool, true, false, some,
  List, [], ◌∷◌, ◌++◌, arith, length, take, drop, ltb, ltb→lt, add64, Bool-cases,
}
use veltrix_db.Raft.Applier.{StateMachine, Applier, gather, apply_one_run, apply_committed}
use veltrix_db.Raft.Applies.{apply_all, BatchIsFold, apply_all-append}
use veltrix_db.Raft.AppliedRuns.{
  recorded_index, pending, IsBehind, start-at, gather-pending, Ran, apply_run-Ran,
}

zero_add : (a : ℕ) → 0 + a ≡ a
zero_add a = omega arith

succ_add : (a b : ℕ) → suc a + b ≡ suc (a + b)
succ_add a b = omega arith

take-nil : {A : Type 0} (k : ℕ) → take {A = A} k [] ≡ []
take-nil zero = refl
take-nil (suc k) = refl

take-add : {A : Type 0} (j k : ℕ) (xs : List A) → take (j + k) xs ≡ take j xs ++ take k (drop j xs)
take-add zero k xs = rw (zero_add k) refl
take-add (suc j) k [] = rw (succ_add j k) (sym (take-nil k))
take-add (suc j) k (x ∷ xs) = rw (succ_add j k) (ap (λ l. x ∷ l) (take-add j k xs))

Ran-IsBehind :
    {S : Type 0} (sm : StateMachine S) (fold : BatchIsFold sm) {a b : Applier S}
    → IsBehind a.node
    → Ran sm fold a b
    → IsBehind b.node
Ran-IsBehind sm fold w r = record {
  log = record {
    contiguous = rw (r.head, r.entries) w.log.contiguous;
    fits = omega (arith, r.head, ap length r.entries, w.log.fits);
  };
  started = omega (arith, r.head, r.caught_up, w.started, w.committed);
  committed = omega (arith, r.caught_up, r.commit);
  present = omega (arith, r.head, r.commit, ap length r.entries, w.present);
}

-- The state machine, which started from the state `s0` of the snapshot, holds what the entries of the
-- log up to the applied index made of it, and it recorded no later index.
pub record IsApplied {S : Type 0} (sm : StateMachine S) (s0 : S) (a : Applier S) : Type 0 where
  pub behind : IsBehind a.node
  pub machine :
      a.machine
      ≡ apply_all sm s0 (take (a.node.last_applied - a.node.last_included_index) a.node.entries)
  pub recorded : recorded_index a.recorded ≤ a.node.last_applied

module _ {S : Type 0} (sm : StateMachine S) (fold : BatchIsFold sm) where
  -- A run, if there is something to apply.
  abbrev pub OneRun : Applier S → Bool × Applier S → Type 0
  OneRun a r =
      ((r.0 ≡ true) × (a.node.last_applied < a.node.commit_index) × Ran sm fold a r.1)
      ⊎ ((r.0 ≡ false) × (a.node.last_applied ≡ a.node.commit_index) × (r.1 ≡ a))

  pub apply_one_run-OneRun :
      (stored : Bool) (a : Applier S) → IsBehind a.node → OneRun a (apply_one_run sm stored a)
  unfolding apply_one_run
  apply_one_run-OneRun stored a w =
      let start = start-at a.node w in
      elim (Bool-cases (ltb a.node.commit_index (add64 a.node.last_applied 1))) [
        | inl done ↦
            let lt = ltb→lt a.node.commit_index (add64 a.node.last_applied 1) done in
            rw done (inr (refl, omega (arith, w.committed), refl))
        | inr more ↦
            let lt : a.node.last_applied < a.node.commit_index = ground (arith, start) in
            let r =
              apply_run-Ran sm fold stored a
                (gather a.node (a.node.commit_index - add64 a.node.last_applied 1 + 1)
                  (add64 a.node.last_applied 1))
                w (gather-pending a.node w lt) lt in
            rw more (inl (r.0, lt, r.1))
      ]

  IsApplied-Ran :
      (s0 : S) (a b : Applier S) → IsApplied sm s0 a → Ran sm fold a b → IsApplied sm s0 b
  IsApplied-Ran s0 a b w r =
      let i = a.node.last_applied - a.node.last_included_index in
      let k = a.node.commit_index - a.node.last_applied in
      let to : b.node.last_applied - b.node.last_included_index ≡ i + k =
        omega (arith, r.caught_up, r.head, w.behind.started, w.behind.committed) in
      record {
        behind = Ran-IsBehind sm fold w.behind r;
        machine =
            r.machine
            ∙ ap (λ s. apply_all sm s (pending a.node)) w.machine
            ∙ sym (apply_all-append sm s0 (take i a.node.entries) (pending a.node))
            ∙ ap (apply_all sm s0) (sym (take-add i k a.node.entries))
            ∙ ap (λ j. apply_all sm s0 (take j a.node.entries)) (sym to)
            ∙ ap (λ l. apply_all sm s0 (take (b.node.last_applied - b.node.last_included_index) l))
                (sym r.entries);
        recorded = elim r.recorded [
          | inl same ↦
              omega (arith, ap recorded_index same, r.caught_up, w.recorded, w.behind.committed)
          | inr new ↦ omega (arith, new, r.caught_up)
        ];
      }

  -- A run of the applier keeps the invariant that the state machine holds what the entries of the log from
  -- the snapshot up to the applied index made of the snapshot's state, each applied once and in order,
  -- and recorded no later index; provided that ApplyBatch has the effect of Apply for each command in turn.
  pub apply_one_run-IsApplied :
      (stored : Bool) (s0 : S) (a : Applier S)
      → IsApplied sm s0 a
      → IsApplied sm s0 (apply_one_run sm stored a).1
  apply_one_run-IsApplied stored s0 a w = elim (apply_one_run-OneRun stored a w.behind) [
    | inl (_, _, r) ↦ IsApplied-Ran s0 a (apply_one_run sm stored a).1 w r
    | inr (_, _, same) ↦ rw same w
  ]

  idle_run :
      (stored : Bool) (a : Applier S)
      → IsBehind a.node
      → a.node.last_applied ≡ a.node.commit_index
      → ((apply_one_run sm stored a).0 ≡ false) × ((apply_one_run sm stored a).1 ≡ a)
  idle_run stored a w q = elim (apply_one_run-OneRun stored a w) [
    | inl (_, lt, _) ↦ absurd (omega (arith, lt, q))
    | inr (end, _, same) ↦ (end, same)
  ]

  last_round :
      (fuel : ℕ) (a : Applier S)
      → (apply_one_run sm true a).0 ≡ false
      → apply_committed sm (suc fuel) a ≡ some (apply_one_run sm true a).1
  unfolding apply_committed
  last_round fuel a q = ground (arith, q)

  next_round :
      (fuel : ℕ) (a : Applier S)
      → (apply_one_run sm true a).0 ≡ true
      → apply_committed sm (suc fuel) a ≡ apply_committed sm fuel (apply_one_run sm true a).1
  unfolding apply_committed
  next_round fuel a q = ground (arith, q)

  -- A pass of the applier, with no other event of the node in it, ends after two rounds at most, with the
  -- applied index at the commit index and the invariant kept; provided that ApplyBatch has the effect of
  -- Apply for each command in turn.
  pub apply_committed-CaughtUp :
      (fuel : ℕ) (s0 : S) (a : Applier S)
      → IsApplied sm s0 a
      → (b : Applier S) × (apply_committed sm (suc (suc fuel)) a ≡ some b)
        × IsApplied sm s0 b
        × (b.node.last_applied ≡ a.node.commit_index)
  apply_committed-CaughtUp fuel s0 a w = elim (apply_one_run-OneRun true a w.behind) [
    | inl (more, lt, r) ↦
        let b = (apply_one_run sm true a).1 in
        let w' = IsApplied-Ran s0 a b w r in
        let end = idle_run true b w'.behind (r.caught_up ∙ sym r.commit) in
        (b, next_round (suc fuel) a more ∙ last_round fuel b end.0 ∙ ap some end.1, w', r.caught_up)
    | inr (end, last, same) ↦ (a, last_round (suc fuel) a end ∙ ap some same, w, last)
  ]
