-- ===== src/Raft/Advance.antt =====
-- raft.go `maybeAdvanceCommit` finds the last index that a quorum holds in the current term.
use veltrix_db.Base.{
  ℕ, zero, suc, ◌≤◌, ◌<◌, ◌≡◌, ◌⊎◌, inl, inr, refl, true, false, none, some, arith, Option-cases,
  ℕ_discrete, dec_lt, sym, ◌∙◌,
}
use mathlib.Core.Bool.{false≢true}
use veltrix_db.Raft.Config.{quorum_size}
use veltrix_db.Raft.Log.{Node, last_log_index, log_term}
use veltrix_db.Raft.Commit.{copies, committable, commit_scan, maybe_advance_commit}

-- The entry at `i` is of the current term, and a quorum holds it.
pub record HasQuorum (n : Node) (i : ℕ) : Type 0 where
  pub in_term : log_term n i ≡ n.current_term
  pub held : quorum_size n.config ≤ copies n i

committable_sound : (n : Node) (i : ℕ) → committable n i ≡ true → HasQuorum n i
committable_sound n i h = ground arith

committable_complete : (n : Node) (i : ℕ) → HasQuorum n i → committable n i ≡ true
committable_complete n i h = ground arith

none_above :
    (n : Node) (k c : ℕ)
    → (c < k → k ≤ last_log_index n → committable n k ≡ false)
    → (k ≤ c) ⊎ ((last_log_index n < k) ⊎ (¬ HasQuorum n k))
none_above n k c h = elim (dec_lt c k) [
  | no ge ↦ inl (omega arith)
  | yes lt ↦ elim (dec_lt (last_log_index n) k) [
    | yes past ↦ inr (inl past)
    | no le ↦ inr (inr (λ q. false≢true (sym (h lt (omega arith)) ∙ committable_complete n k q)))
  ]
]

scan_found :
    (n : Node) (i j : ℕ)
    → commit_scan n i ≡ some j
    → (n.commit_index < j) × (j ≤ i) × (committable n j ≡ true)
unfolding commit_scan
scan_found n zero j h = cc
scan_found n (suc i) j h = ground (arith, scan_found n i j)

scan_last :
    (n : Node) (i j k : ℕ) → commit_scan n i ≡ some j → j < k → k ≤ i → committable n k ≡ false
unfolding commit_scan
scan_last n zero j k h lt le = cc
scan_last n (suc i) j k h lt le = elim (ℕ_discrete k (suc i)) [
  | yes e ↦ rw e (ground (arith, scan_found n i j))
  | no ne ↦ ground (arith, scan_last n i j k)
]

scan_none :
    (n : Node) (i k : ℕ)
    → commit_scan n i ≡ none
    → n.commit_index < k
    → k ≤ i
    → committable n k ≡ false
unfolding commit_scan
scan_none n zero k h lt le = absurd (omega arith)
scan_none n (suc i) k h lt le = elim (ℕ_discrete k (suc i)) [
  | yes e ↦ rw e (ground arith)
  | no ne ↦ ground (arith, scan_none n i k)
]

-- The commit index of a leader stays, or moves up to an index of its log that holds an entry of its own
-- term and that a quorum of voters has, its own copy counted once it is durable. No index `k` of the
-- log above the new commit index is such.
pub maybe_advance_commit-HasQuorum :
    (n : Node) (k : ℕ)
    → let c = (maybe_advance_commit n).commit_index in
      ((c ≡ n.commit_index) ⊎ ((n.commit_index < c) × (c ≤ last_log_index n) × HasQuorum n c))
      × ((k ≤ c) ⊎ ((last_log_index n < k) ⊎ (¬ HasQuorum n k)))
unfolding maybe_advance_commit
maybe_advance_commit-HasQuorum n k = elim (Option-cases (commit_scan n (last_log_index n))) [
  | inl e ↦
      rw (e, maybe_advance_commit)
        (
          inl refl,
          none_above n k n.commit_index (λ lt le. scan_none n (last_log_index n) k e lt le),
        )
  | inr (j, e) ↦
      let (above, below, test) = scan_found n (last_log_index n) j e in
      rw (e, maybe_advance_commit)
        (
          inr (above, below, committable_sound n j test),
          none_above n k j (λ lt le. scan_last n (last_log_index n) j k e lt le),
        )
]
