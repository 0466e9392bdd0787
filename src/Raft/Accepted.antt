-- ===== src/Raft/Accepted.antt =====
-- pipeline.go `appendEntriesLocked`: what an accepted request states of the log holds afterwards, and a
-- rejected one changes nothing.
use veltrix_db.Base.{
  ℕ, zero, suc, ◌+◌, ◌-◌, ◌≤◌, ◌<◌, ◌^◌, ◌≡◌, ◌⊎◌, inl, inr, refl, ap, ◌∙◌, Bool, true, false, not,
  ◌&&◌, Option, List, [], ◌∷◌, ◌++◌, arith, length, take, drop, ltb, ◌==◌, add64, add64-eq-add,
  Bool-cases,
}
use veltrix_db.Raft.Types.{LogEntry, Configuration, AppendEntriesArgs}
use veltrix_db.Raft.Log.{Node, last_log_index, log_term}
use veltrix_db.Raft.Append.{append_at, store_entries, advance_commit_to, answer_append}
use veltrix_db.Raft.Contiguous.{IsLog, terms, last_log_index_lem}
use veltrix_db.Raft.Merge.{Accepts, LogState, merge, agreeing, outcome, store_entries-outcome}
use veltrix_db.Raft.MergeLaws.{store_entries-merge, terms-merge}

drop_kept {ℓ} :
    {A : Type ℓ} (k : ℕ) (xs ys : List A) → k ≤ length xs → drop k (take k xs ++ ys) ≡ ys
drop_kept zero xs ys h = refl
drop_kept (suc k) [] ys h = absurd (omega arith)
drop_kept (suc k) (x ∷ xs) ys h = drop_kept k xs ys (omega arith)

take_kept {ℓ} :
    {A : Type ℓ} (k : ℕ) (xs ys : List A) → k ≤ length xs → take k (take k xs ++ ys) ≡ take k xs
take_kept zero xs ys h = refl
take_kept (suc k) [] ys h = absurd (omega arith)
take_kept (suc k) (x ∷ xs) ys h = rw (take_kept k xs ys (omega arith))

-- The log of `m` is that of `n` up to index `prev`, and has the terms of the entries after it.
pub record Holds (n m : Node) (prev : ℕ) (es : List LogEntry) : Type 0 where
  pub kept :
      take (prev - n.last_included_index) m.entries ≡ take (prev - n.last_included_index) n.entries
  pub stated : terms (take (length es) (drop (prev - n.last_included_index) m.entries)) ≡ terms es
  pub commits : n.commit_index ≤ m.commit_index

advance_entries : (n : Node) (c t : ℕ) → (advance_commit_to n c t).entries ≡ n.entries
unfolding advance_commit_to
advance_entries n c t = ground arith

advance_commit : (n : Node) (c t : ℕ) → n.commit_index ≤ (advance_commit_to n c t).commit_index
unfolding advance_commit_to
advance_commit n c t = ground arith

answer_success :
    (n : Node) (want : Bool) (es : List LogEntry) (t : ℕ)
    → (answer_append n want es t).0.success ≡ true
unfolding answer_append
answer_success n want es t = ground arith

outcome_commit : (n : Node) (k : ℕ) (es : List LogEntry) → (outcome n k es).commit ≡ n.commit_index
outcome_commit n k [] = refl
outcome_commit n k (e ∷ es) = refl

module _ (decode : List ℕ → Option Configuration) where
  stored-Holds :
      (n : Node) (prev : ℕ) (es : List LogEntry) (c t : ℕ)
      → IsLog n
      → Accepts n.store
      → n.last_included_index ≤ prev
      → prev ≤ last_log_index n
      → prev + 1 + length es < 2 ^ 64
      → ((store_entries decode n (add64 prev 1) es).0 ≡ true)
        × Holds n (advance_commit_to (store_entries decode n (add64 prev 1) es).1 c t) prev es
  stored-Holds n prev es c t w a lo hi b =
      let k = prev - n.last_included_index in
      let last = last_log_index_lem n w in
      let i : add64 prev 1 ≡ n.last_included_index + 1 + k =
        omega (arith, add64-eq-add prev 1 (omega arith)) in
      let fits : k ≤ length n.entries = omega arith in
      let out = store_entries-outcome decode n k es w a fits (omega arith) in
      let log = store_entries-merge decode n k es w a fits (omega arith) in
      let m = (store_entries decode n (n.last_included_index + 1 + k) es).1 in
      let entries = advance_entries m c t ∙ log in
      rw i (
        out.0,
        record {
          kept = rw entries (take_kept k n.entries (merge (drop k n.entries) es) fits);
          stated = rw entries (
              rw (drop_kept k n.entries (merge (drop k n.entries) es) fits)
                (terms-merge (drop k n.entries) es));
          commits = omega (
            arith,
            advance_commit m c t,
            ap (λ (x : LogState). x.commit) out.1,
            outcome_commit n (k + agreeing (drop k n.entries) es)
                (drop (agreeing (drop k n.entries) es) es),
          );
        },
      )

  -- On a well-formed log whose store takes entries, the check at `prev`, which is not below the end of
  -- the snapshot, either rejects a request and changes nothing, or `prev` is 0 or has the term of the
  -- request, the log keeps its entries up to there and has the terms of the entries after it, and the
  -- commit index does not move back; provided that no index reaches 2 ^ 64.
  pub append_at-Holds :
      (n : Node) (args : AppendEntriesArgs) (prev t : ℕ) (es : List LogEntry)
      → IsLog n
      → Accepts n.store
      → n.last_included_index ≤ prev
      → prev + 1 + length es < 2 ^ 64
      → let a = append_at decode n args prev t es in
        ((a.0.success ≡ false) × (a.2 ≡ n))
        ⊎ ((a.0.success ≡ true) × ((prev ≡ 0) ⊎ (log_term n prev ≡ t)) × Holds n a.2 prev es)
  unfolding append_at
  append_at-Holds n args prev t es w a lo b =
      elim (Bool-cases (ltb 0 prev && ltb (last_log_index n) prev)) [
        | inl short ↦ rw short (inl (refl, refl))
        | inr long ↦ elim (Bool-cases (ltb 0 prev && not (log_term n prev == t))) [
          | inl other ↦ rw (long, other) (inl (refl, refl))
          | inr same ↦
              let hi : prev ≤ last_log_index n = ground (arith, last_log_index_lem n w) in
              let (done, holds) =
                stored-Holds n prev es args.leader_commit (add64 prev (length es)) w a lo hi b in
              let n' =
                advance_commit_to (store_entries decode n (add64 prev 1) es).1 args.leader_commit
                  (add64 prev (length es)) in
              rw (long, same, done)
                (inr (
                  answer_success n' args.want_match es (add64 prev (length es)),
                  ground arith,
                  holds,
                ))
        ]
      ]
