-- ===== src/Raft/MergeLaws.antt =====
-- Laws of `merge`, and the log that the loop of `appendEntriesLocked` leaves.
use veltrix_db.Base.{
  ℕ, zero, suc, ◌+◌, ◌≤◌, ◌<◌, ◌^◌, ◌≡◌, inl, inr, refl, sym, ap, ◌∙◌, true, Option, List, [], ◌∷◌,
  ◌++◌, arith, length, take, drop, take-append-drop, ◌==◌, Bool-cases, ==_iff,
}
use veltrix_db.Raft.Types.{LogEntry, Configuration}
use veltrix_db.Raft.Log.{Node}
use veltrix_db.Raft.Append.{store_entries}
use veltrix_db.Raft.Contiguous.{IsLog, terms}
use veltrix_db.Raft.Merge.{
  take_all, LogState, Accepts, merge, agreeing, outcome, store_entries-outcome,
}

-- The log of an outcome, over the entries that it began with.
abbrev written : List LogEntry → ℕ → List LogEntry → List LogEntry
written old j [] = old
written old j (e ∷ es) = take j old ++ e ∷ es

merge-written :
    (old es : List LogEntry)
    → merge old es ≡ written old (agreeing old es) (drop (agreeing old es) es)
unfolding merge agreeing
merge-written old [] = refl
merge-written [] (e ∷ es) = refl
merge-written (o ∷ os) (e ∷ es) = elim (Bool-cases (o.term == e.term)) [
  | inr q ↦ rw q
  | inl q ↦ rw q (
      ap (λ l. o ∷ l) (merge-written os es)
      ∙ cons_written (agreeing os es) (drop (agreeing os es) es))
]
  where
    cons_written :
        (j : ℕ) (new : List LogEntry) → o ∷ written os j new ≡ written (o ∷ os) (suc j) new
    cons_written j [] = refl
    cons_written j (x ∷ xs) = refl

written_after :
    (xs : List LogEntry) (k j : ℕ) (new : List LogEntry)
    → k ≤ length xs
    → take k xs ++ written (drop k xs) j new ≡ written xs (k + j) new
written_after xs k j [] h = take-append-drop k xs
written_after xs zero j (e ∷ new) h = rw (zero_add j)
  where
    zero_add : (a : ℕ) → 0 + a ≡ a
    zero_add a = omega arith
written_after [] (suc k) j (e ∷ new) h = absurd (omega arith)
written_after (x ∷ xs) (suc k) j (e ∷ new) h =
    rw (suc_add k j) (ap (λ l. x ∷ l) (written_after xs k j (e ∷ new) (omega arith)))
  where
    suc_add : (a b : ℕ) → suc a + b ≡ suc (a + b)
    suc_add a b = omega arith

-- What a request states of the log holds after the merge, term by term.
pub terms-merge : (old es : List LogEntry) → terms (take (length es) (merge old es)) ≡ terms es
unfolding merge
terms-merge old [] = refl
terms-merge [] (e ∷ es) = rw (take_all es (length es) (omega arith))
terms-merge (o ∷ os) (e ∷ es) = elim (Bool-cases (o.term == e.term)) [
  | inl q ↦ rw q (cc ((==_iff o.term e.term).0 q, terms-merge os es))
  | inr q ↦ rw q (rw (take_all es (length es) (omega arith)))
]

-- A request that agrees with the log removes nothing from it.
pub merge-agreeing :
    (old es : List LogEntry) → terms (take (length es) old) ≡ terms es → merge old es ≡ old
unfolding merge
merge-agreeing old [] h = refl
merge-agreeing [] (e ∷ es) h = cc
merge-agreeing (o ∷ os) (e ∷ es) h =
    let q : (o.term == e.term) ≡ true = (==_iff o.term e.term).1 (cc) in
    rw q (ap (λ l. o ∷ l) (merge-agreeing os es (cc)))

module _ (decode : List ℕ → Option Configuration) where
  -- On a well-formed log whose store takes entries, the loop over a request's entries that begins after
  -- position `k` of the log leaves the first `k` entries and merges the rest with the request's,
  -- provided that no index reaches 2 ^ 64.
  pub store_entries-merge :
      (n : Node) (k : ℕ) (es : List LogEntry)
      → IsLog n
      → Accepts n.store
      → k ≤ length n.entries
      → n.last_included_index + 1 + k + length es < 2 ^ 64
      → (store_entries decode n (n.last_included_index + 1 + k) es).1.entries
        ≡ take k n.entries ++ merge (drop k n.entries) es
  store_entries-merge n k es w a h b =
      let old = drop k n.entries in
      let j = agreeing old es in
      let o = (store_entries-outcome decode n k es w a h b).1 in
      ap (λ (s : LogState). s.entries) o
      ∙ outcome_entries (k + j) (drop j es)
      ∙ sym (written_after n.entries k j (drop j es) h)
      ∙ ap (λ l. take k n.entries ++ l) (sym (merge-written old es))
    where
      outcome_entries :
          (i : ℕ) (new : List LogEntry) → (outcome n i new).entries ≡ written n.entries i new
      outcome_entries i [] = refl
      outcome_entries i (e ∷ es') = refl
