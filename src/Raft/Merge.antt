-- ===== src/Raft/Merge.antt =====
-- pipeline.go `appendEntriesLocked`: the loop over the entries of a request, against a merge of lists.
use veltrix_db.Base.{
  ℕ, zero, suc, ◌+◌, ◌-◌, ◌≤◌, ◌<◌, ◌^◌, ◌≡◌, inl, inr, refl, ap, ◌∙◌, true, false, Option, none,
  some, List, [], ◌∷◌, ◌++◌, arith, length, take, drop, get_elem?, ltb, leb, ◌==◌, if◌then◌else◌,
  Bool-cases, Option-cases, add64, add64-eq-add, dec_lt,
}
use veltrix_db.Raft.Types.{LogEntry, Configuration}
use veltrix_db.Raft.Store.{LogStore, enqueue}
use veltrix_db.Raft.Log.{Node, last_log_index, log_term}
use veltrix_db.Raft.Role.{sync_replicators}
use veltrix_db.Raft.Effective.{latest_config, refresh_config_from_log, set_config}
use veltrix_db.Raft.Append.{append_from, store_entries, truncate_from}
use veltrix_db.Raft.Contiguous.{
  IsLog, term_or_zero, last_log_index_lem, log_first_index_lem, log_term-position,
}

-- What Raft asks of a receiver: keep the entries that agree with the request in term, and from the
-- first that does not, or at the end of the log, take the request's.
unfoldable pub merge : List LogEntry → List LogEntry → List LogEntry
merge old [] = old
merge [] (e ∷ es) = e ∷ es
merge (o ∷ os) (e ∷ es) = if o.term == e.term then o ∷ merge os es else e ∷ es

-- How many entries from the start agree in term.
unfoldable pub agreeing : List LogEntry → List LogEntry → ℕ
agreeing old [] = 0
agreeing [] (e ∷ es) = 0
agreeing (o ∷ os) (e ∷ es) = if o.term == e.term then suc (agreeing os es) else 0

-- What a node keeps of its log in memory and on disk.
pub record LogState : Type 0 where
  pub entries : List LogEntry
  pub durable : ℕ
  pub head : ℕ
  pub head_term : ℕ
  pub store : LogStore
  pub commit : ℕ
  pub term : ℕ

abbrev pub log_state : Node → LogState
log_state n = record {
  entries = n.entries;
  durable = n.durable_index;
  head = n.last_included_index;
  head_term = n.last_included_term;
  store = n.store;
  commit = n.commit_index;
  term = n.current_term;
}

set_config-log_state :
    (n : Node) (c : Configuration) (i : ℕ) → log_state (set_config n c i) ≡ log_state n
unfolding set_config sync_replicators
set_config-log_state n c i = refl

-- The queue takes records: the store is neither closed nor failed.
abbrev pub Accepts : LogStore → Type 0
Accepts s = (s.closed ≡ false) × (s.failed ≡ false)

abbrev pub queued : LogStore → List LogEntry → LogStore
queued s es = record s { pend = s.pend ++ es }

enqueue_ok :
    (s : LogStore) (e : LogEntry) (es : List LogEntry)
    → Accepts s
    → enqueue s (e ∷ es) ≡ (none, queued s (e ∷ es))
unfolding enqueue
enqueue_ok s e es a = ground arith

-- The durable index after the entries from position `k` on are replaced.
abbrev pub durable_below : ℕ → ℕ → ℕ
durable_below d i = if leb i d then i - 1 else d

-- The state of the log after the entries from `i` = head + 1 + k on are replaced by `es`.
abbrev pub replaced : Node → ℕ → List LogEntry → LogState
replaced n k es = record (log_state n) {
  entries = take k n.entries ++ es;
  durable =
      if ltb k (length n.entries)
      then durable_below n.durable_index (n.last_included_index + 1 + k)
      else n.durable_index;
  store = queued n.store es;
}

pub take_all {ℓ} : {A : Type ℓ} (xs : List A) (k : ℕ) → length xs ≤ k → take k xs ≡ xs
take_all [] zero h = refl
take_all [] (suc k) h = refl
take_all (x ∷ xs) zero h = absurd (omega arith)
take_all (x ∷ xs) (suc k) h = rw (take_all xs k (omega arith))

module _ (decode : List ℕ → Option Configuration) where
  pub refresh-log_state : (n : Node) → log_state (refresh_config_from_log decode n) ≡ log_state n
  unfolding refresh_config_from_log
  refresh-log_state n = elim (Option-cases (latest_config decode n.entries)) [
    | inl e ↦ rw (e, refresh_config_from_log) (set_config-log_state n _ _)
    | inr (r, e) ↦ rw (e, refresh_config_from_log) (set_config-log_state n _ _)
  ]

  truncate_lem :
      (n : Node) (k : ℕ)
      → IsLog n
      → k ≤ length n.entries
      → log_state (truncate_from n (n.last_included_index + 1 + k))
        ≡ record (replaced n k []) { entries = take k n.entries; store = n.store }
  unfolding truncate_from
  truncate_lem n k w h =
      let d : n.last_included_index + 1 + k - (n.last_included_index + 1) ≡ k = omega arith in
      ground (arith, d, last_log_index_lem n w, log_first_index_lem n w, take_all n.entries k)

  append_from_lem :
      (n : Node) (k : ℕ) (e : LogEntry) (es : List LogEntry)
      → IsLog n
      → Accepts n.store
      → k ≤ length n.entries
      → ((append_from decode n (n.last_included_index + 1 + k) (e ∷ es)).0 ≡ true)
        × (log_state (append_from decode n (n.last_included_index + 1 + k) (e ∷ es)).1
            ≡ replaced n k (e ∷ es))
  unfolding append_from
  append_from_lem n k e es w a h =
      let i = n.last_included_index + 1 + k in
      let cut = truncate_from n i in
      let n' : Node = record cut {
        entries = cut.entries ++ e ∷ es;
        store = queued n.store (e ∷ es);
      } in
      rw (enqueue_ok n.store e es a) (refl, refresh-log_state n' ∙ cc (truncate_lem n k w h))

-- The state of the log after the loop: nothing new, or entries replaced from position `k` on.
abbrev pub outcome : Node → ℕ → List LogEntry → LogState
outcome n k [] = log_state n
outcome n k (e ∷ es) = replaced n k (e ∷ es)

drop_at {ℓ} :
    {A : Type ℓ} (xs : List A) (k : ℕ)
    → k < length xs
    → (o : A) × (get_elem? xs k ≡ some o) × (drop k xs ≡ o ∷ drop (suc k) xs)
drop_at [] k h = elim h [ ]
drop_at (x ∷ xs) zero h = (x, refl, refl)
drop_at (x ∷ xs) (suc k) h = drop_at xs k (omega arith)

drop_past {ℓ} : {A : Type ℓ} (xs : List A) (k : ℕ) → length xs ≤ k → drop k xs ≡ []
drop_past [] zero h = refl
drop_past [] (suc k) h = refl
drop_past (x ∷ xs) zero h = absurd (omega arith)
drop_past (x ∷ xs) (suc k) h = drop_past xs k (omega arith)

module _ (decode : List ℕ → Option Configuration) where
  -- The loop skips the entries that agree, and replaces the log from the first that does not.
  pub store_entries-outcome :
      (n : Node) (k : ℕ) (es : List LogEntry)
      → IsLog n
      → Accepts n.store
      → k ≤ length n.entries
      → n.last_included_index + 1 + k + length es < 2 ^ 64
      → ((store_entries decode n (n.last_included_index + 1 + k) es).0 ≡ true)
        × (log_state (store_entries decode n (n.last_included_index + 1 + k) es).1
            ≡ outcome n
                (k + agreeing (drop k n.entries) es)
                (drop (agreeing (drop k n.entries) es) es))
  unfolding store_entries agreeing
  store_entries-outcome n k [] w a h b = (refl, refl)
  store_entries-outcome n k (e ∷ es) w a h b =
      let i = n.last_included_index + 1 + k in
      let z : k + 0 ≡ k = omega arith in
      let replace = append_from_lem decode n k e es w a h in
      elim (dec_lt k (length n.entries)) [
        | no ge ↦
            let past : leb i (last_log_index n) ≡ false = ground (arith, last_log_index_lem n w) in
            rw (past, drop_past n.entries k (omega arith), z) replace
        | yes lt ↦
            let (o, g, d) = drop_at n.entries k lt in
            let t : log_term n i ≡ o.term = log_term-position n w k lt ∙ ap term_or_zero g in
            let old : leb i (last_log_index n) ≡ true = ground (arith, last_log_index_lem n w) in
            let next : add64 i 1 ≡ n.last_included_index + 1 + suc k =
              omega (arith, add64-eq-add i 1 (omega arith)) in
            let ih = store_entries-outcome n (suc k) es w a (omega arith) (omega arith) in
            let m : (j : ℕ) → k + suc j ≡ suc k + j = λ j. omega arith in
            elim (Bool-cases (o.term == e.term)) [
              | inl q ↦ rw (d, old, t, q, next, m) ih
              | inr q ↦ rw (d, old, t, q, z) replace
            ]
      ]
