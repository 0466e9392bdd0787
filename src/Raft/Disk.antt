-- ===== src/Raft/Disk.antt =====
-- raft_storage.go: "truncation needs no separate record". The records of the file and the queue, replayed
-- in order, give the log that memory holds, also after a conflicting suffix was replaced.
use veltrix_db.Base.{
  ℕ, zero, suc, ◌+◌, ◌-◌, ◌≤◌, ◌<◌, ◌^◌, ◌≡◌, refl, sym, ap, ◌∙◌, true, Option, List, [], ◌∷◌, ◌++◌,
  arith, length, take, drop, leb, ltb, length-append, length-take, length-drop, false, dec_lt,
}
use mathlib.Core.List.{append_assoc}
use veltrix_db.Raft.Types.{LogEntry, Configuration}
use veltrix_db.Raft.Store.{LogStore, tail_index, replay_record, replay}
use veltrix_db.Raft.Log.{Node}
use veltrix_db.Raft.Append.{store_entries}
use veltrix_db.Raft.Contiguous.{IsLog, IsContiguous, take-IsContiguous, append-IsContiguous}
use veltrix_db.Raft.Merge.{take_all, LogState, Accepts, agreeing, outcome, store_entries-outcome}

-- The log that a restart reads, once the queue has reached the file.
abbrev pub on_disk : LogStore → List LogEntry
on_disk s = (replay ([], 0) (s.file ++ s.pend)).0

replay-append :
    (st : List LogEntry × ℕ) (xs ys : List LogEntry)
    → replay st (xs ++ ys) ≡ replay (replay st xs) ys
unfolding replay
replay-append st [] ys = refl
replay-append st (x ∷ xs) ys = replay-append (replay_record st x) xs ys

tail_index_lem :
    (h : ℕ) (e : LogEntry) (es : List LogEntry)
    → IsContiguous h (e ∷ es)
    → tail_index e es ≡ h + length (e ∷ es)
unfolding tail_index
tail_index_lem h e [] c = omega (arith, c.0)
tail_index_lem h e (x ∷ es) c = omega (arith, tail_index_lem (h + 1) x es c.1)

-- A record that follows position `k` of the log drops the log from there on.
replay_record_lem :
    (h k : ℕ) (old : List LogEntry) (gap : ℕ) (e : LogEntry)
    → IsContiguous h old
    → k ≤ length old
    → e.index ≡ h + k + 1
    → (replay_record (old, gap) e).0 ≡ take k old ++ e ∷ []
unfolding replay_record
replay_record_lem h k [] gap e c l i = rw (take_all {A = LogEntry} [] k (omega arith))
replay_record_lem h zero (x ∷ xs) gap e c l i =
    let first : leb e.index x.index ≡ true = ground (arith, c.0) in rw first
replay_record_lem h (suc k) (x ∷ xs) gap e c l i =
    let later : leb e.index x.index ≡ false = ground (arith, c.0) in
    let last = tail_index_lem h x xs c in
    elim (dec_lt (suc k) (length (x ∷ xs))) [
      | yes lt ↦
          let inside : leb e.index (tail_index x xs) ≡ true = ground (arith, last) in
          let d : e.index - x.index ≡ suc k = omega (arith, c.0) in rw (later, inside, d)
      | no ge ↦
          let past : leb e.index (tail_index x xs) ≡ false = ground (arith, last) in
          let next : ltb (tail_index x xs + 1) e.index ≡ false = ground (arith, last) in
          rw (later, past, next, take_all xs k (omega arith))
    ]

-- The records of new entries that follow one another from position `k`.
replay_new :
    (h k : ℕ) (old : List LogEntry) (gap : ℕ) (e : LogEntry) (es : List LogEntry)
    → IsContiguous h old
    → k ≤ length old
    → IsContiguous (h + k) (e ∷ es)
    → (replay (old, gap) (e ∷ es)).0 ≡ take k old ++ e ∷ es
unfolding replay
replay_new h k old gap e [] c l d = replay_record_lem h k old gap e c l d.0
replay_new h k old gap e (f ∷ es) c l d =
    let st = replay_record (old, gap) e in
    let log = take k old ++ e ∷ [] in
    let s : st.0 ≡ log = replay_record_lem h k old gap e c l d.0 in
    let count : length st.0 ≡ k + 1 =
      omega (arith, ap length s, length-append (take k old) (e ∷ []), length-take k old) in
    let kept : IsContiguous h log =
      append-IsContiguous h (take k old) (e ∷ []) (take-IsContiguous k h old c)
        (rw (take_length k old l) (d.0, tt)) in
    replay_new h (k + 1) st.0 st.1 f es (rw s kept) (omega arith) (rw (shift h k) d.1)
    ∙ ap (λ l'. l' ++ f ∷ es) (take_all st.0 (k + 1) (omega arith) ∙ s)
    ∙ append_assoc (take k old) (e ∷ []) (f ∷ es)
  where
    take_length : (j : ℕ) (xs : List LogEntry) → j ≤ length xs → length (take j xs) ≡ j
    take_length j xs h = omega (arith, length-take j xs)

    shift : (a b : ℕ) → a + (b + 1) ≡ a + b + 1
    shift a b = omega arith

drop-IsContiguous :
    (j h : ℕ) (es : List LogEntry) → IsContiguous h es → IsContiguous (h + j) (drop j es)
drop-IsContiguous zero h es c = rw (zero_right h) c
  where
    zero_right : (a : ℕ) → a + 0 ≡ a
    zero_right a = omega arith
drop-IsContiguous (suc j) h [] c = tt
drop-IsContiguous (suc j) h (e ∷ es) c = rw (shift h j) (drop-IsContiguous j (h + 1) es c.1)
  where
    shift : (a b : ℕ) → a + suc b ≡ a + 1 + b
    shift a b = omega arith

agreeing-le : (old es : List LogEntry) → agreeing old es ≤ length old
unfolding agreeing
agreeing-le old [] = omega arith
agreeing-le [] (e ∷ es) = omega arith
agreeing-le (o ∷ os) (e ∷ es) = ground (arith, agreeing-le os es)

-- New entries from position `k` on, in the queue, cut the log of the disk at `k` and follow it.
pub on_disk-queued :
    (h k : ℕ) (s : LogStore) (old : List LogEntry) (e : LogEntry) (es : List LogEntry)
    → on_disk s ≡ old
    → IsContiguous h old
    → k ≤ length old
    → IsContiguous (h + k) (e ∷ es)
    → on_disk (record s { pend = s.pend ++ e ∷ es }) ≡ take k old ++ e ∷ es
on_disk-queued h k s old e es d c l x =
    let recorded = s.file ++ s.pend in
    let st = replay ([], 0) recorded in
    ap (λ xs. (replay ([], 0) xs).0) (sym (append_assoc s.file s.pend (e ∷ es)))
    ∙ ap (λ (p : List LogEntry × ℕ). p.0) (replay-append ([], 0) recorded (e ∷ es))
    ∙ replay_new h k st.0 st.1 e es (rw d c) (rw d l) x
    ∙ ap (λ l'. take k l' ++ e ∷ es) d

module _ (decode : List ℕ → Option Configuration) where
  -- On a well-formed log whose store takes entries, the loop over consecutive entries from position `k`
  -- of the log on, with no index that reaches 2 ^ 64, keeps what a replay of the file and the queue
  -- gives equal to the log in memory, if it was equal before.
  pub on_disk-store_entries :
      (n : Node) (k : ℕ) (es : List LogEntry)
      → IsLog n
      → Accepts n.store
      → k ≤ length n.entries
      → n.last_included_index + 1 + k + length es < 2 ^ 64
      → IsContiguous (n.last_included_index + k) es
      → on_disk n.store ≡ n.entries
      → let m = (store_entries decode n (n.last_included_index + 1 + k) es).1 in
        on_disk m.store ≡ m.entries
  on_disk-store_entries n k es w a h b c d =
      let old = drop k n.entries in
      let j = agreeing old es in
      let o = (store_entries-outcome decode n k es w a h b).1 in
      ap (λ (s : LogState). on_disk s.store) o
      ∙ outcome_disk (k + j) (drop j es)
          (omega (arith, agreeing-le old es, length-drop k n.entries))
          (rw (shift n.last_included_index k j)
            (drop-IsContiguous j (n.last_included_index + k) es c))
      ∙ sym (ap (λ (s : LogState). s.entries) o)
    where
      shift : (p q r : ℕ) → p + (q + r) ≡ p + q + r
      shift p q r = omega arith

      outcome_disk :
          (i : ℕ) (new : List LogEntry)
          → i ≤ length n.entries
          → IsContiguous (n.last_included_index + i) new
          → on_disk (outcome n i new).store ≡ (outcome n i new).entries
      outcome_disk i [] l e = d
      outcome_disk i (x ∷ new) l e =
          on_disk-queued n.last_included_index i n.store n.entries x new d w.contiguous l e
