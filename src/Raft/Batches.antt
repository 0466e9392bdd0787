-- ===== src/Raft/Batches.antt =====
-- raft.go `flushBatch`: a leader's batch in its log and in the queue of its store.
use veltrix_db.Base.{
  ℕ, suc, ◌+◌, ◌<◌, ◌^◌, ◌≡◌, ◌⊎◌, inl, inr, refl, sym, ap, ◌∙◌, ◌||◌, true, none, some, List, [],
  ◌∷◌, ◌++◌, map, arith, length, take, length-append, take-append, add64, add64-eq-add, Bool-cases,
  Option-cases,
}
use mathlib.Core.List.{append_assoc, append-nil}
use veltrix_db.Raft.Types.{LogEntry, entry_normal}
use veltrix_db.Raft.Store.{LogStore, StoreError, enqueue}
use veltrix_db.Raft.Log.{Node}
use veltrix_db.Raft.Role.{is_leader, kick_syncer}
use veltrix_db.Raft.Commit.{
  SubmitRequest, Ready, appended, refused_persist, append_entry, append_batch, flush_batch,
  kick_replicators, kick_replicators_on_append,
}
use veltrix_db.Raft.Contiguous.{IsContiguous, IsLog, last_log_index_lem, append-IsContiguous}
use veltrix_db.Raft.Merge.{take_all}
use veltrix_db.Raft.Disk.{on_disk, on_disk-queued}

-- The indices that follow `last`, one for each request.
abbrev pub replies_from : ℕ → List SubmitRequest → List Ready
replies_from last [] = []
replies_from last (r ∷ rs) = appended (last + 1) ∷ replies_from (last + 1) rs

-- The entries of the term with the commands of the requests, in order, from index `last + 1` on.
abbrev pub entries_for : ℕ → ℕ → List SubmitRequest → List LogEntry
entries_for term last [] = []
entries_for term last (r ∷ rs) =
    record { term = term; index = last + 1; typ = entry_normal; command = r.command }
    ∷ entries_for term (last + 1) rs

-- What a batch appends.
record Appends (n : Node) (batch : List SubmitRequest) : Type 0 where
  entries : (append_batch n batch).1.entries ≡ n.entries ++ (append_batch n batch).0
  store : (append_batch n batch).1.store ≡ n.store
  head : (append_batch n batch).1.last_included_index ≡ n.last_included_index
  exact :
      (append_batch n batch).0
      ≡ entries_for n.current_term (n.last_included_index + length n.entries) batch
  count : length (append_batch n batch).0 ≡ length batch
  indices : IsContiguous (n.last_included_index + length n.entries) (append_batch n batch).0
  replies :
      map (λ (e : LogEntry). appended e.index) (append_batch n batch).0
      ≡ replies_from (n.last_included_index + length n.entries) batch

append_batch-Appends :
    (n : Node) (batch : List SubmitRequest)
    → IsLog n
    → n.last_included_index + length n.entries + length batch + 1 < 2 ^ 64
    → Appends n batch
unfolding append_batch append_entry
append_batch-Appends n [] w b = record {
  entries = sym (append-nil n.entries);
  store = refl;
  head = refl;
  exact = refl;
  count = refl;
  indices = tt;
  replies = refl;
}
append_batch-Appends n (r ∷ rs) w b =
    let last = n.last_included_index + length n.entries in
    let e = (append_entry n entry_normal r.command r.channel).0 in
    let n' = (append_entry n entry_normal r.command r.channel).1 in
    let index : e.index ≡ last + 1 =
      ap (λ i. add64 i 1) (last_log_index_lem n w) ∙ add64-eq-add last 1 (omega arith) in
    let longer : length n'.entries ≡ length n.entries + 1 =
      omega (arith, length-append n.entries (e ∷ [])) in
    let w' : IsLog n' = record {
      contiguous =
          append-IsContiguous n.last_included_index n.entries (e ∷ []) w.contiguous (index, tt);
      fits = omega (arith, longer);
    } in
    let ih = append_batch-Appends n' rs w' (omega (arith, longer)) in
    let next : n.last_included_index + length n'.entries ≡ last + 1 = omega (arith, longer) in
    record {
      entries = ih.entries ∙ append_assoc n.entries (e ∷ []) (append_batch n' rs).0;
      store = ih.store;
      head = ih.head;
      exact =
          ap
            (λ i.
              record { term = n.current_term; index = i; typ = entry_normal; command = r.command }
              ∷ (append_batch n' rs).0)
            index
          ∙ ap
              (λ l.
                record {
                  term = n.current_term;
                  index = last + 1;
                  typ = entry_normal;
                  command = r.command;
                }
                ∷ l)
              (ih.exact ∙ ap (λ i. entries_for n.current_term i rs) next);
      count = ap suc ih.count;
      indices = (index, rw next at ih.indices);
      replies =
          ap (λ i. appended i ∷ map (λ (x : LogEntry). appended x.index) (append_batch n' rs).0)
            index
          ∙ ap (λ l. appended (last + 1) ∷ l) (ih.replies ∙ ap (λ i. replies_from i rs) next);
    }

-- The log of `m` is the log of `n` and then the entries of the batch, and the submitters learn their indices.
pub record Took (n : Node) (batch : List SubmitRequest) (r : List Ready × Node) : Type 0 where
  pub added :
      r.1.entries
      ≡ n.entries ++ entries_for n.current_term (n.last_included_index + length n.entries) batch
  pub replies : r.0 ≡ replies_from (n.last_included_index + length n.entries) batch

-- The log of `n` stays, and every submitter is told that it was not stored.
pub record Refused (n : Node) (batch : List SubmitRequest) (r : List Ready × Node) : Type 0 where
  pub why : (n.store.closed || n.store.failed) ≡ true
  pub kept : r.1.entries ≡ n.entries
  pub count : length r.0 ≡ length batch
  pub refused : r.0 ≡ map (λ (e : LogEntry). refused_persist) (append_batch n batch).0

kick_entries : (n : Node) → (kick_replicators_on_append n).entries ≡ n.entries
unfolding kick_replicators
kick_entries n = elim (Bool-cases n.pipeline) [ inl e ↦ rw e refl | inr e ↦ rw e refl ]

kick_store : (n : Node) → on_disk (kick_replicators_on_append n).store ≡ on_disk n.store
unfolding kick_replicators
kick_store n = elim (Bool-cases n.pipeline) [ inl e ↦ rw e refl | inr e ↦ rw e refl ]

enqueue_took :
    (h : ℕ) (s : LogStore) (old es : List LogEntry)
    → (enqueue s es).0 ≡ none
    → on_disk s ≡ old
    → IsContiguous h old
    → IsContiguous (h + length old) es
    → on_disk (enqueue s es).1 ≡ old ++ es
unfolding enqueue
enqueue_took h s old [] q d c x = d ∙ sym (append-nil old)
enqueue_took h s old (e ∷ es) q d c x =
    let v : (enqueue s (e ∷ es)).1 ≡ record s { pend = s.pend ++ e ∷ es } = ground (arith, q) in
    ap on_disk v
    ∙ on_disk-queued h (length old) s old e es d c (omega arith) x
    ∙ ap (λ l. l ++ e ∷ es) (take_all old (length old) (omega arith))

enqueue_refused :
    (s : LogStore) (es : List LogEntry) (x : StoreError)
    → (enqueue s es).0 ≡ some x
    → (enqueue s es).1 ≡ s
unfolding enqueue
enqueue_refused s [] x q = refl
enqueue_refused s (e ∷ es) x q = ground (arith, q)

enqueue_why :
    (s : LogStore) (es : List LogEntry) (x : StoreError)
    → (enqueue s es).0 ≡ some x
    → (s.closed || s.failed) ≡ true
unfolding enqueue
enqueue_why s [] x q = absurd cc
enqueue_why s (e ∷ es) x q = ground (arith, q)

length-map : (es : List LogEntry) → length (map (λ (e : LogEntry). refused_persist) es) ≡ length es
length-map [] = refl
length-map (e ∷ es) = ap suc (length-map es)

-- A leader with a well-formed log, whose disk holds that log, appends to its log an entry of its term
-- for each command of the batch, in order, and tells each submitter the index of its entry, or refuses
-- it, its store being closed or failed, and keeps its log, and its disk, with the queue, holds the log
-- that it has then; provided that no index reaches 2 ^ 64.
pub flush_batch-on_disk :
    (n : Node) (batch : List SubmitRequest)
    → IsLog n
    → n.last_included_index + length n.entries + length batch + 1 < 2 ^ 64
    → is_leader n.role ≡ true
    → on_disk n.store ≡ n.entries
    → let r = flush_batch n batch in
      (on_disk r.1.store ≡ r.1.entries) × (Took n batch r ⊎ Refused n batch r)
unfolding flush_batch
flush_batch-on_disk n batch w b leads d =
    let a = append_batch-Appends n batch w b in
    let es = (append_batch n batch).0 in
    let n' = (append_batch n batch).1 in
    elim (Option-cases (enqueue n'.store es).0) [
      | inl took ↦
          let m = kick_syncer (record n' { store = (enqueue n'.store es).1 }) in
          let entries = kick_entries m ∙ a.entries in
          rw (leads, took, flush_batch)
            (
              kick_store m
                  ∙ enqueue_took n.last_included_index n'.store n.entries es took (rw a.store d)
                      w.contiguous a.indices
                  ∙ sym entries,
              inl (record {
                added = entries ∙ ap (λ l. n.entries ++ l) a.exact;
                replies = a.replies;
              }),
            )
      | inr (x, refused) ↦
          let back : take (length n.entries) n'.entries ≡ n.entries =
            ap (take (length n.entries)) a.entries ∙ take-append n.entries es in
          rw (leads, refused, flush_batch)
            (
              ap on_disk (enqueue_refused n'.store es x refused ∙ a.store) ∙ d ∙ sym back,
              inr (record {
                why =
                    ap (λ (s : LogStore). s.closed || s.failed) (sym a.store)
                    ∙ enqueue_why n'.store es x refused;
                kept = back;
                count = length-map es ∙ a.count;
                refused = refl;
              }),
            )
    ]
