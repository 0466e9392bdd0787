-- ===== src/Raft/Pipeline.antt =====
-- pipeline.go `replicate`: what the requests in flight to one follower cover.
use veltrix_db.Base.{
  ℕ, zero, suc, ◌+◌, ◌-◌, ◌≤◌, ◌<◌, ◌≡◌, ◌⊎◌, inl, inr, refl, ap, true, List, [], ◌∷◌, arith,
  length, take, add64-eq-add, Bool-cases, length-drop,
}
use veltrix_db.Raft.Types.{LogEntry}
use veltrix_db.Raft.Log.{Node, last_log_index, log_term, entries_from}
use veltrix_db.Raft.Contiguous.{IsLog, last_log_index_lem, entries_from-drop}
use veltrix_db.Raft.Replicate.{
  AeSend, fill_window, batch_of, append_args, ends_fill, max_append_entries,
}

-- The requests carry consecutive pieces of the log, none of them empty or too long, from index `next`
-- up to index `last`, each after the entry that the request before it ends with.
abbrev pub Covers : Node → ℕ → List AeSend → ℕ → Type 0
Covers n next [] last = next ≡ last
Covers n next (s ∷ ss) last =
    let ents = s.args.entries in
    (s.args.prev_log_index + 1 ≡ next)
    × (s.args.prev_log_term ≡ log_term n s.args.prev_log_index)
    × (s.args.term ≡ n.current_term)
    × (ents ≡ take (length ents) (entries_from n next))
    × (0 < length ents)
    × (length ents ≤ max_append_entries)
    × Covers n (next + length ents) ss last

batch-take :
    (count bytes : ℕ) (es : List LogEntry)
    → batch_of count bytes es ≡ take (length (batch_of count bytes es)) es
unfolding batch_of
batch-take count bytes [] = refl
batch-take count bytes (e ∷ es) =
    let ih = batch-take (count + 1) (bytes + length e.command) es in ground (arith, ih)

batch-max :
    (count bytes : ℕ) (es : List LogEntry)
    → count ≤ max_append_entries
    → count + length (batch_of count bytes es) ≤ max_append_entries
unfolding batch_of
batch-max count bytes [] h = omega arith
batch-max count bytes (e ∷ es) h =
    ground (arith, batch-max (count + 1) (bytes + length e.command) es)

batch-le : (count bytes : ℕ) (es : List LogEntry) → length (batch_of count bytes es) ≤ length es
unfolding batch_of
batch-le count bytes [] = omega arith
batch-le count bytes (e ∷ es) = ground (arith, batch-le (count + 1) (bytes + length e.command) es)

batch-some : (es : List LogEntry) → 0 < length es → 0 < length (batch_of 0 0 es)
unfolding batch_of
batch-some [] h = h
batch-some (e ∷ es) h = ground arith

-- What one turn of the loop takes: a batch that is not empty, short enough, and of this log.
record IsBatch (n : Node) (next : ℕ) (ents : List LogEntry) : Type 0 where
  piece : ents ≡ take (length ents) (entries_from n next)
  some_entry : 0 < length ents
  bounded : length ents ≤ max_append_entries
  inside : next + length ents ≤ last_log_index n + 1

batch_of-IsBatch :
    (n : Node) (next : ℕ)
    → IsLog n
    → n.last_included_index < next
    → next ≤ last_log_index n
    → IsBatch n next (batch_of 0 0 (entries_from n next))
batch_of-IsBatch n next w lo hi =
    let es = entries_from n next in
    let count : length es + next ≡ last_log_index n + 1 = omega (
      arith,
      ap length (entries_from-drop n w next lo hi),
      length-drop (next - (n.last_included_index + 1)) n.entries,
      last_log_index_lem n w,
    ) in
    record {
      piece = batch-take 0 0 es;
      some_entry = batch-some es (omega arith);
      bounded = omega (arith, batch-max 0 0 es (omega arith));
      inside = omega (arith, batch-le 0 0 es);
    }

-- On a well-formed log, from a next index above the snapshot and at most one past the end, with one
-- unit of fuel more than the window has room, the requests of one round carry consecutive batches of
-- the log, and the round ends only at the end of the log or with a full window, with one more request
-- in flight for each that it sends.
pub fill_window-Covers :
    (fuel : ℕ) (n : Node) (epoch window next inflight : ℕ)
    → IsLog n
    → n.last_included_index < next
    → next ≤ last_log_index n + 1
    → window ≤ inflight + fuel
    → let f = fill_window (suc fuel) n epoch window next inflight in
      Covers n next f.sends f.next
      × (f.inflight ≡ inflight + length f.sends)
      × ((f.next ≡ last_log_index n + 1) ⊎ (window ≤ f.inflight))
unfolding fill_window append_args
fill_window-Covers zero n epoch window next inflight w lo hi room =
    let e : ends_fill n window next inflight ≡ true = ground arith in
    rw e (refl, omega arith, inr (omega arith))
fill_window-Covers (suc fuel) n epoch window next inflight w lo hi room =
    elim (Bool-cases (ends_fill n window next inflight)) [
      | inl e ↦ rw e (refl, omega arith, ground arith)
      | inr e ↦
          let inside : (next ≤ last_log_index n) × (inflight < window) = ground arith in
          let ents = batch_of 0 0 (entries_from n next) in
          let b = batch_of-IsBatch n next w lo inside.0 in
          let last = last_log_index_lem n w in
          let q = add64-eq-add next (length ents) (omega (arith, b.inside, w.fits)) in
          let ih =
            fill_window-Covers fuel n epoch window (next + length ents) (inflight + 1) w
              (omega arith) b.inside (omega arith) in
          rw (e, q)
            (
              (omega arith, refl, refl, b.piece, b.some_entry, b.bounded, ih.0),
              omega (arith, ih.1),
              ih.2,
            )
    ]
