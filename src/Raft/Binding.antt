-- ===== src/Raft/Binding.antt =====
-- When a vote binds a node, in memory and on disk, and that writes of the meta file keep it bound.
use veltrix_db.Base.{
  ℕ, ◌≤◌, ◌<◌, String, ◌≡◌, ◌≢◌, ◌⊎◌, inl, inr, none, some, arith, str_eq_iff, ==_iff, Option-cases,
  refl,
}
use veltrix_db.Raft.Types.{RaftMeta}
use veltrix_db.Raft.Store.{StoreError, save_meta}
use veltrix_db.Raft.Log.{Node}
use veltrix_db.Raft.Role.{persist_meta}
use veltrix_db.Raft.VoteState.{VoteState, vote_state}

-- The meta file is never ahead of memory, and what the store takes for saved is on disk unless the
-- disk holds a later term, or a first vote of the term that was reported as failed.
pub record MetaOk (v : VoteState) : Type 0 where
  pub disk_le : v.disk.current_term ≤ v.term
  pub saved_le : v.saved.current_term ≤ v.disk.current_term
  pub saved_disk :
      (v.saved.current_term < v.disk.current_term)
      ⊎ ((v.saved.voted_for ≡ v.disk.voted_for) ⊎ (v.saved.voted_for ≡ ""))
  pub saved_vote :
      (v.saved.current_term < v.term) ⊎ ((v.saved.voted_for ≡ v.vote) ⊎ (v.saved.voted_for ≡ ""))

-- In term `t` the node can vote for `c` alone, also after a restart.
pub record Bound (t : ℕ) (c : String) (v : VoteState) : Type 0 where
  pub memory : (t < v.term) ⊎ ((t ≡ v.term) × (v.vote ≡ c))
  pub disk : (t < v.disk.current_term) ⊎ ((t ≡ v.disk.current_term) × (v.disk.voted_for ≡ c))

-- The node has just voted for `c` in its term `t`, and is bound.
abbrev pub Binds : ℕ → String → VoteState → Type 0
Binds t c v = (t ≡ v.term) × (v.vote ≡ c) × Bound t c v

abbrev pub current : VoteState → RaftMeta
current v = record { current_term = v.term; voted_for = v.vote }

-- What a write of the current term and vote does: both copies are replaced, or nothing had to be
-- written; or it fails, and the disk may have been replaced.
abbrev pub Saved : VoteState → VoteState → Type 0
Saved v w =
    ((w.saved ≡ current v) × (w.disk ≡ current v))
    ⊎ ((v.saved ≡ current v) × (w.saved ≡ v.saved) × (w.disk ≡ v.disk))

abbrev pub NotSaved : VoteState → VoteState → Type 0
NotSaved v w = (w.saved ≡ v.saved) × ((w.disk ≡ v.disk) ⊎ (w.disk ≡ current v))

abbrev pub Persists : VoteState → VoteState → Type 0
Persists v w = (w.term ≡ v.term) × (w.vote ≡ v.vote) × (Saved v w ⊎ NotSaved v w)

pub persist_ok :
    (n : Node) → (persist_meta n).0 ≡ none → Saved (vote_state n) (vote_state (persist_meta n).1)
unfolding persist_meta save_meta
persist_ok n h = ground (
  arith,
  str_eq_iff n.store.saved.voted_for n.voted_for,
  ==_iff n.store.saved.current_term n.current_term,
)

pub persist_failed :
    (n : Node) (e : StoreError)
    → (persist_meta n).0 ≡ some e
    → NotSaved (vote_state n) (vote_state (persist_meta n).1)
unfolding persist_meta save_meta
persist_failed n e h = ground arith

pub persist-Persists : (n : Node) → Persists (vote_state n) (vote_state (persist_meta n).1)
unfolding persist_meta
persist-Persists n = (
  refl,
  refl,
  elim (Option-cases (persist_meta n).0) [
    | inl e ↦ inl (persist_ok n e)
    | inr (x, e) ↦ inr (persist_failed n x e)
  ],
)

abbrev pub with_term : VoteState → ℕ → String → VoteState
with_term v t c = record v { term = t; vote = c }

module _ {v : VoteState} where
  pub raise-MetaOk : (t : ℕ) (c : String) → v.term < t → MetaOk v → MetaOk (with_term v t c)
  raise-MetaOk t c h o = ground arith

  pub raise-Bound :
      {s : ℕ} {d : String} (t : ℕ) (c : String)
      → v.term < t
      → Bound s d v
      → Bound s d (with_term v t c)
  raise-Bound t c h b = ground arith

  pub persist-MetaOk : (w : VoteState) → Persists v w → MetaOk v → MetaOk w
  persist-MetaOk w p o = ground arith

  pub persist-Bound :
      {s : ℕ} {d : String} (w : VoteState) → Persists v w → Bound s d v → Bound s d w
  persist-Bound w p b = ground arith

  -- A first vote of the term.
  pub choose-MetaOk : (c : String) → v.vote ≡ "" → MetaOk v → MetaOk (with_term v v.term c)
  choose-MetaOk c e o = ground arith

  pub choose-Bound :
      {s : ℕ} {d : String} (c : String)
      → d ≢ ""
      → v.vote ≡ ""
      → Bound s d v
      → Bound s d (with_term v v.term c)
  choose-Bound c ne e b = ground arith

  -- A vote that could not be made durable is taken back in memory.
  pub revert-MetaOk :
      (c : String) (w : VoteState)
      → NotSaved (with_term v v.term c) w
      → v.vote ≡ ""
      → MetaOk v
      → MetaOk (with_term w v.term v.vote)
  revert-MetaOk c w p e o = ground arith

  pub revert-Bound :
      {s : ℕ} {d : String} (c : String) (w : VoteState)
      → d ≢ ""
      → NotSaved (with_term v v.term c) w
      → v.vote ≡ ""
      → MetaOk v
      → Bound s d v
      → Bound s d (with_term w v.term v.vote)
  revert-Bound c w ne p e o b = ground arith

  -- A vote that is durable binds.
  pub Saved-Binds :
      (w : VoteState)
      → v.vote ≢ ""
      → w.term ≡ v.term
      → w.vote ≡ v.vote
      → Saved v w
      → MetaOk v
      → Binds v.term v.vote w
  Saved-Binds w ne et ev p o = (ground arith, ground arith, ground arith)
