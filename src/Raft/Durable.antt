-- ===== src/Raft/Durable.antt =====
-- pipeline.go `syncOnce`: when the durable index of a node moves.
use veltrix_db.Base.{◌≡◌, ◌⊎◌, inl, inr, refl, Bool, true, List, [], ◌++◌, arith}
use veltrix_db.Raft.Store.{LogStore, flush, set_failed, replay, sync_file}
use veltrix_db.Raft.Log.{Node, last_log_index}

-- Unless the store has failed, a file in which nothing was written since the last good fsync is what that
-- fsync covered.
abbrev pub IsSynced : LogStore → Type 0
IsSynced s = (s.failed ≡ true) ⊎ (s.dirty ≡ true) ⊎ (s.synced ≡ s.file)

-- The records that an fsync has covered replay to the log, and all of the log is durable.
pub record AllDurable (m : Node) : Type 0 where
  pub on_file : (replay ([], 0) m.store.synced).0 ≡ m.entries
  pub all : m.durable_index ≡ last_log_index m

sync_file-IsSynced : (ok : Bool) (s : LogStore) → IsSynced s → IsSynced (sync_file ok s).1
unfolding sync_file set_failed
sync_file-IsSynced ok s i = ground (arith, i)

-- A flush, whatever its outcomes, keeps this.
pub flush-IsSynced : (w s : Bool) (st : LogStore) → IsSynced st → IsSynced (flush w s st).1
unfolding flush set_failed
flush-IsSynced w s st i =
    let written : LogStore = record st { file = st.file ++ st.pend; pend = []; dirty = true } in
    ground (arith, i, sync_file-IsSynced s st i, sync_file-IsSynced s written (inr (inl refl)))
