-- ===== src/Raft/Store.antt =====
-- consensus/raft_storage.go: the log file, its write queue and the meta file, over whole records.
-- What the disk does is an input: `meta_writes` lists the outcomes of the coming meta writes.
use veltrix_db.Base.{
  ℕ, ◌+◌, ◌-◌, Bool, true, false, not, ◌&&◌, Option, none, some, List, [], ◌∷◌, ◌++◌, ltb, leb,
  ◌==◌, if◌then◌else◌, take, str_eq,
}
use veltrix_db.Raft.Types.{LogEntry, RaftMeta}

-- errors of the store
pub data StoreError : Type 0 where
  store_closed store_failed meta_failed : StoreError

-- atomicWrite of raft_meta.dat: it succeeds, it fails before the rename, or it renames the file and
-- then reports that the directory could not be synced.
pub data MetaWrite : Type 0 where
  written lost renamed_unsynced : MetaWrite

-- logStore. `file` holds the records of raft_log.dat, `pend` those of the queue. `synced` are the records
-- of the file that its last good fsync covered, `dirty` that something has been written since.
pub record LogStore : Type 0 where
  pub file : List LogEntry
  pub pend : List LogEntry
  pub synced : List LogEntry
  pub dirty : Bool
  pub failed : Bool
  pub closed : Bool
  pub saved : RaftMeta
  pub has_meta : Bool
  pub disk_meta : RaftMeta
  pub meta_writes : List MetaWrite

unfoldable pub same_meta : RaftMeta → RaftMeta → Bool
same_meta a b = a.current_term == b.current_term && str_eq a.voted_for b.voted_for

-- writeMeta
unfoldable pub write_meta : LogStore → RaftMeta → List MetaWrite → Option StoreError × LogStore
write_meta s m [] = (some meta_failed, s)
write_meta s m (written ∷ later) =
    (none, record s { saved = m; has_meta = true; disk_meta = m; meta_writes = later })
write_meta s m (lost ∷ later) = (some meta_failed, record s { meta_writes = later })
write_meta s m (renamed_unsynced ∷ later) =
    (some meta_failed, record s { disk_meta = m; meta_writes = later })

-- saveMeta
unfoldable pub save_meta : LogStore → RaftMeta → Option StoreError × LogStore
unfolding same_meta write_meta
save_meta s m =
    if s.closed
    then (some store_closed, s)
    else if s.has_meta && same_meta s.saved m
    then (none, s)
    else write_meta s m s.meta_writes

-- enqueue
unfoldable pub enqueue : LogStore → List LogEntry → Option StoreError × LogStore
enqueue s [] = (none, s)
enqueue s (e ∷ es) =
    if s.closed
    then (some store_closed, s)
    else if s.failed
    then (some store_failed, s)
    else (none, record s { pend = s.pend ++ e ∷ es })

-- setFailedLocked
unfoldable pub set_failed : LogStore → LogStore
set_failed s = record s { failed = true; pend = [] }

abbrev pub has_records : List LogEntry → Bool
has_records [] = false
has_records (e ∷ es) = true

-- The fsync of flush, with its outcome. No rewrite comes in between.
unfoldable pub sync_file : Bool → LogStore → Option StoreError × LogStore
unfolding set_failed
sync_file sync_ok s =
    let clean : LogStore = record s { dirty = false } in
    if not s.dirty
    then (none, clean)
    else if sync_ok
    then (none, record clean { synced = s.file })
    else (some store_failed, set_failed clean)

-- flush with the outcomes of its write and of its fsync. A failed write is rolled back, and the store has
-- failed whether or not that works.
unfoldable pub flush : Bool → Bool → LogStore → Option StoreError × LogStore
unfolding set_failed sync_file
flush write_ok sync_ok s =
    if s.closed
    then (some store_closed, s)
    else if s.failed
    then (some store_failed, s)
    else if not (has_records s.pend)
    then sync_file sync_ok s
    else if write_ok
    then sync_file sync_ok (record s { file = s.file ++ s.pend; pend = []; dirty = true })
    else (some store_failed, set_failed s)

-- The replacement of raft_log.dat: done; not done; or done, and the new file cannot be opened again. That
-- the rename is done and the sync of the directory fails is not an outcome here: the store would go on
-- with the handle of a file that has lost its name.
pub data Replacement : Type 0 where
  replaced not_replaced not_reopened : Replacement

-- rewrite with the outcome of the replacement
unfoldable pub rewrite : Replacement → LogStore → List LogEntry → Option StoreError × LogStore
unfolding set_failed
rewrite how s entries = if s.closed then (some store_closed, s) else elim how [
  | replaced ↦ (
    none,
    record s { file = entries; pend = []; synced = entries; dirty = false; failed = false },
  )
  | not_replaced ↦ (some meta_failed, s)
  | not_reopened ↦ (some store_failed, set_failed (record s { file = entries; synced = entries }))
]

-- the index of the last entry of a log that is not empty
unfoldable pub tail_index : LogEntry → List LogEntry → ℕ
tail_index e [] = e.index
tail_index e (x ∷ es) = tail_index x es

-- One record of `replay`: a record at or below the last index supersedes the log from there on; a gap
-- drops the log and is reported (`gapFrom`).
unfoldable pub replay_record : List LogEntry × ℕ → LogEntry → List LogEntry × ℕ
unfolding tail_index
replay_record ([], gap) e = (e ∷ [], gap)
replay_record (x ∷ xs, gap) e =
    if leb e.index x.index
    then (e ∷ [], gap)
    else if leb e.index (tail_index x xs)
    then (take (e.index - x.index) (x ∷ xs) ++ e ∷ [], gap)
    else if ltb (tail_index x xs + 1) e.index
    then (e ∷ [], tail_index x xs)
    else ((x ∷ xs) ++ e ∷ [], gap)

-- the loop of `replay` over the good records of the file
unfoldable pub replay : List LogEntry × ℕ → List LogEntry → List LogEntry × ℕ
unfolding replay_record
replay st [] = st
replay st (e ∷ es) = replay (replay_record st e) es
