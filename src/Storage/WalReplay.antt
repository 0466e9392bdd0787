-- ===== src/Storage/WalReplay.antt =====
-- storage/wal_format.go and wal_replay.go: the reader of a write-ahead log. `next_text` is any decoder of
-- text records: the bytes that it reads never begin with the byte of a binary record.
use veltrix_db.Base.{
  ℕ, zero, suc, ◌||◌, Option, none, some, List, [], ◌∷◌, ◌==◌, if◌then◌else◌, length,
}
use veltrix_db.Storage.WalRecord.{WalReplayEntry, wal_bin_magic, next_binary}

-- A record and the bytes after it, or how the reading ends: io.EOF or errWALTail.
pub data Next : Type 0 where
  read_one : WalReplayEntry → List ℕ → Next
  at_eof at_tail : Next

abbrev pub next_of : Option (WalReplayEntry × List ℕ) → Next
next_of none = at_tail
next_of (some (e, rest)) = read_one e rest

module _ (next_text : List ℕ → Option (WalReplayEntry × List ℕ)) where
  -- walReader.next
  unfoldable pub next : List ℕ → Next
  next [] = at_eof
  next (b ∷ bs) =
      let after = next bs in
      if b == wal_bin_magic
      then next_of (next_binary (b ∷ bs))
      else if b == 10 || b == 13
      then after
      else next_of (next_text (b ∷ bs))

  -- The loop of `replayWAL`, on fuel.
  unfoldable pub read_entries : ℕ → List ℕ → List WalReplayEntry
  read_entries zero bs = []
  read_entries (suc fuel) bs = elim (next bs) [
    | read_one e rest ↦ e ∷ read_entries fuel rest
    | _ ↦ []
  ]

  -- replayWAL, of a file that is there
  unfoldable pub replay_wal : List ℕ → List WalReplayEntry
  replay_wal bs = read_entries (suc (length bs)) bs
