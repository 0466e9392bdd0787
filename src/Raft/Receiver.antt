-- ===== src/Raft/Receiver.antt =====
-- pipeline.go `appendEntriesLocked` as a whole: what it accepts, what it acknowledges and what it
-- commits, on every branch.
use veltrix_db.Base.{◌≤◌, ◌≡◌, ◌⊎◌, true, false, Option}
use veltrix_db.Raft.Types.{AppendEntriesReply, AeWaiter}
use veltrix_db.Raft.Log.{Node}
use veltrix_db.Raft.Role.{is_none}

-- A refusal; or a success that names its match, which is durable here or which the snapshot covers. A
-- success that names no match would stand for the whole request.
abbrev pub IsBacked : Node → AppendEntriesReply → Type 0
IsBacked n r =
    (r.success ≡ false)
    ⊎ ((r.has_match ≡ true)
        × ((r.match_index ≤ n.durable_index) ⊎ (r.match_index ≤ n.last_included_index)))

-- The reply is backed, or it is not sent, since a waiter is parked.
IsSafe : AppendEntriesReply → Option AeWaiter → Node → Type 0
IsSafe r w n = (is_none w ≡ false) ⊎ IsBacked n r
