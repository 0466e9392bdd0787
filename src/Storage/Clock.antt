-- ===== src/Storage/Clock.antt =====
-- storage/raft_clock.go: the deterministic time of raft commands, and the versions that follow from it.
-- Times are microseconds in an int64, as Storage/Int64.antt reads it.
use veltrix_db.Base.{
  ℕ, ◌/◌, ◌%◌, Bool, not, ◌&&◌, ◌||◌, Option, none, some, List, [], ◌∷◌, ◌==◌, if◌then◌else◌, add64,
}
use veltrix_db.Storage.Int64.{is_positive, lt64, le64}

-- ApplyTime
pub record ApplyTime : Type 0 where
  pub stamp_us : ℕ
  pub now_us : ℕ

-- raftClock
pub record RaftClock : Type 0 where
  pub last : ℕ
  pub floor : ℕ
  pub cur : Option ApplyTime

-- IndexEntry, the fields that versions and expiry read
pub record IndexEntry : Type 0 where
  pub write_timestamp_us : ℕ
  pub ttl_expiry_us : ℕ
  pub flags : ℕ

abbrev pub legacy_version : ℕ
legacy_version = 1

abbrev pub legacy_stamp_us : ℕ
legacy_stamp_us = 1

abbrev pub flag_tombstone : ℕ
flag_tombstone = 1

abbrev pub flag_has_ttl : ℕ
flag_has_ttl = 8

-- flags & mask != 0, for a mask of one bit
unfoldable pub has_flag : ℕ → ℕ → Bool
has_flag flags mask = flags / mask % 2 == 1

-- IsTombstone
abbrev pub is_tombstone : IndexEntry → Bool
is_tombstone e = has_flag e.flags flag_tombstone

-- HasTTL
abbrev pub has_ttl : IndexEntry → Bool
has_ttl e = has_flag e.flags flag_has_ttl

-- IsExpired
unfoldable pub is_expired : IndexEntry → ℕ → Bool
is_expired e now_us = has_ttl e && is_positive e.ttl_expiry_us && le64 e.ttl_expiry_us now_us

-- NextRaftApplyTime; `local` is the node's own clock
unfoldable pub next_raft_apply_time : ℕ → RaftClock → ℕ → ApplyTime × RaftClock
next_raft_apply_time local c leader_ts_us =
    if not (is_positive leader_ts_us)
    then (if c.last == 0 then (record { stamp_us = legacy_stamp_us; now_us = local }, c) else (
      record { stamp_us = add64 c.last 1; now_us = local },
      record c { last = add64 c.last 1 },
    ))
    else (let next = if le64 leader_ts_us c.last then add64 c.last 1 else leader_ts_us in
        (
          record { stamp_us = next; now_us = next },
          record c { last = next; floor = if c.floor == 0 then next else c.floor },
        ))

-- SetRaftClock
abbrev pub set_raft_clock : ℕ → ℕ → RaftClock → RaftClock
set_raft_clock last floor c = record c { last = last; floor = floor }

-- SetApplyTime
abbrev pub set_apply_time : ApplyTime → RaftClock → RaftClock
set_apply_time t c = record c { cur = some t }

-- ClearApplyTime
abbrev pub clear_apply_time : RaftClock → RaftClock
clear_apply_time c = record c { cur = none }

-- writeClock: the stamp and the time of a write
unfoldable pub write_clock : ℕ → RaftClock → ℕ × ℕ
write_clock local c = elim c.cur [ none ↦ (local, local) | some t ↦ (t.stamp_us, t.now_us) ]

-- decisionNowUs
unfoldable pub decision_now_us : ℕ → RaftClock → ℕ
decision_now_us local c = elim c.cur [ none ↦ local | some t ↦ t.now_us ]

-- expiryCutoffUs
unfoldable pub expiry_cutoff_us : ℕ → RaftClock → ℕ
expiry_cutoff_us local c = elim c.cur [
  | none ↦ if is_positive c.last && lt64 c.last local then c.last else local
  | some t ↦ t.now_us
]

-- versionToken
unfoldable pub version_token : IndexEntry → ℕ → ℕ → ℕ
version_token e now_us floor_us =
    if is_tombstone e || is_expired e now_us
    then 0
    else if not (is_positive e.write_timestamp_us)
        || is_positive floor_us && lt64 e.write_timestamp_us floor_us
    then legacy_version
    else e.write_timestamp_us

-- Commands in log order, each with the node's clock and the leader's stamp: their times, and the clock
-- after them. Each is applied at its time, which is cleared after it.
unfoldable pub apply_times : RaftClock → List (ℕ × ℕ) → List ApplyTime × RaftClock
apply_times c [] = ([], c)
apply_times c ((local, ts) ∷ cs) =
    let (t, c') = next_raft_apply_time local c ts in
    let (later, last) = apply_times (clear_apply_time (set_apply_time t c')) cs in (t ∷ later, last)
