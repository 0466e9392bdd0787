-- ===== src/Storage/Tests.antt =====
-- Instances of the theorems on the Raft clock and on the records of the write-ahead log.
use veltrix_db.Base.{
  Option, take, crc32c, length, some, inr, ◌++◌, false, ℕ, ◌<◌, ◌≡◌, refl, true, add64, none, List,
  [], ◌∷◌, arith, All, map,
}
use veltrix_db.Storage.Clock.{
  ApplyTime, RaftClock, IndexEntry, next_raft_apply_time, apply_times, expiry_cutoff_us,
  version_token, is_expired, has_flag,
}
use veltrix_db.Storage.WalRecord.{WalEntry, WalReplayEntry, append_wal_record_binary, next_binary}
use veltrix_db.Storage.WalFields.{FitsWal, replay_of}
use veltrix_db.Storage.WalReplay.{replay_wal}
use veltrix_db.Storage.WalTorn.{append_all, replay_wal-append_all}
use veltrix_db.Storage.WalRoundTrip.{next_binary-append_wal_record_binary}
use veltrix_db.Storage.ClockOrder.{
  Increasing, apply_times-Increasing, apply_times-same, expiry_cutoff-expired, version_token-later,
}

abbrev running : RaftClock
running = record { last = 100; floor = 50; cur = none }

-- Two commands with a leader's time, the second of a leader whose clock is behind.
abbrev commands : List (ℕ × ℕ)
commands = (70, 200) ∷ (71, 90) ∷ []

abbrev elsewhere : List (ℕ × ℕ)
elsewhere = (900, 200) ∷ (3, 90) ∷ []

stamps_201 : map (λ (t : ApplyTime). t.stamp_us) (apply_times running commands).0 ≡ 200 ∷ 201 ∷ []
unfolding apply_times next_raft_apply_time add64
stamps_201 = refl

apply_times-Increasing_example : Increasing 100 (apply_times running commands).0
apply_times-Increasing_example =
    apply_times-Increasing running commands 300 (omega arith) (omega arith)
      (omega arith, (omega arith, tt)) (omega arith)

apply_times-same_example : apply_times running commands ≡ apply_times running elsewhere
apply_times-same_example =
    apply_times-same running commands elsewhere 300 refl
      (omega arith, omega arith, (omega arith, omega arith, tt)) (omega arith)

-- An entry with a deadline at 90, which is past when the clock shows 100.
abbrev short_lived : IndexEntry
short_lived = record { write_timestamp_us = 60; ttl_expiry_us = 90; flags = 8 }

expiry_cutoff-expired_example :
    All (λ t. is_expired short_lived t.now_us ≡ true) (apply_times running commands).0
unfolding is_expired has_flag expiry_cutoff_us
expiry_cutoff-expired_example =
    expiry_cutoff-expired short_lived 500 running commands 300 refl (omega arith) (omega arith)
      (omega arith, omega arith, (omega arith, omega arith, tt)) (omega arith) refl

abbrev rewritten : IndexEntry
rewritten = record { write_timestamp_us = 101; ttl_expiry_us = 0; flags = 0 }

version_token-later_example :
    let floor = (next_raft_apply_time 0 running 80).1.floor in
    version_token short_lived 70 floor < version_token rewritten 500 floor
unfolding is_expired has_flag next_raft_apply_time add64
version_token-later_example =
    version_token-later 0 running 80 short_lived rewritten 70 500 (omega arith) (omega arith)
      (omega arith) (omega arith) (omega arith) (omega arith) refl refl refl

-- The key "k" with the value "123456789" in the record, and a deadline.
abbrev an_entry : WalEntry
an_entry = record {
  timestamp = 1_700_000_000;
  is_tombstone = false;
  key = 107 ∷ [];
  value = 49 ∷ 50 ∷ 51 ∷ 52 ∷ 53 ∷ 54 ∷ 55 ∷ 56 ∷ 57 ∷ [];
  value_len = 9;
  checksum = 3_808_858_755;
  version = 12;
  vlog_offset = 0;
  packed = false;
  disk_value_len = 0;
  xform_flags = 0;
  ttl_expiry_us = 1_700_000_000_000_000;
}

an_entry-FitsWal : FitsWal an_entry
unfolding crc32c
an_entry-FitsWal = record {
  key_fits = omega arith;
  value_len_fits = omega arith;
  disk_fits = omega arith;
  checksum_fits = omega arith;
  xform_fits = omega arith;
  timestamp_fits = omega arith;
  version_fits = omega arith;
  offset_fits = omega arith;
  ttl_fits = omega arith;
  inline_fits = inr (refl, omega arith, refl);
}

next_binary-append_wal_record_binary_example :
    next_binary (append_wal_record_binary an_entry ++ 177 ∷ [])
    ≡ some (replay_of an_entry, 177 ∷ [])
next_binary-append_wal_record_binary_example =
    next_binary-append_wal_record_binary an_entry (177 ∷ []) an_entry-FitsWal

abbrev no_text : List ℕ → Option (WalReplayEntry × List ℕ)
no_text bs = none

replay_wal-append_all_example :
    replay_wal no_text (append_all (an_entry ∷ []) ++ take 60 (append_wal_record_binary an_entry))
    ≡ map replay_of (an_entry ∷ [])
replay_wal-append_all_example =
    replay_wal-append_all no_text (an_entry ∷ []) an_entry 60 (an_entry-FitsWal, tt)
      an_entry-FitsWal (unfold append_wal_record_binary in omega arith)

-- The record has the header with a deadline, the key, the value and the checksum.
record_length : length (append_wal_record_binary an_entry) ≡ 70
unfolding append_wal_record_binary
record_length = refl
