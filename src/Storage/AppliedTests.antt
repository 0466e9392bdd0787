-- ===== src/Storage/AppliedTests.antt =====
-- Instances of the theorems on the markers of the applied index.
use veltrix_db.Base.{
  ℕ, ◌≡◌, ◌⊎◌, refl, true, false, none, some, List, [], ◌∷◌, arith, map, filter_if, put_uvarint,
  get_uvarint, crc32c,
}
use veltrix_db.Storage.WalRecord.{WalReplayEntry}
use veltrix_db.Storage.WalFields.{replay_of}
use veltrix_db.Storage.Marker.{
  AppliedMarker, range_contains, encode_marker, decode_marker, marker_body, get_tail, get_marker,
  not_marker,
}
use veltrix_db.Storage.MarkerBytes.{FitsMarker, decode_marker-encode_marker}
use veltrix_db.Storage.Applied.{
  AppliedTracker, AppliedState, no_marker, no_tracker, marker_record, scan_disks, scan_disk,
  scan_record, newer, is_applied_marker, in_dead, strip, survives, all_records, cut_wal,
  raft_applied_state, set_raft_applied_state,
}
use veltrix_db.Storage.AppliedCut.{append_each, cut_wal-append_each}
use veltrix_db.Storage.AppliedOpen.{Unmarked, CutAt, cut_wal-CutAt}
use veltrix_db.Storage.AppliedWrites.{Wrote, set_raft_applied_state-Wrote}

abbrev marker : AppliedMarker
marker = record {
  index = 300;
  term = 2;
  flags = 0;
  ver = 7;
  dead = record { lo = 3; hi = 5 } ∷ [];
  clock = 1_000_000;
  floor = 0;
}

marker-FitsMarker : FitsMarker marker
marker-FitsMarker = record {
  index = omega arith;
  term = omega arith;
  flags = omega arith;
  ver = omega arith;
  count = omega arith;
  dead = omega arith;
  clock = omega arith;
  floor = omega arith;
}

decode_marker-encode_marker_example : decode_marker (encode_marker marker) ≡ some marker
decode_marker-encode_marker_example = decode_marker-encode_marker marker marker-FitsMarker

-- A record of a key, at a version.
abbrev at_version : ℕ → WalReplayEntry
at_version v = record {
  key = 107 ∷ [];
  is_tombstone = false;
  packed = false;
  value_len = 0;
  disk_len = 0;
  crc = 0;
  xflags = 0;
  timestamp_ns = 0;
  version = v;
  vlog_offset = 16;
  ttl_expiry_us = 0;
  value = [];
}

-- Two disks. Version 4 is dead, and 8 is later than the marker.
abbrev disks : List (List WalReplayEntry)
disks =
    (at_version 2 ∷ at_version 4 ∷ replay_of (marker_record 0 marker) ∷ [])
    ∷ (at_version 6 ∷ at_version 8 ∷ [])
    ∷ []

kept_versions :
    map (map (λ (e : WalReplayEntry). e.version)) (cut_wal disks 8 true).1
    ≡ (2 ∷ []) ∷ (6 ∷ []) ∷ []
unfolding cut_wal scan_disk scan_record newer is_applied_marker decode_marker get_tail get_marker
    not_marker marker_record encode_marker marker_body put_uvarint get_uvarint crc32c in_dead
kept_versions = refl

cut_wal-CutAt_example : Unmarked disks (cut_wal disks 8 true) ⊎ CutAt disks (cut_wal disks 8 true)
cut_wal-CutAt_example = cut_wal-CutAt disks 8

-- The engine goes on from the cut: it writes a key at version 9, and the next marker at 10.
abbrev opened : AppliedTracker
opened = (cut_wal disks 8 true).0

abbrev next_marker : AppliedMarker
next_marker = record marker {
  index = 301;
  ver = 10;
  dead = record { lo = 3; hi = 5 } ∷ record { lo = 7; hi = 8 } ∷ [];
}

abbrev appended : List (List WalReplayEntry)
appended = (at_version 9 ∷ []) ∷ (replay_of (marker_record 0 next_marker) ∷ []) ∷ []

first_scan : scan_disks none disks ≡ some (marker, 7)
unfolding scan_disks scan_record newer is_applied_marker decode_marker marker_record encode_marker
    put_uvarint get_uvarint crc32c
first_scan = refl

second_scan : scan_disks none (append_each disks appended) ≡ some (next_marker, 10)
unfolding scan_disks scan_record newer is_applied_marker decode_marker marker_record encode_marker
    put_uvarint get_uvarint crc32c
second_scan = refl

dead_kept : next_marker.dead ≡ opened.m.dead
unfolding cut_wal scan_record newer is_applied_marker decode_marker marker_record encode_marker
    put_uvarint get_uvarint crc32c range_contains
dead_kept = refl

cut_wal-append_each_example :
    (cut_wal (append_each disks appended) 10 true).1
    ≡ append_each
        (cut_wal disks 8 true).1
        (map (filter_if (survives next_marker 10)) (map strip appended))
cut_wal-append_each_example =
    cut_wal-append_each disks appended 8 10 marker next_marker 7 10
      (unfold all_records marker_record in omega arith) first_scan second_scan dead_kept
      (omega arith)

-- A marker of an engine that has written nothing yet.
fresh-FitsMarker : FitsMarker no_marker
fresh-FitsMarker = record {
  index = omega arith;
  term = omega arith;
  flags = omega arith;
  ver = omega arith;
  count = omega arith;
  dead = tt;
  clock = omega arith;
  floor = omega arith;
}

abbrev state_5 : AppliedState
state_5 = record { index = 5; term = 1; restoring = true }

set_raft_applied_state-Wrote_example :
    let w = set_raft_applied_state 0 11 (40, 30) state_5 (no_tracker true) in
    Wrote 0 11 (no_tracker true) w
    × (raft_applied_state w.2 ≡ some (record { index = 5; term = 1; restoring = false }))
set_raft_applied_state-Wrote_example =
    set_raft_applied_state-Wrote 0 11 40 30 state_5 (no_tracker true) refl (omega arith)
      fresh-FitsMarker (omega arith) (omega arith) (omega arith) (omega arith)
