-- ===== src/Storage/Applied.antt =====
-- storage/raft_applied.go: the cut of a replayed log at the newest marker of the raft applied index,
-- and the writing of markers.
use veltrix_db.Base.{
  ℕ, ◌+◌, ◌-◌, ◌%◌, Bool, true, false, not, ◌&&◌, ◌||◌, Option, none, some, List, [], ◌∷◌, ◌++◌,
  map, ltb, leb, ◌==◌, if◌then◌else◌, length, any_if, filter_if, count_if, add64, bytes_eq, crc32c,
}
use veltrix_db.Storage.WalRecord.{WalEntry, WalReplayEntry}
use veltrix_db.Storage.Marker.{
  VersionRange, range_contains, AppliedMarker, encode_marker, decode_marker,
}

-- appliedMarkerKey, a NUL and "veltrix/raft-applied"
abbrev pub applied_marker_key : List ℕ
applied_marker_key =
    0 ∷ 118 ∷ 101 ∷ 108 ∷ 116 ∷ 114 ∷ 105 ∷ 120 ∷ 47 ∷ 114 ∷ 97 ∷ 102 ∷ 116 ∷ 45 ∷ 97 ∷ 112 ∷ 112
    ∷ 108 ∷ 105 ∷ 101 ∷ 100 ∷ []

-- AppliedIndexState
pub record AppliedState : Type 0 where
  pub index : ℕ
  pub term : ℕ
  pub restoring : Bool

-- appliedTracker, less its lock, its gate and the copy of the opened state
pub record AppliedTracker : Type 0 where
  pub enabled : Bool
  pub present : Bool
  pub m : AppliedMarker
  pub ver : ℕ
  pub cut_version : ℕ
  pub cut_dropped : ℕ

abbrev pub no_marker : AppliedMarker
no_marker = record { index = 0; term = 0; flags = 0; ver = 0; dead = []; clock = 0; floor = 0 }

abbrev pub no_tracker : Bool → AppliedTracker
no_tracker enabled = record {
  enabled = enabled;
  present = false;
  m = no_marker;
  ver = 0;
  cut_version = 0;
  cut_dropped = 0;
}

-- isAppliedMarker
unfoldable pub is_applied_marker : WalReplayEntry → Option AppliedMarker
is_applied_marker e =
    if not (bytes_eq e.key applied_marker_key) || e.is_tombstone || length e.value == 0
    then none
    else elim (decode_marker e.value) [
      | none ↦ none
      | some m ↦ if m.ver == e.version then some m else none
    ]

-- The newest trusted marker so far, with its version.
abbrev pub Best : Type 0
Best = Option (AppliedMarker × ℕ)

unfoldable pub newer : Best → AppliedMarker → ℕ → Best
newer none m v = some (m, v)
newer (some (m', v')) m v = if leb v' v then some (m, v) else some (m', v')

unfoldable pub scan_record : Best → WalReplayEntry → Best
unfolding newer
scan_record best e = elim (is_applied_marker e) [ none ↦ best | some m ↦ newer best m e.version ]

unfoldable pub scan_disk : Best → List WalReplayEntry → Best
unfolding scan_record
scan_disk best [] = best
scan_disk best (e ∷ es) = scan_disk (scan_record best e) es

unfoldable pub scan_disks : Best → List (List WalReplayEntry) → Best
unfolding scan_disk
scan_disks best [] = best
scan_disks best (d ∷ ds) = scan_disks (scan_disk best d) ds

-- The records of the reserved key are no keys.
unfoldable pub strip : List WalReplayEntry → List WalReplayEntry
strip es = filter_if (λ (e : WalReplayEntry). not (bytes_eq e.key applied_marker_key)) es

-- In a dead range, and whether the record stays at a cut.
unfoldable pub in_dead : List VersionRange → ℕ → Bool
unfolding range_contains
in_dead rs v = any_if (λ r. range_contains r v) rs

unfoldable pub survives : AppliedMarker → ℕ → WalReplayEntry → Bool
unfolding in_dead
survives m v e = not (ltb v e.version) && not (in_dead m.dead e.version)

-- The first dead range that contains the version of a dropped record is marked as used.
unfoldable pub mark_range : ℕ → List (VersionRange × Bool) → List (VersionRange × Bool)
unfolding range_contains
mark_range v [] = []
mark_range v ((r, used) ∷ rs) =
    let rest = mark_range v rs in if range_contains r v then (r, true) ∷ rs else (r, used) ∷ rest

unfoldable pub mark_records :
    ℕ → List WalReplayEntry → List (VersionRange × Bool) → List (VersionRange × Bool)
unfolding mark_range
mark_records v [] rs = rs
mark_records v (e ∷ es) rs =
    mark_records v es (if ltb v e.version then rs else mark_range e.version rs)

unfoldable pub unmarked : List VersionRange → List (VersionRange × Bool)
unmarked [] = []
unmarked (r ∷ rs) = (r, false) ∷ unmarked rs

unfoldable pub used_ranges : List (VersionRange × Bool) → List VersionRange
used_ranges [] = []
used_ranges ((r, used) ∷ rs) = let rest = used_ranges rs in if used then r ∷ rest else rest

unfoldable pub all_records : List (List WalReplayEntry) → List WalReplayEntry
all_records [] = []
all_records (d ∷ ds) = d ++ all_records ds

-- The dead ranges after a cut of the records `es` at `v`, where `max_version` is the newest version.
unfoldable pub dead_after : AppliedMarker → ℕ → ℕ → List WalReplayEntry → List VersionRange
unfolding mark_records unmarked used_ranges
dead_after m v max_version es =
    let above = count_if (λ (e : WalReplayEntry). ltb v e.version) es in
    used_ranges (mark_records v es (unmarked m.dead))
    ++ (if ltb 0 above && ltb v max_version then record { lo = v; hi = max_version } ∷ [] else [])

-- The cut at the marker `m` of version `v`; the disks hold no markers any more.
unfoldable pub cut_at :
    AppliedMarker → ℕ → ℕ → List (List WalReplayEntry) → AppliedTracker × List (List WalReplayEntry)
unfolding dead_after survives all_records
cut_at m v max_version disks = (
  record {
    enabled = true;
    present = true;
    m = record m { dead = dead_after m v max_version (all_records disks) };
    ver = v;
    cut_version = v;
    cut_dropped = count_if (λ (e : WalReplayEntry). not (survives m v e)) (all_records disks);
  },
  map (filter_if (survives m v)) disks,
)

-- cutWALAtAppliedMarker
unfoldable pub cut_wal :
    List (List WalReplayEntry) → ℕ → Bool → AppliedTracker × List (List WalReplayEntry)
unfolding scan_disks strip cut_at
cut_wal all max_version enabled = elim (scan_disks none all) [
  | none ↦ (no_tracker enabled, map strip all)
  | some (m, v) ↦
      if enabled
      then cut_at m v max_version (map strip all)
      else (no_tracker enabled, map strip all)
]

-- RaftAppliedState
unfoldable pub raft_applied_state : AppliedTracker → Option AppliedState
raft_applied_state t =
    if t.enabled && t.present
    then some (record { index = t.m.index; term = t.m.term; restoring = t.m.flags % 2 == 1 })
    else none

-- the WAL record of a marker, written at a time
unfoldable pub marker_record : ℕ → AppliedMarker → WalEntry
marker_record now m =
    let value = encode_marker m in
    record {
      timestamp = now;
      is_tombstone = false;
      key = applied_marker_key;
      value = value;
      value_len = length value;
      checksum = crc32c value;
      version = m.ver;
      vlog_offset = 0;
      packed = false;
      disk_value_len = 0;
      xform_flags = 0;
      ttl_expiry_us = 0;
    }

-- writeAppliedMarker with the updated marker, over the engine's version counter; the record that it
-- queues, none if the engine keeps no markers. The engine has a log: without one it is an error.
unfoldable pub write_applied_marker :
    ℕ → ℕ → AppliedMarker → AppliedTracker → Option WalEntry × ℕ × AppliedTracker
unfolding marker_record
write_applied_marker now version updated t =
    if t.enabled
    then (let ver = add64 version 1 in
        let m' : AppliedMarker = record updated { ver = ver } in
        (some (marker_record now m'), ver, record t { m = m'; present = true; ver = ver }))
    else (none, version, t)

-- SetRaftAppliedState, with the raft clock as it is now
unfoldable pub set_raft_applied_state :
    ℕ → ℕ → ℕ × ℕ → AppliedState → AppliedTracker → Option WalEntry × ℕ × AppliedTracker
unfolding write_applied_marker
set_raft_applied_state now version (clock, floor) st t =
    write_applied_marker now version
      (record t.m {
        index = st.index;
        term = st.term;
        flags = t.m.flags - t.m.flags % 2;
        clock = clock;
        floor = floor;
      })
      t

-- BeginRaftRestore
unfoldable pub begin_raft_restore : ℕ → ℕ → AppliedTracker → Option WalEntry × ℕ × AppliedTracker
unfolding write_applied_marker
begin_raft_restore now version t =
    write_applied_marker now version (record t.m { flags = t.m.flags - t.m.flags % 2 + 1 }) t

-- checkpointCut: the version of a checkpoint and the marker that it carries
unfoldable pub checkpoint_cut : ℕ → AppliedTracker → Option (ℕ × WalEntry)
unfolding marker_record
checkpoint_cut now t =
    if t.enabled && t.present
    then some (t.ver, marker_record now (record t.m { ver = t.ver }))
    else none
