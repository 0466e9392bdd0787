-- ===== src/Storage/AppliedOpen.antt =====
-- raft_applied.go: a log is cut at its newest trusted marker, and the markers that the engine writes are
-- trusted when they are replayed.
use veltrix_db.Base.{
  ℕ, ◌≤◌, ◌%◌, ◌≡◌, ◌⊎◌, inl, inr, refl, sym, subst, ◌∙◌, Bool, true, none, some, List, [], ◌∷◌,
  map, arith, ◌==◌, filter_if, any_if, bytes_eq, ltb, leb, not, ◌&&◌, ap, All, Bool-cases,
  Option-cases,
}
use veltrix_db.Storage.WalRecord.{WalReplayEntry}
use veltrix_db.Storage.Marker.{VersionRange, range_contains, AppliedMarker}
use veltrix_db.Storage.Applied.{
  AppliedTracker, is_applied_marker, scan_disks, strip, survives, in_dead, applied_marker_key,
  all_records, cut_at, cut_wal, raft_applied_state,
}
use veltrix_db.Storage.AppliedNewest.{
  In, Covers, IsFrom, scan_disks-all_records, scan_disk_lem, scan_disk-IsFrom,
}

-- No trusted marker: nothing is known, and nothing is cut.
pub record Unmarked (all : List (List WalReplayEntry))
    (r : AppliedTracker × List (List WalReplayEntry)) : Type 0 where
  pub absent : raft_applied_state r.0 ≡ none
  pub unmarked : All (λ (e : WalReplayEntry). is_applied_marker e ≡ none) (all_records all)
  pub kept : r.1 ≡ map strip all

-- A record that replay keeps: of a key of the store, at or below a version, and in no dead range.
abbrev pub stays : List VersionRange → ℕ → WalReplayEntry → Bool
stays dead v e =
    not (bytes_eq e.key applied_marker_key)
    && leb e.version v
    && not (any_if (λ (r : VersionRange). ltb r.lo e.version && leb e.version r.hi) dead)

-- The state is that of a trusted marker, none is newer, and just the records are kept that stay.
pub record CutAt (all : List (List WalReplayEntry))
    (r : AppliedTracker × List (List WalReplayEntry)) : Type 0 where
  pub source : WalReplayEntry
  pub marker : AppliedMarker
  pub stored : In source (all_records all)
  pub trusted : is_applied_marker source ≡ some marker
  pub version : source.version ≡ r.0.ver
  pub state :
      raft_applied_state r.0
      ≡ some
          (record { index = marker.index; term = marker.term; restoring = marker.flags % 2 == 1 })
  pub newest :
      All
        (λ (e : WalReplayEntry). (is_applied_marker e ≡ none) ⊎ (e.version ≤ r.0.ver))
        (all_records all)
  pub kept : r.1 ≡ map (filter_if (stays marker.dead r.0.ver)) all

in_dead-stays :
    (rs : List VersionRange) (v : ℕ)
    → in_dead rs v ≡ any_if (λ (r : VersionRange). ltb r.lo v && leb v r.hi) rs
unfolding in_dead range_contains
in_dead-stays [] v = refl
in_dead-stays (r ∷ rs) v = ground (arith, in_dead-stays rs v)

survives_lem :
    (m : AppliedMarker) (v : ℕ) (e : WalReplayEntry)
    → survives m v e ≡ (
        leb e.version v
        && not (any_if (λ (r : VersionRange). ltb r.lo e.version && leb e.version r.hi) m.dead))
unfolding survives
survives_lem m v e = ground (arith, in_dead-stays m.dead e.version)

-- The filters of the cut, one after the other, and the test of the specification.
stays_as_code :
    (m : AppliedMarker) (v : ℕ) (es : List WalReplayEntry)
    → filter_if (survives m v) (strip es) ≡ filter_if (stays m.dead v) es
unfolding strip
stays_as_code m v [] = refl
stays_as_code m v (e ∷ es) =
    let rest = stays_as_code m v es in
    elim (Bool-cases (bytes_eq e.key applied_marker_key)) [
      | inl k ↦ rw k rest
      | inr k ↦ elim (Bool-cases (survives m v e)) [
        | inl s ↦ let both = survives_lem m v e in rw (k, s, sym both ∙ s) (ap (λ l. e ∷ l) rest)
        | inr s ↦ let both = survives_lem m v e in rw (k, s, sym both ∙ s) rest
      ]
    ]

all_stays :
    (m : AppliedMarker) (v : ℕ) (ds : List (List WalReplayEntry))
    → map (filter_if (survives m v)) (map strip ds) ≡ map (filter_if (stays m.dead v)) ds
all_stays m v [] = refl
all_stays m v (d ∷ ds) =
    rw (stays_as_code m v d) (ap (λ l. filter_if (stays m.dead v) d ∷ l) (all_stays m v ds))

-- A log is cut at its newest trusted marker: the recorded state is that of a trusted marker of the log, no
-- trusted marker has a later version, and on each disk just those records are kept, in order, that have
-- another key than the reserved one, a version at or below the marker's, and in none of its dead ranges;
-- or no marker is trusted, no state is recorded, and nothing but the records of the reserved key is left out.
pub cut_wal-CutAt :
    (all : List (List WalReplayEntry)) (max_version : ℕ)
    → Unmarked all (cut_wal all max_version true) ⊎ CutAt all (cut_wal all max_version true)
unfolding cut_wal cut_at raft_applied_state
cut_wal-CutAt all max_version =
    let recs = all_records all in
    let scan = scan_disks-all_records none all in
    let covers = (scan_disk_lem none recs).1 in
    elim (Option-cases (scan_disks none all)) [
      | inl q ↦
          rw (q, cut_wal)
            (inl (record {
              absent = refl;
              unmarked = subst (λ b. All (Covers b) recs) (sym scan ∙ q) covers;
              kept = refl;
            }))
      | inr ((m, v), q) ↦
          let found : IsFrom (some (m, v)) recs = elim (scan_disk-IsFrom none recs) [
            | inl same ↦ absurd (let no : some (m, v) ≡ none = sym q ∙ scan ∙ same in cc)
            | inr f ↦ subst (λ b. IsFrom b recs) (sym scan ∙ q) f
          ] in
          rw (q, cut_wal)
            (inr (record {
              source = found.0;
              marker = m;
              stored = found.1;
              trusted = found.2;
              version = found.3;
              state = refl;
              newest = subst (λ b. All (Covers b) recs) (sym scan ∙ q) covers;
              kept = all_stays m v all;
            }))
    ]
