-- ===== src/Storage/AppliedCut.antt =====
-- raft_applied.go `cutWALAtAppliedMarker`: what a cut keeps, and that a later cut keeps the same of it.
use veltrix_db.Base.{
  ℕ, ◌≤◌, ◌<◌, ◌≡◌, ◌⊎◌, inl, inr, refl, sym, ap, subst, ◌∙◌, Bool, true, false, not, ◌&&◌, none,
  some, List, [], ◌∷◌, ◌++◌, map, arith, ltb, if◌then◌else◌, count_if, filter_if, All, All-filter,
  All-split, All-join, Bool-cases, bytes_eq,
}
use veltrix_db.Storage.WalRecord.{WalReplayEntry}
use veltrix_db.Storage.Marker.{AppliedMarker}
use veltrix_db.Storage.Applied.{
  applied_marker_key, scan_disks, strip, in_dead, survives, mark_records, unmarked, used_ranges,
  all_records, dead_after, cut_at, cut_wal,
}
use veltrix_db.Storage.DeadRanges.{Covered, ranges-unmarked, mark_all, counted, dropped_one}

All-strip {ℓ} :
    (P : WalReplayEntry → Type ℓ) (ds : List (List WalReplayEntry))
    → All P (all_records ds)
    → All P (all_records (map strip ds))
unfolding all_records strip
All-strip P [] a = tt
All-strip P (d ∷ ds) a =
    let (l, r) = All-split P d (all_records ds) a in
    All-join P (strip d) (all_records (map strip ds)) (All-filter P _ d l) (All-strip P ds r)

-- Two tests that agree on the records keep the same of them.
filter-cong :
    {A : Type 0} (p q : A → Bool) (es : List A)
    → All (λ e. p e ≡ q e) es
    → filter_if p es ≡ filter_if q es
filter-cong p q [] a = refl
filter-cong p q (e ∷ es) a =
    λ i. if a.0 i then e ∷ filter-cong p q es a.1 i else filter-cong p q es a.1 i

map-filter-cong :
    (p q : WalReplayEntry → Bool) (ds : List (List WalReplayEntry))
    → All (λ e. p e ≡ q e) (all_records ds)
    → map (filter_if p) ds ≡ map (filter_if q) ds
unfolding all_records
map-filter-cong p q [] a = refl
map-filter-cong p q (d ∷ ds) a =
    let (l, r) = All-split (λ e. p e ≡ q e) d (all_records ds) a in
    λ i. filter-cong p q d l i ∷ map-filter-cong p q ds r i

survives_lem :
    (m : AppliedMarker) (v : ℕ) (e : WalReplayEntry)
    → survives m v e ≡ (not (ltb v e.version) && not (in_dead m.dead e.version))
unfolding survives
survives_lem m v e = refl

-- The records that the log held at the first cut, and what a later cut makes of them.
module _ (m m' : AppliedMarker) (v v' max_version : ℕ) (ds : List (List WalReplayEntry))
    (known : All (λ (e : WalReplayEntry). e.version ≤ max_version) (all_records ds))
    (dead : m'.dead ≡ dead_after m v max_version (all_records ds)) (later : max_version ≤ v') where
  same_one :
      (e : WalReplayEntry)
      → e.version ≤ max_version
      → in_dead (dead_after m v max_version (all_records ds)) e.version ≡ not (survives m v e)
      → survives m' v' e ≡ survives m v e
  same_one e h d = ground (arith, survives_lem m' v' e, ap (λ l. in_dead l e.version) dead ∙ d)

  same_all :
      (es : List WalReplayEntry)
      → All (λ (e : WalReplayEntry). e.version ≤ max_version) es
      → All (Covered v m.dead (used_ranges (mark_records v (all_records ds) (unmarked m.dead)))) es
      → All
          (λ (e : WalReplayEntry).
            (ltb v e.version ≡ false)
            ⊎ (0 < count_if (λ (x : WalReplayEntry). ltb v x.version) (all_records ds)))
          es
      → All (λ e. survives m' v' e ≡ survives m v e) es
  same_all [] k c a = tt
  same_all (e ∷ es) k c a = (
    same_one e k.0 (dropped_one m v max_version (all_records ds) e c.0 a.0 k.0),
    same_all es k.1 c.1 a.1,
  )

  cut_again : map (filter_if (survives m' v')) ds ≡ map (filter_if (survives m v)) ds
  cut_again = map-filter-cong (survives m' v') (survives m v) ds (
      same_all (all_records ds) known
        (subst
          (λ l.
            All (Covered v l (used_ranges (mark_records v (all_records ds) (unmarked m.dead))))
              (all_records ds))
          (ranges-unmarked m.dead) (mark_all v (all_records ds) (unmarked m.dead)))
        (counted (λ (x : WalReplayEntry). ltb v x.version) (all_records ds) _ (omega arith)))

-- Each disk's log with the records that were appended to it.
abbrev pub append_each :
    List (List WalReplayEntry) → List (List WalReplayEntry) → List (List WalReplayEntry)
append_each [] ns = ns
append_each (d ∷ ds) [] = d ∷ ds
append_each (d ∷ ds) (n ∷ ns) = (d ++ n) ∷ append_each ds ns

filter-append :
    {A : Type 0} (p : A → Bool) (es fs : List A)
    → filter_if p (es ++ fs) ≡ filter_if p es ++ filter_if p fs
filter-append p [] fs = refl
filter-append p (e ∷ es) fs = elim (Bool-cases (p e)) [
  | inl k ↦ rw k (ap (λ l. e ∷ l) (filter-append p es fs))
  | inr d ↦ rw d (filter-append p es fs)
]

map-append_each :
    (p : WalReplayEntry → Bool) (ds ns : List (List WalReplayEntry))
    → map (filter_if p) (append_each ds ns)
      ≡ append_each (map (filter_if p) ds) (map (filter_if p) ns)
map-append_each p [] ns = refl
map-append_each p (d ∷ ds) [] = refl
map-append_each p (d ∷ ds) (n ∷ ns) = λ i. filter-append p d n i ∷ map-append_each p ds ns i

strip-append_each :
    (ds ns : List (List WalReplayEntry))
    → map strip (append_each ds ns) ≡ append_each (map strip ds) (map strip ns)
unfolding strip
strip-append_each ds ns =
    map-append_each (λ (e : WalReplayEntry). not (bytes_eq e.key applied_marker_key)) ds ns

cut_found :
    (all : List (List WalReplayEntry)) (max_version : ℕ) (m : AppliedMarker) (v : ℕ)
    → scan_disks none all ≡ some (m, v)
    → cut_wal all max_version true ≡ cut_at m v max_version (map strip all)
unfolding cut_wal
cut_found all max_version m v q = rw (q, cut_wal) refl

-- What a cut dropped stays dropped, and what it kept stays: when records were appended to the logs, and
-- the newest trusted marker, of a version no earlier than any of the old records, has the dead ranges
-- that the first cut left, the next cut keeps of the old records what the first cut kept, and of the new
-- ones those that survive the new marker.
pub cut_wal-append_each :
    (ds ns : List (List WalReplayEntry)) (max_version later : ℕ) (m m' : AppliedMarker) (v v' : ℕ)
    → All (λ (e : WalReplayEntry). e.version ≤ max_version) (all_records ds)
    → scan_disks none ds ≡ some (m, v)
    → scan_disks none (append_each ds ns) ≡ some (m', v')
    → m'.dead ≡ (cut_wal ds max_version true).0.m.dead
    → max_version ≤ v'
    → (cut_wal (append_each ds ns) later true).1
      ≡ append_each
          (cut_wal ds max_version true).1
          (map (filter_if (survives m' v')) (map strip ns))
unfolding cut_at
cut_wal-append_each ds ns max_version later m m' v v' known first second dead h =
    let c = cut_found ds max_version m v first in
    let c' = cut_found (append_each ds ns) later m' v' second in
    let again =
      cut_again m m' v v' max_version (map strip ds)
        (All-strip (λ (e : WalReplayEntry). e.version ≤ max_version) ds known)
        (dead ∙ ap (λ x. x.0.m.dead) c) h in
    ap (λ x. x.1) c'
    ∙ ap (map (filter_if (survives m' v'))) (strip-append_each ds ns)
    ∙ map-append_each (survives m' v') (map strip ds) (map strip ns)
    ∙ ap (λ l. append_each l (map (filter_if (survives m' v')) (map strip ns)))
        (again ∙ sym (ap (λ x. x.1) c))
