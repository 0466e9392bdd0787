-- ===== src/Storage/DeadRanges.antt =====
-- raft_applied.go `cutWALAtAppliedMarker`: the dead ranges that a cut leaves describe what it dropped.
use veltrix_db.Base.{
  ℕ, ◌≤◌, ◌<◌, ◌≡◌, ◌⊎◌, inl, inr, refl, sym, ap, subst, ◌∙◌, Bool, true, false, not, ◌&&◌, ◌||◌,
  List, [], ◌∷◌, ◌++◌, arith, ltb, if◌then◌else◌, count_if, All, Bool-cases,
}
use veltrix_db.Storage.WalRecord.{WalReplayEntry}
use veltrix_db.Storage.Marker.{VersionRange, range_contains, AppliedMarker}
use veltrix_db.Storage.Applied.{
  in_dead, survives, mark_range, mark_records, unmarked, used_ranges, dead_after,
}

abbrev pub ranges : List (VersionRange × Bool) → List VersionRange
ranges [] = []
ranges ((r, used) ∷ rs) = r ∷ ranges rs

pub ranges-unmarked : (rs : List VersionRange) → ranges (unmarked rs) ≡ rs
unfolding unmarked
ranges-unmarked [] = refl
ranges-unmarked (r ∷ rs) = ap (λ l. r ∷ l) (ranges-unmarked rs)

ranges-mark_range : (v : ℕ) (rs : List (VersionRange × Bool)) → ranges (mark_range v rs) ≡ ranges rs
unfolding mark_range
ranges-mark_range v [] = refl
ranges-mark_range v ((r, u) ∷ rs) = ground (arith, ranges-mark_range v rs)

-- A used range is a range.
used_in :
    (x : ℕ) (rs : List (VersionRange × Bool))
    → in_dead (ranges rs) x ≡ false
    → in_dead (used_ranges rs) x ≡ false
unfolding in_dead used_ranges
used_in x [] h = refl
used_in x ((r, u) ∷ rs) h = ground (arith, used_in x rs)

-- What is marked for a version covers it, and marks stay.
marked_in :
    (v : ℕ) (rs : List (VersionRange × Bool))
    → in_dead (ranges rs) v ≡ true
    → in_dead (used_ranges (mark_range v rs)) v ≡ true
unfolding in_dead used_ranges mark_range
marked_in v [] h = cc
marked_in v ((r, u) ∷ rs) h = ground (arith, marked_in v rs)

still_in :
    (v x : ℕ) (rs : List (VersionRange × Bool))
    → in_dead (used_ranges rs) x ≡ true
    → in_dead (used_ranges (mark_range v rs)) x ≡ true
unfolding in_dead used_ranges mark_range
still_in v x [] h = h
still_in v x ((r, u) ∷ rs) h = ground (arith, still_in v x rs)

-- A pass over records.
ranges-mark_records :
    (v : ℕ) (es : List WalReplayEntry) (rs : List (VersionRange × Bool))
    → ranges (mark_records v es rs) ≡ ranges rs
unfolding mark_records
ranges-mark_records v [] rs = refl
ranges-mark_records v (e ∷ es) rs = ground (
  arith,
  ranges-mark_records v es (if ltb v e.version then rs else mark_range e.version rs),
  ranges-mark_range e.version rs,
)

still_in_records :
    (v x : ℕ) (es : List WalReplayEntry) (rs : List (VersionRange × Bool))
    → in_dead (used_ranges rs) x ≡ true
    → in_dead (used_ranges (mark_records v es rs)) x ≡ true
unfolding mark_records
still_in_records v x [] rs h = h
still_in_records v x (e ∷ es) rs h = elim (Bool-cases (ltb v e.version)) [
  | inl above ↦ rw above (still_in_records v x es rs h)
  | inr below ↦
      rw below (still_in_records v x es (mark_range e.version rs) (still_in e.version x rs h))
]

-- A record above the cut, or one that the ranges cover as the used ranges do.
abbrev pub Covered : ℕ → List VersionRange → List VersionRange → WalReplayEntry → Type 0
Covered v old new e = (ltb v e.version ≡ true) ⊎ (in_dead new e.version ≡ in_dead old e.version)

mark_one :
    (v : ℕ) (rs : List (VersionRange × Bool)) (es : List WalReplayEntry) (e : WalReplayEntry)
    → Covered v (ranges rs) (used_ranges (mark_records v (e ∷ es) rs)) e
unfolding mark_records
mark_one v rs es e = elim (Bool-cases (ltb v e.version)) [
  | inl above ↦ inl above
  | inr below ↦ inr (elim (Bool-cases (in_dead (ranges rs) e.version)) [
    | inl dead ↦
        rw (below, dead)
          (still_in_records v e.version es (mark_range e.version rs) (marked_in e.version rs dead))
    | inr alive ↦
        rw (below, alive)
          (used_in e.version (mark_records v es (mark_range e.version rs)) (
            ap (λ l. in_dead l e.version)
              (ranges-mark_records v es (mark_range e.version rs) ∙ ranges-mark_range e.version rs)
            ∙ alive))
  ])
]

pub mark_all :
    (v : ℕ) (es : List WalReplayEntry) (rs : List (VersionRange × Bool))
    → All (Covered v (ranges rs) (used_ranges (mark_records v es rs))) es
unfolding mark_records
mark_all v [] rs = tt
mark_all v (e ∷ es) rs = (
  mark_one v rs es e,
  elim (Bool-cases (ltb v e.version)) [
    | inl above ↦
        let q : mark_records v (e ∷ es) rs ≡ mark_records v es rs = rw above refl in
        subst (λ l. All (Covered v (ranges rs) (used_ranges l)) es) (sym q) (mark_all v es rs)
    | inr below ↦
        let rs' = mark_range e.version rs in
        let q : mark_records v (e ∷ es) rs ≡ mark_records v es rs' = rw below refl in
        subst (λ l. All (Covered v (ranges rs) (used_ranges l)) es) (sym q)
          (subst (λ l. All (Covered v l (used_ranges (mark_records v es rs'))) es)
            (ranges-mark_range e.version rs) (mark_all v es rs'))
  ],
)

any_append :
    (x : ℕ) (rs qs : List VersionRange) → in_dead (rs ++ qs) x ≡ (in_dead rs x || in_dead qs x)
unfolding in_dead
any_append x [] qs = refl
any_append x (r ∷ rs) qs = ground (arith, any_append x rs qs)

-- Records above the cut are counted.
pub counted :
    (p : WalReplayEntry → Bool) (es : List WalReplayEntry) (k : ℕ)
    → count_if p es ≤ k
    → All (λ e. (p e ≡ false) ⊎ (0 < k)) es
counted p [] k h = tt
counted p (e ∷ es) k h = elim (Bool-cases (p e)) [
  | inl yes' ↦ (inr (ground (arith, yes')), counted p es k (ground (arith, h)))
  | inr no' ↦ (inl no', counted p es k (ground (arith, h)))
]

module _ (m : AppliedMarker) (v max_version : ℕ) (es : List WalReplayEntry) where
  pub dropped_one :
      (e : WalReplayEntry)
      → Covered v m.dead (used_ranges (mark_records v es (unmarked m.dead))) e
      → (ltb v e.version ≡ false) ⊎ (0 < count_if (λ (x : WalReplayEntry). ltb v x.version) es)
      → e.version ≤ max_version
      → in_dead (dead_after m v max_version es) e.version ≡ not (survives m v e)
  unfolding dead_after survives in_dead range_contains
  dropped_one e c above h =
      let used = used_ranges (mark_records v es (unmarked m.dead)) in
      ground (
        arith,
        c,
        above,
        any_append e.version used (
            if ltb 0 (count_if (λ (x : WalReplayEntry). ltb v x.version) es) && ltb v max_version
            then record { lo = v; hi = max_version } ∷ []
            else []),
      )
