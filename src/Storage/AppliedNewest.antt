-- ===== src/Storage/AppliedNewest.antt =====
-- raft_applied.go `cutWALAtAppliedMarker`: the marker that the scan of the records finds.
use veltrix_db.Base.{
  ◌≤◌, ◌≡◌, ◌⊎◌, inl, inr, refl, sym, subst, ◌∙◌, none, some, List, [], ◌∷◌, ◌++◌, arith, leb,
  leb→le, All, Bool-cases, Option-cases,
}
use veltrix_db.Storage.WalRecord.{WalReplayEntry}
use veltrix_db.Storage.Marker.{AppliedMarker}
use veltrix_db.Storage.Applied.{
  Best, is_applied_marker, newer, scan_record, scan_disk, scan_disks, all_records,
}

abbrev pub In : {A : Type 0} → A → List A → Type 0
In a [] = ⊥
In a (x ∷ xs) = (a ≡ x) ⊎ In a xs

scan_disk-append :
    (best : Best) (es fs : List WalReplayEntry)
    → scan_disk best (es ++ fs) ≡ scan_disk (scan_disk best es) fs
unfolding scan_disk
scan_disk-append best [] fs = refl
scan_disk-append best (e ∷ es) fs = scan_disk-append (scan_record best e) es fs

pub scan_disks-all_records :
    (best : Best) (ds : List (List WalReplayEntry))
    → scan_disks best ds ≡ scan_disk best (all_records ds)
unfolding scan_disks all_records scan_disk
scan_disks-all_records best [] = refl
scan_disks-all_records best (d ∷ ds) =
    scan_disks-all_records (scan_disk best d) ds ∙ sym (scan_disk-append best d (all_records ds))

-- The marker found is no older than `e`.
abbrev pub Covers : Best → WalReplayEntry → Type 0
Covers none e = is_applied_marker e ≡ none
Covers (some (m, v)) e = (is_applied_marker e ≡ none) ⊎ (e.version ≤ v)

abbrev pub AtLeast : Best → Best → Type 0
AtLeast none new = Unit {0}
AtLeast (some (m, v)) none = ⊥
AtLeast (some (m, v)) (some (m', v')) = v ≤ v'

AtLeast-trans : (a b c : Best) → AtLeast a b → AtLeast b c → AtLeast a c
AtLeast-trans none b c p q = tt
AtLeast-trans (some (m, v)) none c p q = absurd p
AtLeast-trans (some (m, v)) (some (m', v')) none p q = absurd q
AtLeast-trans (some (m, v)) (some (m', v')) (some (m2, v2)) p q = omega arith

Covers-AtLeast : (e : WalReplayEntry) (a b : Best) → Covers a e → AtLeast a b → Covers b e
Covers-AtLeast e none none p q = p
Covers-AtLeast e none (some (m, v)) p q = inl p
Covers-AtLeast e (some (m, v)) none p q = absurd q
Covers-AtLeast e (some (m, v)) (some (m', v')) (inl p) q = inl p
Covers-AtLeast e (some (m, v)) (some (m', v')) (inr p) q = inr (omega arith)

AtLeast-refl : (a : Best) → AtLeast a a
AtLeast-refl none = tt
AtLeast-refl (some (m, v)) = omega arith

Covers-none : (e : WalReplayEntry) (a : Best) → is_applied_marker e ≡ none → Covers a e
Covers-none e none q = q
Covers-none e (some (m, v)) q = inl q

newer_lem :
    (best : Best) (m : AppliedMarker) (e : WalReplayEntry)
    → AtLeast best (newer best m e.version) × Covers (newer best m e.version) e
unfolding newer
newer_lem none m e = (tt, inr (omega arith))
newer_lem (some (m', v')) m e = elim (Bool-cases (leb v' e.version)) [
  | inl up ↦ rw up (leb→le v' e.version up, inr (omega arith))
  | inr down ↦ rw down (omega arith, inr (ground arith))
]

skipped :
    (best : Best) (e : WalReplayEntry) → is_applied_marker e ≡ none → scan_record best e ≡ best
unfolding scan_record
skipped best e q = rw (q, scan_record) refl

taken :
    (best : Best) (e : WalReplayEntry) (m : AppliedMarker)
    → is_applied_marker e ≡ some m
    → scan_record best e ≡ newer best m e.version
unfolding scan_record
taken best e m q = rw (q, scan_record) refl

scan_record_lem :
    (best : Best) (e : WalReplayEntry)
    → AtLeast best (scan_record best e) × Covers (scan_record best e) e
scan_record_lem best e = elim (Option-cases (is_applied_marker e)) [
  | inl q ↦ rw (skipped best e q) (AtLeast-refl best, Covers-none e best q)
  | inr (m, q) ↦ rw (taken best e m q) (newer_lem best m e)
]

pub scan_disk_lem :
    (best : Best) (es : List WalReplayEntry)
    → AtLeast best (scan_disk best es) × All (Covers (scan_disk best es)) es
unfolding scan_disk
scan_disk_lem best [] = (AtLeast-refl best, tt)
scan_disk_lem best (e ∷ es) =
    let (up, here') = scan_record_lem best e in
    let (up', rest) = scan_disk_lem (scan_record best e) es in
    let last = scan_disk (scan_record best e) es in
    (
      AtLeast-trans best (scan_record best e) last up up',
      (Covers-AtLeast e (scan_record best e) last here' up', rest),
    )

-- The marker found is that of a record.
abbrev pub IsFrom : Best → List WalReplayEntry → Type 0
IsFrom none es = Unit {0}
IsFrom (some (m, v)) es =
    (e : WalReplayEntry) × In e es × (is_applied_marker e ≡ some m) × (e.version ≡ v)

IsFrom-cons :
    (best : Best) (x : WalReplayEntry) (es : List WalReplayEntry)
    → IsFrom best es
    → IsFrom best (x ∷ es)
IsFrom-cons none x es f = tt
IsFrom-cons (some (m, v)) x es f = (f.0, inr f.1, f.2, f.3)

newer_from :
    (best : Best) (m : AppliedMarker) (e : WalReplayEntry)
    → (newer best m e.version ≡ some (m, e.version)) ⊎ (newer best m e.version ≡ best)
unfolding newer
newer_from none m e = inl refl
newer_from (some (m', v')) m e = elim (Bool-cases (leb v' e.version)) [
  | inl up ↦ inl (rw up refl)
  | inr down ↦ inr (rw down refl)
]

pub scan_disk-IsFrom :
    (best : Best) (es : List WalReplayEntry)
    → (scan_disk best es ≡ best) ⊎ IsFrom (scan_disk best es) es
unfolding scan_disk
scan_disk-IsFrom best [] = inl refl
scan_disk-IsFrom best (e ∷ es) =
    let after = scan_disk (scan_record best e) es in
    elim (scan_disk-IsFrom (scan_record best e) es) [
      | inr later ↦ inr (IsFrom-cons after e es later)
      | inl same ↦ elim (Option-cases (is_applied_marker e)) [
        | inl q ↦ inl (same ∙ skipped best e q)
        | inr (m, q) ↦ elim (newer_from best m e) [
          | inr old ↦ inl (same ∙ taken best e m q ∙ old)
          | inl new ↦ inr (
              subst (λ b. IsFrom b (e ∷ es)) (sym (same ∙ taken best e m q ∙ new))
                (e, inl refl, q, refl))
        ]
      ]
    ]
