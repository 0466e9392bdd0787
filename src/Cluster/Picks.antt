-- ===== src/Cluster/Picks.antt =====
-- partition_map.go `pickReplicas`: one pass over candidates.
use veltrix_db.Base.{
  ℕ, suc, ◌≤◌, ◌≡◌, ◌⊎◌, inl, inr, refl, ap, ◌∙◌, Bool, true, false, not, ◌&&◌, ◌||◌, List, [], ◌∷◌,
  ◌++◌, arith, ltb, ltb→lt, length, length-append, any_if, All, Bool-cases, bytes_eq, bytes_eq_refl,
}
use veltrix_db.Cluster.Types.{Member}
use veltrix_db.Cluster.Placement.{Picks, pick_one, pick_pass}

abbrev pub has_text : List (List ℕ) → List ℕ → Bool
has_text xs x = any_if (bytes_eq x) xs

-- No text stands twice.
abbrev pub IsDistinct : List (List ℕ) → Type 0
IsDistinct [] = Unit
IsDistinct (x ∷ xs) = (has_text xs x ≡ false) × IsDistinct xs

bytes_eq_sym : (a b : List ℕ) → bytes_eq a b ≡ bytes_eq b a
bytes_eq_sym [] [] = refl
bytes_eq_sym [] (y ∷ ys) = refl
bytes_eq_sym (x ∷ xs) [] = refl
bytes_eq_sym (x ∷ xs) (y ∷ ys) = ground (arith, bytes_eq_sym xs ys)

has_text-append :
    (x y : List ℕ) (xs : List (List ℕ))
    → has_text (xs ++ y ∷ []) x ≡ (has_text xs x || bytes_eq x y)
has_text-append x y [] = ground arith
has_text-append x y (z ∷ xs) = ground (arith, has_text-append x y xs)

append-IsDistinct :
    (xs : List (List ℕ)) (y : List ℕ)
    → has_text xs y ≡ false
    → IsDistinct xs
    → IsDistinct (xs ++ y ∷ [])
append-IsDistinct [] y h d = (refl, tt)
append-IsDistinct (x ∷ xs) y h d = (
  ground (arith, has_text-append x y xs, bytes_eq_sym x y, h, d.0),
  append-IsDistinct xs y (ground (arith, h)) d.1,
)

-- A candidate is left out, for a reason, or chosen.
abbrev pub is_skipped : Bool → ℕ → Picks → Member → Bool
is_skipped first rf p c =
    not (ltb (length p.ids) rf)
    || has_text p.ids c.id
    || (first && ltb 0 (length p.ids) && has_text p.racks c.rack)

abbrev pub with_pick : Picks → Member → Picks
with_pick p c = record { ids = p.ids ++ c.id ∷ []; racks = p.racks ++ c.rack ∷ [] }

pub skipped :
    (first : Bool) (rf : ℕ) (p : Picks) (c : Member)
    → is_skipped first rf p c ≡ true
    → pick_one first rf p c ≡ p
unfolding pick_one
skipped first rf p c s = ground (arith, s)

pub chosen :
    (first : Bool) (rf : ℕ) (p : Picks) (c : Member)
    → is_skipped first rf p c ≡ false
    → pick_one first rf p c ≡ with_pick p c
unfolding pick_one
chosen first rf p c s = ground (arith, s)

-- Two lists of one length, element by element.
abbrev pub AllPairs : (List ℕ → List ℕ → Type 0) → List (List ℕ) → List (List ℕ) → Type 0
AllPairs R [] [] = Unit
AllPairs R [] (y ∷ ys) = ⊥
AllPairs R (x ∷ xs) [] = ⊥
AllPairs R (x ∷ xs) (y ∷ ys) = R x y × AllPairs R xs ys

AllPairs-append :
    (R : List ℕ → List ℕ → Type 0) (xs ys : List (List ℕ)) (x y : List ℕ)
    → AllPairs R xs ys
    → R x y
    → AllPairs R (xs ++ x ∷ []) (ys ++ y ∷ [])
AllPairs-append R [] [] x y a r = (r, tt)
AllPairs-append R [] (v ∷ ys) x y a r = absurd a
AllPairs-append R (u ∷ xs) [] x y a r = absurd a
AllPairs-append R (u ∷ xs) (v ∷ ys) x y a r = (a.0, AllPairs-append R xs ys x y a.1 r)

length-AllPairs :
    (R : List ℕ → List ℕ → Type 0) (xs ys : List (List ℕ))
    → AllPairs R xs ys
    → length ys ≡ length xs
length-AllPairs R [] [] a = refl
length-AllPairs R [] (y ∷ ys) a = absurd a
length-AllPairs R (x ∷ xs) [] a = absurd a
length-AllPairs R (x ∷ xs) (y ∷ ys) a = ap suc (length-AllPairs R xs ys a.1)

-- The picks are distinct and not too many, and each stands in a relation to its rack.
pub record ArePicks (first : Bool) (rf : ℕ) (R : List ℕ → List ℕ → Type 0) (p : Picks)
    : Type 0 where
  pub distinct : IsDistinct p.ids
  pub within : length p.ids ≤ rf
  pub apart : (first ≡ false) ⊎ IsDistinct p.racks
  pub pairs : AllPairs R p.ids p.racks

no_racks :
    (p : Picks)
    → length p.racks ≡ length p.ids
    → ltb 0 (length p.ids) ≡ false
    → (x : List ℕ) → has_text p.racks x ≡ false
no_racks p l z x = none p.racks (ground (arith, l, z))
  where
    none : (xs : List (List ℕ)) → length xs ≡ 0 → has_text xs x ≡ false
    none [] e = refl
    none (y ∷ ys) e = absurd (omega arith)

module _ (first : Bool) (rf : ℕ) (R : List ℕ → List ℕ → Type 0) where
  apart_one :
      (p : Picks) (c : Member)
      → is_skipped first rf p c ≡ false
      → ArePicks first rf R p
      → (first ≡ false) ⊎ IsDistinct (p.racks ++ c.rack ∷ [])
  apart_one p c s w = elim w.apart [
    | inl second ↦ inl second
    | inr d ↦ elim (Bool-cases first) [
      | inr second ↦ inl second
      | inl f ↦ inr (append-IsDistinct p.racks c.rack (new_rack f) d)
    ]
  ]
    where
      new_rack : first ≡ true → has_text p.racks c.rack ≡ false
      new_rack f = elim (Bool-cases (ltb 0 (length p.ids))) [
        | inl some' ↦ ground (arith, s, f, some')
        | inr none' ↦ no_racks p (length-AllPairs R p.ids p.racks w.pairs) none' c.rack
      ]

  pick_one-ArePicks :
      (p : Picks) (c : Member)
      → R c.id c.rack
      → ArePicks first rf R p
      → ArePicks first rf R (pick_one first rf p c)
  pick_one-ArePicks p c k w = elim (Bool-cases (is_skipped first rf p c)) [
    | inl s ↦ rw (skipped first rf p c s) w
    | inr s ↦
        let room : ltb (length p.ids) rf ≡ true = ground (arith, s) in
        rw (chosen first rf p c s) (record {
          distinct = append-IsDistinct p.ids c.id (ground (arith, s)) w.distinct;
          within = omega (arith, length-append p.ids (c.id ∷ []), ltb→lt (length p.ids) rf room);
          apart = apart_one p c s w;
          pairs = AllPairs-append R p.ids p.racks c.id c.rack w.pairs k;
        })
  ]

  pub pick_pass-ArePicks :
      (p : Picks) (cs : List Member)
      → All (λ (c : Member). R c.id c.rack) cs
      → ArePicks first rf R p
      → ArePicks first rf R (pick_pass first rf p cs)
  unfolding pick_pass
  pick_pass-ArePicks p [] k w = w
  pick_pass-ArePicks p (c ∷ cs) k w =
      pick_pass-ArePicks (pick_one first rf p c) cs k.1 (pick_one-ArePicks p c k.0 w)

-- What is chosen stays chosen.
pub record Grows (p q : Picks) : Type 0 where
  pub ids : (x : List ℕ) → has_text p.ids x ≡ true → has_text q.ids x ≡ true
  pub racks : (x : List ℕ) → has_text p.racks x ≡ true → has_text q.racks x ≡ true
  pub longer : length p.ids ≤ length q.ids

Grows-trans : {p q r : Picks} → Grows p q → Grows q r → Grows p r
Grows-trans a b = record {
  ids = λ x h. b.ids x (a.ids x h);
  racks = λ x h. b.racks x (a.racks x h);
  longer = omega (arith, a.longer, b.longer);
}

module _ (first : Bool) (rf : ℕ) where
  pick_one-Grows : (p : Picks) (c : Member) → Grows p (pick_one first rf p c)
  pick_one-Grows p c = elim (Bool-cases (is_skipped first rf p c)) [
    | inl s ↦
        rw (skipped first rf p c s)
          (record { ids = λ x h. h; racks = λ x h. h; longer = omega arith })
    | inr s ↦ rw (chosen first rf p c s) (record {
      ids = λ x h. has_text-append x c.id p.ids ∙ rw h refl;
      racks = λ x h. has_text-append x c.rack p.racks ∙ rw h refl;
      longer = omega (arith, length-append p.ids (c.id ∷ []));
    })
  ]

  pub pick_pass-Grows : (p : Picks) (cs : List Member) → Grows p (pick_pass first rf p cs)
  unfolding pick_pass
  pick_pass-Grows p [] = record { ids = λ x h. h; racks = λ x h. h; longer = omega arith }
  pick_pass-Grows p (c ∷ cs) =
      Grows-trans (pick_one-Grows p c) (pick_pass-Grows (pick_one first rf p c) cs)

  -- The picks are full, or they have the candidate, or its rack in the first pass.
  abbrev pub Served : Picks → Member → Type 0
  Served p c =
      (rf ≤ length p.ids)
      ⊎ (has_text p.ids c.id ≡ true)
      ⊎ ((first ≡ true) × (has_text p.racks c.rack ≡ true))

  pub Served-Grows : {p q : Picks} → Grows p q → (c : Member) → Served p c → Served q c
  Served-Grows g c (inl full) = inl (omega (arith, g.longer))
  Served-Grows g c (inr (inl here')) = inr (inl (g.ids c.id here'))
  Served-Grows g c (inr (inr (f, rack))) = inr (inr (f, g.racks c.rack rack))

  pick_one-Served : (p : Picks) (c : Member) → Served (pick_one first rf p c) c
  pick_one-Served p c = elim (Bool-cases (is_skipped first rf p c)) [
    | inr s ↦
        rw (chosen first rf p c s)
          (inr (inl (has_text-append c.id c.id p.ids ∙ ground (arith, bytes_eq_refl c.id))))
    | inl s ↦ rw (skipped first rf p c s) (elim (Bool-cases (has_text p.ids c.id)) [
      | inl here' ↦ inr (inl here')
      | inr new ↦ elim (Bool-cases (ltb (length p.ids) rf)) [
        | inr full ↦ inl (ground (arith, full))
        | inl room ↦ inr (inr (ground (arith, s, new, room), ground (arith, s, new, room)))
      ]
    ])
  ]

  pub pick_pass-Served : (p : Picks) (cs : List Member) → All (Served (pick_pass first rf p cs)) cs
  unfolding pick_pass
  pick_pass-Served p [] = tt
  pick_pass-Served p (c ∷ cs) =
      let p' = pick_one first rf p c in
      (Served-Grows (pick_pass-Grows p' cs) c (pick_one-Served p c), pick_pass-Served p' cs)
