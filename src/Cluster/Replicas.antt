-- ===== src/Cluster/Replicas.antt =====
-- partition_map.go `pickReplicas`: the replicas of a partition.
use veltrix_db.Base.{
  ℕ, zero, suc, ◌+◌, ◌-◌, ◌%◌, ◌≤◌, ◌<◌, ◌≡◌, ◌⊎◌, inl, inr, refl, sym, ap, subst, ◌∙◌, Bool, true,
  false, some, List, [], ◌∷◌, arith, min, ltb, ltb→lt, if◌then◌else◌, length, get_elem?, All,
  Bool-cases,
}
use veltrix_db.Cluster.Types.{Member}
use veltrix_db.Cluster.Placement.{Picks, pick_pass, walk_order, pick_replicas}
use veltrix_db.Cluster.Picks.{
  has_text, IsDistinct, AllPairs, ArePicks, Grows, Served, skipped, pick_pass-ArePicks,
  pick_pass-Grows, pick_pass-Served,
}

pub mod_small : (i n : ℕ) → i < n → i % n ≡ i
mod_small i n h = grind arith

mod_once : (i n : ℕ) → i < n → (i + n) % n ≡ i
mod_once i n h = grind arith

pub mod_below : (i n : ℕ) → 0 < n → i % n < n
mod_below i n h = grind arith

pub elem_below :
    {A : Type 0} (xs : List A) (i : ℕ) → i < length xs → (x : A) × (get_elem? xs i ≡ some x)
elem_below [] i h = elim h [ ]
elem_below (x ∷ xs) zero h = (x, refl)
elem_below (x ∷ xs) (suc i) h = elem_below xs i (omega arith)

All-at {ℓ} :
    {A : Type 0} (P : A → Type ℓ) (xs : List A) (i : ℕ) (x : A)
    → All P xs
    → get_elem? xs i ≡ some x
    → P x
All-at P [] i x a q = cc
All-at P (y ∷ ys) zero x a q = let e : y ≡ x = ground (arith, q) in subst P e a.0
All-at P (y ∷ ys) (suc i) x a q = All-at P ys i x a.1 q

All-of {ℓ} :
    {A : Type 0} (P : A → Type ℓ) (xs : List A)
    → ((i : ℕ) (x : A) → i < length xs → get_elem? xs i ≡ some x → P x)
    → All P xs
All-of P [] f = tt
All-of P (x ∷ xs) f =
    (f 0 x (omega arith) refl, All-of P xs (λ i y h q. f (suc i) y (omega arith) q))

module _ (nodes : List Member) (start : ℕ) (within : start < length nodes) where
  pub step :
      (k off : ℕ) (c : Member)
      → get_elem? nodes ((start + off) % length nodes) ≡ some c
      → walk_order nodes start (suc k) off ≡ c ∷ walk_order nodes start k (off + 1)
  unfolding walk_order
  step k off c q = ground (arith, q)

  -- What holds of the nodes holds of those in the order of the walk.
  walk_order-All {ℓ} :
      (P : Member → Type ℓ) (k off : ℕ) → All P nodes → All P (walk_order nodes start k off)
  unfolding walk_order
  walk_order-All P zero off a = tt
  walk_order-All P (suc k) off a =
      let (c, q) =
        elem_below nodes ((start + off) % length nodes)
          (mod_below (start + off) (length nodes) (omega arith)) in
      subst (All P) (sym (step k off c q)) (All-at P nodes _ c a q, walk_order-All P k (off + 1) a)

  walked {ℓ} :
      (P : Member → Type ℓ) (k off j : ℕ) (c : Member)
      → All P (walk_order nodes start k off)
      → j < k
      → get_elem? nodes ((start + (off + j)) % length nodes) ≡ some c
      → P c
  walked P zero off j c a h q = absurd (omega arith)
  walked P (suc k) off zero c a h q =
      let e : off + 0 ≡ off = omega arith in
      let at : get_elem? nodes ((start + off) % length nodes) ≡ some c =
        ap (λ x. get_elem? nodes ((start + x) % length nodes)) (sym e) ∙ q in
      let a' : All P (c ∷ walk_order nodes start k (off + 1)) = subst (All P) (step k off c at) a in
      a'.0
  walked P (suc k) off (suc j) c a h q =
      let (d, at) =
        elem_below nodes ((start + off) % length nodes)
          (mod_below (start + off) (length nodes) (omega arith)) in
      let a' : All P (d ∷ walk_order nodes start k (off + 1)) = subst (All P) (step k off d at) a in
      let e : off + 1 + j ≡ off + suc j = omega arith in
      walked P k (off + 1) j c a'.1 (omega arith)
        (ap (λ x. get_elem? nodes ((start + x) % length nodes)) e ∙ q)

  -- The walk goes past every node.
  walk_order-covers {ℓ} :
      (P : Member → Type ℓ) → All P (walk_order nodes start (length nodes) 0) → All P nodes
  walk_order-covers P a = All-of P nodes (λ i c h q. elim (Bool-cases (ltb i start)) [
    | inl before ↦
        let e : start + (0 + (i + length nodes - start)) ≡ i + length nodes =
          ground (arith, before) in
        walked P (length nodes) 0 (i + length nodes - start) c a (ground (arith, before))
          (ap (get_elem? nodes) (ap (λ x. x % length nodes) e ∙ mod_once i (length nodes) h) ∙ q)
    | inr from ↦
        let e : start + (0 + (i - start)) ≡ i = ground (arith, from) in
        walked P (length nodes) 0 (i - start) c a (ground (arith, from))
          (ap (get_elem? nodes) (ap (λ x. x % length nodes) e ∙ mod_small i (length nodes) h) ∙ q)
  ])

-- A node has the id and the rack.
abbrev pub IsNode : List Member → List ℕ → List ℕ → Type 0
IsNode nodes id rack =
    (i : ℕ) × (c : Member) × (get_elem? nodes i ≡ some c) × (c.id ≡ id) × (c.rack ≡ rack)

-- The replicas chosen from `nodes`: distinct ids of them, each with its rack, as many as asked for or
-- else of all nodes, and either no two in one rack, or every node is chosen or has its rack used.
pub record AreReplicas (nodes : List Member) (rf : ℕ) (ids : List (List ℕ)) : Type 0 where
  pub racks : List (List ℕ)
  pub nodes_chosen : AllPairs (IsNode nodes) ids racks
  pub distinct : IsDistinct ids
  pub count : length ids ≤ min rf (length nodes)
  pub full :
      (length ids ≡ min rf (length nodes)) ⊎ All (λ (c : Member). has_text ids c.id ≡ true) nodes
  pub spread :
      IsDistinct racks
      ⊎ All (λ (c : Member). (has_text ids c.id ≡ true) ⊎ (has_text racks c.rack ≡ true)) nodes

self_nodes : (nodes : List Member) → All (λ (c : Member). IsNode nodes c.id c.rack) nodes
self_nodes nodes =
    All-of (λ (c : Member). IsNode nodes c.id c.rack) nodes (λ i c h q. (i, c, q, refl, refl))

abbrev pub no_picks : Picks
no_picks = record { ids = []; racks = [] }

-- A pass over picks that are full changes nothing.
full_pass :
    (first : Bool) (rf : ℕ) (p : Picks) (cs : List Member)
    → rf ≤ length p.ids
    → pick_pass first rf p cs ≡ p
unfolding pick_pass
full_pass first rf p [] h = refl
full_pass first rf p (c ∷ cs) h =
    ap (λ x. pick_pass first rf x cs) (skipped first rf p c (ground arith))
    ∙ full_pass first rf p cs h

All-map {ℓ κ} :
    {A : Type 0} (P : A → Type ℓ) (Q : A → Type κ) (xs : List A)
    → ((x : A) → P x → Q x)
    → All P xs
    → All Q xs
All-map P Q [] f a = tt
All-map P Q (x ∷ xs) f a = (f x a.0, All-map P Q xs f a.1)

true_false : {A : Type 0} → true ≡ false → A
true_false e = absurd (cc)

module _ (nodes : List Member) (start rf : ℕ) (within : start < length nodes) where
  -- The two passes, for a number `k` of replicas that the nodes can give.
  module _ (k : ℕ) (p1 p2 : Picks)
      (first : p1 ≡ pick_pass true k no_picks (walk_order nodes start (length nodes) 0))
      (second : p2 ≡ pick_pass false k p1 (walk_order nodes start (length nodes) 0)) where
    is_node :
        All (λ (c : Member). IsNode nodes c.id c.rack) (walk_order nodes start (length nodes) 0)
    is_node =
        walk_order-All nodes start within (λ (c : Member). IsNode nodes c.id c.rack) (length nodes)
          0 (self_nodes nodes)

    picks1 : ArePicks true k (IsNode nodes) p1
    picks1 = rw first (
        pick_pass-ArePicks true k (IsNode nodes) no_picks _ is_node
          (record { distinct = tt; within = omega arith; apart = inr tt; pairs = tt }))

    picks2 : ArePicks false k (IsNode nodes) p2
    picks2 = rw second (
        pick_pass-ArePicks false k (IsNode nodes) p1 _ is_node (record {
          distinct = picks1.distinct;
          within = picks1.within;
          apart = inl refl;
          pairs = picks1.pairs;
        }))

    served1 : All (Served true k p1) nodes
    served1 = walk_order-covers nodes start within (Served true k p1) (
        subst (λ p. All (Served true k p) (walk_order nodes start (length nodes) 0)) (sym first)
          (pick_pass-Served true k no_picks _))

    served2 : All (Served false k p2) nodes
    served2 = walk_order-covers nodes start within (Served false k p2) (
        subst (λ p. All (Served false k p) (walk_order nodes start (length nodes) 0)) (sym second)
          (pick_pass-Served false k p1 _))

    full : (length p2.ids ≡ k) ⊎ All (λ (c : Member). has_text p2.ids c.id ≡ true) nodes
    full = elim (Bool-cases (ltb (length p2.ids) k)) [
      | inr enough ↦ inl (ground (arith, enough, picks2.within))
      | inl fewer ↦
          let lt = ltb→lt (length p2.ids) k fewer in
          inr (
            All-map (Served false k p2) (λ (c : Member). has_text p2.ids c.id ≡ true) nodes
              (λ c v. elim v [
                | inl enough ↦ absurd (omega (arith, enough, lt))
                | inr (inl here') ↦ here'
                | inr (inr (no', _)) ↦ true_false (sym no')
              ])
              served2)
    ]

    spread :
        IsDistinct p2.racks
        ⊎ All
            (λ (c : Member). (has_text p2.ids c.id ≡ true) ⊎ (has_text p2.racks c.rack ≡ true))
            nodes
    spread = elim (Bool-cases (ltb (length p1.ids) k)) [
      | inr enough ↦
          let le : k ≤ length p1.ids = ground (arith, enough) in
          let same : p2 ≡ p1 = second ∙ full_pass false k p1 _ le in
          elim picks1.apart [ inl no' ↦ true_false no' | inr apart ↦ inl (rw same apart) ]
      | inl fewer ↦
          let lt = ltb→lt (length p1.ids) k fewer in
          let grown : Grows p1 p2 = rw second (pick_pass-Grows false k p1 _) in
          inr (
            All-map (Served true k p1)
              (λ (c : Member). (has_text p2.ids c.id ≡ true) ⊎ (has_text p2.racks c.rack ≡ true))
              nodes
              (λ c v. elim v [
                | inl enough ↦ absurd (omega (arith, enough, lt))
                | inr (inl here') ↦ inl (grown.ids c.id here')
                | inr (inr (_, rack)) ↦ inr (grown.racks c.rack rack)
              ])
              served1)
    ]

  -- From a start within the nodes, the replicas are distinct nodes, no more than are asked for and than there
  -- are, and as many as that or else all of the nodes; and no two of them are in one rack, or every node is
  -- chosen or has the rack of one that is.
  pub pick_replicas-AreReplicas : AreReplicas nodes rf (pick_replicas nodes start rf)
  unfolding pick_replicas
  pick_replicas-AreReplicas =
      let k = if ltb (length nodes) rf then length nodes else rf in
      let order = walk_order nodes start (length nodes) 0 in
      let p1 = pick_pass true k no_picks order in
      let p2 = pick_pass false k p1 order in
      let w = picks2 k p1 p2 refl refl in
      let least : k ≡ min rf (length nodes) = ground arith in
      record {
        racks = p2.racks;
        nodes_chosen = w.pairs;
        distinct = w.distinct;
        count = omega (arith, w.within, least);
        full = elim (full k p1 p2 refl refl) [
          | inl enough ↦ inl (enough ∙ least)
          | inr all ↦ inr all
        ];
        spread = spread k p1 p2 refl refl;
      }
