-- ===== src/Cluster/Points.antt =====
-- partition_map.go `ConsistentHashRing`: the points of a node on the ring, after it is added or removed.
use veltrix_db.Base.{
  ℕ, zero, suc, ◌+◌, ◌≤◌, ◌<◌, ◌≡◌, inl, inr, refl, sym, ap, ◌∙◌, false, not, List, [], ◌∷◌, ◌++◌,
  arith, leb, ◌==◌, ==_iff, if◌then◌else◌, length, length-append, filter_if, All, Bool-cases,
  bytes_eq,
}
use veltrix_db.Cluster.Types.{HashRing}
use veltrix_db.Cluster.Hash.{hash_value, vnode_name}
use veltrix_db.Cluster.Ring.{
  put_owner, owner, insert_key, sort_keys, add_vnodes, add_to_ring, remove_from_ring,
}

owner-put_owner :
    (h k : ℕ) (id : List ℕ) (m : List (ℕ × List ℕ))
    → owner (put_owner h id m) k ≡ (if h == k then id else owner m k)
unfolding owner put_owner
owner-put_owner h k id [] = refl
owner-put_owner h k id ((j, v) ∷ m) = elim (Bool-cases (j == h)) [
  | inl same ↦
      let e : (j == k) ≡ (h == k) = ap (λ x. x == k) ((==_iff j h).0 same) in
      rw (same, e) (elim (Bool-cases (h == k)) [ inl f ↦ rw f refl | inr f ↦ rw f refl ])
  | inr other ↦ elim (Bool-cases (j == k)) [
    | inr f ↦ rw (other, f) (owner-put_owner h k id m)
    | inl f ↦
        let apart : (h == k) ≡ false =
          ap (λ x. h == x) (sym ((==_iff j k).0 f)) ∙ swapped j h other in
        rw (other, f, apart) refl
  ]
]
  where
    swapped : (a b : ℕ) → (a == b) ≡ false → (b == a) ≡ false
    swapped a b e = ground (arith, e)

owner-kept :
    (id : List ℕ) (n i k : ℕ) (m : List (ℕ × List ℕ)) (ks : List ℕ)
    → owner m k ≡ id
    → owner (add_vnodes id n i (m, ks)).0 k ≡ id
unfolding add_vnodes
owner-kept id zero i k m ks e = e
owner-kept id (suc n) i k m ks e =
    let h = hash_value (vnode_name id i) in
    owner-kept id n (i + 1) k (put_owner h id m) (ks ++ h ∷ [])
      (owner-put_owner h k id m ∙ elim (Bool-cases (h == k)) [ inl f ↦ rw f refl | inr f ↦ rw f e ])

owner-point :
    (id : List ℕ) (n i j : ℕ) (m : List (ℕ × List ℕ)) (ks : List ℕ)
    → i ≤ j
    → j < i + n
    → owner (add_vnodes id n i (m, ks)).0 (hash_value (vnode_name id j)) ≡ id
unfolding add_vnodes
owner-point id zero i j m ks l u = absurd (omega arith)
owner-point id (suc n) i j m ks l u =
    let h = hash_value (vnode_name id i) in
    elim (Bool-cases (i == j)) [
      | inr later ↦
          owner-point id n (i + 1) j (put_owner h id m) (ks ++ h ∷ []) (next i j l later)
            (omega arith)
      | inl here' ↦
          let e : j ≡ i = sym ((==_iff i j).0 here') in
          owner-kept id n (i + 1) (hash_value (vnode_name id j)) (put_owner h id m) (ks ++ h ∷ []) (
            ap (λ x. owner (put_owner h id m) (hash_value (vnode_name id x))) e
            ∙ owner-put_owner h h id m
            ∙ rw ((==_iff h h).1 refl) refl)
    ]
  where
    next : (a b : ℕ) → a ≤ b → (a == b) ≡ false → a + 1 ≤ b
    next a b p e = ground (arith, e)

-- Every point of a node that is added is the node's.
pub owner-add_to_ring :
    (r : HashRing) (id : List ℕ) (j : ℕ)
    → j < r.replicas
    → owner (add_to_ring r id).virtual_nodes (hash_value (vnode_name id j)) ≡ id
unfolding add_to_ring
owner-add_to_ring r id j l =
    owner-point id r.replicas 0 j r.virtual_nodes r.sorted_keys (omega arith) (omega arith)

length-insert_key : (k : ℕ) (ks : List ℕ) → length (insert_key k ks) ≡ suc (length ks)
unfolding insert_key
length-insert_key k [] = refl
length-insert_key k (x ∷ xs) = elim (Bool-cases (leb k x)) [
  | inl f ↦ rw f refl
  | inr f ↦ rw f (ap suc (length-insert_key k xs))
]

length-sort_keys : (ks : List ℕ) → length (sort_keys ks) ≡ length ks
unfolding sort_keys
length-sort_keys [] = refl
length-sort_keys (k ∷ ks) = length-insert_key k (sort_keys ks) ∙ ap suc (length-sort_keys ks)

length-add_vnodes :
    (id : List ℕ) (n i : ℕ) (m : List (ℕ × List ℕ)) (ks : List ℕ)
    → length (add_vnodes id n i (m, ks)).1 ≡ length ks + n
unfolding add_vnodes
length-add_vnodes id zero i m ks = omega arith
length-add_vnodes id (suc n) i m ks =
    let h = hash_value (vnode_name id i) in
    omega (
      arith,
      length-add_vnodes id n (i + 1) (put_owner h id m) (ks ++ h ∷ []),
      length-append ks (h ∷ []),
    )

pub length-add_to_ring :
    (r : HashRing) (id : List ℕ)
    → length (add_to_ring r id).sorted_keys ≡ length r.sorted_keys + r.replicas
unfolding add_to_ring
length-add_to_ring r id =
    length-sort_keys (add_vnodes id r.replicas 0 (r.virtual_nodes, r.sorted_keys)).1
    ∙ length-add_vnodes id r.replicas 0 r.virtual_nodes r.sorted_keys

-- A node that is removed has no points, and the points of the others stay theirs.
pub gone-remove_from_ring :
    (r : HashRing) (id : List ℕ)
    → All (λ (e : ℕ × List ℕ). bytes_eq e.1 id ≡ false) (remove_from_ring r id).virtual_nodes
unfolding remove_from_ring
gone-remove_from_ring r id = none_left r.virtual_nodes
  where
    none_left :
        (m : List (ℕ × List ℕ))
        → All
            (λ (e : ℕ × List ℕ). bytes_eq e.1 id ≡ false)
            (filter_if (λ (e : ℕ × List ℕ). not (bytes_eq e.1 id)) m)
    none_left [] = tt
    none_left (e ∷ m) = elim (Bool-cases (bytes_eq e.1 id)) [
      | inl f ↦ rw f (none_left m)
      | inr f ↦ rw f (f, none_left m)
    ]

owner-filter :
    (id : List ℕ) (k : ℕ) (m : List (ℕ × List ℕ))
    → bytes_eq (owner m k) id ≡ false
    → owner (filter_if (λ (e : ℕ × List ℕ). not (bytes_eq e.1 id)) m) k ≡ owner m k
unfolding owner
owner-filter id k [] h = refl
owner-filter id k ((j, v) ∷ m) h = elim (Bool-cases (j == k)) [
  | inl f ↦ let stays : bytes_eq v id ≡ false = rw f at h in rw (stays, f) refl
  | inr f ↦
      let rest = owner-filter id k m (rw f at h) in
      elim (Bool-cases (bytes_eq v id)) [ inl g ↦ rw (g, f) rest | inr g ↦ rw (g, f) rest ]
]

pub owner-remove_from_ring :
    (r : HashRing) (id : List ℕ) (k : ℕ)
    → bytes_eq (owner r.virtual_nodes k) id ≡ false
    → owner (remove_from_ring r id).virtual_nodes k ≡ owner r.virtual_nodes k
unfolding remove_from_ring
owner-remove_from_ring r id k h = owner-filter id k r.virtual_nodes h

-- The number of points of a node does not change.
pub replicas-add_to_ring : (r : HashRing) (id : List ℕ) → (add_to_ring r id).replicas ≡ r.replicas
unfolding add_to_ring
replicas-add_to_ring r id = refl

pub replicas-remove_from_ring :
    (r : HashRing) (id : List ℕ) → (remove_from_ring r id).replicas ≡ r.replicas
unfolding remove_from_ring
replicas-remove_from_ring r id = refl
