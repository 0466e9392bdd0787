-- ===== src/Cluster/Routed.antt =====
-- partition_map.go and epoch.go: keys are routed to members of the cluster, and stale changes are refused.
use veltrix_db.Base.{
  ℕ, ◌+◌, ◌≤◌, ◌<◌, ◌≡◌, ◌⊎◌, inl, inr, refl, ap, ◌∙◌, Bool, true, false, not, ◌||◌, Option, none,
  some, List, [], ◌∷◌, ◌++◌, arith, if◌then◌else◌, length, any_if, filter_if, All, Bool-cases,
  Option-cases, bytes_eq, bytes_eq_refl, eq_of-bytes_eq, add64,
}
use veltrix_db.Cluster.Types.{
  active, Member, HashRing, PartitionMap, ClusterError, node_exists, node_not_found, stale_epoch,
}
use veltrix_db.Cluster.Placement.{find_member}
use veltrix_db.Cluster.Membership.{add_node, remove_node}
use veltrix_db.Cluster.Hash.{hash_value, vnode_name}
use veltrix_db.Cluster.Ring.{owner}
use veltrix_db.Cluster.Points.{
  owner-add_to_ring, length-add_to_ring, gone-remove_from_ring, owner-remove_from_ring,
  replicas-add_to_ring, replicas-remove_from_ring,
}
use veltrix_db.Cluster.RingKeys.{IsRing, add_to_ring-IsRing, remove_from_ring-IsRing}

abbrev pub is_member_of : List Member → List ℕ → Bool
is_member_of ns id = any_if (λ (n : Member). bytes_eq n.id id) ns

abbrev pub Knows : List Member → List ℕ → Type 0
Knows ns id = is_member_of ns id ≡ true

-- The ring is in order, its keys have owners, and those are members.
abbrev pub IsRouted : PartitionMap → Type 0
IsRouted pm = IsRing (Knows pm.nodes) pm.ring

member_append :
    (ns : List Member) (n : Member) (id : List ℕ)
    → is_member_of (ns ++ n ∷ []) id ≡ (is_member_of ns id || bytes_eq n.id id)
member_append [] n id = ground arith
member_append (m ∷ ns) n id = ground (arith, member_append ns n id)

member_kept :
    (ns : List Member) (gone id : List ℕ)
    → bytes_eq id gone ≡ false
    → Knows ns id
    → Knows (filter_if (λ (m : Member). not (bytes_eq m.id gone)) ns) id
member_kept [] gone id d k = cc
member_kept (n ∷ ns) gone id d k = elim (Bool-cases (bytes_eq n.id id)) [
  | inl same ↦
      let kept : bytes_eq n.id gone ≡ false =
        ap (λ x. bytes_eq x gone) (eq_of-bytes_eq n.id id same) ∙ d in
      rw kept (rw same refl)
  | inr other ↦
      let later = member_kept ns gone id d (rw other at k) in
      elim (Bool-cases (bytes_eq n.id gone)) [ inl g ↦ rw g later | inr s ↦ rw s (rw other later) ]
]

pub find_member_lem :
    (ns : List Member) (id : List ℕ) → Knows ns id → (n : Member) × (find_member ns id ≡ some n)
unfolding find_member
find_member_lem [] id k = cc
find_member_lem (n ∷ ns) id k = elim (Bool-cases (bytes_eq n.id id)) [
  | inl same ↦ (n, rw same refl)
  | inr other ↦ let (m, q) = find_member_lem ns id (rw other at k) in (m, rw other q)
]

pub IsRing-weaken :
    (Q Q' : List ℕ → Type 0) (r : HashRing) → ((x : List ℕ) → Q x → Q' x) → IsRing Q r → IsRing Q' r
IsRing-weaken Q Q' r f w = record {
  sorted = w.sorted;
  owned = w.owned;
  owners = all r.virtual_nodes w.owners;
}
  where
    all :
        (m : List (ℕ × List ℕ))
        → All (λ (e : ℕ × List ℕ). Q e.1) m
        → All (λ (e : ℕ × List ℕ). Q' e.1) m
    all [] a = tt
    all (e ∷ m) a = (f e.1 a.0, all m a.1)

-- A member is found behind others that have other ids, and the others are found as before.
find-append :
    (ns : List Member) (n : Member) (x : List ℕ)
    → find_member (ns ++ n ∷ []) x ≡ elim (find_member ns x) as (λ _. Option Member) [
      | some m ↦ some m
      | none ↦ if bytes_eq n.id x then some n else none
    ]
unfolding find_member
find-append [] n x = refl
find-append (m ∷ ns) n x = elim (Bool-cases (bytes_eq m.id x)) [
  | inl e ↦ rw e refl
  | inr e ↦ rw e (find-append ns n x)
]

find-other :
    (ns : List Member) (n : Member) (x : List ℕ)
    → bytes_eq n.id x ≡ false
    → find_member (ns ++ n ∷ []) x ≡ find_member ns x
find-other ns n x d =
    find-append ns n x
    ∙ elim (Option-cases (find_member ns x)) [ inl e ↦ rw (e, d) refl | inr (m, e) ↦ rw e refl ]

find-new :
    (ns : List Member) (n : Member)
    → find_member ns n.id ≡ none
    → find_member (ns ++ n ∷ []) n.id ≡ some n
find-new ns n e = find-append ns n n.id ∙ rw (e, bytes_eq_refl n.id) refl

find-gone :
    (gone : List ℕ) (ns : List Member)
    → find_member (filter_if (λ (m : Member). not (bytes_eq m.id gone)) ns) gone ≡ none
unfolding find_member
find-gone gone [] = refl
find-gone gone (n ∷ ns) = elim (Bool-cases (bytes_eq n.id gone)) [
  | inl e ↦ rw e (find-gone gone ns)
  | inr e ↦ rw e (rw e (find-gone gone ns))
]

find-stays :
    (gone x : List ℕ) (ns : List Member)
    → bytes_eq gone x ≡ false
    → find_member (filter_if (λ (m : Member). not (bytes_eq m.id gone)) ns) x ≡ find_member ns x
unfolding find_member
find-stays gone x [] d = refl
find-stays gone x (n ∷ ns) d = elim (Bool-cases (bytes_eq n.id gone)) [
  | inl e ↦
      let away : bytes_eq n.id x ≡ false =
        ap (λ y. bytes_eq y x) (eq_of-bytes_eq n.id gone e) ∙ d in
      rw (e, away) (find-stays gone x ns d)
  | inr e ↦ elim (Bool-cases (bytes_eq n.id x)) [
    | inl f ↦ rw (e, f) refl
    | inr f ↦ rw (e, f) (find-stays gone x ns d)
  ]
]

-- The member that joins.
abbrev pub joining : ℕ → List ℕ → List ℕ → ℕ → PartitionMap → Member
joining now id address port pm = record {
  id = id;
  address = address;
  port = port;
  gossip_addr = [];
  rack = [];
  state = active;
  last_heartbeat = now;
  version = pm.version;
}

-- A member has joined: it alone is new, and all its points of the ring are its own.
pub record Joined (pm : PartitionMap) (n : Member) (after : PartitionMap) : Type 0 where
  pub routed : IsRouted after
  pub epoch : after.epoch ≡ add64 pm.epoch 1
  pub replicas : after.ring.replicas ≡ pm.ring.replicas
  pub present : find_member after.nodes n.id ≡ some n
  pub others :
      (x : List ℕ) → bytes_eq n.id x ≡ false → find_member after.nodes x ≡ find_member pm.nodes x
  pub points :
      (i : ℕ)
      → i < pm.ring.replicas
      → owner after.ring.virtual_nodes (hash_value (vnode_name n.id i)) ≡ n.id
  pub keys : length after.ring.sorted_keys ≡ length pm.ring.sorted_keys + pm.ring.replicas

-- A member has left: it alone is gone, with all its points, and the points of others stay theirs.
pub record Left (pm : PartitionMap) (id : List ℕ) (after : PartitionMap) : Type 0 where
  pub routed : IsRouted after
  pub epoch : after.epoch ≡ add64 pm.epoch 1
  pub replicas : after.ring.replicas ≡ pm.ring.replicas
  pub absent : find_member after.nodes id ≡ none
  pub others :
      (x : List ℕ) → bytes_eq id x ≡ false → find_member after.nodes x ≡ find_member pm.nodes x
  pub no_points : All (λ (e : ℕ × List ℕ). bytes_eq e.1 id ≡ false) after.ring.virtual_nodes
  pub points :
      (k : ℕ)
      → bytes_eq (owner pm.ring.virtual_nodes k) id ≡ false
      → owner after.ring.virtual_nodes k ≡ owner pm.ring.virtual_nodes k

-- An addition: refused just when the id is known, or done.
abbrev pub Adds : PartitionMap → Member → Option ClusterError × PartitionMap → Type 0
Adds pm n r =
    ((r.0 ≡ some node_exists) × (r.1 ≡ pm) × (m : Member) × (find_member pm.nodes n.id ≡ some m))
    ⊎ ((r.0 ≡ none) × (find_member pm.nodes n.id ≡ none) × Joined pm n r.1)

-- A removal: refused just when the id is not known, or done.
abbrev pub Removes : PartitionMap → List ℕ → Option ClusterError × PartitionMap → Type 0
Removes pm id r =
    ((r.0 ≡ some node_not_found) × (r.1 ≡ pm) × (find_member pm.nodes id ≡ none))
    ⊎ ((r.0 ≡ none) × Left pm id r.1)

add_value_known :
    (now : ℕ) (id address : List ℕ) (port : ℕ) (pm : PartitionMap) (m : Member)
    → find_member pm.nodes id ≡ some m
    → add_node now id address port pm ≡ (some node_exists, pm)
unfolding add_node
add_value_known now id address port pm m q = rw (q, add_node) refl

pub add_node-Adds :
    (now : ℕ) (id address : List ℕ) (port : ℕ) (pm : PartitionMap)
    → IsRouted pm
    → Adds pm (joining now id address port pm) (add_node now id address port pm)
unfolding add_node
add_node-Adds now id address port pm w = elim (Option-cases (find_member pm.nodes id)) [
  | inr (m, q) ↦ inl (
    ap (λ (r : Option ClusterError × PartitionMap). r.0)
        (add_value_known now id address port pm m q),
    ap (λ (r : Option ClusterError × PartitionMap). r.1)
        (add_value_known now id address port pm m q),
    m,
    q,
  )
  | inl q ↦
      let n = joining now id address port pm in
      let new : Knows (pm.nodes ++ n ∷ []) id =
        member_append pm.nodes n id ∙ ground (arith, bytes_eq_refl id) in
      rw (q, add_node)
        (inr (
          refl,
          refl,
          record {
            routed = add_to_ring-IsRing (Knows (pm.nodes ++ n ∷ [])) pm.ring id new (
                IsRing-weaken (Knows pm.nodes) (Knows (pm.nodes ++ n ∷ [])) pm.ring
                  (λ x k. member_append pm.nodes n x ∙ rw k refl) w);
            epoch = refl;
            replicas = replicas-add_to_ring pm.ring id;
            present = find-new pm.nodes n q;
            others = λ x d. find-other pm.nodes n x d;
            points = λ i l. owner-add_to_ring pm.ring id i l;
            keys = length-add_to_ring pm.ring id;
          },
        ))
]

pub remove_node-Removes :
    (now : ℕ) (id : List ℕ) (pm : PartitionMap)
    → IsRouted pm
    → Removes pm id (remove_node now id pm)
unfolding remove_node
remove_node-Removes now id pm w = elim (Option-cases (find_member pm.nodes id)) [
  | inl q ↦ rw (q, remove_node) (inl (refl, refl, refl))
  | inr (n, q) ↦
      rw (q, remove_node)
        (inr (
          refl,
          record {
            routed =
                remove_from_ring-IsRing (Knows pm.nodes) _ pm.ring id
                  (λ x d k. member_kept pm.nodes id x d k) w;
            epoch = refl;
            replicas = replicas-remove_from_ring pm.ring id;
            absent = find-gone id pm.nodes;
            others = λ x d. find-stays id x pm.nodes d;
            no_points = gone-remove_from_ring pm.ring id;
            points = λ k d. owner-remove_from_ring pm.ring id k d;
          },
        ))
]

-- A change that carries an epoch: refused as stale with the map as it was, just when that epoch is older
-- than the map's, and else as the change without it.
abbrev pub Fenced :
    ℕ
    → PartitionMap
    → (Option ClusterError × PartitionMap → Type 0)
    → Option ClusterError × PartitionMap
    → Type 0
Fenced observed pm Change r =
    ((observed < pm.epoch) × (r.0 ≡ some stale_epoch) × (r.1 ≡ pm))
    ⊎ ((pm.epoch ≤ observed) × Change r)
