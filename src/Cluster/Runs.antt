-- ===== src/Cluster/Runs.antt =====
-- partition_map.go: after any run of changes every key goes to a member.
use veltrix_db.Base.{
  ℕ, ◌≤◌, ◌≡◌, ◌⊎◌, Bool, false, if◌then◌else◌, true, some, List, [], ◌∷◌, length,
}
use veltrix_db.Cluster.Types.{Member, PartitionMap, ring_empty}
use veltrix_db.Raft.Role.{is_none}
use veltrix_db.Cluster.Placement.{ClusterResult, done, fails, find_member}
use veltrix_db.Cluster.Membership.{add_node, remove_node}
use veltrix_db.Cluster.Turns.{Change, add, remove, apply_change}

-- A key is routed to a member, or the ring has no virtual nodes.
abbrev Routes : PartitionMap → ClusterResult (List ℕ) → Type 0
Routes pm r =
    ((r ≡ fails ring_empty) × (pm.ring.sorted_keys ≡ []))
    ⊎ ((id : List ℕ) × (n : Member) × (r ≡ done id) × (find_member pm.nodes id ≡ some n))

-- Whether the last addition or removal that was done is a removal, after a change and after a run.
abbrev pub removed_last : ℕ → Change → PartitionMap → Bool → Bool
removed_last now (add id address port) pm b =
    if is_none (add_node now id address port pm).0 then false else b
removed_last now (remove id) pm b = if is_none (remove_node now id pm).0 then true else b
removed_last now _ pm b = b

abbrev pub ends_removed : List (ℕ × Change) → PartitionMap → Bool → Bool
ends_removed [] pm b = b
ends_removed ((now, c) ∷ cs) pm b =
    ends_removed cs (apply_change now c pm) (removed_last now c pm b)

-- The ring has as many points for a node as at first; and there is a point if there is a member, unless
-- a removal came last.
record IsPeopled (vnodes : ℕ) (b : Bool) (pm : PartitionMap) : Type 0 where
  replicas : pm.ring.replicas ≡ vnodes
  peopled : (b ≡ true) ⊎ (pm.nodes ≡ []) ⊎ (vnodes ≤ length pm.ring.sorted_keys)

-- The ring stays, and a map without members stays without.
Keeps : PartitionMap → PartitionMap → Type 0
Keeps pm pm' = (pm'.ring ≡ pm.ring) × ((pm.nodes ≡ []) → pm'.nodes ≡ [])

-- A key is routed to a member; or the ring is reported empty, and the nodes have no points, or there is no
-- member, or a removal came last.
abbrev pub RoutesTo : ℕ → Bool → PartitionMap → ClusterResult (List ℕ) → Type 0
RoutesTo vnodes removal pm r =
    ((r ≡ fails ring_empty) × ((vnodes ≡ 0) ⊎ (pm.nodes ≡ []) ⊎ (removal ≡ true)))
    ⊎ ((id : List ℕ) × (n : Member) × (r ≡ done id) × (find_member pm.nodes id ≡ some n))
