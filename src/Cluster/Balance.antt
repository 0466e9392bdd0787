-- ===== src/Cluster/Balance.antt =====
-- partition_map.go `Rebalance`: each partition has its range and its replicas.
use veltrix_db.Base.{
  ℕ, zero, suc, ◌+◌, ◌-◌, ◌*◌, ◌/◌, ◌%◌, ◌^◌, ◌≤◌, ◌<◌, ◌≡◌, ◌⊎◌, inl, inr, refl, sym, ap, subst,
  ◌∙◌, Bool, true, false, some, List, [], ◌∷◌, ◌++◌, arith, ltb, ◌==◌, ==_iff, if◌then◌else◌,
  length, get_elem?, drop, Bool-cases, add64,
}
use veltrix_db.Cluster.Types.{Member, PartitionInfo, PartitionMap, no_nodes, no_active_nodes}
use veltrix_db.Cluster.Placement.{
  Picks, ClusterResult, done, fails, pick_one, pick_pass, walk_order, pick_replicas, head_or_none,
  node_list, max_uint64, assign_partition, assign_partitions, rebalance, find_partition,
  get_partition,
}
use veltrix_db.Cluster.Picks.{is_skipped, skipped, chosen, with_pick}
use veltrix_db.Cluster.Replicas.{
  AreReplicas, mod_small, mod_below, elem_below, step, no_picks, pick_replicas-AreReplicas,
}

-- The first pick stays the first.
pick_one-first :
    (first : Bool) (rf : ℕ) (p : Picks) (c : Member) (x : List ℕ)
    → get_elem? p.ids 0 ≡ some x
    → get_elem? (pick_one first rf p c).ids 0 ≡ some x
pick_one-first first rf p c x q = elim (Bool-cases (is_skipped first rf p c)) [
  | inl s ↦ rw (skipped first rf p c s) q
  | inr s ↦ rw (chosen first rf p c s) (kept p.ids q)
]
  where
    kept : (xs : List (List ℕ)) → get_elem? xs 0 ≡ some x → get_elem? (xs ++ c.id ∷ []) 0 ≡ some x
    kept [] e = cc
    kept (y ∷ ys) e = e

pick_pass-first :
    (first : Bool) (rf : ℕ) (p : Picks) (cs : List Member) (x : List ℕ)
    → get_elem? p.ids 0 ≡ some x
    → get_elem? (pick_pass first rf p cs).ids 0 ≡ some x
unfolding pick_pass
pick_pass-first first rf p [] x q = q
pick_pass-first first rf p (c ∷ cs) x q =
    pick_pass-first first rf (pick_one first rf p c) cs x (pick_one-first first rf p c x q)

walk_order-first :
    (nodes : List Member) (start : ℕ) (c : Member)
    → start < length nodes
    → get_elem? nodes start ≡ some c
    → (cs : List Member) × (walk_order nodes start (length nodes) 0 ≡ c ∷ cs)
walk_order-first nodes start c h q =
    let n : length nodes ≡ suc (length nodes - 1) = omega arith in
    let at : (start + 0) % length nodes ≡ start =
      ap (λ x. x % length nodes) (add_zero start) ∙ mod_small start (length nodes) h in
    (
      walk_order nodes start (length nodes - 1) (0 + 1),
      ap (λ k. walk_order nodes start k 0) n
          ∙ step nodes start h (length nodes - 1) 0 c (ap (get_elem? nodes) at ∙ q),
    )
  where
    add_zero : (a : ℕ) → a + 0 ≡ a
    add_zero a = omega arith

first_pass :
    (k : ℕ) (c : Member) (cs : List Member)
    → 0 < k
    → get_elem? (pick_pass true k no_picks (c ∷ cs)).ids 0 ≡ some c.id
unfolding pick_pass
first_pass k c cs pos =
    ap (λ p. get_elem? (pick_pass true k p cs).ids 0) (chosen true k no_picks c (ground arith))
    ∙ pick_pass-first true k (with_pick no_picks c) cs c.id refl

-- The node at the start is the first replica.
pick_replicas-first :
    (nodes : List Member) (start rf : ℕ) (c : Member)
    → start < length nodes
    → 0 < rf
    → get_elem? nodes start ≡ some c
    → get_elem? (pick_replicas nodes start rf) 0 ≡ some c.id
unfolding pick_replicas
pick_replicas-first nodes start rf c h pos q =
    let k = if ltb (length nodes) rf then length nodes else rf in
    let order = walk_order nodes start (length nodes) 0 in
    let (cs, e) = walk_order-first nodes start c h q in
    let some_k : 0 < k = ground arith in
    pick_pass-first false k (pick_pass true k no_picks order) order c.id
      (ap (λ l. get_elem? (pick_pass true k no_picks l).ids 0) e ∙ first_pass k c cs some_k)

head_or_none_lem :
    (xs : List (List ℕ)) (x : List ℕ)
    → get_elem? xs 0 ≡ some x
    → (head_or_none xs ≡ x) × (xs ≡ x ∷ drop 1 xs)
unfolding head_or_none
head_or_none_lem [] x q = cc
head_or_none_lem (y ∷ ys) x q = let e : y ≡ x = ground (arith, q) in (e, ap (λ z. z ∷ ys) e)

-- A partition as `Rebalance` gives it: its primary is the node of its number, in turn, and stands first in a
-- set of replicas of the nodes; its range lies below 2 ^ 64, and begins where the one before ends.
pub record IsAssigned (nodes : List Member) (rf count i : ℕ) (p : PartitionInfo) : Type 0 where
  pub number : p.partition_id ≡ i
  pub node : Member
  pub turn : get_elem? nodes (i % length nodes) ≡ some node
  pub primary : p.primary_node ≡ node.id
  pub replicas : AreReplicas nodes rf (p.primary_node ∷ p.replica_nodes)
  pub range_start : p.range_start ≡ i * (max_uint64 / count)
  pub range_end : p.range_end ≡ i * (max_uint64 / count) + max_uint64 / count
  pub in_words : p.range_end < 2 ^ 64

shares : (i count m : ℕ) → i < count → i * (m / count) + m / count ≤ m
shares i count m h = grind arith

assign_partition-IsAssigned :
    (now : ℕ) (pm : PartitionMap) (nodes : List Member) (count i : ℕ)
    → 0 < length nodes
    → 0 < pm.replication_factor
    → i < count
    → IsAssigned nodes pm.replication_factor count i (assign_partition now pm nodes count i)
unfolding assign_partition
assign_partition-IsAssigned now pm nodes count i some_node rf h =
    let start = i % length nodes in
    let below = mod_below i (length nodes) some_node in
    let (c, at) = elem_below nodes start below in
    let first = pick_replicas-first nodes start pm.replication_factor c below rf at in
    let (head, whole) =
      head_or_none_lem (pick_replicas nodes start pm.replication_factor) c.id first in
    let fits = shares i count max_uint64 h in
    let next : (i + 1) * (max_uint64 / count) ≡ i * (max_uint64 / count) + max_uint64 / count =
      grind arith in
    record {
      number = refl;
      node = c;
      turn = at;
      primary = head;
      replicas =
          subst (AreReplicas nodes pm.replication_factor)
            (whole
              ∙ ap (λ x. x ∷ drop 1 (pick_replicas nodes start pm.replication_factor)) (sym head))
            (pick_replicas-AreReplicas nodes start pm.replication_factor below);
      range_start = omega (arith, fits);
      range_end = omega (arith, fits, next);
      in_words = omega arith;
    }

find_partition-assigned :
    (now : ℕ) (pm : PartitionMap) (nodes : List Member) (count n from i : ℕ)
    → from ≤ i
    → i < from + n
    → find_partition (assign_partitions now pm nodes count n from) i
      ≡ done (assign_partition now pm nodes count i)
unfolding find_partition assign_partitions assign_partition
find_partition-assigned now pm nodes count zero from i l h = absurd (omega arith)
find_partition-assigned now pm nodes count (suc n) from i l h = elim (Bool-cases (from == i)) [
  | inl here' ↦
      let e : from ≡ i = (==_iff from i).0 here' in
      rw here' (ap (λ x. done (assign_partition now pm nodes count x)) e)
  | inr later ↦
      let lt : from + 1 ≤ i = ground (arith, later) in
      rw later (find_partition-assigned now pm nodes count n (from + 1) i lt (omega arith))
]

length-assign_partitions :
    (now : ℕ) (pm : PartitionMap) (nodes : List Member) (count n from : ℕ)
    → length (assign_partitions now pm nodes count n from) ≡ n
unfolding assign_partitions
length-assign_partitions now pm nodes count zero from = refl
length-assign_partitions now pm nodes count (suc n) from =
    ap suc (length-assign_partitions now pm nodes count n (from + 1))

-- What a rebalance comes to, of its partition `i`.
abbrev pub Rebalanced : PartitionMap → ℕ → ℕ → ClusterResult PartitionMap → Type 0
Rebalanced pm count i r =
    ((r ≡ fails no_nodes) × (length pm.nodes ≡ 0))
    ⊎ ((r ≡ fails no_active_nodes) × (length (node_list pm.nodes) ≡ 0))
    ⊎ ((pm' : PartitionMap) × (p : PartitionInfo) × (r ≡ done pm')
        × (length pm'.partitions ≡ count)
        × (pm'.version ≡ add64 pm.version 1)
        × (get_partition pm' i ≡ done p)
        × IsAssigned (node_list pm.nodes) pm.replication_factor count i p)

-- A rebalance fails when there are no nodes or none is active. Else it makes as many partitions as it is
-- asked for and moves the version on. Partition `i` has as its primary the active node, in the order of
-- ids, whose turn is `i`, first of a set of replicas of the active nodes; its range has the length of all
-- others, lies below 2 ^ 64, and begins where that of partition `i - 1` ends; provided that the replication
-- factor is positive.
pub rebalance-Rebalanced :
    (now count i : ℕ) (pm : PartitionMap)
    → 0 < pm.replication_factor
    → i < count
    → Rebalanced pm count i (rebalance now count pm)
unfolding rebalance get_partition
rebalance-Rebalanced now count i pm rf h =
    let nodes = node_list pm.nodes in
    elim (Bool-cases (length pm.nodes == 0)) [
      | inl none_known ↦ rw none_known (inl (refl, (==_iff (length pm.nodes) 0).0 none_known))
      | inr some_known ↦ elim (Bool-cases (length nodes == 0)) [
        | inl none_active ↦
            rw (some_known, none_active) (inr (inl (refl, (==_iff (length nodes) 0).0 none_active)))
        | inr some_active ↦
            let pos : 0 < length nodes = ground (arith, some_active) in
            let pm' : PartitionMap = record pm {
              partitions = assign_partitions now pm nodes count count 0;
              version = add64 pm.version 1;
              timestamp = now;
              configured_partitions = count;
            } in
            rw (some_known, some_active)
              (inr (
                inr (
                  pm',
                  assign_partition now pm nodes count i,
                  refl,
                  length-assign_partitions now pm nodes count count 0,
                  refl,
                  find_partition-assigned now pm nodes count count 0 i (omega arith) (omega arith),
                  assign_partition-IsAssigned now pm nodes count i pos rf h,
                )))
      ]
    ]
