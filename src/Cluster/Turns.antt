-- ===== src/Cluster/Turns.antt =====
-- partition_map.go: changes of the map, and that they keep the ring in order and owned by members.
use veltrix_db.Base.{
  ℕ, ◌≡◌, ◌||◌, inl, inr, refl, sym, subst, ◌∙◌, Option, List, [], ◌∷◌, ltb, ◌==◌, length,
  Bool-cases, Option-cases, bytes_eq,
}
use veltrix_db.Cluster.Types.{NodeState, suspect, active, Member, PartitionMap, ClusterError}
use veltrix_db.Cluster.Placement.{ClusterResult, done, fails, find_member, node_list, rebalance}
use veltrix_db.Cluster.Membership.{
  update_member, same_state, add_node, remove_node, set_node_gossip_addr, set_node_rack,
  update_node_state, update_node_heartbeat, advance_epoch_to,
}
use veltrix_db.Cluster.RingKeys.{IsRing}
use veltrix_db.Cluster.Routed.{
  is_member_of, Knows, IsRouted, Adds, Removes, joining, IsRing-weaken, add_node-Adds,
  remove_node-Removes,
}

-- A change of the map, at a time.
pub data Change : Type 0 where
  add : List ℕ → List ℕ → ℕ → Change
  remove : List ℕ → Change
  set_state : List ℕ → NodeState → Change
  heartbeat : List ℕ → Change
  set_rack : List ℕ → List ℕ → Change
  set_gossip : List ℕ → List ℕ → Change
  advance : ℕ → Change
  balance : ℕ → Change

abbrev pub map_of : PartitionMap → ClusterResult PartitionMap → PartitionMap
map_of pm (done pm') = pm'
map_of pm (fails e) = pm

abbrev pub apply_change : ℕ → Change → PartitionMap → PartitionMap
apply_change now (add id address port) pm = (add_node now id address port pm).1
apply_change now (remove id) pm = (remove_node now id pm).1
apply_change now (set_state id st) pm = (update_node_state now id st pm).1
apply_change now (heartbeat id) pm = (update_node_heartbeat now id pm).1
apply_change now (set_rack id rack) pm = (set_node_rack id rack pm).1
apply_change now (set_gossip id addr) pm = (set_node_gossip_addr id addr pm).1
apply_change now (advance e) pm = advance_epoch_to e pm
apply_change now (balance count) pm = map_of pm (rebalance now count pm)

abbrev pub run_changes : List (ℕ × Change) → PartitionMap → PartitionMap
run_changes [] pm = pm
run_changes ((now, c) ∷ cs) pm = run_changes cs (apply_change now c pm)

member_updated :
    (f : Member → Member) (id x : List ℕ) (ns : List Member)
    → ((m : Member) → (f m).id ≡ m.id)
    → is_member_of (update_member f id ns) x ≡ is_member_of ns x
unfolding update_member
member_updated f id x [] same = refl
member_updated f id x (n ∷ ns) same = elim (Bool-cases (bytes_eq n.id id)) [
  | inl q ↦ rw q (λ i. bytes_eq (same n i) x || member_updated f id x ns same i)
  | inr q ↦ rw q (λ i. bytes_eq n.id x || member_updated f id x ns same i)
]

-- The same ring, with members of the same ids.
IsRouted-updated :
    (f : Member → Member) (id : List ℕ) (pm : PartitionMap)
    → ((m : Member) → (f m).id ≡ m.id)
    → IsRouted pm
    → IsRing (Knows (update_member f id pm.nodes)) pm.ring
IsRouted-updated f id pm same w =
    IsRing-weaken (Knows pm.nodes) (Knows (update_member f id pm.nodes)) pm.ring
      (λ x k. member_updated f id x pm.nodes same ∙ k) w

add-IsRouted :
    (n : Member) (pm : PartitionMap) (r : Option ClusterError × PartitionMap)
    → IsRouted pm
    → Adds pm n r
    → IsRouted r.1
add-IsRouted n pm r w (inl (e, same, m, q)) = subst IsRouted (sym same) w
add-IsRouted n pm r w (inr (e, q, joined)) = joined.routed

remove-IsRouted :
    (id : List ℕ) (pm : PartitionMap) (r : Option ClusterError × PartitionMap)
    → IsRouted pm
    → Removes pm id r
    → IsRouted r.1
remove-IsRouted id pm r w (inl (e, same, q)) = subst IsRouted (sym same) w
remove-IsRouted id pm r w (inr (e, left')) = left'.routed

set_rack-IsRouted :
    (id rack : List ℕ) (pm : PartitionMap) → IsRouted pm → IsRouted (set_node_rack id rack pm).1
unfolding set_node_rack
set_rack-IsRouted id rack pm w = elim (Option-cases (find_member pm.nodes id)) [
  | inl q ↦ rw (q, set_node_rack) w
  | inr (n, q) ↦
      rw (q, set_node_rack)
        (IsRouted-updated (λ (m : Member). record m { rack = rack }) id pm (λ m. refl) w)
]

set_gossip-IsRouted :
    (id addr : List ℕ) (pm : PartitionMap)
    → IsRouted pm
    → IsRouted (set_node_gossip_addr id addr pm).1
unfolding set_node_gossip_addr
set_gossip-IsRouted id addr pm w = elim (Option-cases (find_member pm.nodes id)) [
  | inl q ↦ rw (q, set_node_gossip_addr) w
  | inr (n, q) ↦
      rw (q, set_node_gossip_addr)
        (IsRouted-updated (λ (m : Member). record m { gossip_addr = addr }) id pm (λ m. refl) w)
]

set_state-IsRouted :
    (now : ℕ) (id : List ℕ) (st : NodeState) (pm : PartitionMap)
    → IsRouted pm
    → IsRouted (update_node_state now id st pm).1
unfolding update_node_state
set_state-IsRouted now id st pm w = elim (Option-cases (find_member pm.nodes id)) [
  | inl q ↦ rw (q, update_node_state) w
  | inr (n, q) ↦
      let u = IsRouted-updated (λ (m : Member). record m { state = st }) id pm (λ m. refl) w in
      elim (Bool-cases (same_state n.state st)) [
        | inl s ↦ rw (q, update_node_state) (rw s u)
        | inr d ↦ rw (q, update_node_state) (rw d u)
      ]
]

heartbeat-IsRouted :
    (now : ℕ) (id : List ℕ) (pm : PartitionMap)
    → IsRouted pm
    → IsRouted (update_node_heartbeat now id pm).1
unfolding update_node_heartbeat
heartbeat-IsRouted now id pm w = elim (Option-cases (find_member pm.nodes id)) [
  | inl q ↦ rw (q, update_node_heartbeat) w
  | inr (n, q) ↦ elim (Bool-cases (same_state n.state suspect)) [
    | inl s ↦
        rw (q, update_node_heartbeat)
          (rw s (
            IsRouted-updated (λ (m : Member). record m { last_heartbeat = now; state = active }) id
              pm (λ m. refl) w))
    | inr d ↦
        rw (q, update_node_heartbeat)
          (rw d (
            IsRouted-updated (λ (m : Member). record m { last_heartbeat = now }) id pm (λ m. refl)
              w))
  ]
]

advance-IsRouted : (e : ℕ) (pm : PartitionMap) → IsRouted pm → IsRouted (advance_epoch_to e pm)
unfolding advance_epoch_to
advance-IsRouted e pm w = elim (Bool-cases (ltb pm.epoch e)) [ inl l ↦ rw l w | inr g ↦ rw g w ]

balance-IsRouted :
    (now count : ℕ) (pm : PartitionMap)
    → IsRouted pm
    → IsRouted (map_of pm (rebalance now count pm))
unfolding rebalance
balance-IsRouted now count pm w = elim (Bool-cases (length pm.nodes == 0)) [
  | inl none_known ↦ rw none_known w
  | inr some_known ↦ elim (Bool-cases (length (node_list pm.nodes) == 0)) [
    | inl none_active ↦ rw (some_known, none_active) w
    | inr some_active ↦ rw (some_known, some_active) w
  ]
]

pub apply_change-IsRouted :
    (now : ℕ) (c : Change) (pm : PartitionMap) → IsRouted pm → IsRouted (apply_change now c pm)
apply_change-IsRouted now (add id address port) pm w =
    add-IsRouted (joining now id address port pm) pm (add_node now id address port pm) w
      (add_node-Adds now id address port pm w)
apply_change-IsRouted now (remove id) pm w =
    remove-IsRouted id pm (remove_node now id pm) w (remove_node-Removes now id pm w)
apply_change-IsRouted now (set_state id st) pm w = set_state-IsRouted now id st pm w
apply_change-IsRouted now (heartbeat id) pm w = heartbeat-IsRouted now id pm w
apply_change-IsRouted now (set_rack id rack) pm w = set_rack-IsRouted id rack pm w
apply_change-IsRouted now (set_gossip id addr) pm w = set_gossip-IsRouted id addr pm w
apply_change-IsRouted now (advance e) pm w = advance-IsRouted e pm w
apply_change-IsRouted now (balance count) pm w = balance-IsRouted now count pm w

pub run_changes-IsRouted :
    (cs : List (ℕ × Change)) (pm : PartitionMap) → IsRouted pm → IsRouted (run_changes cs pm)
run_changes-IsRouted [] pm w = w
run_changes-IsRouted ((now, c) ∷ cs) pm w =
    run_changes-IsRouted cs (apply_change now c pm) (apply_change-IsRouted now c pm w)
