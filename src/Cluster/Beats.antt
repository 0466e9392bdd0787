-- ===== src/Cluster/Beats.antt =====
-- cluster/failure_detection.go: heartbeats and health checks keep the failed nodes noted.
use veltrix_db.Base.{
  ℕ, ◌+◌, ◌≡◌, inl, inr, refl, sym, ap, ◌∙◌, Bool, true, false, ◌&&◌, ◌||◌, Option, none, some,
  List, ◌∷◌, arith, ltb, if◌then◌else◌, bytes_eq, bytes_eq_refl, Bool-cases, Option-cases, and-true,
}
use veltrix_db.Cluster.Types.{NodeState, active, suspect, failed, recovering, draining, Member}
use veltrix_db.Cluster.Placement.{find_member}
use veltrix_db.Cluster.Membership.{same_state}
use veltrix_db.Cluster.Detector.{
  Detector, set_state, has_id, drop_id, last_beat, offer, put_number, mark_failed, mark_suspect,
  mark_active, check_member, check_node, record_heartbeat, clear_suspect, clear_failed,
}
use veltrix_db.Cluster.Found.{with_state, changed, find-set_state, bytes_eq-apart}
use veltrix_db.Cluster.Noted.{is_found, is_in, IsNoted, Keeps, still, moves, has_id-drop}

-- The later of two changes of a state counts.
twice :
    (b : Bool) (st to : NodeState) (o p : Option Member)
    → p ≡ (if b then changed (with_state st) o else o)
    → (if b then changed (with_state to) p else p) ≡ (if b then changed (with_state to) o else o)
twice false st to o p e = e
twice true st to none p e = ap (changed (with_state to)) e
twice true st to (some n) p e = ap (changed (with_state to)) e

pub record_heartbeat-Keeps :
    (now : ℕ) (id : List ℕ) (fd : Detector) → IsNoted fd → Keeps fd (record_heartbeat now id fd)
unfolding record_heartbeat same_state
record_heartbeat-Keeps now id fd h =
    let beat : Detector = record fd { node_heartbeats = put_number id now fd.node_heartbeats } in
    let cleared : Detector =
      set_state now id active (record beat { suspected_nodes = drop_id id fd.suspected_nodes }) in
    let failed_nodes' = drop_id id fd.failed_nodes in
    elim (Bool-cases (has_id id fd.suspected_nodes)) [
      | inl s ↦ elim (Bool-cases (has_id id fd.failed_nodes)) [
        | inl f ↦
            let found = λ (x : List ℕ).
              find-set_state now id recovering (record cleared { failed_nodes = failed_nodes' }) x
              ∙ twice (bytes_eq id x) active recovering (find_member fd.partition_map.nodes x)
                  (find_member cleared.partition_map.nodes x)
                  (find-set_state now id active beat x) in
            rw (record_heartbeat, clear_suspect, s, clear_failed, f)
              (moves fd _ id recovering found (λ x e. has_id-drop id x fd.failed_nodes e)
                (λ e. absurd cc) (λ d. refl) h)
        | inr f ↦
            rw (record_heartbeat, clear_suspect, s, clear_failed, f)
              (moves fd cleared id active (find-set_state now id active beat) (λ x e. refl)
                (λ e. absurd cc) (λ d. let noted : true ≡ false = sym (h id d) ∙ f in absurd cc) h)
      ]
      | inr s ↦ elim (Bool-cases (has_id id fd.failed_nodes)) [
        | inl f ↦
            let after = record beat { failed_nodes = failed_nodes' } in
            rw (record_heartbeat, clear_suspect, s, clear_failed, f)
              (moves fd (set_state now id recovering after) id recovering
                (find-set_state now id recovering after) (λ x e. has_id-drop id x fd.failed_nodes e)
                (λ e. absurd cc) (λ d. refl) h)
        | inr f ↦
            rw (record_heartbeat, clear_suspect, s, clear_failed, f) (still fd beat refl refl h)
      ]
    ]

not_failed : (st : NodeState) → same_state st suspect ≡ true → same_state st failed ≡ false
unfolding same_state
not_failed active h = absurd cc
not_failed suspect h = refl
not_failed failed h = absurd cc
not_failed recovering h = absurd cc
not_failed draining h = absurd cc

not_or : (a b : Bool) → (a || b) ≡ false → b ≡ false
not_or a b h = ground arith

-- A node found in another state is not failed.
is_in-not_failed :
    (fd : Detector) (id : List ℕ) (n : Member)
    → find_member fd.partition_map.nodes id ≡ some n
    → same_state n.state failed ≡ false
    → is_in fd id failed ≡ true
    → ⊥
is_in-not_failed fd id n e f d =
    let no : true ≡ false = sym d ∙ ap (is_found failed) e ∙ f in absurd cc

bytes_eq-other : (a b : List ℕ) → bytes_eq a b ≡ false → bytes_eq b a ≡ false
bytes_eq-other a b h = bytes_eq-apart a b a h (bytes_eq_refl a)

check_member-Keeps :
    (now : ℕ) (id : List ℕ) (n : Member) (fd : Detector)
    → find_member fd.partition_map.nodes id ≡ some n
    → IsNoted fd
    → Keeps fd (check_member now id n fd)
unfolding check_member mark_failed mark_suspect mark_active
check_member-Keeps now id n fd e h =
    let since = last_beat fd n in
    let was = same_state n.state failed in
    let stays = still fd fd refl refl h in
    elim (Bool-cases (ltb (since + fd.config.failure_threshold) now)) [
      | inl q ↦ elim (Bool-cases was) [
        | inl f ↦ rw (check_member, q, f) stays
        | inr f ↦
            let noting : Detector = record fd {
              failed_nodes = id ∷ fd.failed_nodes;
              suspected_nodes = drop_id id fd.suspected_nodes;
              recovery_queue = offer id fd.recovery_queue;
            } in
            rw (check_member, q, f)
              (moves fd (set_state now id failed noting) id failed
                (find-set_state now id failed noting) (λ x a. rw (bytes_eq-other id x a) refl)
                (λ a. rw (bytes_eq_refl id) refl) (λ d. refl) h)
      ]
      | inr q ↦ elim (Bool-cases (ltb (since + fd.config.suspect_threshold) now)) [
        | inl r ↦ elim (Bool-cases (same_state n.state suspect || was)) [
          | inl f ↦ rw (check_member, q, r, f) stays
          | inr f ↦
              let noting : Detector = record fd { suspected_nodes = id ∷ fd.suspected_nodes } in
              rw (check_member, q, r, f)
                (moves fd (set_state now id suspect noting) id suspect
                  (find-set_state now id suspect noting) (λ x a. refl) (λ a. absurd cc)
                  (λ d.
                    absurd
                      (is_in-not_failed fd id n e (not_or (same_state n.state suspect) was f) d))
                  h)
        ]
        | inr r ↦
            elim (Bool-cases
              (same_state n.state suspect && ltb now (since + fd.config.suspect_threshold))) [
                | inr f ↦ rw (check_member, q, r, f) stays
                | inl f ↦
                    let noting : Detector = record fd {
                      suspected_nodes = drop_id id fd.suspected_nodes;
                    } in
                    let quick = (and-true (same_state n.state suspect) _ f).0 in
                    rw (check_member, q, r, f)
                      (moves fd (set_state now id active noting) id active
                        (find-set_state now id active noting) (λ x a. refl) (λ a. absurd cc)
                        (λ d. absurd (is_in-not_failed fd id n e (not_failed n.state quick) d)) h)
              ]
      ]
    ]

pub check_node-Keeps :
    (now : ℕ) (id : List ℕ) (fd : Detector) → IsNoted fd → Keeps fd (check_node now id fd)
unfolding check_node check_member mark_failed mark_suspect mark_active
check_node-Keeps now id fd h =
    let ns = fd.partition_map.nodes in
    let stays = still fd fd refl refl h in
    elim (Option-cases (find_member ns id)) [
      | inl e ↦ rw (check_node, e) stays
      | inr (n, e) ↦ elim (Bool-cases (bytes_eq id fd.local_node_id)) [
        | inl l ↦ rw (check_node, e, l) stays
        | inr l ↦ rw (check_node, e, l) (check_member-Keeps now id n fd e h)
      ]
    ]
