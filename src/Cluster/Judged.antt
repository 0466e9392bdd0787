-- ===== src/Cluster/Judged.antt =====
-- cluster/failure_detection.go `checkNodeHealth`: what becomes of each node.
use veltrix_db.Base.{
  ℕ, ◌+◌, ◌≡◌, inl, inr, refl, sym, ap, ◌∙◌, Bool, true, false, ◌&&◌, ◌||◌, none, some, List, [],
  ◌∷◌, map, ltb, if◌then◌else◌, any_if, bytes_eq, eq_of-bytes_eq, Bool-cases, Option-cases, subst,
}
use veltrix_db.Cluster.Types.{NodeState, active, suspect, failed, recovering, draining, Member}
use veltrix_db.Cluster.Placement.{find_member}
use veltrix_db.Cluster.Membership.{same_state}
use veltrix_db.Cluster.Detector.{
  DetectorConfig, Detector, set_state, last_beat, mark_failed, mark_suspect, mark_active,
  check_member, check_node, check_nodes, check_node_health, drop_id, offer,
}
use veltrix_db.Cluster.Found.{with_state, changed, changed_by, id-find_member, find-set_state}

-- The state that the health check means a node to have.
abbrev pub judged : ℕ → Detector → Member → Member
judged now fd n =
    let quiet = λ (t : ℕ). ltb (last_beat fd n + t) now in
    if bytes_eq n.id fd.local_node_id
    then n
    else if quiet fd.config.failure_threshold
    then with_state failed n
    else if quiet fd.config.suspect_threshold
    then (if same_state n.state failed then n else with_state suspect n)
    else if same_state n.state suspect && ltb now (last_beat fd n + fd.config.suspect_threshold)
    then with_state active n
    else n

eq_of-same_state : (a b : NodeState) → same_state a b ≡ true → a ≡ b
unfolding same_state
eq_of-same_state active active h = refl
eq_of-same_state active suspect h = absurd cc
eq_of-same_state active failed h = absurd cc
eq_of-same_state active recovering h = absurd cc
eq_of-same_state active draining h = absurd cc
eq_of-same_state suspect active h = absurd cc
eq_of-same_state suspect suspect h = refl
eq_of-same_state suspect failed h = absurd cc
eq_of-same_state suspect recovering h = absurd cc
eq_of-same_state suspect draining h = absurd cc
eq_of-same_state failed active h = absurd cc
eq_of-same_state failed suspect h = absurd cc
eq_of-same_state failed failed h = refl
eq_of-same_state failed recovering h = absurd cc
eq_of-same_state failed draining h = absurd cc
eq_of-same_state recovering active h = absurd cc
eq_of-same_state recovering suspect h = absurd cc
eq_of-same_state recovering failed h = absurd cc
eq_of-same_state recovering recovering h = refl
eq_of-same_state recovering draining h = absurd cc
eq_of-same_state draining active h = absurd cc
eq_of-same_state draining suspect h = absurd cc
eq_of-same_state draining failed h = absurd cc
eq_of-same_state draining recovering h = absurd cc
eq_of-same_state draining draining h = refl

with_state_same : (st : NodeState) (n : Member) → same_state n.state st ≡ true → with_state st n ≡ n
with_state_same st n h = ap (λ s. with_state s n) (sym (eq_of-same_state n.state st h))

-- What becomes of the member found under an id, and of no other.
module _ (g : Member → Member) (i : List ℕ) (n : Member) where
  abbrev Becomes : List Member → List Member → Type 0
  Becomes before after =
      (id : List ℕ)
      → find_member after id
        ≡ (if bytes_eq i id then changed g (find_member before id) else find_member before id)

  kept : (ns : List Member) → find_member ns i ≡ some n → g n ≡ n → Becomes ns ns
  kept ns e h id = elim (Bool-cases (bytes_eq i id)) [
    | inl f ↦
        let found : find_member ns id ≡ some n =
          subst (λ x. find_member ns x ≡ some n) (eq_of-bytes_eq i id f) e in
        rw (f, found) (ap some (sym h))
    | inr f ↦ rw f refl
  ]

  given :
      (now : ℕ) (st : NodeState) (fd : Detector)
      → find_member fd.partition_map.nodes i ≡ some n
      → g n ≡ with_state st n
      → Becomes fd.partition_map.nodes (set_state now i st fd).partition_map.nodes
  given now st fd e h id = find-set_state now i st fd id ∙ elim (Bool-cases (bytes_eq i id)) [
    | inl f ↦
        let found : find_member fd.partition_map.nodes id ≡ some n =
          subst (λ x. find_member fd.partition_map.nodes x ≡ some n) (eq_of-bytes_eq i id f) e in
        rw (f, found) (ap some (sym h))
    | inr f ↦ rw f refl
  ]

find-check_member :
    (now : ℕ) (fd : Detector) (i : List ℕ) (n : Member)
    → find_member fd.partition_map.nodes i ≡ some n
    → bytes_eq n.id fd.local_node_id ≡ false
    → Becomes
        (judged now fd)
        i
        n
        fd.partition_map.nodes
        (check_member now i n fd).partition_map.nodes
unfolding check_member mark_failed mark_suspect mark_active
find-check_member now fd i n e away =
    let by = given (judged now fd) i n in
    let stays = kept (judged now fd) i n fd.partition_map.nodes e in
    let quiet = λ (t : ℕ). ltb (last_beat fd n + t) now in
    elim (Bool-cases (quiet fd.config.failure_threshold)) [
      | inl q ↦ elim (Bool-cases (same_state n.state failed)) [
        | inl s ↦
            λ id. rw (check_member, q, s) (stays (rw (away, q) (with_state_same failed n s)) id)
        | inr s ↦ λ id.
            rw (check_member, q, s)
              (by now failed
                (record fd {
                  failed_nodes = i ∷ fd.failed_nodes;
                  suspected_nodes = drop_id i fd.suspected_nodes;
                  recovery_queue = offer i fd.recovery_queue;
                })
                e (rw (away, q) refl) id)
      ]
      | inr q ↦ elim (Bool-cases (quiet fd.config.suspect_threshold)) [
        | inl r ↦ elim (Bool-cases (same_state n.state failed)) [
          | inl s ↦ elim (Bool-cases (same_state n.state suspect)) [
            | inl u ↦ λ id. rw (check_member, q, r, u) (stays (rw (away, q, r, s) refl) id)
            | inr u ↦ λ id. rw (check_member, q, r, u, s) (stays (rw (away, q, r, s) refl) id)
          ]
          | inr s ↦ elim (Bool-cases (same_state n.state suspect)) [
            | inl u ↦ λ id.
                rw (check_member, q, r, u)
                  (stays (rw (away, q, r, s) (with_state_same suspect n u)) id)
            | inr u ↦ λ id.
                rw (check_member, q, r, u, s)
                  (by now suspect (record fd { suspected_nodes = i ∷ fd.suspected_nodes }) e
                    (rw (away, q, r, s) refl) id)
          ]
        ]
        | inr r ↦
            elim (Bool-cases (
              same_state n.state suspect
              && ltb now (last_beat fd n + fd.config.suspect_threshold))) [
                | inl s ↦ λ id.
                    rw (check_member, q, r, s)
                      (by now active (record fd { suspected_nodes = drop_id i fd.suspected_nodes })
                        e (rw (away, q, r, s) refl) id)
                | inr s ↦ λ id. rw (check_member, q, r, s) (stays (rw (away, q, r, s) refl) id)
              ]
      ]
    ]

find-check_node :
    (now : ℕ) (fd : Detector) (i id : List ℕ)
    → find_member (check_node now i fd).partition_map.nodes id ≡ (
        if bytes_eq i id
        then changed (judged now fd) (find_member fd.partition_map.nodes id)
        else find_member fd.partition_map.nodes id)
unfolding check_node
find-check_node now fd i id =
    let ns = fd.partition_map.nodes in
    elim (Option-cases (find_member ns i)) [
      | inl e ↦
          rw (check_node, e)
            (elim (Bool-cases (bytes_eq i id)) [
              | inl f ↦
                  let missing : find_member ns id ≡ none =
                    subst (λ x. find_member ns x ≡ none) (eq_of-bytes_eq i id f) e in
                  rw (f, missing) refl
              | inr f ↦ rw f refl
            ])
      | inr (n, e) ↦
          let named : bytes_eq n.id fd.local_node_id ≡ bytes_eq i fd.local_node_id =
            ap (λ x. bytes_eq x fd.local_node_id) (id-find_member i ns n e) in
          elim (Bool-cases (bytes_eq i fd.local_node_id)) [
            | inl f ↦ rw (check_node, e, f) (kept (judged now fd) i n ns e (rw (named ∙ f) refl) id)
            | inr f ↦ rw (check_node, e, f) (find-check_member now fd i n e (named ∙ f) id)
          ]
    ]

-- What the judgement reads of the detector.
abbrev Settings : Type 0
Settings = List ℕ × List (List ℕ × ℕ) × DetectorConfig

abbrev settings : Detector → Settings
settings fd = (fd.local_node_id, fd.node_heartbeats, fd.config)

abbrev with_settings : Detector → Settings → Detector
with_settings fd (l, h, c) = record fd { local_node_id = l; node_heartbeats = h; config = c }

settings-check_member :
    (now : ℕ) (i : List ℕ) (n : Member) (fd : Detector)
    → settings (check_member now i n fd) ≡ settings fd
unfolding check_member mark_failed mark_suspect mark_active set_state
settings-check_member now i n fd =
    let since = last_beat fd n in
    let s = same_state n.state suspect in
    elim (Bool-cases (ltb (since + fd.config.failure_threshold) now)) [
      | inl q ↦ elim (Bool-cases (same_state n.state failed)) [
        | inl f ↦ rw (check_member, q, f) refl
        | inr f ↦ rw (check_member, q, f) refl
      ]
      | inr q ↦ elim (Bool-cases (ltb (since + fd.config.suspect_threshold) now)) [
        | inl r ↦ elim (Bool-cases (s || same_state n.state failed)) [
          | inl f ↦ rw (check_member, q, r, f) refl
          | inr f ↦ rw (check_member, q, r, f) refl
        ]
        | inr r ↦ elim (Bool-cases (s && ltb now (since + fd.config.suspect_threshold))) [
          | inl f ↦ rw (check_member, q, r, f) refl
          | inr f ↦ rw (check_member, q, r, f) refl
        ]
      ]
    ]

settings-check_node :
    (now : ℕ) (i : List ℕ) (fd : Detector) → settings (check_node now i fd) ≡ settings fd
unfolding check_node
settings-check_node now i fd = elim (Option-cases (find_member fd.partition_map.nodes i)) [
  | inl e ↦ rw (check_node, e) refl
  | inr (n, e) ↦ elim (Bool-cases (bytes_eq i fd.local_node_id)) [
    | inl f ↦ rw (check_node, e, f) refl
    | inr f ↦ rw (check_node, e, f) (settings-check_member now i n fd)
  ]
]

judged-check_node :
    (now : ℕ) (i : List ℕ) (fd : Detector) (n : Member)
    → judged now (check_node now i fd) n ≡ judged now fd n
judged-check_node now i fd n =
    ap (λ s. judged now (with_settings fd s) n) (settings-check_node now i fd)

-- The ids of a list, none of them twice.
abbrev pub has_text : List ℕ → List (List ℕ) → Bool
has_text id ids = any_if (λ x. bytes_eq x id) ids

abbrev pub AreDistinct : List (List ℕ) → Type 0
AreDistinct [] = Unit
AreDistinct (i ∷ ids) = (has_text i ids ≡ false) × AreDistinct ids

abbrev pub ids_of : List Member → List (List ℕ)
ids_of ns = map (λ (n : Member). n.id) ns

find-check_nodes :
    (now : ℕ) (ids : List (List ℕ)) (fd : Detector) (id : List ℕ)
    → AreDistinct ids
    → find_member (check_nodes now ids fd).partition_map.nodes id ≡ (
        if has_text id ids
        then changed (judged now fd) (find_member fd.partition_map.nodes id)
        else find_member fd.partition_map.nodes id)
unfolding check_nodes
find-check_nodes now [] fd id d = refl
find-check_nodes now (i ∷ ids) fd id d =
    let fd' = check_node now i fd in
    let rest = find-check_nodes now ids fd' id d.1 in
    let one = find-check_node now fd i id in
    elim (Bool-cases (bytes_eq i id)) [
      | inl f ↦
          let last : has_text id ids ≡ false =
            subst (λ x. has_text x ids ≡ false) (eq_of-bytes_eq i id f) d.0 in
          rest ∙ rw (last, f) (one ∙ rw f refl)
      | inr f ↦
          let same : find_member fd'.partition_map.nodes id
              ≡ find_member fd.partition_map.nodes id =
            one ∙ rw f refl in
          rest
          ∙ rw (f, same)
              (elim (Bool-cases (has_text id ids)) [
                | inl t ↦ rw t (
                    changed_by (judged now fd') (judged now fd) (judged-check_node now i fd)
                      (find_member fd.partition_map.nodes id))
                | inr t ↦ rw t refl
              ])
    ]

find_missing :
    (ns : List Member) (id : List ℕ) → has_text id (ids_of ns) ≡ false → find_member ns id ≡ none
unfolding find_member
find_missing [] id h = refl
find_missing (n ∷ ns) id h = elim (Bool-cases (bytes_eq n.id id)) [
  | inl f ↦
      let t : true ≡ false = rw (sym (ap (λ b. b || has_text id (ids_of ns)) f)) h in absurd cc
  | inr f ↦ rw f (find_missing ns id (sym (ap (λ b. b || has_text id (ids_of ns)) f) ∙ h))
]

-- When no two nodes of the map have one id, the health check leaves under each id the node that was there,
-- judged by the heartbeats: unchanged if it is the local node; failed if it has been quiet for longer than
-- the failure threshold; suspect, unless it has failed, if it has for longer than the suspect threshold;
-- active if it was suspect and has been heard of within that; otherwise unchanged.
pub check_node_health-judged :
    (now : ℕ) (fd : Detector) (id : List ℕ)
    → AreDistinct (ids_of fd.partition_map.nodes)
    → find_member (check_node_health now fd).partition_map.nodes id
      ≡ changed (judged now fd) (find_member fd.partition_map.nodes id)
unfolding check_node_health
check_node_health-judged now fd id d =
    let ns = fd.partition_map.nodes in
    find-check_nodes now (ids_of ns) fd id d ∙ elim (Bool-cases (has_text id (ids_of ns))) [
      | inl t ↦ rw t refl
      | inr t ↦ rw (t, find_missing ns id t) refl
    ]
