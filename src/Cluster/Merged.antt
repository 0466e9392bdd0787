-- ===== src/Cluster/Merged.antt =====
-- cluster/gossip.go `mergeDigest`: what a digest changes.
use veltrix_db.Base.{
  ℕ, ◌≤◌, ◌≡◌, inl, inr, refl, ap, ◌∙◌, Bool, true, false, not, ◌&&◌, ◌||◌, Option, none, some,
  List, [], ◌∷◌, arith, ltb, if◌then◌else◌, bytes_eq, eq_of-bytes_eq, Bool-cases, Option-cases, max,
}
use veltrix_db.Cluster.Types.{NodeState, active, recovering, Member, PartitionMap}
use veltrix_db.Cluster.Placement.{find_member}
use veltrix_db.Cluster.Membership.{update_member, advance_epoch_to, update_node_state, same_state}
use veltrix_db.Cluster.Detector.{
  Detector, number_of, put_number, record_heartbeat, clear_suspect, clear_failed, set_state, has_id,
  drop_id,
}
use veltrix_db.Cluster.Gossip.{
  DigestEntry, Digest, Gossip, advance_counters, adopt_entry, adopt_entries, is_known, beat_all,
  adopt_digest, merge_digest,
}
use veltrix_db.Cluster.Found.{with_state, changed, find-set_state}
use veltrix_db.Cluster.Confirmed.{number_of-put}

-- What a digest may say of a member: its gossip address and its rack.
abbrev pub texts : Option Member → Option (List ℕ × List ℕ)
texts none = none
texts (some n) = some (n.gossip_addr, n.rack)

abbrev pub texts_of : Detector → List ℕ → Option (List ℕ × List ℕ)
texts_of fd id = texts (find_member fd.partition_map.nodes id)

-- Two detectors have the same epoch and texts.
record Same (fd fd' : Detector) : Type 0 where
  epoch : fd'.partition_map.epoch ≡ fd.partition_map.epoch
  said : (id : List ℕ) → texts_of fd' id ≡ texts_of fd id

also : (a b c : Detector) → Same a b → Same b c → Same a c
also a b c s t = record { epoch = t.epoch ∙ s.epoch; said = λ id. t.said id ∙ s.said id }

texts-changed :
    (b : Bool) (st : NodeState) (o : Option Member)
    → texts (if b then changed (with_state st) o else o) ≡ texts o
texts-changed false st o = refl
texts-changed true st none = refl
texts-changed true st (some n) = refl

epoch-update_node_state :
    (now : ℕ) (i : List ℕ) (st : NodeState) (pm : PartitionMap)
    → (update_node_state now i st pm).1.epoch ≡ pm.epoch
unfolding update_node_state
epoch-update_node_state now i st pm = elim (Option-cases (find_member pm.nodes i)) [
  | inl e ↦ rw (e, update_node_state) refl
  | inr (n, e) ↦ elim (Bool-cases (same_state n.state st)) [
    | inl f ↦ rw (e, update_node_state, f) refl
    | inr f ↦ rw (e, update_node_state, f) refl
  ]
]

set_state-Same :
    (now : ℕ) (i : List ℕ) (st : NodeState) (fd : Detector) → Same fd (set_state now i st fd)
unfolding set_state
set_state-Same now i st fd = record {
  epoch = epoch-update_node_state now i st fd.partition_map;
  said = λ id. ap texts (find-set_state now i st fd id) ∙ texts-changed (bytes_eq i id) st _;
}

clear_suspect-Same : (now : ℕ) (i : List ℕ) (fd : Detector) → Same fd (clear_suspect now i fd)
unfolding clear_suspect
clear_suspect-Same now i fd = elim (Bool-cases (has_id i fd.suspected_nodes)) [
  | inr s ↦ rw (clear_suspect, s) (record { epoch = refl; said = λ id. refl })
  | inl s ↦
      let k =
        set_state-Same now i active
          (record fd { suspected_nodes = drop_id i fd.suspected_nodes }) in
      rw (clear_suspect, s) (record { epoch = k.epoch; said = k.said })
]

clear_failed-Same : (now : ℕ) (i : List ℕ) (fd : Detector) → Same fd (clear_failed now i fd)
unfolding clear_failed
clear_failed-Same now i fd = elim (Bool-cases (has_id i fd.failed_nodes)) [
  | inr s ↦ rw (clear_failed, s) (record { epoch = refl; said = λ id. refl })
  | inl s ↦
      let k =
        set_state-Same now i recovering (record fd { failed_nodes = drop_id i fd.failed_nodes }) in
      rw (clear_failed, s) (record { epoch = k.epoch; said = k.said })
]

record_heartbeat-Same : (now : ℕ) (i : List ℕ) (fd : Detector) → Same fd (record_heartbeat now i fd)
unfolding record_heartbeat
record_heartbeat-Same now i fd =
    let beat : Detector = record fd { node_heartbeats = put_number i now fd.node_heartbeats } in
    let s = clear_suspect-Same now i beat in
    let t = clear_failed-Same now i (clear_suspect now i beat) in
    record { epoch = t.epoch ∙ s.epoch; said = λ id. t.said id ∙ s.said id }

one-Same :
    (b : Bool) (now : ℕ) (i : List ℕ) (fd : Detector)
    → Same fd (if b then record_heartbeat now i fd else fd)
one-Same false now i fd = record { epoch = refl; said = λ id. refl }
one-Same true now i fd = record_heartbeat-Same now i fd

beat_all-Same :
    (now : ℕ) (sender : List ℕ) (known : List Member) (ids : List (List ℕ)) (fd : Detector)
    → Same fd (beat_all now sender known ids fd)
unfolding beat_all
beat_all-Same now sender known [] fd = record { epoch = refl; said = λ id. refl }
beat_all-Same now sender known (i ∷ ids) fd =
    let b = not (bytes_eq i sender) && is_known known i in
    let fd' : Detector = if b then record_heartbeat now i fd else fd in
    also fd fd' (beat_all now sender known ids fd') (one-Same b now i fd)
      (beat_all-Same now sender known ids fd')

adopt_entries_stale :
    (own sender : List ℕ) (es : List (List ℕ × DigestEntry)) (ns : List Member)
    → adopt_entries own sender true es ns ≡ ns
unfolding adopt_entries
adopt_entries_stale own sender [] ns = refl
adopt_entries_stale own sender ((id, e) ∷ es) ns = adopt_entries_stale own sender es ns

find_other :
    (b : Bool) (e : DigestEntry) (i own : List ℕ) (ns : List Member)
    → bytes_eq i own ≡ false
    → find_member (update_member (adopt_entry b e) i ns) own ≡ find_member ns own
unfolding find_member update_member adopt_entry
find_other b e i own [] h = refl
find_other b e i own (n ∷ ns) h =
    let rest = find_other b e i own ns h in
    elim (Bool-cases (bytes_eq n.id i)) [
      | inl f ↦
          let away : bytes_eq n.id own ≡ false =
            ap (λ x. bytes_eq x own) (eq_of-bytes_eq n.id i f) ∙ h in
          rw (f, away) rest
      | inr f ↦ elim (Bool-cases (bytes_eq n.id own)) [
        | inl k ↦ rw (f, k) refl
        | inr k ↦ rw (f, k) rest
      ]
    ]

not_or : (a b : Bool) → (a || b) ≡ false → b ≡ false
not_or a b h = ground arith

find_own :
    (own sender : List ℕ) (stale : Bool) (es : List (List ℕ × DigestEntry)) (ns : List Member)
    → find_member (adopt_entries own sender stale es ns) own ≡ find_member ns own
unfolding adopt_entries
find_own own sender stale [] ns = refl
find_own own sender stale ((i, e) ∷ es) ns = elim (Bool-cases (stale || bytes_eq i own)) [
  | inl b ↦ rw b (find_own own sender stale es ns)
  | inr b ↦ rw b (
      find_own own sender stale es (update_member (adopt_entry (bytes_eq i sender) e) i ns)
      ∙ find_other (bytes_eq i sender) e i own ns (not_or stale (bytes_eq i own) b))
]

less : (a b : Bool) → (a || not b) ≡ false → b ≡ true
less a b h = ground arith

grown :
    (i id : List ℕ) (v : ℕ) (seen : List (List ℕ × ℕ))
    → ltb (number_of i seen) v ≡ true
    → number_of id seen ≤ number_of id (put_number i v seen)
grown i id v seen l = elim (Bool-cases (bytes_eq i id)) [
  | inl f ↦
      let same : number_of i seen ≡ number_of id seen =
        ap (λ x. number_of x seen) (eq_of-bytes_eq i id f) in
      ground (arith, f, l, same, number_of-put i id v seen)
  | inr f ↦ ground (arith, f, number_of-put i id v seen)
]

counters_grow :
    (own : List ℕ) (es : List (List ℕ × DigestEntry)) (seen : List (List ℕ × ℕ)) (id : List ℕ)
    → number_of id seen ≤ number_of id (advance_counters own es seen).0
unfolding advance_counters
counters_grow own [] seen id = omega arith
counters_grow own ((i, e) ∷ es) seen id =
    elim (Bool-cases (bytes_eq i own || not (ltb (number_of i seen) e.heartbeat))) [
      | inl c ↦ rw c (counters_grow own es seen id)
      | inr c ↦
          let rest = counters_grow own es (put_number i e.heartbeat seen) id in
          let more = grown i id e.heartbeat seen (less (bytes_eq i own) _ c) in
          rw c (omega (arith, more, rest))
    ]

-- What is left after a digest of another node: an epoch that is the later of the two; the texts of every node,
-- when the digest is of an older epoch; the texts of the node itself; and counters no smaller.
pub record Merged (remote : Digest) (before after : Gossip) : Type 0 where
  pub epoch :
      after.failure_detector.partition_map.epoch
      ≡ max remote.epoch before.failure_detector.partition_map.epoch
  pub fenced :
      ltb remote.epoch before.failure_detector.partition_map.epoch ≡ true
      → (id : List ℕ) → texts_of after.failure_detector id ≡ texts_of before.failure_detector id
  pub own :
      texts_of after.failure_detector before.node_id
      ≡ texts_of before.failure_detector before.node_id
  pub counters :
      (id : List ℕ) → number_of id before.seen_counters ≤ number_of id after.seen_counters

later : (e : ℕ) (pm : PartitionMap) → (advance_epoch_to e pm).epoch ≡ max e pm.epoch
unfolding advance_epoch_to
later e pm = elim (Bool-cases (ltb pm.epoch e)) [
  | inl l ↦ rw (advance_epoch_to, l) (ground arith)
  | inr l ↦ rw (advance_epoch_to, l) (ground arith)
]

-- The detector that pass 3 starts from, and what it leaves.
abbrev adopted : Digest → Gossip → Detector
adopted remote g = record g.failure_detector { partition_map = adopt_digest remote g }

abbrev beaten : ℕ → Digest → Gossip → Detector
beaten now remote g =
    let fd = adopted remote g in
    beat_all now remote.sender_id fd.partition_map.nodes
      (advance_counters g.node_id remote.nodes g.seen_counters).1
      (if is_known fd.partition_map.nodes remote.sender_id
        then record_heartbeat now remote.sender_id fd
        else fd)

beaten-Same :
    (now : ℕ) (remote : Digest) (g : Gossip) → Same (adopted remote g) (beaten now remote g)
beaten-Same now remote g =
    let fd = adopted remote g in
    let b = is_known fd.partition_map.nodes remote.sender_id in
    let fd' : Detector = if b then record_heartbeat now remote.sender_id fd else fd in
    also fd fd' (beaten now remote g) (one-Same b now remote.sender_id fd) (
      beat_all-Same now remote.sender_id fd.partition_map.nodes
        (advance_counters g.node_id remote.nodes g.seen_counters).1 fd')

-- A digest of another node leaves the later of the two epochs; it changes no gossip address and no rack when
-- its epoch is older, and never those of the node itself; and it lowers no counter.
pub merge_digest-Merged :
    (now : ℕ) (remote : Digest) (g : Gossip)
    → bytes_eq remote.sender_id g.node_id ≡ false
    → Merged remote g (merge_digest now remote g)
unfolding merge_digest adopt_digest
merge_digest-Merged now remote g h =
    let pm = g.failure_detector.partition_map in
    let same = beaten-Same now remote g in
    let value : (merge_digest now remote g).failure_detector ≡ beaten now remote g =
      rw (merge_digest, h) refl in
    let seen : (merge_digest now remote g).seen_counters
        ≡ (advance_counters g.node_id remote.nodes g.seen_counters).0 =
      rw (merge_digest, h) refl in
    record {
      epoch =
          ap (λ (d : Detector). d.partition_map.epoch) value ∙ same.epoch ∙ later remote.epoch pm;
      fenced = λ old id.
          ap (λ d. texts_of d id) value
          ∙ same.said id
          ∙ ap (λ ns. texts (find_member ns id))
              (ap (λ b. adopt_entries g.node_id remote.sender_id b remote.nodes pm.nodes) old
                ∙ adopt_entries_stale g.node_id remote.sender_id remote.nodes pm.nodes);
      own =
          ap (λ d. texts_of d g.node_id) value
          ∙ same.said g.node_id
          ∙ ap texts (
              find_own g.node_id remote.sender_id (ltb remote.epoch pm.epoch) remote.nodes
                pm.nodes);
      counters = λ id. rw seen (counters_grow g.node_id remote.nodes g.seen_counters id);
    }
