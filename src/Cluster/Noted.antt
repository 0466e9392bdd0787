-- ===== src/Cluster/Noted.antt =====
-- cluster/failure_detection.go: what the steps of the detector keep of the failed nodes.
use veltrix_db.Base.{
  ℕ, ◌≡◌, inl, inr, refl, sym, ap, ◌∙◌, Bool, true, false, ◌||◌, Option, none, some, List, [], ◌∷◌,
  if◌then◌else◌, bytes_eq, eq_of-bytes_eq, Bool-cases, subst, All,
}
use veltrix_db.Cluster.Types.{NodeState, active, suspect, failed, recovering, draining, Member}
use veltrix_db.Cluster.Placement.{find_member}
use veltrix_db.Cluster.Membership.{same_state}
use veltrix_db.Cluster.Detector.{Detector, has_id, drop_id}
use veltrix_db.Cluster.Found.{with_state, changed, bytes_eq-apart}

abbrev pub is_found : NodeState → Option Member → Bool
is_found st none = false
is_found st (some n) = same_state n.state st

-- A node is in a state.
abbrev pub is_in : Detector → List ℕ → NodeState → Bool
is_in fd id st = is_found st (find_member fd.partition_map.nodes id)

-- The detector has noted every node that is failed.
abbrev pub IsNoted : Detector → Type 0
IsNoted fd = (id : List ℕ) → is_in fd id failed ≡ true → has_id id fd.failed_nodes ≡ true

-- What a step keeps.
pub record Keeps (before after : Detector) : Type 0 where
  pub noted : IsNoted after
  pub down :
      (id : List ℕ)
      → is_in before id failed ≡ true
      → (is_in after id failed || is_in after id recovering) ≡ true

abbrev is_down : Option Member → Bool
is_down o = is_found failed o || is_found recovering o

is_found-changed :
    (st to : NodeState) (o : Option Member)
    → is_found to (changed (with_state st) o) ≡ true
    → same_state st to ≡ true
is_found-changed st to none h = absurd cc
is_found-changed st to (some n) h = h

is_down-changed :
    (st : NodeState) (o : Option Member)
    → is_found failed o ≡ true
    → is_down (changed (with_state st) o) ≡ (same_state st failed || same_state st recovering)
is_down-changed st none h = absurd cc
is_down-changed st (some n) h = refl

is_down-failed : (o : Option Member) → is_found failed o ≡ true → is_down o ≡ true
is_down-failed o h = rw h refl

same_state_refl : (st : NodeState) → same_state st st ≡ true
unfolding same_state
same_state_refl active = refl
same_state_refl suspect = refl
same_state_refl failed = refl
same_state_refl recovering = refl
same_state_refl draining = refl

-- The nodes and the notes are left alone.
pub still :
    (fd fd' : Detector)
    → fd.partition_map.nodes ≡ fd'.partition_map.nodes
    → fd.failed_nodes ≡ fd'.failed_nodes
    → IsNoted fd
    → Keeps fd fd'
still fd fd' e f h = record {
  noted =
      λ id d. sym (ap (has_id id) f) ∙ h id (ap (λ ns. is_found failed (find_member ns id)) e ∙ d);
  down = λ id d.
      ap (λ ns. is_down (find_member ns id)) (sym e)
      ∙ is_down-failed (find_member fd.partition_map.nodes id) d;
}

-- A node is given a state that a failed one may come to, or was not failed.
pub moves :
    (fd fd' : Detector) (i : List ℕ) (st : NodeState)
    → ((id : List ℕ)
        → find_member fd'.partition_map.nodes id ≡ (
            if bytes_eq i id
            then changed (with_state st) (find_member fd.partition_map.nodes id)
            else find_member fd.partition_map.nodes id))
    → ((id : List ℕ)
        → bytes_eq i id ≡ false
        → has_id id fd.failed_nodes ≡ has_id id fd'.failed_nodes)
    → (same_state st failed ≡ true → has_id i fd'.failed_nodes ≡ true)
    → (is_in fd i failed ≡ true → (same_state st failed || same_state st recovering) ≡ true)
    → IsNoted fd
    → Keeps fd fd'
moves fd fd' i st find others own may h = record {
  noted = λ id d. elim (Bool-cases (bytes_eq i id)) [
    | inl e ↦
        let is : same_state st failed ≡ true =
          is_found-changed st failed (find_member fd.partition_map.nodes id)
            (sym (ap (is_found failed) (find id ∙ rw e refl)) ∙ d) in
        subst (λ x. has_id x fd'.failed_nodes ≡ true) (eq_of-bytes_eq i id e) (own is)
    | inr e ↦
        let was : is_in fd id failed ≡ true =
          sym (ap (is_found failed) (find id ∙ rw e refl)) ∙ d in
        sym (others id e) ∙ h id was
  ];
  down = λ id d. elim (Bool-cases (bytes_eq i id)) [
    | inl e ↦
        let o = find_member fd.partition_map.nodes id in
        let was : is_in fd i failed ≡ true =
          subst (λ x. is_in fd x failed ≡ true) (sym (eq_of-bytes_eq i id e)) d in
        ap is_down (find id ∙ rw e refl) ∙ is_down-changed st o d ∙ may was
    | inr e ↦
        ap is_down (find id ∙ rw e refl) ∙ is_down-failed (find_member fd.partition_map.nodes id) d
  ];
}

pub has_id-drop :
    (i id : List ℕ) (s : List (List ℕ))
    → bytes_eq i id ≡ false
    → has_id id s ≡ has_id id (drop_id i s)
has_id-drop i id [] e = refl
has_id-drop i id (x ∷ s) e = elim (Bool-cases (bytes_eq i x)) [
  | inl f ↦ rw (f, bytes_eq-apart i id x e f) (has_id-drop i id s e)
  | inr f ↦ rw f (ap (λ b. bytes_eq id x || b) (has_id-drop i id s e))
]

-- No node of a list is failed.
abbrev pub NoneFailed : List Member → Type 0
NoneFailed ns = All (λ (n : Member). same_state n.state failed ≡ false) ns

none_found :
    (ns : List Member) (id : List ℕ) → NoneFailed ns → is_found failed (find_member ns id) ≡ false
unfolding find_member
none_found [] id a = refl
none_found (n ∷ ns) id a = elim (Bool-cases (bytes_eq n.id id)) [
  | inl e ↦ rw e a.0
  | inr e ↦ rw e (none_found ns id a.1)
]

-- A detector starts with every failed node noted when no node is failed.
pub NoneFailed-IsNoted : (fd : Detector) → NoneFailed fd.partition_map.nodes → IsNoted fd
NoneFailed-IsNoted fd a id d =
    let no : true ≡ false = sym d ∙ none_found fd.partition_map.nodes id a in absurd cc
