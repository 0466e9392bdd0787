-- ===== src/Cluster/Found.antt =====
-- cluster/failure_detection.go: the members found after one is given a state.
use veltrix_db.Base.{
  ℕ, ◌≡◌, inl, inr, refl, sym, ap, ◌∙◌, Bool, true, false, Option, none, some, List, [], ◌∷◌, arith,
  if◌then◌else◌, bytes_eq, bytes_eq_refl, eq_of-bytes_eq, Bool-cases, Option-cases, subst,
}
use veltrix_db.Cluster.Types.{NodeState, Member, PartitionMap}
use veltrix_db.Cluster.Placement.{find_member}
use veltrix_db.Cluster.Membership.{same_state, update_member, update_node_state}
use veltrix_db.Cluster.Detector.{Detector, set_state}

abbrev pub with_state : NodeState → Member → Member
with_state st n = record n { state = st }

-- A member found, changed.
abbrev pub changed : (Member → Member) → Option Member → Option Member
changed f none = none
changed f (some n) = some (f n)

if_true {ℓ} : {A : Type ℓ} (b : Bool) (x y : A) → b ≡ true → (if b then x else y) ≡ x
if_true b x y h = rw h refl

if_false {ℓ} : {A : Type ℓ} (b : Bool) (x y : A) → b ≡ false → (if b then x else y) ≡ y
if_false b x y h = rw h refl

pub id-find_member :
    (id : List ℕ) (ns : List Member) (n : Member) → find_member ns id ≡ some n → n.id ≡ id
unfolding find_member
id-find_member id [] n h = absurd cc
id-find_member id (m ∷ ns) n h = elim (Bool-cases (bytes_eq m.id id)) [
  | inl e ↦
      let found : some m ≡ some n = rw (sym (if_true _ (some m) (find_member ns id) e)) h in
      let same : m ≡ n = cc in sym (ap (λ (x : Member). x.id) same) ∙ eq_of-bytes_eq m.id id e
  | inr e ↦ id-find_member id ns n (sym (if_false _ (some m) (find_member ns id) e) ∙ h)
]

-- Two ids, one of them equal to a third.
pub bytes_eq-apart :
    (a b c : List ℕ) → bytes_eq a b ≡ false → bytes_eq a c ≡ true → bytes_eq b c ≡ false
bytes_eq-apart a b c h e = elim (Bool-cases (bytes_eq b c)) [
  | inr f ↦ f
  | inl f ↦
      let equal : bytes_eq a b ≡ true =
        sym (ap (bytes_eq a) (eq_of-bytes_eq a c e ∙ sym (eq_of-bytes_eq b c f)))
        ∙ bytes_eq_refl a in
      absurd cc
]

pub changed_by :
    (f g : Member → Member)
    → ((n : Member) → f n ≡ g n)
    → (o : Option Member) → changed f o ≡ changed g o
changed_by f g h none = refl
changed_by f g h (some n) = ap some (h n)

-- A member found after one is given a state.
pub find-update_member :
    (st : NodeState) (i id : List ℕ) (ns : List Member)
    → find_member (update_member (with_state st) i ns) id
      ≡ (if bytes_eq i id then changed (with_state st) (find_member ns id) else find_member ns id)
unfolding find_member update_member
find-update_member st i id [] = ground arith
find-update_member st i id (n ∷ ns) =
    let rest = find-update_member st i id ns in
    elim (Bool-cases (bytes_eq n.id i)) [
      | inl e ↦
          let same : bytes_eq n.id id ≡ bytes_eq i id =
            ap (λ x. bytes_eq x id) (eq_of-bytes_eq n.id i e) in
          elim (Bool-cases (bytes_eq n.id id)) [
            | inl f ↦ rw (e, f, sym same ∙ f) refl
            | inr f ↦ rw (e, f, sym same ∙ f) (rest ∙ rw (sym same ∙ f) refl)
          ]
      | inr e ↦ elim (Bool-cases (bytes_eq n.id id)) [
        | inl f ↦ rw (e, f, bytes_eq-apart n.id i id e f) refl
        | inr f ↦ rw (e, f) rest
      ]
    ]

-- The members after a change of state.
module _ (now : ℕ) (i : List ℕ) (st : NodeState) (pm : PartitionMap) where
  nodes_missing : find_member pm.nodes i ≡ none → (update_node_state now i st pm).1.nodes ≡ pm.nodes
  unfolding update_node_state
  nodes_missing e = rw (e, update_node_state) refl

  nodes_found :
      (n : Member)
      → find_member pm.nodes i ≡ some n
      → (update_node_state now i st pm).1.nodes ≡ update_member (with_state st) i pm.nodes
  unfolding update_node_state
  nodes_found n e = elim (Bool-cases (same_state n.state st)) [
    | inl f ↦ rw (e, update_node_state, f) refl
    | inr f ↦ rw (e, update_node_state, f) refl
  ]

pub find-set_state :
    (now : ℕ) (i : List ℕ) (st : NodeState) (fd : Detector) (id : List ℕ)
    → find_member (set_state now i st fd).partition_map.nodes id ≡ (
        if bytes_eq i id
        then changed (with_state st) (find_member fd.partition_map.nodes id)
        else find_member fd.partition_map.nodes id)
unfolding set_state
find-set_state now i st fd id =
    let pm = fd.partition_map in
    elim (Option-cases (find_member pm.nodes i)) [
      | inl e ↦
          ap (λ ns. find_member ns id) (nodes_missing now i st pm e)
          ∙ elim (Bool-cases (bytes_eq i id)) [
            | inl f ↦
                let missing : find_member pm.nodes id ≡ none =
                  subst (λ x. find_member pm.nodes x ≡ none) (eq_of-bytes_eq i id f) e in
                rw (f, missing) refl
            | inr f ↦ rw f refl
          ]
      | inr (n, e) ↦
          ap (λ ns. find_member ns id) (nodes_found now i st pm n e)
          ∙ find-update_member st i id pm.nodes
    ]
