-- ===== src/Cluster/Colocated.antt =====
-- partition_map.go `RoutingKey`: derived keys are placed with the record that they describe.
use veltrix_db.Base.{
  ℕ, suc, ◌<◌, ◌≡◌, refl, sym, ap, ◌∙◌, false, none, some, List, [], ◌∷◌, ◌++◌, ◌==◌, length, All,
}
use veltrix_db.Cluster.Types.{PartitionMap, ring_empty}
use veltrix_db.Cluster.Ring.{get_node}
use veltrix_db.Cluster.Hash.{
  vector_key_prefix, text_key_prefix, index_key_prefix, after_slash, skip_components, routed,
  routing_key, hash_key, hash_value,
}
use veltrix_db.Cluster.Placement.{ClusterResult, done, fails, get_node_for_key}

-- A path component holds no slash.
abbrev pub IsComponent : List ℕ → Type 0
IsComponent bs = All (λ (b : ℕ). (b == 47) ≡ false) bs

after_slash-component : (c rest : List ℕ) → IsComponent c → after_slash (c ++ 47 ∷ rest) ≡ some rest
unfolding after_slash
after_slash-component [] rest h = refl
after_slash-component (b ∷ bs) rest h = rw h.0 (after_slash-component bs rest h.1)

routed_lem : (key id : List ℕ) → 0 < length id → routed key (some id) ≡ id
unfolding routed
routed_lem key [] h = elim h [ ]
routed_lem key (b ∷ bs) h = refl

skip_step :
    (k : ℕ) (rest r : List ℕ)
    → after_slash rest ≡ some r
    → skip_components (suc k) rest ≡ skip_components k r
unfolding skip_components
skip_step k rest r q = rw (q, skip_components) refl

skip_one : (c id : List ℕ) → IsComponent c → skip_components 1 (c ++ 47 ∷ id) ≡ some id
unfolding skip_components
skip_one c id h = skip_step 0 (c ++ 47 ∷ id) id (after_slash-component c id h)

skip_two :
    (c d id : List ℕ)
    → IsComponent c
    → IsComponent d
    → skip_components 2 (c ++ 47 ∷ (d ++ 47 ∷ id)) ≡ some id
unfolding skip_components
skip_two c d id h k =
    skip_step 1 (c ++ 47 ∷ (d ++ 47 ∷ id)) (d ++ 47 ∷ id) (after_slash-component c (d ++ 47 ∷ id) h)
    ∙ skip_one d id k

-- The keys that are derived from the record `id`.
abbrev pub vector_key : List ℕ → List ℕ → List ℕ
vector_key ns id = vector_key_prefix ++ (ns ++ 47 ∷ id)

abbrev pub text_key : List ℕ → List ℕ → List ℕ
text_key ns id = text_key_prefix ++ (ns ++ 47 ∷ id)

abbrev pub index_key : List ℕ → List ℕ → List ℕ → List ℕ
index_key rule value id = index_key_prefix ++ (rule ++ 47 ∷ (value ++ 47 ∷ id))

module _ (ns rule value id : List ℕ) (n : IsComponent ns) (r : IsComponent rule)
    (v : IsComponent value) (some_id : 0 < length id) where
  pub routing_key-vector_key : routing_key (vector_key ns id) ≡ id
  unfolding routing_key
  routing_key-vector_key =
      ap (routed (vector_key ns id)) (skip_one ns id n) ∙ routed_lem (vector_key ns id) id some_id

  pub routing_key-text_key : routing_key (text_key ns id) ≡ id
  unfolding routing_key
  routing_key-text_key =
      ap (routed (text_key ns id)) (skip_one ns id n) ∙ routed_lem (text_key ns id) id some_id

  pub routing_key-index_key : routing_key (index_key rule value id) ≡ id
  unfolding routing_key
  routing_key-index_key =
      ap (routed (index_key rule value id)) (skip_two rule value id r v)
      ∙ routed_lem (index_key rule value id) id some_id

by_hash :
    (pm : PartitionMap) (key key' : List ℕ)
    → hash_key key ≡ hash_key key'
    → get_node_for_key pm key ≡ get_node_for_key pm key'
unfolding get_node_for_key
by_hash pm key key' e =
    ap
      (λ (h : ℕ). elim (get_node pm.ring h) as (λ _. ClusterResult (List ℕ)) [
        | none ↦ fails ring_empty
        | some owner ↦ done owner
      ])
      e

same_routing :
    (key key' : List ℕ) → routing_key key ≡ routing_key key' → hash_key key ≡ hash_key key'
unfolding hash_key
same_routing key key' e = ap hash_value e

-- The vector and the text document of a record in a namespace, and its entries of an index, are on the node
-- of the record; provided that the record's key is not empty and is routed by itself, and that namespace,
-- rule and value hold no slash.
pub get_node_for_key-colocated :
    (pm : PartitionMap) (ns rule value id : List ℕ)
    → IsComponent ns
    → IsComponent rule
    → IsComponent value
    → 0 < length id
    → routing_key id ≡ id
    → (get_node_for_key pm (vector_key ns id) ≡ get_node_for_key pm id)
      × (get_node_for_key pm (text_key ns id) ≡ get_node_for_key pm id)
      × (get_node_for_key pm (index_key rule value id) ≡ get_node_for_key pm id)
get_node_for_key-colocated pm ns rule value id n r v h q = (
  same (vector_key ns id) (routing_key-vector_key ns rule value id n r v h),
  same (text_key ns id) (routing_key-text_key ns rule value id n r v h),
  same (index_key rule value id) (routing_key-index_key ns rule value id n r v h),
)
  where
    same : (key : List ℕ) → routing_key key ≡ id → get_node_for_key pm key ≡ get_node_for_key pm id
    same key e = by_hash pm key id (same_routing key id (e ∙ sym q))
