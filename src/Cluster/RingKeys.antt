-- ===== src/Cluster/RingKeys.antt =====
-- partition_map.go `ConsistentHashRing`: adding and removing nodes keeps the keys in order and owned.
use veltrix_db.Base.{
  ℕ, zero, suc, ◌+◌, ◌≤◌, ◌≡◌, inl, inr, refl, ◌∙◌, Bool, true, false, not, ◌||◌, List, [], ◌∷◌,
  ◌++◌, map, arith, leb, leb→le, ◌==◌, ==_iff, any_if, filter_if, All, All-join, Bool-cases,
  bytes_eq,
}
use veltrix_db.Cluster.Types.{HashRing}
use veltrix_db.Cluster.Hash.{hash_value, vnode_name}
use veltrix_db.Cluster.Ring.{
  put_owner, owner, insert_key, sort_keys, add_vnodes, add_to_ring, remove_from_ring,
}
use veltrix_db.Cluster.Search.{AllFrom, IsSorted}

AllFrom-insert_key : (a k : ℕ) (ks : List ℕ) → a ≤ k → AllFrom a ks → AllFrom a (insert_key k ks)
unfolding insert_key
AllFrom-insert_key a k [] l h = (l, tt)
AllFrom-insert_key a k (x ∷ xs) l h = elim (Bool-cases (leb k x)) [
  | inl first ↦ rw first (l, h)
  | inr later ↦ rw later (h.0, AllFrom-insert_key a k xs l h.1)
]

AllFrom-le : (a b : ℕ) (ks : List ℕ) → a ≤ b → AllFrom b ks → AllFrom a ks
AllFrom-le a b [] l h = tt
AllFrom-le a b (x ∷ xs) l h = (omega arith, AllFrom-le a b xs l h.1)

insert_key-IsSorted : (k : ℕ) (ks : List ℕ) → IsSorted ks → IsSorted (insert_key k ks)
unfolding insert_key
insert_key-IsSorted k [] s = (tt, tt)
insert_key-IsSorted k (x ∷ xs) s = elim (Bool-cases (leb k x)) [
  | inl first ↦ let l = leb→le k x first in rw first ((l, AllFrom-le k x xs l s.0), s)
  | inr later ↦
      let l : x ≤ k = ground (arith, later) in
      rw later (AllFrom-insert_key x k xs l s.0, insert_key-IsSorted k xs s.1)
]

pub sort_keys-IsSorted : (ks : List ℕ) → IsSorted (sort_keys ks)
unfolding sort_keys
sort_keys-IsSorted [] = tt
sort_keys-IsSorted (k ∷ ks) = insert_key-IsSorted k (sort_keys ks) (sort_keys-IsSorted ks)

module _ {ℓ} (P : ℕ → Type ℓ) where
  All-insert_key : (k : ℕ) (ks : List ℕ) → P k → All P ks → All P (insert_key k ks)
  unfolding insert_key
  All-insert_key k [] p a = (p, tt)
  All-insert_key k (x ∷ xs) p a = elim (Bool-cases (leb k x)) [
    | inl first ↦ rw first (p, a)
    | inr later ↦ rw later (a.0, All-insert_key k xs p a.1)
  ]

  All-sort_keys : (ks : List ℕ) → All P ks → All P (sort_keys ks)
  unfolding sort_keys
  All-sort_keys [] a = tt
  All-sort_keys (k ∷ ks) a = All-insert_key k (sort_keys ks) a.0 (All-sort_keys ks a.1)

-- A key that the map of owners has.
abbrev pub has_owner : List (ℕ × List ℕ) → ℕ → Bool
has_owner m k = any_if (λ (e : ℕ × List ℕ). e.0 == k) m

abbrev pub AllOwned : List (ℕ × List ℕ) → List ℕ → Type 0
AllOwned m ks = All (λ (k : ℕ). has_owner m k ≡ true) ks

has_owner-put_owner :
    (h k : ℕ) (id : List ℕ) (m : List (ℕ × List ℕ))
    → has_owner (put_owner h id m) k ≡ ((h == k) || has_owner m k)
unfolding put_owner
has_owner-put_owner h k id [] = refl
has_owner-put_owner h k id ((j, v) ∷ m) = ground (arith, has_owner-put_owner h k id m)

AllOwned-put_owner :
    (h : ℕ) (id : List ℕ) (m : List (ℕ × List ℕ)) (ks : List ℕ)
    → AllOwned m ks
    → AllOwned (put_owner h id m) ks
AllOwned-put_owner h id m [] a = tt
AllOwned-put_owner h id m (k ∷ ks) a =
    (ground (arith, has_owner-put_owner h k id m, a.0), AllOwned-put_owner h id m ks a.1)

module _ {ℓ} (Q : ℕ × List ℕ → Type ℓ) where
  All-put_owner :
      (h : ℕ) (id : List ℕ) (m : List (ℕ × List ℕ)) → Q (h, id) → All Q m → All Q (put_owner h id m)
  unfolding put_owner
  All-put_owner h id [] q a = (q, tt)
  All-put_owner h id ((j, v) ∷ m) q a = elim (Bool-cases (j == h)) [
    | inl same ↦ rw same (q, a.1)
    | inr other ↦ rw other (a.0, All-put_owner h id m q a.1)
  ]

  -- The loop of AddNode.
  add_vnodes_lem :
      (id : List ℕ) (n i : ℕ) (m : List (ℕ × List ℕ)) (ks : List ℕ)
      → ((h : ℕ) → Q (h, id))
      → All Q m
      → AllOwned m ks
      → All Q (add_vnodes id n i (m, ks)).0
        × AllOwned (add_vnodes id n i (m, ks)).0 (add_vnodes id n i (m, ks)).1
  unfolding add_vnodes
  add_vnodes_lem id zero i m ks q a o = (a, o)
  add_vnodes_lem id (suc n) i m ks q a o =
      let h = hash_value (vnode_name id i) in
      let owned : has_owner (put_owner h id m) h ≡ true =
        has_owner-put_owner h h id m ∙ rw ((==_iff h h).1 refl) refl in
      add_vnodes_lem id n (i + 1) (put_owner h id m) (ks ++ h ∷ []) q (All-put_owner h id m (q h) a)
        (All-join (λ (k : ℕ). has_owner (put_owner h id m) k ≡ true) ks (h ∷ [])
          (AllOwned-put_owner h id m ks o) (owned, tt))

-- What every key of the ring and every owner satisfies.
pub record IsRing (Q : List ℕ → Type 0) (r : HashRing) : Type 0 where
  pub sorted : IsSorted r.sorted_keys
  pub owned : AllOwned r.virtual_nodes r.sorted_keys
  pub owners : All (λ (e : ℕ × List ℕ). Q e.1) r.virtual_nodes

pub add_to_ring-IsRing :
    (Q : List ℕ → Type 0) (r : HashRing) (id : List ℕ)
    → Q id
    → IsRing Q r
    → IsRing Q (add_to_ring r id)
unfolding add_to_ring
add_to_ring-IsRing Q r id q w =
    let m = add_vnodes id r.replicas 0 (r.virtual_nodes, r.sorted_keys) in
    let (a, o) =
      add_vnodes_lem (λ (e : ℕ × List ℕ). Q e.1) id r.replicas 0 r.virtual_nodes r.sorted_keys
        (λ h. q) w.owners w.owned in
    record {
      sorted = sort_keys-IsSorted m.1;
      owned = All-sort_keys (λ (k : ℕ). has_owner m.0 k ≡ true) m.1 o;
      owners = a;
    }

-- Every key of a map of owners has one.
AllOwned-map : (m : List (ℕ × List ℕ)) → AllOwned m (map (λ (e : ℕ × List ℕ). e.0) m)
AllOwned-map [] = tt
AllOwned-map ((k, v) ∷ m) =
    (rw ((==_iff k k).1 refl) refl, weaken (map (λ (e : ℕ × List ℕ). e.0) m) (AllOwned-map m))
  where
    weaken : (ks : List ℕ) → AllOwned m ks → AllOwned ((k, v) ∷ m) ks
    weaken [] a = tt
    weaken (x ∷ xs) a = (ground (arith, a.0), weaken xs a.1)

-- The owners that stay satisfy what those satisfied that were not removed.
pub remove_from_ring-IsRing :
    (Q Q' : List ℕ → Type 0) (r : HashRing) (id : List ℕ)
    → ((x : List ℕ) → bytes_eq x id ≡ false → Q x → Q' x)
    → IsRing Q r
    → IsRing Q' (remove_from_ring r id)
unfolding remove_from_ring
remove_from_ring-IsRing Q Q' r id q w =
    let m = filter_if (λ (e : ℕ × List ℕ). not (bytes_eq e.1 id)) r.virtual_nodes in
    let ks = map (λ (e : ℕ × List ℕ). e.0) m in
    record {
      sorted = sort_keys-IsSorted ks;
      owned = All-sort_keys (λ (k : ℕ). has_owner m k ≡ true) ks (AllOwned-map m);
      owners = stay r.virtual_nodes w.owners;
    }
  where
    stay :
        (m : List (ℕ × List ℕ))
        → All (λ (e : ℕ × List ℕ). Q e.1) m
        → All (λ (e : ℕ × List ℕ). Q' e.1) (filter_if (λ (e : ℕ × List ℕ). not (bytes_eq e.1 id)) m)
    stay [] a = tt
    stay (e ∷ m) a = elim (Bool-cases (bytes_eq e.1 id)) [
      | inl gone ↦ rw gone (stay m a.1)
      | inr kept ↦ rw kept (q e.1 kept a.0, stay m a.1)
    ]

-- The owner of a key that has one.
pub owner-Q :
    (Q : List ℕ → Type 0) (m : List (ℕ × List ℕ)) (k : ℕ)
    → All (λ (e : ℕ × List ℕ). Q e.1) m
    → has_owner m k ≡ true
    → Q (owner m k)
unfolding owner
owner-Q Q [] k a h = cc
owner-Q Q ((j, v) ∷ m) k a h = elim (Bool-cases (j == k)) [
  | inl same ↦ rw same a.0
  | inr other ↦ rw other (owner-Q Q m k a.1 (rw other at h))
]
