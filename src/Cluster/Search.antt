-- ===== src/Cluster/Search.antt =====
-- partition_map.go `GetNode`: the binary search finds the first virtual node at or after a hash.
use veltrix_db.Base.{
  ℕ, zero, suc, ◌+◌, ◌/◌, ◌≤◌, ◌<◌, ◌≡◌, ◌⊎◌, inl, inr, refl, sym, ap, ◌∙◌, Bool, true, false,
  Option, none, some, List, [], ◌∷◌, arith, ltb, leb, ◌==◌, ltb→lt, leb→le, if◌then◌else◌, length,
  get_elem?, Bool-cases, Option-cases,
}
use veltrix_db.Cluster.Types.{HashRing}
use veltrix_db.Cluster.Ring.{search_from, at_least, search_key, owner, owner_at, get_node}

-- The keys stand in order.
abbrev pub AllFrom : ℕ → List ℕ → Type 0
AllFrom k [] = Unit
AllFrom k (x ∷ xs) = (k ≤ x) × AllFrom k xs

abbrev pub IsSorted : List ℕ → Type 0
IsSorted [] = Unit
IsSorted (x ∷ xs) = AllFrom x xs × IsSorted xs

-- How many keys stand before the hash, in a list in order.
abbrev pub before : ℕ → List ℕ → ℕ
before h [] = 0
before h (k ∷ ks) = let rest = suc (before h ks) in if leb h k then 0 else rest

-- The first key at or after the hash, or else the first key of all.
abbrev pub first_from : ℕ → List ℕ → Option ℕ
first_from h [] = none
first_from h (k ∷ ks) = let rest = first_from h ks in if leb h k then some k else rest

abbrev pub or_else : Option ℕ → Option ℕ → Option ℕ
or_else none b = b
or_else (some a) b = some a

abbrev pub successor : ℕ → List ℕ → Option ℕ
successor h ks = or_else (first_from h ks) (get_elem? ks 0)

before-le-length : (h : ℕ) (ks : List ℕ) → before h ks ≤ length ks
before-le-length h [] = omega arith
before-le-length h (k ∷ ks) = ground (arith, before-le-length h ks)

at_least_from : (h k : ℕ) (ks : List ℕ) (i : ℕ) → AllFrom k ks → h ≤ k → at_least ks h i ≡ true
unfolding at_least
at_least_from h k [] i a l = refl
at_least_from h k (x ∷ xs) zero a l = ground arith
at_least_from h k (x ∷ xs) (suc i) a l = at_least_from h k xs i a.1 l

-- The test of the search is false before that many keys, and true from there on.
at_least-before :
    (h : ℕ) (ks : List ℕ) (i : ℕ) → IsSorted ks → at_least ks h i ≡ leb (before h ks) i
unfolding at_least
at_least-before h [] i s = ground arith
at_least-before h (k ∷ ks) zero s = ground arith
at_least-before h (k ∷ ks) (suc i) s = elim (Bool-cases (leb h k)) [
  | inl from ↦ rw from (at_least_from h k ks i s.0 (leb→le h k from) ∙ ground arith)
  | inr below ↦ rw below (at_least-before h ks i s.1 ∙ ground arith)
]

-- The rounds of the search.
module _ (p : ℕ → Bool) (fuel i j : ℕ) where
  ended : ltb i j ≡ false → search_from (suc fuel) p i j ≡ i
  unfolding search_from
  ended q = ground (arith, q)

  left :
      ltb i j ≡ true
      → p ((i + j) / 2) ≡ true
      → search_from (suc fuel) p i j ≡ search_from fuel p i ((i + j) / 2)
  unfolding search_from
  left q r = ground (arith, q, r)

  right :
      ltb i j ≡ true
      → p ((i + j) / 2) ≡ false
      → search_from (suc fuel) p i j ≡ search_from fuel p ((i + j) / 2 + 1) j
  unfolding search_from
  right q r = ground (arith, q, r)

search_from_lem :
    (p : ℕ → Bool) (b fuel i j : ℕ)
    → ((k : ℕ) → p k ≡ leb b k)
    → i ≤ b
    → b ≤ j
    → j ≤ i + fuel
    → search_from fuel p i j ≡ b
unfolding search_from
search_from_lem p b zero i j h l u f = omega arith
search_from_lem p b (suc fuel) i j h l u f = elim (Bool-cases (ltb i j)) [
  | inr done' ↦ ended p fuel i j done' ∙ ground (arith, done')
  | inl more ↦
      let lt = ltb→lt i j more in
      let at = h ((i + j) / 2) in
      elim (Bool-cases (p ((i + j) / 2))) [
        | inl up ↦
            let le = leb→le b ((i + j) / 2) (sym at ∙ up) in
            left p fuel i j more up ∙ search_from_lem p b fuel i ((i + j) / 2) h l le (omega arith)
        | inr down ↦
            let gt : (i + j) / 2 < b = ground (arith, at, down) in
            right p fuel i j more down
            ∙ search_from_lem p b fuel ((i + j) / 2 + 1) j h (omega arith) u (omega arith)
      ]
]

search_before :
    (h : ℕ) (ks : List ℕ)
    → IsSorted ks
    → search_from (length ks) (at_least ks h) 0 (length ks) ≡ before h ks
search_before h ks s =
    search_from_lem (at_least ks h) (before h ks) (length ks) 0 (length ks)
      (λ k. at_least-before h ks k s) (omega arith) (before-le-length h ks) (omega arith)

get_elem?-before :
    (h : ℕ) (ks : List ℕ)
    → ((before h ks ≡ length ks) × (first_from h ks ≡ none))
      ⊎ ((k : ℕ) × (before h ks < length ks)
          × (get_elem? ks (before h ks) ≡ some k)
          × (first_from h ks ≡ some k))
get_elem?-before h [] = inl (refl, refl)
get_elem?-before h (k ∷ ks) = elim (Bool-cases (leb h k)) [
  | inl from ↦ rw from (inr (k, omega arith, refl, refl))
  | inr below ↦ rw below (elim (get_elem?-before h ks) [
    | inl (e, n) ↦ inl (ap suc e, n)
    | inr (x, l, g, f) ↦ inr (x, omega arith, g, f)
  ])
]

search_key-before :
    (h : ℕ) (ks : List ℕ)
    → IsSorted ks
    → search_key ks h ≡ (if before h ks == length ks then 0 else before h ks)
unfolding search_key
search_key-before h ks s = ap (λ x. if x == length ks then 0 else x) (search_before h ks s)

get_elem?-search_key :
    (h : ℕ) (ks : List ℕ) → IsSorted ks → get_elem? ks (search_key ks h) ≡ successor h ks
get_elem?-search_key h ks s = elim (get_elem?-before h ks) [
  | inl (e, n) ↦
      let at : search_key ks h ≡ 0 = ground (arith, search_key-before h ks s, e) in rw (at, n) refl
  | inr (k, l, g, f) ↦
      let at : search_key ks h ≡ before h ks = ground (arith, search_key-before h ks s, l) in
      rw (at, f) g
]

get_elem?-some : (ks : List ℕ) (i k : ℕ) → get_elem? ks i ≡ some k → (length ks == 0) ≡ false
get_elem?-some [] i k h = cc
get_elem?-some (x ∷ xs) i k h = ground arith

successor-none : (h : ℕ) (ks : List ℕ) → successor h ks ≡ none → ks ≡ []
successor-none h [] q = refl
successor-none h (k ∷ ks) q = ground (arith, q)

owner_at_lem :
    (r : HashRing) (i k : ℕ)
    → get_elem? r.sorted_keys i ≡ some k
    → owner_at r i ≡ owner r.virtual_nodes k
unfolding owner_at
owner_at_lem r i k q = rw (q, owner_at) refl

pub get_node-owner_at :
    (r : HashRing) (h : ℕ)
    → (length r.sorted_keys == 0) ≡ false
    → get_node r h ≡ some (owner_at r (search_key r.sorted_keys h))
unfolding get_node
get_node-owner_at r h q = rw q refl

-- A key goes to the owner of the first virtual node at or after its hash, or else of the first of all:
-- the binary search of a ring whose keys stand in order finds what the scan of the keys finds, and there
-- is no node just when the ring has no keys.
pub get_node-successor :
    (r : HashRing) (h : ℕ)
    → IsSorted r.sorted_keys
    → ((r.sorted_keys ≡ []) × (get_node r h ≡ none))
      ⊎ ((k : ℕ) × (successor h r.sorted_keys ≡ some k)
          × (get_node r h ≡ some (owner r.virtual_nodes k)))
unfolding get_node
get_node-successor r h s =
    let at = get_elem?-search_key h r.sorted_keys s in
    elim (Option-cases (successor h r.sorted_keys)) [
      | inl q ↦
          let empty = successor-none h r.sorted_keys q in
          let none_here : (length r.sorted_keys == 0) ≡ true = rw empty refl in
          inl (empty, rw none_here refl)
      | inr (k, q) ↦ inr (
        k,
        q,
        get_node-owner_at r h (get_elem?-some r.sorted_keys (search_key r.sorted_keys h) k (at ∙ q))
            ∙ ap some (owner_at_lem r (search_key r.sorted_keys h) k (at ∙ q)),
      )
    ]
