-- ===== src/Raft/Majority.antt =====
-- membership.go: "only one server's role changes per entry, so any majority of the old voter set
-- overlaps any majority of the new one".
use veltrix_db.Base.{
  ℕ, ◌+◌, ◌≤◌, ◌<◌, String, ◌≡◌, inl, inr, refl, ◌∙◌, Bool, true, false, not, ◌&&◌, List, [], ◌∷◌,
  ◌++◌, arith, length, length-append, count_if, if◌then◌else◌, str_eq, str_eq_iff, Bool-cases,
}
use veltrix_db.Raft.Types.{Configuration}
use veltrix_db.Raft.Config.{member_of, contains, is_member, remove_id, quorum_size}
use veltrix_db.Raft.Membership.{
  with_learner, without_member, promoted, add_known, addr_of, set_addr,
}

-- A set of servers holds a majority of a configuration's voters.
abbrev pub IsQuorum : Configuration → (String → Bool) → Type 0
IsQuorum c p = quorum_size c ≤ count_if p c.servers

-- More than the length in two counts: some element is in both.
pigeonhole :
    (p q : String → Bool) (xs : List String)
    → length xs < count_if p xs + count_if q xs
    → (s : String) × (member_of xs s ≡ true) × (p s ≡ true) × (q s ≡ true)
pigeonhole p q [] h = absurd (omega arith)
pigeonhole p q (x ∷ xs) h = elim (Bool-cases (p x && q x)) [
  | inl both ↦ (x, ground (arith, str_eq_iff x x), ground arith, ground arith)
  | inr e ↦ let (s, m, ps, qs) = pigeonhole p q xs (ground arith) in (s, ground arith, ps, qs)
]

count-one : (p : String → Bool) (x : String) → count_if p (x ∷ []) ≤ 1
count-one p x = ground arith

count-append :
    (p : String → Bool) (xs ys : List String)
    → count_if p (xs ++ ys) ≡ count_if p xs + count_if p ys
count-append p [] ys = omega arith
count-append p (x ∷ xs) ys = omega (arith, count-append p xs ys)

-- How often an id stands in a list.
abbrev pub occurrences : String → List String → ℕ
occurrences id = count_if (λ s. str_eq s id)

count-remove :
    (p : String → Bool) (id : String) (xs : List String)
    → count_if p (remove_id xs id) ≤ count_if p xs
count-remove p id [] = omega arith
count-remove p id (x ∷ xs) = ground (arith, count-remove p id xs)

pub length-remove :
    (id : String) (xs : List String) → length (remove_id xs id) + occurrences id xs ≡ length xs
length-remove id [] = omega arith
length-remove id (x ∷ xs) = ground (arith, length-remove id xs)

-- One change of membership.go: a learner joins, a server leaves, or a learner is promoted.
pub data Change (old : Configuration) : Configuration → Type 0 where
  join :
      (id addr : String) (known : List (String × String))
      → Change old (with_learner old id addr known)
  leave : (id : String) → occurrences id old.servers ≤ 1 → Change old (without_member old id)
  promote : (id : String) → Change old (promoted old id)

servers-add_known :
    (c : Configuration) (known : List (String × String)) → (add_known c known).servers ≡ c.servers
unfolding add_known
servers-add_known c [] = refl
servers-add_known c ((m, a) ∷ known) =
    let c' : Configuration =
      if is_member c m && str_eq (addr_of c.addrs m) "" && not (str_eq a "")
      then record c { addrs = set_addr c.addrs m a }
      else c in
    servers-add_known c' known
    ∙ same (is_member c m && str_eq (addr_of c.addrs m) "" && not (str_eq a ""))
  where
    same :
        (b : Bool)
        → (if b then record c { addrs = set_addr c.addrs m a } else c).servers ≡ c.servers
    same true = refl
    same false = refl

pub servers-with_learner :
    (c : Configuration) (id addr : String) (known : List (String × String))
    → (with_learner c id addr known).servers ≡ c.servers
unfolding with_learner
servers-with_learner c id addr known =
    ground (arith, servers-add_known (record c { learners = c.learners ++ id ∷ [] }) known)

-- A quorum of the voters before one change (a server joins as a learner, one that stands at most once
-- among the voters leaves, or one is promoted) and a quorum of those after it have a voter of the old
-- configuration in common.
pub quorum_overlap :
    {old next : Configuration} (p q : String → Bool)
    → Change old next
    → IsQuorum old p
    → IsQuorum next q
    → (s : String) × (contains old s ≡ true) × (p s ≡ true) × (q s ≡ true)
unfolding without_member promoted
quorum_overlap {old} p q (join id addr known) hp hq =
    pigeonhole p q old.servers (omega (arith, rw (servers-with_learner old id addr known) at hq))
quorum_overlap {old} p q (leave id once) hp hq =
    pigeonhole p q old.servers
      (omega (arith, count-remove q id old.servers, length-remove id old.servers))
quorum_overlap {old} p q (promote id) hp hq = pigeonhole p q old.servers (
    omega (
      arith,
      count-append q old.servers (id ∷ []),
      length-append old.servers (id ∷ []),
      count-one q id,
    ))
