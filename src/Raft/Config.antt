-- ===== src/Raft/Config.antt =====
-- consensus/membership.go: the operations on a `Configuration`.
use veltrix_db.Base.{
  ℕ, ◌+◌, ◌/◌, String, Bool, not, ◌||◌, List, ◌++◌, length, filter_if, any_if, str_eq,
}
use veltrix_db.Raft.Types.{Configuration}

abbrev pub member_of : List String → String → Bool
member_of ids id = any_if (λ s. str_eq s id) ids

-- contains, IsVoter
abbrev pub contains : Configuration → String → Bool
contains c id = member_of c.servers id

-- isLearner
abbrev pub is_learner : Configuration → String → Bool
is_learner c id = member_of c.learners id

-- IsMember
abbrev pub is_member : Configuration → String → Bool
is_member c id = contains c id || is_learner c id

-- Members
abbrev pub members : Configuration → List String
members c = c.servers ++ c.learners

-- removeID
abbrev pub remove_id : List String → String → List String
remove_id ids id = filter_if (λ s. not (str_eq s id)) ids

-- quorumSize; also the majority of `reachableQuorumLocked`
abbrev pub quorum_size : Configuration → ℕ
quorum_size c = length c.servers / 2 + 1
