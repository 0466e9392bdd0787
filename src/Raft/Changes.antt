-- ===== src/Raft/Changes.antt =====
-- membership.go: what AddMember and RemoveMember do to the configuration of a leader.
use veltrix_db.Base.{
  ℕ, ◌≤◌, String, ◌≡◌, ◌⊎◌, Bool, true, false, Option, none, some, List, [], ◌∷◌, length, count_if,
}
use veltrix_db.Raft.Types.{Configuration, LogEntry}
use veltrix_db.Raft.Config.{contains, is_member, quorum_size}
use veltrix_db.Raft.Log.{Node}
use veltrix_db.Raft.Role.{is_leader}
use veltrix_db.Raft.Membership.{ChangeResult, with_learner, without_member, reachable}
use veltrix_db.Raft.Majority.{Change}

-- The node as a wait sees it, at one of its turns.
abbrev pub Seen : Node → List (ℕ × Node) → Node → Type 0
Seen n [] at = at ≡ n
Seen n ((t, n') ∷ later) at = (at ≡ n) ⊎ Seen n' later at

-- A quorum of the voters of a configuration was in touch with a node, at some time.
abbrev pub InTouch : Node → Configuration → Type 0
InTouch n c = (t : ℕ) × (quorum_size c ≤ count_if (reachable t n) c.servers)

-- What a wait ends with.
abbrev Ended : (Node → Configuration) → Node → List (ℕ × Node) → Bool → Node → Type 0
Ended cfg n later ok at = Seen n later at × ((ok ≡ false) ⊎ InTouch at (cfg at))

-- A proposal on a node: the configuration `next`, on a leader whose last configuration is committed.
abbrev pub Proposed : Node → Configuration → Node → Type 0
Proposed at next m =
    (m.config ≡ next)
    × Change at.config next
    × (is_leader at.role ≡ true)
    × (at.config_index ≤ at.commit_index)
    × (1 ≤ length next.servers)

-- AddMember still waits; or it has ended on a node that it has seen, and the configuration there is as it
-- was; or, the server being no member when it began, a quorum in touch, it has proposed that it learns.
abbrev pub AddSteps :
    Node
    → List (ℕ × Node)
    → String
    → String
    → List (String × String)
    → Option (ChangeResult (Option LogEntry) × Node)
    → Type 0
AddSteps n later id addr known r =
    (r ≡ none)
    ⊎ ((res : ChangeResult (Option LogEntry)) × (m : Node) × (at : Node) × (r ≡ some (res, m))
        × Seen n later at
        × ((m.config ≡ at.config)
            ⊎ (Proposed at (with_learner at.config id addr known) m
                × InTouch at at.config
                × (is_member n.config id ≡ false))))

-- RemoveMember likewise: the server is a member when it proposes that it leaves, and a quorum of the voters
-- that stay is in touch if it was a voter when it began.
abbrev pub RemoveSteps :
    Node → List (ℕ × Node) → String → Option (ChangeResult LogEntry × Node) → Type 0
RemoveSteps n later id r =
    (r ≡ none)
    ⊎ ((res : ChangeResult LogEntry) × (m : Node) × (at : Node) × (r ≡ some (res, m))
        × Seen n later at
        × ((m.config ≡ at.config)
            ⊎ (Proposed at (without_member at.config id) m
                × (is_member at.config id ≡ true)
                × ((contains n.config id ≡ false) ⊎ InTouch at (without_member at.config id)))))
