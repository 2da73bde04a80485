-- ===== src/Bridge/Roles.antt =====
-- internal/cluster/agent_raft_bridge.go: the flag of the leader and the status of the node.
use cue.Base.{
  ℕ, ◌≡◌, refl, true, false, Bool-cases, inl, inr, List, [], ◌∷◌, Option, String, if◌then◌else◌,
  ◌==◌,
}
use cue.Model.{to_uint32}
use cue.Bridge.{
  ClusterAgent, Notification, role_is_voter, role_is_non_voter, wal_compact, event_role_change,
  notified, apply_role_change, role_status,
}

-- The leader flag and the status say the same.
abbrev pub Agrees : ClusterAgent → Type 0
Agrees a = a.is_leader ≡ (a.status == 73)

-- The agent after these notifications.
unfoldable pub all_notified :
    (node_id_of : ℕ → Option String) → ClusterAgent → List Notification → ClusterAgent
all_notified node_id_of a [] = a
all_notified node_id_of a (n ∷ ns) = all_notified node_id_of (notified node_id_of a n) ns

role_agrees :
    (role : ℕ) → (if role == 2 then true else false) ≡ (to_uint32 (role_status role) == 73)
unfolding role_status to_uint32
role_agrees role = elim (Bool-cases (role == 2)) [
  | inl t ↦ rw (role_status, t) refl
  | inr t ↦ elim (Bool-cases (role == 0)) [
    | inl z ↦ rw (role_status, t, z) refl
    | inr z ↦ rw (role_status, t, z) refl
  ]
]

notified-Agrees :
    (node_id_of : ℕ → Option String) (a : ClusterAgent) (n : Notification)
    → Agrees a
    → Agrees (notified node_id_of a n)
unfolding notified apply_role_change
notified-Agrees node_id_of a role_is_voter h = h
notified-Agrees node_id_of a role_is_non_voter h = h
notified-Agrees node_id_of a (wal_compact index) h = h
notified-Agrees node_id_of a (event_role_change is_leader leader_raft_id role term) h =
    role_agrees role

-- Let the leader flag of the agent say what its status says. After any notifications of Raft the flag is
-- set just if the status is that of an active leader.
pub all_notified-Agrees :
    (node_id_of : ℕ → Option String) (a : ClusterAgent) (ns : List Notification)
    → Agrees a
    → Agrees (all_notified node_id_of a ns)
unfolding all_notified
all_notified-Agrees node_id_of a [] h = h
all_notified-Agrees node_id_of a (n ∷ ns) h =
    all_notified-Agrees node_id_of (notified node_id_of a n) ns (notified-Agrees node_id_of a n h)
