-- ===== src/Partition.antt =====
-- internal/state/partition.go: a topic's partition. Its state and small handlers stand in State, the
-- commands of the log in Commands, and the dispatch to proxies in Dispatch; the other children hold
-- the proofs. The metrics, the logger and the pools of slices are left out.
pub mod State
pub mod Commands
pub mod Dispatch
pub mod Delay
pub mod Admission
pub mod Completion
pub mod Follower
pub mod Classification
pub mod Accounting
pub mod Dangling
pub mod Loop
mod Tests
