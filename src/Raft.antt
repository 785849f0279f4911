-- ===== src/Raft.antt =====
-- The package raft/: the consensus core.
pub mod Log
pub mod Rpc
pub mod Disk
pub mod Node
pub mod Accessors
pub mod Election
pub mod Replication
pub mod Snapshot
pub mod Membership
pub mod MemoryNetwork
pub mod Transport
pub mod StateMachine
pub mod Apply
pub mod EventLoop
pub mod Steps
pub mod Votes
pub mod Cluster
pub mod Matching
pub mod Complete
pub mod Examples
