-- ===== src/Raft/Transport.antt =====
-- raft/transport.go: the three calls that a node makes, over a state of the network. A call that
-- fails returns none, since the node looks at no error.
pub mod Proto
pub mod Grpc
pub mod Http
pub mod Agree
use raft_implementation.Prelude.{ℕ, String, Bool, Option, none, some}
use raft_implementation.Raft.Rpc.{
  RequestVoteArgs, RequestVoteReply, AppendEntriesArgs, AppendEntriesReply, InstallSnapshotArgs,
  InstallSnapshotReply,
}
use raft_implementation.Raft.MemoryNetwork.{
  MemoryNetwork, Answer, answer, fault, request_vote, append_entries, install_snapshot,
}

pub record Transport (W : Type 0) : Type 0 where
  pub call_vote : String → RequestVoteArgs → W → W × Option RequestVoteReply
  pub call_append : String → AppendEntriesArgs → W → W × Option AppendEntriesReply
  pub call_snapshot : String → InstallSnapshotArgs → W → W × Option InstallSnapshotReply

abbrev pub replied : {A : Type 0} → Answer A → Option A
replied (answer a) = some a
replied (fault e) = none

abbrev pub with_reply : {A : Type 0} → MemoryNetwork × Answer A → MemoryNetwork × Option A
with_reply r = (r.0, replied r.1)

-- `MemoryTransport` of the node `self`; `done` says that the context had ended.
abbrev pub memory_transport : ℕ → Bool → String → Transport MemoryNetwork
memory_transport now done self = record {
  call_vote = λ addr args net. with_reply (request_vote now args done self addr net);
  call_append = λ addr args net. with_reply (append_entries now args done self addr net);
  call_snapshot = λ addr args net. with_reply (install_snapshot args done self addr net);
}
