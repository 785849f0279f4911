-- ===== src/Raft/MemoryNetwork.antt =====
-- raft/transport_memory.go: calls from node to node through a shared registry. The registry holds
-- the nodes themselves, since a call changes its receiver.
pub mod Delivery
use raft_implementation.Prelude.{
  ℕ, String, Bool, true, false, none, some, [], if◌then◌else◌, GoMap, lookup, lookup_or, insert,
  delete, string_eq,
}
use raft_implementation.Raft.Node.{RaftNode}
use raft_implementation.Raft.Rpc.{
  RequestVoteArgs, RequestVoteReply, AppendEntriesArgs, AppendEntriesReply, InstallSnapshotArgs,
  InstallSnapshotReply,
}
use raft_implementation.Raft.Election.{handle_request_vote}
use raft_implementation.Raft.Replication.{handle_append_entries}
use raft_implementation.Raft.Snapshot.{handle_install_snapshot}

pub record MemoryNetwork : Type 0 where
  pub nodes : GoMap String RaftNode
  pub disconnected : GoMap String Bool

abbrev pub new_memory_network : MemoryNetwork
new_memory_network = record { nodes = []; disconnected = [] }

pub data RpcError : Type 0 where
  disconnected_node : String → RpcError
  unknown_node : String → RpcError
  context_done : RpcError

-- What a call returns.
pub data Answer {ℓ} (A : Type ℓ) : Type ℓ where
  answer : A → Answer A
  fault : RpcError → Answer A

unfoldable pub register : String → RaftNode → MemoryNetwork → MemoryNetwork
register id n net = record net { nodes = insert id n net.nodes }

unfoldable pub disconnect : String → MemoryNetwork → MemoryNetwork
disconnect id net = record net { disconnected = insert id true net.disconnected }

unfoldable pub reconnect : String → MemoryNetwork → MemoryNetwork
reconnect id net = record net { disconnected = delete id net.disconnected }

abbrev pub is_cut : String → MemoryNetwork → Bool
is_cut id net = lookup_or false id net.disconnected

-- `MemoryTransport.lookup`, of the transport of `self`.
unfoldable pub find_node : String → String → MemoryNetwork → Answer RaftNode
find_node self addr net =
    if is_cut self net
    then fault (disconnected_node self)
    else if is_cut addr net
    then fault (disconnected_node addr)
    else elim (lookup addr net.nodes) [ none ↦ fault (unknown_node addr) | some n ↦ answer n ]

-- The three RPC methods differ in the handler alone; `done` says that the context had ended.
unfoldable pub deliver {ℓ} :
    {R : Type ℓ}
    → (RaftNode → RaftNode × R)
    → Bool
    → String
    → String
    → MemoryNetwork
    → MemoryNetwork × Answer R
unfolding find_node register
deliver handle done self addr net = elim (find_node self addr net) [
  | fault e ↦ (net, fault e)
  | answer n ↦
      (if done
        then (net, fault context_done)
        else (register addr (handle n).0 net, answer (handle n).1))
]

unfoldable pub request_vote :
    ℕ
    → RequestVoteArgs
    → Bool
    → String
    → String
    → MemoryNetwork
    → MemoryNetwork × Answer RequestVoteReply
unfolding deliver
request_vote now args = deliver (handle_request_vote now args)

unfoldable pub append_entries :
    ℕ
    → AppendEntriesArgs
    → Bool
    → String
    → String
    → MemoryNetwork
    → MemoryNetwork × Answer AppendEntriesReply
unfolding deliver
append_entries now args = deliver (handle_append_entries now args)

unfoldable pub install_snapshot :
    InstallSnapshotArgs
    → Bool
    → String
    → String
    → MemoryNetwork
    → MemoryNetwork × Answer InstallSnapshotReply
unfolding deliver
install_snapshot args = deliver (handle_install_snapshot args)
