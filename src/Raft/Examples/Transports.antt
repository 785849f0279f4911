-- ===== src/Raft/Examples/Transports.antt =====
-- The transports on a network with one registered node. A body is a message as it is.
use raft_implementation.Prelude.{◌≡◌, refl, false, Option, none, some}
use raft_implementation.Raft.Rpc.{
  RequestVoteArgs, RequestVoteReply, AppendEntriesArgs, AppendEntriesReply, InstallSnapshotArgs,
  InstallSnapshotReply,
}
use raft_implementation.Raft.MemoryNetwork.{MemoryNetwork, new_memory_network, register}
use raft_implementation.Raft.Transport.{memory_transport}
use raft_implementation.Raft.Transport.Grpc.{grpc_transport}
use raft_implementation.Raft.Transport.Http.{Codecs, http_transport}
use raft_implementation.Raft.Transport.Agree.{grpc_wire, http_wire, transports_agree}
use raft_implementation.Raft.Examples.{fresh_b}

pub data Body : Type 0 where
  failure : Body
  vote_args_body : RequestVoteArgs → Body
  vote_reply_body : RequestVoteReply → Body
  append_args_body : AppendEntriesArgs → Body
  append_reply_body : AppendEntriesReply → Body
  snapshot_args_body : InstallSnapshotArgs → Body
  snapshot_reply_body : InstallSnapshotReply → Body

abbrev to_vote_args : Body → Option RequestVoteArgs
to_vote_args (vote_args_body a) = some a
to_vote_args _ = none

abbrev to_vote_reply : Body → Option RequestVoteReply
to_vote_reply (vote_reply_body a) = some a
to_vote_reply _ = none

abbrev to_append_args : Body → Option AppendEntriesArgs
to_append_args (append_args_body a) = some a
to_append_args _ = none

abbrev to_append_reply : Body → Option AppendEntriesReply
to_append_reply (append_reply_body a) = some a
to_append_reply _ = none

abbrev to_snapshot_args : Body → Option InstallSnapshotArgs
to_snapshot_args (snapshot_args_body a) = some a
to_snapshot_args _ = none

abbrev to_snapshot_reply : Body → Option InstallSnapshotReply
to_snapshot_reply (snapshot_reply_body a) = some a
to_snapshot_reply _ = none

abbrev codecs : Codecs Body
codecs = record {
  error_text = failure;
  vote_args = record {
    encode = λ a. vote_args_body a;
    decode = to_vote_args;
    decode-encode = λ a. refl;
  };
  vote_reply = record {
    encode = λ a. vote_reply_body a;
    decode = to_vote_reply;
    decode-encode = λ a. refl;
  };
  append_args = record {
    encode = λ a. append_args_body a;
    decode = to_append_args;
    decode-encode = λ a. refl;
  };
  append_reply = record {
    encode = λ a. append_reply_body a;
    decode = to_append_reply;
    decode-encode = λ a. refl;
  };
  snapshot_args = record {
    encode = λ a. snapshot_args_body a;
    decode = to_snapshot_args;
    decode-encode = λ a. refl;
  };
  snapshot_reply = record {
    encode = λ a. snapshot_reply_body a;
    decode = to_snapshot_reply;
    decode-encode = λ a. refl;
  };
}

abbrev one_node : MemoryNetwork
one_node = register "b" fresh_b new_memory_network

transports_agree_example :
    let g = grpc_transport (grpc_wire 5 false "a") in
    let h = http_transport (http_wire codecs 5 false "a") codecs in
    let m = memory_transport 5 false "a" in
    ((args : RequestVoteArgs)
      → (g.call_vote "b" args one_node ≡ m.call_vote "b" args one_node)
        × (h.call_vote "b" args one_node ≡ m.call_vote "b" args one_node))
    × ((args : AppendEntriesArgs)
        → (g.call_append "b" args one_node ≡ m.call_append "b" args one_node)
          × (h.call_append "b" args one_node ≡ m.call_append "b" args one_node))
    × ((args : InstallSnapshotArgs)
        → (g.call_snapshot "b" args one_node ≡ m.call_snapshot "b" args one_node)
          × (h.call_snapshot "b" args one_node ≡ m.call_snapshot "b" args one_node))
transports_agree_example = transports_agree codecs 5 false "a" "b" one_node
