-- ===== src/Raft/Examples/Runs.antt =====
-- Snapshots, the apply loop and the memory network on concrete nodes.
use raft_implementation.Prelude.{
  ℕ, ◌+◌, ◌<◌, ◌≤◌, ◌≡◌, refl, true, false, some, none, [], ◌∷◌, arith, length, add64, sub64,
  string_eq,
}
use raft_implementation.Raft.Membership.{apply_config_entry}
use raft_implementation.Raft.Membership.Peers.{apply_config_entry-is_member}
use raft_implementation.Raft.Log.{LogEntry, zero_entry, get, snapshot_index}
use raft_implementation.Raft.Rpc.{InstallSnapshotArgs, RequestVoteArgs}
use raft_implementation.Raft.Disk.{SnapshotFile, write_state}
use raft_implementation.Raft.Node.{RaftNode, is_member, follower, new_raft_node}
use raft_implementation.Raft.EventLoop.{boot}
use raft_implementation.Raft.Snapshot.Restart.{log_restored, boot_restores}
use raft_implementation.Raft.StateMachine.{StateMachine}
use raft_implementation.Raft.Snapshot.{take_snapshot, receive_snapshot, handle_install_snapshot}
use raft_implementation.Raft.Snapshot.Transfer.{
  install_snapshot-rolls_back, receive_snapshot_keeps_suffix,
}
use raft_implementation.Raft.Apply.{Applier, apply_loop, on_snapshot_notify}
use raft_implementation.Raft.Apply.Replay.{replay, apply_loop-replay, apply_loop-ends}
use raft_implementation.Raft.MemoryNetwork.{MemoryNetwork, register, new_memory_network}
use raft_implementation.Raft.Apply.Between.{take_entry, apply_taken, take_entry-take_snapshot}
use raft_implementation.Raft.Examples.{two_old-IsLog, two_old, fresh_b, follower_b, config_of}

-- A state machine that keeps the number of commands and the last snapshot's size.
abbrev counter : StateMachine
counter = record {
  State = ℕ;
  Result = ℕ;
  Err = ℕ;
  apply = λ c n. (n + 1, n + 1);
  snapshot = λ n. some (n ∷ []);
  restore = λ b n. (length b, none);
}

-- b has committed both entries and applied none.
abbrev committed : Applier counter
committed = record {
  node = record follower_b { commit_index = 2; last_applied = 0 };
  app = 0;
  sent = [];
}

apply_loop-replay_example :
    let b = apply_loop counter 2 5 committed in
    (b.node.log ≡ two_old) × (b.node.last_applied ≡ 2) × (b.app ≡ replay counter 2 0 two_old 0)
apply_loop-replay_example = apply_loop-replay counter 2 5 committed (ground arith) (ground arith)

apply_loop-ends_example :
    (apply_loop counter 7 5 committed ≡ apply_loop counter 2 5 committed)
    × ((apply_loop counter 2 5 committed).node.commit_index
        ≤ (apply_loop counter 2 5 committed).node.last_applied)
apply_loop-ends_example =
    apply_loop-ends counter 2 7 5 committed (ground arith) (ground arith) (ground arith)

-- b has applied both entries.
abbrev applied : Applier counter
applied = record committed {
  node = record follower_b { commit_index = 2; last_applied = 2 };
  app = 2;
}

abbrev older : InstallSnapshotArgs
older = record {
  term = 1;
  leader_id = "a";
  last_included_index = 1;
  last_included_term = 1;
  payload = 9 ∷ [];
}

low_boundary : snapshot_index two_old < 1
unfolding snapshot_index
low_boundary = ground arith

install_snapshot-rolls_back_example :
    let b =
      on_snapshot_notify counter
        (record applied { node = (handle_install_snapshot older applied.node).0 }) in
    (b.node.last_applied ≡ 2) × (b.app ≡ 1)
unfolding new_raft_node
install_snapshot-rolls_back_example =
    install_snapshot-rolls_back counter older applied refl low_boundary (ground arith) refl

-- b after a snapshot of what it has applied.
abbrev snapped : RaftNode
snapped = (take_snapshot (7 ∷ []) applied.node).0

abbrev snapped_file : SnapshotFile
snapped_file = record { index = 2; term = 1; payload = 7 ∷ [] }

boot_restores_example :
    let (m, bytes) = boot (new_raft_node (config_of "b" ("a" ∷ "c" ∷ [])) snapped.disk) in
    (m.current_term ≡ snapped.current_term)
    × (m.voted_for ≡ snapped.voted_for)
    × (m.log ≡ log_restored (some snapped_file) snapped.log)
    × (m.state ≡ follower)
    × (m.last_applied ≡ 2)
    × (m.commit_index ≡ 2)
    × (bytes ≡ some (7 ∷ []))
unfolding take_snapshot new_raft_node write_state snapshot_index get sub64
boot_restores_example =
    boot_restores snapped (config_of "b" ("a" ∷ "c" ∷ [])) (some snapped_file) refl refl refl

-- The leader's entry at the snapshot's index is of another term.
abbrev other_term : InstallSnapshotArgs
other_term = record older { last_included_term = 3 }

receive_snapshot_keeps_suffix_example :
    get (receive_snapshot other_term applied.node).log 2 ≡ get two_old 2
unfolding new_raft_node
receive_snapshot_keeps_suffix_example =
    receive_snapshot_keeps_suffix other_term applied.node 2 two_old-IsLog low_boundary
      (ground arith) (ground arith) refl

abbrev request_a : RequestVoteArgs
request_a = record {
  term = 1;
  candidate_id = "a";
  last_log_index = 0;
  last_log_term = 0;
  is_pre_vote = false;
}

abbrev network : MemoryNetwork
network = register "b" fresh_b new_memory_network

-- b has applied the first of its two committed entries.
abbrev half_applied : Applier counter
half_applied = record committed {
  node = record follower_b { commit_index = 2; last_applied = 1 };
  app = 1;
}

take_entry-take_snapshot_example :
    let (b, e) = take_entry counter 5 half_applied in
    let m = (take_snapshot (1 ∷ []) b.node).0 in
    let done = apply_taken counter e (record b { node = m }) in
    (counter.snapshot b.app ≡ some (1 ∷ []))
    × (m.disk.snapshot_file ≡ some (record { index = add64 1 1; term = e.term; payload = 1 ∷ [] }))
    × (done.node.last_applied ≡ add64 1 1)
    × (done.app ≡ 2)
unfolding get snapshot_index add64 sub64 new_raft_node
take_entry-take_snapshot_example =
    take_entry-take_snapshot counter 5 half_applied (1 ∷ []) refl (ground arith) refl refl

-- Node c leaves.
abbrev removal : LogEntry
removal = record zero_entry { is_config = true; config_op = "remove"; config_peer = "c" }

apply_config_entry-is_member_example :
    is_member "a" (apply_config_entry 5 removal follower_b).peers ≡ true
unfolding new_raft_node
apply_config_entry-is_member_example = apply_config_entry-is_member 5 removal follower_b "a"
