-- ===== src/Raft/Snapshot/Restart.antt =====
-- `loadState` and `restoreFromSnapshot` at the start of `Run`, on the disk that a node has left.
use raft_implementation.Prelude.{ℕ, ◌≡◌, Option, some, none, [], arith, ◌==◌, if◌then◌else◌}
use raft_implementation.Raft.Log.{Bytes, Log, compact_to}
use raft_implementation.Raft.Disk.{SnapshotFile}
use raft_implementation.Raft.Node.{Config, RaftNode, follower, persisted, new_raft_node}
use raft_implementation.Raft.EventLoop.{boot}

-- The log after a restart: compacted to the snapshot on disk, if there is one.
abbrev pub log_restored : Option SnapshotFile → Log → Log
log_restored none l = l
log_restored (some s) l = if s.index == 0 then l else compact_to l s.index s.term

abbrev pub index_restored : Option SnapshotFile → ℕ
index_restored none = 0
index_restored (some s) = s.index

-- The bytes that the application's `Restore` is called with.
abbrev pub bytes_restored : Option SnapshotFile → Option Bytes
bytes_restored none = none
bytes_restored (some s) = if s.index == 0 then none else some s.payload

-- A restart from a readable disk that holds the node's last state gives back its term, its vote
-- and its log, compacted to the snapshot on disk if there is one; it starts as a follower whose
-- commit index and last applied index are the snapshot's, or 0; and it hands the snapshot's bytes
-- to the application, and none if there is no snapshot or its index is 0.
pub boot_restores :
    (n : RaftNode) (cfg : Config) (file : Option SnapshotFile)
    → n.disk.state_file ≡ some (persisted n)
    → n.disk.snapshot_file ≡ file
    → n.disk.answers ≡ []
    → let (m, bytes) = boot (new_raft_node cfg n.disk) in
      (m.current_term ≡ n.current_term)
      × (m.voted_for ≡ n.voted_for)
      × (m.log ≡ log_restored file n.log)
      × (m.state ≡ follower)
      × (m.last_applied ≡ index_restored file)
      × (m.commit_index ≡ index_restored file)
      × (bytes ≡ bytes_restored file)
unfolding boot new_raft_node
boot_restores n cfg none saved snap ok = ground arith
boot_restores n cfg (some s) saved snap ok = ground arith
