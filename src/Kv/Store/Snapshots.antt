-- ===== src/Kv/Store/Snapshots.antt =====
-- kvstore/kvstore.go: the construction of a store with its node, and the snapshots that `readApplyCh`
-- takes by itself.
use raft_implementation.Prelude.{ℕ, ◌≡◌, ◌<◌, refl, true, none, some, [], arith, if◌then◌else◌}
use raft_implementation.Raft.Log.{Bytes, snapshot_index}
use raft_implementation.Raft.Disk.{Disk, write_state}
use raft_implementation.Raft.Node.{Config, RaftNode, new_raft_node, persist}
use raft_implementation.Raft.Snapshot.{take_snapshot}
use raft_implementation.Raft.Apply.{ApplyMsg}
use raft_implementation.Raft.EventLoop.{boot}
use raft_implementation.Kv.Store.{Data, ApplyResult, Codec, Calls, on_apply_msg, snapshot, restore}

abbrev pub new_calls : Calls
new_calls = record { pending = []; answered = []; applied = 0; snapshot_threshold = 100 }

-- `New`, up to the start of the goroutine.
abbrev pub new_store : Config → Disk → Data × Calls × RaftNode
new_store cfg disk = ([], new_calls, new_raft_node cfg disk)

unfoldable pub set_snapshot_threshold : ℕ → Calls → Calls
set_snapshot_threshold n cs = record cs { snapshot_threshold = n }

-- The last lines of a round of `readApplyCh`; the error of `TakeSnapshot` is dropped.
unfoldable pub auto_snapshot : Codec → Data → RaftNode → RaftNode
unfolding snapshot
auto_snapshot c d n = elim (snapshot c d) [ none ↦ n | some bytes ↦ (take_snapshot bytes n).0 ]

-- A whole round: the calls that wait, and the node.
unfoldable pub read_apply_msg :
    Codec → ApplyMsg ApplyResult → Data → Calls → RaftNode → Calls × RaftNode
unfolding on_apply_msg auto_snapshot
read_apply_msg c msg d cs n =
    let (cs', due) = on_apply_msg msg cs in (cs', if due then auto_snapshot c d n else n)

taken_boots :
    (payload : Bytes) (n : RaftNode) (cfg : Config)
    → snapshot_index n.log < n.last_applied
    → n.disk.answers ≡ []
    → (boot (new_raft_node cfg (take_snapshot payload n).0.disk)).1 ≡ some payload
unfolding take_snapshot boot new_raft_node persist write_state
taken_boots payload n cfg above ok = ground arith

-- A round of `readApplyCh` that is due a snapshot, at a node that has applied past its log
-- boundary and whose disk fails no operation: a node built on that disk starts with bytes from
-- which any store restores the data of that round, without an error.
pub read_apply_msg-boot :
    (c : Codec) (msg : ApplyMsg ApplyResult) (d e : Data) (cs : Calls) (n : RaftNode) (cfg : Config)
    → (on_apply_msg msg cs).1 ≡ true
    → snapshot_index n.log < n.last_applied
    → n.disk.answers ≡ []
    → let m = (read_apply_msg c msg d cs n).1 in
      (payload : Bytes) × ((boot (new_raft_node cfg m.disk)).1 ≡ some payload)
      × (restore c payload e ≡ (d, none))
unfolding read_apply_msg restore snapshot auto_snapshot
read_apply_msg-boot c msg d e cs n cfg due above ok = (
  c.encode_data d,
  rw due (taken_boots (c.encode_data d) n cfg above ok),
  rw (c.decode_data-encode_data d, restore) refl,
)
