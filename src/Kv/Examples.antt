-- ===== src/Kv/Examples.antt =====
-- The store on concrete data.
pub mod Plain
pub mod Requests
pub mod Starts
use raft_implementation.Prelude.{
  ◌≡◌, ◌<◌, ◌≤◌, ◌-◌, refl, true, none, some, [], ◌∷◌, arith, lookup, string_eq, add64,
}
use raft_implementation.Raft.Log.{Bytes, sentinel, snapshot_index}
use raft_implementation.Raft.Disk.{empty_disk}
use raft_implementation.Raft.Node.{RaftNode, new_raft_node}
use raft_implementation.Raft.Apply.{ApplyMsg, entry_msg}
use raft_implementation.Raft.EventLoop.{boot}
use raft_implementation.Raft.Examples.{config_of}
use raft_implementation.Kv.Store.{Op, Data, ApplyResult, Calls, apply_op, on_apply_msg, restore}
use raft_implementation.Raft.Apply.{Applier, on_commit_notify}
use raft_implementation.Kv.Store.Refines.{log_view, on_commit_notify-log_view}
use raft_implementation.Kv.Store.{Op, kv_machine}
use raft_implementation.Kv.Store.Snapshots.{
  new_calls, set_snapshot_threshold, read_apply_msg, read_apply_msg-boot,
}
use raft_implementation.Kv.Examples.Plain.{plain}

abbrev stored : Data
stored = ("x", "1") ∷ ("y", "2") ∷ []

-- A node that has applied an entry which its threshold of 1 makes the reason for a snapshot.
abbrev busy : RaftNode
busy = record (new_raft_node (config_of "a" []) empty_disk) {
  current_term = 1;
  log = record { entries = sentinel 0 0 ∷ record (sentinel 1 1) { command = 7 ∷ [] } ∷ [] };
  commit_index = 1;
  last_applied = 1;
}

abbrev eager : Calls
eager = set_snapshot_threshold 1 new_calls

abbrev told : ApplyMsg ApplyResult
told = entry_msg 1 1 (7 ∷ []) (record { value = ""; err = none })

due : (on_apply_msg told eager).1 ≡ true
unfolding on_apply_msg set_snapshot_threshold lookup add64
due = refl

above : snapshot_index busy.log < busy.last_applied
unfolding new_raft_node snapshot_index
above = omega arith

quiet_disk : busy.disk.answers ≡ []
unfolding new_raft_node
quiet_disk = refl

read_apply_msg-boot_example :
    let m = (read_apply_msg plain told stored eager busy).1 in
    (payload : Bytes) × ((boot (new_raft_node (config_of "a" []) m.disk)).1 ≡ some payload)
    × (restore plain payload [] ≡ (stored, none))
read_apply_msg-boot_example =
    read_apply_msg-boot plain told stored [] eager busy (config_of "a" []) due above quiet_disk

abbrev set_z : Op
set_z = record { kind = "SET"; key = "z"; value = "3" }

-- A node that has committed an entry with that command and applied nothing.
abbrev woken : Applier (kv_machine plain)
woken = record {
  node = record (new_raft_node (config_of "a" []) empty_disk) {
    log = record {
      entries = sentinel 0 0 ∷ record (sentinel 1 1) { command = plain.encode_op set_z } ∷ [];
    };
    commit_index = 1;
    commit_pending = true;
  };
  app = stored;
  sent = [];
}

starts_low : woken.node.last_applied ≤ woken.node.commit_index
unfolding new_raft_node
starts_low = omega arith

on_commit_notify-log_view_example :
    let b = on_commit_notify (kv_machine plain) 5 woken in
    (b.node.last_applied ≡ 1)
    × (lookup "z" b.app
        ≡ log_view plain
            (1 - woken.node.last_applied)
            woken.node.last_applied
            woken.node.log
            (λ y. lookup y stored)
            "z")
on_commit_notify-log_view_example =
    on_commit_notify-log_view plain 5 woken "z" refl starts_low (omega arith)
