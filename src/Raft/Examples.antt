-- ===== src/Raft/Examples.antt =====
-- Nodes, logs and messages for the examples, and runs of the code on them.
use raft_implementation.Prelude.{
  ℕ, zero, suc, ◌+◌, ◌-◌, ◌<◌, ◌≤◌, ◌≡◌, ◌≢◌, refl, String, Bool, true, false, Option, some, none,
  List, [], ◌∷◌, arith, length, All, str_eq, eq_iff, add64, sub64, if◌then◌else◌, inl, inr, u64_mod,
}
use raft_implementation.Raft.Log.{
  Log, LogEntry, sentinel, get, last_index, snapshot_index, append, truncate_from, compact_to,
}
use raft_implementation.Raft.Log.Shape.{IsLog, Contiguous}
use raft_implementation.Raft.Rpc.{RequestVoteArgs, AppendEntriesArgs}
use raft_implementation.Raft.Disk.{empty_disk}
use raft_implementation.Raft.Node.{Config, RaftNode, new_raft_node, leader}
use raft_implementation.Raft.Replication.{handle_append_entries, merge_entries}
use raft_implementation.Raft.Replication.Merge.{HasTerms}
pub mod Appends
pub mod Elections
pub mod Matchings
pub mod Completes
pub mod Logs
pub mod Runs
pub mod Transports

abbrev pub entry : ℕ → ℕ → LogEntry
entry i t = sentinel i t

-- A log with two entries of term 1.
abbrev pub two_old : Log
two_old = record { entries = sentinel 0 0 ∷ entry 1 1 ∷ entry 2 1 ∷ [] }

pub two_old-IsLog : IsLog two_old
unfolding snapshot_index
two_old-IsLog = record {
  has_sentinel = ground arith;
  contiguous = (refl, (refl, (refl, tt)));
  fits = ground arith;
}

pub last_two_old : last_index two_old ≡ 2
unfolding last_index snapshot_index add64 sub64
last_two_old = refl

pub two_old-HasTerms : HasTerms two_old
unfolding get last_index snapshot_index add64 sub64
two_old-HasTerms zero a b = absurd (omega (arith, a))
two_old-HasTerms (suc zero) a b = ground arith
two_old-HasTerms (suc (suc zero)) a b = ground arith
two_old-HasTerms (suc (suc (suc i))) a b = absurd (omega (arith, b))

abbrev pub config_of : String → List String → Config
config_of i ps = record {
  id = i;
  peers = ps;
  election_timeout_min_ms = 150;
  election_timeout_max_ms = 300;
  heartbeat_interval_ms = 50;
  self_addr = i;
}

-- A fresh node b in a cluster of three.
abbrev pub fresh_b : RaftNode
fresh_b = new_raft_node (config_of "b" ("a" ∷ "c" ∷ [])) empty_disk

-- A follower that has two entries of term 1.
abbrev pub follower_b : RaftNode
follower_b = record fresh_b { current_term = 1; log = two_old }
