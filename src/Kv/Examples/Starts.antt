-- ===== src/Kv/Examples/Starts.antt =====
-- A node that is started with the default bounds.
use raft_implementation.Prelude.{
  ℕ, ◌<◌, ◌≤◌, ◌≡◌, ◌⊎◌, refl, String, Bool, true, false, Option, none, some, [], arith, ◌==◌,
  str_eq, if◌then◌else◌,
}
use raft_implementation.Raft.Disk.{empty_disk}
use raft_implementation.Raft.Node.{RaftNode, new_raft_node}
use raft_implementation.Raft.EventLoop.{random_election_timeout}
use raft_implementation.Kv.Store.{Data}
use raft_implementation.Kv.Store.Snapshots.{new_calls}
use raft_implementation.Kv.Server.Addrs.{env_int_or_default}
use raft_implementation.Kv.Server.Start.{
  config_of_env, start_node, must_env, IsIntn, start_node-timeout,
}

abbrev no_number : String → Option ℕ
no_number v = none

abbrev env : String → String
env key = if str_eq key "RAFT_PEERS" then "" else "node1"

abbrev makes_dir : String → Bool
makes_dir path = true

abbrev first : ℕ → Option ℕ
first k = if k == 0 then none else some 0

first-IsIntn : IsIntn first
first-IsIntn = record {
  below = λ k pos.
      (0, (let some_bound : (k == 0) ≡ false = ground arith in rw some_bound refl), omega arith);
  panics = refl;
}

abbrev node1 : RaftNode
node1 = new_raft_node (config_of_env no_number env makes_dir "node1" "node1") empty_disk

abbrev nothing : Data
nothing = []

started : start_node no_number env makes_dir empty_disk ≡ some (nothing, new_calls, node1)
unfolding start_node must_env
started = refl

start_node-timeout_example :
    let lowest = env_int_or_default no_number "node1" 150 in
    let highest = env_int_or_default no_number "node1" 300 in
    ((lowest < highest)
      × ((w : ℕ) × (random_election_timeout first node1.config ≡ some w)
          × (lowest ≤ w)
          × (w < highest)))
    ⊎ ((highest ≤ lowest) × (random_election_timeout first node1.config ≡ none))
start_node-timeout_example =
    start_node-timeout no_number env makes_dir empty_disk first nothing new_calls node1 first-IsIntn
      started
