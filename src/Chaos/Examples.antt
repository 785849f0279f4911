-- ===== src/Chaos/Examples.antt =====
-- The rule engine with a partition of node b.
pub mod Lives
use raft_implementation.Prelude.{
  ◌≡◌, ◌≢◌, String, false≢true, List, [], ◌∷◌, eq_iff, some, true, ◌<>◌,
}
use raft_implementation.Chaos.Harness.{
  ScenarioEntry, log_call, error_call, fatal_call, list_scenarios, result_of, perform_calls,
  new_harness,
}
use raft_implementation.Chaos.Server.{Encoder, lists, handle_run, json_body}
use raft_implementation.Chaos.Network.{Rule, action_delay, eval_forward, evaluate}
use raft_implementation.Chaos.Network.Injector.{partition_node, partition_node-evaluate}

-- Messages from a are slow.
abbrev slow_a : List Rule
slow_a = record { id = "delay-1"; from = "a"; to = ""; act = action_delay; prob = 0; d = 10 } ∷ []

abbrev node_b : String
node_b = "b"

named_b : node_b ≢ ""
named_b e = false≢true ((eq_iff "b" "").1 e)

-- The older delay lets a's message through the partition.
partition_node-evaluate_example :
    evaluate 0 "a" "b" (partition_node "part-out-2" "part-in-3" "b" slow_a) ≡ eval_forward
unfolding evaluate
partition_node-evaluate_example =
    partition_node-evaluate 0 "part-out-2" "part-in-3" "b" "a" "b" slow_a named_b

abbrev scenario : ScenarioEntry
scenario = record {
  meta = record { id = "split_brain"; label = "Split Brain"; desc = "" };
  calls = log_call "one" ∷ error_call "two" ∷ fatal_call "three" ∷ log_call "four" ∷ [];
}
