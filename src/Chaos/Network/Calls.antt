-- ===== src/Chaos/Network/Calls.antt =====
-- chaos/network.go: the transport that asks the rule engine before each call, and CrashNode of
-- chaos/injector.go. The random number that a call may draw is an argument of the transport.
use raft_implementation.Prelude.{
  ℕ, ◌+◌, ◌≡◌, ap, String, Option, none, some, List, decimal, ◌<>◌, lookup, string_eq, GoMap,
}
use raft_implementation.Raft.Node.{RaftNode}
use raft_implementation.Raft.Rpc.{RequestVoteArgs, AppendEntriesArgs, InstallSnapshotArgs}
use raft_implementation.Raft.MemoryNetwork.{MemoryNetwork, disconnect}
use raft_implementation.Raft.Transport.{Transport}
use raft_implementation.Chaos.Network.{Rule, EvalResult, eval_forward, eval_drop, evaluate}

-- A dropped packet is an error, and the base transport is not called.
abbrev pub unless_dropped : {W R : Type 0} → EvalResult → W → W × Option R → W × Option R
unless_dropped eval_drop w called = (w, none)
unless_dropped eval_forward w called = called

unfoldable pub chaos_transport : {W : Type 0} → ℕ → String → List Rule → Transport W → Transport W
unfolding evaluate
chaos_transport random id rules base = record {
  call_vote =
      λ addr args w. unless_dropped (evaluate random id addr rules) w (base.call_vote addr args w);
  call_append = λ addr args w.
      unless_dropped (evaluate random id addr rules) w (base.call_append addr args w);
  call_snapshot = λ addr args w.
      unless_dropped (evaluate random id addr rules) w (base.call_snapshot addr args w);
}

-- The counter and the identifier of a rule.
unfoldable pub next_id : String → ℕ → ℕ × String
unfolding decimal
next_id prefix rseq = (rseq + 1, prefix <> "-" <> decimal (rseq + 1))

-- The node's event loop ends, which no handler sees, and its address is cut off.
unfoldable pub crash_node : String → GoMap String RaftNode → MemoryNetwork → MemoryNetwork
unfolding lookup disconnect
crash_node node_id nodes net = elim (lookup node_id nodes) [
  | none ↦ net
  | some n ↦ disconnect node_id net
]

-- A call for which the rules say drop leaves the world and has no reply; any other is the base
-- transport's.
pub chaos_transport-dropped :
    {W : Type 0} (random : ℕ) (id addr : String) (rules : List Rule) (base : Transport W) (w : W)
    → evaluate random id addr rules ≡ eval_drop
    → let t = chaos_transport random id rules base in
      ((args : RequestVoteArgs) → t.call_vote addr args w ≡ (w, none))
      × ((args : AppendEntriesArgs) → t.call_append addr args w ≡ (w, none))
      × ((args : InstallSnapshotArgs) → t.call_snapshot addr args w ≡ (w, none))
unfolding chaos_transport
chaos_transport-dropped random id addr rules base w h = (
  λ args. ap (λ r. unless_dropped r w (base.call_vote addr args w)) h,
  λ args. ap (λ r. unless_dropped r w (base.call_append addr args w)) h,
  λ args. ap (λ r. unless_dropped r w (base.call_snapshot addr args w)) h,
)
