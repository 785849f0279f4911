-- ===== src/Raft/Matching/Applied.antt =====
-- Nodes that apply their logs: state machines that started alike end alike.
use raft_implementation.Prelude.{
  ℕ, zero, suc, ◌+◌, ◌<◌, ◌≤◌, ◌≡◌, refl, sym, ap, ◌∙◌, subst, String, true, List, arith, u64_mod,
}
use raft_implementation.Raft.Log.{Log, get, last_index}
use raft_implementation.Raft.Log.Shape.{IsLog}
use raft_implementation.Raft.Log.Basic.{last_index_lem}
use raft_implementation.Raft.Node.{Config}
use raft_implementation.Raft.StateMachine.{StateMachine}
use raft_implementation.Raft.Apply.{Applier, apply_loop}
use raft_implementation.Raft.Apply.Replay.{replay, replay_one, apply_loop-replay}
use raft_implementation.Raft.Cluster.Quorum.{mem}
use raft_implementation.Raft.Cluster.Preserve.{AreNames}
use raft_implementation.Raft.Cluster.Safety.{AreConfigs}
use raft_implementation.Raft.Matching.{Replicas, Replicate}
use raft_implementation.Raft.Matching.Safety.{
  fresh_replicas, fresh-Matched, Replicate-Keeps, log_matching,
}

module _ (sm : StateMachine) where
  open sm use {State}

  replay_same :
      (k i : ℕ) (l m : Log) (s : State)
      → ((y : ℕ) → i < y → y ≤ i + k → get l y ≡ get m y)
      → replay sm k i l s ≡ replay sm k i m s
  unfolding replay
  replay_same zero i l m s same = refl
  replay_same (suc k) i l m s same =
      ap (λ e. replay sm k (i + 1) l (replay_one sm e s)) (same (i + 1) (omega arith) (omega arith))
      ∙ replay_same k (i + 1) l m (replay_one sm (get m (i + 1)) s)
          (λ y above below. same y (omega arith) (omega arith))

  -- Where a node's log is at least as long as its commit index, that index fits 64 bits.
  loop_replays :
      (k x now : ℕ) (a : Applier sm)
      → IsLog a.node.log
      → a.node.commit_index ≡ x
      → x ≤ last_index a.node.log
      → a.node.last_applied + k ≡ x
      → (apply_loop sm k now a).app ≡ replay sm k a.node.last_applied a.node.log a.app
  loop_replays k x now a w commit low gap =
      let bound = last_index_lem a.node.log w in
      let fits : a.node.commit_index < u64_mod = omega (arith, w.fits, w.has_sentinel) in
      let (_, _, app) = apply_loop-replay sm k now a (omega (arith, gap, commit)) fits in app

  -- In the runs of log_matching, whatever the state machine is: two nodes that have the logs of
  -- nodes of the cluster, that have applied as many entries and are in the same application state,
  -- and have k more entries to apply up to the same commit index above 0, within both logs and
  -- with the same term there, are in the same application state after k rounds of the apply loop.
  pub applied_agree :
      (ids : List String) (o : String) (cfg : String → Config) (s : Replicas) (i j : String)
      (k x now now' : ℕ) (a b : Applier sm)
      → AreNames ids
      → AreConfigs ids cfg
      → mem o ids ≡ true
      → Replicate ids (fresh_replicas ids o cfg) s
      → mem i ids ≡ true
      → mem j ids ≡ true
      → a.node.log ≡ (s.cluster.node i).log
      → b.node.log ≡ (s.cluster.node j).log
      → a.node.commit_index ≡ x
      → b.node.commit_index ≡ x
      → 0 < x
      → x ≤ last_index a.node.log
      → x ≤ last_index b.node.log
      → (get a.node.log x).term ≡ (get b.node.log x).term
      → a.node.last_applied + k ≡ x
      → b.node.last_applied ≡ a.node.last_applied
      → a.app ≡ b.app
      → (apply_loop sm k now a).app ≡ (apply_loop sm k now' b).app
  applied_agree ids o cfg s i j k x now now' a b names h m run mi mj at_i at_j commit commit' pos
        low low' term gap start same =
      let matched = (Replicate-Keeps ids names run (fresh-Matched ids o cfg h m)).0 in
      let w : IsLog a.node.log = subst IsLog (sym at_i) (matched.nodes i mi).good.is_log in
      let w' : IsLog b.node.log = subst IsLog (sym at_j) (matched.nodes j mj).good.is_log in
      let agree : (y : ℕ) → 0 < y → y ≤ x → get a.node.log y ≡ get b.node.log y = λ y above below.
        ap (λ l. get l y) at_i
        ∙ log_matching ids o cfg s i j x names h m run mi mj pos
            (omega (arith, low, ap last_index at_i)) (omega (arith, low', ap last_index at_j))
            (ap (λ l. (get l x).term) (sym at_i) ∙ term ∙ ap (λ l. (get l x).term) at_j) y above
            below
        ∙ ap (λ l. get l y) (sym at_j) in
      loop_replays k x now a w commit low gap
      ∙ replay_same k a.node.last_applied a.node.log b.node.log a.app
          (λ y above below. agree y (omega arith) (omega (arith, gap)))
      ∙ ap (λ p. replay sm k p b.node.log a.app) (sym start)
      ∙ ap (replay sm k b.node.last_applied b.node.log) same
      ∙ sym (loop_replays k x now' b w' commit' low' (omega (arith, gap, start)))
