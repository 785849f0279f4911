-- ===== src/Sidecar/Scenarios.antt =====
-- cmd/sidecar/main.go: the four scenarios on the live cluster. The log lines, the clock and the sleeps
-- are left out; a poll up to a deadline is a number of rounds. A result is the error of a scenario
-- that failed, or none.
use raft_implementation.Prelude.{
  ℕ, zero, suc, ◌+◌, ◌/◌, String, Bool, false, ◌||◌, Option, none, some, List, [], ◌∷◌, ◌++◌, map,
  ltb, str_eq, if◌then◌else◌, length, take, ◌<>◌, decimal, string_eq,
}
use raft_implementation.Sidecar.Registry.{NodeDef, RaftStatus, Sidecar, is_paused}
use raft_implementation.Sidecar.Docker.{Environment}
use raft_implementation.Sidecar.Cluster.{fetch_raft_status}
use raft_implementation.Sidecar.Status.{says_leader}
use raft_implementation.Sidecar.Lifecycle.{pause_node, unpause_node, with_world}

-- The descriptions, texts for the dashboard, are left out.
pub record LiveScenarioMeta : Type 0 where
  pub id : String
  pub label : String
  pub desc : String
  pub min_nodes : ℕ

abbrev pub live_scenario_list : List LiveScenarioMeta
live_scenario_list =
    record {
      id = "isolate_leader";
      label = "Isolate Leader";
      desc =
          "Pauses the current leader container. The cluster elects a new leader. "
          <> "After 3 seconds the old leader is restored and rejoins as follower.";
      min_nodes = 3;
    }
    ∷ record {
      id = "lose_follower";
      label = "Lose a Follower";
      desc =
          "Pauses one follower. The remaining nodes still hold quorum and the cluster continues. "
          <> "Follower is restored after 3 seconds.";
      min_nodes = 3;
    }
    ∷ record {
      id = "quorum_loss";
      label = "Quorum Loss";
      desc =
          "Pauses the majority of nodes so the cluster drops below quorum. "
          <> "The leader cannot commit new entries. All nodes are restored after 4 seconds.";
      min_nodes = 3;
    }
    ∷ record {
      id = "leader_churn";
      label = "Leader Churn";
      desc =
          "Performs 3 rapid leader-failover cycles in a row. "
          <> "Each round pauses the current leader, waits for a new one, then restores. "
          <> "Watch the term counter climb.";
      min_nodes = 3;
    }
    ∷ []

-- `floor(n/2)+1`, and the number of nodes whose pause breaks it.
abbrev pub quorum_of : ℕ → ℕ
quorum_of n = n / 2 + 1

abbrev pub to_pause : ℕ → ℕ
to_pause n = (n + 1) / 2

module _ {W : Type 0} (env : Environment W) where
  abbrev ScenarioEnd : Type 0
  ScenarioEnd = Sidecar W × Option String

  -- The nodes are asked in order; one that is skipped or is paused is not asked.
  unfoldable pub ask : (String → Bool) → NodeDef → Sidecar W → Sidecar W × Option RaftStatus
  unfolding is_paused fetch_raft_status
  ask skip n s =
      let (w, st) = fetch_raft_status env n.http_port s.world in
      if skip n.id || is_paused n.id s then (s, none) else (with_world w s, st)

  -- The first node that says that it is the leader.
  unfoldable pub find_leader :
      (String → Bool) → List NodeDef → Sidecar W → Sidecar W × Option NodeDef
  unfolding ask
  find_leader skip [] s = (s, none)
  find_leader skip (n ∷ ns) s =
      let (s', st) = ask skip n s in
      let rest = find_leader skip ns s' in if says_leader st then (s', some n) else rest

  abbrev pub found_or :
      Sidecar W × Option NodeDef → Sidecar W × Option NodeDef → Sidecar W × Option NodeDef
  found_or (s, some n) next = (s, some n)
  found_or (s, none) next = next

  unfoldable pub poll_leader :
      ℕ → (String → Bool) → List NodeDef → Sidecar W → Sidecar W × Option NodeDef
  unfolding find_leader
  poll_leader zero skip all s = (s, none)
  poll_leader (suc rounds) skip all s =
      let (s', found) = find_leader skip all s in
      found_or (s', found) (poll_leader rounds skip all s')

  -- The end of a scenario, after its node is unpaused: without a leader the error of that is dropped.
  abbrev pub finished : String → String → Option NodeDef → ScenarioEnd → ScenarioEnd
  finished no_leader no_restore none (s, err) = (s, some no_leader)
  finished no_leader no_restore (some n) (s, none) = (s, none)
  finished no_leader no_restore (some n) (s, some e) = (s, some (no_restore <> e))

  abbrev pub unless_failed : String → ScenarioEnd → ScenarioEnd → ScenarioEnd
  unless_failed what (s, some e) rest = (s, some (what <> e))
  unless_failed what (s, none) rest = rest

  -- Pause the leader, wait for another one, restore it; the texts of the errors follow in the order in
  -- which they can come up.
  unfoldable pub fail_over :
      ℕ → List NodeDef → String → String → String → NodeDef → Sidecar W → ScenarioEnd
  unfolding pause_node unpause_node poll_leader
  fail_over rounds all no_pause no_leader no_restore leader s =
      let (s₁, err) = pause_node env leader s in
      let (s₂, found) = poll_leader rounds (λ id. str_eq id leader.id) all s₁ in
      unless_failed no_pause (s₁, err)
        (finished no_leader no_restore found (unpause_node env leader s₂))

  abbrev pub with_found :
      String → Sidecar W × Option NodeDef → (NodeDef → Sidecar W → ScenarioEnd) → ScenarioEnd
  with_found no_leader (s, none) go = (s, some no_leader)
  with_found no_leader (s, some n) go = go n s

  unfoldable pub isolate_leader : ℕ → Sidecar W → ScenarioEnd
  unfolding find_leader fail_over
  isolate_leader rounds s =
      with_found "no leader found — is the cluster running?" (find_leader (λ id. false) s.nodes s) (
        fail_over rounds s.nodes "pause failed: "
          "new leader not elected within timeout — not enough nodes online?" "unpause failed: ")

  abbrev pub add_answer :
      NodeDef
      → Option RaftStatus
      → Sidecar W × List (NodeDef × RaftStatus)
      → Sidecar W × List (NodeDef × RaftStatus)
  add_answer n none x = x
  add_answer n (some st) (s, rest) = (s, (n, st) ∷ rest)

  -- The nodes that answer, with what they say.
  unfoldable pub online_nodes : List NodeDef → Sidecar W → Sidecar W × List (NodeDef × RaftStatus)
  unfolding ask
  online_nodes [] s = (s, [])
  online_nodes (n ∷ ns) s =
      let (s₁, st) = ask (λ id. false) n s in add_answer n st (online_nodes ns s₁)

  unfoldable pub first_follower : List (NodeDef × RaftStatus) → Option NodeDef
  first_follower [] = none
  first_follower ((n, st) ∷ online) =
      let rest = first_follower online in if str_eq st.state "follower" then some n else rest

  unfoldable pub lose_node : List NodeDef → NodeDef → Sidecar W → ScenarioEnd
  unfolding pause_node find_leader unpause_node
  lose_node all follower s =
      let (s₁, err) = pause_node env follower s in
      let (s₂, found) = find_leader (λ id. str_eq id follower.id) all s₁ in
      unless_failed "pause failed: " (s₁, err)
        (finished "leader was lost after follower partition — unexpected quorum failure"
          "unpause failed: " found (unpause_node env follower s₂))

  unfoldable pub lose_follower : Sidecar W → ScenarioEnd
  unfolding online_nodes first_follower lose_node
  lose_follower s =
      let (s', online) = online_nodes s.nodes s in
      with_found "no follower found — need at least 2 nodes online" (s', first_follower online)
        (λ follower s'.
          if ltb (length online) 2
          then (s', some "only 1 node online; need at least 2 to maintain quorum after partition")
          else lose_node s.nodes follower s')

  -- The loops that restore: an error is at most logged.
  unfoldable pub restore_all : List NodeDef → Sidecar W → Sidecar W
  unfolding unpause_node
  restore_all [] s = s
  restore_all (n ∷ ns) s = restore_all ns (unpause_node env n s).0

  abbrev pub or_restore : List NodeDef → NodeDef → ScenarioEnd → ScenarioEnd → ScenarioEnd
  or_restore done n (s, none) rest = rest
  or_restore done n (s, some e) rest = (restore_all done s, some ("pause " <> n.id <> ": " <> e))

  -- The loop that pauses, given the nodes that it has paused, the newest last.
  unfoldable pub pause_all : List NodeDef → List NodeDef → Sidecar W → ScenarioEnd
  unfolding pause_node restore_all
  pause_all done [] s = (s, none)
  pause_all done (n ∷ ns) s =
      let (s', err) = pause_node env n s in
      or_restore done n (s', err) (pause_all (done ++ n ∷ []) ns s')

  unfoldable pub quorum_loss : Sidecar W → ScenarioEnd
  unfolding online_nodes pause_all restore_all
  quorum_loss s =
      let (s₁, answers) = online_nodes s.nodes s in
      let online = map (λ x. x.0) answers in
      let n = length online in
      let victims = take (to_pause n) online in
      let (s₂, err) = pause_all [] victims s₁ in
      if ltb n 3
      then (s₁, some ("need at least 3 running nodes, found " <> decimal n))
      else unless_failed "" (s₂, err) (restore_all victims s₂, none)

  -- One round of `runScenarioLeaderChurn`: the leader is looked for twice.
  unfoldable pub churn_round : ℕ → ℕ → List NodeDef → Sidecar W → ScenarioEnd
  unfolding find_leader fail_over
  churn_round rounds round all s =
      let name = "round " <> decimal round <> ": " in
      let (s₁, first) = find_leader (λ id. false) all s in
      with_found (name <> "no leader found")
        (found_or (s₁, first) (find_leader (λ id. false) all s₁))
        (λ leader.
          fail_over rounds all (name <> "pause " <> leader.id <> ": ")
            (name <> "new leader not elected within timeout")
            (name <> "unpause " <> leader.id <> ": ") leader)

  -- The rounds from the given one on.
  unfoldable pub churn : ℕ → ℕ → ℕ → List NodeDef → Sidecar W → ScenarioEnd
  unfolding churn_round
  churn zero rounds round all s = (s, none)
  churn (suc left) rounds round all s =
      let (s', err) = churn_round rounds round all s in
      let rest = churn left rounds (round + 1) all s' in unless_failed "" (s', err) rest

  unfoldable pub leader_churn : ℕ → Sidecar W → ScenarioEnd
  unfolding churn
  leader_churn rounds s = churn 3 rounds 1 s.nodes s
