-- ===== src/Chaos/Live/Scripts.antt =====
-- chaos/scenarios.go: the scenarios and their registration.
use raft_implementation.Prelude.{
  ℕ, zero, suc, ◌+◌, String, ltb, leb, none, some, List, [], if◌then◌else◌, ◌<>◌, decimal,
}
use raft_implementation.Raft.Accessors.{commit_index}
use raft_implementation.Raft.Membership.{accepted_at, refused}
use raft_implementation.Chaos.Harness.{ScenarioEntry, ScenarioMeta, register}
use raft_implementation.Chaos.Live.{
  Surroundings, ◌>>=◌, ◌>>◌, pure, gets, tb_log, tb_error, sleep, partition, heal, heal_all_links,
  lose_packets, restore_packets, submit_to, names_from, chaos_cluster,
}
use raft_implementation.Chaos.Live.Waits.{
  Play, wait_for_leader, wait_consistent, submit_each, count_accepted, show_observations, others,
  check_stepped_down, term_of, with_term, submitted, first_other,
}

-- The scenarios that `init` registers.
pub data Scenario : Type 0 where
  split_brain_id stale_log_id isolation_id packet_loss_id : Scenario

abbrev pub meta_of : Scenario → ScenarioMeta
meta_of split_brain_id = record {
  id = "split_brain";
  label = "Split Brain";
  desc =
      "Isolates the leader; the remaining majority elects a new one. "
      <> "Writes sent to the isolated node cannot commit without a quorum.";
}
meta_of stale_log_id = record {
  id = "stale_log_cannot_win";
  label = "Stale Log Cannot Win";
  desc =
      "A follower is partitioned while the log advances. "
      <> "After healing, its RequestVotes are rejected by up-to-date peers (Raft §5.4.1).";
}
meta_of isolation_id = record {
  id = "leader_isolation";
  label = "Leader Isolation Write Loss";
  desc =
      "The leader is cut off from all peers. Writes it accepts locally must not commit — "
      <> "the commit index must not advance without a quorum.";
}
meta_of packet_loss_id = record {
  id = "packet_loss_converges";
  label = "30% Packet Loss Still Converges";
  desc =
      "Probabilistic 30% packet loss is injected on all links. "
      <> "The cluster degrades gracefully but still elects a leader and commits entries.";
}

-- The numbers of nodes that they ask `chaosClusterTB` for.
abbrev pub size_of : Scenario → ℕ
size_of split_brain_id = 5
size_of _ = 3

module _ (env : Surroundings) where
  open env use {World, rounds}

  unfoldable pub split_brain : Play env Unit
  split_brain = do
    let ids = names_from 1 5
    _ ← wait_for_leader env (rounds 3000) ids
    sleep env 200
    leader ← wait_for_leader env (rounds 2000) ids
    term ← term_of env leader
    tb_log env ("initial leader: " <> with_term leader term)
    submit_each env leader "before-partition-" "pre-partition Submit" 0 3
    sleep env 200
    cut ← partition env leader
    accepted ← count_accepted env leader "isolated-" (pure tt) 0 0 5
    tb_log env (
        "isolated leader accepted "
        <> decimal accepted
        <> " write(s) locally (won't commit without quorum)")
    new_leader ← wait_for_leader env (rounds 3000) (others leader ids)
    new_term ← term_of env new_leader
    tb_log env ("new leader after partition: " <> with_term new_leader new_term)
    old_term ← term_of env leader
    if leb new_term old_term
        then tb_error env (
            "new leader term "
            <> decimal new_term
            <> " should exceed old leader term "
            <> decimal old_term)
        else pure tt
    submit_each env new_leader "after-partition-" "post-partition Submit" 0 3
    sleep env 200
    heal env leader cut
    sleep env 800
    check_stepped_down env leader
        "isolated leader should have stepped down after heal, still reports Leader"
    wait_consistent env (rounds 5000) ids
    show_observations env

  unfoldable pub stale_log_cannot_win : Play env Unit
  stale_log_cannot_win = do
    let ids = names_from 1 3
    leader ← wait_for_leader env (rounds 3000) ids
    tb_log env ("initial leader: " <> leader)
    let stale = first_other leader ids
    tb_log env ("stale target: " <> stale)
    cut ← partition env stale
    submit_each env leader "advance-" "Submit during partition" 0 10
    sleep env 200
    heal env stale cut
    sleep env 500
    check_stepped_down env stale
        ("stale node " <> stale <> " won election despite having a shorter log")
    new_leader ← wait_for_leader env (rounds 3000) ids
    term ← term_of env new_leader
    tb_log env ("leader after heal: " <> with_term new_leader term)
    wait_consistent env (rounds 3000) ids
    show_observations env

  unfoldable pub leader_isolation : Play env Unit
  leader_isolation = do
    let ids = names_from 1 3
    leader ← wait_for_leader env (rounds 3000) ids
    tb_log env ("initial leader: " <> leader)
    baseline ← gets (λ l. commit_index (l.nodes leader))
    _ ← partition env leader
    accepted ← count_accepted env leader "lost-" (sleep env 10) 0 0 5
    tb_log env ("isolated leader accepted " <> decimal accepted <> " write(s) into local log")
    new_leader ← wait_for_leader env (rounds 3000) (others leader ids)
    term ← term_of env new_leader
    tb_log env ("new leader: " <> with_term new_leader term)
    isolated ← gets (λ l. commit_index (l.nodes leader))
    if ltb baseline isolated
        then tb_error env (
            "isolated leader commit index advanced from "
            <> decimal baseline
            <> " to "
            <> decimal isolated
            <> " without quorum")
        else pure tt
    tb_log env (
        "isolated leader commitIndex: baseline="
        <> decimal baseline
        <> ", after-writes="
        <> decimal isolated
        <> " (no advance — correct)")
    heal_all_links env
    sleep env 600
    check_stepped_down env leader "old isolated leader still reports Leader state after heal"
    r ← submit_to env new_leader "post-heal"
    submitted env "post-heal Submit" r
    wait_consistent env (rounds 5000) ids
    show_observations env

  -- The writes of the last scenario: a refused one is tried once more at the leader found anew.
  unfoldable pub submit_lossy : String → ℕ → ℕ → Play env Unit
  submit_lossy leader i zero = pure tt
  submit_lossy leader i (suc count) = do
    let text = "lossy-" <> decimal i
    r ← submit_to env leader text
    next ← elim r [
      | accepted_at index term ↦ pure leader
      | refused e ↦ do
        found_again ← wait_for_leader env (rounds 3000) (names_from 1 3)
        r' ← submit_to env found_again text
        elim r' [
          | accepted_at index term ↦ pure tt
          | refused e' ↦
              tb_log env
                ("Submit " <> decimal i <> " skipped under lossy network: raft: not the leader")
        ]
        pure found_again
    ]
    sleep env 100
    submit_lossy next (i + 1) count

  -- The scenario between the injection of the loss and the end.
  unfoldable pub lossy_part : String → Play env Unit
  unfolding submit_lossy
  lossy_part rule_id = do
    let ids = names_from 1 3
    leader ← wait_for_leader env (rounds 8000) ids
    term ← term_of env leader
    tb_log env ("leader under 30% packet loss: " <> with_term leader term)
    submit_lossy leader 0 5
    sleep env 1000
    restore_packets env rule_id
    wait_consistent env (rounds 5000) ids
    show_observations env

  -- The deferred restoration runs at the end, also after a panic.
  unfoldable pub packet_loss_converges : Play env Unit
  unfolding lossy_part
  packet_loss_converges l =
      let (rule_id, lossy) = lose_packets env 30 l in
      elim rule_id [
        | none ↦ (none, lossy)
        | some id ↦
            let (r, l') = lossy_part id lossy in
            let (_, restored) = restore_packets env id l' in (r, restored)
      ]

  abbrev pub script : Scenario → Play env Unit
  script split_brain_id = split_brain
  script stale_log_id = stale_log_cannot_win
  script isolation_id = leader_isolation
  script packet_loss_id = packet_loss_converges

  -- What the harness sees of a scenario that starts in a world.
  unfoldable pub entry_of : World → Scenario → ScenarioEntry
  entry_of w s = record {
    meta = meta_of s;
    calls = (script s (chaos_cluster env (size_of s) w)).1.calls;
  }

  -- What `init` has registered, for scenarios that start in a world.
  unfoldable pub init_registry : World → List ScenarioEntry
  unfolding register entry_of
  init_registry w = register (entry_of w packet_loss_id) (
      register (entry_of w isolation_id)
        (register (entry_of w stale_log_id) (register (entry_of w split_brain_id) [])))
