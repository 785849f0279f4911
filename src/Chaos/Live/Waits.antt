-- ===== src/Chaos/Live/Waits.antt =====
-- chaos/scenarios.go: the helpers of the scenarios, and the loops that they share. The term, state or
-- commit index of a node is read from the node as it is at that moment.
use raft_implementation.Prelude.{
  ℕ, zero, suc, ◌+◌, String, not, Option, none, some, List, [], ◌∷◌, map, filter, str_eq,
  if◌then◌else◌, ◌<>◌, decimal,
}
use raft_implementation.Raft.Node.{is_leader}
use raft_implementation.Raft.Accessors.{node_id, node_state, node_last_index, current_term}
use raft_implementation.Raft.Membership.{Outcome, accepted_at, refused}
use raft_implementation.Chaos.Harness.{look_for_leader, Found, two_leaders, found, nodes_consistent}
use raft_implementation.Chaos.Live.{
  Surroundings, Live, Script, ◌>>=◌, ◌>>◌, pure, gets, Observation, tb_log, tb_error, tb_fatal,
  sleep, submit_to,
}

abbrev pub others : String → List String → List String
others id ids = filter (λ j. not (str_eq j id)) ids

abbrev pub with_term : String → ℕ → String
with_term id term = id <> " (term " <> decimal term <> ")"

-- The first node that is not the leader.
unfoldable pub first_other : String → List String → String
first_other leader [] = ""
first_other leader (i ∷ ids) =
    let rest = first_other leader ids in if str_eq i leader then rest else i

module _ (env : Surroundings) where
  open env use {World, rounds}

  abbrev pub Play : Type 0 → Type 0
  Play A = Script (Live env) A

  -- What one round makes of its look at the nodes, given the rest of the wait.
  abbrev pub leader_or : Option String × Live env → Live env → Found → Option String × Live env
  leader_or later l two_leaders = tb_fatal env "two leaders elected simultaneously" l
  leader_or later l (found none) = later
  leader_or later l (found (some n)) = pure (node_id n) l

  -- `waitForLeaderTB` on the nodes of these names.
  unfoldable pub wait_for_leader : ℕ → List String → Play String
  wait_for_leader zero ids l = tb_fatal env "no leader elected within timeout" l
  wait_for_leader (suc k) ids l =
      let later = (sleep env 15 >> wait_for_leader k ids) l in
      leader_or later l (look_for_leader (map l.nodes ids) none)

  unfoldable pub log_indexes : List String → Play Unit
  log_indexes [] = pure tt
  log_indexes (i ∷ ids) = do
    last ← gets (λ l. node_last_index (l.nodes i))
    tb_log env ("  " <> i <> " lastIndex=" <> decimal last)
    log_indexes ids

  -- `waitConsistentTB`.
  unfoldable pub wait_consistent : ℕ → List String → Play Unit
  wait_consistent zero ids l =
      (log_indexes ids >> tb_fatal env "nodes did not converge on the same log within timeout") l
  wait_consistent (suc k) ids l =
      let later = (sleep env 20 >> wait_consistent k ids) l in
      if nodes_consistent (map l.nodes ids) then pure tt l else later

  -- `for i < count { Submit(prefix-i) }`, where an error is fatal.
  unfoldable pub submit_each : String → String → String → ℕ → ℕ → Play Unit
  submit_each leader prefix what i zero = pure tt
  submit_each leader prefix what i (suc count) = do
    r ← submit_to env leader (prefix <> decimal i)
    elim r [
      | accepted_at index term ↦ submit_each leader prefix what (i + 1) count
      | refused e ↦ tb_fatal env (what <> ": raft: not the leader")
    ]

  -- The same with errors skipped, a pause after each, and a count of what was accepted.
  unfoldable pub count_accepted : String → String → Play Unit → ℕ → ℕ → ℕ → Play ℕ
  count_accepted leader prefix pause n i zero = pure n
  count_accepted leader prefix pause n i (suc count) = do
    r ← submit_to env leader (prefix <> decimal i)
    pause
    elim r [
      | accepted_at index term ↦ count_accepted leader prefix pause (n + 1) (i + 1) count
      | refused e ↦ count_accepted leader prefix pause n (i + 1) count
    ]

  unfoldable pub log_observations : List Observation → Play Unit
  log_observations [] = pure tt
  log_observations (o ∷ obs) = do
    tb_log env ("[obs " <> o.at <> "] " <> o.msg)
    log_observations obs

  -- The last loop of each scenario.
  unfoldable pub show_observations : Play Unit
  unfolding log_observations
  show_observations = do obs ← gets (λ l. l.observations); log_observations obs

  -- An error report if the node still leads.
  unfoldable pub check_stepped_down : String → String → Play Unit
  check_stepped_down id msg = do
    state ← gets (λ l. node_state (l.nodes id))
    if is_leader state then tb_error env msg else pure tt

  abbrev pub term_of : String → Play ℕ
  term_of id = gets (λ l. current_term (l.nodes id))

  -- `tb.Fatalf` for a refused submission.
  abbrev pub submitted : String → Outcome → Play Unit
  submitted what (accepted_at index term) = pure tt
  submitted what (refused e) = tb_fatal env (what <> ": raft: not the leader")
