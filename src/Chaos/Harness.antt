-- ===== src/Chaos/Harness.antt =====
-- chaos/harness.go and the helpers of chaos/scenarios.go: a test harness that records what a scenario
-- reports. A scenario is the list of the calls that it makes on the harness, up to its end or to a
-- panic of its own; arguments are formatted already, and the clock is left out.
pub mod Reports
use raft_implementation.Prelude.{
  ◌⊎◌, inl, inr, String, Bool, true, false, not, ◌||◌, Option, none, some, List, [], ◌∷◌, ◌++◌, map,
  str_eq, ◌==◌, if◌then◌else◌, ◌<>◌, any, decimal,
}
use Prim.Native.String.{compare}
use text.Mathlib.Text.{starts_with, is_lt}
use raft_implementation.Raft.Node.{RaftNode, is_leader}
use raft_implementation.Raft.Accessors.{node_id, node_state, node_last_index}

pub record Harness : Type 0 where
  pub logs : List String
  pub failed : Bool

abbrev pub new_harness : Harness
new_harness = record { logs = []; failed = false }

unfoldable pub logf : String → Harness → Harness
logf msg h = record h { logs = h.logs ++ msg ∷ [] }

unfoldable pub errorf : String → Harness → Harness
errorf msg h = record { logs = h.logs ++ ("ERROR: " <> msg) ∷ []; failed = true }

-- Fatalf up to its panic.
unfoldable pub fatalf : String → Harness → Harness
fatalf msg h = record { logs = h.logs ++ ("FATAL: " <> msg) ∷ []; failed = true }

pub data TbCall : Type 0 where
  log_call error_call fatal_call : String → TbCall

-- The calls in their order; the panic of Fatalf ends the scenario.
unfoldable pub perform_calls : List TbCall → Harness → Harness
unfolding logf errorf fatalf
perform_calls [] h = h
perform_calls (log_call msg ∷ calls) h = perform_calls calls (logf msg h)
perform_calls (error_call msg ∷ calls) h = perform_calls calls (errorf msg h)
perform_calls (fatal_call msg ∷ calls) h = fatalf msg h

pub record ScenarioMeta : Type 0 where
  pub id : String
  pub label : String
  pub desc : String

-- `scenarioEntry`.
pub record ScenarioEntry : Type 0 where
  pub meta : ScenarioMeta
  pub calls : List TbCall

pub record ScenarioResult : Type 0 where
  pub name : String
  pub passed : Bool
  pub error : String
  pub logs : List String

unfoldable pub register : ScenarioEntry → List ScenarioEntry → List ScenarioEntry
register e registry = registry ++ e ∷ []

unfoldable pub find_entry : String → List ScenarioEntry → Option ScenarioEntry
find_entry id [] = none
find_entry id (e ∷ es) = let rest = find_entry id es in if str_eq e.meta.id id then some e else rest

-- `sort.Slice` by the ids.
unfoldable pub insert_meta : ScenarioMeta → List ScenarioMeta → List ScenarioMeta
insert_meta m [] = m ∷ []
insert_meta m (x ∷ xs) =
    let rest = insert_meta m xs in if is_lt (compare x.id m.id) then x ∷ rest else m ∷ x ∷ xs

unfoldable pub sort_metas : List ScenarioMeta → List ScenarioMeta
unfolding insert_meta
sort_metas [] = []
sort_metas (m ∷ ms) = insert_meta m (sort_metas ms)

unfoldable pub list_scenarios : List ScenarioEntry → List ScenarioMeta
unfolding sort_metas
list_scenarios registry = sort_metas (map (λ (e : ScenarioEntry). e.meta) registry)

abbrev pub is_report : String → Bool
is_report line = starts_with line "FATAL:" || starts_with line "ERROR:"

unfoldable pub first_report : List String → String
first_report [] = ""
first_report (l ∷ ls) = let rest = first_report ls in if is_report l then l else rest

abbrev pub result_of : String → Harness → ScenarioResult
result_of id h = record {
  name = id;
  passed = not h.failed;
  error = if h.failed then first_report h.logs else "";
  logs = h.logs;
}

unfoldable pub run_scenario : String → List ScenarioEntry → ScenarioResult
unfolding find_entry perform_calls first_report
run_scenario id registry = elim (find_entry id registry) [
  | none ↦ record { name = id; passed = false; error = "unknown scenario: " <> id; logs = [] }
  | some e ↦ result_of id (perform_calls e.calls new_harness)
]

-- `nodesConsistent` compares the last indexes alone.
unfoldable pub nodes_consistent : List RaftNode → Bool
nodes_consistent [] = true
nodes_consistent (n ∷ ns) = not (any (λ m. not (node_last_index m == node_last_index n)) ns)

-- One round of `waitForLeaderTB`: the only leader, or the call of Fatal for a second one.
pub data Found : Type 0 where
  two_leaders : Found
  found : Option RaftNode → Found

unfoldable pub look_for_leader : List RaftNode → Option RaftNode → Found
look_for_leader [] seen = found seen
look_for_leader (n ∷ ns) seen =
    let next = look_for_leader ns (some n) in
    let rest = look_for_leader ns seen in
    if is_leader (node_state n) then elim seen [ none ↦ next | some m ↦ two_leaders ] else rest
